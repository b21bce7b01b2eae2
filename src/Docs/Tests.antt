-- ===== src/Docs/Tests.antt =====
-- Runs of src/rust/src/docs_serving.rs, and the theorems at concrete inputs. The qualities of the tests are
-- natural numbers in tenths, written as one digit.
use ores_middleware.Prelude.Bytes.{Bytes, codes}
use ores_middleware.Prelude.{
  ℕ, ◌-◌, ◌≡◌, ◌↔◌, ◌⊎◌, refl, true, [], ◌∷◌, Option, none, some, ltb, leb,
}
use ores_middleware.Routes.Paths.{before_query}
use ores_middleware.Docs.Accept.{
  catalog, html, Qualities, negotiate_generic, accepts_representation,
}
use ores_middleware.Docs.{DocsRequest, stopped_for_evaluation, passed, read_format, trimmed, decide}
use ores_middleware.Docs.Protected.{IsProtected, decide-IsProtected}
use ores_middleware.Docs.Selected.{Match, Selected}
use ores_middleware.Docs.Served.{IsServed, IsWhole, IsDocsPath, fixed_of, reads, decide-serves_iff}

abbrev digit : Bytes → Option ℕ
digit (c ∷ []) = some (c - b'0')
digit _ = none

abbrev tenths : Qualities
tenths = record {
  F = ℕ;
  one = 9;
  parse = digit;
  in_unit = λ q. leb q 9;
  positive = λ q. ltb 0 q;
  greater = λ a b. ltb b a;
}

abbrev request : DocsRequest
request = record {
  method = codes "get";
  path = codes "/docs/api?v=1";
  accept = some (codes "text/html;q=3, application/json;q=7");
  format = none;
  runtime_contract_digest = none;
  docs_contract_digest = none;
}

catalog_chosen : IsServed (decide tenths request) catalog
unfolding decide
catalog_chosen = (refl, refl, refl)

-- a fixed document cannot be asked for in another format
openapi_only :
    (decide tenths
      (record request { path = codes "/openapi.json"; format = some (codes "html") })).status
    ≡ some 406
unfolding decide
openapi_only = refl

digest_missing :
    (decide tenths (record request { runtime_contract_digest = some (codes "ab") })).action
    ≡ stopped_for_evaluation
unfolding decide
digest_missing = refl

decide-serves_iff_example :
    (IsServed (decide tenths request) catalog ↔ (
      IsDocsPath tenths (before_query (codes "/docs/api?v=1"))
      × (reads tenths (codes "get") ≡ true)
      × Match (trimmed none) (trimmed none)
      × Selected tenths (fixed_of tenths request) (read_format none) request.accept catalog
      × (accepts_representation tenths request.accept catalog ≡ true)))
    × IsWhole (decide tenths request)
decide-serves_iff_example = decide-serves_iff tenths request catalog

chosen : negotiate_generic tenths request.accept ≡ some catalog
unfolding negotiate_generic
chosen = refl

abbrev page : DocsRequest
page = record request { accept = some (codes "text/html") }

page_run : IsServed (decide tenths page) html
unfolding decide
page_run = (refl, refl, refl)

decide-IsProtected_example : (decide tenths page ≡ passed) ⊎ IsProtected (decide tenths page)
decide-IsProtected_example = decide-IsProtected tenths page
