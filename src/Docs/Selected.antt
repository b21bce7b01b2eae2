-- ===== src/Docs/Selected.antt =====
-- Which representation `decide` of src/rust/src/docs_serving.rs selects, and its check of the digests.
use mathlib.Core.Logic.{⊎_elim}
use ores_middleware.Prelude.Bytes.{Bytes, bytes_eq, bytes_eq_iff}
use ores_middleware.Prelude.Maps.{some_inj}
use ores_middleware.Prelude.{
  ◌≡◌, ◌↔◌, ◌⊎◌, refl, sym, ap, ◌∙◌, inl, inr, Bool, true, false, ◌||◌, Option, none, some, arith,
  Bool-cases, if◌then◌else◌,
}
use ores_middleware.Docs.Accept.{
  Representation, html, catalog, openapi, openrpc, connect, hyper_schema, Qualities, as_str,
  parse_representation, representation_eq, negotiate_generic,
}
use ores_middleware.Docs.{
  Format, absent, unknown, known, valid_digest, invalid_digest, differs, digest_failure, trimmed,
  select,
}
use ores_middleware.Docs.Negotiated.{representation_eq_refl}

-- The name of a representation is read back as it.
parse_representation-as_str : (r : Representation) → parse_representation (as_str r) ≡ some r
unfolding parse_representation as_str
parse_representation-as_str html = refl
parse_representation-as_str catalog = refl
parse_representation-as_str openapi = refl
parse_representation-as_str openrpc = refl
parse_representation-as_str connect = refl
parse_representation-as_str hyper_schema = refl

representation_eq_lem : (a b : Representation) → representation_eq a b ≡ true → a ≡ b
unfolding representation_eq
representation_eq_lem a b h = some_inj (
    sym (parse_representation-as_str a)
    ∙ (ap parse_representation ((bytes_eq_iff (as_str a) (as_str b)).0 h)
        ∙ parse_representation-as_str b))

-- The digests of the contract: where the runtime has one it is that of the documents, and both are well
-- formed.
abbrev pub Match : Option Bytes → Option Bytes → Type 0
Match none none = Unit
Match none (some docs) = valid_digest docs ≡ true
Match (some runtime) docs = (docs ≡ some runtime) × (valid_digest runtime ≡ true)

failure_of : Option Bytes → Option Bytes → Bool
failure_of runtime docs =
    if invalid_digest runtime || invalid_digest docs then true else differs runtime docs

Match-iff : (runtime docs : Option Bytes) → (failure_of runtime docs ≡ false) ↔ Match runtime docs
unfolding failure_of differs
Match-iff none none = (λ e. tt, λ m. refl)
Match-iff none (some docs) = (λ e. ground (arith, e), λ m. ground (arith, m))
Match-iff (some runtime) none = (λ e. absurd (ground (arith, e)), λ m. absurd (cc m.0))
Match-iff (some runtime) (some docs) = (
  λ e.
      let same : bytes_eq docs runtime ≡ true = ground (arith, e) in
      (ap some ((bytes_eq_iff docs runtime).0 same), ground (arith, e)),
  λ m.
      let same : docs ≡ runtime = some_inj m.0 in
      let equal = (bytes_eq_iff docs runtime).1 same in
      let valid : valid_digest docs ≡ true = rw same m.1 in ground (arith, m.1, valid, equal),
)

-- The representation of a generic path is that of the format, or else the negotiated one. A fixed path has
-- its own, which a format may only repeat.
abbrev pub Selected :
    Qualities → Option Representation → Format → Option Bytes → Representation → Type 0
Selected f32 none format accept r =
    (format ≡ known r) ⊎ (format ≡ absent) × (negotiate_generic f32 accept ≡ some r)
Selected f32 (some fixed) format accept r = (fixed ≡ r) × ((format ≡ absent) ⊎ (format ≡ known r))

known_inj : {a b : Representation} → known a ≡ known b → a ≡ b
known_inj e = cc

module _ (f32 : Qualities) where
  pub select_iff :
      (fixed : Option Representation) (format : Format) (accept : Option Bytes) (r : Representation)
      → (select f32 fixed format accept ≡ some r) ↔ Selected f32 fixed format accept r
  unfolding select
  select_iff none unknown accept r =
      (λ e. absurd (cc e), ⊎_elim (λ e. absurd (cc e)) (λ e. absurd (cc e.0)))
  select_iff none absent accept r = (λ e. inr (refl, e), ⊎_elim (λ e. absurd (cc e)) (λ e. e.1))
  select_iff none (known a) accept r =
      (λ e. inl (ap known (some_inj e)), ⊎_elim (λ e. ap some (known_inj e)) (λ e. absurd (cc e.0)))
  select_iff (some f) unknown accept r =
      (λ e. absurd (cc e), λ s. ⊎_elim (λ e. absurd (cc e)) (λ e. absurd (cc e)) s.1)
  select_iff (some f) absent accept r = (λ e. (some_inj e, inl refl), λ s. ap some s.0)
  select_iff (some f) (known a) accept r = elim (Bool-cases (representation_eq a f)) [
    | inl same ↦
        let equal = representation_eq_lem a f same in
        rw same (λ e. (some_inj e, inr (ap known (equal ∙ some_inj e))), λ s. ap some s.0)
    | inr other ↦ rw other (
      λ e. absurd (cc e),
      λ s. absurd (
          ⊎_elim (λ e. cc e)
            (λ e.
              let equal : a ≡ f = known_inj e ∙ sym s.0 in
              cc (sym other ∙ (ap (λ x. representation_eq x f) equal ∙ representation_eq_refl f)))
            s.1),
    )
  ]

pub digest_iff :
    (runtime docs : Option Bytes)
    → (digest_failure runtime docs ≡ false) ↔ Match (trimmed runtime) (trimmed docs)
unfolding digest_failure failure_of
digest_iff runtime docs = Match-iff (trimmed runtime) (trimmed docs)
