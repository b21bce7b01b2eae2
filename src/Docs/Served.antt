-- ===== src/Docs/Served.antt =====
-- When `decide` of src/rust/src/docs_serving.rs serves a document.
use mathlib.Core.Logic.{⊎_elim}
use ores_middleware.Prelude.Bytes.{Bytes, codes, one_of}
use ores_middleware.Prelude.Maps.{some_inj}
use ores_middleware.Prelude.{
  ◌≡◌, ◌↔◌, ◌⊎◌, refl, sym, ap, ◌∙◌, inl, inr, Bool, true, false, not, ◌&&◌, [], ◌∷◌, Option, none,
  some, Bool-cases, Option-cases, if◌then◌else◌,
}
use ores_middleware.Routes.Paths.{before_query}
use ores_middleware.Docs.Accept.{Representation, Qualities, accepts_representation}
use ores_middleware.Docs.{
  DocsRequest, DocsDecision, serve, passed, method_not_allowed, stopped_for_evaluation, reject,
  fixed_representation, is_generic_path, digest_failure, trimmed, to_ascii_uppercase, read_format,
  select, is_none, serve_selected, decide,
}
use ores_middleware.Docs.Selected.{Match, Selected, select_iff, digest_iff}

-- The answer is the document in that representation, with status 200.
abbrev pub IsServed : DocsDecision → Representation → Type 0
IsServed d r = (d.action ≡ serve) × (d.status ≡ some 200) × (d.representation ≡ some r)

-- what `serve` stands for is a document
abbrev pub IsWhole : DocsDecision → Type 0
IsWhole d = (d.action ≡ serve) ↔ (r : Representation) × IsServed d r

of_served :
    (d : DocsDecision) → ((d.action ≡ serve) → (r : Representation) × IsServed d r) → IsWhole d
of_served d whole = (whole, λ (r, served). served.0)

passed-IsWhole : IsWhole passed
passed-IsWhole = of_served passed (λ e. absurd (cc e))

module _ (f32 : Qualities) where
  serve_selected_iff :
      (request : DocsRequest) (chosen : Option Representation) (r : Representation)
      → IsServed (serve_selected f32 request chosen) r
        ↔ ((chosen ≡ some r) × (accepts_representation f32 request.accept r ≡ true))
  unfolding serve_selected reject
  serve_selected_iff request none r = (λ e. absurd (cc e.2), λ a. absurd (cc a.0))
  serve_selected_iff request (some c) r =
      elim (Bool-cases (accepts_representation f32 request.accept c)) [
        | inl fine ↦ rw fine (
          λ e. (e.2, ap (accepts_representation f32 request.accept) (sym (some_inj e.2)) ∙ fine),
          λ a. (refl, refl, a.0),
        )
        | inr out ↦ rw out (
          λ e. absurd (cc e.0),
          λ a. absurd (
              cc (sym out ∙ (ap (accepts_representation f32 request.accept) (some_inj a.0) ∙ a.1))),
        )
      ]

  serve_selected-IsWhole :
      (request : DocsRequest) (chosen : Option Representation)
      → IsWhole (serve_selected f32 request chosen)
  unfolding serve_selected reject
  serve_selected-IsWhole request none =
      of_served (serve_selected f32 request none) (λ e. absurd (cc e))
  serve_selected-IsWhole request (some c) =
      elim (Bool-cases (accepts_representation f32 request.accept c)) [
        | inl fine ↦
            of_served (serve_selected f32 request (some c)) (λ e. (c, rw fine (refl, refl, refl)))
        | inr out ↦ of_served (serve_selected f32 request (some c)) (λ e. absurd (cc (rw out at e)))
      ]

  abbrev pub fixed_of : DocsRequest → Option Representation
  fixed_of request =
      let path = before_query request.path in
      if is_generic_path path then none else fixed_representation path

  abbrev pub IsDocsPath : Bytes → Type 0
  IsDocsPath path =
      (is_generic_path path ≡ true)
      ⊎ (fixed : Representation) × (fixed_representation path ≡ some fixed)

  -- the method is GET or HEAD
  abbrev pub reads : Bytes → Bool
  reads method = one_of (to_ascii_uppercase method) (codes "GET" ∷ codes "HEAD" ∷ [])

  abbrev gate : Bool → Bool → Bool → DocsDecision → DocsDecision
  gate outside allowed failed d =
      if outside
      then passed
      else if not allowed
      then reject method_not_allowed 405 true
      else if failed
      then reject stopped_for_evaluation 503 false
      else d

  gate_iff :
      (outside allowed failed : Bool) (d : DocsDecision) (r : Representation)
      → IsServed (gate outside allowed failed d) r
        ↔ ((outside ≡ false) × (allowed ≡ true) × (failed ≡ false) × IsServed d r)
  unfolding reject
  gate_iff true allowed failed d r = (λ e. absurd (cc e.0), λ a. absurd (cc a.0))
  gate_iff false false failed d r = (λ e. absurd (cc e.0), λ a. absurd (cc a.1))
  gate_iff false true true d r = (λ e. absurd (cc e.0), λ a. absurd (cc a.2))
  gate_iff false true false d r = (λ e. (refl, refl, refl, e), λ a. a.3)

  gate-IsWhole :
      (outside allowed failed : Bool) (d : DocsDecision)
      → IsWhole d
      → IsWhole (gate outside allowed failed d)
  unfolding reject
  gate-IsWhole true allowed failed d w = passed-IsWhole
  gate-IsWhole false false failed d w =
      of_served (reject method_not_allowed 405 true) (λ e. absurd (cc e))
  gate-IsWhole false true true d w =
      of_served (reject stopped_for_evaluation 503 false) (λ e. absurd (cc e))
  gate-IsWhole false true false d w = w

  path_iff :
      (path : Bytes)
      → ((not (is_generic_path path) && is_none f32 (fixed_representation path)) ≡ false)
        ↔ IsDocsPath path
  path_iff path = elim (Bool-cases (is_generic_path path)) [
    | inl e ↦ rw e (λ h. inl refl, λ h. refl)
    | inr e ↦ elim (Option-cases (fixed_representation path)) [
      | inl out ↦
          rw (e, out) (λ h. absurd (cc h), ⊎_elim (λ h. absurd (cc h)) (λ h. absurd (cc h.1)))
      | inr (fixed, is) ↦ rw (e, is) (λ h. inr (fixed, refl), λ h. refl)
    ]
  ]

  -- A request is served a representation, with status 200, exactly when its path is one of the documents, its
  -- method is GET or HEAD in any case of the letters, the digests match, the representation is the selected
  -- one and the Accept header admits it; and the action is to serve only when some representation is served.
  pub decide-serves_iff :
      (request : DocsRequest) (r : Representation)
      → (IsServed (decide f32 request) r ↔ (
          IsDocsPath (before_query request.path)
          × (reads request.method ≡ true)
          × Match (trimmed request.runtime_contract_digest) (trimmed request.docs_contract_digest)
          × Selected f32 (fixed_of request) (read_format request.format) request.accept r
          × (accepts_representation f32 request.accept r ≡ true)))
        × IsWhole (decide f32 request)
  unfolding decide
  decide-serves_iff request r =
      let path = before_query request.path in
      let outside = not (is_generic_path path) && is_none f32 (fixed_representation path) in
      let chosen = select f32 (fixed_of request) (read_format request.format) request.accept in
      let failure = digest_failure request.runtime_contract_digest request.docs_contract_digest in
      let gated =
        gate_iff outside (reads request.method) failure (serve_selected f32 request chosen) r in
      let docs = path_iff path in
      let digests = digest_iff request.runtime_contract_digest request.docs_contract_digest in
      let served = serve_selected_iff request chosen r in
      let selected =
        select_iff f32 (fixed_of request) (read_format request.format) request.accept r in
      (
        (
          λ e.
              let (p, m, f, d) = gated.0 e in
              let (c, a) = served.0 d in (docs.0 p, m, digests.0 f, selected.0 c, a),
          λ (p, m, d, s, a). gated.1 (docs.1 p, m, digests.1 d, served.1 (selected.1 s, a)),
        ),
        gate-IsWhole outside (reads request.method) failure (serve_selected f32 request chosen)
            (serve_selected-IsWhole request chosen),
      )
