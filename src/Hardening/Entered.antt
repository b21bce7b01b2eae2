-- ===== src/Hardening/Entered.antt =====
-- Which stages `HardenedStagePipeline::execute` of src/rust/src/hardening.rs finalizes.
use mathlib.Core.List.{reverse-append, reverse-cons, append-nil, append_assoc, map-append}
use ores_middleware.Prelude.Bytes.{Bytes}
use ores_middleware.Prelude.{
  ℕ, ◌≡◌, inl, inr, sym, ap, ◌∙◌, true, List, [], ◌∷◌, ◌++◌, reverse, Option, Bool-cases,
  if◌then◌else◌,
}
use ores_middleware.Stage.Nested.{StageDecision-cases}
use ores_middleware.Stage.{StageInput, StageResponse, continue, respond, reject}
use ores_middleware.Hardening.Attributes.{validate_stage_attributes, is_ok}
use ores_middleware.Hardening.Pipeline.{
  broken, LifecycleFailureKind, joined, push_event, failed, event, join_with_deadline,
  HardenedStage, unwind_hardened, execute_from, execute, monotonic_deadline,
}
use ores_middleware.Hardening.Finalizers.{
  Joined-cases, event_names, entry_names, unwind_hardened_names,
}

module _ {Value W : Type 0} (to_vec : Value → Option Bytes) where
  -- The stages that a run enters, in their order, and the stage whose request hook broke: a stage is
  -- entered when its request hook returns, and the next one is asked if it goes on with attributes
  -- that pass.
  unfoldable pub entering :
      Option ℕ → List (HardenedStage Value W) → StageInput Value → W → List Bytes × List Bytes
  unfolding join_with_deadline validate_stage_attributes
  entering deadline [] input w = ([], [])
  entering deadline (stage ∷ stages) input w =
      let (end, w') = stage.request deadline input w in
      elim (join_with_deadline end) [
        | joined decision ↦ elim decision [
          | continue next ↦
              if is_ok (validate_stage_attributes to_vec next.attributes)
              then (let (later, broke) = entering deadline stages next w' in
                  (stage.name ∷ later, broke))
              else (stage.name ∷ [], [])
          | respond response ↦ (stage.name ∷ [], [])
          | reject rejection ↦ (stage.name ∷ [], [])
        ]
        | broken kind ↦ ([], stage.name ∷ [])
      ]

reversed_cons : (x : Bytes) (xs ys : List Bytes) → reverse xs ++ x ∷ ys ≡ reverse (x ∷ xs) ++ ys
reversed_cons x xs ys =
    sym (append_assoc (reverse xs) (x ∷ []) ys) ∙ ap (λ l. l ++ ys) (sym (reverse-cons x xs))

module _ {Value W : Type 0} where
  entry_names_last :
      (entered : List (HardenedStage Value W × StageInput Value)) (stage : HardenedStage Value W)
      (input : StageInput Value)
      → entry_names (reverse (entered ++ (stage, input) ∷ []))
        ≡ stage.name ∷ entry_names (reverse entered)
  entry_names_last entered stage input =
      ap entry_names (reverse-append entered ((stage, input) ∷ []))

module _ {Value W : Type 0} (document : ℕ → Bytes → Option Bytes → Option Bytes) where
  -- the stage was entered and the run goes no further
  one_entered :
      (deadline : Option ℕ) (entered : List (HardenedStage Value W × StageInput Value))
      (stage : HardenedStage Value W) (input : StageInput Value) (response : StageResponse) (w : W)
      → event_names
          (unwind_hardened document deadline
            (entered ++ (stage, input) ∷ [])
            response
            w).0.finalizers
        ≡ (stage.name ∷ entry_names (reverse entered)) ++ []
  one_entered deadline entered stage input response w =
      unwind_hardened_names document deadline (entered ++ (stage, input) ∷ []) response w
      ∙ entry_names_last entered stage input
      ∙ sym (append-nil (stage.name ∷ entry_names (reverse entered)))

  -- the hook of `stage` broke: it is reported last
  broke :
      (deadline : Option ℕ) (entered : List (HardenedStage Value W × StageInput Value))
      (stage : HardenedStage Value W) (response : StageResponse) (w : W)
      (kind : LifecycleFailureKind)
      → event_names
          (push_event
            (event stage.name (failed kind))
            (unwind_hardened document deadline entered response w)).0.finalizers
        ≡ entry_names (reverse entered) ++ stage.name ∷ []
  broke deadline entered stage response w kind =
      map-append (λ e. e.stage) (unwind_hardened document deadline entered response w).0.finalizers
        _
      ∙ ap (λ l. l ++ stage.name ∷ []) (unwind_hardened_names document deadline entered response w)

module _ {Value W : Type 0} (to_vec : Value → Option Bytes)
    (document : ℕ → Bytes → Option Bytes → Option Bytes) where
  execute_from_finalizers :
      (deadline : Option ℕ) (entered : List (HardenedStage Value W × StageInput Value))
      (handler : StageInput Value → W → StageResponse × W) (stages : List (HardenedStage Value W))
      (input : StageInput Value) (w : W)
      → event_names
          (execute_from to_vec document deadline entered handler stages input w).0.finalizers
        ≡ (reverse (entering to_vec deadline stages input w).0 ++ entry_names (reverse entered))
          ++ (entering to_vec deadline stages input w).1
  unfolding execute_from entering
  execute_from_finalizers deadline entered handler [] input w =
      unwind_hardened_names document deadline entered _ _
      ∙ sym (append-nil (entry_names (reverse entered)))
  execute_from_finalizers deadline entered handler (stage ∷ stages) input w =
      let (end, w') = stage.request deadline input w in
      elim (Joined-cases (join_with_deadline end)) [
        | inl (decision, j) ↦ elim (StageDecision-cases decision) [
          | inl (next, d) ↦
              elim (Bool-cases (is_ok (validate_stage_attributes to_vec next.attributes))) [
                | inl good ↦
                    rw (j ∙ ap joined d, execute_from, entering, good)
                      (execute_from_finalizers deadline (entered ++ (stage, next) ∷ []) handler
                          stages next w'
                        ∙ ap (λ l. l ++ (entering to_vec deadline stages next w').1)
                            (ap (λ l. reverse (entering to_vec deadline stages next w').0 ++ l)
                                (entry_names_last entered stage next)
                              ∙ reversed_cons stage.name (entering to_vec deadline stages next w').0
                                  (entry_names (reverse entered))))
                | inr bad ↦
                    rw (j ∙ ap joined d, execute_from, entering, bad)
                      (one_entered document deadline entered stage next _ _)
              ]
          | inr (inl (response, d)) ↦
              rw (j ∙ ap joined d, execute_from, entering)
                (one_entered document deadline entered stage input _ _)
          | inr (inr (rejection, d)) ↦
              rw (j ∙ ap joined d, execute_from, entering)
                (one_entered document deadline entered stage input _ _)
        ]
        | inr (kind, j) ↦
            rw (j, execute_from, entering) (broke document deadline entered stage _ _ kind)
      ]

  -- When the attributes of the request pass, the finalizers that a run reports are those of the
  -- stages that it entered, each once and the innermost first, and after them that of the stage
  -- whose own request hook broke, if one did.
  pub execute_finalizers :
      (now_wall_ms now : ℕ) (stages : List (HardenedStage Value W))
      (handler : StageInput Value → W → StageResponse × W) (input : StageInput Value) (w : W)
      → is_ok (validate_stage_attributes to_vec input.attributes) ≡ true
      → let deadline = monotonic_deadline now_wall_ms now input.context.deadline_unix_ms in
        event_names (execute to_vec document now_wall_ms now stages handler input w).0.finalizers
        ≡ reverse (entering to_vec deadline stages input w).0
          ++ (entering to_vec deadline stages input w).1
  unfolding execute
  execute_finalizers now_wall_ms now stages handler input w good =
      rw (good, execute)
        (execute_from_finalizers (monotonic_deadline now_wall_ms now input.context.deadline_unix_ms)
            [] handler stages input w
          ∙ ap
              (λ l.
                l
                ++ (entering to_vec
                    (monotonic_deadline now_wall_ms now input.context.deadline_unix_ms) stages input
                    w).1)
              (append-nil _))
