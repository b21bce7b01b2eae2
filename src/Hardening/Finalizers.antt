-- ===== src/Hardening/Finalizers.antt =====
-- What `HardenedStagePipeline::execute` of src/rust/src/hardening.rs reports of its finalizers, and
-- what a fail-closed finalizer that breaks does to the response.
use mathlib.Core.List.{append-nil, append_assoc, map-append}
use ores_middleware.Prelude.Bytes.{Bytes}
use ores_middleware.Prelude.{
  ℕ, ◌≡◌, ◌⊎◌, inl, inr, refl, sym, ap, ◌∙◌, List, [], ◌∷◌, ◌++◌, reverse, map, Option, none, some,
  if◌then◌else◌,
}
use ores_middleware.Stage.{StageInput, StageResponse}
use ores_middleware.Hardening.Pipeline.{
  succeeded, failed, FinalizerEvent, LifecycleFailureKind, Joined, joined, broken,
  join_with_deadline, HardenedStage, is_fail_closed, event, Unwinding, finalized, unwind_from,
  unwind_hardened,
}

pub Joined-cases :
    {A : Type 0} (j : Joined A)
    → ((a : A) × (j ≡ joined a)) ⊎ ((kind : LifecycleFailureKind) × (j ≡ broken kind))
Joined-cases (joined a) = inl (a, refl)
Joined-cases (broken kind) = inr (kind, refl)

abbrev pub event_names : List FinalizerEvent → List Bytes
event_names = map (λ e. e.stage)

abbrev pub stage_names : {Value W : Type 0} → List (HardenedStage Value W) → List Bytes
stage_names = map (λ s. s.name)

abbrev pub entry_names :
    {Value W : Type 0} → List (HardenedStage Value W × StageInput Value) → List Bytes
entry_names = map (λ s. s.0.name)

-- the input of the first stage, in the order of the events, that fails closed and whose hook broke
unfoldable pub closing :
    {Value W : Type 0}
    → List (HardenedStage Value W × StageInput Value)
    → List FinalizerEvent
    → Option (StageInput Value)
closing ((stage, input) ∷ entered) (e ∷ events) = elim e.outcome [
  | succeeded ↦ closing entered events
  | failed kind ↦
      if is_fail_closed stage.finalizer_failure_mode then some input else closing entered events
]
closing [] events = none
closing (_ ∷ _) [] = none

-- the event of one round
abbrev event_of : {Value W : Type 0} → HardenedStage Value W → Joined StageResponse → FinalizerEvent
event_of stage (joined next) = event stage.name succeeded
event_of stage (broken kind) = event stage.name (failed kind)

module _ {Value W : Type 0} (document : ℕ → Bytes → Option Bytes → Option Bytes) where
  finalized_names :
      (stage : HardenedStage Value W) (input : StageInput Value) (u : Unwinding)
      (j : Joined StageResponse)
      → event_names (finalized document stage input u j).finalizers
        ≡ event_names u.finalizers ++ stage.name ∷ []
  unfolding finalized
  finalized_names stage input u (joined next) = map-append (λ e. e.stage) u.finalizers _
  finalized_names stage input u (broken kind) = map-append (λ e. e.stage) u.finalizers _

  unwind_from_names :
      (deadline : Option ℕ) (entered : List (HardenedStage Value W × StageInput Value))
      (u : Unwinding) (w : W)
      → event_names (unwind_from document deadline entered u w).0.finalizers
        ≡ event_names u.finalizers ++ entry_names entered
  unfolding unwind_from
  unwind_from_names deadline [] u w = sym (append-nil (event_names u.finalizers))
  unwind_from_names deadline ((stage, input) ∷ entered) u w =
      let (end, w') = stage.response deadline input u.response w in
      unwind_from_names deadline entered (finalized document stage input u (join_with_deadline end))
        w'
      ∙ ap (λ l. l ++ entry_names entered) (finalized_names stage input u (join_with_deadline end))
      ∙ append_assoc (event_names u.finalizers) (stage.name ∷ []) (entry_names entered)

  -- The finalizers that `unwind_hardened` reports are those of all entered stages, each once, the
  -- stage entered last first, whether its hook succeeded or broke.
  pub unwind_hardened_names :
      (deadline : Option ℕ) (entered : List (HardenedStage Value W × StageInput Value))
      (response : StageResponse) (w : W)
      → event_names (unwind_hardened document deadline entered response w).0.finalizers
        ≡ entry_names (reverse entered)
  unfolding unwind_hardened
  unwind_hardened_names deadline entered response w =
      unwind_from_names deadline (reverse entered) _ w
