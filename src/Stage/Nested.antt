-- ===== src/Stage/Nested.antt =====
-- `StagePipeline::execute` of src/rust/src/stage.rs against its specification: stages nested in one
-- another, each seeing the response of what stands inside it.
use mathlib.Core.Path.{subst}
use mathlib.Core.List.{reverse-append}
use ores_middleware.Prelude.Bytes.{Bytes, Bytes-discrete, codes}
use ores_middleware.Prelude.Maps.{lookup, lookup-insert_two, some_inj}
use ores_middleware.Prelude.{
  ℕ, ◌≡◌, ◌⊎◌, inl, inr, refl, sym, ap, ◌∙◌, Bool, true, false, List, [], ◌∷◌, ◌++◌, Option, none,
  some,
}
use ores_middleware.Stage.{
  StageInput, StageResponse, StageRejection, StageDecision, continue, respond, reject, Handler,
  problem, unwind_from, unwind, execute_from, execute,
}

-- The response to a rejection has its status and depends on its status, code and headers alone; it
-- is never cached, and its content type is that of a problem document, whatever headers the stage
-- asked for; each other header is the stage's own.
pub problem_lem :
    (problem_body : ℕ → Bytes → Bytes) (r : StageRejection) (message k : Bytes)
    → ((problem problem_body r).status ≡ r.status)
      × (problem problem_body (record r { message = message }) ≡ problem problem_body r)
      × (lookup Bytes-discrete (codes "cache-control") (problem problem_body r).headers
          ≡ some (codes "no-store"))
      × (lookup Bytes-discrete (codes "content-type") (problem problem_body r).headers
          ≡ some (codes "application/problem+json"))
      × ((k ≡ codes "cache-control")
          ⊎ (k ≡ codes "content-type")
          ⊎ (lookup Bytes-discrete k (problem problem_body r).headers
              ≡ lookup Bytes-discrete k r.headers))
unfolding problem
problem_lem problem_body r message k =
    let (cached, typed, others) =
      lookup-insert_two Bytes-discrete (codes "cache-control") (codes "content-type") k
        (codes "no-store") (codes "application/problem+json") r.headers (cc) in
    (refl, refl, cached, typed, others)

abbrev pub is_continue : {Value : Type 0} → StageDecision Value → Bool
is_continue (continue _) = true
is_continue _ = false

pub StageDecision-cases :
    {Value : Type 0} (d : StageDecision Value)
    → ((next : StageInput Value) × (d ≡ continue next))
      ⊎ ((response : StageResponse) × (d ≡ respond response))
      ⊎ ((rejection : StageRejection) × (d ≡ reject rejection))
StageDecision-cases (continue next) = inl (next, refl)
StageDecision-cases (respond response) = inr (inl (response, refl))
StageDecision-cases (reject rejection) = inr (inr (rejection, refl))

module _ {Value W : Type 0} where
  -- the input and state with which the stage after `stages` is entered, if all of these go on
  unfoldable pub passes :
      List (Handler Value W) → StageInput Value → W → Option (StageInput Value × W)
  passes [] input w = some (input, w)
  passes (stage ∷ stages) input w =
      let (decision, w') = stage.request input w in
      elim decision [ continue next ↦ passes stages next w' | _ ↦ none ]

module _ {Value W : Type 0} (problem_body : ℕ → Bytes → Bytes) where
  -- The first stage is outermost. A stage that goes on hands its input inward and its hook gets the
  -- response from inside; one that answers gets its own answer back, with the input it received.
  pub nested :
      List (Handler Value W)
      → (StageInput Value → W → StageResponse × W)
      → StageInput Value
      → W
      → StageResponse × W
  nested [] handler input w = handler input w
  nested (stage ∷ stages) handler input w =
      let (decision, w') = stage.request input w in
      elim decision [
        | continue next ↦
            let (inner, w'') = nested stages handler next w' in stage.response next inner w''
        | respond response ↦ stage.response input response w'
        | reject rejection ↦ stage.response input (problem problem_body rejection) w'
      ]

  unwind_last :
      (entered : List (Handler Value W × StageInput Value)) (stage : Handler Value W)
      (input : StageInput Value) (response : StageResponse) (w : W)
      → unwind problem_body (entered ++ (stage, input) ∷ []) response w
        ≡ (let (next, w') = stage.response input response w in unwind problem_body entered next w')
  unfolding unwind unwind_from
  unwind_last entered stage input response w = rw (reverse-append entered ((stage, input) ∷ []))

  execute_from-nested :
      (entered : List (Handler Value W × StageInput Value))
      (handler : StageInput Value → W → StageResponse × W) (stages : List (Handler Value W))
      (input : StageInput Value) (w : W)
      → execute_from problem_body entered handler stages input w ≡ (
          let (response, w') = nested stages handler input w in
          unwind problem_body entered response w')
  unfolding execute_from nested
  execute_from-nested entered handler [] input w = refl
  execute_from-nested entered handler (stage ∷ stages) input w =
      elim (StageDecision-cases (stage.request input w).0) [
        | inl (next, e) ↦
            rw (e, execute_from)
              (rw (e, nested)
                (execute_from-nested (entered ++ (stage, next) ∷ []) handler stages next
                    (stage.request input w).1
                  ∙ unwind_last entered stage next _ _))
        | inr (inl (response, e)) ↦
            rw (e, execute_from) (rw (e, nested) (unwind_last entered stage input _ _))
        | inr (inr (rejection, e)) ↦
            rw (e, execute_from) (rw (e, nested) (unwind_last entered stage input _ _))
      ]

  -- The loop of `execute` with its list of entered stages and the reversed `unwind` after it
  -- computes the nested specification: the response hooks run from the innermost entered stage out,
  -- each on the input that the stage passed on, or that it received if it answered itself.
  pub execute-nested :
      (handler : StageInput Value → W → StageResponse × W) (stages : List (Handler Value W))
      (input : StageInput Value) (w : W)
      → execute problem_body stages handler input w ≡ nested stages handler input w
  unfolding execute unwind unwind_from
  execute-nested handler stages input w = execute_from-nested [] handler stages input w

  nested_stop :
      (first later : List (Handler Value W)) (stage : Handler Value W)
      (handler handler' : StageInput Value → W → StageResponse × W) (input : StageInput Value)
      (w : W) {i : StageInput Value} {v : W}
      → passes first input w ≡ some (i, v)
      → is_continue (stage.request i v).0 ≡ false
      → nested (first ++ stage ∷ later) handler input w
        ≡ nested (first ++ stage ∷ []) handler' input w
  unfolding nested passes
  nested_stop [] later stage handler handler' input w e stop =
      let here : is_continue (stage.request input w).0 ≡ false =
        subst (λ p. is_continue (stage.request p.0 p.1).0 ≡ false) (sym (some_inj e)) stop in
      elim (StageDecision-cases (stage.request input w).0) [
        | inl (next, d) ↦ absurd (cc (ap is_continue d, here))
        | inr (inl (response, d)) ↦ rw (d, nested)
        | inr (inr (rejection, d)) ↦ rw (d, nested)
      ]
  nested_stop (s ∷ first) later stage handler handler' input w e stop =
      elim (StageDecision-cases (s.request input w).0) [
        | inl (next, d) ↦
            rw (d, nested)
              (ap (λ inner. s.response next inner.0 inner.1)
                (nested_stop first later stage handler handler' next (s.request input w).1
                  (rw (d, passes) at e) stop))
        | inr (inl (response, d)) ↦ rw (d, nested)
        | inr (inr (rejection, d)) ↦ rw (d, nested)
      ]

  -- When a stage answers or rejects, neither the stages after it nor the handler matter: they are
  -- not called, and the result is that of the pipeline which ends with this stage.
  pub execute_stop :
      (first later : List (Handler Value W)) (stage : Handler Value W)
      (handler handler' : StageInput Value → W → StageResponse × W) (input : StageInput Value)
      (w : W) {i : StageInput Value} {v : W}
      → passes first input w ≡ some (i, v)
      → is_continue (stage.request i v).0 ≡ false
      → execute problem_body (first ++ stage ∷ later) handler input w
        ≡ execute problem_body (first ++ stage ∷ []) handler' input w
  execute_stop first later stage handler handler' input w e stop =
      execute-nested handler (first ++ stage ∷ later) input w
      ∙ nested_stop first later stage handler handler' input w e stop
      ∙ sym (execute-nested handler' (first ++ stage ∷ []) input w)
