-- ===== src/Composition.antt =====
-- The data and builders of src/rust/src/composition.rs: the middleware orders that a consumer writes
-- for itself. Texts are bytes in UTF-8.
pub mod Shape
pub mod Cycle
pub mod Validation
mod Positions
mod Cut
mod Filters
mod WellFormed
mod Sound
mod Kahn
mod Nodes
mod Loops
mod Visit
mod Acyclic
mod Valid
mod Plans
mod Tests
use ores_middleware.Prelude.Bytes.{Bytes}
use ores_middleware.Prelude.{Bool, true, false, List, [], ◌∷◌, ◌++◌, Option, none, some}

pub data OrderIssueSeverity : Type 0 where
  error advisory : OrderIssueSeverity

pub record MiddlewareOrderingRule : Type 0 where
  pub before : Bytes
  pub after : Bytes
  pub code : Bytes
  pub message : Bytes
  pub severity : OrderIssueSeverity
  pub require_both : Bool

pub record MiddlewareOrderPolicy : Type 0 where
  pub required : List Bytes
  pub forbidden : List Bytes
  pub unique : List Bytes
  pub first : Option Bytes
  pub rules : List MiddlewareOrderingRule

pub record MiddlewareCompositionPlan : Type 0 where
  pub stages : List Bytes
  pub policy : MiddlewareOrderPolicy

pub record MiddlewareOrderIssue : Type 0 where
  pub code : Bytes
  pub message : Bytes
  pub severity : OrderIssueSeverity
  pub stage : Option Bytes

-- `MiddlewareOrderingRule::before` and the methods that change a rule
abbrev pub rule_before : Bytes → Bytes → Bytes → Bytes → MiddlewareOrderingRule
rule_before earlier later code message = record {
  before = earlier;
  after = later;
  code = code;
  message = message;
  severity = error;
  require_both = false;
}

abbrev pub into_advisory : MiddlewareOrderingRule → MiddlewareOrderingRule
into_advisory rule = record rule { severity = advisory }

abbrev pub requiring_both : MiddlewareOrderingRule → MiddlewareOrderingRule
requiring_both rule = record rule { require_both = true }

-- `MiddlewareOrderPolicy::new` and its builders
abbrev pub new_policy : MiddlewareOrderPolicy
new_policy = record { required = []; forbidden = []; unique = []; first = none; rules = [] }

abbrev pub require : Bytes → MiddlewareOrderPolicy → MiddlewareOrderPolicy
require stage policy = record policy { required = policy.required ++ stage ∷ [] }

abbrev pub forbid : Bytes → MiddlewareOrderPolicy → MiddlewareOrderPolicy
forbid stage policy = record policy { forbidden = policy.forbidden ++ stage ∷ [] }

abbrev pub only_once : Bytes → MiddlewareOrderPolicy → MiddlewareOrderPolicy
only_once stage policy = record policy { unique = policy.unique ++ stage ∷ [] }

abbrev pub require_first : Bytes → MiddlewareOrderPolicy → MiddlewareOrderPolicy
require_first stage policy = record policy { first = some stage }

abbrev pub with_rule : MiddlewareOrderingRule → MiddlewareOrderPolicy → MiddlewareOrderPolicy
with_rule rule policy = record policy { rules = policy.rules ++ rule ∷ [] }

-- `MiddlewareCompositionPlan::new` and its builders
abbrev pub new_plan : MiddlewareCompositionPlan
new_plan = record { stages = []; policy = new_policy }

abbrev pub with_stage : Bytes → MiddlewareCompositionPlan → MiddlewareCompositionPlan
with_stage name plan = record plan { stages = plan.stages ++ name ∷ [] }

abbrev pub with_policy :
    MiddlewareOrderPolicy → MiddlewareCompositionPlan → MiddlewareCompositionPlan
with_policy policy plan = record plan { policy = policy }
