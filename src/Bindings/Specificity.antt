-- ===== src/Bindings/Specificity.antt =====
-- The scores of src/rust/src/rate_limit_bindings.rs against the order of specificity that
-- docs/route-rate-limit-bindings.md gives.
use ores_middleware.Prelude.Bytes.{Bytes}
use ores_middleware.Prelude.Maps.{some_inj}
use ores_middleware.Prelude.{
  ℕ, ◌+◌, ◌*◌, ◌%◌, ◌≤◌, ◌<◌, ◌≡◌, ◌↔◌, refl, Bool, true, false, not, List, [], ◌∷◌, Option, none,
  some, arith, if◌then◌else◌,
}
use ores_middleware.Routes.{option_eq}
use ores_middleware.Routes.Paths.{u32_mod}
use ores_middleware.Bindings.Paths.{static_segment_count, path_template_matches}
use ores_middleware.Bindings.{RouteRateLimitBindingSelector, RouteRateLimitBindingRequest}
use ores_middleware.Bindings.Selectors.{IsValidTemplate}
use ores_middleware.Bindings.Resolve.{
  method_excluded, operation_excluded, base_score, template_score, match_score,
}
use ores_middleware.Bindings.Short.{statics-le}
use ores_middleware.Bindings.Ordered.{
  bit, given, methods_of, parts_of, specificity, IsBelow, IsScore, IsScore-IsBelow,
}

base_score-given :
    (methods : List Bytes) (operation : Option Bytes)
    → base_score methods operation ≡ methods_of methods + 10000 * given operation
base_score-given [] none = refl
base_score-given [] (some o) = refl
base_score-given (m ∷ methods) none = refl
base_score-given (m ∷ methods) (some o) = refl

base_score-small :
    (methods : List Bytes) (operation : Option Bytes)
    → (methods_of methods ≤ 1) × (given operation ≤ 1)
base_score-small [] none = (omega arith, omega arith)
base_score-small [] (some o) = (omega arith, omega arith)
base_score-small (m ∷ methods) none = (omega arith, omega arith)
base_score-small (m ∷ methods) (some o) = (omega arith, omega arith)

unwrapped :
    (base statics : ℕ) (registered : Bool)
    → base ≤ 10001
    → statics ≤ 513
    → (base + 100 + statics * 10 + (if registered then 5 else 0)) % u32_mod
      ≡ base + 100 + statics * 10 + 5 * bit registered
unwrapped base statics true small few = omega (arith, small, few)
unwrapped base statics false small few = omega (arith, small, few)

bit-small : (b : Bool) → bit b ≤ 1
bit-small true = omega arith
bit-small false = omega arith

only_else :
    {score : ℕ} (excluded : Bool) {rest : Option ℕ}
    → (if excluded then none else rest) ≡ some score
    → rest ≡ some score
only_else true e = absurd (cc e)
only_else false e = e

only_met :
    (missed : Bool) (value score : ℕ)
    → (if missed then none else some value) ≡ some score
    → value ≡ score
only_met missed value score e = some_inj (only_else missed e)

-- with small parts the total does not wrap around
template_score_lem :
    (methods : List Bytes) (operation template : Option Bytes)
    → (request : RouteRateLimitBindingRequest) → (score : ℕ) → IsValidTemplate template
    → template_score (base_score methods operation) template request ≡ some score
    → IsScore (parts_of methods operation template request.route_template) score
unfolding template_score
template_score_lem methods operation none request score valid e =
    let small = base_score-small methods operation in
    let base = base_score-given methods operation in
    let same = some_inj e in
    record {
      small_operation = small.1;
      small_path = omega arith;
      small_statics = omega arith;
      small_registered = omega arith;
      small_methods = small.0;
      without_path = omega arith;
      total = omega (arith, base, same);
    }
template_score_lem methods operation (some template) request score valid e =
    let small = base_score-small methods operation in
    let base = base_score-given methods operation in
    let statics = statics-le template valid in
    let registered = option_eq request.route_template (some template) in
    let same =
      unwrapped (base_score methods operation) (static_segment_count template) registered
        (omega (arith, base, small.0, small.1)) statics in
    let scored = only_met (not (path_template_matches template request.path)) _ score e in
    record {
      small_operation = small.1;
      small_path = omega arith;
      small_statics = statics;
      small_registered = bit-small registered;
      small_methods = small.0;
      without_path = omega (arith, statics, bit-small registered);
      total = omega (arith, base, same, scored);
    }

match_score_lem :
    (selector : RouteRateLimitBindingSelector) (request : RouteRateLimitBindingRequest)
    → (score : ℕ) → IsValidTemplate selector.path_template
    → match_score selector request ≡ some score
    → IsScore (specificity selector request) score
unfolding match_score
match_score_lem selector request score valid e =
    template_score_lem selector.methods selector.operation_id selector.path_template request score
      valid
      (only_else (operation_excluded selector.operation_id request.operation_id)
        (only_else (method_excluded selector.methods request.method) e))

-- Let two selectors whose path templates are valid both match one request. The first has the lower score exactly
-- if it is the less specific: it has no operation ID and the second has one; or, those being alike, it has no
-- path template and the second has one; or the second's template has more static segments; or, those being as
-- many, only the second's template is the request's registered one; or, all that alike, only the second names
-- methods. The remainder modulo 2 ^ 32 in the score does not disturb this.
pub match_score-IsBelow :
    (a b : RouteRateLimitBindingSelector) (request : RouteRateLimitBindingRequest)
    → (s t : ℕ) → IsValidTemplate a.path_template
    → IsValidTemplate b.path_template
    → match_score a request ≡ some s
    → match_score b request ≡ some t
    → (s < t) ↔ IsBelow (specificity a request) (specificity b request)
match_score-IsBelow a b request s t valid_a valid_b e f =
    IsScore-IsBelow (specificity a request) (specificity b request) s t
      (match_score_lem a request s valid_a e) (match_score_lem b request t valid_b f)
