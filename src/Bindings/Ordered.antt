-- ===== src/Bindings/Ordered.antt =====
-- The order of specificity of docs/route-rate-limit-bindings.md, for the selectors of
-- src/rust/src/rate_limit_bindings.rs.
use ores_middleware.Prelude.Bytes.{Bytes}
use ores_middleware.Prelude.{
  ℕ, ◌+◌, ◌*◌, ◌≤◌, ◌<◌, ◌≡◌, ◌↔◌, ◌⊎◌, Bool, true, false, List, [], ◌∷◌, Option, none, some, arith,
}
use ores_middleware.Routes.{option_eq}
use ores_middleware.Bindings.Paths.{static_segment_count}
use ores_middleware.Bindings.{RouteRateLimitBindingSelector, RouteRateLimitBindingRequest}

abbrev pub bit : Bool → ℕ
bit true = 1
bit false = 0

-- what a selector says about a request, each part a number
pub record Specificity : Type 0 where
  pub operation : ℕ
  pub path : ℕ
  pub statics : ℕ
  pub registered : ℕ
  pub methods : ℕ

abbrev pub given : Option Bytes → ℕ
given none = 0
given (some value) = 1

abbrev statics_of : Option Bytes → ℕ
statics_of none = 0
statics_of (some template) = static_segment_count template

abbrev registered_of : Option Bytes → Option Bytes → ℕ
registered_of none requested = 0
registered_of (some template) requested = bit (option_eq requested (some template))

abbrev pub methods_of : List Bytes → ℕ
methods_of [] = 0
methods_of (_ ∷ _) = 1

abbrev pub parts_of : List Bytes → Option Bytes → Option Bytes → Option Bytes → Specificity
parts_of methods operation template requested = record {
  operation = given operation;
  path = given template;
  statics = statics_of template;
  registered = registered_of template requested;
  methods = methods_of methods;
}

abbrev pub specificity : RouteRateLimitBindingSelector → RouteRateLimitBindingRequest → Specificity
specificity selector request =
    parts_of selector.methods selector.operation_id selector.path_template request.route_template

-- Compared by the operation first, then the path, its static segments, the registered template and the
-- methods.
abbrev pub IsBelow : Specificity → Specificity → Type 0
IsBelow a b =
    (a.operation < b.operation)
    ⊎ (a.operation ≡ b.operation)
      × ((a.path < b.path)
          ⊎ (a.path ≡ b.path)
            × ((a.statics < b.statics)
                ⊎ (a.statics ≡ b.statics)
                  × ((a.registered < b.registered)
                      ⊎ (a.registered ≡ b.registered) × (a.methods < b.methods))))

below_of_total :
    (o p s r m o' p' s' r' m' : ℕ)
    → o ≤ 1
    → p ≤ 1
    → s ≤ 513
    → r ≤ 1
    → m ≤ 1
    → o' ≤ 1
    → p' ≤ 1
    → s' ≤ 513
    → r' ≤ 1
    → m' ≤ 1
    → s + r ≤ 514 * p
    → s' + r' ≤ 514 * p'
    → 10000 * o + 100 * p + 10 * s + 5 * r + m < 10000 * o' + 100 * p' + 10 * s' + 5 * r' + m'
    → (o < o')
      ⊎ (o ≡ o') × ((p < p') ⊎ (p ≡ p') × ((s < s') ⊎ (s ≡ s') × ((r < r') ⊎ (r ≡ r') × (m < m'))))
below_of_total o p s r m o' p' s' r' m' a b c d e a' b' c' d' e' i j lt = ground arith

total_of_below :
    (o p s r m o' p' s' r' m' : ℕ)
    → o ≤ 1
    → p ≤ 1
    → s ≤ 513
    → r ≤ 1
    → m ≤ 1
    → o' ≤ 1
    → p' ≤ 1
    → s' ≤ 513
    → r' ≤ 1
    → m' ≤ 1
    → s + r ≤ 514 * p
    → s' + r' ≤ 514 * p'
    → (o < o')
      ⊎ (o ≡ o') × ((p < p') ⊎ (p ≡ p') × ((s < s') ⊎ (s ≡ s') × ((r < r') ⊎ (r ≡ r') × (m < m'))))
    → 10000 * o + 100 * p + 10 * s + 5 * r + m < 10000 * o' + 100 * p' + 10 * s' + 5 * r' + m'
total_of_below o p s r m o' p' s' r' m' a b c d e a' b' c' d' e' i j below = ground arith

-- a score and the five parts it is made of, which are small
pub record IsScore (a : Specificity) (score : ℕ) : Type 0 where
  pub small_operation : a.operation ≤ 1
  pub small_path : a.path ≤ 1
  pub small_statics : a.statics ≤ 513
  pub small_registered : a.registered ≤ 1
  pub small_methods : a.methods ≤ 1
  pub without_path : a.statics + a.registered ≤ 514 * a.path
  pub total :
      score ≡ 10000 * a.operation + 100 * a.path + 10 * a.statics + 5 * a.registered + a.methods

pub IsScore-IsBelow :
    (a b : Specificity) (s t : ℕ) → IsScore a s → IsScore b t → (s < t) ↔ IsBelow a b
IsScore-IsBelow a b s t x y = (
  λ lt.
      below_of_total a.operation a.path a.statics a.registered a.methods b.operation b.path
        b.statics b.registered b.methods x.small_operation x.small_path x.small_statics
        x.small_registered x.small_methods y.small_operation y.small_path y.small_statics
        y.small_registered y.small_methods x.without_path y.without_path
        (omega (arith, lt, x.total, y.total)),
  λ below.
      let lt =
        total_of_below a.operation a.path a.statics a.registered a.methods b.operation b.path
          b.statics b.registered b.methods x.small_operation x.small_path x.small_statics
          x.small_registered x.small_methods y.small_operation y.small_path y.small_statics
          y.small_registered y.small_methods x.without_path y.without_path below in
      omega (arith, lt, x.total, y.total),
)
