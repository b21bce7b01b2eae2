-- ===== src/Registry/Tests.antt =====
-- The registry of src/rust/src/hardening.rs with room for two breakers, and its theorems there.
use ores_middleware.Prelude.Bytes.{codes}
use ores_middleware.Prelude.Maps.{lookup}
use ores_middleware.Prelude.{ℕ, ◌≡◌, ◌≢◌, refl, ap, [], ◌∷◌, arith}
use ores_middleware.Resilience.{CircuitBreakerConfig, CircuitBreaker, CircuitState, ok}
use ores_middleware.Resilience
use ores_middleware.Registry.{
  BreakerKey, CircuitBreakerRegistryConfig, RegistryEntry, CircuitBreakerRegistry, get_or_insert,
}
use ores_middleware.Registry.Safety.{get_or_insert-IsBounded}
use ores_middleware.Registry.Laws.{IsBounded}
use ores_middleware.Registry.Sharing.{IsSeparate}

abbrev breaker_config : CircuitBreakerConfig
breaker_config = record { failure_threshold = 2; open_for = 5 }

abbrev config : CircuitBreakerRegistryConfig
config = record { max_entries = 2; idle_ttl = 10; breaker = breaker_config }

abbrev fresh_breaker : CircuitBreaker
fresh_breaker = record { config = breaker_config; state = CircuitState.closed 0 }

built : Resilience.new breaker_config ≡ ok fresh_breaker
unfolding Resilience.new
built = refl

abbrev key_of : ℕ → BreakerKey
key_of n = record { dependency_id = n ∷ []; operation_class = codes "read" }

first_byte : BreakerKey → ℕ
first_byte k = elim k.dependency_id [ [] ↦ 0 | b ∷ _ ↦ b ]

keys_differ : (m n : ℕ) → m ≢ n → ◌≢◌ {A = BreakerKey} (key_of m) (key_of n)
unfolding first_byte
keys_differ m n ne h = ne (ap first_byte h)

abbrev used_at : (breaker last_used : ℕ) → RegistryEntry
used_at breaker last_used = record { breaker = breaker; last_used = last_used }

abbrev empty : CircuitBreakerRegistry
empty = record { config = config; entries = []; evictions = 0; heap = [] }

abbrev one : CircuitBreakerRegistry
one = record {
  config = config;
  entries = (key_of 97, used_at 0 1) ∷ [];
  evictions = 0;
  heap = fresh_breaker ∷ [];
}

empty-IsBounded : IsBounded empty
empty-IsBounded = record { unique = tt; positive = omega arith; within = omega arith }

one-IsBounded : IsBounded one
one-IsBounded = record { unique = (tt, tt); positive = omega arith; within = omega arith }

get_or_insert-IsBounded_example : IsBounded (get_or_insert 3 (key_of 98) one).0
get_or_insert-IsBounded_example = get_or_insert-IsBounded 3 (key_of 98) one one-IsBounded built

empty-IsSeparate : IsSeparate empty
unfolding lookup
empty-IsSeparate = record {
  allocated = λ j e h. absurd (cc h);
  separate = λ j i e f h g same. absurd (cc h);
}

abbrev two : CircuitBreakerRegistry
two = record {
  config = config;
  entries = (key_of 97, used_at 0 1) ∷ (key_of 98, used_at 1 2) ∷ [];
  evictions = 0;
  heap = fresh_breaker ∷ fresh_breaker ∷ [];
}

two-IsBounded : IsBounded two
two-IsBounded = record {
  unique = ((keys_differ 98 97 (omega arith), tt), (tt, tt));
  positive = omega arith;
  within = omega arith;
}
