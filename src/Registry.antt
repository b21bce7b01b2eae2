-- ===== src/Registry.antt =====
-- The bounded registry of circuit breakers of src/rust/src/hardening.rs: keys are validated, idle
-- entries expire, and a full registry gives up the entry that was used least recently.

pub mod Oldest
pub mod Laws
pub mod Safety
pub mod Eviction
pub mod Sharing
mod Tests
use ores_middleware.Prelude.Bytes.{Bytes, is_empty, is_ascii_lowercase, is_ascii_digit}
use ores_middleware.Prelude.Maps.{lookup, insert, remove, retain}
use ores_middleware.Prelude.{
  ℕ, ◌+◌, ◌-◌, ◌%◌, ◌^◌, Bool, true, false, not, ◌&&◌, ◌||◌, List, [], ◌∷◌, ◌++◌, Option, none,
  some, ◌==◌, leb, ltb, length, all, ℕ_discrete, if◌then◌else◌,
}
use ores_middleware.Resilience.{CircuitBreakerConfig, CircuitBreaker, Result, ok, err}
use ores_middleware.Resilience

pub record BreakerKey : Type 0 where
  pub dependency_id : Bytes
  pub operation_class : Bytes

pub BreakerKey-discrete : Discrete BreakerKey
BreakerKey-discrete = hlevel ℕ_discrete

abbrev max_breaker_key_component_bytes : ℕ
max_breaker_key_component_bytes = 64

abbrev pub max_breaker_registry_entries : ℕ
max_breaker_registry_entries = 1024

pub component_byte : ℕ → Bool
component_byte c = is_ascii_lowercase c || is_ascii_digit c || (c == b'-' || c == b'_' || c == b'.')

pub valid_breaker_component : Bytes → Bool
unfolding component_byte
valid_breaker_component value =
    not (is_empty value)
    && leb (length value) max_breaker_key_component_bytes
    && all component_byte value

pub key : Bytes → Bytes → Result BreakerKey
unfolding valid_breaker_component
key dependency_id operation_class =
    if not (valid_breaker_component dependency_id) || not (valid_breaker_component operation_class)
    then err "circuit_registry_key_invalid"
    else ok (record { dependency_id = dependency_id; operation_class = operation_class })

-- the derived order: by the bytes of the first field, then of the second
pub bytes_lt : Bytes → Bytes → Bool
bytes_lt xs [] = false
bytes_lt [] (y ∷ ys) = true
bytes_lt (x ∷ xs) (y ∷ ys) = let rest = bytes_lt xs ys in if x == y then rest else ltb x y

pub key_lt : BreakerKey → BreakerKey → Bool
unfolding bytes_lt
key_lt a b =
    bytes_lt a.dependency_id b.dependency_id
    || (not (bytes_lt b.dependency_id a.dependency_id)
        && bytes_lt a.operation_class b.operation_class)

pub record CircuitBreakerRegistryConfig : Type 0 where
  pub max_entries : ℕ
  pub idle_ttl : ℕ
  pub breaker : CircuitBreakerConfig

-- A clone of a `CircuitBreaker` shares its state, so an entry holds the breaker's place in `heap`.
pub record RegistryEntry : Type 0 where
  pub breaker : ℕ
  pub last_used : ℕ

pub record CircuitBreakerRegistry : Type 0 where
  pub config : CircuitBreakerRegistryConfig
  pub entries : List (BreakerKey × RegistryEntry)
  pub evictions : ℕ  -- AtomicU64
  pub heap : List CircuitBreaker

abbrev pub u64_mod : ℕ
u64_mod = 2 ^ 64

pub new : CircuitBreakerRegistryConfig → Result CircuitBreakerRegistry
unfolding Resilience.new
new config =
    if config.max_entries == 0 || ltb max_breaker_registry_entries config.max_entries
    then err "circuit_registry_capacity_invalid"
    else if config.idle_ttl == 0
    then err "circuit_registry_ttl_invalid"
    else elim (Resilience.new config.breaker) [
      | err code ↦ err code
      | ok _ ↦ ok (record { config = config; entries = []; evictions = 0; heap = [] })
    ]

-- the order of `min_by`: by the last use, then by the key
abbrev used_before : BreakerKey × RegistryEntry → BreakerKey × RegistryEntry → Bool
used_before (j, e) (k, f) =
    ltb e.last_used f.last_used || (e.last_used == f.last_used && key_lt j k)

-- `iter().min_by(…).map(|(key, _)| key.clone())`, with the least entry so far
pub oldest_from : BreakerKey × RegistryEntry → List (BreakerKey × RegistryEntry) → BreakerKey
unfolding key_lt
oldest_from best [] = best.0
oldest_from best (e ∷ m) = oldest_from (if used_before e best then e else best) m

pub oldest : List (BreakerKey × RegistryEntry) → Option BreakerKey
unfolding oldest_from
oldest [] = none
oldest (e ∷ m) = some (oldest_from e m)

-- `now.duration_since(entry.last_used)` stops at zero, as `-` does.
abbrev pub is_fresh : ℕ → CircuitBreakerRegistryConfig → RegistryEntry → Bool
is_fresh now config entry = ltb (now - entry.last_used) config.idle_ttl

abbrev add_evictions : ℕ → ℕ → ℕ
add_evictions evictions n = (evictions + n) % u64_mod

-- the `retain` at the head of `get_or_insert`
pub expire : ℕ → CircuitBreakerRegistry → CircuitBreakerRegistry
unfolding retain
expire now r =
    let kept = retain BreakerKey-discrete (is_fresh now r.config) r.entries in
    let expired : ℕ = length r.entries - length kept in
    record r {
      entries = kept;
      evictions = if expired == 0 then r.evictions else add_evictions r.evictions expired;
    }

-- a full registry gives up its oldest entry
pub make_room : CircuitBreakerRegistry → CircuitBreakerRegistry
unfolding oldest remove
make_room r =
    if leb r.config.max_entries (length r.entries)
    then elim (oldest r.entries) [
      | none ↦ r
      | some victim ↦ record r {
        entries = remove BreakerKey-discrete victim r.entries;
        evictions = add_evictions r.evictions 1;
      }
    ]
    else r

-- `get_or_insert`, under the lock; the result is the place of the breaker
pub get_or_insert : ℕ → BreakerKey → CircuitBreakerRegistry → CircuitBreakerRegistry × Result ℕ
unfolding expire make_room lookup insert Resilience.new
get_or_insert now k r =
    let kept = expire now r in
    elim (lookup BreakerKey-discrete k kept.entries) [
      | some entry ↦ (
        record kept {
          entries = insert BreakerKey-discrete k (record entry { last_used = now }) kept.entries;
        },
        ok entry.breaker,
      )
      | none ↦
          let roomy = make_room kept in
          elim (Resilience.new r.config.breaker) [
            | err code ↦ (roomy, err code)
            | ok breaker ↦ (
              record roomy {
                entries =
                    insert BreakerKey-discrete k
                      (record { breaker = length roomy.heap; last_used = now }) roomy.entries;
                heap = roomy.heap ++ breaker ∷ [];
              },
              ok (length roomy.heap),
            )
          ]
    ]
