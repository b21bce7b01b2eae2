-- ===== src/Lib.antt =====
-- A verification library for the request middleware of this repository, in its Rust implementation
-- under src/rust/src.
--
-- A request meets the parts in this order. `hardening.rs` admits raw headers and runs the hardened
-- stage pipeline; `stage.rs` is the plain pipeline with the same stages, decisions and responses.
-- Both call the stages one after another, and unwind through the entered stages with the response.
-- `middleware_order.rs` and `rate_limit_v2.rs` validate, before a service starts, the order of its
-- middleware and its rate limit policies. Handlers call dependencies through the circuit breakers of
-- `resilience.rs`, which the registry of `hardening.rs` keeps by key. `shutdown.rs` counts the
-- requests in flight and drains them at the end.
--
-- The stages of `security.rs` and the Fetch Metadata stage of `hardening.rs` run in these pipelines.
-- `operation.rs` bounds one operation by a deadline and a cancellation. `rate_limit.rs` derives the
-- principal of a request, and `rate_limit_routes.rs` and `rate_limit_bindings.rs` resolve the rate
-- limit policy of a route. `composition.rs` validates the middleware orders that a service writes for
-- itself, and `docs_serving.rs` decides about requests for API documents. The local limiter of
-- integrations/ores-rate-limit-core-rust (core_rate_limiter.rs) decides a request for a principal,
-- whose digest it takes as the key of its store.
--
-- The files and the code they model:
--
--   Prelude     lists, Boolean tests, association lists for `BTreeMap`, texts as bytes
--   Shutdown    shutdown.rs. `ShutdownInner` is the shared state, and each method on it a function.
--               Shutdown/Tasks has the interleavings: a task is at a program counter `Pc`, and `Move`
--               is one atomic operation of begin_request, DrainGuard, start_draining, force_shutdown
--               or drain. `Reach` is any sequence of moves of any number of tasks.
--   Resilience  resilience.rs, the circuit breaker. The mutex makes each method one function of the
--               state and the time. Resilience/Trace runs sequences of calls.
--   Registry    hardening.rs, BreakerKey and CircuitBreakerRegistry. Breakers stand in a heap, and an
--               entry holds a place in it, as a clone of a breaker shares its state.
--   Stage       stage.rs, with RequestMetadata of integrations.rs and RequestContext of context.rs.
--   Hardening   hardening.rs: Headers (admit_raw_headers), Attributes (validate_stage_attributes),
--               Problem (sanitized_problem_response), Pipeline (HardenedStagePipeline), Fetch
--               (FetchMetadataStage, with SameOrigin for what it admits).
--   Order       middleware_order.rs: Order/Stages the stages, Order the orders, rules and validators.
--   Policy      rate_limit_v2.rs and rate_limit_posture: Policy/Posture, and Policy the validator.
--   Principal   rate_limit.rs: the signals, their values, the material and its derivation.
--   CoreLimiter core_rate_limiter.rs: Ratio is rational_refill, Requests the data of rate_limit.rs
--               and map_decision, CoreLimiter the store and evaluate_at. The mutex makes a call one
--               function of the store and the time.
--   Routes      rate_limit_routes.rs: Paths has segments and templates, Routes the selectors and
--               resolve, Validation the checks of selectors and tables.
--   Operation   operation.rs: `select` is the biased select over the rounds of its polls, and
--               run_controlled what the public boundaries call.
--   Security    security.rs: Cookies is parse_cookie_header, Csrf the stage CsrfStage, Cors the
--               stage CorsStage.
--   Composition composition.rs: Composition the policies and plans, Shape the checks of a policy,
--               Cycle the cycle check, Validation the validators.
--   Ranking     the scan for the best score, the same loop in both `resolve` functions.
--   Bindings    rate_limit_bindings.rs: Paths has paths, templates and identifiers, Bindings the
--               validation, Resolve the scores and resolve.
--   Docs        docs_serving.rs: Accept is the negotiation, Docs the decision and its headers.
--
-- Texts are lists of bytes, maps are association lists with one pair for a key, and instants are
-- natural numbers, on which subtraction stops at zero as `duration_since` and `elapsed` do. Unsigned
-- integers are natural numbers with their wrap-around or limit written out where the code can reach
-- it: the request counter modulo 2^64, the eviction counter modulo 2^64, the saturating failure
-- count. Every loop is over a list but that of greatest_common_divisor, which runs by the well-founded order
-- of its second number, and the cycle check of composition.rs, which runs on fuel. That fuel
-- is the number of the stages, each of which it takes from its queue at most once. The time to live
-- of core_rate_limiter.rs is in nanoseconds, from which its code takes whole milliseconds.
--
-- Parameters stand for code outside the repository: the encodings by serde_json (`to_vec`,
-- `document`, `problem_body`), the HMAC with the keys it takes
-- (`new_from_slice`), the parsing of addresses, the decimal digits of a number
-- (`show`), the state machines of ores-rl-lib-core (`CoreApi`), the tests and the rounding of f64
-- (`Float`, `Qualities`), debug printing, the poll of a handler, and what the hooks of stages do, which may read and change a state
-- `W` of everything beside the pipeline. What tokio makes of a spawned hook is the hook's `TaskEnd`.
-- The timeout of drain is a move that may come whenever the task waits. Memory orderings weaker than
-- sequential consistency are not modelled.
--
-- Not modelled: the bulkhead, which wraps a tokio semaphore; the floating-point token bucket of
-- integrations.rs; decoding from JSON; address blocks and the edge proxy; payload limits; authentication,
-- configuration discovery, telemetry, framework adapters, runtime manifests, and the ports in other
-- languages.
pub mod Prelude
pub mod Shutdown
pub mod Resilience
pub mod Registry
pub mod Stage
pub mod Hardening
pub mod Order
pub mod Policy
pub mod Principal
pub mod Ranking
pub mod Routes
pub mod Bindings
pub mod Docs
pub mod Operation
pub mod Security
pub mod CoreLimiter
pub mod Composition
