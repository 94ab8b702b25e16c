-- ===== src/Lib.antt =====
-- A verification library for the Therapeutic Text Adventure server (src/tta).
--
-- The server takes the requests of players, checks them against a quota (resilience), runs each turn
-- through language models whose calls are admitted by tier and guarded by circuit breakers (llm and
-- resilience), and moves a simulated world on (simulation), which was built from a template that is
-- checked first (world). What players and models write is moderated (moderation), and what players
-- choose starts chains of consequences (choices). Each player's universes have a life of their own
-- (universe). The library models the parts of this that decide something by themselves.
--
-- Resilience.CircuitBreaker is src/tta/resilience/circuit_breaker.py: `aenter` and `aexit` are the two
--   methods of the context manager, on a record of the breaker's fields; the clock readings of a call
--   are arguments, and a run is a list of entries and exits in the order in which they hold the lock.
-- Resilience.RateLimiter is `InMemoryRateLimiter` of src/tta/resilience/rate_limiter.py, with `check`
--   and `clear_key`; a dictionary is an association list.
-- Resilience.AntiAbuse is `InMemoryAbuseDetector` of src/tta/resilience/anti_abuse.py, with
--   `_calculate_cooldown` and the default configurations; Resilience.AntiAbuse.Unblock has the identity
--   that src/tta/api/middleware.py uses and the call in src/tta/api/routes/admin_rate_limits.py.
-- World.Template is the template part of src/tta/models/world.py, and World.Validator is
--   src/tta/world/template_validator.py: one function for each rule, and `validate_template`.
-- Llm.Admission is src/tta/llm/rate_limiter.py: the budget with a lane for each tier, and in
--   Llm.Admission.Client the calls of `RateLimitedLLMClient` as a step relation. The parts of
--   `admit_or_queue` before and after its wait are the steps `admit_or_queue`, `resume` and `time_out`.
-- Llm.Semaphore is src/tta/llm/semaphore.py, with `execute` cut at its waits into `enqueue`, `acquire`,
--   `give_up` and `finish_call`.
-- Llm.ContextBudget is src/tta/llm/context_budget.py.
-- Simulation.WorldTime is src/tta/simulation/world_time.py, and Simulation.Consequence is
--   src/tta/simulation/consequence.py, both with their types of src/tta/simulation/types.py.
-- Simulation.NpcMemory is `InMemorySocialMemoryWriter` of src/tta/simulation/npc_memory.py; the `while`
--   loop of `propagate_gossip` is `drain`, and its `for` loop `deliver_all`.
-- Simulation.WorldMemory is `InMemoryMemoryWriter` of src/tta/simulation/world_memory.py, with `record`
--   as `record_memory`, and `get_context` and `compress_if_needed` in Context and Compress.
-- Simulation.Autonomy is `DefaultAutonomyProcessor` of src/tta/simulation/npc_autonomy.py, with
--   `_process_rule_based` in Routine and `process` in Process.
-- Choices.Chain is src/tta/models/consequence.py with the pruning score, and Choices.Service is
--   `InMemoryConsequenceService` of src/tta/choices/consequence_service.py, with `evaluate` and
--   `prune_chains` in Evaluate and Prune.
-- Moderation.Category is src/tta/moderation/models.py, Moderation.Keyword the keyword moderator,
--   Moderation.Flagging the tracker of blocked sessions and Moderation.Hook the hook that calls a
--   moderation service in the pipeline (src/tta/moderation, src/tta/safety/hooks.py). The hook takes
--   any service; Moderation.Hook.Guard says when a service guards against a class of texts.
-- Universe.Service is src/tta/universe/service.py on its two tables; a call that raises leaves them as
--   they were, and a run is a list of calls, with whatever becomes of the game sessions in between.
-- Prelude has the tests, lists, dictionaries and sets of texts that these share.
--
-- Moments and spans of time are in microseconds where the code has seconds in floating point
-- (Resilience.Clock), and fractions of a day are in thousandths, since that is what the code's
-- constants have. Loops are structural recursion. Two loops run on fuel. The search of the connected
-- graph rule may take one more step than there are pairs of adjacent locations, since it pops each push
-- once and pushes at most once for each pair (World.Validator.Connected). The spread of gossip may take
-- one round for the episode and one for each edge (Simulation.NpcMemory.Ends). A decimal numeral has one
-- more digit of fuel than its number, which is never used up.
--
-- Reliabilities of gossip are in tenths. The code's floating-point differences 0.8, 0.6000000000000001,
-- 0.4000000000000001 and 0.2000000000000001 are at or just above them, so its tests against 0.2 go the
-- same way.
--
-- Parameters stand for what floating point makes of a score that fades with time (Simulation.WorldMemory,
-- whose scores are in billionths) and of the minute of dawn (Simulation.WorldTime), for the compiled patterns of the keyword moderator, each the test
-- whether it is found in a text, for the SHA-256 digest, for the methods of texts that the autonomy
-- of NPCs uses, and for the validator of compositions and the values of a universe's configuration.
--
-- Not modelled are logs, metrics and locks (each method that holds a lock is one step), the Redis and
-- database backends, the web framework and the calls to language models. Identifiers that are drawn at
-- random are the numbers of their draws.
pub mod Prelude
pub mod Choices
pub mod Llm
pub mod Moderation
pub mod Resilience
pub mod Simulation
pub mod Universe
pub mod World
