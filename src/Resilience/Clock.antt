-- ===== src/Resilience/Clock.antt =====
-- Clock readings, `time.time()` and `time.monotonic()`, as whole numbers of microseconds.
use fictional_barnacle.Prelude.{ℕ, ◌+◌, ◌/◌}

-- One second of the clock.
abbrev pub second : ℕ
second = 1_000_000

-- `math.ceil` of a span that the source holds in seconds.
abbrev pub ceil_seconds : ℕ → ℕ
ceil_seconds span = (span + 999_999) / second
