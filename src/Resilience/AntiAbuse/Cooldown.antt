-- ===== src/Resilience/AntiAbuse/Cooldown.antt =====
-- How long a cooldown is, and how long it holds.
use text.Mathlib.Text.{starts_with}
use text.Mathlib.TextPositions.{starts_with_of_prefix}
use text.Mathlib.TextLemmas.{append_assoc}
use native.Mathlib.Nat.{two-pow-succ}
use fictional_barnacle.Prelude.{
  ℕ, suc, ◌+◌, ◌-◌, ◌*◌, ◌^◌, ◌≤◌, ◌<◌, min, String, ◌≡◌, refl, sym, ap, ◌∙◌, inl, inr, true, false,
  none, [], ◌∷◌, arith, str_eq, eq_iff, text_append, Bool-cases, ltb,
}
use fictional_barnacle.Prelude.Dict.{Dict, lookup, lookup-erase, lookup-insert}
use fictional_barnacle.Resilience.AntiAbuse.{
  AbusePattern, CooldownEntry, InMemoryAbuseDetector, PatternConfig, calculate_cooldown,
  check_cooldown, clear_cooldown, pruned, record_violation, timestamps_of, value, vkey,
  without_prefix,
}
use fictional_barnacle.Resilience.Clock.{second}

cooldown_at :
    (config : PatternConfig) (max_cooldown n : ℕ)
    → calculate_cooldown (config.threshold + 1 + n) config max_cooldown
      ≡ min (config.base_cooldown_seconds * 2 ^ min n 10) max_cooldown
unfolding calculate_cooldown
cooldown_at config max_cooldown n =
    let excess : config.threshold + 1 + n - config.threshold - 1 ≡ n = omega arith in
    ap (λ e. min (config.base_cooldown_seconds * 2 ^ min e 10) max_cooldown) excess

doubling : (base n : ℕ) → n < 10 → base * 2 ^ min (suc n) 10 ≡ 2 * (base * 2 ^ min n 10)
doubling base n h =
    let next : min (suc n) 10 ≡ suc n = omega arith in
    let here : min n 10 ≡ n = omega arith in rw (next, here, two-pow-succ n) (omega arith)

saturated : (n : ℕ) → 10 ≤ n → min n 10 ≡ min 10 10
saturated n h = omega arith

min_twice : (a m : ℕ) → min (2 * a) m ≡ min (2 * min a m) m
min_twice a m = omega arith

min_bound : (a m : ℕ) → min a m ≤ m
min_bound a m = omega arith

-- No cooldown is longer than the maximum. The first one lasts the base, unless the maximum cuts it,
-- and each further violation doubles it, until it is cut or ten violations have doubled it.
pub calculate_cooldown_doubles :
    (config : PatternConfig) (max_cooldown excess : ℕ)
    → let at_excess =
        λ (n : ℕ). calculate_cooldown (config.threshold + 1 + n) config max_cooldown in
      (at_excess 0 ≡ min config.base_cooldown_seconds max_cooldown)
      × (at_excess excess ≤ max_cooldown)
      × (excess < 10 → at_excess (suc excess) ≡ min (2 * at_excess excess) max_cooldown)
      × (10 ≤ excess → at_excess excess ≡ at_excess 10)
unfolding calculate_cooldown
calculate_cooldown_doubles config max_cooldown excess =
    let at = cooldown_at config max_cooldown in
    let base = config.base_cooldown_seconds in
    (
      at 0 ∙ ap (λ b. min b max_cooldown) (omega arith),
      rw (at excess) (min_bound _ max_cooldown),
      λ h.
          at (suc excess)
          ∙ ap (λ b. min b max_cooldown) (doubling base excess h)
          ∙ min_twice _ max_cooldown
          ∙ ap (λ b. min (2 * b) max_cooldown) (sym (at excess)),
      λ h. at excess ∙ ap (λ e. min (base * 2 ^ e) max_cooldown) (saturated excess h) ∙ sym (at 10),
    )

-- After a violation that exceeds the threshold the identity is in cooldown until exactly the stated
-- number of seconds have passed, and then no longer; every other identity is as it was before.
pub check_cooldown-record_violation :
    (d : InMemoryAbuseDetector) (identity other : String) (pattern : AbusePattern) (now later : ℕ)
    → let (result, d') = record_violation d identity pattern now in
      (result.cooldown_applied ≡ true
        → (check_cooldown d' identity later).0.active
          ≡ ltb later (now + result.cooldown_seconds * second))
      × (str_eq identity other ≡ false
          → (check_cooldown d' other later).0 ≡ (check_cooldown d other later).0)
unfolding record_violation check_cooldown
check_cooldown-record_violation d identity other pattern now later =
    let result = (record_violation d identity pattern now).0 in
    let entry : CooldownEntry = record {
      expires_at = now + result.cooldown_seconds * second;
      pattern = pattern;
      count = result.violation_count;
    } in
    (
      ground (arith, lookup-insert identity identity entry d.cooldowns, eq_iff identity identity),
      ground (arith, lookup-insert identity other entry d.cooldowns),
    )

lookup-without_prefix :
    {V : Type 0} (prefix key : String) (d : Dict V)
    → starts_with key prefix ≡ true
    → lookup key (without_prefix prefix d) ≡ none
unfolding without_prefix lookup
lookup-without_prefix prefix key [] h = refl
lookup-without_prefix prefix key ((k, v) ∷ d) h =
    let rest = lookup-without_prefix prefix key d h in
    elim (Bool-cases (str_eq k key)) [
      | inl same ↦ rw ((eq_iff k key).0 same, h) rest
      | inr other ↦ ground (arith, rest)
    ]

vkey_starts :
    (identity : String) (pattern : AbusePattern)
    → starts_with (vkey identity pattern) (text_append identity ":") ≡ true
vkey_starts identity pattern =
    starts_with_of_prefix (text_append identity ":") (vkey identity pattern)
      (value pattern, append_assoc identity ":" (value pattern))

-- After an unblock the identity is not in cooldown, and its next violation of any pattern is
-- counted as its first.
pub record_violation-clear_cooldown :
    (d : InMemoryAbuseDetector) (identity : String) (pattern : AbusePattern) (now : ℕ)
    → let d' = clear_cooldown d identity in
      ((check_cooldown d' identity now).0.active ≡ false)
      × ((record_violation d' identity pattern now).0.violation_count ≡ 1)
unfolding record_violation check_cooldown clear_cooldown pruned timestamps_of
record_violation-clear_cooldown d identity pattern now = (
  ground (arith, lookup-erase identity identity d.cooldowns, eq_iff identity identity),
  ground (
    arith,
    lookup-without_prefix (text_append identity ":") (vkey identity pattern) d.violations
        (vkey_starts identity pattern),
  ),
)
