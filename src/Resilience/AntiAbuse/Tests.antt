-- ===== src/Resilience/AntiAbuse/Tests.antt =====
-- Runs of the abuse detector, and the theorems at concrete violations.
use fictional_barnacle.Prelude.{
  ℕ, suc, ◌+◌, ◌*◌, ◌<◌, String, ◌≡◌, refl, ◌↔◌, true, false, none, List, [], ◌∷◌, map, arith,
  str_eq, ltb,
}
use fictional_barnacle.Prelude.Dict.{erase, insert, lookup}
use fictional_barnacle.Resilience.AntiAbuse.{
  InMemoryAbuseDetector, check_cooldown, config_of, new_detector, rapid_fire, record_violation,
}
use fictional_barnacle.Resilience.AntiAbuse.Cooldown.{check_cooldown-record_violation}
use fictional_barnacle.Resilience.AntiAbuse.Unblock.{
  abuse_identity, check_cooldown-unblock_ip, unblock_ip,
}
use fictional_barnacle.Resilience.AntiAbuse.Violations.{
  recent_of, record_all, record_violation_counts,
}
use fictional_barnacle.Resilience.Clock.{second}

abbrev fresh : InMemoryAbuseDetector
fresh = new_detector 86400 none

-- Three in a second by one address, and one by another.
abbrev hits : List (String × ℕ)
hits =
    ("1.2.3.4", 1 * second)
    ∷ ("5.6.7.8", 2 * second)
    ∷ ("1.2.3.4", 3 * second)
    ∷ ("1.2.3.4", 4 * second)
    ∷ []

fourth_hit :
    (record_violation (record_all rapid_fire fresh hits) "1.2.3.4" rapid_fire (5 * second)).0
    ≡ record {
      cooldown_applied = true;
      cooldown_seconds = 120;
      violation_count = 4;
      escalated = false;
    }
unfolding record_violation lookup record_all new_detector insert
fourth_hit = refl

second_hit :
    let result =
      (record_violation (record_all rapid_fire fresh hits) "5.6.7.8" rapid_fire (5 * second)).0 in
    result.cooldown_applied ≡ false
unfolding record_violation lookup record_all new_detector insert
second_hit = refl

record_violation_counts_example :
    let result =
      (record_violation (record_all rapid_fire fresh hits) "1.2.3.4" rapid_fire (5 * second)).0 in
    let config = config_of fresh rapid_fire in
    (result.violation_count ≡ suc (recent_of config.window_seconds "1.2.3.4" (5 * second) hits))
    × ((result.cooldown_applied ≡ true) ↔ (config.threshold < result.violation_count))
record_violation_counts_example =
    record_violation_counts rapid_fire 86400 none hits "1.2.3.4" (5 * second)
      (omega arith, (omega arith, (omega arith, (omega arith, omega arith))))

check_cooldown-record_violation_example :
    let d = record_all rapid_fire fresh hits in
    let (result, d') = record_violation d "1.2.3.4" rapid_fire (5 * second) in
    (result.cooldown_applied ≡ true
      → (check_cooldown d' "1.2.3.4" (60 * second)).0.active
        ≡ ltb (60 * second) (5 * second + result.cooldown_seconds * second))
    × (str_eq "1.2.3.4" "5.6.7.8" ≡ false
        → (check_cooldown d' "5.6.7.8" (60 * second)).0
          ≡ (check_cooldown d "5.6.7.8" (60 * second)).0)
check_cooldown-record_violation_example =
    check_cooldown-record_violation (record_all rapid_fire fresh hits) "1.2.3.4" "5.6.7.8"
      rapid_fire (5 * second) (60 * second)

-- An address in cooldown stays in it when it is unblocked.
abbrev blocked : InMemoryAbuseDetector
blocked =
    let d = record_all rapid_fire fresh (map (λ v. (abuse_identity v.0, v.1)) hits) in
    (record_violation d (abuse_identity "1.2.3.4") rapid_fire (5 * second)).1

still_blocked :
    (check_cooldown (unblock_ip blocked "1.2.3.4") (abuse_identity "1.2.3.4") (6 * second)).0.active
    ≡ true
unfolding check_cooldown unblock_ip record_violation lookup record_all new_detector insert erase
still_blocked = refl

check_cooldown-unblock_ip_example :
    (check_cooldown (unblock_ip blocked "1.2.3.4") (abuse_identity "1.2.3.4") (6 * second)).0
    ≡ (check_cooldown blocked (abuse_identity "1.2.3.4") (6 * second)).0
check_cooldown-unblock_ip_example = check_cooldown-unblock_ip blocked "1.2.3.4" (6 * second)
