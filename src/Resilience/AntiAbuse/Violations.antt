-- ===== src/Resilience/AntiAbuse/Violations.antt =====
-- How the violations of an identity add up.
use text.Mathlib.TextLemmas.{append_cancel_right}
use fictional_barnacle.Prelude.{
  ℕ, suc, ◌+◌, ◌≤◌, ◌<◌, String, ◌≡◌, refl, subst, ◌∙◌, ◌↔◌, inl, inr, true, ◌&&◌, Option, List, [],
  ◌∷◌, arith, str_eq, eq_iff, text_append, if◌then◌else◌, Bool-cases, filter, filter-append,
  length-append, length,
}
use fictional_barnacle.Prelude.Dict.{Dict, lookup, lookup-insert}
use fictional_barnacle.Resilience.AntiAbuse.{
  AbusePattern, InMemoryAbuseDetector, PatternConfig, config_of, is_alive, new_detector, pruned,
  record_violation, timestamps_of, value, vkey,
}

-- The detector after violations of one pattern, each by an identity at a time.
unfoldable pub record_all :
    AbusePattern → InMemoryAbuseDetector → List (String × ℕ) → InMemoryAbuseDetector
record_all pattern d [] = d
record_all pattern d ((identity, now) ∷ vs) =
    record_all pattern (record_violation d identity pattern now).1 vs

-- How many of them are by an identity and still in the window at `now`.
unfoldable pub recent_of : ℕ → String → ℕ → List (String × ℕ) → ℕ
recent_of window_seconds identity now [] = 0
recent_of window_seconds identity now ((other, t) ∷ vs) =
    (if str_eq other identity && is_alive window_seconds now t then 1 else 0)
    + recent_of window_seconds identity now vs

-- No time is before `first`, nor before the one that precedes it, and none is after `last`.
abbrev pub AreInOrder : ℕ → ℕ → List (String × ℕ) → Type 0
AreInOrder first last [] = first ≤ last
AreInOrder first last (v ∷ vs) = (first ≤ v.1) × AreInOrder v.1 last vs

order_le : (first last : ℕ) (vs : List (String × ℕ)) → AreInOrder first last vs → first ≤ last
order_le first last [] o = o
order_le first last (v ∷ vs) o = omega (arith, order_le v.1 last vs o.1, o.0)

vkey_same :
    (i j : String) (pattern : AbusePattern) → str_eq (vkey i pattern) (vkey j pattern) ≡ str_eq i j
vkey_same i j pattern = ground (
  arith,
  eq_iff (vkey i pattern) (vkey j pattern),
  eq_iff i j,
  append_cancel_right i j (text_append ":" (value pattern)),
)

-- Pruning at an earlier time does not change what is alive later.
alive_twice :
    (w earlier now : ℕ) (ts : List ℕ)
    → earlier ≤ now
    → length (filter (is_alive w now) (filter (is_alive w earlier) ts))
      ≡ length (filter (is_alive w now) ts)
alive_twice w earlier now [] h = refl
alive_twice w earlier now (t ∷ ts) h = ground (arith, alive_twice w earlier now ts h)

config_of-record_violation :
    (d : InMemoryAbuseDetector) (identity : String) (pattern p : AbusePattern) (now : ℕ)
    → config_of (record_violation d identity pattern now).1 p ≡ config_of d p
unfolding record_violation config_of
config_of-record_violation d identity pattern p now = ground arith

timestamps_of-record_violation :
    (d : InMemoryAbuseDetector) (identity : String) (pattern : AbusePattern) (now : ℕ)
    (key : String)
    → timestamps_of (record_violation d identity pattern now).1 key ≡ (
        if str_eq (vkey identity pattern) key
        then pruned d identity pattern now
        else timestamps_of d key)
unfolding record_violation timestamps_of
timestamps_of-record_violation d identity pattern now key =
    ground (
      arith,
      lookup-insert (vkey identity pattern) key (pruned d identity pattern now) d.violations,
    )

-- The timestamps of an identity that are alive.
abbrev pub alive_count : InMemoryAbuseDetector → ℕ → String → AbusePattern → ℕ → ℕ
alive_count d window_seconds identity pattern now =
    length (filter (is_alive window_seconds now) (timestamps_of d (vkey identity pattern)))

alive_count-record_violation :
    (d : InMemoryAbuseDetector) (pattern : AbusePattern) (i other : String) (t now : ℕ)
    → t ≤ now
    → let w = (config_of d pattern).window_seconds in
      alive_count (record_violation d other pattern t).1 w i pattern now
      ≡ alive_count d w i pattern now + (if str_eq other i && is_alive w now t then 1 else 0)
unfolding pruned
alive_count-record_violation d pattern i other t now h =
    let w = (config_of d pattern).window_seconds in
    rw
      (timestamps_of-record_violation d other pattern t (vkey i pattern), vkey_same other i pattern)
      (elim (Bool-cases (str_eq other i)) [
        | inl same ↦
            rw
              (
                same,
                (eq_iff other i).0 same,
                filter-append (is_alive w now)
                    (filter (is_alive w t) (timestamps_of d (vkey i pattern))) (t ∷ []),
              )
              (ground (
                arith,
                length-append
                    (filter (is_alive w now)
                      (filter (is_alive w t) (timestamps_of d (vkey i pattern))))
                    (filter (is_alive w now) (t ∷ [])),
                alive_twice w t now (timestamps_of d (vkey i pattern)) h,
              ))
        | inr different ↦ ground (arith, different)
      ])

alive_count-record_all :
    (pattern : AbusePattern) (vs : List (String × ℕ)) (d : InMemoryAbuseDetector) (i : String)
    (first now : ℕ)
    → AreInOrder first now vs
    → let w = (config_of d pattern).window_seconds in
      alive_count (record_all pattern d vs) w i pattern now
      ≡ alive_count d w i pattern now + recent_of w i now vs
unfolding record_all recent_of
alive_count-record_all pattern [] d i first now o = omega arith
alive_count-record_all pattern ((other, t) ∷ vs) d i first now o =
    let d' = (record_violation d other pattern t).1 in
    let rest = alive_count-record_all pattern vs d' i t now o.1 in
    omega (
      arith,
      subst
          (λ c.
            alive_count (record_all pattern d' vs) c.window_seconds i pattern now
            ≡ alive_count d' c.window_seconds i pattern now + recent_of c.window_seconds i now vs)
          (config_of-record_violation d other pattern pattern t) rest,
      alive_count-record_violation d pattern i other t now (order_le t now vs o.1),
    )

config_of-record_all :
    (pattern : AbusePattern) (vs : List (String × ℕ)) (d : InMemoryAbuseDetector)
    → config_of (record_all pattern d vs) pattern ≡ config_of d pattern
unfolding record_all
config_of-record_all pattern [] d = refl
config_of-record_all pattern ((other, t) ∷ vs) d =
    config_of-record_all pattern vs (record_violation d other pattern t).1
    ∙ config_of-record_violation d other pattern pattern t

new_detector_empty :
    (max_cooldown : ℕ) (configs : Option (Dict PatternConfig)) (key : String)
    → timestamps_of (new_detector max_cooldown configs) key ≡ []
unfolding new_detector timestamps_of lookup
new_detector_empty max_cooldown configs key = refl

-- After violations of one pattern by any identities, in order of time, on a new detector, the next
-- violation of an identity counts the violations of that identity that are still in the pattern's
-- window and itself, and it starts a cooldown exactly if this count exceeds the pattern's
-- threshold.
pub record_violation_counts :
    (pattern : AbusePattern) (max_cooldown : ℕ) (configs : Option (Dict PatternConfig))
    (vs : List (String × ℕ)) (identity : String) (now : ℕ)
    → AreInOrder 0 now vs
    → let d = new_detector max_cooldown configs in
      let config = config_of d pattern in
      let result = (record_violation (record_all pattern d vs) identity pattern now).0 in
      (result.violation_count ≡ suc (recent_of config.window_seconds identity now vs))
      × ((result.cooldown_applied ≡ true) ↔ (config.threshold < result.violation_count))
unfolding record_violation pruned
record_violation_counts pattern max_cooldown configs vs identity now o =
    let d = new_detector max_cooldown configs in
    let w = (config_of d pattern).window_seconds in
    let ts = timestamps_of (record_all pattern d vs) (vkey identity pattern) in
    rw (config_of-record_all pattern vs d) (
      ground (
        arith,
        length-append (filter (is_alive w now) ts) (now ∷ []),
        alive_count-record_all pattern vs d identity 0 now o,
        new_detector_empty max_cooldown configs (vkey identity pattern),
      ))
