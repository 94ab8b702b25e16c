-- ===== src/Resilience/AntiAbuse.antt =====
-- The in-memory backend of tta/resilience/anti_abuse.py. `time.time()` is an argument.
pub mod Cooldown
pub mod Violations
pub mod Unblock
mod Tests
use text.Mathlib.Text.{starts_with}
use fictional_barnacle.Prelude.{
  ℕ, ◌+◌, ◌-◌, ◌*◌, ◌^◌, min, String, Bool, true, false, Option, none, some, List, [], ◌∷◌, ◌++◌,
  text_append, ltb, if◌then◌else◌, leb, filter, length,
}
use fictional_barnacle.Prelude.Dict.{Dict, erase, insert, lookup}
use fictional_barnacle.Resilience.Clock.{ceil_seconds, second}

-- `AbusePattern`
pub data AbusePattern : Type 0 where
  rapid_fire credential_stuffing connection_flood : AbusePattern

-- The value of a member, which is its text.
abbrev pub value : AbusePattern → String
value rapid_fire = "rapid_fire"
value credential_stuffing = "credential_stuffing"
value connection_flood = "connection_flood"

-- `PatternConfig`
pub record PatternConfig : Type 0 where
  pub threshold : ℕ
  pub window_seconds : ℕ
  pub base_cooldown_seconds : ℕ

abbrev pub default_rapid_fire : PatternConfig
default_rapid_fire = record { threshold = 3; window_seconds = 600; base_cooldown_seconds = 120 }

-- `DEFAULT_PATTERN_CONFIGS`
abbrev pub default_pattern_configs : Dict PatternConfig
default_pattern_configs =
    (value rapid_fire, default_rapid_fire)
    ∷ (
      value credential_stuffing,
      record { threshold = 5; window_seconds = 300; base_cooldown_seconds = 900 },
    )
    ∷ (
      value connection_flood,
      record { threshold = 3; window_seconds = 600; base_cooldown_seconds = 120 },
    )
    ∷ []

-- `CooldownStatus`
pub record CooldownStatus : Type 0 where
  pub active : Bool
  pub remaining_seconds : ℕ
  pub pattern : Option AbusePattern
  pub violation_count : ℕ

-- `ViolationResult`
pub record ViolationResult : Type 0 where
  pub cooldown_applied : Bool
  pub cooldown_seconds : ℕ
  pub violation_count : ℕ
  pub escalated : Bool

-- A value of `_cooldowns`.
pub record CooldownEntry : Type 0 where
  pub expires_at : ℕ
  pub pattern : AbusePattern
  pub count : ℕ

-- `InMemoryAbuseDetector`
pub record InMemoryAbuseDetector : Type 0 where
  pub max_cooldown : ℕ
  pub configs : Dict PatternConfig
  pub violations : Dict (List ℕ)
  pub cooldowns : Dict CooldownEntry

-- `InMemoryAbuseDetector.__init__`: an empty dict of configurations counts as none.
pub new_detector : ℕ → Option (Dict PatternConfig) → InMemoryAbuseDetector
new_detector max_cooldown pattern_configs = record {
  max_cooldown = max_cooldown;
  configs = elim pattern_configs [
    | none ↦ default_pattern_configs
    | some [] ↦ default_pattern_configs
    | some (c ∷ cs) ↦ c ∷ cs
  ];
  violations = [];
  cooldowns = [];
}

-- `_calculate_cooldown`
pub calculate_cooldown : ℕ → PatternConfig → ℕ → ℕ
calculate_cooldown violation_count config max_cooldown =
    let excess = violation_count - config.threshold - 1 in
    min (config.base_cooldown_seconds * 2 ^ min excess 10) max_cooldown

abbrev pub no_cooldown : CooldownStatus
no_cooldown = record { active = false; remaining_seconds = 0; pattern = none; violation_count = 0 }

-- `check_cooldown`
pub check_cooldown : InMemoryAbuseDetector → String → ℕ → CooldownStatus × InMemoryAbuseDetector
check_cooldown d identity now = elim (lookup identity d.cooldowns) [
  | none ↦ (no_cooldown, d)
  | some entry ↦
      if leb entry.expires_at now
      then (no_cooldown, record d { cooldowns = erase identity d.cooldowns })
      else (
        record {
          active = true;
          remaining_seconds = ceil_seconds (entry.expires_at - now);
          pattern = some entry.pattern;
          violation_count = entry.count;
        },
        d,
      )
]

-- `f"{identity}:{pattern}"`
abbrev pub vkey : String → AbusePattern → String
vkey identity pattern = text_append identity (text_append ":" (value pattern))

-- `self._configs.get(pattern, …)`
pub config_of : InMemoryAbuseDetector → AbusePattern → PatternConfig
config_of d pattern = elim (lookup (value pattern) d.configs) [
  | none ↦ default_rapid_fire
  | some config ↦ config
]

-- `self._violations.get(vkey, [])`
pub timestamps_of : InMemoryAbuseDetector → String → List ℕ
timestamps_of d key = elim (lookup key d.violations) [ none ↦ [] | some ts ↦ ts ]

-- `t > window_start`
abbrev pub is_alive : ℕ → ℕ → ℕ → Bool
is_alive window_seconds now t = ltb now (t + window_seconds * second)

-- The pruned list with the new violation.
pub pruned : InMemoryAbuseDetector → String → AbusePattern → ℕ → List ℕ
unfolding timestamps_of config_of
pruned d identity pattern now =
    filter (is_alive (config_of d pattern).window_seconds now)
      (timestamps_of d (vkey identity pattern))
    ++ now ∷ []

-- `record_violation`
pub record_violation :
    InMemoryAbuseDetector → String → AbusePattern → ℕ → ViolationResult × InMemoryAbuseDetector
unfolding pruned calculate_cooldown
record_violation d identity pattern now =
    let config = config_of d pattern in
    let timestamps = pruned d identity pattern now in
    let stored = record d { violations = insert (vkey identity pattern) timestamps d.violations } in
    let count = length timestamps in
    let cooldown = calculate_cooldown count config d.max_cooldown in
    if ltb config.threshold count
    then (
      record {
        cooldown_applied = true;
        cooldown_seconds = cooldown;
        violation_count = count;
        escalated = ltb (config.threshold + 1) count;
      },
      record stored {
        cooldowns =
            insert identity
              (record { expires_at = now + cooldown * second; pattern = pattern; count = count })
              d.cooldowns;
      },
    )
    else (
      record {
        cooldown_applied = false;
        cooldown_seconds = 0;
        violation_count = count;
        escalated = false;
      },
      stored,
    )

-- The entries of a dict whose key does not start with a prefix.
pub without_prefix {ℓ} : {V : Type ℓ} → String → Dict V → Dict V
without_prefix prefix [] = []
without_prefix prefix ((k, v) ∷ d) =
    let rest = without_prefix prefix d in if starts_with k prefix then rest else (k, v) ∷ rest

-- `clear_cooldown`
pub clear_cooldown : InMemoryAbuseDetector → String → InMemoryAbuseDetector
unfolding without_prefix
clear_cooldown d identity = record d {
  cooldowns = erase identity d.cooldowns;
  violations = without_prefix (text_append identity ":") d.violations;
}
