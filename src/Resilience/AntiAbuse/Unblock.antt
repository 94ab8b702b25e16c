-- ===== src/Resilience/AntiAbuse/Unblock.antt =====
-- The admin's unblocking of an address, in tta/api/routes/admin_rate_limits.py, and the identity
-- under which tta/api/middleware.py has it watched.
use Prim.Native.String.{count}
use text.Mathlib.TextLemmas.{length-append}
use fictional_barnacle.Prelude.{ℕ, String, ◌≡◌, ap, ◌≢◌, arith, eq_iff, text_append}
use fictional_barnacle.Prelude.Dict.{lookup-erase}
use fictional_barnacle.Resilience.AntiAbuse.{InMemoryAbuseDetector, check_cooldown, clear_cooldown}

-- `abuse_identity`, in the middleware.
abbrev pub abuse_identity : String → String
abuse_identity ip = text_append "ip:" ip

-- The detector's part of `unblock_ip`.
unfoldable pub unblock_ip : InMemoryAbuseDetector → String → InMemoryAbuseDetector
unfolding clear_cooldown
unblock_ip d ip_address = clear_cooldown d ip_address

identity_differs : (ip : String) → ip ≢ abuse_identity ip
identity_differs ip e =
    let same : count ip ≡ count (abuse_identity ip) = ap count e in
    absurd (omega (arith, same, length-append "ip:" ip))

-- The unblocking of an address changes nothing of the cooldown that the middleware checks for it.
pub check_cooldown-unblock_ip :
    (d : InMemoryAbuseDetector) (ip : String) (now : ℕ)
    → (check_cooldown (unblock_ip d ip) (abuse_identity ip) now).0
      ≡ (check_cooldown d (abuse_identity ip) now).0
unfolding check_cooldown unblock_ip
check_cooldown-unblock_ip d ip now = ground (
  arith,
  lookup-erase ip (abuse_identity ip) d.cooldowns,
  eq_iff ip (abuse_identity ip),
  identity_differs ip,
)
