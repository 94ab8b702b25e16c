-- ===== src/Prelude/Texts.antt =====
-- Python sets of texts, and of pairs of texts, as lists with a membership test.
use Prim.Native.Nat.{ℕ}
use Prim.Native.Char.{code}
use Prim.Native.String.{String}
use mathlib.Core.Path.{◌≡◌}
use mathlib.Core.Bool.{Bool, true, false, ◌&&◌, ◌||◌}
use mathlib.Core.List.{List, [], ◌∷◌, ◌++◌}
use text.Mathlib.Text.{◌==◌}
use text.Mathlib.TextEquality.{eq_iff}
use native.Mathlib.Omega.{arith}
use fictional_barnacle.Prelude.Tests.{if◌then◌else◌}

-- `x in xs`
abbrev pub member : String → List String → Bool
member x [] = false
member x (y ∷ ys) = y == x || member x ys

infix 50 ◌∈◌
abbrev pub ◌∈◌ : String → List String → Type 0
x ∈ xs = member x xs ≡ true

-- Each text is absent from those before it and from `seen`.
abbrev pub IsFresh : List String → List String → Type 0
IsFresh seen [] = Unit
IsFresh seen (x ∷ xs) = (member x seen ≡ false) × IsFresh (x ∷ seen) xs

abbrev pub IsDistinct : List String → Type 0
IsDistinct xs = IsFresh [] xs

abbrev pub Pair : Type 0
Pair = String × String

abbrev pub member_pair : Pair → List Pair → Bool
member_pair p [] = false
member_pair p (q ∷ qs) = (q.0 == p.0 && q.1 == p.1) || member_pair p qs

abbrev pub AreFresh : List Pair → List Pair → Type 0
AreFresh seen [] = Unit
AreFresh seen (p ∷ ps) = (member_pair p seen ≡ false) × AreFresh (p ∷ seen) ps

abbrev pub AreDistinct : List Pair → Type 0
AreDistinct ps = AreFresh [] ps

-- `s.add(p)`
unfoldable pub add_pair : Pair → List Pair → List Pair
add_pair p ps = if member_pair p ps then ps else ps ++ p ∷ []

pub member-append :
    (x : String) (xs ys : List String) → member x (xs ++ ys) ≡ (member x xs || member x ys)
member-append x [] ys = ground arith
member-append x (y ∷ xs) ys = ground (arith, member-append x xs ys)

pub member_pair-append :
    (p : Pair) (ps qs : List Pair)
    → member_pair p (ps ++ qs) ≡ (member_pair p ps || member_pair p qs)
member_pair-append p [] qs = ground arith
member_pair-append p (q ∷ ps) qs = ground (arith, member_pair-append p ps qs)

-- After an addition the set holds the new pair and what it held before.
pub member_pair-add_pair :
    (p q : Pair) (ps : List Pair)
    → member_pair q (add_pair p ps) ≡ ((p.0 == q.0 && p.1 == q.1) || member_pair q ps)
unfolding add_pair
member_pair-add_pair p q ps =
    ground (arith, member_pair-append q ps (p ∷ []), eq_iff p.0 q.0, eq_iff p.1 q.1)

-- The code points of a text.
abbrev pub codes : String → List ℕ
codes String.[] = []
codes (String.◌∷◌ c s) = code c ∷ codes s
