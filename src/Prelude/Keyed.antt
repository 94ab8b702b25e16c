-- ===== src/Prelude/Keyed.antt =====
-- Lists whose elements are told apart by a number, as objects are by an identifier.
use Prim.Native.Nat.{ℕ, ◌+◌, ◌≤◌}
use mathlib.Core.Path.{◌≡◌, refl}
use mathlib.Core.Logic.{inl, inr}
use mathlib.Core.Bool.{Bool, true, false, not}
use mathlib.Core.List.{List, [], ◌∷◌}
use native.Mathlib.Omega.{arith}
use fictional_barnacle.Prelude.Tests.{if◌then◌else◌, ◌==◌, Bool-cases}
use fictional_barnacle.Prelude.Lists.{All, All-map, any, filter, length, sum_by}

module _ {A : Type 0} where
  -- How many elements pass a test.
  abbrev pub count : (A → Bool) → List A → ℕ
  count test = sum_by (λ x. if test x then 1 else 0)

  pub all_not : (test : A → Bool) (xs : List A) → count test xs ≡ 0 → All (λ x. test x ≡ false) xs
  all_not test [] e = tt
  all_not test (x ∷ xs) e = (ground (arith, e), all_not test xs (ground (arith, e)))

  -- A sum over the elements that pass a test.
  pub sum_by-filter :
      (f : A → ℕ) (test : A → Bool) (xs : List A)
      → sum_by f (filter test xs) ≡ sum_by (λ x. if test x then f x else 0) xs
  sum_by-filter f test [] = refl
  sum_by-filter f test (x ∷ xs) = ground (arith, sum_by-filter f test xs)

  -- A sum splits by a test.
  pub sum_by-split :
      (f : A → ℕ) (test : A → Bool) (xs : List A)
      → sum_by f (filter test xs) + sum_by f (filter (λ x. not (test x)) xs) ≡ sum_by f xs
  sum_by-split f test [] = refl
  sum_by-split f test (x ∷ xs) = ground (arith, sum_by-split f test xs)

module _ {A : Type 0} (key : A → ℕ) where
  -- How many elements have a key.
  abbrev pub count_key : ℕ → List A → ℕ
  count_key k = count (λ x. key x == k)

  -- No two elements have the same key.
  abbrev pub HaveDistinctKeys : List A → Type 0
  HaveDistinctKeys xs = (k : ℕ) → count_key k xs ≤ 1

  -- An element has the key of one of these.
  abbrev pub is_one_of : List A → A → Bool
  is_one_of vs x = any (λ v. key v == key x) vs

  count_one_of : (vs : List A) (x : A) → is_one_of vs x ≡ true → 1 ≤ count_key (key x) vs
  count_one_of [] x h = absurd (ground arith)
  count_one_of (v ∷ vs) x h = ground (arith, count_one_of vs x)

  all_one_of_more :
      (v : A) (vs xs : List A)
      → All (λ x. is_one_of vs x ≡ true) xs
      → All (λ x. is_one_of (v ∷ vs) x ≡ true) xs
  all_one_of_more v vs xs = All-map xs (λ x h. ground (arith, h))

  pub all_one_of : (vs : List A) → All (λ x. is_one_of vs x ≡ true) vs
  all_one_of [] = tt
  all_one_of (v ∷ vs) = (ground arith, all_one_of_more v vs vs (all_one_of vs))

  pub count_all :
      (vs xs : List A) → All (λ x. is_one_of vs x ≡ true) xs → count (is_one_of vs) xs ≡ length xs
  count_all vs [] a = refl
  count_all vs (x ∷ xs) a = ground (arith, a.0, count_all vs xs a.1)

  -- None of the rest of a list of distinct elements is one of the others.
  pub none_one_of :
      (vs rest : List A)
      → ((k : ℕ) → count_key k vs + count_key k rest ≤ 1)
      → All (λ x. is_one_of vs x ≡ false) rest
  none_one_of vs [] h = tt
  none_one_of vs (x ∷ rest) h = (
    elim (Bool-cases (is_one_of vs x)) [
      | inl one ↦
          let own : (key x == key x) ≡ true = ground arith in
          absurd (omega (arith, count_one_of vs x one, rw own at (h (key x))))
      | inr other ↦ other
    ],
    none_one_of vs rest (λ k. omega (arith, h k)),
  )

  pub count_none :
      (vs xs : List A) → All (λ x. is_one_of vs x ≡ false) xs → count (is_one_of vs) xs ≡ 0
  count_none vs [] a = refl
  count_none vs (x ∷ xs) a = ground (arith, a.0, count_none vs xs a.1)
