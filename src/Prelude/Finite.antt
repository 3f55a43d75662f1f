-- ===== src/Prelude/Finite.antt =====
-- A Python set as a list without repetitions: membership, `add`, `discard` and their laws.
use Prim.Native.Nat.{◌+◌, ◌≤◌}
use mathlib.Core.Path.{◌≡◌, refl}
use mathlib.Core.Logic.{ite}
use mathlib.Core.List.{List, [], ◌∷◌, ◌++◌}
use mathlib.Core.Bool.{Bool, true, false, ◌&&◌, ◌||◌}
use native.Mathlib.Omega.{arith}
use propagul.Prelude.Tests.{if◌then◌else◌}
use propagul.Prelude.Lists.{length, keep}

module _ {A : Type 0} (dec : Discrete A) where
  -- `a in xs`
  unfoldable pub member : A → List A → Bool
  member a [] = false
  member a (x ∷ xs) = ite (dec x a) true (member a xs)

  -- `s.add(a)`
  unfoldable pub add : A → List A → List A
  unfolding member
  add a s = if member a s then s else a ∷ s

  -- `s.discard(a)`
  unfoldable pub discard : A → List A → List A
  discard a [] = []
  discard a (x ∷ xs) = let rest = discard a xs in ite (dec x a) rest (x ∷ rest)

  -- no item stands twice
  abbrev pub IsDistinct : List A → Type 0
  IsDistinct [] = Unit
  IsDistinct (x ∷ xs) = (member x xs ≡ false) × IsDistinct xs

  pub member-append : (a : A) (xs ys : List A) → member a (xs ++ ys) ≡ (member a xs || member a ys)
  unfolding member
  member-append a [] ys = refl
  member-append a (x ∷ xs) ys = ground (arith, member-append a xs ys)

  pub member-keep :
      (p : A → Bool) (a : A) (xs : List A) → member a (keep p xs) ≡ (p a && member a xs)
  unfolding member keep
  member-keep p a [] = ground arith
  member-keep p a (x ∷ xs) = ground (arith, member-keep p a xs)

  pub member-add : (a b : A) (s : List A) → member b (add a s) ≡ (ite (dec a b) true (member b s))
  unfolding member add
  member-add a b s = ground arith

  pub member-discard :
      (a b : A) (s : List A) → member b (discard a s) ≡ (ite (dec a b) false (member b s))
  unfolding member discard
  member-discard a b [] = ground arith
  member-discard a b (x ∷ xs) = ground (arith, member-discard a b xs)

  pub length-add-le : (a : A) (s : List A) → length (add a s) ≤ length s + 1
  unfolding add
  length-add-le a s = ground arith

  pub add-IsDistinct : (a : A) (s : List A) → IsDistinct s → IsDistinct (add a s)
  unfolding add
  add-IsDistinct a s h = ground arith

  pub discard-IsDistinct : (a : A) (s : List A) → IsDistinct s → IsDistinct (discard a s)
  unfolding discard
  discard-IsDistinct a [] h = tt
  discard-IsDistinct a (x ∷ xs) h = ground (arith, discard-IsDistinct a xs, member-discard a x xs)

  -- in a set without repetitions `discard` of an item takes one away
  discard_absent : (a : A) (s : List A) → member a s ≡ false → discard a s ≡ s
  unfolding member discard
  discard_absent a [] h = refl
  discard_absent a (x ∷ xs) h = ground (arith, discard_absent a xs)

  pub length-discard :
      (a : A) (s : List A) → IsDistinct s → member a s ≡ true → length (discard a s) + 1 ≡ length s
  unfolding member discard
  length-discard a [] d h = cc
  length-discard a (x ∷ xs) d h = ground (arith, length-discard a xs, discard_absent a xs)

  pub snoc-IsDistinct :
      (a : A) (xs : List A) → member a xs ≡ false → IsDistinct xs → IsDistinct (xs ++ a ∷ [])
  unfolding member
  snoc-IsDistinct a [] h d = (refl, tt)
  snoc-IsDistinct a (x ∷ xs) h d = ground (arith, snoc-IsDistinct a xs, member-append x xs (a ∷ []))

  -- A sublist of a list without repetitions has none.
  pub keep-IsDistinct : (p : A → Bool) (xs : List A) → IsDistinct xs → IsDistinct (keep p xs)
  unfolding keep
  keep-IsDistinct p [] d = tt
  keep-IsDistinct p (x ∷ xs) d = ground (arith, keep-IsDistinct p xs, member-keep p x xs)
