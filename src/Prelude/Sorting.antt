-- ===== src/Prelude/Sorting.antt =====
-- Python's `sorted`: a stable insertion sort by a test `lt`, with what it promises.
use Prim.Native.Nat.{suc}
use mathlib.Core.Path.{◌≡◌, refl, ap, ◌∙◌}
use mathlib.Core.Logic.{inl, inr}
use mathlib.Core.List.{List, [], ◌∷◌}
use mathlib.Core.Bool.{Bool, true, false}
use native.Mathlib.Omega.{arith}
use propagul.Prelude.Tests.{if◌then◌else◌, Bool-cases}
use propagul.Prelude.Lists.{length, All, In}

module _ {A : Type 0} (lt : A → A → Bool) where
  -- before the first item that is greater
  unfoldable pub insert_by : A → List A → List A
  insert_by a [] = a ∷ []
  insert_by a (x ∷ xs) = let rest = insert_by a xs in if lt x a then x ∷ rest else a ∷ x ∷ xs

  unfoldable pub sort_by : List A → List A
  sort_by [] = []
  sort_by (x ∷ xs) = insert_by x (sort_by xs)

  abbrev pub IsSortedBy : List A → Type 0
  IsSortedBy [] = Unit
  IsSortedBy (x ∷ xs) = All (λ y. lt y x ≡ false) xs × IsSortedBy xs

  In-insert_by : (a b : A) (xs : List A) → In b (insert_by a xs) → In b (a ∷ xs)
  unfolding insert_by
  In-insert_by a b [] h = h
  In-insert_by a b (x ∷ xs) h = ground (arith, In-insert_by a b xs)

  In-of_insert_by : (a b : A) (xs : List A) → In b (a ∷ xs) → In b (insert_by a xs)
  unfolding insert_by
  In-of_insert_by a b [] h = h
  In-of_insert_by a b (x ∷ xs) h = ground (arith, In-of_insert_by a b xs)

  pub In-sort_by : (b : A) (xs : List A) → In b (sort_by xs) → In b xs
  unfolding sort_by
  In-sort_by b [] h = h
  In-sort_by b (x ∷ xs) h = ground (arith, In-insert_by x b (sort_by xs) h, In-sort_by b xs)

  pub In-of_sort_by : (b : A) (xs : List A) → In b xs → In b (sort_by xs)
  unfolding sort_by
  In-of_sort_by b [] h = h
  In-of_sort_by b (x ∷ xs) h = ground (arith, In-of_insert_by x b (sort_by xs), In-of_sort_by b xs)

  length-insert_by : (a : A) (xs : List A) → length (insert_by a xs) ≡ suc (length xs)
  unfolding insert_by
  length-insert_by a [] = refl
  length-insert_by a (x ∷ xs) = ground (arith, length-insert_by a xs)

  pub length-sort_by : (xs : List A) → length (sort_by xs) ≡ length xs
  unfolding sort_by
  length-sort_by [] = refl
  length-sort_by (x ∷ xs) = length-insert_by x (sort_by xs) ∙ ap suc (length-sort_by xs)

-- For a test that is a strict weak order.
module _ {A : Type 0} (lt : A → A → Bool) (asym : (a b : A) → lt a b ≡ true → lt b a ≡ false)
    (trans : (a b c : A) → lt b a ≡ false → lt c b ≡ false → lt c a ≡ false) where
  All-trans :
      (a x : A) (xs : List A)
      → lt x a ≡ false
      → All (λ y. lt y x ≡ false) xs
      → All (λ y. lt y a ≡ false) xs
  All-trans a x [] h k = tt
  All-trans a x (y ∷ ys) h k = (trans a x y h k.0, All-trans a x ys h k.1)

  All-insert_by :
      (P : A → Type 0) (a : A) (xs : List A) → P a → All P xs → All P (insert_by lt a xs)
  unfolding insert_by
  All-insert_by P a [] h k = (h, tt)
  All-insert_by P a (x ∷ xs) h k = ground (arith, All-insert_by P a xs h k.1)

  insert_by-IsSortedBy :
      (a : A) (xs : List A) → IsSortedBy lt xs → IsSortedBy lt (insert_by lt a xs)
  unfolding insert_by
  insert_by-IsSortedBy a [] h = (tt, tt)
  insert_by-IsSortedBy a (x ∷ xs) h = elim (Bool-cases (lt x a)) [
    | inl less ↦ rw less (
      All-insert_by (λ y. lt y x ≡ false) a xs (asym x a less) h.0,
      insert_by-IsSortedBy a xs h.1,
    )
    | inr more ↦ rw more ((more, All-trans a x xs more h.0), h)
  ]

  pub sort_by-IsSortedBy : (xs : List A) → IsSortedBy lt (sort_by lt xs)
  unfolding sort_by
  sort_by-IsSortedBy [] = tt
  sort_by-IsSortedBy (x ∷ xs) = insert_by-IsSortedBy x (sort_by lt xs) (sort_by-IsSortedBy xs)
