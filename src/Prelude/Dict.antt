-- ===== src/Prelude/Dict.antt =====
-- A Python dict with text keys: an association list in insertion order.
use Prim.Native.Nat.{◌+◌, ◌≤◌}
use mathlib.Core.Path.{◌≡◌, refl, sym, ◌∙◌, subst}
use mathlib.Core.Logic.{ite, if_pos, if_neg}
use mathlib.Core.List.{List, [], ◌∷◌, map}
use mathlib.Core.Bool.{Bool, true, false}
use mathlib.Core.Option.{Option, none, some}
use native.Mathlib.Omega.{arith}
use propagul.Prelude.Tests.{if◌then◌else◌, Text, dec_text}
use propagul.Prelude.Lists.{length, All}
use propagul.Prelude.Finite.{member, IsDistinct}

abbrev pub Dict {ℓ} : Type ℓ → Type ℓ
Dict V = List (Text × V)

module _ {ℓ} {V : Type ℓ} where
  -- `d.get(k)`
  unfoldable pub lookup : Text → Dict V → Option V
  lookup k [] = none
  lookup k ((j, v) ∷ d) = ite (dec_text j k) (some v) (lookup k d)

  -- `k in d`
  unfoldable pub contains : Text → Dict V → Bool
  unfolding lookup
  contains k d = elim (lookup k d) [ none ↦ false | some _ ↦ true ]

  -- `d[k] = v`: a key that is there keeps its place
  unfoldable pub insert : Text → V → Dict V → Dict V
  insert k v [] = (k, v) ∷ []
  insert k v ((j, w) ∷ d) =
      let rest = insert k v d in ite (dec_text j k) ((k, v) ∷ d) ((j, w) ∷ rest)

  -- `del d[k]`, `d.pop(k, None)`
  unfoldable pub erase : Text → Dict V → Dict V
  erase k [] = []
  erase k ((j, w) ∷ d) = let rest = erase k d in ite (dec_text j k) rest ((j, w) ∷ rest)

  abbrev pub keys : Dict V → List Text
  keys = map (λ e. e.0)

  pub lookup-insert :
      (k j : Text) (v : V) (d : Dict V)
      → lookup j (insert k v d) ≡ ite (dec_text k j) (some v) (lookup j d)
  unfolding lookup insert
  lookup-insert k j v [] = refl
  lookup-insert k j v ((i, w) ∷ d) = ground (arith, lookup-insert k j v d)

  pub lookup-erase :
      (k j : Text) (d : Dict V) → lookup j (erase k d) ≡ ite (dec_text k j) none (lookup j d)
  unfolding lookup erase
  lookup-erase k j [] = ground arith
  lookup-erase k j ((i, w) ∷ d) = ground (arith, lookup-erase k j d)

  pub member-keys : (k : Text) (d : Dict V) → member dec_text k (keys d) ≡ contains k d
  unfolding member contains
  member-keys k [] = refl
  member-keys k ((j, w) ∷ d) = ground (arith, member-keys k d)

  pub lookup_absent :
      (k : Text) (d : Dict V) → member dec_text k (keys d) ≡ false → lookup k d ≡ none
  unfolding member lookup
  lookup_absent k [] h = refl
  lookup_absent k ((j, v) ∷ d) h = ground (arith, lookup_absent k d)

  pub contains-insert :
      (k j : Text) (v : V) (d : Dict V)
      → contains j (insert k v d) ≡ ite (dec_text k j) true (contains j d)
  unfolding contains
  contains-insert k j v d = ground (arith, lookup-insert k j v d)

  pub length-insert :
      (k : Text) (v : V) (d : Dict V)
      → length (insert k v d) ≡ (if contains k d then length d else length d + 1)
  unfolding contains insert
  length-insert k v [] = ground arith
  length-insert k v ((j, w) ∷ d) = ground (arith, length-insert k v d)

  pub length-erase-le : (k : Text) (d : Dict V) → length (erase k d) ≤ length d
  unfolding erase
  length-erase-le k [] = omega arith
  length-erase-le k ((j, w) ∷ d) = ground (arith, length-erase-le k d)

  pub insert-IsDistinct :
      (k : Text) (v : V) (d : Dict V)
      → IsDistinct dec_text (keys d)
      → IsDistinct dec_text (keys (insert k v d))
  unfolding insert contains member
  insert-IsDistinct k v [] h = ground arith
  insert-IsDistinct k v ((j, w) ∷ d) h = ground (
    arith,
    insert-IsDistinct k v d,
    member-keys j d,
    member-keys j (insert k v d),
    contains-insert k j v d,
  )

  pub erase-IsDistinct :
      (k : Text) (d : Dict V)
      → IsDistinct dec_text (keys d)
      → IsDistinct dec_text (keys (erase k d))
  unfolding erase contains member
  erase-IsDistinct k [] h = tt
  erase-IsDistinct k ((j, w) ∷ d) h =
      ground (
        arith,
        erase-IsDistinct k d,
        member-keys j d,
        member-keys j (erase k d),
        lookup-erase k j d,
      )

-- What holds of every value: read at a key, and kept by the operations.
module _ {V : Type 0} (P : V → Type 0) where
  abbrev pub AllValues : Dict V → Type 0
  AllValues d = All (λ e. P e.1) d

  pub AllValues-lookup : (k : Text) (v : V) (d : Dict V) → AllValues d → lookup k d ≡ some v → P v
  unfolding lookup
  AllValues-lookup k v [] h e = cc
  AllValues-lookup k v ((j, w) ∷ d) h e = elim (dec_text j k) [
    | yes p ↦
        let q : some w ≡ some v = sym (if_pos (dec_text j k) p (some w) (lookup k d)) ∙ e in
        subst P (cc) h.0
    | no p ↦ AllValues-lookup k v d h.1 (sym (if_neg (dec_text j k) p (some w) (lookup k d)) ∙ e)
  ]

  pub AllValues-insert :
      (k : Text) (v : V) (d : Dict V) → P v → AllValues d → AllValues (insert k v d)
  unfolding insert
  AllValues-insert k v [] p h = (p, tt)
  AllValues-insert k v ((j, w) ∷ d) p h = ground (arith, AllValues-insert k v d p h.1)

  pub AllValues-erase : (k : Text) (d : Dict V) → AllValues d → AllValues (erase k d)
  unfolding erase
  AllValues-erase k [] h = tt
  AllValues-erase k ((j, w) ∷ d) h = ground (arith, AllValues-erase k d h.1)
