-- ===== src/Crdt/Tombstones.antt =====
-- The eviction of tombstones: the bound that it restores, and which tombstones go.
use propagul.Prelude.{
  ℕ, zero, suc, ◌+◌, ◌≡◌, refl, ap, ◌∙◌, inl, inr, Bool, true, false, ◌&&◌, not, List, [], ◌∷◌,
  arith, ite, Bool-cases, All, length, take, if_pos,
}
use propagul.Prelude.Finite.{
  member, discard, IsDistinct, member-discard, discard-IsDistinct, length-discard,
}
use propagul.Crdt.Defs.{Tag, dec_tag, tag_lt, swapped, insert_sorted, sort_tags, discard_all}
use propagul.Crdt.Order.{tag_lt_asym, tag_ge_trans}

abbrev pub mem : Tag → List Tag → Bool
mem = member dec_tag

-- `t` was made no later than `u`, in the order by which tombstones are evicted
abbrev pub Older : Tag → Tag → Type 0
Older t u = tag_lt (swapped u) (swapped t) ≡ false

abbrev pub IsSorted : List Tag → Type 0
IsSorted [] = Unit
IsSorted (t ∷ ts) = All (Older t) ts × IsSorted ts

All-Older : (t u : Tag) (us : List Tag) → Older t u → All (Older u) us → All (Older t) us
All-Older t u [] h k = tt
All-Older t u (v ∷ vs) h k =
    (tag_ge_trans (swapped v) (swapped u) (swapped t) k.0 h, All-Older t u vs h k.1)

All-insert_sorted :
    (t u : Tag) (us : List Tag) → Older t u → All (Older t) us → All (Older t) (insert_sorted u us)
unfolding insert_sorted
All-insert_sorted t u [] h k = (h, tt)
All-insert_sorted t u (v ∷ vs) h k = elim (Bool-cases (tag_lt (swapped v) (swapped u))) [
  | inl less ↦ rw less (k.0, All-insert_sorted t u vs h k.1)
  | inr more ↦ rw more (h, k)
]

insert_sorted-IsSorted : (t : Tag) (us : List Tag) → IsSorted us → IsSorted (insert_sorted t us)
unfolding insert_sorted
insert_sorted-IsSorted t [] h = (tt, tt)
insert_sorted-IsSorted t (u ∷ us) h = elim (Bool-cases (tag_lt (swapped u) (swapped t))) [
  | inl less ↦ rw less (
    All-insert_sorted u t us (tag_lt_asym (swapped u) (swapped t) less) h.0,
    insert_sorted-IsSorted t us h.1,
  )
  | inr more ↦ rw more ((more, All-Older t u us more h.0), h)
]

pub sort_tags-IsSorted : (ts : List Tag) → IsSorted (sort_tags ts)
unfolding sort_tags
sort_tags-IsSorted [] = tt
sort_tags-IsSorted (t ∷ ts) = insert_sorted-IsSorted t (sort_tags ts) (sort_tags-IsSorted ts)

mem-insert_sorted : (t u : Tag) (us : List Tag) → mem t (insert_sorted u us) ≡ mem t (u ∷ us)
unfolding insert_sorted member
mem-insert_sorted t u [] = refl
mem-insert_sorted t u (v ∷ vs) = ground (arith, mem-insert_sorted t u vs)

pub mem-sort_tags : (t : Tag) (ts : List Tag) → mem t (sort_tags ts) ≡ mem t ts
unfolding sort_tags member
mem-sort_tags t [] = refl
mem-sort_tags t (u ∷ us) =
    mem-insert_sorted t u (sort_tags us) ∙ ap (ite (dec_tag u t) true) (mem-sort_tags t us)

length-insert_sorted : (t : Tag) (us : List Tag) → length (insert_sorted t us) ≡ suc (length us)
unfolding insert_sorted
length-insert_sorted t [] = refl
length-insert_sorted t (u ∷ us) = ground (arith, length-insert_sorted t us)

insert_sorted-IsDistinct :
    (t : Tag) (us : List Tag)
    → mem t us ≡ false
    → IsDistinct dec_tag us
    → IsDistinct dec_tag (insert_sorted t us)
unfolding insert_sorted member
insert_sorted-IsDistinct t [] h d = (refl, tt)
insert_sorted-IsDistinct t (u ∷ us) h d =
    ground (arith, insert_sorted-IsDistinct t us, mem-insert_sorted u t us)

pub sort_tags-IsDistinct :
    (ts : List Tag) → IsDistinct dec_tag ts → IsDistinct dec_tag (sort_tags ts)
unfolding sort_tags
sort_tags-IsDistinct [] d = tt
sort_tags-IsDistinct (t ∷ ts) d =
    insert_sorted-IsDistinct t (sort_tags ts) (mem-sort_tags t ts ∙ d.0)
      (sort_tags-IsDistinct ts d.1)

pub length-sort_tags : (ts : List Tag) → length (sort_tags ts) ≡ length ts
unfolding sort_tags
length-sort_tags [] = refl
length-sort_tags (t ∷ ts) = length-insert_sorted t (sort_tags ts) ∙ ap suc (length-sort_tags ts)

pub mem-discard_all :
    (t : Tag) (old s : List Tag) → mem t (discard_all old s) ≡ (mem t s && not (mem t old))
unfolding discard_all member
mem-discard_all t [] s = ground arith
mem-discard_all t (u ∷ us) s =
    ground (arith, mem-discard_all t us (discard dec_tag u s), member-discard dec_tag u t s)

pub discard_all-IsDistinct :
    (old s : List Tag) → IsDistinct dec_tag s → IsDistinct dec_tag (discard_all old s)
unfolding discard_all
discard_all-IsDistinct [] s d = d
discard_all-IsDistinct (t ∷ ts) s d =
    discard_all-IsDistinct ts (discard dec_tag t s) (discard-IsDistinct dec_tag t s d)

All-mem-discard :
    (t : Tag) (ts s : List Tag)
    → mem t ts ≡ false
    → All (λ u. mem u s ≡ true) ts
    → All (λ u. mem u (discard dec_tag t s) ≡ true) ts
unfolding member
All-mem-discard t [] s h k = tt
All-mem-discard t (u ∷ us) s h k =
    ground (arith, All-mem-discard t us s, member-discard dec_tag t u s)

pub length-discard_all :
    (old s : List Tag)
    → IsDistinct dec_tag old
    → IsDistinct dec_tag s
    → All (λ u. mem u s ≡ true) old
    → length (discard_all old s) + length old ≡ length s
unfolding discard_all
length-discard_all [] s d e h = omega arith
length-discard_all (t ∷ ts) s d e h = omega (
  arith,
  length-discard dec_tag t s e h.0,
  length-discard_all ts (discard dec_tag t s) d.1 (discard-IsDistinct dec_tag t s e)
      (All-mem-discard t ts s d.0 h.1),
)

pub mem-take : (n : ℕ) (t : Tag) (ts : List Tag) → mem t (take n ts) ≡ true → mem t ts ≡ true
unfolding member
mem-take zero t ts h = cc
mem-take (suc n) t [] h = h
mem-take (suc n) t (u ∷ us) h = ground (arith, mem-take n t us)

pub take-IsDistinct :
    (n : ℕ) (ts : List Tag) → IsDistinct dec_tag ts → IsDistinct dec_tag (take n ts)
unfolding member
take-IsDistinct zero ts d = tt
take-IsDistinct (suc n) [] d = tt
take-IsDistinct (suc n) (t ∷ ts) d = ground (arith, take-IsDistinct n ts, mem-take n t ts)

pub All-mem_self :
    (ts s : List Tag)
    → ((t : Tag) → mem t ts ≡ true → mem t s ≡ true)
    → All (λ u. mem u s ≡ true) ts
unfolding member
All-mem_self [] s h = tt
All-mem_self (t ∷ ts) s h =
    (h t (if_pos (dec_tag t t) refl true (mem t ts)), All-mem_self ts s (λ u k. h u (ground arith)))

All-Older-mem : (t u : Tag) (ts : List Tag) → All (Older t) ts → mem u ts ≡ true → Older t u
unfolding member
All-Older-mem t u [] h k = cc
All-Older-mem t u (v ∷ vs) h k = ground (arith, All-Older-mem t u vs)

-- In a sorted list what `take` keeps is older than the rest.
pub take-Older :
    (n : ℕ) (t u : Tag) (ts : List Tag)
    → IsSorted ts
    → mem t (take n ts) ≡ true
    → mem u ts ≡ true
    → mem u (take n ts) ≡ false
    → Older t u
unfolding member
take-Older zero t u ts s h k l = cc
take-Older (suc n) t u [] s h k l = cc
take-Older (suc n) t u (v ∷ vs) s h k l = ground (arith, take-Older n t u vs, All-Older-mem v u vs)
