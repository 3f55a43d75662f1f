-- ===== src/Crdt/Eviction.antt =====
-- `_gc_tombstones`: the cap is restored, and the tombstones that go are the oldest.
use Prim.Native.Nat.{min}
use propagul.Prelude.{
  ◌-◌, ◌≤◌, ◌<◌, ◌≡◌, ◌≢◌, sym, ap, ◌∙◌, true, false, ◌&&◌, not, List, arith, Bool-cases, inl, inr,
  leb, leb→le, length, take, length-take,
}
use mathlib.Core.Bool.{false≢true}
use propagul.Prelude.Finite.{IsDistinct}
use propagul.Crdt.Defs.{Caps, Tag, dec_tag, tag_lt, swapped, sort_tags, discard_all, gc_tombstones}
use propagul.Crdt.Order.{tag_lt_total}
use propagul.Crdt.Tombstones.{
  mem, Older, mem-sort_tags, sort_tags-IsSorted, length-sort_tags, sort_tags-IsDistinct,
  mem-discard_all, discard_all-IsDistinct, length-discard_all, mem-take, take-IsDistinct,
  All-mem_self, take-Older,
}

strictly-Older : (t u : Tag) → Older t u → t ≢ u → tag_lt (swapped t) (swapped u) ≡ true
strictly-Older t u h ne = elim (Bool-cases (tag_lt (swapped t) (swapped u))) [
  | inl lt ↦ lt
  | inr ge ↦ absurd (ne (ap swapped (tag_lt_total (swapped t) (swapped u) ge h)))
]

module _ (caps : Caps) (ts : List Tag) where
  -- the tombstones that go
  abbrev evicted : List Tag
  evicted = take (length ts - caps.max_tombstones) (sort_tags ts)

  pub gc_below : length ts ≤ caps.max_tombstones → gc_tombstones caps ts ≡ ts
  unfolding gc_tombstones
  gc_below h = ground arith

  gc_above : caps.max_tombstones < length ts → gc_tombstones caps ts ≡ discard_all evicted ts
  unfolding gc_tombstones
  gc_above h = ground arith

  mem-gc_above :
      (t : Tag)
      → caps.max_tombstones < length ts
      → mem t (gc_tombstones caps ts) ≡ (mem t ts && not (mem t evicted))
  mem-gc_above t h = rw (gc_above h) (mem-discard_all t evicted ts)

  pub gc-IsDistinct : IsDistinct dec_tag ts → IsDistinct dec_tag (gc_tombstones caps ts)
  unfolding gc_tombstones
  gc-IsDistinct d = elim (Bool-cases (leb (length ts) caps.max_tombstones)) [
    | inl few ↦ rw few d
    | inr many ↦ rw many (discard_all-IsDistinct evicted ts d)
  ]

  -- Eviction invents no tombstone.
  pub mem_of_gc : (t : Tag) → mem t (gc_tombstones caps ts) ≡ true → mem t ts ≡ true
  unfolding gc_tombstones
  mem_of_gc t h = ground (arith, mem-discard_all t evicted ts)

  -- After the eviction there are as many tombstones as before, or as many as the cap allows.
  pub length-gc :
      IsDistinct dec_tag ts → length (gc_tombstones caps ts) ≡ min (length ts) caps.max_tombstones
  unfolding gc_tombstones
  length-gc d = elim (Bool-cases (leb (length ts) caps.max_tombstones)) [
    | inl few ↦ rw few (omega (arith, leb→le (length ts) caps.max_tombstones few))
    | inr many ↦ rw many (
        omega (
          arith,
          few_of many,
          length-sort_tags ts,
          length-take (length ts - caps.max_tombstones) (sort_tags ts),
          length-discard_all evicted ts
              (take-IsDistinct _ (sort_tags ts) (sort_tags-IsDistinct ts d)) d
              (All-mem_self evicted ts (λ t h.
                sym (mem-sort_tags t ts)
                ∙ mem-take (length ts - caps.max_tombstones) t (sort_tags ts) h)),
        ))
  ]
    where
      few_of : leb (length ts) caps.max_tombstones ≡ false → caps.max_tombstones < length ts
      few_of h = ground arith

  went : (t : Tag) → mem t ts ≡ true → mem t (gc_tombstones caps ts) ≡ false → mem t evicted ≡ true
  unfolding gc_tombstones
  went t h gone = ground (arith, mem-discard_all t evicted ts)

  stayed :
      (t u : Tag)
      → mem t ts ≡ true
      → mem t (gc_tombstones caps ts) ≡ false
      → mem u (gc_tombstones caps ts) ≡ true
      → mem u evicted ≡ false
  unfolding gc_tombstones
  stayed t u h gone stays = ground (arith, mem-discard_all u evicted ts)

  -- A tombstone that is evicted is older than every one that stays.
  gc-evicts_oldest :
      (t u : Tag)
      → mem t ts ≡ true
      → mem t (gc_tombstones caps ts) ≡ false
      → mem u (gc_tombstones caps ts) ≡ true
      → tag_lt (swapped t) (swapped u) ≡ true
  gc-evicts_oldest t u h gone stays =
      let out = went t h gone in
      let not_out = stayed t u h gone stays in
      strictly-Older t u
        (take-Older (length ts - caps.max_tombstones) t u (sort_tags ts) (sort_tags-IsSorted ts) out
          (mem-sort_tags u ts ∙ mem_of_gc u stays) not_out)
        (λ e. false≢true (sym not_out ∙ ap (λ v. mem v evicted) (sym e) ∙ out))
