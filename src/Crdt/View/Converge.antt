-- ===== src/Crdt/View/Converge.antt =====
-- Replicas that exchange snapshots converge, in whatever order, and then read the same.
use propagul.Prelude.{
  ◌≡◌, refl, sym, ap, ◌∙◌, Bool, ◌||◌, Option, none, some, List, [], ◌∷◌, arith, if◌then◌else◌,
  Text, In, inl, inr, Option-cases,
}
use propagul.Prelude.Finite.{IsDistinct}
use propagul.Prelude.Dict.{lookup, AllValues-lookup}
use propagul.Crdt.Defs.{Caps, Tag, dec_tag, Entry, OrMap, tags, entries_at, winner, get}
use propagul.Crdt.Order.{winner_of_same, In-member}
use propagul.Crdt.Merge.{snapshot}
use propagul.Crdt.Invariant.{IsValid, IsHeld}
use propagul.Crdt.Invariant.Merging.{merge-IsValid}
use propagul.Crdt.View.{view, is_dead}
use propagul.Crdt.View.Remote.{value_of, prefer}
use propagul.Crdt.View.Snapshots.{sync, Room, view-sync, is_dead-sync}

-- Two maps that hold the same values under the same tags, and the same dead tags.
pub record SameView (a b : OrMap) : Type 0 where
  pub views : (key : Text) (t : Tag) → view a key t ≡ view b key t
  pub deads : (t : Tag) → is_dead a t ≡ is_dead b t

-- A tag stands for one value wherever it is held: each is made by one write.
abbrev pub Agree : OrMap → OrMap → Type 0
Agree m n =
    (key : Text) (t : Tag) (v w : Text) → view m key t ≡ some v → view n key t ≡ some w → v ≡ w

value_of-In :
    (e : Entry) (es : List Entry)
    → IsDistinct dec_tag (tags es)
    → In e es
    → value_of e.tag es ≡ some e.value
unfolding value_of
value_of-In e [] d h = absurd h
value_of-In e (x ∷ es) d (inl p) = ground arith
value_of-In e (x ∷ es) d (inr h) = ground (arith, value_of-In e es, In-member e es h)

In-of_value :
    (t : Tag) (v : Text) (es : List Entry)
    → value_of t es ≡ some v
    → In (record { value = v; tag = t }) es
unfolding value_of
In-of_value t v [] h = cc
In-of_value t v (x ∷ es) h = ground (arith, In-of_value t v es)

pub winner_of_views :
    (es fs : List Entry)
    → IsDistinct dec_tag (tags es)
    → IsDistinct dec_tag (tags fs)
    → ((t : Tag) → value_of t es ≡ value_of t fs)
    → winner es ≡ winner fs
winner_of_views es fs d e same =
    winner_of_same es fs d
      (λ x h. In-of_value x.tag x.value fs (sym (same x.tag) ∙ value_of-In x es d h))
      (λ x h. In-of_value x.tag x.value es (same x.tag ∙ value_of-In x fs e h))

module _ (caps : Caps) where
  pub at_key-IsDistinct :
      (m : OrMap) (key : Text) → IsValid caps m → IsDistinct dec_tag (tags (entries_at m key))
  at_key-IsDistinct m key v = elim (Option-cases (lookup key m.entries)) [
    | inl out ↦ rw out tt
    | inr (es, there) ↦
        rw there (AllValues-lookup (IsHeld caps) key es m.entries v.at_key there).fit.distinct
  ]

  -- Replicas with the same view return the same value for every key.
  pub get_of_SameView :
      (a b : OrMap) (key : Text)
      → IsValid caps a
      → IsValid caps b
      → SameView a b
      → get a key ≡ get b key
  unfolding get view
  get_of_SameView a b key va vb same =
      ap (λ (o : Option Entry). elim o [ none ↦ none | some e ↦ some e.value ])
        (winner_of_views (entries_at a key) (entries_at b key) (at_key-IsDistinct a key va)
          (at_key-IsDistinct b key vb) (same.views key))

  pub sync-IsValid : (m n : OrMap) → IsValid caps m → IsValid caps (sync caps m n)
  unfolding sync
  sync-IsValid m n v = merge-IsValid caps m (snapshot n) v

  Room-symm : (m n : OrMap) → Room caps m n → Room caps n m
  Room-symm m n r = record {
    keys = omega arith;
    entries = λ key. omega (arith, r.entries key);
    tombstones = omega arith;
  }

  -- Merging is commutative: two replicas that merge each other's snapshot have the same view.
  pub sync_comm :
      (m n : OrMap)
      → IsValid caps m
      → IsValid caps n
      → Room caps m n
      → Agree m n
      → SameView (sync caps m n) (sync caps n m)
  sync_comm m n vm vn r agree = record {
    views = λ key t.
        view-sync caps m n vm vn r key t
        ∙ join_comm (is_dead m t) (is_dead n t) (view m key t) (view n key t) (agree key t)
        ∙ sym (view-sync caps n m vn vm (Room-symm m n r) key t);
    deads = λ t.
        is_dead-sync caps m n vm vn r t
        ∙ or_comm (is_dead m t) (is_dead n t)
        ∙ sym (is_dead-sync caps n m vn vm (Room-symm m n r) t);
  }
    where
      or_comm : (a b : Bool) → (a || b) ≡ (b || a)
      or_comm a b = ground arith

      join_comm :
          (a b : Bool) (o p : Option Text)
          → ((v w : Text) → o ≡ some v → p ≡ some w → v ≡ w)
          → (if a || b then none else prefer o p) ≡ (if b || a then none else prefer p o)
      join_comm a b none none h = ground arith
      join_comm a b none (some w) h = ground arith
      join_comm a b (some v) none h = ground arith
      join_comm a b (some v) (some w) h = ground (arith, h v w refl refl)

  -- Merging is associative.
  pub sync_assoc :
      (m n o : OrMap)
      → IsValid caps m
      → IsValid caps n
      → IsValid caps o
      → Room caps m n
      → Room caps (sync caps m n) o
      → Room caps n o
      → Room caps m (sync caps n o)
      → SameView (sync caps (sync caps m n) o) (sync caps m (sync caps n o))
  sync_assoc m n o vm vn vo r₁ r₂ r₃ r₄ = record {
    views = λ key t. ground (
      arith,
      view-sync caps (sync caps m n) o (sync-IsValid m n vm) vo r₂ key t,
      view-sync caps m n vm vn r₁ key t,
      is_dead-sync caps m n vm vn r₁ t,
      view-sync caps m (sync caps n o) vm (sync-IsValid n o vn) r₄ key t,
      view-sync caps n o vn vo r₃ key t,
      is_dead-sync caps n o vn vo r₃ t,
    );
    deads = λ t. ground (
      arith,
      is_dead-sync caps (sync caps m n) o (sync-IsValid m n vm) vo r₂ t,
      is_dead-sync caps m n vm vn r₁ t,
      is_dead-sync caps m (sync caps n o) vm (sync-IsValid n o vn) r₄ t,
      is_dead-sync caps n o vn vo r₃ t,
    );
  }

  -- Merging the same snapshot a second time changes nothing.
  pub sync_idem :
      (m n : OrMap)
      → IsValid caps m
      → IsValid caps n
      → Room caps m n
      → Room caps (sync caps m n) n
      → SameView (sync caps (sync caps m n) n) (sync caps m n)
  sync_idem m n vm vn r₁ r₂ = record {
    views = λ key t. ground (
      arith,
      view-sync caps (sync caps m n) n (sync-IsValid m n vm) vn r₂ key t,
      view-sync caps m n vm vn r₁ key t,
      is_dead-sync caps m n vm vn r₁ t,
    );
    deads = λ t. ground (
      arith,
      is_dead-sync caps (sync caps m n) n (sync-IsValid m n vm) vn r₂ t,
      is_dead-sync caps m n vm vn r₁ t,
    );
  }

  -- Two replicas that have merged each other's snapshot return the same value for every key.
  pub get-sync_comm :
      (m n : OrMap) (key : Text)
      → IsValid caps m
      → IsValid caps n
      → Room caps m n
      → Agree m n
      → get (sync caps m n) key ≡ get (sync caps n m) key
  get-sync_comm m n key vm vn r agree =
      get_of_SameView (sync caps m n) (sync caps n m) key (sync-IsValid m n vm)
        (sync-IsValid n m vn) (sync_comm m n vm vn r agree)
