-- ===== src/Crdt/Order.antt =====
-- The order of tags is a strict total order, and `max` finds the greatest entry.
use propagul.Prelude.{
  ◌≡◌, refl, sym, ap, subst, ◌∙◌, inl, inr, true, false, Option, none, some, List, [], ◌∷◌, arith,
  if◌then◌else◌, All, In,
}
use propagul.Prelude.Finite.{member, IsDistinct}
use propagul.Crdt.Defs.{Tag, dec_tag, Entry, tags, tag_lt, best, winner}

pub tag_lt_irrefl : (t : Tag) → tag_lt t t ≡ false
unfolding tag_lt
tag_lt_irrefl t = ground arith

pub tag_lt_trans : (t u v : Tag) → tag_lt t u ≡ true → tag_lt u v ≡ true → tag_lt t v ≡ true
unfolding tag_lt
tag_lt_trans t u v h k = ground arith

pub tag_lt_asym : (t u : Tag) → tag_lt t u ≡ true → tag_lt u t ≡ false
unfolding tag_lt
tag_lt_asym t u h = ground arith

pub tag_ge_trans : (t u v : Tag) → tag_lt t u ≡ false → tag_lt u v ≡ false → tag_lt t v ≡ false
unfolding tag_lt
tag_ge_trans t u v h k = ground arith

pub tag_lt_total : (t u : Tag) → tag_lt t u ≡ false → tag_lt u t ≡ false → t ≡ u
unfolding tag_lt
tag_lt_total t u h k = ground arith

-- No tag of the list is greater than `t`.
abbrev pub IsTop : Tag → List Entry → Type 0
IsTop t es = All (λ e. tag_lt t e.tag ≡ false) es

best-In : (b : Entry) (es : List Entry) → In (best b es) (b ∷ es)
unfolding best
best-In b [] = inl refl
best-In b (e ∷ es) = ground (arith, best-In (if tag_lt b.tag e.tag then e else b) es)

best-ge : (b : Entry) (es : List Entry) → tag_lt (best b es).tag b.tag ≡ false
unfolding best
best-ge b [] = tag_lt_irrefl b.tag
best-ge b (e ∷ es) = ground (
  arith,
  best-ge (if tag_lt b.tag e.tag then e else b) es,
  tag_lt_trans (best e es).tag b.tag e.tag,
)

best-IsTop : (b : Entry) (es : List Entry) → IsTop (best b es).tag (b ∷ es)
unfolding best
best-IsTop b [] = (tag_lt_irrefl b.tag, tt)
best-IsTop b (e ∷ es) =
    let b' = if tag_lt b.tag e.tag then e else b in
    let later = best-IsTop b' es in
    (
      best-ge b (e ∷ es),
      (ground (arith, later.0, tag_ge_trans (best b es).tag b.tag e.tag, best-ge e es), later.1),
    )

-- What `max` returns stands in the list, and nothing in the list is greater.
pub winner_lem : (es : List Entry) (e : Entry) → winner es ≡ some e → In e es × IsTop e.tag es
unfolding winner
winner_lem [] e h = cc
winner_lem (b ∷ es) e h =
    subst (λ x. In x (b ∷ es) × IsTop x.tag (b ∷ es)) (cc) (best-In b es, best-IsTop b es)

pub winner-none : (es : List Entry) → winner es ≡ none → es ≡ []
unfolding winner
winner-none [] h = refl
winner-none (b ∷ es) h = cc

pub IsTop-In :
    (t : Tag) (e : Entry) (es : List Entry) → IsTop t es → In e es → tag_lt t e.tag ≡ false
IsTop-In t e [] top here = absurd here
IsTop-In t e (x ∷ es) top (inl p) = rw (← p) top.0
IsTop-In t e (x ∷ es) top (inr later) = IsTop-In t e es top.1 later

pub In-member : (e : Entry) (es : List Entry) → In e es → member dec_tag e.tag (tags es) ≡ true
unfolding member
In-member e (x ∷ es) (inl p) = ground arith
In-member e (x ∷ es) (inr later) = ground (arith, In-member e es later)
In-member e [] h = absurd h

-- Where no tag stands twice, the tag determines the entry.
pub In-tag_eq :
    (e f : Entry) (es : List Entry)
    → IsDistinct dec_tag (tags es)
    → In e es
    → In f es
    → e.tag ≡ f.tag
    → e ≡ f
In-tag_eq e f [] d he hf p = absurd he
In-tag_eq e f (x ∷ es) d (inl he) (inl hf) p = sym he ∙ hf
In-tag_eq e f (x ∷ es) d (inl he) (inr hf) p = ground (arith, In-member f es hf)
In-tag_eq e f (x ∷ es) d (inr he) (inl hf) p = ground (arith, In-member e es he)
In-tag_eq e f (x ∷ es) d (inr he) (inr hf) p = In-tag_eq e f es d.1 he hf p

same_winner :
    (es fs : List Entry)
    → IsDistinct dec_tag (tags es)
    → ((e : Entry) → In e es → In e fs)
    → ((e : Entry) → In e fs → In e es)
    → (o p : Option Entry) → winner es ≡ o
    → winner fs ≡ p
    → o ≡ p
same_winner es fs d to from none none h k = refl
same_winner es fs d to from none (some f) h k =
    absurd (subst (In f) (winner-none es h) (from f (winner_lem fs f k).0))
same_winner es fs d to from (some e) none h k =
    absurd (subst (In e) (winner-none fs k) (to e (winner_lem es e h).0))
same_winner es fs d to from (some e) (some f) h k =
    let (e_in, e_top) = winner_lem es e h in
    let (f_in, f_top) = winner_lem fs f k in
    let p =
      tag_lt_total e.tag f.tag (IsTop-In e.tag f es e_top (from f f_in))
        (IsTop-In f.tag e fs f_top (to e e_in)) in
    ap some (In-tag_eq e f es d e_in (from f f_in) p)

-- Lists of the same entries, in whatever order, have the same winner.
pub winner_of_same :
    (es fs : List Entry)
    → IsDistinct dec_tag (tags es)
    → ((e : Entry) → In e es → In e fs)
    → ((e : Entry) → In e fs → In e es)
    → winner es ≡ winner fs
winner_of_same es fs d to from = same_winner es fs d to from (winner es) (winner fs) refl refl
