-- ===== src/Crdt/View/Keys.antt =====
-- Step 1 of a merge over all remote keys, and steps 3 and 4, seen through tags.
use propagul.Prelude.{
  keep, Option, List, [], ◌∷◌, Text, ite, ◌≡◌, refl, ap, sym, subst, ◌∙◌, arith, ◌+◌, ◌≤◌, length,
  false, ℕ, or_else, dec_text, if_pos, if_neg,
}
use propagul.Prelude.Dict.{Dict, lookup, contains, keys, member-keys}
use propagul.Prelude.Finite.{member, IsDistinct}
use propagul.Json.{Json, as_list}
use propagul.Crdt.Defs.{Caps, Tag, Entry}
use propagul.Crdt.Merge.{get_field, list_or_empty, merge_key, merge_keys, prune, live}
use propagul.Crdt.View.Remote.{value_of, prefer, parsed_entries, remote_at}
use propagul.Crdt.View.Step.{
  here, admitted, length-here-merge_key-le, value_of-merge_key, length-merge_key-le, here-merge_key,
}

pub remote_at-cons :
    (k key : Text) (j : Json) (d : Dict Json)
    → remote_at ((key, j) ∷ d) k ≡ ite (dec_text key k) (or_else (as_list j) []) (remote_at d k)
unfolding get_field list_or_empty lookup
remote_at-cons k key j d = ground arith

pub remote_at_absent :
    (k : Text) (d : Dict Json) → member dec_text k (keys d) ≡ false → remote_at d k ≡ []
unfolding get_field list_or_empty as_list contains
remote_at_absent k d h = ground (arith, member-keys k d)

module _ (caps : Caps) (dead : List Tag) (t : Tag) (k : Text) where
  -- what a merge makes of a local and a remote list of entries
  abbrev pub joined : List Entry → List Json → Option Text
  joined es js = prefer (value_of t es) (admitted caps dead t (value_of t (parsed_entries js)))

  joined-nil : (es : List Entry) → joined es [] ≡ value_of t es
  unfolding parsed_entries value_of
  joined-nil es = ground arith

  -- With room, each key's entries are joined with those of the remote key.
  pub value_of-merge_keys :
      (acc : Dict (List Entry) × ℕ) (d : Dict Json)
      → IsDistinct dec_text (keys d)
      → length acc.0 + length d ≤ caps.max_keys
      → length (here k acc.0) + length (remote_at d k) ≤ caps.max_entries_per_key
      → value_of t (here k (merge_keys caps dead acc d).0) ≡ joined (here k acc.0) (remote_at d k)
  unfolding merge_keys member
  value_of-merge_keys acc [] distinct room fits =
      sym (ap (joined (here k acc.0)) (remote_at_absent k [] refl) ∙ joined-nil (here k acc.0))
  value_of-merge_keys acc ((key, j) ∷ d) distinct room fits =
      let next = merge_key caps dead acc key (as_list j) in
      let grown = length-merge_key-le caps dead acc.0 acc.1 key (as_list j) in
      let ih = value_of-merge_keys next d distinct.1 (omega arith) in
      elim (dec_text key k) [
        | yes p ↦
            let mine : remote_at ((key, j) ∷ d) k ≡ or_else (as_list j) [] =
              remote_at-cons k key j d
              ∙ if_pos (dec_text key k) p (or_else (as_list j) []) (remote_at d k) in
            let rest : remote_at d k ≡ [] =
              remote_at_absent k d (subst (λ x. member dec_text x (keys d) ≡ false) p distinct.0) in
            let fits' : length (here k acc.0) + length (or_else (as_list j) [])
                ≤ caps.max_entries_per_key =
              subst (λ js. length (here k acc.0) + length js ≤ caps.max_entries_per_key) mine
                fits in
            let fits'' : length (here key acc.0) + length (or_else (as_list j) [])
                ≤ caps.max_entries_per_key =
              subst
                (λ x.
                  length (here x acc.0) + length (or_else (as_list j) [])
                  ≤ caps.max_entries_per_key)
                (sym p) fits' in
            ih (
              omega (
                arith,
                ap length rest,
                fits',
                length-here-merge_key-le caps dead k acc.0 acc.1 key (as_list j) p,
              ))
            ∙ ap (joined (here k next.0)) rest
            ∙ joined-nil (here k next.0)
            ∙ value_of-merge_key caps dead t k acc.0 acc.1 key (as_list j) (omega arith) fits''
            ∙ if_pos (dec_text key k) p (joined (here k acc.0) (or_else (as_list j) []))
                (value_of t (here k acc.0))
            ∙ ap (joined (here k acc.0)) (sym mine)
        | no p ↦
            let same = here-merge_key caps dead k acc.0 acc.1 key (as_list j) p in
            let skip : remote_at ((key, j) ∷ d) k ≡ remote_at d k =
              remote_at-cons k key j d
              ∙ if_neg (dec_text key k) p (or_else (as_list j) []) (remote_at d k) in
            ih (omega (arith, ap length same, ap length skip))
            ∙ ap (λ es. joined es (remote_at d k)) same
            ∙ ap (joined (here k acc.0)) (sym skip)
      ]

live-nil : (dead : List Tag) → live dead [] ≡ []
unfolding live keep
live-nil dead = refl

here_absent :
    (k : Text) (d : Dict (List Entry)) → member dec_text k (keys d) ≡ false → here k d ≡ []
unfolding contains
here_absent k d h = ground (arith, member-keys k d)

-- Steps 3 and 4: a key keeps its entries that are not dead.
pub here-prune :
    (dead : List Tag) (k : Text) (d : Dict (List Entry))
    → IsDistinct dec_text (keys d)
    → here k (prune dead d) ≡ live dead (here k d)
unfolding prune lookup
here-prune dead k [] h = sym (live-nil dead)
here-prune dead k ((key, es) ∷ d) h = cases (live dead es) refl (here-prune dead k d h.1)
  where
    rest : List (Text × List Entry)
    rest = prune dead d

    cases :
        (l : List Entry)
        → live dead es ≡ l
        → here k rest ≡ live dead (here k d)
        → here k (elim l [ [] ↦ rest | e ∷ es' ↦ (key, e ∷ es') ∷ rest ])
          ≡ live dead (here k ((key, es) ∷ d))
    cases [] p ih = ground (arith, here_absent key d h.0, live-nil dead)
    cases (e ∷ es') p ih = ground arith
