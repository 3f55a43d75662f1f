-- ===== src/Config/ModelSettings.antt =====
-- `get_all_model_settings` of a `FleetConfigMap` has what `get_model_setting` reads.
use propagul.Prelude.{
  ℕ, ◌<◌, ◌≡◌, refl, sym, ap, ◌∙◌, true, Option, none, some, List, [], ◌∷◌, ◌++◌, arith,
  if◌then◌else◌, ite, Text, codes, dec_text, length, or_else, inl, inr, Option-cases,
}
use mathlib.Core.List.{append_assoc}
use propagul.Prelude.Finite.{member, IsDistinct}
use propagul.Prelude.Dict.{
  Dict, lookup, insert, keys, lookup-insert, member-keys, insert-IsDistinct,
}
use propagul.Crdt.Defs.{OrMap, active_keys, get}
use propagul.Namespaces.{
  strip_prefix, strip_prefix-append, append-strip_prefix, first_of, get_absent,
}
use propagul.Config.Defs.{FleetConfigMap}
use propagul.Config.Tables.{
  model_key, split_at, contains_text, add_setting, model_and_key, collect_settings,
  get_all_model_settings, get_model_setting,
}

abbrev sep : Text
sep = codes ":setting:"

append-split_at : (p s a b : Text) → split_at p s ≡ some (a, b) → s ≡ a ++ (p ++ b)
unfolding split_at
append-split_at p [] a b h = ground (arith, append-strip_prefix p [] b)
append-split_at p (c ∷ s) a b h = elim (Option-cases (strip_prefix p (c ∷ s))) [
  | inl no_prefix ↦ elim (Option-cases (split_at p s)) [
    | inl absent ↦ ground (arith, absent)
    | inr ((a', b'), later) ↦ ground (arith, append-split_at p s a' b' later)
  ]
  | inr (after, prefix) ↦ ground (arith, append-strip_prefix p (c ∷ s) after)
]

contains_text_later :
    (p s : Text) (c : ℕ) → contains_text p s ≡ true → contains_text p (c ∷ s) ≡ true
unfolding split_at
contains_text_later p s c h = ground (arith, h)

-- The text has the separator, and these stand before and after its first occurrence: no earlier one
-- overlaps them.
abbrev pub SplitsAt : Text → Text → Type 0
SplitsAt model key = split_at sep (model ++ (sep ++ key)) ≡ some (model, key)

model_key_parts :
    (model key : Text) → model_key model key ≡ codes "model:" ++ (model ++ (sep ++ key))
model_key_parts model key = simp append_assoc

contains_text-append : (p q s : Text) → contains_text p s ≡ true → contains_text p (q ++ s) ≡ true
contains_text-append p [] s h = h
contains_text-append p (c ∷ q) s h = contains_text_later p (q ++ s) c (contains_text-append p q s h)

model_and_key_lem :
    (k model key : Text) → model_and_key k ≡ some (model, key) → k ≡ model_key model key
unfolding model_and_key
model_and_key_lem k model key h = elim (Option-cases (strip_prefix (codes "model:") k)) [
  | inl e ↦ ground (arith, e)
  | inr (rest, e) ↦
      let q : split_at sep rest ≡ some (model, key) = ground (arith, e) in
      append-strip_prefix (codes "model:") k rest e
      ∙ ap (λ r. codes "model:" ++ r) (append-split_at sep rest model key q)
      ∙ sym (model_key_parts model key)
]

model_and_key-model_key :
    (model key : Text)
    → SplitsAt model key
    → model_and_key (model_key model key) ≡ some (model, key)
unfolding model_and_key
model_and_key-model_key model key h = rw (model_key_parts model key) (
    ground (
      arith,
      strip_prefix-append (codes "model:") (model ++ (sep ++ key)),
      contains_text-append sep (codes "model:") (model ++ (sep ++ key)) (ground (arith, h)),
    ))

unfoldable pub lookup2 : Text → Text → Dict (Dict Text) → Option Text
lookup2 model key d = elim (lookup model d) [ none ↦ none | some settings ↦ lookup key settings ]

in_table : Text → Option (Dict Text) → Option Text
in_table key o = elim o [ none ↦ none | some settings ↦ lookup key settings ]

in_table_put :
    (key key' v : Text) (o : Option (Dict Text))
    → in_table key (some (insert key' v (or_else o [])))
      ≡ ite (dec_text key' key) (some v) (in_table key o)
unfolding in_table lookup
in_table_put key key' v none = lookup-insert key' key v []
in_table_put key key' v (some settings) = lookup-insert key' key v settings

lookup2-put :
    (model key model' key' v : Text) (acc : Dict (Dict Text))
    → lookup2 model key (insert model' (insert key' v (or_else (lookup model' acc) [])) acc)
      ≡ ite
          (dec_text model' model)
          (ite (dec_text key' key) (some v) (lookup2 model key acc))
          (lookup2 model key acc)
unfolding lookup2 in_table
lookup2-put model key model' key' v acc =
    ap (in_table key)
      (lookup-insert model' model (insert key' v (or_else (lookup model' acc) [])) acc)
    ∙ go (dec_text model' model)
  where
    go :
        (d : Dec (model' ≡ model))
        → in_table key
            (ite d (some (insert key' v (or_else (lookup model' acc) []))) (lookup model acc))
          ≡ ite d (ite (dec_text key' key) (some v) (lookup2 model key acc)) (lookup2 model key acc)
    go (yes p) =
        in_table_put key key' v (lookup model' acc)
        ∙ ap (λ m. ite (dec_text key' key) (some v) (in_table key (lookup m acc))) p
    go (no p) = refl

lookup2-add_setting :
    (model key k : Text) (o : Option Text) (acc : Dict (Dict Text))
    → 0 < length model
    → SplitsAt model key
    → lookup2 model key (add_setting (model_and_key k) o acc)
      ≡ ite
          (dec_text k (model_key model key))
          (first_of o (lookup2 model key acc))
          (lookup2 model key acc)
unfolding add_setting first_of
lookup2-add_setting model key k none acc pos_model h =
    ground (arith, model_and_key-model_key model key h)
lookup2-add_setting model key k (some v) acc pos_model h = elim (Option-cases (model_and_key k)) [
  | inl e ↦ rw e (ground (arith, e, model_and_key-model_key model key h))
  | inr ((model', key'), e) ↦ rw e (
      ground (
        arith,
        e,
        model_and_key_lem k model' key' e,
        model_and_key-model_key model key h,
        lookup2-put model key model' key' v acc,
      ))
]

lookup2-collect_settings :
    (model key : Text) (m : OrMap) (ks : List Text) (acc : Dict (Dict Text))
    → 0 < length model
    → SplitsAt model key
    → lookup2 model key (collect_settings m ks acc) ≡ (
        if member dec_text (model_key model key) ks
        then first_of (get m (model_key model key)) (lookup2 model key acc)
        else lookup2 model key acc)
unfolding collect_settings member first_of
lookup2-collect_settings model key m [] acc p h = refl
lookup2-collect_settings model key m (k ∷ ks) acc p h = ground (
  arith,
  lookup2-collect_settings model key m ks (add_setting (model_and_key k) (get m k) acc) p h,
  lookup2-add_setting model key k (get m k) acc p h,
)

-- The table of all model settings has under a model and a key what the single read gives, if the
-- model's name is not empty and the separator occurs first where the two are joined.
pub lookup2-get_all_model_settings :
    (model key : Text) (c : FleetConfigMap)
    → 0 < length model
    → SplitsAt model key
    → lookup2 model key (get_all_model_settings c) ≡ get_model_setting c model key
unfolding get_all_model_settings get_model_setting first_of lookup2 lookup
lookup2-get_all_model_settings model key c p h = ground (
  arith,
  lookup2-collect_settings model key c.crdt (active_keys c.crdt) [] p h,
  member-keys (model_key model key) c.crdt.entries,
  get_absent c.crdt (model_key model key),
)

add_setting-IsDistinct :
    (o : Option (Text × Text)) (v : Option Text) (acc : Dict (Dict Text))
    → IsDistinct dec_text (keys acc)
    → IsDistinct dec_text (keys (add_setting o v acc))
unfolding add_setting
add_setting-IsDistinct none v acc d = d
add_setting-IsDistinct (some (model, key)) none acc d = d
add_setting-IsDistinct (some (model, key)) (some v) acc d =
    ground (arith, insert-IsDistinct model (insert key v (or_else (lookup model acc) [])) acc d)

collect_settings-IsDistinct :
    (m : OrMap) (ks : List Text) (acc : Dict (Dict Text))
    → IsDistinct dec_text (keys acc)
    → IsDistinct dec_text (keys (collect_settings m ks acc))
unfolding collect_settings
collect_settings-IsDistinct m [] acc d = d
collect_settings-IsDistinct m (k ∷ ks) acc d =
    collect_settings-IsDistinct m ks _ (add_setting-IsDistinct (model_and_key k) (get m k) acc d)

-- No model stands twice in the table.
pub get_all_model_settings-IsDistinct :
    (c : FleetConfigMap) → IsDistinct dec_text (keys (get_all_model_settings c))
unfolding get_all_model_settings
get_all_model_settings-IsDistinct c = collect_settings-IsDistinct c.crdt (active_keys c.crdt) [] tt
