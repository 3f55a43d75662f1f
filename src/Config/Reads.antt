-- ===== src/Config/Reads.antt =====
-- What the tables of a `FleetConfigMap` read after a write.
use propagul.Prelude.{
  ◌≡◌, refl, ap, ◌∙◌, true, false, none, some, [], ◌∷◌, ◌++◌, arith, if◌then◌else◌, ite, Text,
  codes, dec_text,
}
use propagul.Prelude.Dict.{lookup}
use propagul.Crdt.Defs.{Caps, get, set}
use propagul.Crdt.Writes.{is_full, get-set, get-delete}
use propagul.Namespaces.{table, lookup-table, append_cancel}
use propagul.Config.Defs.{FleetConfigMap, Call, put, drop_key}
use propagul.Config.Saving.{auto_save-crdt}
use propagul.Config.Tables.{
  desired_prefix, fleet_prefix, node_prefix, model_key, is_action, set_desired_model,
  get_desired_models, set_node_preference, get_node_preferences, is_blank, set_model_setting,
  get_model_setting, get_all_fleet_settings,
}

append_assoc : (x y z : Text) → (x ++ y) ++ z ≡ x ++ (y ++ z)
append_assoc [] y z = refl
append_assoc (c ∷ x) y z = ap (◌∷◌ c) (append_assoc x y z)

module _ (caps : Caps) (call : Call) (c : FleetConfigMap) where
  get-put :
      (key value j : Text)
      → is_full caps c.crdt key ≡ false
      → get (put caps call c key value).crdt j ≡ ite (dec_text key j) (some value) (get c.crdt j)
  unfolding put
  get-put key value j h =
      ap (λ m. get m j) (auto_save-crdt call (record c { crdt = set caps c.crdt key value }))
      ∙ get-set caps c.crdt key value j h

  get-drop_key :
      (key j : Text)
      → get (drop_key caps call c key).crdt j ≡ ite (dec_text key j) none (get c.crdt j)
  unfolding drop_key
  get-drop_key key j = ap (λ m. get m j) (auto_save-crdt call _) ∙ get-delete caps c.crdt key j

  -- A table in which a name is written.
  table-put :
      (p name value x : Text)
      → is_full caps c.crdt (p ++ name) ≡ false
      → lookup x (table p (put caps call c (p ++ name) value).crdt)
        ≡ ite (dec_text name x) (some value) (lookup x (table p c.crdt))
  table-put p name value x h = ground (
    arith,
    lookup-table p x (put caps call c (p ++ name) value).crdt,
    lookup-table p x c.crdt,
    get-put (p ++ name) value (p ++ x) h,
    append_cancel p name x,
  )

  -- If the map does not drop the write, setting a model to a known action is accepted, and the model
  -- then has the action; other models and all fleet settings read as before.
  get-set_desired_model :
      (model action : Text)
      → is_action action ≡ true
      → is_full caps c.crdt (desired_prefix ++ model) ≡ false
      → (c' : FleetConfigMap) × ((set_desired_model caps call c model action ≡ some c')
          × (((x : Text)
                → lookup x (get_desired_models c')
                  ≡ ite (dec_text model x) (some action) (lookup x (get_desired_models c)))
              × ((x : Text)
                  → lookup x (get_all_fleet_settings c') ≡ lookup x (get_all_fleet_settings c))))
  unfolding set_desired_model get_desired_models get_all_fleet_settings dec_text
  get-set_desired_model model action a h = (
    put caps call c (desired_prefix ++ model) action,
    (
      ground arith,
      (
        λ x. table-put desired_prefix model action x h,
        λ x. ground (
          arith,
          lookup-table fleet_prefix x (put caps call c (desired_prefix ++ model) action).crdt,
          lookup-table fleet_prefix x c.crdt,
          get-put (desired_prefix ++ model) action (fleet_prefix ++ x) h,
        ),
      ),
    ),
  )

  -- If there is room for its key, a setting of a model reads as what was written, as nothing if that
  -- was blank; a setting that has another key reads as before.
  get-set_model_setting :
      (model key value model' key' : Text)
      → is_full caps c.crdt (model_key model key) ≡ false
      → get_model_setting (set_model_setting caps call c model key value) model' key'
        ≡ ite
            (dec_text (model_key model key) (model_key model' key'))
            (if is_blank value then none else some value)
            (get_model_setting c model' key')
  unfolding set_model_setting get_model_setting
  get-set_model_setting model key value model' key' h = ground (
    arith,
    get-put (model_key model key) value (model_key model' key') h,
    get-drop_key (model_key model key) (model_key model' key'),
  )

  node_key_shift :
      (a b key : Text)
      → node_prefix (a ++ codes ":pref:" ++ b) ++ key
        ≡ node_prefix a ++ (b ++ codes ":pref:" ++ key)
  node_key_shift a b key = simp append_assoc

  -- The keys of two nodes are not kept apart if the name of one is the name of the other, ":pref:"
  -- and a rest: a preference of the first, if the map does not drop it, reads as one of the second.
  get_node_preferences-other :
      (a b key value : Text)
      → is_full caps c.crdt (node_prefix (a ++ codes ":pref:" ++ b) ++ key) ≡ false
      → lookup (b ++ codes ":pref:" ++ key) (
          get_node_preferences
            (set_node_preference caps call c (a ++ codes ":pref:" ++ b) key value)
            a)
        ≡ some value
  unfolding get_node_preferences set_node_preference
  get_node_preferences-other a b key value h = ground (
    arith,
    lookup-table (node_prefix a) (b ++ codes ":pref:" ++ key)
        (put caps call c (node_prefix (a ++ codes ":pref:" ++ b) ++ key) value).crdt,
    get-put (node_prefix (a ++ codes ":pref:" ++ b) ++ key) value
        (node_prefix a ++ (b ++ codes ":pref:" ++ key)) h,
    node_key_shift a b key,
  )
