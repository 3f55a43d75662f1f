-- ===== src/Config/Restarts.antt =====
-- What a `FleetConfigMap` that is started again reads from its file, and what a merge that only
-- deletes leaves there.
use propagul.Prelude.{
  ℕ, ◌≡◌, refl, ap, ◌∙◌, true, false, none, arith, ltb, Text, ℤ, length, dec_text, dec_int,
}
use propagul.Prelude.Dict.{lookup}
use propagul.Prelude.Finite.{member}
use propagul.Crdt.View.Remote.{value_of}
use propagul.Json.{Json, as_dict, of_dict, to_dict}
use propagul.Crdt.Defs.{Caps, Tag, OrMap, new, get}
use propagul.Crdt.Merge.{merge, snapshot, get_field}
use propagul.Crdt.Invariant.{IsValid, new-IsValid}
use propagul.Crdt.View.{view, is_dead}
use propagul.Crdt.View.Snapshots.{sync, Room, view-sync, is_dead-sync}
use propagul.Crdt.View.Converge.{SameView, get_of_SameView, sync-IsValid}
use propagul.Config.Defs.{
  content, FleetConfigMap, Call, persists, file_data, flush_to_disk, is_one, load_snapshot,
  load_dict, load_file, load_from_disk, new_config, merge_config, save_merged,
}
use propagul.Config.Saving.{IsSaved}

-- A new map with room for the saved one, in which nothing is held under a dead tag.
pub record Reloads (caps : Caps) (node : ℤ) (m : OrMap) : Type 0 where
  pub valid : IsValid caps m
  pub room : Room caps (new node) m
  pub clean : (key : Text) (t : Tag) → is_dead m t ≡ true → view m key t ≡ none

load-file_data :
    (caps : Caps) (node : ℤ) (m : OrMap)
    → (load_file caps (new node) (content (file_data m))).0 ≡ sync caps (new node) m
unfolding load_file load_dict load_snapshot is_one get_field sync snapshot as_dict to_dict of_dict
    lookup dec_text dec_int
load-file_data caps node m = refl

reload-SameView :
    (caps : Caps) (node : ℤ) (m : OrMap) → Reloads caps node m → SameView (sync caps (new node) m) m
unfolding view is_dead member lookup value_of
reload-SameView caps node m r = record {
  views = λ key t. ground (
    arith,
    view-sync caps (new node) m (new-IsValid caps node) r.valid r.room key t,
    r.clean key t,
  );
  deads = λ t. is_dead-sync caps (new node) m (new-IsValid caps node) r.valid r.room t;
}

new_config-crdt :
    (caps : Caps) (node : ℤ) (path : Text) (debounce : ℕ) (m : OrMap)
    → ltb 0 (length path) ≡ true
    → (new_config caps node path debounce (content (file_data m))).crdt ≡ sync caps (new node) m
unfolding new_config load_from_disk
new_config-crdt caps node path debounce m p = ground (arith, load-file_data caps node m)

-- A configuration that is started with a path, on the file of a saved valid map, reads for every key
-- what the saved map reads, where no cap is met and nothing is held under a dead tag.
pub get-new_config :
    (caps : Caps) (node : ℤ) (path : Text) (debounce : ℕ) (m : OrMap) (key : Text)
    → ltb 0 (length path) ≡ true
    → Reloads caps node m
    → get (new_config caps node path debounce (content (file_data m))).crdt key ≡ get m key
get-new_config caps node path debounce m key p r =
    ap (λ m'. get m' key) (new_config-crdt caps node path debounce m p)
    ∙ get_of_SameView caps (sync caps (new node) m) m key
        (sync-IsValid caps (new node) m (new-IsValid caps node)) r.valid
        (reload-SameView caps node m r)

flush-merge_file :
    (caps : Caps) (call call' : Call) (c : FleetConfigMap) (j : Json)
    → c.dirty ≡ false
    → (merge caps c.crdt j).1 ≡ 0
    → (flush_to_disk call' (merge_config caps call c j).0).0.file ≡ c.file
unfolding flush_to_disk merge_config save_merged
flush-merge_file caps call call' c j d z = ground arith

-- A configuration with a path that is saved and not dirty, and merges a value that adds no entry,
-- reads after a flush and a restart for every key what it read before the merge, where no cap is met
-- and nothing was held under a dead tag. So a deletion that came in by such a merge is undone.
pub restart-undoes_merge :
    (caps : Caps) (call call' : Call) (c : FleetConfigMap) (j : Json) (node : ℤ) (key : Text)
    → persists c ≡ true
    → IsSaved c
    → c.dirty ≡ false
    → (merge caps c.crdt j).1 ≡ 0
    → Reloads caps node c.crdt
    → get
        (new_config caps node c.persist_path c.debounce_seconds
          (flush_to_disk call' (merge_config caps call c j).0).0.file).crdt
        key
      ≡ get c.crdt key
restart-undoes_merge caps call call' c j node key p s d z r =
    ap (λ f. get (new_config caps node c.persist_path c.debounce_seconds f).crdt key)
      (flush-merge_file caps call call' c j d z ∙ s p d)
    ∙ get-new_config caps node c.persist_path c.debounce_seconds c.crdt key p r
