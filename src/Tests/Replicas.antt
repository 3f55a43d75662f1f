-- ===== src/Tests/Replicas.antt =====
-- The theorems on replicas, at two nodes.
use propagul.Prelude.{
  ◌+◌, ◌≤◌, ◌≡◌, refl, true, false, ◌||◌, none, some, [], ◌∷◌, arith, if◌then◌else◌, pos, codes,
  dec_text, length, keep,
}
use propagul.Prelude.Finite.{member, add, discard}
use propagul.Prelude.Dict.{lookup, contains, insert, erase}
use propagul.Json.{of_list, of_dict, to_list, to_dict, as_list, as_dict, as_text, as_int}
use propagul.Crdt.Defs.{
  crdt_caps, dec_tag, OrMap, new, tags, entries_at, tag_lt, insert_sorted, sort_tags, discard_all,
  gc_tombstones, bury, set, delete, best, winner, get,
}
use propagul.Crdt.Merge.{
  parse_pair, parse_tag, get_field, parse_fields, parse_entry, merge_entry, merge_parsed,
  merge_entries, merge_key, merge_keys, add_parsed, absorb, live, prune, dict_or_empty,
  list_or_empty, merge_dict, merge_checked, merge, snapshot,
}
use propagul.Crdt.Invariant.{IsValid}
use propagul.Crdt.View.{view, is_dead}
use propagul.Crdt.View.Remote.{value_of, prefer}
use propagul.Crdt.View.Snapshots.{sync, Room, view-sync}
use propagul.Crdt.View.Converge.{
  Agree, SameView, sync-IsValid, get-sync_comm, sync_assoc, sync_idem,
}
use propagul.Crdt.Writes.{view-sync-delete}
use propagul.Crdt.Restart.{Plain, restart, restart_loses_write, get_of_fresh_tag}
use propagul.Tests.Nodes.{ada, bob, cam, ada-IsValid, bob-IsValid, cam-IsValid, ada-bob-Room}

-- the whole of crdt.py
unfoldable pub program : Unit {0}
unfolding dec_text dec_tag keep member add discard lookup contains insert erase of_list of_dict
    to_list to_dict as_list as_dict as_text as_int tag_lt insert_sorted sort_tags discard_all
    gc_tombstones bury set delete best winner get parse_pair parse_tag get_field parse_fields
    parse_entry merge_entry merge_parsed merge_entries merge_key merge_keys add_parsed absorb live
    prune dict_or_empty list_or_empty merge_dict merge_checked merge snapshot sync restart view
    is_dead value_of
program = tt

pub ada-bob-Agree : Agree ada bob
unfolding view value_of lookup
ada-bob-Agree key t v w h k = ground arith

get-sync_comm_example :
    get (sync crdt_caps ada bob) (codes "x") ≡ get (sync crdt_caps bob ada) (codes "x")
get-sync_comm_example =
    get-sync_comm crdt_caps ada bob (codes "x") ada-IsValid bob-IsValid ada-bob-Room ada-bob-Agree

reads : get (sync crdt_caps ada bob) (codes "x") ≡ some (codes "three")
unfolding program
reads = refl

view-sync_example : view (sync crdt_caps ada bob) (codes "x") (pos 2, pos 1) ≡ (
    if is_dead ada (pos 2, pos 1) || is_dead bob (pos 2, pos 1)
    then none
    else prefer (view ada (codes "x") (pos 2, pos 1)) (view bob (codes "x") (pos 2, pos 1)))
view-sync_example =
    view-sync crdt_caps ada bob ada-IsValid bob-IsValid ada-bob-Room (codes "x") (pos 2, pos 1)

-- what the merge leaves
abbrev pub both : OrMap
both = record ada {
  entries =
      (
        codes "x",
        record { value = codes "two"; tag = (pos 1, pos 2) }
            ∷ record { value = codes "three"; tag = (pos 2, pos 1) }
            ∷ [],
      )
      ∷ [];
}

pub sync-both : sync crdt_caps ada bob ≡ both
unfolding program
sync-both = refl

both-bob-Room : Room crdt_caps both bob
unfolding lookup
both-bob-Room = record {
  keys = omega arith;
  entries = λ key. ground arith;
  tombstones = omega arith;
}

sync_idem_example : SameView (sync crdt_caps (sync crdt_caps ada bob) bob) (sync crdt_caps ada bob)
sync_idem_example =
    sync_idem crdt_caps ada bob ada-IsValid bob-IsValid ada-bob-Room (rw sync-both both-bob-Room)

abbrev bob_cam : OrMap
bob_cam = record bob {
  entries =
      (codes "x", record { value = codes "three"; tag = (pos 2, pos 1) } ∷ [])
      ∷ (codes "y", record { value = codes "four"; tag = (pos 3, pos 1) } ∷ [])
      ∷ [];
}

sync-bob_cam : sync crdt_caps bob cam ≡ bob_cam
unfolding program
sync-bob_cam = refl

both-cam-Room : Room crdt_caps both cam
unfolding lookup
both-cam-Room = record {
  keys = omega arith;
  entries = λ key. ground arith;
  tombstones = omega arith;
}

bob-cam-Room : Room crdt_caps bob cam
unfolding lookup
bob-cam-Room = record {
  keys = omega arith;
  entries = λ key. ground arith;
  tombstones = omega arith;
}

ada-bob_cam-Room : Room crdt_caps ada bob_cam
unfolding lookup
ada-bob_cam-Room = record {
  keys = omega arith;
  entries = λ key. ground arith;
  tombstones = omega arith;
}

sync_assoc_example :
    SameView
      (sync crdt_caps (sync crdt_caps ada bob) cam)
      (sync crdt_caps ada (sync crdt_caps bob cam))
sync_assoc_example =
    sync_assoc crdt_caps ada bob cam ada-IsValid bob-IsValid cam-IsValid ada-bob-Room
      (rw sync-both both-cam-Room) bob-cam-Room (rw sync-bob_cam ada-bob_cam-Room)

-- Node 2 has merged node 1, and then node 1 deletes "x": the write of node 2 survives.
abbrev ada_deleted : OrMap
ada_deleted = record ada { entries = []; tombstones = (pos 1, pos 2) ∷ (pos 1, pos 1) ∷ [] }

delete-ada : delete crdt_caps ada (codes "x") ≡ ada_deleted
unfolding program
delete-ada = refl

both-ada_deleted-Room : Room crdt_caps both ada_deleted
unfolding lookup
both-ada_deleted-Room = record {
  keys = omega arith;
  entries = λ key. ground arith;
  tombstones = omega arith;
}

both-IsValid : IsValid crdt_caps both
both-IsValid = rw sync-both at (sync-IsValid crdt_caps ada bob ada-IsValid)

ada_few : length ada.tombstones + length (entries_at ada (codes "x")) ≤ 50000
unfolding lookup dec_text
ada_few = omega arith

view-sync-delete_example :
    view (sync crdt_caps both (delete crdt_caps ada (codes "x"))) (codes "x") (pos 2, pos 1) ≡ (
      if is_dead both (pos 2, pos 1)
        || (is_dead ada (pos 2, pos 1)
            || member dec_tag (pos 2, pos 1) (tags (entries_at ada (codes "x"))))
      then none
      else view both (codes "x") (pos 2, pos 1))
view-sync-delete_example =
    view-sync-delete crdt_caps ada (codes "x") ada_few both (pos 2, pos 1) both-IsValid ada-IsValid
      (rw delete-ada both-ada_deleted-Room)

-- Node 1 restarts from what it had saved, writes "y", and merges node 2.
abbrev restarted : OrMap
restarted = record ada { seq = 0 }

restart-ada : restart crdt_caps ada ≡ restarted
unfolding program
restart-ada = refl

restarted-IsValid : IsValid crdt_caps restarted
restarted-IsValid = record {
  few_keys = ada-IsValid.few_keys;
  distinct_keys = ada-IsValid.distinct_keys;
  few_tombstones = ada-IsValid.few_tombstones;
  distinct_tombstones = ada-IsValid.distinct_tombstones;
  at_key = ada-IsValid.at_key;
}

abbrev rewritten : OrMap
rewritten = record {
  node_id = pos 1;
  seq = 1;
  entries =
      (codes "x", record { value = codes "two"; tag = (pos 1, pos 2) } ∷ [])
      ∷ (codes "y", record { value = codes "five"; tag = (pos 1, pos 1) } ∷ [])
      ∷ [];
  tombstones = (pos 1, pos 1) ∷ [];
}

set-restarted : set crdt_caps restarted (codes "y") (codes "five") ≡ rewritten
unfolding program
set-restarted = refl

rewritten-bob-Room : Room crdt_caps rewritten bob
unfolding lookup
rewritten-bob-Room = record {
  keys = omega arith;
  entries = λ key. ground arith;
  tombstones = omega arith;
}

restarted-Plain : Plain crdt_caps restarted (codes "y") (codes "five") bob
unfolding program
restarted-Plain = record {
  some_room = omega arith;
  free = refl;
  few = omega arith;
  m_valid = restarted-IsValid;
  n_valid = bob-IsValid;
  room = rewritten-bob-Room;
  nothing = refl;
}

new-ada-Room : Room crdt_caps (new (pos 1)) ada
unfolding lookup
new-ada-Room = record {
  keys = omega arith;
  entries = λ key. ground arith;
  tombstones = omega arith;
}

first_dead : is_dead ada (pos 1, pos 1) ≡ true
unfolding program
first_dead = refl

restart_loses_write_example :
    get
      (sync crdt_caps (set crdt_caps (restart crdt_caps ada) (codes "y") (codes "five")) bob)
      (codes "y")
    ≡ none
restart_loses_write_example =
    restart_loses_write crdt_caps ada (codes "y") (codes "five") bob ada-IsValid new-ada-Room
      first_dead (rw restart-ada restarted-Plain)

abbrev ada_written : OrMap
ada_written = record ada {
  seq = 3;
  entries =
      (codes "x", record { value = codes "two"; tag = (pos 1, pos 2) } ∷ [])
      ∷ (codes "y", record { value = codes "five"; tag = (pos 1, pos 3) } ∷ [])
      ∷ [];
}

ada_written-bob-Room : Room crdt_caps ada_written bob
unfolding lookup
ada_written-bob-Room = record {
  keys = omega arith;
  entries = λ key. ground arith;
  tombstones = omega arith;
}

ada-Plain : Plain crdt_caps ada (codes "y") (codes "five") bob
unfolding program
ada-Plain = record {
  some_room = omega arith;
  free = refl;
  few = omega arith;
  m_valid = ada-IsValid;
  n_valid = bob-IsValid;
  room = ada_written-bob-Room;
  nothing = refl;
}

fresh_facts :
    (is_dead ada (pos 1, pos 3) ≡ false)
    × (member dec_tag (pos 1, pos 3) (tags (entries_at ada (codes "y"))) ≡ false)
    × (is_dead bob (pos 1, pos 3) ≡ false)
unfolding program
fresh_facts = (refl, refl, refl)

get_of_fresh_tag_example :
    get (sync crdt_caps (set crdt_caps ada (codes "y") (codes "five")) bob) (codes "y")
    ≡ some (codes "five")
get_of_fresh_tag_example =
    get_of_fresh_tag crdt_caps ada (codes "y") (codes "five") bob ada-Plain fresh_facts.0
      fresh_facts.1 fresh_facts.2
