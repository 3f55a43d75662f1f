-- ===== src/Tests/Operations.antt =====
-- The theorems on the operations of one node.
use propagul.Prelude.{◌≡◌, refl, false, List, [], ◌∷◌, pos, codes}
use propagul.Crdt.Defs.{Caps, crdt_caps, Tag, entries_at, get, gc_tombstones}
use propagul.Crdt.Merge.{merge, snapshot}
use propagul.Crdt.Invariant.{IsValid}
use propagul.Crdt.Invariant.Merging.{merge-IsValid}
use propagul.Crdt.Reads.{IsRead, get-IsRead}
use propagul.Crdt.Writes.{is_full}
use propagul.Tests.Nodes.{ada, bob, ada-IsValid}
use propagul.Tests.Replicas.{program}

merge-IsValid_example : IsValid crdt_caps (merge crdt_caps ada (snapshot bob)).0
merge-IsValid_example = merge-IsValid crdt_caps ada (snapshot bob) ada-IsValid

get-IsRead_example : IsRead (entries_at ada (codes "x")) (get ada (codes "x"))
get-IsRead_example = get-IsRead ada (codes "x")

not_full : is_full crdt_caps ada (codes "x") ≡ false
unfolding program
not_full = refl

-- room for two tombstones, and three of them
abbrev small_caps : Caps
small_caps = record { max_tombstones = 2; max_entries_per_key = 2; max_keys = 2 }

abbrev buried : List Tag
buried = (pos 1, pos 3) ∷ (pos 1, pos 1) ∷ (pos 2, pos 2) ∷ []

evicted : gc_tombstones small_caps buried ≡ (pos 1, pos 3) ∷ (pos 2, pos 2) ∷ []
unfolding program
evicted = refl
