-- ===== src/Tests/Nodes.antt =====
-- Concrete nodes.
use propagul.Prelude.{refl, [], ◌∷◌, arith, pos, codes}
use propagul.Prelude.Finite.{member}
use propagul.Prelude.Dict.{lookup}
use propagul.Crdt.Defs.{crdt_caps, OrMap}
use propagul.Crdt.Invariant.{IsValid}
use propagul.Crdt.View.Snapshots.{Room}

-- two writes of node 1 at "x"
abbrev pub ada : OrMap
ada = record {
  node_id = pos 1;
  seq = 2;
  entries = (codes "x", record { value = codes "two"; tag = (pos 1, pos 2) } ∷ []) ∷ [];
  tombstones = (pos 1, pos 1) ∷ [];
}

-- one write of node 2 at "x"
abbrev pub bob : OrMap
bob = record {
  node_id = pos 2;
  seq = 1;
  entries = (codes "x", record { value = codes "three"; tag = (pos 2, pos 1) } ∷ []) ∷ [];
  tombstones = [];
}

pub ada-IsValid : IsValid crdt_caps ada
unfolding member
ada-IsValid = record {
  few_keys = omega arith;
  distinct_keys = (refl, tt);
  few_tombstones = omega arith;
  distinct_tombstones = (refl, tt);
  at_key =
      (record { fit = record { few = omega arith; distinct = (refl, tt) }; held = λ e. cc }, tt);
}

pub bob-IsValid : IsValid crdt_caps bob
unfolding member
bob-IsValid = record {
  few_keys = omega arith;
  distinct_keys = (refl, tt);
  few_tombstones = omega arith;
  distinct_tombstones = tt;
  at_key =
      (record { fit = record { few = omega arith; distinct = (refl, tt) }; held = λ e. cc }, tt);
}

pub ada-bob-Room : Room crdt_caps ada bob
unfolding lookup
ada-bob-Room = record {
  keys = omega arith;
  entries = λ key. ground arith;
  tombstones = omega arith;
}

-- one write of node 3 at "y"
abbrev pub cam : OrMap
cam = record {
  node_id = pos 3;
  seq = 1;
  entries = (codes "y", record { value = codes "four"; tag = (pos 3, pos 1) } ∷ []) ∷ [];
  tombstones = [];
}

pub cam-IsValid : IsValid crdt_caps cam
unfolding member
cam-IsValid = record {
  few_keys = omega arith;
  distinct_keys = (refl, tt);
  few_tombstones = omega arith;
  distinct_tombstones = tt;
  at_key =
      (record { fit = record { few = omega arith; distinct = (refl, tt) }; held = λ e. cc }, tt);
}
