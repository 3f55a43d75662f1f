-- ===== src/Config/Saving.antt =====
-- What the file of a `FleetConfigMap` says of the map: writes that are not saved at once are marked
-- by `_dirty`, and a restart reads back what was saved.
use propagul.Prelude.{
  ℕ, ◌≡◌, refl, sym, ap, ◌∙◌, true, false, List, [], ◌∷◌, ◌⊎◌, inl, inr, arith, ltb, Text, length,
  Bool-cases,
}
use propagul.Json.{Json}
use propagul.Crdt.Defs.{Caps, OrMap}
use propagul.Crdt.Merge.{merge}
use propagul.Config.Defs.{
  content, FleetConfigMap, Call, persists, file_data, save_to_disk, auto_save, flush_to_disk, put,
  drop_key, save_merged, merge_config,
}

-- A map with a path that is not dirty is what its file holds.
abbrev pub IsSaved : FleetConfigMap → Type 0
IsSaved c = persists c ≡ true → c.dirty ≡ false → c.file ≡ content (file_data c.crdt)

-- the calls that change the map, its file or the flag
pub data Op : Type 0 where
  put_op : Text → Text → Op
  drop_op : Text → Op
  merge_op : Json → Op
  save_op : Op
  flush_op : Op

unfoldable pub step : Caps → Call → FleetConfigMap → Op → FleetConfigMap
step caps call c (put_op key value) = put caps call c key value
step caps call c (drop_op key) = drop_key caps call c key
step caps call c (merge_op j) = (merge_config caps call c j).0
step caps call c save_op = (save_to_disk call c).0
step caps call c flush_op = (flush_to_disk call c).0

unfoldable pub run : Caps → List (Call × Op) → FleetConfigMap → FleetConfigMap
run caps [] c = c
run caps ((call, op) ∷ ops) c = run caps ops (step caps call c op)

-- No merge changes the map without adding an entry.
abbrev pub Adds : Caps → FleetConfigMap → Op → Type 0
Adds caps c (merge_op j) =
    (ltb 0 (merge caps c.crdt j).1 ≡ true) ⊎ ((merge caps c.crdt j).0 ≡ c.crdt)
Adds caps c _ = Unit {0}

unfoldable pub AllAdd : Caps → List (Call × Op) → FleetConfigMap → Type 0
AllAdd caps [] c = Unit {0}
AllAdd caps ((call, op) ∷ ops) c = Adds caps c op × AllAdd caps ops (step caps call c op)

save-IsSaved : (call : Call) (c : FleetConfigMap) → IsSaved c → IsSaved (save_to_disk call c).0
unfolding save_to_disk
save-IsSaved call c s = λ p d. ground (arith, s)

auto_save-IsSaved : (call : Call) (c : FleetConfigMap) → IsSaved (auto_save call c)
unfolding auto_save save_to_disk
auto_save-IsSaved call c = λ p d. ground arith

pub auto_save-crdt : (call : Call) (c : FleetConfigMap) → (auto_save call c).crdt ≡ c.crdt
unfolding auto_save save_to_disk
auto_save-crdt call c = ground arith

merged-IsSaved :
    (call : Call) (c : FleetConfigMap) (r : OrMap × ℕ)
    → (ltb 0 r.1 ≡ true) ⊎ (r.0 ≡ c.crdt)
    → IsSaved c
    → IsSaved (save_merged call c r).0
unfolding save_merged
merged-IsSaved call c (m, delta) (inl a) s = rw a (auto_save-IsSaved call (record c { crdt = m }))
merged-IsSaved call c (m, delta) (inr a) s = elim (Bool-cases (ltb 0 delta)) [
  | inl h ↦ rw h (auto_save-IsSaved call (record c { crdt = m }))
  | inr h ↦ rw h (λ p d. s p d ∙ ap (λ m'. content (file_data m')) (sym a))
]

flush-IsSaved : (call : Call) (c : FleetConfigMap) → IsSaved c → IsSaved (flush_to_disk call c).0
unfolding flush_to_disk save_to_disk
flush-IsSaved call c s = λ p d. ground (arith, s)

step-IsSaved :
    (caps : Caps) (call : Call) (c : FleetConfigMap) (op : Op)
    → Adds caps c op
    → IsSaved c
    → IsSaved (step caps call c op)
unfolding step put drop_key flush_to_disk merge_config
step-IsSaved caps call c (put_op key value) a s = auto_save-IsSaved call _
step-IsSaved caps call c (drop_op key) a s = auto_save-IsSaved call _
step-IsSaved caps call c (merge_op j) a s = merged-IsSaved call c (merge caps c.crdt j) a s
step-IsSaved caps call c save_op a s = save-IsSaved call c s
step-IsSaved caps call c flush_op a s = flush-IsSaved call c s

run-IsSaved :
    (caps : Caps) (ops : List (Call × Op)) (c : FleetConfigMap)
    → AllAdd caps ops c
    → IsSaved c
    → IsSaved (run caps ops c)
unfolding run AllAdd
run-IsSaved caps [] c a s = s
run-IsSaved caps ((call, op) ∷ ops) c a s =
    run-IsSaved caps ops (step caps call c op) a.1 (step-IsSaved caps call c op a.0 s)

auto_save-path :
    (call : Call) (c : FleetConfigMap) → (auto_save call c).persist_path ≡ c.persist_path
unfolding auto_save save_to_disk
auto_save-path call c = ground arith

step-path :
    (caps : Caps) (call : Call) (c : FleetConfigMap) (op : Op)
    → (step caps call c op).persist_path ≡ c.persist_path
unfolding step put drop_key flush_to_disk merge_config save_merged save_to_disk
step-path caps call c (put_op key value) = auto_save-path call _
step-path caps call c (drop_op key) = auto_save-path call _
step-path caps call c (merge_op j) =
    ground (arith, auto_save-path call (record c { crdt = (merge caps c.crdt j).0 }))
step-path caps call c save_op = ground arith
step-path caps call c flush_op = ground arith

run-path :
    (caps : Caps) (ops : List (Call × Op)) (c : FleetConfigMap)
    → (run caps ops c).persist_path ≡ c.persist_path
unfolding run
run-path caps [] c = refl
run-path caps ((call, op) ∷ ops) c =
    run-path caps ops (step caps call c op) ∙ step-path caps call c op

-- A flush that succeeds writes the map, or the file held it already.
flush-saves :
    (call : Call) (c : FleetConfigMap)
    → persists c ≡ true
    → call.writes ≡ true
    → IsSaved c
    → (flush_to_disk call c).0.file ≡ content (file_data c.crdt)
unfolding flush_to_disk save_to_disk
flush-saves call c p w s = ground (arith, s p)

-- Whatever writes, deletes, merges and saves were called, and whichever of them were put off: a
-- flush that succeeds leaves the map in the file, if there is a path, the file held the map at first
-- or the map was dirty, and each merge added an entry or changed nothing.
pub flush-run :
    (caps : Caps) (ops : List (Call × Op)) (call : Call) (c : FleetConfigMap)
    → persists c ≡ true
    → AllAdd caps ops c
    → IsSaved c
    → call.writes ≡ true
    → (flush_to_disk call (run caps ops c)).0.file ≡ content (file_data (run caps ops c).crdt)
flush-run caps ops call c p a s w =
    flush-saves call (run caps ops c) (ap (λ t. ltb 0 (length t)) (run-path caps ops c) ∙ p) w
      (run-IsSaved caps ops c a s)
