-- ===== src/A2a/Writes.antt =====
-- What the agents of a room read after a write to the shared state, and the limit on keys.
use propagul.Prelude.{
  ℕ, ◌<◌, ◌≡◌, ◌≢◌, refl, sym, ap, ◌∙◌, true, false, none, some, ◌∷◌, ◌++◌, arith, ite, if_pos,
  if_neg, Text, codes, dec_text, inl, inr, Bool-cases,
}
use propagul.Prelude.Dict.{lookup}
use propagul.Crdt.Defs.{Caps, OrMap, get, set, size}
use propagul.Crdt.Invariant.{IsValid}
use propagul.Crdt.Writes.{is_full, set_full, get-set}
use propagul.Namespaces.{lookup-table, append_cancel, get_absent}
use propagul.Config.Defs.{Call}
use propagul.A2a.State.{
  SharedAgentState, Clock, save_room, auto_save_room, touch_presence, write, seen_key, meta_key,
  set_meta, get_meta, shared_key, set_shared, get_shared, get_agent_state,
}

auto_save_room-crdt : (call : Call) (s : SharedAgentState) → (auto_save_room call s).crdt ≡ s.crdt
unfolding auto_save_room save_room
auto_save_room-crdt call s = ground arith

differ_at_first : (c d : ℕ) (x y : Text) → c ≢ d → (c ∷ x) ≢ (d ∷ y)
differ_at_first c d x y ne e = ne (cc)

seen-ne-shared : (a key : Text) → seen_key a ≢ shared_key key
seen-ne-shared a key = differ_at_first 109 115 _ _ (λ e. omega (arith, e))

seen-ne-private : (a b x : Text) → seen_key a ≢ codes "agent:" ++ b ++ codes ":" ++ x
seen-ne-private a b x = differ_at_first 109 97 _ _ (λ e. omega (arith, e))

shared-ne-private : (key b x : Text) → shared_key key ≢ codes "agent:" ++ b ++ codes ":" ++ x
shared-ne-private key b x = differ_at_first 115 97 _ _ (λ e. omega (arith, e))

-- A write, dropped or not: what any other key reads.
get-set_other :
    (caps : Caps) (m : OrMap) (key value j : Text)
    → key ≢ j
    → get (set caps m key value) j ≡ get m j
get-set_other caps m key value j ne = elim (Bool-cases (is_full caps m key)) [
  | inl full ↦ ap (λ m'. get m' j) (set_full caps m key value full)
  | inr free ↦ get-set caps m key value j free ∙ if_neg (dec_text key j) ne (some value) (get m j)
]

get-touch_presence :
    (caps : Caps) (clock : Clock) (s : SharedAgentState) (j : Text)
    → seen_key s.agent_id ≢ j
    → get (touch_presence caps clock s).crdt j ≡ get s.crdt j
unfolding touch_presence
get-touch_presence caps clock s j ne =
    get-set_other caps s.crdt (seen_key s.agent_id) clock.stamp j ne

meta-ne-shared : (a key : Text) → meta_key a ≢ shared_key key
meta-ne-shared a key = differ_at_first 109 115 _ _ (λ e. omega (arith, e))

-- A write of metadata that the map does not drop: the metadata reads as it, and what is shared reads
-- as before.
pub get_meta-set_meta :
    (caps : Caps) (call : Call) (s : SharedAgentState) (key value : Text)
    → is_full caps s.crdt (meta_key key) ≡ false
    → get_meta (set_meta caps call s key value) key ≡ some value
unfolding set_meta get_meta write
get_meta-set_meta caps call s key value free =
    ap (λ m. get m (meta_key key)) (auto_save_room-crdt call _)
    ∙ get-set caps s.crdt (meta_key key) value (meta_key key) free
    ∙ if_pos (dec_text (meta_key key) (meta_key key)) refl (some value) (get s.crdt (meta_key key))

pub get_shared-set_meta :
    (caps : Caps) (call : Call) (s : SharedAgentState) (key value x : Text)
    → get_shared (set_meta caps call s key value) x ≡ get_shared s x
unfolding set_meta get_shared write
get_shared-set_meta caps call s key value x =
    ap (λ m. get m (shared_key x)) (auto_save_room-crdt call _)
    ∙ get-set_other caps s.crdt (meta_key key) value (shared_key x) (meta-ne-shared key x)

module _ (caps : Caps) (clock : Clock) (s : SharedAgentState) (key value : Text) where
  written : SharedAgentState
  written =
      auto_save_room clock.call (touch_presence caps clock (write caps s (shared_key key) value))

  get-written :
      (j : Text)
      → seen_key s.agent_id ≢ j
      → get written.crdt j ≡ get (set caps s.crdt (shared_key key) value) j
  unfolding written write
  get-written j ne =
      ap (λ m. get m j) (auto_save_room-crdt clock.call _)
      ∙ get-touch_presence caps clock (write caps s (shared_key key) value) j ne

  -- A shared write in a room below its limit, that the map does not drop, reads as written; other
  -- shared keys and the private state of every agent read as before.
  pub get-set_shared :
      size s.crdt < s.config.max_keys_per_room
      → is_full caps s.crdt (shared_key key) ≡ false
      → (s' : SharedAgentState) × ((set_shared caps clock s key value ≡ some s')
          × (((x : Text) → get_shared s' x ≡ ite (dec_text key x) (some value) (get_shared s x))
              × ((a x : Text) → lookup x (get_agent_state s' a) ≡ lookup x (get_agent_state s a))))
  unfolding set_shared get_shared get_agent_state written
  get-set_shared room free = (
    written,
    (
      ground arith,
      (
        (λ x. ground (
          arith,
          get-written (shared_key x) (seen-ne-shared s.agent_id x),
          get-set caps s.crdt (shared_key key) value (shared_key x) free,
          append_cancel (codes "shared:") key x,
        )),
        (λ a x.
            lookup-table (codes "agent:" ++ a ++ codes ":") x written.crdt
            ∙ get-written _ (seen-ne-private s.agent_id a x)
            ∙ get-set_other caps s.crdt (shared_key key) value _ (shared-ne-private key a x)
            ∙ sym (lookup-table (codes "agent:" ++ a ++ codes ":") x s.crdt)),
      ),
    ),
  )

  -- If the limit of the room is above the cap of the map, the write of a new key to a full map does
  -- not raise, and the key reads as nothing.
  pub set_shared_full :
      IsValid caps s.crdt
      → caps.max_keys < s.config.max_keys_per_room
      → is_full caps s.crdt (shared_key key) ≡ true
      → (s' : SharedAgentState) × ((set_shared caps clock s key value ≡ some s')
          × (get_shared s' key ≡ none))
  unfolding set_shared get_shared written
  set_shared_full valid above full = (
    written,
    (
      ground (arith, valid.few_keys),
      get-written (shared_key key) (seen-ne-shared s.agent_id key)
          ∙ ap (λ m. get m (shared_key key)) (set_full caps s.crdt (shared_key key) value full)
          ∙ get_absent s.crdt (shared_key key) (ground arith),
    ),
  )
