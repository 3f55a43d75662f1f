-- ===== src/A2a/Members.antt =====
-- Who is a member of a room after agents have come and gone.
use propagul.Prelude.{
  ◌≡◌, refl, sym, ap, ◌∙◌, Bool, true, false, Option, none, some, List, [], ◌∷◌, ◌++◌, arith, ite,
  Text, codes, dec_text,
}
use propagul.Prelude.Dict.{Dict, contains, contains-insert, lookup-erase}
use propagul.Crdt.Defs.{Caps}
use propagul.Crdt.Writes.{is_full}
use propagul.Config.Defs.{Call}
use propagul.A2a.State.{SharedAgentState, meta_key, set_meta, get_meta, get_shared}
use propagul.A2a.Writes.{get_meta-set_meta, get_shared-set_meta}
use propagul.A2a.Room.{AgentRoom, JoinCall, join_state, join, leave_state, leave, has_member}

-- the calls that change who is a member
pub data Visit : Type 0 where
  enter : JoinCall → Text → List Text → Dict Text → Visit
  exit : Call → Text → Visit

unfoldable pub visit : Caps → AgentRoom → Visit → AgentRoom
visit caps room (enter c agent_id capabilities metadata) =
    (join caps c room agent_id capabilities metadata).0
visit caps room (exit call agent_id) = (leave caps call room agent_id).0

unfoldable pub visit_all : Caps → List Visit → AgentRoom → AgentRoom
visit_all caps [] room = room
visit_all caps (v ∷ vs) room = visit_all caps vs (visit caps room v)

-- the last call about the agent, or what was there before
unfoldable pub is_inside : Text → Bool → List Visit → Bool
is_inside a b [] = b
is_inside a b (enter c agent_id capabilities metadata ∷ vs) =
    is_inside a (ite (dec_text agent_id a) true b) vs
is_inside a b (exit call agent_id ∷ vs) = is_inside a (ite (dec_text agent_id a) false b) vs

members-join_state :
    (caps : Caps) (c : JoinCall) (room : AgentRoom) (a : Text) (cs : List Text)
    (o : Option SharedAgentState)
    → (join_state caps c room a cs o).members ≡ room.members
unfolding join_state
members-join_state caps c room a cs none = refl
members-join_state caps c room a cs (some s) = refl

module _ (caps : Caps) (a : Text) where
  has_member-visit :
      (room : AgentRoom) (v : Visit)
      → has_member (visit caps room v) a ≡ is_inside a (has_member room a) (v ∷ [])
  unfolding visit is_inside join leave contains
  has_member-visit room (enter c agent_id capabilities metadata) =
      ap (contains a) (members-join_state caps c _ agent_id capabilities _)
      ∙ contains-insert agent_id a _ room.members
  has_member-visit room (exit call agent_id) = ground (arith, lookup-erase agent_id a room.members)

  is_inside-cons :
      (b : Bool) (v : Visit) (vs : List Visit)
      → is_inside a b (v ∷ vs) ≡ is_inside a (is_inside a b (v ∷ [])) vs
  unfolding is_inside
  is_inside-cons b (enter c agent_id capabilities metadata) vs = refl
  is_inside-cons b (exit call agent_id) vs = refl

  -- Whatever agents come and go: an agent is a member exactly if the last call about it was a join, or
  -- if there was none and it was one before.
  pub has_member-visit_all :
      (room : AgentRoom) (vs : List Visit)
      → has_member (visit_all caps vs room) a ≡ is_inside a (has_member room a) vs
  unfolding visit_all is_inside
  has_member-visit_all room [] = refl
  has_member-visit_all room (v ∷ vs) =
      has_member-visit_all (visit caps room v) vs
      ∙ ap (λ b. is_inside a b vs) (has_member-visit room v)
      ∙ sym (is_inside-cons (has_member room a) v vs)

-- An agent that leaves is marked as left in the state of the room, if that write is not dropped, and
-- what is shared stays.
leave-marks :
    (caps : Caps) (call : Call) (room : AgentRoom) (a : Text) (s : SharedAgentState)
    → has_member room a ≡ true
    → room.state ≡ some s
    → is_full caps s.crdt (meta_key (codes "member:" ++ a)) ≡ false
    → (s' : SharedAgentState) × (((leave caps call room a).0.state ≡ some s')
        × ((get_meta s' (codes "member:" ++ a) ≡ some (codes "left"))
            × ((x : Text) → get_shared s' x ≡ get_shared s x)))
unfolding leave leave_state
leave-marks caps call room a s member there free = (
  set_meta caps call s (codes "member:" ++ a) (codes "left"),
  (
    rw (member, there) refl,
    (
      get_meta-set_meta caps call s (codes "member:" ++ a) (codes "left") free,
      get_shared-set_meta caps call s (codes "member:" ++ a) (codes "left"),
    ),
  ),
)
