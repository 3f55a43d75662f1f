-- ===== src/Gossip/Receive.antt =====
-- What a message does to the node that receives it.
use propagul.Prelude.{
  ℕ, ◌+◌, ◌≤◌, ◌≡◌, refl, ap, ◌∙◌, ◌⊎◌, inl, inr, ◌||◌, Option, none, some, [], ◌∷◌, arith,
  if◌then◌else◌, ltb, Text, codes, dec_text, Bool-cases,
}
use propagul.Prelude.Dict.{Dict, lookup, contains}
use propagul.Json.{Json, dict, as_dict, as_dict-dict, as_int, of_dict}
use propagul.Crdt.Defs.{Caps, OrMap}
use propagul.Crdt.Merge.{get_field, merge, snapshot}
use propagul.Crdt.Invariant.{IsValid}
use propagul.Crdt.Invariant.Merging.{merge-IsValid}
use propagul.Crdt.View.Snapshots.{sync}
use propagul.Gossip.Digest.{Result, ok, type_error}
use propagul.Gossip.Messages.{
  Wire, max_message_bytes, decode_message, decode_dict, encode_message, build_full_state_message,
}
use propagul.Gossip.Handle.{
  GossipStats, Handled, is_truthy, valid_port, sender_port, merge_and_count, handle_full_state,
  answer_digest, handle_digest, merge_if_dict, merge_delta, handle_delta, is_kind, handle_decoded,
  handle_incoming_message,
}

-- A message as it arrives: `json.loads` gives back what `json.dumps` was given.
abbrev pub on_wire : ℕ → Dict Json → Wire
on_wire size msg = record { size = size; content = some (dict msg) }

-- Every message that is built is decoded to what it was built from, unless it is too long.
pub decode_message-encode_message :
    (size : ℕ) (kind : Text) (payload : Dict Json) (port : ℕ)
    → size ≤ max_message_bytes
    → decode_message (on_wire size (encode_message kind payload port))
      ≡ some (encode_message kind payload port)
unfolding decode_message decode_dict encode_message contains lookup dec_text
decode_message-encode_message size kind payload port h = rw as_dict-dict (ground arith)

-- The port that a message names reaches the receiver, if it is a TCP port.
pub sender_port-encode_message :
    (kind : Text) (payload : Dict Json) (port : ℕ)
    → sender_port (encode_message kind payload port) ≡ (if ltb 65535 port then 0 else port)
unfolding sender_port encode_message lookup dec_text valid_port as_int
sender_port-encode_message kind payload port = refl

-- What is left after a full state: the merge, its two counts, and no response.
abbrev pub full_state_handled : Caps → OrMap → OrMap → GossipStats → ℕ → Handled
full_state_handled caps m n stats port = record {
  crdt = sync caps m n;
  stats = record stats {
    merges = stats.merges + 1;
    delta_keys_received = stats.delta_keys_received + (merge caps m (snapshot n)).1;
  };
  reply = ok (none, port);
}

full_state_decoded :
    (caps : Caps) (m n : OrMap) (stats : GossipStats) (port : ℕ)
    → handle_decoded caps m stats (some (build_full_state_message n port))
      ≡ full_state_handled caps m n stats (if ltb 65535 port then 0 else port)
unfolding handle_decoded build_full_state_message encode_message get_field lookup dec_text is_kind
    handle_full_state is_truthy snapshot of_dict merge_and_count sync sender_port valid_port as_int
full_state_decoded caps m n stats port = refl

-- A full-state message is merged, counted once, and answered with nothing; its port is passed on.
handle-full_state :
    (caps : Caps) (m n : OrMap) (stats : GossipStats) (size port : ℕ)
    → size ≤ max_message_bytes
    → port ≤ 65535
    → handle_incoming_message caps m stats (on_wire size (build_full_state_message n port))
      ≡ full_state_handled caps m n stats port
unfolding handle_incoming_message build_full_state_message
handle-full_state caps m n stats size port h k =
    ap (handle_decoded caps m stats) (
      decode_message-encode_message size (codes "full_state") ((codes "snapshot", snapshot n) ∷ [])
        port h)
    ∙ full_state_decoded caps m n stats port
    ∙ ap (full_state_handled caps m n stats) (small port k)
  where
    small : (p : ℕ) → p ≤ 65535 → (if ltb 65535 p then 0 else p) ≡ p
    small p q = ground arith

-- What a message may make of the map: what it was, or a merge of it.
abbrev pub IsMerged : Caps → OrMap → OrMap → Type 0
IsMerged caps m m' = (m' ≡ m) ⊎ ((j : Json) × (m' ≡ (merge caps m j).0))

module _ (caps : Caps) (m : OrMap) (stats : GossipStats) where
  full_state-IsMerged :
      (msg : Dict Json) → IsMerged caps m (handle_full_state caps m stats msg).crdt
  unfolding handle_full_state merge_and_count
  full_state-IsMerged msg = elim (Bool-cases (is_truthy (get_field (codes "snapshot") msg))) [
    | inl yes' ↦ inr (get_field (codes "snapshot") msg, rw yes')
    | inr no' ↦ inl (rw no')
  ]

  answer_digest-crdt : (port : ℕ) (r : Result (Dict Json)) → (answer_digest m stats port r).crdt ≡ m
  unfolding answer_digest
  answer_digest-crdt port (ok d) = refl
  answer_digest-crdt port type_error = refl

  merge_if_dict-IsMerged :
      (j : Json) (o : Option (Dict Json)) → IsMerged caps m (merge_if_dict caps m stats j o).0
  unfolding merge_if_dict merge_and_count
  merge_if_dict-IsMerged j none = inl refl
  merge_if_dict-IsMerged j (some d) = inr (j, refl)

  delta-IsMerged : (msg : Dict Json) → IsMerged caps m (handle_delta caps m stats msg).crdt
  unfolding handle_delta merge_delta
  delta-IsMerged msg =
      let j = get_field (codes "snapshot") msg in merge_if_dict-IsMerged j (as_dict j)

  decoded-IsMerged : (o : Option (Dict Json)) → IsMerged caps m (handle_decoded caps m stats o).crdt
  unfolding handle_decoded handle_digest
  decoded-IsMerged none = inl refl
  decoded-IsMerged (some msg) =
      let kind = get_field (codes "type") msg in
      elim (Bool-cases (is_kind kind (codes "full_state"))) [
        | inl full ↦ rw full (full_state-IsMerged msg)
        | inr other ↦ elim (Bool-cases (is_kind kind (codes "digest"))) [
          | inl digest ↦ rw (other, digest) (inl (answer_digest-crdt (sender_port msg) _))
          | inr rest ↦
              elim (Bool-cases
                (is_kind kind (codes "delta") || is_kind kind (codes "digest_response"))) [
                  | inl delta ↦ rw (other, rest, delta) (delta-IsMerged msg)
                  | inr unknown ↦ rw (other, rest, unknown) (inl refl)
                ]
        ]
      ]

  -- A message of any kind and form changes the map by one merge or not at all, also where the
  -- handler raises.
  pub handle-IsMerged : (w : Wire) → IsMerged caps m (handle_incoming_message caps m stats w).crdt
  unfolding handle_incoming_message
  handle-IsMerged w = decoded-IsMerged (decode_message w)

  -- A message of any kind and form keeps the invariant, also where the handler raises.
  pub handle-IsValid :
      (w : Wire) → IsValid caps m → IsValid caps (handle_incoming_message caps m stats w).crdt
  handle-IsValid w v = elim (handle-IsMerged w) [
    | inl same ↦ rw same v
    | inr (j, merged) ↦ rw merged (merge-IsValid caps m j v)
  ]
