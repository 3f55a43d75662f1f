-- ===== src/Gossip/Handle.antt =====
-- python/propagul/gossip.py: `handle_incoming_message`.
use propagul.Prelude.{
  ℕ, ◌+◌, Bool, true, false, ◌||◌, Option, none, some, List, [], ◌∷◌, if◌then◌else◌, ite, ltb, Text,
  codes, dec_text, ℤ, pos, negsuc,
}
use propagul.Prelude.Dict.{Dict, lookup}
use propagul.Json.{Json, Items, Fields, null, int, float, str, arr, obj, as_dict, as_list, as_int}
use propagul.Crdt.Defs.{Caps, OrMap}
use propagul.Crdt.Merge.{get_field, dict_or_empty, merge}
use propagul.Gossip.Digest.{Result, ok, type_error, ◌>>=◌}
use propagul.Gossip.Messages.{Wire, decode_message, build_digest_response, build_delta_message}

pub record GossipStats : Type 0 where
  pub rounds : ℕ
  pub push_sent : ℕ
  pub pull_sent : ℕ
  pub merges : ℕ
  pub delta_keys_received : ℕ

-- The state that the handler leaves, and what it returns: a response and the sender's port.
pub record Handled : Type 0 where
  pub crdt : OrMap
  pub stats : GossipStats
  pub reply : Result (Option (Dict Json) × ℕ)

-- `if snapshot:`
unfoldable pub is_truthy : Json → Bool
is_truthy null = false
is_truthy (Json.bool b) = b
is_truthy (int (pos ℕ.zero)) = false
is_truthy (int _) = true
is_truthy (float (pos ℕ.zero) k) = false
is_truthy (float _ k) = true
is_truthy (str []) = false
is_truthy (str (c ∷ s)) = true
is_truthy (arr Items.nil) = false
is_truthy (arr (Items.cons j js)) = true
is_truthy (obj Fields.end) = false
is_truthy (obj (Fields.field k j fs)) = true

-- the port that a message names, or 0
unfoldable pub valid_port : Option ℤ → ℕ
valid_port none = 0
valid_port (some (pos n)) = if ltb 65535 n then 0 else n
valid_port (some (negsuc n)) = 0

unfoldable pub sender_port : Dict Json → ℕ
sender_port msg = elim (lookup (codes "reply_port") msg) [
  | none ↦ 0
  | some j ↦ valid_port (as_int j)
]

-- `delta = crdt.merge(snapshot)`, and the two counters
unfoldable pub merge_and_count : Caps → OrMap → GossipStats → Json → OrMap × GossipStats
merge_and_count caps m stats j =
    let (m', delta) = merge caps m j in
    (
      m',
      record stats {
        merges = stats.merges + 1;
        delta_keys_received = stats.delta_keys_received + delta;
      },
    )

-- FULL_STATE
unfoldable pub handle_full_state : Caps → OrMap → GossipStats → Dict Json → Handled
handle_full_state caps m stats msg =
    let j = get_field (codes "snapshot") msg in
    let (m', stats') = if is_truthy j then merge_and_count caps m stats j else (m, stats) in
    record { crdt = m'; stats = stats'; reply = ok (none, sender_port msg) }

-- DIGEST: the counter moves only if the response was built
unfoldable pub answer_digest : OrMap → GossipStats → ℕ → Result (Dict Json) → Handled
answer_digest m stats port type_error = record { crdt = m; stats = stats; reply = type_error }
answer_digest m stats port (ok response) = record {
  crdt = m;
  stats = record stats { pull_sent = stats.pull_sent + 1 };
  reply = ok (some response, port);
}

unfoldable pub handle_digest : OrMap → GossipStats → Dict Json → Handled
handle_digest m stats msg =
    answer_digest m stats (sender_port msg)
      (build_digest_response m (dict_or_empty (get_field (codes "digest") msg)))

-- DELTA: the snapshot is merged if it is a dict, and the sender's wishes are answered
unfoldable pub merge_if_dict :
    Caps → OrMap → GossipStats → Json → Option (Dict Json) → OrMap × GossipStats
merge_if_dict caps m stats j none = (m, stats)
merge_if_dict caps m stats j (some d) = merge_and_count caps m stats j

unfoldable pub merge_delta : Caps → OrMap → GossipStats → Json → OrMap × GossipStats
merge_delta caps m stats j = merge_if_dict caps m stats j (as_dict j)

unfoldable pub answer_wishes : OrMap → ℕ → Option (List Json) → Result (Option (Dict Json) × ℕ)
answer_wishes m port none = ok (none, port)
answer_wishes m port (some []) = ok (none, port)
answer_wishes m port (some (j ∷ js)) = do
  response ← build_delta_message m (j ∷ js) []
  ok (some response, port)

unfoldable pub handle_delta : Caps → OrMap → GossipStats → Dict Json → Handled
handle_delta caps m stats msg =
    let (m', stats') = merge_delta caps m stats (get_field (codes "snapshot") msg) in
    record {
      crdt = m';
      stats = stats';
      reply = answer_wishes m' (sender_port msg) (as_list (get_field (codes "we_need") msg));
    }

-- `msg_type == …`
unfoldable pub is_kind : Json → Text → Bool
is_kind (str s) kind = ite (dec_text s kind) true false
is_kind _ kind = false

abbrev pub unchanged : OrMap → GossipStats → Handled
unchanged m stats = record { crdt = m; stats = stats; reply = ok (none, 0) }

unfoldable pub handle_decoded : Caps → OrMap → GossipStats → Option (Dict Json) → Handled
handle_decoded caps m stats none = unchanged m stats
handle_decoded caps m stats (some msg) =
    let kind = get_field (codes "type") msg in
    if is_kind kind (codes "full_state")
    then handle_full_state caps m stats msg
    else if is_kind kind (codes "digest")
    then handle_digest m stats msg
    else if is_kind kind (codes "delta") || is_kind kind (codes "digest_response")
    then handle_delta caps m stats msg
    else unchanged m stats

unfoldable pub handle_incoming_message : Caps → OrMap → GossipStats → Wire → Handled
handle_incoming_message caps m stats w = handle_decoded caps m stats (decode_message w)
