-- ===== src/Gossip/Messages.antt =====
-- python/propagul/gossip.py: encoding, decoding and the builders of messages. A message on the wire
-- is known by its length in bytes and by what `json.loads` makes of it.
use propagul.Prelude.{
  ℕ, ◌*◌, Option, none, some, List, [], ◌∷◌, map, if◌then◌else◌, ltb, Text, codes, pos,
}
use propagul.Prelude.Dict.{Dict, contains, insert}
use propagul.Json.{Json, int, str, arr, obj, list, dict, as_dict}
use propagul.Crdt.Defs.{Entry, OrMap, entries_at, tombstone_count}
use propagul.Crdt.Merge.{tag_json, entry_json, snapshot}
use propagul.Gossip.Digest.{
  Result, ok, type_error, ◌>>=◌, build_digest, digest_json, missing_here, missing_there,
}

abbrev pub max_message_bytes : ℕ
max_message_bytes = 10 * 1024 * 1024

pub record Wire : Type 0 where
  pub size : ℕ
  -- `none` where `json.loads` raises
  pub content : Option Json

-- `decode_message`
unfoldable pub decode_dict : Option (Dict Json) → Option (Dict Json)
decode_dict none = none
decode_dict (some d) = if contains (codes "type") d then some d else none

unfoldable pub decode_message : Wire → Option (Dict Json)
decode_message w =
    if ltb max_message_bytes w.size
    then none
    else elim w.content [ none ↦ none | some j ↦ decode_dict (as_dict j) ]

-- `encode_message`, before `json.dumps`
unfoldable pub encode_message : Text → Dict Json → ℕ → Dict Json
encode_message kind payload reply_port =
    (codes "type", str kind) ∷ (codes "reply_port", int (pos reply_port)) ∷ payload

unfoldable pub build_full_state_message : OrMap → ℕ → Dict Json
build_full_state_message m reply_port =
    encode_message (codes "full_state") ((codes "snapshot", snapshot m) ∷ []) reply_port

unfoldable pub build_digest_message : OrMap → ℕ → Dict Json
build_digest_message m reply_port =
    encode_message (codes "digest")
      ((codes "digest", dict (digest_json (build_digest m)))
        ∷ (codes "tombstone_count", int (pos (tombstone_count m)))
        ∷ [])
      reply_port

-- one round of the loop of `build_delta_message`: a key that is no text is not there, and one that
-- has no hash raises
unfoldable pub add_entries : Text → List Entry → Dict Json → Dict Json
add_entries key [] d = d
add_entries key (e ∷ es) d = insert key (list (map entry_json (e ∷ es))) d

unfoldable pub delta_entry : OrMap → Json → Dict Json → Result (Dict Json)
delta_entry m (str key) d = ok (add_entries key (entries_at m key) d)
delta_entry m (arr js) d = type_error
delta_entry m (obj fs) d = type_error
delta_entry m _ d = ok d

unfoldable pub delta_entries : OrMap → List Json → Dict Json → Result (Dict Json)
delta_entries m [] d = ok d
delta_entries m (j ∷ js) d = do d' ← delta_entry m j d; delta_entries m js d'

-- `if we_need: payload["we_need"] = we_need`
unfoldable pub wish_list : List Text → Dict Json
wish_list [] = []
wish_list (key ∷ ks) = (codes "we_need", list (map str (key ∷ ks))) ∷ []

-- The message has no reply port: `encode_message` takes its default, 0.
unfoldable pub delta_message : OrMap → List Text → Dict Json → Dict Json
delta_message m we_need entries =
    encode_message (codes "delta")
      ((
        codes "snapshot",
        dict (
            (codes "entries", dict entries)
            ∷ (codes "tombstones", list (map tag_json m.tombstones))
            ∷ []),
      )
        ∷ wish_list we_need)
      0

unfoldable pub build_delta_message : OrMap → List Json → List Text → Result (Dict Json)
build_delta_message m missing we_need = do
  entries ← delta_entries m missing []
  ok (delta_message m we_need entries)

unfoldable pub build_digest_response : OrMap → Dict Json → Result (Dict Json)
build_digest_response m remote_digest = do
  we_need ← missing_here (build_digest m) remote_digest
  remote_needs ← missing_there remote_digest (build_digest m)
  build_delta_message m (map str remote_needs) we_need
