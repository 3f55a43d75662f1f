-- ===== src/Gossip/Deltas.antt =====
-- Deltas: when building one raises, the port that it names, and the answer to a digest.
use propagul.Prelude.{
  ℕ, ◌+◌, ◌≤◌, ◌≡◌, ◌↔◌, refl, ap, subst, ◌∙◌, Bool, true, false, some, List, [], ◌∷◌, map, arith,
  if◌then◌else◌, ltb, Text, codes, dec_text, pos, Bool-cases, inl, inr,
}
use propagul.Prelude.Dict.{Dict, lookup}
use propagul.Json.{Json, int, str, dict, as_int, as_dict-dict}
use propagul.Crdt.Defs.{Caps, OrMap, tombstone_count}
use propagul.Crdt.Merge.{get_field, dict_or_empty}
use propagul.Gossip.Digest.{Result, ok, type_error, ◌>>=◌, build_digest, digest_json}
use propagul.Gossip.Messages.{
  max_message_bytes, encode_message, build_digest_message, delta_entry, delta_entries,
  delta_message, build_delta_message, build_digest_response,
}
use propagul.Gossip.Handle.{
  GossipStats, sender_port, valid_port, is_kind, answer_digest, handle_digest, handle_decoded,
  handle_incoming_message,
}
use propagul.Gossip.Receive.{on_wire, decode_message-encode_message}
use propagul.Gossip.Exact.{newer, missing_here-newer, missing_there-newer}

-- Python hashes neither a list nor a dict.
unfoldable pub has_unhashable : List Json → Bool
has_unhashable [] = false
has_unhashable (Json.arr js ∷ rest) = true
has_unhashable (Json.obj fs ∷ rest) = true
has_unhashable (_ ∷ rest) = has_unhashable rest

raises :
    (m : OrMap) (js : List Json) (d : Dict Json)
    → has_unhashable js ≡ true
    → delta_entries m js d ≡ type_error
unfolding delta_entries delta_entry has_unhashable
raises m [] d h = cc
raises m (Json.null ∷ js) d h = raises m js d h
raises m (Json.bool b ∷ js) d h = raises m js d h
raises m (Json.int z ∷ js) d h = raises m js d h
raises m (Json.float z k ∷ js) d h = raises m js d h
raises m (Json.str s ∷ js) d h = raises m js _ h
raises m (Json.arr xs ∷ js) d h = refl
raises m (Json.obj fs ∷ js) d h = refl

returns :
    (m : OrMap) (js : List Json) (d : Dict Json)
    → has_unhashable js ≡ false
    → (d' : Dict Json) × (delta_entries m js d ≡ ok d')
unfolding delta_entries delta_entry has_unhashable
returns m [] d h = (d, refl)
returns m (Json.null ∷ js) d h = returns m js d h
returns m (Json.bool b ∷ js) d h = returns m js d h
returns m (Json.int z ∷ js) d h = returns m js d h
returns m (Json.float z k ∷ js) d h = returns m js d h
returns m (Json.str s ∷ js) d h = returns m js _ h
returns m (Json.arr xs ∷ js) d h = cc
returns m (Json.obj fs ∷ js) d h = cc

-- Building a delta raises exactly if a wish is a list or a dict.
delta-type_error_iff :
    (m : OrMap) (js : List Json) (wants : List Text)
    → (build_delta_message m js wants ≡ type_error) ↔ (has_unhashable js ≡ true)
unfolding build_delta_message
delta-type_error_iff m js wants = (
  (λ h. elim (Bool-cases (has_unhashable js)) [
    | inl bad ↦ bad
    | inr good ↦ let (d, e) = returns m js [] good in absurd (ground arith)
  ]),
  (λ h. rw (raises m js [] h)),
)

port_of_delta :
    (m : OrMap) (wants : List Text) (d : Dict Json) → sender_port (delta_message m wants d) ≡ 0
unfolding delta_message sender_port encode_message lookup dec_text valid_port as_int
port_of_delta m wants d = refl

bind_ok :
    (r : Result (Dict Json)) (f : Dict Json → Dict Json) (msg : Dict Json)
    → (r >>= λ d. ok (f d)) ≡ ok msg
    → (d : Dict Json) × (f d ≡ msg)
bind_ok (ok d) f msg h = (d, ground arith)
bind_ok type_error f msg h = absurd (ground arith)

-- A delta names no port: whoever receives it has no address for an answer.
pub sender_port-delta :
    (m : OrMap) (js : List Json) (wants : List Text) (msg : Dict Json)
    → build_delta_message m js wants ≡ ok msg
    → sender_port msg ≡ 0
unfolding build_delta_message
sender_port-delta m js wants msg h =
    let (d, e) = bind_ok (delta_entries m js []) (delta_message m wants) msg h in
    subst (λ x. sender_port x ≡ 0) e (port_of_delta m wants d)

hashable_texts : (ks : List Text) → has_unhashable (map str ks) ≡ false
unfolding has_unhashable
hashable_texts [] = refl
hashable_texts (k ∷ ks) = hashable_texts ks

digest_decoded :
    (m n : OrMap) (stats : GossipStats) (caps : Caps) (port : ℕ)
    → handle_decoded caps m stats (some (build_digest_message n port))
      ≡ answer_digest m stats
          (if ltb 65535 port then 0 else port)
          (build_digest_response m (digest_json (build_digest n)))
unfolding handle_decoded build_digest_message encode_message get_field lookup dec_text is_kind
    handle_digest sender_port valid_port as_int dict_or_empty
digest_decoded m n stats caps port = rw as_dict-dict

digest_answered :
    (m n : OrMap)
    → (response : Dict Json) × (build_digest_response m (digest_json (build_digest n))
        ≡ ok response)
      × (sender_port response ≡ 0)
unfolding build_digest_response build_delta_message
digest_answered m n =
    let wants = newer (build_digest m) (build_digest n) in
    let needs = newer (build_digest n) (build_digest m) in
    let (d, e) = returns m (map str needs) [] (hashable_texts needs) in
    (
      delta_message m wants d,
      rw (missing_here-newer (build_digest m) (build_digest n))
          (rw (missing_there-newer (build_digest n) (build_digest m)) (rw e)),
      port_of_delta m wants d,
    )

-- A digest is always answered, with a delta that names no port; the map is left as it is.
handle-digest :
    (caps : Caps) (m n : OrMap) (stats : GossipStats) (size port : ℕ)
    → size ≤ max_message_bytes
    → port ≤ 65535
    → (response : Dict Json) × (handle_incoming_message caps m stats
          (on_wire size (build_digest_message n port))
        ≡ record {
          crdt = m;
          stats = record stats { pull_sent = stats.pull_sent + 1 };
          reply = ok (some response, port);
        })
      × (sender_port response ≡ 0)
unfolding handle_incoming_message build_digest_message answer_digest
handle-digest caps m n stats size port h k =
    let (response, answer, silent) = digest_answered m n in
    (
      response,
      decoded
          ∙ digest_decoded m n stats caps port
          ∙ ap (answer_digest m stats (if ltb 65535 port then 0 else port)) answer
          ∙ answered (if ltb 65535 port then 0 else port) response small,
      silent,
    )
  where
    small : (if ltb 65535 port then 0 else port) ≡ port
    small = ground arith

    answered :
        (p : ℕ) (response : Dict Json)
        → p ≡ port
        → answer_digest m stats p (ok response) ≡ record {
          crdt = m;
          stats = record stats { pull_sent = stats.pull_sent + 1 };
          reply = ok (some response, port);
        }
    answered p response e = rw e

    decoded :
        handle_incoming_message caps m stats (on_wire size (build_digest_message n port))
        ≡ handle_decoded caps m stats (some (build_digest_message n port))
    decoded = ap (handle_decoded caps m stats) (
        decode_message-encode_message size (codes "digest")
          ((codes "digest", dict (digest_json (build_digest n)))
            ∷ (codes "tombstone_count", int (pos (tombstone_count n)))
            ∷ [])
          port h)
