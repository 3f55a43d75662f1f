-- ===== src/Tests/Messages.antt =====
-- The theorems on gossip and on the peer list.
use propagul.Prelude.{◌≡◌, List, pos, Text, codes, dec_text}
use propagul.Prelude.Finite.{member}
use propagul.Crdt.Defs.{crdt_caps}
use propagul.Crdt.Invariant.{IsValid}
use propagul.Gossip.Digest.{ok, build_digest, digest_json, missing_here, missing_there}
use propagul.Gossip.Messages.{build_full_state_message}
use propagul.Gossip.Handle.{GossipStats, handle_incoming_message}
use propagul.Gossip.Receive.{on_wire, handle-IsValid}
use propagul.Gossip.Exact.{best_tag, is_older, digest_exchange}
use propagul.Discovery.{PeerAddress}
use propagul.Tests.Nodes.{ada, bob, ada-IsValid, bob-IsValid}

abbrev stats : GossipStats
stats = record { rounds = 0; push_sent = 0; pull_sent = 0; merges = 0; delta_keys_received = 0 }

handle-IsValid_example :
    IsValid crdt_caps
      (handle_incoming_message crdt_caps ada stats
        (on_wire 100 (build_full_state_message bob 9002))).crdt
handle-IsValid_example =
    handle-IsValid crdt_caps ada stats (on_wire 100 (build_full_state_message bob 9002)) ada-IsValid

digest_exchange_example :
    (wants : List Text) × (needs : List Text) × (missing_here
        (build_digest ada)
        (digest_json (build_digest bob))
      ≡ ok wants)
    × (missing_there (digest_json (build_digest bob)) (build_digest ada) ≡ ok needs)
    × ((key : Text) → member dec_text key wants ≡ is_older (best_tag ada key) (best_tag bob key))
    × ((key : Text) → member dec_text key needs ≡ is_older (best_tag bob key) (best_tag ada key))
digest_exchange_example = digest_exchange crdt_caps ada bob ada-IsValid bob-IsValid

abbrev peer : PeerAddress
peer = (codes "127.0.0.1", pos 9002)
