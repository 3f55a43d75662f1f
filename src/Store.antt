-- ===== src/Store.antt =====
-- python/propagul/store.py: `AgentStateStore`. What it does besides changing its state (messages that
-- it sends, callbacks that it calls) is a list of effects. The transport is not modelled, and sends to
-- the store are calls of `receive`; each method is one step. The order of a Python set is that of the dict that it is made of.
pub mod Notices
use propagul.Prelude.{
  ℕ, ◌+◌, Bool, true, false, ◌&&◌, not, Option, none, some, List, [], ◌∷◌, ◌++◌, map, if◌then◌else◌,
  ite, ltb, Text, dec_text, pos, length, or_else,
}
use propagul.Prelude.Dict.{Dict, contains}
use propagul.Json.{Json}
use propagul.Crdt.Defs.{Caps, OrMap, set, delete, get, get_all, size, active_keys, tombstone_count}
use propagul.Discovery.{PeerAddress, dec_peer, add_peer, remove_peer, get_peers, peer_count}
use propagul.Gossip.Digest.{Result, ok, type_error}
use propagul.Gossip.Messages.{Wire, build_full_state_message, build_digest_message}
use propagul.Gossip.Handle.{GossipStats, Handled, handle_incoming_message}
use propagul.Namespaces.{table}

-- `_change_callbacks` is known by its length.
pub record AgentStateStore : Type 0 where
  pub bind_host : Text
  pub bind_port : ℕ
  pub crdt : OrMap
  pub gossip_stats : GossipStats
  pub peers : List PeerAddress
  pub running : Bool
  pub change_callbacks : ℕ

-- `self._bind`
abbrev pub bind : AgentStateStore → PeerAddress
bind s = (s.bind_host, pos s.bind_port)

pub data Effect : Type 0 where
  send : PeerAddress → Dict Json → Effect
  send_to_k : List PeerAddress → Dict Json → ℕ → Effect
  -- every callback is called with the key and its value
  notify : Text → Option Text → Effect

unfoldable pub store_set : Caps → AgentStateStore → Text → Text → AgentStateStore
store_set caps s key value = record s { crdt = set caps s.crdt key value }

unfoldable pub store_delete : Caps → AgentStateStore → Text → AgentStateStore
store_delete caps s key = record s { crdt = delete caps s.crdt key }

unfoldable pub store_get : AgentStateStore → Text → Option Text
store_get s key = get s.crdt key

-- `get_all`: the keys under the empty prefix
unfoldable pub store_get_all : AgentStateStore → Dict Text
store_get_all s = table [] s.crdt

unfoldable pub get_conflicts : AgentStateStore → Text → List Text
get_conflicts s key = get_all s.crdt key

unfoldable pub on_change : AgentStateStore → AgentStateStore
on_change s = record s { change_callbacks = s.change_callbacks + 1 }

unfoldable pub store_add_peer : AgentStateStore → PeerAddress → AgentStateStore
store_add_peer s p = record s { peers = add_peer p s.peers }

unfoldable pub store_remove_peer : AgentStateStore → PeerAddress → AgentStateStore
store_remove_peer s p = record s { peers = remove_peer p s.peers }

-- `new_val != old_val`
unfoldable pub same_value : Option Text → Option Text → Bool
same_value none none = true
same_value (some v) (some w) = ite (dec_text v w) true false
same_value _ _ = false

-- added and modified keys, with their values
unfoldable pub changed : OrMap → OrMap → List Text → List (Text × Option Text)
changed pre post [] = []
changed pre post (key ∷ keys) =
    let rest = changed pre post keys in
    if same_value (get post key) (get pre key) then rest else (key, get post key) ∷ rest

-- deleted keys
unfoldable pub deleted : OrMap → List Text → List (Text × Option Text)
deleted post [] = []
deleted post (key ∷ keys) =
    let rest = deleted post keys in if contains key post.entries then rest else (key, none) ∷ rest

unfoldable pub notices : OrMap → OrMap → List (Text × Option Text)
notices pre post = changed pre post (active_keys post) ++ deleted post (active_keys pre)

abbrev pub notify_all : List (Text × Option Text) → List Effect
notify_all = map (λ p. notify p.0 p.1)

-- the sender's listening port, if it names one that is not our own address
unfoldable pub register : PeerAddress → Text → ℕ → List PeerAddress → List PeerAddress
register own host port peers =
    if ltb 0 port
    then ite (dec_peer (host, pos port) own) peers (add_peer (host, pos port) peers)
    else peers

unfoldable pub response_to : Text → ℕ → Option (Dict Json) → List Effect
response_to host port none = []
response_to host port (some msg) = if ltb 0 port then send (host, pos port) msg ∷ [] else []

-- what follows the handler: where it raised, nothing, since the exception is logged
unfoldable pub received :
    AgentStateStore → Text → OrMap → Result (Option (Dict Json) × ℕ) → AgentStateStore × List Effect
received s host pre type_error = (s, [])
received s host pre (ok (response, port)) = (
  record s { peers = register (bind s) host port s.peers },
  response_to host port response
      ++ (if ltb 0 s.change_callbacks then notify_all (notices pre s.crdt) else []),
)

-- `_on_gossip_receive`
unfoldable pub receive : Caps → AgentStateStore → Text → Wire → AgentStateStore × List Effect
receive caps s host w =
    let h = handle_incoming_message caps s.crdt s.gossip_stats w in
    if s.running
    then received (record s { crdt = h.crdt; gossip_stats = h.stats }) host s.crdt h.reply
    else (s, [])

unfoldable pub add_peers : List PeerAddress → List PeerAddress → List PeerAddress
add_peers [] peers = peers
add_peers (p ∷ ps) peers = add_peers ps (add_peer p peers)

-- the state and a request for theirs, to each peer
unfoldable pub greet : AgentStateStore → List PeerAddress → List Effect
greet s [] = []
greet s (p ∷ ps) =
    send p (build_full_state_message s.crdt s.bind_port)
    ∷ send p (build_digest_message s.crdt s.bind_port)
    ∷ greet s ps

-- `start`, with a list of addresses
unfoldable pub start : AgentStateStore → List PeerAddress → AgentStateStore × List Effect
start s initial =
    let s' = record s { peers = add_peers initial s.peers; running = true } in
    if s.running then (s, []) else (s', greet s' (get_peers (some (bind s)) s'.peers))

unfoldable pub stop : AgentStateStore → AgentStateStore
stop s = record s { running = false }

unfoldable pub has_items : List PeerAddress → Bool
has_items [] = false
has_items (p ∷ ps) = true

-- one round of `_gossip_loop`; `k` is what the scheduler says, or 1
unfoldable pub gossip_round : AgentStateStore → ℕ → AgentStateStore × List Effect
gossip_round s k =
    let stats : GossipStats = record s.gossip_stats { rounds = s.gossip_stats.rounds + 1 } in
    let others = get_peers (some (bind s)) s.peers in
    if has_items others && ltb 0 (size s.crdt) && ltb 0 k
    then (
      record s { gossip_stats = record stats { push_sent = stats.push_sent + 1 } },
      send_to_k others (build_full_state_message s.crdt s.bind_port) k ∷ [],
    )
    else (record s { gossip_stats = stats }, [])

-- the telemetry: the numbers that are fixed are 0, the flag false
pub record StoreStats : Type 0 where
  pub entropy : ℕ
  pub current_k : ℕ
  pub sleep_ratio : ℕ
  pub loss_rate : ℕ
  pub convergence_ms : ℕ
  pub is_partitioned : Bool
  pub shock_events : ℕ
  pub key_count : ℕ
  pub tombstones : ℕ
  pub peers_known : ℕ
  pub gossip_rounds : ℕ

abbrev default_k : ℕ
default_k = 1

unfoldable pub stats : AgentStateStore → StoreStats
stats s = record {
  entropy = 0;
  current_k = default_k;
  sleep_ratio = 0;
  loss_rate = 0;
  convergence_ms = 0;
  is_partitioned = false;
  shock_events = 0;
  key_count = size s.crdt;
  tombstones = tombstone_count s.crdt;
  peers_known = peer_count s.peers;
  gossip_rounds = s.gossip_stats.rounds;
}
