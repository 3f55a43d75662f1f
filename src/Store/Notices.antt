-- ===== src/Store/Notices.antt =====
-- What the callbacks of a store are told.
use propagul.Prelude.{
  ℕ, ◌≡◌, ◌≢◌, refl, or_else, sym, ap, ◌∙◌, true, ◌&&◌, not, Option, none, some, List, [], ◌∷◌,
  ◌++◌, arith, if◌then◌else◌, Text, dec_text, inl, inr, Option-cases, Bool-cases,
}
use propagul.Prelude.Finite.{member}
use propagul.Prelude.Dict.{Dict, lookup, contains, member-keys, AllValues-lookup}
use propagul.Crdt.Defs.{Caps, Entry, OrMap, active_keys, get, winner}
use propagul.Json.{Json}
use propagul.Gossip.Digest.{Result, ok, type_error}
use propagul.Gossip.Messages.{Wire}
use propagul.Gossip.Handle.{handle_incoming_message}
use propagul.Gossip.Receive.{handle-IsValid}
use propagul.Crdt.Invariant.{IsValid, IsHeld}
use propagul.Namespaces.{get_absent}
use propagul.Store.{AgentStateStore, receive, received, same_value, changed, deleted, notices}

lookup-append :
    (key : Text) (d e : Dict (Option Text))
    → lookup key (d ++ e) ≡ (elim (lookup key d) [ none ↦ lookup key e | some v ↦ some v ])
unfolding lookup
lookup-append key [] e = refl
lookup-append key ((k, v) ∷ d) e = ground (arith, lookup-append key d e)

lookup-changed :
    (key : Text) (pre post : OrMap) (ks : List Text)
    → lookup key (changed pre post ks) ≡ (
        if member dec_text key ks && not (same_value (get post key) (get pre key))
        then some (get post key)
        else none)
unfolding lookup changed member
lookup-changed key pre post [] = refl
lookup-changed key pre post (k ∷ ks) = ground (arith, lookup-changed key pre post ks)

lookup-deleted :
    (key : Text) (post : OrMap) (ks : List Text)
    → lookup key (deleted post ks)
      ≡ (if member dec_text key ks && not (contains key post.entries) then some none else none)
unfolding lookup deleted member
lookup-deleted key post [] = refl
lookup-deleted key post (k ∷ ks) = ground (arith, lookup-deleted key post ks)

reads_something :
    (es : List Entry)
    → es ≢ []
    → ◌≢◌ {A = Option Text} (elim (winner es) [ none ↦ none | some e ↦ some e.value ]) none
unfolding winner
reads_something [] ne h = ne refl
reads_something (e ∷ es) ne h = ground (arith, h)

-- A key that a valid map has reads as something.
get_held :
    (caps : Caps) (m : OrMap) (key : Text)
    → IsValid caps m
    → contains key m.entries ≡ true
    → get m key ≢ none
unfolding contains get
get_held caps m key valid h e = elim (Option-cases (lookup key m.entries)) [
  | inl out ↦ ground arith
  | inr (es, there) ↦
      reads_something es (AllValues-lookup (IsHeld caps) key es m.entries valid.at_key there).held (
        sym (ap (λ o. elim (winner (or_else o [])) [ none ↦ none | some e' ↦ some e'.value ]) there)
        ∙ e)
]

-- Between two valid maps the callbacks are told of a key exactly if it reads differently, and then
-- what it reads now.
pub lookup-notices :
    (caps : Caps) (pre post : OrMap) (key : Text)
    → IsValid caps pre
    → IsValid caps post
    → lookup key (notices pre post)
      ≡ (if same_value (get post key) (get pre key) then none else some (get post key))
unfolding notices same_value
lookup-notices caps pre post key v w = ground (
  arith,
  lookup-append key (changed pre post (active_keys post)) (deleted post (active_keys pre)),
  lookup-changed key pre post (active_keys post),
  lookup-deleted key post (active_keys pre),
  member-keys key pre.entries,
  member-keys key post.entries,
  get_absent pre key,
  get_absent post key,
  get_held caps pre key v,
  get_held caps post key w,
)

received-IsValid :
    (caps : Caps) (t : AgentStateStore) (host : Text) (pre : OrMap)
    (r : Result (Option (Dict Json) × ℕ))
    → IsValid caps t.crdt
    → IsValid caps (received t host pre r).0.crdt
unfolding received
received-IsValid caps t host pre type_error u = u
received-IsValid caps t host pre (ok (response, port)) u = u

-- A message of any kind keeps the map of the store valid, whether the store runs or not and whether
-- the handler raises or not.
receive-IsValid :
    (caps : Caps) (s : AgentStateStore) (host : Text) (w : Wire)
    → IsValid caps s.crdt
    → IsValid caps (receive caps s host w).0.crdt
unfolding receive
receive-IsValid caps s host w v = elim (Bool-cases s.running) [
  | inl on ↦ simp on (
      received-IsValid caps _ host s.crdt
        (handle_incoming_message caps s.crdt s.gossip_stats w).reply
        (handle-IsValid caps s.crdt s.gossip_stats w v))
  | inr off ↦ simp off v
]
