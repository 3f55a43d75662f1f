-- ===== src/Proxy/Stays.antt =====
-- A chat request stays with its fleet target, whatever the target answers.
use propagul.Prelude.{
  ℕ, ◌≡◌, refl, ap, ◌∙◌, ◌<◌, length, Bool, true, false, Option, none, some, List, [], ◌∷◌, ◌++◌,
  arith, if◌then◌else◌, Text, codes,
}
use propagul.Prelude.Dict.{Dict, lookup}
use propagul.Json.{Json, bool}
use propagul.Router.Fleet.{BackendTarget}
use propagul.Router.EventLog.{RoutingEvent, RoutingEventLog, record_event}
use propagul.Proxy.Values.{get_or, truthy, is_hashable}
use propagul.Proxy.Requested.{is_bad}
use propagul.Proxy.Handlers.{
  World, ProxyConfig, or_default, chat_path, of_json, of_bytes, Part, Body, Output, json_error,
  passthrough_post, pass_answer, post_chat, write_answer, write, ollama_chat_sync,
}
use propagul.Agent.Reconcile.{is_text}
use propagul.Agent.Commands.{ollama}
use propagul.Proxy.Chat.{
  Request, Backends, strip_slashes, send_chat, completions_path, noted_in, note, handle_fleet,
  handle_target,
}
use propagul.Proxy.Failover.{ollama_request-some, send_chat-runs}

-- the event of a request that was routed to a target
abbrev pub event_of : ℕ → Json → BackendTarget → RoutingEvent
event_of now model t = record {
  timestamp = now;
  model = model;
  target_node = t.node_id;
  target_backend = t.backend_name;
  reason = codes "model_affinity";
}

-- what the log is after the event of a routed request
abbrev pub affinity : ℕ → Json → BackendTarget → RoutingEventLog → RoutingEventLog
affinity now model t log = record_event log (event_of now model t)

-- the answer of the target alone
abbrev pub target_output : World → Request → Dict Json → Json → BackendTarget → Backends → Output
target_output world req body model t b =
    let url = strip_slashes t.backend_url in
    send_chat world b.config req body model t.backend_name url url t.backend_auth b.out

pick_parts :
    (p : Bool) (x y : Output) (ps : List Part)
    → x.parts ≡ ps
    → y.parts ≡ ps
    → (if p then x else y).parts ≡ ps
pick_parts true x y ps e f = e
pick_parts false x y ps e f = f

-- A URL all of whose POSTs raise.
abbrev pub IsDown : World → Text → Type 0
IsDown world url = (path auth : Text) (sent : Body) → world.post (url ++ path) auth sent ≡ none

module _ (world : World) (config : ProxyConfig) (body : Dict Json) (model : Json) (url : Text)
    (key : is_hashable model ≡ true) (good : is_bad (lookup (codes "max_tokens") body) ≡ false)
    (some_url : 0 < length url) (down : IsDown world url) where
  post_chat-down :
      (r : Dict Json) (out : Output)
      → (post_chat world config model url (some r) out).parts ≡ out.parts ++ (json_error 502 ∷ [])
  unfolding post_chat
  post_chat-down r out =
      let at : or_default url config.backend_url ≡ url = ground (arith, some_url) in
      let raised : world.post (or_default url config.backend_url ++ chat_path) config.backend_auth
            (of_json r)
          ≡ none =
        ap (λ (u : Text). world.post (u ++ chat_path) config.backend_auth (of_json r)) at
        ∙ down chat_path config.backend_auth (of_json r) in
      ap (λ (o : Option Json). (write_answer world model o out).parts) raised ∙ unanswered
    where
      unanswered : (write_answer world model none out).parts ≡ out.parts ++ (json_error 502 ∷ [])
      unanswered = unfold write_answer write in refl

  ollama_chat_sync-down :
      (out : Output)
      → (ollama_chat_sync world config model body url out).parts
        ≡ out.parts ++ (json_error 502 ∷ [])
  unfolding ollama_chat_sync
  ollama_chat_sync-down out =
      let (r, e) = ollama_request-some world config body model key good false out.thinking in
      ap (λ (o : Option (Dict Json)). (post_chat world config model url o out).parts) e
      ∙ post_chat-down r out

  passthrough_post-down :
      (bytes auth : Text) (out : Output)
      → (passthrough_post world config (url ++ completions_path) bytes false auth out).parts
        ≡ out.parts ++ (json_error 502 ∷ [])
  unfolding passthrough_post pass_answer write
  passthrough_post-down bytes auth out =
      ap (λ (o : Option Json). (pass_answer world o out).parts)
        (down completions_path (or_default auth config.backend_auth) (of_bytes bytes))

  send_chat-down :
      (req : Request) (name auth : Text) (out : Output)
      → truthy (get_or (codes "stream") (bool false) body) ≡ false
      → (send_chat world config req body model name url url auth out).parts
        ≡ out.parts ++ (json_error 502 ∷ [])
  unfolding send_chat
  send_chat-down req name auth out plain = rw plain (
      pick_parts (is_text name ollama) (ollama_chat_sync world config model body url out)
        (passthrough_post world config (url ++ completions_path) req.bytes false auth out)
        (out.parts ++ (json_error 502 ∷ [])) (ollama_chat_sync-down out)
        (passthrough_post-down req.bytes auth out))

-- If the client takes whatever is written, the proxy keeps a log, the request is no stream, its
-- model is no list or dict and its max_tokens, if any, is a number, then a request whose accepted fleet target, with a URL
-- that is not empty, raises on every POST is answered with the error 502: the local backend is
-- not tried, and the log says that the request was routed.
pub handle_target-failed :
    (world : World) (now : ℕ) (req : Request) (body : Dict Json) (model : Json) (t : BackendTarget)
    (b : Backends) (log : RoutingEventLog)
    → ((parts : List Part) → world.drains parts ≡ true)
    → is_hashable model ≡ true
    → is_bad (lookup (codes "max_tokens") body) ≡ false
    → truthy (get_or (codes "stream") (bool false) body) ≡ false
    → 0 < length (strip_slashes t.backend_url)
    → IsDown world (strip_slashes t.backend_url)
    → b.routing_log ≡ some log
    → ((handle_target world now req body model (some t) b).out.parts
        ≡ b.out.parts ++ (json_error 502 ∷ []))
      × ((handle_target world now req body model (some t) b).routing_log
          ≡ some (affinity now model t log))
unfolding handle_target handle_fleet note
handle_target-failed world now req body model t b log stays key good plain some_url fails logged =
    let runs =
      send_chat-runs world stays b.config body model key good req t.backend_name
        (strip_slashes t.backend_url) (strip_slashes t.backend_url) t.backend_auth b.out in
    let answer =
      send_chat-down world b.config body model (strip_slashes t.backend_url) key good some_url fails
        req t.backend_name t.backend_auth b.out plain in
    rw runs (answer, ap (noted_in (event_of now model t)) logged)
