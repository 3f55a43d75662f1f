-- ===== src/Proxy/Chat.antt =====
-- python/propagul/mesh/proxy.py: `BackendRouter._handle_chat_completions`. The model is whatever value the
-- body gives; the backends of the fleet name texts. The events are stamped with the time that `select` is given.
use propagul.Prelude.{
  ℕ, Bool, true, false, ◌&&◌, ◌||◌, not, Option, none, some, List, [], ◌∷◌, ◌++◌, if◌then◌else◌,
  ltb, ◌==◌, Text, codes, dec_text, length,
}
use propagul.Prelude.Dict.{Dict}
use propagul.Prelude.Finite.{member}
use propagul.Json.{Json, bool, str, as_dict}
use propagul.Agent.Reconcile.{is_text}
use propagul.Agent.Commands.{ollama}
use propagul.Router.Fleet.{BackendTarget, is_stale}
use propagul.Router.Tracker.{acquire, release}
use propagul.Router.EventLog.{RoutingEvent, RoutingEventLog, record_event}
use propagul.Router.Select.{Router, no_targets, choose, select}
use propagul.Proxy.Values.{get_or, truthy}
use propagul.Proxy.Validation.{
  Network, Verdict, accepted, unknown_host, link_local, not_local, validate_backend_url,
}
use propagul.Proxy.Handlers.{
  World, ProxyConfig, json_error, Output, write, fail, or_default, ollama_chat_sync,
  ollama_chat_stream, passthrough_post,
}

-- `_OPENAI_NATIVE_BACKENDS`
abbrev pub native_backends : List Text
native_backends =
    codes "vllm" ∷ codes "lm_studio" ∷ codes "tgi" ∷ codes "llama_cpp" ∷ codes "localai" ∷ []

abbrev pub is_native : Text → Bool
is_native name = member dec_text name native_backends

-- a POST: its bytes, and the JSON of them, none where they are none
pub record Request : Type 0 where
  pub is_post : Bool
  pub bytes : Text
  pub json : Option Json

-- the state of a `BackendRouter`, and what a request writes
pub record Backends : Type 0 where
  pub config : ProxyConfig
  pub router : Option Router
  pub routing_log : Option RoutingEventLog
  pub local_node_id : Text
  pub out : Output

-- `url.rstrip("/")`
unfoldable pub strip_slashes : Text → Text
strip_slashes [] = []
strip_slashes (c ∷ s) =
    let rest = strip_slashes s in if not (ltb 0 (length rest)) && c == b'/' then [] else c ∷ rest

abbrev pub completions_path : Text
completions_path = codes "/v1/chat/completions"

-- the handler of a backend, and its URL
unfoldable pub send_chat :
    World → ProxyConfig → Request → Dict Json → Json → Text → Text → Text → Text → Output → Output
send_chat world config req body model name override url auth out =
    let stream = truthy (get_or (codes "stream") (bool false) body) in
    if is_text name ollama
    then (if stream
        then ollama_chat_stream world config model body override out
        else ollama_chat_sync world config model body override out)
    else passthrough_post world config (url ++ completions_path) req.bytes stream auth out

abbrev pub noted_in : RoutingEvent → Option RoutingEventLog → Option RoutingEventLog
noted_in event none = none
noted_in event (some log) = some (record_event log event)

unfoldable pub note : ℕ → Json → Text → Text → Text → Backends → Backends
note now model node backend reason b = record b {
  routing_log =
      noted_in
        (record {
          timestamp = now;
          model = model;
          target_node = node;
          target_backend = backend;
          reason = reason;
        })
        b.routing_log;
}

-- the local backend, or 503 and 501
unfoldable pub handle_local : World → ℕ → Request → Dict Json → Json → Backends → Backends
handle_local world now req body model b =
    let config = b.config in
    let sent = record b {
      out =
          send_chat world config req body model config.backend_name [] config.backend_url [] b.out;
    } in
    let noted =
      note now model (or_default b.local_node_id (codes "local"))
        (or_default config.backend_name (codes "unknown")) (codes "local_fallback") sent in
    if not (ltb 0 (length config.backend_url))
    then record b { out = write world (json_error 503 ∷ []) b.out }
    else if not (is_text config.backend_name ollama || is_native config.backend_name)
    then record b { out = write world (json_error 501 ∷ []) b.out }
    else if sent.out.raised || not (truthy model)
    then sent
    else noted

abbrev pub changed : (Router → Router) → Option Router → Option Router
changed f none = none
changed f (some r) = some (f r)

abbrev pub with_router : (Router → Router) → Backends → Backends
with_router f b = record b { router = changed f b.router }

abbrev pub acquire_node : Text → Router → Router
acquire_node node r = record r { tracker = acquire r.tracker node }

abbrev pub release_node : Text → Router → Router
release_node node r = record r { tracker = release r.tracker node }

-- the fleet target's answer, and the event of it
abbrev pub at_target : World → ℕ → Request → Dict Json → Json → BackendTarget → Backends → Backends
at_target world now req body model t b =
    let url = strip_slashes t.backend_url in
    let sent = record b {
      out = send_chat world b.config req body model t.backend_name url url t.backend_auth b.out;
    } in
    note now model t.node_id t.backend_name
      (if sent.out.raised then codes "fleet_error" else codes "model_affinity") sent

abbrev pub cleared : Backends → Backends
cleared b = record b { out = record b.out { raised = false } }

-- the request between `acquire` and `release`, and the fallback after an exception
unfoldable pub handle_fleet :
    World → ℕ → Request → Dict Json → Json → BackendTarget → Backends → Backends
handle_fleet world now req body model t b =
    let routed =
      with_router (release_node t.node_id)
        (at_target world now req body model t (with_router (acquire_node t.node_id) b)) in
    let local = handle_local world now req body model (cleared routed) in
    if routed.out.raised then local else routed

abbrev pub is_accepted : Verdict → Bool
is_accepted accepted = true
is_accepted unknown_host = false
is_accepted link_local = false
is_accepted not_local = false

-- `select` of any model: one that is no text is no backend's
unfoldable pub select_any : Router → Json → ℕ → Option BackendTarget
select_any r (str model) now = select r model now
select_any r _ now =
    if is_stale r.fleet now || no_targets r.fleet.targets then none else choose r []

abbrev pub chosen : Network → ℕ → Json → Backends → Option BackendTarget
chosen network now model b = if not (truthy model) then none else elim b.router [
  | none ↦ none
  | some r ↦ elim (select_any r model now) [
    | none ↦ none
    | some t ↦ if is_accepted (validate_backend_url network t.backend_url) then some t else none
  ]
]

unfoldable pub handle_target :
    World → ℕ → Request → Dict Json → Json → Option BackendTarget → Backends → Backends
handle_target world now req body model none b = handle_local world now req body model b
handle_target world now req body model (some t) b = handle_fleet world now req body model t b

-- `openai_body.get("model", "")`
abbrev pub model_of : Dict Json → Json
model_of body = get_or (codes "model") (str []) body

unfoldable pub handle_body :
    World → Network → ℕ → Request → Option (Dict Json) → Backends → Backends
handle_body world network now req none b = record b { out = fail b.out }
handle_body world network now req (some body) b =
    handle_target world now req body (model_of body) (chosen network now (model_of body) b) b

-- `_handle_chat_completions`
unfoldable pub handle_chat_completions : World → Network → ℕ → Request → Backends → Backends
handle_chat_completions world network now req b =
    if not req.is_post
    then record b { out = write world (json_error 400 ∷ []) b.out }
    else elim req.json [
      | none ↦ record b { out = write world (json_error 400 ∷ []) b.out }
      | some j ↦ handle_body world network now req (as_dict j) b
    ]
