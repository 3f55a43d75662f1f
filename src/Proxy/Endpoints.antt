-- ===== src/Proxy/Endpoints.antt =====
-- python/propagul/mesh/proxy.py: the endpoints of `BackendRouter`, and `_handle_connection` of a request
-- that has been read. The answer to a GET is an argument, none where it raises.
use propagul.Prelude.{
  ℕ, Bool, false, ◌||◌, not, Option, none, some, List, [], ◌∷◌, ◌++◌, if◌then◌else◌, ltb, ◌==◌,
  Text, codes, length,
}
use propagul.Prelude.Dict.{Dict, lookup}
use propagul.Json.{Json, bool, str, arr, obj, end, dict, to_list, as_dict}
use propagul.Agent.Reconcile.{is_text}
use propagul.Agent.Commands.{ollama}
use propagul.Proxy.Values.{get_or, truthy}
use propagul.Proxy.Validation.{Network}
use propagul.Proxy.Responses.{translate_ollama_models_to_openai}
use propagul.Proxy.Handlers.{World, Part, empty, response, json_error, write, passthrough_post}
use propagul.Proxy.Chat.{Request, Backends, is_native, handle_chat_completions}

-- `HttpRequest`, with the JSON of its body, none where it is none
pub record HttpRequest : Type 0 where
  pub method : Text
  pub path : Text
  pub bytes : Text
  pub json : Option Json

abbrev pub Gets : Type 0
Gets = Text → Text → Option Json

-- `path.split("?")[0]`
unfoldable pub without_query : Text → Text
without_query [] = []
without_query (c ∷ s) = let rest = without_query s in if c == b'?' then [] else c ∷ rest

abbrev pub answer : World → Part → Backends → Backends
answer world part b = record b { out = write world (part ∷ []) b.out }

-- the items of `ollama_models.get("models", [])`, none where it raises; the items of a text or of a
-- dict have no `get`
unfoldable pub items_of : Option Json → Option (List Json)
unfolding to_list
items_of none = some []
items_of (some (arr js)) = some (to_list js)
items_of (some (str [])) = some []
items_of (some (obj end)) = some []
items_of (some _) = none

unfoldable pub models_of : Option (Dict Json) → Option (List Json)
models_of none = none
models_of (some d) = items_of (lookup (codes "models") d)

unfoldable pub translated_models : World → Option (List Json) → Part
translated_models world none = json_error 502
translated_models world (some models) =
    elim (translate_ollama_models_to_openai world.stamp.created models) [
      | none ↦ json_error 502
      | some j ↦ response 200 j
    ]

-- what is answered for the list of the backend
unfoldable pub models_part : World → Bool → Option Json → Part
models_part world is_ollama none = json_error 502
models_part world is_ollama (some j) =
    if is_ollama then translated_models world (models_of (as_dict j)) else response 200 j

-- `_handle_models`
unfoldable pub handle_models : World → Gets → HttpRequest → Backends → Backends
handle_models world gets req b =
    let is_ollama = is_text b.config.backend_name ollama in
    let url =
      b.config.backend_url ++ (if is_ollama then codes "/api/tags" else codes "/v1/models") in
    if not (is_text req.method (codes "GET") || is_text req.method (codes "HEAD"))
    then answer world (json_error 405) b
    else if not (ltb 0 (length b.config.backend_url))
    then answer world (json_error 503) b
    else answer world (models_part world is_ollama (gets url b.config.backend_auth)) b

-- the stream flag of a body, if it is a dict
unfoldable pub stream_of : Option Json → Bool
stream_of none = false
stream_of (some j) = elim (as_dict j) [
  | none ↦ false
  | some d ↦ truthy (get_or (codes "stream") (bool false) d)
]

-- `_handle_completions`
unfoldable pub handle_completions : World → HttpRequest → Backends → Backends
handle_completions world req b =
    if not (is_text req.method (codes "POST"))
    then answer world (json_error 405) b
    else if not (ltb 0 (length b.config.backend_url))
    then answer world (json_error 503) b
    else if is_native b.config.backend_name
    then record b {
      out =
          passthrough_post world b.config (b.config.backend_url ++ codes "/v1/completions")
            req.bytes (stream_of req.json) [] b.out;
    }
    else answer world (json_error 501) b

abbrev pub health : Backends → Json
health b = dict (
    (codes "status", str (codes "ok"))
    ∷ (codes "proxy", str (codes "propagul-mesh"))
    ∷ (codes "backend", str b.config.backend_name)
    ∷ (codes "backend_url", str b.config.backend_url)
    ∷ [])

abbrev pub chat_request : HttpRequest → Request
chat_request req = record {
  is_post = is_text req.method (codes "POST");
  bytes = req.bytes;
  json = req.json;
}

-- `handle_request`
unfoldable pub handle_request : World → Network → Gets → ℕ → HttpRequest → Backends → Backends
handle_request world network gets now req b =
    let path = without_query req.path in
    if is_text req.method (codes "OPTIONS")
    then answer world empty b
    else if is_text path (codes "/v1/models") || is_text path (codes "/v1/models/")
    then handle_models world gets req b
    else if is_text path (codes "/v1/chat/completions")
    then handle_chat_completions world network now (chat_request req) b
    else if is_text path (codes "/v1/completions")
    then handle_completions world req b
    else if is_text path (codes "/health") || is_text path (codes "/")
    then answer world (response 200 (health b)) b
    else answer world (json_error 404) b

-- `_handle_connection` after the request was read, none where there is none: an exception is answered,
-- and what the answer raises is dropped
unfoldable pub handle_connection :
    World → Network → Gets → ℕ → Option HttpRequest → Backends → Backends
handle_connection world network gets now none b = b
handle_connection world network gets now (some req) b =
    let handled = handle_request world network gets now req b in
    let apology = answer world (json_error 500) handled in
    if handled.out.raised then apology else handled
