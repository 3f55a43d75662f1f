-- ===== src/Proxy/Handlers.antt =====
-- python/propagul/mesh/proxy.py: `_ollama_chat_sync`, `_ollama_chat_stream`, `_passthrough_post` and
-- `_passthrough_stream`. The backends and the client are arguments. The reader thread and its queue
-- pass the lines of a stream on in order, and are one list here.
use propagul.Prelude.{
  ℕ, Bool, true, false, ◌||◌, not, Option, none, some, List, [], ◌∷◌, ◌++◌, if◌then◌else◌, ltb,
  Text, codes, length, ℤ,
}
use propagul.Prelude.Dict.{Dict, insert}
use propagul.Json.{Json, bool, str, as_dict}
use propagul.Agent.Settings.{ProxySettings, resolve_num_ctx}
use propagul.Proxy.Values.{FloatAdd, is_hashable}
use propagul.Proxy.Translate.{translate_openai_to_ollama_chat}
use propagul.Proxy.Responses.{
  Stamp, Chunk, finished, delta, translate_ollama_response_to_openai,
  translate_ollama_stream_chunk_to_openai,
}

-- what is written to the client: a response with no body or a JSON body, an error of the proxy, and the parts of
-- a stream
pub data Part : Type 0 where
  empty : Part
  response : ℕ → Json → Part
  json_error : ℕ → Part
  sse_headers : Part
  event : Json → Part
  line : Text → Part
  error_event : Part
  done : Part

-- the body of a request: the translated dict, or the bytes as they came
pub data Body : Type 0 where
  of_json : Dict Json → Body
  of_bytes : Text → Body

-- a line of a stream: its bytes, and the JSON of it, none where it is none; an empty line is skipped
pub record Line : Type 0 where
  pub bytes : Text
  pub is_empty : Bool
  pub json : Option Json

-- the lines of a stream, and whether it then breaks off
pub record Stream : Type 0 where
  pub lines : List Line
  pub breaks : Bool

-- The world: the answer to a POST to a URL with an auth header, none where it raises; its stream; and
-- whether the client still takes what has been written, which `drain` raises otherwise.
pub record World : Type 0 where
  pub post : Text → Text → Body → Option Json
  pub open_stream : Text → Text → Body → Option Stream
  pub drains : List Part → Bool
  pub stamp : Stamp
  pub float_add : FloatAdd

-- `ProxyConfig`, with what the agent sets of it
pub record ProxyConfig : Type 0 where
  pub backend_name : Text
  pub backend_url : Text
  pub backend_auth : Text
  pub thinking_budget : ℤ
  pub settings : ProxySettings

-- what a handler has written, the set `_thinking_models`, and whether it raises
pub record Output : Type 0 where
  pub parts : List Part
  pub thinking : List Json
  pub raised : Bool

-- `writer.write` and `writer.drain`
unfoldable pub write : World → List Part → Output → Output
write world parts out =
    let parts' = out.parts ++ parts in
    record out { parts = parts'; raised = not (world.drains parts') }

abbrev pub fail : Output → Output
fail out = record out { raised = true }

-- `_resolve_num_ctx` of any model: none where the look-up raises TypeError; the keys of the overrides
-- are texts, so that no other model has one
unfoldable pub num_ctx_for : ProxySettings → Json → Option (Option ℤ)
num_ctx_for p (str model) = some (resolve_num_ctx p model)
num_ctx_for p model = if is_hashable model then some p.default_num_ctx else none

-- the request with a context length
abbrev pub request_for :
    World → ProxyConfig → Json → Dict Json → Bool → List Json → Option ℤ → Option (Dict Json)
request_for world config model body stream thinking num_ctx =
    elim (translate_openai_to_ollama_chat world.float_add thinking model config.thinking_budget
      config.settings.ollama_keep_alive num_ctx body) [
        | none ↦ none
        | some req ↦ some (insert (codes "stream") (bool stream) req)
      ]

-- the request that is sent, or none where making it raises
abbrev pub ollama_request :
    World → ProxyConfig → Json → Dict Json → Bool → List Json → Option (Dict Json)
ollama_request world config model body stream thinking = elim (num_ctx_for config.settings model) [
  | none ↦ none
  | some num_ctx ↦ request_for world config model body stream thinking num_ctx
]

abbrev pub or_default : Text → Text → Text
or_default text otherwise = if ltb 0 (length text) then text else otherwise

abbrev pub chat_path : Text
chat_path = codes "/api/chat"

-- the translated response, or the error for one that is not translated
unfoldable pub write_translated : World → Output → Option Json × List Json → Output
write_translated world out (none, thinking') =
    write world (json_error 502 ∷ []) (record out { thinking = thinking' })
write_translated world out (some j, thinking') =
    write world (response 200 j ∷ []) (record out { thinking = thinking' })

unfoldable pub write_answer : World → Json → Option Json → Output → Output
write_answer world model none out = write world (json_error 502 ∷ []) out
write_answer world model (some resp) out = write_translated world out (
    translate_ollama_response_to_openai world.float_add world.stamp model out.thinking
      (as_dict resp))

unfoldable pub post_chat : World → ProxyConfig → Json → Text → Option (Dict Json) → Output → Output
post_chat world config model url none out = fail out
post_chat world config model url (some req) out =
    write_answer world model
      (world.post (or_default url config.backend_url ++ chat_path) config.backend_auth
        (of_json req))
      out

-- `_ollama_chat_sync`, with the URL that overrides the configured one
unfoldable pub ollama_chat_sync : World → ProxyConfig → Json → Dict Json → Text → Output → Output
ollama_chat_sync world config model body url out =
    post_chat world config model url (ollama_request world config model body false out.thinking) out

-- the event for an exception, and the end
abbrev pub end_with_error : World → Output → Output
end_with_error world out = write world (error_event ∷ done ∷ []) out

abbrev pub chunk_part : Chunk → Part
chunk_part finished = done
chunk_part (delta j) = event j

abbrev pub write_chunk : World → Output → Option Chunk × List Json → Output
write_chunk world out (none, thinking') = fail (record out { thinking = thinking' })
write_chunk world out (some chunk, thinking') =
    write world (chunk_part chunk ∷ []) (record out { thinking = thinking' })

-- a line that is empty or no JSON is skipped
unfoldable pub stream_line : World → Json → Line → Output → Output
stream_line world model l out = if l.is_empty then out else elim l.json [
  | none ↦ out
  | some j ↦
      write_chunk world out
        (translate_ollama_stream_chunk_to_openai world.stamp model out.thinking (as_dict j))
]

-- The lines until one raises. After the last line the stream ends, or breaks off.
unfoldable pub each_line : (Line → Output → Output) → List Line → Output → Output
each_line on_line [] out = out
each_line on_line (l ∷ rest) out =
    let next = on_line l out in
    let more = each_line on_line rest next in if next.raised then next else more

-- What is written for a stream; any exception ends it with an error event.
unfoldable pub run_stream : World → (Line → Output → Output) → Option Stream → Output → Output
run_stream world on_line none out = end_with_error world out
run_stream world on_line (some s) out =
    let last = each_line on_line s.lines out in
    if last.raised || s.breaks then end_with_error world last else last

-- the headers first: if they cannot be written, nothing is asked of the backend
unfoldable pub start_stream : World → (Line → Output → Output) → Option Stream → Output → Output
start_stream world on_line s out =
    let opened = write world (sse_headers ∷ []) out in
    let rest = run_stream world on_line s opened in if opened.raised then opened else rest

unfoldable pub stream_chat :
    World → ProxyConfig → Json → Text → Option (Dict Json) → Output → Output
stream_chat world config model url none out = fail out
stream_chat world config model url (some req) out =
    start_stream world (stream_line world model)
      (world.open_stream (or_default url config.backend_url ++ chat_path) config.backend_auth
        (of_json req))
      out

-- `_ollama_chat_stream`
unfoldable pub ollama_chat_stream : World → ProxyConfig → Json → Dict Json → Text → Output → Output
ollama_chat_stream world config model body url out =
    stream_chat world config model url (ollama_request world config model body true out.thinking)
      out

unfoldable pub pass_line : World → Line → Output → Output
pass_line world l out = write world (line l.bytes ∷ []) out

-- the answer as it is; a client that does not take it is written to once more
unfoldable pub pass_answer : World → Option Json → Output → Output
pass_answer world none out = write world (json_error 502 ∷ []) out
pass_answer world (some resp) out =
    let written = write world (response 200 resp ∷ []) out in
    let again = write world (json_error 502 ∷ []) written in
    if written.raised then again else written

-- what `_passthrough_stream` leaves; its exceptions end in a second error
unfoldable pub after_stream : World → Output → Output
after_stream world out = if out.raised then write world (json_error 502 ∷ []) out else out

-- `_passthrough_post`
unfoldable pub passthrough_post : World → ProxyConfig → Text → Text → Bool → Text → Output → Output
passthrough_post world config url body stream auth out =
    let auth' = or_default auth config.backend_auth in
    if stream
    then after_stream world
        (start_stream world (pass_line world) (world.open_stream url auth' (of_bytes body)) out)
    else pass_answer world (world.post url auth' (of_bytes body)) out
