-- ===== src/Proxy/Answers.antt =====
-- Every request that is read is answered.
use propagul.Prelude.{
  ℕ, suc, ◌+◌, ◌≤◌, ◌<◌, ◌≡◌, Bool, true, false, ◌||◌, Option, none, some, List, [], ◌∷◌, ◌++◌,
  arith, if◌then◌else◌, Text, codes, length, length-append,
}
use propagul.Prelude.Dict.{Dict}
use propagul.Json.{Json, bool}
use propagul.Agent.Reconcile.{is_text}
use propagul.Agent.Commands.{ollama}
use propagul.Proxy.Values.{get_or, truthy}
use propagul.Proxy.Chat.{Request, send_chat, completions_path}
use propagul.Proxy.Responses.{Chunk}
use propagul.Proxy.Handlers.{
  World, ProxyConfig, Part, json_error, response, sse_headers, error_event, done, Line, Stream,
  Output, write, write_translated, write_answer, post_chat, ollama_chat_sync, write_chunk,
  stream_line, each_line, run_stream, start_stream, stream_chat, ollama_chat_stream, pass_line,
  pass_answer, after_stream, passthrough_post, end_with_error, or_default, of_bytes,
}

abbrev pub size : Output → ℕ
size out = length out.parts

-- Something was written, or an exception is on its way.
abbrev pub Answers : Output → Output → Type 0
Answers p q = size p < size q + (if q.raised then 1 else 0)

pick-le :
    (p : Bool) (n : ℕ) (x y : Output) → n ≤ size x → n ≤ size y → n ≤ size (if p then x else y)
pick-le true n x y h k = h
pick-le false n x y h k = k

pub pick-Answers :
    (p : Bool) (o x y : Output) → Answers o x → Answers o y → Answers o (if p then x else y)
pick-Answers true o x y h k = h
pick-Answers false o x y h k = k

Answers-lt : (p q : Output) → size p < size q → Answers p q
Answers-lt p q h = ground (arith, h)

module _ (world : World) where
  pub size-write :
      (parts : List Part) (out : Output) → size (write world parts out) ≡ size out + length parts
  unfolding write
  size-write parts out = length-append out.parts parts

  write-lt :
      (part : Part) (parts : List Part) (out : Output)
      → size out < size (write world (part ∷ parts) out)
  write-lt part parts out = ground (arith, size-write (part ∷ parts) out)

  write_chunk-le :
      (out : Output) (r : Option Chunk × List Json) → size out ≤ size (write_chunk world out r)
  write_chunk-le out (none, thinking) = omega arith
  write_chunk-le out (some c, thinking) =
      omega (arith, size-write _ (record out { thinking = thinking }))

  stream_line-le :
      (model : Json) (l : Line) (out : Output) → size out ≤ size (stream_line world model l out)
  unfolding stream_line
  stream_line-le model l out = go l.is_empty l.json
    where
      go :
          (e : Bool) (o : Option Json)
          → size out ≤ size (stream_line world model (record l { is_empty = e; json = o }) out)
      go true o = omega arith
      go false none = omega arith
      go false (some j) = write_chunk-le out _

  pass_line-le : (l : Line) (out : Output) → size out ≤ size (pass_line world l out)
  unfolding pass_line
  pass_line-le l out = omega (arith, write-lt _ [] out)

  module _ (on_line : Line → Output → Output)
      (grows : (l : Line) (out : Output) → size out ≤ size (on_line l out)) where
    each_line-le : (ls : List Line) (out : Output) → size out ≤ size (each_line on_line ls out)
    unfolding each_line
    each_line-le [] out = omega arith
    each_line-le (l ∷ ls) out =
        pick-le (on_line l out).raised (size out) (on_line l out)
          (each_line on_line ls (on_line l out)) (grows l out)
          (omega (arith, grows l out, each_line-le ls (on_line l out)))

    run_stream-le :
        (o : Option Stream) (out : Output) → size out ≤ size (run_stream world on_line o out)
    unfolding run_stream
    run_stream-le none out = omega (arith, write-lt _ _ out)
    run_stream-le (some s) out =
        let last = each_line on_line s.lines out in
        pick-le (last.raised || s.breaks) (size out) (end_with_error world last) last
          (omega (arith, write-lt error_event (done ∷ []) last, each_line-le s.lines out))
          (each_line-le s.lines out)

    start_stream-lt :
        (o : Option Stream) (out : Output) → size out < size (start_stream world on_line o out)
    unfolding start_stream
    start_stream-lt o out =
        let opened = write world (sse_headers ∷ []) out in
        pick-le opened.raised (suc (size out)) opened (run_stream world on_line o opened)
          (omega (arith, write-lt sse_headers [] out))
          (omega (arith, write-lt sse_headers [] out, run_stream-le o opened))

  write_translated-lt :
      (out : Output) (r : Option Json × List Json) → size out < size (write_translated world out r)
  unfolding write_translated
  write_translated-lt out (none, thinking) = write-lt _ [] (record out { thinking = thinking })
  write_translated-lt out (some j, thinking) = write-lt _ [] (record out { thinking = thinking })

  write_answer-lt :
      (model : Json) (o : Option Json) (out : Output)
      → size out < size (write_answer world model o out)
  unfolding write_answer
  write_answer-lt model none out = write-lt _ [] out
  write_answer-lt model (some j) out = write_translated-lt out _

  post_chat-Answers :
      (config : ProxyConfig) (model : Json) (url : Text) (o : Option (Dict Json)) (out : Output)
      → Answers out (post_chat world config model url o out)
  unfolding post_chat
  post_chat-Answers config model url none out = omega arith
  post_chat-Answers config model url (some req) out =
      Answers-lt out (post_chat world config model url (some req) out) (write_answer-lt model _ out)

  stream_chat-Answers :
      (config : ProxyConfig) (model : Json) (url : Text) (o : Option (Dict Json)) (out : Output)
      → Answers out (stream_chat world config model url o out)
  unfolding stream_chat
  stream_chat-Answers config model url none out = omega arith
  stream_chat-Answers config model url (some req) out =
      Answers-lt out (stream_chat world config model url (some req) out)
        (start_stream-lt (stream_line world model) (stream_line-le model) _ out)

  pass_answer-lt : (o : Option Json) (out : Output) → size out < size (pass_answer world o out)
  unfolding pass_answer
  pass_answer-lt none out = write-lt _ [] out
  pass_answer-lt (some j) out =
      let written = write world (response 200 j ∷ []) out in
      pick-le written.raised (suc (size out)) (write world (json_error 502 ∷ []) written) written
        (omega (arith, write-lt (response 200 j) [] out, write-lt (json_error 502) [] written))
        (omega (arith, write-lt (response 200 j) [] out))

  after_stream-le : (out : Output) → size out ≤ size (after_stream world out)
  unfolding after_stream
  after_stream-le out =
      pick-le out.raised (size out) (write world (json_error 502 ∷ []) out) out
        (omega (arith, write-lt (json_error 502) [] out)) (omega arith)

  pub passthrough_post-Answers :
      (config : ProxyConfig) (url body : Text) (stream : Bool) (auth : Text) (out : Output)
      → Answers out (passthrough_post world config url body stream auth out)
  unfolding passthrough_post
  passthrough_post-Answers config url body true auth out =
      let streamed =
        start_stream world (pass_line world)
          (world.open_stream url (or_default auth config.backend_auth) (of_bytes body)) out in
      Answers-lt out (after_stream world streamed) (
        omega (
          arith,
          start_stream-lt (pass_line world) pass_line-le
              (world.open_stream url (or_default auth config.backend_auth) (of_bytes body)) out,
          after_stream-le streamed,
        ))
  passthrough_post-Answers config url body false auth out =
      Answers-lt out (passthrough_post world config url body false auth out) (pass_answer-lt _ out)

  pub send_chat-Answers :
      (config : ProxyConfig) (req : Request) (body : Dict Json) (model : Json)
      (name override url auth : Text) (out : Output)
      → Answers out (send_chat world config req body model name override url auth out)
  unfolding send_chat ollama_chat_sync ollama_chat_stream
  send_chat-Answers config req body model name override url auth out =
      let stream = truthy (get_or (codes "stream") (bool false) body) in
      let streamed = ollama_chat_stream world config model body override out in
      let whole = ollama_chat_sync world config model body override out in
      pick-Answers (is_text name ollama) out (if stream then streamed else whole)
        (passthrough_post world config (url ++ completions_path) req.bytes stream auth out)
        (pick-Answers stream out streamed whole (stream_chat-Answers config model override _ out)
          (post_chat-Answers config model override _ out))
        (passthrough_post-Answers config (url ++ completions_path) req.bytes stream auth out)
