-- ===== src/Proxy/Failover.antt =====
-- What becomes of a chat request whose fleet target fails.
use propagul.Prelude.{
  ℤ, ◌≡◌, refl, sym, ap, ◌∙◌, Bool, true, false, ◌||◌, not, Option, none, some, List, [], ◌∷◌, ◌++◌,
  arith, if◌then◌else◌, Text, codes, inl, inr, Option-cases,
}
use propagul.Prelude.Dict.{Dict, lookup, insert}
use propagul.Json.{Json, null, int, float, str, arr, obj, bool}
use propagul.Proxy.Values.{get_or, truthy, is_hashable}
use propagul.Proxy.Translate.{translate_openai_to_ollama_chat}
use propagul.Proxy.Requested.{is_bad, is_refused, translate-none_iff}
use propagul.Proxy.Handlers.{
  World, ProxyConfig, Part, json_error, response, sse_headers, Line, Stream, Output, write,
  write_translated, write_answer, post_chat, ollama_chat_sync, end_with_error, each_line,
  run_stream, start_stream, stream_chat, ollama_chat_stream, pass_answer, after_stream,
  passthrough_post, ollama_request, request_for, num_ctx_for,
}
use propagul.Agent.Settings.{ProxySettings, resolve_num_ctx}
use propagul.Agent.Reconcile.{is_text}
use propagul.Agent.Commands.{ollama}
use mathlib.Core.Bool.{true≢false}
use propagul.Proxy.Chat.{Request, send_chat, completions_path}

pick_runs :
    (p : Bool) (x y : Output)
    → x.raised ≡ false
    → (p ≡ false → y.raised ≡ false)
    → (if p then x else y).raised ≡ false
pick_runs true x y h k = h
pick_runs false x y h k = k refl

or_left : (a b : Bool) → (a || b) ≡ false → a ≡ false
or_left a b e = ground (arith, e)

num_ctx_for-some :
    (p : ProxySettings) (model : Json)
    → is_hashable model ≡ true
    → (n : Option ℤ) × (num_ctx_for p model ≡ some n)
unfolding num_ctx_for is_hashable
num_ctx_for-some p null h = (p.default_num_ctx, refl)
num_ctx_for-some p (bool b) h = (p.default_num_ctx, refl)
num_ctx_for-some p (int z) h = (p.default_num_ctx, refl)
num_ctx_for-some p (float z k) h = (p.default_num_ctx, refl)
num_ctx_for-some p (str s) h = (resolve_num_ctx p s, refl)
num_ctx_for-some p (arr js) h = cc
num_ctx_for-some p (obj fs) h = cc

not_refused :
    (model : Json) (o : Option Json)
    → is_hashable model ≡ true
    → is_bad o ≡ false
    → is_refused model o ≡ false
not_refused model none h good = refl
not_refused model (some j) h good = ground (arith, h, good)

module _ (world : World) (config : ProxyConfig) (body : Dict Json) (model : Json)
    (key : is_hashable model ≡ true)
    (good : is_bad (lookup (codes "max_tokens") body) ≡ false) where
  request_for-some :
      (stream : Bool) (thinking : List Json) (n : Option ℤ)
      → (req : Dict Json) × (request_for world config model body stream thinking n ≡ some req)
  request_for-some stream thinking n =
      elim (Option-cases (
        translate_openai_to_ollama_chat world.float_add thinking model config.thinking_budget
          config.settings.ollama_keep_alive n body)) [
            | inl e ↦ absurd (
                true≢false (
                  sym (
                    (translate-none_iff world.float_add thinking model config.thinking_budget
                        config.settings.ollama_keep_alive n body).0
                      e)
                  ∙ not_refused model (lookup (codes "max_tokens") body) key good))
            | inr (req, e) ↦ (
              insert (codes "stream") (bool stream) req,
              ap
                  (λ (o : Option (Dict Json)). elim o [
                    | none ↦ none
                    | some r ↦ some (insert (codes "stream") (bool stream) r)
                  ])
                  e,
            )
          ]

  -- The request is translated, whatever models are known to think.
  pub ollama_request-some :
      (stream : Bool) (thinking : List Json)
      → (req : Dict Json) × (ollama_request world config model body stream thinking ≡ some req)
  ollama_request-some stream thinking =
      let (n, at) = num_ctx_for-some config.settings model key in
      let (req, e) = request_for-some stream thinking n in
      (
        req,
        ap
              (λ (o : Option (Option ℤ)). elim o [
                | none ↦ none
                | some n ↦ request_for world config model body stream thinking n
              ])
              at
            ∙ e,
      )

-- A client that takes whatever is written.
module _ (world : World) (stays : (parts : List Part) → world.drains parts ≡ true) where
  write-runs : (parts : List Part) (out : Output) → (write world parts out).raised ≡ false
  unfolding write
  write-runs parts out = ap not (stays (out.parts ++ parts))

  run_stream-runs :
      (on_line : Line → Output → Output) (o : Option Stream) (out : Output)
      → (run_stream world on_line o out).raised ≡ false
  unfolding run_stream
  run_stream-runs on_line none out = write-runs _ out
  run_stream-runs on_line (some s) out =
      let last = each_line on_line s.lines out in
      pick_runs (last.raised || s.breaks) (end_with_error world last) last (write-runs _ last)
        (or_left last.raised s.breaks)

  start_stream-runs :
      (on_line : Line → Output → Output) (o : Option Stream) (out : Output)
      → (start_stream world on_line o out).raised ≡ false
  unfolding start_stream
  start_stream-runs on_line o out = ground (
    arith,
    write-runs (sse_headers ∷ []) out,
    run_stream-runs on_line o (write world (sse_headers ∷ []) out),
  )

  write_translated-runs :
      (out : Output) (r : Option Json × List Json) → (write_translated world out r).raised ≡ false
  unfolding write_translated
  write_translated-runs out (none, thinking) = write-runs _ _
  write_translated-runs out (some j, thinking) = write-runs _ _

  write_answer-runs :
      (model : Json) (o : Option Json) (out : Output)
      → (write_answer world model o out).raised ≡ false
  unfolding write_answer
  write_answer-runs model none out = write-runs _ out
  write_answer-runs model (some j) out = write_translated-runs out _

  pass_answer-runs : (o : Option Json) (out : Output) → (pass_answer world o out).raised ≡ false
  unfolding pass_answer
  pass_answer-runs none out = write-runs _ out
  pass_answer-runs (some j) out =
      let written = write world (response 200 j ∷ []) out in
      pick_runs written.raised (write world (json_error 502 ∷ []) written) written
        (write-runs _ written) (λ e. e)

  after_stream-runs : (out : Output) → (after_stream world out).raised ≡ false
  unfolding after_stream
  after_stream-runs out =
      pick_runs out.raised (write world (json_error 502 ∷ []) out) out (write-runs _ out) (λ e. e)

  passthrough_post-runs :
      (config : ProxyConfig) (url body : Text) (stream : Bool) (auth : Text) (out : Output)
      → (passthrough_post world config url body stream auth out).raised ≡ false
  unfolding passthrough_post
  passthrough_post-runs config url body true auth out = after_stream-runs _
  passthrough_post-runs config url body false auth out = pass_answer-runs _ out

  post_chat-runs :
      (config : ProxyConfig) (model : Json) (url : Text) (req : Dict Json) (out : Output)
      → (post_chat world config model url (some req) out).raised ≡ false
  unfolding post_chat
  post_chat-runs config model url req out = write_answer-runs model _ out

  stream_chat-runs :
      (config : ProxyConfig) (model : Json) (url : Text) (req : Dict Json) (out : Output)
      → (stream_chat world config model url (some req) out).raised ≡ false
  unfolding stream_chat
  stream_chat-runs config model url req out = start_stream-runs _ _ out

  module _ (config : ProxyConfig) (body : Dict Json) (model : Json) (key : is_hashable model ≡ true)
      (good : is_bad (lookup (codes "max_tokens") body) ≡ false) where
    pub send_chat-runs :
        (req : Request) (name override url auth : Text) (out : Output)
        → (send_chat world config req body model name override url auth out).raised ≡ false
    unfolding send_chat ollama_chat_sync ollama_chat_stream
    send_chat-runs req name override url auth out =
        go (is_text name ollama) (truthy (get_or (codes "stream") (bool false) body))
      where
        sync_runs : (ollama_chat_sync world config model body override out).raised ≡ false
        sync_runs =
            let (r, e) = ollama_request-some world config body model key good false out.thinking in
            ap (λ (o : Option (Dict Json)). (post_chat world config model override o out).raised) e
            ∙ post_chat-runs config model override r out

        stream_runs : (ollama_chat_stream world config model body override out).raised ≡ false
        stream_runs =
            let (r, e) = ollama_request-some world config body model key good true out.thinking in
            ap (λ (o : Option (Dict Json)). (stream_chat world config model override o out).raised)
              e
            ∙ stream_chat-runs config model override r out

        go :
            (n s : Bool)
            → (if n
                then (if s
                    then ollama_chat_stream world config model body override out
                    else ollama_chat_sync world config model body override out)
                else passthrough_post world config
                    (url ++ completions_path)
                    req.bytes
                    s
                    auth
                    out).raised
              ≡ false
        go true true = stream_runs
        go true false = sync_runs
        go false s = passthrough_post-runs config _ _ s auth out
