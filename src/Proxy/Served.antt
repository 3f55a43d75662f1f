-- ===== src/Proxy/Served.antt =====
-- The proxy answers every request that it reads.
use propagul.Prelude.{
  ℕ, ◌<◌, Bool, true, false, ◌||◌, not, Option, none, some, [], ◌∷◌, ◌++◌, arith, if◌then◌else◌,
  ltb, codes, length,
}
use propagul.Prelude.Dict.{Dict}
use propagul.Json.{Json, as_dict}
use propagul.Agent.Reconcile.{is_text}
use propagul.Agent.Commands.{ollama}
use propagul.Router.Fleet.{BackendTarget}
use propagul.Proxy.Validation.{Network}
use propagul.Proxy.Handlers.{World, Part, empty, response, json_error, Output, passthrough_post}
use propagul.Proxy.Chat.{
  Request, Backends, is_native, note, handle_local, with_router, acquire_node, release_node,
  at_target, cleared, handle_fleet, chosen, handle_target, model_of, handle_body,
  handle_chat_completions, strip_slashes,
}
use propagul.Proxy.Endpoints.{
  HttpRequest, Gets, without_query, answer, models_part, handle_models, stream_of,
  handle_completions, health, chat_request, handle_request, handle_connection,
}
use propagul.Proxy.Answers.{size, Answers, size-write, passthrough_post-Answers, send_chat-Answers}

pick-out :
    (p : Bool) (o : Output) (x y : Backends)
    → Answers o x.out
    → Answers o y.out
    → Answers o (if p then x else y).out
pick-out true o x y h k = h
pick-out false o x y h k = k

fallback-Answers :
    (o : Output) (routed local : Backends)
    → Answers o routed.out
    → Answers (cleared routed).out local.out
    → Answers o (if routed.out.raised then local else routed).out
fallback-Answers o routed local h k = ground (arith, h, k)

module _ (world : World) where
  answer-Answers : (part : Part) (b : Backends) → Answers b.out (answer world part b).out
  answer-Answers part b = ground (arith, size-write world (part ∷ []) b.out)

  handle_local-Answers :
      (now : ℕ) (req : Request) (body : Dict Json) (model : Json) (b : Backends)
      → Answers b.out (handle_local world now req body model b).out
  unfolding handle_local note
  handle_local-Answers now req body model b =
      let h =
        send_chat-Answers world b.config req body model b.config.backend_name []
          b.config.backend_url [] b.out in
      pick-out (not (ltb 0 (length b.config.backend_url))) b.out _ _
        (answer-Answers (json_error 503) b)
        (pick-out (not (is_text b.config.backend_name ollama || is_native b.config.backend_name))
          b.out _ _ (answer-Answers (json_error 501) b) (pick-out _ b.out _ _ h h))

  handle_fleet-Answers :
      (now : ℕ) (req : Request) (body : Dict Json) (model : Json) (t : BackendTarget) (b : Backends)
      → Answers b.out (handle_fleet world now req body model t b).out
  unfolding handle_fleet note
  handle_fleet-Answers now req body model t b =
      let url = strip_slashes t.backend_url in
      let routed =
        with_router (release_node t.node_id)
          (at_target world now req body model t (with_router (acquire_node t.node_id) b)) in
      fallback-Answers b.out routed (handle_local world now req body model (cleared routed))
        (send_chat-Answers world b.config req body model t.backend_name url url t.backend_auth
          b.out)
        (handle_local-Answers now req body model (cleared routed))

  handle_target-Answers :
      (now : ℕ) (req : Request) (body : Dict Json) (model : Json) (o : Option BackendTarget)
      (b : Backends)
      → Answers b.out (handle_target world now req body model o b).out
  unfolding handle_target
  handle_target-Answers now req body model none b = handle_local-Answers now req body model b
  handle_target-Answers now req body model (some t) b = handle_fleet-Answers now req body model t b

  handle_body-Answers :
      (network : Network) (now : ℕ) (req : Request) (o : Option (Dict Json)) (b : Backends)
      → Answers b.out (handle_body world network now req o b).out
  unfolding handle_body
  handle_body-Answers network now req none b = omega arith
  handle_body-Answers network now req (some body) b =
      handle_target-Answers now req body (model_of body) (chosen network now (model_of body) b) b

  handle_chat-Answers :
      (network : Network) (now : ℕ) (req : Request) (b : Backends)
      → Answers b.out (handle_chat_completions world network now req b).out
  unfolding handle_chat_completions
  handle_chat-Answers network now req b = go req.is_post req.json
    where
      go :
          (p : Bool) (j : Option Json)
          → Answers b.out
              (handle_chat_completions world network now
                (record req { is_post = p; json = j })
                b).out
      go false j = answer-Answers (json_error 400) b
      go true none = answer-Answers (json_error 400) b
      go true (some j) =
          handle_body-Answers network now (record req { is_post = true; json = some j }) (as_dict j)
            b

  handle_models-Answers :
      (gets : Gets) (req : HttpRequest) (b : Backends)
      → Answers b.out (handle_models world gets req b).out
  unfolding handle_models
  handle_models-Answers gets req b =
      let is_ollama = is_text b.config.backend_name ollama in
      let listed =
        answer world
          (models_part world is_ollama (
            gets
              (b.config.backend_url
                ++ (if is_ollama then codes "/api/tags" else codes "/v1/models"))
              b.config.backend_auth))
          b in
      let absent = answer world (json_error 503) b in
      let no_url = not (ltb 0 (length b.config.backend_url)) in
      pick-out (not (is_text req.method (codes "GET") || is_text req.method (codes "HEAD"))) b.out
        (answer world (json_error 405) b) (if no_url then absent else listed)
        (answer-Answers (json_error 405) b)
        (pick-out no_url b.out absent listed (answer-Answers (json_error 503) b)
          (answer-Answers _ b))

  handle_completions-Answers :
      (req : HttpRequest) (b : Backends) → Answers b.out (handle_completions world req b).out
  unfolding handle_completions
  handle_completions-Answers req b =
      let url = b.config.backend_url ++ codes "/v1/completions" in
      let passed = record b {
        out = passthrough_post world b.config url req.bytes (stream_of req.json) [] b.out;
      } in
      let unsupported = answer world (json_error 501) b in
      let sent = if is_native b.config.backend_name then passed else unsupported in
      let absent = answer world (json_error 503) b in
      let no_url = not (ltb 0 (length b.config.backend_url)) in
      pick-out (not (is_text req.method (codes "POST"))) b.out (answer world (json_error 405) b)
        (if no_url then absent else sent) (answer-Answers (json_error 405) b)
        (pick-out no_url b.out absent sent (answer-Answers (json_error 503) b) (
          pick-out (is_native b.config.backend_name) b.out passed unsupported
            (passthrough_post-Answers world b.config url req.bytes (stream_of req.json) [] b.out)
            (answer-Answers (json_error 501) b)))

  handle_request-Answers :
      (network : Network) (gets : Gets) (now : ℕ) (req : HttpRequest) (b : Backends)
      → Answers b.out (handle_request world network gets now req b).out
  unfolding handle_request
  handle_request-Answers network gets now req b =
      let path = without_query req.path in
      let e₁ = is_text path (codes "/v1/models") || is_text path (codes "/v1/models/") in
      let e₂ = is_text path (codes "/v1/chat/completions") in
      let e₃ = is_text path (codes "/v1/completions") in
      let e₄ = is_text path (codes "/health") || is_text path (codes "/") in
      let models = handle_models world gets req b in
      let chat = handle_chat_completions world network now (chat_request req) b in
      let texts = handle_completions world req b in
      let healthy = answer world (response 200 (health b)) b in
      let unknown = answer world (json_error 404) b in
      let r₄ = if e₄ then healthy else unknown in
      let r₃ = if e₃ then texts else r₄ in
      let r₂ = if e₂ then chat else r₃ in
      let r₁ = if e₁ then models else r₂ in
      pick-out (is_text req.method (codes "OPTIONS")) b.out (answer world empty b) r₁
        (answer-Answers empty b)
        (pick-out e₁ b.out models r₂ (handle_models-Answers gets req b) (
          pick-out e₂ b.out chat r₃ (handle_chat-Answers network now (chat_request req) b) (
            pick-out e₃ b.out texts r₄ (handle_completions-Answers req b) (
              pick-out e₄ b.out healthy unknown (answer-Answers (response 200 (health b)) b)
                (answer-Answers (json_error 404) b)))))

  -- Whatever a request that was read asks for, the backends answer and the client takes, something is
  -- written for it.
  pub handle_connection-answers :
      (network : Network) (gets : Gets) (now : ℕ) (req : HttpRequest) (b : Backends)
      → size b.out < size (handle_connection world network gets now (some req) b).out
  unfolding handle_connection
  handle_connection-answers network gets now req b =
      let handled = handle_request world network gets now req b in
      ground (
        arith,
        handle_request-Answers network gets now req b,
        size-write world (json_error 500 ∷ []) handled.out,
      )
