-- ===== src/Proxy/Balance.antt =====
-- The tracker of active connections is balanced by every request.
use propagul.Prelude.{
  ℕ, ◌≡◌, refl, ap, ◌∙◌, Bool, true, false, ◌||◌, not, Option, none, some, [], ◌∷◌, arith,
  if◌then◌else◌, ltb, Text, codes, length,
}
use propagul.Prelude.Dict.{Dict}
use propagul.Json.{Json, as_dict}
use propagul.Proxy.Values.{truthy}
use propagul.Router.Fleet.{BackendTarget}
use propagul.Router.Tracker.{count, acquire, count-acquire, count-release}
use propagul.Router.Select.{Router}
use propagul.Proxy.Validation.{Network}
use propagul.Proxy.Handlers.{World, json_error, write, or_default}
use propagul.Agent.Reconcile.{is_text}
use propagul.Agent.Commands.{ollama}
use propagul.Proxy.Chat.{
  is_native, Request, Backends, send_chat, note, handle_local, changed, with_router, acquire_node,
  release_node, at_target, cleared, handle_fleet, chosen, handle_target, model_of, handle_body,
  handle_chat_completions,
}

-- the active connections to a node
unfoldable pub active : Option Router → Text → ℕ
active none n = 0
active (some r) n = count r.tracker n

router-note :
    (now : ℕ) (model : Json) (node backend reason : Text) (b : Backends)
    → (note now model node backend reason b).router ≡ b.router
unfolding note
router-note now model node backend reason b = refl

router_pick :
    (p q s : Bool) (w x y z : Backends) (r : Option Router)
    → w.router ≡ r
    → x.router ≡ r
    → y.router ≡ r
    → z.router ≡ r
    → (if p then w else if q then x else if s then y else z).router ≡ r
router_pick p q s w x y z r e₁ e₂ e₃ e₄ = ground arith

router-handle_local :
    (world : World) (now : ℕ) (req : Request) (body : Dict Json) (model : Json) (b : Backends)
    → (handle_local world now req body model b).router ≡ b.router
unfolding handle_local
router-handle_local world now req body model b =
    router_pick (not (ltb 0 (length b.config.backend_url)))
      (not (is_text b.config.backend_name ollama || is_native b.config.backend_name))
      (sent.out.raised || not (truthy model))
      (record b { out = write world (json_error 503 ∷ []) b.out })
      (record b { out = write world (json_error 501 ∷ []) b.out }) sent noted b.router refl refl
      refl
      (router-note now model (or_default b.local_node_id (codes "local"))
        (or_default b.config.backend_name (codes "unknown")) (codes "local_fallback") sent)
  where
    sent : Backends
    sent = record b {
      out =
          send_chat world b.config req body model b.config.backend_name [] b.config.backend_url []
            b.out;
    }

    noted : Backends
    noted =
        note now model (or_default b.local_node_id (codes "local"))
          (or_default b.config.backend_name (codes "unknown")) (codes "local_fallback") sent

active-routed :
    (o : Option Router) (node n : Text)
    → active (changed (release_node node) (changed (acquire_node node) o)) n ≡ active o n
unfolding active
active-routed none node n = refl
active-routed (some r) node n =
    ground (arith, count-release (acquire r.tracker node) node n, count-acquire r.tracker node n)

active-handle_fleet :
    (world : World) (now : ℕ) (req : Request) (body : Dict Json) (model : Json) (t : BackendTarget)
    (b : Backends) (n : Text)
    → active (handle_fleet world now req body model t b).router n ≡ active b.router n
unfolding handle_fleet
active-handle_fleet world now req body model t b n = go routed.out.raised
  where
    opened : Backends
    opened = with_router (acquire_node t.node_id) b

    routed : Backends
    routed = with_router (release_node t.node_id) (at_target world now req body model t opened)

    balanced : active routed.router n ≡ active b.router n
    balanced =
        ap (λ o. active (changed (release_node t.node_id) o) n)
          (router-note now model t.node_id t.backend_name _ _)
        ∙ active-routed b.router t.node_id n

    go :
        (raised : Bool)
        → active
            (if raised
              then handle_local world now req body model (cleared routed)
              else routed).router
            n
          ≡ active b.router n
    go true =
        ap (λ o. active o n) (router-handle_local world now req body model (cleared routed))
        ∙ balanced
    go false = balanced

active-handle_target :
    (world : World) (now : ℕ) (req : Request) (body : Dict Json) (model : Json)
    (o : Option BackendTarget) (b : Backends) (n : Text)
    → active (handle_target world now req body model o b).router n ≡ active b.router n
unfolding handle_target
active-handle_target world now req body model none b n =
    ap (λ o. active o n) (router-handle_local world now req body model b)
active-handle_target world now req body model (some t) b n =
    active-handle_fleet world now req body model t b n

active-handle_body :
    (world : World) (network : Network) (now : ℕ) (req : Request) (o : Option (Dict Json))
    (b : Backends) (n : Text)
    → active (handle_body world network now req o b).router n ≡ active b.router n
unfolding handle_body
active-handle_body world network now req none b n = refl
active-handle_body world network now req (some body) b n =
    active-handle_target world now req body (model_of body) (chosen network now (model_of body) b) b
      n

-- Whatever a chat request is, the backends answer and the client takes, also where the handler
-- raises, every node has after it as many active connections as before.
pub active-handle_chat_completions :
    (world : World) (network : Network) (now : ℕ) (req : Request) (b : Backends) (n : Text)
    → active (handle_chat_completions world network now req b).router n ≡ active b.router n
unfolding handle_chat_completions
active-handle_chat_completions world network now req b n = go req.is_post req.json
  where
    go :
        (p : Bool) (j : Option Json)
        → active
            (handle_chat_completions world network now
              (record req { is_post = p; json = j })
              b).router
            n
          ≡ active b.router n
    go false j = refl
    go true none = refl
    go true (some j) =
        active-handle_body world network now (record req { is_post = true; json = some j })
          (as_dict j) b n
