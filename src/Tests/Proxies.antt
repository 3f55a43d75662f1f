-- ===== src/Tests/Proxies.antt =====
-- The theorems on the proxy, at one fleet target.
use propagul.Prelude.{
  dec_int, ◌<◌, ◌≡◌, ◌≢◌, ◌↔◌, refl, true, false, none, some, [], ◌∷◌, ◌++◌, arith, pos, codes,
  length, dec_text, ℕ_discrete, Text,
}
use propagul.Prelude.Finite.{member}
use propagul.Prelude.Dict.{Dict, lookup, insert}
use propagul.Json.{
  to_list, Json, null, bool, int, list, of_list, as_int, str, dict, to_dict, of_dict, as_dict,
}
use propagul.Router.Fleet.{BackendTarget, is_stale, nodes_with_model, nodes_by_free_vram}
use propagul.Router.Select.{select, choose}
use propagul.Router.EventLog.{RoutingEventLog}
use propagul.Proxy.Validation.{
  Address, Network, accepted, link_local, validate_backend_url, validate_backend_url-link_local,
  validate_host, validate_address,
}
use propagul.Prelude.Sorting.{sort_by, insert_by}
use propagul.Proxy.Values.{FloatAdd, get_or, truthy, below, is_hashable, has_key}
use propagul.Proxy.Translate.{
  capped, compute_num_predict, options_of, num_predict_of, put_option, put_keep_alive, put_options,
  translate_openai_to_ollama_chat,
}
use propagul.Proxy.Requested.{is_bad, is_refused, option_for, translate-none_iff, lookup-translate}
use propagul.Proxy.Handlers.{World, json_error, ollama_chat_sync, post_chat, num_ctx_for, write}
use propagul.Proxy.Chat.{
  Request, Backends, strip_slashes, handle_target, handle_chat_completions, handle_body,
  handle_fleet, handle_local, send_chat, note, select_any, chosen,
}
use propagul.Proxy.Balance.{active, active-handle_chat_completions}
use propagul.Proxy.Endpoints.{HttpRequest, without_query, handle_request, handle_connection}
use propagul.Proxy.Answers.{size}
use propagul.Proxy.Served.{handle_connection-answers}
use propagul.Proxy.Stays.{affinity, handle_target-failed}

-- an address of 169.254.0.0/16
abbrev metadata : Address
metadata = record { is_loopback = false; is_private = true; is_link_local = true; is_cgnat = false }

-- every host is that address
abbrev network : Network
network = record { hostname = λ url. some url; ip_address = λ host. some metadata }

all_private :
    (h : Text) (b : Address)
    → network.ip_address h ≡ some b
    → b.is_link_local ≡ true
    → b.is_private ≡ true
all_private h b e l = ground (arith, e, l)

validate_backend_url-link_local_example :
    (validate_backend_url network (codes "8.8.8.8") ≢ link_local)
    × (validate_backend_url network (codes "169.254.169.254") ≡ accepted)
validate_backend_url-link_local_example =
    validate_backend_url-link_local network (codes "169.254.169.254") (codes "8.8.8.8")
      (codes "169.254.169.254") metadata all_private refl refl refl

abbrev sum : FloatAdd
sum a b = a

abbrev phi : Text
phi = codes "phi"

-- what a client sends that sets no limit
abbrev unlimited : Dict Json
unlimited = (codes "model", str phi) ∷ (codes "max_tokens", null) ∷ []

translate-none_iff_example :
    (translate_openai_to_ollama_chat sum [] (str phi) (pos 4096) none none unlimited ≡ none)
    ↔ (is_refused (str phi) (lookup (codes "max_tokens") unlimited) ≡ true)
translate-none_iff_example = translate-none_iff sum [] (str phi) (pos 4096) none none unlimited

abbrev limited : Dict Json
limited = (codes "model", str phi) ∷ (codes "max_tokens", int (pos 300)) ∷ []

program : Unit {0}
unfolding dec_text ℕ_discrete member lookup insert to_dict of_dict of_list as_dict as_int below
    capped compute_num_predict options_of put_option put_keep_alive put_options is_hashable has_key
    translate_openai_to_ollama_chat truthy strip_slashes
program = tt

limited_predict :
    num_predict_of sum [] (str phi) (pos 4096) (lookup (codes "max_tokens") limited)
    ≡ some (some (int (pos 300)))
unfolding program
limited_predict = refl

abbrev asked : Dict Json
asked =
    (codes "model", str phi)
    ∷ (codes "messages", list [])
    ∷ (codes "stream", bool false)
    ∷ (
      codes "options",
      dict ((codes "num_predict", int (pos 300)) ∷ (codes "num_ctx", int (pos 8192)) ∷ []),
    )
    ∷ []

limited-asked :
    translate_openai_to_ollama_chat sum [] (str phi) (pos 4096) none (some (pos 8192)) limited
    ≡ some asked
unfolding program
limited-asked = refl

lookup-translate_example :
    lookup (codes "num_ctx") (options_of asked)
    ≡ option_for limited (some (pos 8192)) (some (int (pos 300))) (codes "num_ctx")
lookup-translate_example =
    lookup-translate sum [] (str phi) (pos 4096) none (some (pos 8192)) limited asked
      (some (int (pos 300))) (codes "num_ctx") limited_predict limited-asked

abbrev target : BackendTarget
target = record {
  node_id = codes "big";
  backend_name = codes "ollama";
  backend_url = codes "http://10.0.0.1:11434";
  models = phi ∷ [];
  free_vram = pos 12000;
  backend_auth = [];
}

-- no backend answers; the client takes everything
abbrev world : World
world = record {
  post = λ url auth sent. none;
  open_stream = λ url auth sent. none;
  drains = λ parts. true;
  stamp = record { id = []; created = null };
  float_add = sum;
}

abbrev empty_log : RoutingEventLog
empty_log = record { events = []; maxlen = 50 }

abbrev backends : Backends
backends = record {
  config = record {
    backend_name = codes "ollama";
    backend_url = codes "http://localhost:11434";
    backend_auth = [];
    thinking_budget = pos 4096;
    settings = record {
      ollama_keep_alive = none;
      default_num_ctx = none;
      model_num_ctx_overrides = [];
    };
  };
  router = some (record {
    fleet = record { targets = target ∷ []; updated_at = 1000 };
    local_node_id = codes "me";
    tracker = (codes "big", 1) ∷ [];
  });
  routing_log = some empty_log;
  local_node_id = codes "me";
  out = record { parts = []; thinking = []; raised = false };
}

-- a request whose model is a number
abbrev request : Request
request = record {
  is_post = true;
  bytes = [];
  json = some (dict ((codes "model", int (pos 5)) ∷ []));
}

active-handle_chat_completions_example :
    active (handle_chat_completions world network 2000 request backends).router (codes "big")
    ≡ active backends.router (codes "big")
active-handle_chat_completions_example =
    active-handle_chat_completions world network 2000 request backends (codes "big")

plain_limited :
    (is_bad (lookup (codes "max_tokens") limited) ≡ false)
    × (truthy (get_or (codes "stream") (bool false) limited) ≡ false)
    × (0 < length (strip_slashes target.backend_url))
unfolding program
plain_limited = (refl, refl, omega arith)

hashable_phi : is_hashable (str phi) ≡ true
unfolding is_hashable
hashable_phi = refl

handle_target-failed_example :
    ((handle_target world 2000 request limited (str phi) (some target) backends).out.parts
      ≡ backends.out.parts ++ (json_error 502 ∷ []))
    × ((handle_target world 2000 request limited (str phi) (some target) backends).routing_log
        ≡ some (affinity 2000 (str phi) target empty_log))
handle_target-failed_example =
    handle_target-failed world 2000 request limited (str phi) target backends empty_log
      (λ parts. refl) hashable_phi plain_limited.0 plain_limited.1 plain_limited.2
      (λ path auth sent. refl) refl

-- a request whose model is a list
abbrev odd : HttpRequest
odd = record {
  method = codes "POST";
  path = codes "/v1/chat/completions";
  bytes = [];
  json = some (dict ((codes "model", list (null ∷ [])) ∷ []));
}

handle_connection-answers_example :
    size backends.out
    < size (handle_connection world network (λ url auth. none) 2000 (some odd) backends).out
handle_connection-answers_example =
    handle_connection-answers world network (λ url auth. none) 2000 odd backends

odd_program : Unit {0}
unfolding program handle_connection handle_request handle_chat_completions handle_body handle_target
    handle_fleet handle_local send_chat ollama_chat_sync post_chat num_ctx_for write note to_list
    without_query select_any select choose is_stale nodes_with_model nodes_by_free_vram
    validate_backend_url validate_host validate_address sort_by insert_by dec_int
odd_program = tt

-- A model that is a list is routed to the fleet, where it raises, as it does locally, and is answered
-- with 500; a model that is a number is routed to the target with the most free VRAM.
odd_runs :
    ((handle_connection world network (λ url auth. none) 2000 (some odd) backends).out.parts
      ≡ json_error 500 ∷ [])
    × (chosen network 2000 (int (pos 5)) backends ≡ some target)
unfolding odd_program
odd_runs = (refl, refl)
