-- ===== src/Proxy/Translate.antt =====
-- python/propagul/mesh/proxy.py: the translation of chat requests and responses between OpenAI's format
-- and Ollama's.
use propagul.Prelude.{
  Bool, false, not, Option, none, some, List, [], ◌∷◌, if◌then◌else◌, Text, codes, or_else, ℤ, pos,
}
use propagul.Prelude.Dict.{Dict, lookup, insert}
use propagul.Json.{Json, int, str, bool, dict, list, as_dict}
use propagul.Agent.Reconcile.{is_text}
use propagul.Proxy.Values.{
  FloatAdd, get_or, truthy, below, add_values, is_hashable, has_key, add_key,
}

-- what `num_predict` is to be: none for no such option
unfoldable pub capped : Json → Option Bool → Option (Option Json)
capped max_tokens none = none
capped max_tokens (some low) = if low then some none else some (some max_tokens)

abbrev pub kept : Option Json → Option (Option Json)
kept none = none
kept (some j) = some (some j)

-- `_compute_num_predict`, with the set `_thinking_models`; none where it raises TypeError, as `in` does
-- for a model that is a list or a dict
unfoldable pub compute_num_predict : FloatAdd → List Json → Json → Json → ℤ → Option (Option Json)
compute_num_predict float_add thinking model max_tokens budget =
    if not (is_hashable model)
    then none
    else if has_key model thinking
    then kept (add_values float_add max_tokens (int budget))
    else capped max_tokens (below max_tokens 200)

-- `_register_thinking_model`, none where it raises TypeError
unfoldable pub register_thinking_model : Json → List Json → Option (List Json)
register_thinking_model model thinking =
    if not (truthy model)
    then some thinking
    else if is_hashable model
    then some (add_key model thinking)
    else none

-- `req.get("options", {})`
unfoldable pub options_of : Dict Json → Dict Json
options_of req = or_else (as_dict (get_or (codes "options") (dict []) req)) []

-- `req["options"] = req.get("options", {})`, and the option, if there is one
unfoldable pub put_option : Text → Option Json → Dict Json → Dict Json
put_option name none req = req
put_option name (some j) req = insert (codes "options") (dict (insert name j (options_of req))) req

-- the text "0" becomes the number
unfoldable pub put_keep_alive : Option Text → Dict Json → Dict Json
put_keep_alive none req = req
put_keep_alive (some v) req =
    insert (codes "keep_alive") (if is_text v (codes "0") then int (pos 0) else str v) req

abbrev pub int_of : Option ℤ → Option Json
int_of none = none
int_of (some n) = some (int n)

abbrev pub num_predict_of : FloatAdd → List Json → Json → ℤ → Option Json → Option (Option Json)
num_predict_of float_add thinking model budget none = some none
num_predict_of float_add thinking model budget (some j) =
    compute_num_predict float_add thinking model j budget

-- the options after `max_tokens`
unfoldable pub put_options : Dict Json → Option ℤ → Option Json → Dict Json → Dict Json
put_options body num_ctx num_predict req = put_option (codes "num_ctx") (int_of num_ctx) (
    put_option (codes "stop") (lookup (codes "stop") body) (
      put_option (codes "num_predict") num_predict (
        put_option (codes "top_p") (lookup (codes "top_p") body)
          (put_option (codes "temperature") (lookup (codes "temperature") body) req))))

-- `_translate_openai_to_ollama_chat`, none where it raises; the model is the one of the body
unfoldable pub translate_openai_to_ollama_chat :
    FloatAdd → List Json → Json → ℤ → Option Text → Option ℤ → Dict Json → Option (Dict Json)
translate_openai_to_ollama_chat float_add thinking model budget keep_alive num_ctx body =
    elim (num_predict_of float_add thinking model budget (lookup (codes "max_tokens") body)) [
      | none ↦ none
      | some num_predict ↦ some (
          put_options body num_ctx num_predict (
            put_keep_alive keep_alive (
              (codes "model", model)
              ∷ (codes "messages", get_or (codes "messages") (list []) body)
              ∷ (codes "stream", get_or (codes "stream") (bool false) body)
              ∷ [])))
    ]
