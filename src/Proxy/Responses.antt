-- ===== src/Proxy/Responses.antt =====
-- python/propagul/mesh/proxy.py: the translation of Ollama's responses and of the chunks of its streams
-- into OpenAI's format. The stamps are what the clock gives: the id and the time of creation.
use propagul.Prelude.{Bool, Option, none, some, List, [], ◌∷◌, if◌then◌else◌, Text, codes, pos}
use propagul.Prelude.Dict.{Dict, insert}
use propagul.Json.{Json, int, str, null, dict, list, as_dict}
use propagul.Proxy.Values.{FloatAdd, get_or, truthy, add_values}
use propagul.Proxy.Translate.{register_thinking_model}

pub record Stamp : Type 0 where
  pub id : Text
  pub created : Json

-- the role and the content of a response's message
abbrev pub plain_message : Dict Json → Dict Json
plain_message message =
    (codes "role", get_or (codes "role") (str (codes "assistant")) message)
    ∷ (codes "content", get_or (codes "content") (str []) message)
    ∷ []

-- the thinking of a message, if there is any that is true
abbrev pub thinks : Dict Json → Bool
thinks message = truthy (get_or (codes "thinking") null message)

abbrev pub with_thinking : Dict Json → Dict Json → Dict Json
with_thinking message target =
    if thinks message
    then insert (codes "thinking") (get_or (codes "thinking") null message) target
    else target

-- the set `_thinking_models` after a message, none where the registration raises
abbrev pub registered : Dict Json → Json → List Json → Option (List Json)
registered message model thinking =
    if thinks message then register_thinking_model model thinking else some thinking

-- the response, and its message
abbrev pub completion : Stamp → Json → Dict Json → Dict Json → Json → Json
completion stamp model resp message total = dict (
    (codes "id", str stamp.id)
    ∷ (codes "object", str (codes "chat.completion"))
    ∷ (codes "created", stamp.created)
    ∷ (codes "model", model)
    ∷ (
      codes "choices",
      list (
          dict (
            (codes "index", int (pos 0))
            ∷ (codes "message", dict (with_thinking message (plain_message message)))
            ∷ (
              codes "finish_reason",
              if truthy (get_or (codes "done") null resp) then str (codes "stop") else null,
            )
            ∷ [])
          ∷ []),
    )
    ∷ (
      codes "usage",
      dict (
          (codes "prompt_tokens", get_or (codes "prompt_eval_count") (int (pos 0)) resp)
          ∷ (codes "completion_tokens", get_or (codes "eval_count") (int (pos 0)) resp)
          ∷ (codes "total_tokens", total)
          ∷ []),
    )
    ∷ [])

-- The two counts are added after the model has been registered.
unfoldable pub translate_message :
    FloatAdd → Stamp → Json → List Json → Dict Json → Option (Dict Json) → Option Json × List Json
translate_message float_add stamp model thinking resp none = (none, thinking)
translate_message float_add stamp model thinking resp (some message) =
    elim (registered message model thinking) [
      | none ↦ (none, thinking)
      | some thinking' ↦ (
        elim (add_values float_add (get_or (codes "prompt_eval_count") (int (pos 0)) resp)
            (get_or (codes "eval_count") (int (pos 0)) resp)) [
              | none ↦ none
              | some total ↦ some (completion stamp model resp message total)
            ],
        thinking',
      )
    ]

-- `_translate_ollama_response_to_openai`, none where it raises, and the set `_thinking_models`
unfoldable pub translate_ollama_response_to_openai :
    FloatAdd → Stamp → Json → List Json → Option (Dict Json) → Option Json × List Json
translate_ollama_response_to_openai float_add stamp model thinking none = (none, thinking)
translate_ollama_response_to_openai float_add stamp model thinking (some resp) =
    translate_message float_add stamp model thinking resp
      (as_dict (get_or (codes "message") (dict []) resp))

-- what a chunk becomes: the end of the stream, or an event
pub data Chunk : Type 0 where
  finished : Chunk
  delta : Json → Chunk

abbrev pub chunk_event : Stamp → Json → Dict Json → Json
chunk_event stamp model message = dict (
    (codes "id", str stamp.id)
    ∷ (codes "object", str (codes "chat.completion.chunk"))
    ∷ (codes "created", stamp.created)
    ∷ (codes "model", model)
    ∷ (
      codes "choices",
      list (
          dict (
            (codes "index", int (pos 0))
            ∷ (
              codes "delta",
              dict (
                  with_thinking message
                    ((codes "content", get_or (codes "content") (str []) message) ∷ [])),
            )
            ∷ (codes "finish_reason", null)
            ∷ [])
          ∷ []),
    )
    ∷ [])

unfoldable pub translate_delta :
    Stamp → Json → List Json → Option (Dict Json) → Option Chunk × List Json
translate_delta stamp model thinking none = (none, thinking)
translate_delta stamp model thinking (some message) = elim (registered message model thinking) [
  | none ↦ (none, thinking)
  | some thinking' ↦ (some (delta (chunk_event stamp model message)), thinking')
]

-- `_translate_ollama_stream_chunk_to_openai`, none where it raises
unfoldable pub translate_ollama_stream_chunk_to_openai :
    Stamp → Json → List Json → Option (Dict Json) → Option Chunk × List Json
translate_ollama_stream_chunk_to_openai stamp model thinking none = (none, thinking)
translate_ollama_stream_chunk_to_openai stamp model thinking (some chunk) =
    if truthy (get_or (codes "done") null chunk)
    then (some finished, thinking)
    else translate_delta stamp model thinking (as_dict (get_or (codes "message") (dict []) chunk))

-- the item of one model; a model that is no dict has no `get`
unfoldable pub model_item : Json → Option (Dict Json) → Option Json
model_item created none = none
model_item created (some m) = some (
    dict (
      (codes "id", get_or (codes "name") (str (codes "unknown")) m)
      ∷ (codes "object", str (codes "model"))
      ∷ (codes "created", created)
      ∷ (codes "owned_by", str (codes "local"))
      ∷ []))

abbrev pub with_item : Option Json → Option (List Json) → Option (List Json)
with_item none items = none
with_item (some item) none = none
with_item (some item) (some items) = some (item ∷ items)

unfoldable pub model_items : Json → List Json → Option (List Json)
model_items created [] = some []
model_items created (m ∷ rest) =
    with_item (model_item created (as_dict m)) (model_items created rest)

-- `_translate_ollama_models_to_openai` of a dict whose models are a list
unfoldable pub translate_ollama_models_to_openai : Json → List Json → Option Json
translate_ollama_models_to_openai created models = elim (model_items created models) [
  | none ↦ none
  | some items ↦
      some (dict ((codes "object", str (codes "list")) ∷ (codes "data", list items) ∷ []))
]
