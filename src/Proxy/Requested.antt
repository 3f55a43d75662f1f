-- ===== src/Proxy/Requested.antt =====
-- What a translated chat request asks of Ollama.
use propagul.Prelude.{
  ◌≡◌, refl, sym, ap, ◌∙◌, ℕ_discrete, Bool, true, false, ◌||◌, not, Option, none, some, List, [],
  ◌∷◌, ◌↔◌, arith, ite, Text, codes, dec_text, or_else, ℤ, if_pos,
}
use propagul.Prelude.Dict.{Dict, lookup, insert, lookup-insert}
use propagul.Json.{
  Json, null, bool, int, float, str, arr, obj, dict, list, to_dict, of_dict, as_dict, as_dict-dict,
  as_int,
}
use propagul.Proxy.Values.{FloatAdd, get_or, is_number, is_hashable, below, add_values, add_numbers}
use propagul.Proxy.Translate.{
  capped, compute_num_predict, options_of, put_option, put_keep_alive, int_of, num_predict_of,
  put_options, translate_openai_to_ollama_chat,
}

options_of-insert : (d req : Dict Json) → options_of (insert (codes "options") (dict d) req) ≡ d
unfolding options_of
options_of-insert d req =
    ap (λ (o : Option Json). or_else (as_dict (or_else o (dict []))) [])
      (lookup-insert (codes "options") (codes "options") (dict d) req
        ∙ if_pos (dec_text (codes "options") (codes "options")) refl (some (dict d))
            (lookup (codes "options") req))
    ∙ ap (λ (o : Option (Dict Json)). or_else o []) (as_dict-dict d)

-- An option that is put in is read, and the others as before.
options_of-put_option :
    (name other : Text) (o : Option Json) (req : Dict Json)
    → lookup other (options_of (put_option name o req)) ≡ elim o [
      | none ↦ lookup other (options_of req)
      | some j ↦ ite (dec_text name other) (some j) (lookup other (options_of req))
    ]
unfolding put_option
options_of-put_option name other none req = refl
options_of-put_option name other (some j) req =
    ap (lookup other) (options_of-insert (insert name j (options_of req)) req)
    ∙ lookup-insert name other j (options_of req)

-- The options before any is put in.
options_of_none :
    (keep_alive : Option Text) (model messages stream : Json)
    → options_of (
        put_keep_alive keep_alive
          ((codes "model", model) ∷ (codes "messages", messages) ∷ (codes "stream", stream) ∷ []))
      ≡ []
unfolding options_of put_keep_alive lookup insert dec_text ℕ_discrete as_dict to_dict of_dict
options_of_none none model messages stream = refl
options_of_none (some v) model messages stream = refl

lookup_nil : (name : Text) → lookup {V = Json} name [] ≡ none
unfolding lookup
lookup_nil name = refl

-- the option that a request asks for under a name
abbrev pub option_for : Dict Json → Option ℤ → Option Json → Text → Option Json
option_for body num_ctx num_predict name = ite (dec_text (codes "num_ctx") name) (int_of num_ctx) (
    ite (dec_text (codes "num_predict") name) num_predict (
      ite (dec_text (codes "stop") name) (lookup (codes "stop") body) (
        ite (dec_text (codes "top_p") name) (lookup (codes "top_p") body)
          (ite (dec_text (codes "temperature") name) (lookup (codes "temperature") body) none))))

options_of-put_options :
    (body req : Dict Json) (num_ctx : Option ℤ) (num_predict : Option Json) (name : Text)
    → lookup name (options_of req) ≡ none
    → lookup name (options_of (put_options body num_ctx num_predict req))
      ≡ option_for body num_ctx num_predict name
unfolding put_options
options_of-put_options body req num_ctx num_predict name e =
    let temperature = codes "temperature" in
    let req₁ = put_option temperature (lookup temperature body) req in
    let top_p = codes "top_p" in
    let req₂ = put_option top_p (lookup top_p body) req₁ in
    let req₃ = put_option (codes "num_predict") num_predict req₂ in
    let stop = codes "stop" in
    let req₄ = put_option stop (lookup stop body) req₃ in
    ground (
      arith,
      e,
      options_of-put_option temperature name (lookup temperature body) req,
      options_of-put_option top_p name (lookup top_p body) req₁,
      options_of-put_option (codes "num_predict") name num_predict req₂,
      options_of-put_option stop name (lookup stop body) req₃,
      options_of-put_option (codes "num_ctx") name (int_of num_ctx) req₄,
    )

-- whether `max_tokens` is there and is not a number
abbrev pub is_bad : Option Json → Bool
is_bad none = false
is_bad (some j) = not (is_number j)

-- whether `max_tokens` is there, and is not a number or comes with a model that cannot be looked up
abbrev pub is_refused : Json → Option Json → Bool
is_refused model none = false
is_refused model (some j) = not (is_hashable model) || not (is_number j)

num_predict_of-none :
    (float_add : FloatAdd) (thinking : List Json) (model : Json) (budget : ℤ) (o : Option Json)
    → (num_predict_of float_add thinking model budget o ≡ none) ↔ (is_refused model o ≡ true)
unfolding compute_num_predict capped add_values add_numbers below as_int
num_predict_of-none float_add thinking model budget none = ground arith
num_predict_of-none float_add thinking model budget (some null) = ground arith
num_predict_of-none float_add thinking model budget (some (bool true)) = ground arith
num_predict_of-none float_add thinking model budget (some (bool false)) = ground arith
num_predict_of-none float_add thinking model budget (some (int z)) = ground arith
num_predict_of-none float_add thinking model budget (some (float z k)) = ground arith
num_predict_of-none float_add thinking model budget (some (str s)) = ground arith
num_predict_of-none float_add thinking model budget (some (arr js)) = ground arith
num_predict_of-none float_add thinking model budget (some (obj fs)) = ground arith

-- A chat request cannot be translated exactly if it has a max_tokens, null included, and this is no
-- number or its model is a list or a dict.
pub translate-none_iff :
    (float_add : FloatAdd) (thinking : List Json) (model : Json) (budget : ℤ)
    (keep_alive : Option Text) (num_ctx : Option ℤ) (body : Dict Json)
    → (translate_openai_to_ollama_chat float_add thinking model budget keep_alive num_ctx body
        ≡ none)
      ↔ (is_refused model (lookup (codes "max_tokens") body) ≡ true)
unfolding translate_openai_to_ollama_chat
translate-none_iff float_add thinking model budget keep_alive num_ctx body =
    let o = num_predict_of float_add thinking model budget (lookup (codes "max_tokens") body) in
    let same =
      num_predict_of-none float_add thinking model budget (lookup (codes "max_tokens") body) in
    let same' = go o in (λ e. same.0 (same'.0 e), λ e. same'.1 (same.1 e))
  where
    go :
        (o : Option (Option Json))
        → ((elim o [
          | none ↦ none
          | some num_predict ↦ some (
              put_options body num_ctx num_predict (
                put_keep_alive keep_alive (
                  (codes "model", model)
                  ∷ (codes "messages", get_or (codes "messages") (list []) body)
                  ∷ (codes "stream", get_or (codes "stream") (bool false) body)
                  ∷ [])))
        ])
            ≡ none)
          ↔ (o ≡ none)
    go none = (λ e. refl, λ e. refl)
    go (some n) = (λ e. cc, λ e. cc)

-- A translated request asks for exactly these options: the context length if there is one, the
-- prediction that its max_tokens comes to, and temperature, top_p and stop as in the body.
pub lookup-translate :
    (float_add : FloatAdd) (thinking : List Json) (model : Json) (budget : ℤ)
    (keep_alive : Option Text) (num_ctx : Option ℤ) (body req : Dict Json)
    (num_predict : Option Json) (name : Text)
    → num_predict_of float_add thinking model budget (lookup (codes "max_tokens") body)
      ≡ some num_predict
    → translate_openai_to_ollama_chat float_add thinking model budget keep_alive num_ctx body
      ≡ some req
    → lookup name (options_of req) ≡ option_for body num_ctx num_predict name
unfolding translate_openai_to_ollama_chat
lookup-translate float_add thinking model budget keep_alive num_ctx body req num_predict name e h =
    let start = put_keep_alive keep_alive (
      (codes "model", model)
      ∷ (codes "messages", get_or (codes "messages") (list []) body)
      ∷ (codes "stream", get_or (codes "stream") (bool false) body)
      ∷ []) in
    let built : some (put_options body num_ctx num_predict start) ≡ some req =
      sym (
        ap
          (λ (o : Option (Option Json)). elim o [
            | none ↦ none
            | some n ↦ some (put_options body num_ctx n start)
          ])
          e)
      ∙ h in
    ap (λ r. lookup name (options_of r)) (sym (some_inj built))
    ∙ options_of-put_options body start num_ctx num_predict name (
        ap (lookup name) (
          options_of_none keep_alive model (get_or (codes "messages") (list []) body)
            (get_or (codes "stream") (bool false) body))
        ∙ lookup_nil name)
  where
    some_inj : {a b : Dict Json} → some a ≡ some b → a ≡ b
    some_inj e = cc
