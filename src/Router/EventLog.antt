-- ===== src/Router/EventLog.antt =====
-- python/propagul/mesh/router.py: `RoutingEventLog`.
use mathlib.Core.List.{append-nil, append_assoc}
use propagul.Json.{Json}
use propagul.Prelude.{
  ℕ, zero, suc, ◌+◌, ◌-◌, ◌≤◌, ◌<◌, ◌≡◌, refl, sym, ap, ◌∙◌, List, [], ◌∷◌, ◌++◌, arith,
  if◌then◌else◌, ltb, Text, length, drop, length-append, length-drop, Bool-cases, inl, inr, ltb→lt,
}

-- a routing decision, with the model that the request names, whatever it is; the time is in whole ticks of the clock
pub record RoutingEvent : Type 0 where
  pub timestamp : ℕ
  pub model : Json
  pub target_node : Text
  pub target_backend : Text
  pub reason : Text

pub record RoutingEventLog : Type 0 where
  pub events : List RoutingEvent
  pub maxlen : ℕ

-- `xs[-n:]`: the last `n` items, and the whole list for `n = 0`
unfoldable pub last_slice {ℓ} : {A : Type ℓ} → ℕ → List A → List A
last_slice zero xs = xs
last_slice (suc n) xs = drop (length xs - suc n) xs

unfoldable pub record_event : RoutingEventLog → RoutingEvent → RoutingEventLog
record_event log event =
    let events = log.events ++ event ∷ [] in
    record log {
      events = if ltb log.maxlen (length events) then last_slice log.maxlen events else events;
    }

-- the events, and the cleared log
unfoldable pub drain : RoutingEventLog → List RoutingEvent × RoutingEventLog
drain log = (log.events, record log { events = [] })

unfoldable pub record_all : RoutingEventLog → List RoutingEvent → RoutingEventLog
record_all log [] = log
record_all log (event ∷ rest) = record_all (record_event log event) rest

-- the last `n` items
abbrev pub last {ℓ} : {A : Type ℓ} → ℕ → List A → List A
last n xs = drop (length xs - n) xs

module _ {ℓ} {A : Type ℓ} where
  drop-snoc :
      (k : ℕ) (xs : List A) (x : A) → k ≤ length xs → drop k (xs ++ x ∷ []) ≡ drop k xs ++ x ∷ []
  drop-snoc zero xs x h = refl
  drop-snoc (suc k) [] x h = absurd (omega arith)
  drop-snoc (suc k) (y ∷ ys) x h = drop-snoc k ys x (omega arith)

  drop-drop : (j k : ℕ) (xs : List A) → drop j (drop k xs) ≡ drop (k + j) xs
  drop-drop j zero xs = ap (λ n. drop n xs) (omega arith)
  drop-drop zero (suc k) [] = nil (suc k + 0)
    where
      nil : (n : ℕ) → [] ≡ drop {A = A} n []
      nil zero = refl
      nil (suc n) = refl
  drop-drop (suc j) (suc k) [] = nil (suc k + suc j)
    where
      nil : (n : ℕ) → [] ≡ drop {A = A} n []
      nil zero = refl
      nil (suc n) = refl
  drop-drop j (suc k) (x ∷ xs) = drop-drop j k xs ∙ ap (λ n. drop n (x ∷ xs)) suc_out
    where
      suc_out : suc (k + j) ≡ suc k + j
      suc_out = omega arith

  last_slice_pos : (n : ℕ) (xs : List A) → 0 < n → last_slice n xs ≡ last n xs
  unfolding last_slice
  last_slice_pos zero xs h = absurd (omega arith)
  last_slice_pos (suc n) xs h = refl

  trimmed :
      (n : ℕ) (xs : List A) (x : A) (zs : List A)
      → zs ≡ drop (length xs - n) (xs ++ x ∷ [])
      → (if ltb n (length zs) then last n zs else zs) ≡ last n (xs ++ x ∷ [])
  trimmed n xs x zs e =
      let ys = xs ++ x ∷ [] in
      let k = length xs - n in
      let long = length-append xs (x ∷ []) in
      let short : length zs ≡ length ys - k = ap length e ∙ length-drop k ys in
      elim (Bool-cases (ltb n (length zs))) [
        | inl more ↦ rw more (
            ap (drop (length zs - n)) e
            ∙ drop-drop (length zs - n) k ys
            ∙ ap (λ j. drop j ys) (omega (arith, ltb→lt n (length zs) more)))
        | inr few ↦ rw few (e ∙ ap (λ j. drop j ys) (ground arith))
      ]

  -- To trim the last `n` items and one more is to take the last `n` of all.
  last-snoc :
      (n : ℕ) (xs : List A) (x : A)
      → (if ltb n (length (last n xs ++ x ∷ []))
          then last n (last n xs ++ x ∷ [])
          else last n xs ++ x ∷ [])
        ≡ last n (xs ++ x ∷ [])
  last-snoc n xs x =
      trimmed n xs x (last n xs ++ x ∷ []) (sym (drop-snoc (length xs - n) xs x (omega arith)))

-- From an empty log with room for an event, the log holds the last `maxlen` of all events recorded.
events-record_all :
    (log : RoutingEventLog) (history rest : List RoutingEvent)
    → 0 < log.maxlen
    → log.events ≡ last log.maxlen history
    → (record_all log rest).events ≡ last log.maxlen (history ++ rest)
unfolding record_all record_event
events-record_all log history [] h e = e ∙ ap (last log.maxlen) (sym (append-nil history))
events-record_all log history (x ∷ rest) h e =
    events-record_all (record_event log x) (history ++ x ∷ []) rest h recorded
    ∙ ap (last log.maxlen) (append_assoc history (x ∷ []) rest)
  where
    after : List RoutingEvent → List RoutingEvent
    after ys = if ltb log.maxlen (length ys) then last_slice log.maxlen ys else ys

    recorded : (record_event log x).events ≡ last log.maxlen (history ++ x ∷ [])
    recorded =
        ap (λ l. after (l ++ x ∷ [])) e
        ∙ ap
            (λ z.
              if ltb log.maxlen (length (last log.maxlen history ++ x ∷ []))
              then z
              else last log.maxlen history ++ x ∷ [])
            (last_slice_pos log.maxlen (last log.maxlen history ++ x ∷ []) h)
        ∙ last-snoc log.maxlen history x
