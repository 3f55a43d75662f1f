-- ===== src/Transport/Sealed.antt =====
-- With a secret, the loop of an inbound connection delivers only what is authenticated.
use propagul.Prelude.{
  ℕ, zero, suc, ◌≡◌, refl, sym, ap, ◌∙◌, true, Option, none, some, [], ◌∷◌, ◌++◌, arith, ltb,
  take-append-drop, All, All-append, Bool-cases, inl, inr,
}
use mathlib.Core.List.{append_assoc}
use propagul.Transport.Frames.{
  Bytes, hmac_size, max_message_size, has_secret, unpack_length, Inbound, read_exactly, read_header,
  open_frame, deliver, opened, with_body, with_header, read_frame, read_frames,
}

regroup : (before front x y : Bytes) → before ++ (front ++ (x ++ y)) ≡ (before ++ (front ++ x)) ++ y
regroup before front x y = simp append_assoc

-- The payload stands in the bytes right after its code.
abbrev pub IsSealedIn : (Bytes → Bytes → Bytes) → Bytes → Bytes → Bytes → Type 0
IsSealedIn mac secret bytes payload =
    (front : Bytes) × ((back : Bytes) × (bytes
        ≡ front ++ ((mac secret payload ++ payload) ++ back)))

module _ (mac : Bytes → Bytes → Bytes) (secret : Bytes) (keyed : has_secret secret ≡ true) where
  open_frame-sealed :
      (body payload : Bytes)
      → open_frame mac secret body ≡ some payload
      → body ≡ mac secret payload ++ payload
  unfolding open_frame
  open_frame-sealed body payload e = ground (arith, take-append-drop hmac_size body)

  -- One round: nothing is delivered, or a payload that stands in the bytes after its code.
  data Round (s : Inbound) (bytes : Bytes) (r : Inbound × Option Bytes) : Type 0 where
    ended : r.1 ≡ none → r.0.delivered ≡ s.delivered → Round s bytes r
    went_on :
        (front payload rest : Bytes)
        → r.1 ≡ some rest
        → r.0.delivered ≡ s.delivered ++ (payload ∷ [])
        → bytes ≡ front ++ ((mac secret payload ++ payload) ++ rest)
        → Round s bytes r

  Round-opened :
      (s : Inbound) (front bytes body rest : Bytes) (o : Option Bytes)
      → bytes ≡ front ++ (body ++ rest)
      → ((payload : Bytes) → o ≡ some payload → body ≡ mac secret payload ++ payload)
      → Round s bytes (opened s rest o)
  unfolding opened deliver
  Round-opened s front bytes body rest none h k = ended refl refl
  Round-opened s front bytes body rest (some payload) h k =
      went_on front payload rest refl refl (h ∙ ap (λ b. front ++ (b ++ rest)) (k payload refl))

  Round-with_body :
      (s : Inbound) (front bytes : Bytes) (o : Option (Bytes × Bytes))
      → ((body rest : Bytes) → o ≡ some (body, rest) → bytes ≡ front ++ (body ++ rest))
      → Round s bytes (with_body mac secret s o)
  unfolding with_body
  Round-with_body s front bytes none h = ended refl refl
  Round-with_body s front bytes (some (body, rest)) h =
      Round-opened s front bytes body rest (open_frame mac secret body) (h body rest refl)
        (open_frame-sealed body)

  read_exactly-parts :
      (n : ℕ) (bytes body rest : Bytes)
      → read_exactly n bytes ≡ some (body, rest)
      → bytes ≡ body ++ rest
  unfolding read_exactly
  read_exactly-parts n bytes body rest e = ground (arith, take-append-drop n bytes)

  Round-with_header :
      (s : Inbound) (header bytes rest : Bytes) (n : ℕ)
      → bytes ≡ header ++ rest
      → Round s bytes (with_header mac secret s (some (n, rest)))
  unfolding with_header
  Round-with_header s header bytes rest n e = elim (Bool-cases (ltb max_message_size n)) [
    | inl large ↦ rw large (ended refl refl)
    | inr fine ↦ rw fine (
        Round-with_body s header bytes (read_exactly n rest)
          (λ body more k. e ∙ ap (λ b. header ++ b) (read_exactly-parts n rest body more k)))
  ]

  Round-read_frame : (s : Inbound) (bytes : Bytes) → Round s bytes (read_frame mac secret s bytes)
  unfolding read_frame read_header with_header
  Round-read_frame s [] = ended refl refl
  Round-read_frame s (a ∷ []) = ended refl refl
  Round-read_frame s (a ∷ b ∷ []) = ended refl refl
  Round-read_frame s (a ∷ b ∷ c ∷ []) = ended refl refl
  Round-read_frame s (a ∷ b ∷ c ∷ d ∷ rest) =
      Round-with_header s (a ∷ b ∷ c ∷ d ∷ []) (a ∷ b ∷ c ∷ d ∷ rest) rest (unpack_length a b c d)
        refl

  after_round : ℕ → Inbound × Option Bytes → Inbound
  after_round n r = elim r.1 [ none ↦ r.0 | some more ↦ read_frames mac secret n r.0 more ]

  -- One round keeps what holds of the payloads, if the rounds after it do.
  Round-IsSealedIn :
      (n : ℕ) (s : Inbound) (whole before bytes : Bytes) (r : Inbound × Option Bytes)
      → Round s bytes r
      → whole ≡ before ++ bytes
      → All (IsSealedIn mac secret whole) s.delivered
      → ((s' : Inbound) (before' bytes' : Bytes)
          → whole ≡ before' ++ bytes'
          → All (IsSealedIn mac secret whole) s'.delivered
          → All (IsSealedIn mac secret whole) (read_frames mac secret n s' bytes').delivered)
      → All (IsSealedIn mac secret whole) (after_round n r).delivered
  unfolding after_round
  Round-IsSealedIn n s whole before bytes (s', none) (ended stop same) e h later = rw same h
  Round-IsSealedIn n s whole before bytes (s', some more) (ended stop same) e h later = cc
  Round-IsSealedIn n s whole before bytes (s', none) (went_on front payload rest there grown parts)
        e h later =
      cc
  Round-IsSealedIn n s whole before bytes (s', some more)
        (went_on front payload rest there grown parts) e h later =
      let sealed = mac secret payload ++ payload in
      later s' (before ++ (front ++ sealed)) more
        (e
          ∙ ap (λ b. before ++ b) parts
          ∙ regroup before front sealed rest
          ∙ ap (λ b. (before ++ (front ++ sealed)) ++ b) (cc))
        (rw grown (
          All-append (IsSealedIn mac secret whole) s.delivered (payload ∷ []) h (
            (
              before ++ front,
              (
                rest,
                e ∙ ap (λ b. before ++ b) parts ∙ sym (append_assoc before front (sealed ++ rest)),
              ),
            ),
            tt,
          )))

  -- With a secret, every payload that a connection delivers stands in what was received right after
  -- its code under that secret.
  pub delivered-IsSealedIn :
      (n : ℕ) (s : Inbound) (whole before bytes : Bytes)
      → whole ≡ before ++ bytes
      → All (IsSealedIn mac secret whole) s.delivered
      → All (IsSealedIn mac secret whole) (read_frames mac secret n s bytes).delivered
  unfolding read_frames after_round
  delivered-IsSealedIn zero s whole before bytes e h = h
  delivered-IsSealedIn (suc n) s whole before bytes e h =
      Round-IsSealedIn n s whole before bytes (read_frame mac secret s bytes)
        (Round-read_frame s bytes) e h
        (λ s' before' bytes'. delivered-IsSealedIn n s' whole before' bytes')
