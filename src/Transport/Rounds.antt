-- ===== src/Transport/Rounds.antt =====
-- The loop of an inbound connection ends by itself.
use propagul.Prelude.{
  true, ℕ, zero, suc, ◌≤◌, ◌<◌, ◌≡◌, refl, Option, none, some, [], ◌∷◌, arith, length, take,
  length-drop, Option-cases, inl, inr,
}
use propagul.Transport.Frames.{
  Bytes, unpack_length, Inbound, read_exactly, read_header, open_frame, opened, with_body,
  with_header, read_frame, read_frames, has_ended,
}

module _ (mac : Bytes → Bytes → Bytes) (secret : Bytes) where
  -- A round that goes on has taken the header at least.
  with_header_shrinks :
      (s : Inbound) (n : ℕ) (bytes rest : Bytes)
      → (with_header mac secret s (some (n, bytes))).1 ≡ some rest
      → length rest ≤ length bytes
  unfolding with_header with_body opened read_exactly
  with_header_shrinks s n bytes rest e =
      elim (Option-cases (open_frame mac secret (take n bytes))) [
        | inl shut ↦ ground (arith, length-drop n bytes, shut)
        | inr (payload, fine) ↦ ground (arith, length-drop n bytes, fine)
      ]

  read_frame_shrinks :
      (s : Inbound) (bytes rest : Bytes)
      → (read_frame mac secret s bytes).1 ≡ some rest
      → length rest < length bytes
  unfolding read_frame read_header with_header
  read_frame_shrinks s [] rest e = cc
  read_frame_shrinks s (a ∷ []) rest e = cc
  read_frame_shrinks s (a ∷ b ∷ []) rest e = cc
  read_frame_shrinks s (a ∷ b ∷ c ∷ []) rest e = cc
  read_frame_shrinks s (a ∷ b ∷ c ∷ d ∷ bytes) rest e =
      omega (arith, with_header_shrinks s (unpack_length a b c d) bytes rest e)

  -- The loop ends by itself: with more rounds than bytes it breaks off before they are used up,
  -- whatever the bytes are and the code says, and one more round changes nothing.
  pub has_ended-read_frames :
      (n : ℕ) (s : Inbound) (bytes : Bytes)
      → length bytes < n
      → (has_ended mac secret n s bytes ≡ true)
        × (read_frames mac secret (suc n) s bytes ≡ read_frames mac secret n s bytes)
  unfolding read_frames has_ended
  has_ended-read_frames zero s bytes h = absurd (omega arith)
  has_ended-read_frames (suc n) s bytes h =
      go (read_frame mac secret s bytes) (λ rest e. read_frame_shrinks s bytes rest e)
        (λ s' rest k. has_ended-read_frames n s' rest k)
    where
      go :
          (r : Inbound × Option Bytes)
          → ((rest : Bytes) → r.1 ≡ some rest → length rest < length bytes)
          → ((s' : Inbound) (rest : Bytes)
              → length rest < n
              → (has_ended mac secret n s' rest ≡ true)
                × (read_frames mac secret (suc n) s' rest ≡ read_frames mac secret n s' rest))
          → ((elim r.1 [ none ↦ true | some rest ↦ has_ended mac secret n r.0 rest ]) ≡ true)
            × (◌≡◌ {A = Inbound}
                (elim r.1 [ none ↦ r.0 | some rest ↦ read_frames mac secret (suc n) r.0 rest ])
                (elim r.1 [ none ↦ r.0 | some rest ↦ read_frames mac secret n r.0 rest ]))
      go (s', none) shrinks ih = (refl, refl)
      go (s', some rest) shrinks ih = ih s' rest (omega (arith, shrinks rest refl))
