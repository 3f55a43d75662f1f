-- ===== src/Transport/Delivery.antt =====
-- The loop of an inbound connection delivers what was sent.
use propagul.Prelude.{
  ℕ, suc, ◌+◌, ◌/◌, ◌%◌, ◌^◌, ◌≤◌, ◌≡◌, refl, sym, ap, ◌∙◌, true, Option, none, some, List, [], ◌∷◌,
  ◌++◌, arith, dec_text, length, take, drop, length-append, All, if_pos, Bool-cases, inl, inr,
}
use mathlib.Core.List.{append_assoc}
use propagul.Transport.Frames.{
  Bytes, hmac_size, max_message_size, has_secret, pack_length, unpack_length, fits, frame_body,
  build_frame, Inbound, read_exactly, read_header, open_frame, deliver, opened, with_body,
  with_header, read_frame, read_frames,
}

unpack-pack :
    (n : ℕ)
    → n ≤ max_message_size
    → unpack_length (n / 2 ^ 24 % 256) (n / 2 ^ 16 % 256) (n / 2 ^ 8 % 256) (n % 256) ≡ n
unfolding unpack_length
unpack-pack n h = omega arith

take_append : (xs ys : Bytes) → take (length xs) (xs ++ ys) ≡ xs
take_append [] ys = refl
take_append (x ∷ xs) ys = ap (◌∷◌ x) (take_append xs ys)

drop_append : (xs ys : Bytes) → drop (length xs) (xs ++ ys) ≡ ys
drop_append [] ys = refl
drop_append (x ∷ xs) ys = drop_append xs ys

read_exactly-append : (xs ys : Bytes) → read_exactly (length xs) (xs ++ ys) ≡ some (xs, ys)
unfolding read_exactly
read_exactly-append xs ys =
    ground (arith, length-append xs ys, take_append xs ys, drop_append xs ys)

take_append_at : (n : ℕ) (xs ys : Bytes) → length xs ≡ n → take n (xs ++ ys) ≡ xs
take_append_at n xs ys e = ap (λ k. take k (xs ++ ys)) (sym e) ∙ take_append xs ys

drop_append_at : (n : ℕ) (xs ys : Bytes) → length xs ≡ n → drop n (xs ++ ys) ≡ ys
drop_append_at n xs ys e = ap (λ k. drop k (xs ++ ys)) (sym e) ∙ drop_append xs ys

-- a frame's body that passes
open_sealed :
    (mac : Bytes → Bytes → Bytes) (secret body payload : Bytes)
    → has_secret secret ≡ true
    → hmac_size ≤ length body
    → drop hmac_size body ≡ payload
    → take hmac_size body ≡ mac secret payload
    → open_frame mac secret body ≡ some payload
unfolding open_frame
open_sealed mac secret body payload h long d t =
    rw (h, d)
      (rw t (
        ground (
          arith,
          if_pos (dec_text (mac secret payload) (mac secret payload)) refl (some payload) none,
        )))

-- what a sender writes, and what is counted for it
unfoldable pub frames : (Bytes → Bytes → Bytes) → Bytes → List Bytes → Bytes
frames mac secret [] = []
frames mac secret (payload ∷ payloads) =
    build_frame mac secret payload ++ frames mac secret payloads

unfoldable pub deliver_all : Inbound → List Bytes → Inbound
deliver_all s [] = s
deliver_all s (payload ∷ payloads) = deliver_all (deliver s payload) payloads

module _ (mac : Bytes → Bytes → Bytes) (secret : Bytes)
    (mac_size : (payload : Bytes) → length (mac secret payload) ≡ hmac_size) where
  open_frame-frame_body :
      (payload : Bytes) → open_frame mac secret (frame_body mac secret payload) ≡ some payload
  unfolding open_frame frame_body
  open_frame-frame_body payload = elim (Bool-cases (has_secret secret)) [
    | inl h ↦
        let e : frame_body mac secret payload ≡ mac secret payload ++ payload = rw h refl in
        open_sealed mac secret _ payload h
          (omega (
            arith,
            ap (length {A = ℕ}) e,
            length-append (mac secret payload) payload,
            mac_size payload,
          ))
          (ap (drop hmac_size) e ∙ drop_append_at hmac_size _ payload (mac_size payload))
          (ap (take hmac_size) e ∙ take_append_at hmac_size _ payload (mac_size payload))
    | inr h ↦ rw h refl
  ]

  length-frame_body :
      (payload : Bytes)
      → fits secret payload ≡ true
      → length (frame_body mac secret payload) ≤ max_message_size
  unfolding fits frame_body
  length-frame_body payload h =
      ground (arith, mac_size payload, length-append (mac secret payload) payload)

  -- One round on a frame that the sender built.
  read_frame-build_frame :
      (s : Inbound) (payload rest : Bytes)
      → fits secret payload ≡ true
      → read_frame mac secret s (build_frame mac secret payload ++ rest)
        ≡ (deliver s payload, some rest)
  unfolding read_frame read_header build_frame pack_length with_header with_body opened
  read_frame-build_frame s payload rest h =
      rw (unpack-pack (length (frame_body mac secret payload)) (length-frame_body payload h)) (
        ground (
          arith,
          length-frame_body payload h,
          read_exactly-append (frame_body mac secret payload) rest,
          open_frame-frame_body payload,
        ))

  read_frames-build_frame :
      (n : ℕ) (s : Inbound) (payload rest : Bytes)
      → fits secret payload ≡ true
      → read_frames mac secret (suc n) s (build_frame mac secret payload ++ rest)
        ≡ read_frames mac secret n (deliver s payload) rest
  unfolding read_frames
  read_frames-build_frame n s payload rest h =
      ap
        (λ (r : Inbound × Option Bytes). elim r.1 [
          | none ↦ r.0
          | some more ↦ read_frames mac secret n r.0 more
        ])
        (read_frame-build_frame s payload rest h)

  suc_out : (payloads : List Bytes) (n : ℕ) → suc (length payloads) + n ≡ suc (length payloads + n)
  suc_out payloads n = omega arith

  -- Where codes are 32 bytes long, a connection on which messages that fit were sent delivers
  -- them all, in order, and then goes on with what follows them.
  pub read_frames-frames :
      (payloads : List Bytes) (n : ℕ) (s : Inbound) (rest : Bytes)
      → All (λ payload. fits secret payload ≡ true) payloads
      → read_frames mac secret (length payloads + n) s (frames mac secret payloads ++ rest)
        ≡ read_frames mac secret n (deliver_all s payloads) rest
  unfolding read_frames frames deliver_all
  read_frames-frames [] n s rest h = ap (λ r. read_frames mac secret r s rest) (omega arith)
  read_frames-frames (payload ∷ payloads) n s rest h =
      ap
        (λ r.
          read_frames mac secret r s
            ((build_frame mac secret payload ++ frames mac secret payloads) ++ rest))
        (suc_out payloads n)
      ∙ ap (read_frames mac secret (suc (length payloads + n)) s)
          (append_assoc (build_frame mac secret payload) (frames mac secret payloads) rest)
      ∙ read_frames-build_frame (length payloads + n) s payload (frames mac secret payloads ++ rest)
          h.0
      ∙ read_frames-frames payloads n (deliver s payload) rest h.1
