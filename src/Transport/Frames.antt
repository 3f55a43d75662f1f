-- ===== src/Transport/Frames.antt =====
-- python/propagul/transport.py: frames and their authentication, and the loop that reads them from an
-- inbound connection. Bytes are numbers. HMAC-SHA256 is an argument, `mac secret payload`; an empty
-- secret counts as none, as in the code.
use propagul.Prelude.{
  false, true, ℕ, zero, suc, ◌+◌, ◌*◌, ◌/◌, ◌%◌, ◌^◌, Bool, Option, none, some, List, [], ◌∷◌, ◌++◌,
  if◌then◌else◌, ite, ltb, leb, dec_text, length, take, drop,
}

abbrev pub Bytes : Type 0
Bytes = List ℕ

abbrev pub hmac_size : ℕ
hmac_size = 32

abbrev pub max_message_size : ℕ
max_message_size = 1048576

-- `if self._secret`
abbrev pub has_secret : Bytes → Bool
has_secret secret = ltb 0 (length secret)

-- `struct.pack(">I", n)` and `struct.unpack`
unfoldable pub pack_length : ℕ → Bytes
pack_length n = (n / 2 ^ 24 % 256) ∷ (n / 2 ^ 16 % 256) ∷ (n / 2 ^ 8 % 256) ∷ (n % 256) ∷ []

unfoldable pub unpack_length : ℕ → ℕ → ℕ → ℕ → ℕ
unpack_length a b c d = a * 2 ^ 24 + b * 2 ^ 16 + c * 2 ^ 8 + d

-- the size check of `send`
unfoldable pub fits : Bytes → Bytes → Bool
fits secret payload =
    leb (length payload + (if has_secret secret then hmac_size else 0)) max_message_size

unfoldable pub frame_body : (Bytes → Bytes → Bytes) → Bytes → Bytes → Bytes
frame_body mac secret payload = if has_secret secret then mac secret payload ++ payload else payload

unfoldable pub build_frame : (Bytes → Bytes → Bytes) → Bytes → Bytes → Bytes
build_frame mac secret payload =
    let body = frame_body mac secret payload in pack_length (length body) ++ body

-- What the loop has counted, and the payloads that it has handed to `on_receive`, whose exceptions it
-- drops.
pub record Inbound : Type 0 where
  pub bytes_received : ℕ
  pub messages_received : ℕ
  pub auth_rejections : ℕ
  pub delivered : List Bytes

-- `readexactly(n)`, of the bytes that arrive in time
unfoldable pub read_exactly : ℕ → Bytes → Option (Bytes × Bytes)
read_exactly n bytes = if leb n (length bytes) then some (take n bytes, drop n bytes) else none

-- the length header
unfoldable pub read_header : Bytes → Option (ℕ × Bytes)
read_header (a ∷ b ∷ c ∷ d ∷ rest) = some (unpack_length a b c d, rest)
read_header _ = none

-- the payload of a frame, if it may pass
unfoldable pub open_frame : (Bytes → Bytes → Bytes) → Bytes → Bytes → Option Bytes
open_frame mac secret body =
    if has_secret secret
    then (if ltb (length body) hmac_size
        then none
        else (let payload = drop hmac_size body in
            ite (dec_text (take hmac_size body) (mac secret payload)) (some payload) none))
    else some body

unfoldable pub deliver : Inbound → Bytes → Inbound
deliver s payload = record s {
  bytes_received = s.bytes_received + length payload;
  messages_received = s.messages_received + 1;
  delivered = s.delivered ++ (payload ∷ []);
}

abbrev pub reject : Inbound → Inbound
reject s = record s { auth_rejections = s.auth_rejections + 1 }

-- what is counted for a frame; with the rest, if the loop goes on
unfoldable pub opened : Inbound → Bytes → Option Bytes → Inbound × Option Bytes
opened s rest none = (reject s, none)
opened s rest (some payload) = (deliver s payload, some rest)

unfoldable pub with_body :
    (Bytes → Bytes → Bytes) → Bytes → Inbound → Option (Bytes × Bytes) → Inbound × Option Bytes
with_body mac secret s none = (s, none)
with_body mac secret s (some (body, rest)) = opened s rest (open_frame mac secret body)

unfoldable pub with_header :
    (Bytes → Bytes → Bytes) → Bytes → Inbound → Option (ℕ × Bytes) → Inbound × Option Bytes
with_header mac secret s none = (s, none)
with_header mac secret s (some (n, rest)) =
    if ltb max_message_size n then (s, none) else with_body mac secret s (read_exactly n rest)

-- one round
unfoldable pub read_frame :
    (Bytes → Bytes → Bytes) → Bytes → Inbound → Bytes → Inbound × Option Bytes
read_frame mac secret s bytes = with_header mac secret s (read_header bytes)

-- the loop of `_handle_connection`, which finds `_running` set that many times
unfoldable pub read_frames : (Bytes → Bytes → Bytes) → Bytes → ℕ → Inbound → Bytes → Inbound
read_frames mac secret zero s bytes = s
read_frames mac secret (suc n) s bytes =
    let (s', more) = read_frame mac secret s bytes in
    elim more [ none ↦ s' | some rest ↦ read_frames mac secret n s' rest ]

-- whether that loop breaks off before its rounds are used up
unfoldable pub has_ended : (Bytes → Bytes → Bytes) → Bytes → ℕ → Inbound → Bytes → Bool
has_ended mac secret zero s bytes = false
has_ended mac secret (suc n) s bytes =
    let (s', more) = read_frame mac secret s bytes in
    elim more [ none ↦ true | some rest ↦ has_ended mac secret n s' rest ]
