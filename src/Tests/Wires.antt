-- ===== src/Tests/Wires.antt =====
-- The theorems on the transport, at a code of 32 zeros and a pool of one connection.
use propagul.Prelude.{
  ℕ, zero, suc, ◌+◌, pos, ◌≡◌, refl, true, false, ◌&&◌, not, some, [], ◌∷◌, ◌++◌, arith,
  if◌then◌else◌, codes, length, All,
}
use propagul.Discovery.{PeerAddress}
use propagul.Transport.Frames.{Bytes, fits, build_frame, Inbound, read_frames, has_ended}
use propagul.Transport.Delivery.{frames, deliver_all, read_frames-frames}
use propagul.Transport.Sealed.{IsSealedIn, delivered-IsSealedIn}
use propagul.Transport.Rounds.{has_ended-read_frames}
use propagul.Transport.Pool.{
  Connection, Transport, send, Attempt, put_connection, begin_stop, close_pooled, clear_pool,
}
use propagul.Transport.Sends.{Counts, Counts-send}
use propagul.Transport.Bounded.{
  IsBounded, opens, begins_stop, closes, clears, here, next, Reach-IsBounded,
}

abbrev zeros : ℕ → Bytes
zeros zero = []
zeros (suc n) = 0 ∷ zeros n

-- a code that does not depend on what it is of
abbrev code : Bytes → Bytes → Bytes
code secret payload = zeros 32

abbrev secret : Bytes
secret = 1 ∷ 2 ∷ []

abbrev nothing_yet : Inbound
nothing_yet = record {
  bytes_received = 0;
  messages_received = 0;
  auth_rejections = 0;
  delivered = [];
}

abbrev hello : Bytes
hello = 104 ∷ 105 ∷ []

hello-fits : All (λ payload. fits secret payload ≡ true) (hello ∷ hello ∷ [])
unfolding fits
hello-fits = (refl, (refl, tt))

read_frames-frames_example :
    read_frames code secret
      (length (hello ∷ hello ∷ []) + 1)
      nothing_yet
      (frames code secret (hello ∷ hello ∷ []) ++ (7 ∷ []))
    ≡ read_frames code secret 1 (deliver_all nothing_yet (hello ∷ hello ∷ [])) (7 ∷ [])
read_frames-frames_example =
    read_frames-frames code secret (λ payload. refl) (hello ∷ hello ∷ []) 1 nothing_yet (7 ∷ [])
      hello-fits

delivered-IsSealedIn_example :
    All
      (IsSealedIn code secret (build_frame code secret hello))
      (read_frames code secret 2 nothing_yet (build_frame code secret hello)).delivered
delivered-IsSealedIn_example =
    delivered-IsSealedIn code secret refl 2 nothing_yet (build_frame code secret hello) []
      (build_frame code secret hello) refl tt

has_ended-read_frames_example :
    (has_ended code secret 4 nothing_yet (0 ∷ 0 ∷ 0 ∷ []) ≡ true)
    × (read_frames code secret 5 nothing_yet (0 ∷ 0 ∷ 0 ∷ [])
        ≡ read_frames code secret 4 nothing_yet (0 ∷ 0 ∷ 0 ∷ []))
has_ended-read_frames_example =
    has_ended-read_frames code secret 4 nothing_yet (0 ∷ 0 ∷ 0 ∷ []) (omega arith)

abbrev peer : PeerAddress
peer = (codes "10.0.0.2", pos 9000)

abbrev line : Connection
line = record { id = 1; last_used = 0 }

abbrev idle : Transport
idle = record {
  running = true;
  secret = secret;
  pool = [];
  closed = [];
  bytes_sent = 0;
  messages_sent = 0;
  send_errors = 0;
  pool_hits = 0;
  pool_misses = 0;
  send_rounds = 0;
}

-- the first write fails, the second succeeds
abbrev unlucky : Attempt
unlucky = record { now = 5; usable = λ c. true; opens = some line; writes = false; done_at = 6 }

abbrev lucky : Attempt
lucky = record unlucky { writes = true }

Counts-send_example :
    let r = send unlucky lucky peer hello idle in
    let tried = idle.running && fits idle.secret hello in
    Counts idle r.0
      (if r.1 then 1 else 0)
      (if r.1 then length hello else 0)
      (if tried && not r.1 then 1 else 0)
Counts-send_example = Counts-send unlucky lucky peer hello idle

idle-IsBounded : IsBounded idle
idle-IsBounded = record { few = omega arith; distinct = tt }

Reach-IsBounded_example :
    IsBounded (clear_pool (close_pooled line (begin_stop (put_connection peer line idle))))
Reach-IsBounded_example = Reach-IsBounded idle-IsBounded (
    next (next (next (next here (opens peer line refl)) (begins_stop refl)) (closes line refl))
      (clears refl))
