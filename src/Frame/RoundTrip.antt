-- ===== src/Frame/RoundTrip.antt =====
-- What is written is what is read, raft/transport.rs.
use oxide_kv.Common.{
  ◌/◌, ◌%◌, ◌^◌, if◌then◌else◌, ℕ, zero, suc, ◌+◌, ◌≤◌, ◌<◌, ◌≡◌, refl, ap, ◌∙◌, none, some, List,
  [], ◌∷◌, ◌++◌, length, take, drop, arith, false, ltb, length-append,
}
use oxide_kv.Frame.{
  with_kind, some_payload, DispatchKind, raft, vote, to_byte, from_byte, max_frame_bytes, ok,
  unexpected_eof, to_be_bytes, from_be_bytes, read_exact, write_envelope, read_payload,
  read_envelope, read_envelope_discriminator, read_envelope_payload,
}

take-append {ℓ} : {A : Type ℓ} (xs ys : List A) → take (length xs) (xs ++ ys) ≡ xs
take-append [] ys = refl
take-append (x ∷ xs) ys = ap (◌∷◌ x) (take-append xs ys)

drop-append {ℓ} : {A : Type ℓ} (xs ys : List A) → drop (length xs) (xs ++ ys) ≡ ys
drop-append [] ys = refl
drop-append (x ∷ xs) ys = drop-append xs ys

from_be_bytes-to_be_bytes : (n : ℕ) → n < 4294967296 → from_be_bytes (to_be_bytes n) ≡ n
from_be_bytes-to_be_bytes n h = omega arith

read_exact-append : (xs ys : List ℕ) → read_exact (length xs) (xs ++ ys) ≡ some (xs, ys)
unfolding read_exact
read_exact-append xs ys = ground (arith, take-append xs ys, drop-append xs ys, length-append xs ys)

read_payload-append :
    (payload rest : List ℕ)
    → length payload ≤ max_frame_bytes
    → read_payload (length payload) (payload ++ rest) ≡ ok (payload, rest)
unfolding read_payload
read_payload-append payload rest h = ground (arith, read_exact-append payload rest)

from_byte-to_byte : (k : DispatchKind) → from_byte (to_byte k) ≡ some k
unfolding from_byte
from_byte-to_byte raft = refl
from_byte-to_byte vote = refl

-- The bytes of a frame.
abbrev pub frame : DispatchKind → List ℕ → List ℕ
frame k payload = to_byte k ∷ (to_be_bytes (length payload) ++ payload)

pub write_envelope-frame :
    (k : DispatchKind) (payload : List ℕ)
    → length payload ≤ max_frame_bytes
    → write_envelope k payload ≡ ok (frame k payload)
unfolding write_envelope
write_envelope-frame k payload h =
    let small : length payload % 2 ^ 32 ≡ length payload = omega arith in ground arith

-- The four bytes of the length, and what follows them.
read_length :
    (a b c d : ℕ) (stream : List ℕ)
    → read_exact 4 (a ∷ b ∷ c ∷ d ∷ stream) ≡ some (a ∷ b ∷ c ∷ d ∷ [], stream)
unfolding read_exact
read_length a b c d stream = ground arith

read_exact_short : (n : ℕ) (stream : List ℕ) → length stream < n → read_exact n stream ≡ none
unfolding read_exact
read_exact_short n stream h = ground arith

-- The readers, once the length is read.
read_payload_length :
    (n : ℕ) (stream : List ℕ)
    → n ≤ max_frame_bytes
    → read_envelope_payload (to_be_bytes n ++ stream) ≡ some_payload (read_payload n stream)
unfolding read_envelope_payload
read_payload_length n stream h = ground (
  arith,
  read_length (n / 2 ^ 24 % 256) (n / 2 ^ 16 % 256) (n / 2 ^ 8 % 256) (n % 256) stream,
  from_be_bytes-to_be_bytes n,
)

read_envelope_length :
    (k : DispatchKind) (n : ℕ) (stream : List ℕ)
    → n ≤ max_frame_bytes
    → read_envelope (to_byte k ∷ (to_be_bytes n ++ stream)) ≡ with_kind k (read_payload n stream)
unfolding read_envelope
read_envelope_length k n stream h = ground (
  arith,
  from_byte-to_byte k,
  read_length (n / 2 ^ 24 % 256) (n / 2 ^ 16 % 256) (n / 2 ^ 8 % 256) (n % 256) stream,
  from_be_bytes-to_be_bytes n,
)

pub read_envelope_payload-frame :
    (payload rest : List ℕ)
    → length payload ≤ max_frame_bytes
    → read_envelope_payload (to_be_bytes (length payload) ++ (payload ++ rest))
      ≡ ok (some (payload, rest))
read_envelope_payload-frame payload rest h =
    read_payload_length (length payload) (payload ++ rest) h
    ∙ ap some_payload (read_payload-append payload rest h)

pub read_envelope-frame :
    (k : DispatchKind) (payload rest : List ℕ)
    → length payload ≤ max_frame_bytes
    → read_envelope (frame k payload ++ rest) ≡ ok (some (k, payload, rest))
read_envelope-frame k payload rest h =
    read_envelope_length k (length payload) (payload ++ rest) h
    ∙ ap (with_kind k) (read_payload-append payload rest h)

pub read_envelope_discriminator-frame :
    (k : DispatchKind) (stream : List ℕ)
    → read_envelope_discriminator (to_byte k ∷ stream) ≡ ok (some (k, stream))
unfolding read_envelope_discriminator
read_envelope_discriminator-frame k stream = ground (arith, from_byte-to_byte k)

-- A payload of at most 16 MiB is written as one frame. The whole reader gives its kind and its bytes
-- back, and leaves what follows it; so does the reader of the kind with that of the payload after it.
pub write_envelope-read_envelope :
    (k : DispatchKind) (payload rest : List ℕ)
    → length payload ≤ max_frame_bytes
    → (bytes : List ℕ) × (write_envelope k payload ≡ ok bytes)
      × (read_envelope (bytes ++ rest) ≡ ok (some (k, payload, rest)))
      × (tail : List ℕ) × (read_envelope_discriminator (bytes ++ rest) ≡ ok (some (k, tail)))
      × (read_envelope_payload tail ≡ ok (some (payload, rest)))
write_envelope-read_envelope k payload rest h = (
  frame k payload,
  write_envelope-frame k payload h,
  read_envelope-frame k payload rest h,
  to_be_bytes (length payload) ++ (payload ++ rest),
  read_envelope_discriminator-frame k (to_be_bytes (length payload) ++ (payload ++ rest)),
  read_envelope_payload-frame payload rest h,
)

-- A frame that the peer cuts short.
length-take_of_le {ℓ} : {A : Type ℓ} (n : ℕ) (xs : List A) → n ≤ length xs → length (take n xs) ≡ n
length-take_of_le zero xs h = omega arith
length-take_of_le (suc n) [] h = absurd (omega arith)
length-take_of_le (suc n) (x ∷ xs) h = omega (arith, length-take_of_le n xs)

read_payload_cut :
    (n : ℕ) (payload : List ℕ)
    → length payload ≤ max_frame_bytes
    → n < length payload
    → read_payload (length payload) (take n payload) ≡ unexpected_eof
unfolding read_payload
read_payload_cut n payload h lt =
    let short : length (take n payload) < length payload =
      omega (arith, length-take_of_le n payload) in
    ground (arith, read_exact_short (length payload) (take n payload))

-- A header that breaks off.
short_header :
    (k : DispatchKind) (stream : List ℕ)
    → length stream < 4
    → (read_envelope (to_byte k ∷ stream) ≡ unexpected_eof)
      × (read_envelope_payload stream ≡ ok none)
unfolding read_envelope read_envelope_payload
short_header k stream h = (
  ground (arith, from_byte-to_byte k, read_exact_short 4 stream),
  ground (arith, read_exact_short 4 stream),
)

-- Of a frame that breaks off after its kind, the whole reader reports the end of the stream. The
-- reader of the payload reports it from the end of the length on; before that it takes it for a
-- connection that is closed between frames.
pub read_envelope-cut :
    (k : DispatchKind) (payload : List ℕ) (n : ℕ)
    → length payload ≤ max_frame_bytes
    → n < 4 + length payload
    → (read_envelope (take (suc n) (frame k payload)) ≡ unexpected_eof)
      × (read_envelope_payload (take n (to_be_bytes (length payload) ++ payload))
          ≡ (if ltb n 4 then ok none else unexpected_eof))
read_envelope-cut k payload zero h lt = short_header k [] (omega arith)
read_envelope-cut k payload (suc zero) h lt =
    short_header k (take 1 (to_be_bytes (length payload))) (omega arith)
read_envelope-cut k payload (suc (suc zero)) h lt =
    short_header k (take 2 (to_be_bytes (length payload))) (omega arith)
read_envelope-cut k payload (suc (suc (suc zero))) h lt =
    short_header k (take 3 (to_be_bytes (length payload))) (omega arith)
read_envelope-cut k payload (suc (suc (suc (suc n)))) h lt =
    let cut = read_payload_cut n payload h (omega arith) in
    let later : ltb (suc (suc (suc (suc n)))) 4 ≡ false = ground arith in
    (
      read_envelope_length k (length payload) (take n payload) h ∙ ap (with_kind k) cut,
      rw later (read_payload_length (length payload) (take n payload) h ∙ ap some_payload cut),
    )
