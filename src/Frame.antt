-- ===== src/Frame.antt =====
-- The framing of raft/transport.rs. A reader is the bytes that still come before the peer closes the
-- connection; other failures of the socket do not happen. `read_exact` fails with `UnexpectedEof`.
pub mod RoundTrip
use oxide_kv.Common.{
  ℕ, ◌+◌, ◌*◌, ◌/◌, ◌%◌, ◌^◌, Bool, Option, none, some, List, [], ◌∷◌, ◌++◌, length, take, drop,
  ltb, ◌==◌, if◌then◌else◌,
}

pub data DispatchKind : Type 0 where
  raft vote : DispatchKind

abbrev pub to_byte : DispatchKind → ℕ
to_byte raft = 0x01
to_byte vote = 0x02

unfoldable pub from_byte : ℕ → Option DispatchKind
from_byte b = if b == 0x01 then some raft else if b == 0x02 then some vote else none

abbrev pub max_frame_bytes : ℕ
max_frame_bytes = 16 * 1024 * 1024

-- The kinds of `io::Error` that the framing gives.
pub data IoResult (A : Type 0) : Type 0 where
  ok : A → IoResult A
  unexpected_eof : IoResult A
  invalid_data : IoResult A
  invalid_input : IoResult A

-- `u32::to_be_bytes` and `u32::from_be_bytes`.
abbrev pub to_be_bytes : ℕ → List ℕ
to_be_bytes n = (n / 2 ^ 24 % 256) ∷ (n / 2 ^ 16 % 256) ∷ (n / 2 ^ 8 % 256) ∷ (n % 256) ∷ []

abbrev pub from_be_bytes : List ℕ → ℕ
from_be_bytes (a ∷ b ∷ c ∷ d ∷ []) = a * 2 ^ 24 + b * 2 ^ 16 + c * 2 ^ 8 + d
from_be_bytes _ = 0

unfoldable pub read_exact : ℕ → List ℕ → Option (List ℕ × List ℕ)
read_exact n stream = if ltb (length stream) n then none else some (take n stream, drop n stream)

-- What is written, `payload.len() as u32` included.
unfoldable pub write_envelope : DispatchKind → List ℕ → IoResult (List ℕ)
write_envelope kind payload =
    if ltb max_frame_bytes (length payload)
    then invalid_input
    else ok (to_byte kind ∷ (to_be_bytes (length payload % 2 ^ 32) ++ payload))

-- The payload, once its length is read.
unfoldable pub read_payload : ℕ → List ℕ → IoResult (List ℕ × List ℕ)
read_payload len stream =
    if ltb max_frame_bytes len
    then invalid_data
    else elim (read_exact len stream) [ none ↦ unexpected_eof | some r ↦ ok r ]

abbrev pub with_kind :
    DispatchKind → IoResult (List ℕ × List ℕ) → IoResult (Option (DispatchKind × List ℕ × List ℕ))
with_kind kind (ok (payload, stream)) = ok (some (kind, payload, stream))
with_kind kind unexpected_eof = unexpected_eof
with_kind kind invalid_data = invalid_data
with_kind kind invalid_input = invalid_input

-- The kind, the payload and the bytes that are left.
unfoldable pub read_envelope : List ℕ → IoResult (Option (DispatchKind × List ℕ × List ℕ))
read_envelope [] = ok none
read_envelope (b ∷ stream) = elim (from_byte b) [
  | none ↦ invalid_data
  | some kind ↦ elim (read_exact 4 stream) [
    | none ↦ unexpected_eof
    | some (len, rest) ↦ with_kind kind (read_payload (from_be_bytes len) rest)
  ]
]

unfoldable pub read_envelope_discriminator : List ℕ → IoResult (Option (DispatchKind × List ℕ))
read_envelope_discriminator [] = ok none
read_envelope_discriminator (b ∷ stream) = elim (from_byte b) [
  | none ↦ invalid_data
  | some kind ↦ ok (some (kind, stream))
]

abbrev pub some_payload : IoResult (List ℕ × List ℕ) → IoResult (Option (List ℕ × List ℕ))
some_payload (ok r) = ok (some r)
some_payload unexpected_eof = unexpected_eof
some_payload invalid_data = invalid_data
some_payload invalid_input = invalid_input

-- An end of the stream within the length is taken for one before it.
unfoldable pub read_envelope_payload : List ℕ → IoResult (Option (List ℕ × List ℕ))
read_envelope_payload stream = elim (read_exact 4 stream) [
  | none ↦ ok none
  | some (len, rest) ↦ some_payload (read_payload (from_be_bytes len) rest)
]
