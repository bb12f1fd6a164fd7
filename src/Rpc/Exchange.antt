-- ===== src/Rpc/Exchange.antt =====
-- A remote call against the handler that it reaches, raft/rpc.rs.
use oxide_kv.Common.{
  ℕ, ◌≤◌, ◌≡◌, ◌≢◌, refl, ap, sym, ◌∙◌, true, false, none, some, List, [], ◌∷◌, ◌++◌, length, ltb,
  arith, Bool-cases, inl, inr, if◌then◌else◌, Option-cases,
}
use mathlib.Core.List.{append-nil}
use oxide_kv.Frame.{
  DispatchKind, raft, max_frame_bytes, ok, invalid_input, write_envelope, read_envelope,
  to_be_bytes, to_byte, read_envelope_payload,
}
use oxide_kv.Frame.RoundTrip.{
  frame, write_envelope-frame, read_envelope-frame, read_envelope_payload-frame,
  read_envelope_discriminator-frame,
}
use oxide_kv.Raft.{RaftNode, AppendEntriesArgs}
use oxide_kv.Wire.{RaftMessage, PbRaftMessage}
use oxide_kv.Wire.Encode.{encode_domain}
use oxide_kv.Wire.RoundTrip.{received_message, decode_domain-encode_domain}
use oxide_kv.Rpc.{
  PbVoteRequest, PbVoteResponse, Clocks, answer, Served, closed, Called, reply, no_reply,
  call_failed, Codec, handle_raft_rpc_inner, dispatch_logic, call, written, read_reply, sent_back,
}

-- The bytes of a message are read as that message.
pub record IsFaithful {A : Type 0} (codec : Codec A) : Type 0 where
  pub decode-encode : (a : A) → codec.decode (codec.encode_to_vec a) ≡ some a

pub write_envelope_large :
    (k : DispatchKind) (payload : List ℕ)
    → ltb max_frame_bytes (length payload) ≡ true
    → write_envelope k payload ≡ invalid_input
unfolding write_envelope
write_envelope_large k payload h = ground arith

-- A reply of a handler is no AppendEntries request, and so it comes through unchanged.
no_append_reply :
    (c : Clocks) (m : RaftMessage) (n : RaftNode) (a : AppendEntriesArgs)
    → (answer c m n).1 ≢ some (RaftMessage.append_entries a)
unfolding answer
no_append_reply c (RaftMessage.request_vote _) n a h = cc
no_append_reply c _ n a h = cc

answer-received :
    (c : Clocks) (m : RaftMessage) (n : RaftNode) (r : RaftMessage)
    → (answer c m n).1 ≡ some r
    → received_message r ≡ r
unfolding received_message
answer-received c m n (RaftMessage.append_entries a) h = absurd (no_append_reply c m n a h)
answer-received c m n _ h = refl

-- The handler run in place on the request as it is received; what is over 16 MiB is not carried.
abbrev pub carried : {A : Type 0} → ℕ → RaftNode → A → RaftNode × Called A
carried size n r = if ltb max_frame_bytes size then (n, no_reply) else (n, reply r)

-- The payload of a frame, with nothing after it.
pub read_only_payload :
    (payload : List ℕ)
    → length payload ≤ max_frame_bytes
    → read_envelope_payload (to_be_bytes (length payload) ++ payload) ≡ ok (some (payload, []))
read_only_payload payload h =
    let e = read_envelope_payload-frame payload [] h in
    let nil : payload ++ [] ≡ payload = append-nil payload in
    ap (λ s. read_envelope_payload (to_be_bytes (length payload) ++ s)) (sym nil) ∙ e

pub read_only_envelope :
    (k : DispatchKind) (payload : List ℕ)
    → length payload ≤ max_frame_bytes
    → read_envelope (frame k payload) ≡ ok (some (k, payload, []))
read_only_envelope k payload h =
    let e = read_envelope-frame k payload [] h in
    let nil : payload ++ [] ≡ payload = append-nil payload in
    ap (λ s. read_envelope (to_byte k ∷ (to_be_bytes (length payload) ++ s))) (sym nil) ∙ e

module _ (messages : Codec PbRaftMessage) (requests : Codec PbVoteRequest)
    (responses : Codec PbVoteResponse) (c : Clocks) where
  abbrev pub size_of : RaftMessage → ℕ
  size_of m = length (messages.encode_to_vec (encode_domain m))

  abbrev pub run_in_place : RaftMessage → RaftNode → RaftNode × Called RaftMessage
  run_in_place m n =
      if ltb max_frame_bytes (size_of m)
      then (n, call_failed)
      else elim (answer c (received_message m) n).1 as (λ _. RaftNode × Called RaftMessage) [
        | none ↦ ((answer c (received_message m) n).0, no_reply)
        | some r ↦ carried (size_of r) (answer c (received_message m) n).0 r
      ]

  module _ (faithful : IsFaithful messages) where
    -- What the server does with the frame of a message.
    dispatch_raft :
        (m : RaftMessage) (n : RaftNode)
        → ltb max_frame_bytes (size_of m) ≡ false
        → dispatch_logic messages requests responses c
            (frame raft (messages.encode_to_vec (encode_domain m)))
            n
          ≡ elim (answer c (received_message m) n).1 as (λ _. RaftNode × Served) [
            | none ↦ ((answer c (received_message m) n).0, closed)
            | some r ↦ (
              (answer c (received_message m) n).0,
              written (write_envelope raft (messages.encode_to_vec (encode_domain r))),
            )
          ]
    unfolding dispatch_logic handle_raft_rpc_inner
    dispatch_raft m n h =
        let payload : List ℕ = messages.encode_to_vec (encode_domain m) in
        ground (
          arith,
          read_envelope_discriminator-frame raft (to_be_bytes (length payload) ++ payload),
          read_only_payload payload,
          faithful.decode-encode (encode_domain m),
          decode_domain-encode_domain m,
        )

    read_reply-frame :
        (r : RaftMessage)
        → received_message r ≡ r
        → ltb max_frame_bytes (size_of r) ≡ false
        → read_reply messages requests responses c (
            sent_back messages requests responses c
              (written (write_envelope raft (messages.encode_to_vec (encode_domain r)))))
          ≡ reply r
    read_reply-frame r same h =
        let payload : List ℕ = messages.encode_to_vec (encode_domain r) in
        ground (
          arith,
          write_envelope-frame raft payload,
          read_only_envelope raft payload,
          faithful.decode-encode (encode_domain r),
          decode_domain-encode_domain r,
        )

    -- A call over a connection is the handler of the called node run in place: on the request as it
    -- is received, with its reply unchanged. A request over 16 MiB fails and runs nothing; a reply
    -- over 16 MiB is lost after the handler has run, and no reply comes to a message that is itself
    -- a reply.
    pub call-run_in_place :
        (m : RaftMessage) (n : RaftNode) → call messages requests responses c m n ≡ run_in_place m n
    unfolding call read_envelope
    call-run_in_place m n =
        let payload : List ℕ = messages.encode_to_vec (encode_domain m) in
        elim (Bool-cases (ltb max_frame_bytes (size_of m))) [
          | inl large ↦ ground (arith, write_envelope_large raft payload)
          | inr small ↦ elim (Option-cases (answer c (received_message m) n).1) [
            | inl quiet ↦ ground (arith, write_envelope-frame raft payload, dispatch_raft m n)
            | inr (r, replies) ↦ elim (Bool-cases (ltb max_frame_bytes (size_of r))) [
              | inl large ↦ ground (
                arith,
                write_envelope-frame raft payload,
                dispatch_raft m n,
                write_envelope_large raft (messages.encode_to_vec (encode_domain r)),
              )
              | inr fits ↦ ground (
                arith,
                write_envelope-frame raft payload,
                dispatch_raft m n,
                read_reply-frame r (answer-received c (received_message m) n r replies),
              )
            ]
          ]
        ]
