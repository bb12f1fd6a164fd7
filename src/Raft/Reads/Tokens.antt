-- ===== src/Raft/Reads/Tokens.antt =====
-- A linearizable read from `begin_read` to `confirm_read`, raft/node.rs.
use oxide_kv.Common.{ℕ, ◌-◌, ◌≤◌, ◌<◌, ◌≡◌, true, some, arith, Bool-cases, Option-cases, inl, inr}
use oxide_kv.Protocol.{ReadIndex}
use oxide_kv.Raft.{RaftNode, is_leader}
use oxide_kv.Raft.Reads.{begin_read, confirm_read}

-- A read that a leader may serve: nothing it could miss was committed when it began.
pub record Servable (max_election_timeout_ms began confirmed : ℕ) (n m : RaftNode) : Type 0 where
  pub led : is_leader n.state ≡ true
  pub leads : is_leader m.state ≡ true
  pub applied : n.commit_index ≤ m.last_applied
  pub heard : ℕ
  pub heard_at : m.last_quorum_heartbeat_at ≡ some heard
  pub after_start : began ≤ heard
  pub fresh : confirmed - heard < max_election_timeout_ms

confirm_read-Servable :
    (max began confirmed : ℕ) (n m : RaftNode)
    → is_leader n.state ≡ true
    → confirm_read max confirmed (record { index = n.commit_index; issued_at = began }) m ≡ true
    → Servable max began confirmed n m
unfolding confirm_read
confirm_read-Servable max began confirmed n m led ok =
    elim (Option-cases m.last_quorum_heartbeat_at) [
      | inl never ↦ absurd (ground arith)
      | inr (t, at) ↦ record {
        led = led;
        leads = ground arith;
        applied = ground arith;
        heard = t;
        heard_at = at;
        after_start = ground arith;
        fresh = ground arith;
      }
    ]

-- A read whose token `begin_read` gave at node state `n`, and which `confirm_read` passes at any
-- later state `m`: the node led then and leads now, everything committed when the read began is
-- applied, and an acknowledgement came at or after the start and within the election timeout.
pub begin_read-confirm_read :
    (max_election_timeout_ms began confirmed unix_now : ℕ) (n m : RaftNode) (ri : ReadIndex)
    → (begin_read began unix_now n).2 ≡ some ri
    → confirm_read max_election_timeout_ms confirmed ri m ≡ true
    → Servable max_election_timeout_ms began confirmed n m
unfolding begin_read
begin_read-confirm_read max began confirmed unix_now n m ri token ok =
    elim (Bool-cases (is_leader n.state)) [
      | inr follows ↦ absurd (ground arith)
      | inl leads ↦ confirm_read-Servable max began confirmed n m leads (ground arith)
    ]
