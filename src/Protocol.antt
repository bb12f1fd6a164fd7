-- ===== src/Protocol.antt =====
-- protocol.rs: commands, cluster configurations, log entries, snapshots and the errors that the
-- node returns.
pub mod Quorum
pub mod Equality
use oxide_kv.Common.{
  ℕ, Bool, true, false, Option, none, some, List, [], ◌∷◌, ◌++◌, map, max, length, any, find?,
  if◌then◌else◌, not,
}
use oxide_kv.Text.{Str, ◌=s◌}
use oxide_kv.Map.{Map}

pub data TxOp : Type 0 where
  put : Str → Str → TxOp
  delete : Str → TxOp

pub data Vote : Type 0 where
  yes_vote : Vote
  no_vote : Str → Vote

pub data TxDecision : Type 0 where
  commit abort : TxDecision

pub record ServerId : Type 0 where
  pub node_id : Str
  pub addr : Str

pub data Configuration : Type 0 where
  simple : List ServerId → Configuration
  joint : List ServerId → List ServerId → Configuration

pub data Command : Type 0 where
  set : Str → Str → Command
  get : Str → Command
  delete : Str → Command
  compact : Command
  abort_tx : Str → Command
  begin_tx : Str → List TxOp → Command
  decide_tx : Str → TxDecision → Command
  add_node : ServerId → Command
  remove_node : Str → Command
  install_configuration : Configuration → Command

pub record LogEntry : Type 0 where
  pub term : ℕ
  pub index : ℕ
  pub command : Command

pub record Snapshot : Type 0 where
  pub last_included_index : ℕ
  pub last_included_term : ℕ
  pub entries : Map Str

-- `issued_at` is a reading of the clock.
pub record ReadIndex : Type 0 where
  pub index : ℕ
  pub issued_at : ℕ

pub data MembershipError : Type 0 where
  not_leader : MembershipError
  already_member : Str → MembershipError
  not_member : Str → MembershipError
  cannot_remove_self : MembershipError
  cannot_remove_last_server : MembershipError
  storage_error : MembershipError

pub data AbortTxError : Type 0 where
  not_leader : AbortTxError
  not_found : Str → AbortTxError
  storage_error : AbortTxError

-- Whether a server with this `node_id` is in the list.
abbrev pub has_node : Str → List ServerId → Bool
has_node n servers = any (λ s. s.node_id =s n) servers

-- The loop of `all_servers` over `new`, with `combined` so far.
unfoldable pub union : List ServerId → List ServerId → List ServerId
union combined [] = combined
union combined (s ∷ new) =
    union (if has_node s.node_id combined then combined else combined ++ s ∷ []) new

unfoldable pub all_servers : Configuration → List ServerId
unfolding union
all_servers (simple s) = s
all_servers (joint old new) = union old new

unfoldable pub size : Configuration → ℕ
size (simple s) = length s
size (joint old new) = max (length old) (length new)

unfoldable pub addr_of : Configuration → Str → Option Str
unfolding all_servers
addr_of c n = elim (find? (λ s. s.node_id =s n) (all_servers c)) [
  | none ↦ none
  | some s ↦ some s.addr
]

unfoldable pub contains : Configuration → Str → Bool
unfolding all_servers
contains c n = has_node n (all_servers c)
