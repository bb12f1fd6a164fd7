-- ===== src/Raft/Apply/Frame.antt =====
-- What `apply_logs` of raft/node.rs can change of a node.
use oxide_kv.Common.{
  ℕ, ◌+◌, ◌≡◌, refl, ◌∙◌, ap, Option, none, some, List, [], ◌∷◌, ◌++◌, arith, length, Bool-cases,
  inl, inr,
}
use mathlib.Core.List.{append-nil, append_assoc}
use oxide_kv.Text.{Str}
use oxide_kv.Protocol.{Configuration, Command, LogEntry, install_configuration}
use oxide_kv.Lsm.{StateMachine}
use oxide_kv.Raft.{RaftNode, is_leader, peers_of}
use oxide_kv.Raft.Apply.{append_own, propose_pending, install_config, apply_command, follows}

-- The entries of a log from position `base` on carry the indices `base + 1`, `base + 2`, ….
abbrev pub Indexed : ℕ → List LogEntry → Type 0
Indexed base [] = Unit
Indexed base (e ∷ es) = (e.index ≡ base + 1) × Indexed (base + 1) es

pub Indexed-append :
    (base : ℕ) (xs : List LogEntry) (e : LogEntry)
    → Indexed base xs
    → e.index ≡ base + length xs + 1
    → Indexed base (xs ++ e ∷ [])
Indexed-append base [] e h k = (omega arith, tt)
Indexed-append base (x ∷ xs) e h k = (h.0, Indexed-append (base + 1) xs e h.1 (omega arith))

pub record Frame (n after : RaftNode) : Type 0 where
  pub term : after.current_term ≡ n.current_term
  pub vote : after.vote_for ≡ n.vote_for
  pub meta : after.storage.meta ≡ n.storage.meta
  pub state : after.state ≡ n.state
  pub node_id : after.node_id ≡ n.node_id
  pub commit : after.commit_index ≡ n.commit_index
  pub match_index : after.match_index ≡ n.match_index
  pub added : List LogEntry
  pub log : after.log ≡ n.log ++ added
  pub wal : after.storage.wal ≡ n.storage.wal ++ added
  pub indexed : Indexed 0 n.log → Indexed 0 after.log

pub Frame-refl : (n : RaftNode) → Frame n n
Frame-refl n = record {
  term = refl;
  vote = refl;
  meta = refl;
  state = refl;
  node_id = refl;
  commit = refl;
  match_index = refl;
  added = [];
  log = rw append-nil;
  wal = rw append-nil;
  indexed = λ h. h;
}

pub Frame-trans : {a b c : RaftNode} → Frame a b → Frame b c → Frame a c
Frame-trans {a} f g = record {
  term = g.term ∙ f.term;
  vote = g.vote ∙ f.vote;
  meta = g.meta ∙ f.meta;
  state = g.state ∙ f.state;
  node_id = g.node_id ∙ f.node_id;
  commit = g.commit ∙ f.commit;
  match_index = g.match_index ∙ f.match_index;
  added = f.added ++ g.added;
  log = g.log ∙ (ap (λ l. l ++ g.added) f.log ∙ append_assoc a.log f.added g.added);
  wal = g.wal ∙ (ap (λ l. l ++ g.added) f.wal ∙ append_assoc a.storage.wal f.added g.added);
  indexed = λ h. g.indexed (f.indexed h);
}

append_own-Frame : (c : Command) (n : RaftNode) → Frame n (append_own c n)
unfolding append_own
append_own-Frame c n = record {
  term = refl;
  vote = refl;
  meta = refl;
  state = refl;
  node_id = refl;
  commit = refl;
  match_index = refl;
  added = record { term = n.current_term; index = length n.log + 1; command = c } ∷ [];
  log = refl;
  wal = refl;
  indexed = λ h. Indexed-append 0 n.log _ h (omega arith);
}

-- The fields that applying entries writes in place.
abbrev written :
    RaftNode → StateMachine → List Str → Configuration → Option Configuration → ℕ → RaftNode
written n sm peers config pending applied = record n {
  state_machine = sm;
  peers = peers;
  current_config = config;
  pending_post_joint_simple = pending;
  last_applied = applied;
}

written-Frame :
    (n : RaftNode) (sm : StateMachine) (peers : List Str) (config : Configuration)
    (pending : Option Configuration) (applied : ℕ)
    → Frame n (written n sm peers config pending applied)
unfolding Frame-refl
written-Frame n sm peers config pending applied =
    let same = Frame-refl n in
    record {
      term = refl;
      vote = refl;
      meta = refl;
      state = refl;
      node_id = refl;
      commit = refl;
      match_index = refl;
      added = [];
      log = same.log;
      wal = same.wal;
      indexed = λ h. h;
    }

propose_pending-Frame :
    (config : Configuration) (pending : Option Configuration) (n : RaftNode)
    → Frame n (propose_pending config pending n)
unfolding propose_pending
propose_pending-Frame config none n = Frame-refl n
propose_pending-Frame config (some simple_new) n =
    let taken = written-Frame n n.state_machine n.peers n.current_config none n.last_applied in
    elim (Bool-cases (follows config simple_new)) [
      | inl e ↦ rw e (Frame-trans taken (append_own-Frame (install_configuration simple_new) _))
      | inr e ↦ rw e taken
    ]

install_config-Frame : (config : Configuration) (n : RaftNode) → Frame n (install_config config n)
unfolding install_config
install_config-Frame config n =
    let installed =
      written-Frame n n.state_machine (peers_of n.node_id config) config n.pending_post_joint_simple
        n.last_applied in
    elim (Bool-cases (is_leader n.state)) [
      | inl e ↦
          rw e (Frame-trans installed (propose_pending-Frame config n.pending_post_joint_simple _))
      | inr e ↦ rw e installed
    ]

pub apply_command-Frame : (now : ℕ) (c : Command) (n : RaftNode) → Frame n (apply_command now c n)
unfolding apply_command
apply_command-Frame now (install_configuration config) n = install_config-Frame config n
apply_command-Frame now _ n =
    written-Frame n _ n.peers n.current_config n.pending_post_joint_simple n.last_applied

-- The node after one round of the loop.
abbrev pub applied_one : ℕ → LogEntry → RaftNode → RaftNode
applied_one now e n =
    let applied = apply_command now e.command n in
    record applied { last_applied = applied.last_applied + 1 }

pub applied_one-Frame : (now : ℕ) (e : LogEntry) (n : RaftNode) → Frame n (applied_one now e n)
applied_one-Frame now e n =
    let m = apply_command now e.command n in
    Frame-trans (apply_command-Frame now e.command n) (
      written-Frame m m.state_machine m.peers m.current_config m.pending_post_joint_simple
        (m.last_applied + 1))

propose_pending-applied :
    (config : Configuration) (pending : Option Configuration) (n : RaftNode)
    → (propose_pending config pending n).last_applied ≡ n.last_applied
unfolding propose_pending append_own
propose_pending-applied config none n = refl
propose_pending-applied config (some simple_new) n = ground arith

pub apply_command-applied :
    (now : ℕ) (c : Command) (n : RaftNode) → (apply_command now c n).last_applied ≡ n.last_applied
unfolding apply_command install_config
apply_command-applied now (install_configuration config) n =
    ground (arith, propose_pending-applied config n.pending_post_joint_simple _)
apply_command-applied now _ n = refl
