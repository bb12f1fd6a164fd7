-- ===== src/Raft/Propose/Phases.antt =====
-- The phases of a membership change, from `propose_add_node` or `propose_remove_node` to
-- `install_configuration`, raft/node.rs.
use oxide_kv.Common.{
  ℕ, ◌+◌, ◌≡◌, refl, ◌∙◌, ap, true, false, none, List, [], ◌∷◌, ◌++◌, arith, length, filter, not,
}
use mathlib.Core.Path.{subst, sym}
use oxide_kv.Text.{Str, ◌=s◌, cmp_refl}
use oxide_kv.Protocol.{
  ServerId, Configuration, simple, joint, LogEntry, install_configuration, all_servers, contains,
}
use oxide_kv.Protocol.Equality.{same_servers}
use oxide_kv.Raft.{RaftNode, is_leader, peers_of}
use oxide_kv.Raft.Apply.{append_own, propose_pending, install_config, follows}
use oxide_kv.Raft.Propose.{append_joint, propose_add_node, propose_remove_node}

same_servers_refl : (servers : List ServerId) → same_servers servers servers ≡ true
same_servers_refl [] = refl
same_servers_refl (s ∷ servers) =
    ground (arith, same_servers_refl servers, cmp_refl s.node_id, cmp_refl s.addr)

abbrev pub config_entry : ℕ → ℕ → Configuration → LogEntry
config_entry term index config = record {
  term = term;
  index = index;
  command = install_configuration config;
}

-- A change from the servers `old` to `new`, proposed at `n`: its first entry, and at any later state
-- `m` with the same pending configuration the installation of the joint one and then of the new.
pub record Phases (old new : List ServerId) (n proposed m : RaftNode) : Type 0 where
  pub joint_logged :
      proposed.log ≡ n.log ++ config_entry n.current_term (length n.log + 1) (joint old new) ∷ []
  pub joint_in_force : (install_config (joint old new) m).current_config ≡ joint old new
  pub joint_taken : (install_config (joint old new) m).pending_post_joint_simple ≡ none
  pub new_logged :
      (install_config (joint old new) m).log
      ≡ m.log ++ config_entry m.current_term (length m.log + 1) (simple new) ∷ []
  pub new_in_force :
      (install_config (simple new) (install_config (joint old new) m)).current_config ≡ simple new
  pub new_peers :
      (install_config (simple new) (install_config (joint old new) m)).peers
      ≡ peers_of m.node_id (simple new)
  pub new_last :
      (install_config (simple new) (install_config (joint old new) m)).log
      ≡ (install_config (joint old new) m).log

module _ (old new : List ServerId) (n m : RaftNode) (leads : is_leader m.state ≡ true) where
  append_joint-Phases :
      m.pending_post_joint_simple ≡ (append_joint old new n).pending_post_joint_simple
      → Phases old new n (append_joint old new n) m
  unfolding append_joint append_own install_config propose_pending follows all_servers
  append_joint-Phases pending = record {
    joint_logged = refl;
    joint_in_force = ground (arith, same_servers_refl new);
    joint_taken = ground (arith, same_servers_refl new);
    new_logged = ground (arith, same_servers_refl new);
    new_in_force = ground (arith, same_servers_refl new);
    new_peers = ground (arith, same_servers_refl new);
    new_last = ground (arith, same_servers_refl new);
  }

-- A leader that adds a server it does not have logs the joint configuration of its servers and of
-- them with the new one. When a leader that has proposed no other change since installs that, it is in
-- force, and the new configuration is logged next, once; when that is installed it is in force, the
-- node's peers are its other servers, and nothing more is logged.
pub propose_add_node-Phases :
    (server : ServerId) (n m : RaftNode)
    → is_leader n.state ≡ true
    → contains n.current_config server.node_id ≡ false
    → is_leader m.state ≡ true
    → m.pending_post_joint_simple ≡ (propose_add_node server n).0.pending_post_joint_simple
    → Phases
        (all_servers n.current_config)
        (all_servers n.current_config ++ server ∷ [])
        n
        (propose_add_node server n).0
        m
unfolding propose_add_node
propose_add_node-Phases server n m leads fresh later pending =
    let old = all_servers n.current_config in
    let same : (propose_add_node server n).0 ≡ append_joint old (old ++ server ∷ []) n =
      rw (propose_add_node, leads, fresh) refl in
    subst (λ proposed. Phases old (old ++ server ∷ []) n proposed m) (sym same)
      (append_joint-Phases old (old ++ server ∷ []) n m later
        (pending ∙ ap (λ p. p.pending_post_joint_simple) same))

abbrev pub without : Str → List ServerId → List ServerId
without node_id servers = filter (λ s. not (s.node_id =s node_id)) servers

-- A leader that removes another server, and not its last, goes through the same two phases to its
-- servers without that one.
pub propose_remove_node-Phases :
    (node_id : Str) (n m : RaftNode) (kept : ServerId) (rest : List ServerId)
    → is_leader n.state ≡ true
    → (node_id =s n.node_id) ≡ false
    → contains n.current_config node_id ≡ true
    → without node_id (all_servers n.current_config) ≡ kept ∷ rest
    → is_leader m.state ≡ true
    → m.pending_post_joint_simple ≡ (propose_remove_node node_id n).0.pending_post_joint_simple
    → Phases
        (all_servers n.current_config)
        (without node_id (all_servers n.current_config))
        n
        (propose_remove_node node_id n).0
        m
unfolding propose_remove_node
propose_remove_node-Phases node_id n m kept rest leads other member left later pending =
    let old = all_servers n.current_config in
    let new = without node_id old in
    let same : (propose_remove_node node_id n).0 ≡ append_joint old new n =
      rw (propose_remove_node, leads, other, member, left) refl in
    subst (λ proposed. Phases old new n proposed m) (sym same)
      (append_joint-Phases old new n m later (pending ∙ ap (λ p. p.pending_post_joint_simple) same))
