-- ===== src/Protocol/Equality.antt =====
-- The derived `==` of `Command` and of what it holds, protocol.rs.
pub mod Sound
use oxide_kv.Common.{Bool, true, false, ◌&&◌, List, [], ◌∷◌, if◌then◌else◌}
use oxide_kv.Text.{◌=s◌}
use oxide_kv.Protocol.{
  ServerId, TxOp, TxDecision, commit, abort, Configuration, simple, joint, Command, set, get,
  delete, compact, abort_tx, begin_tx, decide_tx, add_node, remove_node, install_configuration,
}

-- `==` of `ServerId` and of lists of them.
abbrev pub same_server : ServerId → ServerId → Bool
same_server a b = if a.node_id =s b.node_id then a.addr =s b.addr else false

abbrev pub same_servers : List ServerId → List ServerId → Bool
same_servers [] [] = true
same_servers [] (b ∷ bs) = false
same_servers (a ∷ as') [] = false
same_servers (a ∷ as') (b ∷ bs) =
    let rest = same_servers as' bs in if same_server a b then rest else false

abbrev pub same_configuration : Configuration → Configuration → Bool
same_configuration (simple a) (simple b) = same_servers a b
same_configuration (joint a b) (joint c d) = same_servers a c && same_servers b d
same_configuration _ _ = false

abbrev pub same_op : TxOp → TxOp → Bool
same_op (TxOp.put k v) (TxOp.put j w) = k =s j && v =s w
same_op (TxOp.delete k) (TxOp.delete j) = k =s j
same_op _ _ = false

abbrev pub same_ops : List TxOp → List TxOp → Bool
same_ops [] [] = true
same_ops (a ∷ xs) (b ∷ ys) = same_op a b && same_ops xs ys
same_ops _ _ = false

abbrev pub same_decision : TxDecision → TxDecision → Bool
same_decision commit commit = true
same_decision abort abort = true
same_decision _ _ = false

unfoldable pub same_command : Command → Command → Bool
same_command (set k v) (set j w) = k =s j && v =s w
same_command (get k) (get j) = k =s j
same_command (delete k) (delete j) = k =s j
same_command compact compact = true
same_command (abort_tx t) (abort_tx u) = t =s u
same_command (begin_tx t xs) (begin_tx u ys) = t =s u && same_ops xs ys
same_command (decide_tx t d) (decide_tx u e) = t =s u && same_decision d e
same_command (add_node a) (add_node b) = same_server a b
same_command (remove_node k) (remove_node j) = k =s j
same_command (install_configuration a) (install_configuration b) = same_configuration a b
same_command _ _ = false
