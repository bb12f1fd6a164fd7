-- ===== src/Protocol/Equality/Sound.antt =====
-- Texts, servers and commands of protocol.rs that compare as equal are equal.
use oxide_kv.Common.{
  ◌≡◌, refl, ap, Bool, true, false, ◌&&◌, List, [], ◌∷◌, arith, Bool-cases, inl, inr,
}
use oxide_kv.Text.{Str, ◌=s◌, =s_iff}
use oxide_kv.Protocol.{
  ServerId, TxOp, TxDecision, commit, abort, Configuration, simple, joint, Command, set, get,
  delete, compact, abort_tx, begin_tx, decide_tx, add_node, remove_node, install_configuration,
}
use oxide_kv.Protocol.Equality.{
  same_server, same_servers, same_configuration, same_op, same_ops, same_decision, same_command,
}

text : (a b : Str) → (a =s b) ≡ true → a ≡ b
text a b h = (=s_iff a b).0 h

both_true : (p q : Bool) → (p && q) ≡ true → (p ≡ true) × (q ≡ true)
both_true true q h = (refl, h)
both_true false q h = cc

server : (a b : ServerId) → same_server a b ≡ true → a ≡ b
server a b h = elim (Bool-cases (a.node_id =s b.node_id)) [
  | inl ids ↦
      let i = text a.node_id b.node_id ids in let d = text a.addr b.addr (ground arith) in cc
  | inr differ ↦ absurd (ground arith)
]

decision : (a b : TxDecision) → same_decision a b ≡ true → a ≡ b
decision commit commit h = refl
decision abort abort h = refl
decision _ _ h = absurd (ground arith)

op : (a b : TxOp) → same_op a b ≡ true → a ≡ b
op (TxOp.put k v) (TxOp.put j w) h =
    let (keys, values) = both_true (k =s j) (v =s w) h in
    let i = text k j keys in let d = text v w values in cc
op (TxOp.delete k) (TxOp.delete j) h = ap TxOp.delete (text k j h)
op _ _ h = absurd (ground arith)

servers : (xs ys : List ServerId) → same_servers xs ys ≡ true → xs ≡ ys
servers [] [] h = refl
servers (a ∷ as') (b ∷ bs) h = elim (Bool-cases (same_server a b)) [
  | inl same ↦ let first = server a b same in let rest = servers as' bs (ground arith) in cc
  | inr differ ↦ absurd (ground arith)
]
servers _ _ h = absurd (ground arith)

configuration : (a b : Configuration) → same_configuration a b ≡ true → a ≡ b
configuration (simple a) (simple b) h = ap simple (servers a b h)
configuration (joint a b) (joint c d) h =
    let (old, new) = both_true (same_servers a c) (same_servers b d) h in
    let i = servers a c old in let j = servers b d new in cc
configuration _ _ h = absurd (ground arith)

ops : (xs ys : List TxOp) → same_ops xs ys ≡ true → xs ≡ ys
ops [] [] h = refl
ops (a ∷ xs) (b ∷ ys) h =
    let (one, more) = both_true (same_op a b) (same_ops xs ys) h in
    let first = op a b one in let rest = ops xs ys more in cc
ops _ _ h = absurd (ground arith)

-- Commands that compare as equal are equal.
pub same_command_sound : (a b : Command) → same_command a b ≡ true → a ≡ b
unfolding same_command
same_command_sound (set k v) (set j w) h =
    let (keys, values) = both_true (k =s j) (v =s w) h in
    let i = text k j keys in let d = text v w values in cc
same_command_sound (get k) (get j) h = ap get (text k j h)
same_command_sound (delete k) (delete j) h = ap Command.delete (text k j h)
same_command_sound compact compact h = refl
same_command_sound (abort_tx t) (abort_tx u) h = ap abort_tx (text t u h)
same_command_sound (begin_tx t xs) (begin_tx u ys) h =
    let (ids, same) = both_true (t =s u) (same_ops xs ys) h in
    let i = text t u ids in let d = ops xs ys same in cc
same_command_sound (decide_tx t d) (decide_tx u e) h =
    let (ids, same) = both_true (t =s u) (same_decision d e) h in
    let i = text t u ids in let j = decision d e same in cc
same_command_sound (add_node a) (add_node b) h = ap add_node (server a b h)
same_command_sound (remove_node k) (remove_node j) h = ap remove_node (text k j h)
same_command_sound (install_configuration a) (install_configuration b) h =
    ap install_configuration (configuration a b h)
same_command_sound _ _ h = absurd (ground arith)
