-- ===== src/Sim/Delivery/Twice.antt =====
-- An AppendEntries request that the simulated network duplicates, raft/sim_transport.rs.
use oxide_kv.Common.{
  ℕ, ◌+◌, ◌≡◌, ◌≢◌, refl, ap, sym, ◌∙◌, false, some, ◌∷◌, get_elem?, arith, Bool-cases, inl, inr,
}
use mathlib.Core.Path.{subst}
use oxide_kv.Text.{Str, ◌=s◌, =s_iff}
use oxide_kv.Map
use oxide_kv.Map.Laws.{get-insert, get-insert_self}
use oxide_kv.Raft.{RaftNode, AppendEntriesArgs}
use oxide_kv.Raft.Apply.Frame.{Indexed}
use oxide_kv.Raft.Append.{handle_append_entries}
use oxide_kv.Raft.Append.Accepts.{IsRequest}
use oxide_kv.Raft.Append.Again.{handle_append_entries-Repeated}
use oxide_kv.Raft.Propose.{Result, ok}
use oxide_kv.Wire.{RaftMessage}
use oxide_kv.Rpc.{Clocks}
use oxide_kv.Sim.{TransportError, InboundMessageBody, raft}
use oxide_kv.Sim.Faults.{duplicate_all, before_send}
use oxide_kv.Sim.Network.{Network, serving, lookup}
use oxide_kv.Sim.Transport.{
  dispatch_raft_message, serve_one, push_with_reply, transmit, exchange, send_raft,
  deliver_duplicate, later_copy,
}

-- A node that serves a channel handles what is pushed there.
push_with_reply_served :
    (c : Clocks) (channel : ℕ) (id : Str) (args : AppendEntriesArgs) (net : Network) (n : RaftNode)
    → get_elem? net.channels channel ≡ some (serving id)
    → Map.get id net.nodes ≡ some n
    → push_with_reply c channel (raft (RaftMessage.append_entries args)) net ≡ (
      record net {
        nodes = Map.insert id (handle_append_entries c.now c.unix_now args n).0 net.nodes;
      },
      some (ok (raft (RaftMessage.append_reply (handle_append_entries c.now c.unix_now args n).1))),
    )
unfolding push_with_reply serve_one dispatch_raft_message
push_with_reply_served c channel id args net n served there = ground arith

-- The network after the first of the two deliveries, with the second on its way.
abbrev once : Clocks → ℕ → ℕ → Str → AppendEntriesArgs → RaftNode → Network → Network
once c d channel id args n net = record net {
  nodes = Map.insert id (handle_append_entries c.now c.unix_now args n).0 net.nodes;
  duplicates =
      record {
        due = net.elapsed + d;
        channel = channel;
        body = raft (RaftMessage.append_entries args);
      }
      ∷ net.duplicates;
}

send_raft_duplicating :
    (c : Clocks) (meanwhile : Network → Network) (from to id : Str) (d channel : ℕ)
    (args : AppendEntriesArgs) (net : Network) (n : RaftNode)
    → lookup to net ≡ some channel
    → get_elem? net.channels channel ≡ some (serving id)
    → Map.get id net.nodes ≡ some n
    → send_raft c meanwhile from to
        (RaftMessage.append_entries args)
        (record net { scheduler = duplicate_all d })
      ≡ (
        once c d channel id args n (record net { scheduler = duplicate_all d }),
        ok (RaftMessage.append_reply (handle_append_entries c.now c.unix_now args n).1),
      )
unfolding send_raft exchange transmit before_send
send_raft_duplicating c meanwhile from to id d channel args net n known served there =
    let body : InboundMessageBody = raft (RaftMessage.append_entries args) in
    let duplicating = record net { scheduler = duplicate_all d } in
    let pushed =
      push_with_reply_served c channel id args (later_copy d channel body duplicating) n served
        there in
    ground (arith, known, pushed)

send_raft_once :
    (c : Clocks) (meanwhile : Network → Network) (from to id : Str) (d channel : ℕ)
    (args : AppendEntriesArgs) (net : Network) (n : RaftNode)
    → net.scheduler ≡ duplicate_all d
    → lookup to net ≡ some channel
    → get_elem? net.channels channel ≡ some (serving id)
    → Map.get id net.nodes ≡ some n
    → send_raft c meanwhile from to (RaftMessage.append_entries args) net ≡ (
      once c d channel id args n net,
      ok (RaftMessage.append_reply (handle_append_entries c.now c.unix_now args n).1),
    )
send_raft_once c meanwhile from to id d channel args net n scheduler known served there =
    let same : record net { scheduler = duplicate_all d } ≡ net =
      ap (λ s. record net { scheduler = s }) (sym scheduler) in
    subst
      (λ x. send_raft c meanwhile from to (RaftMessage.append_entries args) x ≡ (
        once c d channel id args n x,
        ok (RaftMessage.append_reply (handle_append_entries c.now c.unix_now args n).1),
      ))
      same (send_raft_duplicating c meanwhile from to id d channel args net n known served there)

=s-false : (a b : Str) → a ≢ b → (a =s b) ≡ false
=s-false a b h = elim (Bool-cases (a =s b)) [
  | inl same ↦ absurd (h ((=s_iff a b).0 same))
  | inr differ ↦ differ
]

-- The receiver after one delivery and after both, and the other nodes.
pub record Delivered (c : Clocks) (id : Str) (args : AppendEntriesArgs) (n : RaftNode)
    (net first second : Network) (answered : Result TransportError RaftMessage) : Type 0 where
  pub reply :
      answered ≡ ok (RaftMessage.append_reply (handle_append_entries c.now c.unix_now args n).1)
  pub once_handled : Map.get id first.nodes ≡ some (handle_append_entries c.now c.unix_now args n).0
  pub again : ℕ
  pub twice_handled :
      Map.get id second.nodes
      ≡ some (record (handle_append_entries c.now c.unix_now args n).0 { last_heartbeat = again })
  pub others : (j : Str) → j ≢ id → Map.get j second.nodes ≡ Map.get j net.nodes
  pub scheduled : first.elapsed ≡ net.elapsed

second_delivery :
    (c c' : Clocks) (d channel : ℕ) (id : Str) (args : AppendEntriesArgs) (net : Network)
    (n : RaftNode)
    → get_elem? net.channels channel ≡ some (serving id)
    → deliver_duplicate c' (once c d channel id args n net) ≡ record net {
      nodes =
          Map.insert id
            (handle_append_entries c'.now c'.unix_now args
              (handle_append_entries c.now c.unix_now args n).0).0
            (Map.insert id (handle_append_entries c.now c.unix_now args n).0 net.nodes);
    }
unfolding deliver_duplicate
second_delivery c c' d channel id args net n served =
    let n1 : RaftNode = (handle_append_entries c.now c.unix_now args n).0 in
    let one : Network = record net { nodes = Map.insert id n1 net.nodes } in
    ap (λ r. r.0)
      (push_with_reply_served c' channel id args one n1 served (get-insert_self id n1 net.nodes))

-- On a network that duplicates every message, an AppendEntries request to a node that serves is
-- answered as by the node's handler, without waiting for the copy; when the copy comes next, at
-- whatever time, the node is as after the first delivery but for the time of its last heartbeat, and
-- no other node has changed; for requests and logs whose entries carry their positions as indices.
pub send_raft-Delivered :
    (c c' : Clocks) (meanwhile : Network → Network) (from to id : Str) (d channel : ℕ)
    (args : AppendEntriesArgs) (net : Network) (n : RaftNode)
    → net.scheduler ≡ duplicate_all d
    → lookup to net ≡ some channel
    → get_elem? net.channels channel ≡ some (serving id)
    → Map.get id net.nodes ≡ some n
    → IsRequest args
    → Indexed 0 n.log
    → Delivered c id args n net
        (send_raft c meanwhile from to (RaftMessage.append_entries args) net).0
        (deliver_duplicate c'
          (send_raft c meanwhile from to (RaftMessage.append_entries args) net).0)
        (send_raft c meanwhile from to (RaftMessage.append_entries args) net).1
send_raft-Delivered c c' meanwhile from to id d channel args net n scheduler known served there
      request indexed =
    let sent =
      send_raft_once c meanwhile from to id d channel args net n scheduler known served there in
    let n1 : RaftNode = (handle_append_entries c.now c.unix_now args n).0 in
    let n2 : RaftNode = (handle_append_entries c'.now c'.unix_now args n1).0 in
    let copy = second_delivery c c' d channel id args net n served in
    subst (λ r. Delivered c id args n net r.0 (deliver_duplicate c' r.0) r.1) (sym sent)
      (record {
        reply = refl;
        once_handled = get-insert_self id n1 net.nodes;
        again = n2.last_heartbeat;
        twice_handled =
            ap (λ x. Map.get id x.nodes) copy
            ∙ get-insert_self id n2 (Map.insert id n1 net.nodes)
            ∙ ap (λ r. some r.0)
                (handle_append_entries-Repeated c.now c.unix_now c'.now c'.unix_now args n request
                  indexed);
        others = λ j other.
            let differs : (id =s j) ≡ false = =s-false id j (λ e. other (sym e)) in
            ap (λ x. Map.get j x.nodes) copy
            ∙ get-insert id j n2 (Map.insert id n1 net.nodes)
            ∙ rw differs (get-insert id j n1 net.nodes ∙ rw differs refl);
        scheduled = refl;
      })
