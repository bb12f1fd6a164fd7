-- ===== src/Raft/Replicate/Catchup.antt =====
-- A leader's request at the follower that it is for: `sync_logs` and `handle_append_entries` of
-- raft/node.rs together.
use oxide_kv.Common.{
  ℕ, zero, suc, ◌+◌, ◌-◌, ◌^◌, ◌≤◌, ◌<◌, ◌≡◌, refl, ◌∙◌, sym, ap, true, false, ◌&&◌, some, List, [],
  ◌∷◌, arith, length, get_elem?, get_elem?-some, drop, ltb, leb, ◌==◌, Bool-cases, Option-cases,
  inl, inr,
}
use mathlib.Core.Path.{subst}
use oxide_kv.Text.{Str}
use oxide_kv.Map
use oxide_kv.Map.Laws.{get-insert_self}
use oxide_kv.Protocol.{LogEntry}
use oxide_kv.Protocol.Quorum.{index_or_zero, config_quorum_reached_index}
use oxide_kv.Raft.{RaftNode, AppendEntriesArgs, AppendReplyArgs, is_leader, match_index_for}
use oxide_kv.Raft.Apply.Frame.{Indexed}
use oxide_kv.Raft.Apply.Progress.{apply_logs-Frame}
use oxide_kv.Raft.Append.{handle_append_entries, is_consistent, follow}
use oxide_kv.Raft.Append.Logs.{log_term}
use oxide_kv.Raft.Append.Accepts.{IsRequest, follow-Followed}
use oxide_kv.Raft.Append.Safety.{handle_append_entries-Accepted}
use oxide_kv.Raft.Replicate.{
  append_args_for, next_index_for, term_at, on_append_reply, maybe_commit,
}

get_elem?-drop :
    {A : Type 0} (k i : ℕ) (xs : List A) → get_elem? (drop k xs) i ≡ get_elem? xs (k + i)
get_elem?-drop zero i xs = let at : i ≡ 0 + i = omega arith in ap (get_elem? xs) at
get_elem?-drop (suc k) i [] = refl
get_elem?-drop (suc k) i (x ∷ xs) =
    let at : suc (k + i) ≡ suc k + i = omega arith in
    get_elem?-drop k i xs ∙ ap (get_elem? (x ∷ xs)) at

drop_all : {A : Type 0} (k : ℕ) (xs : List A) → length xs ≤ k → drop k xs ≡ []
drop_all zero [] h = refl
drop_all zero (x ∷ xs) h = absurd (omega arith)
drop_all (suc k) [] h = refl
drop_all (suc k) (x ∷ xs) h = drop_all k xs (omega arith)

length-drop :
    {A : Type 0} (k : ℕ) (xs : List A) → k ≤ length xs → k + length (drop k xs) ≡ length xs
length-drop zero xs h = omega arith
length-drop (suc k) [] h = absurd (omega arith)
length-drop (suc k) (x ∷ xs) h = omega (arith, length-drop k xs (omega arith))

Indexed-drop : (base k : ℕ) (xs : List LogEntry) → Indexed base xs → Indexed (base + k) (drop k xs)
Indexed-drop base zero xs h = subst (λ b. Indexed b xs) (omega arith) h
Indexed-drop base (suc k) [] h = tt
Indexed-drop base (suc k) (x ∷ xs) h =
    subst (λ b. Indexed b (drop k xs)) (omega arith) (Indexed-drop (base + 1) k xs h.1)

-- The request goes on from the place that the leader keeps for the peer.
entries-drop :
    (peer : Str) (l : RaftNode)
    → next_index_for peer l ≤ length l.log + 1
    → (append_args_for peer l).entries ≡ drop (next_index_for peer l - 1) l.log
unfolding append_args_for
entries-drop peer l h = elim (Bool-cases (leb (next_index_for peer l) (length l.log))) [
  | inl more ↦ ground arith
  | inr end ↦
      let past : length l.log ≤ next_index_for peer l - 1 = ground arith in
      ground (arith, drop_all (next_index_for peer l - 1) l.log past)
]

prev_lem :
    (peer : Str) (l : RaftNode)
    → (append_args_for peer l).prev_log_index ≡ next_index_for peer l - 1
unfolding append_args_for
prev_lem peer l = refl

is_consistent_of :
    (prev term : ℕ) (log : List LogEntry)
    → (0 < prev → log_term (prev - 1) log ≡ some term)
    → is_consistent prev term log ≡ true
unfolding is_consistent
is_consistent_of prev term log h = elim (Bool-cases (ltb 0 prev)) [
  | inr first ↦ ground arith
  | inl later ↦
      let has = h (ground arith) in
      elim (Option-cases (get_elem? log (prev - 1))) [
        | inl missing ↦ absurd (ground arith)
        | inr (e, found) ↦ ground arith
      ]
]

succeeds :
    (now unix_now : ℕ) (args : AppendEntriesArgs) (n : RaftNode)
    → n.current_term ≤ args.term
    → (args.term == n.current_term && is_leader n.state) ≡ false
    → (0 < args.prev_log_index → log_term (args.prev_log_index - 1) n.log ≡ some args.prev_log_term)
    → (handle_append_entries now unix_now args n).1.success ≡ true
unfolding handle_append_entries
succeeds now unix_now args n newer follows has =
    let same = (follow-Followed now args.term n).log in
    let consistent : is_consistent args.prev_log_index args.prev_log_term
          (follow now args.term n).log
        ≡ true =
      ap (is_consistent args.prev_log_index args.prev_log_term) same
      ∙ is_consistent_of _ _ n.log has in
    let old : ltb args.term n.current_term ≡ false = ground arith in
    rw (handle_append_entries, old, follows, consistent) refl

-- A follower `f` that a leader `l` can bring up to date in one request: their logs agree on the entry
-- before the place that the leader keeps for it.
pub record Reachable (peer : Str) (l f : RaftNode) : Type 0 where
  pub next : 1 ≤ next_index_for peer l
  pub within : next_index_for peer l ≤ length l.log + 1
  pub bound : length l.log + 1 < 2 ^ 64
  pub leader_indexed : Indexed 0 l.log
  pub indexed : Indexed 0 f.log
  pub newer : f.current_term ≤ l.current_term
  pub follows : (l.current_term == f.current_term && is_leader f.state) ≡ false
  pub agrees :
      1 < next_index_for peer l
      → log_term (next_index_for peer l - 2) f.log
        ≡ some (term_at (next_index_for peer l - 2) l.log)

append_args_for-IsRequest :
    (peer : Str) (l f : RaftNode) → Reachable peer l f → IsRequest (append_args_for peer l)
unfolding append_args_for
append_args_for-IsRequest peer l f r =
    let k = next_index_for peer l - 1 in
    let rest = entries-drop peer l r.within in
    (
      subst (Indexed k) (sym rest) (
          subst (λ b. Indexed b (drop k l.log)) (omega arith)
            (Indexed-drop 0 k l.log r.leader_indexed)),
      omega (arith, ap length rest, length-drop k l.log (omega (arith, r.within, r.next)), r.bound),
    )

request_previous :
    (peer : Str) (l f : RaftNode)
    → Reachable peer l f
    → 0 < (append_args_for peer l).prev_log_index
    → log_term ((append_args_for peer l).prev_log_index - 1) f.log
      ≡ some (append_args_for peer l).prev_log_term
unfolding append_args_for
request_previous peer l f r h =
    let k = next_index_for peer l in
    let at : k - 1 - 1 ≡ k - 2 = omega arith in
    let some_before : (k - 1 == 0) ≡ false = ground arith in
    rw (append_args_for, some_before, at) (r.agrees (omega arith))

-- What the exchange gives: a success, and the follower's log has the leader's term from that place on.
pub record CaughtUp (peer : Str) (l f after : RaftNode) (reply : AppendReplyArgs) : Type 0 where
  pub success : reply.success ≡ true
  pub term : after.current_term ≡ l.current_term
  pub same :
      (j : ℕ)
      → next_index_for peer l ≤ j + 1
      → j < length l.log
      → log_term j after.log ≡ log_term j l.log

same_terms :
    (peer : Str) (l after : RaftNode)
    → 1 ≤ next_index_for peer l
    → next_index_for peer l ≤ length l.log + 1
    → ((i : ℕ) (e : LogEntry)
        → get_elem? (append_args_for peer l).entries i ≡ some e
        → log_term ((append_args_for peer l).prev_log_index + i) after.log ≡ some e.term)
    → (j : ℕ) → next_index_for peer l ≤ j + 1
    → j < length l.log
    → log_term j after.log ≡ log_term j l.log
same_terms peer l after next within holds j h lt =
    let k = next_index_for peer l - 1 in
    let (e, found) = get_elem?-some l.log j lt in
    let at : k + (j - k) ≡ j = omega arith in
    let place : (append_args_for peer l).prev_log_index + (j - k) ≡ j =
      omega (arith, prev_lem peer l) in
    let sent : get_elem? (append_args_for peer l).entries (j - k) ≡ some e =
      ap (λ es. get_elem? es (j - k)) (entries-drop peer l within)
      ∙ (get_elem?-drop k (j - k) l.log ∙ (ap (get_elem? l.log) at ∙ found)) in
    let own : log_term j l.log ≡ some e.term = rw (found, log_term) refl in
    ap (λ i. log_term i after.log) (sym place) ∙ (holds (j - k) e sent ∙ sym own)

-- A leader's request to a peer, handled by a follower whose log agrees with the leader's on the entry
-- before the place kept for it, and which is not of a newer term nor itself the leader of that term,
-- succeeds, and from that place on the follower's log has the terms of the leader's, to its end;
-- where both logs have each entry at its index, and fewer than 2^64 - 1 of them.
pub append_args_for-handle_append_entries :
    (now unix_now : ℕ) (peer : Str) (l f : RaftNode)
    → Reachable peer l f
    → CaughtUp peer l f
        (handle_append_entries now unix_now (append_args_for peer l) f).0
        (handle_append_entries now unix_now (append_args_for peer l) f).1
append_args_for-handle_append_entries now unix_now peer l f r =
    let args = append_args_for peer l in
    let k = next_index_for peer l - 1 in
    let rest = entries-drop peer l r.within in
    let success =
      succeeds now unix_now args f (unfold append_args_for in r.newer)
        (unfold append_args_for in r.follows) (request_previous peer l f r) in
    let done =
      handle_append_entries-Accepted now unix_now args f (append_args_for-IsRequest peer l f r)
        r.indexed success in
    record {
      success = success;
      term = unfold append_args_for in done.term;
      same =
          same_terms peer l (handle_append_entries now unix_now args f).0 r.next r.within
            done.holds;
    }

maybe_commit-match :
    (unix_now : ℕ) (n : RaftNode) → (maybe_commit unix_now n).match_index ≡ n.match_index
unfolding maybe_commit
maybe_commit-match unix_now n =
    let best =
      config_quorum_reached_index n.current_config n.match_index n.node_id (length n.log) in
    ground (arith, (apply_logs-Frame unix_now (record n { commit_index = best })).match_index)

-- At the success reply to its request, the leader counts the peer as holding its log to the end, and
-- will go on after it.
pub append_args_for-on_append_reply :
    (now unix_now : ℕ) (peer : Str) (l : RaftNode) (reply : AppendReplyArgs)
    → 1 ≤ next_index_for peer l
    → next_index_for peer l ≤ length l.log + 1
    → reply.success ≡ true
    → match_index_for peer (on_append_reply now unix_now peer (append_args_for peer l) reply l)
      ≡ length l.log
unfolding on_append_reply match_index_for
append_args_for-on_append_reply now unix_now peer l reply next within ok =
    let args = append_args_for peer l in
    let sum : args.prev_log_index + length args.entries ≡ length l.log = omega (
      arith,
      prev_lem peer l,
      ap length (entries-drop peer l within),
      length-drop (next_index_for peer l - 1) l.log (omega arith),
    ) in
    let last = args.prev_log_index + length args.entries in
    let counted = record l {
      match_index = Map.insert peer last l.match_index;
      next_index = Map.insert peer (last + 1) l.next_index;
      last_quorum_heartbeat_at = some now;
    } in
    rw
      (
        on_append_reply,
        ok,
        maybe_commit-match unix_now counted,
        index_or_zero,
        get-insert_self peer last l.match_index,
      )
      sum
