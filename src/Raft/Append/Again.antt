-- ===== src/Raft/Append/Again.antt =====
-- An AppendEntries request that is delivered twice, raft/node.rs.
use oxide_kv.Common.{
  ℕ, ◌-◌, ◌≤◌, ◌<◌, ◌≡◌, refl, ◌∙◌, sym, ap, true, false, ◌&&◌, some, List, arith, get_elem?, ltb,
  ◌==◌, Bool-cases, Option-cases, inl, inr,
}
use mathlib.Core.Path.{subst}
use oxide_kv.Protocol.{LogEntry}
use oxide_kv.Raft.{RaftNode, AppendEntriesArgs, AppendReplyArgs, is_leader, follower}
use oxide_kv.Raft.Apply.Frame.{Indexed}
use oxide_kv.Raft.Append.{append_all, follow, is_consistent, handle_append_entries}
use oxide_kv.Raft.Append.Logs.{log_term}
use oxide_kv.Raft.Append.Sound.{append_all-Carried}
use oxide_kv.Raft.Append.Settled.{Holds, Settled, advance_commit-Settled, accept_again}
use oxide_kv.Raft.Append.Accepts.{
  IsRequest, accept, accept-Accepted, follow-Followed, is_consistent_lem,
}

-- The ways a request can go, with what decides it.
module _ (now unix_now : ℕ) (args : AppendEntriesArgs) (n : RaftNode) where
  abbrev refusal : RaftNode × AppendReplyArgs
  refusal = (n, record { term = n.current_term; success = false })

  refuses_old :
      ltb args.term n.current_term ≡ true → handle_append_entries now unix_now args n ≡ refusal
  unfolding handle_append_entries
  refuses_old old = rw (handle_append_entries, old) refl

  module _ (new : ltb args.term n.current_term ≡ false) where
    refuses_leading :
        (args.term == n.current_term && is_leader n.state) ≡ true
        → handle_append_entries now unix_now args n ≡ refusal
    unfolding handle_append_entries
    refuses_leading leads = rw (handle_append_entries, new, leads) refl

    module _ (follows : (args.term == n.current_term && is_leader n.state) ≡ false) where
      refuses_gap :
          is_consistent args.prev_log_index args.prev_log_term (follow now args.term n).log ≡ false
          → handle_append_entries now unix_now args n ≡ (
            follow now args.term n,
            record { term = (follow now args.term n).current_term; success = false },
          )
      unfolding handle_append_entries
      refuses_gap c = rw (handle_append_entries, new, follows, c) refl

      accepts :
          is_consistent args.prev_log_index args.prev_log_term (follow now args.term n).log ≡ true
          → handle_append_entries now unix_now args n ≡ (
            accept unix_now args (follow now args.term n),
            record { term = (follow now args.term n).current_term; success = true },
          )
      unfolding handle_append_entries
      accepts c = rw (handle_append_entries, new, follows, c) refl

-- A follower of the term only notes the time.
follow_same :
    (later term : ℕ) (a : RaftNode)
    → a.current_term ≡ term
    → a.state ≡ follower
    → follow later term a ≡ record a { last_heartbeat = later }
unfolding follow
follow_same later term a t s =
    let same : ltb a.current_term term ≡ false = ground arith in
    rw (same, follow) (ap (λ x. record a { state = x; last_heartbeat = later }) (sym s))

-- What the second delivery of a request changes: at most the time of the last heartbeat.
abbrev pub Repeated : ℕ → ℕ → AppendEntriesArgs → RaftNode × AppendReplyArgs → Type 0
Repeated later unix_later args (a, reply) = handle_append_entries later unix_later args a ≡ (
  record a { last_heartbeat = (handle_append_entries later unix_later args a).0.last_heartbeat },
  reply,
)

touched :
    (later unix_later t : ℕ) (args : AppendEntriesArgs) (a : RaftNode) (reply : AppendReplyArgs)
    → handle_append_entries later unix_later args a ≡ (record a { last_heartbeat = t }, reply)
    → Repeated later unix_later args (a, reply)
touched later unix_later t args a reply e =
    subst (λ r. r ≡ (record a { last_heartbeat = r.0.last_heartbeat }, reply)) (sym e) refl

-- At a node that follows the leader of the term.
module _ (later unix_later : ℕ) (args : AppendEntriesArgs) (a : RaftNode)
    (t : a.current_term ≡ args.term) (s : a.state ≡ follower) where
  new_again : ltb args.term a.current_term ≡ false
  new_again = ground arith

  follows_again : (args.term == a.current_term && is_leader a.state) ≡ false
  follows_again = rw s (ground arith)

  again_gap :
      is_consistent args.prev_log_index args.prev_log_term a.log ≡ false
      → Repeated later unix_later args (a, record { term = args.term; success = false })
  again_gap c =
      let e = follow_same later args.term a t s in
      let gap : is_consistent args.prev_log_index args.prev_log_term (follow later args.term a).log
          ≡ false =
        ap (λ m. is_consistent args.prev_log_index args.prev_log_term m.log) e ∙ c in
      touched later unix_later later args a _ (
        refuses_gap later unix_later args a new_again follows_again gap
        ∙ ap (λ m. (m, record { term = m.current_term; success = false })) e
        ∙ ap (λ x. (record a { last_heartbeat = later }, record { term = x; success = false })) t)

  again_accept :
      IsRequest args
      → is_consistent args.prev_log_index args.prev_log_term a.log ≡ true
      → Holds args.prev_log_index args.entries a.log
      → Settled args.leader_commit a
      → Repeated later unix_later args (a, record { term = args.term; success = true })
  again_accept request c holds settled =
      let e = follow_same later args.term a t s in
      let fits : is_consistent args.prev_log_index args.prev_log_term (follow later args.term a).log
          ≡ true =
        ap (λ m. is_consistent args.prev_log_index args.prev_log_term m.log) e ∙ c in
      touched later unix_later later args a _ (
        accepts later unix_later args a new_again follows_again fits
        ∙ ap (λ m. (accept unix_later args m, record { term = m.current_term; success = true })) e
        ∙ ap (λ m. (m, record { term = a.current_term; success = true }))
            (accept_again unix_later args (record a { last_heartbeat = later }) request holds
              settled)
        ∙ ap (λ x. (record a { last_heartbeat = later }, record { term = x; success = true })) t)

is_consistent_of :
    (prev term : ℕ) (log : List LogEntry)
    → (0 < prev → log_term (prev - 1) log ≡ some term)
    → is_consistent prev term log ≡ true
unfolding is_consistent
is_consistent_of prev term log h = elim (Bool-cases (ltb 0 prev)) [
  | inr first ↦ ground arith
  | inl later ↦
      let found = h (ground arith) in
      elim (Option-cases (get_elem? log (prev - 1))) [
        | inl missing ↦ absurd (ground arith)
        | inr (e, at) ↦ ground arith
      ]
]

again_accepted :
    (now unix_now later unix_later : ℕ) (args : AppendEntriesArgs) (n : RaftNode)
    → IsRequest args
    → Indexed 0 n.log
    → n.current_term ≤ args.term
    → is_consistent args.prev_log_index args.prev_log_term (follow now args.term n).log ≡ true
    → Repeated later unix_later args
        (accept unix_now args (follow now args.term n), record { term = args.term; success = true })
again_accepted now unix_now later unix_later args n request indexed newer c =
    let f = follow now args.term n in
    let followed = follow-Followed now args.term n in
    let taken = accept-Accepted unix_now args n f request indexed followed newer c in
    let reach = (is_consistent_lem _ _ f.log c).0 in
    let carried =
      append_all-Carried args.prev_log_index args.entries f reach request.0 request.1
        (subst (Indexed 0) (sym followed.log) indexed) in
    let quiet : is_leader (append_all args.entries f).state ≡ false =
      ap is_leader (carried.state ∙ followed.state) in
    again_accept later unix_later args (accept unix_now args f) taken.term taken.state request
      (is_consistent_of _ _ _ taken.previous) taken.holds
      (advance_commit-Settled unix_now args.leader_commit (append_all args.entries f) quiet)

-- A request that is delivered a second time gets the reply of the first, at whatever later time, and
-- changes nothing of the node but the time of the last heartbeat; provided its entries carry their
-- positions as indices, as the entries of the node's log do.
pub handle_append_entries-Repeated :
    (now unix_now later unix_later : ℕ) (args : AppendEntriesArgs) (n : RaftNode)
    → IsRequest args
    → Indexed 0 n.log
    → Repeated later unix_later args (handle_append_entries now unix_now args n)
handle_append_entries-Repeated now unix_now later unix_later args n request indexed =
    elim (Bool-cases (ltb args.term n.current_term)) [
      | inl old ↦
          subst (Repeated later unix_later args) (sym (refuses_old now unix_now args n old)) (
            touched later unix_later n.last_heartbeat args n _
              (refuses_old later unix_later args n old))
      | inr new ↦ elim (Bool-cases (args.term == n.current_term && is_leader n.state)) [
        | inl leads ↦
            subst (Repeated later unix_later args)
              (sym (refuses_leading now unix_now args n new leads))
              (touched later unix_later n.last_heartbeat args n _
                (refuses_leading later unix_later args n new leads))
        | inr follows ↦
            let newer : n.current_term ≤ args.term = ground arith in
            let f = follow-Followed now args.term n in
            elim (Bool-cases
              (is_consistent args.prev_log_index args.prev_log_term (follow now args.term n).log)) [
                | inl c ↦
                    subst (Repeated later unix_later args)
                      (sym (accepts now unix_now args n new follows c))
                      (subst
                        (λ x. Repeated later unix_later args (
                          accept unix_now args (follow now args.term n),
                          record { term = x; success = true },
                        ))
                        (sym (f.term newer))
                        (again_accepted now unix_now later unix_later args n request indexed newer
                          c))
                | inr c ↦
                    subst (Repeated later unix_later args)
                      (sym (refuses_gap now unix_now args n new follows c))
                      (subst
                        (λ x.
                          Repeated later unix_later args
                            (follow now args.term n, record { term = x; success = false }))
                        (sym (f.term newer))
                        (again_gap later unix_later args (follow now args.term n) (f.term newer)
                          f.state c))
              ]
      ]
    ]
