-- ===== src/Client/Reads.antt =====
-- What a read that client.rs answers rests on.
use oxide_kv.Common.{
  ℕ, ◌+◌, ◌-◌, ◌<◌, ◌≡◌, refl, ap, sym, ◌∙◌, ◌++◌, Bool, true, false, Option, none, some, List, [],
  ◌∷◌, if◌then◌else◌, ltb, arith, Bool-cases, inl, inr, length, ◌≤◌,
}
use oxide_kv.Text.{Str}
use oxide_kv.Protocol.{ReadIndex}
use oxide_kv.Lsm
use oxide_kv.Raft.{RaftNode, is_leader}
use oxide_kv.Raft.Apply.{apply_logs}
use oxide_kv.Raft.Reads.{begin_read, confirm_read}
use oxide_kv.Visits.{Visit, Task, ◌>>=◌, ◌>>◌, pure, visit, write, poll, poll_visits}
use oxide_kv.Visits.Polls.{Paced, poll_visits-Returned, poll_visits-ends}
use oxide_kv.Visits.Steps.{
  continue-some, poll-Returned, poll-written, visit-visits, visit-written, write-visits,
  write-written,
}
use oxide_kv.Client.Waits.{Waited, look_confirmed_lem, look_confirmed-Waited}
use oxide_kv.Client.{
  Settings, read_response, not_a_leader, read_timeout, read_wait_ms, look_confirmed, read_value,
  confirm_and_read, read_index, read_alone, read_by_size, linearizable_get,
}

read_response_injective : (x y : Option Str) → read_response x ≡ read_response y → x ≡ y
read_response_injective none none h = refl
read_response_injective none (some v) h = absurd (cc)
read_response_injective (some v) none h = absurd (cc)
read_response_injective (some u) (some v) h = ap some (cc)

refusal-read_response : (y : Option Str) → ¬ (some not_a_leader ≡ some (read_response y))
refusal-read_response none e = absurd (cc)
refusal-read_response (some v) e = absurd (cc)

-- What a task that reads has found and written. At its first visit the node has no peers, it leads at
-- the second, where its committed entries are applied, and it is read at the third; or it has peers, a
-- token is taken at the second and confirmed at a later one, and the node is read right after that.
pub data Read (s : Settings) (key : Str) (x : Option Str) (t t' : Task) : Type 0 where
  alone :
      (sized v w : Visit)
      → t.visits ≡ sized ∷ v ∷ w ∷ t'.visits
      → t'.written ≡ t.written ++ apply_logs s.unix_now v.node ∷ []
      → sized.node.peers ≡ []
      → is_leader v.node.state ≡ true
      → Lsm.get key w.node.state_machine ≡ x
      → Read s key x t t'
  confirmed :
      (sized begun w at : Visit) (before : List Visit) (ri : ReadIndex)
      → t.visits ≡ sized ∷ begun ∷ before ++ at ∷ w ∷ t'.visits
      → t'.written ≡ t.written ++ (begin_read begun.now s.unix_now begun.node).0 ∷ []
      → ¬ (sized.node.peers ≡ [])
      → (begin_read begun.now s.unix_now begun.node).2 ≡ some ri
      → confirm_read s.max_election_timeout_ms at.now ri at.node ≡ true
      → Lsm.get key w.node.state_machine ≡ x
      → Read s key x t t'

read_value_lem :
    (key : Str) (c : Bool) (x : Option Str) (t t' : Task)
    → read_value key c t ≡ (some (read_response x), t')
    → (c ≡ true)
      × ((w : Visit) × (t.visits ≡ w ∷ t'.visits)
          × (t'.written ≡ t.written)
          × (Lsm.get key w.node.state_machine ≡ x))
unfolding read_value
read_value_lem key false none t t' h =
    let e : some read_timeout ≡ some (read_response none) = ap (λ p. p.0) h in absurd (cc)
read_value_lem key false (some v) t t' h =
    let e : some read_timeout ≡ some (read_response (some v)) = ap (λ p. p.0) h in absurd (cc)
read_value_lem key true x t t' h =
    let (w, t1, e1, h1) = continue-some _ (visit t) (read_response x) t' h in
    let value : some (read_response (Lsm.get key w.node.state_machine)) ≡ some (read_response x) =
      ap (λ p. p.0) h1 in
    let rest : t1 ≡ t' = ap (λ p. p.1) h1 in
    (
      refl,
      (
        w,
        visit-visits t t1 w e1 ∙ ap (λ u. w ∷ u.visits) rest,
        sym (ap (λ u. u.written) rest) ∙ visit-written t t1 w e1,
        read_response_injective _ x (cc),
      ),
    )

module _ (s : Settings) (key : Str) (x : Option Str) where
  -- A task at its second visit: the first is left behind.
  record Second (sized v : Visit) (t t1 : Task) : Type 0 where
    visits : t.visits ≡ sized ∷ v ∷ t1.visits
    written : t1.written ≡ t.written

  after_token :
      (sized begun : Visit) (token : Option ReadIndex) (t t1 t2 t' : Task) (u : Unit {0})
      → Second sized begun t t1
      → ¬ (sized.node.peers ≡ [])
      → write (begin_read begun.now s.unix_now begun.node).0 t1 ≡ (some u, t2)
      → (begin_read begun.now s.unix_now begun.node).2 ≡ token
      → confirm_and_read s key begun.now token t2 ≡ (some (read_response x), t')
      → Read s key x t t'
  after_token sized begun none t t1 t2 t' u second large wrote token h =
      absurd (refusal-read_response x (ap (λ p. p.0) h))
  after_token sized begun (some ri) t t1 t2 t' u second large wrote token h =
      let look = look_confirmed s.max_election_timeout_ms begun.now ri in
      let (c, t3, e3, h3) = continue-some _ (poll look t2) (read_response x) t' h in
      let (held, (w, next, kept, value)) = read_value_lem key c x t3 t' h3 in
      let ran : poll look t2 ≡ (some true, t3) = e3 ∙ ap (λ b. (some b, t3)) held in
      let polled = poll-Returned look t2 t3 true ran in
      let node = (begin_read begun.now s.unix_now begun.node).0 in
      confirmed sized begun w polled.at polled.before ri
        (second.visits
          ∙ ap (λ vs. sized ∷ begun ∷ vs)
              (sym (write-visits node t1 t2 u wrote)
                ∙ polled.split
                ∙ ap (λ vs. polled.before ++ polled.at ∷ vs) next))
        (kept
          ∙ poll-written look t2 t3 true ran
          ∙ write-written node t1 t2 u wrote
          ∙ ap (λ ns. ns ++ node ∷ []) second.written)
        large token
        (look_confirmed_lem s.max_election_timeout_ms begun.now polled.at.now ri polled.at.node
          polled.found)
        value

  visit-Second :
      (sized v : Visit) (t t1 t2 : Task)
      → visit t ≡ (some sized, t1)
      → visit t1 ≡ (some v, t2)
      → Second sized v t t2
  visit-Second sized v t t1 t2 e1 e2 = record {
    visits = visit-visits t t1 sized e1 ∙ ap (◌∷◌ sized) (visit-visits t1 t2 v e2);
    written = visit-written t1 t2 v e2 ∙ visit-written t t1 sized e1;
  }

  with_peers :
      (sized : Visit) (t t1 t' : Task)
      → visit t ≡ (some sized, t1)
      → ¬ (sized.node.peers ≡ [])
      → read_index s key t1 ≡ (some (read_response x), t')
      → Read s key x t t'
  unfolding read_index
  with_peers sized t t1 t' first large h =
      let (v, t2, e2, h2) = continue-some _ (visit t1) (read_response x) t' h in
      let (u, t3, e3, h3) =
        continue-some _ (write (begin_read v.now s.unix_now v.node).0 t2) (read_response x) t' h2 in
      after_token sized v _ t t2 t3 t' u (visit-Second sized v t t1 t2 first e2) large e3 refl h3

  by_itself :
      (sized : Visit) (t t1 t' : Task)
      → visit t ≡ (some sized, t1)
      → sized.node.peers ≡ []
      → read_alone s key t1 ≡ (some (read_response x), t')
      → Read s key x t t'
  unfolding read_alone read_value
  by_itself sized t t1 t' first small h =
      let (v, t2, e2, h2) = continue-some _ (visit t1) (read_response x) t' h in
      led (is_leader v.node.state) v t2 refl (visit-Second sized v t t1 t2 first e2) h2
    where
      led :
          (b : Bool) (v : Visit) (t2 : Task)
          → is_leader v.node.state ≡ b
          → Second sized v t t2
          → (if b
                then (do
                  write (apply_logs s.unix_now v.node)
                  w ← visit
                  pure (read_response (Lsm.get key w.node.state_machine)))
                else pure not_a_leader)
              t2
            ≡ (some (read_response x), t')
          → Read s key x t t'
      led false v t2 follows second h2 = absurd (refusal-read_response x (ap (λ p. p.0) h2))
      led true v t2 leads second h2 =
          let node = apply_logs s.unix_now v.node in
          let (u, t3, e3, h3) = continue-some _ (write node t2) (read_response x) t' h2 in
          let (held, (w, next, kept, value)) = read_value_lem key true x t3 t' h3 in
          alone sized v w
            (second.visits ∙ ap (λ vs. sized ∷ v ∷ vs) (sym (write-visits node t2 t3 u e3) ∙ next))
            (kept ∙ write-written node t2 t3 u e3 ∙ ap (λ ns. ns ++ node ∷ []) second.written) small
            leads value

  either :
      (sized : Visit) (peers : List Str) (t t1 t' : Task)
      → visit t ≡ (some sized, t1)
      → sized.node.peers ≡ peers
      → read_by_size s key peers t1 ≡ (some (read_response x), t')
      → Read s key x t t'
  either sized [] t t1 t' first small h = by_itself sized t t1 t' first small h
  either sized (p ∷ ps) t t1 t' first large h =
      with_peers sized t t1 t' first (λ small. absurd (nonempty p ps (sym large ∙ small))) h
    where
      nonempty : (q : Str) (qs : List Str) → ¬ (q ∷ qs ≡ [])
      nonempty q qs e = absurd (cc)

  -- A read that is answered with a value, or with none, found the node at its first visit without
  -- peers, and then it is the content of the store at the third visit, right after the node led at the
  -- second and was written back with its committed entries applied; or with peers, and then it is the
  -- content of the store at a visit right after one at which a read token was confirmed that a leader
  -- had taken at the second visit of the same request.
  pub linearizable_get-Read :
      (t t' : Task) → linearizable_get s key t ≡ (some (read_response x), t') → Read s key x t t'
  unfolding linearizable_get
  linearizable_get-Read t t' h =
      let (v, t1, e1, h1) = continue-some _ (visit t) (read_response x) t' h in
      either v v.node.peers t t1 t' e1 refl h1

-- The wait for a read to be confirmed, its visits 10 ms apart, is over within 202 of them: at the
-- first visit at which the read is confirmed, or at which over two seconds have passed; and the read
-- is reported as confirmed exactly if it is at that visit.
pub look_confirmed-ends :
    (max start : ℕ) (ri : ReadIndex) (vs : List Visit)
    → Paced 10 start vs
    → 201 < length vs
    → (r : Bool) × (rest : List Visit) × (poll_visits (look_confirmed max start ri) vs
        ≡ some (r, rest))
      × Waited max start ri r vs rest
      × (length vs ≤ length rest + 202)
unfolding look_confirmed
look_confirmed-ends max start ri vs paced long =
    let (r, rest, e, few) =
      poll_visits-ends (look_confirmed max start ri) 10 (start + 2000) late 201 start vs paced
        (omega arith) long in
    (
      r,
      rest,
      e,
      look_confirmed-Waited max start ri r vs rest
          (poll_visits-Returned (look_confirmed max start ri) vs rest r e),
      omega arith,
    )
  where
    late :
        (now : ℕ) (n : RaftNode)
        → start + 2000 < now
        → (r : Bool) × (look_confirmed max start ri now n ≡ some r)
    late now n past =
        let over : ltb read_wait_ms (now - start) ≡ true = ground arith in
        elim (Bool-cases (confirm_read max now ri n)) [
          | inl held ↦ (true, ground arith)
          | inr missed ↦ (false, ground arith)
        ]
