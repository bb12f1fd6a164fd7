-- ===== src/Timers/Stuck.antt =====
-- The election timer of a node that is a candidate or a pre-candidate, raft/timer.rs.
use oxide_kv.Common.{
  ℕ, zero, suc, ◌≡◌, refl, ap, sym, Bool, true, false, Option, none, some, List, [], ◌∷◌, ◌++◌, All,
}
use mathlib.Core.Path.{subst}
use oxide_kv.Raft.{RaftNode, is_leader, is_follower}
use oxide_kv.Raft.Election.{VoteRound, become_pre_candidate}
use oxide_kv.Visits.{Visit, Task, M, continue, visit, take_visit, write}
use oxide_kv.Timers.{is_due, probe, when_due, timer_round, run_election_timer}

-- Neither a leader nor a follower.
abbrev pub IsStanding : RaftNode → Type 0
IsStanding n = (is_leader n.state ≡ false) × (is_follower n.state ≡ false)

-- What a task finds and what it has written.
abbrev pub Standing : Task → Type 0
Standing t = All (λ v. IsStanding v.node) t.visits × All IsStanding t.written

abbrev Given : {A : Type 0} → (A → Type 0) → Option A → Type 0
Given P none = Unit
Given P (some a) = P a

-- A result, if there is one, has a property, and the node stands throughout.
abbrev pub Leaves : {A : Type 0} → (A → Type 0) → Option A × Task → Type 0
Leaves P r = Given P r.0 × Standing r.1

continue-Leaves :
    {A B : Type 0} (P : A → Type 0) (Q : B → Type 0) (f : A → M B) (r : Option A × Task)
    → ((a : A) (t : Task) → P a → Standing t → Leaves Q (f a t))
    → Leaves P r
    → Leaves Q (continue f r)
continue-Leaves P Q f (none, t) next h = (tt, h.1)
continue-Leaves P Q f (some a, t) next h = next a t h.0 h.1

visit-Leaves : (t : Task) → Standing t → Leaves (λ v. IsStanding v.node) (visit t)
unfolding visit
visit-Leaves t s = taken t.visits t.written s.0 s.1
  where
    taken :
        (vs : List Visit) (w : List RaftNode)
        → All (λ v. IsStanding v.node) vs
        → All IsStanding w
        → Leaves (λ v. IsStanding v.node) (take_visit vs w)
    taken [] w sv sw = (tt, (tt, sw))
    taken (v ∷ vs) w sv sw = (sv.0, (sv.1, sw))

write-Leaves :
    (n : RaftNode) (t : Task) → IsStanding n → Standing t → Leaves (λ _. Unit {0}) (write n t)
unfolding write
write-Leaves n t stands s = (tt, (s.0, added t.written s.1))
  where
    added : (w : List RaftNode) → All IsStanding w → All IsStanding (w ++ n ∷ [])
    added [] sw = (stands, tt)
    added (m ∷ w) sw = (sw.0, added w sw.1)

-- Such a node does not probe, and is left as it is.
become_pre_candidate_standing :
    (now : ℕ) (n : RaftNode) → IsStanding n → become_pre_candidate now n ≡ (n, none)
unfolding become_pre_candidate
become_pre_candidate_standing now n stands = rw stands.1 refl

abbrev NoProbe : Option VoteRound → Type 0
NoProbe p = p ≡ none

probe-Leaves : (t : Task) → Standing t → Leaves NoProbe (probe t)
probe-Leaves t s =
    continue-Leaves (λ v. IsStanding v.node) NoProbe _ (visit t)
      (λ x t1 stands s1.
        let same = become_pre_candidate_standing x.now x.node stands in
        continue-Leaves (λ _. Unit {0}) NoProbe _ (write (become_pre_candidate x.now x.node).0 t1)
          (λ _ t2 _ s2. (ap (λ r. r.1) same, s2))
          (write-Leaves _ t1 (subst (λ r. IsStanding r.0) (sym same) stands) s1))
      (visit-Leaves t s)

when_due-Leaves :
    (due : Bool) (m : M (Option VoteRound)) (t : Task)
    → ((u : Task) → Standing u → Leaves NoProbe (m u))
    → Standing t
    → Leaves NoProbe (when_due due m t)
when_due-Leaves true m t h s = h t s
when_due-Leaves false m t h s = (refl, s)

timer_round-Leaves :
    (threshold : ℕ) (t : Task) → Standing t → Leaves NoProbe (timer_round threshold t)
unfolding timer_round
timer_round-Leaves threshold t s =
    continue-Leaves (λ v. IsStanding v.node) NoProbe _ (visit t)
      (λ v t1 _ s1.
        when_due-Leaves (is_due threshold v) _ t1
          (λ t2 s2.
            continue-Leaves (λ w. IsStanding w.node) NoProbe _ (visit t2)
              (λ w t3 _ s3. when_due-Leaves (is_due threshold w) probe t3 probe-Leaves s3)
              (visit-Leaves t2 s2))
          s1)
      (visit-Leaves t s)

-- As long as a node is a candidate or a pre-candidate, as after an election or a probe that found
-- no majority, its election timer starts no probe in any number of rounds, whatever time passes, and
-- leaves the node a candidate or a pre-candidate.
pub run_election_timer-Leaves :
    (rounds threshold : ℕ) (t : Task)
    → Standing t
    → Leaves (All (λ p. p ≡ none)) (run_election_timer rounds threshold t)
unfolding run_election_timer
run_election_timer-Leaves zero threshold t s = (tt, s)
run_election_timer-Leaves (suc rounds) threshold t s =
    continue-Leaves NoProbe (All (λ p. p ≡ none)) _ (timer_round threshold t)
      (λ started t1 quiet s1.
        continue-Leaves (All (λ p. p ≡ none)) (All (λ p. p ≡ none)) _
          (run_election_timer rounds threshold t1) (λ later t2 still s2. ((quiet, still), s2))
          (run_election_timer-Leaves rounds threshold t1 s1))
      (timer_round-Leaves threshold t s)
