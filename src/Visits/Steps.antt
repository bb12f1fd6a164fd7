-- ===== src/Visits/Steps.antt =====
-- What a task that is through has been through.
use oxide_kv.Common.{
  ℕ, ◌≡◌, refl, ap, sym, ◌∙◌, ◌++◌, Option, none, some, List, [], ◌∷◌, Option-cases, inl, inr,
}
use oxide_kv.Raft.{RaftNode}
use oxide_kv.Visits.{Visit, Task, M, continue, polled, poll, poll_visits, visit, take_visit, write}
use oxide_kv.Visits.Polls.{Returned, poll_visits-Returned}

-- The steps before and after the first one of a task that is through.
pub continue-some :
    {A B : Type 0} (f : A → M B) (r : Option A × Task) (b : B) (t' : Task)
    → continue f r ≡ (some b, t')
    → (a : A) × (t : Task) × (r ≡ (some a, t)) × (f a t ≡ (some b, t'))
continue-some f (none, t) b t' h = absurd (cc)
continue-some f (some a, t) b t' h = (a, t, refl, h)

pub visit-visits : (t t' : Task) (v : Visit) → visit t ≡ (some v, t') → t.visits ≡ v ∷ t'.visits
unfolding visit
visit-visits t t' v h = first t.visits t.written t' v h
  where
    first :
        (vs : List Visit) (w : List RaftNode) (t' : Task) (v : Visit)
        → take_visit vs w ≡ (some v, t')
        → vs ≡ v ∷ t'.visits
    first [] w t' v h = absurd (cc)
    first (x ∷ vs) w t' v h =
        let same : some x ≡ some v = ap (λ r. r.0) h in
        let rest : vs ≡ t'.visits = ap (λ r. r.1.visits) h in cc

pub visit-written : (t t' : Task) (v : Visit) → visit t ≡ (some v, t') → t'.written ≡ t.written
unfolding visit
visit-written t t' v h = kept t.visits t.written t' v h
  where
    kept :
        (vs : List Visit) (w : List RaftNode) (t' : Task) (v : Visit)
        → take_visit vs w ≡ (some v, t')
        → t'.written ≡ w
    kept [] w t' v h = absurd (cc)
    kept (x ∷ vs) w t' v h = sym (ap (λ r. r.1.written) h)

pub write-visits :
    (n : RaftNode) (t t' : Task) (u : Unit {0}) → write n t ≡ (some u, t') → t'.visits ≡ t.visits
unfolding write
write-visits n t t' u h = sym (ap (λ r. r.1.visits) h)

pub write-written :
    (n : RaftNode) (t t' : Task) (u : Unit {0})
    → write n t ≡ (some u, t')
    → t'.written ≡ t.written ++ n ∷ []
unfolding write
write-written n t t' u h = sym (ap (λ r. r.1.written) h)

pub poll-written :
    {R : Type 0} (look : ℕ → RaftNode → Option R) (t t' : Task) (r : R)
    → poll look t ≡ (some r, t')
    → t'.written ≡ t.written
unfolding poll
poll-written {R} look t t' r h = kept (poll_visits look t.visits) h
  where
    kept :
        (o : Option (R × List Visit)) → polled t.written o ≡ (some r, t') → t'.written ≡ t.written
    kept none h = absurd (cc)
    kept (some (q, rest)) h = sym (ap (λ p. p.1.written) h)

pub poll-Returned :
    {R : Type 0} (look : ℕ → RaftNode → Option R) (t t' : Task) (r : R)
    → poll look t ≡ (some r, t')
    → Returned look r t.visits t'.visits
unfolding poll
poll-Returned look t t' r h = elim (Option-cases (poll_visits look t.visits)) [
  | inl waiting ↦
      let never : (polled t.written none).0 ≡ some r =
        ap (λ o. (polled t.written o).0) (sym waiting) ∙ ap (λ x. x.0) h in
      absurd (cc)
  | inr (q, found) ↦
      let e : polled t.written (some q) ≡ (some r, t') = ap (polled t.written) (sym found) ∙ h in
      let same : some q.0 ≡ some r = ap (λ x. x.0) e in
      let rest : q.1 ≡ t'.visits = ap (λ x. x.1.visits) e in
      let all : some q ≡ some (r, t'.visits) = cc in
      poll_visits-Returned look t.visits t'.visits r (found ∙ all)
]
