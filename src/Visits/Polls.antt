-- ===== src/Visits/Polls.antt =====
-- How a polling loop ends.
use oxide_kv.Common.{
  ℕ, ◌≡◌, ap, ◌∙◌, ◌++◌, All, Option, none, some, List, [], ◌∷◌, inl, inr, arith, Option-cases, ◌+◌,
  ◌*◌, ◌<◌, ◌≤◌, suc, zero, length,
}
use oxide_kv.Raft.{RaftNode}
use oxide_kv.Visits.{Visit, poll_visits}

-- The first visit at which the body returns, with the visits before it and after it.
pub record Returned {R : Type 0} (look : ℕ → RaftNode → Option R) (r : R) (vs rest : List Visit)
    : Type 0 where
  pub before : List Visit
  pub at : Visit
  pub split : vs ≡ before ++ at ∷ rest
  pub waited : All (λ v. look v.now v.node ≡ none) before
  pub found : look at.now at.node ≡ some r

pub poll_visits-Returned :
    {R : Type 0} (look : ℕ → RaftNode → Option R) (vs rest : List Visit) (r : R)
    → poll_visits look vs ≡ some (r, rest)
    → Returned look r vs rest
unfolding poll_visits
poll_visits-Returned look [] rest r h = absurd (cc)
poll_visits-Returned look (v ∷ vs) rest r h = elim (Option-cases (look v.now v.node)) [
  | inl more ↦
      let later = poll_visits-Returned look vs rest r (ground arith) in
      record {
        before = v ∷ later.before;
        at = later.at;
        split = ap (◌∷◌ v) later.split;
        waited = (more, later.waited);
        found = later.found;
      }
  | inr (q, found) ↦
      let left : vs ≡ rest = ground arith in
      let same : q ≡ r = ground arith in
      record {
        before = [];
        at = v;
        split = ap (◌∷◌ v) left;
        waited = tt;
        found = found ∙ ap some same;
      }
]

-- Visits at least `gap` apart, the first of them at `from` or later.
abbrev pub Paced : ℕ → ℕ → List Visit → Type 0
Paced gap from [] = Unit
Paced gap from (v ∷ vs) = (from ≤ v.now) × Paced gap (v.now + gap) vs

-- A loop whose body returns after some time returns within so many visits.
pub poll_visits-ends :
    {R : Type 0} (look : ℕ → RaftNode → Option R) (gap deadline : ℕ)
    → ((now : ℕ) (n : RaftNode) → deadline < now → (r : R) × (look now n ≡ some r))
    → (k from : ℕ) (vs : List Visit) → Paced gap from vs
    → deadline < from + k * gap
    → k < length vs
    → (r : R) × (rest : List Visit) × (poll_visits look vs ≡ some (r, rest))
      × (length vs ≤ length rest + k + 1)
unfolding poll_visits
poll_visits-ends look gap deadline late k from [] paced enough long = absurd (omega arith)
poll_visits-ends look gap deadline late zero from (v ∷ vs) paced enough long =
    let (q, found) = late v.now v.node (omega arith) in (q, vs, ground arith, omega arith)
poll_visits-ends look gap deadline late (suc k) from (v ∷ vs) paced enough long =
    elim (Option-cases (look v.now v.node)) [
      | inr (q, found) ↦ (q, vs, ground arith, omega arith)
      | inl more ↦
          let after : deadline < v.now + gap + k * gap = grind arith in
          let (q, rest, e, few) =
            poll_visits-ends look gap deadline late k (v.now + gap) vs paced.1 after
              (omega arith) in
          (q, rest, ground arith, omega arith)
    ]
