-- ===== src/Invariants/Leaders.antt =====
-- What `check_election_safety` of raft/invariants.rs says of a cluster that passes it.
use oxide_kv.Common.{
  ℕ, suc, ◌+◌, ◌≤◌, ◌≡◌, ◌≢◌, ◌∙◌, ap, sym, true, List, [], ◌∷◌, ◌++◌, arith, All, length,
  length-append, ◌==◌, ltb, if◌then◌else◌, Bool-cases, inl, inr,
}
use oxide_kv.Text.{Str}
use oxide_kv.Raft.{is_leader}
use oxide_kv.Invariants.{
  SimNode, passed, add_leader, leaders_by_term, check_terms, check_election_safety,
}
use oxide_kv.Invariants.Pairs.{AllPairs}

-- How many leaders of a term the map has, looked up the way that `add_leader` goes.
unfoldable leaders_at : ℕ → List (ℕ × List Str) → ℕ
leaders_at t [] = 0
leaders_at t ((u, ids) ∷ by_term) =
    let rest = leaders_at t by_term in if t == u then length ids else if ltb t u then 0 else rest

-- How many nodes lead in a term.
unfoldable leader_count : ℕ → List SimNode → ℕ
leader_count t [] = 0
leader_count t (node ∷ nodes) =
    let rest = leader_count t nodes in
    if is_leader node.raft.state
    then (if node.raft.current_term == t then suc rest else rest)
    else rest

push_one : (ids : List Str) (id : Str) → length (ids ++ id ∷ []) ≡ suc (length ids)
push_one ids id = length-append ids (id ∷ []) ∙ omega arith

leaders_at-add_leader_same :
    (t : ℕ) (id : Str) (m : List (ℕ × List Str))
    → leaders_at t (add_leader t id m) ≡ suc (leaders_at t m)
unfolding leaders_at add_leader
leaders_at-add_leader_same t id [] = ground arith
leaders_at-add_leader_same t id ((u, ids) ∷ m) =
    let ih = leaders_at-add_leader_same t id m in let pushed = push_one ids id in ground arith

leaders_at-add_leader_other :
    (t w : ℕ) (id : Str) (m : List (ℕ × List Str))
    → w ≢ t
    → leaders_at w (add_leader t id m) ≡ leaders_at w m
unfolding leaders_at add_leader
leaders_at-add_leader_other t w id [] ne = ground arith
leaders_at-add_leader_other t w id ((u, ids) ∷ m) ne =
    let ih = leaders_at-add_leader_other t w id m ne in ground arith

check_terms-leaders_at :
    (t : ℕ) (m : List (ℕ × List Str)) → check_terms m ≡ passed → leaders_at t m ≤ 1
unfolding leaders_at check_terms
check_terms-leaders_at t [] h = omega arith
check_terms-leaders_at t ((u, ids) ∷ m) h = elim (Bool-cases (ltb 1 (length ids))) [
  | inl many ↦ absurd (ground arith)
  | inr few ↦ let ih = check_terms-leaders_at t m (ground arith) in ground arith
]

-- The map after one node.
abbrev after : SimNode → List (ℕ × List Str) → List (ℕ × List Str)
after node m = if is_leader node.raft.state then add_leader node.raft.current_term node.id m else m

leaders_at-after :
    (t : ℕ) (node : SimNode) (m : List (ℕ × List Str)) (n : ℕ)
    → leaders_at t (after node m) + n
      ≡ leaders_at t m
        + (if is_leader node.raft.state
            then (if node.raft.current_term == t then suc n else n)
            else n)
leaders_at-after t node m n = elim (Bool-cases (is_leader node.raft.state)) [
  | inr follows ↦ ground arith
  | inl leads ↦ elim (Bool-cases (node.raft.current_term == t)) [
    | inl here ↦
        let at : node.raft.current_term ≡ t = ground arith in
        let added : List (ℕ × List Str) = add_leader node.raft.current_term node.id m in
        let grown : leaders_at t added ≡ suc (leaders_at t m) =
          ap (λ x. leaders_at x added) (sym at)
          ∙ leaders_at-add_leader_same node.raft.current_term node.id m
          ∙ ap (λ x. suc (leaders_at x m)) at in
        ground arith
    | inr elsewhere ↦
        let past : t ≢ node.raft.current_term = ground arith in
        let kept = leaders_at-add_leader_other node.raft.current_term t node.id m past in
        ground arith
  ]
]

leaders_at-leaders_by_term :
    (t : ℕ) (nodes : List SimNode) (m : List (ℕ × List Str))
    → leaders_at t (leaders_by_term nodes m) ≡ leaders_at t m + leader_count t nodes
unfolding leaders_by_term leader_count
leaders_at-leaders_by_term t [] m = omega arith
leaders_at-leaders_by_term t (node ∷ nodes) m =
    leaders_at-leaders_by_term t nodes (after node m)
    ∙ leaders_at-after t node m (leader_count t nodes)

-- Not both lead in one term.
abbrev pub OneLeads : SimNode → SimNode → Type 0
OneLeads a b =
    is_leader a.raft.state ≡ true
    → is_leader b.raft.state ≡ true
    → a.raft.current_term ≢ b.raft.current_term

none_lead :
    (a : SimNode) (nodes : List SimNode)
    → (is_leader a.raft.state ≡ true → leader_count a.raft.current_term nodes ≡ 0)
    → All (OneLeads a) nodes
unfolding leader_count
none_lead a [] h = tt
none_lead a (b ∷ nodes) h = (
  (λ first second same.
      let z = h first in
      let here : (b.raft.current_term == a.raft.current_term) ≡ true = ground arith in
      ground arith),
  none_lead a nodes (λ leads. let z = h leads in ground arith),
)

AllPairs-leader_count :
    (nodes : List SimNode) → ((t : ℕ) → leader_count t nodes ≤ 1) → AllPairs OneLeads nodes
unfolding leader_count
AllPairs-leader_count [] h = tt
AllPairs-leader_count (a ∷ nodes) h = (
  none_lead a nodes (λ leads.
      let few = h a.raft.current_term in
      (let here : (a.raft.current_term == a.raft.current_term) ≡ true = ground arith in
        ground arith)),
  AllPairs-leader_count nodes (λ t. let few = h t in ground arith),
)

-- A cluster that passes the election-safety check has no two nodes that are leaders of the same term.
pub check_election_safety-AllPairs :
    (nodes : List SimNode) → check_election_safety nodes ≡ passed → AllPairs OneLeads nodes
unfolding check_election_safety leaders_at
check_election_safety-AllPairs nodes h = AllPairs-leader_count nodes (λ t.
    let few = check_terms-leaders_at t (leaders_by_term nodes []) h in
    let counted = leaders_at-leaders_by_term t nodes [] in omega arith)
