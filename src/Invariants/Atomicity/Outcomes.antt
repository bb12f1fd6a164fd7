-- ===== src/Invariants/Atomicity/Outcomes.antt =====
-- What `check_2pc_atomicity` of raft/invariants.rs says of a cluster that passes it.
use oxide_kv.Common.{
  ℕ, ◌≤◌, ◌<◌, ◌≡◌, refl, ap, sym, ◌∙◌, none, some, List, [], ◌∷◌, All, arith, length, Bool-cases,
  Option-cases, inl, inr, Ordering,
}
use mathlib.Core.Path.{subst}
use oxide_kv.Text.{Str, cmp, ◌=s◌, =s_iff}
use oxide_kv.Map
use oxide_kv.Map.{Map}
use oxide_kv.Protocol.{TxDecision, commit, abort}
use oxide_kv.Invariants.{SimNode, passed}
use oxide_kv.Invariants.Pairs.{AllPairs}
use oxide_kv.Invariants.Printing.{fmt_decision}
use oxide_kv.Invariants.Atomicity.{
  Decisions, or_default, record_nodes, insert_outcome, sort_outcomes, dedup_after, dedup, outcomes,
  check_outcomes, check_2pc_atomicity,
}
use oxide_kv.Invariants.Atomicity.Recorded.{
  last_decision, recorded, Named, IsRecorded, record_nodes-IsRecorded,
}

-- Lists of at most one outcome.
module _ (x : Str) where
  abbrev Same : List Str → Type 0
  Same = All (λ y. y ≡ x)

  dedup_after-Same : (ys : List Str) → length (dedup_after x ys) < 1 → Same ys
  unfolding dedup_after
  dedup_after-Same [] h = tt
  dedup_after-Same (y ∷ ys) h = elim (Bool-cases (x =s y)) [
    | inl same ↦ (sym ((=s_iff x y).0 same), dedup_after-Same ys (ground arith))
    | inr other ↦ absurd (ground arith)
  ]

  insert_outcome-Same : (y : Str) (ys : List Str) → Same (insert_outcome y ys) → (y ≡ x) × Same ys
  unfolding insert_outcome
  insert_outcome-Same y [] h = h
  insert_outcome-Same y (z ∷ ys) h = placed (cmp y z) (insert_outcome-Same y ys) h
    where
      placed :
          (o : Ordering)
          → (Same (insert_outcome y ys) → (y ≡ x) × Same ys)
          → Same
              (elim o as (λ _. List Str) [ Ordering.gt ↦ z ∷ insert_outcome y ys | _ ↦ y ∷ z ∷ ys ])
          → (y ≡ x) × Same (z ∷ ys)
      placed Ordering.gt below h = let rest = below h.1 in (rest.0, (h.0, rest.1))
      placed Ordering.lt below h = h
      placed Ordering.eq below h = h

  sort_outcomes-Same : (ys : List Str) → Same (sort_outcomes ys) → Same ys
  unfolding sort_outcomes
  sort_outcomes-Same [] h = tt
  sort_outcomes-Same (y ∷ ys) h =
      let (here, rest) = insert_outcome-Same y (sort_outcomes ys) h in
      (here, sort_outcomes-Same ys rest)

get-Same :
    (x id : Str) (per_node : Map (ℕ × Str)) (d : ℕ × Str)
    → Same x (outcomes per_node)
    → Map.get id per_node ≡ some d
    → d.1 ≡ x
unfolding Map.get
get-Same x id [] d h found = absurd (cc)
get-Same x id ((j, e) ∷ per_node) d h found = elim (Bool-cases (j =s id)) [
  | inl here ↦ let same : some e ≡ some d = ground arith in ap (λ o. o) (cc)
  | inr past ↦ get-Same x id per_node d h.1 (ground arith)
]

at_most_one : (ys : List Str) → length (dedup (sort_outcomes ys)) ≤ 1 → (x : Str) × Same x ys
at_most_one ys h = first (sort_outcomes ys) refl h
  where
    first : (zs : List Str) → sort_outcomes ys ≡ zs → length (dedup zs) ≤ 1 → (x : Str) × Same x ys
    first [] e h = ([], sort_outcomes-Same [] ys (subst (Same []) (sym e) tt))
    first (z ∷ zs) e h = (
      z,
      sort_outcomes-Same z ys (subst (Same z) (sym e) (refl, dedup_after-Same z zs (omega arith))),
    )

check_outcomes-Same :
    (m : Decisions) (tx_id : Str) (per_node : Map (ℕ × Str))
    → check_outcomes m ≡ passed
    → Map.get tx_id m ≡ some per_node
    → (x : Str) × Same x (outcomes per_node)
unfolding check_outcomes Map.get
check_outcomes-Same [] tx_id per_node h found = absurd (cc)
check_outcomes-Same ((t, p) ∷ m) tx_id per_node h found =
    let few : length (dedup (sort_outcomes (outcomes p))) ≤ 1 = ground arith in
    let rest : check_outcomes m ≡ passed = ground arith in
    elim (Bool-cases (t =s tx_id)) [
      | inl here ↦
          let same : some p ≡ some per_node = ground arith in
          let same_node : p ≡ per_node = cc in
          subst (λ q. (x : Str) × Same x (outcomes q)) same_node (at_most_one (outcomes p) few)
      | inr past ↦ check_outcomes-Same m tx_id per_node rest (ground arith)
    ]

fmt_decision_injective : (x y : TxDecision) → fmt_decision x ≡ fmt_decision y → x ≡ y
fmt_decision_injective commit commit e = refl
fmt_decision_injective abort abort e = refl
fmt_decision_injective commit abort e = absurd (cc)
fmt_decision_injective abort commit e = absurd (cc)

-- Two nodes do not end a transaction differently.
abbrev pub Agree : SimNode → SimNode → Type 0
Agree a b =
    (tx_id : Str) (da db : ℕ × TxDecision)
    → last_decision tx_id a.raft.log ≡ some da
    → last_decision tx_id b.raft.log ≡ some db
    → da.1 ≡ db.1

get_empty : (id : Str) → Map.get {V = ℕ × Str} id [] ≡ none
unfolding Map.get
get_empty id = refl

module _ (m : Decisions) (checked : check_outcomes m ≡ passed) where
  recorded-Agree : (a b : SimNode) → IsRecorded m a → IsRecorded m b → Agree a b
  recorded-Agree a b ra rb tx_id da db la lb = elim (Option-cases (Map.get tx_id m)) [
    | inl missing ↦
        let none_there : recorded tx_id a.id m ≡ none =
          ap (λ o. Map.get a.id (or_default o)) missing ∙ get_empty a.id in
        let there = ra tx_id da la in absurd (cc)
    | inr (per_node, found) ↦
        let (x, same) = check_outcomes-Same m tx_id per_node checked found in
        let at_a = sym (ap (λ o. Map.get a.id (or_default o)) found) ∙ ra tx_id da la in
        let at_b = sym (ap (λ o. Map.get b.id (or_default o)) found) ∙ rb tx_id db lb in
        fmt_decision_injective da.1 db.1
          (get-Same x a.id per_node _ same at_a ∙ sym (get-Same x b.id per_node _ same at_b))
  ]

  all-Agree : (nodes : List SimNode) → All (IsRecorded m) nodes → AllPairs Agree nodes
  all-Agree [] r = tt
  all-Agree (a ∷ nodes) r = (with_others a nodes r.0 r.1, all-Agree nodes r.1)
    where
      with_others :
          (a : SimNode) (nodes : List SimNode)
          → IsRecorded m a
          → All (IsRecorded m) nodes
          → All (Agree a) nodes
      with_others a [] ra r = tt
      with_others a (b ∷ nodes) ra r = (recorded-Agree a b ra r.0, with_others a nodes ra r.1)

-- When the check of transactions passes on a cluster whose nodes have different names, no two nodes
-- have logs whose last decisions of a transaction differ.
pub check_2pc_atomicity-AllPairs :
    (nodes : List SimNode) → check_2pc_atomicity nodes ≡ passed → Named nodes → AllPairs Agree nodes
unfolding check_2pc_atomicity
check_2pc_atomicity-AllPairs nodes h named =
    all-Agree (record_nodes nodes []) h nodes (record_nodes-IsRecorded nodes [] named)
