-- ===== src/Raft/Append/Sound.antt =====
-- The log after the loop over the entries of an AppendEntries request, raft/node.rs.
use oxide_kv.Common.{
  ℕ, zero, suc, ◌+◌, ◌^◌, ◌≤◌, ◌<◌, ◌≡◌, refl, ◌∙◌, ap, none, some, List, [], ◌∷◌, arith, length,
  get_elem?, ltb, Bool-cases, inl, inr,
}
use oxide_kv.Protocol.{LogEntry}
use oxide_kv.Raft.{RaftNode}
use oxide_kv.Raft.Apply.Frame.{Indexed}
use oxide_kv.Raft.Append.{append_entry, append_all}
use oxide_kv.Raft.Append.Logs.{log_term, log_term-cong, Placed, append_entry-Placed}

-- The entries, from position `k` on, do not contradict the first `c` of the log.
abbrev pub Agrees : ℕ → ℕ → List LogEntry → List LogEntry → Type 0
Agrees c k es log =
    (i : ℕ) (e : LogEntry)
    → get_elem? es i ≡ some e
    → k + i < c
    → log_term (k + i) log ≡ some e.term

-- The log after the entries `es` went to the positions from `k` on.
pub record Carried (k : ℕ) (es : List LogEntry) (n after : RaftNode) : Type 0 where
  pub indexed : Indexed 0 after.log
  pub holds :
      (i : ℕ) (e : LogEntry) → get_elem? es i ≡ some e → log_term (k + i) after.log ≡ some e.term
  pub below : (j : ℕ) → j < k → get_elem? after.log j ≡ get_elem? n.log j
  pub long : k + length es ≤ length after.log
  pub keeps :
      (c : ℕ)
      → c ≤ length n.log
      → Agrees c k es n.log
      → (c ≤ length after.log) × ((j : ℕ) → j < c → get_elem? after.log j ≡ get_elem? n.log j)
  pub commit : after.commit_index ≡ n.commit_index
  pub applied : after.last_applied ≡ n.last_applied
  pub term : after.current_term ≡ n.current_term
  pub state : after.state ≡ n.state

cons-holds :
    (k : ℕ) (e : LogEntry) (es : List LogEntry) (n m after : RaftNode)
    → Placed k e n m
    → Carried (k + 1) es m after
    → (i : ℕ) (x : LogEntry) → get_elem? (e ∷ es) i ≡ some x
    → log_term (k + i) after.log ≡ some x.term
cons-holds k e es n m after p r zero x h =
    let here : get_elem? after.log k ≡ get_elem? m.log k = r.below k (omega arith) in
    let at : k + 0 ≡ k = omega arith in
    ap (λ j. log_term j after.log) at
    ∙ (log_term-cong k after.log m.log here
        ∙ (p.here ∙ ap (λ o. elim o [ none ↦ none | some y ↦ some y.term ]) h))
cons-holds k e es n m after p r (suc i) x h =
    let at : k + suc i ≡ k + 1 + i = omega arith in
    ap (λ j. log_term j after.log) at ∙ r.holds i x h

cons-keeps :
    (k : ℕ) (e : LogEntry) (es : List LogEntry) (n m after : RaftNode)
    → Placed k e n m
    → Carried (k + 1) es m after
    → (c : ℕ) → c ≤ length n.log
    → Agrees c k (e ∷ es) n.log
    → (c ≤ length after.log) × ((j : ℕ) → j < c → get_elem? after.log j ≡ get_elem? n.log j)
cons-keeps k e es n m after p r c l a = elim (Bool-cases (ltb k c)) [
  | inl inside ↦
      let same : m.log ≡ n.log =
        p.same (ap (λ j. log_term j n.log) (omega arith) ∙ a 0 e refl (ground arith)) in
      let (le, eq) = r.keeps c (omega (arith, ap length same)) (λ i x h lt.
        ap (log_term (k + 1 + i)) same
        ∙ (ap (λ j. log_term j n.log) (omega arith) ∙ a (suc i) x h (omega arith))) in
      (le, λ j lt. eq j lt ∙ ap (λ log. get_elem? log j) same)
  | inr outside ↦
      let out : c ≤ k = ground arith in
      (omega (arith, r.long), λ j lt. r.below j (omega arith) ∙ p.below j (omega arith))
]

cons-Carried :
    (k : ℕ) (e : LogEntry) (es : List LogEntry) (n m after : RaftNode)
    → Placed k e n m
    → Carried (k + 1) es m after
    → Carried k (e ∷ es) n after
cons-Carried k e es n m after p r = record {
  indexed = r.indexed;
  holds = cons-holds k e es n m after p r;
  below = λ j lt. r.below j (omega arith) ∙ p.below j lt;
  long = omega (arith, r.long);
  keeps = cons-keeps k e es n m after p r;
  commit = r.commit ∙ p.commit;
  applied = r.applied ∙ p.applied;
  term = r.term ∙ p.term;
  state = r.state ∙ p.state;
}

pub append_all-Carried :
    (k : ℕ) (es : List LogEntry) (n : RaftNode)
    → k ≤ length n.log
    → Indexed k es
    → k + length es < 2 ^ 64
    → Indexed 0 n.log
    → Carried k es n (append_all es n)
unfolding append_all
append_all-Carried k [] n l x b h = record {
  indexed = h;
  holds = λ i e p. cc;
  below = λ j lt. refl;
  long = omega arith;
  keeps = λ c q a. (q, λ j lt. refl);
  commit = refl;
  applied = refl;
  term = refl;
  state = refl;
}
append_all-Carried k (e ∷ es) n l x b h =
    let p = append_entry-Placed k e n l x.0 (omega arith) h in
    cons-Carried k e es n (append_entry e n) _ p
      (append_all-Carried (k + 1) es (append_entry e n) p.long x.1 (omega arith) p.indexed)
