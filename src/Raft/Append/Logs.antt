-- ===== src/Raft/Append/Logs.antt =====
-- The log after one entry of an AppendEntries request, raft/node.rs.
use oxide_kv.Common.{
  ℕ, zero, suc, ◌+◌, ◌^◌, ◌≤◌, ◌<◌, ◌≡◌, refl, ◌∙◌, sym, ap, Option, none, some, List, [], ◌∷◌,
  ◌++◌, arith, length, length-append, length-take, take, get_elem?, get_elem?-append, get_elem?-lt,
  ◌==◌, Bool-cases, Option-cases, inl, inr,
}
use mathlib.Core.Path.{subst}
use oxide_kv.Protocol.{LogEntry}
use oxide_kv.Raft.{RaftNode}
use oxide_kv.Raft.Apply.Frame.{Indexed, Indexed-append}
use oxide_kv.Raft.Append.{pred_usize, push_entry, append_at, append_entry}

Indexed-take : (base k : ℕ) (xs : List LogEntry) → Indexed base xs → Indexed base (take k xs)
Indexed-take base zero xs h = tt
Indexed-take base (suc k) [] h = tt
Indexed-take base (suc k) (x ∷ xs) h = (h.0, Indexed-take (base + 1) k xs h.1)

get_elem?-take :
    {A : Type 0} (k i : ℕ) (xs : List A) → i < k → get_elem? (take k xs) i ≡ get_elem? xs i
get_elem?-take zero i xs h = absurd (omega arith)
get_elem?-take (suc k) i [] h = refl
get_elem?-take (suc k) zero (x ∷ xs) h = refl
get_elem?-take (suc k) (suc i) (x ∷ xs) h = get_elem?-take k i xs (omega arith)

get_elem?-length :
    {A : Type 0} (xs : List A) (x : A) → get_elem? (xs ++ x ∷ []) (length xs) ≡ some x
get_elem?-length [] x = refl
get_elem?-length (y ∷ xs) x = get_elem?-length xs x

-- The term of the entry at a position, if there is one.
abbrev pub log_term : ℕ → List LogEntry → Option ℕ
log_term i log = elim (get_elem? log i) [ none ↦ none | some e ↦ some e.term ]

pub log_term-cong :
    (i : ℕ) (a b : List LogEntry) → get_elem? a i ≡ get_elem? b i → log_term i a ≡ log_term i b
log_term-cong i a b = ap (λ o. elim o [ none ↦ none | some y ↦ some y.term ])

-- An entry that goes to position `i`, after a log that reaches it.
pub record Placed (i : ℕ) (e : LogEntry) (n after : RaftNode) : Type 0 where
  pub indexed : Indexed 0 after.log
  pub here : log_term i after.log ≡ some e.term
  pub below : (j : ℕ) → j < i → get_elem? after.log j ≡ get_elem? n.log j
  pub long : i + 1 ≤ length after.log
  -- Where the log had an entry of that term nothing changes.
  pub same : log_term i n.log ≡ some e.term → after.log ≡ n.log
  pub commit : after.commit_index ≡ n.commit_index
  pub applied : after.last_applied ≡ n.last_applied
  pub term : after.current_term ≡ n.current_term
  pub state : after.state ≡ n.state

push-Placed :
    (k : ℕ) (e : LogEntry) (n : RaftNode)
    → k ≤ length n.log
    → e.index ≡ k + 1
    → Indexed 0 n.log
    → (log_term k n.log ≡ some e.term → ⊥)
    → Placed k e n (push_entry e (record n { log = take k n.log }))
unfolding push_entry
push-Placed k e n l x h differs =
    let len : length (take k n.log) ≡ k = omega (arith, length-take k n.log) in
    record {
      indexed = Indexed-append 0 (take k n.log) e (Indexed-take 0 k n.log h) (omega arith);
      here =
          ground
            (arith, get_elem?-length (take k n.log) e, ap (get_elem? (take k n.log ++ e ∷ [])) len);
      below = λ j lt.
          get_elem?-append (take k n.log) (e ∷ []) j (omega arith) ∙ get_elem?-take k j n.log lt;
      long = omega (arith, length-append (take k n.log) (e ∷ []));
      same = λ p. absurd (differs p);
      commit = refl;
      applied = refl;
      term = refl;
      state = refl;
    }

take_all : {A : Type 0} (k : ℕ) (xs : List A) → length xs ≤ k → take k xs ≡ xs
take_all zero [] h = refl
take_all zero (x ∷ xs) h = absurd (omega arith)
take_all (suc k) [] h = refl
take_all (suc k) (x ∷ xs) h = ap (◌∷◌ x) (take_all k xs (omega arith))

get_elem?-none : {A : Type 0} (xs : List A) (i : ℕ) → get_elem? xs i ≡ none → length xs ≤ i
get_elem?-none [] i h = omega arith
get_elem?-none (x ∷ xs) zero h = cc
get_elem?-none (x ∷ xs) (suc i) h = omega (arith, get_elem?-none xs i h)

pred_usize_lem : (k i : ℕ) → i ≡ k + 1 → k + 1 < 2 ^ 64 → pred_usize i ≡ k
pred_usize_lem k i e b = omega arith

append_at-Placed :
    (k : ℕ) (e : LogEntry) (n : RaftNode)
    → k ≤ length n.log
    → e.index ≡ k + 1
    → Indexed 0 n.log
    → Placed k e n (append_at k e n)
unfolding append_at
append_at-Placed k e n l x h = elim (Option-cases (get_elem? n.log k)) [
  | inl missing ↦
      rw (missing, append_at)
        (subst (λ l'. Placed k e n (push_entry e (record n { log = l' })))
          (take_all k n.log (get_elem?-none n.log k missing))
          (push-Placed k e n l x h (λ p. ground arith)))
  | inr (mine, found) ↦ elim (Bool-cases (mine.term == e.term)) [
    | inl same ↦
        rw (found, same, append_at)
          (record {
            indexed = h;
            here = ground arith;
            below = λ j lt. refl;
            long = omega (arith, get_elem?-lt n.log k mine found);
            same = λ p. refl;
            commit = refl;
            applied = refl;
            term = refl;
            state = refl;
          })
    | inr other ↦ rw (found, other, append_at) (push-Placed k e n l x h (λ p. ground arith))
  ]
]

-- One entry of the request: the log has an entry of its term at its place, and unchanged below.
pub append_entry-Placed :
    (k : ℕ) (e : LogEntry) (n : RaftNode)
    → k ≤ length n.log
    → e.index ≡ k + 1
    → k + 1 < 2 ^ 64
    → Indexed 0 n.log
    → Placed k e n (append_entry e n)
unfolding append_entry
append_entry-Placed k e n l x b h =
    subst (λ i. Placed k e n (append_at i e n)) (sym (pred_usize_lem k e.index x b))
      (append_at-Placed k e n l x h)
