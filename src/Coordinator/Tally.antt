-- ===== src/Coordinator/Tally.antt =====
-- What a decision of raft/coordinator.rs to commit rests on.
use oxide_kv.Common.{
  ℕ, ◌≡◌, refl, ◌∙◌, true, false, Bool, ◌&&◌, ◌||◌, Option, none, some, List, [], ◌∷◌, arith, any,
  All, ltb, leb, if◌then◌else◌, ap,
}
use mathlib.Core.Path.{subst}
use oxide_kv.Text.{Str, ◌=s◌, eq_of_cmp}
use oxide_kv.Map
use oxide_kv.Map.{contains_key}
use oxide_kv.Map.Laws.{get-insert}
use oxide_kv.Protocol.{commit}
use oxide_kv.Raft.{RaftNode}
use oxide_kv.Raft.TxVote.{VoteResponse}
use oxide_kv.Visits.{Task, M, ◌>>◌, pure, visit}
use oxide_kv.Visits.Steps.{continue-some}
use oxide_kv.Visits.Later.{Later, Later_refl, Later_trans, visit-Later, write-Later}
use oxide_kv.Coordinator.{
  StrSet, add, same_set, AbortReason, TallyResult, superseded, counted, change, step_down,
  tally_votes, expected_voters, declined, failed, decision_of, decide_votes, record_yes,
}

-- An answer that counts as a yes in the leader's term.
abbrev pub is_yes : ℕ → Option VoteResponse → Bool
is_yes term none = false
is_yes term (some resp) = leb resp.term term && resp.vote_granted

-- A yes of a server among the answers.
abbrev pub said_yes : ℕ → Str → List (Str × Option VoteResponse) → Bool
said_yes term p [] = false
said_yes term p ((addr, answer) ∷ results) =
    let rest = said_yes term p results in
    if addr =s p then (if is_yes term answer then true else rest) else rest

contains-add :
    (k j : Str) (s : StrSet)
    → contains_key j (add k s) ≡ (if k =s j then true else contains_key j s)
contains-add k j s = ground (arith, get-insert k j true s)

same_set_lem : (s t : StrSet) (p : Str) → same_set s t ≡ true → contains_key p s ≡ contains_key p t
unfolding same_set Map.get
same_set_lem [] [] p h = refl
same_set_lem [] (t ∷ ts) p h = cc
same_set_lem (s ∷ ss) [] p h = cc
same_set_lem ((j, x) ∷ ss) ((k, y) ∷ ts) p h = ground (arith, same_set_lem ss ts p, eq_of_cmp j k)

-- What a tally without a reason to abort counted.
record AllYes (term : ℕ) (results : List (Str × Option VoteResponse)) (before after : StrSet)
    : Type 0 where
  each : All (λ r. is_yes term r.1 ≡ true) results
  voters :
      (p : Str)
      → contains_key p after ≡ true
      → (contains_key p before || said_yes term p results) ≡ true

pub change-Later :
    (f : RaftNode → RaftNode) (t t' : Task) (u : Unit {0}) → change f t ≡ (some u, t') → Later t t'
change-Later f t t' u h =
    let (v, t1, e1, h1) = continue-some _ (visit t) u t' h in
    Later_trans (visit-Later t t1 v e1) (write-Later (f v.node) t1 t' u h1)

-- How the loop goes on at an answer that is there.
abbrev at_answer :
    Bool → Bool → M (Unit {0}) → M (Unit {0}) → M TallyResult → M TallyResult → M TallyResult
at_answer newer granted stop record_it on off =
    if newer then (do stop; pure superseded) else if granted then (do record_it; on) else off

tally_votes-AllYes :
    (tx_id : Str) (term : ℕ) (results : List (Str × Option VoteResponse)) (t t' : Task)
    (voters after : StrSet) (reason : Option AbortReason)
    → tally_votes tx_id term results voters reason t ≡ (some (counted after none), t')
    → (reason ≡ none) × AllYes term results voters after × Later t t'
unfolding tally_votes
tally_votes-AllYes tx_id term [] t t' voters after reason e =
    let result : some (counted voters reason) ≡ some (counted after none) = ap (λ p. p.0) e in
    let ended : t ≡ t' = ap (λ p. p.1) e in
    let same : voters ≡ after = cc in
    (
      cc,
      record { each = tt; voters = λ p h. ground (arith, same) },
      subst (Later t) ended (Later_refl t),
    )
tally_votes-AllYes tx_id term ((addr, none) ∷ results) t t' voters after reason e =
    let rest = tally_votes-AllYes tx_id term results t t' voters after (some (failed addr)) e in
    absurd (ground (arith, rest.0))
tally_votes-AllYes tx_id term ((addr, some resp) ∷ results) t t' voters after reason e =
    answered (λ t1 h. tally_votes-AllYes tx_id term results t1 t' (add addr voters) after reason h)
      (λ h.
        tally_votes-AllYes tx_id term results t t' voters after (some (declined addr resp.reason))
          h)
      (ltb term resp.term) resp.vote_granted refl refl e
  where
    answered :
        ((t1 : Task)
          → tally_votes tx_id term results (add addr voters) reason t1
            ≡ (some (counted after none), t')
          → (reason ≡ none) × AllYes term results (add addr voters) after × Later t1 t')
        → (tally_votes tx_id term results voters (some (declined addr resp.reason)) t
              ≡ (some (counted after none), t')
            → (some (declined addr resp.reason) ≡ none)
              × AllYes term results voters after
              × Later t t')
        → (newer granted : Bool) → ltb term resp.term ≡ newer
        → resp.vote_granted ≡ granted
        → at_answer newer granted
            (change (step_down resp.term))
            (change (record_yes tx_id addr))
            (tally_votes tx_id term results (add addr voters) reason)
            (tally_votes tx_id term results voters (some (declined addr resp.reason)))
            t
          ≡ (some (counted after none), t')
        → (reason ≡ none) × AllYes term ((addr, some resp) ∷ results) voters after × Later t t'
    answered on off true granted is_newer is_granted h =
        let (u, t1, e1, h1) =
          continue-some _ (change (step_down resp.term) t) (counted after none) t' h in
        let never : some superseded ≡ some (counted after none) = ap (λ p. p.0) h1 in absurd (cc)
    answered on off false false is_newer is_granted h = absurd (ground (arith, (off h).0))
    answered on off false true is_newer is_granted h =
        let (u, t1, e1, h1) =
          continue-some _ (change (record_yes tx_id addr) t) (counted after none) t' h in
        let (no_reason, all, later) = on t1 h1 in
        (
          no_reason,
          record {
            each = (ground arith, all.each);
            voters = λ p h. ground (arith, all.voters p h, contains-add addr p voters);
          },
          Later_trans (change-Later (record_yes tx_id addr) t t1 u e1) later,
        )

contains-expected_voters :
    (leader_id : Str) (peers : List Str) (p : Str)
    → any (λ q. q =s p) peers ≡ true
    → contains_key p (expected_voters leader_id peers) ≡ true
unfolding expected_voters
contains-expected_voters leader_id [] p h = cc
contains-expected_voters leader_id (q ∷ peers) p h = ground (
  arith,
  contains-expected_voters leader_id peers p,
  contains-add q p (expected_voters leader_id peers),
)

-- What a commit rests on.
pub record Unanimous (term : ℕ) (leader_id : Str) (peers : List Str)
    (results : List (Str × Option VoteResponse)) : Type 0 where
  pub each : All (λ r. is_yes term r.1 ≡ true) results
  pub peer :
      (p : Str)
      → any (λ q. q =s p) peers ≡ true
      → ((leader_id =s p) || said_yes term p results) ≡ true

decide_votes-Unanimous :
    (tx_id leader_id : Str) (term : ℕ) (peers : List Str)
    (results : List (Str × Option VoteResponse)) (t t' : Task) (after : StrSet)
    (reason : Option AbortReason)
    → tally_votes tx_id term results (add leader_id []) none t ≡ (some (counted after reason), t')
    → decide_votes (expected_voters leader_id peers) after reason ≡ commit
    → Unanimous term leader_id peers results × Later t t'
unfolding decide_votes
decide_votes-Unanimous tx_id leader_id term peers results t t' after (some reason) e d =
    absurd (ground arith)
decide_votes-Unanimous tx_id leader_id term peers results t t' after none e d =
    let (_, all, later) =
      tally_votes-AllYes tx_id term results t t' (add leader_id []) after none e in
    let same : same_set after (expected_voters leader_id peers) ≡ true = ground arith in
    (
      record {
        each = all.each;
        peer = λ p h.
            let counted_yes : contains_key p after ≡ true =
              same_set_lem after (expected_voters leader_id peers) p same
              ∙ contains-expected_voters leader_id peers p h in
            unfold Map.get in ground (arith, all.voters p counted_yes, contains-add leader_id p []);
      },
      later,
    )

-- The coordinator decides to commit only if every answer is a yes of no newer term than its own, and
-- every peer other than the leader itself has given one: an answer that is refused, failed or late,
-- and a peer without an answer, abort the transaction.
pub tally_votes-Unanimous :
    (tx_id leader_id : Str) (term : ℕ) (peers : List Str)
    (results : List (Str × Option VoteResponse)) (tally : TallyResult) (t t' : Task)
    → tally_votes tx_id term results (add leader_id []) none t ≡ (some tally, t')
    → decision_of (expected_voters leader_id peers) tally ≡ some commit
    → Unanimous term leader_id peers results × Later t t'
tally_votes-Unanimous tx_id leader_id term peers results superseded t t' e d = absurd (cc)
tally_votes-Unanimous tx_id leader_id term peers results (counted after reason) t t' e d =
    decide_votes-Unanimous tx_id leader_id term peers results t t' after reason e (ground arith)
