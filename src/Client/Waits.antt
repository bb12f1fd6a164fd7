-- ===== src/Client/Waits.antt =====
-- What the wait of client.rs for a read to be confirmed has seen when it ends.
use oxide_kv.Common.{
  ℕ, ◌+◌, ◌-◌, ◌<◌, ◌≤◌, ◌≡◌, ◌∙◌, ◌++◌, All, Bool, true, false, none, some, List, [], ◌∷◌, ltb,
  arith, Bool-cases, inl, inr,
}
use oxide_kv.Protocol.{ReadIndex}
use oxide_kv.Raft.{RaftNode}
use oxide_kv.Raft.Reads.{confirm_read}
use oxide_kv.Visits.{Visit}
use oxide_kv.Visits.Polls.{Returned}
use oxide_kv.Client.{read_wait_ms, look_confirmed}

pub look_confirmed_lem :
    (max start now : ℕ) (ri : ReadIndex) (n : RaftNode)
    → look_confirmed max start ri now n ≡ some true
    → confirm_read max now ri n ≡ true
unfolding look_confirmed
look_confirmed_lem max start now ri n h = elim (Bool-cases (confirm_read max now ri n)) [
  | inl held ↦ held
  | inr missed ↦ absurd (ground arith)
]

-- The end of the wait for a read: at every visit before the last it was not confirmed and not over
-- two seconds had passed; at the last it is confirmed or not, and over two seconds have passed if not.
pub record Waited (max start : ℕ) (ri : ReadIndex) (r : Bool) (vs rest : List Visit) : Type 0 where
  pub before : List Visit
  pub at : Visit
  pub split : vs ≡ before ++ at ∷ rest
  pub waited : All (λ v. (confirm_read max v.now ri v.node ≡ false) × (v.now - start ≤ 2000)) before
  pub answer : confirm_read max at.now ri at.node ≡ r
  pub given_up : r ≡ false → start + 2000 < at.now

look_confirmed-none :
    (max start : ℕ) (ri : ReadIndex) (vs : List Visit)
    → All (λ v. look_confirmed max start ri v.now v.node ≡ none) vs
    → All (λ v. (confirm_read max v.now ri v.node ≡ false) × (v.now - start ≤ 2000)) vs
unfolding look_confirmed
look_confirmed-none max start ri [] h = tt
look_confirmed-none max start ri (v ∷ vs) h = elim (Bool-cases (confirm_read max v.now ri v.node)) [
  | inl held ↦ absurd (ground arith)
  | inr missed ↦ elim (Bool-cases (ltb read_wait_ms (v.now - start))) [
    | inl over ↦ absurd (ground arith)
    | inr early ↦ ((missed, ground arith), look_confirmed-none max start ri vs h.1)
  ]
]

look_confirmed-answer :
    (max start now : ℕ) (ri : ReadIndex) (r : Bool) (n : RaftNode)
    → look_confirmed max start ri now n ≡ some r
    → (confirm_read max now ri n ≡ r) × (r ≡ false → start + 2000 < now)
unfolding look_confirmed
look_confirmed-answer max start now ri r n h = elim (Bool-cases (confirm_read max now ri n)) [
  | inl held ↦ let same : true ≡ r = ground arith in (held ∙ same, λ no. absurd (cc))
  | inr missed ↦ elim (Bool-cases (ltb read_wait_ms (now - start))) [
    | inl over ↦ let same : false ≡ r = ground arith in (missed ∙ same, λ no. ground arith)
    | inr early ↦ absurd (ground arith)
  ]
]

pub look_confirmed-Waited :
    (max start : ℕ) (ri : ReadIndex) (r : Bool) (vs rest : List Visit)
    → Returned (look_confirmed max start ri) r vs rest
    → Waited max start ri r vs rest
look_confirmed-Waited max start ri r vs rest h =
    let (answer, given_up) = look_confirmed-answer max start h.at.now ri r h.at.node h.found in
    record {
      before = h.before;
      at = h.at;
      split = h.split;
      waited = look_confirmed-none max start ri h.before h.waited;
      answer = answer;
      given_up = given_up;
    }
