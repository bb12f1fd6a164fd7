-- ===== src/Sdk/Reads.antt =====
-- A read through the client library.
use oxide_kv.Common.{
  ℕ, ◌≡◌, refl, ap, ◌∙◌, Bool, true, false, Option, none, some, List, [], ◌∷◌, if◌then◌else◌,
}
use mathlib.Core.Path.{subst}
use oxide_kv.Text.{Str, cmp}
use oxide_kv.Protocol.{Command, ReadIndex}
use oxide_kv.Lsm
use oxide_kv.Raft.{is_leader}
use oxide_kv.Raft.Reads.{begin_read}
use oxide_kv.Raft.Propose.{Result, ok}
use oxide_kv.Raft.TxVote.{VoteRequest, VoteResponse}
use oxide_kv.Visits.{Visit, Task, M, continue, pure, visit, write, poll}
use oxide_kv.Visits.Steps.{continue-some, visit-visits, visit-written}
use oxide_kv.Client.{
  Response, Settings, found, not_found, not_a_leader, read_timeout, read_response, read_value,
  confirm_and_read, read_index, read_alone, read_by_size, linearizable_get, run_command,
  dispatch_command,
}
use oxide_kv.Client.Reads.{Read, linearizable_get-Read}
use oxide_kv.Sdk.{SdkError, json, parse_get, check_not_leader, starts_with, get}

-- The replies to a read.
abbrev IsGet : Response → Type 0
IsGet (found v) = Unit
IsGet not_found = Unit
IsGet not_a_leader = Unit
IsGet read_timeout = Unit
IsGet _ = ⊥

abbrev Gives : Option Response × Task → Type 0
Gives (none, t) = Unit
Gives (some r, t) = IsGet r

continue-Gives :
    {A : Type 0} (f : A → M Response) (r : Option A × Task)
    → ((a : A) (t : Task) → Gives (f a t))
    → Gives (continue f r)
continue-Gives f (none, t) h = tt
continue-Gives f (some a, t) h = h a t

read_response-IsGet : (x : Option Str) → IsGet (read_response x)
read_response-IsGet none = tt
read_response-IsGet (some v) = tt

read_value-Gives : (key : Str) (c : Bool) (t : Task) → Gives (read_value key c t)
unfolding read_value
read_value-Gives key true t =
    continue-Gives _ (visit t) (λ v t1. read_response-IsGet (Lsm.get key v.node.state_machine))
read_value-Gives key false t = tt

confirm_and_read-Gives :
    (s : Settings) (key : Str) (now : ℕ) (token : Option ReadIndex) (t : Task)
    → Gives (confirm_and_read s key now token t)
confirm_and_read-Gives s key now none t = tt
confirm_and_read-Gives s key now (some ri) t =
    continue-Gives (read_value key) (poll _ t) (λ c t1. read_value-Gives key c t1)

either-Gives :
    (b : Bool) (m k : M Response) (t : Task)
    → Gives (m t)
    → Gives (k t)
    → Gives ((if b then m else k) t)
either-Gives true m k t hm hk = hm
either-Gives false m k t hm hk = hk

read_by_size-Gives :
    (s : Settings) (key : Str) (peers : List Str) (t : Task) → Gives (read_by_size s key peers t)
unfolding read_alone read_index
read_by_size-Gives s key [] t = continue-Gives _ (visit t) (λ v t1.
    either-Gives (is_leader v.node.state) _ (pure not_a_leader) t1
      (continue-Gives _ (write _ t1) (λ _ t2.
        continue-Gives _ (visit t2)
          (λ w t3. read_response-IsGet (Lsm.get key w.node.state_machine))))
      tt)
read_by_size-Gives s key (_ ∷ _) t = continue-Gives _ (visit t) (λ v t1.
    continue-Gives _ (write _ t1)
      (λ _ t2. confirm_and_read-Gives s key v.now (begin_read v.now s.unix_now v.node).2 t2))

linearizable_get-Gives : (s : Settings) (key : Str) (t : Task) → Gives (linearizable_get s key t)
unfolding linearizable_get
linearizable_get-Gives s key t =
    continue-Gives _ (visit t) (λ v t1. read_by_size-Gives s key v.node.peers t1)

-- What the library makes of these replies.
parse_get-read_response :
    (r : Response) (x : Option Str) → IsGet r → parse_get (json r) ≡ ok x → r ≡ read_response x
unfolding parse_get json check_not_leader starts_with cmp
parse_get-read_response (found v) x g h =
    let parsed : ◌≡◌ {A = Result SdkError (Option Str)} (ok (some v)) (ok x) = h in
    let same : some v ≡ x = cc in ap read_response same
parse_get-read_response not_found x g h =
    let parsed : ◌≡◌ {A = Result SdkError (Option Str)} (ok none) (ok x) = h in
    let same : none ≡ x = cc in ap read_response same
parse_get-read_response not_a_leader x g h = absurd (cc)
parse_get-read_response read_timeout x g h = absurd (cc)
parse_get-read_response _ x g h = absurd g

not_parsed : (x : Option Str) → ¬ (parse_get (json not_a_leader) ≡ ok x)
unfolding parse_get json check_not_leader starts_with cmp
not_parsed x h = absurd (cc)

-- A read that succeeds through the library was sent to a node that led when its line was read. At the
-- next visit the node had no peers, and then the result is the content of the store at the visit right
-- after one at which the node led and was written back with its committed entries applied; or it had
-- peers, and then the result is the content of the store right after a visit at which a read token was
-- confirmed that a leader had taken for this request.
pub get-Read :
    (s : Settings) (answers : VoteRequest → List Str → List (Str × Option VoteResponse)) (key : Str)
    (x : Option Str) (t t' : Task)
    → get s answers key t ≡ (some (ok x), t')
    → (v : Visit) × (t1 : Task) × (t.visits ≡ v ∷ t1.visits)
      × (t1.written ≡ t.written)
      × (is_leader v.node.state ≡ true)
      × Read s key x t1 t'
unfolding get dispatch_command run_command
get-Read s answers key x t t' h =
    let (r, t1, e1, h1) =
      continue-some _ (dispatch_command s answers (Command.get key) t) (ok x) t' h in
    let parsed : some (parse_get (json r)) ≡ some (ok x) = ap (λ p. p.0) h1 in
    let (v, t2, e2, h2) = continue-some _ (visit t) r t1 e1 in
    led (is_leader v.node.state) v t2 r t1 refl (visit-visits t t2 v e2) (visit-written t t2 v e2)
      h2 (ap (λ p. p.1) h1) (cc)
  where
    led :
        (b : Bool) (v : Visit) (t2 : Task) (r : Response) (t1 : Task)
        → is_leader v.node.state ≡ b
        → t.visits ≡ v ∷ t2.visits
        → t2.written ≡ t.written
        → (if b then linearizable_get s key else pure not_a_leader) t2 ≡ (some r, t1)
        → t1 ≡ t'
        → parse_get (json r) ≡ ok x
        → (v : Visit) × (t1 : Task) × (t.visits ≡ v ∷ t1.visits)
          × (t1.written ≡ t.written)
          × (is_leader v.node.state ≡ true)
          × Read s key x t1 t'
    led false v t2 r t1 leads first kept ran ended parsed =
        let refused : not_a_leader ≡ r = cc in
        absurd (not_parsed x (ap (λ q. parse_get (json q)) refused ∙ parsed))
    led true v t2 r t1 leads first kept ran ended parsed =
        let answers_get : IsGet r = subst Gives ran (linearizable_get-Gives s key t2) in
        let same = parse_get-read_response r x answers_get parsed in
        let read : linearizable_get s key t2 ≡ (some (read_response x), t') =
          ran ∙ ap (λ q. (some q, t1)) same ∙ ap (λ u. (some (read_response x), u)) ended in
        (v, t2, first, kept, leads, linearizable_get-Read s key x t2 t' read)
