-- ===== src/Client/Refusals.antt =====
-- What client.rs answers on a connection to a node that does not lead.
use oxide_kv.Common.{
  ℕ, ◌+◌, ◌≤◌, ◌≡◌, refl, All, false, Option, none, some, List, [], ◌∷◌, map, arith, length,
}
use oxide_kv.Protocol.{Command}
use oxide_kv.Raft.{RaftNode, is_leader}
use oxide_kv.Raft.TxVote.{VoteRequest, VoteResponse}
use oxide_kv.Text.{Str}
use oxide_kv.Visits.{Visit, visit}
use oxide_kv.Client.{
  Response, Settings, invalid_json, not_a_leader, dispatch_command, handle_client_request,
}

-- The reply to a line, and the number of lines that parse.
abbrev refusal : Option Command → Response
refusal none = invalid_json
refusal (some _) = not_a_leader

abbrev parsed : List (Option Command) → ℕ
parsed [] = 0
parsed (none ∷ lines) = parsed lines
parsed (some _ ∷ lines) = 1 + parsed lines

-- The visits of a node that never leads.
abbrev Follows : List Visit → Type 0
Follows = All (λ v. is_leader v.node.state ≡ false)

module _ (s : Settings) (answers : VoteRequest → List Str → List (Str × Option VoteResponse)) where
  answer_refused :
      (command : Command) (v : Visit) (vs : List Visit) (w : List RaftNode)
      → is_leader v.node.state ≡ false
      → dispatch_command s answers command (record { visits = v ∷ vs; written = w })
        ≡ (some not_a_leader, record { visits = vs; written = w })
  unfolding dispatch_command visit
  answer_refused command v vs w follows = ground arith

  -- On a node that leads at none of a connection's visits, one for each line that parses, every line
  -- is answered, in order: one that does not parse as invalid, and every command, reads included,
  -- with a refusal; and nothing is written to the node.
  pub handle_client_request-refusal :
      (lines : List (Option Command)) (vs : List Visit) (w : List RaftNode)
      → Follows vs
      → parsed lines ≤ length vs
      → (rest : List Visit) × (handle_client_request s answers lines
            (record { visits = vs; written = w })
          ≡ (some (map refusal lines), record { visits = rest; written = w }))
  unfolding handle_client_request
  handle_client_request-refusal [] vs w follows enough = (vs, refl)
  handle_client_request-refusal (none ∷ lines) vs w follows enough =
      let (rest, e) = handle_client_request-refusal lines vs w follows enough in
      (rest, ground arith)
  handle_client_request-refusal (some c ∷ lines) [] w follows enough = absurd (omega arith)
  handle_client_request-refusal (some c ∷ lines) (v ∷ vs) w follows enough =
      let (rest, e) = handle_client_request-refusal lines vs w follows.1 (omega arith) in
      let first = answer_refused c v vs w follows.0 in (rest, ground arith)
