-- ===== src/Visits.antt =====
-- A task that shares a node with others, `Arc<RwLock<RaftNode>>`: each time it takes the lock it
-- finds the node as the others have left it, and what it writes back is kept in order. The list of
-- these visits is the schedule; a task whose visits run out is still waiting.
pub mod Polls
pub mod Steps
pub mod Later
use oxide_kv.Common.{ℕ, Option, none, some, List, [], ◌∷◌, ◌++◌, ltb, if◌then◌else◌}
use oxide_kv.Raft.{RaftNode}

-- The time, in milliseconds, and the node that is found.
pub record Visit : Type 0 where
  pub now : ℕ
  pub node : RaftNode

pub record Task : Type 0 where
  pub visits : List Visit
  pub written : List RaftNode

-- A result, unless the visits run out; what is written stays.
abbrev pub M : Type 0 → Type 0
M A = Task → Option A × Task

abbrev pub continue : {A B : Type 0} → (A → M B) → Option A × Task → Option B × Task
continue f (none, t) = (none, t)
continue f (some a, t) = f a t

infixl 5 ◌>>=◌ ◌>>◌
abbrev pub ◌>>=◌ : {A B : Type 0} → M A → (A → M B) → M B
◌>>=◌ m f t = continue f (m t)

abbrev pub ◌>>◌ : {A B : Type 0} → M A → M B → M B
◌>>◌ m k t = continue (λ _. k) (m t)

abbrev pub pure : {A : Type 0} → A → M A
pure a t = (some a, t)

abbrev pub take_visit : List Visit → List RaftNode → Option Visit × Task
take_visit [] w = (none, record { visits = []; written = w })
take_visit (v ∷ vs) w = (some v, record { visits = vs; written = w })

-- The next time that the task takes the lock.
unfoldable pub visit : M Visit
visit t = take_visit t.visits t.written

unfoldable pub write : RaftNode → M (Unit {0})
write n t = (some tt, record t { written = t.written ++ n ∷ [] })

-- A loop that looks at the node until its body returns.
unfoldable pub poll_visits :
    {R : Type 0} → (ℕ → RaftNode → Option R) → List Visit → Option (R × List Visit)
poll_visits look [] = none
poll_visits look (v ∷ vs) = elim (look v.now v.node) [
  | some r ↦ some (r, vs)
  | none ↦ poll_visits look vs
]

abbrev pub polled : {R : Type 0} → List RaftNode → Option (R × List Visit) → Option R × Task
polled w none = (none, record { visits = []; written = w })
polled w (some (r, vs)) = (some r, record { visits = vs; written = w })

unfoldable pub poll : {R : Type 0} → (ℕ → RaftNode → Option R) → M R
unfolding poll_visits
poll look t = polled t.written (poll_visits look t.visits)

-- The visits up to a time, and those after it.
unfoldable pub split_at : ℕ → List Visit → List Visit × List Visit
split_at deadline [] = ([], [])
split_at deadline (v ∷ vs) =
    let rest = split_at deadline vs in
    if ltb deadline v.now then ([], v ∷ vs) else (v ∷ rest.0, rest.1)

abbrev pub cancelled : {A : Type 0} → A → List Visit → Option A × Task → Option A × Task
cancelled late [] (none, t) = (none, t)
cancelled late (v ∷ vs) (none, t) = (some late, record t { visits = v ∷ vs })
cancelled late after (some a, t) = (some a, record t { visits = t.visits ++ after })

-- `timeout`: a task that is not through at the deadline is dropped where it waits.
unfoldable pub until : {A : Type 0} → ℕ → A → M A → M A
unfolding split_at
until deadline late m t =
    cancelled late (split_at deadline t.visits).1
      (m (record t { visits = (split_at deadline t.visits).0 }))
