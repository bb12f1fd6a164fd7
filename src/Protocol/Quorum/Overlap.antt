-- ===== src/Protocol/Quorum/Overlap.antt =====
-- Quorums of protocol.rs in common servers: of one configuration, and of a joint one and its
-- halves.
use oxide_kv.Common.{ℕ, ◌+◌, ◌≤◌, ◌<◌, ◌≡◌, ◌⊎◌, true, List, [], ◌∷◌, length, arith}
use oxide_kv.Text.{Str}
use oxide_kv.Map.{Map}
use oxide_kv.Protocol.{ServerId, simple, joint}
use oxide_kv.Protocol.Quorum.{count_reached, majority_reached, replicated, config_quorum_reached}

-- A server of the list that holds index `i` by one account and `j` by the other.
abbrev pub Shared : (ServerId → ℕ) → ℕ → (ServerId → ℕ) → ℕ → List ServerId → Type 0
Shared held i held' j [] = ⊥
Shared held i held' j (s ∷ servers) = ((i ≤ held s) × (j ≤ held' s)) ⊎ Shared held i held' j servers

Shared-of_counts :
    (held held' : ServerId → ℕ) (i j : ℕ) (servers : List ServerId)
    → length servers < count_reached held i servers + count_reached held' j servers
    → Shared held i held' j servers
unfolding count_reached
Shared-of_counts held held' i j [] h = absurd (omega arith)
Shared-of_counts held held' i j (s ∷ servers) h =
    ground (arith, Shared-of_counts held held' i j servers)

-- Two majorities of one server list have a server in common, whatever the two replicas of the
-- bookkeeping say: one that holds both indices.
pub majorities-Shared :
    (held held' : ServerId → ℕ) (i j : ℕ) (servers : List ServerId)
    → majority_reached held i servers ≡ true
    → majority_reached held' j servers ≡ true
    → Shared held i held' j servers
unfolding majority_reached
majorities-Shared held held' i j servers p q =
    Shared-of_counts held held' i j servers (ground arith)

-- A quorum of the joint configuration is a quorum of the old one and of the new one.
pub joint_quorum :
    (old new : List ServerId) (m : Map ℕ) (n : Str) (own i : ℕ)
    → config_quorum_reached (joint old new) m n own i ≡ true
    → (config_quorum_reached (simple old) m n own i ≡ true)
      × (config_quorum_reached (simple new) m n own i ≡ true)
unfolding config_quorum_reached
joint_quorum old new m n own i h = ground arith

-- Two leaders' bookkeeping: `m`, `n`, `own` of the one and `m'`, `n'`, `own'` of the other.
module _ (old new : List ServerId) (m m' : Map ℕ) (n n' : Str) (own own' i j : ℕ) where
  -- While the configuration changes from `old` over the joint one to `new`, a quorum before a step
  -- and one after it share a server that holds both indices: so do a quorum of the joint
  -- configuration and one of the old, and a quorum of the joint configuration and one of the new.
  pub successive-Shared :
      config_quorum_reached (joint old new) m n own i ≡ true
      → ((config_quorum_reached (simple old) m' n' own' j ≡ true)
          → Shared (replicated m n own) i (replicated m' n' own') j old)
        × ((config_quorum_reached (simple new) m' n' own' j ≡ true)
            → Shared (replicated m n own) i (replicated m' n' own') j new)
  unfolding config_quorum_reached
  successive-Shared h = (
    λ q. majorities-Shared (replicated m n own) (replicated m' n' own') i j old (ground arith) q,
    λ q. majorities-Shared (replicated m n own) (replicated m' n' own') i j new (ground arith) q,
  )
