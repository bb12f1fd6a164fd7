-- ===== src/Protocol/Quorum.antt =====
-- `config_quorum_reached` and `config_quorum_reached_index` of protocol.rs: which log indices a
-- quorum of the configuration has replicated.
pub mod Search
pub mod Overlap
use oxide_kv.Common.{
  ℕ, zero, suc, ◌+◌, ◌-◌, ◌/◌, Bool, true, false, ◌&&◌, Option, none, some, List, [], ◌∷◌, length,
  ltb, leb, ◌==◌, if◌then◌else◌,
}
use oxide_kv.Text.{Str, ◌=s◌}
use oxide_kv.Map
use oxide_kv.Map.{Map}
use oxide_kv.Protocol.{ServerId, Configuration, simple, joint}

-- `match_index.get(..).copied().unwrap_or(0)`
abbrev pub index_or_zero : Map ℕ → Str → ℕ
index_or_zero match_index n = elim (Map.get n match_index) [ none ↦ 0 | some i ↦ i ]

-- The index that a server is known to hold.
unfoldable pub replicated : Map ℕ → Str → ℕ → ServerId → ℕ
replicated match_index self_node_id self_index s =
    if s.node_id =s self_node_id then self_index else index_or_zero match_index s.node_id

-- The `count` loop.
unfoldable pub count_reached : (ServerId → ℕ) → ℕ → List ServerId → ℕ
count_reached held index [] = 0
count_reached held index (s ∷ servers) =
    (if leb index (held s) then 1 else 0) + count_reached held index servers

unfoldable pub majority_reached : (ServerId → ℕ) → ℕ → List ServerId → Bool
unfolding count_reached
majority_reached held index servers = ltb (length servers / 2) (count_reached held index servers)

unfoldable pub config_quorum_reached : Configuration → Map ℕ → Str → ℕ → ℕ → Bool
unfolding majority_reached replicated
config_quorum_reached (simple servers) match_index self_node_id self_index index =
    majority_reached (replicated match_index self_node_id self_index) index servers
config_quorum_reached (joint old new) match_index self_node_id self_index index =
    let held = replicated match_index self_node_id self_index in
    majority_reached held index old && majority_reached held index new

-- The `while lo <= hi` loop for any test; `suc hi - lo` rounds of fuel are enough.
unfoldable pub search_highest : ℕ → (ℕ → Bool) → ℕ → ℕ → ℕ → ℕ
search_highest zero reached lo hi best = best
search_highest (suc fuel) reached lo hi best =
    let mid = (lo + hi) / 2 in
    let up = search_highest fuel reached (mid + 1) hi mid in
    let down = search_highest fuel reached lo (mid - 1) best in
    if leb lo hi
    then (if reached mid
        then (if mid == hi then mid else up)
        else (if mid == 0 then best else down))
    else best

unfoldable pub config_quorum_reached_index : Configuration → Map ℕ → Str → ℕ → ℕ
unfolding search_highest config_quorum_reached
config_quorum_reached_index config match_index self_node_id self_index =
    search_highest self_index (config_quorum_reached config match_index self_node_id self_index) 1
      self_index 0
