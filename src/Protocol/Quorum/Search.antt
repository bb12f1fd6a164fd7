-- ===== src/Protocol/Quorum/Search.antt =====
-- The binary search of `config_quorum_reached_index`, protocol.rs.
use oxide_kv.Common.{
  ℕ, zero, suc, ◌+◌, ◌-◌, ◌/◌, ◌≤◌, ◌<◌, ◌≡◌, refl, ◌⊎◌, inl, inr, Bool, true, false, List, [], ◌∷◌,
  leb, arith, ◌==◌, Bool-cases,
}
use oxide_kv.Text.{Str}
use oxide_kv.Map.{Map}
use oxide_kv.Protocol.{ServerId, Configuration, simple, joint}
use oxide_kv.Protocol.Quorum.{
  count_reached, majority_reached, replicated, config_quorum_reached, search_highest,
  config_quorum_reached_index,
}

count_reached_antitone :
    (held : ServerId → ℕ) (i j : ℕ) (servers : List ServerId)
    → i ≤ j
    → count_reached held j servers ≤ count_reached held i servers
unfolding count_reached
count_reached_antitone held i j [] h = omega arith
count_reached_antitone held i j (s ∷ servers) h =
    ground (arith, count_reached_antitone held i j servers h)

majority_reached_antitone :
    (held : ServerId → ℕ) (i j : ℕ) (servers : List ServerId)
    → i ≤ j
    → majority_reached held j servers ≡ true
    → majority_reached held i servers ≡ true
unfolding majority_reached
majority_reached_antitone held i j servers h r =
    ground (arith, count_reached_antitone held i j servers h)

-- A quorum for an index is a quorum for every lower one.
pub config_quorum_reached_antitone :
    (c : Configuration) (m : Map ℕ) (n : Str) (own i j : ℕ)
    → i ≤ j
    → config_quorum_reached c m n own j ≡ true
    → config_quorum_reached c m n own i ≡ true
unfolding config_quorum_reached
config_quorum_reached_antitone (simple s) m n own i j h r =
    majority_reached_antitone (replicated m n own) i j s h r
config_quorum_reached_antitone (joint old new) m n own i j h r = ground (
  arith,
  majority_reached_antitone (replicated m n own) i j old h,
  majority_reached_antitone (replicated m n own) i j new h,
)

-- `best` is the highest index up to `top` that passes a test, or 0 when none passes.
pub record IsHighest (reached : ℕ → Bool) (top best : ℕ) : Type 0 where
  pub bounded : best ≤ top
  pub passes : (best ≡ 0) ⊎ (reached best ≡ true)
  pub highest : (i : ℕ) → best < i → i ≤ top → reached i ≡ false

not_above :
    (reached : ℕ → Bool)
    → ((i j : ℕ) → i ≤ j → reached j ≡ true → reached i ≡ true)
    → (m i : ℕ) → m ≤ i
    → reached m ≡ false
    → reached i ≡ false
not_above reached mono m i h f = elim (Bool-cases (reached i)) [
  | inl t ↦ absurd (ground (arith, mono m i h t))
  | inr g ↦ g
]

module _ (reached : ℕ → Bool) (top : ℕ)
    (mono : (i j : ℕ) → i ≤ j → reached j ≡ true → reached i ≡ true) where
  -- What holds before each round: all above `hi` fail, `best` passes or is 0 and lies below `lo`.
  record Searching (lo hi best : ℕ) : Type 0 where
    below : best < lo
    start : lo ≤ suc hi
    within : hi ≤ top
    ok : (best ≡ 0) ⊎ (reached best ≡ true)
    above : (i : ℕ) → hi < i → i ≤ top → reached i ≡ false
    reach : lo ≡ best + 1

  search_highest_lem :
      (fuel lo hi best : ℕ)
      → suc hi - lo ≤ fuel
      → Searching lo hi best
      → IsHighest reached top (search_highest fuel reached lo hi best)
  unfolding search_highest
  search_highest_lem zero lo hi best f s = record {
    bounded = omega (arith, s.below, s.start, s.within);
    passes = s.ok;
    highest = λ i p q. s.above i (omega (arith, s.reach)) q;
  }
  search_highest_lem (suc fuel) lo hi best f s = elim (Bool-cases (leb lo hi)) [
    | inr done ↦ rw done (record {
      bounded = omega (arith, s.below, s.start, s.within);
      passes = s.ok;
      highest = λ i p q. s.above i (ground (arith, s.reach)) q;
    })
    | inl more ↦ rw more (elim (Bool-cases (reached mid)) [
      | inl up ↦ rw up (elim (Bool-cases (mid == hi)) [
        | inl last ↦ rw last (record {
          bounded = ground (arith, s.within);
          passes = inr up;
          highest = λ i p q. s.above i (ground arith) q;
        })
        | inr other ↦ rw other (
            search_highest_lem fuel (mid + 1) hi mid (ground arith) (record {
              below = omega arith;
              start = ground (arith, s.start);
              within = s.within;
              ok = inr up;
              above = s.above;
              reach = refl;
            }))
      ])
      | inr down ↦
          rw (down, zero_test (ground (arith, s.reach)))
            (search_highest_lem fuel lo (mid - 1) best (ground (arith, s.reach)) (record {
              below = s.below;
              start = ground (arith, s.reach);
              within = ground (arith, s.within, s.reach);
              ok = s.ok;
              above = λ i p q. not_above reached mono mid i (ground (arith, s.reach)) down;
              reach = s.reach;
            }))
    ])
  ]
    where
      mid : ℕ
      mid = (lo + hi) / 2

      zero_test : 0 < mid → (mid == 0) ≡ false
      zero_test h = ground arith

-- The index that a leader commits up to is one with a quorum, or 0; no higher index of its log has
-- a quorum.
pub config_quorum_reached_index-IsHighest :
    (c : Configuration) (m : Map ℕ) (n : Str) (own : ℕ)
    → IsHighest (config_quorum_reached c m n own) own (config_quorum_reached_index c m n own)
unfolding config_quorum_reached_index
config_quorum_reached_index-IsHighest c m n own =
    search_highest_lem (config_quorum_reached c m n own) own
      (config_quorum_reached_antitone c m n own) own 1 own 0 (omega arith)
      (record {
        below = omega arith;
        start = omega arith;
        within = omega arith;
        ok = inl refl;
        above = λ i p q. absurd (omega arith);
        reach = omega arith;
      })
