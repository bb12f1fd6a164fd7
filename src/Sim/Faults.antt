-- ===== src/Sim/Faults.antt =====
-- The schedulers of raft/fault_scheduler.rs. A scheduler object is one of its classes. A sample of
-- [0, 1) is a whole number of units of 2^-53, and a generator gives the sample of each draw.
use oxide_kv.Common.{ℕ, ◌+◌, ◌^◌, Bool, List, [], ◌∷◌, ◌&&◌, ltb, min, any, if◌then◌else◌}
use oxide_kv.Text.{Str, ◌=s◌}
use oxide_kv.Sim.{InboundMessageBody}

pub record LinkId : Type 0 where
  pub from : Str
  pub to : Str

abbrev pub same_link : LinkId → LinkId → Bool
same_link a b = a.from =s b.from && a.to =s b.to

-- Durations are milliseconds.
pub data ScheduleOutcome : Type 0 where
  deliver : ScheduleOutcome
  drop : ScheduleOutcome
  delay : ℕ → ScheduleOutcome
  duplicate : ℕ → ScheduleOutcome

-- A generator with the number of samples that are drawn.
pub record Rng : Type 0 where
  pub sample : ℕ → ℕ
  pub drawn : ℕ

abbrev pub draw : Rng → Rng
draw r = record r { drawn = r.drawn + 1 }

pub data FaultScheduler : Type 0 where
  drop_unless : (LinkId → InboundMessageBody → Bool) → FaultScheduler
  always_deliver : FaultScheduler
  drop_link : Str → Str → FaultScheduler
  random_drop : Rng → FaultScheduler
  partitioned_network : List LinkId → FaultScheduler
  random_delay : Rng → ℕ → ℕ → FaultScheduler
  duplicate_all : ℕ → FaultScheduler

-- `RandomDelay::new`; the probability is clamped to 1.
unfoldable pub new_random_delay : Rng → ℕ → ℕ → FaultScheduler
new_random_delay rng p_delay d = random_delay rng (min p_delay (2 ^ 53)) d

-- `partition` of a partitioned network: the set of links that are cut.
unfoldable pub partition : LinkId → FaultScheduler → FaultScheduler
partition link (partitioned_network links) =
    partitioned_network (if any (same_link link) links then links else link ∷ links)
partition link s = s

unfoldable pub heal : FaultScheduler → FaultScheduler
heal (partitioned_network links) = partitioned_network []
heal s = s

abbrev drop_if : Bool → ScheduleOutcome
drop_if cut = if cut then ScheduleOutcome.drop else deliver

unfoldable pub before_send :
    FaultScheduler → LinkId → InboundMessageBody → FaultScheduler × ScheduleOutcome
before_send (drop_unless cond) link body =
    (drop_unless cond, if cond link body then deliver else ScheduleOutcome.drop)
before_send always_deliver link body = (always_deliver, deliver)
before_send (drop_link from to) link body =
    (drop_link from to, drop_if (link.from =s from && link.to =s to))
before_send (random_drop rng) link body =
    (random_drop (draw rng), drop_if (ltb (rng.sample rng.drawn) (2 ^ 52)))
before_send (partitioned_network links) link body =
    (partitioned_network links, drop_if (any (same_link link) links))
before_send (random_delay rng p_delay d) link body = (
  random_delay (draw rng) p_delay d,
  if ltb (rng.sample rng.drawn) p_delay then delay d else deliver,
)
before_send (duplicate_all d) link body = (duplicate_all d, duplicate d)
