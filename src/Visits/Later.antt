-- ===== src/Visits/Later.antt =====
-- What a task has used of the schedule, and written, between two of its points.
use oxide_kv.Common.{◌≡◌, refl, ap, sym, ◌∙◌, ◌++◌, some, List, [], ◌∷◌}
use mathlib.Core.List.{append-nil, append_assoc}
use oxide_kv.Raft.{RaftNode}
use oxide_kv.Visits.{Visit, Task, visit, write}
use oxide_kv.Visits.Steps.{visit-visits, visit-written, write-visits, write-written}

pub record Later (t t' : Task) : Type 0 where
  pub passed : List Visit
  pub wrote : List RaftNode
  pub visits : t.visits ≡ passed ++ t'.visits
  pub written : t'.written ≡ t.written ++ wrote

pub Later_refl : (t : Task) → Later t t
Later_refl t = record {
  passed = [];
  wrote = [];
  visits = refl;
  written = sym (append-nil t.written);
}

pub Later_trans : {t u w : Task} → Later t u → Later u w → Later t w
Later_trans {t} {u} {w} f g = record {
  passed = f.passed ++ g.passed;
  wrote = f.wrote ++ g.wrote;
  visits =
      f.visits ∙ ap (λ vs. f.passed ++ vs) g.visits ∙ sym (append_assoc f.passed g.passed w.visits);
  written = g.written ∙ ap (λ ns. ns ++ g.wrote) f.written ∙ append_assoc t.written f.wrote g.wrote;
}

pub visit-Later : (t t' : Task) (v : Visit) → visit t ≡ (some v, t') → Later t t'
visit-Later t t' v h = record {
  passed = v ∷ [];
  wrote = [];
  visits = visit-visits t t' v h;
  written = visit-written t t' v h ∙ sym (append-nil t.written);
}

pub write-Later :
    (n : RaftNode) (t t' : Task) (u : Unit {0}) → write n t ≡ (some u, t') → Later t t'
write-Later n t t' u h = record {
  passed = [];
  wrote = n ∷ [];
  visits = sym (write-visits n t t' u h);
  written = write-written n t t' u h;
}
