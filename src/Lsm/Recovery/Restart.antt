-- ===== src/Lsm/Recovery/Restart.antt =====
-- `StateMachine::open` of state_machine.rs on a disk that is in step with the store.
use oxide_kv.Common.{ℕ, ◌+◌, ◌<◌, ◌≤◌, ◌≡◌, refl, ◌∙◌, sym, ap, List, [], ◌∷◌, arith, max, All}
use mathlib.Core.Path.{subst}
use oxide_kv.Text.{Str}
use oxide_kv.Map.Order.{IsSorted}
use oxide_kv.Lsm.{StateMachine}
use oxide_kv.Lsm.Disk.{SstableHandle, SstFile}
use oxide_kv.Lsm.View.{view, IsTable, IsValid}
use oxide_kv.Lsm.Recovery.{insert_by_id, sort_by_id, discover, next_id, replay_wal, open_dir}

-- Handles in order of their ids, from `lo` on, each named for its id.
abbrev pub Ascending : ℕ → List SstableHandle → Type 0
Ascending lo [] = Unit
Ascending lo (h ∷ hs) = (lo ≤ h.path) × (h.meta.id ≡ h.path) × Ascending (h.path + 1) hs

-- The disk holds what a restart needs: the memtable is the replay of the WAL, and the files are
-- those of the handles, oldest first.
pub record IsRecoverable (sm : StateMachine) : Type 0 where
  pub valid : IsValid sm
  pub log : (replay_wal [] 0 sm.disk.wal).0 ≡ sm.memtable
  pub files : discover sm.disk.files ≡ sm.sstables
  pub ascending : Ascending 0 sm.sstables

insert_by_id-front :
    (h : SstableHandle) (hs : List SstableHandle)
    → h.meta.id ≡ h.path
    → Ascending (h.path + 1) hs
    → insert_by_id h hs ≡ h ∷ hs
unfolding insert_by_id
insert_by_id-front h [] e a = refl
insert_by_id-front h (g ∷ gs) e a = ground (arith, a.0, a.1)

pub sort_by_id-Ascending : (lo : ℕ) (hs : List SstableHandle) → Ascending lo hs → sort_by_id hs ≡ hs
unfolding sort_by_id
sort_by_id-Ascending lo [] a = refl
sort_by_id-Ascending lo (h ∷ hs) a =
    ap (insert_by_id h) (sort_by_id-Ascending (h.path + 1) hs a.2) ∙ insert_by_id-front h hs a.1 a.2

next_id_ge : (id : ℕ) (files : List (ℕ × SstFile)) → id ≤ next_id id files
unfolding next_id
next_id_ge id [] = omega arith
next_id_ge id ((p, f) ∷ files) = omega (arith, next_id_ge (max id (p + 1)) files)

-- The next id is above every file's.
next_id-fresh :
    (id : ℕ) (files : List (ℕ × SstFile)) → All (λ h. h.path < next_id id files) (discover files)
unfolding next_id discover
next_id-fresh id [] = tt
next_id-fresh id ((p, f) ∷ files) =
    (omega (arith, next_id_ge (max id (p + 1)) files), next_id-fresh (max id (p + 1)) files)

-- A store that is in step with its disk is found again by `open`: it is valid and in step again,
-- with every key's value, and with no staged transaction.
pub open_dir-view :
    (threshold : ℕ) (sm : StateMachine)
    → IsRecoverable sm
    → IsRecoverable (open_dir threshold sm.disk)
      × ((key : Str) → view key (open_dir threshold sm.disk) ≡ view key sm)
      × ((open_dir threshold sm.disk).pending_txs ≡ [])
unfolding open_dir view
open_dir-view threshold sm r =
    let found : sort_by_id (discover sm.disk.files) ≡ sm.sstables =
      ap sort_by_id r.files ∙ sort_by_id-Ascending 0 sm.sstables r.ascending in
    (
      record {
        valid = record {
          sorted = subst IsSorted (sym r.log) r.valid.sorted;
          tables = subst (All (IsTable sm.disk)) (sym found) r.valid.tables;
          fresh =
              subst (All (λ h. h.path < next_id 0 sm.disk.files)) (r.files ∙ sym found)
                (next_id-fresh 0 sm.disk.files);
        };
        log = refl;
        files = r.files ∙ sym found;
        ascending = subst (Ascending 0) (sym found) r.ascending;
      },
      λ key. rw (found, r.log) refl,
      refl,
    )
