-- ===== src/Raft/Snapshots/Installs.antt =====
-- An InstallSnapshot request at a follower, raft/node.rs.
use oxide_kv.Common.{
  ℕ, ◌+◌, ◌≤◌, ◌<◌, ◌≡◌, refl, ◌∙◌, ap, sym, false, Option, none, some, List, [], ◌∷◌, ◌&&◌, arith,
  All, filter, max, ltb, ◌==◌, Bool-cases, inl, inr,
}
use mathlib.Core.Path.{subst}
use oxide_kv.Text.{Str, eq_of_cmp}
use oxide_kv.Map
use oxide_kv.Map.{Map}
use oxide_kv.Map.Order.{IsSorted, get-Below}
use oxide_kv.Protocol.{LogEntry}
use oxide_kv.Lsm
use oxide_kv.Lsm.{StateMachine}
use oxide_kv.Lsm.Disk.{SstFile, DataDir, remove_file, remove_ssts}
use oxide_kv.Lsm.View.{view, view_tables}
use oxide_kv.Lsm.Writes.{view-set}
use oxide_kv.Lsm.Recovery.{discover, replay_wal}
use oxide_kv.Lsm.Recovery.Restart.{Ascending, IsRecoverable}
use oxide_kv.Lsm.Recovery.Keeps.{remove_file-absent, set-IsRecoverable}
use oxide_kv.Lsm.Recovery.Compacts.{Ascending-All}
use oxide_kv.Raft.{RaftNode, InstallSnapshotArgs, is_leader, follower, adopt_term}
use oxide_kv.Raft.Append.{follow}
use oxide_kv.Raft.Append.Accepts.{follow-Followed}
use oxide_kv.Raft.Snapshots.{set_all, load_into, handle_install_snapshot}

-- Removing the files of all handles leaves none.
remove_ssts-none :
    (lo : ℕ) (files : List (ℕ × SstFile)) (disk : DataDir)
    → Ascending lo (discover files)
    → disk.files ≡ files
    → (remove_ssts (discover files) disk).files ≡ []
unfolding discover remove_ssts
remove_ssts-none lo [] disk a e = e
remove_ssts-none lo ((p, f) ∷ files) disk a e =
    let absent =
      remove_file-absent p files (Ascending-All (p + 1) (discover files) a.2 p (omega arith)) in
    remove_ssts-none (p + 1) files (record disk { files = remove_file p disk.files }) a.2
      (ap (remove_file p) e ∙ ground (arith, absent))

clear_for_snapshot-IsRecoverable :
    (sm : StateMachine) → IsRecoverable sm → IsRecoverable (Lsm.clear_for_snapshot sm)
unfolding Lsm.clear_for_snapshot replay_wal discover
clear_for_snapshot-IsRecoverable sm r =
    let gone : (remove_ssts sm.sstables sm.disk).files ≡ [] =
      subst (λ hs. (remove_ssts hs sm.disk).files ≡ []) r.files
        (remove_ssts-none 0 sm.disk.files sm.disk (subst (Ascending 0) (sym r.files) r.ascending)
          refl) in
    record {
      valid = record { sorted = tt; tables = tt; fresh = tt };
      log = refl;
      files = ap discover gone;
      ascending = tt;
    }

view-clear_for_snapshot :
    (sm : StateMachine) (key : Str) → view key (Lsm.clear_for_snapshot sm) ≡ none
unfolding Lsm.clear_for_snapshot view view_tables Map.get
view-clear_for_snapshot sm key = refl

set_all-IsRecoverable :
    (entries : Map Str) (sm : StateMachine) → IsRecoverable sm → IsRecoverable (set_all entries sm)
unfolding set_all
set_all-IsRecoverable [] sm r = r
set_all-IsRecoverable ((k, v) ∷ entries) sm r =
    set_all-IsRecoverable entries (Lsm.set k v sm) (set-IsRecoverable k v sm r)

abbrev or_else_value : Option Str → Option Str → Option Str
or_else_value none old = old
or_else_value (some v) old = some v

or_else_value-none : (o : Option Str) → or_else_value o none ≡ o
or_else_value-none none = refl
or_else_value-none (some v) = refl

view-set_all :
    (key : Str) (entries : Map Str) (sm : StateMachine)
    → IsSorted entries
    → IsRecoverable sm
    → view key (set_all entries sm) ≡ or_else_value (Map.get key entries) (view key sm)
unfolding set_all Map.get
view-set_all key [] sm s r = refl
view-set_all key ((k, v) ∷ entries) sm s r = ground (
  arith,
  view-set_all key entries (Lsm.set k v sm) s.1 (set-IsRecoverable k v sm r),
  view-set k v sm key r.valid,
  get-Below k entries s.0,
  eq_of_cmp k key,
)

All-filter :
    (last : ℕ) (log : List LogEntry)
    → All (λ e. last < e.index) (filter (λ e. ltb last e.index) log)
All-filter last [] = tt
All-filter last (e ∷ es) = elim (Bool-cases (ltb last e.index)) [
  | inl past ↦ rw (past, All) (ground arith, All-filter last es)
  | inr old ↦ rw (old, All) (All-filter last es)
]

-- What a follower has after a snapshot.
pub record Installed (args : InstallSnapshotArgs) (n after : RaftNode) : Type 0 where
  pub term : after.current_term ≡ args.term
  pub state : after.state ≡ follower
  pub recoverable : IsRecoverable after.state_machine
  pub values : (key : Str) → view key after.state_machine ≡ Map.get key args.snapshot.entries
  pub saved : after.storage.snapshot ≡ some args.snapshot
  pub covered : All (λ e. args.last_included_index < e.index) after.log
  pub commit : after.commit_index ≡ max args.last_included_index n.commit_index
  pub applied : after.last_applied ≡ max args.last_included_index n.last_applied

-- A follower's node that takes a snapshot (its term is not newer, and it is not the leader of the
-- request's term) has the leader's term, the snapshot saved, and a store that holds the snapshot's
-- entries and no others, also after a restart; its log keeps only entries past the snapshot; and its
-- commit and applied indices are at least the snapshot's and never fall, even where the store does,
-- to a snapshot older than what was applied. The store has to be in step with its disk, and the
-- snapshot's entries in key order.
pub handle_install_snapshot-Installed :
    (now : ℕ) (args : InstallSnapshotArgs) (n : RaftNode)
    → n.current_term ≤ args.term
    → (args.term == n.current_term && is_leader n.state) ≡ false
    → IsRecoverable n.state_machine
    → IsSorted args.snapshot.entries
    → Installed args n (handle_install_snapshot now args n).0
unfolding handle_install_snapshot load_into
handle_install_snapshot-Installed now args n newer follows r s =
    let f = follow now args.term n in
    let kept = follow-Followed now args.term n in
    let old : ltb args.term n.current_term ≡ false = ground arith in
    let same : f.state_machine ≡ n.state_machine = unfold follow adopt_term in ground arith in
    let clear =
      clear_for_snapshot-IsRecoverable f.state_machine (subst IsRecoverable (sym same) r) in
    rw (handle_install_snapshot, old, follows)
      (record {
        term = kept.term newer;
        state = kept.state;
        recoverable = set_all-IsRecoverable args.snapshot.entries _ clear;
        values = λ key.
            view-set_all key args.snapshot.entries (Lsm.clear_for_snapshot f.state_machine) s clear
            ∙ (ap (or_else_value (Map.get key args.snapshot.entries))
                  (view-clear_for_snapshot f.state_machine key)
                ∙ or_else_value-none (Map.get key args.snapshot.entries));
        saved = refl;
        covered = All-filter args.last_included_index f.log;
        commit = ap (max args.last_included_index) kept.commit;
        applied = ap (max args.last_included_index) kept.applied;
      })
