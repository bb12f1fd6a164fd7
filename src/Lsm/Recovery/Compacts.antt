-- ===== src/Lsm/Recovery/Compacts.antt =====
-- `compact` of state_machine.rs and the disk that a restart finds.
use oxide_kv.Common.{
  ℕ, ◌+◌, ◌<◌, ◌≡◌, ◌≢◌, refl, ◌∙◌, sym, ap, List, [], ◌∷◌, ◌++◌, arith, All, ltb, length,
  Bool-cases, inl, inr,
}
use mathlib.Core.Path.{subst}
use oxide_kv.Text.{Str}
use oxide_kv.Map.{Map}
use oxide_kv.Lsm.{StateMachine, table_meta}
use oxide_kv.Lsm.Disk.{
  SstEntry, SstableHandle, SstFile, DataDir, Result, ok, err, remove_file, write_sst, remove_ssts,
  ◌>>=◌,
}
use oxide_kv.Lsm.Compaction.{merge_ssts, live_entries, replace_tables, compact}
use oxide_kv.Lsm.Compaction.Keeps.{compact-Compacted}
use oxide_kv.Lsm.View.{IsValid, view}
use oxide_kv.Lsm.View.Files.{wal-remove_ssts}
use oxide_kv.Lsm.Recovery.{discover, replay_wal}
use oxide_kv.Lsm.Recovery.Restart.{Ascending, IsRecoverable}
use oxide_kv.Lsm.Recovery.Keeps.{remove_file-absent, All-distinct}

pub Ascending-All :
    (lo : ℕ) (hs : List SstableHandle)
    → Ascending lo hs
    → (p : ℕ) → p < lo
    → All (λ h. h.path ≢ p) hs
Ascending-All lo [] a p lt = tt
Ascending-All lo (h ∷ hs) a p lt =
    (omega (arith, a.0), Ascending-All (h.path + 1) hs a.2 p (omega (arith, a.0)))

discover_past :
    (p q : ℕ) (f : SstFile) (files : List (ℕ × SstFile))
    → All (λ h. h.path ≢ p) (discover files)
    → p < q
    → All (λ h. h.path ≢ p) (discover (files ++ (q, f) ∷ []))
unfolding discover
discover_past p q f [] a lt = (omega arith, tt)
discover_past p q f (g ∷ files) a lt = (a.0, discover_past p q f files a.1 lt)

-- Removing every file that a handle names leaves the new one.
remove_ssts-all :
    (lo q : ℕ) (f : SstFile) (files : List (ℕ × SstFile)) (disk : DataDir)
    → Ascending lo (discover files)
    → All (λ h. h.path < q) (discover files)
    → disk.files ≡ files ++ (q, f) ∷ []
    → (remove_ssts (discover files) disk).files ≡ (q, f) ∷ []
unfolding discover remove_ssts
remove_ssts-all lo q f [] disk a b e = e
remove_ssts-all lo q f ((p, g) ∷ files) disk a b e =
    let absent = remove_file-absent p (files ++ (q, f) ∷ []) (
      discover_past p q f files (Ascending-All (p + 1) (discover files) a.2 p (omega arith)) b.0) in
    remove_ssts-all (p + 1) q f files (record disk { files = remove_file p disk.files }) a.2 b.1
      (ap (remove_file p) e ∙ ground (arith, absent))

replace_tables-IsRecoverable :
    (entries : List SstEntry) (sm : StateMachine)
    → IsRecoverable sm
    → IsValid (replace_tables entries sm)
    → IsRecoverable (replace_tables entries sm)
unfolding replace_tables table_meta write_sst discover
replace_tables-IsRecoverable entries sm r v =
    let q = sm.next_sst_id in
    let meta = table_meta q entries in
    let file : SstFile = record { entries = entries; sidecar = meta } in
    let disk = write_sst q entries meta sm.disk in
    let fresh = subst (All (λ h. h.path < q)) (sym r.files) r.valid.fresh in
    let written : disk.files ≡ sm.disk.files ++ (q, file) ∷ [] =
      ap (λ files. files ++ (q, file) ∷ [])
        (remove_file-absent q sm.disk.files (All-distinct q _ fresh)) in
    let left : (remove_ssts sm.sstables disk).files ≡ (q, file) ∷ [] =
      subst (λ hs. (remove_ssts hs disk).files ≡ (q, file) ∷ []) r.files
        (remove_ssts-all 0 q file sm.disk.files disk (subst (Ascending 0) (sym r.files) r.ascending)
          fresh written) in
    record {
      valid = v;
      log = ap (λ wal. (replay_wal [] 0 wal).0) (wal-remove_ssts sm.sstables disk) ∙ r.log;
      files = ap discover left;
      ascending = (omega arith, refl, tt);
    }

from_merge :
    (merged : Result (Map SstEntry)) (sm after : StateMachine)
    → IsRecoverable sm
    → IsValid after
    → (merged >>= (λ m. ok (replace_tables (live_entries m) sm))) ≡ ok after
    → IsRecoverable after
from_merge (err e) sm after r v same = cc
from_merge (ok m) sm after r v same =
    let eq : replace_tables (live_entries m) sm ≡ after = cc in
    subst IsRecoverable eq
      (replace_tables-IsRecoverable (live_entries m) sm r (subst IsValid (sym eq) v))

compacted-IsRecoverable :
    (sm after : StateMachine)
    → IsRecoverable sm
    → IsValid after
    → compact sm ≡ ok after
    → IsRecoverable after
unfolding compact
compacted-IsRecoverable sm after r v e = elim (Bool-cases (ltb (length sm.sstables) 2)) [
  | inl few ↦ let same : sm ≡ after = ground arith in subst IsRecoverable same r
  | inr many ↦ from_merge (merge_ssts sm.disk [] sm.sstables) sm after r v (ground arith)
]

-- A compaction of a store that is in step with its disk succeeds, keeps every key's
-- value, and leaves the disk in step with the store.
pub compact-IsRecoverable :
    (sm : StateMachine)
    → IsRecoverable sm
    → (after : StateMachine) × (compact sm ≡ ok after)
      × IsRecoverable after
      × ((key : Str) → view key after ≡ view key sm)
compact-IsRecoverable sm r =
    let (after, e, c) = compact-Compacted sm r.valid in
    (after, e, compacted-IsRecoverable sm after r c.valid e, c.views)
