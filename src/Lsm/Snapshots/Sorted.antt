-- ===== src/Lsm/Snapshots/Sorted.antt =====
-- The order of keys in the map of `snapshot_data` of state_machine.rs.
use oxide_kv.Common.{◌≡◌, ◌⊎◌, none, some, List, [], ◌∷◌, Bool-cases, Option-cases, inl, inr}
use mathlib.Core.Path.{subst, refl}
use native.Mathlib.Omega.{arith}
use oxide_kv.Text.{Str}
use oxide_kv.Map
use oxide_kv.Map.{Map}
use oxide_kv.Map.Order.{IsSorted, insert-IsSorted, remove-IsSorted}
use oxide_kv.Lsm.{
  StateMachine, MemEntry, overlay_entry, overlay_entries, overlay_ssts, overlay_memtable,
  snapshot_data,
}
use oxide_kv.Lsm.Disk.{
  SstEntry, SstableHandle, DataDir, Result, IoError, ok, err, load_sst_entries, ◌>>=◌,
}

overlay_entry-IsSorted : (m : Map Str) (e : SstEntry) → IsSorted m → IsSorted (overlay_entry m e)
unfolding overlay_entry
overlay_entry-IsSorted m e s = elim (Bool-cases e.tombstone) [
  | inl dead ↦ rw (overlay_entry, dead) (remove-IsSorted e.key m s)
  | inr live ↦ elim (Option-cases e.value) [
    | inl empty ↦ rw (overlay_entry, live, empty) s
    | inr (v, has) ↦ rw (overlay_entry, live, has) (insert-IsSorted e.key v m s)
  ]
]

overlay_entries-IsSorted :
    (m : Map Str) (es : List SstEntry) → IsSorted m → IsSorted (overlay_entries m es)
unfolding overlay_entries
overlay_entries-IsSorted m [] s = s
overlay_entries-IsSorted m (e ∷ es) s =
    overlay_entries-IsSorted (overlay_entry m e) es (overlay_entry-IsSorted m e s)

overlay_memtable-IsSorted :
    (m : Map Str) (rows : Map MemEntry) → IsSorted m → IsSorted (overlay_memtable m rows)
unfolding overlay_memtable
overlay_memtable-IsSorted m [] s = s
overlay_memtable-IsSorted m ((k, some v) ∷ rows) s =
    overlay_memtable-IsSorted (Map.insert k v m) rows (insert-IsSorted k v m s)
overlay_memtable-IsSorted m ((k, none) ∷ rows) s =
    overlay_memtable-IsSorted (Map.remove k m) rows (remove-IsSorted k m s)

Result-cases : {A : Type 0} (r : Result A) → ((e : IoError) × (r ≡ err e)) ⊎ ((a : A) × (r ≡ ok a))
Result-cases (err e) = inl (e, refl)
Result-cases (ok a) = inr (a, refl)

overlay_ssts-IsSorted :
    (disk : DataDir) (m out : Map Str) (hs : List SstableHandle)
    → IsSorted m
    → overlay_ssts disk m hs ≡ ok out
    → IsSorted out
unfolding overlay_ssts
overlay_ssts-IsSorted disk m out [] s e = let same : m ≡ out = cc in subst IsSorted same s
overlay_ssts-IsSorted disk m out (h ∷ hs) s e = elim (Result-cases (load_sst_entries h.path disk)) [
  | inl (x, l) ↦ absurd (ground (arith, l))
  | inr (es, l) ↦
      overlay_ssts-IsSorted disk (overlay_entries m es) out hs (overlay_entries-IsSorted m es s)
        (ground (arith, l))
]

from_tables :
    (r : Result (Map Str)) (sm : StateMachine) (out : Map Str)
    → overlay_ssts sm.disk [] sm.sstables ≡ r
    → (r >>= (λ result. ok (overlay_memtable result sm.memtable))) ≡ ok out
    → IsSorted out
from_tables (err x) sm out t e = cc
from_tables (ok m) sm out t e =
    let same : overlay_memtable m sm.memtable ≡ out = cc in
    subst IsSorted same (
      overlay_memtable-IsSorted m sm.memtable (overlay_ssts-IsSorted sm.disk [] m sm.sstables tt t))

pub snapshot_data-IsSorted :
    (sm : StateMachine) (out : Map Str) → snapshot_data sm ≡ ok out → IsSorted out
unfolding snapshot_data
snapshot_data-IsSorted sm out e = from_tables (overlay_ssts sm.disk [] sm.sstables) sm out refl e
