-- ===== src/Lsm/Reads.antt =====
-- `get` of state_machine.rs against the abstract store.
use oxide_kv.Common.{
  ◌<◌, ◌≡◌, refl, ◌∙◌, inl, inr, true, false, none, some, List, [], ◌∷◌, ◌++◌, arith, map, reverse,
  All, All_right, ap, Option-cases, Bool-cases, ℕ-cases,
}
use mathlib.Core.Path.{subst}
use mathlib.Core.List.{reverse-append}
use oxide_kv.Text.{Str}
use oxide_kv.Map
use oxide_kv.Map.{Map}
use oxide_kv.Lsm.{
  StateMachine, MemEntry, sst_entry, table_meta, scan, out_of_range, table_answer, get_from, get,
}
use oxide_kv.Lsm.Disk.{SstableHandle, DataDir}
use oxide_kv.Lsm.View.{row, or_else, view_tables, view, IsTable, IsValid}
use oxide_kv.Lsm.View.Rows.{row-rows, view_tables-append}
use oxide_kv.Lsm.Scan.{scan_found, scan_covered, get-out_of_range}

-- A table does not have the key in its range without a row for it.
pub data Gapless (disk : DataDir) (key : Str) (sst : SstableHandle) : Type 0 where
  outside : out_of_range key sst.meta ≡ true → Gapless disk key sst
  present : (e : MemEntry) → row disk key sst ≡ some e → Gapless disk key sst
  vacant : sst.meta.entry_count ≡ 0 → Gapless disk key sst

-- The range of a table covers the key, and no row of it is the key's.
pub record Covers (disk : DataDir) (key : Str) (sst : SstableHandle) : Type 0 where
  pub inside : out_of_range key sst.meta ≡ false
  pub missing : row disk key sst ≡ none
  pub occupied : 0 < sst.meta.entry_count

module _ (disk : DataDir) (key : Str) (sst : SstableHandle) (t : IsTable disk sst) where
  out_of_range-row : out_of_range key sst.meta ≡ true → row disk key sst ≡ none
  out_of_range-row h =
      row-rows disk key sst t
      ∙ get-out_of_range key sst.path t.rows t.sorted (ground (arith, t.meta))

  answer_scan :
      out_of_range key sst.meta ≡ false
      → table_answer disk key sst ≡ scan key (map sst_entry t.rows)
  unfolding table_answer
  answer_scan h = ground (arith, t.stored)

  found_answer : (e : MemEntry) → row disk key sst ≡ some e → table_answer disk key sst ≡ some e
  found_answer e h = elim (Bool-cases (out_of_range key sst.meta)) [
    | inl out ↦ absurd (ground (arith, out_of_range-row out))
    | inr into ↦
        answer_scan into
        ∙ scan_found key t.rows e t.sorted (ground (arith, row-rows disk key sst t))
  ]

  vacant_answer :
      (rows : Map MemEntry)
      → t.rows ≡ rows
      → sst.meta.entry_count ≡ 0
      → table_answer disk key sst ≡ row disk key sst
  unfolding table_answer scan table_meta Map.get
  vacant_answer [] e h = ground (arith, t.stored, row-rows disk key sst t)
  vacant_answer (x ∷ m) e h = absurd (ground (arith, t.meta))

  Gapless-answer : Gapless disk key sst → table_answer disk key sst ≡ row disk key sst
  Gapless-answer (outside h) = unfold table_answer in ground (arith, out_of_range-row h)
  Gapless-answer (present e h) = found_answer e h ∙ ground arith
  Gapless-answer (vacant h) = vacant_answer t.rows refl h

  covered_rows :
      (rows : Map MemEntry)
      → t.rows ≡ rows
      → Covers disk key sst
      → scan key (map sst_entry rows) ≡ some none
  unfolding out_of_range table_meta scan
  covered_rows [] e c = absurd (ground (arith, t.meta, c.occupied))
  covered_rows (x ∷ m) e c =
      scan_covered key x m (ground (arith, t.meta, c.inside))
        (ground (arith, c.missing, row-rows disk key sst t))

  Covers-answer : Covers disk key sst → table_answer disk key sst ≡ some none
  Covers-answer c = answer_scan c.inside ∙ covered_rows t.rows refl c

-- `get_from` with the result for when no table answers.
get_from_or : DataDir → Str → MemEntry → List SstableHandle → MemEntry
get_from_or disk key d [] = d
get_from_or disk key d (sst ∷ older) =
    or_else (table_answer disk key sst) (get_from_or disk key d older)

get_from_or_lem :
    (disk : DataDir) (key : Str) (hs : List SstableHandle)
    → get_from disk key hs ≡ get_from_or disk key none hs
unfolding get_from get_from_or
get_from_or_lem disk key [] = refl
get_from_or_lem disk key (h ∷ hs) = ground (arith, get_from_or_lem disk key hs)

get_from_or-append :
    (disk : DataDir) (key : Str) (d : MemEntry) (hs : List SstableHandle) (h : SstableHandle)
    → get_from_or disk key d (hs ++ h ∷ [])
      ≡ get_from_or disk key (or_else (table_answer disk key h) d) hs
unfolding get_from_or
get_from_or-append disk key d [] h = refl
get_from_or-append disk key d (g ∷ hs) h = rw (get_from_or-append disk key d hs h)

newest_first :
    (disk : DataDir) (key : Str) (d : MemEntry) (hs : List SstableHandle)
    → All (IsTable disk) hs
    → All (Gapless disk key) hs
    → get_from_or disk key d (reverse hs) ≡ view_tables disk key d hs
unfolding get_from_or view_tables
newest_first disk key d [] t g = refl
newest_first disk key d (h ∷ hs) t g =
    rw (reverse-append (h ∷ []) hs, get_from_or-append, Gapless-answer disk key h t.0 g.0)
      (newest_first disk key (or_else (row disk key h) d) hs t.1 g.1)

-- A read of a valid store returns the value that it holds, if no table that has rows has the key in
-- its range without a row for it.
pub get-view :
    (key : Str) (sm : StateMachine)
    → IsValid sm
    → All (Gapless sm.disk key) sm.sstables
    → get key sm ≡ view key sm
unfolding get view
get-view key sm v g = ground (
  arith,
  get_from_or_lem sm.disk key (reverse sm.sstables),
  newest_first sm.disk key none sm.sstables v.tables g,
)

-- A key that the memtable holds reads as the memtable says, whatever the tables are.
pub get-view_memtable :
    (key : Str) (sm : StateMachine) (e : MemEntry)
    → Map.get key sm.memtable ≡ some e
    → (get key sm ≡ e) × (view key sm ≡ e)
unfolding get view
get-view_memtable key sm e h = ground arith

get_from_newest :
    (disk : DataDir) (key : Str) (hs : List SstableHandle) (sst : SstableHandle)
    → table_answer disk key sst ≡ some none
    → get_from disk key (reverse (hs ++ sst ∷ [])) ≡ none
unfolding get_from
get_from_newest disk key hs sst h = rw (reverse-append hs (sst ∷ [])) (ground arith)

module _ (key : Str) (sm : StateMachine) (older : List SstableHandle) (newest : SstableHandle) where
  -- The early return of the scan hides values: where the memtable of a valid store does not hold the
  -- key and the range of the newest table covers it with no row, a read finds nothing, although the
  -- store holds what the older tables say.
  pub get-none_of_Covers :
      IsValid sm
      → sm.sstables ≡ older ++ newest ∷ []
      → Map.get key sm.memtable ≡ none
      → Covers sm.disk key newest
      → (get key sm ≡ none) × (view key sm ≡ view_tables sm.disk key none older)
  unfolding get view
  get-none_of_Covers v tables absent c =
      let newest_table : IsTable sm.disk newest =
        (All_right (IsTable sm.disk) older (newest ∷ [])
          (subst (All (IsTable sm.disk)) tables v.tables)).0 in
      (
        ground (
          arith,
          ap reverse tables,
          get_from_newest sm.disk key older newest
              (Covers-answer sm.disk key newest newest_table c),
        ),
        ground (
          arith,
          ap (view_tables sm.disk key none) tables,
          view_tables-append sm.disk key none older newest,
          c.missing,
        ),
      )

-- A single table never hides a value: there is no older one to go on to.
pub get_from_single :
    (disk : DataDir) (key : Str) (sst : SstableHandle)
    → IsTable disk sst
    → get_from disk key (sst ∷ []) ≡ or_else (row disk key sst) none
unfolding get_from
get_from_single disk key sst t = elim (Option-cases (row disk key sst)) [
  | inr (e, found) ↦ ground (arith, found_answer disk key sst t e found)
  | inl missing ↦ elim (Bool-cases (out_of_range key sst.meta)) [
    | inl out ↦ ground (arith, Gapless-answer disk key sst t (outside out))
    | inr into ↦ elim (ℕ-cases sst.meta.entry_count) [
      | inl zero_rows ↦ ground (arith, Gapless-answer disk key sst t (vacant zero_rows))
      | inr some_rows ↦ ground (
        arith,
        Covers-answer disk key sst t
            (record { inside = into; missing = missing; occupied = some_rows }),
      )
    ]
  ]
]
