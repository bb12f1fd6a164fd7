-- ===== src/Lsm/Compaction/Merge.antt =====
-- The merge of `compact` of state_machine.rs, row by row.
use oxide_kv.Common.{
  ◌≡◌, refl, ap, ◌∙◌, Bool, none, some, List, [], ◌∷◌, arith, map, All, filter, not,
}
use oxide_kv.Text.{Str, eq_of_cmp}
use oxide_kv.Map
use oxide_kv.Map.{Map, values}
use oxide_kv.Map.Laws.{get-insert}
use oxide_kv.Map.Order.{IsSorted, Below, get-Below, insert-IsSorted}
use oxide_kv.Lsm.{MemEntry, sst_entry}
use oxide_kv.Lsm.Disk.{SstEntry, SstableHandle, DataDir, ok}
use oxide_kv.Lsm.View.{or_else, view_tables, IsTable}
use oxide_kv.Lsm.View.Rows.{row-rows}
use oxide_kv.Lsm.Compaction.{merge_entries, merge_ssts, live_entries}

-- The merged rows as the map of `compact`, which repeats each key in its row.
abbrev pub keyed : Map MemEntry → Map SstEntry
keyed m = map (λ x. (x.0, sst_entry x)) m

keyed-insert :
    (k : Str) (e : MemEntry) (m : Map MemEntry)
    → Map.insert k (sst_entry (k, e)) (keyed m) ≡ keyed (Map.insert k e m)
unfolding Map.insert
keyed-insert k e [] = refl
keyed-insert k e ((j, w) ∷ m) = ground (arith, keyed-insert k e m)

-- Rows inserted one after another.
merge_rows : Map MemEntry → Map MemEntry → Map MemEntry
merge_rows g [] = g
merge_rows g ((k, e) ∷ m) = merge_rows (Map.insert k e g) m

merge_entries-keyed :
    (g m : Map MemEntry) → merge_entries (keyed g) (map sst_entry m) ≡ keyed (merge_rows g m)
unfolding merge_entries merge_rows
merge_entries-keyed g [] = refl
merge_entries-keyed g ((k, none) ∷ m) =
    ap (λ g'. merge_entries g' (map sst_entry m)) (keyed-insert k none g)
    ∙ merge_entries-keyed (Map.insert k none g) m
merge_entries-keyed g ((k, some v) ∷ m) =
    ap (λ g'. merge_entries g' (map sst_entry m)) (keyed-insert k (some v) g)
    ∙ merge_entries-keyed (Map.insert k (some v) g) m

merge_rows-IsSorted : (g m : Map MemEntry) → IsSorted g → IsSorted (merge_rows g m)
unfolding merge_rows
merge_rows-IsSorted g [] s = s
merge_rows-IsSorted g ((k, e) ∷ m) s =
    merge_rows-IsSorted (Map.insert k e g) m (insert-IsSorted k e g s)

get-merge_rows :
    (key : Str) (g m : Map MemEntry)
    → IsSorted m
    → Map.get key (merge_rows g m) ≡ elim (Map.get key m) [ some e ↦ some e | none ↦ Map.get key g ]
unfolding merge_rows Map.get
get-merge_rows key g [] s = refl
get-merge_rows key g ((k, e) ∷ m) s = ground (
  arith,
  get-merge_rows key (Map.insert k e g) m s.1,
  get-insert k key e g,
  get-Below k m s.0,
  eq_of_cmp k key,
)

-- The result of merging the tables into `g`.
pub record Merged (disk : DataDir) (g : Map MemEntry) (hs : List SstableHandle) : Type 0 where
  pub out : Map MemEntry
  pub loaded : merge_ssts disk (keyed g) hs ≡ ok (keyed out)
  pub sorted : IsSorted out
  pub reads :
      (key : Str)
      → or_else (Map.get key out) none ≡ view_tables disk key (or_else (Map.get key g) none) hs

pub merged :
    (disk : DataDir) (g : Map MemEntry) (hs : List SstableHandle)
    → IsSorted g
    → All (IsTable disk) hs
    → Merged disk g hs
unfolding merge_ssts view_tables
merged disk g [] s t = record { out = g; loaded = refl; sorted = s; reads = λ key. refl }
merged disk g (h ∷ hs) s t =
    let rest = merged disk (merge_rows g t.0.rows) hs (merge_rows-IsSorted g t.0.rows s) t.1 in
    record {
      out = rest.out;
      loaded = ground (arith, t.0.stored, rest.loaded, merge_entries-keyed g t.0.rows);
      sorted = rest.sorted;
      reads = λ key. ground (
        arith,
        rest.reads key,
        get-merge_rows key g t.0.rows t.0.sorted,
        row-rows disk key h t.0,
      );
    }

abbrev is_live : Str × MemEntry → Bool
is_live x = not (sst_entry x).tombstone

abbrev pub live : Map MemEntry → Map MemEntry
live m = filter is_live m

pub live_entries-keyed : (m : Map MemEntry) → live_entries (keyed m) ≡ map sst_entry (live m)
unfolding live_entries
live_entries-keyed [] = refl
live_entries-keyed ((k, none) ∷ m) = unfold live_entries in live_entries-keyed m
live_entries-keyed ((k, some v) ∷ m) = ground (arith, live_entries-keyed m)

live-Below : (k : Str) (m : Map MemEntry) → Below k m → Below k (live m)
live-Below k [] b = tt
live-Below k ((j, none) ∷ m) b = live-Below k m b.1
live-Below k ((j, some v) ∷ m) b = (b.0, live-Below k m b.1)

pub live-IsSorted : (m : Map MemEntry) → IsSorted m → IsSorted (live m)
live-IsSorted [] s = tt
live-IsSorted ((k, none) ∷ m) s = live-IsSorted m s.1
live-IsSorted ((k, some v) ∷ m) s = (live-Below k m s.0, live-IsSorted m s.1)

-- Dropping tombstones from all of the rows hides and reveals nothing.
pub get-live :
    (key : Str) (m : Map MemEntry)
    → IsSorted m
    → or_else (Map.get key (live m)) none ≡ or_else (Map.get key m) none
unfolding Map.get
get-live key [] s = refl
get-live key ((k, none) ∷ m) s =
    ground (arith, get-live key m s.1, get-Below k m s.0, eq_of_cmp k key)
get-live key ((k, some v) ∷ m) s = ground (arith, get-live key m s.1)
