-- ===== src/Lsm/Scan.antt =====
-- The scan of one table in `get` of state_machine.rs, over sorted rows and their key range.
use oxide_kv.Common.{
  ℕ, ◌≡◌, ◌≢◌, refl, true, none, some, [], ◌∷◌, arith, map, Ordering, if◌then◌else◌,
}
use oxide_kv.Text.{Str, cmp, eq_of_cmp, gt_of_lt, lt_of_gt, lt_trans, cmp_refl}
use oxide_kv.Map
use oxide_kv.Map.{Map}
use oxide_kv.Map.Order.{IsSorted, Below, ◌≺◌, get-Below, Below-trans}
use oxide_kv.Lsm.{MemEntry, sst_entry, last_key, table_meta, scan, out_of_range}

abbrev pub last_of : Map MemEntry → Str
last_of m = last_key (map sst_entry m)

-- The row of a flushed entry reads as the entry.
abbrev shown : Str × MemEntry → MemEntry
shown x = if (sst_entry x).tombstone then none else (sst_entry x).value

shown_lem : (k : Str) (e : MemEntry) → shown (k, e) ≡ e
shown_lem k none = refl
shown_lem k (some v) = refl

key_lem : (k : Str) (e : MemEntry) → (sst_entry (k, e)).key ≡ k
key_lem k none = refl
key_lem k (some v) = refl

-- Sorted rows: a key that is there is found.
pub scan_found :
    (key : Str) (m : Map MemEntry) (e : MemEntry)
    → IsSorted m
    → Map.get key m ≡ some e
    → scan key (map sst_entry m) ≡ some e
unfolding scan Map.get
scan_found key [] e s h = ground arith
scan_found key ((k, w) ∷ m) e s h = ground (
  arith,
  scan_found key m e s.1,
  lt_of_gt k key,
  Below-trans key k m,
  get-Below key m,
  shown_lem k w,
  key_lem k w,
  cmp_refl k,
)

-- A key that is missing, and not beyond the last one, ends the scan at the first greater key.
pub scan_covered :
    (key : Str) (x : Str × MemEntry) (m : Map MemEntry)
    → cmp key (last_of (x ∷ m)) ≢ Ordering.gt
    → Map.get key (x ∷ m) ≡ none
    → scan key (map sst_entry (x ∷ m)) ≡ some none
unfolding scan Map.get
scan_covered key (k, w) [] c h =
    ground (arith, key_lem k w, eq_of_cmp k key, gt_of_lt k key, cmp_refl k)
scan_covered key (k, w) (y ∷ m) c h =
    ground (arith, key_lem k w, scan_covered key y m c, cmp_refl k)

Below-last :
    (k : Str) (x : Str × MemEntry) (m : Map MemEntry) → Below k (x ∷ m) → k ≺ last_of (x ∷ m)
Below-last k (j, w) [] b = rw (key_lem j w) b.0
Below-last k x (y ∷ m) b = Below-last k y m b.1

get_beyond :
    (key : Str) (x : Str × MemEntry) (m : Map MemEntry)
    → IsSorted (x ∷ m)
    → last_of (x ∷ m) ≺ key
    → Map.get key (x ∷ m) ≡ none
unfolding Map.get
get_beyond key (k, w) [] s h = ground (arith, key_lem k w)
get_beyond key (k, w) (y ∷ m) s h =
    ground (arith, get_beyond key y m s.1, Below-last k y m s.0, lt_trans k (last_of (y ∷ m)) key)

-- Outside the range of the metadata there is no row.
pub get-out_of_range :
    (key : Str) (id : ℕ) (m : Map MemEntry)
    → IsSorted m
    → out_of_range key (table_meta id (map sst_entry m)) ≡ true
    → Map.get key m ≡ none
unfolding out_of_range table_meta Map.get
get-out_of_range key id [] s h = refl
get-out_of_range key id ((k, w) ∷ m) s h = ground (
  arith,
  key_lem k w,
  get-Below key ((k, w) ∷ m),
  Below-trans key k m,
  lt_of_gt key (last_of ((k, w) ∷ m)),
  get_beyond key (k, w) m s,
)
