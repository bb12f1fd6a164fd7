-- ===== src/Lsm/View/Rows.antt =====
-- Rows of a table by key, and the tables of a store one after another.
use oxide_kv.Common.{◌≡◌, refl, none, some, List, [], ◌∷◌, ◌++◌, arith, map}
use oxide_kv.Text.{Str}
use oxide_kv.Map
use oxide_kv.Map.{Map}
use oxide_kv.Lsm.{MemEntry, sst_entry}
use oxide_kv.Lsm.Disk.{SstableHandle, DataDir}
use oxide_kv.Lsm.View.{row_of, row, or_else, view_tables, IsTable}

-- The rows of a flushed memtable are its entries.
pub row_of-sst_entry : (key : Str) (m : Map MemEntry) → row_of key (map sst_entry m) ≡ Map.get key m
unfolding row_of Map.get
row_of-sst_entry key [] = refl
row_of-sst_entry key ((k, none) ∷ m) = ground (arith, row_of-sst_entry key m)
row_of-sst_entry key ((k, some v) ∷ m) = ground (arith, row_of-sst_entry key m)

pub row-rows :
    (disk : DataDir) (key : Str) (sst : SstableHandle) (t : IsTable disk sst)
    → row disk key sst ≡ Map.get key t.rows
unfolding row
row-rows disk key sst t = ground (arith, t.stored, row_of-sst_entry key t.rows)

pub view_tables-append :
    (disk : DataDir) (key : Str) (older : MemEntry) (hs : List SstableHandle) (h : SstableHandle)
    → view_tables disk key older (hs ++ h ∷ [])
      ≡ or_else (row disk key h) (view_tables disk key older hs)
unfolding view_tables
view_tables-append disk key older [] h = refl
view_tables-append disk key older (g ∷ hs) h =
    view_tables-append disk key (or_else (row disk key g) older) hs h
