-- ===== src/Lsm/View/Files.antt =====
-- What a read of a file returns after files were written or removed.
use oxide_kv.Common.{
  ℕ, ◌<◌, ◌≡◌, ◌≢◌, refl, ◌∙◌, none, some, Option, List, [], ◌∷◌, ◌++◌, arith, ◌==◌, All,
  if◌then◌else◌,
}
use oxide_kv.Text.{Str}
use oxide_kv.Lsm.Disk.{
  SstEntry, SstableMeta, SstableHandle, SstFile, DataDir, find_file, remove_file, write_sst,
  remove_ssts,
}
use oxide_kv.Lsm.View.{row, IsTable, or_else, view_tables}

find_file-remove :
    (p q : ℕ) (files : List (ℕ × SstFile))
    → find_file p (remove_file q files) ≡ (if q == p then none else find_file p files)
unfolding find_file remove_file
find_file-remove p q [] = ground arith
find_file-remove p q ((r, f) ∷ files) = ground (arith, find_file-remove p q files)

find_file-append :
    (p q : ℕ) (f : SstFile) (files : List (ℕ × SstFile))
    → find_file p (files ++ (q, f) ∷ [])
      ≡ elim (find_file p files) [ some g ↦ some g | none ↦ if q == p then some f else none ]
unfolding find_file
find_file-append p q f [] = refl
find_file-append p q f ((r, g) ∷ files) = ground (arith, find_file-append p q f files)

-- A written table reads back, and the other files are as they were.
pub find_file-write_sst :
    (p q : ℕ) (entries : List SstEntry) (meta : SstableMeta) (disk : DataDir)
    → find_file p (write_sst q entries meta disk).files ≡ (
        if q == p
        then some (record { entries = entries; sidecar = meta })
        else find_file p disk.files)
unfolding write_sst
find_file-write_sst p q entries meta disk = ground (
  arith,
  find_file-append p q (record { entries = entries; sidecar = meta }) (remove_file q disk.files),
  find_file-remove p q disk.files,
)

-- Removing the files of handles leaves a file of another name.
pub find_file-remove_ssts :
    (p : ℕ) (hs : List SstableHandle) (disk : DataDir)
    → All (λ h. h.path ≢ p) hs
    → find_file p (remove_ssts hs disk).files ≡ find_file p disk.files
unfolding remove_ssts
find_file-remove_ssts p [] disk a = refl
find_file-remove_ssts p (h ∷ hs) disk a = ground (
  arith,
  find_file-remove_ssts p hs (record disk { files = remove_file h.path disk.files }) a.1,
  find_file-remove p h.path disk.files,
  a.0,
)

pub wal-remove_ssts :
    (hs : List SstableHandle) (disk : DataDir) → (remove_ssts hs disk).wal ≡ disk.wal
unfolding remove_ssts
wal-remove_ssts [] disk = refl
wal-remove_ssts (h ∷ hs) disk =
    wal-remove_ssts hs (record disk { files = remove_file h.path disk.files })

-- Two directories that agree on the files below `n`.
module _ (d e : DataDir) (n : ℕ)
    (agree : (p : ℕ) → p < n → find_file p e.files ≡ find_file p d.files) where
  pub row_agree : (key : Str) (h : SstableHandle) → h.path < n → row e key h ≡ row d key h
  unfolding row
  row_agree key h lt = ground (arith, agree h.path lt)

  pub IsTable_agree :
      (hs : List SstableHandle) → All (λ h. h.path < n) hs → All (IsTable d) hs → All (IsTable e) hs
  IsTable_agree [] f t = tt
  IsTable_agree (h ∷ hs) f t = (
    record {
      rows = t.0.rows;
      stored = agree h.path f.0 ∙ t.0.stored;
      meta = t.0.meta;
      sorted = t.0.sorted;
    },
    IsTable_agree hs f.1 t.1,
  )

  pub view_tables_agree :
      (key : Str) (older : Option Str) (hs : List SstableHandle)
      → All (λ h. h.path < n) hs
      → view_tables e key older hs ≡ view_tables d key older hs
  unfolding view_tables
  view_tables_agree key older [] f = refl
  view_tables_agree key older (h ∷ hs) f =
      rw (row_agree key h f.0) (view_tables_agree key (or_else (row d key h) older) hs f.1)
