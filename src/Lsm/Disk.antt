-- ===== src/Lsm/Disk.antt =====
-- The files of the state machine: SSTable rows, the `.meta` sidecars, WAL lines, and the reads and
-- writes of whole files. The name of an SSTable's file is its id (`format!("{id:06}.sst")`).
use oxide_kv.Common.{ℕ, Bool, Option, none, some, List, [], ◌∷◌, ◌++◌, ◌==◌, if◌then◌else◌}
use oxide_kv.Text.{Str}

pub data WalOp : Type 0 where
  put : Str → Str → WalOp
  delete : Str → WalOp

pub record SstEntry : Type 0 where
  pub key : Str
  pub value : Option Str
  pub tombstone : Bool

pub record SstableMeta : Type 0 where
  pub id : ℕ
  pub first_key : Str
  pub last_key : Str
  pub entry_count : ℕ

pub record SstableHandle : Type 0 where
  pub path : ℕ
  pub meta : SstableMeta

-- A data file with its sidecar.
pub record SstFile : Type 0 where
  pub entries : List SstEntry
  pub sidecar : SstableMeta

pub record DataDir : Type 0 where
  pub wal : List WalOp
  pub files : List (ℕ × SstFile)

pub data IoError : Type 0 where
  not_found : IoError

-- `io::Result`
pub data Result {ℓ} (A : Type ℓ) : Type ℓ where
  ok : A → Result A
  err : IoError → Result A

infixl 5 ◌>>=◌
abbrev pub ◌>>=◌ {ℓ κ} : {A : Type ℓ} {B : Type κ} → Result A → (A → Result B) → Result B
ok a >>= f = f a
err e >>= f = err e

unfoldable pub find_file : ℕ → List (ℕ × SstFile) → Option SstFile
find_file path [] = none
find_file path ((p, f) ∷ files) = if p == path then some f else find_file path files

unfoldable pub load_sst_entries : ℕ → DataDir → Result (List SstEntry)
unfolding find_file
load_sst_entries path disk = elim (find_file path disk.files) [
  | none ↦ err not_found
  | some f ↦ ok f.entries
]

unfoldable pub load_sst_meta : ℕ → DataDir → Result SstableMeta
unfolding find_file
load_sst_meta path disk = elim (find_file path disk.files) [
  | none ↦ err not_found
  | some f ↦ ok f.sidecar
]

unfoldable pub remove_file : ℕ → List (ℕ × SstFile) → List (ℕ × SstFile)
remove_file path [] = []
remove_file path ((p, f) ∷ files) =
    let rest = remove_file path files in if p == path then rest else (p, f) ∷ rest

-- The two `write_json` calls; a file of that name is replaced.
unfoldable pub write_sst : ℕ → List SstEntry → SstableMeta → DataDir → DataDir
unfolding remove_file
write_sst path entries meta disk = record disk {
  files = remove_file path disk.files ++ (path, record { entries = entries; sidecar = meta }) ∷ [];
}

-- The two `fs::remove_file` calls for every handle.
unfoldable pub remove_ssts : List SstableHandle → DataDir → DataDir
unfolding remove_file
remove_ssts [] disk = disk
remove_ssts (h ∷ hs) disk = remove_ssts hs (record disk { files = remove_file h.path disk.files })
