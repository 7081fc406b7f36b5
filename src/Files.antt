-- ===== src/Files.antt =====
-- The calls of `os` and `ioutil` with which the program keeps its keys, and what they are taken to do.
-- A path is the list of its components. A disk is whatever these calls read and write.
use praft.Prelude.{ℕ, ◌≡◌, ◌≢◌, List, [], ◌∷◌, Option, none, some}

abbrev pub FilePath : Type 0
FilePath = List (List ℕ)

-- What `os.Stat` answers. `os.IsExist` and `os.IsNotExist` sort its errors.
pub data Stat : Type 0 where
  found already_exists not_there other_error : Stat

-- `write_file` is `os.OpenFile` with `O_RDWR|O_CREATE`, and a `Write` of all the bytes; `none` is an
-- error of `OpenFile`.
pub record Files (Disk : Type 0) : Type 0 where
  pub stat : FilePath → Disk → Stat
  pub remove_all : FilePath → Disk → Disk
  pub mkdir : FilePath → Disk → Option Disk
  pub write_file : FilePath → List ℕ → Disk → Option Disk
  pub read_file : FilePath → Disk → Option (List ℕ)

-- The documented behaviour that the keys rest on: a new file holds what is written, other files are
-- not touched, and nothing is left below a directory that is removed or not there.
pub record IsLawful {Disk : Type 0} (files : Files Disk) : Type 0 where
  pub read-write_file :
      (path : FilePath) (bytes : List ℕ) (disk disk' : Disk)
      → files.read_file path disk ≡ none
      → files.write_file path bytes disk ≡ some disk'
      → files.read_file path disk' ≡ some bytes
  pub read-write_other :
      (path other : FilePath) (bytes : List ℕ) (disk disk' : Disk)
      → other ≢ path
      → files.write_file path bytes disk ≡ some disk'
      → files.read_file other disk' ≡ files.read_file other disk
  pub read-mkdir :
      (path other : FilePath) (disk disk' : Disk)
      → files.mkdir path disk ≡ some disk'
      → files.read_file other disk' ≡ files.read_file other disk
  pub read-remove_all :
      (dir : List ℕ) (below : FilePath) (disk : Disk)
      → files.read_file (dir ∷ below) (files.remove_all (dir ∷ []) disk) ≡ none
  pub read-not_there :
      (dir : List ℕ) (below : FilePath) (disk : Disk)
      → files.stat (dir ∷ []) disk ≡ not_there
      → files.read_file (dir ∷ below) disk ≡ none
