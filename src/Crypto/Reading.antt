-- ===== src/Crypto/Reading.antt =====
-- The two functions of zpbft/crypto.go that read key files.
use praft.Prelude.{ℕ, List, [], ◌∷◌, ◌++◌, some, Result, ok, ◌>>=◌, or_panic, logged_error}
use praft.Util.Slices.{Slice}
use praft.Files.{FilePath, Files}

-- "certs", the directory that `KCertsDir` names
abbrev pub certs : List ℕ
certs = b'c' ∷ b'e' ∷ b'r' ∷ b't' ∷ b's' ∷ []

-- "pri.pem" and "pub.pem"
abbrev pub pri_pem : List ℕ
pri_pem = b'p' ∷ b'r' ∷ b'i' ∷ b'.' ∷ b'p' ∷ b'e' ∷ b'm' ∷ []

abbrev pub pub_pem : List ℕ
pub_pem = b'p' ∷ b'u' ∷ b'b' ∷ b'.' ∷ b'p' ∷ b'e' ∷ b'm' ∷ []

-- "rsa." before a name
abbrev pub rsa_file : List ℕ → List ℕ
rsa_file name = b'r' ∷ (b's' ∷ (b'a' ∷ (b'.' ∷ name)))

module _ {Disk : Type 0} (files : Files Disk) where
  -- `ReadKeyPair`
  unfoldable pub read_key_pair : FilePath → Disk → Result (Slice × Slice)
  read_key_pair key_dir disk = do
    pri_key ← or_panic (files.read_file (key_dir ++ rsa_file pri_pem ∷ []) disk) logged_error
    pub_key ← or_panic (files.read_file (key_dir ++ rsa_file pub_pem ∷ []) disk) logged_error
    ok (some pri_key, some pub_key)

  -- `ReadKeyPairDefault`
  unfoldable pub read_key_pair_default : Disk → Result (Slice × Slice)
  read_key_pair_default disk = do
    pri_key ← or_panic (files.read_file (certs ∷ pri_pem ∷ []) disk) logged_error
    pub_key ← or_panic (files.read_file (certs ∷ pub_pem ∷ []) disk) logged_error
    ok (some pri_key, some pub_key)
