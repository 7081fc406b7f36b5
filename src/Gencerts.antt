-- ===== src/Gencerts.antt =====
-- gencerts/gencerts.go: the tool that makes a pair of keys for every process. RSA, x509 and PEM are
-- the fields of `KeyMaker`, files those of `Files`; what `rand.Reader` gives for a process is an
-- argument. The tool's copy of `GetId` is the `GetId` of zpbft/util.go. A failed `Write`, whose error
-- the tool does not look at, is not modelled.
pub mod Written
pub mod Kept
pub mod ReadBack
use praft.Prelude.{
  ℕ, zero, suc, ◌+◌, Bool, true, false, List, [], ◌∷◌, ◌++◌, Option, none, some, Result, ok, panic,
  ◌>>=◌, or_panic, logged_error, out_of_range, raised, pos, length, if◌then◌else◌,
}
use praft.Util.{Text, get_id}
use praft.Config.Setup.{first_of}
use praft.Files.{FilePath, Files, Stat, found, already_exists, not_there, other_error}
use praft.Crypto.Reading.{certs, pri_pem, pub_pem, rsa_file}

-- The calls of crypto/rsa, crypto/x509 and encoding/pem; `none` is an error.
pub record KeyMaker : Type 0 where
  pub generate_key : List ℕ → Option (List ℕ)
  pub marshal_pkcs1_private_key : List ℕ → List ℕ
  pub public_key : List ℕ → List ℕ
  pub marshal_pkix_public_key : List ℕ → Option (List ℕ)
  pub encode_to_memory : List ℕ → List ℕ → List ℕ

-- "RSA PRIVATE KEY" and "PUBLIC KEY"
abbrev pub public_type : List ℕ
public_type = b'P' ∷ b'U' ∷ b'B' ∷ b'L' ∷ b'I' ∷ b'C' ∷ b' ' ∷ b'K' ∷ b'E' ∷ b'Y' ∷ []

abbrev pub private_type : List ℕ
private_type =
    b'R' ∷ b'S' ∷ b'A' ∷ b' ' ∷ b'P' ∷ b'R' ∷ b'I' ∷ b'V' ∷ b'A' ∷ b'T' ∷ b'E' ∷ b' ' ∷ b'K' ∷ b'E'
    ∷ b'Y' ∷ []

-- ".addr.txt"
abbrev pub addr_suffix : List ℕ
addr_suffix = b'.' ∷ b'a' ∷ b'd' ∷ b'd' ∷ b'r' ∷ b'.' ∷ b't' ∷ b'x' ∷ b't' ∷ []

-- `GetKeyPair`: the private and the public file.
unfoldable pub get_key_pair : KeyMaker → List ℕ → Result (List ℕ × List ℕ)
get_key_pair maker drawn = do
  key ← or_panic (maker.generate_key drawn) raised
  let pri = maker.encode_to_memory private_type (maker.marshal_pkcs1_private_key key)
  der_pkix ← or_panic (maker.marshal_pkix_public_key (maker.public_key key)) raised
  ok (pri, maker.encode_to_memory public_type der_pkix)

module _ {Disk : Type 0} (files : Files Disk) (text : Text) (maker : KeyMaker)
    (draws : List ℕ → ℕ → List ℕ) where
  -- `IsExist`
  unfoldable pub is_exist : FilePath → Disk → Bool
  is_exist path disk = elim (files.stat path disk) [
    | found ↦ true
    | already_exists ↦ true
    | not_there ↦ false
    | other_error ↦ false
  ]

  -- `keyDir`
  abbrev pub key_dir : ℕ → FilePath
  key_dir id = certs ∷ text.itoa id ∷ []

  -- Lines 50 to 56: the directory of a process.
  unfoldable pub make_dir : FilePath → Disk → Result Disk
  unfolding is_exist
  make_dir dir disk =
      if is_exist dir disk then ok disk else or_panic (files.mkdir dir disk) logged_error

  -- One round of the inner loop.
  unfoldable pub gen_process : List ℕ → ℕ → Disk → Result Disk
  unfolding make_dir get_key_pair
  gen_process ip i disk = do
    id ← get_id text ip (pos i)
    disk ← make_dir (key_dir id) disk
    keys ← get_key_pair maker (draws ip i)
    disk ←
        or_panic (files.write_file (key_dir id ++ rsa_file pri_pem ∷ []) keys.0 disk) logged_error
    disk ←
        or_panic (files.write_file (key_dir id ++ rsa_file pub_pem ∷ []) keys.1 disk) logged_error
    let port = text.itoa (8000 + i)
    let addr = ip ++ b'.' ∷ port
    or_panic (files.write_file (key_dir id ++ (addr ++ addr_suffix) ∷ []) (ip ++ b':' ∷ port) disk)
        logged_error

  -- The inner loop, from `i` on.
  unfoldable pub gen_processes : List ℕ → ℕ → ℕ → Disk → Result Disk
  unfolding gen_process
  gen_processes ip i zero disk = ok disk
  gen_processes ip i (suc more) disk = gen_process ip i disk >>= gen_processes ip (suc i) more

  unfoldable pub gen_ips : List (List ℕ) → ℕ → Disk → Result Disk
  unfolding gen_processes
  gen_ips [] process_num disk = ok disk
  gen_ips (ip ∷ ips) process_num disk =
      gen_processes ip 1 process_num disk >>= gen_ips ips process_num

  -- `GenRsaKeys`: whatever directory it is given, the keys go to "certs".
  unfoldable pub gen_rsa_keys : List (List ℕ) → ℕ → ℕ → FilePath → Disk → Result Disk
  unfolding is_exist gen_ips
  gen_rsa_keys ips ip_num process_num out_path disk = do
    let cleared = if is_exist out_path disk then files.remove_all out_path disk else disk
    made ← or_panic (files.mkdir out_path cleared) logged_error
    first ← or_panic (first_of ip_num ips) out_of_range
    gen_ips first process_num made

  -- `ReadIps`
  unfoldable pub read_ips : FilePath → Disk → Result (List (List ℕ))
  read_ips path disk = do
    bytes ← or_panic (files.read_file path disk) logged_error
    ok (text.split bytes (10 ∷ []))

  -- `main`: the flags are never parsed, so each has its default.
  unfoldable pub generate : FilePath → Disk → Result Disk
  unfolding read_ips gen_rsa_keys
  generate ips_cfg disk = do
    ips ← read_ips ips_cfg disk
    gen_rsa_keys ips (length ips) 1 (certs ∷ []) disk
