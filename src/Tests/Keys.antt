-- ===== src/Tests/Keys.antt =====
-- Keys for two processes on one computer, over a disk that holds the servers' common keys.
use praft.Prelude.{
  ℕ, ◌≡◌, refl, ap, List, [], ◌∷◌, some, Result, ok, panic, logged_error, arith, some-inj,
  get_elem?,
}
use praft.Util.{get_id}
use praft.Util.Slices.{same_bytes, same_bytes_refl}
use praft.Crypto.Reading.{certs, pri_pem, pub_pem, read_key_pair_default}
use praft.Gencerts.{KeyMaker, get_key_pair, gen_rsa_keys}
use praft.Gencerts.Kept.{IsFitting, HaveIds, processes}
use praft.Gencerts.ReadBack.{AllFind, gen_rsa_keys-AllFind, default_keys_lost}
use praft.Tests.Disk.{Disk, memory, memory-IsLawful}
use praft.Tests.Fixtures.{toy}
use praft.Tests.Texts.{plain_text, first_ip}

abbrev plain_maker : KeyMaker
plain_maker = record {
  generate_key = λ drawn. some drawn;
  marshal_pkcs1_private_key = λ key. key;
  public_key = λ key. key;
  marshal_pkix_public_key = λ key. some key;
  encode_to_memory = λ type bytes. bytes;
}

plain_maker-IsFitting : IsFitting toy plain_maker
plain_maker-IsFitting = record {
  decoded = λ type bytes. refl;
  private_parsed = λ key. refl;
  public_parsed = λ key der e. cc;
  signs = λ drawn key hashed e. (hashed, refl, same_bytes_refl hashed);
}

abbrev drawn : List ℕ → ℕ → List ℕ
drawn ip i = i ∷ []

abbrev common_keys : Disk
common_keys = (certs ∷ pri_pem ∷ [], 1 ∷ []) ∷ (certs ∷ pub_pem ∷ [], 2 ∷ []) ∷ []

abbrev disk_of : Result Disk → Disk
disk_of (panic fault) = []
disk_of (ok disk) = disk

abbrev after : Disk
unfolding gen_rsa_keys
after =
    disk_of (
      gen_rsa_keys memory plain_text plain_maker drawn (first_ip ∷ []) 1 2 (certs ∷ []) common_keys)

one_digit-inj : (m n : ℕ) → plain_text.itoa m ≡ plain_text.itoa n → m ≡ n
one_digit-inj m n e = ground (arith, some-inj (ap (λ bytes. get_elem? bytes 0) e))

both_ids : HaveIds plain_text (processes (first_ip ∷ []) 2) (100_201 ∷ 100_202 ∷ [])
unfolding get_id
both_ids = (refl, (refl, tt))

ran :
    gen_rsa_keys memory plain_text plain_maker drawn (first_ip ∷ []) 1 2 (certs ∷ []) common_keys
    ≡ ok after
unfolding after gen_rsa_keys get_id get_key_pair same_bytes
ran = refl

default_keys_lost_example : read_key_pair_default memory after ≡ panic logged_error
unfolding same_bytes
default_keys_lost_example =
    default_keys_lost memory memory-IsLawful plain_text one_digit-inj plain_maker drawn
      (first_ip ∷ []) (first_ip ∷ []) 1 2 (100_201 ∷ 100_202 ∷ []) common_keys after (λ e. cc) refl
      both_ids ran

gen_rsa_keys-AllFind_example :
    AllFind memory memory-IsLawful plain_text one_digit-inj plain_maker drawn toy
      (processes (first_ip ∷ []) 2)
      (100_201 ∷ 100_202 ∷ [])
      after
unfolding same_bytes
gen_rsa_keys-AllFind_example =
    gen_rsa_keys-AllFind memory memory-IsLawful plain_text one_digit-inj plain_maker drawn
      (first_ip ∷ []) (first_ip ∷ []) 1 2 (100_201 ∷ 100_202 ∷ []) common_keys after (λ e. cc) refl
      both_ids ran toy plain_maker-IsFitting (refl, (refl, tt))
