-- ===== src/Gencerts/Kept.antt =====
-- `GenRsaKeys` as a whole, and what the servers then read.
use praft.Prelude.{
  ℕ, zero, suc, ◌≡◌, ap, ◌∙◌, subst, true, List, [], ◌∷◌, ◌++◌, some, Result, ok, ◌>>=◌, >>=-eq-ok,
  ok-inj, or_panic-ok, or_panic, raised, pos,
}
use praft.Util.{Text, get_id}
use praft.Files.{Files, IsLawful}
use praft.Crypto.{Primitives}
use praft.Crypto.Keys.{IsKeyPair}
use praft.Gencerts.{KeyMaker, get_key_pair, gen_process, gen_processes, gen_ips}

-- Keys that are made are parsed back, and sign what they verify.
pub record IsFitting (p : Primitives) (maker : KeyMaker) : Type 0 where
  pub decoded :
      (type bytes : List ℕ) → p.pem_decode (maker.encode_to_memory type bytes) ≡ some bytes
  pub private_parsed :
      (key : List ℕ) → p.parse_pkcs1_private_key (maker.marshal_pkcs1_private_key key) ≡ some key
  pub public_parsed :
      (key der : List ℕ)
      → maker.marshal_pkix_public_key (maker.public_key key) ≡ some der
      → p.parse_pkix_public_key der ≡ some (maker.public_key key)
  pub signs :
      (drawn key hashed : List ℕ)
      → maker.generate_key drawn ≡ some key
      → (sign : List ℕ) × (p.sign_pkcs1v15 key hashed ≡ some sign)
        × (p.verify_pkcs1v15 (maker.public_key key) hashed sign ≡ true)

pub get_key_pair-IsKeyPair :
    (p : Primitives) (maker : KeyMaker) (drawn : List ℕ) (keys : List ℕ × List ℕ)
    → IsFitting p maker
    → get_key_pair maker drawn ≡ ok keys
    → IsKeyPair p (some keys.0) (some keys.1)
unfolding get_key_pair
get_key_pair-IsKeyPair p maker drawn keys fits run =
    let (key, generated, run1) = >>=-eq-ok (or_panic (maker.generate_key drawn) raised) _ run in
    let (der, marshalled, run2) =
      >>=-eq-ok (or_panic (maker.marshal_pkix_public_key (maker.public_key key)) raised) _ run1 in
    subst (λ (keys : List ℕ × List ℕ). IsKeyPair p (some keys.0) (some keys.1)) (ok-inj run2)
      (record {
        pri_block = maker.marshal_pkcs1_private_key key;
        pub_block = der;
        pri_key = key;
        pub_key = maker.public_key key;
        pri_decodes = fits.decoded _ _;
        pri_parses = fits.private_parsed key;
        pub_decodes = fits.decoded _ _;
        pub_parses = fits.public_parsed key der (or_panic-ok _ _ marshalled);
        fits = λ hashed. fits.signs drawn key hashed (or_panic-ok _ _ generated);
      })

-- The processes for which the loops make keys, in order.
abbrev pub of_ip : List ℕ → ℕ → ℕ → List (List ℕ × ℕ)
of_ip ip i zero = []
of_ip ip i (suc more) = (ip, i) ∷ of_ip ip (suc i) more

abbrev pub processes : List (List ℕ) → ℕ → List (List ℕ × ℕ)
processes [] process_num = []
processes (ip ∷ ips) process_num = of_ip ip 1 process_num ++ processes ips process_num

-- Their identities.
abbrev pub HaveIds : Text → List (List ℕ × ℕ) → List ℕ → Type 0
HaveIds text [] [] = Unit {0}
HaveIds text [] (id ∷ ids) = ⊥
HaveIds text (x ∷ xs) [] = ⊥
HaveIds text (x ∷ xs) (id ∷ ids) = (get_id text x.0 (pos x.1) ≡ ok id) × HaveIds text xs ids

module _ {Disk : Type 0} (files : Files Disk) (laws : IsLawful files) (text : Text)
    (itoa_inj : (m n : ℕ) → text.itoa m ≡ text.itoa n → m ≡ n) (maker : KeyMaker)
    (draws : List ℕ → ℕ → List ℕ) where
  unfoldable pub gen_all : List (List ℕ × ℕ) → Disk → Result Disk
  gen_all [] disk = ok disk
  gen_all (x ∷ xs) disk = gen_process files text maker draws x.0 x.1 disk >>= gen_all xs

  gen_all-of_ip :
      (ip : List ℕ) (i more : ℕ) (rest : List (List ℕ × ℕ)) (disk disk1 disk' : Disk)
      → gen_processes files text maker draws ip i more disk ≡ ok disk1
      → gen_all rest disk1 ≡ ok disk'
      → gen_all (of_ip ip i more ++ rest) disk ≡ ok disk'
  unfolding gen_all gen_processes
  gen_all-of_ip ip i zero rest disk disk1 disk' run later = ap (gen_all rest) (ok-inj run) ∙ later
  gen_all-of_ip ip i (suc more) rest disk disk1 disk' run later =
      let (next, one, run1) = >>=-eq-ok (gen_process files text maker draws ip i disk) _ run in
      ap (◌>>= gen_all (of_ip ip (suc i) more ++ rest)) one
      ∙ gen_all-of_ip ip (suc i) more rest next disk1 disk' run1 later

  pub gen_all-gen_ips :
      (ips : List (List ℕ)) (process_num : ℕ) (disk disk' : Disk)
      → gen_ips files text maker draws ips process_num disk ≡ ok disk'
      → gen_all (processes ips process_num) disk ≡ ok disk'
  unfolding gen_all gen_ips
  gen_all-gen_ips [] process_num disk disk' run = run
  gen_all-gen_ips (ip ∷ ips) process_num disk disk' run =
      let (disk1, one, run1) =
        >>=-eq-ok (gen_processes files text maker draws ip 1 process_num disk) _ run in
      gen_all-of_ip ip 1 process_num (processes ips process_num) disk disk1 disk' one
        (gen_all-gen_ips ips process_num disk1 disk' run1)
