-- ===== src/Gencerts/ReadBack.antt =====
-- The keys that `GenRsaKeys` writes, as the servers' functions read them.
use praft.Prelude.{
  ℕ, ◌≡◌, ◌≢◌, refl, sym, ap, ◌∙◌, inl, inr, true, false, List, [], ◌∷◌, none, some, ok, panic,
  >>=-eq-ok, ok-inj, or_panic-ok, or_panic, logged_error, out_of_range, some-inj, get_elem?, arith,
  elem, Distinct, Bool-cases, if◌then◌else◌,
}
use praft.Util.{Text}
use praft.Config.Setup.{first_of}
use praft.Files.{FilePath, Files, IsLawful, Stat, found, already_exists, not_there, other_error}
use praft.Crypto.{Primitives}
use praft.Crypto.Keys.{IsKeyPair}
use praft.Crypto.Reading.{certs, pri_pem, pub_pem, rsa_file, read_key_pair, read_key_pair_default}
use praft.Gencerts.{KeyMaker, get_key_pair, key_dir, is_exist, gen_process, gen_rsa_keys}
use praft.Gencerts.Written.{
  IsElsewhere, file_in, gen_process_elsewhere, Stores, HasNone, gen_process-Stores,
}
use praft.Gencerts.Kept.{
  IsFitting, get_key_pair-IsKeyPair, processes, HaveIds, gen_all, gen_all-gen_ips,
}

not_elem : (ids : List ℕ) (id j : ℕ) → elem id ids ≡ false → elem j ids ≡ true → id ≢ j
not_elem ids id j out within e = ground (arith, out, within, e)

absent :
    (answer : Stat)
    → answer ≢ other_error
    → (elim answer [
      | found ↦ true
      | already_exists ↦ true
      | not_there ↦ false
      | other_error ↦ false
    ])
      ≡ false
    → answer ≡ not_there
absent found plain h = cc
absent already_exists plain h = cc
absent not_there plain h = refl
absent other_error plain h = absurd (plain refl)

length_differs : {A : Type 0} {a : A} → none ≢ some a
length_differs e = cc

module _ {Disk : Type 0} (files : Files Disk) (laws : IsLawful files) (text : Text)
    (itoa_inj : (m n : ℕ) → text.itoa m ≡ text.itoa n → m ≡ n) (maker : KeyMaker)
    (draws : List ℕ → ℕ → List ℕ) where
  other_node :
      (id id' : ℕ) (name : List ℕ)
      → id ≢ id'
      → IsElsewhere files laws text maker draws id' (file_in files laws text maker draws id name)
  other_node id id' name differ other e =
      differ (itoa_inj id id' (some-inj (ap (λ path. get_elem? path 1) e)))

  gen_all_elsewhere :
      (xs : List (List ℕ × ℕ)) (ids : List ℕ) (disk disk' : Disk) (other : FilePath)
      → HaveIds text xs ids
      → gen_all files laws text itoa_inj maker draws xs disk ≡ ok disk'
      → ((id : ℕ) → elem id ids ≡ true → IsElsewhere files laws text maker draws id other)
      → files.read_file other disk' ≡ files.read_file other disk
  unfolding gen_all
  gen_all_elsewhere [] [] disk disk' other have run away =
      ap (files.read_file other) (sym (ok-inj run))
  gen_all_elsewhere [] (id ∷ ids) disk disk' other have run away = absurd have
  gen_all_elsewhere (x ∷ xs) [] disk disk' other have run away = absurd have
  gen_all_elsewhere (x ∷ xs) (id ∷ ids) disk disk' other (its_id, have) run away =
      let (disk1, one, run1) = >>=-eq-ok (gen_process files text maker draws x.0 x.1 disk) _ run in
      gen_all_elsewhere xs ids disk1 disk' other have run1 (λ j h. away j (ground (arith, h)))
      ∙ gen_process_elsewhere files laws text maker draws x.0 x.1 id disk disk1 other its_id one
          (away id (ground arith))

  -- Every process finds the pair of keys that was made for it, and the keys fit.
  abbrev pub AllFind : Primitives → List (List ℕ × ℕ) → List ℕ → Disk → Type 0
  AllFind p [] [] disk = Unit {0}
  AllFind p [] (id ∷ ids) disk = ⊥
  AllFind p (x ∷ xs) [] disk = ⊥
  AllFind p (x ∷ xs) (id ∷ ids) disk =
      ((keys : List ℕ × List ℕ) × (get_key_pair maker (draws x.0 x.1) ≡ ok keys)
        × (read_key_pair files (key_dir files text maker draws id) disk
            ≡ ok (some keys.0, some keys.1))
        × IsKeyPair p (some keys.0) (some keys.1))
      × AllFind p xs ids disk

  read_key_pair-Stores :
      (id : ℕ) (keys : List ℕ × List ℕ) (disk : Disk)
      → Stores files laws text maker draws id keys disk
      → read_key_pair files (key_dir files text maker draws id) disk ≡ ok (some keys.0, some keys.1)
  unfolding read_key_pair
  read_key_pair-Stores id keys disk stores = rw (stores.pri, stores.public) refl

  gen_all-AllFind :
      (p : Primitives) (xs : List (List ℕ × ℕ)) (ids : List ℕ) (disk disk' : Disk)
      → IsFitting p maker
      → HaveIds text xs ids
      → Distinct ids
      → ((id : ℕ) → elem id ids ≡ true → HasNone files laws text maker draws id disk)
      → gen_all files laws text itoa_inj maker draws xs disk ≡ ok disk'
      → AllFind p xs ids disk'
  unfolding gen_all
  gen_all-AllFind p [] [] disk disk' fits have d empty run = tt
  gen_all-AllFind p [] (id ∷ ids) disk disk' fits have d empty run = absurd have
  gen_all-AllFind p (x ∷ xs) [] disk disk' fits have d empty run = absurd have
  gen_all-AllFind p (x ∷ xs) (id ∷ ids) disk disk' fits (its_id, have) d empty run =
      let (disk1, one, run1) = >>=-eq-ok (gen_process files text maker draws x.0 x.1 disk) _ run in
      let (keys, its_keys, stores) =
        gen_process-Stores files laws text maker draws x.0 x.1 id disk disk1 its_id one
          (empty id (ground arith)) in
      let kept = λ (name : List ℕ).
        gen_all_elsewhere xs ids disk1 disk' (file_in files laws text maker draws id name) have run1
          (λ j h. other_node id j name (not_elem ids id j d.0 h)) in
      let same = λ (j : ℕ) (h : elem j ids ≡ true) (name : List ℕ).
        gen_process_elsewhere files laws text maker draws x.0 x.1 id disk disk1
          (file_in files laws text maker draws j name) its_id one
          (other_node j id name (λ e. not_elem ids id j d.0 h (sym e))) in
      (
        (
          keys,
          its_keys,
          read_key_pair-Stores id keys disk' (record {
            pri = kept (rsa_file pri_pem) ∙ stores.pri;
            public = kept (rsa_file pub_pem) ∙ stores.public;
          }),
          get_key_pair-IsKeyPair p maker (draws x.0 x.1) keys fits its_keys,
        ),
        gen_all-AllFind p xs ids disk1 disk' fits have d.1
            (λ j h.
              let none_yet = empty j (ground (arith, h)) in
              record {
                no_pri = same j h (rsa_file pri_pem) ∙ none_yet.no_pri;
                no_public = same j h (rsa_file pub_pem) ∙ none_yet.no_public;
              })
            run1,
      )

  -- Where `os.Stat` gives a plain answer, nothing is left below "certs" when the keys are made.
  cleared_lem :
      (name : FilePath) (disk : Disk)
      → files.stat (certs ∷ []) disk ≢ other_error
      → files.read_file (certs ∷ name) (
          if is_exist files text maker draws (certs ∷ []) disk
          then files.remove_all (certs ∷ []) disk
          else disk)
        ≡ none
  cleared_lem name disk plain =
      elim (Bool-cases (is_exist files text maker draws (certs ∷ []) disk)) [
        | inl there ↦ rw there (laws.read-remove_all certs name disk)
        | inr new ↦ rw new (
            laws.read-not_there certs name disk
              (absent (files.stat (certs ∷ []) disk) plain (unfold is_exist in new)))
      ]

  module _ (ips first : List (List ℕ)) (ip_num process_num : ℕ) (ids : List ℕ) (disk disk' : Disk)
      (plain : files.stat (certs ∷ []) disk ≢ other_error)
      (front : first_of ip_num ips ≡ some first)
      (have : HaveIds text (processes first process_num) ids)
      (run : gen_rsa_keys files text maker draws ips ip_num process_num (certs ∷ []) disk
        ≡ ok disk') where
    -- The disk when the loops start.
    loops_start :
        (made : Disk) × (gen_all files laws text itoa_inj maker draws
            (processes first process_num)
            made
          ≡ ok disk')
        × ((name : FilePath) → files.read_file (certs ∷ name) made ≡ none)
    unfolding gen_rsa_keys
    loops_start =
        let cleared =
          if is_exist files text maker draws (certs ∷ []) disk
          then files.remove_all (certs ∷ []) disk
          else disk in
        let (made, makes, run1) =
          >>=-eq-ok (or_panic (files.mkdir (certs ∷ []) cleared) logged_error) _ run in
        let (ips', its_front, run2) =
          >>=-eq-ok (or_panic (first_of ip_num ips) out_of_range) _ run1 in
        let same : ips' ≡ first = some-inj (sym (or_panic-ok _ _ its_front) ∙ front) in
        (
          made,
          gen_all-gen_ips files laws text itoa_inj maker draws first process_num made disk'
              (rw⁻¹ same run2),
          λ name.
              laws.read-mkdir (certs ∷ []) (certs ∷ name) cleared made (or_panic-ok _ _ makes)
              ∙ cleared_lem name disk plain,
        )

    -- Let the files behave as documented, different numbers be printed differently, `os.Stat` give a
    -- plain answer for "certs", and the parsing and RSA fit the making of keys. Let the tool make keys
    -- in "certs" for so many of the addresses as there are, for processes with different identities,
    -- and let it not fail. Then `ReadKeyPair` of every process's directory gives the pair that was made
    -- for it, and the two keys fit: whatever digest the one signs verifies with the other.
    pub gen_rsa_keys-AllFind :
        (p : Primitives)
        → IsFitting p maker
        → Distinct ids
        → AllFind p (processes first process_num) ids disk'
    gen_rsa_keys-AllFind p fits d =
        let (made, runs, empty) = loops_start in
        gen_all-AllFind p (processes first process_num) ids made disk' fits have d
          (λ id h. record { no_pri = empty _; no_public = empty _ }) runs

    -- Let the files behave as documented, different numbers be printed differently, `os.Stat` give a
    -- plain answer for "certs", and the tool make keys in "certs" for processes that have identities,
    -- equal or not, without failing. Then the function with which `InitConfig` reads the keys panics:
    -- the tool has removed the files that `ReadKeyPairDefault` reads, and does not write them.
    pub default_keys_lost : read_key_pair_default files disk' ≡ panic logged_error
    unfolding read_key_pair_default
    default_keys_lost =
        let (made, runs, empty) = loops_start in
        let gone : files.read_file (certs ∷ pri_pem ∷ []) disk' ≡ none =
          gen_all_elsewhere (processes first process_num) ids made disk' (certs ∷ pri_pem ∷ []) have
            runs (λ id h name e. length_differs (ap (λ path. get_elem? path 2) e))
          ∙ empty (pri_pem ∷ []) in
        rw gone refl
