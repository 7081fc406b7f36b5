-- ===== src/Gencerts/Written.antt =====
-- What one round of `GenRsaKeys` writes, and what it leaves alone.
use praft.Prelude.{
  ℕ, ◌+◌, ◌≡◌, ◌≢◌, refl, sym, ap, ◌∙◌, subst, inl, inr, List, [], ◌∷◌, ◌++◌, none, some, ok,
  >>=-eq-ok, ok-inj, or_panic-ok, some-inj, get_elem?, or_panic, logged_error, pos, arith,
  Bool-cases, if-true, if-false,
}
use praft.Util.{Text, get_id}
use praft.Files.{FilePath, Files, IsLawful}
use praft.Crypto.Reading.{pri_pem, pub_pem, rsa_file}
use praft.Gencerts.{KeyMaker, get_key_pair, key_dir, is_exist, make_dir, gen_process, addr_suffix}

-- The last byte of a name.
last_of : List ℕ → ℕ
last_of [] = 0
last_of (b ∷ []) = b
last_of (b ∷ (c ∷ bytes)) = last_of (c ∷ bytes)

last_of-append :
    (front : List ℕ) (b : ℕ) (back : List ℕ) → last_of (front ++ b ∷ back) ≡ last_of (b ∷ back)
unfolding last_of
last_of-append [] b back = refl
last_of-append (x ∷ []) b back = refl
last_of-append (x ∷ (y ∷ front)) b back = last_of-append (y ∷ front) b back

-- An address's file is none of the key files.
addr_file_differs :
    (addr : List ℕ)
    → (addr ++ addr_suffix ≢ rsa_file pri_pem) × (addr ++ addr_suffix ≢ rsa_file pub_pem)
unfolding last_of
addr_file_differs addr =
    let txt =
      last_of-append addr b'.' (b'a' ∷ b'd' ∷ b'd' ∷ b'r' ∷ b'.' ∷ b't' ∷ b'x' ∷ b't' ∷ []) in
    (λ e. omega (arith, txt, ap last_of e), λ e. omega (arith, txt, ap last_of e))

key_files_differ : rsa_file pub_pem ≢ rsa_file pri_pem
key_files_differ e =
    let sixth : ◌≡◌ {A = ℕ} b'u' b'r' = some-inj (ap (λ bytes. get_elem? bytes 5) e) in
    omega (arith, sixth)

module _ {Disk : Type 0} (files : Files Disk) (laws : IsLawful files) (text : Text)
    (maker : KeyMaker) (draws : List ℕ → ℕ → List ℕ) where
  -- The path is of no file in the directory of the node.
  abbrev pub IsElsewhere : ℕ → FilePath → Type 0
  IsElsewhere id other = (name : List ℕ) → other ≢ key_dir files text maker draws id ++ name ∷ []

  read-make_dir :
      (dir other : FilePath) (disk disk' : Disk)
      → make_dir files text maker draws dir disk ≡ ok disk'
      → files.read_file other disk' ≡ files.read_file other disk
  unfolding make_dir
  read-make_dir dir other disk disk' run =
      elim (Bool-cases (is_exist files text maker draws dir disk)) [
        | inl there ↦ ap (files.read_file other) (sym (ok-inj (sym (if-true _ _ _ there) ∙ run)))
        | inr new ↦
            laws.read-mkdir dir other disk disk'
              (or_panic-ok (files.mkdir dir disk) logged_error (sym (if-false _ _ _ new) ∙ run))
      ]

  abbrev pub file_in : ℕ → List ℕ → FilePath
  file_in id name = key_dir files text maker draws id ++ name ∷ []

  -- The steps of a round that has not panicked.
  record Round (ip : List ℕ) (i id : ℕ) (disk disk' : Disk) : Type 0 where
    keys : List ℕ × List ℕ
    address : List ℕ
    bytes : List ℕ
    disk1 : Disk
    disk2 : Disk
    disk3 : Disk
    made : make_dir files text maker draws (key_dir files text maker draws id) disk ≡ ok disk1
    its_keys : get_key_pair maker (draws ip i) ≡ ok keys
    wrote_pri : files.write_file (file_in id (rsa_file pri_pem)) keys.0 disk1 ≡ some disk2
    wrote_pub : files.write_file (file_in id (rsa_file pub_pem)) keys.1 disk2 ≡ some disk3
    wrote_addr : files.write_file (file_in id (address ++ addr_suffix)) bytes disk3 ≡ some disk'

  gen_process-Round :
      (ip : List ℕ) (i id : ℕ) (disk disk' : Disk)
      → get_id text ip (pos i) ≡ ok id
      → gen_process files text maker draws ip i disk ≡ ok disk'
      → Round ip i id disk disk'
  unfolding gen_process
  gen_process-Round ip i id disk disk' its_id run0 =
      let (id', got, run) = >>=-eq-ok (get_id text ip (pos i)) _ run0 in
      let dir = key_dir files text maker draws id' in
      let (disk1, made, run1) = >>=-eq-ok (make_dir files text maker draws dir disk) _ run in
      let (keys, its_keys, run2) = >>=-eq-ok (get_key_pair maker (draws ip i)) _ run1 in
      let (disk2, pri, run3) =
        >>=-eq-ok
          (or_panic (files.write_file (dir ++ rsa_file pri_pem ∷ []) keys.0 disk1) logged_error) _
          run2 in
      let (disk3, public, run4) =
        >>=-eq-ok
          (or_panic (files.write_file (dir ++ rsa_file pub_pem ∷ []) keys.1 disk2) logged_error) _
          run3 in
      subst (λ j. Round ip i j disk disk') (ok-inj (sym got ∙ its_id))
        (record {
          keys = keys;
          address = ip ++ b'.' ∷ text.itoa (8000 + i);
          bytes = ip ++ b':' ∷ text.itoa (8000 + i);
          disk1 = disk1;
          disk2 = disk2;
          disk3 = disk3;
          made = made;
          its_keys = its_keys;
          wrote_pri = or_panic-ok _ _ pri;
          wrote_pub = or_panic-ok _ _ public;
          wrote_addr = or_panic-ok _ _ run4;
        })

  -- A round writes nothing outside the node's directory.
  pub gen_process_elsewhere :
      (ip : List ℕ) (i id : ℕ) (disk disk' : Disk) (other : FilePath)
      → get_id text ip (pos i) ≡ ok id
      → gen_process files text maker draws ip i disk ≡ ok disk'
      → IsElsewhere id other
      → files.read_file other disk' ≡ files.read_file other disk
  gen_process_elsewhere ip i id disk disk' other its_id run away =
      let r = gen_process-Round ip i id disk disk' its_id run in
      laws.read-write_other _ other r.bytes r.disk3 disk' (away _) r.wrote_addr
      ∙ laws.read-write_other _ other r.keys.1 r.disk2 r.disk3 (away _) r.wrote_pub
      ∙ laws.read-write_other _ other r.keys.0 r.disk1 r.disk2 (away _) r.wrote_pri
      ∙ read-make_dir (key_dir files text maker draws id) other disk r.disk1 r.made

  -- The files of a node are those of this pair of keys.
  pub record Stores (id : ℕ) (keys : List ℕ × List ℕ) (disk : Disk) : Type 0 where
    pub pri : files.read_file (file_in id (rsa_file pri_pem)) disk ≡ some keys.0
    pub public : files.read_file (file_in id (rsa_file pub_pem)) disk ≡ some keys.1

  -- No key file of the node is there.
  pub record HasNone (id : ℕ) (disk : Disk) : Type 0 where
    pub no_pri : files.read_file (file_in id (rsa_file pri_pem)) disk ≡ none
    pub no_public : files.read_file (file_in id (rsa_file pub_pem)) disk ≡ none

  other_name : (id : ℕ) (a b : List ℕ) → a ≢ b → file_in id a ≢ file_in id b
  other_name id a b differ e = differ (cc)

  -- A round on a node without key files makes a pair and writes it.
  pub gen_process-Stores :
      (ip : List ℕ) (i id : ℕ) (disk disk' : Disk)
      → get_id text ip (pos i) ≡ ok id
      → gen_process files text maker draws ip i disk ≡ ok disk'
      → HasNone id disk
      → (keys : List ℕ × List ℕ) × (get_key_pair maker (draws ip i) ≡ ok keys)
        × Stores id keys disk'
  gen_process-Stores ip i id disk disk' its_id run empty =
      let r = gen_process-Round ip i id disk disk' its_id run in
      let dir = key_dir files text maker draws id in
      let differs = addr_file_differs r.address in
      (
        r.keys,
        r.its_keys,
        record {
          pri =
              laws.read-write_other _ _ r.bytes r.disk3 disk'
                (other_name id _ _ (λ e. differs.0 (sym e))) r.wrote_addr
              ∙ laws.read-write_other _ _ r.keys.1 r.disk2 r.disk3
                  (other_name id _ _ (λ e. key_files_differ (sym e))) r.wrote_pub
              ∙ laws.read-write_file _ r.keys.0 r.disk1 r.disk2
                  (read-make_dir dir _ disk r.disk1 r.made ∙ empty.no_pri) r.wrote_pri;
          public =
              laws.read-write_other _ _ r.bytes r.disk3 disk'
                (other_name id _ _ (λ e. differs.1 (sym e))) r.wrote_addr
              ∙ laws.read-write_file _ r.keys.1 r.disk2 r.disk3
                  (laws.read-write_other _ _ r.keys.0 r.disk1 r.disk2
                      (other_name id _ _ key_files_differ) r.wrote_pri
                    ∙ read-make_dir dir _ disk r.disk1 r.made
                    ∙ empty.no_public)
                  r.wrote_pub;
        },
      )
