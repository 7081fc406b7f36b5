-- ===== src/Tests/Texts.antt =====
-- The bytes of numbers and the identities of nodes, on concrete texts.
use praft.Prelude.{
  ℕ, ◌+◌, ◌-◌, ◌*◌, ◌%◌, ◌≡◌, ◌↔◌, refl, List, [], ◌∷◌, Option, none, some, ok, if◌then◌else◌, ltb,
  ◌==◌, arith, ℤ, pos,
}
use praft.Util.{Text, i2_bytes, bytes2_i, get_id, addr2_id}
use praft.Util.Bytes.{bytes2_i-i2_bytes}
use praft.Util.Identities.{IsAddress, get_id_iff}

-- Puts a byte in front of the first of the parts.
abbrev onto_first : ℕ → List (List ℕ) → List (List ℕ)
onto_first b [] = (b ∷ []) ∷ []
onto_first b (part ∷ parts) = (b ∷ part) ∷ parts

abbrev split_at : ℕ → List ℕ → List (List ℕ)
split_at sep [] = [] ∷ []
split_at sep (b ∷ bytes) =
    let rest = split_at sep bytes in if b == sep then [] ∷ rest else onto_first b rest

abbrev digits : List ℕ → ℕ → Option ℤ
digits [] so_far = some (pos so_far)
digits (b ∷ bytes) so_far =
    let rest = digits bytes (so_far * 10 + (b - 48)) in
    if ltb b 48 then none else (if ltb 57 b then none else rest)

abbrev on_first : List ℕ → List ℕ → List (List ℕ)
on_first text [] = text ∷ []
on_first text (sep ∷ more) = split_at sep text

-- Splits at the first byte of the separator, and reads decimal numbers without a sign.
abbrev pub plain_text : Text
plain_text = record { split = on_first; atoi = λ text. digits text 0; itoa = λ n. (48 + n) ∷ [] }

-- "10.0.1.2" and "10.9.1.2"
abbrev pub first_ip : List ℕ
first_ip = 49 ∷ 48 ∷ 46 ∷ 48 ∷ 46 ∷ 49 ∷ 46 ∷ 50 ∷ []

abbrev pub second_ip : List ℕ
second_ip = 49 ∷ 48 ∷ 46 ∷ 57 ∷ 46 ∷ 49 ∷ 46 ∷ 50 ∷ []

pub first_ip-IsAddress : IsAddress plain_text first_ip 1 2
first_ip-IsAddress = record {
  first = 49 ∷ 48 ∷ [];
  second = 48 ∷ [];
  third = 49 ∷ [];
  fourth = 50 ∷ [];
  parts = refl;
  third_num = refl;
  fourth_num = refl;
  third_small = omega arith;
  fourth_small = omega arith;
}

second_ip-IsAddress : IsAddress plain_text second_ip 1 2
second_ip-IsAddress = record {
  first = 49 ∷ 48 ∷ [];
  second = 57 ∷ [];
  third = 49 ∷ [];
  fourth = 50 ∷ [];
  parts = refl;
  third_num = refl;
  fourth_num = refl;
  third_small = omega arith;
  fourth_small = omega arith;
}

addr2_id_test :
    addr2_id plain_text (49 ∷ 46 ∷ 50 ∷ 46 ∷ 51 ∷ 46 ∷ 52 ∷ 58 ∷ 49 ∷ 48 ∷ 49 ∷ []) ≡ ok 300401
unfolding addr2_id
addr2_id_test = refl

-- The processes at the ports 10001 and 10101 of these two addresses share an identity.
get_id_iff_example :
    (get_id plain_text first_ip (pos 10001) ≡ get_id plain_text second_ip (pos 10101))
    ↔ ((◌≡◌ {A = ℕ} 1 1) × (◌≡◌ {A = ℕ} 2 2) × (10001 % 100 ≡ 10101 % 100))
get_id_iff_example =
    get_id_iff plain_text first_ip second_ip 1 2 1 2 10001 10101 first_ip-IsAddress
      second_ip-IsAddress

seventy_thousand : bytes2_i (i2_bytes (pos 70000) 8) 8 ≡ ok (pos 70000)
seventy_thousand = bytes2_i-i2_bytes 70000 8 (omega arith) (omega arith)
