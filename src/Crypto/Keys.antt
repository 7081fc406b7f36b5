-- ===== src/Crypto/Keys.antt =====
-- A pair of keys (zpbft/crypto.go): `RsaSignWithSha256` and `RsaVerifyWithSha256` together.
use praft.Prelude.{ℕ, ◌≡◌, refl, true, List, some, ok}
use praft.Util.Slices.{Slice, bytes_of}
use praft.Crypto.{Primitives, rsa_sign_with_sha256, rsa_verify_with_sha256}

-- The files of a private and a public key that belong together: both parse, and a hash that the one
-- signs verifies with the other.
pub record IsKeyPair (p : Primitives) (pri_pem pub_pem : Slice) : Type 0 where
  pub pri_block : List ℕ
  pub pub_block : List ℕ
  pub pri_key : List ℕ
  pub pub_key : List ℕ
  pub pri_decodes : p.pem_decode (bytes_of pri_pem) ≡ some pri_block
  pub pri_parses : p.parse_pkcs1_private_key pri_block ≡ some pri_key
  pub pub_decodes : p.pem_decode (bytes_of pub_pem) ≡ some pub_block
  pub pub_parses : p.parse_pkix_public_key pub_block ≡ some pub_key
  pub fits :
      (hashed : List ℕ)
      → (sign : List ℕ) × (p.sign_pkcs1v15 pri_key hashed ≡ some sign)
        × (p.verify_pkcs1v15 pub_key hashed sign ≡ true)

-- With such keys any digest can be signed, and what is signed verifies.
pub sign_verify :
    (p : Primitives) (pri_pem pub_pem digest : Slice)
    → IsKeyPair p pri_pem pub_pem
    → (sign : Slice) × (rsa_sign_with_sha256 p digest pri_pem ≡ ok sign)
      × (rsa_verify_with_sha256 p digest sign pub_pem ≡ true)
unfolding rsa_sign_with_sha256 rsa_verify_with_sha256
sign_verify p pri_pem pub_pem digest pair =
    let (sign, signs, verifies) = pair.fits (p.sha256 (bytes_of digest)) in
    (
      some sign,
      rw (pair.pri_decodes, pair.pri_parses, signs) refl,
      rw (pair.pub_decodes, pair.pub_parses) verifies,
    )
