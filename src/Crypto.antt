-- ===== src/Crypto.antt =====
-- zpbft/crypto.go. SHA-256, PEM and RSA are not implemented by the program: they are the fields of
-- `Primitives`.
pub mod Keys
pub mod Reading
use praft.Prelude.{
  ℕ, Bool, false, List, Option, none, some, Result, ok, ◌>>=◌, or_panic, replicate, logged_error,
}
use praft.Util.Slices.{Slice, bytes_of}

-- The functions that crypto.go calls in crypto/sha256, encoding/pem, crypto/x509 and crypto/rsa. A
-- parsed key is an opaque list of numbers; `none` is an error.
pub record Primitives : Type 0 where
  pub sha256 : List ℕ → List ℕ
  pub pem_decode : List ℕ → Option (List ℕ)
  pub parse_pkcs1_private_key : List ℕ → Option (List ℕ)
  pub parse_pkix_public_key : List ℕ → Option (List ℕ)
  pub sign_pkcs1v15 : List ℕ → List ℕ → Option (List ℕ)
  pub verify_pkcs1v15 : List ℕ → List ℕ → List ℕ → Bool

-- `JsonMarshal`: whatever the message, 100 zero bytes.
unfoldable pub json_marshal {ℓ} : {A : Type ℓ} → A → List ℕ
json_marshal msg = replicate 100 0

module _ (p : Primitives) where
  unfoldable pub sha256_digest {ℓ} : {A : Type ℓ} → A → Slice
  unfolding json_marshal
  sha256_digest msg = some (p.sha256 (json_marshal msg))

  unfoldable pub rsa_sign_with_sha256 : Slice → Slice → Result Slice
  rsa_sign_with_sha256 data_bytes key_bytes = do
    let hashed = p.sha256 (bytes_of data_bytes)
    block ← or_panic (p.pem_decode (bytes_of key_bytes)) logged_error
    private_key ← or_panic (p.parse_pkcs1_private_key block) logged_error
    signature ← or_panic (p.sign_pkcs1v15 private_key hashed) logged_error
    ok (some signature)

  verify_key : Option (List ℕ) → List ℕ → List ℕ → Bool
  verify_key none hashed sign = false
  verify_key (some pub_key) hashed sign = p.verify_pkcs1v15 pub_key hashed sign

  verify_block : Option (List ℕ) → List ℕ → List ℕ → Bool
  unfolding verify_key
  verify_block none hashed sign = false
  verify_block (some block) hashed sign = verify_key (p.parse_pkix_public_key block) hashed sign

  unfoldable pub rsa_verify_with_sha256 : Slice → Slice → Slice → Bool
  unfolding verify_block
  rsa_verify_with_sha256 data_bytes sign key_bytes =
      verify_block (p.pem_decode (bytes_of key_bytes)) (p.sha256 (bytes_of data_bytes))
        (bytes_of sign)
