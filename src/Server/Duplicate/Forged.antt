-- ===== src/Server/Duplicate/Forged.antt =====
-- What the digests of zpbft/crypto.go make of a signature: whose votes `verifyBallot` counts.
use praft.Prelude.{
  ℕ, ◌≡◌, refl, ◌∙◌, true, inl, inr, Bool-cases, none, some, ok, lookup, insert, replicate,
  if◌then◌else◌, ==_refl,
}
use praft.Util.Slices.{Slice, bytes_of, slice_equal}
use praft.Messages.{DuplicateConfirmMsg, DuplicateConfirmArgs}
use praft.Crypto.{Primitives, sha256_digest, rsa_sign_with_sha256, rsa_verify_with_sha256}
use praft.Crypto.Keys.{IsKeyPair, sign_verify}
use praft.Config.{Config, Node}
use praft.Cert.{LogCert}
use praft.Server.Duplicate.{count_confirm}
use praft.Server.Duplicate.Ballot.{next_votes, count_confirm_lem}

-- The certificate once the confirmation is counted as a vote of this node.
abbrev pub voted : ℕ → DuplicateConfirmArgs → LogCert → LogCert
voted n args cert = record cert { duplicate_confirms = insert n args cert.duplicate_confirms }

abbrev pub confirmed_with : DuplicateConfirmMsg → Slice → DuplicateConfirmArgs
confirmed_with msg sign = record { msg = some msg; sign = sign }

module _ {ℓ} {A : Type ℓ} (p : Primitives) (k : Config) (a : A) (sign : Slice)
    (msg : DuplicateConfirmMsg) (node : Node) (cert : LogCert)
    (pair : IsKeyPair p node.pri_key node.pub_key) where
  -- Take a confirmation that names a node which has not voted and the digest of the certificate, and
  -- let the node's keys belong together. It counts as the node's vote exactly if its signature is one of
  -- the SHA-256 of the SHA-256 of 100 zero bytes, whatever else the message says. And what the node
  -- signs for any other message, of any type, is such a signature: put on the confirmation, it makes a
  -- vote of it that the node never gave.
  pub any_signature_counts :
      lookup msg.node_id k.id2node ≡ some node
      → lookup msg.node_id cert.duplicate_confirms ≡ none
      → slice_equal cert.digest msg.digest ≡ true
      → (count_confirm p k (confirmed_with msg sign) cert
          ≡ ok (
              if p.verify_pkcs1v15 pair.pub_key
                (p.sha256 (p.sha256 (replicate 100 0)))
                (bytes_of sign)
              then voted msg.node_id (confirmed_with msg sign) cert
              else cert))
        × (made : Slice) × (rsa_sign_with_sha256 p (sha256_digest p a) node.pri_key ≡ ok made)
        × (count_confirm p k (confirmed_with msg made) cert
            ≡ ok (voted msg.node_id (confirmed_with msg made) cert))
  unfolding next_votes sha256_digest rsa_verify_with_sha256
  any_signature_counts known fresh same =
      let (made, signed, verified) =
        sign_verify p node.pri_key node.pub_key (sha256_digest p a) pair in
      let zeros = p.sha256 (p.sha256 (replicate 100 0)) in
      (
        count_confirm_lem p k (confirmed_with msg sign) cert msg node refl known
            ∙ rw (fresh, ==_refl msg.node_id, same, known, pair.pub_decodes, pair.pub_parses)
                (elim (Bool-cases (p.verify_pkcs1v15 pair.pub_key zeros (bytes_of sign))) [
                  | inl good ↦ rw good refl
                  | inr bad ↦ rw bad refl
                ]),
        made,
        signed,
        count_confirm_lem p k (confirmed_with msg made) cert msg node refl known
            ∙ rw (fresh, ==_refl msg.node_id, same, known, verified) refl,
      )
