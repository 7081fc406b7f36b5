-- ===== src/Tests/Forged.antt =====
-- A vote made of the signature of another message.
use praft.Prelude.{◌≡◌, refl, [], ◌∷◌, none, some, ok, lookup}
use praft.Util.Slices.{Slice, slice_equal, same_bytes}
use praft.Messages.{DuplicateConfirmMsg}
use praft.Crypto.{sha256_digest, rsa_sign_with_sha256}
use praft.Cert.{LogCert}
use praft.Server.Duplicate.{count_confirm}
use praft.Server.Duplicate.Forged.{voted, confirmed_with, any_signature_counts}
use praft.Tests.Fixtures.{toy, four_nodes, node_at, request_with, cert_with, block_of}
use praft.Tests.Handshake.{toy-IsKeyPair}

abbrev wanted : LogCert
wanted = record (cert_with 7 (request_with [])) { digest = sha256_digest toy (request_with []).req }

abbrev invented : DuplicateConfirmMsg
invented = record {
  seq = 7;
  digest = sha256_digest toy (request_with []).req;
  node_id = 12;
  duplicator_node_id = 11;
  log_index = 0;
}

-- Node 12 has signed a block.
any_signature_counts_example :
    (count_confirm toy four_nodes (confirmed_with invented none) wanted ≡ ok wanted)
    × (made : Slice) × (rsa_sign_with_sha256 toy
          (sha256_digest toy (block_of 1 0 []))
          (some (1 ∷ []))
        ≡ ok made)
    × (count_confirm toy four_nodes (confirmed_with invented made) wanted
        ≡ ok (voted 12 (confirmed_with invented made) wanted))
unfolding lookup slice_equal same_bytes sha256_digest
any_signature_counts_example =
    any_signature_counts toy four_nodes (block_of 1 0 []) none invented (node_at 12) wanted
      (toy-IsKeyPair (1 ∷ []) (1 ∷ [])) refl refl refl
