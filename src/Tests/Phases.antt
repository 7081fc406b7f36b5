-- ===== src/Tests/Phases.antt =====
-- Tests of the two phases, and the theorems about them at concrete inputs.
use praft.Prelude.{◌≡◌, refl, some, panic, nil_dereference, [], ◌∷◌, lookup}
use praft.Util.Slices.{slice_equal}
use praft.Messages.{PrepareMsg, PrepareArgs}
use praft.Crypto.{sha256_digest, rsa_sign_with_sha256, rsa_verify_with_sha256}
use praft.Cert.{LogCert, prepare_stage}
use praft.Server.{Server}
use praft.Server.Phases.{commit}
use praft.Server.Phases.Erasure.{prepare_rpc_erases_request, erased}
use praft.Tests.Fixtures.{toy, four_nodes, fresh_server, node_at, request_with, cert_with}

abbrev pub prepare_msg : PrepareMsg
prepare_msg = record {
  seq = 7;
  digest = sha256_digest toy (request_with []).req;
  node_id = 12;
  primary_node_id = 12;
  tx_num = 5;
  log_index = 0;
}

abbrev pub prepare_args : PrepareArgs
prepare_args = record {
  msg = prepare_msg;
  sign = sha256_digest toy prepare_msg;
  req_args = some (request_with []);
}

abbrev held : LogCert
held = record (cert_with 7 (request_with [])) { stage = prepare_stage }

abbrev holding_server : Server
holding_server = record fresh_server { seq2cert = (7, held) ∷ [] }

prepare_rpc_erases_request_example :
    commit toy four_nodes 7 (erased toy (request_with []) prepare_args held holding_server)
    ≡ panic nil_dereference
unfolding rsa_sign_with_sha256 sha256_digest rsa_verify_with_sha256 lookup slice_equal
prepare_rpc_erases_request_example =
    (prepare_rpc_erases_request toy four_nodes prepare_args holding_server (request_with [])
      (node_at 12) held (sha256_digest toy prepare_msg) refl refl refl refl refl refl refl).3
