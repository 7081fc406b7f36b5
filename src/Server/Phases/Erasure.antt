-- ===== src/Server/Phases/Erasure.antt =====
-- What `PrepareRpc` leaves of a request.
use praft.Prelude.{
  ◌≡◌, refl, ◌∙◌, true, false, none, some, ok, panic, nil_dereference, lookup, insert,
  lookup-insert_self, if-false,
}
use praft.Util.Slices.{Slice, slice_equal}
use praft.Messages.{RequestArgs, PrepareArgs, PrepareConfirmMsg}
use praft.Crypto.{Primitives, sha256_digest, rsa_sign_with_sha256, rsa_verify_with_sha256}
use praft.Config.{Config, Node, get_node}
use praft.Cert.{LogCert, set, get}
use praft.Server.{Server, get_cert_or_new, cert_at, update_cert}
use praft.Server.Duplicate.{duplicate}
use praft.Server.Phases.{
  prepare, prepare_rpc, prepare_verified, erase_and_confirm, prepare_confirm, commit,
}

-- The certificate that `PrepareRpc` leaves: the request is gone.
abbrev pub erased_cert : Primitives → RequestArgs → PrepareArgs → LogCert → LogCert
erased_cert p req args cert = record cert {
  req = none;
  digest = sha256_digest p req.req;
  log_index = args.msg.log_index;
  duplicator = args.msg.primary_node_id;
}

abbrev pub erased : Primitives → RequestArgs → PrepareArgs → LogCert → Server → Server
erased p req args cert s = record s {
  seq2cert = insert args.msg.seq (erased_cert p req args cert) s.seq2cert;
}

abbrev pub prepare_confirm_msg :
    Primitives → RequestArgs → PrepareArgs → LogCert → Server → PrepareConfirmMsg
prepare_confirm_msg p req args cert s = record {
  seq = cert.seq;
  digest = sha256_digest p req.req;
  node_id = s.node.id;
  primary_node_id = args.msg.primary_node_id;
  log_index = args.msg.log_index;
}

module _ (p : Primitives) (k : Config) (args : PrepareArgs) (s : Server) (req : RequestArgs)
    (node : Node) (cert : LogCert) (sign : Slice) where
  -- A message with a request, from a known node, whose signature and digest hold, for a certificate
  -- that has not committed: the server confirms it with a signed message, and erases the request
  -- that it had under this number. In the state that this leaves, before any other step, duplicating,
  -- preparing or committing the request panics.
  pub prepare_rpc_erases_request :
      lookup args.msg.node_id k.id2node ≡ some node
      → rsa_verify_with_sha256 p (sha256_digest p args.msg) args.sign node.pub_key ≡ true
      → args.req_args ≡ some req
      → slice_equal (sha256_digest p req.req) args.msg.digest ≡ true
      → lookup args.msg.seq s.seq2cert ≡ some cert
      → cert.committed ≡ false
      → rsa_sign_with_sha256 p
          (sha256_digest p (prepare_confirm_msg p req args cert s))
          s.node.pri_key
        ≡ ok sign
      → (prepare_rpc p k args s
          ≡ ok (
            erased p req args cert s,
            record { msg = some (prepare_confirm_msg p req args cert s); sign = sign },
          ))
        × (duplicate p k args.msg.seq (erased p req args cert s) ≡ panic nil_dereference)
        × (prepare p k args.msg.seq (erased p req args cert s) ≡ panic nil_dereference)
        × (commit p k args.msg.seq (erased p req args cert s) ≡ panic nil_dereference)
  unfolding prepare_rpc prepare_verified erase_and_confirm prepare_confirm get_node update_cert
      get_cert_or_new cert_at set get duplicate prepare commit
  prepare_rpc_erases_request known verified has_req matches e waits signed =
      let at = lookup-insert_self args.msg.seq (erased_cert p req args cert) s.seq2cert in
      (
        rw (known, verified, has_req, matches, e, e, at)
            (if-false _ _ cert.committed waits ∙ rw signed refl),
        rw at refl,
        rw at refl,
        rw at refl,
      )
