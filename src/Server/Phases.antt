-- ===== src/Server/Phases.antt =====
-- The two phases of zpbft/server.go for a single request: `Prepare`, `PrepareRpc`, `Commit`,
-- `CommitRpc`, and the goroutines that take their replies.
pub mod Erasure
pub mod Counting
use praft.Prelude.{
  ℕ, suc, Bool, true, false, List, Option, none, some, Result, ok, ◌>>=◌, or_panic, nil_dereference,
  Map, insert, if◌then◌else◌,
}
use praft.Util.Slices.{Slice, slice_equal}
use praft.Messages.{
  RequestArgs, PrepareMsg, PrepareArgs, PrepareConfirmMsg, PrepareConfirmArgs, CommitMsg,
  CommitArgs, CommitConfirmMsg, CommitConfirmArgs,
}
use praft.Crypto.{Primitives, sha256_digest, rsa_sign_with_sha256, rsa_verify_with_sha256}
use praft.Config.{Config, get_node}
use praft.Cert.{
  Stage, initial_stage, duplicated_stage, prepare_stage, commit_stage, reply_stage, LogCert, set,
  get, set_stage, push_prepare_confirm, push_commit_confirm,
}
use praft.Server.{Server, get_cert_or_new, update_cert}
use praft.Server.Duplicate.{collect_ballot}

abbrev pub is_prepare : Stage → Bool
is_prepare initial_stage = false
is_prepare duplicated_stage = false
is_prepare prepare_stage = true
is_prepare commit_stage = false
is_prepare reply_stage = false

abbrev pub no_prepare_confirm : PrepareConfirmArgs
no_prepare_confirm = record { msg = none; sign = none }

abbrev pub no_commit_confirm : CommitConfirmArgs
no_commit_confirm = record { msg = none; sign = none }

-- Lines 936 to 939.
unfoldable pub advance : ℕ → LogCert → Server → Server
unfolding set_stage
advance seq cert s =
    if is_prepare cert.stage
    then record s {
      seq2cert = insert seq (set_stage cert commit_stage) s.seq2cert;
      current_block_index = suc s.current_block_index;
    }
    else s

module _ (p : Primitives) (k : Config) where
  -- `Prepare`: the arguments that go to every peer.
  unfoldable pub prepare : ℕ → Server → Result (Server × PrepareArgs)
  unfolding get_cert_or_new get
  prepare seq s = do
    let (certs, cert) = get_cert_or_new seq s.seq2cert
    let found = get cert
    req ← or_panic found.req nil_dereference
    let msg : PrepareMsg = record {
      seq = seq;
      digest = found.digest;
      node_id = s.node.id;
      primary_node_id = found.duplicator;
      tx_num = req.tx_num;
      log_index = found.log_index;
    }
    sign ← rsa_sign_with_sha256 p (sha256_digest p msg) s.node.pri_key
    ok (record s { seq2cert = certs }, record { msg = msg; sign = sign; req_args = some req })

  -- The goroutine that takes a peer's reply, up to the call of `makeReq`.
  unfoldable pub prepare_reply : ℕ → ℕ → PrepareConfirmArgs → Server → Result (Server × Bool)
  unfolding get_cert_or_new push_prepare_confirm collect_ballot
  prepare_reply now seq args s =
      let (certs, cert) = get_cert_or_new seq s.seq2cert in
      let queued = push_prepare_confirm cert args in
      let s' : Server = record s { seq2cert = insert seq queued certs } in
      if is_prepare queued.stage then collect_ballot p k now seq queued s' else ok (s', false)

  -- Lines 855 to 871: the confirmation of what the certificate holds.
  unfoldable pub prepare_confirm : ℕ → Server → Result (Server × PrepareConfirmArgs)
  unfolding get_cert_or_new get
  prepare_confirm seq s = do
    let (certs, cert) = get_cert_or_new seq s.seq2cert
    let found = get cert
    let msg : PrepareConfirmMsg = record {
      seq = cert.seq;
      digest = found.digest;
      node_id = s.node.id;
      primary_node_id = found.duplicator;
      log_index = found.log_index;
    }
    sign ← rsa_sign_with_sha256 p (sha256_digest p msg) s.node.pri_key
    ok (record s { seq2cert = certs }, record { msg = some msg; sign = sign })

  -- The request that comes with the message is checked and then not stored: `set` is given nil.
  unfoldable pub erase_and_confirm :
      RequestArgs → PrepareArgs → Server → Result (Server × PrepareConfirmArgs)
  unfolding prepare_confirm get_cert_or_new update_cert set
  erase_and_confirm req args s =
      let (certs, cert) = get_cert_or_new args.msg.seq s.seq2cert in
      let stored =
        update_cert args.msg.seq
          (λ c. set c none (sha256_digest p req.req) args.msg.log_index args.msg.primary_node_id)
          certs in
      if cert.committed
      then ok (record s { seq2cert = certs }, no_prepare_confirm)
      else prepare_confirm args.msg.seq (record s { seq2cert = stored })

  -- Lines 834 to 871, with a signature that holds.
  unfoldable pub prepare_verified : PrepareArgs → Server → Result (Server × PrepareConfirmArgs)
  unfolding erase_and_confirm
  prepare_verified args s = or_panic args.req_args nil_dereference >>= λ req.
      (if slice_equal (sha256_digest p req.req) args.msg.digest
        then erase_and_confirm req args s
        else ok (s, no_prepare_confirm))

  -- `PrepareRpc`
  unfoldable pub prepare_rpc : PrepareArgs → Server → Result (Server × PrepareConfirmArgs)
  unfolding prepare_verified
  prepare_rpc args s = get_node k args.msg.node_id >>= λ node.
      (if rsa_verify_with_sha256 p (sha256_digest p args.msg) args.sign node.pub_key
        then prepare_verified args s
        else ok (s, no_prepare_confirm))

  -- `Commit`: the arguments that go to every peer.
  unfoldable pub commit : ℕ → Server → Result (Server × CommitArgs)
  unfolding get_cert_or_new get
  commit seq s = do
    let (certs, cert) = get_cert_or_new seq s.seq2cert
    let found = get cert
    req ← or_panic found.req nil_dereference
    let msg : CommitMsg = record {
      seq = seq;
      digest = found.digest;
      node_id = s.node.id;
      primary_node_id = found.duplicator;
      tx_num = req.tx_num;
      log_index = found.log_index;
    }
    sign ← rsa_sign_with_sha256 p (sha256_digest p msg) s.node.pri_key
    ok (record s { seq2cert = certs }, record { msg = msg; sign = sign })

  -- The goroutine that takes a peer's reply.
  unfoldable pub commit_reply : ℕ → CommitConfirmArgs → Server → Server
  unfolding update_cert push_commit_confirm
  commit_reply seq args s = record s {
    seq2cert = update_cert seq (λ cert. push_commit_confirm cert args) s.seq2cert;
  }

  -- Lines 922 to 939, with a signature that holds.
  unfoldable pub commit_verified : ℕ → LogCert → Server → Result (Server × CommitConfirmArgs)
  unfolding get_cert_or_new get advance
  commit_verified seq cert s = do
    let (certs, cert') = get_cert_or_new cert.seq s.seq2cert
    let found = get cert'
    let msg : CommitConfirmMsg = record {
      seq = cert.seq;
      digest = found.digest;
      node_id = s.node.id;
      primary_node_id = found.duplicator;
      log_index = found.log_index;
    }
    sign ← rsa_sign_with_sha256 p (sha256_digest p msg) s.node.pri_key
    ok (advance seq cert (record s { seq2cert = certs }), record { msg = some msg; sign = sign })

  -- `CommitRpc`, whose arguments are declared as those of `PrepareRpc`.
  unfoldable pub commit_rpc : PrepareArgs → Server → Result (Server × CommitConfirmArgs)
  unfolding get_cert_or_new commit_verified
  commit_rpc args s =
      let (certs, cert) = get_cert_or_new args.msg.seq s.seq2cert in
      let s' : Server = record s { seq2cert = certs } in
      get_node k args.msg.primary_node_id >>= λ node.
      (if rsa_verify_with_sha256 p (sha256_digest p args.msg) args.sign node.pub_key
        then commit_verified args.msg.seq cert s'
        else ok (s', no_commit_confirm))
