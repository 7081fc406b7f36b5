-- ===== src/Server/Duplicate.antt =====
-- Duplicating a request to the peers (zpbft/server.go): `duplicate`, `DuplicateRpc`, the goroutine
-- that takes a peer's confirmation, and `verifyBallot`. `duplicateMu` makes the ballot one step.
pub mod Ballot
pub mod Forged
pub mod Report
pub mod Tally
pub mod Count
pub mod Once
pub mod Peer
pub mod Handshake
use praft.Prelude.{
  ℕ, zero, suc, ◌+◌, ◌-◌, Bool, true, false, List, [], ◌∷◌, ◌++◌, Option, none, some, Result, ok,
  panic, ◌>>=◌, or_panic, nil_dereference, leb, Map, lookup, insert, if◌then◌else◌,
}
use praft.Util.Slices.{Slice, slice_equal}
use praft.Messages.{
  RequestArgs, DuplicatedReqUnit, DuplicateMsg, DuplicateArgs, DuplicateConfirmMsg,
  DuplicateConfirmArgs,
}
use praft.Crypto.{Primitives, sha256_digest, rsa_sign_with_sha256, rsa_verify_with_sha256}
use praft.Config.{Config, get_node}
use praft.Cert.{
  Stage, initial_stage, duplicated_stage, prepare_stage, commit_stage, reply_stage, LogCert, set,
  get, push_duplicate_confirm, pop_all_duplicate_confirms, set_stage, duplicate_confirm_voted,
  duplicate_confirm_vote, duplicate_confirm_ballot,
}
use praft.Server.{Server, get_cert_or_new, update_cert}
use praft.Server.Requests.{make_req}

abbrev pub is_initial : Stage → Bool
is_initial initial_stage = true
is_initial duplicated_stage = false
is_initial prepare_stage = false
is_initial commit_stage = false
is_initial reply_stage = false

abbrev pub no_confirm : DuplicateConfirmArgs
no_confirm = record { msg = none; sign = none }

abbrev pub unit_of_request : LogCert → RequestArgs → Slice → Server → DuplicatedReqUnit
unit_of_request cert req sign s = record {
  seq = cert.seq;
  duplicating_node_id = s.node.id;
  tx_num = req.tx_num;
  digest = cert.digest;
  sign = sign;
}

module _ (p : Primitives) (k : Config) where
  -- `duplicate`: the arguments that go to every peer. `req.TxNum` follows a pointer.
  unfoldable pub duplicate : ℕ → Server → Result (Server × DuplicateArgs)
  unfolding get_cert_or_new get
  duplicate seq s = do
    let (certs, cert) = get_cert_or_new seq s.seq2cert
    let found = get cert
    req ← or_panic found.req nil_dereference
    let msg : DuplicateMsg = record {
      seq = seq;
      digest = found.digest;
      node_id = s.node.id;
      duplicator_node_id = found.duplicator;
      tx_num = req.tx_num;
      log_index = 0;
    }
    sign ← rsa_sign_with_sha256 p (sha256_digest p msg) s.node.pri_key
    ok (record s { seq2cert = certs }, record { msg = msg; sign = sign; req_args = req })

  -- Lines 411 to 424: the confirmation of a request that has been stored.
  unfoldable pub confirm : ℕ → Server → Result (Server × DuplicateConfirmArgs)
  unfolding get_cert_or_new get
  confirm seq s = do
    let (certs, cert) = get_cert_or_new seq s.seq2cert
    let found = get cert
    let msg : DuplicateConfirmMsg = record {
      seq = cert.seq;
      digest = found.digest;
      node_id = s.node.id;
      duplicator_node_id = found.duplicator;
      log_index = found.log_index;
    }
    sign ← rsa_sign_with_sha256 p (sha256_digest p msg) s.node.pri_key
    ok (record s { seq2cert = certs }, record { msg = some msg; sign = sign })

  -- Lines 404 to 424: a request whose message and digest have been checked.
  unfoldable pub store_and_confirm : DuplicateArgs → Server → Result (Server × DuplicateConfirmArgs)
  unfolding confirm get_cert_or_new update_cert set
  store_and_confirm args s =
      let (certs, cert) = get_cert_or_new args.msg.seq s.seq2cert in
      let digest = sha256_digest p args.req_args.req in
      let stored =
        update_cert args.msg.seq
          (λ c. set c (some args.req_args) digest args.msg.log_index args.msg.duplicator_node_id)
          certs in
      if cert.committed
      then ok (record s { seq2cert = certs }, no_confirm)
      else confirm args.msg.seq (record s { seq2cert = stored })

  -- `DuplicateRpc`
  unfoldable pub duplicate_rpc : DuplicateArgs → Server → Result (Server × DuplicateConfirmArgs)
  unfolding store_and_confirm
  duplicate_rpc args s = do
    node ← get_node k args.msg.node_id
    let verified = rsa_verify_with_sha256 p (sha256_digest p args.msg) args.sign node.pub_key
    let matches = slice_equal (sha256_digest p args.req_args.req) args.msg.digest
    if verified
        then (if matches then store_and_confirm args s else ok (s, no_confirm))
        else ok (s, no_confirm)

  -- A confirmation of a node that has not voted: lines 960 to 973.
  unfoldable pub count_new : DuplicateConfirmArgs → DuplicateConfirmMsg → LogCert → Result LogCert
  unfolding duplicate_confirm_vote
  count_new args msg cert =
      if slice_equal cert.digest msg.digest
      then (get_node k msg.node_id >>= λ node.
          (if rsa_verify_with_sha256 p (sha256_digest p msg) args.sign node.pub_key
            then duplicate_confirm_vote cert args
            else ok cert))
      else ok cert

  unfoldable pub count_confirm : DuplicateConfirmArgs → LogCert → Result LogCert
  unfolding count_new duplicate_confirm_voted
  count_confirm args cert = or_panic args.msg nil_dereference >>= λ msg.
      (if duplicate_confirm_voted cert msg.node_id then ok cert else count_new args msg cert)

  -- The loop over the confirmations that wait.
  unfoldable pub count_confirms : List DuplicateConfirmArgs → LogCert → Result LogCert
  unfolding count_confirm
  count_confirms [] cert = ok cert
  count_confirms (args ∷ rest) cert = count_confirm args cert >>= count_confirms rest

  -- Lines 976 to 999: with enough votes the request is reported, and a new one is to be made.
  unfoldable pub report_duplicated : ℕ → ℕ → RequestArgs → LogCert → Server → Result (Server × Bool)
  unfolding set_stage duplicate_confirm_ballot
  report_duplicated now seq req cert s =
      if leb k.fault_num (duplicate_confirm_ballot cert)
      then (rsa_sign_with_sha256 p cert.digest s.node.pri_key >>= λ sign. ok (
        record s {
          seq2cert =
              insert seq (record (set_stage cert duplicated_stage) { complete_time = now })
                s.seq2cert;
          local_duplicated_reqs = s.local_duplicated_reqs ++ unit_of_request cert req sign s ∷ [];
          dup_time = s.dup_time ++ (now - cert.produce_time) ∷ [];
        },
        true,
      ))
      else ok (record s { seq2cert = insert seq cert s.seq2cert }, false)

  unfoldable pub collect_req :
      Option RequestArgs → ℕ → ℕ → LogCert → Server → Result (Server × Bool)
  unfolding pop_all_duplicate_confirms count_confirms report_duplicated
  collect_req none now seq cert s = ok (record s { seq2cert = insert seq cert s.seq2cert }, false)
  collect_req (some req) now seq cert s =
      let (popped, args_q) = pop_all_duplicate_confirms cert in
      count_confirms args_q popped >>= λ counted. report_duplicated now seq req counted s

  -- `verifyBallot` up to its call of `makeReq`; the flag says that the call follows.
  unfoldable pub collect_ballot : ℕ → ℕ → LogCert → Server → Result (Server × Bool)
  unfolding get collect_req
  collect_ballot now seq cert s = collect_req (get cert).req now seq cert s

  -- The rest of the goroutine once the confirmation is queued: the certificate is counted while it
  -- is in its first stage.
  unfoldable pub take_confirm : ℕ → ℕ → LogCert → Server → Result (Server × Bool)
  unfolding collect_ballot
  take_confirm now seq queued s =
      if is_initial queued.stage
      then collect_ballot now seq queued s
      else ok (record s { seq2cert = insert seq queued s.seq2cert }, false)

  -- The goroutine of `duplicate` after the call of `Server.DuplicateRpc` has returned, up to the call
  -- of `makeReq`, which polls the pool and is therefore a step of its own.
  unfoldable pub collect_reply : ℕ → ℕ → DuplicateConfirmArgs → Server → Result (Server × Bool)
  unfolding take_confirm get_cert_or_new push_duplicate_confirm
  collect_reply now seq args s =
      let (certs, cert) = get_cert_or_new seq s.seq2cert in
      take_confirm now seq (push_duplicate_confirm cert args) (record s { seq2cert = certs })

  -- The whole goroutine, where the pool does not keep it waiting.
  unfoldable pub duplicate_reply : ℕ → List ℕ → ℕ → DuplicateConfirmArgs → Server → Result Server
  unfolding collect_reply
  duplicate_reply now tx_set seq args s =
      collect_reply now seq args s >>= λ r. (if r.1 then make_req p k now tx_set r.0 else ok r.0)
