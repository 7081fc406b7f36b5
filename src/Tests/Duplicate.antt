-- ===== src/Tests/Duplicate.antt =====
-- Tests of the duplication of requests, and the theorems about it at concrete inputs.
use praft.Prelude.{
  ◌++◌, ◌≡◌, refl, true, false, [], ◌∷◌, some, ok, lookup, insert, Result, Bool, panic,
}
use praft.Prelude.{◌+◌, ◌≤◌}
use praft.Util.Slices.{slice_equal}
use praft.Config.{get_node}
use praft.Messages.{
  SendingArgs, SendingReturnArgs, DuplicateMsg, DuplicateArgs, DuplicateConfirmMsg,
  DuplicateConfirmArgs,
}
use praft.Crypto.{sha256_digest, rsa_sign_with_sha256, rsa_verify_with_sha256}
use praft.Cert.{LogCert}
use praft.Server.{Server}
use praft.Server.Requests.{take_batches, issue, make_req}
use praft.Server.Requests.Making.{request_at}
use praft.Server.Duplicate.{collect_reply, collect_ballot}
use praft.Server.Duplicate.Ballot.{no_more, one_more, readable, AreVotes}
use praft.Server.Duplicate.Report.{HasCounted, collect_ballot_lem}
use praft.Server.Duplicate.Tally.{IsTallied, IsBalanced, times, reports}
use praft.Server.Duplicate.Once.{Duplicates, started, next, made, replied, Duplicates-IsTallied}
use praft.Server.Blocks.{build_block, sending, receiving, sending_reply}
use praft.Server.Blocks.Primary.{sent}
use praft.Server.Service.{
  Serves, launched, given_in, taken_from, duplicated_step, sent_block, Serves-IsBalanced,
}
use praft.Server.Blocks.Backup.{deliver, reply_to}
use praft.Server.Cluster.{
  Runs, Cluster, booted, primary_duplicates, primary_sends, backup_receives, primary_takes,
  backups_reports, Runs-blocks_once,
}
use praft.Tests.Fixtures.{
  toy, four_nodes, fresh_server, node_at, request_with, cert_with, loaded_server,
}

abbrev duplicated : DuplicateArgs
duplicated =
    let req = request_with (1 ∷ []) in
    let msg : DuplicateMsg = record {
      seq = 7;
      digest = sha256_digest toy req.req;
      node_id = 12;
      duplicator_node_id = 12;
      tx_num = 5;
      log_index = 0;
    } in
    record { msg = msg; sign = sha256_digest toy msg; req_args = req }

abbrev confirmation : DuplicateConfirmMsg
confirmation = record {
  seq = 7;
  digest = sha256_digest toy (request_with []).req;
  node_id = 12;
  duplicator_node_id = 11;
  log_index = 0;
}

abbrev confirmation_args : DuplicateConfirmArgs
confirmation_args = record { msg = some confirmation; sign = sha256_digest toy confirmation }

abbrev waiting : LogCert
waiting = record (cert_with 7 (request_with [])) {
  digest = sha256_digest toy (request_with []).req;
  duplicate_confirm_q = confirmation_args ∷ [];
}

no_votes : AreVotes toy four_nodes waiting.digest []
unfolding lookup
no_votes = record { distinct = tt; votes = λ n args e. cc }

collect_ballot_lem_example :
    HasCounted toy four_nodes 5 7
      (request_with [])
      (sha256_digest toy (request_with []).req)
      waiting
      fresh_server
unfolding rsa_sign_with_sha256 sha256_digest lookup
collect_ballot_lem_example =
    collect_ballot_lem toy four_nodes 5 7 (request_with [])
      (sha256_digest toy (request_with []).req) waiting fresh_server refl
      (one_more (readable confirmation (node_at 12) refl refl) no_more) no_votes refl

abbrev server_of : Result (Server × Bool) → Server
server_of (panic fault) = fresh_server
server_of (ok (s, more)) = s

abbrev asks_more : Result (Server × Bool) → Bool
asks_more (panic fault) = false
asks_more (ok (s, more)) = more

-- The vote is counted, the request reported.
one_vote_reports : asks_more (collect_ballot toy four_nodes 5 7 waiting fresh_server) ≡ true
unfolding collect_ballot lookup insert slice_equal sha256_digest get_node rsa_verify_with_sha256
    rsa_sign_with_sha256
one_vote_reports = refl

-- A run: a request is made, a peer confirms it twice.
abbrev request_made : Server
unfolding issue
request_made =
    issue 5
      (record {
        req = request_at 5 (1 ∷ []);
        sign = sha256_digest toy (request_at 5 (1 ∷ []));
        tx_num = 2000;
      })
      (sha256_digest toy (request_at 5 (1 ∷ [])))
      (take_batches 2000 5 0 loaded_server.tx_pool_batches).0 loaded_server

abbrev confirmed_once : Server
unfolding request_made collect_reply
confirmed_once =
    server_of (collect_reply toy four_nodes 6 10_000_000_011 confirmation_args request_made)

abbrev confirmed_twice : Server
unfolding confirmed_once collect_reply
confirmed_twice =
    server_of (collect_reply toy four_nodes 7 10_000_000_011 confirmation_args confirmed_once)

run : Duplicates toy four_nodes confirmed_twice
unfolding request_made confirmed_once confirmed_twice collect_reply make_req issue lookup insert
    slice_equal sha256_digest get_node rsa_verify_with_sha256 rsa_sign_with_sha256
run =
    next
      (next (next (started loaded_server refl refl) (made 5 (1 ∷ []) refl))
        (replied 6 10_000_000_011 confirmation_args true refl))
      (replied 7 10_000_000_011 confirmation_args false refl)

reported_once : (confirmed_twice.local_duplicated_reqs) ≡ confirmed_once.local_duplicated_reqs
unfolding confirmed_once confirmed_twice request_made collect_reply lookup insert slice_equal
    sha256_digest get_node rsa_verify_with_sha256 rsa_sign_with_sha256
reported_once = refl

Duplicates-IsTallied_example :
    IsTallied confirmed_twice.seq2cert confirmed_twice.local_duplicated_reqs
Duplicates-IsTallied_example = Duplicates-IsTallied toy four_nodes run

-- The request then goes into a block.
abbrev its_block : SendingArgs
unfolding build_block confirmed_twice
its_block =
    let msg = (build_block confirmed_twice).1 in
    record { msg = msg; digest = sha256_digest toy msg; sign = sha256_digest toy msg }

abbrev after_block : Server
unfolding sent confirmed_twice
after_block = sent confirmed_twice

served : Serves toy four_nodes ([] ++ its_block.msg.block.duplicated_reqs) [] after_block
unfolding after_block its_block sent sending request_made confirmed_once confirmed_twice
    collect_reply make_req issue lookup insert slice_equal sha256_digest get_node
    rsa_verify_with_sha256 rsa_sign_with_sha256
served =
    sent_block its_block
      (duplicated_step
        (duplicated_step (duplicated_step (launched loaded_server refl refl) (made 5 (1 ∷ []) refl))
          (replied 6 10_000_000_011 confirmation_args true refl))
        (replied 7 10_000_000_011 confirmation_args false refl))
      refl

Serves-IsBalanced_example :
    IsBalanced
      (λ j. times j [])
      after_block.seq2cert
      (([] ++ its_block.msg.block.duplicated_reqs) ++ after_block.local_duplicated_reqs)
Serves-IsBalanced_example = Serves-IsBalanced toy four_nodes served

-- A backup receives the block, and the primary takes its reply.
abbrev backup_after : Server
unfolding deliver its_block
backup_after = deliver its_block.msg fresh_server

abbrev its_reply : SendingReturnArgs
unfolding its_block
its_reply =
    let msg = reply_to its_block.msg fresh_server in
    record { msg = some msg; digest = sha256_digest toy msg; sign = sha256_digest toy msg }

abbrev state_of : Result Server → Server
state_of (panic fault) = fresh_server
state_of (ok s) = s

abbrev reply_taken : Server
unfolding sending_reply after_block its_reply
reply_taken = state_of (sending_reply four_nodes its_reply after_block)

abbrev together_after : Cluster
unfolding its_block its_reply reply_taken backup_after
together_after = record {
  primary = reply_taken;
  blocks = [] ++ its_block.msg.block.duplicated_reqs;
  joins = [] ++ taken_from its_reply.msg after_block;
  backups = record { server = backup_after; given = [] ++ given_in its_reply.msg } ∷ [];
  flying = [];
}

together : Runs toy four_nodes together_after
unfolding together_after after_block its_block its_reply reply_taken backup_after deliver sent
    sending receiving sending_reply request_made confirmed_once confirmed_twice collect_reply
    make_req issue lookup insert slice_equal sha256_digest get_node rsa_verify_with_sha256
    rsa_sign_with_sha256
together =
    primary_takes its_reply [] []
      (backup_receives 0 (record { server = fresh_server; given = [] }) its_block its_reply
        (primary_sends its_block
          (primary_duplicates
            (primary_duplicates
              (primary_duplicates
                (booted loaded_server (record { server = fresh_server; given = [] } ∷ []) refl refl
                  (refl, refl, refl, tt))
                (made 5 (1 ∷ []) refl))
              (replied 6 10_000_000_011 confirmation_args true refl))
            (replied 7 10_000_000_011 confirmation_args false refl))
          refl)
        refl refl)
      refl refl

Runs-blocks_once_example :
    times 10_000_000_011 together_after.blocks
    ≤ reports (lookup 10_000_000_011 together_after.primary.seq2cert)
      + backups_reports 10_000_000_011 together_after.backups
Runs-blocks_once_example = Runs-blocks_once toy four_nodes 10_000_000_011 together
