-- ===== src/Tests/Blocks.antt =====
-- Tests of the block pipeline, and the theorems about it at concrete inputs.
use praft.Prelude.{
  ◌+◌, ◌≡◌, refl, false, List, [], ◌∷◌, ◌++◌, some, none, ok, lookup, insert, arith, elem, range,
  inl, inr, ◌==◌, Bool-cases,
}
use praft.Messages.{SendingMsg, SendingReturnArgs}
use praft.Crypto.{sha256_digest, rsa_sign_with_sha256}
use praft.BlockLog.{zero_block_log}
use praft.Server.{Server}
use praft.Server.Blocks.{receiving, sending, sending_reply, build_block}
use praft.Server.Blocks.Backup.{deliver, deliver_all, receiving-cases, ReceiveOutcome, reply_to}
use praft.Server.Blocks.Signals.{IsSignalled, deliver-IsSignalled}
use praft.Server.Blocks.Delivery.{IsAt, HoldsAll, deliver_all-InOrder}
use praft.Server.Blocks.Overtaken.{IsStuck, overtaken_block_stalls}
use praft.Server.Blocks.Primary.{
  Reach, sends, here, next, IsPrimary, Reach-IsPrimary, sent, tx_total, sending_lem,
}
use praft.Server.Blocks.Replies.{ReplyOutcome, sending_reply-cases}
use praft.Server.Blocks.Race.{sent_clearing, sending_race}
use praft.Tests.Fixtures.{toy, four_nodes, fresh_server, unit_of, block_of}

pub fresh-IsSignalled : IsSignalled fresh_server
unfolding lookup
fresh-IsSignalled = record {
  sound = λ h b e. elim (Bool-cases (0 == h)) [ inl z ↦ ground arith | inr nz ↦ ground arith ];
  sent = λ h. ground arith;
  once = tt;
}

pub fresh-IsAt : IsAt 0 zero_block_log fresh_server
unfolding lookup
fresh-IsAt = record { there = refl; keyed = refl; waiting = refl; above = λ h lt. ground arith }

fresh-IsPrimary : IsPrimary 1 fresh_server
unfolding lookup
fresh-IsPrimary = record {
  signalled = fresh-IsSignalled;
  quorate = λ h b e. elim (Bool-cases (0 == h)) [ inl z ↦ ground arith | inr nz ↦ ground arith ];
  above = λ h lt. ground arith;
}

abbrev pub three_blocks : List SendingMsg
three_blocks = block_of 1 0 (unit_of 7 ∷ []) ∷ block_of 2 1 [] ∷ block_of 3 2 (unit_of 8 ∷ []) ∷ []

-- Blocks 1 and 2 are handed over, and block 3 waits for its commit signal.
deliver_all-three_blocks : (deliver_all three_blocks fresh_server).exec_ch ≡ 1 ∷ 2 ∷ []
unfolding deliver_all deliver lookup insert
deliver_all-three_blocks = refl

deliver_all-InOrder_example :
    ((deliver_all three_blocks fresh_server).exec_ch ≡ [] ++ range 1 2)
    × HoldsAll three_blocks (deliver_all three_blocks fresh_server)
deliver_all-InOrder_example =
    deliver_all-InOrder fresh_server zero_block_log fresh-IsAt refl (block_of 1 0 (unit_of 7 ∷ []))
      (block_of 2 1 [] ∷ block_of 3 2 (unit_of 8 ∷ []) ∷ [])
      (refl, refl, (refl, refl, (refl, refl, tt)))

deliver-IsSignalled_example : IsSignalled (deliver (block_of 1 0 (unit_of 7 ∷ [])) fresh_server)
deliver-IsSignalled_example =
    deliver-IsSignalled (block_of 1 0 (unit_of 7 ∷ [])) fresh_server fresh-IsSignalled

overtaken_block_stalls_example :
    IsStuck 1 (
      deliver_all
        (block_of 2 1 [] ∷ block_of 1 0 (unit_of 7 ∷ []) ∷ block_of 3 2 [] ∷ [])
        fresh_server)
    × (elem 1
          (deliver_all
            (block_of 2 1 [] ∷ block_of 1 0 (unit_of 7 ∷ []) ∷ block_of 3 2 [] ∷ [])
            fresh_server).exec_ch
        ≡ false)
unfolding lookup
overtaken_block_stalls_example =
    overtaken_block_stalls 1 fresh_server (block_of 2 1 []) (block_of 1 0 (unit_of 7 ∷ []))
      fresh-IsSignalled refl refl (omega arith) refl (omega arith) (block_of 3 2 [] ∷ [])
      (omega arith)

toy_sign :
    rsa_sign_with_sha256 toy
      (sha256_digest toy (build_block fresh_server).1)
      fresh_server.node.pri_key
    ≡ ok (sha256_digest toy (build_block fresh_server).1)
unfolding rsa_sign_with_sha256 sha256_digest
toy_sign = refl

abbrev busy_server : Server
busy_server = record fresh_server { local_duplicated_reqs = unit_of 7 ∷ unit_of 8 ∷ [] }

sending_lem_example :
    (sent busy_server).local_committed_tx_num
    ≡ busy_server.local_committed_tx_num + tx_total busy_server.local_duplicated_reqs
unfolding rsa_sign_with_sha256 sha256_digest
sending_lem_example =
    (sending_lem toy busy_server (sha256_digest toy (build_block busy_server).1) refl).8

receiving-cases_example :
    ReceiveOutcome toy four_nodes
      (record { msg = block_of 1 0 (unit_of 7 ∷ []); digest = none; sign = none })
      busy_server
      (receiving toy four_nodes
        (record { msg = block_of 1 0 (unit_of 7 ∷ []); digest = none; sign = none })
        busy_server)
unfolding rsa_sign_with_sha256 sha256_digest
receiving-cases_example =
    receiving-cases toy four_nodes
      (record { msg = block_of 1 0 (unit_of 7 ∷ []); digest = none; sign = none }) busy_server
      (sha256_digest toy (reply_to (block_of 1 0 (unit_of 7 ∷ [])) busy_server)) refl

abbrev first_reply : SendingReturnArgs
first_reply = record {
  msg = some (record {
    prepare_block_index = 1;
    committed_block_index = 0;
    new_duplicated_reqs = unit_of 9 ∷ [];
    node_id = 12;
  });
  digest = none;
  sign = none;
}

sending_reply-cases_example :
    ReplyOutcome four_nodes first_reply
      (sent busy_server)
      (sending_reply four_nodes first_reply (sent busy_server))
sending_reply-cases_example = sending_reply-cases four_nodes first_reply (sent busy_server)

one_step : Reach toy four_nodes fresh_server (sent fresh_server)
unfolding sent sending rsa_sign_with_sha256 sha256_digest
one_step = next here (
    sends
      (record {
        msg = (build_block fresh_server).1;
        digest = sha256_digest toy (build_block fresh_server).1;
        sign = sha256_digest toy (build_block fresh_server).1;
      })
      refl)

Reach-IsPrimary_example : IsPrimary 1 (sent fresh_server)
Reach-IsPrimary_example = Reach-IsPrimary toy four_nodes one_step fresh-IsPrimary

sending_race_example :
    sent_clearing (unit_of 9) busy_server ≡ (sent busy_server, (build_block busy_server).1)
sending_race_example = (sending_race (unit_of 9) busy_server).0
