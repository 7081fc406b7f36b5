-- ===== src/Server/Blocks/Replies.antt =====
-- The outcomes of a backup's reply at the primary (the goroutine of `Sending`).
use praft.Prelude.{
  ◌≡◌, refl, ◌≢◌, inl, inr, ◌++◌, none, some, Result, ok, panic, lookup, insert, arith,
  Option-cases, Bool-cases, ◌==◌, nil_dereference, deadlock, ◌⊎◌,
}
use praft.Messages.{SendingReturnArgs, SendingReturnMsg}
use praft.Config.{Config}
use praft.BlockLog.{BlockLog}
use praft.Server.{Server}
use praft.Server.Blocks.{signal, sending_reply, confirm_prepare, confirm_commit}

-- Both logs take the node's confirmation, the committed block goes to the executor if it is ready.
unfoldable pub confirmed : Config → SendingReturnMsg → BlockLog → BlockLog → Server → Server
confirmed k msg b c s =
    signal msg.committed_block_index (confirm_commit k.fault_num msg.node_id c) (record s {
      height2block_log =
          insert msg.prepare_block_index (confirm_prepare k.fault_num msg.node_id b)
            s.height2block_log;
    })

-- Then the backup's requests join the primary's.
abbrev pub take_reqs : SendingReturnMsg → Server → Server
take_reqs msg s = record s {
  local_duplicated_reqs = s.local_duplicated_reqs ++ msg.new_duplicated_reqs;
}

pub data ReplyOutcome (k : Config) (args : SendingReturnArgs) (s : Server) (r : Result Server)
    : Type 0 where
  refused : args.msg ≡ none → r ≡ panic nil_dereference → ReplyOutcome k args s r
  unknown_height :
      (msg : SendingReturnMsg)
      → args.msg ≡ some msg
      → (lookup msg.prepare_block_index s.height2block_log ≡ none)
        ⊎ (lookup msg.committed_block_index s.height2block_log ≡ none)
      → r ≡ ok s
      → ReplyOutcome k args s r
  same_height :
      (msg : SendingReturnMsg) (b : BlockLog)
      → args.msg ≡ some msg
      → lookup msg.prepare_block_index s.height2block_log ≡ some b
      → msg.prepare_block_index ≡ msg.committed_block_index
      → r ≡ panic deadlock
      → ReplyOutcome k args s r
  taken :
      (msg : SendingReturnMsg) (b c : BlockLog)
      → args.msg ≡ some msg
      → lookup msg.prepare_block_index s.height2block_log ≡ some b
      → lookup msg.committed_block_index s.height2block_log ≡ some c
      → msg.prepare_block_index ≢ msg.committed_block_index
      → r ≡ ok (take_reqs msg (confirmed k msg b c s))
      → ReplyOutcome k args s r

reply_at_heights :
    (k : Config) (args : SendingReturnArgs) (s : Server) (msg : SendingReturnMsg)
    → args.msg ≡ some msg
    → ReplyOutcome k args s (sending_reply k args s)
unfolding sending_reply
reply_at_heights k args s msg e =
    elim (Option-cases (lookup msg.prepare_block_index s.height2block_log)) [
      | inl nb ↦ unknown_height msg e (inl nb) (rw (e, nb) refl)
      | inr (b, eb) ↦ elim (Option-cases (lookup msg.committed_block_index s.height2block_log)) [
        | inl nc ↦ unknown_height msg e (inr nc) (rw (e, eb, nc) refl)
        | inr (c, ec) ↦ elim (Bool-cases (msg.prepare_block_index == msg.committed_block_index)) [
          | inl eq ↦ same_height msg b e eb (ground arith) (rw (e, eb, ec) (ground arith))
          | inr ne ↦
              taken msg b c e eb ec (ground arith)
                (rw (e, eb, ec) (unfold confirmed in ground arith))
        ]
      ]
    ]

-- A reply has one of four outcomes. One without a message, as a backup gives that refuses the
-- signature, panics the primary. One that names a height without a log changes nothing. One that
-- names one height twice, where there is a log, locks that log's mutex twice: the goroutine waits
-- there for good and has changed nothing, while the server goes on. Any other gives each log its confirmation, hands
-- the committed block over if it is ready, and adds the backup's requests to the primary's.
pub sending_reply-cases :
    (k : Config) (args : SendingReturnArgs) (s : Server)
    → ReplyOutcome k args s (sending_reply k args s)
sending_reply-cases k args s = elim (Option-cases args.msg) [
  | inl nil ↦ refused nil (unfold sending_reply in rw nil refl)
  | inr (msg, e) ↦ reply_at_heights k args s msg e
]
