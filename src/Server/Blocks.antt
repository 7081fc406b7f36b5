-- ===== src/Server/Blocks.antt =====
-- The block pipeline of zpbft/server.go: `Sending` on the primary, `Receiving` on a backup, and the
-- goroutine in which the primary takes a backup's reply. Block `i + 1` carries the commit signal of
-- block `i`. Heights are unbounded numbers.
pub mod Backup
pub mod Replies
pub mod Signals
pub mod Delivery
pub mod Overtaken
pub mod Primary
pub mod Race
use praft.Prelude.{
  ℕ, suc, ◌+◌, ◌-◌, Bool, true, false, not, ◌&&◌, List, [], ◌∷◌, ◌++◌, Option, none, some, Result,
  ok, panic, ◌>>=◌, or_panic, nil_dereference, deadlock, Map, lookup, insert, ◌==◌, if◌then◌else◌,
}
use praft.Util.Slices.{Slice}
use praft.Messages.{
  DuplicatedReqUnit, Block, SendingMsg, SendingArgs, SendingReturnMsg, SendingReturnArgs,
}
use praft.Crypto.{Primitives, sha256_digest, rsa_sign_with_sha256, rsa_verify_with_sha256}
use praft.Config.{Config, get_node}
use praft.BlockLog.{BlockLog, zero_block_log, check}
use praft.Server.{Server}

-- `prepared && committed && !executed`
abbrev pub is_ready : BlockLog → Bool
is_ready b = b.prepared && b.committed && not b.executed

-- Writes the log back at its key, and hands the block to the executor once it is ready.
unfoldable pub signal : ℕ → BlockLog → Server → Server
signal height b s =
    if is_ready b
    then record s {
      height2block_log = insert height (record b { executed = true }) s.height2block_log;
      exec_ch = s.exec_ch ++ b.block_index ∷ [];
    }
    else record s { height2block_log = insert height b s.height2block_log }

prepare_at : Option BlockLog → SendingMsg → BlockLog
prepare_at (some b) msg = record b { prepared = true }
prepare_at none msg = record zero_block_log {
  block_index = msg.block.block_index;
  prepared = true;
  committed = false;
  duplicated_reqs = msg.block.duplicated_reqs;
  primary_node_id = msg.primary_node_id;
}

-- The first part of `Receiving`, up to line 645: the block that the message brings.
unfoldable pub note_prepared : SendingMsg → Server → Server
unfolding prepare_at
note_prepared msg s = record s {
  height2block_log =
      insert msg.block.block_index
        (prepare_at (lookup msg.block.block_index s.height2block_log) msg) s.height2block_log;
}

commit_at : Option BlockLog → ℕ → Server → Server
unfolding signal
commit_at (some b) height s = signal height (record b { committed = true }) s
commit_at none height s = record s {
  height2block_log =
      insert height
        (record zero_block_log { block_index = height; prepared = false; committed = true })
        s.height2block_log;
}

-- The second part, lines 646 to 670: the commit signal that the message carries.
unfoldable pub note_committed : ℕ → Server → Server
unfolding commit_at
note_committed height s = commit_at (lookup height s.height2block_log) height s

-- The third part, from line 672: the local requests go into the reply.
unfoldable pub report : SendingMsg → Server → Server × SendingReturnMsg
report msg s = (
  record s { local_duplicated_reqs = [] },
  record {
    prepare_block_index = msg.block.block_index;
    committed_block_index = msg.commit_block_index;
    new_duplicated_reqs = s.local_duplicated_reqs;
    node_id = s.node.id;
  },
)

abbrev pub no_reply : SendingReturnArgs
no_reply = record { msg = none; digest = none; sign = none }

-- `txNum` of a block: the sum over its units.
unfoldable pub add_tx_nums : ℕ → List DuplicatedReqUnit → ℕ
add_tx_nums tx_num [] = tx_num
add_tx_nums tx_num (u ∷ us) = add_tx_nums (tx_num + u.tx_num) us

-- The first section of `Sending`, up to line 541: the new block takes the local requests.
unfoldable pub build_block : Server → Server × SendingMsg
unfolding add_tx_nums
build_block s = (
  record s { current_block_index = suc s.current_block_index },
  record {
    primary_node_id = s.node.id;
    commit_block_index = suc s.current_block_index - 1;
    commit_block_tx_num = 0;
    block = record {
      duplicated_reqs = s.local_duplicated_reqs;
      block_index = suc s.current_block_index;
      committed = false;
      tx_num = add_tx_nums 0 s.local_duplicated_reqs;
    };
  },
)

-- The second section, lines 543 to 555: the block's log takes the local requests once more.
unfoldable pub record_block : SendingMsg → Server → Server
record_block msg s = record s {
  local_committed_tx_num = s.local_committed_tx_num + msg.block.tx_num;
  height2block_log =
      insert s.current_block_index
        (record zero_block_log {
          block_index = s.current_block_index;
          duplicated_reqs = s.local_duplicated_reqs;
          tx_num = msg.block.tx_num;
        })
        s.height2block_log;
}

-- The third section, line 557, which holds no lock.
unfoldable pub clear_reqs : Server → Server
clear_reqs s = record s { local_duplicated_reqs = [] }

-- The confirmations of a reply, and the check of both logs.
unfoldable pub confirm_prepare : ℕ → ℕ → BlockLog → BlockLog
confirm_prepare fault_num node_id b =
    check fault_num (record b { prepare_confirm_nodes = b.prepare_confirm_nodes ++ node_id ∷ [] })

unfoldable pub confirm_commit : ℕ → ℕ → BlockLog → BlockLog
confirm_commit fault_num node_id b =
    check fault_num (record b { commit_confirm_nodes = b.commit_confirm_nodes ++ node_id ∷ [] })

-- Lines 585 to 610. Two logs at one height are one log, whose mutex is locked twice: this goroutine waits
-- there for good, before it has changed anything, and the server goes on.
confirm_both : ℕ → SendingReturnMsg → BlockLog → BlockLog → Server → Result Server
unfolding signal confirm_prepare confirm_commit
confirm_both fault_num msg prepared committed s =
    if msg.prepare_block_index == msg.committed_block_index
    then panic deadlock
    else (let s' =
          signal msg.committed_block_index (confirm_commit fault_num msg.node_id committed)
            (record s {
              height2block_log =
                  insert msg.prepare_block_index (confirm_prepare fault_num msg.node_id prepared)
                    s.height2block_log;
            }) in
        ok (record s' {
          local_duplicated_reqs = s'.local_duplicated_reqs ++ msg.new_duplicated_reqs;
        }))

reply_at : ℕ → SendingReturnMsg → Option BlockLog → Option BlockLog → Server → Result Server
unfolding confirm_both
reply_at fault_num msg none commit s = ok s
reply_at fault_num msg (some b) none s = ok s
reply_at fault_num msg (some b) (some c) s = confirm_both fault_num msg b c s

module _ (k : Config) where
  -- The goroutine of `Sending` after the call of `Server.Receiving` has returned without an error.
  unfoldable pub sending_reply : SendingReturnArgs → Server → Result Server
  unfolding reply_at
  sending_reply args s = do
    msg ← or_panic args.msg nil_dereference
    reply_at k.fault_num msg (lookup msg.prepare_block_index s.height2block_log)
        (lookup msg.committed_block_index s.height2block_log) s

module _ (p : Primitives) where
  -- `Receiving` once the signature has been verified: lines 626 to 692.
  unfoldable pub receive_verified : SendingMsg → Server → Result (Server × SendingReturnArgs)
  unfolding note_prepared note_committed report
  receive_verified msg s = do
    let (s', reply) = report msg (note_committed msg.commit_block_index (note_prepared msg s))
    let digest = sha256_digest p reply
    sign ← rsa_sign_with_sha256 p digest s'.node.pri_key
    ok (s', record { msg = some reply; digest = digest; sign = sign })

  -- `Sending` with no other goroutine between its sections. The arguments go to every peer.
  unfoldable pub sending : Server → Result (Server × SendingArgs)
  unfolding build_block record_block clear_reqs
  sending s = do
    let (s', msg) = build_block s
    let digest = sha256_digest p msg
    sign ← rsa_sign_with_sha256 p digest s'.node.pri_key
    ok (clear_reqs (record_block msg s'), record { msg = msg; digest = digest; sign = sign })

module _ (p : Primitives) (k : Config) where
  -- `Receiving`, on a message that the sender has filled in.
  unfoldable pub receiving : SendingArgs → Server → Result (Server × SendingReturnArgs)
  unfolding receive_verified
  receiving args s = do
    node ← get_node k args.msg.primary_node_id
    let verified = rsa_verify_with_sha256 p (sha256_digest p args.msg) args.sign node.pub_key
    if verified then receive_verified p args.msg s else ok (s, no_reply)
