-- ===== src/Server/Blocks/Signals.antt =====
-- The executor's channel against the block logs: what holds after every message and every reply.
use praft.Prelude.{
  ℕ, ◌≡◌, refl, subst, ◌≢◌, inl, inr, Bool, true, false, List, [], ◌∷◌, Option, none, some, Result,
  ok, lookup, insert, arith, elem, Distinct, elem-append, Distinct-concat, lookup-insert,
  Bool-cases, Option-cases, ◌==◌,
}
use praft.Messages.{SendingMsg, SendingReturnArgs, SendingReturnMsg}
use praft.Config.{Config}
use praft.BlockLog.{BlockLog, check}
use praft.Server.{Server}
use praft.Server.Blocks.{
  is_ready, signal, note_prepared, note_committed, sending_reply, confirm_prepare, confirm_commit,
}
use praft.Server.Blocks.Backup.{deliver, deliver_all}
use praft.Server.Blocks.Replies.{
  ReplyOutcome, refused, unknown_height, same_height, taken, confirmed, take_reqs,
  sending_reply-cases,
}

-- Was the block of this log handed to the executor?
abbrev pub was_executed : Option BlockLog → Bool
was_executed none = false
was_executed (some b) = b.executed

-- A log stands at its height, and was handed over only once both phases agreed.
pub record IsSound (h : ℕ) (b : BlockLog) : Type 0 where
  pub keyed : b.block_index ≡ h
  pub agreed_prepared : b.executed ≡ true → b.prepared ≡ true
  pub agreed_committed : b.executed ≡ true → b.committed ≡ true

-- All logs are sound, the heights on the channel are those of the logs that were handed over, and
-- none is there twice.
pub record IsSignalled (s : Server) : Type 0 where
  pub sound : (h : ℕ) (b : BlockLog) → lookup h s.height2block_log ≡ some b → IsSound h b
  pub sent : (h : ℕ) → elem h s.exec_ch ≡ was_executed (lookup h s.height2block_log)
  pub once : Distinct s.exec_ch

module _ (s : Server) (v : IsSignalled s) (height : ℕ) (b : BlockLog) (e : IsSound height b)
    (same : elem height s.exec_ch ≡ b.executed) where
  -- Writing a log that says of its execution what the channel says.
  pub write-IsSignalled :
      IsSignalled (record s { height2block_log = insert height b s.height2block_log })
  write-IsSignalled = record {
    sound = λ h c eq. elim (Bool-cases (height == h)) [
      | inl yes_h ↦ ground (arith, lookup-insert height h b s.height2block_log)
      | inr no_h ↦ ground (arith, lookup-insert height h b s.height2block_log, v.sound h c)
    ];
    sent = λ h. ground (arith, lookup-insert height h b s.height2block_log, v.sent h);
    once = v.once;
  }

  pub signal-IsSignalled : IsSignalled (signal height b s)
  unfolding signal
  signal-IsSignalled = elim (Bool-cases (is_ready b)) [
    | inl ready ↦ rw ready (record {
      sound = λ h c eq. ground (
        arith,
        lookup-insert height h (record b { executed = true }) s.height2block_log,
        v.sound h c,
      );
      sent = λ h. ground (
        arith,
        lookup-insert height h (record b { executed = true }) s.height2block_log,
        v.sent h,
        elem-append h s.exec_ch (b.block_index ∷ []),
      );
      once = Distinct-concat s.exec_ch b.block_index v.once (ground arith);
    })
    | inr wait ↦ rw wait write-IsSignalled
  ]

module _ (s : Server) (v : IsSignalled s) where
  note_prepared-IsSignalled : (msg : SendingMsg) → IsSignalled (note_prepared msg s)
  unfolding note_prepared
  note_prepared-IsSignalled msg =
      elim (Option-cases (lookup msg.block.block_index s.height2block_log)) [
        | inl absent ↦ rw absent (
            write-IsSignalled s v msg.block.block_index _ (ground arith)
              (ground (arith, v.sent msg.block.block_index)))
        | inr (b, there) ↦ rw there (
            write-IsSignalled s v msg.block.block_index _
              (ground (arith, v.sound msg.block.block_index b))
              (ground (arith, v.sent msg.block.block_index)))
      ]

  note_committed-IsSignalled : (height : ℕ) → IsSignalled (note_committed height s)
  unfolding note_committed
  note_committed-IsSignalled height = elim (Option-cases (lookup height s.height2block_log)) [
    | inl absent ↦
        rw absent (write-IsSignalled s v height _ (ground arith) (ground (arith, v.sent height)))
    | inr (b, there) ↦ rw there (
        signal-IsSignalled s v height (record b { committed = true })
          (ground (arith, v.sound height b)) (ground (arith, v.sent height)))
  ]

-- The invariant reads only the logs and the channel.
pub IsSignalled-frame :
    (s t : Server)
    → t.height2block_log ≡ s.height2block_log
    → t.exec_ch ≡ s.exec_ch
    → IsSignalled s
    → IsSignalled t
IsSignalled-frame s t e c v = record {
  sound = λ h b eq. v.sound h b (rw (← e) eq);
  sent = λ h. rw (e, c) (v.sent h);
  once = rw c v.once;
}

-- A delivered message keeps the logs and the executor's channel in agreement: no block is handed to
-- the executor twice, nor before it is prepared and committed.
pub deliver-IsSignalled :
    (msg : SendingMsg) (s : Server) → IsSignalled s → IsSignalled (deliver msg s)
unfolding deliver
deliver-IsSignalled msg s v =
    IsSignalled-frame _ _ refl refl
      (note_committed-IsSignalled _ (note_prepared-IsSignalled s v msg) msg.commit_block_index)

pub deliver_all-IsSignalled :
    (ms : List SendingMsg) (s : Server) → IsSignalled s → IsSignalled (deliver_all ms s)
unfolding deliver_all
deliver_all-IsSignalled [] s v = v
deliver_all-IsSignalled (m ∷ ms) s v =
    deliver_all-IsSignalled ms (deliver m s) (deliver-IsSignalled m s v)

confirm_prepare-IsSound :
    (f n h : ℕ) (b : BlockLog)
    → IsSound h b
    → IsSound h (confirm_prepare f n b) × ((confirm_prepare f n b).executed ≡ b.executed)
unfolding confirm_prepare check
confirm_prepare-IsSound f n h b e = (ground arith, ground arith)

confirm_commit-IsSound :
    (f n h : ℕ) (b : BlockLog)
    → IsSound h b
    → IsSound h (confirm_commit f n b) × ((confirm_commit f n b).executed ≡ b.executed)
unfolding confirm_commit check
confirm_commit-IsSound f n h b e = (ground arith, ground arith)

confirmed-IsSignalled :
    (k : Config) (msg : SendingReturnMsg) (s : Server) (b c : BlockLog)
    → IsSignalled s
    → lookup msg.prepare_block_index s.height2block_log ≡ some b
    → lookup msg.committed_block_index s.height2block_log ≡ some c
    → msg.prepare_block_index ≢ msg.committed_block_index
    → IsSignalled (confirmed k msg b c s)
unfolding confirmed
confirmed-IsSignalled k msg s b c v eb ec ne =
    signal-IsSignalled _ first msg.committed_block_index _ commit_sound.0
      (ground (arith, v.sent msg.committed_block_index, commit_sound.1))
  where
    prepare_sound :
        IsSound msg.prepare_block_index (confirm_prepare k.fault_num msg.node_id b)
        × ((confirm_prepare k.fault_num msg.node_id b).executed ≡ b.executed)
    prepare_sound = confirm_prepare-IsSound k.fault_num msg.node_id _ b (v.sound _ b eb)

    commit_sound :
        IsSound msg.committed_block_index (confirm_commit k.fault_num msg.node_id c)
        × ((confirm_commit k.fault_num msg.node_id c).executed ≡ c.executed)
    commit_sound = confirm_commit-IsSound k.fault_num msg.node_id _ c (v.sound _ c ec)

    first : IsSignalled (record s {
      height2block_log =
          insert msg.prepare_block_index
            (confirm_prepare k.fault_num msg.node_id b)
            s.height2block_log;
    })
    first =
        write-IsSignalled s v msg.prepare_block_index _ prepare_sound.0
          (ground (arith, v.sent msg.prepare_block_index, prepare_sound.1))

outcome-IsSignalled :
    (k : Config) (args : SendingReturnArgs) (s t : Server) (r : Result Server)
    → IsSignalled s
    → r ≡ ok t
    → ReplyOutcome k args s r
    → IsSignalled t
outcome-IsSignalled k args s t r v e (refused _ p) = cc
outcome-IsSignalled k args s t r v e (unknown_height msg _ _ p) =
    let same : s ≡ t = cc in subst IsSignalled same v
outcome-IsSignalled k args s t r v e (same_height msg _ _ _ _ p) = cc
outcome-IsSignalled k args s t r v e (taken msg b c em eb ec ne p) =
    let same : take_reqs msg (confirmed k msg b c s) ≡ t = cc in
    subst IsSignalled same (
      IsSignalled-frame (confirmed k msg b c s) _ refl refl
        (confirmed-IsSignalled k msg s b c v eb ec ne))

-- A reply that is taken without a panic keeps the primary's logs and channel in agreement.
pub sending_reply-IsSignalled :
    (k : Config) (args : SendingReturnArgs) (s t : Server)
    → IsSignalled s
    → sending_reply k args s ≡ ok t
    → IsSignalled t
sending_reply-IsSignalled k args s t v e =
    outcome-IsSignalled k args s t _ v e (sending_reply-cases k args s)
