-- ===== src/Server/Blocks/Primary.antt =====
-- `Sending` and the replies to it at the primary.
use praft.Prelude.{
  ℕ, suc, ◌+◌, ◌≤◌, ◌<◌, ◌≡◌, refl, subst, sym, inl, inr, true, List, [], ◌∷◌, ◌++◌, none, some,
  Result, ok, lookup, insert, arith, length, length-append, lookup-insert, Bool-cases, ◌==◌,
  if◌then◌else◌, dec_le,
}
use praft.Util.Slices.{Slice}
use praft.Messages.{DuplicatedReqUnit, SendingArgs, SendingReturnArgs, SendingReturnMsg}
use praft.Crypto.{Primitives, sha256_digest, rsa_sign_with_sha256}
use praft.Config.{Config}
use praft.BlockLog.{BlockLog, zero_block_log, check}
use praft.Server.{Server}
use praft.Server.Blocks.{
  is_ready, signal, add_tx_nums, build_block, record_block, clear_reqs, sending, sending_reply,
  confirm_prepare, confirm_commit,
}
use praft.Server.Blocks.Replies.{
  ReplyOutcome, refused, unknown_height, same_height, taken, confirmed, take_reqs,
  sending_reply-cases,
}
use praft.Server.Blocks.Signals.{
  IsSignalled, IsSignalled-frame, write-IsSignalled, sending_reply-IsSignalled,
}

-- The transactions of a list of requests.
abbrev pub tx_total : List DuplicatedReqUnit → ℕ
tx_total [] = 0
tx_total (u ∷ us) = u.tx_num + tx_total us

add_tx_nums-tx_total : (n : ℕ) (us : List DuplicatedReqUnit) → add_tx_nums n us ≡ n + tx_total us
unfolding add_tx_nums
add_tx_nums-tx_total n [] = omega arith
add_tx_nums-tx_total n (u ∷ us) = omega (arith, add_tx_nums-tx_total (n + u.tx_num) us)

add_tx_nums-zero : (us : List DuplicatedReqUnit) → add_tx_nums 0 us ≡ tx_total us
add_tx_nums-zero us = omega (arith, add_tx_nums-tx_total 0 us)

-- The state and the message of `Sending` when the signature can be made.
unfoldable pub sent : Server → Server
unfolding build_block record_block clear_reqs
sent s = clear_reqs (record_block (build_block s).1 (build_block s).0)

-- A primary that can sign always sends. The message carries the next height, the commit signal of
-- the current one, all waiting requests and the sum of their transaction counts; afterwards the
-- primary stands at that height, holds the same requests in the height's log, waits with none, has
-- counted their transactions, and has the other heights' logs and the executor's channel as before.
pub sending_lem :
    (p : Primitives) (s : Server) (sign : Slice)
    → rsa_sign_with_sha256 p (sha256_digest p (build_block s).1) s.node.pri_key ≡ ok sign
    → (sending p s
        ≡ ok (
          sent s,
          record {
            msg = (build_block s).1;
            digest = sha256_digest p (build_block s).1;
            sign = sign;
          },
        ))
      × ((build_block s).1.block.block_index ≡ suc s.current_block_index)
      × ((build_block s).1.commit_block_index ≡ s.current_block_index)
      × ((build_block s).1.block.duplicated_reqs ≡ s.local_duplicated_reqs)
      × ((build_block s).1.block.tx_num ≡ tx_total s.local_duplicated_reqs)
      × ((sent s).current_block_index ≡ suc s.current_block_index)
      × ((h : ℕ)
          → lookup h (sent s).height2block_log ≡ (
              if suc s.current_block_index == h
              then some (record zero_block_log {
                block_index = suc s.current_block_index;
                duplicated_reqs = s.local_duplicated_reqs;
                tx_num = tx_total s.local_duplicated_reqs;
              })
              else lookup h s.height2block_log))
      × ((sent s).local_duplicated_reqs ≡ [])
      × ((sent s).local_committed_tx_num
          ≡ s.local_committed_tx_num + tx_total s.local_duplicated_reqs)
      × ((sent s).exec_ch ≡ s.exec_ch)
unfolding sending sent
sending_lem p s sign signed = (
  rw signed refl,
  refl,
  omega arith,
  refl,
  add_tx_nums-zero s.local_duplicated_reqs,
  refl,
  λ h.
      rw (add_tx_nums-zero s.local_duplicated_reqs)
        (lookup-insert (suc s.current_block_index) h _ s.height2block_log),
  refl,
  omega (arith, add_tx_nums-tx_total 0 s.local_duplicated_reqs),
  refl,
)

-- The steps of a primary: a block is sent, a reply is taken, and one of its own requests has been
-- duplicated (by `verifyBallot`), in any order.
pub data Step (p : Primitives) (k : Config) (s t : Server) : Type 0 where
  sends : (args : SendingArgs) → sending p s ≡ ok (t, args) → Step p k s t
  replies : (args : SendingReturnArgs) → sending_reply k args s ≡ ok t → Step p k s t
  duplicates :
      (u : DuplicatedReqUnit)
      → t ≡ record s { local_duplicated_reqs = s.local_duplicated_reqs ++ u ∷ [] }
      → Step p k s t

pub data Reach (p : Primitives) (k : Config) (s : Server) : Server → Type 0 where
  here : Reach p k s s
  next : {t u : Server} → Reach p k s t → Step p k t u → Reach p k s u

-- A log is marked only with enough confirmations.
pub record IsQuorate (f : ℕ) (b : BlockLog) : Type 0 where
  pub prepare_quorum : b.prepared ≡ true → f ≤ length b.prepare_confirm_nodes
  pub commit_quorum : b.committed ≡ true → f ≤ length b.commit_confirm_nodes

-- What holds of a primary between two steps, with `KConfig.FaultNum` as its first argument.
pub record IsPrimary (f : ℕ) (s : Server) : Type 0 where
  pub signalled : IsSignalled s
  pub quorate : (h : ℕ) (b : BlockLog) → lookup h s.height2block_log ≡ some b → IsQuorate f b
  pub above : (h : ℕ) → s.current_block_index < h → lookup h s.height2block_log ≡ none

sent-IsPrimary : (f : ℕ) (s : Server) → IsPrimary f s → IsPrimary f (sent s)
unfolding sent
sent-IsPrimary f s v =
    let new_log : BlockLog = record zero_block_log {
      block_index = suc s.current_block_index;
      duplicated_reqs = s.local_duplicated_reqs;
      tx_num = add_tx_nums 0 s.local_duplicated_reqs;
    } in
    let height = suc s.current_block_index in
    record {
      signalled =
          IsSignalled-frame
            (record s { height2block_log = insert height new_log s.height2block_log }) _ refl refl
            (write-IsSignalled s v.signalled height new_log (ground arith)
              (ground (arith, v.signalled.sent height, v.above height)));
      quorate =
          λ h b e. ground (arith, lookup-insert height h new_log s.height2block_log, v.quorate h b);
      above = λ h lt. ground (arith, lookup-insert height h new_log s.height2block_log, v.above h);
    }

confirm_prepare-IsQuorate :
    (f n : ℕ) (b : BlockLog) → IsQuorate f b → IsQuorate f (confirm_prepare f n b)
unfolding confirm_prepare check
confirm_prepare-IsQuorate f n b q = ground (arith, length-append b.prepare_confirm_nodes (n ∷ []))

confirm_commit-IsQuorate :
    (f n : ℕ) (b : BlockLog) → IsQuorate f b → IsQuorate f (confirm_commit f n b)
unfolding confirm_commit check
confirm_commit-IsQuorate f n b q = ground (arith, length-append b.commit_confirm_nodes (n ∷ []))

-- What holds of the logs alone.
record IsKept (f top : ℕ) (s : Server) : Type 0 where
  quorate : (h : ℕ) (b : BlockLog) → lookup h s.height2block_log ≡ some b → IsQuorate f b
  above : (h : ℕ) → top < h → lookup h s.height2block_log ≡ none

write-IsKept :
    (f top : ℕ) (s : Server) (height : ℕ) (b : BlockLog)
    → IsKept f top s
    → IsQuorate f b
    → height ≤ top
    → IsKept f top (record s { height2block_log = insert height b s.height2block_log })
write-IsKept f top s height b v q le = record {
  quorate = λ h c e. ground (arith, lookup-insert height h b s.height2block_log, v.quorate h c);
  above = λ h lt. ground (arith, lookup-insert height h b s.height2block_log, v.above h);
}

signal-IsKept :
    (f top : ℕ) (s : Server) (height : ℕ) (b : BlockLog)
    → IsKept f top s
    → IsQuorate f b
    → height ≤ top
    → IsKept f top (signal height b s)
unfolding signal
signal-IsKept f top s height b v q le = elim (Bool-cases (is_ready b)) [
  | inl ready ↦
      let kept =
        write-IsKept f top s height (record b { executed = true }) v
          (record { prepare_quorum = q.prepare_quorum; commit_quorum = q.commit_quorum }) le in
      rw ready (record { quorate = kept.quorate; above = kept.above })
  | inr wait ↦ rw wait (write-IsKept f top s height b v q le)
]

-- A height with a log is not above the top.
there-le :
    (f top : ℕ) (s : Server) (h : ℕ) (b : BlockLog)
    → IsKept f top s
    → lookup h s.height2block_log ≡ some b
    → h ≤ top
there-le f top s h b v e = elim (dec_le h top) [
  | yes le ↦ le
  | no above ↦ ground (arith, v.above h)
]

confirmed-IsKept :
    (k : Config) (top : ℕ) (msg : SendingReturnMsg) (s : Server) (b c : BlockLog)
    → IsKept k.fault_num top s
    → lookup msg.prepare_block_index s.height2block_log ≡ some b
    → lookup msg.committed_block_index s.height2block_log ≡ some c
    → IsKept k.fault_num top (confirmed k msg b c s)
unfolding confirmed
confirmed-IsKept k top msg s b c v eb ec =
    signal-IsKept k.fault_num top _ msg.committed_block_index _
      (write-IsKept k.fault_num top s msg.prepare_block_index _ v
        (confirm_prepare-IsQuorate k.fault_num msg.node_id b (v.quorate _ b eb))
        (there-le k.fault_num top s _ b v eb))
      (confirm_commit-IsQuorate k.fault_num msg.node_id c (v.quorate _ c ec))
      (there-le k.fault_num top s _ c v ec)

confirmed-current :
    (k : Config) (msg : SendingReturnMsg) (s : Server) (b c : BlockLog)
    → (confirmed k msg b c s).current_block_index ≡ s.current_block_index
unfolding confirmed signal
confirmed-current k msg s b c = ground arith

outcome-IsKept :
    (k : Config) (args : SendingReturnArgs) (s t : Server) (r : Result Server)
    → IsKept k.fault_num s.current_block_index s
    → r ≡ ok t
    → ReplyOutcome k args s r
    → IsKept k.fault_num t.current_block_index t
outcome-IsKept k args s t r v e (refused _ p) = cc
outcome-IsKept k args s t r v e (unknown_height msg _ _ p) =
    let same : s ≡ t = cc in
    subst (λ (u : Server). IsKept k.fault_num u.current_block_index u) same v
outcome-IsKept k args s t r v e (same_height msg _ _ _ _ p) = cc
outcome-IsKept k args s t r v e (taken msg b c em eb ec ne p) =
    let same : take_reqs msg (confirmed k msg b c s) ≡ t = cc in
    let kept = confirmed-IsKept k s.current_block_index msg s b c v eb ec in
    subst (λ (u : Server). IsKept k.fault_num u.current_block_index u) same
      (rw (confirmed-current k msg s b c) (record { quorate = kept.quorate; above = kept.above }))

reply-IsPrimary :
    (k : Config) (args : SendingReturnArgs) (s t : Server)
    → sending_reply k args s ≡ ok t
    → IsPrimary k.fault_num s
    → IsPrimary k.fault_num t
reply-IsPrimary k args s t e v =
    let kept : IsKept k.fault_num t.current_block_index t =
      outcome-IsKept k args s t _ (record { quorate = v.quorate; above = v.above }) e
        (sending_reply-cases k args s) in
    record {
      signalled = sending_reply-IsSignalled k args s t v.signalled e;
      quorate = kept.quorate;
      above = kept.above;
    }

-- The state of a `Sending` that did not panic.
sending-sent :
    (p : Primitives) (s t : Server) (args : SendingArgs) → sending p s ≡ ok (t, args) → t ≡ sent s
unfolding sending sent
sending-sent p s t args e = ground arith

Step-IsPrimary :
    (p : Primitives) (k : Config) {s t : Server}
    → Step p k s t
    → IsPrimary k.fault_num s
    → IsPrimary k.fault_num t
Step-IsPrimary p k {s} {t} (sends args e) v =
    subst (IsPrimary k.fault_num) (sym (sending-sent p s t args e)) (sent-IsPrimary k.fault_num s v)
Step-IsPrimary p k {s} {t} (replies args e) v = reply-IsPrimary k args s t e v
Step-IsPrimary p k {s} {t} (duplicates u e) v = subst (IsPrimary k.fault_num) (sym e) (record {
  signalled = IsSignalled-frame s _ refl refl v.signalled;
  quorate = v.quorate;
  above = v.above;
})

-- From a state that meets it, every run of sends, replies and finished duplications keeps the
-- primary's invariant: each log stands at its height and none above the current one; a log is
-- prepared (committed) only with at least `FaultNum` prepare (commit) confirmations; the heights
-- handed to the executor are distinct and are exactly those marked as executed, each prepared and
-- committed.
pub Reach-IsPrimary :
    (p : Primitives) (k : Config) {s t : Server}
    → Reach p k s t
    → IsPrimary k.fault_num s
    → IsPrimary k.fault_num t
Reach-IsPrimary p k here v = v
Reach-IsPrimary p k (next r st) v = Step-IsPrimary p k st (Reach-IsPrimary p k r v)
