-- ===== src/Replication/Executed.antt =====
-- The executor of a backup that takes the heights in the order in which they are handed over, and two
-- backups that receive the same blocks.
use praft.Prelude.{
  ℕ, suc, ◌+◌, ◌≡◌, refl, sym, ap, ◌∙◌, true, false, List, [], ◌∷◌, ◌++◌, ok, ◌>>=◌, arith, lookup,
  insert, delete, elem, range, length, ltb, append_assoc, append-nil, if-false, is_some,
}
use praft.Messages.{SendingMsg, DuplicatedReqUnit}
use praft.Server.{Server}
use praft.Server.Blocks.Backup.{deliver_all}
use praft.Server.Blocks.Delivery.{InOrder}
use praft.Server.Execute.{Exec, Executor, exec_height, exec_loop}
use praft.Server.Execute.Known.{all_known, run_block}
use praft.Server.Execute.Progress.{IsRunnable, ran_one, exec_round-runs, reqs_at}
use praft.Server.Execute.Order.{Arrival, exec_all}
use praft.Ycsb.{Store, Tx, exec_tx_set}
use praft.Ycsb.Writes.{IsStore, last_write, last_write-append}
use praft.Ycsb.Replicas.{block_sets, decoded, decoded-append, run_block_lem}
use praft.Replication.Received.{block_at, IsFresh, IsAgreed, handed-IsAgreed}

-- The executor before it takes a height: nothing has come ahead of its turn.
abbrev pub waiting_at : {Db : Type 0} → ℕ → List ℕ → Db → Executor Db
waiting_at h executed db = record {
  cur_exec_height = h;
  ahead_set = [];
  db = db;
  executed = executed;
}

same_waiting :
    {Db : Type 0} {h h' : ℕ} {executed executed' : List ℕ} (db : Db)
    → h ≡ h'
    → executed ≡ executed'
    → waiting_at h executed db ≡ waiting_at h' executed' db
same_waiting {h' = h'} {executed = executed} db e e' =
    ap (λ j. waiting_at j executed db) e ∙ ap (λ hs. waiting_at h' hs db) e'

-- A height is taken at a time when some of the messages have come in, this height has been handed
-- over, and the requests of its block are here.
pub record Follows (s : Server) (msgs : List SendingMsg) (h : ℕ) (a : Arrival) : Type 0 where
  pub front : List SendingMsg
  pub back : List SendingMsg
  pub split : front ++ back ≡ msgs
  pub height : a.height ≡ h
  pub logs : a.logs ≡ (deliver_all front s).height2block_log
  pub handed : elem h (deliver_all front s).exec_ch ≡ true
  pub known : all_known (block_at msgs h) a.certs ≡ true

abbrev pub AllFollow : Server → List SendingMsg → ℕ → List Arrival → Type 0
AllFollow s msgs h [] = Unit {0}
AllFollow s msgs h (a ∷ arrivals) = Follows s msgs h a × AllFollow s msgs (suc h) arrivals

module _ {Db : Type 0} (exec_tx_set : Exec Db) where
  -- The blocks of the messages from this height on, run with the requests that are here.
  abbrev pub run_arrivals : List SendingMsg → ℕ → List Arrival → Db → Db
  run_arrivals msgs h [] db = db
  run_arrivals msgs h (a ∷ arrivals) db =
      run_arrivals msgs (suc h) arrivals (run_block exec_tx_set (block_at msgs h) a.certs db)

  exec_loop-next :
      (h : ℕ) (a : Arrival) (reqs : List DuplicatedReqUnit) (executed : List ℕ) (db : Db)
      → IsAgreed h reqs a.logs
      → all_known reqs a.certs ≡ true
      → exec_loop exec_tx_set 2 a.logs a.certs
          (record (waiting_at h executed db) { ahead_set = (h, tt) ∷ [] })
        ≡ ok (
          a.certs,
          waiting_at (suc h) (executed ++ h ∷ []) (run_block exec_tx_set reqs a.certs db),
        )
  unfolding exec_loop delete lookup
  exec_loop-next h a reqs executed db agreed known =
      let e = record (waiting_at h executed db) { ahead_set = (h, tt) ∷ [] } in
      let runnable : IsRunnable a.logs a.certs h = record {
        log = agreed.log;
        there = agreed.there;
        ready = agreed.ready;
        known = rw agreed.same_reqs known;
      } in
      let here : is_some (lookup h e.ahead_set) ≡ true = ground arith in
      let gone : delete h e.ahead_set ≡ [] = ground arith in
      let its_reqs : reqs_at (lookup h a.logs) ≡ reqs = rw agreed.there agreed.same_reqs in
      let after : ran_one exec_tx_set a.logs a.certs e
          ≡ waiting_at (suc h) (executed ++ h ∷ []) (run_block exec_tx_set reqs a.certs db) =
        rw (gone, its_reqs) refl in
      rw (here, exec_loop)
        (rw (exec_round-runs exec_tx_set a.logs a.certs e runnable)
          (ap (exec_loop exec_tx_set 1 a.logs a.certs) after))

  exec_next :
      (h : ℕ) (a : Arrival) (reqs : List DuplicatedReqUnit) (executed : List ℕ) (db : Db)
      → a.height ≡ h
      → IsAgreed h reqs a.logs
      → all_known reqs a.certs ≡ true
      → exec_height exec_tx_set a.height a.logs a.certs (waiting_at h executed db)
        ≡ ok (
          a.certs,
          waiting_at (suc h) (executed ++ h ∷ []) (run_block exec_tx_set reqs a.certs db),
        )
  unfolding exec_height insert
  exec_next h a reqs executed db same agreed known =
      let not_old : ltb h h ≡ false = ground arith in
      ap (λ j. exec_height exec_tx_set j a.logs a.certs (waiting_at h executed db)) same
      ∙ if-false _ _ (ltb h h) not_old
      ∙ exec_loop-next h a reqs executed db agreed known

  -- Heights taken in order, as they are handed over, are run one by one.
  pub exec_all-AllFollow :
      (s : Server) (msgs : List SendingMsg) (h : ℕ) (arrivals : List Arrival) (executed : List ℕ)
      (db : Db)
      → IsFresh s
      → InOrder 0 msgs
      → AllFollow s msgs h arrivals
      → exec_all exec_tx_set arrivals (waiting_at h executed db)
        ≡ ok (
            waiting_at
              (h + length arrivals)
              (executed ++ range h (length arrivals))
              (run_arrivals msgs h arrivals db))
  unfolding exec_all
  exec_all-AllFollow s msgs h [] executed db fresh o follows =
      let same : h ≡ h + 0 = omega arith in ap ok (same_waiting db same (sym (append-nil executed)))
  exec_all-AllFollow s msgs h (a ∷ arrivals) executed db fresh o (f, follows) =
      let agreed : IsAgreed h (block_at msgs h) a.logs =
        rw (f.logs, ← f.split) (handed-IsAgreed s f.front f.back h fresh (rw f.split o) f.handed) in
      let rest =
        exec_all-AllFollow s msgs (suc h) arrivals (executed ++ h ∷ [])
          (run_block exec_tx_set (block_at msgs h) a.certs db) fresh o follows in
      let count : suc h + length arrivals ≡ h + suc (length arrivals) = omega arith in
      ap (◌>>= λ p. exec_all exec_tx_set arrivals p.1)
        (exec_next h a (block_at msgs h) executed db f.height agreed f.known)
      ∙ rest
      ∙ ap ok (
          same_waiting
            (run_arrivals msgs (suc h) arrivals
              (run_block exec_tx_set (block_at msgs h) a.certs db))
            count (append_assoc executed (h ∷ []) (range (suc h) (length arrivals))))

-- The transaction sets of those blocks, as this server has them.
abbrev pub sets_from : List SendingMsg → ℕ → List Arrival → List (List ℕ)
sets_from msgs h [] = []
sets_from msgs h (a ∷ arrivals) =
    block_sets (block_at msgs h) a.certs ++ sets_from msgs (suc h) arrivals

module _ {Db : Type 0} (store : Store Db) (laws : IsStore store) (decode : List ℕ → List Tx)
    (asked : List ℕ) (msgs : List SendingMsg) where
  run_arrivals_lem :
      (h : ℕ) (arrivals : List Arrival) (db : Db)
      → store.get asked (run_arrivals (exec_tx_set store decode) msgs h arrivals db)
        ≡ last_write asked (decoded decode (sets_from msgs h arrivals)) (store.get asked db)
  run_arrivals_lem h [] db = refl
  run_arrivals_lem h (a ∷ arrivals) db =
      let us = block_at msgs h in
      run_arrivals_lem (suc h) arrivals (run_block (exec_tx_set store decode) us a.certs db)
      ∙ ap (last_write asked (decoded decode (sets_from msgs (suc h) arrivals)))
          (run_block_lem store laws decode a.certs asked us db)
      ∙ sym
          (last_write-append asked (decoded decode (block_sets us a.certs)) _ (store.get asked db))
      ∙ ap (λ ops. last_write asked ops (store.get asked db))
          (sym (decoded-append decode (block_sets us a.certs) (sets_from msgs (suc h) arrivals)))

-- Two backups start fresh, over databases that keep what is written and hold the same values, and
-- receive the messages of consecutive blocks in order. Each one's executor takes the heights from block 1 on, each at some
-- time after it has been handed over there, however many messages have come in by then, and when
-- the requests of its block are here; and for the blocks taken the transaction sets are the same
-- at both. Then neither executor panics, each has run the blocks from 1 on in height order, and
-- the two databases hold the same value under every key: the last one that the transactions write,
-- or the old one.
pub backups_agree :
    {Db Db' : Type 0} (store : Store Db) (store' : Store Db') (decode : List ℕ → List Tx)
    (s s' : Server) (msgs : List SendingMsg) (arrivals arrivals' : List Arrival) (db : Db)
    (db' : Db')
    → IsStore store
    → IsStore store'
    → IsFresh s
    → IsFresh s'
    → InOrder 0 msgs
    → AllFollow s msgs 1 arrivals
    → AllFollow s' msgs 1 arrivals'
    → sets_from msgs 1 arrivals ≡ sets_from msgs 1 arrivals'
    → ((asked : List ℕ) → store.get asked db ≡ store'.get asked db')
    → (e : Executor Db) × (e' : Executor Db') × (exec_all
          (exec_tx_set store decode)
          arrivals
          (waiting_at 1 [] db)
        ≡ ok e)
      × (exec_all (exec_tx_set store' decode) arrivals' (waiting_at 1 [] db') ≡ ok e')
      × (e.executed ≡ range 1 (length arrivals))
      × (e'.executed ≡ range 1 (length arrivals'))
      × ((asked : List ℕ) → store.get asked e.db ≡ store'.get asked e'.db)
      × ((asked : List ℕ)
          → store.get asked e.db
            ≡ last_write asked (decoded decode (sets_from msgs 1 arrivals)) (store.get asked db))
backups_agree store store' decode s s' msgs arrivals arrivals' db db' laws laws' fresh fresh' o
      follows follows' sets same =
    let here = λ (asked : List ℕ). run_arrivals_lem store laws decode asked msgs 1 arrivals db in
    let there =
      λ (asked : List ℕ). run_arrivals_lem store' laws' decode asked msgs 1 arrivals' db' in
    (
      waiting_at (1 + length arrivals) (range 1 (length arrivals))
          (run_arrivals (exec_tx_set store decode) msgs 1 arrivals db),
      waiting_at (1 + length arrivals') (range 1 (length arrivals'))
          (run_arrivals (exec_tx_set store' decode) msgs 1 arrivals' db'),
      exec_all-AllFollow (exec_tx_set store decode) s msgs 1 arrivals [] db fresh o follows,
      exec_all-AllFollow (exec_tx_set store' decode) s' msgs 1 arrivals' [] db' fresh' o follows',
      refl,
      refl,
      λ asked.
          here asked
          ∙ ap (λ sets. last_write asked (decoded decode sets) (store.get asked db)) sets
          ∙ ap (last_write asked (decoded decode (sets_from msgs 1 arrivals'))) (same asked)
          ∙ sym (there asked),
      here,
    )
