-- ===== src/Ycsb/Replicas.antt =====
-- Two servers that run the same blocks, each over its own database.
use praft.Prelude.{
  ℕ, zero, suc, ◌≡◌, refl, sym, ap, ◌∙◌, List, [], ◌∷◌, ◌++◌, append_assoc, Map, lookup,
}
use praft.Messages.{DuplicatedReqUnit}
use praft.BlockLog.{BlockLog}
use praft.Cert.{LogCert}
use praft.Server.Execute.{Executor}
use praft.Server.Execute.Known.{tx_set_of, req_at, run_block}
use praft.Server.Execute.Progress.{HasRun, reqs_at, run_blocks}
use praft.Ycsb.{Store, Op, Tx, exec_tx_set}
use praft.Ycsb.Writes.{IsStore, last_write, last_write-append, ops_of, exec_tx_set_lem}

-- The transaction sets of a block's requests, in order.
abbrev pub block_sets : List DuplicatedReqUnit → Map LogCert → List (List ℕ)
block_sets [] certs = []
block_sets (u ∷ us) certs = tx_set_of (req_at (lookup u.seq certs)) ∷ block_sets us certs

-- Those of the blocks `from`, `from + 1`, ..., `n` of them, as this server has them.
abbrev pub sets_of : Map BlockLog → Map LogCert → ℕ → ℕ → List (List ℕ)
sets_of logs certs from zero = []
sets_of logs certs from (suc n) =
    block_sets (reqs_at (lookup from logs)) certs ++ sets_of logs certs (suc from) n

-- The operations of transaction sets.
abbrev pub decoded : (List ℕ → List Tx) → List (List ℕ) → List Op
decoded decode [] = []
decoded decode (tx_set ∷ tx_sets) = ops_of (decode tx_set) ++ decoded decode tx_sets

pub decoded-append :
    (decode : List ℕ → List Tx) (front back : List (List ℕ))
    → decoded decode (front ++ back) ≡ decoded decode front ++ decoded decode back
decoded-append decode [] back = refl
decoded-append decode (tx_set ∷ front) back =
    ap (ops_of (decode tx_set) ++◌) (decoded-append decode front back)
    ∙ sym (append_assoc (ops_of (decode tx_set)) (decoded decode front) (decoded decode back))

module _ {Db : Type 0} (store : Store Db) (laws : IsStore store) (decode : List ℕ → List Tx)
    (certs : Map LogCert) (asked : List ℕ) where
  pub run_block_lem :
      (us : List DuplicatedReqUnit) (db : Db)
      → store.get asked (run_block (exec_tx_set store decode) us certs db)
        ≡ last_write asked (decoded decode (block_sets us certs)) (store.get asked db)
  run_block_lem [] db = refl
  run_block_lem (u ∷ us) db =
      let tx_set = tx_set_of (req_at (lookup u.seq certs)) in
      run_block_lem us (exec_tx_set store decode tx_set db).0
      ∙ ap (last_write asked (decoded decode (block_sets us certs)))
          (exec_tx_set_lem store laws asked decode tx_set db)
      ∙ sym (last_write-append asked (ops_of (decode tx_set)) _ (store.get asked db))

  -- After blocks have run, a key holds the last value that their transactions write to it.
  pub run_blocks_lem :
      (logs : Map BlockLog) (n from : ℕ) (db : Db)
      → store.get asked (run_blocks (exec_tx_set store decode) logs certs from n db)
        ≡ last_write asked (decoded decode (sets_of logs certs from n)) (store.get asked db)
  run_blocks_lem logs zero from db = refl
  run_blocks_lem logs (suc n) from db =
      let us = reqs_at (lookup from logs) in
      run_blocks_lem logs n (suc from) (run_block (exec_tx_set store decode) us certs db)
      ∙ ap (last_write asked (decoded decode (sets_of logs certs (suc from) n)))
          (run_block_lem us db)
      ∙ sym (last_write-append asked (decoded decode (block_sets us certs)) _ (store.get asked db))
      ∙ ap (λ ops. last_write asked ops (store.get asked db))
          (sym (decoded-append decode (block_sets us certs) (sets_of logs certs (suc from) n)))

-- Two servers, each with its own logs, certificates and database, whose executors have run the same number
-- of blocks from the same height on: if those blocks hold the same transaction sets at both, and a
-- key held the same value in both databases before, then it holds the same value in both
-- afterwards, the last one that the transactions write to it, or the old one.
pub replicas_agree :
    {Db Db' : Type 0} (store : Store Db) (store' : Store Db') (decode : List ℕ → List Tx)
    (logs logs' : Map BlockLog) (certs certs' : Map LogCert) (n : ℕ) (e f : Executor Db)
    (e' f' : Executor Db') (asked : List ℕ)
    → IsStore store
    → IsStore store'
    → HasRun (exec_tx_set store decode) logs certs n e f
    → HasRun (exec_tx_set store' decode) logs' certs' n e' f'
    → e.cur_exec_height ≡ e'.cur_exec_height
    → sets_of logs certs e.cur_exec_height n ≡ sets_of logs' certs' e'.cur_exec_height n
    → store.get asked e.db ≡ store'.get asked e'.db
    → (store.get asked f.db ≡ store'.get asked f'.db)
      × (store.get asked f.db
          ≡ last_write asked
              (decoded decode (sets_of logs certs e.cur_exec_height n))
              (store.get asked e.db))
replicas_agree store store' decode logs logs' certs certs' n e f e' f' asked laws laws' r r' height
      sets old =
    let here =
      ap (store.get asked) r.database
      ∙ run_blocks_lem store laws decode certs asked logs n e.cur_exec_height e.db in
    let there =
      ap (store'.get asked) r'.database
      ∙ run_blocks_lem store' laws' decode certs' asked logs' n e'.cur_exec_height e'.db in
    (
      here
          ∙ ap (λ tx_sets. last_write asked (decoded decode tx_sets) (store.get asked e.db)) sets
          ∙ ap (last_write asked (decoded decode (sets_of logs' certs' e'.cur_exec_height n))) old
          ∙ sym there,
      here,
    )
