-- ===== src/Server/Execute.antt =====
-- `execute` of zpbft/server.go: the goroutine that takes heights from `execCh` and runs their blocks
-- in height order. The database and `ExecTxSet` are parameters.
pub mod Order
pub mod Known
pub mod Stall
pub mod Progress
use praft.Prelude.{
  ℕ, zero, suc, ◌+◌, Bool, true, false, not, ◌&&◌, ◌||◌, List, [], ◌∷◌, ◌++◌, Option, none, some,
  is_some, Result, ok, panic, ◌>>=◌, or_panic, nil_dereference, logged_error, out_of_fuel, Map,
  lookup, insert, delete, ltb, length, if◌then◌else◌,
}
use praft.Messages.{DuplicatedReqUnit, RequestArgs}
use praft.BlockLog.{BlockLog}
use praft.Cert.{LogCert, get}
use praft.Server.{get_cert_or_new}

-- `ExecTxSet` on the database: the new database and the number of transactions.
abbrev pub Exec : Type 0 → Type 0
Exec Db = List ℕ → Db → Db × ℕ

-- The variables of the goroutine. `ahead_set` holds the heights that have come ahead of their turn,
-- and `executed` the heights of the lines that the loop logs after it has run a block, oldest first.
pub record Executor (Db : Type 0) : Type 0 where
  pub cur_exec_height : ℕ
  pub ahead_set : Map (Unit {0})
  pub db : Db
  pub executed : List ℕ

-- `s.getCertOrNew(dupReq.Seq).get()`, as far as its request.
unfoldable pub req_of : ℕ → Map LogCert → Map LogCert × Option RequestArgs
unfolding get_cert_or_new get
req_of seq certs = let (certs', cert) = get_cert_or_new seq certs in (certs', (get cert).req)

-- Lines 724 to 733: are all requests here? A certificate is made for each that is not known.
unfoldable pub scan_reqs : List DuplicatedReqUnit → Map LogCert → Bool → Map LogCert × Bool
unfolding req_of
scan_reqs [] certs can_exec = (certs, can_exec)
scan_reqs (u ∷ us) certs can_exec =
    let (certs', req) = req_of u.seq certs in scan_reqs us certs' (is_some req && can_exec)

module _ {Db : Type 0} (exec_tx_set : Exec Db) where
  -- Lines 742 to 747.
  unfoldable pub exec_reqs : List DuplicatedReqUnit → Map LogCert → Db → Result (Map LogCert × Db)
  unfolding req_of
  exec_reqs [] certs db = ok (certs, db)
  exec_reqs (u ∷ us) certs db =
      let (certs', found) = req_of u.seq certs in
      or_panic found nil_dereference >>= λ req.
      exec_reqs us certs' (exec_tx_set req.req.tx_set db).0

  -- One round of the inner loop at a height that is in `ahead_set`, lines 712 to 752.
  unfoldable pub exec_round :
      Map BlockLog → Map LogCert → Executor Db → Result (Map LogCert × Executor Db)
  unfolding scan_reqs exec_reqs
  exec_round logs certs e = or_panic (lookup e.cur_exec_height logs) logged_error >>= λ b.
      (let taken = record e { ahead_set = delete e.cur_exec_height e.ahead_set } in
        let scan = scan_reqs b.duplicated_reqs certs true in
        let run = exec_reqs b.duplicated_reqs scan.0 e.db >>= λ done. ok (
          done.0,
          record taken {
            db = done.1;
            executed = e.executed ++ e.cur_exec_height ∷ [];
            cur_exec_height = suc e.cur_exec_height;
          },
        ) in
        if b.prepared && b.committed
        then (if scan.1 then run else ok (scan.0, taken))
        else panic logged_error)

  -- The inner loop.
  unfoldable pub exec_loop :
      ℕ → Map BlockLog → Map LogCert → Executor Db → Result (Map LogCert × Executor Db)
  unfolding exec_round
  exec_loop zero logs certs e = panic out_of_fuel
  exec_loop (suc fuel) logs certs e = elim (is_some (lookup e.cur_exec_height e.ahead_set)) [
    | true ↦ exec_round logs certs e >>= λ r. exec_loop fuel logs r.0 r.1
    | false ↦ ok (certs, e)
  ]

  -- What the goroutine does with a height: one more round than there are heights to take is enough.
  unfoldable pub exec_height :
      ℕ → Map BlockLog → Map LogCert → Executor Db → Result (Map LogCert × Executor Db)
  unfolding exec_loop
  exec_height height logs certs e =
      if ltb height e.cur_exec_height
      then ok (certs, e)
      else (let ahead = insert height tt e.ahead_set in
          exec_loop (suc (length ahead)) logs certs (record e { ahead_set = ahead }))
