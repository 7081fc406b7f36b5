-- ===== src/Server/Execute/Progress.antt =====
-- A height that comes when its block and those waiting behind it can run: the executor catches up.
use praft.Prelude.{
  ℕ, zero, suc, ◌+◌, ◌≤◌, ◌<◌, ◌≡◌, refl, ◌∙◌, sym, ◌≢◌, ◌⊎◌, true, false, ◌&&◌, List, [], ◌∷◌,
  ◌++◌, ap, Option, none, some, is_some, ok, Map, lookup, insert, delete, arith, lookup-insert,
  lookup-delete, length-delete-lt, length, ltb, range, append_assoc, append-nil,
}
use native.Mathlib.Nat.{add-zero}
use praft.Messages.{DuplicatedReqUnit}
use praft.BlockLog.{BlockLog}
use praft.Cert.{LogCert}
use praft.Server.Execute.{Exec, Executor, exec_round, exec_loop, exec_height}
use praft.Server.Execute.Known.{
  all_known, run_block, scan_reqs-all_known, scan_reqs-known, exec_reqs-run_block,
}

-- The block of this height is agreed on and all its requests are here.
pub record IsRunnable (logs : Map BlockLog) (certs : Map LogCert) (h : ℕ) : Type 0 where
  pub log : BlockLog
  pub there : lookup h logs ≡ some log
  pub ready : (log.prepared && log.committed) ≡ true
  pub known : all_known log.duplicated_reqs certs ≡ true

abbrev pub reqs_at : Option BlockLog → List DuplicatedReqUnit
reqs_at none = []
reqs_at (some b) = b.duplicated_reqs

-- The database after the blocks of heights `from`, `from + 1`, ..., `n` of them, in this order.
abbrev pub run_blocks : {Db : Type 0} → Exec Db → Map BlockLog → Map LogCert → ℕ → ℕ → Db → Db
run_blocks exec_tx_set logs certs from zero db = db
run_blocks exec_tx_set logs certs from (suc n) db =
    run_blocks exec_tx_set logs certs (suc from) n
      (run_block exec_tx_set (reqs_at (lookup from logs)) certs db)

module _ {Db : Type 0} (exec_tx_set : Exec Db) (logs : Map BlockLog) (certs : Map LogCert) where
  abbrev pub ran_one : Executor Db → Executor Db
  ran_one e = record {
    cur_exec_height = suc e.cur_exec_height;
    ahead_set = delete e.cur_exec_height e.ahead_set;
    db = run_block exec_tx_set (reqs_at (lookup e.cur_exec_height logs)) certs e.db;
    executed = e.executed ++ e.cur_exec_height ∷ [];
  }

  pub exec_round-runs :
      (e : Executor Db)
      → IsRunnable logs certs e.cur_exec_height
      → exec_round exec_tx_set logs certs e ≡ ok (certs, ran_one e)
  unfolding exec_round
  exec_round-runs e r =
      rw
        (
          r.there,
          r.ready,
          scan_reqs-all_known r.log.duplicated_reqs certs true,
          r.known,
          scan_reqs-known r.log.duplicated_reqs certs r.known,
          exec_reqs-run_block exec_tx_set r.log.duplicated_reqs certs e.db r.known,
        )
        refl

  -- The goroutine after `n` blocks more than before.
  pub record HasRun (n : ℕ) (e e' : Executor Db) : Type 0 where
    pub height : e'.cur_exec_height ≡ e.cur_exec_height + n
    pub heights_run : e'.executed ≡ e.executed ++ range e.cur_exec_height n
    pub database : e'.db ≡ run_blocks exec_tx_set logs certs e.cur_exec_height n e.db

  next_stop :
      (e : Executor Db) (n : ℕ)
      → lookup (e.cur_exec_height + suc n) e.ahead_set ≡ none
      → lookup (suc e.cur_exec_height + n) e.ahead_set ≡ none
  next_stop e n h =
      let same : suc e.cur_exec_height + n ≡ e.cur_exec_height + suc n = omega arith in
      ap (λ (j : ℕ). lookup j e.ahead_set) same ∙ h

  exec_loop-runs :
      (n fuel : ℕ) (e : Executor Db)
      → length e.ahead_set < fuel
      → ((j : ℕ)
          → e.cur_exec_height ≤ j
          → j < e.cur_exec_height + n
          → is_some (lookup j e.ahead_set) ≡ true)
      → lookup (e.cur_exec_height + n) e.ahead_set ≡ none
      → ((j : ℕ) → e.cur_exec_height ≤ j → j < e.cur_exec_height + n → IsRunnable logs certs j)
      → (e' : Executor Db) × (exec_loop exec_tx_set fuel logs certs e ≡ ok (certs, e'))
        × HasRun n e e'
  unfolding exec_loop
  exec_loop-runs n zero e lt ahead stop run = absurd (omega arith)
  exec_loop-runs zero (suc fuel) e lt ahead stop run =
      let stop' : lookup e.cur_exec_height e.ahead_set ≡ none =
        ap (λ (j : ℕ). lookup j e.ahead_set) (sym (add-zero e.cur_exec_height)) ∙ stop in
      (
        e,
        rw (stop', exec_loop) refl,
        record { height = omega arith; heights_run = sym (append-nil e.executed); database = refl },
      )
  exec_loop-runs (suc n) (suc fuel) e lt ahead stop run =
      let here : is_some (lookup e.cur_exec_height e.ahead_set) ≡ true =
        ahead e.cur_exec_height (omega arith) (omega arith) in
      let (e', eq, h) =
        exec_loop-runs n fuel (ran_one e)
          (omega (arith, length-delete-lt e.cur_exec_height e.ahead_set here))
          (λ j le lt'. ground (arith, lookup-delete e.cur_exec_height j e.ahead_set, ahead j))
          (ground (
            arith,
            lookup-delete e.cur_exec_height (suc e.cur_exec_height + n) e.ahead_set,
            next_stop e n stop,
          ))
          (λ j le lt'. run j (omega arith) (omega arith)) in
      (
        e',
        rw (here, exec_loop)
            (rw (exec_round-runs e (run e.cur_exec_height (omega arith) (omega arith))) eq),
        record {
          height = h.height ∙ omega arith;
          heights_run = h.heights_run ∙ append_assoc e.executed (e.cur_exec_height ∷ []) _;
          database = h.database;
        },
      )

  -- A height that has not been run comes, such that `n` heights in a row from the current one on,
  -- and not the next one after them, have come by then: if each of their blocks is prepared and
  -- committed and all its requests are here, then the goroutine runs exactly these `n` blocks, in
  -- height order, and the database is the one that they give.
  pub exec_height-HasRun :
      (height n : ℕ) (e : Executor Db)
      → e.cur_exec_height ≤ height
      → ((j : ℕ)
          → e.cur_exec_height ≤ j
          → j < e.cur_exec_height + n
          → (j ≡ height) ⊎ (is_some (lookup j e.ahead_set) ≡ true))
      → e.cur_exec_height + n ≢ height
      → lookup (e.cur_exec_height + n) e.ahead_set ≡ none
      → ((j : ℕ) → e.cur_exec_height ≤ j → j < e.cur_exec_height + n → IsRunnable logs certs j)
      → (e' : Executor Db) × (exec_height exec_tx_set height logs certs e ≡ ok (certs, e'))
        × HasRun n e e'
  unfolding exec_height
  exec_height-HasRun height n e le came ne stop run =
      let not_old : ltb height e.cur_exec_height ≡ false = ground arith in
      let (e', eq, h) =
        exec_loop-runs n (suc (length (insert height tt e.ahead_set)))
          (record e { ahead_set = insert height tt e.ahead_set }) (omega arith)
          (λ j le' lt. ground (arith, lookup-insert height j tt e.ahead_set, came j))
          (ground (arith, lookup-insert height (e.cur_exec_height + n) tt e.ahead_set)) run in
      (
        e',
        rw not_old eq,
        record { height = h.height; heights_run = h.heights_run; database = h.database },
      )
