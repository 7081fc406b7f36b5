-- ===== src/Server/Execute/Stall.antt =====
-- A height whose requests are not here when its turn comes: the loop deletes it from `aheadSet`
-- before it looks, and then waits for it in `aheadSet`.
use praft.Prelude.{
  ℕ, suc, ◌≡◌, refl, ◌∙◌, sym, subst, ◌≢◌, true, false, ◌&&◌, List, [], ◌∷◌, none, some, is_some,
  ok, Map, lookup, insert, delete, arith, lookup-insert, lookup-insert_self, lookup-delete,
  length-delete-lt, length, ◌-◌, ltb, Bool-cases, inl, inr,
}
use praft.BlockLog.{BlockLog}
use praft.Cert.{LogCert}
use praft.Server.Execute.{Exec, Executor, scan_reqs, exec_round, exec_loop, exec_height}
use praft.Server.Execute.Order.{Arrival, exec_all}
use praft.Server.Execute.Known.{all_known, scan_reqs-all_known}

-- None of the heights that come is this one.
abbrev pub NeverAgain : ℕ → List Arrival → Type 0
NeverAgain h [] = Unit {0}
NeverAgain h (a ∷ as') = (a.height ≢ h) × NeverAgain h as'

module _ {Db : Type 0} (exec_tx_set : Exec Db) where
  -- The current height is not in the set, so the loop has nothing to do.
  exec_loop-waits :
      (fuel : ℕ) (logs : Map BlockLog) (certs : Map LogCert) (e : Executor Db)
      → lookup e.cur_exec_height e.ahead_set ≡ none
      → exec_loop exec_tx_set (suc fuel) logs certs e ≡ ok (certs, e)
  unfolding exec_loop
  exec_loop-waits fuel logs certs e h = rw (h, exec_loop) refl

  -- Taking out a height whose requests are not all here.
  exec_round-misses :
      (logs : Map BlockLog) (certs : Map LogCert) (e : Executor Db) (b : BlockLog)
      → lookup e.cur_exec_height logs ≡ some b
      → (b.prepared && b.committed) ≡ true
      → all_known b.duplicated_reqs certs ≡ false
      → exec_round exec_tx_set logs certs e
        ≡ ok (
          (scan_reqs b.duplicated_reqs certs true).0,
          record e { ahead_set = delete e.cur_exec_height e.ahead_set },
        )
  unfolding exec_round
  exec_round-misses logs certs e b there ready unknown =
      rw (there, ready, scan_reqs-all_known b.duplicated_reqs certs true, unknown) refl

  -- The goroutine stays at its height, having run nothing.
  record IsWaiting (e e' : Executor Db) : Type 0 where
    same_height : e'.cur_exec_height ≡ e.cur_exec_height
    same_executed : e'.executed ≡ e.executed
    same_db : e'.db ≡ e.db
    not_ahead : lookup e'.cur_exec_height e'.ahead_set ≡ none

  exec_loop-misses :
      (fuel n : ℕ) (logs : Map BlockLog) (certs : Map LogCert) (e : Executor Db) (b : BlockLog)
      → fuel ≡ suc n
      → is_some (lookup e.cur_exec_height e.ahead_set) ≡ true
      → lookup e.cur_exec_height logs ≡ some b
      → (b.prepared && b.committed) ≡ true
      → all_known b.duplicated_reqs certs ≡ false
      → exec_loop exec_tx_set (suc fuel) logs certs e
        ≡ ok (
          (scan_reqs b.duplicated_reqs certs true).0,
          record e { ahead_set = delete e.cur_exec_height e.ahead_set },
        )
  unfolding exec_loop
  exec_loop-misses fuel n logs certs e b ef present there ready unknown =
      rw (present, exec_loop)
        (rw (exec_round-misses logs certs e b there ready unknown, ef)
          (exec_loop-waits n logs _ (record e { ahead_set = delete e.cur_exec_height e.ahead_set })
            (ground (arith, lookup-delete e.cur_exec_height e.cur_exec_height e.ahead_set))))

  exec_height-misses :
      (logs : Map BlockLog) (certs : Map LogCert) (e : Executor Db) (b : BlockLog)
      → lookup e.cur_exec_height logs ≡ some b
      → (b.prepared && b.committed) ≡ true
      → all_known b.duplicated_reqs certs ≡ false
      → (p : Map LogCert × Executor Db) × (exec_height exec_tx_set e.cur_exec_height logs certs e
          ≡ ok p)
        × IsWaiting e p.1
  unfolding exec_height
  exec_height-misses logs certs e b there ready unknown =
      let ahead : Map (Unit {0}) = insert e.cur_exec_height tt e.ahead_set in
      let present : is_some (lookup e.cur_exec_height ahead) ≡ true =
        rw (lookup-insert_self e.cur_exec_height tt e.ahead_set) refl in
      let not_old : ltb e.cur_exec_height e.cur_exec_height ≡ false = ground arith in
      (
        (
          (scan_reqs b.duplicated_reqs certs true).0,
          record e { ahead_set = delete e.cur_exec_height ahead },
        ),
        rw not_old (
            exec_loop-misses (length ahead) (length ahead - 1) logs certs
              (record e { ahead_set = ahead }) b
              (omega (arith, length-delete-lt e.cur_exec_height ahead present)) present there ready
              unknown),
        record {
          same_height = refl;
          same_executed = refl;
          same_db = refl;
          not_ahead = ground (arith, lookup-delete e.cur_exec_height e.cur_exec_height ahead);
        },
      )

  exec_height-passes :
      (a : Arrival) (e : Executor Db)
      → lookup e.cur_exec_height e.ahead_set ≡ none
      → a.height ≢ e.cur_exec_height
      → (p : Map LogCert × Executor Db) × (exec_height exec_tx_set a.height a.logs a.certs e ≡ ok p)
        × IsWaiting e p.1
  unfolding exec_height
  exec_height-passes a e h ne = elim (Bool-cases (ltb a.height e.cur_exec_height)) [
    | inl old ↦ (
      (a.certs, e),
      rw old refl,
      record { same_height = refl; same_executed = refl; same_db = refl; not_ahead = h },
    )
    | inr new ↦
        let e' : Executor Db = record e { ahead_set = insert a.height tt e.ahead_set } in
        let h' : lookup e.cur_exec_height (insert a.height tt e.ahead_set) ≡ none =
          ground (arith, lookup-insert a.height e.cur_exec_height tt e.ahead_set) in
        (
          (a.certs, e'),
          rw new (exec_loop-waits _ a.logs a.certs e' h'),
          record { same_height = refl; same_executed = refl; same_db = refl; not_ahead = h' },
        )
  ]

  exec_all-waits :
      (later : List Arrival) (e : Executor Db)
      → lookup e.cur_exec_height e.ahead_set ≡ none
      → NeverAgain e.cur_exec_height later
      → (e' : Executor Db) × (exec_all exec_tx_set later e ≡ ok e') × IsWaiting e e'
  unfolding exec_all
  exec_all-waits [] e h n =
      (e, refl, record { same_height = refl; same_executed = refl; same_db = refl; not_ahead = h })
  exec_all-waits (a ∷ later) e h n =
      let (p, step, w) = exec_height-passes a e h n.0 in
      let (e', run, w') =
        exec_all-waits later p.1 w.not_ahead
          (subst (λ (j : ℕ). NeverAgain j later) (sym w.same_height) n.1) in
      (
        e',
        rw step run,
        record {
          same_height = w'.same_height ∙ w.same_height;
          same_executed = w'.same_executed ∙ w.same_executed;
          same_db = w'.same_db ∙ w.same_db;
          not_ahead = w'.not_ahead;
        },
      )

  -- If the current height comes while a request of its block is not here (its log being prepared and
  -- committed), then whatever heights come later, with whatever logs and certificates, as long as
  -- this one does not come again (and `Receiving` and the replies send it once only), the goroutine
  -- goes on without a panic and never runs that block or any other, even if the request has arrived.
  pub missing_request_stalls :
      (certs : Map LogCert) (logs : Map BlockLog) (e : Executor Db) (b : BlockLog)
      (later : List Arrival)
      → lookup e.cur_exec_height logs ≡ some b
      → (b.prepared && b.committed) ≡ true
      → all_known b.duplicated_reqs certs ≡ false
      → NeverAgain e.cur_exec_height later
      → let now : Arrival = record { height = e.cur_exec_height; logs = logs; certs = certs } in
        (e' : Executor Db) × (exec_all exec_tx_set (now ∷ later) e ≡ ok e')
        × (e'.cur_exec_height ≡ e.cur_exec_height)
        × (e'.executed ≡ e.executed)
        × (e'.db ≡ e.db)
  unfolding exec_all
  missing_request_stalls certs logs e b later there ready unknown n =
      let (p, step, w) = exec_height-misses logs certs e b there ready unknown in
      let (e', run, w') =
        exec_all-waits later p.1 w.not_ahead
          (subst (λ (j : ℕ). NeverAgain j later) (sym w.same_height) n) in
      (
        e',
        rw step run,
        w'.same_height ∙ w.same_height,
        w'.same_executed ∙ w.same_executed,
        w'.same_db ∙ w.same_db,
      )
