-- ===== src/Server/Execute/Order.antt =====
-- The executor runs the blocks in height order without a gap, and its inner loop ends.
use praft.Prelude.{
  ℕ, zero, suc, ◌<◌, ◌≡◌, refl, ap, subst, ◌≢◌, or_panic, ◌&&◌, ◌⊎◌, inl, inr, Bool, true, false,
  List, [], ◌∷◌, ◌++◌, Option, none, some, is_some, Result, ok, panic, ◌>>=◌, >>=-eq-ok,
  nil_dereference, logged_error, out_of_fuel, Map, lookup, insert, delete, length, range, range-suc,
  arith, Bool-cases, length-delete-lt, if◌then◌else◌, ltb,
}
use praft.Messages.{DuplicatedReqUnit, RequestArgs}
use praft.BlockLog.{BlockLog}
use praft.Cert.{LogCert}
use praft.Server.Execute.{
  Exec, Executor, req_of, scan_reqs, exec_reqs, exec_round, exec_loop, exec_height,
}

-- Every height below the current one has been run, once and in order.
pub record InTurn {Db : Type 0} (e : Executor Db) : Type 0 where
  pub count : ℕ
  pub next_height : e.cur_exec_height ≡ suc count
  pub in_turn : e.executed ≡ range 1 count

-- A height that comes with the state of the server at that time.
pub record Arrival : Type 0 where
  pub height : ℕ
  pub logs : Map BlockLog
  pub certs : Map LogCert

module _ {Db : Type 0} (exec_tx_set : Exec Db) where
  -- A round that does not panic has taken the current height out of the set, and has either run the
  -- block of that height or left everything else as it was.
  data RoundOutcome (e : Executor Db) (r : Result (Map LogCert × Executor Db)) : Type 0 where
    ran :
        (certs : Map LogCert) (db : Db)
        → r
          ≡ ok (
            certs,
            record {
              cur_exec_height = suc e.cur_exec_height;
              ahead_set = delete e.cur_exec_height e.ahead_set;
              db = db;
              executed = e.executed ++ e.cur_exec_height ∷ [];
            },
          )
        → RoundOutcome e r
    missing :
        (certs : Map LogCert)
        → r ≡ ok (certs, record e { ahead_set = delete e.cur_exec_height e.ahead_set })
        → RoundOutcome e r
    no_log : r ≡ panic logged_error → RoundOutcome e r
    no_request : r ≡ panic nil_dereference → RoundOutcome e r

  -- Running the requests succeeds or meets a certificate without a request.
  abbrev RunOutcome : Result (Map LogCert × Db) → Type 0
  RunOutcome r = ((d : Map LogCert × Db) × (r ≡ ok d)) ⊎ (r ≡ panic nil_dereference)

  or_panic-RunOutcome :
      (o : Option RequestArgs) (f : RequestArgs → Result (Map LogCert × Db))
      → ((req : RequestArgs) → RunOutcome (f req))
      → RunOutcome (or_panic o nil_dereference >>= f)
  or_panic-RunOutcome none f h = inr refl
  or_panic-RunOutcome (some req) f h = h req

  exec_reqs-cases :
      (us : List DuplicatedReqUnit) (certs : Map LogCert) (db : Db)
      → RunOutcome (exec_reqs exec_tx_set us certs db)
  unfolding exec_reqs
  exec_reqs-cases [] certs db = inl ((certs, db), refl)
  exec_reqs-cases (u ∷ us) certs db =
      or_panic-RunOutcome (req_of u.seq certs).1 _
        (λ req. exec_reqs-cases us (req_of u.seq certs).0 (exec_tx_set req.req.tx_set db).0)

  or_panic-RoundOutcome :
      (e : Executor Db) (o : Option BlockLog) (f : BlockLog → Result (Map LogCert × Executor Db))
      → ((b : BlockLog) → RoundOutcome e (f b))
      → RoundOutcome e (or_panic o logged_error >>= f)
  or_panic-RoundOutcome e none f h = no_log refl
  or_panic-RoundOutcome e (some b) f h = h b

  if-RoundOutcome :
      (e : Executor Db) (b : Bool) (x y : Result (Map LogCert × Executor Db))
      → RoundOutcome e x
      → RoundOutcome e y
      → RoundOutcome e (if b then x else y)
  if-RoundOutcome e true x y hx hy = hx
  if-RoundOutcome e false x y hx hy = hy

  run-RoundOutcome :
      (e : Executor Db) (r : Result (Map LogCert × Db))
      → RunOutcome r
      → RoundOutcome e (
          r >>= λ done. ok (
            done.0,
            record {
              cur_exec_height = suc e.cur_exec_height;
              ahead_set = delete e.cur_exec_height e.ahead_set;
              db = done.1;
              executed = e.executed ++ e.cur_exec_height ∷ [];
            },
          ))
  run-RoundOutcome e r (inl (d, eq)) = rw eq (ran d.0 d.1 refl)
  run-RoundOutcome e r (inr eq) = rw eq (no_request refl)

  exec_round-cases :
      (logs : Map BlockLog) (certs : Map LogCert) (e : Executor Db)
      → RoundOutcome e (exec_round exec_tx_set logs certs e)
  unfolding exec_round
  exec_round-cases logs certs e = or_panic-RoundOutcome e (lookup e.cur_exec_height logs) _ (λ b.
      if-RoundOutcome e (b.prepared && b.committed) _ _
        (if-RoundOutcome e (scan_reqs b.duplicated_reqs certs true).1 _ _
          (run-RoundOutcome e _
            (exec_reqs-cases b.duplicated_reqs (scan_reqs b.duplicated_reqs certs true).0 e.db))
          (missing (scan_reqs b.duplicated_reqs certs true).0 refl))
        (no_log refl))

  -- The loop ends before its fuel does, as each round takes a height out of the set.
  round-has_fuel :
      (fuel : ℕ) (logs : Map BlockLog) (e : Executor Db) (r : Result (Map LogCert × Executor Db))
      → RoundOutcome e r
      → ((certs : Map LogCert) (e' : Executor Db)
          → e'.ahead_set ≡ delete e.cur_exec_height e.ahead_set
          → exec_loop exec_tx_set fuel logs certs e' ≢ panic out_of_fuel)
      → (r >>= λ p. exec_loop exec_tx_set fuel logs p.0 p.1) ≢ panic out_of_fuel
  round-has_fuel fuel logs e r (ran certs db eq) h = rw eq (h certs _ refl)
  round-has_fuel fuel logs e r (missing certs eq) h = rw eq (h certs _ refl)
  round-has_fuel fuel logs e r (no_log eq) h = rw eq (λ c. cc)
  round-has_fuel fuel logs e r (no_request eq) h = rw eq (λ c. cc)

  exec_loop-has_fuel :
      (fuel : ℕ) (logs : Map BlockLog) (certs : Map LogCert) (e : Executor Db)
      → length e.ahead_set < fuel
      → exec_loop exec_tx_set fuel logs certs e ≢ panic out_of_fuel
  unfolding exec_loop
  exec_loop-has_fuel zero logs certs e lt = absurd (omega arith)
  exec_loop-has_fuel (suc fuel) logs certs e lt =
      elim (Bool-cases (is_some (lookup e.cur_exec_height e.ahead_set))) [
        | inl ahead ↦
            rw (ahead, exec_loop)
              (round-has_fuel fuel logs e _ (exec_round-cases logs certs e) (λ certs' e' eq.
                exec_loop-has_fuel fuel logs certs' e'
                  (rw eq (omega (arith, length-delete-lt e.cur_exec_height e.ahead_set ahead)))))
        | inr waits ↦ rw (waits, exec_loop) (λ c. cc)
      ]

  -- Whatever the logs and certificates are, the inner loop ends within the fuel that it is given.
  pub exec_height-has_fuel :
      (height : ℕ) (logs : Map BlockLog) (certs : Map LogCert) (e : Executor Db)
      → exec_height exec_tx_set height logs certs e ≢ panic out_of_fuel
  unfolding exec_height
  exec_height-has_fuel height logs certs e = elim (Bool-cases (ltb height e.cur_exec_height)) [
    | inl old ↦ rw old (λ c. cc)
    | inr new ↦ rw new (
        exec_loop-has_fuel (suc (length (insert height tt e.ahead_set))) logs certs
          (record e { ahead_set = insert height tt e.ahead_set }) (omega arith))
  ]

  round-InTurn :
      (e : Executor Db) (r : Result (Map LogCert × Executor Db)) (p : Map LogCert × Executor Db)
      → RoundOutcome e r
      → r ≡ ok p
      → InTurn e
      → InTurn p.1
  round-InTurn e r p (ran certs db eq) h v =
      let same : ◌≡◌ {A = Map LogCert × Executor Db}
          (
            certs,
            record {
              cur_exec_height = suc e.cur_exec_height;
              ahead_set = delete e.cur_exec_height e.ahead_set;
              db = db;
              executed = e.executed ++ e.cur_exec_height ∷ [];
            },
          )
          p =
        cc in
      subst (λ (q : Map LogCert × Executor Db). InTurn q.1) same
        (record {
          count = suc v.count;
          next_height = ap suc v.next_height;
          in_turn = rw (v.in_turn, v.next_height) (ground (arith, range-suc 1 v.count));
        })
  round-InTurn e r p (missing certs eq) h v =
      let same : ◌≡◌ {A = Map LogCert × Executor Db}
          (certs, record e { ahead_set = delete e.cur_exec_height e.ahead_set }) p =
        cc in
      subst (λ (q : Map LogCert × Executor Db). InTurn q.1) same
        (record { count = v.count; next_height = v.next_height; in_turn = v.in_turn })
  round-InTurn e r p (no_log eq) h v = cc
  round-InTurn e r p (no_request eq) h v = cc

  exec_loop-InTurn :
      (fuel : ℕ) (logs : Map BlockLog) (certs : Map LogCert) (e : Executor Db)
      (p : Map LogCert × Executor Db)
      → exec_loop exec_tx_set fuel logs certs e ≡ ok p
      → InTurn e
      → InTurn p.1
  unfolding exec_loop
  exec_loop-InTurn zero logs certs e p h v = cc
  exec_loop-InTurn (suc fuel) logs certs e p h v =
      elim (Bool-cases (is_some (lookup e.cur_exec_height e.ahead_set))) [
        | inl ahead ↦
            let (q, round, rest) =
              >>=-eq-ok (exec_round exec_tx_set logs certs e)
                (λ r. exec_loop exec_tx_set fuel logs r.0 r.1) (rw (ahead, exec_loop) at h) in
            exec_loop-InTurn fuel logs q.0 q.1 p rest
              (round-InTurn e _ q (exec_round-cases logs certs e) round v)
        | inr waits ↦
            let same : ◌≡◌ {A = Map LogCert × Executor Db} (certs, e) p =
              (let h' = rw (waits, exec_loop) at h in cc) in
            subst (λ (q : Map LogCert × Executor Db). InTurn q.1) same v
      ]

  -- The goroutine over the heights that come, while the rest of the server goes on in between.
  unfoldable pub exec_all : List Arrival → Executor Db → Result (Executor Db)
  unfolding exec_height
  exec_all [] e = ok e
  exec_all (a ∷ as') e = exec_height exec_tx_set a.height a.logs a.certs e >>= λ p. exec_all as' p.1

  exec_height-InTurn :
      (a : Arrival) (e : Executor Db) (p : Map LogCert × Executor Db)
      → exec_height exec_tx_set a.height a.logs a.certs e ≡ ok p
      → InTurn e
      → InTurn p.1
  unfolding exec_height
  exec_height-InTurn a e p h v = elim (Bool-cases (ltb a.height e.cur_exec_height)) [
    | inl old ↦
        let same : ◌≡◌ {A = Map LogCert × Executor Db} (a.certs, e) p =
          (let h' = rw old at h in cc) in
        subst (λ (q : Map LogCert × Executor Db). InTurn q.1) same v
    | inr new ↦
        exec_loop-InTurn (suc (length (insert a.height tt e.ahead_set))) a.logs a.certs
          (record e { ahead_set = insert a.height tt e.ahead_set }) p (rw new at h)
          (record { count = v.count; next_height = v.next_height; in_turn = v.in_turn })
  ]

  -- Whatever heights come, in whatever order and however often, and whatever the server's logs and
  -- certificates are at each time: if the goroutine has not panicked, then the blocks that it has run
  -- are those of heights 1, 2, ... up to the one before its current height, each once and in this
  -- order.
  pub exec_all-InTurn :
      (arrivals : List Arrival) (e e' : Executor Db)
      → InTurn e
      → exec_all arrivals e ≡ ok e'
      → InTurn e'
  unfolding exec_all
  exec_all-InTurn [] e e' v h = subst InTurn (cc) v
  exec_all-InTurn (a ∷ as') e e' v h =
      let (p, first, rest) =
        >>=-eq-ok (exec_height exec_tx_set a.height a.logs a.certs e) (λ p. exec_all as' p.1) h in
      exec_all-InTurn as' p.1 e' (exec_height-InTurn a e p first v) rest
