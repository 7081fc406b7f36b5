-- ===== src/Tests/Execute.antt =====
-- Tests of the executor, and the theorems about it at concrete inputs. The database is the list of
-- the transaction sets that were run.
use praft.Prelude.{
  ℕ, ◌≤◌, ◌<◌, ◌≡◌, refl, ◌≢◌, true, List, [], ◌∷◌, ◌++◌, ok, panic, Map, lookup, insert, delete,
  arith, inl, inr, out_of_fuel, ◌==◌, Bool-cases, is_some, ◌⊎◌,
}
use praft.BlockLog.{BlockLog}
use praft.Cert.{LogCert}
use praft.Server.Execute.{Exec, Executor, exec_height}
use praft.Server.Execute.Order.{Arrival, InTurn, exec_all, exec_all-InTurn, exec_height-has_fuel}
use praft.Server.Execute.Progress.{IsRunnable, HasRun, exec_height-HasRun}
use praft.Server.Execute.Stall.{missing_request_stalls}
use praft.Tests.Fixtures.{unit_of, request_with, cert_with, agreed_log}

abbrev note_set : Exec (List (List ℕ))
note_set tx_set db = (db ++ tx_set ∷ [], 1)

abbrev at_start : Executor (List (List ℕ))
at_start = record { cur_exec_height = 1; ahead_set = []; db = []; executed = [] }

abbrev two_logs : Map BlockLog
two_logs = (1, agreed_log 1 (unit_of 7 ∷ [])) ∷ (2, agreed_log 2 (unit_of 8 ∷ [])) ∷ []

abbrev both_certs : Map LogCert
both_certs =
    (7, cert_with 7 (request_with (70 ∷ []))) ∷ (8, cert_with 8 (request_with (80 ∷ []))) ∷ []

abbrev arrives : ℕ → Map LogCert → Arrival
arrives h certs = record { height = h; logs = two_logs; certs = certs }

abbrev both_run : Executor (List (List ℕ))
both_run = record {
  cur_exec_height = 3;
  ahead_set = [];
  db = (70 ∷ []) ∷ (80 ∷ []) ∷ [];
  executed = 1 ∷ 2 ∷ [];
}

-- Height 2 comes first, and is run after height 1.
exec_all_reorders :
    exec_all note_set (arrives 2 both_certs ∷ arrives 1 both_certs ∷ []) at_start ≡ ok both_run
unfolding exec_all lookup insert delete
exec_all_reorders = refl

exec_all-InTurn_example : InTurn both_run
exec_all-InTurn_example =
    exec_all-InTurn note_set (arrives 2 both_certs ∷ arrives 1 both_certs ∷ []) at_start both_run
      (record { count = 0; next_height = refl; in_turn = refl }) exec_all_reorders

exec_height-has_fuel_example :
    exec_height note_set 2 two_logs both_certs at_start ≢ panic out_of_fuel
exec_height-has_fuel_example = exec_height-has_fuel note_set 2 two_logs both_certs at_start

one_ahead : Executor (List (List ℕ))
one_ahead = record at_start { ahead_set = (2, tt) ∷ [] }

exec_height-HasRun_example :
    (e' : Executor (List (List ℕ))) × (exec_height note_set 1 two_logs both_certs one_ahead
      ≡ ok (both_certs, e'))
    × HasRun note_set two_logs both_certs 2 one_ahead e'
unfolding one_ahead lookup
exec_height-HasRun_example =
    exec_height-HasRun note_set two_logs both_certs 1 2 one_ahead (omega arith) came (omega arith)
      refl runnable
  where
    came : (j : ℕ) → 1 ≤ j → j < 3 → (j ≡ 1) ⊎ (is_some (lookup j ((2, tt {0}) ∷ [])) ≡ true)
    came j le lt = ground arith

    runnable : (j : ℕ) → 1 ≤ j → j < 3 → IsRunnable two_logs both_certs j
    runnable j le lt = elim (Bool-cases (1 == j)) [
      | inl one ↦ record {
        log = agreed_log 1 (unit_of 7 ∷ []);
        there = ground arith;
        ready = refl;
        known = refl;
      }
      | inr other ↦ record {
        log = agreed_log 2 (unit_of 8 ∷ []);
        there = ground arith;
        ready = refl;
        known = refl;
      }
    ]

-- Height 1 comes while its request is missing; height 2 comes when both requests are here.
missing_request_stalls_example :
    (e' : Executor (List (List ℕ))) × (exec_all note_set
        (arrives 1 [] ∷ arrives 2 both_certs ∷ [])
        at_start
      ≡ ok e')
    × (e'.cur_exec_height ≡ 1)
    × (e'.executed ≡ [])
    × (e'.db ≡ [])
unfolding lookup
missing_request_stalls_example =
    missing_request_stalls note_set [] two_logs at_start (agreed_log 1 (unit_of 7 ∷ []))
      (arrives 2 both_certs ∷ []) refl refl refl (omega arith)
