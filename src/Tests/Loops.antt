-- ===== src/Tests/Loops.antt =====
-- Tests of the server's loops.
use praft.Prelude.{
  ℕ, ◌≡◌, refl, true, false, not, ◌&&◌, ◌==◌, elem, Bool, List, [], ◌∷◌, ◌++◌, none, Result, ok,
  panic, lookup, insert, arith,
}
use praft.Util.Slices.{slice_equal}
use praft.Messages.{PrepareConfirmArgs}
use praft.Config.{get_node}
use praft.Crypto.{sha256_digest, rsa_sign_with_sha256, rsa_verify_with_sha256}
use praft.Tree.{tree_ip}
use praft.Tree.Sections.{take}
use praft.Server.{Server}
use praft.Server.Requests.{push_tx_to_pool, make_req}
use praft.Server.Phases.{prepare_rpc}
use praft.Server.Loops.{Worker, Sent, start_work, work_round, poll_round}
use praft.Server.Loops.Handlers.{seq_of}
use praft.Server.Loops.Numbers.{IsWorking, issued_at}
use praft.Server.Loops.Steps.{Works, launched, polled, handled, prepared_for, pooled}
use praft.Server.Loops.Working.{Works-IsWorking}
use praft.Server.Loops.Sending.{receivers, work_round-sends}
use praft.Tests.Fixtures.{toy, four_nodes, loaded_server}
use praft.Tests.Handshake.{toy-IsKeyPair}
use praft.Tests.Phases.{prepare_args}

abbrev unconnected : Server
unconnected = record loaded_server { peers = [] }

abbrev dials : List (ℕ × Bool)
dials = (12, true) ∷ (11, false) ∷ (14, true) ∷ (13, true) ∷ []

abbrev idle_worker : Worker
idle_worker = record { server = unconnected; received = 0; polling = 0; sent = [] }

abbrev worker_of : Result Worker → Worker
worker_of (panic fault) = idle_worker
worker_of (ok w) = w

abbrev at_start : Worker
unfolding start_work
at_start = worker_of (start_work (dials ∷ []) unconnected)

abbrev with_request : Worker
unfolding at_start poll_round
with_request = worker_of (poll_round toy four_nodes 5 (1 ∷ []) at_start)

with_request-Works : Works toy four_nodes unconnected (12 ∷ 11 ∷ 14 ∷ 13 ∷ []) [] with_request
unfolding with_request at_start start_work poll_round make_req lookup insert get_node
    rsa_sign_with_sha256 sha256_digest
with_request-Works =
    polled 5 (1 ∷ []) (launched (dials ∷ []) at_start refl refl refl (λ id. refl, tt) refl) refl

-- Then number 7, which the server has not made, is prepared, and the pool grows.
with_prepared-Works :
    (r : Server × PrepareConfirmArgs)
    → prepare_rpc toy four_nodes prepare_args with_request.server ≡ ok r
    → Works toy four_nodes unconnected
        (12 ∷ 11 ∷ 14 ∷ 13 ∷ [])
        (7 ∷ [])
        (record with_request { server = push_tx_to_pool four_nodes 9 r.0 })
with_prepared-Works r run = handled (prepared_for prepare_args r with_request-Works run) (pooled 9)

abbrev prepared_reply : Result (Server × PrepareConfirmArgs) → Server × PrepareConfirmArgs
prepared_reply (panic fault) = (unconnected, record { msg = none; sign = none })
prepared_reply (ok r) = r

abbrev after_prepare : Server × PrepareConfirmArgs
unfolding with_request prepare_rpc
after_prepare = prepared_reply (prepare_rpc toy four_nodes prepare_args with_request.server)

prepares : prepare_rpc toy four_nodes prepare_args with_request.server ≡ ok after_prepare
unfolding with_request at_start start_work poll_round make_req lookup insert get_node
    rsa_sign_with_sha256 sha256_digest after_prepare prepare_rpc rsa_verify_with_sha256 slice_equal
prepares = refl

Works-IsWorking_example :
    IsWorking unconnected
      (12 ∷ 11 ∷ 14 ∷ 13 ∷ [])
      (7 ∷ [])
      (record with_request { server = push_tx_to_pool four_nodes 9 after_prepare.0 })
Works-IsWorking_example =
    Works-IsWorking toy four_nodes (with_prepared-Works after_prepare prepares)

work_round-sends_example :
    (w' : Worker) × (sent : Sent) × (work_round toy four_nodes (12 ∷ 13 ∷ 14 ∷ []) with_request
      ≡ ok w')
    × (w'.received ≡ 1)
    × (w'.sent ≡ with_request.sent ++ sent ∷ [])
    × (seq_of sent ≡ issued_at unconnected.seq_inc 1)
    × (receivers sent ≡ take 2 (tree_ip (12 ∷ 13 ∷ 14 ∷ [])))
    × ((id : ℕ)
        → elem id (12 ∷ 13 ∷ 14 ∷ []) ≡ (elem id (12 ∷ 11 ∷ 14 ∷ 13 ∷ []) && not (id == 11)))
unfolding with_request at_start start_work poll_round make_req lookup insert get_node
    rsa_sign_with_sha256 sha256_digest
work_round-sends_example =
    work_round-sends toy four_nodes (12 ∷ 13 ∷ 14 ∷ []) with_request-Works (ground arith) refl
      (refl, (refl, (refl, tt))) (λ id. ground arith) (toy-IsKeyPair (1 ∷ []) (1 ∷ []))
