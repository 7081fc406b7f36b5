-- ===== src/Tests/Requests.antt =====
-- Tests of the transaction pool and of new requests, and the theorems about them at concrete inputs.
use praft.Prelude.{◌+◌, ◌≡◌, refl, ◌≢◌, inl, List, [], ◌∷◌, ◌++◌, map, arith}
use praft.Messages.{TxPoolUnit}
use praft.Server.{Server}
use praft.Server.Requests.{assign_seq, take_batches, make_req}
use praft.Server.Requests.Pool.{pending, emptied, take_batches_stops}
use praft.Server.Requests.Sequence.{assigned, assigned_distinct}
use praft.Server.Requests.Making.{MakeOutcome, make_req-cases}
use praft.Tests.Fixtures.{toy, four_nodes, fresh_server, batch_of, loaded_server}

two_requests_differ : ((assign_seq (assigned 1 fresh_server)).1) ≡ 20_000_000_011
unfolding assign_seq
two_requests_differ = refl

-- Two batches of 3, then one of 27, for a request of 10.
abbrev three_batches : List TxPoolUnit
three_batches = batch_of 3 ∷ batch_of 3 ∷ batch_of 27 ∷ []

take_batches_stops_example :
    ((take_batches 10 5 0 three_batches).0
      ≡ map (emptied 5) (batch_of 3 ∷ batch_of 3 ∷ []) ++ batch_of 27 ∷ [])
    × ((take_batches 10 5 0 three_batches).1 ≡ 10)
    × ((take_batches 10 5 0 three_batches).1 + pending (take_batches 10 5 0 three_batches).0 ≡ 37)
take_batches_stops_example =
    take_batches_stops 10 5 0 (batch_of 3 ∷ batch_of 3 ∷ []) (batch_of 27) [] (omega arith)
      (omega arith)

abbrev other_server : Server
other_server = record fresh_server { seq_inc = 12 }

assigned_distinct_example :
    (assign_seq (assigned 3 fresh_server)).1 ≢ (assign_seq (assigned 1 other_server)).1
assigned_distinct_example =
    assigned_distinct 3 1 fresh_server other_server (omega arith) (omega arith) (omega arith)
      (omega arith) (inl (λ e. omega arith))

make_req-cases_example :
    MakeOutcome toy four_nodes 5
      (1 ∷ [])
      loaded_server
      (make_req toy four_nodes 5 (1 ∷ []) loaded_server)
make_req-cases_example = make_req-cases toy four_nodes 5 (1 ∷ []) loaded_server
