-- ===== src/Tests/Replication.antt =====
-- Two backups that receive the same three blocks, one of which executes later than the other.
use praft.Prelude.{ℕ, ◌≡◌, refl, List, [], ◌∷◌, ◌++◌, ok, Map, lookup, insert, range}
use praft.Messages.{SendingMsg}
use praft.Cert.{LogCert}
use praft.Server.Execute.{Executor}
use praft.Server.Execute.Order.{Arrival, exec_all}
use praft.Server.Blocks.Backup.{deliver, deliver_all}
use praft.Ycsb.{exec_tx_set}
use praft.Ycsb.Writes.{last_write}
use praft.Ycsb.Replicas.{decoded}
use praft.Replication.Received.{IsFresh}
use praft.Replication.Executed.{AllFollow, waiting_at, sets_from, backups_agree}
use praft.BlockLog.{zero_block_log}
use praft.Tests.Fixtures.{fresh_server, unit_of, cert_with, request_with, block_of}
use praft.Tests.Blocks.{fresh-IsSignalled, fresh-IsAt, three_blocks}
use praft.Tests.Gob.{decode}
use praft.Tests.Workload.{table_store, table_store-IsStore, three_ops, empty_db}

fresh_server-IsFresh : IsFresh fresh_server
fresh_server-IsFresh = record {
  zero_log = zero_block_log;
  at_zero = fresh-IsAt;
  unprepared = refl;
  none_sent = refl;
  signalled = fresh-IsSignalled;
}

abbrev request_7 : Map LogCert
request_7 = (7, cert_with 7 (request_with three_ops)) ∷ []

abbrev two_blocks : List SendingMsg
two_blocks = block_of 1 0 (unit_of 7 ∷ []) ∷ block_of 2 1 [] ∷ []

abbrev taken_at : ℕ → List SendingMsg → Map LogCert → Arrival
taken_at height msgs certs = record {
  height = height;
  logs = (deliver_all msgs fresh_server).height2block_log;
  certs = certs;
}

-- The one backup has received all three blocks when it takes the first, the other only two, and has
-- a certificate more.
abbrev late : List Arrival
late = taken_at 1 three_blocks request_7 ∷ taken_at 2 three_blocks [] ∷ []

abbrev prompt : List Arrival
prompt =
    taken_at 1 two_blocks (request_7 ++ (9, cert_with 9 (request_with [])) ∷ [])
    ∷ taken_at 2 three_blocks []
    ∷ []

late-AllFollow : AllFollow fresh_server three_blocks 1 late
unfolding deliver_all deliver lookup insert
late-AllFollow = (
  record {
    front = three_blocks;
    back = [];
    split = refl;
    height = refl;
    logs = refl;
    handed = refl;
    known = refl;
  },
  (
    record {
      front = three_blocks;
      back = [];
      split = refl;
      height = refl;
      logs = refl;
      handed = refl;
      known = refl;
    },
    tt,
  ),
)

prompt-AllFollow : AllFollow fresh_server three_blocks 1 prompt
unfolding deliver_all deliver lookup insert
prompt-AllFollow = (
  record {
    front = two_blocks;
    back = block_of 3 2 (unit_of 8 ∷ []) ∷ [];
    split = refl;
    height = refl;
    logs = refl;
    handed = refl;
    known = refl;
  },
  late-AllFollow.1,
)

backups_agree_example :
    (e : Executor (List ℕ → List ℕ)) × (e' : Executor (List ℕ → List ℕ)) × (exec_all
        (exec_tx_set table_store decode)
        late
        (waiting_at 1 [] empty_db)
      ≡ ok e)
    × (exec_all (exec_tx_set table_store decode) prompt (waiting_at 1 [] empty_db) ≡ ok e')
    × (e.executed ≡ range 1 2)
    × (e'.executed ≡ range 1 2)
    × ((asked : List ℕ) → e.db asked ≡ e'.db asked)
    × ((asked : List ℕ)
        → e.db asked ≡ last_write asked (decoded decode (sets_from three_blocks 1 late)) [])
unfolding lookup
backups_agree_example =
    backups_agree table_store table_store decode fresh_server fresh_server three_blocks late prompt
      empty_db empty_db table_store-IsStore table_store-IsStore fresh_server-IsFresh
      fresh_server-IsFresh (refl, refl, (refl, refl, (refl, refl, tt))) late-AllFollow
      prompt-AllFollow refl (λ asked. refl)
