-- ===== src/Server/Start.antt =====
-- Starting a server (zpbft/server.go, zpbft/main.go): `delayReset`, `RunServer` up to where it starts the
-- goroutines, `connect`, and `main`. `rand.Int` is an argument.
pub mod Fresh
pub mod Connected
pub mod Everyone
use praft.Prelude.{
  ℕ, zero, suc, ◌+◌, Bool, true, false, List, [], ◌∷◌, ◌++◌, Option, none, some, Result, ok, panic,
  ◌>>=◌, or_panic, nil_dereference, out_of_range, blocked, insert, lookup, elem, pos, ◌==◌,
  if◌then◌else◌,
}
use praft.Util.Slices.{Slice}
use praft.Util.{Text, get_id}
use praft.Config.{Node, Config}
use praft.Config.Setup.{first_of, init_config}
use praft.BlockLog.{zero_block_log}
use praft.Server.{Server}

-- `delayReset`
unfoldable pub delay_reset : (ℕ → Result ℕ) → Config → Server → Result Server
delay_reset rand_int k s =
    if s.random_delay_or_not
    then (rand_int k.delay >>= λ drawn. ok (record s { random_delay = drawn }))
    else ok (record s { random_delay = k.delay })

-- The literal of `RunServer`.
abbrev pub new_server : Config → Node → Server
new_server k node = record {
  node = node;
  seq_ch = [];
  seq2cert = [];
  peers = [];
  seq_inc = 0;
  random_delay = 0;
  proposers = [];
  is_proposer = k.is_proposer;
  tx_pool = 0;
  cumulative = 0;
  rotate_or_not = k.rotate_or_not;
  random_delay_or_not = k.random_delay_or_not;
  current_block_index = 0;
  local_duplicated_reqs = [];
  height2block_log = [];
  local_committed_tx_num = 0;
  tx_pool_batches = [];
  dup_time = [];
  exec_ch = [];
}

-- `RunServer`: the server as it is when its goroutines start.
unfoldable pub run_server : (ℕ → Result ℕ) → ℕ → Config → Result Server
unfolding delay_reset
run_server rand_int id k = do
  node ← or_panic (lookup id k.id2node) nil_dereference
  s ← delay_reset rand_int k (new_server k node)
  proposers ← or_panic (first_of k.proposer_num k.proposer_ids) out_of_range
  ok (record s {
    proposers = proposers;
    seq_inc = node.id;
    height2block_log = insert 0 zero_block_log s.height2block_log;
  })

-- `main`, for the process with this number.
unfoldable pub start_process :
    Text → (ℕ → Result ℕ) → Slice → Slice → List ℕ → ℕ → Config → Result (Config × Server)
unfolding init_config run_server
start_process text rand_int pri_key pub_key myip process_id k = do
  k' ← init_config text pri_key pub_key myip process_id k
  id ← get_id text k'.local_ip (pos (k'.port_base + process_id))
  s ← run_server rand_int id k'
  ok (k', s)

-- One round of `connect`: the nodes in the order in which Go runs over `Id2Node`, each with whether it
-- could be dialled, and the peers that have been. Nodes are compared by identity.
unfoldable pub connect_round : ℕ → List (ℕ × Bool) → List ℕ → Bool → List ℕ × Bool
connect_round own [] peers done = (peers, done)
connect_round own (dial ∷ dials) peers done =
    let skipped = connect_round own dials peers done in
    let connected = connect_round own dials (peers ++ dial.0 ∷ []) done in
    let failed = connect_round own dials peers false in
    if dial.0 == own
    then skipped
    else (if elem dial.0 peers then skipped else (if dial.1 then connected else failed))

-- `connect`: it waits where these rounds do not do.
unfoldable pub connect : ℕ → List (List (ℕ × Bool)) → List ℕ → Result (List ℕ)
unfolding connect_round
connect own [] peers = panic blocked
connect own (dials ∷ rounds) peers =
    let (peers', done) = connect_round own dials peers true in
    let again = connect own rounds peers' in if done then ok peers' else again
