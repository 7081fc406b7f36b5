-- ===== src/Tests/Fixtures.antt =====
-- Concrete data for the tests: a toy signature scheme, a configuration of four nodes, a backup.
use praft.Prelude.{ℕ, true, false, List, [], ◌∷◌, some, none}
use praft.Util.Slices.{same_bytes}
use praft.Messages.{DuplicatedReqUnit, SendingMsg, RequestArgs, TxPoolUnit}
use praft.Crypto.{Primitives}
use praft.Config.{Node, Config}
use praft.BlockLog.{BlockLog, zero_block_log}
use praft.Cert.{LogCert, new_cert}
use praft.Server.{Server}

-- The signature of a hash is the hash itself.
abbrev pub toy : Primitives
toy = record {
  sha256 = λ xs. xs;
  pem_decode = λ xs. some xs;
  parse_pkcs1_private_key = λ xs. some xs;
  parse_pkix_public_key = λ xs. some xs;
  sign_pkcs1v15 = λ key hashed. some hashed;
  verify_pkcs1v15 = λ key hashed sign. same_bytes hashed sign;
}

abbrev pub node_at : ℕ → Node
node_at id = record {
  id = id;
  ip = [];
  port = 10001;
  addr = [];
  pri_key = some (1 ∷ []);
  pub_key = some (1 ∷ []);
}

abbrev pub four_nodes : Config
four_nodes = record {
  peer_ips = [] ∷ [] ∷ [] ∷ [] ∷ [];
  ip_num = 4;
  port_base = 10000;
  process_num_array = 1 ∷ 1 ∷ 1 ∷ 1 ∷ [];
  batch_tx_num = 2000;
  ops_per_tx = 2;
  proposer_num = 1;
  load = 27;
  delay = 1;
  rotate_or_not = false;
  random_delay_or_not = false;
  duplicate_mode = 0;
  id2node = (11, node_at 11) ∷ (12, node_at 12) ∷ (13, node_at 13) ∷ (14, node_at 14) ∷ [];
  peer_ids = 11 ∷ 12 ∷ 13 ∷ 14 ∷ [];
  local_ip = [];
  fault_num = 1;
  proposer_ids = 11 ∷ [];
  is_proposer = true;
}

-- A server as `RunServer` makes it, with the log that stands for height 0.
abbrev pub fresh_server : Server
fresh_server = record {
  node = node_at 11;
  seq_ch = [];
  seq2cert = [];
  peers = 12 ∷ 13 ∷ 14 ∷ [];
  seq_inc = 11;
  random_delay = 1;
  proposers = 11 ∷ [];
  is_proposer = true;
  tx_pool = 0;
  cumulative = 0;
  rotate_or_not = false;
  random_delay_or_not = false;
  current_block_index = 0;
  local_duplicated_reqs = [];
  height2block_log = (0, zero_block_log) ∷ [];
  local_committed_tx_num = 0;
  tx_pool_batches = [];
  dup_time = [];
  exec_ch = [];
}

abbrev pub unit_of : ℕ → DuplicatedReqUnit
unit_of seq = record { seq = seq; duplicating_node_id = 11; tx_num = 5; digest = none; sign = none }

abbrev pub block_of : ℕ → ℕ → List DuplicatedReqUnit → SendingMsg
block_of index commit reqs = record {
  primary_node_id = 11;
  commit_block_index = commit;
  commit_block_tx_num = 0;
  block = record { duplicated_reqs = reqs; block_index = index; committed = false; tx_num = 5 };
}

abbrev pub request_with : List ℕ → RequestArgs
request_with txs = record {
  req = record { tx_set = txs; timestamp = 0; client_id = 0 };
  sign = none;
  tx_num = 5;
}

abbrev pub cert_with : ℕ → RequestArgs → LogCert
cert_with seq req = record (new_cert seq) { req = some req }

abbrev pub agreed_log : ℕ → List DuplicatedReqUnit → BlockLog
agreed_log h reqs = record zero_block_log {
  block_index = h;
  duplicated_reqs = reqs;
  prepared = true;
  committed = true;
  executed = true;
}

abbrev pub batch_of : ℕ → TxPoolUnit
batch_of tx_num = record { tx_num = tx_num; arrival_time = 0; complete_time = 0; completed = false }

-- A server that has transactions to propose.
abbrev pub loaded_server : Server
loaded_server = record fresh_server { tx_pool_batches = batch_of 20 ∷ batch_of 27 ∷ [] }
