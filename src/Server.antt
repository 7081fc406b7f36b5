-- ===== src/Server.antt =====
-- The server's state (zpbft/server.go). A handler of the program is a function from the state and
-- its message to the new state and its reply, and runs as one step unless a file says otherwise.
pub mod Certificates
pub mod Blocks
pub mod Requests
pub mod Duplicate
pub mod Broadcast
pub mod Phases
pub mod Execute
pub mod Start
pub mod Loops
pub mod Rotation
pub mod Service
pub mod Cluster
use praft.Prelude.{
  ℕ, Bool, false, List, [], Option, none, some, Map, lookup, insert, suc, ◌+◌, ◌%◌, ◌^◌, ◌*◌,
}
use praft.Util.Slices.{Slice}
use praft.Messages.{DuplicatedReqUnit, TxPoolUnit}
use praft.Config.{Node}
use praft.BlockLog.{BlockLog, zero_block_log}
use praft.Cert.{LogCert, new_cert}

-- `peers` holds the keys of `id2srvCli`; `seq_ch` and `exec_ch` hold the values sent on the channels
-- so far, oldest first: a receiver takes them in this order.
pub record Server : Type 0 where
  pub node : Node
  pub seq_ch : List ℕ
  pub seq2cert : Map LogCert
  pub peers : List ℕ
  pub seq_inc : ℕ
  pub random_delay : ℕ
  pub proposers : List ℕ
  pub is_proposer : Bool
  pub tx_pool : ℕ
  pub cumulative : ℕ
  pub rotate_or_not : Bool
  pub random_delay_or_not : Bool
  pub current_block_index : ℕ
  pub local_duplicated_reqs : List DuplicatedReqUnit
  pub height2block_log : Map BlockLog
  pub local_committed_tx_num : ℕ
  pub tx_pool_batches : List TxPoolUnit
  pub dup_time : List ℕ
  pub exec_ch : List ℕ

cert_at : Option LogCert → ℕ → Map LogCert → Map LogCert × LogCert
cert_at (some cert) seq certs = (certs, cert)
cert_at none seq certs = (insert seq (new_cert seq) certs, new_cert seq)

-- `getCertOrNew`, on the map `seq2cert`.
unfoldable pub get_cert_or_new : ℕ → Map LogCert → Map LogCert × LogCert
unfolding cert_at
get_cert_or_new seq certs = cert_at (lookup seq certs) seq certs

-- The certificate of a sequence number, changed through the pointer that `getCertOrNew` returns.
unfoldable pub update_cert : ℕ → (LogCert → LogCert) → Map LogCert → Map LogCert
unfolding get_cert_or_new
update_cert seq change certs =
    let (certs', cert) = get_cert_or_new seq certs in insert seq (change cert) certs'
