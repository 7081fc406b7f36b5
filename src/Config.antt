-- ===== src/Config.antt =====
-- zpbft/config.go and zpbft/node.go: the settings that the servers read, as they stand once
-- `InitConfig` has run, and the look-ups in them.
pub mod Setup
pub mod Peers
pub mod Index
use praft.Prelude.{ℕ, Bool, List, Result, or_panic, logged_error, Map, lookup}
use praft.Util.Slices.{Slice}

pub record Node : Type 0 where
  pub id : ℕ
  pub ip : List ℕ
  pub port : ℕ
  pub addr : List ℕ
  pub pri_key : Slice
  pub pub_key : Slice

-- `KConfig`, less the settings that nothing reads.
pub record Config : Type 0 where
  pub peer_ips : List (List ℕ)
  pub ip_num : ℕ
  pub port_base : ℕ
  pub process_num_array : List ℕ
  pub batch_tx_num : ℕ
  pub ops_per_tx : ℕ
  pub proposer_num : ℕ
  pub load : ℕ
  pub delay : ℕ
  pub rotate_or_not : Bool
  pub random_delay_or_not : Bool
  pub duplicate_mode : ℕ
  pub id2node : Map Node
  pub peer_ids : List ℕ
  pub local_ip : List ℕ
  pub fault_num : ℕ
  pub proposer_ids : List ℕ
  pub is_proposer : Bool

-- `GetNode`
unfoldable pub get_node : Config → ℕ → Result Node
get_node k id = or_panic (lookup id k.id2node) logged_error
