-- ===== src/Messages.antt =====
-- The messages of zpbft/cert.go (from RequestMsg on), and the transaction pool's unit. A pointer
-- that some path leaves nil is an `Option`. Identities, heights and counts are numbers.
use praft.Prelude.{ℕ, Bool, List, Option}
use praft.Util.Slices.{Slice}

pub record TxPoolUnit : Type 0 where
  pub tx_num : ℕ
  pub arrival_time : ℕ
  pub complete_time : ℕ
  pub completed : Bool

pub record RequestMsg : Type 0 where
  pub tx_set : List ℕ
  pub timestamp : ℕ
  pub client_id : ℕ

pub record RequestArgs : Type 0 where
  pub req : RequestMsg
  pub sign : Slice
  pub tx_num : ℕ

pub record DuplicatedReqUnit : Type 0 where
  pub seq : ℕ
  pub duplicating_node_id : ℕ
  pub tx_num : ℕ
  pub digest : Slice
  pub sign : Slice

pub record Block : Type 0 where
  pub duplicated_reqs : List DuplicatedReqUnit
  pub block_index : ℕ
  pub committed : Bool
  pub tx_num : ℕ

pub record SendingMsg : Type 0 where
  pub primary_node_id : ℕ
  pub commit_block_index : ℕ
  pub commit_block_tx_num : ℕ
  pub block : Block

pub record SendingArgs : Type 0 where
  pub msg : SendingMsg
  pub digest : Slice
  pub sign : Slice

pub record SendingReturnMsg : Type 0 where
  pub prepare_block_index : ℕ
  pub committed_block_index : ℕ
  pub new_duplicated_reqs : List DuplicatedReqUnit
  pub node_id : ℕ

-- A handler that refuses its message leaves the reply's fields as they are: nil.
pub record SendingReturnArgs : Type 0 where
  pub msg : Option SendingReturnMsg
  pub digest : Slice
  pub sign : Slice

pub record DuplicateMsg : Type 0 where
  pub seq : ℕ
  pub digest : Slice
  pub node_id : ℕ
  pub duplicator_node_id : ℕ
  pub tx_num : ℕ
  pub log_index : ℕ

pub record DuplicateArgs : Type 0 where
  pub msg : DuplicateMsg
  pub sign : Slice
  pub req_args : RequestArgs

pub record DuplicateConfirmMsg : Type 0 where
  pub seq : ℕ
  pub digest : Slice
  pub node_id : ℕ
  pub duplicator_node_id : ℕ
  pub log_index : ℕ

pub record DuplicateConfirmArgs : Type 0 where
  pub msg : Option DuplicateConfirmMsg
  pub sign : Slice

pub record PrepareMsg : Type 0 where
  pub seq : ℕ
  pub digest : Slice
  pub node_id : ℕ
  pub primary_node_id : ℕ
  pub tx_num : ℕ
  pub log_index : ℕ

pub record PrepareArgs : Type 0 where
  pub msg : PrepareMsg
  pub sign : Slice
  pub req_args : Option RequestArgs

pub record PrepareConfirmMsg : Type 0 where
  pub seq : ℕ
  pub digest : Slice
  pub node_id : ℕ
  pub primary_node_id : ℕ
  pub log_index : ℕ

pub record PrepareConfirmArgs : Type 0 where
  pub msg : Option PrepareConfirmMsg
  pub sign : Slice

pub record CommitMsg : Type 0 where
  pub seq : ℕ
  pub digest : Slice
  pub node_id : ℕ
  pub primary_node_id : ℕ
  pub tx_num : ℕ
  pub log_index : ℕ

pub record CommitArgs : Type 0 where
  pub msg : CommitMsg
  pub sign : Slice

pub record CommitConfirmMsg : Type 0 where
  pub seq : ℕ
  pub digest : Slice
  pub node_id : ℕ
  pub primary_node_id : ℕ
  pub log_index : ℕ

pub record CommitConfirmArgs : Type 0 where
  pub msg : Option CommitConfirmMsg
  pub sign : Slice

pub record ReplyMsg : Type 0 where
  pub seq : ℕ
  pub timestamp : ℕ
  pub client_id : ℕ
  pub node_id : ℕ
  pub result : Slice

pub record ReplyArgs : Type 0 where
  pub msg : ReplyMsg
  pub sign : Slice
