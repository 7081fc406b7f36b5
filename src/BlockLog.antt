-- ===== src/BlockLog.antt =====
-- zpbft/blocklog.go. The mutex of a block log is left out: each method is one step.
pub mod Laws
use praft.Prelude.{
  ℕ, Bool, true, false, List, [], ◌∷◌, ◌++◌, ◌==◌, leb, length, elem, if◌then◌else◌,
}
use praft.Messages.{DuplicatedReqUnit}

pub record BlockLog : Type 0 where
  pub block_index : ℕ
  pub duplicated_reqs : List DuplicatedReqUnit
  pub tx_num : ℕ
  pub prepare_confirm_nodes : List ℕ
  pub commit_confirm_nodes : List ℕ
  pub committed : Bool
  pub prepared : Bool
  pub executed : Bool
  pub primary_node_id : ℕ

-- `BlockLog{}`, Go's zero value.
abbrev pub zero_block_log : BlockLog
zero_block_log = record {
  block_index = 0;
  duplicated_reqs = [];
  tx_num = 0;
  prepare_confirm_nodes = [];
  commit_confirm_nodes = [];
  committed = false;
  prepared = false;
  executed = false;
  primary_node_id = 0;
}

-- `set`: the last two arguments are not read.
pub set : BlockLog → ℕ → Bool → Bool → BlockLog
set b block_index prepared committed = record b {
  block_index = block_index;
  committed = false;
  prepared = false;
}

unfoldable pub push_prepare_confirm_nodes : BlockLog → ℕ → BlockLog
push_prepare_confirm_nodes b node_id =
    if elem node_id b.prepare_confirm_nodes
    then b
    else record b { prepare_confirm_nodes = b.prepare_confirm_nodes ++ node_id ∷ [] }

unfoldable pub push_commit_confirm_nodes : BlockLog → ℕ → BlockLog
push_commit_confirm_nodes b node_id =
    if elem node_id b.commit_confirm_nodes
    then b
    else record b { commit_confirm_nodes = b.commit_confirm_nodes ++ node_id ∷ [] }

-- `check`, with `KConfig.FaultNum` as its first argument.
unfoldable pub check : ℕ → BlockLog → BlockLog
check fault_num b =
    let b' =
      if leb fault_num (length b.prepare_confirm_nodes) then record b { prepared = true } else b in
    if leb fault_num (length b'.commit_confirm_nodes) then record b' { committed = true } else b'
