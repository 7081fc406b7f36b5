-- ===== src/Ycsb.antt =====
-- The workload of zpbft/ycsb.go. LevelDB is a `Store`, gob is a pair of arguments, and what `rand`, `uuid` and
-- the order of iteration over `kmap` give for an operation is a `Draw`.
pub mod Writes
pub mod Replicas
pub mod Generated
use praft.Prelude.{
  ℕ, zero, suc, ◌%◌, Bool, true, false, not, ◌&&◌, List, [], ◌∷◌, Option, none, some, length,
  get_elem?, ◌==◌, if◌then◌else◌,
}
use praft.Util.Slices.{same_bytes}
use praft.Config.{Config}

-- `db.Get`, where a key that is missing has the empty value, and `db.Put`.
pub record Store (Db : Type 0) : Type 0 where
  pub get : List ℕ → Db → List ℕ
  pub put : List ℕ → List ℕ → Db → Db

-- `OpType`
abbrev pub op_read : ℕ
op_read = 0

abbrev pub op_write : ℕ
op_write = 1

abbrev pub op_update : ℕ
op_update = 2

pub record Op : Type 0 where
  pub op_type : ℕ
  pub key : List ℕ
  pub val : List ℕ

pub record Tx : Type 0 where
  pub ops : List Op

-- For one operation: whether the random number is below the rate of reads, and below that of writes; the
-- place in `kmap` at which the iteration starts; and the two identifiers.
pub record Draw : Type 0 where
  pub below_read : Bool
  pub below_write : Bool
  pub place : ℕ
  pub first_uuid : List ℕ
  pub second_uuid : List ℕ

module _ {Db : Type 0} (store : Store Db) where
  -- `Read`
  abbrev pub read : List ℕ → Db → List ℕ
  read key db = store.get key db

  -- `Write`
  abbrev pub write : List ℕ → List ℕ → Db → Db
  write key val db = store.put key val db

  -- `Update`
  abbrev pub update : List ℕ → List ℕ → Db → Db
  update key val db = store.put key val db

  -- One operation; what a read returns is dropped.
  unfoldable pub exec_op : Op → Db → Db
  exec_op op db =
      if op.op_type == op_read
      then db
      else (if op.op_type == op_write
          then write op.key op.val db
          else (if op.op_type == op_update then update op.key op.val db else db))

  -- The loop over the operations of a transaction.
  unfoldable pub exec_ops : List Op → Db → Db
  unfolding exec_op
  exec_ops [] db = db
  exec_ops (op ∷ ops) db = exec_ops ops (exec_op op db)

  -- The loop over the transactions.
  unfoldable pub exec_txs : List Tx → Db → Db
  unfolding exec_ops
  exec_txs [] db = db
  exec_txs (tx ∷ txs) db = exec_txs txs (exec_ops tx.ops db)

  -- `ExecTxSet`
  unfoldable pub exec_tx_set : (List ℕ → List Tx) → List ℕ → Db → Db × ℕ
  unfolding exec_txs
  exec_tx_set decode tx_set db = let txs = decode tx_set in (exec_txs txs db, length txs)

-- The key that the iteration over `kmap` gives: the empty one if it is empty.
abbrev pub some_key : Option (List ℕ) → List ℕ
some_key none = []
some_key (some key) = key

abbrev pub picked_key : List (List ℕ) → ℕ → List ℕ
picked_key kmap place = some_key (get_elem? kmap (place % length kmap))

-- The body of the inner loop of `GenTxSet`; `format` is `Sprintf` with the format of the values.
unfoldable pub gen_op : (List ℕ → List ℕ) → List (List ℕ) → Draw → Op
gen_op format kmap draw =
    if not (length kmap == 0) && draw.below_read
    then record { op_type = op_read; key = picked_key kmap draw.place; val = [] }
    else (if draw.below_write
        then record { op_type = op_write; key = draw.first_uuid; val = format draw.second_uuid }
        else record {
          op_type = op_update;
          key = picked_key kmap draw.place;
          val = format draw.second_uuid;
        })

module _ (format : List ℕ → List ℕ) (kmap : List (List ℕ)) (draws : ℕ → ℕ → Draw) where
  -- The inner loop of `GenTxSet` for transaction `i`, from operation `j` on.
  unfoldable pub gen_ops : ℕ → ℕ → ℕ → List Op
  unfolding gen_op
  gen_ops i zero j = []
  gen_ops i (suc left) j = gen_op format kmap (draws i j) ∷ gen_ops i left (suc j)

  -- The outer loop, from transaction `i` on.
  unfoldable pub gen_txs : ℕ → ℕ → ℕ → List Tx
  unfolding gen_ops
  gen_txs ops_per_tx zero i = []
  gen_txs ops_per_tx (suc left) i =
      record { ops = gen_ops i ops_per_tx 0 } ∷ gen_txs ops_per_tx left (suc i)

  -- `GenTxSet`
  unfoldable pub gen_tx_set : (List Tx → List ℕ) → Config → List ℕ
  unfolding gen_txs
  gen_tx_set encode k = encode (gen_txs k.ops_per_tx k.batch_tx_num 0)
