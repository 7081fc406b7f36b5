-- ===== src/Ycsb/Writes.antt =====
-- What a key holds after transactions have run: the last value that was written to it.
use praft.Prelude.{
  ℕ, ◌≡◌, refl, sym, ap, ◌∙◌, Bool, ◌&&◌, ◌||◌, List, [], ◌∷◌, ◌++◌, arith, ◌==◌, if◌then◌else◌,
}
use praft.Util.Slices.{same_bytes}
use praft.Ycsb.{Store, Op, Tx, op_write, op_update, exec_op, exec_ops, exec_txs, exec_tx_set}

-- A value that was put is there until the key is put again, if neither fails.
pub record IsStore {Db : Type 0} (store : Store Db) : Type 0 where
  pub get-put :
      (asked key val : List ℕ) (db : Db)
      → store.get asked (store.put key val db)
        ≡ (if same_bytes key asked then val else store.get asked db)

abbrev pub writes : Op → Bool
writes op = op.op_type == op_write || op.op_type == op_update

-- The last value that the operations write under the key, or the old one.
abbrev pub last_write : List ℕ → List Op → List ℕ → List ℕ
last_write asked [] old = old
last_write asked (op ∷ ops) old =
    last_write asked ops (if writes op && same_bytes op.key asked then op.val else old)

abbrev pub ops_of : List Tx → List Op
ops_of [] = []
ops_of (tx ∷ txs) = tx.ops ++ ops_of txs

pub last_write-append :
    (asked : List ℕ) (front back : List Op) (old : List ℕ)
    → last_write asked (front ++ back) old ≡ last_write asked back (last_write asked front old)
last_write-append asked [] back old = refl
last_write-append asked (op ∷ front) back old = last_write-append asked front back _

module _ {Db : Type 0} (store : Store Db) (laws : IsStore store) (asked : List ℕ) where
  exec_op_lem :
      (op : Op) (db : Db)
      → store.get asked (exec_op store op db)
        ≡ (if writes op && same_bytes op.key asked then op.val else store.get asked db)
  unfolding exec_op
  exec_op_lem op db = ground (arith, laws.get-put asked op.key op.val db)

  exec_ops_lem :
      (ops : List Op) (db : Db)
      → store.get asked (exec_ops store ops db) ≡ last_write asked ops (store.get asked db)
  unfolding exec_ops
  exec_ops_lem [] db = refl
  exec_ops_lem (op ∷ ops) db =
      exec_ops_lem ops (exec_op store op db) ∙ ap (last_write asked ops) (exec_op_lem op db)

  exec_txs_lem :
      (txs : List Tx) (db : Db)
      → store.get asked (exec_txs store txs db) ≡ last_write asked (ops_of txs) (store.get asked db)
  unfolding exec_txs
  exec_txs_lem [] db = refl
  exec_txs_lem (tx ∷ txs) db =
      exec_txs_lem txs (exec_ops store tx.ops db)
      ∙ ap (last_write asked (ops_of txs)) (exec_ops_lem tx.ops db)
      ∙ sym (last_write-append asked tx.ops (ops_of txs) (store.get asked db))

  pub exec_tx_set_lem :
      (decode : List ℕ → List Tx) (tx_set : List ℕ) (db : Db)
      → store.get asked (exec_tx_set store decode tx_set db).0
        ≡ last_write asked (ops_of (decode tx_set)) (store.get asked db)
  unfolding exec_tx_set
  exec_tx_set_lem decode tx_set db = exec_txs_lem (decode tx_set) db
