-- ===== src/Ycsb/Generated.antt =====
-- The transactions that `GenTxSet` makes, run by `ExecTxSet`.
use praft.Prelude.{
  ℕ, zero, suc, ◌≡◌, refl, ap, ◌∙◌, true, false, Bool-cases, inl, inr, List, [], ◌∷◌, ◌++◌, length,
  ◌==◌,
}
use praft.Config.{Config}
use praft.Ycsb.{
  Store, Op, Tx, Draw, op_read, op_update, gen_op, gen_ops, gen_txs, gen_tx_set, exec_tx_set,
}
use praft.Ycsb.Writes.{ops_of}

-- No operation is a read, and every update is of the empty key.
abbrev pub AreBlind : List Op → Type 0
AreBlind [] = Unit {0}
AreBlind (op ∷ ops) =
    ((op.op_type == op_read) ≡ false)
    × ((op.op_type == op_update) ≡ true → op.key ≡ [])
    × AreBlind ops

AreBlind-append : (front back : List Op) → AreBlind front → AreBlind back → AreBlind (front ++ back)
AreBlind-append [] back h h' = h'
AreBlind-append (op ∷ front) back (no_read, empty, h) h' =
    (no_read, empty, AreBlind-append front back h h')

module _ (format : List ℕ → List ℕ) (draws : ℕ → ℕ → Draw) where
  gen_ops-AreBlind : (i left j : ℕ) → AreBlind (gen_ops format [] draws i left j)
  unfolding gen_ops gen_op
  gen_ops-AreBlind i zero j = tt
  gen_ops-AreBlind i (suc left) j = elim (Bool-cases (draws i j).below_write) [
    | inl written ↦ rw written (refl, (λ e. cc), gen_ops-AreBlind i left (suc j))
    | inr updated ↦ rw updated (refl, (λ e. refl), gen_ops-AreBlind i left (suc j))
  ]

  gen_txs-AreBlind :
      (ops_per_tx left i : ℕ) → AreBlind (ops_of (gen_txs format [] draws ops_per_tx left i))
  unfolding gen_txs
  gen_txs-AreBlind ops_per_tx zero i = tt
  gen_txs-AreBlind ops_per_tx (suc left) i =
      AreBlind-append (gen_ops format [] draws i ops_per_tx 0) _ (gen_ops-AreBlind i ops_per_tx 0)
        (gen_txs-AreBlind ops_per_tx left (suc i))

  length-gen_txs :
      (ops_per_tx left i : ℕ) → length (gen_txs format [] draws ops_per_tx left i) ≡ left
  unfolding gen_txs
  length-gen_txs ops_per_tx zero i = refl
  length-gen_txs ops_per_tx (suc left) i = ap suc (length-gen_txs ops_per_tx left (suc i))

-- If gob gives back what it has encoded: with the empty key table that `InitDB` leaves, `ExecTxSet` counts
-- `BatchTxNum` transactions in what `GenTxSet` made, whatever is drawn; but they read nothing, and
-- all their updates are of the empty key.
pub exec_tx_set-gen_tx_set :
    {Db : Type 0} (store : Store Db) (encode : List Tx → List ℕ) (decode : List ℕ → List Tx)
    (format : List ℕ → List ℕ) (draws : ℕ → ℕ → Draw) (k : Config) (db : Db)
    → ((txs : List Tx) → decode (encode txs) ≡ txs)
    → ((exec_tx_set store decode (gen_tx_set format [] draws encode k) db).1 ≡ k.batch_tx_num)
      × AreBlind (ops_of (decode (gen_tx_set format [] draws encode k)))
unfolding exec_tx_set gen_tx_set
exec_tx_set-gen_tx_set store encode decode format draws k db codec =
    let back = codec (gen_txs format [] draws k.ops_per_tx k.batch_tx_num 0) in
    (
      ap length back ∙ length-gen_txs format draws k.ops_per_tx k.batch_tx_num 0,
      rw back (gen_txs-AreBlind format draws k.ops_per_tx k.batch_tx_num 0),
    )
