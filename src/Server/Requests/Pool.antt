-- ===== src/Server/Requests/Pool.antt =====
-- What `makeReq` takes from the transaction pool, and what it should take.
use praft.Prelude.{
  ℕ, ◌+◌, ◌-◌, ◌≤◌, ◌<◌, ◌≡◌, refl, true, List, [], ◌∷◌, ◌++◌, map, arith, ◌==◌, if◌then◌else◌,
}
use praft.Messages.{TxPoolUnit}
use praft.Server.Requests.{take_batches}

-- The transactions that wait in the pool.
abbrev pub pending : List TxPoolUnit → ℕ
pending [] = 0
pending (b ∷ bs) = b.tx_num + pending bs

-- Where the pool holds at most what a request may still take, the loop takes all of it: the pool is
-- empty afterwards and `realBatchTxNum` has grown by what was in it.
pub take_batches_all :
    (batch now real : ℕ) (bs : List TxPoolUnit)
    → real + pending bs ≤ batch
    → ((take_batches batch now real bs).1 ≡ real + pending bs)
      × (pending (take_batches batch now real bs).0 ≡ 0)
unfolding take_batches
take_batches_all batch now real [] h = (omega arith, refl)
take_batches_all batch now real (b ∷ bs) h =
    ground (arith, take_batches_all batch now (real + b.tx_num) bs)

-- Where the pool holds more, `realBatchTxNum` ends at the configured batch size, and no transaction
-- leaves the pool uncounted.
pub take_batches_full :
    (batch now real : ℕ) (bs : List TxPoolUnit)
    → real ≤ batch
    → batch < real + pending bs
    → ((take_batches batch now real bs).1 ≡ batch)
      × (real + pending bs ≤ batch + pending (take_batches batch now real bs).0)
unfolding take_batches
take_batches_full batch now real [] le h = absurd (omega arith)
take_batches_full batch now real (b ∷ bs) le h =
    ground (arith, take_batches_full batch now (real + b.tx_num) bs)

-- A batch that was taken as a whole.
abbrev pub emptied : ℕ → TxPoolUnit → TxPoolUnit
emptied now b =
    if b.tx_num == 0 then b else record b { tx_num = 0; complete_time = now; completed = true }

pending-emptied :
    (now : ℕ) (front rest : List TxPoolUnit)
    → pending (map (emptied now) front ++ rest) ≡ pending rest
pending-emptied now [] rest = refl
pending-emptied now (b ∷ front) rest = ground (arith, pending-emptied now front rest)

pending-append :
    (front rest : List TxPoolUnit) → pending (front ++ rest) ≡ pending front + pending rest
pending-append [] rest = omega arith
pending-append (b ∷ front) rest = omega (arith, pending-append front rest)

take_batches_at :
    (batch now real : ℕ) (front : List TxPoolUnit) (b : TxPoolUnit) (rest : List TxPoolUnit)
    → real + pending front ≤ batch
    → batch < real + pending front + b.tx_num
    → ((take_batches batch now real (front ++ b ∷ rest)).0 ≡ map (emptied now) front ++ b ∷ rest)
      × ((take_batches batch now real (front ++ b ∷ rest)).1 ≡ batch)
unfolding take_batches
take_batches_at batch now real [] b rest le h = ground arith
take_batches_at batch now real (a ∷ front) b rest le h =
    ground (arith, take_batches_at batch now (real + a.tx_num) front b rest)

-- The batches of the pool from the oldest on that fit into a request together are taken, each as a
-- whole. But the batch at which the loop stops, because the request has no room for all of it, keeps
-- all its transactions, as do those after it: `realBatchTxNum` is raised to the full size first, so
-- what is subtracted from the batch is 0. So the transactions counted as taken and those left in the
-- pool are more than there were, by as many as the batches before left room for.
pub take_batches_stops :
    (batch now real : ℕ) (front : List TxPoolUnit) (b : TxPoolUnit) (rest : List TxPoolUnit)
    → real + pending front ≤ batch
    → batch < real + pending front + b.tx_num
    → ((take_batches batch now real (front ++ b ∷ rest)).0 ≡ map (emptied now) front ++ b ∷ rest)
      × ((take_batches batch now real (front ++ b ∷ rest)).1 ≡ batch)
      × ((take_batches batch now real (front ++ b ∷ rest)).1
            + pending (take_batches batch now real (front ++ b ∷ rest)).0
          ≡ real + pending (front ++ b ∷ rest) + (batch - (real + pending front)))
take_batches_stops batch now real front b rest le h =
    let (left, counted) = take_batches_at batch now real front b rest le h in
    (
      left,
      counted,
      rw (left, counted)
          (omega (arith, pending-emptied now front (b ∷ rest), pending-append front (b ∷ rest))),
    )
