-- ===== src/Server/Requests.antt =====
-- Making requests (zpbft/server.go): `pushTxToPool`, `assignSeq`, `makeReq`. The clock and the
-- transactions of `GenTxSet` are arguments.
pub mod Pool
pub mod Sequence
pub mod Making
use praft.Prelude.{
  ℕ, zero, suc, ◌+◌, ◌-◌, ◌*◌, ◌/◌, ◌%◌, ◌^◌, Bool, true, false, List, [], ◌∷◌, ◌++◌, Option, none,
  some, Result, ok, panic, ◌>>=◌, or_panic, out_of_range, blocked, ltb, ◌==◌, if◌then◌else◌,
}
use praft.Util.Slices.{Slice}
use praft.Messages.{TxPoolUnit, RequestMsg, RequestArgs}
use praft.Crypto.{Primitives, sha256_digest, rsa_sign_with_sha256}
use praft.Config.{Config, get_node}
use praft.Cert.{LogCert, set}
use praft.Server.{Server, update_cert}

-- The increment of `assignSeq`: the last ten digits of a sequence number stay those of the node.
abbrev pub seq_step : ℕ
seq_step = 10_000_000_000

-- An int64 is held as its bit pattern: `atomic.AddInt64` wraps.
unfoldable pub assign_seq : Server → Server × ℕ
assign_seq s = let seq = (s.seq_inc + seq_step) % 2 ^ 64 in (record s { seq_inc = seq }, seq)

-- One round of `pushTxToPool`.
unfoldable pub push_tx_to_pool : Config → ℕ → Server → Server
push_tx_to_pool k now s =
    let load = k.load / k.proposer_num in
    record s {
      tx_pool = s.tx_pool + load;
      cumulative = s.cumulative + load;
      tx_pool_batches =
          s.tx_pool_batches
          ++ record { tx_num = load; arrival_time = now; complete_time = 0; completed = false }
            ∷ [];
    }

-- `txPoolBatches[len-1]`
unfoldable pub last_batch : List TxPoolUnit → Option TxPoolUnit
last_batch [] = none
last_batch (b ∷ []) = some b
last_batch (b ∷ (c ∷ bs)) = last_batch (c ∷ bs)

-- The loop at line 1096, with `real` for `realBatchTxNum`: the batches afterwards and `real`.
unfoldable pub take_batches : ℕ → ℕ → ℕ → List TxPoolUnit → List TxPoolUnit × ℕ
take_batches batch now real [] = ([], real)
take_batches batch now real (b ∷ bs) =
    let rest = take_batches batch now (real + b.tx_num) bs in
    let emptied = record b { tx_num = 0; complete_time = now; completed = true } in
    let full = real + (batch - real) in
    if ltb (batch - real) b.tx_num
    then (record b { tx_num = b.tx_num - (batch - full) } ∷ bs, full)
    else (if b.tx_num == 0 then (b ∷ rest.0, rest.1) else (emptied ∷ rest.0, rest.1))

-- The pool is looked at once its last batch has transactions; until then `makeReq` polls.
unfoldable pub take_from_pool : ℕ → ℕ → List TxPoolUnit → Result (List TxPoolUnit)
unfolding last_batch take_batches
take_from_pool batch now batches = or_panic (last_batch batches) out_of_range >>= λ b.
    (if b.tx_num == 0 then panic blocked else ok (take_batches batch now 0 batches).0)

-- Lines 1140 to 1149: the signed request gets its number, its certificate, and is sent on `seq_ch`.
unfoldable pub issue : ℕ → RequestArgs → Slice → List TxPoolUnit → Server → Server
unfolding assign_seq update_cert set
issue now args digest batches s =
    let (s', seq) = assign_seq (record s { tx_pool_batches = batches }) in
    record s' {
      seq2cert =
          update_cert seq
            (λ cert. record (set cert (some args) digest 0 s.node.id) { produce_time = now })
            s'.seq2cert;
      seq_ch = s'.seq_ch ++ seq ∷ [];
    }

module _ (p : Primitives) (k : Config) where
  -- `makeReq`, with the transactions that `GenTxSet` returns. What was taken from the pool does not
  -- enter the request, whose count is the configured one.
  unfoldable pub make_req : ℕ → List ℕ → Server → Result Server
  unfolding take_from_pool issue
  make_req now tx_set s = do
    batches ← take_from_pool k.batch_tx_num now s.tx_pool_batches
    let req : RequestMsg = record { tx_set = tx_set; timestamp = now; client_id = 0 }
    node ← get_node k s.node.id
    let digest = sha256_digest p req
    sign ← rsa_sign_with_sha256 p digest node.pri_key
    ok (issue now (record { req = req; sign = sign; tx_num = k.batch_tx_num }) digest batches s)
