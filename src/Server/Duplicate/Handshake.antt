-- ===== src/Server/Duplicate/Handshake.antt =====
-- The duplication of one request from end to end (zpbft/server.go): `makeReq`, `duplicate`, the
-- peers' `DuplicateRpc`, and the goroutines that take their confirmations.
pub mod Answer
pub mod Taken
pub mod Enough
pub mod Complete
use praft.Prelude.{
  ℕ, zero, suc, Bool, List, [], ◌∷◌, Result, ok, ◌>>=◌, or_panic, out_of_range, Option, none, some,
  if◌then◌else◌,
}
use praft.Messages.{DuplicateArgs}
use praft.Crypto.{Primitives}
use praft.Config.{Config}
use praft.Server.{Server}
use praft.Server.Requests.{make_req}
use praft.Server.Duplicate.{duplicate, duplicate_rpc, collect_reply}

-- The servers afterwards, and how many new requests were asked for.
pub record Exchange : Type 0 where
  pub maker : Server
  pub peers : List Server
  pub asked : ℕ

-- The number that the duplicating goroutine finds at the end of `seqCh`.
unfoldable pub newest : List ℕ → Option ℕ
newest [] = none
newest (seq ∷ []) = some seq
newest (seq ∷ (next ∷ later)) = newest (next ∷ later)

module _ (p : Primitives) (k : Config) where
  -- The goroutines of `duplicate`, one for each peer, in the order in which the calls return. The
  -- peer runs `DuplicateRpc`; its reply is then taken. A new request waits for the pool.
  unfoldable pub call_peers : ℕ → DuplicateArgs → List Server → Server → Result Exchange
  unfolding duplicate_rpc collect_reply
  call_peers now args [] s = ok (record { maker = s; peers = []; asked = 0 })
  call_peers now args (peer ∷ rest) s = do
    called ← duplicate_rpc p k args peer
    taken ← collect_reply p k now args.msg.seq called.1 s
    others ← call_peers now args rest taken.0
    ok (record {
      maker = others.maker;
      peers = called.0 ∷ others.peers;
      asked = if taken.1 then suc others.asked else others.asked;
    })

  -- A request is made and, taken from `seqCh`, duplicated.
  unfoldable pub make_and_duplicate : ℕ → ℕ → List ℕ → List Server → Server → Result Exchange
  unfolding make_req duplicate newest call_peers
  make_and_duplicate now later tx_set peers s = do
    made ← make_req p k now tx_set s
    seq ← or_panic (newest made.seq_ch) out_of_range
    (sent, args) ← duplicate p k seq made
    call_peers later args peers sent
