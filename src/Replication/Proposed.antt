-- ===== src/Replication/Proposed.antt =====
-- A request from `makeReq` into a block, and what the peers that stored it can do with the block:
-- `duplicate`, `Sending` and `execute` together (zpbft/server.go).
use praft.Prelude.{
  ℕ, suc, subst, ◌≡◌, ◌≢◌, refl, ap, ◌∙◌, true, List, [], ◌∷◌, ◌++◌, some, none, ok, lookup, length,
  Distinct,
}
use praft.Util.Slices.{Slice}
use praft.Messages.{TxPoolUnit, RequestMsg, RequestArgs, DuplicatedReqUnit, SendingArgs}
use praft.Crypto.{Primitives, sha256_digest}
use praft.Crypto.Keys.{IsKeyPair, sign_verify}
use praft.Config.{Config}
use praft.Server.{Server}
use praft.Server.Requests.{assign_seq, last_batch}
use praft.Server.Requests.Making.{request_at}
use praft.Server.Duplicate.Handshake.{Exchange, make_and_duplicate}
use praft.Server.Duplicate.Handshake.Answer.{IsMember}
use praft.Server.Duplicate.Handshake.Enough.{ids, AreReady, AllHold, is_enough}
use praft.Server.Duplicate.Handshake.Complete.{make_and_duplicate_lem}
use praft.Server.Blocks.{build_block, record_block, clear_reqs, sending}
use praft.Server.Execute.Known.{all_known}
use praft.Ycsb.Replicas.{block_sets}

-- Every server can run these requests, and finds these transaction sets.
abbrev pub AllCanRun : List DuplicatedReqUnit → List (List ℕ) → List Server → Type 0
AllCanRun reqs sets [] = Unit {0}
AllCanRun reqs sets (peer ∷ rest) =
    (all_known reqs peer.seq2cert ≡ true)
    × (block_sets reqs peer.seq2cert ≡ sets)
    × AllCanRun reqs sets rest

AllHold-AllCanRun :
    (unit : DuplicatedReqUnit) (req : RequestArgs) (digest : Slice) (peers peers' : List Server)
    → AllHold unit.seq req digest peers peers'
    → AllCanRun (unit ∷ []) (req.req.tx_set ∷ []) peers'
AllHold-AllCanRun unit req digest [] [] all = tt
AllHold-AllCanRun unit req digest [] (peer' ∷ rest') all = absurd all
AllHold-AllCanRun unit req digest (peer ∷ rest) [] all = tt
AllHold-AllCanRun unit req digest (peer ∷ rest) (peer' ∷ rest') (same, holds, all) = (
  rw (holds.found, holds.same_req) refl,
  rw (holds.found, holds.same_req) refl,
  AllHold-AllCanRun unit req digest rest rest' all,
)

AllHold-length :
    (seq : ℕ) (req : RequestArgs) (digest : Slice) (peers peers' : List Server)
    → AllHold seq req digest peers peers'
    → length peers' ≡ length peers
AllHold-length seq req digest [] [] all = refl
AllHold-length seq req digest [] (peer' ∷ rest') all = absurd all
AllHold-length seq req digest (peer ∷ rest) [] all = absurd all
AllHold-length seq req digest (peer ∷ rest) (peer' ∷ rest') (same, holds, all) =
    ap suc (AllHold-length seq req digest rest rest' all)

sending_reqs :
    (p : Primitives) (s : Server)
    → IsKeyPair p s.node.pri_key s.node.pub_key
    → (s' : Server) × (args : SendingArgs) × (sending p s ≡ ok (s', args))
      × (args.msg.block.duplicated_reqs ≡ s.local_duplicated_reqs)
unfolding sending build_block record_block clear_reqs
sending_reqs p s keys =
    let msg = (build_block s).1 in
    let (sign, signed, verified) =
      sign_verify p s.node.pri_key s.node.pub_key (sha256_digest p msg) keys in
    (
      clear_reqs (record_block msg (build_block s).0),
      record { msg = msg; digest = sha256_digest p msg; sign = sign },
      rw signed refl,
      refl,
    )

module _ (p : Primitives) (k : Config) (now later : ℕ) (tx_set : List ℕ) (s : Server)
    (b : TxPoolUnit) (peers : List Server) where
  -- A request that the server makes and duplicates goes into its next block, and its peers can run it.
  pub record IsProposed : Type 0 where
    pub after : Exchange
    pub after_block : Server
    pub block : SendingArgs
    pub given : DuplicatedReqUnit
    pub run : make_and_duplicate p k now later tx_set peers s ≡ ok after
    pub sends : sending p after.maker ≡ ok (after_block, block)
    pub in_block : block.msg.block.duplicated_reqs ≡ s.local_duplicated_reqs ++ given ∷ []
    pub given_seq : given.seq ≡ (assign_seq s).1
    pub can_run : AllCanRun (given ∷ []) (tx_set ∷ []) after.peers
    pub all_peers : length after.peers ≡ length peers

  -- Let a proposer make a request as for the duplication: the pool's newest batch is not empty, the
  -- number is new to the server and not committed at its peers, these are different nodes, and all
  -- are configured nodes whose keys fit. If there are enough peers for the request to be reported,
  -- then `makeReq`, `duplicate`, the calls of the peers and `Sending` after them do not panic; the
  -- block has the requests that waited before and, last, this one; and at every peer the executor's
  -- test finds this one to be there, with the transactions that were made.
  pub make_and_duplicate-IsProposed :
      last_batch s.tx_pool_batches ≡ some b
      → b.tx_num ≢ 0
      → IsMember p k s
      → lookup (assign_seq s).1 s.seq2cert ≡ none
      → AreReady p k (assign_seq s).1 peers
      → Distinct (ids peers)
      → is_enough k.fault_num 0 (length peers) ≡ true
      → IsProposed
  make_and_duplicate-IsProposed last full member fresh ready d enough =
      let done =
        make_and_duplicate_lem p k now later tx_set s b peers last full member fresh ready d in
      let keys : IsKeyPair p done.after.maker.node.pri_key done.after.maker.node.pub_key =
        rw done.same_node member.keys in
      let (after_block, block, sends, its_reqs) = sending_reqs p done.after.maker keys in
      record {
        after = done.after;
        after_block = after_block;
        block = block;
        given = done.given;
        run = done.run;
        sends = sends;
        in_block = its_reqs ∙ done.reports ∙ rw enough refl;
        given_seq = done.given_seq;
        can_run =
            subst (λ sets. AllCanRun (done.given ∷ []) sets done.after.peers)
              (ap (λ (req : RequestMsg). req.tx_set ∷ []) done.made)
              (AllHold-AllCanRun done.given done.req (sha256_digest p (request_at now tx_set)) peers
                done.after.peers (rw done.given_seq done.held));
        all_peers = AllHold-length _ _ _ peers done.after.peers done.held;
      }
