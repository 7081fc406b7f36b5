-- ===== src/Server/Loops.antt =====
-- The goroutines that run as long as the server does (zpbft/server.go): `Start`, `workLoop` and
-- `controlSending`, a round at a time. `makeReq` polls the pool, and may so be taken long after it is
-- called: the calls of it that still poll are counted.
pub mod Frames
pub mod Handlers
pub mod Phases
pub mod Steps
pub mod Numbers
pub mod Working
pub mod Sending
use praft.Prelude.{
  ℕ, zero, suc, Bool, true, false, List, [], ◌∷◌, ◌++◌, Result, ok, panic, ◌>>=◌, or_panic, blocked,
  get_elem?, ◌+◌, ◌==◌, if◌then◌else◌,
}
use praft.Messages.{DuplicateArgs, SendingArgs, DuplicateConfirmArgs}
use praft.Crypto.{Primitives}
use praft.Config.{Config}
use praft.Server.{Server}
use praft.Server.Blocks.{sending}
use praft.Server.Requests.{make_req}
use praft.Server.Duplicate.{duplicate, collect_reply}
use praft.Server.Broadcast.{TreeBroadcastArgs, tree_duplicate, tree_reply}
use praft.Server.Start.{connect}

-- What a round of `workLoop` sends, and to which nodes.
pub data Sent : Type 0 where
  over_star : DuplicateArgs → List ℕ → Sent
  over_tree : TreeBroadcastArgs → List ℕ → Sent

-- `received` is how many values `workLoop` has taken from `seqCh`.
pub record Worker : Type 0 where
  pub server : Server
  pub received : ℕ
  pub polling : ℕ
  pub sent : List Sent

-- `Start` up to its call of `workLoop`, and the call of `makeReq` there.
unfoldable pub start_work : List (List (ℕ × Bool)) → Server → Result Worker
unfolding connect
start_work rounds s = connect s.node.id rounds s.peers >>= λ peers.
    ok (record { server = record s { peers = peers }; received = 0; polling = 1; sent = [] })

module _ (p : Primitives) (k : Config) where
  -- Lines 1163 to 1169. `ids` is the order in which Go runs over `id2srvCli`.
  unfoldable pub start_duplicating : List ℕ → ℕ → Server → Result (Server × Sent)
  unfolding duplicate tree_duplicate
  start_duplicating ids seq s =
      if k.duplicate_mode == 1
      then (duplicate p k seq s >>= λ r. ok (r.0, over_star r.1 ids))
      else (tree_duplicate p k ids seq s >>= λ r. ok (r.0, over_tree r.1 r.2))

  -- A round of `workLoop`: the next value of `seqCh`.
  unfoldable pub work_round : List ℕ → Worker → Result Worker
  unfolding start_duplicating
  work_round ids w = do
    seq ← or_panic (get_elem? w.server.seq_ch w.received) blocked
    started ← start_duplicating ids seq w.server
    ok (record w { server = started.0; received = suc w.received; sent = w.sent ++ started.1 ∷ [] })

  -- A call of `makeReq` that polls finds transactions in the pool.
  unfoldable pub poll_round : ℕ → List ℕ → Worker → Result Worker
  unfolding make_req
  poll_round now tx_set w = elim w.polling [
    | zero ↦ panic blocked
    | suc rest ↦
        (make_req p k now tx_set w.server >>= λ s. ok (record w { server = s; polling = rest }))
  ]

  -- The end of a round of `controlSending`, which the proposers run. Whether requests had been
  -- reported when it began decides only how long it has waited.
  unfoldable pub control_round : Worker → Result (Worker × SendingArgs)
  unfolding sending
  control_round w =
      if w.server.is_proposer
      then (sending p w.server >>= λ r. ok (record w { server = r.0 }, r.1))
      else panic blocked

  -- A confirmation comes back, from a peer or over the tree; `makeReq` is called if it reports the
  -- request.
  unfoldable pub confirm_round : ℕ → ℕ → DuplicateConfirmArgs → Worker → Result Worker
  unfolding collect_reply
  confirm_round now seq args w = collect_reply p k now seq args w.server >>= λ r.
      ok (record w { server = r.0; polling = if r.1 then suc w.polling else w.polling })
