-- ===== src/Server/Loops/Steps.antt =====
-- What a server does once it is started: its loops and its handlers, a step at a time.
use praft.Prelude.{ℕ, ◌≡◌, Bool, List, [], ◌∷◌, ok}
use praft.Messages.{
  DuplicateArgs, DuplicateConfirmArgs, SendingArgs, SendingReturnArgs, PrepareArgs,
  PrepareConfirmArgs, CommitConfirmArgs,
}
use praft.Crypto.{Primitives}
use praft.Config.{Config}
use praft.Server.{Server}
use praft.Server.Requests.{push_tx_to_pool}
use praft.Server.Duplicate.{duplicate_rpc}
use praft.Server.Broadcast.{TreeBroadcastArgs, Relayed, tree_duplicate_rpc}
use praft.Server.Blocks.{receiving, sending_reply}
use praft.Server.Phases.{prepare_rpc, commit_rpc}
use praft.Server.Start.Connected.{RunOver}
use praft.Server.Loops.{Worker, start_work, work_round, poll_round, control_round, confirm_round}

module _ (p : Primitives) (k : Config) where
  -- The calls of other servers but `PrepareRpc`, the replies to blocks, and `pushTxToPool`.
  pub data Handles (s : Server) : Server → Type 0 where
    stored_for :
        {s' : Server} (args : DuplicateArgs) (reply : DuplicateConfirmArgs)
        → duplicate_rpc p k args s ≡ ok (s', reply)
        → Handles s s'
    relayed_for :
        (args : TreeBroadcastArgs) (r : Relayed)
        → tree_duplicate_rpc p k args s ≡ ok r
        → Handles s r.server
    received_from :
        {s' : Server} (args : SendingArgs) (reply : SendingReturnArgs)
        → receiving p k args s ≡ ok (s', reply)
        → Handles s s'
    answered_by :
        {s' : Server} (args : SendingReturnArgs) → sending_reply k args s ≡ ok s' → Handles s s'
    committed_for :
        (args : PrepareArgs) (r : Server × CommitConfirmArgs)
        → commit_rpc p k args s ≡ ok r
        → Handles s r.0
    pooled : (now : ℕ) → Handles s (push_tx_to_pool k now s)

  -- The rounds of the loops, the handlers, and `pushTxToPool`, in any order, after `connect` has run
  -- over these nodes in every round. A confirmation may name any number: it is of a peer, of a node of
  -- the tree, or given back by one. `erased` collects the numbers that `PrepareRpc` is called for.
  pub data Works (start : Server) (nodes : List ℕ) : List ℕ → Worker → Type 0 where
    launched :
        (rounds : List (List (ℕ × Bool))) (w : Worker)
        → start.seq_ch ≡ []
        → start.dup_time ≡ []
        → start.peers ≡ []
        → RunOver nodes rounds
        → start_work rounds start ≡ ok w
        → Works start nodes [] w
    worked :
        {erased : List ℕ} {w w' : Worker} (ids : List ℕ)
        → Works start nodes erased w
        → work_round p k ids w ≡ ok w'
        → Works start nodes erased w'
    polled :
        {erased : List ℕ} {w w' : Worker} (now : ℕ) (tx_set : List ℕ)
        → Works start nodes erased w
        → poll_round p k now tx_set w ≡ ok w'
        → Works start nodes erased w'
    took_confirm :
        {erased : List ℕ} {w w' : Worker} (now seq : ℕ) (args : DuplicateConfirmArgs)
        → Works start nodes erased w
        → confirm_round p k now seq args w ≡ ok w'
        → Works start nodes erased w'
    controlled :
        {erased : List ℕ} {w w' : Worker} (args : SendingArgs)
        → Works start nodes erased w
        → control_round p k w ≡ ok (w', args)
        → Works start nodes erased w'
    handled :
        {erased : List ℕ} {w : Worker} {s' : Server}
        → Works start nodes erased w
        → Handles w.server s'
        → Works start nodes erased (record w { server = s' })
    prepared_for :
        {erased : List ℕ} {w : Worker} (args : PrepareArgs) (r : Server × PrepareConfirmArgs)
        → Works start nodes erased w
        → prepare_rpc p k args w.server ≡ ok r
        → Works start nodes (args.msg.seq ∷ erased) (record w { server = r.0 })
