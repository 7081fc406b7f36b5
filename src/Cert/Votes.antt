-- ===== src/Cert/Votes.antt =====
-- Counting votes: zpbft/cert.go's Voted, Vote and Ballot methods together.
use praft.Prelude.{
  ℕ, suc, ◌≡◌, true, some, arith, ◌==◌, insert, keys, Distinct, ok, if◌then◌else◌, length-insert,
  lookup-insert, Distinct-keys-insert,
}
use praft.Messages.{DuplicateConfirmArgs, DuplicateConfirmMsg}
use praft.Cert.{LogCert, duplicate_confirm_voted, duplicate_confirm_vote, duplicate_confirm_ballot}

-- On votes of distinct nodes, a vote whose message is there succeeds; the ballot then grows by one if
-- the node had not voted and stays if it had, the nodes that have voted are those that had and this
-- one, and the votes are again of distinct nodes.
pub duplicate_confirm_vote_lem :
    (lc : LogCert) (args : DuplicateConfirmArgs) (msg : DuplicateConfirmMsg)
    → args.msg ≡ some msg
    → Distinct (keys lc.duplicate_confirms)
    → (lc' : LogCert) × (duplicate_confirm_vote lc args ≡ ok lc')
      × (duplicate_confirm_ballot lc' ≡ (
          if duplicate_confirm_voted lc msg.node_id
          then duplicate_confirm_ballot lc
          else suc (duplicate_confirm_ballot lc)))
      × ((n : ℕ)
          → duplicate_confirm_voted lc' n
            ≡ (if msg.node_id == n then true else duplicate_confirm_voted lc n))
      × Distinct (keys lc'.duplicate_confirms)
unfolding duplicate_confirm_vote duplicate_confirm_ballot duplicate_confirm_voted
duplicate_confirm_vote_lem lc args msg e d = (
  record lc { duplicate_confirms = insert msg.node_id args lc.duplicate_confirms },
  ground arith,
  length-insert msg.node_id args lc.duplicate_confirms,
  λ n. ground (arith, lookup-insert msg.node_id n args lc.duplicate_confirms),
  Distinct-keys-insert msg.node_id args lc.duplicate_confirms d,
)
