-- ===== src/Server/Start/Everyone.antt =====
-- A broadcast over the tree by a server that has connected to the others.
use praft.Prelude.{ℕ, ◌≡◌, Bool, true, false, List, [], ok, elem, Distinct, arith, ◌==◌, ==_refl}
use praft.Tree.{TreeNode, make_tree}
use praft.Tree.Shape.{make_tree_lem}
use praft.Server.Broadcast.Reach.{Receives, broadcast_reaches}
use praft.Server.Start.{connect}
use praft.Server.Start.Connected.{RunOver, connect-AreConnected}

-- When `connect` has returned, in every round of which Go has run over the same identities, and in whatever
-- order Go runs over `id2srvCli` afterwards, `makeTree` does not panic; and if every node that has
-- the message relays it to the nodes that `traverseTree` names, the message reaches every other node.
pub connected_broadcast :
    (own : ℕ) (ids order : List ℕ) (rounds : List (List (ℕ × Bool))) (peers : List ℕ) (node : ℕ)
    → RunOver ids rounds
    → connect own rounds [] ≡ ok peers
    → Distinct order
    → ((id : ℕ) → elem id order ≡ elem id peers)
    → elem node ids ≡ true
    → (node == own) ≡ false
    → (nodes : List TreeNode) × (make_tree order 2 own ≡ ok nodes) × Receives nodes own node
connected_broadcast own ids order rounds peers node run e distinct same member other =
    let (once, all) = connect-AreConnected own ids rounds peers run e in
    let (nodes, built, long, shape) = make_tree_lem order 2 own (omega arith) in
    let fresh : elem own order ≡ false = ground (arith, same own, all own, ==_refl own) in
    let reached : elem node order ≡ true = ground (arith, same node, all node, member, other) in
    (
      nodes,
      built,
      broadcast_reaches order 2 own nodes (omega arith) (fresh, distinct) built node reached,
    )
