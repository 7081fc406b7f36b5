-- ===== src/Tests/Broadcast.antt =====
-- Tests of the broadcast over the tree, and the theorems about it at concrete inputs.
use praft.Prelude.{ℕ, ◌≡◌, refl, List, [], ◌∷◌, none, some, Result, ok, panic, arith}
use praft.Messages.{DuplicateConfirmArgs}
use praft.Tree.{TreeNode, make_tree, traverse_tree}
use praft.Server.Broadcast.Relay.{gather_all, gather_all_lem}
use praft.Server.Broadcast.Reach.{broadcast_once}

abbrev nodes_of : Result (List TreeNode) → List TreeNode
nodes_of (panic fault) = []
nodes_of (ok nodes) = nodes

-- Node 12 is the root, and relays to 11 and 13; node 11 relays to 14.
abbrev tree_of_12 : List TreeNode
unfolding make_tree
tree_of_12 = nodes_of (make_tree (11 ∷ 13 ∷ 14 ∷ []) 2 12)

relays_to_14 : traverse_tree tree_of_12 11 ≡ ok (14 ∷ [])
unfolding make_tree traverse_tree tree_of_12
relays_to_14 = refl

abbrev reply_of : ℕ → DuplicateConfirmArgs
reply_of id = record { msg = none; sign = some (id ∷ []) }

-- Two replies of two wake the goroutine, with both.
gather_all_lem_example :
    gather_all 2 [] (reply_of 13 ∷ reply_of 14 ∷ []) ≡ (reply_of 13 ∷ reply_of 14 ∷ []) ∷ []
gather_all_lem_example = gather_all_lem 2 (reply_of 13 ∷ reply_of 14 ∷ []) (omega arith)

broadcast_once_example : ◌≡◌ {A = ℕ} 11 11
unfolding tree_of_12 make_tree traverse_tree
broadcast_once_example =
    broadcast_once (11 ∷ 13 ∷ 14 ∷ []) 2 12 tree_of_12 (omega arith)
      (refl, (refl, (refl, (refl, tt)))) refl 11 11 14 (14 ∷ []) (14 ∷ []) refl refl refl refl refl
      refl
