-- ===== src/Tree.antt =====
-- zpbft/tree.go: the tree over which a server broadcasts. The nodes lie in a store and point to their
-- children by their places in it, as the program's nodes do by address. The order in which Go runs
-- over the map `id2srvCli` is the order of the list of identities.
pub mod Places
pub mod Shape
pub mod Sections
pub mod Search
pub mod Order
use praft.Prelude.{
  ℕ, zero, suc, ◌+◌, ◌/◌, Bool, true, false, List, [], ◌∷◌, ◌++◌, Option, none, some, Result, ok,
  panic, ◌>>=◌, or_panic, out_of_range, out_of_fuel, length, get_elem?, set, map, ltb, ◌==◌,
  if◌then◌else◌,
}

pub record TreeNode : Type 0 where
  pub id : ℕ
  pub child_num : ℕ
  pub children : List ℕ

-- The variables of `makeTree`'s second loop.
pub record Building : Type 0 where
  pub nodes : List TreeNode
  pub current_node : ℕ
  pub no_child_node_set : List ℕ

-- `treeIp`: the busy identities come last.
unfoldable pub busy_ids : List ℕ → List ℕ
busy_ids [] = []
busy_ids (id ∷ ids) = if id / 100 == 148045 then id ∷ busy_ids ids else busy_ids ids

unfoldable pub idle_ids : List ℕ → List ℕ
idle_ids [] = []
idle_ids (id ∷ ids) = if id / 100 == 148045 then idle_ids ids else id ∷ idle_ids ids

unfoldable pub tree_ip : List ℕ → List ℕ
unfolding busy_ids idle_ids
tree_ip ids = idle_ids ids ++ busy_ids ids

abbrev pub new_node : ℕ → TreeNode
new_node id = record { id = id; child_num = 0; children = [] }

-- The new node joins the store, the children of the node at `parent`, and the set.
unfoldable pub attach : ℕ → ℕ → TreeNode → List ℕ → List TreeNode → Building
attach id parent node rest nodes = record {
  nodes =
      set nodes parent (record node {
        child_num = suc node.child_num;
        children = node.children ++ length nodes ∷ [];
      })
      ++ new_node id ∷ [];
  current_node = parent;
  no_child_node_set = rest ++ length nodes ∷ [];
}

-- The `else` branch: the next node without children takes the new one, if there is one.
unfoldable pub attach_next : ℕ → List ℕ → Building → Result Building
unfolding attach
attach_next id [] t = ok t
attach_next id (next ∷ rest) t =
    or_panic (get_elem? t.nodes next) out_of_range >>= λ node. ok (attach id next node rest t.nodes)

-- One round of the loop.
unfoldable pub add_node : ℕ → ℕ → Building → Result Building
unfolding attach attach_next
add_node child_num id t = or_panic (get_elem? t.nodes t.current_node) out_of_range >>= λ node.
    (if ltb node.child_num child_num
      then ok (attach id t.current_node node t.no_child_node_set t.nodes)
      else attach_next id t.no_child_node_set t)

unfoldable pub add_nodes : ℕ → List ℕ → Building → Result Building
unfolding add_node
add_nodes child_num [] t = ok t
add_nodes child_num (id ∷ ids) t = add_node child_num id t >>= add_nodes child_num ids

-- `makeTree`: the root is the store's first node.
unfoldable pub make_tree : List ℕ → ℕ → ℕ → Result (List TreeNode)
unfolding add_nodes tree_ip
make_tree ids child_num local_node_id =
    add_nodes child_num (tree_ip ids)
      (record { nodes = new_node local_node_id ∷ []; current_node = 0; no_child_node_set = [] })
    >>= λ t. ok t.nodes

-- The identities of the nodes at these places.
unfoldable pub ids_at : List TreeNode → List ℕ → Result (List ℕ)
ids_at nodes [] = ok []
ids_at nodes (place ∷ places) = do
  node ← or_panic (get_elem? nodes place) out_of_range
  ids ← ids_at nodes places
  ok (node.id ∷ ids)

-- `Children[0]` to `Children[n-1]`
unfoldable pub first_children : ℕ → List ℕ → Result (List ℕ)
first_children zero children = ok []
first_children (suc n) [] = panic out_of_range
first_children (suc n) (child ∷ children) = do rest ← first_children n children; ok (child ∷ rest)

-- One place of the queue: the answer, or the children that join the queue.
unfoldable pub visit : List TreeNode → ℕ → ℕ → Result (Bool × List ℕ)
unfolding first_children ids_at
visit nodes node_id place = or_panic (get_elem? nodes place) out_of_range >>= λ node.
    (first_children node.child_num node.children >>= λ children.
    (if node.id == node_id
      then (ids_at nodes children >>= λ ids. ok (true, ids))
      else ok (false, children)))

-- `traverseTree`, with the places in `tempNode`.
unfoldable pub traverse : ℕ → List TreeNode → ℕ → List ℕ → Result (List ℕ)
unfolding visit
traverse zero nodes node_id temp_node = panic out_of_fuel
traverse (suc fuel) nodes node_id [] = ok []
traverse (suc fuel) nodes node_id (place ∷ temp_node) = visit nodes node_id place >>= λ seen.
    (let later = traverse fuel nodes node_id (temp_node ++ seen.1) in
      if seen.0 then ok seen.1 else later)

unfoldable pub traverse_tree : List TreeNode → ℕ → Result (List ℕ)
unfolding traverse
traverse_tree nodes node_id = traverse (suc (suc (length nodes))) nodes node_id (0 ∷ [])
