-- ===== src/Tree/Shape.antt =====
-- The shape of the tree that `makeTree` builds.
use praft.Prelude.{
  ℕ, zero, suc, ◌+◌, ◌-◌, ◌*◌, ◌≤◌, ◌<◌, ◌≡◌, refl, ap, ◌∙◌, sym, true, false, Bool-cases, inl, inr,
  List, [], ◌∷◌, ◌++◌, append_assoc, append-nil, subst, some, ok, ◌>>=◌, length, get_elem?, set,
  range, range-suc, ltb, ◌==◌, some-inj, if◌then◌else◌, arith, length-append,
}
use praft.Tree.{
  TreeNode, Building, tree_ip, new_node, attach, attach_next, add_node, add_nodes, make_tree,
}
use praft.Tree.Places.{
  get_elem-append, get_elem-set, length-set, get_elem-lt, min, node_in, node_of, le_mul, min_stays,
  node_of_stays,
}

-- The tree after the identities `xs` have been added below the root.
pub record IsBuilt (d root : ℕ) (xs : List ℕ) (t : Building) : Type 0 where
  pub count : length t.nodes ≡ suc (length xs)
  pub at : (i : ℕ) → get_elem? t.nodes i ≡ node_of d (length xs) i (get_elem? (root ∷ xs) i)
  pub lo : t.current_node * d ≤ length xs
  pub hi : length xs ≤ t.current_node * d + d
  pub within : t.current_node ≤ length xs
  pub queue : t.no_child_node_set ≡ range (suc t.current_node) (length xs - t.current_node)

module _ (d root id c : ℕ) (xs : List ℕ) (nodes : List TreeNode) (own : ℕ) (positive : 0 < d)
    (count : length nodes ≡ suc (length xs))
    (at : (i : ℕ) → get_elem? nodes i ≡ node_of d (length xs) i (get_elem? (root ∷ xs) i))
    (lo : c * d ≤ length xs) (hi : length xs < c * d + d) (within : c ≤ length xs)
    (here : get_elem? (root ∷ xs) c ≡ some own) where
  grown : TreeNode
  grown = record {
    id = own;
    child_num = suc (min d (length xs - c * d));
    children = range (suc (c * d)) (min d (length xs - c * d)) ++ length nodes ∷ [];
  }

  grown_lem : grown ≡ node_in d (suc (length xs)) c own
  unfolding grown
  grown_lem =
      let r : ℕ = length xs - c * d in
      let before : min d (length xs - c * d) ≡ r = ground arith in
      let after : min d (suc (length xs) - c * d) ≡ suc r = ground arith in
      let place : length nodes ≡ suc (c * d) + r = omega (arith, count) in
      let places : range (suc (c * d)) (suc r) ≡ range (suc (c * d)) r ++ length nodes ∷ [] =
        range-suc (suc (c * d)) r ∙ ap (λ x. range (suc (c * d)) r ++ x ∷ []) (sym place) in
      cc (before, after, places)

  left_lem :
      (i : ℕ)
      → get_elem? (set nodes c grown ++ new_node id ∷ []) i ≡ (
          if i == suc (length xs)
          then some (new_node id)
          else (if i == c then some grown else get_elem? nodes i))
  left_lem i = ground (
    arith,
    get_elem-append (set nodes c grown) (new_node id) i,
    length-set nodes c grown,
    get_elem-set nodes c grown i (omega (arith, count, within)),
    count,
  )

  at-attach :
      (i : ℕ)
      → get_elem? (set nodes c grown ++ new_node id ∷ []) i
        ≡ node_of d (suc (length xs)) i (get_elem? ((root ∷ xs) ++ id ∷ []) i)
  at-attach i = elim (Bool-cases (i == suc (length xs))) [
    | inl last ↦
        (let no_room : min d (suc (length xs) - i * d) ≡ 0 = ground (arith, le_mul i d positive) in
          rw (left_lem i, get_elem-append (root ∷ xs) id i, last, no_room) refl)
    | inr inside ↦ elim (Bool-cases (i == c)) [
      | inl parent ↦
          (let same : i ≡ c = ground arith in
            rw (left_lem i, get_elem-append (root ∷ xs) id i, inside, parent, same, here)
              (ap some grown_lem))
      | inr other ↦
          rw (left_lem i, get_elem-append (root ∷ xs) id i, inside, other, at i)
            (node_of_stays d (length xs) (suc (length xs)) i (get_elem? (root ∷ xs) i)
              (min_stays d (length xs) c i lo hi other))
    ]
  ]

  -- The parent is the node itself.
  attach-IsBuilt :
      (node : TreeNode) (rest : List ℕ)
      → get_elem? nodes c ≡ some node
      → rest ≡ range (suc c) (length xs - c)
      → IsBuilt d root (xs ++ id ∷ []) (attach id c node rest nodes)
  unfolding attach grown
  attach-IsBuilt node rest found waiting =
      let own_node : node ≡ node_in d (length xs) c own =
        some-inj (sym found ∙ at c ∙ ap (node_of d (length xs) c) here) in
      let longer : length (xs ++ id ∷ []) ≡ suc (length xs) =
        omega (arith, length-append xs (id ∷ [])) in
      let place : length nodes ≡ suc c + (length xs - c) = omega (arith, count, within) in
      let parent : TreeNode = record node {
        child_num = suc node.child_num;
        children = node.children ++ length nodes ∷ [];
      } in
      let steps : length (xs ++ id ∷ []) - c ≡ suc (length xs - c) =
        omega (arith, longer, within) in
      record {
        count = omega (
          arith,
          length-append (set nodes c parent) (new_node id ∷ []),
          length-set nodes c parent,
          count,
          longer,
        );
        at = λ i. rw (own_node, longer) (at-attach i);
        lo = omega (arith, longer, lo);
        hi = omega (arith, longer, hi);
        within = omega (arith, longer, within);
        queue =
            rw (waiting, steps)
              (sym (
                range-suc (suc c) (length xs - c)
                ∙ ap (λ x. range (suc c) (length xs - c) ++ x ∷ []) (sym place)));
      }

module _ (d root id : ℕ) (xs : List ℕ) (t : Building) (positive : 0 < d)
    (b : IsBuilt d root xs t) where
  -- The node at a place of the tree.
  found_at :
      (c : ℕ)
      → c ≤ length xs
      → (own : ℕ) × (get_elem? (root ∷ xs) c ≡ some own)
        × (get_elem? t.nodes c ≡ some (node_in d (length xs) c own))
  found_at c within =
      let (own, here) = get_elem-lt (root ∷ xs) c (omega (arith, within)) in
      (own, here, b.at c ∙ ap (node_of d (length xs) c) here)

  add_here :
      length xs < t.current_node * d + d
      → (t' : Building) × (add_node d id t ≡ ok t') × IsBuilt d root (xs ++ id ∷ []) t'
  unfolding add_node
  add_here room =
      let (own, here, found) = found_at t.current_node b.within in
      let node = node_in d (length xs) t.current_node own in
      let roomy : ltb (min d (length xs - t.current_node * d)) d ≡ true = ground (arith, b.lo) in
      (
        attach id t.current_node node t.no_child_node_set t.nodes,
        rw (found, roomy) refl,
        attach-IsBuilt d root id t.current_node xs t.nodes own positive b.count b.at b.lo room
            b.within here node t.no_child_node_set found b.queue,
      )

  add_next :
      length xs ≡ t.current_node * d + d
      → (t' : Building) × (add_node d id t ≡ ok t') × IsBuilt d root (xs ++ id ∷ []) t'
  unfolding add_node attach_next
  add_next full =
      let c = t.current_node in
      let below : c ≤ c * d = le_mul c d positive in
      let within : suc c ≤ length xs = omega (arith, below, full, positive) in
      let (own, here, found) = found_at c b.within in
      let (next_own, next_here, next_found) = found_at (suc c) within in
      let node = node_in d (length xs) (suc c) next_own in
      let no_room : ltb (min d (length xs - c * d)) d ≡ false = ground (arith, full) in
      let step : length xs - c ≡ suc (length xs - suc c) = omega (arith, within) in
      let waiting : t.no_child_node_set ≡ suc c ∷ range (suc (suc c)) (length xs - suc c) =
        b.queue ∙ ap (range (suc c)) step in
      (
        attach id (suc c) node (range (suc (suc c)) (length xs - suc c)) t.nodes,
        rw (found, no_room, waiting, next_found) refl,
        attach-IsBuilt d root id (suc c) xs t.nodes next_own positive b.count b.at
            (omega (arith, full)) (omega (arith, full, positive)) within next_here node
            (range (suc (suc c)) (length xs - suc c)) next_found refl,
      )

  add_node-IsBuilt : (t' : Building) × (add_node d id t ≡ ok t') × IsBuilt d root (xs ++ id ∷ []) t'
  add_node-IsBuilt = elim (Bool-cases (ltb (length xs) (t.current_node * d + d))) [
    | inl room ↦ add_here (ground arith)
    | inr full ↦ add_next (ground (arith, b.hi))
  ]

add_nodes-IsBuilt :
    (d root : ℕ) (ids xs : List ℕ) (t : Building)
    → 0 < d
    → IsBuilt d root xs t
    → (t' : Building) × (add_nodes d ids t ≡ ok t') × IsBuilt d root (xs ++ ids) t'
unfolding add_nodes
add_nodes-IsBuilt d root [] xs t positive b = (t, refl, rw (append-nil xs) b)
add_nodes-IsBuilt d root (id ∷ ids) xs t positive b =
    let (t1, one, b1) = add_node-IsBuilt d root id xs t positive b in
    let (t2, more, b2) = add_nodes-IsBuilt d root ids (xs ++ id ∷ []) t1 positive b1 in
    (
      t2,
      ap (◌>>= add_nodes d ids) one ∙ more,
      subst (λ zs. IsBuilt d root zs t2) (append_assoc xs (id ∷ []) ids) b2,
    )

root_at :
    (d root : ℕ)
    → 0 < d
    → (i : ℕ) → get_elem? (new_node root ∷ []) i ≡ node_of d 0 i (get_elem? (root ∷ []) i)
root_at d root positive zero =
    (let none_yet : min d (0 - 0 * d) ≡ 0 = ground arith in
      ap (λ r. some (record { id = root; child_num = r; children = range (suc (0 * d)) r }))
        (sym none_yet))
root_at d root positive (suc i) = refl

root-IsBuilt :
    (d root : ℕ)
    → 0 < d
    → IsBuilt d root []
        (record { nodes = new_node root ∷ []; current_node = 0; no_child_node_set = [] })
root-IsBuilt d root positive = record {
  count = refl;
  at = root_at d root positive;
  lo = omega arith;
  hi = omega arith;
  within = omega arith;
  queue = refl;
}

-- The tree of `local_node_id` and the peers `ids`, with its children where they should be.
abbrev pub HasTree : List ℕ → ℕ → ℕ → Type 0
HasTree ids child_num local_node_id =
    (nodes : List TreeNode) × (make_tree ids child_num local_node_id ≡ ok nodes)
    × (length nodes ≡ suc (length (tree_ip ids)))
    × ((i : ℕ)
        → get_elem? nodes i
          ≡ node_of child_num (length (tree_ip ids)) i (get_elem? (local_node_id ∷ tree_ip ids) i))

-- For a positive number of children, `makeTree` does not panic, and builds the tree of the local node
-- and the peers, idle ones first, filled level by level: the node at place `i` in this order has as
-- children those at the places from `i * childNum + 1` on, `childNum` of them or as many as there are.
pub make_tree_lem :
    (ids : List ℕ) (child_num local_node_id : ℕ)
    → 0 < child_num
    → HasTree ids child_num local_node_id
unfolding make_tree
make_tree_lem ids child_num local_node_id positive =
    let (t, run, b) =
      add_nodes-IsBuilt child_num local_node_id (tree_ip ids) []
        (record { nodes = new_node local_node_id ∷ []; current_node = 0; no_child_node_set = [] })
        positive (root-IsBuilt child_num local_node_id positive) in
    (t.nodes, ap (◌>>= λ t. ok t.nodes) run, b.count, b.at)
