-- ===== src/Tree/Search.antt =====
-- What `traverseTree` finds in the tree that `makeTree` builds.
use praft.Prelude.{
  ℕ, zero, suc, ◌+◌, ◌-◌, ◌*◌, ◌≤◌, ◌<◌, ◌≡◌, refl, ap, ◌∙◌, sym, true, false, Bool-cases, inl, inr,
  List, ◌∷◌, ◌++◌, some, ok, ◌>>=◌, length, get_elem?, range, leb, ◌==◌, if◌then◌else◌, arith,
  Distinct, append-nil,
}
use praft.Tree.Shape.{make_tree_lem}
use praft.Tree.{
  TreeNode, tree_ip, make_tree, ids_at, first_children, visit, traverse, traverse_tree,
}
use praft.Tree.Places.{get_elem-lt, min, node_of, le_mul}
use praft.Tree.Sections.{
  take, drop, range-append, get_elem-bound, get_elem-Distinct, take-drop-suc, length-drop,
  take_short,
}

first_children_all : (a n : ℕ) → first_children n (range a n) ≡ ok (range a n)
unfolding first_children
first_children_all a zero = refl
first_children_all a (suc n) = rw (first_children_all (suc a) n) refl

module _ (d root : ℕ) (xs : List ℕ) (nodes : List TreeNode)
    (at : (i : ℕ) → get_elem? nodes i ≡ node_of d (length xs) i (get_elem? (root ∷ xs) i)) where
  ids_at-range :
      (n s : ℕ) → s + n ≤ length xs → ids_at nodes (range (suc s) n) ≡ ok (take n (drop s xs))
  unfolding ids_at
  ids_at-range zero s h = refl
  ids_at-range (suc n) s h =
      let (x, e) = get_elem-lt xs s (omega (arith, h)) in
      let found = at (suc s) ∙ ap (node_of d (length xs) (suc s)) e in
      rw (found, ids_at-range n (suc s) (omega (arith, h))) (ap ok (sym (take-drop-suc xs s n x e)))

  -- The children of the node at place `k`, as places.
  abbrev child_places : ℕ → List ℕ
  child_places k = range (suc (k * d)) (min d (length xs - k * d))

  ids_at-child_places : (k : ℕ) → ids_at nodes (child_places k) ≡ ok (take d (drop (k * d) xs))
  unfolding ids_at
  ids_at-child_places k =
      let all : take (min d (length xs - k * d)) (drop (k * d) xs) ≡ take d (drop (k * d) xs) =
        ap (λ l. take (min d l) (drop (k * d) xs)) (sym (length-drop (k * d) xs))
        ∙ take_short d (drop (k * d) xs) in
      elim (Bool-cases (leb (k * d) (length xs))) [
        | inl some_left ↦
            ids_at-range (min d (length xs - k * d)) (k * d) (ground arith) ∙ ap ok all
        | inr past ↦
            (let none_left : min d (length xs - k * d) ≡ 0 = ground arith in
              ap (λ c. ids_at nodes (range (suc (k * d)) c)) none_left
              ∙ ap (λ c. ok (take c (drop (k * d) xs))) (sym none_left)
              ∙ ap ok all)
      ]

  visit_lem :
      (node_id k own : ℕ)
      → get_elem? (root ∷ xs) k ≡ some own
      → visit nodes node_id k
        ≡ ok (if own == node_id then (true, take d (drop (k * d) xs)) else (false, child_places k))
  unfolding visit
  visit_lem node_id k own e =
      let found = at k ∙ ap (node_of d (length xs) k) e in
      let children = first_children_all (suc (k * d)) (min d (length xs - k * d)) in
      elim (Bool-cases (own == node_id)) [
        | inl same ↦ rw (found, children, same, ids_at-child_places k) refl
        | inr other ↦ rw (found, children, other) refl
      ]

  -- The queue after the node at place `k`.
  next_queue :
      (k q : ℕ)
      → suc k + q ≡ suc (min (length xs) (k * d))
      → (r : ℕ) × (range (suc k) q ++ child_places k ≡ range (suc k) r)
        × (suc k + r ≡ suc (min (length xs) (suc k * d)))
  next_queue k q h = elim (Bool-cases (leb (k * d) (length xs))) [
    | inl some_left ↦
        (let c = min d (length xs - k * d) in
          let joint : suc (k * d) ≡ suc k + q = ground (arith, h) in
          (
            q + c,
            ap (λ b. range (suc k) q ++ range b c) joint ∙ range-append (suc k) q c,
            ground (arith, h),
          ))
    | inr past ↦
        (let none_left : min d (length xs - k * d) ≡ 0 = ground arith in
          (
            q,
            ap (λ c. range (suc k) q ++ range (suc (k * d)) c) none_left
                ∙ append-nil (range (suc k) q),
            ground (arith, h),
          ))
  ]

  -- From the queue that starts at place `k` on, the search ends at place `a`.
  traverse_from :
      (node_id a : ℕ)
      → 0 < d
      → Distinct (root ∷ xs)
      → get_elem? (root ∷ xs) a ≡ some node_id
      → a ≤ length xs
      → (n k q fuel : ℕ) → k + n ≡ a
      → k + q ≡ suc (min (length xs) (k * d))
      → n < fuel
      → traverse fuel nodes node_id (range k q) ≡ ok (take d (drop (a * d) xs))
  unfolding traverse
  traverse_from node_id a positive distinct e within n k q zero sum queue enough =
      absurd (omega (arith, enough))
  traverse_from node_id a positive distinct e within n k zero (suc fuel) sum queue enough =
      absurd (ground (arith, le_mul k d positive, sum, queue, within))
  traverse_from node_id a positive distinct e within zero k (suc q) (suc fuel) sum queue enough =
      let here : k ≡ a = omega (arith, sum) in
      let found = visit_lem node_id k node_id (ap (get_elem? (root ∷ xs)) here ∙ e) in
      let same : (node_id == node_id) ≡ true = ground arith in
      rw (found, same) (ap (λ j. ok (take d (drop (j * d) xs))) here)
  traverse_from node_id a positive distinct e within (suc n) k (suc q) (suc fuel) sum queue enough =
      let (own, own_here) = get_elem-lt (root ∷ xs) k (omega (arith, sum, within)) in
      let other : (own == node_id) ≡ false = elim (Bool-cases (own == node_id)) [
        | inr miss ↦ miss
        | inl hit ↦
            (let same : own ≡ node_id = ground arith in
              let clash : k ≡ a =
                get_elem-Distinct (root ∷ xs) k a node_id distinct (own_here ∙ ap some same) e in
              absurd (omega (arith, clash, sum)))
      ] in
      let (r, joined, next) = next_queue k q (omega (arith, queue)) in
      rw (visit_lem node_id k own own_here, other, joined)
        (traverse_from node_id a positive distinct e within n (suc k) r fuel (omega (arith, sum))
          next (omega (arith, enough)))

-- Where the identities are distinct and a positive number of children is asked for, building the tree
-- and looking a node up in it does not panic, and gives the identities that the tree's order
-- determines: the children of the node at place `a` are the peers from place `a * childNum` on,
-- `childNum` of them or as many as are left.
pub traverse_tree_lem :
    (ids : List ℕ) (child_num local_node_id a node_id : ℕ)
    → 0 < child_num
    → Distinct (local_node_id ∷ tree_ip ids)
    → get_elem? (local_node_id ∷ tree_ip ids) a ≡ some node_id
    → (make_tree ids child_num local_node_id >>= λ nodes. traverse_tree nodes node_id)
      ≡ ok (take child_num (drop (a * child_num) (tree_ip ids)))
unfolding traverse_tree
traverse_tree_lem ids child_num local_node_id a node_id positive distinct e =
    let (nodes, built, count, at) = make_tree_lem ids child_num local_node_id positive in
    let below : a < suc (length (tree_ip ids)) =
      get_elem-bound (local_node_id ∷ tree_ip ids) a node_id e in
    ap (◌>>= λ nodes. traverse_tree nodes node_id) built
    ∙ traverse_from child_num local_node_id (tree_ip ids) nodes at node_id a positive distinct e
        (omega (arith, below)) a 0 1 (suc (suc (length nodes))) (omega arith) (ground arith)
        (omega (arith, below, count))
