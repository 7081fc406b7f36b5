-- ===== src/Server/Broadcast/Reach.antt =====
-- A broadcast over the tree reaches every peer: `treeDuplicate` and `TreeDuplicateRpc` relay to the
-- nodes that `traverseTree` names.
use praft.Prelude.{
  ℕ, zero, suc, ◌+◌, ◌*◌, ◌≤◌, ◌<◌, ◌≡◌, refl, sym, ap, ◌∙◌, true, inl, inr, List, ◌∷◌, some, ok,
  ◌>>=◌, get_elem?, elem, Distinct, arith, Bool-cases, ltb, some-inj, ok-inj,
}
use praft.Tree.{TreeNode, tree_ip, make_tree, traverse_tree}
use praft.Tree.Places.{mul_step, le_mul, get_elem-lt}
use praft.Tree.Sections.{
  take, drop, get_elem-bound, get_elem-Distinct, elem-index, elem-section, section-index,
}
use praft.Tree.Search.{traverse_tree_lem}
use praft.Tree.Order.{elem-tree_ip, Distinct-order}

-- The section of length `d` in which a place lies.
block_of_place : (d b : ℕ) → 0 < d → (a : ℕ) × (j : ℕ) × (b ≡ a * d + j) × (j < d)
block_of_place d zero h = (0, 0, omega arith, h)
block_of_place d (suc b) h =
    let (a, j, e, below) = block_of_place d b h in
    elim (Bool-cases (ltb (suc j) d)) [
      | inl room ↦ (a, suc j, ground (arith, e), ground arith)
      | inr full ↦
          (let next : suc j ≡ d = ground (arith, below) in (suc a, 0, omega (arith, e, next), h))
    ]

-- The nodes that the message reaches: the root, and every node to which one that it has reached relays.
pub data Receives (nodes : List TreeNode) (root : ℕ) : ℕ → Type 0 where
  at_root : (id : ℕ) → id ≡ root → Receives nodes root id
  relayed :
      (id next_id : ℕ) (next : List ℕ)
      → Receives nodes root id
      → traverse_tree nodes id ≡ ok next
      → elem next_id next ≡ true
      → Receives nodes root next_id

module _ (ids : List ℕ) (d root : ℕ) (nodes : List TreeNode) (positive : 0 < d)
    (distinct : Distinct (root ∷ ids)) (built : make_tree ids d root ≡ ok nodes) where
  children_of :
      (a id : ℕ)
      → get_elem? (root ∷ tree_ip ids) a ≡ some id
      → traverse_tree nodes id ≡ ok (take d (drop (a * d) (tree_ip ids)))
  children_of a id e =
      sym (ap (◌>>= λ nodes. traverse_tree nodes id) built)
      ∙ traverse_tree_lem ids d root a id positive (Distinct-order root ids distinct) e

  reaches_place :
      (n a id : ℕ) → a < n → get_elem? (root ∷ tree_ip ids) a ≡ some id → Receives nodes root id
  reaches_place zero a id h e = absurd (omega (arith, h))
  reaches_place (suc n) zero id h e = at_root id (some-inj (sym e))
  reaches_place (suc n) (suc b) id h e =
      let (a, j, place, below) = block_of_place d b positive in
      let bound = get_elem-bound (tree_ip ids) b id e in
      let up : a ≤ b = omega (arith, place, le_mul a d positive) in
      let (parent, at) = get_elem-lt (root ∷ tree_ip ids) a (omega (arith, up, bound)) in
      let among =
        elem-section (tree_ip ids) (a * d) d j id (ap (get_elem? (tree_ip ids)) (sym place) ∙ e)
          below in
      relayed parent id (take d (drop (a * d) (tree_ip ids)))
        (reaches_place n a parent (omega (arith, up, h)) at) (children_of a parent at) among

  -- With a positive number of children and distinct identities, a message that starts at the root and
  -- that every node which has it relays to the nodes that `traverseTree` names reaches every peer.
  pub broadcast_reaches : (peer : ℕ) → elem peer ids ≡ true → Receives nodes root peer
  broadcast_reaches peer h =
      let (b, e) = elem-index peer (tree_ip ids) (elem-tree_ip peer ids ∙ h) in
      reaches_place (suc (suc b)) (suc b) peer (omega arith) e

  same_block : (a c i j b : ℕ) → b ≡ a * d + i → b ≡ c * d + j → i < d → j < d → a ≡ c
  same_block a c i j b e f hi hj = elim (Bool-cases (ltb a c)) [
    | inl less ↦
        (let lt : a < c = ground arith in absurd (omega (arith, mul_step a c d lt, e, f, hi)))
    | inr more ↦ elim (Bool-cases (ltb c a)) [
      | inl less ↦
          (let lt : c < a = ground arith in absurd (omega (arith, mul_step c a d lt, e, f, hj)))
      | inr same ↦ ground arith
    ]
  ]

  sends_block :
      (sender peer : ℕ) (next : List ℕ)
      → elem sender (root ∷ ids) ≡ true
      → traverse_tree nodes sender ≡ ok next
      → elem peer next ≡ true
      → (a : ℕ) × (j : ℕ) × (get_elem? (root ∷ tree_ip ids) a ≡ some sender)
        × (j < d)
        × (get_elem? (tree_ip ids) (a * d + j) ≡ some peer)
  sends_block sender peer next member traversed among =
      let (a, at) =
        elem-index sender (root ∷ tree_ip ids) (ground (arith, elem-tree_ip sender ids)) in
      let lists = ok-inj (sym traversed ∙ children_of a sender at) in
      let (j, below, e) =
        section-index (tree_ip ids) (a * d) d peer (ap (elem peer) (sym lists) ∙ among) in
      (a, j, at, below, e)

  -- And no peer has the message relayed to it by two nodes.
  pub broadcast_once :
      (sender other peer : ℕ) (next next' : List ℕ)
      → elem sender (root ∷ ids) ≡ true
      → elem other (root ∷ ids) ≡ true
      → traverse_tree nodes sender ≡ ok next
      → traverse_tree nodes other ≡ ok next'
      → elem peer next ≡ true
      → elem peer next' ≡ true
      → sender ≡ other
  broadcast_once sender other peer next next' m m' t t' e e' =
      let (a, i, at, hi, place) = sends_block sender peer next m t e in
      let (c, j, at', hj, place') = sends_block other peer next' m' t' e' in
      let order = Distinct-order root ids distinct in
      let same_place =
        get_elem-Distinct (tree_ip ids) (a * d + i) (c * d + j) peer order.1 place place' in
      let same = same_block a c i j (a * d + i) refl same_place hi hj in
      some-inj (sym at ∙ ap (get_elem? (root ∷ tree_ip ids)) same ∙ at')
