-- ===== src/Tree/Order.antt =====
-- The order of the tree's nodes has each peer, once.
use praft.Prelude.{
  ℕ, ◌/◌, ◌≡◌, refl, ◌∙◌, true, false, not, ◌&&◌, List, [], ◌∷◌, ◌++◌, elem, Distinct, elem-append,
  arith, ◌==◌,
}
use praft.Tree.{tree_ip, idle_ids, busy_ids}

elem-idle_ids :
    (x : ℕ) (ids : List ℕ) → elem x (idle_ids ids) ≡ (elem x ids && not (x / 100 == 148045))
unfolding idle_ids
elem-idle_ids x [] = refl
elem-idle_ids x (id ∷ ids) = ground (arith, elem-idle_ids x ids)

elem-busy_ids : (x : ℕ) (ids : List ℕ) → elem x (busy_ids ids) ≡ (elem x ids && x / 100 == 148045)
unfolding busy_ids
elem-busy_ids x [] = refl
elem-busy_ids x (id ∷ ids) = ground (arith, elem-busy_ids x ids)

-- The tree's order has the same identities.
pub elem-tree_ip : (x : ℕ) (ids : List ℕ) → elem x (tree_ip ids) ≡ elem x ids
unfolding tree_ip
elem-tree_ip x ids =
    ground
      (arith, elem-append x (idle_ids ids) (busy_ids ids), elem-idle_ids x ids, elem-busy_ids x ids)

Distinct-idle_ids : (ids : List ℕ) → Distinct ids → Distinct (idle_ids ids)
unfolding idle_ids
Distinct-idle_ids [] d = tt
Distinct-idle_ids (id ∷ ids) d = ground (arith, Distinct-idle_ids ids d.1, elem-idle_ids id ids)

Distinct-busy_ids : (ids : List ℕ) → Distinct ids → Distinct (busy_ids ids)
unfolding busy_ids
Distinct-busy_ids [] d = tt
Distinct-busy_ids (id ∷ ids) d = ground (arith, Distinct-busy_ids ids d.1, elem-busy_ids id ids)

Distinct-append :
    (xs ys : List ℕ)
    → Distinct xs
    → Distinct ys
    → ((x : ℕ) → elem x xs ≡ true → elem x ys ≡ false)
    → Distinct (xs ++ ys)
Distinct-append [] ys d e apart = e
Distinct-append (x ∷ xs) ys d e apart = (
  ground (arith, elem-append x xs ys, apart x),
  Distinct-append xs ys d.1 e (λ y h. apart y (ground (arith, h))),
)

Distinct-tree_ip : (ids : List ℕ) → Distinct ids → Distinct (tree_ip ids)
unfolding tree_ip
Distinct-tree_ip ids d =
    Distinct-append (idle_ids ids) (busy_ids ids) (Distinct-idle_ids ids d)
      (Distinct-busy_ids ids d) (λ x h. ground (arith, elem-idle_ids x ids, elem-busy_ids x ids))

pub Distinct-order :
    (root : ℕ) (ids : List ℕ) → Distinct (root ∷ ids) → Distinct (root ∷ tree_ip ids)
Distinct-order root ids d = (elem-tree_ip root ids ∙ d.0, Distinct-tree_ip ids d.1)
