-- ===== src/Tree/Places.antt =====
-- Places in a list and in a tree: what `makeTree` counts with.
use praft.Prelude.{
  ℕ, zero, suc, ◌+◌, ◌-◌, ◌*◌, ◌≤◌, ◌<◌, ◌≡◌, refl, false, Bool-cases, inl, inr, List, [], ◌∷◌,
  ◌++◌, Option, none, some, length, get_elem?, set, range, leb, ltb, ◌==◌, if◌then◌else◌, arith,
}
use praft.Tree.{TreeNode}

module _ {ℓ} {A : Type ℓ} where
  pub get_elem-append :
      (xs : List A) (y : A) (i : ℕ)
      → get_elem? (xs ++ y ∷ []) i ≡ (if i == length xs then some y else get_elem? xs i)
  get_elem-append [] y zero = refl
  get_elem-append [] y (suc i) = ground arith
  get_elem-append (x ∷ xs) y zero = ground arith
  get_elem-append (x ∷ xs) y (suc i) = ground (arith, get_elem-append xs y i)

  pub get_elem-set :
      (xs : List A) (j : ℕ) (v : A) (i : ℕ)
      → j < length xs
      → get_elem? (set xs j v) i ≡ (if i == j then some v else get_elem? xs i)
  get_elem-set [] j v i h = absurd (omega arith)
  get_elem-set (x ∷ xs) zero v zero h = ground arith
  get_elem-set (x ∷ xs) zero v (suc i) h = ground arith
  get_elem-set (x ∷ xs) (suc j) v zero h = ground arith
  get_elem-set (x ∷ xs) (suc j) v (suc i) h = ground (arith, get_elem-set xs j v i)

  pub length-set : (xs : List A) (j : ℕ) (v : A) → length (set xs j v) ≡ length xs
  length-set [] j v = refl
  length-set (x ∷ xs) zero v = refl
  length-set (x ∷ xs) (suc j) v = omega (arith, length-set xs j v)

  pub get_elem-lt : (xs : List A) (i : ℕ) → i < length xs → (x : A) × (get_elem? xs i ≡ some x)
  get_elem-lt [] i h = absurd (omega arith)
  get_elem-lt (x ∷ xs) zero h = (x, refl)
  get_elem-lt (x ∷ xs) (suc i) h = get_elem-lt xs i (omega arith)

abbrev pub min : ℕ → ℕ → ℕ
min a b = if leb a b then a else b

-- The node with this identity at place `i`, in a tree of `m` nodes below the root.
abbrev pub node_in : ℕ → ℕ → ℕ → ℕ → TreeNode
node_in d m i id = record {
  id = id;
  child_num = min d (m - i * d);
  children = range (suc (i * d)) (min d (m - i * d));
}

abbrev pub node_of : ℕ → ℕ → ℕ → Option ℕ → Option TreeNode
node_of d m i none = none
node_of d m i (some id) = some (node_in d m i id)

pub mul_step : (i c d : ℕ) → i < c → i * d + d ≤ c * d
mul_step i zero d h = absurd (omega arith)
mul_step zero (suc c) d h = omega arith
mul_step (suc i) (suc c) d h = omega (arith, mul_step i c d (omega arith))

pub le_mul : (n d : ℕ) → 0 < d → n ≤ n * d
le_mul zero d h = omega arith
le_mul (suc n) d h = omega (arith, le_mul n d h)

-- A new node changes no node but its parent.
pub min_stays :
    (d m c i : ℕ)
    → c * d ≤ m
    → m < c * d + d
    → (i == c) ≡ false
    → min d (m - i * d) ≡ min d (suc m - i * d)
min_stays d m c i lo hi other = elim (Bool-cases (ltb i c)) [
  | inl less ↦ (let lt : i < c = ground arith in ground (arith, mul_step i c d lt))
  | inr more ↦ (let lt : c < i = ground arith in ground (arith, mul_step c i d lt))
]

pub node_of_stays :
    (d m n i : ℕ) (o : Option ℕ)
    → min d (m - i * d) ≡ min d (n - i * d)
    → node_of d m i o ≡ node_of d n i o
node_of_stays d m n i none e = refl
node_of_stays d m n i (some id) e = cc e
