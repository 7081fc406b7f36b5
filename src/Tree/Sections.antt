-- ===== src/Tree/Sections.antt =====
-- Sections of lists and of ranges of places, by which the children of a node are described.
use praft.Prelude.{
  ℕ, zero, suc, ◌+◌, ◌-◌, ◌≤◌, ◌<◌, ◌≡◌, refl, sym, ap, ◌∙◌, inl, inr, Bool-cases, ◌==◌, true, List,
  [], ◌∷◌, ◌++◌, some, length, get_elem?, range, arith, elem, Distinct,
}
use praft.Tree.Places.{min}

abbrev pub take : ℕ → List ℕ → List ℕ
take zero xs = []
take (suc n) [] = []
take (suc n) (x ∷ xs) = x ∷ take n xs

abbrev pub drop : ℕ → List ℕ → List ℕ
drop zero xs = xs
drop (suc n) [] = []
drop (suc n) (x ∷ xs) = drop n xs

pub range-append : (a n m : ℕ) → range a n ++ range (a + n) m ≡ range a (n + m)
range-append a zero m =
    (let start : a + 0 ≡ a = omega arith in
      let count : m ≡ 0 + m = omega arith in ap (λ b. range b m) start ∙ ap (range a) count)
range-append a (suc n) m =
    (let start : a + suc n ≡ suc a + n = omega arith in
      let count : suc (n + m) ≡ suc n + m = omega arith in
      ap (a ∷◌) (ap (λ b. range (suc a) n ++ range b m) start ∙ range-append (suc a) n m)
      ∙ ap (range a) count)

pub elem-get_elem : (xs : List ℕ) (i x : ℕ) → get_elem? xs i ≡ some x → elem x xs ≡ true
elem-get_elem [] i x e = cc
elem-get_elem (y ∷ ys) zero x e = ground arith
elem-get_elem (y ∷ ys) (suc i) x e = ground (arith, elem-get_elem ys i x e)

pub get_elem-bound : (xs : List ℕ) (i x : ℕ) → get_elem? xs i ≡ some x → i < length xs
get_elem-bound [] i x e = cc
get_elem-bound (y ∷ ys) zero x e = omega arith
get_elem-bound (y ∷ ys) (suc i) x e = omega (arith, get_elem-bound ys i x e)

pub get_elem-Distinct :
    (xs : List ℕ) (i j x : ℕ)
    → Distinct xs
    → get_elem? xs i ≡ some x
    → get_elem? xs j ≡ some x
    → i ≡ j
get_elem-Distinct [] i j x d e f = cc
get_elem-Distinct (y ∷ ys) zero zero x d e f = refl
get_elem-Distinct (y ∷ ys) zero (suc j) x d e f = absurd (ground (arith, elem-get_elem ys j x f))
get_elem-Distinct (y ∷ ys) (suc i) zero x d e f = absurd (ground (arith, elem-get_elem ys i x e))
get_elem-Distinct (y ∷ ys) (suc i) (suc j) x d e f = ap suc (get_elem-Distinct ys i j x d.1 e f)

pub take-drop-suc :
    (xs : List ℕ) (s n x : ℕ)
    → get_elem? xs s ≡ some x
    → take (suc n) (drop s xs) ≡ x ∷ take n (drop (suc s) xs)
take-drop-suc [] s n x e = cc
take-drop-suc (y ∷ ys) zero n x e = cc
take-drop-suc (y ∷ ys) (suc s) n x e = take-drop-suc ys s n x e

pub length-drop : (s : ℕ) (xs : List ℕ) → length (drop s xs) ≡ length xs - s
length-drop zero xs = omega arith
length-drop (suc s) [] = omega arith
length-drop (suc s) (x ∷ xs) = omega (arith, length-drop s xs)

pub take_short : (n : ℕ) (xs : List ℕ) → take (min n (length xs)) xs ≡ take n xs
take_short zero xs = (let none : min 0 (length xs) ≡ 0 = ground arith in ap (λ k. take k xs) none)
take_short (suc n) [] = (let none : min (suc n) 0 ≡ 0 = ground arith in ap (λ k. take k []) none)
take_short (suc n) (x ∷ xs) =
    let step : min (suc n) (suc (length xs)) ≡ suc (min n (length xs)) = ground arith in
    ap (λ k. take k (x ∷ xs)) step ∙ ap (x ∷◌) (take_short n xs)

pub get_elem-drop : (s : ℕ) (xs : List ℕ) (j : ℕ) → get_elem? (drop s xs) j ≡ get_elem? xs (s + j)
get_elem-drop zero xs j = (let e : j ≡ 0 + j = omega arith in ap (get_elem? xs) e)
get_elem-drop (suc s) [] j = refl
get_elem-drop (suc s) (x ∷ xs) j =
    (let e : suc (s + j) ≡ suc s + j = omega arith in
      get_elem-drop s xs j ∙ ap (get_elem? (x ∷ xs)) e)

pub get_elem-take : (n : ℕ) (xs : List ℕ) (j : ℕ) → j < n → get_elem? (take n xs) j ≡ get_elem? xs j
get_elem-take zero xs j h = absurd (omega (arith, h))
get_elem-take (suc n) [] j h = refl
get_elem-take (suc n) (x ∷ xs) zero h = refl
get_elem-take (suc n) (x ∷ xs) (suc j) h = get_elem-take n xs j (omega (arith, h))

pub length-take_le : (n : ℕ) (xs : List ℕ) → length (take n xs) ≤ n
length-take_le zero xs = omega arith
length-take_le (suc n) [] = omega arith
length-take_le (suc n) (x ∷ xs) = omega (arith, length-take_le n xs)

pub elem-index : (x : ℕ) (xs : List ℕ) → elem x xs ≡ true → (i : ℕ) × (get_elem? xs i ≡ some x)
elem-index x [] h = cc
elem-index x (y ∷ ys) h = elim (Bool-cases (x == y)) [
  | inl same ↦ (0, ground arith)
  | inr other ↦
      (let later : elem x ys ≡ true = ground (arith, h) in
        let (i, e) = elem-index x ys later in (suc i, e))
]

-- What stands in a section of a list, by its place there.
pub elem-section :
    (xs : List ℕ) (s n j x : ℕ)
    → get_elem? xs (s + j) ≡ some x
    → j < n
    → elem x (take n (drop s xs)) ≡ true
elem-section xs s n j x e h =
    elem-get_elem (take n (drop s xs)) j x
      (get_elem-take n (drop s xs) j h ∙ get_elem-drop s xs j ∙ e)

pub section-index :
    (xs : List ℕ) (s n x : ℕ)
    → elem x (take n (drop s xs)) ≡ true
    → (j : ℕ) × (j < n) × (get_elem? xs (s + j) ≡ some x)
section-index xs s n x h =
    let (j, e) = elem-index x (take n (drop s xs)) h in
    let below : j < n =
      omega (arith, get_elem-bound (take n (drop s xs)) j x e, length-take_le n (drop s xs)) in
    (j, below, sym (get_elem-take n (drop s xs) j below ∙ get_elem-drop s xs j) ∙ e)
