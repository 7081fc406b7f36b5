-- ===== src/Util/Slices.antt =====
-- Byte slices, and `SliceEqual` of zpbft/util.go.
use praft.Prelude.{
  ℕ, ◌≡◌, refl, ◌↔◌, Bool, true, false, ◌&&◌, List, [], ◌∷◌, Option, none, some, arith, ◌==◌,
}

-- A Go slice of bytes: `none` is the nil slice, which is not the empty one.
abbrev pub Slice : Type 0
Slice = Option (List ℕ)

-- What a read of the slice sees: a nil slice has no bytes.
abbrev pub bytes_of : Slice → List ℕ
bytes_of none = []
bytes_of (some xs) = xs

-- The tests `len(a) != len(b)` and the loop `v != b[i]` in one walk.
unfoldable pub same_bytes : List ℕ → List ℕ → Bool
same_bytes [] [] = true
same_bytes [] (y ∷ ys) = false
same_bytes (x ∷ xs) [] = false
same_bytes (x ∷ xs) (y ∷ ys) = x == y && same_bytes xs ys

abbrev pub both_nil : Slice → Slice → Bool
both_nil none none = true
both_nil none (some ys) = false
both_nil (some xs) none = false
both_nil (some xs) (some ys) = true

-- `SliceEqual`: the lengths and bytes agree, and neither or both are nil.
unfoldable pub slice_equal : Slice → Slice → Bool
unfolding same_bytes
slice_equal a b = same_bytes (bytes_of a) (bytes_of b) && both_nil a b

pub same_bytes-eq : (xs ys : List ℕ) → same_bytes xs ys ≡ true → xs ≡ ys
unfolding same_bytes
same_bytes-eq [] [] h = refl
same_bytes-eq [] (y ∷ ys) h = cc
same_bytes-eq (x ∷ xs) [] h = cc
same_bytes-eq (x ∷ xs) (y ∷ ys) h = ground (arith, same_bytes-eq xs ys)

pub same_bytes_refl : (xs : List ℕ) → same_bytes xs xs ≡ true
unfolding same_bytes
same_bytes_refl [] = refl
same_bytes_refl (x ∷ xs) = ground (arith, same_bytes_refl xs)

pub slice_equal-eq : (a b : Slice) → slice_equal a b ≡ true → a ≡ b
unfolding slice_equal
slice_equal-eq none none h = refl
slice_equal-eq none (some ys) h = ground arith
slice_equal-eq (some xs) none h = ground arith
slice_equal-eq (some xs) (some ys) h = ground (arith, same_bytes-eq xs ys)

pub slice_equal_refl : (a : Slice) → slice_equal a a ≡ true
unfolding slice_equal
slice_equal_refl none = refl
slice_equal_refl (some xs) = ground (arith, same_bytes_refl xs)

-- `SliceEqual` is true exactly when the two slices are equal, where a nil slice and an empty slice
-- count as different.
pub slice_equal_iff : (a b : Slice) → (slice_equal a b ≡ true) ↔ (a ≡ b)
slice_equal_iff a b = (slice_equal-eq a b, λ e. rw e (slice_equal_refl b))
