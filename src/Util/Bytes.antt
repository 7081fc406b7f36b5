-- ===== src/Util/Bytes.antt =====
-- `I2Bytes` and `Bytes2I` are inverse to each other on the numbers that fit.
use praft.Prelude.{
  ℕ, zero, suc, ◌+◌, ◌-◌, ◌*◌, ◌/◌, ◌%◌, ◌^◌, ◌<◌, ◌≡◌, refl, sym, ap, ◌∙◌, Bool-cases, inl, inr,
  List, [], ◌∷◌, ok, replicate, arith, ◌==◌, length, neg, bits, ℤ, pos, negsuc, signed64,
}
use native.Mathlib.Nat.{div-add-mod}
use praft.Util.{i2_bytes, bytes2_i_loop, bytes2_i}

i2_bytes-zero : (len : ℕ) → i2_bytes (pos 0) len ≡ replicate len 0
unfolding i2_bytes
i2_bytes-zero zero = refl
i2_bytes-zero (suc len) = refl

-- The early end of the loop makes no difference.
i2_bytes_step : (n len : ℕ) → i2_bytes (pos n) (suc len) ≡ n % 256 ∷ i2_bytes (pos (n / 256)) len
unfolding i2_bytes
i2_bytes_step n len = elim (Bool-cases (n / 256 == 0)) [
  | inl last ↦
      (let none_left : n / 256 ≡ 0 = ground arith in
        let byte : n % 256 % 256 ≡ n % 256 = omega arith in
        rw (last, byte)
          (ap (n % 256 ∷◌) (sym (ap (λ q. i2_bytes (pos q) len) none_left ∙ i2_bytes-zero len))))
  | inr more ↦ (let byte : n % 256 % 256 ≡ n % 256 = omega arith in rw (more, byte) refl)
]

-- One byte of the sum.
sum_step :
    (n base result : ℕ)
    → ((result + n % 256 * base) % 2 ^ 64 + n / 256 * (base * 256 % 2 ^ 64)) % 2 ^ 64
      ≡ (result + n * base) % 2 ^ 64
sum_step n base result = omega (
  arith,
  ap (λ (t : ℕ). t * base) (div-add-mod n 256),
  ap (λ (t : ℕ). n / 256 * t) (div-add-mod (base * 256) (2 ^ 64)),
)

loop-i2_bytes :
    (len n base result : ℕ)
    → n < 256 ^ len
    → result < 2 ^ 64
    → bytes2_i_loop (i2_bytes (pos n) len) len base result ≡ ok ((result + n * base) % 2 ^ 64)
unfolding bytes2_i_loop
loop-i2_bytes zero n base result h fits =
    (let none_left : n ≡ 0 = omega (arith, h) in
      let same : result ≡ (result + n * base) % 2 ^ 64 =
        omega (arith, fits, ap (λ (t : ℕ). t * base) none_left) in
      ap ok same)
loop-i2_bytes (suc len) n base result h fits =
    let step =
      loop-i2_bytes len (n / 256) (base * 256 % 2 ^ 64) ((result + n % 256 * base) % 2 ^ 64)
        (omega (arith, h)) (omega arith) in
    rw (i2_bytes_step n len) (step ∙ ap ok (sum_step n base result))

signed-pos : (n : ℕ) → n < 2 ^ 63 → signed64 n ≡ pos n
signed-pos n h = ground arith

-- A number that is not negative, fits an int64 and has at most `len` bytes comes back.
pub bytes2_i-i2_bytes :
    (n len : ℕ) → n < 2 ^ 63 → n < 256 ^ len → bytes2_i (i2_bytes (pos n) len) len ≡ ok (pos n)
unfolding bytes2_i
bytes2_i-i2_bytes n len fits h =
    let same : (0 + n * 1) % 2 ^ 64 ≡ n = omega (arith, fits) in
    rw (loop-i2_bytes len n 1 0 h (omega arith), same) (ap ok (signed-pos n fits))

-- The number that bytes stand for, the lowest first.
abbrev value : List ℕ → ℕ
value [] = 0
value (b ∷ bytes) = b + 256 * value bytes

abbrev AreBytes : List ℕ → Type 0
AreBytes [] = Unit {0}
AreBytes (b ∷ bytes) = (b < 256) × AreBytes bytes

i2_bytes-value :
    (bytes : List ℕ) → AreBytes bytes → i2_bytes (pos (value bytes)) (length bytes) ≡ bytes
i2_bytes-value [] h = unfold i2_bytes in refl
i2_bytes-value (b ∷ bytes) (hb, h) =
    let low : (b + 256 * value bytes) % 256 ≡ b = omega (arith, hb) in
    let high : (b + 256 * value bytes) / 256 ≡ value bytes = omega (arith, hb) in
    rw (i2_bytes_step (b + 256 * value bytes) (length bytes), low, high)
      (ap (b ∷◌) (i2_bytes-value bytes h))

value-lt : (bytes : List ℕ) → AreBytes bytes → value bytes < 256 ^ length bytes
value-lt [] h = omega arith
value-lt (b ∷ bytes) (hb, h) =
    (let below : b + 256 * value bytes < 256 ^ suc (length bytes) =
        omega (arith, hb, value-lt bytes h) in
      below)

pow-pos : (len : ℕ) → 0 < 256 ^ len
pow-pos zero = omega arith
pow-pos (suc len) = omega (arith, pow-pos len)

-- Any bytes, if their number fits an int64, come back from it.
i2_bytes-bytes2_i :
    (bytes : List ℕ)
    → AreBytes bytes
    → value bytes < 2 ^ 63
    → (num : ℤ) × (bytes2_i bytes (length bytes) ≡ ok num) × (i2_bytes num (length bytes) ≡ bytes)
i2_bytes-bytes2_i bytes h fits =
    let back = i2_bytes-value bytes h in
    (
      pos (value bytes),
      ap (λ bs. bytes2_i bs (length bytes)) (sym back)
          ∙ bytes2_i-i2_bytes (value bytes) (length bytes) fits (value-lt bytes h),
      back,
    )

i2_bytes_small : (m len : ℕ) → m < 256 → i2_bytes (pos m) (suc len) ≡ m ∷ replicate len 0
i2_bytes_small m len h =
    let low : m % 256 ≡ m = omega (arith, h) in
    let high : m / 256 ≡ 0 = omega (arith, h) in
    rw (i2_bytes_step m len, low, high, i2_bytes-zero len) refl

i2_bytes_negative :
    (n len : ℕ) → n < 255 → i2_bytes (negsuc n) (suc len) ≡ (255 - n) ∷ replicate len 0
unfolding i2_bytes
i2_bytes_negative n len h =
    let high : neg (suc n / 256) ≡ pos 0 = ground arith in
    let low : bits (neg (suc n % 256)) 256 ≡ 255 - n = ground arith in rw (high, low) refl

-- A negative number does not come back: -1 to -255 come back as 255 to 1.
negative_not_restored :
    (n len : ℕ) → n < 255 → bytes2_i (i2_bytes (negsuc n) (suc len)) (suc len) ≡ ok (pos (255 - n))
negative_not_restored n len h =
    ap (λ bytes. bytes2_i bytes (suc len))
      (i2_bytes_negative n len h ∙ sym (i2_bytes_small (255 - n) len (omega (arith, h))))
    ∙ bytes2_i-i2_bytes (255 - n) (suc len) (omega (arith, h)) (omega (arith, h, pow-pos len))
