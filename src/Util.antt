-- ===== src/Util.antt =====
-- zpbft/util.go: bytes of a number, identities of nodes. `strings.Split`, `strconv.Atoi` and
-- `strconv.Itoa` are the fields of `Text`; texts are lists of bytes.
pub mod Slices
pub mod Bytes
pub mod Identities
use praft.Prelude.{
  ℕ, zero, suc, ◌+◌, ◌*◌, ◌%◌, ◌^◌, Bool, true, false, List, [], ◌∷◌, Option, none, some, Result,
  ok, panic, ◌>>=◌, or_panic, out_of_range, logged_error, replicate, if◌then◌else◌, ℤ, pos, negsuc,
  rem, quot, bits, signed64, is_zero,
}

pub record Text : Type 0 where
  pub split : List ℕ → List ℕ → List (List ℕ)
  pub atoi : List ℕ → Option ℤ
  pub itoa : ℕ → List ℕ

-- `I2Bytes`: the slice is made of zeros, and the loop ends at the last digit that is not 0.
unfoldable pub i2_bytes : ℤ → ℕ → List ℕ
i2_bytes num zero = []
i2_bytes num (suc len) =
    let rest = i2_bytes (quot num 256) len in
    bits (rem num 256) 256 ∷ (if is_zero (quot num 256) then replicate len 0 else rest)

-- The loop of `Bytes2I`, on the bit patterns of its int64 variables.
unfoldable pub bytes2_i_loop : List ℕ → ℕ → ℕ → ℕ → Result ℕ
bytes2_i_loop bytes zero base result = ok result
bytes2_i_loop [] (suc len) base result = panic out_of_range
bytes2_i_loop (b ∷ bytes) (suc len) base result =
    bytes2_i_loop bytes len (base * 256 % 2 ^ 64) ((result + b * base) % 2 ^ 64)

-- `Bytes2I`
unfoldable pub bytes2_i : List ℕ → ℕ → Result ℤ
unfolding bytes2_i_loop
bytes2_i bytes len = bytes2_i_loop bytes len 1 0 >>= λ result. ok (signed64 result)

module _ (text : Text) where
  -- The loop of `GetId`, on the bit pattern of its int64.
  unfoldable pub id_prefix : List (List ℕ) → ℕ → Result ℕ
  id_prefix [] prefix = ok prefix
  id_prefix (span ∷ spans) prefix = or_panic (text.atoi span) logged_error >>= λ num.
      id_prefix spans ((prefix * 1000 + bits num (2 ^ 64)) % 2 ^ 64)

  -- `strings.Split(ip, ".")[2:]`
  unfoldable pub after_two : List (List ℕ) → Result (List (List ℕ))
  after_two [] = panic out_of_range
  after_two (a ∷ []) = panic out_of_range
  after_two (a ∷ (b ∷ spans)) = ok spans

  -- `GetId`
  unfoldable pub get_id : List ℕ → ℤ → Result ℕ
  unfolding id_prefix after_two
  get_id ip port = do
    spans ← after_two (text.split ip (b'.' ∷ []))
    prefix ← id_prefix spans 0
    ok ((prefix * 100 + bits (rem port 100) (2 ^ 64)) % 2 ^ 64)

  addr_parts : List (List ℕ) → Result (List ℕ × List ℕ)
  addr_parts [] = panic out_of_range
  addr_parts (ip ∷ []) = panic out_of_range
  addr_parts (ip ∷ (port ∷ more)) = ok (ip, port)

  -- `Addr2Id`
  unfoldable pub addr2_id : List ℕ → Result ℕ
  unfolding addr_parts get_id
  addr2_id addr = do
    parts ← addr_parts (text.split addr (b':' ∷ []))
    port ← or_panic (text.atoi parts.1) logged_error
    get_id parts.0 port
