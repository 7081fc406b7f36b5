-- ===== src/Util/Identities.antt =====
-- When two nodes get the same identity from `GetId`.
use praft.Prelude.{
  ℕ, ◌+◌, ◌*◌, ◌%◌, ◌^◌, ◌<◌, ◌≡◌, ◌↔◌, sym, ap, ◌∙◌, List, [], ◌∷◌, some, ok, ok-inj, arith, pos,
}
use praft.Util.{Text, id_prefix, after_two, get_id}

-- The text of an IPv4 address whose last two numbers are `c` and `d`.
pub record IsAddress (text : Text) (ip : List ℕ) (c d : ℕ) : Type 0 where
  pub first : List ℕ
  pub second : List ℕ
  pub third : List ℕ
  pub fourth : List ℕ
  pub parts : text.split ip (b'.' ∷ []) ≡ first ∷ second ∷ third ∷ fourth ∷ []
  pub third_num : text.atoi third ≡ some (pos c)
  pub fourth_num : text.atoi fourth ≡ some (pos d)
  pub third_small : c < 256
  pub fourth_small : d < 256

-- Of an address `GetId` takes the last two numbers, and of the port the last two digits.
pub get_id_lem :
    (text : Text) (ip : List ℕ) (c d port : ℕ)
    → IsAddress text ip c d
    → get_id text ip (pos port) ≡ ok ((c * 1000 + d) * 100 + port % 100)
unfolding get_id id_prefix after_two
get_id_lem text ip c d port a =
    let value : (((0 * 1000 + c % 2 ^ 64) % 2 ^ 64 * 1000 + d % 2 ^ 64) % 2 ^ 64 * 100
            + port % 100 % 2 ^ 64)
          % 2 ^ 64
        ≡ (c * 1000 + d) * 100 + port % 100 =
      omega (arith, a.third_small, a.fourth_small) in
    rw (a.parts, a.third_num, a.fourth_num) (ap ok value)

-- Two nodes have the same identity exactly if their addresses agree in the last two numbers and their
-- ports in the last two digits.
pub get_id_iff :
    (text : Text) (ip ip' : List ℕ) (c d c' d' port port' : ℕ)
    → IsAddress text ip c d
    → IsAddress text ip' c' d'
    → (get_id text ip (pos port) ≡ get_id text ip' (pos port'))
      ↔ ((c ≡ c') × (d ≡ d') × (port % 100 ≡ port' % 100))
get_id_iff text ip ip' c d c' d' port port' a a' =
    let e = get_id_lem text ip c d port a in
    let e' = get_id_lem text ip' c' d' port' a' in
    (
      λ same.
          let value : (c * 1000 + d) * 100 + port % 100 ≡ (c' * 1000 + d') * 100 + port' % 100 =
            ok-inj (sym e ∙ same ∙ e') in
          omega (arith, value, a.third_small, a.fourth_small, a'.third_small, a'.fourth_small),
      λ same. e ∙ ap ok (omega (arith, same)) ∙ sym e',
    )
