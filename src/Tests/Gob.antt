-- ===== src/Tests/Gob.antt =====
-- A toy codec of transactions: every list is preceded by its length.
use praft.Prelude.{ℕ, zero, suc, ◌≡◌, refl, ap, List, [], ◌∷◌, ◌++◌, length}
use praft.Ycsb.{Op, Tx}

-- The bytes of a text, and what follows them.
abbrev put_text : List ℕ → List ℕ → List ℕ
put_text bytes rest = length bytes ∷ (bytes ++ rest)

abbrev onto : ℕ → List ℕ × List ℕ → List ℕ × List ℕ
onto b (front, back) = (b ∷ front, back)

abbrev split_text : ℕ → List ℕ → List ℕ × List ℕ
split_text zero xs = ([], xs)
split_text (suc n) [] = ([], [])
split_text (suc n) (b ∷ xs) = onto b (split_text n xs)

abbrev take_text : List ℕ → List ℕ × List ℕ
take_text [] = ([], [])
take_text (n ∷ xs) = split_text n xs

abbrev head_of : List ℕ → ℕ
head_of [] = 0
head_of (b ∷ xs) = b

abbrev tail_of : List ℕ → List ℕ
tail_of [] = []
tail_of (b ∷ xs) = xs

abbrev put_ops : List Op → List ℕ → List ℕ
put_ops [] rest = rest
put_ops (op ∷ ops) rest = op.op_type ∷ put_text op.key (put_text op.val (put_ops ops rest))

abbrev take_ops : ℕ → List ℕ → List Op × List ℕ
take_ops zero xs = ([], xs)
take_ops (suc n) xs =
    let key = take_text (tail_of xs) in
    let val = take_text key.1 in
    let rest = take_ops n val.1 in
    (record { op_type = head_of xs; key = key.0; val = val.0 } ∷ rest.0, rest.1)

abbrev put_txs : List Tx → List ℕ
put_txs [] = []
put_txs (tx ∷ txs) = length tx.ops ∷ put_ops tx.ops (put_txs txs)

abbrev take_txs : ℕ → List ℕ → List Tx
take_txs zero xs = []
take_txs (suc n) xs =
    let ops = take_ops (head_of xs) (tail_of xs) in
    let rest = take_txs n ops.1 in record { ops = ops.0 } ∷ rest

abbrev pub encode : List Tx → List ℕ
encode txs = length txs ∷ put_txs txs

abbrev pub decode : List ℕ → List Tx
decode xs = take_txs (head_of xs) (tail_of xs)

split_text-append :
    (bytes rest : List ℕ) → split_text (length bytes) (bytes ++ rest) ≡ (bytes, rest)
split_text-append [] rest = refl
split_text-append (b ∷ bytes) rest = ap (onto b) (split_text-append bytes rest)

take_ops-put_ops :
    (ops : List Op) (rest : List ℕ) → take_ops (length ops) (put_ops ops rest) ≡ (ops, rest)
take_ops-put_ops [] rest = refl
take_ops-put_ops (op ∷ ops) rest =
    rw
      (
        split_text-append op.key (put_text op.val (put_ops ops rest)),
        split_text-append op.val (put_ops ops rest),
        take_ops-put_ops ops rest,
      )
      refl

take_txs-put_txs : (txs : List Tx) → take_txs (length txs) (put_txs txs) ≡ txs
take_txs-put_txs [] = refl
take_txs-put_txs (tx ∷ txs) = rw (take_ops-put_ops tx.ops (put_txs txs), take_txs-put_txs txs) refl

pub decode-encode : (txs : List Tx) → decode (encode txs) ≡ txs
decode-encode txs = take_txs-put_txs txs
