-- ===== src/Tests/Workload.antt =====
-- Tests of the workload, and the theorems about it at concrete inputs.
use praft.Prelude.{ℕ, ◌≡◌, refl, true, false, List, [], ◌∷◌, if◌then◌else◌}
use praft.Util.Slices.{same_bytes}
use praft.Ycsb.{Store, Op, Draw, exec_tx_set, gen_tx_set}
use praft.Ycsb.Writes.{IsStore, ops_of}
use praft.Ycsb.Generated.{AreBlind, exec_tx_set-gen_tx_set}
use praft.Tests.Fixtures.{four_nodes}
use praft.Tests.Gob.{encode, decode, decode-encode}

-- A database is what its keys hold.
abbrev pub table_store : Store (List ℕ → List ℕ)
table_store = record {
  get = λ key db. db key;
  put = λ key val db. λ asked. if same_bytes key asked then val else db asked;
}

pub table_store-IsStore : IsStore table_store
table_store-IsStore = record { get-put = λ asked key val db. refl }

abbrev pub empty_db : List ℕ → List ℕ
empty_db key = []

abbrev op_of : ℕ → ℕ → ℕ → Op
op_of op_type key val = record { op_type = op_type; key = key ∷ []; val = val ∷ [] }

-- A write, an update of it, and a read.
abbrev pub three_ops : List ℕ
three_ops = encode (record { ops = op_of 1 5 50 ∷ op_of 2 5 51 ∷ op_of 0 5 0 ∷ [] } ∷ [])

last_value_stays : (exec_tx_set table_store decode three_ops empty_db).0 (5 ∷ []) ≡ 51 ∷ []
unfolding exec_tx_set same_bytes
last_value_stays = refl

abbrev drawn : ℕ → ℕ → Draw
drawn i j = record {
  below_read = true;
  below_write = false;
  place = 0;
  first_uuid = i ∷ j ∷ [];
  second_uuid = j ∷ i ∷ [];
}

exec_tx_set-gen_tx_set_example :
    ((exec_tx_set table_store decode (gen_tx_set (λ v. v) [] drawn encode four_nodes) empty_db).1
      ≡ 2000)
    × AreBlind (ops_of (decode (gen_tx_set (λ v. v) [] drawn encode four_nodes)))
exec_tx_set-gen_tx_set_example =
    exec_tx_set-gen_tx_set table_store encode decode (λ v. v) drawn four_nodes empty_db
      decode-encode
