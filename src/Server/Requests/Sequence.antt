-- ===== src/Server/Requests/Sequence.antt =====
-- The sequence numbers of `assignSeq`.
use praft.Prelude.{ℕ, zero, suc, ◌+◌, ◌*◌, ◌^◌, ◌<◌, ◌≡◌, ◌≢◌, ◌⊎◌, inl, inr, arith}
use praft.Server.{Server}
use praft.Server.Requests.{assign_seq, seq_step}

-- The server after it has assigned this many sequence numbers.
abbrev pub assigned : ℕ → Server → Server
assigned zero s = s
assigned (suc n) s = (assign_seq (assigned n s)).0

-- Short of the wrap-around of the 64 bits, the n-th number assigned is `id + n * 10^10`.
assigned_lem :
    (n : ℕ) (s : Server)
    → s.seq_inc + n * seq_step < 2 ^ 64
    → (assigned n s).seq_inc ≡ s.seq_inc + n * seq_step
unfolding assign_seq
assigned_lem zero s h = omega arith
assigned_lem (suc n) s h = omega (arith, assigned_lem n s)

-- Two servers, or one at two times: let the counters start at the identities, the identities have at
-- most ten digits, and the numbers to come be below 2^64. If the identities differ, or how many
-- numbers were assigned before, then the sequence numbers that are assigned next differ.
pub assigned_distinct :
    (m n : ℕ) (s t : Server)
    → s.seq_inc < 10_000_000_000
    → t.seq_inc < 10_000_000_000
    → s.seq_inc + suc m * 10_000_000_000 < 2 ^ 64
    → t.seq_inc + suc n * 10_000_000_000 < 2 ^ 64
    → (s.seq_inc ≢ t.seq_inc) ⊎ (m ≢ n)
    → (assign_seq (assigned m s)).1 ≢ (assign_seq (assigned n t)).1
unfolding assign_seq
assigned_distinct m n s t hs ht bs bt (inl other) e =
    other (omega (arith, assigned_lem m s, assigned_lem n t))
assigned_distinct m n s t hs ht bs bt (inr later) e =
    later (omega (arith, assigned_lem m s, assigned_lem n t))
