-- ===== src/Server/Loops/Numbers.antt =====
-- The sequence numbers that a server makes, and what the state of its loops says of them.
use praft.Prelude.{
  ℕ, zero, suc, ◌+◌, ◌%◌, ◌^◌, ◌≤◌, ◌<◌, ◌≡◌, refl, sym, ap, ◌∙◌, subst, true, false, not, ◌&&◌,
  elem, ◌==◌, ◌⊎◌, inl, inr, List, [], ◌∷◌, ◌++◌, map, some, dec_lt, arith, lookup, length,
  length-append, some-inj, get_elem?,
}
use praft.Server.{Server}
use praft.Server.Loops.{Worker, Sent}
use praft.Server.Loops.Frames.{has_req, IsFrame}
use praft.Server.Loops.Handlers.{seq_of}
use praft.Server.Loops.Phases.{IsErasure}

-- The n-th number after `from` that `assignSeq` assigns, and the first n of them.
abbrev pub issued_at : ℕ → ℕ → ℕ
issued_at from zero = from
issued_at from (suc n) = (issued_at from n + 10_000_000_000) % 2 ^ 64

abbrev pub issued : ℕ → ℕ → List ℕ
issued from zero = []
issued from (suc n) = issued from n ++ issued_at from (suc n) ∷ []

-- The numbers made so far, which of them `workLoop` has sent, and whom the server has connected to.
-- `nodes` are the configured nodes, `erased` the numbers that `PrepareRpc` was called for.
pub record IsWorking (start : Server) (nodes erased : List ℕ) (w : Worker) : Type 0 where
  pub made : ℕ
  pub numbers : w.server.seq_ch ≡ issued start.seq_inc made
  pub newest : w.server.seq_inc ≡ issued_at start.seq_inc made
  pub in_order : map seq_of w.sent ≡ issued start.seq_inc w.received
  pub received_le : w.received ≤ made
  pub balance : made + w.polling ≡ suc (length w.server.dup_time)
  pub with_reqs :
      (i : ℕ)
      → i < made
      → elem (issued_at start.seq_inc (suc i)) erased ≡ false
      → has_req (lookup (issued_at start.seq_inc (suc i)) w.server.seq2cert) ≡ true
  pub self : w.server.node ≡ start.node
  pub linked : (id : ℕ) → elem id w.server.peers ≡ (elem id nodes && not (id == start.node.id))

-- A frame keeps it, if the calls of `makeReq` grow with the reports.
pub frame-IsWorking :
    {start : Server} {nodes erased : List ℕ} (n polling : ℕ) (w : Worker) (s' : Server)
    → IsWorking start nodes erased w
    → IsFrame n w.server s'
    → polling ≡ n + w.polling
    → IsWorking start nodes erased (record w { server = s'; polling = polling })
frame-IsWorking n polling w s' t f e = record {
  made = t.made;
  numbers = f.seq_ch ∙ t.numbers;
  newest = f.seq_inc ∙ t.newest;
  in_order = t.in_order;
  received_le = t.received_le;
  balance = omega (arith, t.balance, f.dup_time, e);
  with_reqs = λ i h kept. f.reqs _ (t.with_reqs i h kept);
  self = f.node ∙ t.self;
  linked = λ id. ap (elem id) f.peers ∙ t.linked id;
}

not-in :
    (a b : ℕ) (bs : List ℕ) → elem a (b ∷ bs) ≡ false → ((b == a) ≡ false) × (elem a bs ≡ false)
not-in a b bs h = ground (arith, h)

-- `PrepareRpc` keeps it for the other numbers.
pub erased-IsWorking :
    {start : Server} {nodes erased : List ℕ} (seq : ℕ) (w : Worker) (s' : Server)
    → IsWorking start nodes erased w
    → IsErasure seq w.server s'
    → IsWorking start nodes (seq ∷ erased) (record w { server = s' })
erased-IsWorking {start} {nodes} {erased} seq w s' t f =
    subst (λ (s : Server). IsWorking start nodes (seq ∷ erased) (record w { server = s }))
      (sym f.only)
      (record {
        made = t.made;
        numbers = t.numbers;
        newest = t.newest;
        in_order = t.in_order;
        received_le = t.received_le;
        balance = t.balance;
        with_reqs = λ i h kept.
            (let (other, before) = not-in (issued_at start.seq_inc (suc i)) seq erased kept in
              f.others _ other (t.with_reqs i h before));
        self = t.self;
        linked = t.linked;
      })

pub le_lt_cases : (i made : ℕ) → i < suc made → (i < made) ⊎ (i ≡ made)
le_lt_cases i made h = elim (dec_lt i made) [
  | Dec.yes below ↦ inl below
  | Dec.no above ↦ inr (omega (arith, above))
]

length-issued : (from n : ℕ) → length (issued from n) ≡ n
length-issued from zero = refl
length-issued from (suc n) =
    length-append (issued from n) (issued_at from (suc n) ∷ [])
    ∙ omega (arith, length-issued from n)

get_elem?-concat :
    (xs : List ℕ) (x i v : ℕ)
    → get_elem? (xs ++ x ∷ []) i ≡ some v
    → (get_elem? xs i ≡ some v) ⊎ ((i ≡ length xs) × (v ≡ x))
get_elem?-concat [] x zero v h = inr (refl, sym (some-inj h))
get_elem?-concat [] x (suc i) v h = cc
get_elem?-concat (y ∷ xs) x zero v h = inl h
get_elem?-concat (y ∷ xs) x (suc i) v h = elim (get_elem?-concat xs x i v h) [
  | inl inside ↦ inl inside
  | inr (last, same) ↦ inr (ap suc last, same)
]

pub get_elem?-issued :
    (from made i seq : ℕ)
    → get_elem? (issued from made) i ≡ some seq
    → (i < made) × (seq ≡ issued_at from (suc i))
get_elem?-issued from zero i seq h = cc
get_elem?-issued from (suc made) i seq h =
    elim (get_elem?-concat (issued from made) (issued_at from (suc made)) i seq h) [
      | inl inside ↦
          (let (below, same) = get_elem?-issued from made i seq inside in
            (omega (arith, below), same))
      | inr (last, same) ↦
          (let at : i ≡ made = last ∙ length-issued from made in
            (omega (arith, at), same ∙ ap (λ n. issued_at from (suc n)) (sym at)))
    ]

pub map-concat :
    (sent : List Sent) (s : Sent) → map seq_of (sent ++ s ∷ []) ≡ map seq_of sent ++ seq_of s ∷ []
map-concat [] s = refl
map-concat (x ∷ sent) s = ap (seq_of x ∷◌) (map-concat sent s)
