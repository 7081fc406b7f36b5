-- ===== src/Server/Requests/Making.antt =====
-- `makeReq` as a whole.
use praft.Prelude.{
  ℕ, ◌+◌, ◌%◌, ◌^◌, ◌≡◌, refl, ◌≢◌, inl, inr, List, [], ◌∷◌, ◌++◌, none, some, Result, ok, panic,
  Fault, out_of_range, blocked, logged_error, arith, Map, lookup, insert, lookup-insert, ◌==◌,
  if◌then◌else◌, false, Option-cases, Bool-cases, Result-cases,
}
use praft.Util.Slices.{Slice}
use praft.Messages.{TxPoolUnit, RequestMsg}
use praft.Crypto.{Primitives, sha256_digest, rsa_sign_with_sha256}
use praft.Config.{Config, Node, get_node}
use praft.Cert.{LogCert, new_cert, set}
use praft.Server.{Server, update_cert}
use praft.Server.Certificates.{cert_or_new, IsUpdated, update_cert_lem}
use praft.Server.Requests.{assign_seq, seq_step, last_batch, take_batches, issue, make_req}

abbrev pub request_at : ℕ → List ℕ → RequestMsg
request_at now tx_set = record { tx_set = tx_set; timestamp = now; client_id = 0 }

-- The certificate of a request that was made here.
abbrev pub made_cert : Primitives → Config → ℕ → ℕ → List ℕ → Slice → Server → LogCert
made_cert p k seq now tx_set sign s = record (new_cert seq) {
  req = some (record { req = request_at now tx_set; sign = sign; tx_num = k.batch_tx_num });
  digest = sha256_digest p (request_at now tx_set);
  duplicator = s.node.id;
  produce_time = now;
}

-- What `makeReq` does when it can make a request.
abbrev pub HasMade : Primitives → Config → ℕ → List ℕ → Slice → Server → Type 0
HasMade p k now tx_set sign s =
    (s' : Server) × (make_req p k now tx_set s ≡ ok s')
    × ((j : ℕ)
        → lookup j s'.seq2cert ≡ (
            if (assign_seq s).1 == j
            then some (made_cert p k (assign_seq s).1 now tx_set sign s)
            else lookup j s.seq2cert))
    × (s'.seq_ch ≡ s.seq_ch ++ (assign_seq s).1 ∷ [])
    × (s'.seq_inc ≡ (assign_seq s).1)
    × (s'.tx_pool_batches ≡ (take_batches k.batch_tx_num now 0 s.tx_pool_batches).0)
    × (s'.local_duplicated_reqs ≡ s.local_duplicated_reqs)
    × (s'.node ≡ s.node)

module _ (p : Primitives) (k : Config) (now : ℕ) (tx_set : List ℕ) (s : Server) (b : TxPoolUnit)
    (node : Node) (sign : Slice) where
  -- The branch in which a request is made under a number that has no certificate yet.
  pub make_req_lem :
      last_batch s.tx_pool_batches ≡ some b
      → b.tx_num ≢ 0
      → lookup s.node.id k.id2node ≡ some node
      → rsa_sign_with_sha256 p (sha256_digest p (request_at now tx_set)) node.pri_key ≡ ok sign
      → lookup (assign_seq s).1 s.seq2cert ≡ none
      → HasMade p k now tx_set sign s
  unfolding make_req issue get_node
  make_req_lem last full known signed fresh =
      let seq : ℕ = (s.seq_inc + seq_step) % 2 ^ 64 in
      let certs =
        insert seq (made_cert p k seq now tx_set sign s) (insert seq (new_cert seq) s.seq2cert) in
      (
        record s {
          tx_pool_batches = (take_batches k.batch_tx_num now 0 s.tx_pool_batches).0;
          seq_inc = seq;
          seq2cert = certs;
          seq_ch = s.seq_ch ++ seq ∷ [];
        },
        (let not_empty : (b.tx_num == 0) ≡ false = ground arith in
            rw (last, not_empty, known, signed, fresh) refl),
        (λ j. ground (
          arith,
          lookup-insert seq j (made_cert p k seq now tx_set sign s)
              (insert seq (new_cert seq) s.seq2cert),
          lookup-insert seq j (new_cert seq) s.seq2cert,
        )),
        refl,
        refl,
        refl,
        refl,
        refl,
      )

-- A certificate once a new request has been stored in it.
abbrev pub refilled : Primitives → Config → ℕ → List ℕ → Slice → Server → LogCert → LogCert
refilled p k now tx_set sign s cert = record cert {
  req = some (record { req = request_at now tx_set; sign = sign; tx_num = k.batch_tx_num });
  digest = sha256_digest p (request_at now tx_set);
  log_index = 0;
  duplicator = s.node.id;
  produce_time = now;
}

module _ (p : Primitives) (k : Config) (now : ℕ) (tx_set : List ℕ) (s : Server) where
  pub data MakeOutcome (r : Result Server) : Type 0 where
    empty_pool : last_batch s.tx_pool_batches ≡ none → r ≡ panic out_of_range → MakeOutcome r
    polls :
        (b : TxPoolUnit)
        → last_batch s.tx_pool_batches ≡ some b
        → b.tx_num ≡ 0
        → r ≡ panic blocked
        → MakeOutcome r
    unknown_self :
        (b : TxPoolUnit)
        → last_batch s.tx_pool_batches ≡ some b
        → b.tx_num ≢ 0
        → lookup s.node.id k.id2node ≡ none
        → r ≡ panic logged_error
        → MakeOutcome r
    cannot_sign :
        (b : TxPoolUnit) (node : Node) (fault : Fault)
        → last_batch s.tx_pool_batches ≡ some b
        → b.tx_num ≢ 0
        → lookup s.node.id k.id2node ≡ some node
        → rsa_sign_with_sha256 p (sha256_digest p (request_at now tx_set)) node.pri_key
          ≡ panic fault
        → r ≡ panic fault
        → MakeOutcome r
    made :
        (b : TxPoolUnit) (node : Node) (sign : Slice) (certs : Map LogCert) (seq : ℕ)
        → last_batch s.tx_pool_batches ≡ some b
        → b.tx_num ≢ 0
        → lookup s.node.id k.id2node ≡ some node
        → rsa_sign_with_sha256 p (sha256_digest p (request_at now tx_set)) node.pri_key ≡ ok sign
        → seq ≡ (s.seq_inc + 10_000_000_000) % 2 ^ 64
        → IsUpdated seq
            (refilled p k now tx_set sign s (cert_or_new (lookup seq s.seq2cert) seq))
            s.seq2cert
            certs
        → r
          ≡ ok (record s {
            tx_pool_batches = (take_batches k.batch_tx_num now 0 s.tx_pool_batches).0;
            seq_inc = seq;
            seq2cert = certs;
            seq_ch = s.seq_ch ++ seq ∷ [];
          })
        → MakeOutcome r

  made_when :
      (b : TxPoolUnit) (node : Node)
      → last_batch s.tx_pool_batches ≡ some b
      → (b.tx_num == 0) ≡ false
      → lookup s.node.id k.id2node ≡ some node
      → MakeOutcome (make_req p k now tx_set s)
  unfolding make_req issue get_node assign_seq set
  made_when b node last full known =
      let digest = sha256_digest p (request_at now tx_set) in
      let seq : ℕ = (s.seq_inc + seq_step) % 2 ^ 64 in
      elim (Result-cases (rsa_sign_with_sha256 p digest node.pri_key)) [
        | inl (fault, bad) ↦
            cannot_sign b node fault last (ground (arith, full)) known bad
              (rw (last, full, known, bad) refl)
        | inr (sign, signed) ↦
            (let change = λ (cert : LogCert). refilled p k now tx_set sign s cert in
              made b node sign (update_cert seq change s.seq2cert) seq last (ground (arith, full))
                known signed refl (update_cert_lem seq change s.seq2cert)
                (rw (last, full, known, signed) refl))
      ]

  -- `makeReq` has one of five outcomes. Where the pool has never had a batch it panics; where the newest
  -- batch is empty it goes on polling; where the settings do not have this server, or it cannot sign
  -- the request, it panics. Otherwise the number assigned is the one before and 10^10 more, modulo
  -- 2^64. Under it stands the certificate that was there, or a new one, now with the signed request,
  -- its digest, this server as the duplicator and the time; the other certificates are as they were.
  -- The number is sent on `seqCh`, the pool's loop has run, and nothing else of the state has changed.
  -- The request's transaction count is the configured batch size, whatever the pool held.
  pub make_req-cases : MakeOutcome (make_req p k now tx_set s)
  unfolding make_req get_node
  make_req-cases = elim (Option-cases (last_batch s.tx_pool_batches)) [
    | inl empty ↦ empty_pool empty (rw empty refl)
    | inr (b, last) ↦ elim (Bool-cases (b.tx_num == 0)) [
      | inl drained ↦ polls b last (ground (arith, drained)) (rw (last, drained) refl)
      | inr full ↦ elim (Option-cases (lookup s.node.id k.id2node)) [
        | inl unknown ↦
            unknown_self b last (ground (arith, full)) unknown (rw (last, full, unknown) refl)
        | inr (node, known) ↦ made_when b node last full known
      ]
    ]
  ]
