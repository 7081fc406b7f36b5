-- ===== src/Server/Duplicate/Tally.antt =====
-- How often a request has been reported, by its certificate: `makeReq` and `DuplicateRpc` keep the
-- tally right.
use praft.Prelude.{
  ℕ, suc, ◌+◌, ◌%◌, ◌^◌, ◌≡◌, refl, sym, ap, ◌∙◌, subst, inl, inr, List, [], ◌∷◌, ◌++◌, Option,
  none, some, ok, >>=-eq-ok, ok-inj, ok-not-panic, arith, Map, lookup, ◌==◌, if◌then◌else◌,
  Option-cases,
}
use praft.Util.Slices.{Slice}
use praft.Messages.{TxPoolUnit, DuplicatedReqUnit, RequestArgs, DuplicateArgs, DuplicateConfirmArgs}
use praft.Crypto.{Primitives, sha256_digest, rsa_sign_with_sha256}
use praft.Config.{Config, get_node}
use praft.Cert.{LogCert, set}
use praft.Server.{Server, update_cert}
use praft.Server.Certificates.{cert_or_new, IsUpdated, update_cert_lem}
use praft.Server.Requests.Making.{request_at}
use praft.Server.Requests.{take_from_pool, issue, seq_step, assign_seq, make_req}
use praft.Server.Duplicate.{is_initial, duplicate_rpc}
use praft.Server.Duplicate.Peer.{
  unknown_sender, cannot_sign, bad_signature, other_request, already_committed, stored, stored_cert,
  duplicate_rpc-cases,
}

-- How often a sequence number stands among the requests to report.
abbrev pub times : ℕ → List DuplicatedReqUnit → ℕ
times j [] = 0
times j (unit ∷ units) = if unit.seq == j then suc (times j units) else times j units

-- How often it should, by its certificate.
abbrev pub reports : Option LogCert → ℕ
reports none = 0
reports (some cert) = if is_initial cert.stage then 0 else 1

pub times-append :
    (j : ℕ) (front back : List DuplicatedReqUnit)
    → times j (front ++ back) ≡ times j front + times j back
times-append j [] back = omega arith
times-append j (u ∷ front) back = ground (arith, times-append j front back)

times-concat :
    (j : ℕ) (given units : List DuplicatedReqUnit) (unit : DuplicatedReqUnit)
    → times j (given ++ (units ++ unit ∷ []))
      ≡ (if unit.seq == j then suc (times j (given ++ units)) else times j (given ++ units))
times-concat j given units unit =
    times-append j given (units ++ unit ∷ [])
    ∙ rw (times-append j units (unit ∷ []), times-append j given units) (ground arith)

-- Certificates lie under their own numbers, and a number has been reported once if its certificate
-- has left the first stage, and not at all otherwise.
pub record IsTallied (certs : Map LogCert) (units : List DuplicatedReqUnit) : Type 0 where
  pub named : (j : ℕ) (cert : LogCert) → lookup j certs ≡ some cert → cert.seq ≡ j
  pub tallied : (j : ℕ) → times j units ≡ reports (lookup j certs)

-- The same with the requests that came from elsewhere, of each number `extra` many.
pub record IsBalanced (extra : ℕ → ℕ) (certs : Map LogCert) (units : List DuplicatedReqUnit)
    : Type 0 where
  pub named : (j : ℕ) (cert : LogCert) → lookup j certs ≡ some cert → cert.seq ≡ j
  pub balanced : (j : ℕ) → times j units ≡ extra j + reports (lookup j certs)

module _ (extra : ℕ → ℕ) (seq : ℕ) (cert : LogCert) (certs certs' : Map LogCert)
    (given units : List DuplicatedReqUnit) (same : cert.seq ≡ seq)
    (at : IsUpdated seq cert certs certs') (t : IsBalanced extra certs (given ++ units)) where
  pub updated-IsBalanced :
      reports (some cert) ≡ reports (lookup seq certs) → IsBalanced extra certs' (given ++ units)
  updated-IsBalanced kept = record {
    named = λ j c e. ground (arith, at j, t.named j c);
    balanced = λ j. ground (arith, at j, t.balanced j);
  }

  pub reported-IsBalanced :
      (unit : DuplicatedReqUnit)
      → unit.seq ≡ seq
      → reports (lookup seq certs) ≡ 0
      → reports (some cert) ≡ 1
      → IsBalanced extra certs' (given ++ (units ++ unit ∷ []))
  reported-IsBalanced unit e before after = record {
    named = λ j c e. ground (arith, at j, t.named j c);
    balanced = λ j. ground (arith, at j, t.balanced j, times-concat j given units unit);
  }

-- The certificate that `getCertOrNew` finds or makes.
pub cert_or_new_named :
    (extra : ℕ → ℕ) (certs : Map LogCert) (units : List DuplicatedReqUnit) (seq : ℕ)
    → IsBalanced extra certs units
    → ((cert_or_new (lookup seq certs) seq).seq ≡ seq)
      × (reports (some (cert_or_new (lookup seq certs) seq)) ≡ reports (lookup seq certs))
cert_or_new_named extra certs units seq t = elim (Option-cases (lookup seq certs)) [
  | inl nil ↦ rw nil (refl, refl)
  | inr (cert, e) ↦ rw e (t.named seq cert e, refl)
]

-- For a server that has given away these requests.
abbrev pub Balanced : List DuplicatedReqUnit → (ℕ → ℕ) → Server → Type 0
Balanced given extra s = IsBalanced extra s.seq2cert (given ++ s.local_duplicated_reqs)

issue-Balanced :
    (given : List DuplicatedReqUnit) (extra : ℕ → ℕ) (now : ℕ) (args : RequestArgs) (digest : Slice)
    (batches : List TxPoolUnit) (s : Server)
    → Balanced given extra s
    → Balanced given extra (issue now args digest batches s)
unfolding issue assign_seq set
issue-Balanced given extra now args digest batches s t =
    let seq = (s.seq_inc + seq_step) % 2 ^ 64 in
    let found = cert_or_new_named extra s.seq2cert (given ++ s.local_duplicated_reqs) seq t in
    let change =
      λ (cert : LogCert). record (set cert (some args) digest 0 s.node.id) { produce_time = now } in
    updated-IsBalanced extra seq (change (cert_or_new (lookup seq s.seq2cert) seq)) s.seq2cert
      (update_cert seq change s.seq2cert) given s.local_duplicated_reqs found.0
      (update_cert_lem seq change s.seq2cert) t found.1

module _ (p : Primitives) (k : Config) (given : List DuplicatedReqUnit) (extra : ℕ → ℕ) where
  pub make_req-Balanced :
      (now : ℕ) (tx_set : List ℕ) (s s' : Server)
      → Balanced given extra s
      → make_req p k now tx_set s ≡ ok s'
      → Balanced given extra s'
  unfolding make_req
  make_req-Balanced now tx_set s s' t run =
      let (batches, taken, run1) =
        >>=-eq-ok (take_from_pool k.batch_tx_num now s.tx_pool_batches) _ run in
      let (node, known, run2) = >>=-eq-ok (get_node k s.node.id) _ run1 in
      let (sign, signed, run3) =
        >>=-eq-ok (rsa_sign_with_sha256 p (sha256_digest p (request_at now tx_set)) node.pri_key) _
          run2 in
      subst (Balanced given extra) (ok-inj run3) (issue-Balanced given extra now _ _ batches s t)

  pub duplicate_rpc-Balanced :
      (args : DuplicateArgs) (s s' : Server) (reply : DuplicateConfirmArgs)
      → Balanced given extra s
      → duplicate_rpc p k args s ≡ ok (s', reply)
      → Balanced given extra s'
  duplicate_rpc-Balanced args s s' reply t run = elim (duplicate_rpc-cases p args k s) [
    | unknown_sender e r ↦ absurd (ok-not-panic (sym run ∙ r))
    | cannot_sign fault e r ↦ absurd (ok-not-panic (sym run ∙ r))
    | bad_signature node e bad r ↦
        subst (Balanced given extra) (ap (λ r. r.0) (ok-inj (sym r ∙ run))) t
    | other_request e r ↦ subst (Balanced given extra) (ap (λ r. r.0) (ok-inj (sym r ∙ run))) t
    | already_committed cert e done r ↦
        subst (Balanced given extra) (ap (λ r. r.0) (ok-inj (sym r ∙ run))) t
    | stored node sign certs known good matches at signed r ↦
        (let found =
            cert_or_new_named extra s.seq2cert (given ++ s.local_duplicated_reqs) args.msg.seq t in
          subst (Balanced given extra) (ap (λ r. r.0) (ok-inj (sym r ∙ run))) (
            updated-IsBalanced extra args.msg.seq
              (stored_cert p args (cert_or_new (lookup args.msg.seq s.seq2cert) args.msg.seq))
              s.seq2cert certs given s.local_duplicated_reqs found.0 at t found.1))
  ]
