-- ===== src/Server/Loops/Phases.antt =====
-- `PrepareRpc`, `CommitRpc` and `pushTxToPool`: what they leave alone of what the loops work with.
use praft.Prelude.{
  ℕ, ◌≡◌, refl, sym, ap, ◌∙◌, subst, true, false, inl, inr, none, is_some, ok, >>=-eq-ok, ok-inj,
  or_panic, nil_dereference, arith, Map, lookup, ◌==◌, if-true, if-false, Bool-cases, Option-cases,
}
use praft.Util.Slices.{slice_equal}
use praft.Messages.{RequestArgs, PrepareArgs, PrepareConfirmArgs, CommitConfirmArgs}
use praft.Crypto.{Primitives, sha256_digest, rsa_sign_with_sha256, rsa_verify_with_sha256}
use praft.Config.{Config, get_node}
use praft.Cert.{LogCert, set, set_stage, commit_stage}
use praft.Server.{Server, get_cert_or_new, update_cert}
use praft.Server.Certificates.{get_cert_or_new_lem, update_cert_lem}
use praft.Server.Requests.{push_tx_to_pool}
use praft.Server.Phases.{
  is_prepare, advance, prepare_confirm, erase_and_confirm, prepare_verified, prepare_rpc,
  commit_verified, commit_rpc,
}
use praft.Server.Loops.Frames.{
  has_req, IsFrame, same-IsFrame, certs-IsFrame, then-IsFrame, get_cert_or_new-KeepsReqs, found_req,
  insert-KeepsReqs,
}

-- `getCertOrNew` adds no request.
get_cert_or_new-reqs :
    (seq j : ℕ) (certs : Map LogCert)
    → has_req (lookup j (get_cert_or_new seq certs).0) ≡ true
    → has_req (lookup j certs) ≡ true
get_cert_or_new-reqs seq j certs h = elim (Option-cases (lookup seq certs)) [
  | inl nil ↦ ground (arith, (get_cert_or_new_lem seq certs).1 j, nil, h)
  | inr (cert, e) ↦ ground (arith, (get_cert_or_new_lem seq certs).1 j, e, h)
]

-- Only the certificates change, and only this one may lose its request.
pub record IsErasure (seq : ℕ) (s s' : Server) : Type 0 where
  pub certs : Map LogCert
  pub only : s' ≡ record s { seq2cert = certs }
  pub others :
      (j : ℕ)
      → (seq == j) ≡ false
      → has_req (lookup j s.seq2cert) ≡ true
      → has_req (lookup j certs) ≡ true

same-IsErasure : (seq : ℕ) (s : Server) → IsErasure seq s s
same-IsErasure seq s = record { certs = s.seq2cert; only = refl; others = λ j no h. h }

module _ (p : Primitives) (k : Config) where
  erase-IsErasure :
      (req : RequestArgs) (args : PrepareArgs) (s : Server) (r : Server × PrepareConfirmArgs)
      → erase_and_confirm p k req args s ≡ ok r
      → IsErasure args.msg.seq s r.0
  unfolding erase_and_confirm prepare_confirm
  erase-IsErasure req args s r run =
      let seq = args.msg.seq in
      let certs = (get_cert_or_new seq s.seq2cert).0 in
      let cert = (get_cert_or_new seq s.seq2cert).1 in
      let kept = get_cert_or_new-KeepsReqs seq s.seq2cert in
      let change = λ (c : LogCert).
        set c none (sha256_digest p req.req) args.msg.log_index args.msg.primary_node_id in
      let stored = update_cert seq change certs in
      elim (Bool-cases cert.committed) [
        | inl done ↦
            subst (λ (r : Server × PrepareConfirmArgs). IsErasure seq s r.0)
              (ok-inj (sym (if-true _ _ cert.committed done) ∙ run))
              (record { certs = certs; only = refl; others = λ j no h. kept j h })
        | inr waits ↦
            (let (sign, signed, run1) =
                >>=-eq-ok (rsa_sign_with_sha256 p _ s.node.pri_key) _
                  (sym (if-false _ _ cert.committed waits) ∙ run) in
              subst (λ (r : Server × PrepareConfirmArgs). IsErasure seq s r.0) (ok-inj run1)
                (record {
                  certs = (get_cert_or_new seq stored).0;
                  only = refl;
                  others = λ j no h. get_cert_or_new-KeepsReqs seq stored j (
                      ap has_req (update_cert_lem seq change certs j ∙ if-false _ _ (seq == j) no)
                      ∙ kept j h);
                }))
      ]

  pub prepare_rpc-IsErasure :
      (args : PrepareArgs) (s : Server) (r : Server × PrepareConfirmArgs)
      → prepare_rpc p k args s ≡ ok r
      → IsErasure args.msg.seq s r.0
  unfolding prepare_rpc prepare_verified
  prepare_rpc-IsErasure args s r run =
      let seq = args.msg.seq in
      let (node, known, run1) = >>=-eq-ok (get_node k args.msg.node_id) _ run in
      let verified = rsa_verify_with_sha256 p (sha256_digest p args.msg) args.sign node.pub_key in
      elim (Bool-cases verified) [
        | inr bad ↦
            subst (λ (r : Server × PrepareConfirmArgs). IsErasure seq s r.0)
              (ok-inj (sym (if-false _ _ verified bad) ∙ run1)) (same-IsErasure seq s)
        | inl good ↦
            (let (req, has, run2) =
                >>=-eq-ok (or_panic args.req_args nil_dereference) _
                  (sym (if-true _ _ verified good) ∙ run1) in
              let fits = slice_equal (sha256_digest p req.req) args.msg.digest in
              elim (Bool-cases fits) [
                | inr other ↦
                    subst (λ (r : Server × PrepareConfirmArgs). IsErasure seq s r.0)
                      (ok-inj (sym (if-false _ _ fits other) ∙ run2)) (same-IsErasure seq s)
                | inl same ↦ erase-IsErasure req args s r (sym (if-true _ _ fits same) ∙ run2)
              ])
      ]

  advance-IsFrame :
      (seq : ℕ) (cert : LogCert) (s : Server)
      → (has_req (lookup seq s.seq2cert) ≡ true → is_some cert.req ≡ true)
      → IsFrame 0 s (advance seq cert s)
  unfolding advance set_stage
  advance-IsFrame seq cert s keeps = elim (Bool-cases (is_prepare cert.stage)) [
    | inl ready ↦ rw ready (record {
      seq_ch = refl;
      seq_inc = refl;
      dup_time = omega arith;
      reqs = insert-KeepsReqs p k seq (set_stage cert commit_stage) s.seq2cert keeps;
      node = refl;
      peers = refl;
    })
    | inr other ↦ rw other (same-IsFrame s)
  ]

  commit_verified-IsFrame :
      (seq : ℕ) (cert : LogCert) (s : Server) (r : Server × CommitConfirmArgs)
      → (has_req (lookup seq s.seq2cert) ≡ true → is_some cert.req ≡ true)
      → commit_verified p k seq cert s ≡ ok r
      → IsFrame 0 s r.0
  unfolding commit_verified
  commit_verified-IsFrame seq cert s r keeps run =
      let certs = (get_cert_or_new cert.seq s.seq2cert).0 in
      let (sign, signed, run1) = >>=-eq-ok (rsa_sign_with_sha256 p _ s.node.pri_key) _ run in
      subst (λ (r : Server × CommitConfirmArgs). IsFrame 0 s r.0) (ok-inj run1)
        (then-IsFrame (certs-IsFrame s certs (get_cert_or_new-KeepsReqs cert.seq s.seq2cert)) (
          advance-IsFrame seq cert (record s { seq2cert = certs })
            (λ h. keeps (get_cert_or_new-reqs cert.seq seq s.seq2cert h))))

  pub commit_rpc-IsFrame :
      (args : PrepareArgs) (s : Server) (r : Server × CommitConfirmArgs)
      → commit_rpc p k args s ≡ ok r
      → IsFrame 0 s r.0
  unfolding commit_rpc
  commit_rpc-IsFrame args s r run =
      let seq = args.msg.seq in
      let certs = (get_cert_or_new seq s.seq2cert).0 in
      let cert = (get_cert_or_new seq s.seq2cert).1 in
      let frame = certs-IsFrame s certs (get_cert_or_new-KeepsReqs seq s.seq2cert) in
      let (node, known, run1) = >>=-eq-ok (get_node k args.msg.primary_node_id) _ run in
      let verified = rsa_verify_with_sha256 p (sha256_digest p args.msg) args.sign node.pub_key in
      elim (Bool-cases verified) [
        | inr bad ↦
            subst (λ (r : Server × CommitConfirmArgs). IsFrame 0 s r.0)
              (ok-inj (sym (if-false _ _ verified bad) ∙ run1)) frame
        | inl good ↦ then-IsFrame frame (
            commit_verified-IsFrame seq cert (record s { seq2cert = certs }) r
              (found_req seq s.seq2cert) (sym (if-true _ _ verified good) ∙ run1))
      ]

  pub push_tx_to_pool-IsFrame : (now : ℕ) (s : Server) → IsFrame 0 s (push_tx_to_pool k now s)
  unfolding push_tx_to_pool
  push_tx_to_pool-IsFrame now s = record {
    seq_ch = refl;
    seq_inc = refl;
    dup_time = omega arith;
    reqs = λ j h. h;
    node = refl;
    peers = refl;
  }
