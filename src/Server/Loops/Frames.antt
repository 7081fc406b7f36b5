-- ===== src/Server/Loops/Frames.antt =====
-- What the handlers leave alone that `workLoop` and `makeReq` work with.
use praft.Prelude.{
  ℕ, ◌+◌, ◌-◌, ◌≡◌, refl, sym, ap, ◌∙◌, subst, Bool, true, false, inl, inr, List, [], ◌∷◌, Option,
  none, some, is_some, ok, >>=-eq-ok, ok-inj, ok-not-panic, arith, Map, lookup, insert,
  lookup-insert, ◌==◌, length, if◌then◌else◌, if-true, if-false, Bool-cases, Option-cases, ==_refl,
  length-append, leb,
}
use praft.Messages.{DuplicateArgs, RequestArgs, DuplicateConfirmArgs}
use praft.Crypto.{Primitives, rsa_sign_with_sha256}
use praft.Config.{Config}
use praft.Cert.{
  LogCert, get, push_duplicate_confirm, pop_all_duplicate_confirms, set_stage,
  duplicate_confirm_ballot, duplicate_confirm_vote,
}
use praft.Server.{Server, get_cert_or_new}
use praft.Server.Certificates.{cert_or_new, IsUpdated, get_cert_or_new_lem}
use praft.Server.Duplicate.{
  is_initial, duplicate_rpc, collect_reply, collect_req, collect_ballot, take_confirm,
  report_duplicated, count_new, count_confirm, count_confirms,
}
use praft.Server.Duplicate.Peer.{
  unknown_sender, cannot_sign, bad_signature, other_request, already_committed, stored, stored_cert,
  duplicate_rpc-cases,
}

-- There is a certificate with a request.
abbrev pub has_req : Option LogCert → Bool
has_req none = false
has_req (some cert) = is_some cert.req

-- No certificate loses its request.
abbrev pub KeepsReqs : Map LogCert → Map LogCert → Type 0
KeepsReqs certs certs' =
    (j : ℕ) → has_req (lookup j certs) ≡ true → has_req (lookup j certs') ≡ true

-- The node, its connections, and the numbers made and sent to `workLoop` are as they were, as many
-- requests more have been reported, and no certificate has lost its request.
pub record IsFrame (more : ℕ) (s s' : Server) : Type 0 where
  pub seq_ch : s'.seq_ch ≡ s.seq_ch
  pub seq_inc : s'.seq_inc ≡ s.seq_inc
  pub dup_time : length s'.dup_time ≡ more + length s.dup_time
  pub reqs : KeepsReqs s.seq2cert s'.seq2cert
  pub node : s'.node ≡ s.node
  pub peers : s'.peers ≡ s.peers

pub updated-KeepsReqs :
    (seq : ℕ) (cert : LogCert) (certs certs' : Map LogCert)
    → IsUpdated seq cert certs certs'
    → (has_req (lookup seq certs) ≡ true → has_req (some cert) ≡ true)
    → KeepsReqs certs certs'
updated-KeepsReqs seq cert certs certs' at keeps j h = ground (arith, at j)

pub same-IsFrame : (s : Server) → IsFrame 0 s s
same-IsFrame s = record {
  seq_ch = refl;
  seq_inc = refl;
  dup_time = omega arith;
  reqs = λ j h. h;
  node = refl;
  peers = refl;
}

-- A handler that changes only the certificates.
pub certs-IsFrame :
    (s : Server) (certs : Map LogCert)
    → KeepsReqs s.seq2cert certs
    → IsFrame 0 s (record s { seq2cert = certs })
certs-IsFrame s certs keeps = record {
  seq_ch = refl;
  seq_inc = refl;
  dup_time = omega arith;
  reqs = keeps;
  node = refl;
  peers = refl;
}

pub then-IsFrame : {n : ℕ} {s s1 s2 : Server} → IsFrame 0 s s1 → IsFrame n s1 s2 → IsFrame n s s2
then-IsFrame first second = record {
  seq_ch = second.seq_ch ∙ first.seq_ch;
  seq_inc = second.seq_inc ∙ first.seq_inc;
  dup_time = omega (arith, first.dup_time, second.dup_time);
  reqs = λ j h. second.reqs j (first.reqs j h);
  node = second.node ∙ first.node;
  peers = second.peers ∙ first.peers;
}

-- `getCertOrNew` loses no request, and finds what is then there.
pub get_cert_or_new-KeepsReqs :
    (seq : ℕ) (certs : Map LogCert) → KeepsReqs certs (get_cert_or_new seq certs).0
get_cert_or_new-KeepsReqs seq certs =
    updated-KeepsReqs seq (cert_or_new (lookup seq certs) seq) certs (get_cert_or_new seq certs).0
      (get_cert_or_new_lem seq certs).1
      (elim (Option-cases (lookup seq certs)) [
        | inl nil ↦ rw nil (λ h. cc)
        | inr (cert, e) ↦ rw e (λ h. h)
      ])

pub found_req :
    (seq : ℕ) (certs : Map LogCert)
    → has_req (lookup seq (get_cert_or_new seq certs).0) ≡ true
    → is_some (get_cert_or_new seq certs).1.req ≡ true
found_req seq certs h =
    let (found, at) = get_cert_or_new_lem seq certs in
    let here : lookup seq (get_cert_or_new seq certs).0
        ≡ some (cert_or_new (lookup seq certs) seq) =
      at seq ∙ if-true _ _ (seq == seq) (==_refl seq) in
    ap (λ (c : LogCert). is_some c.req) found ∙ ap has_req (sym here) ∙ h

module _ (p : Primitives) (k : Config) where
  pub duplicate_rpc-IsFrame :
      (args : DuplicateArgs) (reply : DuplicateConfirmArgs) (s s' : Server)
      → duplicate_rpc p k args s ≡ ok (s', reply)
      → IsFrame 0 s s'
  duplicate_rpc-IsFrame args reply s s' run = elim (duplicate_rpc-cases p args k s) [
    | unknown_sender e r ↦ absurd (ok-not-panic (sym run ∙ r))
    | cannot_sign fault e r ↦ absurd (ok-not-panic (sym run ∙ r))
    | bad_signature node e bad r ↦
        subst (IsFrame 0 s) (ap (λ r. r.0) (ok-inj (sym r ∙ run))) (same-IsFrame s)
    | other_request e r ↦
        subst (IsFrame 0 s) (ap (λ r. r.0) (ok-inj (sym r ∙ run))) (same-IsFrame s)
    | already_committed cert e done r ↦
        subst (IsFrame 0 s) (ap (λ r. r.0) (ok-inj (sym r ∙ run))) (same-IsFrame s)
    | stored node sign certs known good matches at signed r ↦
        subst (IsFrame 0 s) (ap (λ r. r.0) (ok-inj (sym r ∙ run))) (
          certs-IsFrame s certs (
            updated-KeepsReqs args.msg.seq
              (stored_cert p args (cert_or_new (lookup args.msg.seq s.seq2cert) args.msg.seq))
              s.seq2cert certs at (λ h. refl)))
  ]

  count_confirm_req :
      (args : DuplicateConfirmArgs) (c d : LogCert)
      → count_confirm p k args c ≡ ok d
      → d.req ≡ c.req
  unfolding count_confirm count_new duplicate_confirm_vote
  count_confirm_req args c d run = ground arith

  count_confirms_req :
      (args_q : List DuplicateConfirmArgs) (c d : LogCert)
      → count_confirms p k args_q c ≡ ok d
      → d.req ≡ c.req
  unfolding count_confirms
  count_confirms_req [] c d run = ap (λ x. x.req) (sym (ok-inj run))
  count_confirms_req (args ∷ rest) c d run =
      let (c', one, more) = >>=-eq-ok (count_confirm p k args c) _ run in
      count_confirms_req rest c' d more ∙ count_confirm_req args c c' one

  -- The flag of a confirmation, as a number.
  abbrev pub reported_now : Bool → ℕ
  reported_now more = if more then 1 else 0

  pub insert-KeepsReqs :
      (seq : ℕ) (cert : LogCert) (certs : Map LogCert)
      → (has_req (lookup seq certs) ≡ true → is_some cert.req ≡ true)
      → KeepsReqs certs (insert seq cert certs)
  insert-KeepsReqs seq cert certs keeps =
      updated-KeepsReqs seq cert certs (insert seq cert certs) (λ j. lookup-insert seq j cert certs)
        keeps

  report-IsFrame :
      (now seq : ℕ) (req : RequestArgs) (cert : LogCert) (s s' : Server) (more : Bool)
      → (has_req (lookup seq s.seq2cert) ≡ true → is_some cert.req ≡ true)
      → report_duplicated p k now seq req cert s ≡ ok (s', more)
      → IsFrame (reported_now more) s s'
  unfolding report_duplicated set_stage duplicate_confirm_ballot
  report-IsFrame now seq req cert s s' more keeps run =
      elim (Bool-cases (leb k.fault_num (length cert.duplicate_confirms))) [
        | inl enough ↦
            (let (sign, signed, run1) =
                >>=-eq-ok (rsa_sign_with_sha256 p cert.digest s.node.pri_key) _ (
                  sym (if-true _ _ (leb k.fault_num (length cert.duplicate_confirms)) enough)
                  ∙ run) in
              subst (λ (r : Server × Bool). IsFrame (reported_now r.1) s r.0) (ok-inj run1)
                (record {
                  seq_ch = refl;
                  seq_inc = refl;
                  dup_time =
                      length-append s.dup_time ((now - cert.produce_time) ∷ []) ∙ omega arith;
                  reqs = insert-KeepsReqs seq _ s.seq2cert keeps;
                  node = refl;
                  peers = refl;
                }))
        | inr few ↦
            subst (λ (r : Server × Bool). IsFrame (reported_now r.1) s r.0)
              (ok-inj
                (sym (if-false _ _ (leb k.fault_num (length cert.duplicate_confirms)) few) ∙ run))
              (certs-IsFrame s _ (insert-KeepsReqs seq cert s.seq2cert keeps))
      ]

  collect_req-IsFrame :
      (req : Option RequestArgs) (now seq : ℕ) (cert : LogCert) (s s' : Server) (more : Bool)
      → (has_req (lookup seq s.seq2cert) ≡ true → is_some cert.req ≡ true)
      → collect_req p k req now seq cert s ≡ ok (s', more)
      → IsFrame (reported_now more) s s'
  unfolding collect_req pop_all_duplicate_confirms
  collect_req-IsFrame none now seq cert s s' more keeps run =
      subst (λ (r : Server × Bool). IsFrame (reported_now r.1) s r.0) (ok-inj run)
        (certs-IsFrame s _ (insert-KeepsReqs seq cert s.seq2cert keeps))
  collect_req-IsFrame (some req) now seq cert s s' more keeps run =
      let (counted, one, run1) =
        >>=-eq-ok
          (count_confirms p k cert.duplicate_confirm_q (record cert { duplicate_confirm_q = [] })) _
          run in
      let same = count_confirms_req cert.duplicate_confirm_q _ counted one in
      report-IsFrame now seq req counted s s' more (λ h. ap is_some same ∙ keeps h) run1

  take_confirm-IsFrame :
      (now seq : ℕ) (queued : LogCert) (s s' : Server) (more : Bool)
      → (has_req (lookup seq s.seq2cert) ≡ true → is_some queued.req ≡ true)
      → take_confirm p k now seq queued s ≡ ok (s', more)
      → IsFrame (reported_now more) s s'
  unfolding take_confirm collect_ballot get
  take_confirm-IsFrame now seq queued s s' more keeps run =
      elim (Bool-cases (is_initial queued.stage)) [
        | inl young ↦
            collect_req-IsFrame queued.req now seq queued s s' more keeps
              (sym (if-true _ _ (is_initial queued.stage) young) ∙ run)
        | inr old ↦
            subst (λ (r : Server × Bool). IsFrame (reported_now r.1) s r.0)
              (ok-inj (sym (if-false _ _ (is_initial queued.stage) old) ∙ run))
              (certs-IsFrame s _ (insert-KeepsReqs seq queued s.seq2cert keeps))
      ]

  pub collect_reply-IsFrame :
      (now seq : ℕ) (args : DuplicateConfirmArgs) (s s' : Server) (more : Bool)
      → collect_reply p k now seq args s ≡ ok (s', more)
      → IsFrame (reported_now more) s s'
  unfolding collect_reply push_duplicate_confirm
  collect_reply-IsFrame now seq args s s' more run =
      let certs = (get_cert_or_new seq s.seq2cert).0 in
      let cert = (get_cert_or_new seq s.seq2cert).1 in
      let found = found_req seq s.seq2cert in
      then-IsFrame (certs-IsFrame s certs (get_cert_or_new-KeepsReqs seq s.seq2cert)) (
        take_confirm-IsFrame now seq (push_duplicate_confirm cert args)
          (record s { seq2cert = certs }) s' more found run)
