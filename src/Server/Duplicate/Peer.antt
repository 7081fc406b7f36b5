-- ===== src/Server/Duplicate/Peer.antt =====
-- The outcomes of `DuplicateRpc` at a peer.
use praft.Prelude.{
  ℕ, ◌≡◌, refl, sym, ◌∙◌, true, false, inl, inr, Option, none, some, Result, ok, panic, ◌>>=◌,
  logged_error, arith, Fault, Map, lookup, insert, lookup-insert, lookup-insert_self, Option-cases,
  Result-cases, Bool-cases, ◌==◌, if◌then◌else◌, if-false,
}
use praft.Util.Slices.{Slice, slice_equal}
use praft.Messages.{DuplicateArgs, DuplicateConfirmMsg, DuplicateConfirmArgs}
use praft.Crypto.{Primitives, sha256_digest, rsa_sign_with_sha256, rsa_verify_with_sha256}
use praft.Config.{Config, Node, get_node}
use praft.Cert.{LogCert, new_cert, set, get}
use praft.Server.{Server, get_cert_or_new, cert_at, update_cert}
use praft.Server.Certificates.{cert_or_new}
use praft.Server.Duplicate.{duplicate_rpc, store_and_confirm, confirm, no_confirm}

module _ (p : Primitives) (args : DuplicateArgs) where
  -- The certificate once the request has been stored in it.
  abbrev pub stored_cert : LogCert → LogCert
  stored_cert cert = record cert {
    req = some args.req_args;
    digest = sha256_digest p args.req_args.req;
    log_index = args.msg.log_index;
    duplicator = args.msg.duplicator_node_id;
  }

  -- What the peer signs: the certificate's own number, and the rest as the message gave it.
  abbrev pub confirm_msg : LogCert → Server → DuplicateConfirmMsg
  confirm_msg cert s = record {
    seq = cert.seq;
    digest = sha256_digest p args.req_args.req;
    node_id = s.node.id;
    duplicator_node_id = args.msg.duplicator_node_id;
    log_index = args.msg.log_index;
  }

  pub data PeerOutcome (k : Config) (s : Server) (r : Result (Server × DuplicateConfirmArgs))
      : Type 0 where
    unknown_sender :
        lookup args.msg.node_id k.id2node ≡ none → r ≡ panic logged_error → PeerOutcome k s r
    bad_signature :
        (node : Node)
        → lookup args.msg.node_id k.id2node ≡ some node
        → rsa_verify_with_sha256 p (sha256_digest p args.msg) args.sign node.pub_key ≡ false
        → r ≡ ok (s, no_confirm)
        → PeerOutcome k s r
    other_request :
        slice_equal (sha256_digest p args.req_args.req) args.msg.digest ≡ false
        → r ≡ ok (s, no_confirm)
        → PeerOutcome k s r
    already_committed :
        (cert : LogCert)
        → lookup args.msg.seq s.seq2cert ≡ some cert
        → cert.committed ≡ true
        → r ≡ ok (s, no_confirm)
        → PeerOutcome k s r
    cannot_sign :
        (fault : Fault)
        → rsa_sign_with_sha256 p
            (sha256_digest p
              (confirm_msg (cert_or_new (lookup args.msg.seq s.seq2cert) args.msg.seq) s))
            s.node.pri_key
          ≡ panic fault
        → r ≡ panic fault
        → PeerOutcome k s r
    stored :
        (node : Node) (sign : Slice) (certs : Map LogCert)
        → lookup args.msg.node_id k.id2node ≡ some node
        → rsa_verify_with_sha256 p (sha256_digest p args.msg) args.sign node.pub_key ≡ true
        → slice_equal (sha256_digest p args.req_args.req) args.msg.digest ≡ true
        → ((j : ℕ)
            → lookup j certs ≡ (
                if args.msg.seq == j
                then some (stored_cert (cert_or_new (lookup args.msg.seq s.seq2cert) args.msg.seq))
                else lookup j s.seq2cert))
        → rsa_sign_with_sha256 p
            (sha256_digest p
              (confirm_msg (cert_or_new (lookup args.msg.seq s.seq2cert) args.msg.seq) s))
            s.node.pri_key
          ≡ ok sign
        → r
          ≡ ok (
            record s { seq2cert = certs },
            record {
              msg =
                  some (confirm_msg (cert_or_new (lookup args.msg.seq s.seq2cert) args.msg.seq) s);
              sign = sign;
            },
          )
        → PeerOutcome k s r

  module _ (k : Config) (s : Server) where
    -- `getCertOrNew` finds what is there.
    pub store_over :
        (old : Option LogCert)
        → lookup args.msg.seq s.seq2cert ≡ old
        → (cert_or_new old args.msg.seq).committed ≡ false
        → (certs : Map LogCert) × ((j : ℕ)
            → lookup j certs ≡ (
                if args.msg.seq == j
                then some (stored_cert (cert_or_new old args.msg.seq))
                else lookup j s.seq2cert))
          × (store_and_confirm p k args s ≡ (
              rsa_sign_with_sha256 p
                (sha256_digest p (confirm_msg (cert_or_new old args.msg.seq) s))
                s.node.pri_key
              >>= λ sign. ok (
                record s { seq2cert = certs },
                record { msg = some (confirm_msg (cert_or_new old args.msg.seq) s); sign = sign },
              )))
    unfolding store_and_confirm update_cert get_cert_or_new cert_at set get confirm
    store_over none e h =
        let c = stored_cert (new_cert args.msg.seq) in
        let before = insert args.msg.seq (new_cert args.msg.seq) s.seq2cert in
        (
          insert args.msg.seq c before,
          (λ j. ground (
            arith,
            lookup-insert args.msg.seq j c before,
            lookup-insert args.msg.seq j (new_cert args.msg.seq) s.seq2cert,
          )),
          rw
              (
                e,
                lookup-insert_self args.msg.seq (new_cert args.msg.seq) s.seq2cert,
                lookup-insert_self args.msg.seq c before,
              )
              refl,
        )
    store_over (some cert) e h =
        let c = stored_cert cert in
        (
          insert args.msg.seq c s.seq2cert,
          (λ j. ground (arith, lookup-insert args.msg.seq j c s.seq2cert)),
          rw (e, e, lookup-insert_self args.msg.seq c s.seq2cert) (if-false _ _ cert.committed h),
        )

    store_when :
        (node : Node)
        → lookup args.msg.node_id k.id2node ≡ some node
        → rsa_verify_with_sha256 p (sha256_digest p args.msg) args.sign node.pub_key ≡ true
        → slice_equal (sha256_digest p args.req_args.req) args.msg.digest ≡ true
        → (r : Result (Server × DuplicateConfirmArgs)) → store_and_confirm p k args s ≡ r
        → (old : Option LogCert) → lookup args.msg.seq s.seq2cert ≡ old
        → (cert_or_new old args.msg.seq).committed ≡ false
        → PeerOutcome k s r
    store_when node known verified matches r run old e pending =
        let (certs, at, stores) = store_over old e pending in
        let msg = confirm_msg (cert_or_new old args.msg.seq) s in
        elim (Result-cases (rsa_sign_with_sha256 p (sha256_digest p msg) s.node.pri_key)) [
          | inl (fault, bad) ↦ cannot_sign fault (rw e bad) (sym run ∙ stores ∙ rw bad refl)
          | inr (sign, signed) ↦
              stored node sign certs known verified matches (rw e at) (rw e signed)
                (sym run ∙ stores ∙ rw (e, signed) refl)
        ]

    store-cases :
        (node : Node)
        → lookup args.msg.node_id k.id2node ≡ some node
        → rsa_verify_with_sha256 p (sha256_digest p args.msg) args.sign node.pub_key ≡ true
        → slice_equal (sha256_digest p args.req_args.req) args.msg.digest ≡ true
        → (old : Option LogCert) → lookup args.msg.seq s.seq2cert ≡ old
        → PeerOutcome k s (store_and_confirm p k args s)
    store-cases node known verified matches none e =
        store_when node known verified matches (store_and_confirm p k args s) refl none e refl
    store-cases node known verified matches (some cert) e = elim (Bool-cases cert.committed) [
      | inl done ↦ already_committed cert e done (
          unfold store_and_confirm in unfold get_cert_or_new in unfold cert_at in rw (e, done) refl)
      | inr waits ↦
          store_when node known verified matches (store_and_confirm p k args s) refl (some cert) e
            waits
    ]

    verified-cases :
        (node : Node)
        → lookup args.msg.node_id k.id2node ≡ some node
        → rsa_verify_with_sha256 p (sha256_digest p args.msg) args.sign node.pub_key ≡ true
        → PeerOutcome k s (duplicate_rpc p k args s)
    unfolding duplicate_rpc get_node
    verified-cases node known verified =
        elim (Bool-cases (slice_equal (sha256_digest p args.req_args.req) args.msg.digest)) [
          | inr other ↦ other_request other (rw (known, verified, other) refl)
          | inl matches ↦
              rw (known, verified, matches)
                (store-cases node known verified matches (lookup args.msg.seq s.seq2cert) refl)
        ]

    pub duplicate_rpc-cases : PeerOutcome k s (duplicate_rpc p k args s)
    unfolding duplicate_rpc get_node
    duplicate_rpc-cases = elim (Option-cases (lookup args.msg.node_id k.id2node)) [
      | inl unknown ↦ unknown_sender unknown (rw unknown refl)
      | inr (node, known) ↦
          elim (Bool-cases
            (rsa_verify_with_sha256 p (sha256_digest p args.msg) args.sign node.pub_key)) [
              | inr bad ↦ bad_signature node known bad (rw (known, bad) refl)
              | inl good ↦ verified-cases node known good
            ]
    ]
