-- ===== src/Server/Duplicate/Handshake/Complete.antt =====
-- `makeReq`, `duplicate`, `DuplicateRpc` and `verifyBallot` together.
use praft.Prelude.{
  ℕ, ◌≡◌, ◌≢◌, refl, ap, ◌∙◌, true, not, List, [], ◌∷◌, ◌++◌, some, none, ok, lookup, length,
  Distinct, if◌then◌else◌, if-true, ==_refl, ◌==◌,
}
use praft.Util.Slices.{Slice, slice_equal_refl}
use praft.Messages.{TxPoolUnit, RequestArgs, DuplicatedReqUnit, DuplicateMsg, DuplicateArgs}
use praft.Crypto.{Primitives, sha256_digest, rsa_sign_with_sha256, rsa_verify_with_sha256}
use praft.Crypto.Keys.{sign_verify}
use praft.Config.{Config, Node}
use praft.Cert.{LogCert, get}
use praft.Server.{Server, get_cert_or_new, cert_at}
use praft.Server.Requests.{assign_seq, last_batch}
use praft.Server.Requests.Making.{request_at, made_cert, make_req_lem}
use praft.Server.Duplicate.{is_initial, duplicate, unit_of_request}
use praft.Server.Duplicate.Handshake.{Exchange, newest, make_and_duplicate}
use praft.Server.Duplicate.Handshake.Answer.{IsMember, IsAccepted}
use praft.Server.Duplicate.Handshake.Enough.{
  ids, AreReady, AllHold, AllFresh, is_enough, call_young,
}

newest-append : (seqs : List ℕ) (seq : ℕ) → newest (seqs ++ seq ∷ []) ≡ some seq
unfolding newest
newest-append [] seq = refl
newest-append (x ∷ []) seq = refl
newest-append (x ∷ (y ∷ seqs)) seq = newest-append (y ∷ seqs) seq

none_voted : (peers : List Server) → AllFresh [] peers
unfolding lookup
none_voted [] = tt
none_voted (peer ∷ rest) = (refl, none_voted rest)

-- What `duplicate` sends for a certificate.
abbrev sent_msg : ℕ → LogCert → RequestArgs → ℕ → DuplicateMsg
sent_msg seq cert req id = record {
  seq = seq;
  digest = cert.digest;
  node_id = id;
  duplicator_node_id = cert.duplicator;
  tx_num = req.tx_num;
  log_index = 0;
}

module _ (p : Primitives) (k : Config) where
  duplicate_lem :
      (seq : ℕ) (cert : LogCert) (req : RequestArgs) (sign : Slice) (s : Server) (node : Node)
      → s.node ≡ node
      → lookup seq s.seq2cert ≡ some cert
      → cert.req ≡ some req
      → rsa_sign_with_sha256 p (sha256_digest p (sent_msg seq cert req node.id)) node.pri_key
        ≡ ok sign
      → duplicate p k seq s
        ≡ ok (s, record { msg = sent_msg seq cert req node.id; sign = sign; req_args = req })
  unfolding duplicate get_cert_or_new cert_at get
  duplicate_lem seq cert req sign s node same e has signed =
      let signed_here : rsa_sign_with_sha256 p (sha256_digest p (sent_msg seq cert req s.node.id))
            s.node.pri_key
          ≡ ok sign =
        rw same signed in
      rw (e, has, signed_here)
        (ap (λ id. ok (s, record { msg = sent_msg seq cert req id; sign = sign; req_args = req }))
          (ap (λ n. n.id) same))

  module _ (now later : ℕ) (tx_set : List ℕ) (s : Server) (b : TxPoolUnit)
      (peers : List Server) where
    -- The request that `makeReq` makes, and what the calls of the peers then come to: the request is
    -- reported, at the end, if there are peers and as many as `FaultNum`.
    pub record IsDuplicated : Type 0 where
      pub after : Exchange
      pub given : DuplicatedReqUnit
      pub req : RequestArgs
      pub cert : LogCert
      pub run : make_and_duplicate p k now later tx_set peers s ≡ ok after
      pub made : req.req ≡ request_at now tx_set
      pub given_seq : given.seq ≡ (assign_seq s).1
      pub given_node : given.duplicating_node_id ≡ s.node.id
      pub given_tx_num : given.tx_num ≡ k.batch_tx_num
      pub given_digest : given.digest ≡ sha256_digest p (request_at now tx_set)
      pub given_sign : rsa_verify_with_sha256 p given.digest given.sign s.node.pub_key ≡ true
      pub reports :
          after.maker.local_duplicated_reqs
          ≡ s.local_duplicated_reqs
            ++ (if is_enough k.fault_num 0 (length peers) then given ∷ [] else [])
      pub asks : after.asked ≡ (if is_enough k.fault_num 0 (length peers) then 1 else 0)
      pub same_node : after.maker.node ≡ s.node
      pub found : lookup (assign_seq s).1 after.maker.seq2cert ≡ some cert
      pub stage : is_initial cert.stage ≡ not (is_enough k.fault_num 0 (length peers))
      pub held :
          AllHold (assign_seq s).1 req (sha256_digest p (request_at now tx_set)) peers after.peers

    -- Let the pool's newest batch not be empty, the request's number be new to the server and not
    -- committed at any of its peers, the peers be different nodes, and let the server and the peers be
    -- configured nodes whose keys fit. Then `makeReq`, `duplicate` and one call of `DuplicateRpc` to
    -- each peer, in whatever order they return, do not panic. Every peer then holds the request with
    -- its digest under its number. If there is a peer and there are at least `FaultNum` of them, the
    -- request has been reported exactly once, with its number, this node, the configured count, the
    -- digest and a signature that verifies, its certificate has left the first stage, and one new
    -- request has been asked for; otherwise none of these has happened.
    pub make_and_duplicate_lem :
        last_batch s.tx_pool_batches ≡ some b
        → b.tx_num ≢ 0
        → IsMember p k s
        → lookup (assign_seq s).1 s.seq2cert ≡ none
        → AreReady p k (assign_seq s).1 peers
        → Distinct (ids peers)
        → IsDuplicated
    unfolding make_and_duplicate
    make_and_duplicate_lem last full member fresh ready d =
        let seq = (assign_seq s).1 in
        let digest = sha256_digest p (request_at now tx_set) in
        let (sign, signs, verifies) =
          sign_verify p s.node.pri_key s.node.pub_key digest member.keys in
        let (s1, made, certs, sent, inc, pool, kept, same) =
          make_req_lem p k now tx_set s b s.node sign last full member.known signs fresh in
        let base = made_cert p k seq now tx_set sign s in
        let req : RequestArgs = record {
          req = request_at now tx_set;
          sign = sign;
          tx_num = k.batch_tx_num;
        } in
        let msg = sent_msg seq base req s.node.id in
        let (msg_sign, msg_signs, msg_verifies) =
          sign_verify p s.node.pri_key s.node.pub_key (sha256_digest p msg) member.keys in
        let args : DuplicateArgs = record { msg = msg; sign = msg_sign; req_args = req } in
        let found : lookup seq s1.seq2cert ≡ some base =
          certs seq ∙ if-true _ _ (seq == seq) (==_refl seq) in
        let sends : duplicate p k seq s1 ≡ ok (s1, args) =
          duplicate_lem seq base req msg_sign s1 s.node same found refl msg_signs in
        let accepted : IsAccepted p k args = record {
          sender = s.node;
          known = member.known;
          verified = msg_verifies;
          matches = slice_equal_refl digest;
        } in
        let calls =
          call_young p k later args accepted (unit_of_request base req sign s) base sign refl refl
            refl peers s1 [] ready d (none_voted peers) found (rw same signs) (rw same refl) in
        let newest_seq : newest s1.seq_ch ≡ some seq =
          ap newest sent ∙ newest-append s.seq_ch seq in
        record {
          after = calls.after;
          given = unit_of_request base req sign s;
          req = req;
          cert = calls.cert;
          run = rw (made, newest_seq, sends) calls.run;
          made = refl;
          given_seq = refl;
          given_node = refl;
          given_tx_num = refl;
          given_digest = refl;
          given_sign = verifies;
          reports =
              calls.reports
              ∙ ap
                  (λ reqs.
                    reqs
                    ++ (if is_enough k.fault_num 0 (length peers)
                        then unit_of_request base req sign s ∷ []
                        else []))
                  kept;
          asks = calls.asks;
          same_node = calls.same_node ∙ same;
          found = calls.found;
          stage = calls.stage;
          held = calls.held;
        }
