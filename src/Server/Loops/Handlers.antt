-- ===== src/Server/Loops/Handlers.antt =====
-- The other handlers, the rounds of `workLoop`, and `makeReq`: what they do to the numbers.
use praft.Prelude.{
  ℕ, ◌+◌, ◌%◌, ◌^◌, ◌≡◌, refl, sym, ap, ◌∙◌, subst, true, inl, inr, List, [], ◌∷◌, ◌++◌, some, ok,
  >>=-eq-ok, ok-inj, ok-not-panic, arith, lookup, if-true, if-false, Bool-cases, or_panic,
  nil_dereference, get_elem?, ==_refl, ◌==◌,
}
use praft.Messages.{RequestArgs, DuplicateArgs, SendingArgs, SendingReturnArgs}
use praft.Crypto.{Primitives, sha256_digest, rsa_sign_with_sha256, rsa_verify_with_sha256}
use praft.Config.{Config, get_node}
use praft.Cert.{LogCert, get, set}
use praft.Tree.{make_tree, traverse_tree}
use praft.Server.{Server, get_cert_or_new, update_cert}
use praft.Server.Certificates.{cert_or_new, update_cert_lem}
use praft.Server.Requests.{seq_step, assign_seq, take_from_pool, issue, make_req}
use praft.Server.Requests.Making.{request_at}
use praft.Server.Duplicate.{duplicate}
use praft.Server.Broadcast.{
  TreeBroadcastArgs, Relayed, tree_duplicate, tree_confirm_msg, relay_verified, tree_duplicate_rpc,
}
use praft.Server.Blocks.{
  build_block, record_block, clear_reqs, sending, receiving, sending_reply, signal,
}
use praft.Server.Blocks.Backup.{deliver}
use praft.Server.Blocks.Replies.{
  refused, unknown_height, same_height, taken, confirmed, sending_reply-cases,
}
use praft.Server.Service.{received_lem}
use praft.Server.Loops.{Sent, over_star, over_tree, start_duplicating}
use praft.Server.Loops.Frames.{
  has_req, KeepsReqs, IsFrame, updated-KeepsReqs, same-IsFrame, certs-IsFrame,
  get_cert_or_new-KeepsReqs,
}

-- The number of the request that a round of `workLoop` sends.
abbrev pub seq_of : Sent → ℕ
seq_of (over_star args ids) = args.msg.seq
seq_of (over_tree args ids) = args.tree_bc_msgs.seq

deliver-IsFrame : (args : SendingArgs) (s : Server) → IsFrame 0 s (deliver args.msg s)
unfolding deliver
deliver-IsFrame args s = record {
  seq_ch = ground arith;
  seq_inc = ground arith;
  dup_time = ground arith;
  reqs = λ j h. ground arith;
  node = ground arith;
  peers = ground arith;
}

pub sending_reply-IsFrame :
    (k : Config) (args : SendingReturnArgs) (s s' : Server)
    → sending_reply k args s ≡ ok s'
    → IsFrame 0 s s'
unfolding confirmed signal
sending_reply-IsFrame k args s s' run = elim (sending_reply-cases k args s) [
  | refused nil r ↦ absurd (ok-not-panic (sym run ∙ r))
  | same_height msg b e found same r ↦ absurd (ok-not-panic (sym run ∙ r))
  | unknown_height msg e absent r ↦ subst (IsFrame 0 s) (ok-inj (sym r ∙ run)) (same-IsFrame s)
  | taken msg b c e eb ec different r ↦ subst (IsFrame 0 s) (ok-inj (sym r ∙ run)) (record {
    seq_ch = ground arith;
    seq_inc = ground arith;
    dup_time = ground arith;
    reqs = λ j h. ground arith;
    node = ground arith;
    peers = ground arith;
  })
]

module _ (p : Primitives) (k : Config) where
  pub sending-IsFrame :
      (args : SendingArgs) (s s' : Server) → sending p s ≡ ok (s', args) → IsFrame 0 s s'
  unfolding sending build_block record_block clear_reqs
  sending-IsFrame args s s' run =
      let (sign, signed, run1) =
        >>=-eq-ok (rsa_sign_with_sha256 p (sha256_digest p (build_block s).1) s.node.pri_key) _
          run in
      subst (λ (r : Server × SendingArgs). IsFrame 0 s r.0) (ok-inj run1)
        (record {
          seq_ch = refl;
          seq_inc = refl;
          dup_time = omega arith;
          reqs = λ j h. h;
          node = refl;
          peers = refl;
        })

  pub receiving-IsFrame :
      (args : SendingArgs) (reply : SendingReturnArgs) (s s' : Server)
      → receiving p k args s ≡ ok (s', reply)
      → IsFrame 0 s s'
  unfolding receiving
  receiving-IsFrame args reply s s' run =
      let (node, known, run1) = >>=-eq-ok (get_node k args.msg.primary_node_id) _ run in
      let verified = rsa_verify_with_sha256 p (sha256_digest p args.msg) args.sign node.pub_key in
      elim (Bool-cases verified) [
        | inl good ↦
            (let (moved, replied) =
                received_lem p k args reply s s' (sym (if-true _ _ verified good) ∙ run1) in
              subst (IsFrame 0 s) moved (deliver-IsFrame args s))
        | inr bad ↦
            subst (λ (r : Server × SendingReturnArgs). IsFrame 0 s r.0)
              (ok-inj (sym (if-false _ _ verified bad) ∙ run1)) (same-IsFrame s)
      ]

  relay_verified-IsFrame :
      (args : TreeBroadcastArgs) (s : Server) (r : Relayed)
      → relay_verified p k args s ≡ ok r
      → IsFrame 0 s r.server
  unfolding relay_verified set
  relay_verified-IsFrame args s r run =
      let seq = args.tree_bc_msgs.seq in
      let (next_nodes, traversed, run1) =
        >>=-eq-ok (traverse_tree args.tree_bc_msgs.tree s.node.id) _ run in
      let (root, rooted, run2) =
        >>=-eq-ok (or_panic (get_elem? args.tree_bc_msgs.tree 0) nil_dereference) _ run1 in
      let digest = sha256_digest p (tree_confirm_msg p root.id args s) in
      let (sign, signed, run3) = >>=-eq-ok (rsa_sign_with_sha256 p digest s.node.pri_key) _ run2 in
      let change = λ (cert : LogCert).
        set cert (some args.req_args) digest 0 args.tree_bc_msgs.duplicator_node_id in
      subst (λ (r : Relayed). IsFrame 0 s r.server) (ok-inj run3)
        (certs-IsFrame s (update_cert seq change s.seq2cert) (
          updated-KeepsReqs seq (change (cert_or_new (lookup seq s.seq2cert) seq)) s.seq2cert
            (update_cert seq change s.seq2cert) (update_cert_lem seq change s.seq2cert)
            (λ h. refl)))

  pub tree_duplicate_rpc-IsFrame :
      (args : TreeBroadcastArgs) (s : Server) (r : Relayed)
      → tree_duplicate_rpc p k args s ≡ ok r
      → IsFrame 0 s r.server
  unfolding tree_duplicate_rpc
  tree_duplicate_rpc-IsFrame args s r run =
      let (node, known, run1) = >>=-eq-ok (get_node k args.tree_bc_msgs.node_id) _ run in
      let verified =
        rsa_verify_with_sha256 p (sha256_digest p args.tree_bc_msgs) args.sign node.pub_key in
      elim (Bool-cases verified) [
        | inl good ↦ relay_verified-IsFrame args s r (sym (if-true _ _ verified good) ∙ run1)
        | inr bad ↦
            subst (λ (r : Relayed). IsFrame 0 s r.server)
              (ok-inj (sym (if-false _ _ verified bad) ∙ run1)) (same-IsFrame s)
      ]

  duplicate-IsFrame :
      (seq : ℕ) (s : Server) (r : Server × DuplicateArgs)
      → duplicate p k seq s ≡ ok r
      → IsFrame 0 s r.0 × (r.1.msg.seq ≡ seq)
  unfolding duplicate
  duplicate-IsFrame seq s r run =
      let certs = (get_cert_or_new seq s.seq2cert).0 in
      let frame = certs-IsFrame s certs (get_cert_or_new-KeepsReqs seq s.seq2cert) in
      let (req, has, run1) =
        >>=-eq-ok (or_panic (get (get_cert_or_new seq s.seq2cert).1).req nil_dereference) _ run in
      let (sign, signed, run2) = >>=-eq-ok (rsa_sign_with_sha256 p _ s.node.pri_key) _ run1 in
      subst (λ (r : Server × DuplicateArgs). IsFrame 0 s r.0 × (r.1.msg.seq ≡ seq)) (ok-inj run2)
        (frame, refl)

  tree_duplicate-IsFrame :
      (ids : List ℕ) (seq : ℕ) (s : Server) (r : Server × TreeBroadcastArgs × List ℕ)
      → tree_duplicate p k ids seq s ≡ ok r
      → IsFrame 0 s r.0 × (r.1.tree_bc_msgs.seq ≡ seq)
  unfolding tree_duplicate
  tree_duplicate-IsFrame ids seq s r run =
      let certs = (get_cert_or_new seq s.seq2cert).0 in
      let frame = certs-IsFrame s certs (get_cert_or_new-KeepsReqs seq s.seq2cert) in
      let (tree, built, run1) = >>=-eq-ok (make_tree ids 2 s.node.id) _ run in
      let (req, has, run2) =
        >>=-eq-ok (or_panic (get (get_cert_or_new seq s.seq2cert).1).req nil_dereference) _ run1 in
      let (sign, signed, run3) = >>=-eq-ok (rsa_sign_with_sha256 p _ s.node.pri_key) _ run2 in
      let (nodes, traversed, run4) = >>=-eq-ok (traverse_tree tree s.node.id) _ run3 in
      subst
        (λ (r : Server × TreeBroadcastArgs × List ℕ).
          IsFrame 0 s r.0 × (r.1.tree_bc_msgs.seq ≡ seq))
        (ok-inj run4) (frame, refl)

  pub start_duplicating-IsFrame :
      (ids : List ℕ) (seq : ℕ) (s : Server) (r : Server × Sent)
      → start_duplicating p k ids seq s ≡ ok r
      → IsFrame 0 s r.0 × (seq_of r.1 ≡ seq)
  unfolding start_duplicating
  start_duplicating-IsFrame ids seq s r run = elim (Bool-cases (k.duplicate_mode == 1)) [
    | inl star ↦
        (let (sent, sends, run1) =
            >>=-eq-ok (duplicate p k seq s) _
              (sym (if-true _ _ (k.duplicate_mode == 1) star) ∙ run) in
          subst (λ (r : Server × Sent). IsFrame 0 s r.0 × (seq_of r.1 ≡ seq)) (ok-inj run1)
            (duplicate-IsFrame seq s sent sends))
    | inr tree ↦
        (let (sent, sends, run1) =
            >>=-eq-ok (tree_duplicate p k ids seq s) _
              (sym (if-false _ _ (k.duplicate_mode == 1) tree) ∙ run) in
          subst (λ (r : Server × Sent). IsFrame 0 s r.0 × (seq_of r.1 ≡ seq)) (ok-inj run1)
            (tree_duplicate-IsFrame ids seq s sent sends))
  ]

  -- `makeReq`: the next number, with a request.
  pub make_req-next :
      (now : ℕ) (tx_set : List ℕ) (s s' : Server)
      → make_req p k now tx_set s ≡ ok s'
      → (s'.seq_ch ≡ s.seq_ch ++ s'.seq_inc ∷ [])
        × (s'.seq_inc ≡ (s.seq_inc + seq_step) % 2 ^ 64)
        × (s'.dup_time ≡ s.dup_time)
        × (s'.node ≡ s.node)
        × (s'.peers ≡ s.peers)
        × KeepsReqs s.seq2cert s'.seq2cert
        × (has_req (lookup s'.seq_inc s'.seq2cert) ≡ true)
  unfolding make_req issue assign_seq set
  make_req-next now tx_set s s' run =
      let (batches, took, run1) =
        >>=-eq-ok (take_from_pool k.batch_tx_num now s.tx_pool_batches) _ run in
      let (node, known, run2) = >>=-eq-ok (get_node k s.node.id) _ run1 in
      let (sign, signed, run3) =
        >>=-eq-ok (rsa_sign_with_sha256 p (sha256_digest p (request_at now tx_set)) node.pri_key) _
          run2 in
      let seq : ℕ = (s.seq_inc + seq_step) % 2 ^ 64 in
      let args : RequestArgs = record {
        req = request_at now tx_set;
        sign = sign;
        tx_num = k.batch_tx_num;
      } in
      let change = λ (cert : LogCert).
        record (set cert (some args) (sha256_digest p (request_at now tx_set)) 0 s.node.id) {
          produce_time = now;
        } in
      let at = update_cert_lem seq change s.seq2cert in
      subst
        (λ (s' : Server).
          (s'.seq_ch ≡ s.seq_ch ++ s'.seq_inc ∷ [])
          × (s'.seq_inc ≡ (s.seq_inc + seq_step) % 2 ^ 64)
          × (s'.dup_time ≡ s.dup_time)
          × (s'.node ≡ s.node)
          × (s'.peers ≡ s.peers)
          × KeepsReqs s.seq2cert s'.seq2cert
          × (has_req (lookup s'.seq_inc s'.seq2cert) ≡ true))
        (ok-inj run3)
        (
          refl,
          refl,
          refl,
          refl,
          refl,
          updated-KeepsReqs seq (change (cert_or_new (lookup seq s.seq2cert) seq)) s.seq2cert
              (update_cert seq change s.seq2cert) at (λ h. refl),
          ap has_req (at seq ∙ if-true _ _ (seq == seq) (==_refl seq)),
        )
