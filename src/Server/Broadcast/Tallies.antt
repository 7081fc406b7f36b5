-- ===== src/Server/Broadcast/Tallies.antt =====
-- The handlers of the tree keep the tally of the reported requests right.
use praft.Prelude.{
  ℕ, ◌++◌, ◌≡◌, refl, sym, ◌∙◌, subst, Bool, inl, inr, List, [], ◌∷◌, some, ok, >>=-eq-ok, ok-inj,
  or_panic, nil_dereference, get_elem?, lookup, Bool-cases, if-true, if-false,
}
use praft.Messages.{DuplicatedReqUnit, DuplicateConfirmArgs}
use praft.Crypto.{Primitives, sha256_digest, rsa_sign_with_sha256, rsa_verify_with_sha256}
use praft.Config.{Config, get_node}
use praft.Cert.{LogCert, set}
use praft.Tree.{traverse_tree}
use praft.Server.{Server, update_cert}
use praft.Server.Certificates.{cert_or_new, update_cert_lem}
use praft.Server.Duplicate.{collect_reply, duplicate_reply}
use praft.Server.Duplicate.Tally.{
  Balanced, updated-IsBalanced, cert_or_new_named, make_req-Balanced,
}
use praft.Server.Duplicate.Count.{collect_at-Balanced}
use praft.Server.Broadcast.{
  TreeBroadcastArgs, Relayed, tree_confirm_msg, relay_verified, tree_duplicate_rpc, tree_reply,
  receive_back,
}

module _ (p : Primitives) (k : Config) (given : List DuplicatedReqUnit) (extra : ℕ → ℕ) where
  duplicate_reply-Balanced :
      (now : ℕ) (tx_set : List ℕ) (seq : ℕ) (args : DuplicateConfirmArgs) (s s' : Server)
      → Balanced given extra s
      → duplicate_reply p k now tx_set seq args s ≡ ok s'
      → Balanced given extra s'
  unfolding duplicate_reply
  duplicate_reply-Balanced now tx_set seq args s s' t run =
      let (r, counted, run1) = >>=-eq-ok (collect_reply p k now seq args s) _ run in
      let t1 = collect_at-Balanced p k given extra now seq args s r.0 r.1 _ refl t counted in
      elim (Bool-cases r.1) [
        | inl more ↦
            make_req-Balanced p k given extra now tx_set r.0 s' t1
              (sym (if-true _ _ r.1 more) ∙ run1)
        | inr done ↦ subst (Balanced given extra) (ok-inj (sym (if-false _ _ r.1 done) ∙ run1)) t1
      ]

  pub tree_reply-Balanced :
      (now : ℕ) (args : DuplicateConfirmArgs) (s s' : Server) (more : Bool)
      → Balanced given extra s
      → tree_reply p k now args s ≡ ok (s', more)
      → Balanced given extra s'
  unfolding tree_reply
  tree_reply-Balanced now args s s' more t run =
      let (msg, has_msg, run1) = >>=-eq-ok (or_panic args.msg nil_dereference) _ run in
      collect_at-Balanced p k given extra now msg.seq args s s' more _ refl t run1

  pub receive_back-Balanced :
      (confirms : List (DuplicateConfirmArgs × ℕ × List ℕ)) (s s' : Server)
      → Balanced given extra s
      → receive_back p k confirms s ≡ ok s'
      → Balanced given extra s'
  unfolding receive_back
  receive_back-Balanced [] s s' t run = subst (Balanced given extra) (ok-inj run) t
  receive_back-Balanced ((args, now, tx_set) ∷ rest) s s' t run =
      let (msg, has_msg, run1) = >>=-eq-ok (or_panic args.msg nil_dereference) _ run in
      let (s1, one, run2) = >>=-eq-ok (duplicate_reply p k now tx_set msg.seq args s) _ run1 in
      receive_back-Balanced rest s1 s' (duplicate_reply-Balanced now tx_set msg.seq args s s1 t one)
        run2

  relay_verified-Balanced :
      (args : TreeBroadcastArgs) (s : Server) (r : Relayed)
      → Balanced given extra s
      → relay_verified p k args s ≡ ok r
      → Balanced given extra r.server
  unfolding relay_verified set
  relay_verified-Balanced args s r t run =
      let seq = args.tree_bc_msgs.seq in
      let (next_nodes, traversed, run1) =
        >>=-eq-ok (traverse_tree args.tree_bc_msgs.tree s.node.id) _ run in
      let (root, rooted, run2) =
        >>=-eq-ok (or_panic (get_elem? args.tree_bc_msgs.tree 0) nil_dereference) _ run1 in
      let digest = sha256_digest p (tree_confirm_msg p root.id args s) in
      let (sign, signed, run3) = >>=-eq-ok (rsa_sign_with_sha256 p digest s.node.pri_key) _ run2 in
      let change = λ (cert : LogCert).
        set cert (some args.req_args) digest 0 args.tree_bc_msgs.duplicator_node_id in
      let found = cert_or_new_named extra s.seq2cert (given ++ s.local_duplicated_reqs) seq t in
      subst (λ (r : Relayed). Balanced given extra r.server) (ok-inj run3)
        (updated-IsBalanced extra seq (change (cert_or_new (lookup seq s.seq2cert) seq)) s.seq2cert
          (update_cert seq change s.seq2cert) given s.local_duplicated_reqs found.0
          (update_cert_lem seq change s.seq2cert) t found.1)

  pub tree_duplicate_rpc-Balanced :
      (args : TreeBroadcastArgs) (s : Server) (r : Relayed)
      → Balanced given extra s
      → tree_duplicate_rpc p k args s ≡ ok r
      → Balanced given extra r.server
  unfolding tree_duplicate_rpc
  tree_duplicate_rpc-Balanced args s r t run =
      let (node, known, run1) = >>=-eq-ok (get_node k args.tree_bc_msgs.node_id) _ run in
      let verified =
        rsa_verify_with_sha256 p (sha256_digest p args.tree_bc_msgs) args.sign node.pub_key in
      elim (Bool-cases verified) [
        | inl good ↦ relay_verified-Balanced args s r t (sym (if-true _ _ verified good) ∙ run1)
        | inr bad ↦
            subst (λ (r : Relayed). Balanced given extra r.server)
              (ok-inj (sym (if-false _ _ verified bad) ∙ run1)) t
      ]
