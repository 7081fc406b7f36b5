-- ===== src/Server/Phases/Counting.antt =====
-- How often `CommitRpc` counts a request.
use praft.Prelude.{
  ℕ, suc, ◌≡◌, refl, ap, ◌∙◌, true, some, inl, inr, ok, lookup, insert, lookup-insert,
  lookup-insert_self, Bool-cases, ◌==◌, arith, if◌then◌else◌,
}
use praft.Util.Slices.{Slice}
use praft.Messages.{PrepareArgs, CommitConfirmMsg}
use praft.Crypto.{Primitives, sha256_digest, rsa_sign_with_sha256, rsa_verify_with_sha256}
use praft.Config.{Config, Node, get_node}
use praft.Cert.{LogCert, commit_stage, set_stage, get}
use praft.Server.{Server, get_cert_or_new, cert_at}
use praft.Server.Phases.{is_prepare, advance, commit_rpc, commit_verified}

abbrev pub commit_confirm_msg : LogCert → Server → CommitConfirmMsg
commit_confirm_msg cert s = record {
  seq = cert.seq;
  digest = cert.digest;
  node_id = s.node.id;
  primary_node_id = cert.duplicator;
  log_index = cert.log_index;
}

-- What `CommitRpc` does, and what the same message does after it.
abbrev pub CountsOnce : Primitives → Config → PrepareArgs → Server → LogCert → Slice → Type 0
CountsOnce p k args s cert sign =
    (s' : Server) × (commit_rpc p k args s
      ≡ ok (s', record { msg = some (commit_confirm_msg cert s); sign = sign }))
    × (s'.current_block_index
        ≡ (if is_prepare cert.stage then suc s.current_block_index else s.current_block_index))
    × ((j : ℕ)
        → lookup j s'.seq2cert ≡ (
            if args.msg.seq == j
            then some (if is_prepare cert.stage then set_stage cert commit_stage else cert)
            else lookup j s.seq2cert))
    × (commit_rpc p k args s'
        ≡ ok (s', record { msg = some (commit_confirm_msg cert s); sign = sign }))

module _ (p : Primitives) (k : Config) (args : PrepareArgs) (node : Node)
    (known : lookup args.msg.primary_node_id k.id2node ≡ some node)
    (verified : rsa_verify_with_sha256 p (sha256_digest p args.msg) args.sign node.pub_key
      ≡ true) where
  commit_rpc_lem :
      (s : Server) (cert : LogCert) (sign : Slice)
      → lookup args.msg.seq s.seq2cert ≡ some cert
      → cert.seq ≡ args.msg.seq
      → rsa_sign_with_sha256 p (sha256_digest p (commit_confirm_msg cert s)) s.node.pri_key
        ≡ ok sign
      → commit_rpc p k args s
        ≡ ok (
          advance args.msg.seq cert s,
          record { msg = some (commit_confirm_msg cert s); sign = sign },
        )
  unfolding commit_rpc commit_verified get_node get_cert_or_new cert_at get
  commit_rpc_lem s cert sign e same signed =
      let again : lookup cert.seq s.seq2cert ≡ some cert = ap (λ j. lookup j s.seq2cert) same ∙ e in
      rw (known, verified, e, again) (rw signed refl)

  -- A message whose signature holds, on a certificate that lies under its own number: the server
  -- replies with a signed confirmation of what the certificate holds, and where the certificate is in
  -- the prepare stage it moves to the commit stage and the block index is raised by one. The same
  -- message again then gets the same reply and changes nothing: a request is counted once.
  pub commit_rpc-CountsOnce :
      (s : Server) (cert : LogCert) (sign : Slice)
      → lookup args.msg.seq s.seq2cert ≡ some cert
      → cert.seq ≡ args.msg.seq
      → rsa_sign_with_sha256 p (sha256_digest p (commit_confirm_msg cert s)) s.node.pri_key
        ≡ ok sign
      → CountsOnce p k args s cert sign
  unfolding advance set_stage
  commit_rpc-CountsOnce s cert sign e same signed = elim (Bool-cases (is_prepare cert.stage)) [
    | inl counts ↦
        (let moved : LogCert = set_stage cert commit_stage in
          let s' : Server = record s {
            seq2cert = insert args.msg.seq moved s.seq2cert;
            current_block_index = suc s.current_block_index;
          } in
          (
            s',
            commit_rpc_lem s cert sign e same signed ∙ rw counts refl,
            rw counts refl,
            (λ j. rw counts (lookup-insert args.msg.seq j moved s.seq2cert)),
            commit_rpc_lem s' moved sign (lookup-insert_self args.msg.seq moved s.seq2cert) same
                signed,
          ))
    | inr waits ↦ (
      s,
      commit_rpc_lem s cert sign e same signed ∙ rw waits refl,
      rw waits refl,
      (λ j. rw waits (ground (arith, e))),
      commit_rpc_lem s cert sign e same signed ∙ rw waits refl,
    )
  ]
