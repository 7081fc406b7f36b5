-- ===== src/Server/Duplicate/Handshake/Taken.antt =====
-- The server that asked takes a good confirmation: while it counts, and once it has reported.
use praft.Prelude.{
  ℕ, ◌≡◌, refl, ap, ◌∙◌, true, false, [], ◌∷◌, some, none, ok, ◌>>=◌, Map, lookup, insert, length,
  leb, if◌then◌else◌, Bool-cases, inl, inr, if-true, if-false,
}
use praft.Util.Slices.{Slice}
use praft.Messages.{RequestArgs, DuplicateConfirmArgs}
use praft.Crypto.{Primitives, rsa_sign_with_sha256}
use praft.Config.{Config}
use praft.Cert.{
  LogCert, push_duplicate_confirm, pop_all_duplicate_confirms, set_stage, duplicate_confirm_ballot,
  get,
}
use praft.Server.{Server, get_cert_or_new, cert_at}
use praft.Server.Duplicate.{
  is_initial, collect_reply, count_confirms, take_confirm, collect_ballot, collect_req,
  report_duplicated,
}
use praft.Server.Duplicate.Ballot.{next_votes, count_confirm_lem}
use praft.Server.Duplicate.Report.{counted, reported}
use praft.Server.Duplicate.Handshake.Answer.{IsGood}

module _ (p : Primitives) (k : Config) (now seq : ℕ) (base : LogCert) (s : Server)
    (reply : DuplicateConfirmArgs) where
  -- The request's certificate with these votes, none waiting.
  abbrev pub voted : Map DuplicateConfirmArgs → LogCert
  voted m = counted m base

  pub count_good :
      (id : ℕ) (m : Map DuplicateConfirmArgs)
      → IsGood p k id base.digest reply
      → lookup id m ≡ none
      → count_confirms p k (reply ∷ []) (voted m) ≡ ok (voted (insert id reply m))
  unfolding count_confirms next_votes
  count_good id m good fresh =
      let known : lookup good.msg.node_id k.id2node ≡ some good.node = rw good.of_node good.known in
      ap (◌>>= count_confirms p k [])
        (count_confirm_lem p k reply (voted m) good.msg good.node good.is_there known)
      ∙ rw (good.of_node, fresh, good.vote) refl

  -- While the certificate is in its first stage, the confirmation becomes a vote, and the request is
  -- reported if the votes are then enough.
  pub taken_young :
      (id : ℕ) (m : Map DuplicateConfirmArgs) (req : RequestArgs) (sign : Slice)
      → lookup seq s.seq2cert ≡ some (voted m)
      → is_initial base.stage ≡ true
      → base.req ≡ some req
      → rsa_sign_with_sha256 p base.digest s.node.pri_key ≡ ok sign
      → IsGood p k id base.digest reply
      → lookup id m ≡ none
      → collect_reply p k now seq reply s
        ≡ ok (
            if leb k.fault_num (length (insert id reply m))
            then (reported now seq req sign (insert id reply m) base s, true)
            else (record s { seq2cert = insert seq (voted (insert id reply m)) s.seq2cert }, false))
  unfolding collect_reply get_cert_or_new cert_at push_duplicate_confirm take_confirm collect_ballot
      get collect_req pop_all_duplicate_confirms report_duplicated duplicate_confirm_ballot
      set_stage
  taken_young id m req sign e young has signed good fresh =
      let queued = push_duplicate_confirm (voted m) reply in
      let m1 = insert id reply m in
      let takes : collect_reply p k now seq reply s ≡ take_confirm p k now seq queued s =
        rw e refl in
      let counts : collect_req p k (some req) now seq queued s
          ≡ report_duplicated p k now seq req (voted m1) s =
        ap (◌>>= λ c. report_duplicated p k now seq req c s) (count_good id m good fresh) in
      takes
      ∙ if-true _ _ (is_initial base.stage) young
      ∙ ap (λ o. collect_req p k o now seq queued s) has
      ∙ counts
      ∙ elim (Bool-cases (leb k.fault_num (length m1))) [
        | inl enough ↦ rw (enough, signed) refl
        | inr few ↦ rw few refl
      ]

-- Once the stage is left, a confirmation only waits in the queue.
pub taken_old :
    (p : Primitives) (k : Config) (now seq : ℕ) (reply : DuplicateConfirmArgs) (cert : LogCert)
    (s : Server)
    → lookup seq s.seq2cert ≡ some cert
    → is_initial cert.stage ≡ false
    → collect_reply p k now seq reply s
      ≡ ok
          (record s { seq2cert = insert seq (push_duplicate_confirm cert reply) s.seq2cert }, false)
unfolding collect_reply get_cert_or_new cert_at push_duplicate_confirm take_confirm
taken_old p k now seq reply cert s e old =
    let queued = push_duplicate_confirm cert reply in
    let takes : collect_reply p k now seq reply s ≡ take_confirm p k now seq queued s = rw e refl in
    takes ∙ if-false _ _ (is_initial cert.stage) old
