-- ===== src/Server/Duplicate/Once.antt =====
-- No request is reported twice: `verifyBallot` together with the handlers that touch certificates
-- while requests are being duplicated, one by one or over the tree.
use praft.Prelude.{ℕ, ◌+◌, ◌≡◌, refl, ◌∙◌, Bool, List, [], ok, lookup, arith}
use praft.Messages.{DuplicatedReqUnit, DuplicateArgs, DuplicateConfirmArgs}
use praft.Crypto.{Primitives}
use praft.Config.{Config}
use praft.Server.{Server}
use praft.Server.Requests.{make_req}
use praft.Server.Duplicate.{duplicate_rpc, collect_reply}
use praft.Server.Duplicate.Tally.{
  reports, IsTallied, Balanced, make_req-Balanced, duplicate_rpc-Balanced,
}
use praft.Server.Duplicate.Count.{collect_at-Balanced}
use praft.Server.Broadcast.{
  TreeBroadcastArgs, Relayed, tree_duplicate_rpc, tree_reply, receive_back,
}
use praft.Server.Broadcast.Tallies.{
  tree_duplicate_rpc-Balanced, tree_reply-Balanced, receive_back-Balanced,
}

module _ (p : Primitives) (k : Config) where
  -- The handlers that touch the certificates while requests are duplicated: the peer's side of other
  -- servers' requests, requests made here, confirmations of any certificate, and the same over the
  -- tree.
  pub data Duplicating (s : Server) : Server → Type 0 where
    rpc :
        {s' : Server} (args : DuplicateArgs) (reply : DuplicateConfirmArgs)
        → duplicate_rpc p k args s ≡ ok (s', reply)
        → Duplicating s s'
    made :
        {s' : Server} (now : ℕ) (tx_set : List ℕ)
        → make_req p k now tx_set s ≡ ok s'
        → Duplicating s s'
    replied :
        {s' : Server} (now seq : ℕ) (args : DuplicateConfirmArgs) (more : Bool)
        → collect_reply p k now seq args s ≡ ok (s', more)
        → Duplicating s s'
    relayed :
        (args : TreeBroadcastArgs) (r : Relayed)
        → tree_duplicate_rpc p k args s ≡ ok r
        → Duplicating s r.server
    tree_replied :
        {s' : Server} (now : ℕ) (args : DuplicateConfirmArgs) (more : Bool)
        → tree_reply p k now args s ≡ ok (s', more)
        → Duplicating s s'
    sent_back :
        {s' : Server} (confirms : List (DuplicateConfirmArgs × ℕ × List ℕ))
        → receive_back p k confirms s ≡ ok s'
        → Duplicating s s'

  -- These, in any order.
  pub data Duplicates : Server → Type 0 where
    started : (s : Server) → s.seq2cert ≡ [] → s.local_duplicated_reqs ≡ [] → Duplicates s
    next : {s s' : Server} → Duplicates s → Duplicating s s' → Duplicates s'

  pub Duplicating-Balanced :
      (given : List DuplicatedReqUnit) (extra : ℕ → ℕ) (s s' : Server)
      → Balanced given extra s
      → Duplicating s s'
      → Balanced given extra s'
  Duplicating-Balanced given extra s s' t (rpc args reply run) =
      duplicate_rpc-Balanced p k given extra args s s' reply t run
  Duplicating-Balanced given extra s s' t (made now tx_set run) =
      make_req-Balanced p k given extra now tx_set s s' t run
  Duplicating-Balanced given extra s s' t (replied now seq args more run) =
      collect_at-Balanced p k given extra now seq args s s' more _ refl t run
  Duplicating-Balanced given extra s _ t (relayed args r run) =
      tree_duplicate_rpc-Balanced p k given extra args s r t run
  Duplicating-Balanced given extra s s' t (tree_replied now args more run) =
      tree_reply-Balanced p k given extra now args s s' more t run
  Duplicating-Balanced given extra s s' t (sent_back confirms run) =
      receive_back-Balanced p k given extra confirms s s' t run

  Duplicates-Balanced : {s : Server} → Duplicates s → Balanced [] (λ j. 0) s
  unfolding lookup
  Duplicates-Balanced (started s nil none_yet) =
      rw (nil, none_yet) record { named = λ j cert e. cc; balanced = λ j. omega arith }
  Duplicates-Balanced (next d step) =
      Duplicating-Balanced [] (λ j. 0) _ _ (Duplicates-Balanced d) step

  -- After any run of `DuplicateRpc`, `makeReq`, peers' confirmations, `TreeDuplicateRpc`, its replies
  -- and `PrimaryReceiveBackRpc`, from a server without certificates and requests, in whatever order
  -- and however many: every certificate lies under its own number, and a number has been reported
  -- exactly once if its certificate has left the first stage, and never if it has not or is not
  -- there.
  pub Duplicates-IsTallied :
      {s : Server} → Duplicates s → IsTallied s.seq2cert s.local_duplicated_reqs
  Duplicates-IsTallied {s = s} d =
      let t = Duplicates-Balanced d in
      record {
        named = t.named;
        tallied = λ j.
            (let zero_more : 0 + reports (lookup j s.seq2cert) ≡ reports (lookup j s.seq2cert) =
                omega arith in
              t.balanced j ∙ zero_more);
      }
