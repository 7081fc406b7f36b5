-- ===== src/Server/Service.antt =====
-- All that a server does with the requests that are reported to it (zpbft/server.go): it duplicates
-- requests, sends blocks and takes the replies, and receives blocks and replies to them.
use praft.Prelude.{
  ℕ, ◌≡◌, refl, sym, ap, ◌∙◌, subst, ◌⊎◌, inl, inr, List, [], ◌++◌, append-nil, Option, none, some,
  ok, >>=-eq-ok, ok-inj, ok-not-panic, lookup, Bool-cases, if-true, if-false, arith,
}
use praft.Messages.{DuplicatedReqUnit, SendingArgs, SendingReturnMsg, SendingReturnArgs}
use praft.Crypto.{Primitives, sha256_digest, rsa_sign_with_sha256, rsa_verify_with_sha256}
use praft.Config.{Config, get_node}
use praft.BlockLog.{BlockLog}
use praft.Server.{Server}
use praft.Server.Blocks.{
  build_block, record_block, clear_reqs, sending, receiving, receive_verified, sending_reply,
  note_prepared, note_committed, report, signal,
}
use praft.Server.Blocks.Backup.{deliver, deliver_frame, reply_to}
use praft.Server.Blocks.Replies.{
  refused, unknown_height, same_height, taken, confirmed, sending_reply-cases,
}
use praft.Server.Duplicate.Tally.{times, times-append, IsBalanced, Balanced}
use praft.Server.Duplicate.Once.{Duplicating, Duplicating-Balanced}

-- The requests that a reply to a block gives away.
abbrev pub given_in : Option SendingReturnMsg → List DuplicatedReqUnit
given_in none = []
given_in (some msg) = msg.new_duplicated_reqs

-- The requests that the primary takes from a reply: none, if it has no log for one of its heights.
abbrev pub joined : Option BlockLog → Option BlockLog → SendingReturnMsg → List DuplicatedReqUnit
joined none c msg = []
joined (some b) none msg = []
joined (some b) (some c) msg = msg.new_duplicated_reqs

abbrev pub taken_from : Option SendingReturnMsg → Server → List DuplicatedReqUnit
taken_from none s = []
taken_from (some msg) s =
    joined (lookup msg.prepare_block_index s.height2block_log)
      (lookup msg.committed_block_index s.height2block_log) msg

module _ (p : Primitives) (k : Config) where
  -- A server with the requests that it has given away in its blocks and replies, and those that it has taken
  -- from the replies to its blocks.
  pub data Serves : List DuplicatedReqUnit → List DuplicatedReqUnit → Server → Type 0 where
    launched : (s : Server) → s.seq2cert ≡ [] → s.local_duplicated_reqs ≡ [] → Serves [] [] s
    duplicated_step :
        {given joins : List DuplicatedReqUnit} {s s' : Server}
        → Serves given joins s
        → Duplicating p k s s'
        → Serves given joins s'
    sent_block :
        {given joins : List DuplicatedReqUnit} {s s' : Server} (args : SendingArgs)
        → Serves given joins s
        → sending p s ≡ ok (s', args)
        → Serves (given ++ args.msg.block.duplicated_reqs) joins s'
    received_block :
        {given joins : List DuplicatedReqUnit} {s s' : Server} (args : SendingArgs)
        (reply : SendingReturnArgs)
        → Serves given joins s
        → receiving p k args s ≡ ok (s', reply)
        → Serves (given ++ given_in reply.msg) joins s'
    took_reply :
        {given joins : List DuplicatedReqUnit} {s s' : Server} (args : SendingReturnArgs)
        → Serves given joins s
        → sending_reply k args s ≡ ok s'
        → Serves given (joins ++ taken_from args.msg s) s'

-- What the steps of the block pipeline do to the requests.
moved-Balanced :
    (given units : List DuplicatedReqUnit) (extra : ℕ → ℕ) (s s' : Server)
    → Balanced given extra s
    → s'.seq2cert ≡ s.seq2cert
    → s'.local_duplicated_reqs ≡ []
    → units ≡ s.local_duplicated_reqs
    → Balanced (given ++ units) extra s'
moved-Balanced given units extra s s' t certs cleared same =
    rw (certs, cleared, same, append-nil (given ++ s.local_duplicated_reqs)) t

joined-Balanced :
    (given joins units : List DuplicatedReqUnit) (s s' : Server)
    → Balanced given (λ j. times j joins) s
    → s'.seq2cert ≡ s.seq2cert
    → s'.local_duplicated_reqs ≡ s.local_duplicated_reqs ++ units
    → Balanced given (λ j. times j (joins ++ units)) s'
joined-Balanced given joins units s s' t certs grown =
    rw (certs, grown)
      (record {
        named = t.named;
        balanced = λ j. omega (
          arith,
          t.balanced j,
          times-append j joins units,
          times-append j given (s.local_duplicated_reqs ++ units),
          times-append j s.local_duplicated_reqs units,
          times-append j given s.local_duplicated_reqs,
        );
      })

sending-Balanced :
    (p : Primitives) (given : List DuplicatedReqUnit) (extra : ℕ → ℕ) (args : SendingArgs)
    (s s' : Server)
    → Balanced given extra s
    → sending p s ≡ ok (s', args)
    → Balanced (given ++ args.msg.block.duplicated_reqs) extra s'
unfolding sending build_block record_block clear_reqs
sending-Balanced p given extra args s s' t run =
    let (sign, signed, run1) =
      >>=-eq-ok (rsa_sign_with_sha256 p (sha256_digest p (build_block s).1) s.node.pri_key) _ run in
    let e = ok-inj run1 in
    moved-Balanced given args.msg.block.duplicated_reqs extra s s' t
      (ap (λ (r : Server × SendingArgs). r.0.seq2cert) (sym e))
      (ap (λ (r : Server × SendingArgs). r.0.local_duplicated_reqs) (sym e))
      (ap (λ (r : Server × SendingArgs). r.1.msg.block.duplicated_reqs) (sym e))

pub received_lem :
    (p : Primitives) (k : Config) (args : SendingArgs) (reply : SendingReturnArgs) (s s' : Server)
    → receive_verified p args.msg s ≡ ok (s', reply)
    → (deliver args.msg s ≡ s') × (some (reply_to args.msg s) ≡ reply.msg)
unfolding receive_verified deliver report note_prepared note_committed
received_lem p k args reply s s' run =
    let s1 = note_committed args.msg.commit_block_index (note_prepared args.msg s) in
    let (sign, signed, run1) =
      >>=-eq-ok (rsa_sign_with_sha256 p (sha256_digest p (report args.msg s1).1) s1.node.pri_key) _
        run in
    let (node, cleared, kept, same) = deliver_frame args.msg s in
    let names : some (reply_to args.msg s) ≡ some (report args.msg s1).1 = rw (kept, same) refl in
    (
      ap (λ (r : Server × SendingReturnArgs). r.0) (ok-inj run1),
      names ∙ ap (λ (r : Server × SendingReturnArgs). r.1.msg) (ok-inj run1),
    )

deliver_kept :
    (args : SendingArgs) (s : Server)
    → ((deliver args.msg s).seq2cert ≡ s.seq2cert)
      × ((deliver args.msg s).local_duplicated_reqs ≡ [])
unfolding deliver
deliver_kept args s = (ground arith, ground arith)

confirmed_kept :
    (k : Config) (msg : SendingReturnMsg) (b c : BlockLog) (s : Server)
    → ((confirmed k msg b c s).seq2cert ≡ s.seq2cert)
      × ((confirmed k msg b c s).local_duplicated_reqs ≡ s.local_duplicated_reqs)
unfolding confirmed signal
confirmed_kept k msg b c s = (ground arith, ground arith)

receiving-Balanced :
    (p : Primitives) (k : Config) (given : List DuplicatedReqUnit) (extra : ℕ → ℕ)
    (args : SendingArgs) (reply : SendingReturnArgs) (s s' : Server)
    → Balanced given extra s
    → receiving p k args s ≡ ok (s', reply)
    → Balanced (given ++ given_in reply.msg) extra s'
unfolding receiving
receiving-Balanced p k given extra args reply s s' t run =
    let (node, known, run1) = >>=-eq-ok (get_node k args.msg.primary_node_id) _ run in
    let verified = rsa_verify_with_sha256 p (sha256_digest p args.msg) args.sign node.pub_key in
    elim (Bool-cases verified) [
      | inl good ↦
          (let (moved, replied) =
              received_lem p k args reply s s' (sym (if-true _ _ verified good) ∙ run1) in
            let (certs, cleared) = deliver_kept args s in
            moved-Balanced given (given_in reply.msg) extra s s' t
              (ap (λ (r : Server). r.seq2cert) (sym moved) ∙ certs)
              (ap (λ (r : Server). r.local_duplicated_reqs) (sym moved) ∙ cleared)
              (ap given_in (sym replied)))
      | inr bad ↦
          (let e = ok-inj (sym (if-false _ _ verified bad) ∙ run1) in
            subst
              (λ (r : Server × SendingReturnArgs). Balanced (given ++ given_in r.1.msg) extra r.0) e
              (rw (append-nil given) t))
    ]

joined-none :
    (b c : Option BlockLog) (msg : SendingReturnMsg) → (b ≡ none) ⊎ (c ≡ none) → joined b c msg ≡ []
joined-none none c msg absent = refl
joined-none (some b) none msg absent = refl
joined-none (some b) (some c) msg (inl e) = cc
joined-none (some b) (some c) msg (inr e) = cc

sending_reply-Balanced :
    (k : Config) (given joins : List DuplicatedReqUnit) (args : SendingReturnArgs) (s s' : Server)
    → Balanced given (λ j. times j joins) s
    → sending_reply k args s ≡ ok s'
    → Balanced given (λ j. times j (joins ++ taken_from args.msg s)) s'
sending_reply-Balanced k given joins args s s' t run = elim (sending_reply-cases k args s) [
  | refused nil r ↦ absurd (ok-not-panic (sym run ∙ r))
  | same_height msg b e found same r ↦ absurd (ok-not-panic (sym run ∙ r))
  | unknown_height msg e absent r ↦
      (let none_taken : taken_from args.msg s ≡ [] = rw e (joined-none _ _ msg absent) in
        joined-Balanced given joins (taken_from args.msg s) s s' t
          (ap (λ (r : Server). r.seq2cert) (ok-inj (sym run ∙ r)))
          (ap (λ (r : Server). r.local_duplicated_reqs) (ok-inj (sym run ∙ r))
            ∙ sym (rw (none_taken) (append-nil s.local_duplicated_reqs))))
  | taken msg b c e eb ec different r ↦
      (let all_taken : taken_from args.msg s ≡ msg.new_duplicated_reqs = rw (e, eb, ec) refl in
        let same = ok-inj (sym run ∙ r) in
        let (certs, kept) = confirmed_kept k msg b c s in
        joined-Balanced given joins (taken_from args.msg s) s s' t
          (ap (λ (r : Server). r.seq2cert) same ∙ certs)
          (ap (λ (r : Server). r.local_duplicated_reqs) same
            ∙ ap (λ us. us ++ msg.new_duplicated_reqs) kept
            ∙ ap (s.local_duplicated_reqs ++◌) (sym all_taken)))
]

module _ (p : Primitives) (k : Config) where
  -- A server starts without certificates and requests, and then duplicates requests, sends blocks and takes
  -- the replies to them, and receives blocks and replies to them, in whatever order: every certificate
  -- then lies under its own number; and of every number,
  -- the requests that wait here, those in the blocks that it has sent and those in its replies are
  -- together as many as those that it took from replies to its blocks, and one more if it has
  -- reported a request of this number itself. So what is reported or taken is given away once.
  pub Serves-IsBalanced :
      {given joins : List DuplicatedReqUnit} {s : Server}
      → Serves p k given joins s
      → IsBalanced (λ j. times j joins) s.seq2cert (given ++ s.local_duplicated_reqs)
  unfolding lookup
  Serves-IsBalanced (launched s nil none_yet) =
      rw (nil, none_yet) record { named = λ j cert e. cc; balanced = λ j. omega arith }
  Serves-IsBalanced (duplicated_step {given} {joins} run step) =
      Duplicating-Balanced p k given (λ j. times j joins) _ _ (Serves-IsBalanced run) step
  Serves-IsBalanced (sent_block {given} {joins} args run e) =
      sending-Balanced p given (λ j. times j joins) args _ _ (Serves-IsBalanced run) e
  Serves-IsBalanced (received_block {given} {joins} args reply run e) =
      receiving-Balanced p k given (λ j. times j joins) args reply _ _ (Serves-IsBalanced run) e
  Serves-IsBalanced (took_reply {given} {joins} args run e) =
      sending_reply-Balanced k given joins args _ _ (Serves-IsBalanced run) e
