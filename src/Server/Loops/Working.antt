-- ===== src/Server/Loops/Working.antt =====
-- A server's loops together with its handlers, and what `workLoop` sends.
use praft.Prelude.{
  ℕ, zero, suc, ◌+◌, ◌%◌, ◌^◌, ◌≡◌, refl, sym, ap, ◌∙◌, subst, inl, inr, List, [], ◌∷◌, ◌++◌, ok,
  >>=-eq-ok, ok-inj, or_panic-ok, ok-not-panic, or_panic, blocked, ◌>>=◌, arith, lookup, length,
  elem, get_elem?, if◌then◌else◌, Bool-cases, if-true, if-false,
}
use praft.Messages.{DuplicateConfirmArgs, SendingArgs}
use praft.Crypto.{Primitives}
use praft.Config.{Config}
use praft.Server.{Server}
use praft.Server.Requests.{seq_step, make_req}
use praft.Server.Duplicate.{collect_reply}
use praft.Server.Blocks.{sending}
use praft.Server.Start.{connect}
use praft.Server.Start.Connected.{connect-AreConnected}
use praft.Server.Loops.{
  Worker, start_work, start_duplicating, work_round, poll_round, control_round, confirm_round,
}
use praft.Server.Loops.Frames.{has_req, IsFrame, duplicate_rpc-IsFrame, collect_reply-IsFrame}
use praft.Server.Loops.Numbers.{
  issued, issued_at, IsWorking, frame-IsWorking, erased-IsWorking, le_lt_cases, get_elem?-issued,
  map-concat,
}
use praft.Server.Loops.Handlers.{
  seq_of, sending-IsFrame, receiving-IsFrame, sending_reply-IsFrame, tree_duplicate_rpc-IsFrame,
  start_duplicating-IsFrame, make_req-next,
}
use praft.Server.Loops.Phases.{prepare_rpc-IsErasure, commit_rpc-IsFrame, push_tx_to_pool-IsFrame}
use praft.Server.Loops.Steps.{
  Handles, stored_for, relayed_for, received_from, answered_by, committed_for, pooled, Works,
  launched, worked, polled, took_confirm, controlled, handled, prepared_for,
}

module _ (p : Primitives) (k : Config) where
  Handles-IsFrame : (s s' : Server) → Handles p k s s' → IsFrame 0 s s'
  Handles-IsFrame s s' (stored_for args reply run) = duplicate_rpc-IsFrame p k args reply s s' run
  Handles-IsFrame s _ (relayed_for args r run) = tree_duplicate_rpc-IsFrame p k args s r run
  Handles-IsFrame s s' (received_from args reply run) = receiving-IsFrame p k args reply s s' run
  Handles-IsFrame s s' (answered_by args run) = sending_reply-IsFrame k args s s' run
  Handles-IsFrame s _ (committed_for args r run) = commit_rpc-IsFrame p k args s r run
  Handles-IsFrame s _ (pooled now) = push_tx_to_pool-IsFrame p k now s

  pub work_round-IsWorking :
      {start : Server} {nodes erased : List ℕ} (ids : List ℕ) (w w' : Worker)
      → IsWorking start nodes erased w
      → work_round p k ids w ≡ ok w'
      → IsWorking start nodes erased w'
  unfolding work_round
  work_round-IsWorking {start} {nodes} {erased} ids w w' t run =
      let (seq, next, run1) =
        >>=-eq-ok (or_panic (get_elem? w.server.seq_ch w.received) blocked) _ run in
      let (started, starts, run2) = >>=-eq-ok (start_duplicating p k ids seq w.server) _ run1 in
      let (f, its_seq) = start_duplicating-IsFrame p k ids seq w.server started starts in
      let (below, same) =
        get_elem?-issued start.seq_inc t.made w.received seq
          (rw⁻¹ t.numbers (or_panic-ok _ _ next)) in
      subst (IsWorking start nodes erased) (ok-inj run2) (record {
        made = t.made;
        numbers = f.seq_ch ∙ t.numbers;
        newest = f.seq_inc ∙ t.newest;
        in_order =
            map-concat w.sent started.1
            ∙ ap (λ seqs. seqs ++ seq_of started.1 ∷ []) t.in_order
            ∙ ap (λ seq. issued start.seq_inc w.received ++ seq ∷ []) (its_seq ∙ same);
        received_le = omega (arith, below);
        balance = omega (arith, t.balance, f.dup_time);
        with_reqs = λ i h kept. f.reqs _ (t.with_reqs i h kept);
        self = f.node ∙ t.self;
        linked = λ id. ap (elem id) f.peers ∙ t.linked id;
      })

  polled-IsWorking :
      {start : Server} {nodes erased : List ℕ} (now : ℕ) (tx_set : List ℕ) (polling : ℕ)
      (w : Worker) (s' : Server)
      → IsWorking start nodes erased w
      → w.polling ≡ suc polling
      → make_req p k now tx_set w.server ≡ ok s'
      → IsWorking start nodes erased (record w { server = s'; polling = polling })
  polled-IsWorking {start} {nodes} {erased} now tx_set polling w s' t e run =
      let (seq_ch, seq_inc, dup_time, node, peers, keeps, has) =
        make_req-next p k now tx_set w.server s' run in
      let next : s'.seq_inc ≡ issued_at start.seq_inc (suc t.made) =
        seq_inc ∙ ap (λ n. (n + seq_step) % 2 ^ 64) t.newest in
      record {
        made = suc t.made;
        numbers =
            seq_ch
            ∙ ap (λ seqs. seqs ++ s'.seq_inc ∷ []) t.numbers
            ∙ ap (λ n. issued start.seq_inc t.made ++ n ∷ []) next;
        newest = next;
        in_order = t.in_order;
        received_le = omega (arith, t.received_le);
        balance = omega (arith, t.balance, ap length dup_time, e);
        with_reqs = λ i h kept. elim (le_lt_cases i t.made h) [
          | inl before ↦ keeps _ (t.with_reqs i before kept)
          | inr last ↦ ap (λ n. has_req (lookup n s'.seq2cert)) (rw last (sym next)) ∙ has
        ];
        self = node ∙ t.self;
        linked = λ id. ap (elem id) peers ∙ t.linked id;
      }

  poll_round-IsWorking :
      {start : Server} {nodes erased : List ℕ} (now : ℕ) (tx_set : List ℕ) (polling : ℕ)
      (w w' : Worker)
      → w.polling ≡ polling
      → IsWorking start nodes erased w
      → poll_round p k now tx_set w ≡ ok w'
      → IsWorking start nodes erased w'
  unfolding poll_round
  poll_round-IsWorking {start} {nodes} {erased} now tx_set zero w w' e t run =
      absurd (ok-not-panic {fault = blocked} (sym run ∙ rw e refl))
  poll_round-IsWorking {start} {nodes} {erased} now tx_set (suc polling) w w' e t run =
      let polls : poll_round p k now tx_set w ≡ (
          make_req p k now tx_set w.server >>= λ s.
          ok (record w { server = s; polling = polling })) =
        rw e refl in
      let (s', makes, run1) = >>=-eq-ok (make_req p k now tx_set w.server) _ (sym polls ∙ run) in
      subst (IsWorking start nodes erased) (ok-inj run1)
        (polled-IsWorking now tx_set polling w s' t e makes)

  confirm_round-IsWorking :
      {start : Server} {nodes erased : List ℕ} (now seq : ℕ) (args : DuplicateConfirmArgs)
      (w w' : Worker)
      → IsWorking start nodes erased w
      → confirm_round p k now seq args w ≡ ok w'
      → IsWorking start nodes erased w'
  unfolding confirm_round
  confirm_round-IsWorking {start} {nodes} {erased} now seq args w w' t run =
      let ((s', more), takes, run1) = >>=-eq-ok (collect_reply p k now seq args w.server) _ run in
      subst (IsWorking start nodes erased) (ok-inj run1) (
        frame-IsWorking _ (if more then suc w.polling else w.polling) w s' t
          (collect_reply-IsFrame p k now seq args w.server s' more takes) (ground arith))

  control_round-IsWorking :
      {start : Server} {nodes erased : List ℕ} (args : SendingArgs) (w w' : Worker)
      → IsWorking start nodes erased w
      → control_round p k w ≡ ok (w', args)
      → IsWorking start nodes erased w'
  unfolding control_round
  control_round-IsWorking {start} {nodes} {erased} args w w' t run =
      elim (Bool-cases w.server.is_proposer) [
        | inr other ↦ absurd (ok-not-panic (sym run ∙ if-false _ _ w.server.is_proposer other))
        | inl proposer ↦
            (let ((s', its_args), sends, run1) =
                >>=-eq-ok (sending p w.server) _
                  (sym (if-true _ _ w.server.is_proposer proposer) ∙ run) in
              subst (λ (r : Worker × SendingArgs). IsWorking start nodes erased r.0) (ok-inj run1)
                (frame-IsWorking 0 w.polling w s' t (sending-IsFrame p k its_args w.server s' sends)
                  (omega arith)))
      ]

  -- A server starts unconnected, with nothing made and nothing reported. `connect` runs over the
  -- configured nodes in every round. Then the loops run, `pushTxToPool` runs, and the handlers are
  -- called, `PrepareRpc` and `CommitRpc` among them, in whatever order. The numbers that the server has
  -- made are then the first of those that follow its counter, each 10^10 after the one before modulo
  -- 2^64. `workLoop` has sent the first of them, in the order in which they were made and each once.
  -- Each number made, unless `PrepareRpc` was called for it, has a certificate with a request. The
  -- requests made and the calls of `makeReq` that poll are together one more than the requests
  -- reported, whatever numbers these had. And the server is connected to each configured node but
  -- itself, and to no other.
  pub Works-IsWorking :
      {start : Server} {nodes erased : List ℕ} {w : Worker}
      → Works p k start nodes erased w
      → IsWorking start nodes erased w
  unfolding start_work
  Works-IsWorking {start} {nodes} (launched rounds w none_made none_reported alone run connects) =
      let (peers, dials, run1) = >>=-eq-ok (connect start.node.id rounds start.peers) _ connects in
      let (distinct, all) =
        connect-AreConnected start.node.id nodes rounds peers run
          (ap (connect start.node.id rounds) (sym alone) ∙ dials) in
      subst (IsWorking start nodes []) (ok-inj run1) (record {
        made = 0;
        numbers = none_made;
        newest = refl;
        in_order = refl;
        received_le = omega arith;
        balance = rw none_reported refl;
        with_reqs = λ i h kept. absurd (omega (arith, h));
        self = refl;
        linked = all;
      })
  Works-IsWorking (worked {w = w} {w'} ids works run) =
      work_round-IsWorking ids w w' (Works-IsWorking works) run
  Works-IsWorking (polled {w = w} {w'} now tx_set works run) =
      poll_round-IsWorking now tx_set w.polling w w' refl (Works-IsWorking works) run
  Works-IsWorking (took_confirm {w = w} {w'} now seq args works run) =
      confirm_round-IsWorking now seq args w w' (Works-IsWorking works) run
  Works-IsWorking (controlled {w = w} {w'} args works run) =
      control_round-IsWorking args w w' (Works-IsWorking works) run
  Works-IsWorking (handled {w = w} {s'} works step) =
      frame-IsWorking 0 w.polling w s' (Works-IsWorking works) (Handles-IsFrame w.server s' step)
        (omega arith)
  Works-IsWorking (prepared_for {w = w} args r works run) =
      erased-IsWorking args.msg.seq w r.0 (Works-IsWorking works)
        (prepare_rpc-IsErasure p k args w.server r run)
