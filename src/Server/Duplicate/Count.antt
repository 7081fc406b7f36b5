-- ===== src/Server/Duplicate/Count.antt =====
-- Counting a confirmation keeps the tally of the reported requests right.
use praft.Prelude.{
  ℕ, ◌≡◌, refl, sym, ap, ◌∙◌, subst, Bool, inl, inr, List, [], ◌∷◌, Option, none, some, ok,
  >>=-eq-ok, ok-inj, arith, lookup, insert, lookup-insert, lookup-insert_self, leb, if◌then◌else◌,
  if-false, if-true, length, Bool-cases,
}
use praft.Messages.{DuplicatedReqUnit, RequestArgs, DuplicateConfirmArgs}
use praft.Crypto.{Primitives, rsa_sign_with_sha256}
use praft.Config.{Config}
use praft.Cert.{
  LogCert, new_cert, get, push_duplicate_confirm, pop_all_duplicate_confirms, set_stage,
  duplicated_stage, duplicate_confirm_ballot, duplicate_confirm_vote,
}
use praft.Server.{Server, get_cert_or_new, cert_at}
use praft.Server.Duplicate.{
  collect_req, report_duplicated, unit_of_request, count_new, count_confirm, count_confirms,
  is_initial, collect_ballot, take_confirm, collect_reply,
}
use praft.Server.Duplicate.Tally.{reports, Balanced, updated-IsBalanced, reported-IsBalanced}

module _ (p : Primitives) (k : Config) (given : List DuplicatedReqUnit) (extra : ℕ → ℕ) where
  -- Counting changes neither a certificate's number nor its stage.
  abbrev IsAlike : LogCert → LogCert → Type 0
  IsAlike c d = (d.seq ≡ c.seq) × (d.stage ≡ c.stage)

  count_confirm-IsAlike :
      (args : DuplicateConfirmArgs) (c d : LogCert) → count_confirm p k args c ≡ ok d → IsAlike c d
  unfolding count_confirm count_new duplicate_confirm_vote
  count_confirm-IsAlike args c d run = ground arith

  count_confirms-IsAlike :
      (args_q : List DuplicateConfirmArgs) (c d : LogCert)
      → count_confirms p k args_q c ≡ ok d
      → IsAlike c d
  unfolding count_confirms
  count_confirms-IsAlike [] c d run =
      (ap (λ x. x.seq) (sym (ok-inj run)), ap (λ x. x.stage) (sym (ok-inj run)))
  count_confirms-IsAlike (args ∷ rest) c d run =
      let (c', one, more) = >>=-eq-ok (count_confirm p k args c) _ run in
      let first = count_confirm-IsAlike args c c' one in
      let then_ = count_confirms-IsAlike rest c' d more in (then_.0 ∙ first.0, then_.1 ∙ first.1)

  -- A certificate in its first stage takes votes, and may be reported.
  report-Balanced :
      (now seq : ℕ) (req : RequestArgs) (cert : LogCert) (s s' : Server) (more : Bool)
      → cert.seq ≡ seq
      → reports (some cert) ≡ 0
      → reports (lookup seq s.seq2cert) ≡ 0
      → Balanced given extra s
      → report_duplicated p k now seq req cert s ≡ ok (s', more)
      → Balanced given extra s'
  unfolding report_duplicated set_stage duplicate_confirm_ballot
  report-Balanced now seq req cert s s' more same young none_yet t run =
      elim (Bool-cases (leb k.fault_num (length cert.duplicate_confirms))) [
        | inl enough ↦
            (let enough_run =
                sym (if-true _ _ (leb k.fault_num (length cert.duplicate_confirms)) enough) ∙ run in
              let (sign, signed, run1) =
                >>=-eq-ok (rsa_sign_with_sha256 p cert.digest s.node.pri_key) _ enough_run in
              subst (Balanced given extra) (ap (λ r. r.0) (ok-inj run1)) (
                reported-IsBalanced extra seq
                  (record (set_stage cert duplicated_stage) { complete_time = now }) s.seq2cert _
                  given s.local_duplicated_reqs same
                  (λ j.
                    lookup-insert seq j
                      (record (set_stage cert duplicated_stage) { complete_time = now }) s.seq2cert)
                  t (unit_of_request cert req sign s) same none_yet refl))
        | inr few ↦
            (let few_run =
                sym (if-false _ _ (leb k.fault_num (length cert.duplicate_confirms)) few) ∙ run in
              subst (Balanced given extra) (ap (λ r. r.0) (ok-inj few_run)) (
                updated-IsBalanced extra seq cert s.seq2cert _ given s.local_duplicated_reqs same
                  (λ j. lookup-insert seq j cert s.seq2cert) t (young ∙ sym none_yet)))
      ]

  collect-Balanced :
      (req : Option RequestArgs) (now seq : ℕ) (cert : LogCert) (s s' : Server) (more : Bool)
      → cert.seq ≡ seq
      → reports (some cert) ≡ 0
      → reports (lookup seq s.seq2cert) ≡ 0
      → Balanced given extra s
      → collect_req p k req now seq cert s ≡ ok (s', more)
      → Balanced given extra s'
  unfolding collect_req pop_all_duplicate_confirms
  collect-Balanced none now seq cert s s' more same young none_yet t run =
      subst (Balanced given extra) (ap (λ r. r.0) (ok-inj run)) (
        updated-IsBalanced extra seq cert s.seq2cert _ given s.local_duplicated_reqs same
          (λ j. lookup-insert seq j cert s.seq2cert) t (young ∙ sym none_yet))
  collect-Balanced (some req) now seq cert s s' more same young none_yet t run =
      let (counted, one, run1) =
        >>=-eq-ok
          (count_confirms p k cert.duplicate_confirm_q (record cert { duplicate_confirm_q = [] })) _
          run in
      let alike =
        count_confirms-IsAlike cert.duplicate_confirm_q (record cert { duplicate_confirm_q = [] })
          counted one in
      report-Balanced now seq req counted s s' more (alike.0 ∙ same)
        (ap (λ stage. if is_initial stage then 0 else 1) alike.1 ∙ young) none_yet t run1

  take_confirm-Balanced :
      (now seq : ℕ) (queued : LogCert) (s s' : Server) (more : Bool)
      → queued.seq ≡ seq
      → reports (some queued) ≡ reports (lookup seq s.seq2cert)
      → Balanced given extra s
      → take_confirm p k now seq queued s ≡ ok (s', more)
      → Balanced given extra s'
  unfolding take_confirm collect_ballot get
  take_confirm-Balanced now seq queued s s' more same kept t run =
      elim (Bool-cases (is_initial queued.stage)) [
        | inl young ↦
            (let none_yet : reports (some queued) ≡ 0 =
                if-true _ _ (is_initial queued.stage) young in
              collect-Balanced queued.req now seq queued s s' more same none_yet
                (sym kept ∙ none_yet) t (sym (if-true _ _ (is_initial queued.stage) young) ∙ run))
        | inr old ↦
            subst (Balanced given extra)
              (ap (λ r. r.0) (ok-inj (sym (if-false _ _ (is_initial queued.stage) old) ∙ run)))
              (updated-IsBalanced extra seq queued s.seq2cert _ given s.local_duplicated_reqs same
                (λ j. lookup-insert seq j queued s.seq2cert) t kept)
      ]

  pub collect_at-Balanced :
      (now seq : ℕ) (args : DuplicateConfirmArgs) (s s' : Server) (more : Bool)
      (old : Option LogCert)
      → lookup seq s.seq2cert ≡ old
      → Balanced given extra s
      → collect_reply p k now seq args s ≡ ok (s', more)
      → Balanced given extra s'
  unfolding collect_reply get_cert_or_new cert_at push_duplicate_confirm
  collect_at-Balanced now seq args s s' more none e t run =
      let fresh = record s { seq2cert = insert seq (new_cert seq) s.seq2cert } in
      let queued = push_duplicate_confirm (new_cert seq) args in
      let takes : collect_reply p k now seq args s ≡ take_confirm p k now seq queued fresh =
        rw e refl in
      take_confirm-Balanced now seq queued fresh s' more refl
        (rw (lookup-insert_self seq (new_cert seq) s.seq2cert) refl)
        (updated-IsBalanced extra seq (new_cert seq) s.seq2cert _ given s.local_duplicated_reqs refl
          (λ j. lookup-insert seq j (new_cert seq) s.seq2cert) t (rw e refl))
        (sym takes ∙ run)
  collect_at-Balanced now seq args s s' more (some cert) e t run =
      let queued = push_duplicate_confirm cert args in
      let takes : collect_reply p k now seq args s ≡ take_confirm p k now seq queued s =
        rw e refl in
      take_confirm-Balanced now seq queued s s' more (t.named seq cert e) (rw e refl) t
        (sym takes ∙ run)
