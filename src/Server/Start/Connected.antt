-- ===== src/Server/Start/Connected.antt =====
-- What `connect` leaves: a connection to every other node.
use praft.Prelude.{
  ℕ, ◌≡◌, refl, sym, ◌∙◌, Bool, true, false, not, ◌&&◌, ◌||◌, Bool-cases, inl, inr, List, [], ◌∷◌,
  ◌++◌, ok, ==_iff, ==_refl, ok-inj, if-true, if-false, subst, elem, elem-append, Distinct,
  Distinct-concat, arith, ◌==◌,
}
use praft.Server.Start.{connect_round, connect}

abbrev pub dialled : List (ℕ × Bool) → List ℕ
dialled [] = []
dialled (dial ∷ dials) = dial.0 ∷ dialled dials

abbrev pub all_up : List (ℕ × Bool) → Bool
all_up [] = true
all_up (dial ∷ dials) = dial.1 && all_up dials

-- A round adds nodes that it dialled, none twice and never its own; and if it ends with success, it has
-- them all.
record IsRound (own : ℕ) (ids peers peers' : List ℕ) (done : Bool) : Type 0 where
  kept : (id : ℕ) → elem id peers ≡ true → elem id peers' ≡ true
  other : elem own peers ≡ false → elem own peers' ≡ false
  known : (id : ℕ) → elem id peers' ≡ true → (elem id peers || elem id ids) ≡ true
  distinct : Distinct peers → Distinct peers'
  complete :
      (id : ℕ) → done ≡ true → elem id ids ≡ true → (id == own) ≡ false → elem id peers' ≡ true

-- A failure is not forgotten.
connect_round_failed :
    (own : ℕ) (dials : List (ℕ × Bool)) (peers : List ℕ)
    → (connect_round own dials peers false).1 ≡ false
unfolding connect_round
connect_round_failed own [] peers = refl
connect_round_failed own (dial ∷ dials) peers = ground (
  arith,
  connect_round_failed own dials peers,
  connect_round_failed own dials (peers ++ dial.0 ∷ []),
)

module _ (own node : ℕ) (ids peers peers' : List ℕ) (done : Bool) where
  own-IsRound :
      (node == own) ≡ true
      → IsRound own ids peers peers' done
      → IsRound own (node ∷ ids) peers peers' done
  own-IsRound self r = record {
    kept = r.kept;
    other = r.other;
    known = λ id h. ground (arith, r.known id h);
    distinct = r.distinct;
    complete = λ id e h no. ground (arith, r.complete id e, self, h, no);
  }

  known-IsRound :
      elem node peers ≡ true
      → IsRound own ids peers peers' done
      → IsRound own (node ∷ ids) peers peers' done
  known-IsRound there r = record {
    kept = r.kept;
    other = r.other;
    known = λ id h. ground (arith, r.known id h);
    distinct = r.distinct;
    complete = λ id e h no. elim (Bool-cases (id == node)) [
      | inl same ↦
          r.kept id (subst (λ n. elem n peers ≡ true) (sym ((==_iff id node).0 same)) there)
      | inr different ↦ r.complete id e (ground (arith, h, different)) no
    ];
  }

  failed-IsRound :
      done ≡ false → IsRound own ids peers peers' done → IsRound own (node ∷ ids) peers peers' done
  failed-IsRound down r = record {
    kept = r.kept;
    other = r.other;
    known = λ id h. ground (arith, r.known id h);
    distinct = r.distinct;
    complete = λ id e h no. cc;
  }

  joined-IsRound :
      (node == own) ≡ false
      → elem node peers ≡ false
      → IsRound own ids (peers ++ node ∷ []) peers' done
      → IsRound own (node ∷ ids) peers peers' done
  joined-IsRound foreign fresh r = record {
    kept = λ id h. r.kept id (ground (arith, elem-append id peers (node ∷ []), h));
    other = λ h. r.other (ground (arith, elem-append own peers (node ∷ []), h, foreign));
    known = λ id h. ground (arith, r.known id h, elem-append id peers (node ∷ []));
    distinct = λ d. r.distinct (Distinct-concat peers node d fresh);
    complete = λ id e h no. elim (Bool-cases (id == node)) [
      | inl same ↦ r.kept id (ground (arith, elem-append id peers (node ∷ []), same))
      | inr different ↦ r.complete id e (ground (arith, h, different)) no
    ];
  }

connect_round_lem :
    (own : ℕ) (dials : List (ℕ × Bool)) (peers : List ℕ) (done : Bool)
    → IsRound own
        (dialled dials)
        peers
        (connect_round own dials peers done).0
        (connect_round own dials peers done).1
unfolding connect_round
connect_round_lem own [] peers done = record {
  kept = λ id h. h;
  other = λ h. h;
  known = λ id h. ground arith;
  distinct = λ d. d;
  complete = λ id e h no. cc;
}
connect_round_lem own ((node, up) ∷ dials) peers done = elim (Bool-cases (node == own)) [
  | inl self ↦
      rw self (own-IsRound own node _ peers _ _ self (connect_round_lem own dials peers done))
  | inr foreign ↦ elim (Bool-cases (elem node peers)) [
    | inl there ↦
        rw (foreign, there)
          (known-IsRound own node _ peers _ _ there (connect_round_lem own dials peers done))
    | inr fresh ↦ elim (Bool-cases up) [
      | inl dialled ↦
          rw (foreign, fresh, dialled)
            (joined-IsRound own node _ peers _ _ foreign fresh
              (connect_round_lem own dials (peers ++ node ∷ []) done))
      | inr down ↦
          rw (foreign, fresh, down)
            (failed-IsRound own node _ peers _ _ (connect_round_failed own dials peers)
              (connect_round_lem own dials peers false))
    ]
  ]
]

-- Every round runs over these identities.
abbrev pub RunOver : List ℕ → List (List (ℕ × Bool)) → Type 0
RunOver ids [] = Unit {0}
RunOver ids (dials ∷ rounds) =
    ((id : ℕ) → elem id (dialled dials) ≡ elem id ids) × RunOver ids rounds

true-not-false : true ≡ false → ⊥
true-not-false e = cc

connect_lem :
    (own : ℕ) (ids : List ℕ) (rounds : List (List (ℕ × Bool))) (peers peers' : List ℕ)
    → RunOver ids rounds
    → Distinct peers
    → ((id : ℕ) → elem id peers ≡ true → (elem id ids && not (id == own)) ≡ true)
    → connect own rounds peers ≡ ok peers'
    → Distinct peers' × ((id : ℕ) → elem id peers' ≡ (elem id ids && not (id == own)))
unfolding connect
connect_lem own ids [] peers peers' run d within e = cc
connect_lem own ids (dials ∷ rounds) peers peers' (over, run) d within e =
    let r = connect_round_lem own dials peers true in
    let mine : elem own peers ≡ false = elim (Bool-cases (elem own peers)) [
      | inl there ↦ ground (arith, within own there, ==_refl own)
      | inr absent ↦ absent
    ] in
    let within' : (id : ℕ)
        → elem id (connect_round own dials peers true).0 ≡ true
        → (elem id ids && not (id == own)) ≡ true =
      λ id h. elim (Bool-cases (id == own)) [
        | inl self ↦
            (let again : elem own (connect_round own dials peers true).0 ≡ true =
                subst (λ n. elem n (connect_round own dials peers true).0 ≡ true)
                  ((==_iff id own).0 self) h in
              absurd (true-not-false (sym again ∙ r.other mine)))
        | inr foreign ↦ ground (arith, r.known id h, within id, over id, foreign)
      ] in
    elim (Bool-cases (connect_round own dials peers true).1) [
      | inl done ↦
          (let same : (connect_round own dials peers true).0 ≡ peers' =
              ok-inj (sym (if-true _ _ _ done) ∙ e) in
            (
              subst Distinct same (r.distinct d),
              λ id.
                  subst (λ ps. elem id ps ≡ (elem id ids && not (id == own))) same
                    (elim (Bool-cases (elem id (connect_round own dials peers true).0)) [
                      | inl there ↦ there ∙ sym (within' id there)
                      | inr absent ↦ ground (arith, r.complete id done, over id, absent)
                    ]),
            ))
      | inr again ↦
          connect_lem own ids rounds (connect_round own dials peers true).0 peers' run
            (r.distinct d) within' (sym (if-false _ _ _ again) ∙ e)
    ]

-- If `connect` returns, and in every round Go has run over the same identities, the server is connected
-- to each of those nodes but itself, and to no other, each once.
pub connect-AreConnected :
    (own : ℕ) (ids : List ℕ) (rounds : List (List (ℕ × Bool))) (peers : List ℕ)
    → RunOver ids rounds
    → connect own rounds [] ≡ ok peers
    → Distinct peers × ((id : ℕ) → elem id peers ≡ (elem id ids && not (id == own)))
connect-AreConnected own ids rounds peers run e =
    connect_lem own ids rounds [] peers run tt (λ id h. cc) e
