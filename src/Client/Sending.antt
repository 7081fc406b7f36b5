-- ===== src/Client/Sending.antt =====
-- `connect`, a round of the senders of `sendReq`, and `Start` (zpbft/client.go). `peers` holds the keys
-- of `id2srvCli`, and a call over the network is its answer.
use praft.Prelude.{
  ℕ, suc, ◌≡◌, ◌≢◌, refl, sym, ap, ◌∙◌, inl, inr, Bool, true, false, ◌||◌, List, [], ◌∷◌, ◌++◌,
  Result, ok, panic, ◌>>=◌, ok-inj, or_panic, raised, blocked, nil_dereference, arith, keys,
  get_elem?, elem, elem-append, if◌then◌else◌, Bool-cases, if-true, if-false,
}
use praft.Config.{Config}
use praft.Client.{Client, send_token, note_sent}

-- One round of `connect`: the nodes in the order in which Go runs over `Id2Node`, each with whether it
-- could be dialled.
unfoldable pub connect_client_round : List (ℕ × Bool) → List ℕ → Bool → List ℕ × Bool
connect_client_round [] peers done = (peers, done)
connect_client_round (dial ∷ dials) peers done =
    let skipped = connect_client_round dials peers done in
    let connected = connect_client_round dials (peers ++ dial.0 ∷ []) done in
    let failed = connect_client_round dials peers false in
    if elem dial.0 peers then skipped else (if dial.1 then connected else failed)

-- `connect`: it waits where these rounds do not do.
unfoldable pub connect_client : List (List (ℕ × Bool)) → List ℕ → Result (List ℕ)
unfolding connect_client_round
connect_client [] peers = panic blocked
connect_client (dials ∷ rounds) peers =
    let (peers', done) = connect_client_round dials peers true in
    let again = connect_client rounds peers' in if done then ok peers' else again

-- The client's variables while it sends, `cnt` among them.
pub record Sender : Type 0 where
  pub client : Client
  pub peers : List ℕ
  pub cnt : ℕ

-- What a round draws and is answered: the place that `rand.Intn` gives, the number in the reply (0
-- where the call fails), and the times before the call and at `getCertOrNew`.
pub record Sending : Type 0 where
  pub drawn : ℕ
  pub seq : ℕ
  pub start : ℕ
  pub now : ℕ

-- Lines 140 to 163.
unfoldable pub send_round : Config → Sending → Sender → Result Sender
unfolding send_token note_sent
send_round k r s = send_token s.client >>= λ client.
    (or_panic (get_elem? k.peer_ids r.drawn) raised >>= λ rand_id.
    (if elem rand_id s.peers
      then ok (record s { client = note_sent r.now r.start r.seq client; cnt = suc s.cnt })
      else panic nil_dereference))

-- `Start`: the client connects, and then its senders take turns.
unfoldable pub send_rounds : Config → List Sending → Sender → Result Sender
unfolding send_round
send_rounds k [] s = ok s
send_rounds k (r ∷ rest) s = send_round k r s >>= send_rounds k rest

unfoldable pub start_client :
    Config → List (List (ℕ × Bool)) → List Sending → Client → Result Sender
unfolding connect_client send_rounds
start_client k dials rounds client = connect_client dials [] >>= λ peers.
    send_rounds k rounds (record { client = client; peers = peers; cnt = 0 })

true_not_false : true ≢ false
true_not_false e = cc

-- A round that has met a failure is not the last.
not_done :
    (dials : List (ℕ × Bool)) (peers : List ℕ) → (connect_client_round dials peers false).1 ≡ false
unfolding connect_client_round
not_done [] peers = refl
not_done ((i, up) ∷ dials) peers =
    ground (arith, not_done dials peers, not_done dials (peers ++ i ∷ []))

covered :
    (id i : ℕ) (ids peers : List ℕ)
    → (elem id (i ∷ ids) || elem id peers) ≡ true
    → (elem id ids || elem id (peers ++ i ∷ [])) ≡ true
covered id i ids peers h = ground (arith, h, elem-append id peers (i ∷ []))

-- After the last round there is a connection to every node that it has gone through.
connect_client_round_lem :
    (dials : List (ℕ × Bool)) (peers peers' : List ℕ) (done : Bool)
    → connect_client_round dials peers done ≡ (peers', true)
    → (id : ℕ) → (elem id (keys dials) || elem id peers) ≡ true
    → elem id peers' ≡ true
unfolding connect_client_round
connect_client_round_lem [] peers peers' done run id h =
    let same : peers ≡ peers' = ap (λ r. r.0) run in ground (arith, h, same)
connect_client_round_lem ((i, up) ∷ dials) peers peers' done run id h =
    elim (Bool-cases (elem i peers)) [
      | inl there ↦
          connect_client_round_lem dials peers peers' done
            (sym (if-true _ _ (elem i peers) there) ∙ run) id (ground (arith, h, there))
      | inr new ↦
          (let run1 = sym (if-false _ _ (elem i peers) new) ∙ run in
            elim (Bool-cases up) [
              | inl is_up ↦
                  connect_client_round_lem dials (peers ++ i ∷ []) peers' done
                    (sym (if-true _ _ up is_up) ∙ run1) id (covered id i (keys dials) peers h)
              | inr down ↦ absurd (
                  true_not_false (
                    ap (λ r. r.1) (sym (sym (if-false _ _ up down) ∙ run1)) ∙ not_done dials peers))
            ])
    ]

-- Every round of `connect` goes through all the peers that the configuration has.
abbrev pub AllDial : List ℕ → List (List (ℕ × Bool)) → Type 0
AllDial ids [] = Unit {0}
AllDial ids (dials ∷ rounds) =
    ((id : ℕ) → elem id ids ≡ true → elem id (keys dials) ≡ true) × AllDial ids rounds

pub connect_client_lem :
    (ids : List ℕ) (rounds : List (List (ℕ × Bool))) (peers peers' : List ℕ)
    → AllDial ids rounds
    → connect_client rounds peers ≡ ok peers'
    → (id : ℕ) → elem id ids ≡ true
    → elem id peers' ≡ true
unfolding connect_client
connect_client_lem ids [] peers peers' all run id h = cc
connect_client_lem ids (dials ∷ rounds) peers peers' (dialled, all) run id h =
    let reached = connect_client_round dials peers true in
    elim (Bool-cases reached.1) [
      | inl done ↦
          (let same : reached.0 ≡ peers' = ok-inj (sym (if-true _ _ reached.1 done) ∙ run) in
            let ends : reached ≡ (peers', true) = (λ i. (same i, done i)) in
            connect_client_round_lem dials peers peers' true ends id (ground (arith, dialled id h)))
      | inr again ↦
          connect_client_lem ids rounds reached.0 peers' all
            (sym (if-false _ _ reached.1 again) ∙ run) id h
    ]
