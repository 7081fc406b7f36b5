-- ===== src/Client/Connected.antt =====
-- A client that has connected sends what fits into its channel.
use praft.Prelude.{
  ℕ, suc, ◌+◌, ◌≤◌, ◌≡◌, refl, ◌∙◌, Bool, true, ◌||◌, List, [], ◌∷◌, some, is_some, ok, arith,
  lookup, insert, lookup-insert, get_elem?, elem, length, ltb, ◌==◌, Option-cases, inl, inr,
}
use praft.Config.{Config}
use praft.Client.{Client, get_cmd_cert, cmd_cert_at, new_cmd_cert, send_token, note_sent}
use praft.Client.Sending.{
  Sender, Sending, connect_client, send_round, send_rounds, start_client, AllDial,
  connect_client_lem,
}
use praft.Tree.Sections.{elem-get_elem}

-- Every round draws a place of a peer.
abbrev pub AllDrawn : List ℕ → List Sending → Type 0
AllDrawn ids [] = Unit {0}
AllDrawn ids (r ∷ rounds) = ((id : ℕ) × (get_elem? ids r.drawn ≡ some id)) × AllDrawn ids rounds

-- The numbers that the requests get.
abbrev pub numbers : List Sending → List ℕ
numbers [] = []
numbers (r ∷ rounds) = r.seq ∷ numbers rounds

known-note_sent :
    (now start seq : ℕ) (c : Client) (j : ℕ)
    → is_some (lookup j (note_sent now start seq c).seq2cert)
      ≡ (j == seq || is_some (lookup j c.seq2cert))
unfolding note_sent get_cmd_cert cmd_cert_at
known-note_sent now start seq c j = elim (Option-cases (lookup seq c.seq2cert)) [
  | inl new ↦ rw new (
      ground (
        arith,
        lookup-insert seq j (record (new_cmd_cert now seq) { start = start })
            (insert seq (new_cmd_cert now seq) c.seq2cert),
        lookup-insert seq j (new_cmd_cert now seq) c.seq2cert,
      ))
  | inr (cert, there) ↦
      rw there
        (ground (arith, there, lookup-insert seq j (record cert { start = start }) c.seq2cert))
]

note_sent_frame :
    (now start seq : ℕ) (c : Client)
    → ((note_sent now start seq c).coch ≡ c.coch) × ((note_sent now start seq c).num ≡ c.num)
unfolding note_sent
note_sent_frame now start seq c = (refl, refl)

-- What the rounds leave.
pub record HasSent (k : Config) (rounds : List Sending) (s : Sender) : Type 0 where
  pub after : Sender
  pub run : send_rounds k rounds s ≡ ok after
  pub counted : after.cnt ≡ s.cnt + length rounds
  pub waiting : after.client.coch ≡ s.client.coch + length rounds
  pub known :
      (j : ℕ)
      → is_some (lookup j after.client.seq2cert)
        ≡ (elem j (numbers rounds) || is_some (lookup j s.client.seq2cert))

send_rounds-HasSent :
    (k : Config) (rounds : List Sending) (s : Sender)
    → ((id : ℕ) → elem id k.peer_ids ≡ true → elem id s.peers ≡ true)
    → AllDrawn k.peer_ids rounds
    → s.client.coch + length rounds ≤ s.client.num
    → HasSent k rounds s
unfolding send_rounds send_round send_token
send_rounds-HasSent k [] s connected drawn room = record {
  after = s;
  run = refl;
  counted = omega arith;
  waiting = omega arith;
  known = λ j. refl;
}
send_rounds-HasSent k (r ∷ rounds) s connected ((id, at), drawn) room =
    let fits : ltb s.client.coch s.client.num ≡ true = ground arith in
    let there = connected id (elem-get_elem k.peer_ids r.drawn id at) in
    let token = record s.client { coch = s.client.coch + 1 } in
    let s1 = record s { client = note_sent r.now r.start r.seq token; cnt = suc s.cnt } in
    let frame = note_sent_frame r.now r.start r.seq token in
    let rest = send_rounds-HasSent k rounds s1 connected drawn (omega (arith, frame.0, frame.1)) in
    record {
      after = rest.after;
      run = rw (fits, at, there) rest.run;
      counted = omega (arith, rest.counted);
      waiting = omega (arith, rest.waiting, frame.0);
      known = λ j. ground (arith, rest.known j, known-note_sent r.now r.start r.seq token j);
    }

-- Every round of `connect` goes through all the peers, the senders draw peers, and no more requests
-- are sent than there is room for in the client's channel. Then, once `connect` has returned, no
-- sender follows a connection that is not there: all rounds are counted, so many values more wait
-- in the channel, and the numbers that the client knows are those it knew and those that its
-- requests were given.
pub start_client-HasSent :
    (k : Config) (dials : List (List (ℕ × Bool))) (rounds : List Sending) (client : Client)
    (peers : List ℕ)
    → AllDial k.peer_ids dials
    → connect_client dials [] ≡ ok peers
    → AllDrawn k.peer_ids rounds
    → client.coch + length rounds ≤ client.num
    → (s : Sender) × (start_client k dials rounds client ≡ ok s)
      × (s.cnt ≡ length rounds)
      × (s.client.coch ≡ client.coch + length rounds)
      × ((j : ℕ)
          → is_some (lookup j s.client.seq2cert)
            ≡ (elem j (numbers rounds) || is_some (lookup j client.seq2cert)))
unfolding start_client
start_client-HasSent k dials rounds client peers all connects drawn room =
    let sent =
      send_rounds-HasSent k rounds (record { client = client; peers = peers; cnt = 0 })
        (connect_client_lem k.peer_ids dials [] peers all connects) drawn room in
    (sent.after, rw connects sent.run, sent.counted ∙ omega arith, sent.waiting, sent.known)
