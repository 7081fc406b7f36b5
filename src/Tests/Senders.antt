-- ===== src/Tests/Senders.antt =====
-- A client that connects in two rounds and sends two requests.
use praft.Prelude.{
  ℕ, ◌+◌, ◌≡◌, refl, Bool, true, false, ◌||◌, List, [], ◌∷◌, ok, elem, is_some, lookup, arith,
}
use praft.Client.{new_client}
use praft.Client.Sending.{Sender, Sending, AllDial, connect_client, start_client}
use praft.Client.Connected.{start_client-HasSent}
use praft.Tests.Fixtures.{four_nodes, node_at}

abbrev dials : List (List (ℕ × Bool))
dials =
    ((13, true) ∷ (12, false) ∷ (11, true) ∷ (14, true) ∷ [])
    ∷ ((11, true) ∷ (12, true) ∷ (13, true) ∷ (14, false) ∷ [])
    ∷ []

-- The second request is for the node that was dialled last.
abbrev two_requests : List Sending
two_requests =
    record { drawn = 0; seq = 7; start = 3; now = 4 }
    ∷ record { drawn = 1; seq = 8; start = 4; now = 6 }
    ∷ []

all_dial : AllDial four_nodes.peer_ids dials
all_dial = (λ id h. ground (arith, h), (λ id h. ground (arith, h), tt))

start_client-HasSent_example :
    (s : Sender) × (start_client four_nodes dials two_requests (new_client (node_at 20) 2) ≡ ok s)
    × (s.cnt ≡ 2)
    × (s.client.coch ≡ 0 + 2)
    × ((j : ℕ) → is_some (lookup j s.client.seq2cert) ≡ (elem j (7 ∷ 8 ∷ []) || false))
unfolding connect_client lookup
start_client-HasSent_example =
    start_client-HasSent four_nodes dials two_requests (new_client (node_at 20) 2)
      (13 ∷ 11 ∷ 14 ∷ 12 ∷ []) all_dial refl ((11, refl), ((12, refl), tt)) (omega arith)
