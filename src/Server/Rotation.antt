-- ===== src/Server/Rotation.antt =====
-- The rotation of the proposers (zpbft/server.go): `rotateProposers` and `isProposerOrNot`.
pub mod Turns
use praft.Prelude.{
  ℕ, zero, suc, ◌+◌, ◌%◌, Bool, true, false, List, [], ◌∷◌, Result, ok, panic, ◌>>=◌, or_panic,
  out_of_range, zero_division, get_elem?, set, length, elem, ltb, ◌==◌, if◌then◌else◌,
}
use praft.Config.{Config}
use praft.Server.{Server}

-- The loop of `rotateProposers` from index `i` on, where `size` is `len(KConfig.PeerIps)`.
unfoldable pub rotate_from : List ℕ → ℕ → ℕ → ℕ → ℕ → List ℕ → Result (List ℕ)
rotate_from peer_ids size index i zero proposers = ok proposers
rotate_from peer_ids size index i (suc left) proposers = do
  id ← or_panic (get_elem? peer_ids ((index + i) % size)) out_of_range
  checked ← (if ltb i (length proposers) then ok proposers else panic out_of_range)
  rotate_from peer_ids size index (suc i) left (set checked i id)

-- `rotateProposers`
unfoldable pub rotate_proposers : Config → ℕ → ℕ → Server → Result Server
unfolding rotate_from
rotate_proposers k view_num proposers_num s =
    let size = length k.peer_ips in
    let rotated = rotate_from k.peer_ids size (view_num % size) 0 proposers_num s.proposers in
    if size == 0
    then panic zero_division
    else (rotated >>= λ proposers. ok (record s { proposers = proposers }))

-- The second loop of `isProposerOrNot` from index `i` on.
unfoldable pub is_among : List ℕ → ℕ → ℕ → ℕ → ℕ → ℕ → Result Bool
is_among peer_ids size index node_id i zero = ok false
is_among peer_ids size index node_id i (suc left) =
    let later = is_among peer_ids size index node_id (suc i) left in
    or_panic (get_elem? peer_ids ((index + i) % size)) out_of_range >>= λ id.
    (if id == node_id then ok true else later)

-- `isProposerOrNot`
unfoldable pub is_proposer_or_not : Config → ℕ → ℕ → Server → Result Bool
unfolding is_among
is_proposer_or_not k view_num node_id s =
    let size = length k.peer_ids in
    let among = is_among k.peer_ids size (view_num % size) node_id 0 (length s.proposers) in
    if s.rotate_or_not
    then (if size == 0 then panic zero_division else among)
    else ok (elem node_id s.proposers)
