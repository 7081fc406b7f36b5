-- ===== src/Config/Setup.antt =====
-- `NewNode` of zpbft/node.go, and `InitConfig` of zpbft/config.go from the slice of the addresses on, less
-- the rates of the workload: the settings are what `json.Unmarshal` leaves, the keys and the address
-- of this computer are arguments. A slice bound above the number of addresses is taken to panic.
use praft.Prelude.{
  ℕ, zero, suc, ◌+◌, ◌-◌, ◌/◌, Bool, false, ◌||◌, List, [], ◌∷◌, ◌++◌, Option, none, some, Result,
  ok, panic, ◌>>=◌, or_panic, out_of_range, logged_error, Map, insert, get_elem?, length, ◌==◌, pos,
}
use praft.Util.Slices.{Slice}
use praft.Util.{Text, get_id}
use praft.Config.{Node, Config}

-- The tables that the loop over the addresses fills.
pub record Peers : Type 0 where
  pub id2node : Map Node
  pub peer_ids : List ℕ

-- `xs[:n]`, unless it is out of range.
abbrev pub first_of {ℓ} : {A : Type ℓ} → ℕ → List A → Option (List A)
first_of zero xs = some []
first_of (suc n) [] = none
first_of (suc n) (x ∷ xs) = elim (first_of n xs) [ none ↦ none | some front ↦ some (x ∷ front) ]

-- `GetLocalIp`, of the variable `myip`
unfoldable pub get_local_ip : List ℕ → Result (List ℕ)
get_local_ip [] = panic logged_error
get_local_ip (b ∷ bytes) = ok (b ∷ bytes)

module _ (text : Text) where
  -- `NewNode`
  unfoldable pub new_node : List ℕ → ℕ → Slice → Slice → Result Node
  new_node ip port pri_key pub_key = do
    id ← get_id text ip (pos port)
    ok (record {
      id = id;
      ip = ip;
      port = port;
      addr = ip ++ b':' ∷ text.itoa port;
      pri_key = pri_key;
      pub_key = pub_key;
    })

  module _ (pri_key pub_key : Slice) (k : Config) where
    -- The inner loop, from process `j` on.
    unfoldable pub add_processes : List ℕ → ℕ → ℕ → Peers → Result Peers
    unfolding new_node
    add_processes ip zero j peers = ok peers
    add_processes ip (suc count) j peers = do
      id ← get_id text ip (pos (k.port_base + 1 + j))
      node ← new_node ip (k.port_base + 1 + j) pri_key pub_key
      add_processes ip count (suc j)
          (record { id2node = insert id node peers.id2node; peer_ids = peers.peer_ids ++ id ∷ [] })

    -- The outer loop, from address `i` on.
    unfoldable pub add_peers : List (List ℕ) → ℕ → Peers → Result Peers
    unfolding add_processes
    add_peers [] i peers = ok peers
    add_peers (ip ∷ ips) i peers = do
      count ← or_panic (get_elem? k.process_num_array i) out_of_range
      added ← add_processes ip count 0 peers
      add_peers ips (suc i) added

  -- The loop over the proposers: their identities, and whether this process is one of them.
  unfoldable pub set_proposers :
      List ℕ → ℕ → List ℕ → ℕ → ℕ → List ℕ → Bool → Result (List ℕ × Bool)
  set_proposers local_ip port peer_ids zero i proposer_ids is_proposer =
      ok (proposer_ids, is_proposer)
  set_proposers local_ip port peer_ids (suc left) i proposer_ids is_proposer = do
    id ← or_panic (get_elem? peer_ids i) out_of_range
    local ← get_id text local_ip (pos port)
    set_proposers local_ip port peer_ids left (suc i) (proposer_ids ++ id ∷ [])
        (is_proposer || id == local)

  -- `InitConfig`
  unfoldable pub init_config : Slice → Slice → List ℕ → ℕ → Config → Result Config
  unfolding add_peers set_proposers get_local_ip
  init_config pri_key pub_key myip process_id k = do
    ips ← or_panic (first_of k.ip_num k.peer_ips) out_of_range
    peers ← add_peers pri_key pub_key k ips 0 (record { id2node = []; peer_ids = k.peer_ids })
    local_ip ← get_local_ip myip
    proposers ←
        set_proposers local_ip (k.port_base + process_id) peers.peer_ids k.proposer_num 0 [] false
    ok (record k {
      peer_ips = ips;
      id2node = peers.id2node;
      peer_ids = peers.peer_ids;
      local_ip = local_ip;
      proposer_ids = proposers.0;
      is_proposer = proposers.1;
      fault_num = (length peers.id2node - 1) / 3;
    })
