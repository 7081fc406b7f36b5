-- ===== src/Config/Peers.antt =====
-- The settings that `InitConfig` leaves.
use praft.Prelude.{
  ℕ, zero, suc, ◌+◌, ◌-◌, ◌*◌, ◌/◌, ◌%◌, ◌≤◌, ◌≡◌, refl, sym, ap, ◌∙◌, subst, Bool, true, false,
  ◌||◌, List, [], ◌∷◌, ◌++◌, some, ok, Map, lookup, insert, lookup-insert, length-insert, is_some,
  Option-cases, inl, inr, arith, ◌==◌, elem, elem-append, Distinct, append-nil, append_assoc,
  get_elem?, length, map, pos,
}
use praft.Util.Slices.{Slice}
use praft.Util.{Text, get_id}
use praft.Config.{Node, Config, get_node}
use praft.Config.Setup.{
  Peers, first_of, get_local_ip, new_node, add_processes, add_peers, set_proposers, init_config,
}

-- The identities that `GetId` gives at this address are `prefix` followed by two digits of the port.
abbrev pub HasPrefix : Text → List ℕ → ℕ → Type 0
HasPrefix text ip prefix = (port : ℕ) → get_id text ip (pos port) ≡ ok (prefix * 100 + port % 100)

-- A computer of the settings: its address, its prefix, and how many processes it runs.
pub record Site : Type 0 where
  pub ip : List ℕ
  pub prefix : ℕ
  pub count : ℕ

-- Every address has its prefix, and its count stands in the array from `i` on.
abbrev pub AreSites : Text → List ℕ → ℕ → List Site → Type 0
AreSites text process_nums i [] = Unit {0}
AreSites text process_nums i (site ∷ sites) =
    HasPrefix text site.ip site.prefix
    × (get_elem? process_nums i ≡ some site.count)
    × AreSites text process_nums (suc i) sites

-- The identities of `count` processes from process `j` on.
abbrev pub process_ids : ℕ → ℕ → ℕ → ℕ → List ℕ
process_ids port_base prefix zero j = []
process_ids port_base prefix (suc count) j =
    (prefix * 100 + (port_base + 1 + j) % 100) ∷ process_ids port_base prefix count (suc j)

abbrev pub ids_of : ℕ → List Site → List ℕ
ids_of port_base [] = []
ids_of port_base (site ∷ sites) =
    process_ids port_base site.prefix site.count 0 ++ ids_of port_base sites

-- The table holds exactly the listed identities, each with its own node.
pub record AreKnown (id2node : Map Node) (peer_ids : List ℕ) : Type 0 where
  pub listed : (id : ℕ) → is_some (lookup id id2node) ≡ elem id peer_ids
  pub own : (id : ℕ) (node : Node) → lookup id id2node ≡ some node → node.id ≡ id
  pub counted : Distinct peer_ids → length id2node ≡ length peer_ids

Distinct-front : (xs : List ℕ) (a : ℕ) → Distinct (xs ++ a ∷ []) → Distinct xs × (elem a xs ≡ false)
Distinct-front [] a d = (tt, refl)
Distinct-front (x ∷ xs) a d = ground (arith, elem-append x xs (a ∷ []), Distinct-front xs a d.1)

length_concat : (xs : List ℕ) (a : ℕ) → length (xs ++ a ∷ []) ≡ suc (length xs)
length_concat [] a = refl
length_concat (x ∷ xs) a = ap suc (length_concat xs a)

insert-AreKnown :
    (id : ℕ) (node : Node) (id2node : Map Node) (peer_ids : List ℕ)
    → node.id ≡ id
    → AreKnown id2node peer_ids
    → AreKnown (insert id node id2node) (peer_ids ++ id ∷ [])
insert-AreKnown id node id2node peer_ids same h = record {
  listed = λ j.
      ground (arith, lookup-insert id j node id2node, elem-append j peer_ids (id ∷ []), h.listed j);
  own = λ j other e. ground (arith, lookup-insert id j node id2node, e, h.own j other, same);
  counted = λ d.
      (let (front, fresh) = Distinct-front peer_ids id d in
        ground (
          arith,
          length-insert id node id2node,
          length_concat peer_ids id,
          h.listed id,
          h.counted front,
          fresh,
        ));
}

module _ (text : Text) (pri_key pub_key : Slice) (k : Config) where
  add_processes_lem :
      (ip : List ℕ) (prefix count j : ℕ) (peers : Peers)
      → HasPrefix text ip prefix
      → AreKnown peers.id2node peers.peer_ids
      → (added : Peers) × (add_processes text pri_key pub_key k ip count j peers ≡ ok added)
        × (added.peer_ids ≡ peers.peer_ids ++ process_ids k.port_base prefix count j)
        × AreKnown added.id2node added.peer_ids
  unfolding add_processes new_node
  add_processes_lem ip prefix zero j peers site known =
      (peers, refl, sym (append-nil peers.peer_ids), known)
  add_processes_lem ip prefix (suc count) j peers site known =
      let id : ℕ = prefix * 100 + (k.port_base + 1 + j) % 100 in
      let node : Node = record {
        id = id;
        ip = ip;
        port = k.port_base + 1 + j;
        addr = ip ++ b':' ∷ text.itoa (k.port_base + 1 + j);
        pri_key = pri_key;
        pub_key = pub_key;
      } in
      let (added, e, ids, known') =
        add_processes_lem ip prefix count (suc j)
          (record { id2node = insert id node peers.id2node; peer_ids = peers.peer_ids ++ id ∷ [] })
          site (insert-AreKnown id node peers.id2node peers.peer_ids refl known) in
      (
        added,
        rw (site (k.port_base + 1 + j)) e,
        ids ∙ append_assoc peers.peer_ids (id ∷ []) (process_ids k.port_base prefix count (suc j)),
        known',
      )

  add_peers_lem :
      (sites : List Site) (i : ℕ) (peers : Peers)
      → AreSites text k.process_num_array i sites
      → AreKnown peers.id2node peers.peer_ids
      → (added : Peers) × (add_peers text pri_key pub_key k (map (λ site. site.ip) sites) i peers
          ≡ ok added)
        × (added.peer_ids ≡ peers.peer_ids ++ ids_of k.port_base sites)
        × AreKnown added.id2node added.peer_ids
  unfolding add_peers
  add_peers_lem [] i peers h known = (peers, refl, sym (append-nil peers.peer_ids), known)
  add_peers_lem (site ∷ sites) i peers (prefixed, counted, h) known =
      let (first, e, ids, known') =
        add_processes_lem site.ip site.prefix site.count 0 peers prefixed known in
      let (added, e', ids', known'') = add_peers_lem sites (suc i) first h known' in
      (
        added,
        rw (counted, e) e',
        ids'
            ∙ ap (λ front. front ++ ids_of k.port_base sites) ids
            ∙ append_assoc peers.peer_ids (process_ids k.port_base site.prefix site.count 0)
                (ids_of k.port_base sites),
        known'',
      )

-- The elements of `front` stand in `ids` from index `i` on.
abbrev AreAt : List ℕ → ℕ → List ℕ → Type 0
AreAt ids i [] = Unit {0}
AreAt ids i (x ∷ front) = (get_elem? ids i ≡ some x) × AreAt ids (suc i) front

AreAt-cons :
    (id : ℕ) (ids front : List ℕ) (i : ℕ) → AreAt ids i front → AreAt (id ∷ ids) (suc i) front
AreAt-cons id ids [] i h = tt
AreAt-cons id ids (x ∷ front) i (e, h) = (e, AreAt-cons id ids front (suc i) h)

-- Taking the first `n` elements succeeds exactly on a list that has them.
first_of_lem :
    (n : ℕ) (ids : List ℕ)
    → n ≤ length ids
    → (front : List ℕ) × (first_of n ids ≡ some front) × (length front ≡ n) × AreAt ids 0 front
first_of_lem zero ids h = ([], refl, refl, tt)
first_of_lem (suc n) [] h = absurd (omega (arith, h))
first_of_lem (suc n) (id ∷ ids) h =
    let (front, e, long, at) = first_of_lem n ids (omega (arith, h)) in
    (id ∷ front, rw e refl, ap suc long, (refl, AreAt-cons id ids front 0 at))

-- From index `i` on, the loop appends the identities and looks for that of this process.
set_proposers_lem :
    (text : Text) (local_ip : List ℕ) (prefix port : ℕ) (peer_ids front acc : List ℕ) (i : ℕ)
    (is_proposer : Bool)
    → HasPrefix text local_ip prefix
    → AreAt peer_ids i front
    → set_proposers text local_ip port peer_ids (length front) i acc is_proposer
      ≡ ok (acc ++ front, is_proposer || elem (prefix * 100 + port % 100) front)
unfolding set_proposers
set_proposers_lem text local_ip prefix port peer_ids [] acc i is_proposer h at =
    rw (append-nil acc) (ap (λ b. ok (acc, b)) (ground arith))
set_proposers_lem text local_ip prefix port peer_ids (id ∷ front) acc i is_proposer h (e, at) =
    let local : ℕ = prefix * 100 + port % 100 in
    let same : ((is_proposer || id == local) || elem local front)
        ≡ (is_proposer || (local == id || elem local front)) =
      ground arith in
    rw (e, h port)
      (set_proposers_lem text local_ip prefix port peer_ids front (acc ++ id ∷ []) (suc i)
          (is_proposer || id == local) h at
        ∙ ap (λ ids. ok (ids, (is_proposer || id == local) || elem local front))
            (append_assoc acc (id ∷ []) front)
        ∙ ap (λ b. ok (acc ++ id ∷ front, b)) same)

-- What the settings are once `InitConfig` has run, for the identity of this process and the identities
-- of the peers. The other settings are kept.
pub record IsSetUp (myip : List ℕ) (k k' : Config) (ids : List ℕ) (local : ℕ) : Type 0 where
  pub peers : k'.peer_ids ≡ ids
  pub nodes :
      (id : ℕ) → elem id ids ≡ true → (node : Node) × (get_node k' id ≡ ok node) × (node.id ≡ id)
  pub proposers : first_of k.proposer_num ids ≡ some k'.proposer_ids
  pub proposes : k'.is_proposer ≡ elem local k'.proposer_ids
  pub here : k'.local_ip ≡ myip
  pub kept : k' ≡ record k {
    peer_ips = k'.peer_ips;
    id2node = k'.id2node;
    peer_ids = k'.peer_ids;
    local_ip = k'.local_ip;
    proposer_ids = k'.proposer_ids;
    is_proposer = k'.is_proposer;
    fault_num = k'.fault_num;
  }
  pub faults : Distinct ids → k'.fault_num ≡ (length ids - 1) / 3

known-node :
    (id : ℕ) (ids : List ℕ) (id2node : Map Node)
    → AreKnown id2node ids
    → elem id ids ≡ true
    → (node : Node) × (lookup id id2node ≡ some node) × (node.id ≡ id)
known-node id ids id2node known h = elim (Option-cases (lookup id id2node)) [
  | inl e ↦ (let impossible : ⊥ = ground (arith, known.listed id, e, h) in absurd impossible)
  | inr (node, e) ↦ (node, e, known.own id node e)
]

local_ip_lem : (myip : List ℕ) → (myip ≡ [] → ⊥) → get_local_ip myip ≡ ok myip
unfolding get_local_ip
local_ip_lem [] h = absurd (h refl)
local_ip_lem (b ∷ bytes) h = refl

-- For settings without identities, with an address that has a prefix and a number of processes for each
-- of the `IpNum` computers, at least as many processes as proposers, and a variable `myip` that holds
-- an address, `InitConfig` does not panic. The peers are then the processes of the computers in their
-- order, and `GetNode` knows each of them under its own identity; the proposers are the first
-- `ProposerNum` peers, and this process knows whether it is one. If no two processes share an
-- identity, `FaultNum` is a third of one less than their number, rounded down.
pub init_config_lem :
    (text : Text) (pri_key pub_key : Slice) (myip : List ℕ) (prefix process_id : ℕ) (k : Config)
    (sites : List Site)
    → k.peer_ids ≡ []
    → first_of k.ip_num k.peer_ips ≡ some (map (λ site. site.ip) sites)
    → AreSites text k.process_num_array 0 sites
    → k.proposer_num ≤ length (ids_of k.port_base sites)
    → (myip ≡ [] → ⊥)
    → HasPrefix text myip prefix
    → (k' : Config) × (init_config text pri_key pub_key myip process_id k ≡ ok k')
      × IsSetUp myip k k'
          (ids_of k.port_base sites)
          (prefix * 100 + (k.port_base + process_id) % 100)
unfolding init_config get_node
init_config_lem text pri_key pub_key myip prefix process_id k sites none_yet taken at enough here
      local =
    let start : Peers = record { id2node = []; peer_ids = k.peer_ids } in
    let known : AreKnown start.id2node start.peer_ids =
      unfold lookup in
      rw none_yet (record { listed = λ id. refl; own = λ id node e. cc; counted = λ d. refl }) in
    let (added, e, ids, known') = add_peers_lem text pri_key pub_key k sites 0 start at known in
    let all : added.peer_ids ≡ ids_of k.port_base sites =
      ids ∙ ap (λ front. front ++ ids_of k.port_base sites) none_yet in
    let (front, e', long, at') = first_of_lem k.proposer_num (ids_of k.port_base sites) enough in
    let port : ℕ = k.port_base + process_id in
    let proposers : set_proposers text myip port added.peer_ids k.proposer_num 0 [] false
        ≡ ok (front, elem (prefix * 100 + port % 100) front) =
      ap (λ ids. set_proposers text myip port ids k.proposer_num 0 [] false) all
      ∙ ap (λ n. set_proposers text myip port (ids_of k.port_base sites) n 0 [] false) (sym long)
      ∙ set_proposers_lem text myip prefix port (ids_of k.port_base sites) front [] 0 false local
          at' in
    let settled : AreKnown added.id2node (ids_of k.port_base sites) =
      subst (AreKnown added.id2node) all known' in
    (
      record k {
        peer_ips = map (λ site. site.ip) sites;
        id2node = added.id2node;
        peer_ids = added.peer_ids;
        local_ip = myip;
        proposer_ids = front;
        is_proposer = elem (prefix * 100 + port % 100) front;
        fault_num = (length added.id2node - 1) / 3;
      },
      rw (taken, e, local_ip_lem myip here, proposers) refl,
      record {
        peers = all;
        nodes = λ id h.
            (let (node, found, same) =
                known-node id (ids_of k.port_base sites) added.id2node settled h in
              (node, rw found refl, same));
        proposers = e';
        proposes = refl;
        here = refl;
        kept = refl;
        faults = λ d. ap (λ n. (n - 1) / 3) (settled.counted d);
      },
    )
