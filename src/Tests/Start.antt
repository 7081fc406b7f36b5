-- ===== src/Tests/Start.antt =====
-- Tests of the start of a server, and the theorems about it at concrete inputs.
use praft.Prelude.{ℕ, ◌≡◌, refl, Bool, true, false, List, [], ◌∷◌, ok, arith, elem, some}
use praft.Util.Identities.{get_id_lem}
use praft.Config.{Config}
use praft.Config.Peers.{HasPrefix, Site, AreSites, IsSetUp}
use praft.Tree.{TreeNode, make_tree}
use praft.Server.{Server}
use praft.Server.Broadcast.Reach.{Receives}
use praft.Server.Start.{connect, start_process}
use praft.Server.Start.Fresh.{IsFresh, start_process-IsFresh}
use praft.Server.Start.Connected.{RunOver}
use praft.Server.Start.Everyone.{connected_broadcast}
use praft.Server.Rotation.{rotate_proposers, is_proposer_or_not}
use praft.Server.Rotation.Turns.{rotate_proposers-is_proposer_or_not}
use praft.Tests.Fixtures.{four_nodes, fresh_server}
use praft.Tests.Texts.{plain_text, first_ip, first_ip-IsAddress}

-- One computer that runs two processes.
abbrev raw_config : Config
raw_config = record four_nodes {
  peer_ips = first_ip ∷ [];
  ip_num = 1;
  process_num_array = 2 ∷ [];
  id2node = [];
  peer_ids = [];
  proposer_ids = [];
  is_proposer = false;
  fault_num = 0;
}

abbrev one_site : List Site
one_site = record { ip = first_ip; prefix = 1002; count = 2 } ∷ []

first_ip-HasPrefix : HasPrefix plain_text first_ip 1002
first_ip-HasPrefix port = get_id_lem plain_text first_ip 1 2 port first_ip-IsAddress

one_site-AreSites : AreSites plain_text (2 ∷ []) 0 one_site
one_site-AreSites = (first_ip-HasPrefix, refl, tt)

start_process-IsFresh_example :
    (k' : Config) × (s : Server) × (start_process plain_text
        (λ n. ok 0)
        (some [])
        (some [])
        first_ip
        2
        raw_config
      ≡ ok (k', s))
    × IsSetUp first_ip raw_config k' (100201 ∷ 100202 ∷ []) 100202
    × IsFresh k' 100202 s
start_process-IsFresh_example =
    start_process-IsFresh plain_text (λ n. ok 0) (some []) (some []) first_ip 1002 2 0 raw_config
      one_site refl refl one_site-AreSites (omega arith) (λ e. cc) first_ip-HasPrefix refl refl

-- In the first round node 13 cannot be dialled.
abbrev two_rounds : List (List (ℕ × Bool))
two_rounds =
    ((11, true) ∷ (12, true) ∷ (13, false) ∷ []) ∷ ((13, true) ∷ (11, true) ∷ (12, true) ∷ []) ∷ []

two_rounds-RunOver : RunOver (11 ∷ 12 ∷ 13 ∷ []) two_rounds
two_rounds-RunOver = (λ id. refl, (λ id. ground arith, tt))

connected_broadcast_example :
    (nodes : List TreeNode) × (make_tree (13 ∷ 12 ∷ []) 2 11 ≡ ok nodes) × Receives nodes 11 13
unfolding connect
connected_broadcast_example =
    connected_broadcast 11 (11 ∷ 12 ∷ 13 ∷ []) (13 ∷ 12 ∷ []) two_rounds (12 ∷ 13 ∷ []) 13
      two_rounds-RunOver refl (refl, (refl, tt)) (λ id. ground arith) refl refl

abbrev rotating_server : Server
rotating_server = record fresh_server { rotate_or_not = true; proposers = 0 ∷ 0 ∷ [] }

-- View 3 of four peers: the proposers are the last peer and the first.
rotate_proposers-is_proposer_or_not_example :
    (s' : Server) × (rotate_proposers four_nodes 3 2 rotating_server ≡ ok s')
    × (s'.proposers ≡ 14 ∷ 11 ∷ [])
    × (is_proposer_or_not four_nodes 3 11 rotating_server ≡ ok (elem 11 s'.proposers))
rotate_proposers-is_proposer_or_not_example =
    rotate_proposers-is_proposer_or_not four_nodes 3 11 rotating_server (omega arith) refl refl

-- Four peers at two addresses: the two functions disagree on view 2.
rotation_disagrees :
    (rotate_proposers (record four_nodes { peer_ips = [] ∷ [] ∷ [] }) 2 2 rotating_server
      ≡ ok (record rotating_server { proposers = 11 ∷ 12 ∷ [] }))
    × (is_proposer_or_not (record four_nodes { peer_ips = [] ∷ [] ∷ [] }) 2 11 rotating_server
        ≡ ok false)
unfolding rotate_proposers is_proposer_or_not
rotation_disagrees = (refl, refl)
