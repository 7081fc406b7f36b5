-- ===== src/Tests/Handshake.antt =====
-- Tests of a request's duplication from end to end.
use praft.Prelude.{ℕ, ◌≡◌, refl, List, [], ◌∷◌, some, Result, ok, panic, lookup, insert, arith}
use praft.Util.Slices.{slice_equal, same_bytes, same_bytes_refl}
use praft.Crypto.{sha256_digest, rsa_sign_with_sha256, rsa_verify_with_sha256}
use praft.Crypto.Keys.{IsKeyPair}
use praft.Config.{Config, get_node}
use praft.Server.{Server}
use praft.Server.Requests.{assign_seq, last_batch}
use praft.Server.Duplicate.Handshake.{Exchange, make_and_duplicate}
use praft.Server.Duplicate.Handshake.Answer.{IsMember}
use praft.Server.Duplicate.Handshake.Enough.{AreReady}
use praft.Server.Duplicate.Handshake.Complete.{IsDuplicated, make_and_duplicate_lem}
use praft.Replication.Proposed.{IsProposed, make_and_duplicate-IsProposed}
use praft.Tests.Fixtures.{toy, four_nodes, fresh_server, node_at, loaded_server, batch_of}

abbrev peer_at : ℕ → Server
peer_at id = record fresh_server { node = node_at id }

abbrev three_peers : List Server
three_peers = peer_at 13 ∷ peer_at 12 ∷ peer_at 14 ∷ []

abbrev two_wanted : Config
two_wanted = record four_nodes { fault_num = 2 }

pub toy-IsKeyPair : (pri_pem pub_pem : List ℕ) → IsKeyPair toy (some pri_pem) (some pub_pem)
toy-IsKeyPair pri_pem pub_pem = record {
  pri_block = pri_pem;
  pub_block = pub_pem;
  pri_key = pri_pem;
  pub_key = pub_pem;
  pri_decodes = refl;
  pri_parses = refl;
  pub_decodes = refl;
  pub_parses = refl;
  fits = λ hashed. (hashed, refl, same_bytes_refl hashed);
}

peer_at-IsMember :
    (id : ℕ)
    → lookup id four_nodes.id2node ≡ some (node_at id)
    → IsMember toy two_wanted (peer_at id)
peer_at-IsMember id known = record { known = known; keys = toy-IsKeyPair (1 ∷ []) (1 ∷ []) }

loaded_server-IsMember : IsMember toy two_wanted loaded_server
unfolding lookup
loaded_server-IsMember = record { known = refl; keys = toy-IsKeyPair (1 ∷ []) (1 ∷ []) }

three_peers-AreReady : AreReady toy two_wanted (assign_seq loaded_server).1 three_peers
unfolding lookup
three_peers-AreReady = (
  peer_at-IsMember 13 refl,
  refl,
  (peer_at-IsMember 12 refl, refl, (peer_at-IsMember 14 refl, refl, tt)),
)

make_and_duplicate_lem_example :
    IsDuplicated toy two_wanted 5 6 (1 ∷ []) loaded_server (batch_of 27) three_peers
unfolding lookup last_batch
make_and_duplicate_lem_example =
    make_and_duplicate_lem toy two_wanted 5 6 (1 ∷ []) loaded_server (batch_of 27) three_peers refl
      (ground arith) loaded_server-IsMember refl three_peers-AreReady (refl, (refl, (refl, tt)))

abbrev requests_asked : Result Exchange → ℕ
requests_asked (panic fault) = 77
requests_asked (ok e) = e.asked

-- The second of the three confirmations reports the request, the third asks for no other.
asked_once :
    requests_asked (make_and_duplicate toy two_wanted 5 6 (1 ∷ []) three_peers loaded_server) ≡ 1
unfolding make_and_duplicate get_node lookup insert rsa_sign_with_sha256 rsa_verify_with_sha256
    same_bytes sha256_digest slice_equal
asked_once = refl

make_and_duplicate-IsProposed_example :
    IsProposed toy two_wanted 5 6 (1 ∷ []) loaded_server (batch_of 27) three_peers
unfolding lookup last_batch
make_and_duplicate-IsProposed_example =
    make_and_duplicate-IsProposed toy two_wanted 5 6 (1 ∷ []) loaded_server (batch_of 27)
      three_peers refl (ground arith) loaded_server-IsMember refl three_peers-AreReady
      (refl, (refl, (refl, tt))) refl
