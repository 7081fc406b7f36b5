-- ===== src/Server/Broadcast.antt =====
-- Duplicating a request over the tree (zpbft/server.go): `treeDuplicate`, `TreeDuplicateRpc` with the
-- goroutines that relay the message, and `PrimaryReceiveBackRpc`. The tree that the message points to
-- travels as its nodes.
pub mod Relay
pub mod Reach
pub mod Tallies
use praft.Prelude.{
  ℕ, suc, Bool, true, false, List, [], ◌∷◌, ◌++◌, Option, none, some, Result, ok, ◌>>=◌, or_panic,
  nil_dereference, get_elem?, length, ◌==◌, if◌then◌else◌,
}
use praft.Util.Slices.{Slice}
use praft.Messages.{RequestArgs, DuplicateConfirmMsg, DuplicateConfirmArgs}
use praft.Crypto.{Primitives, sha256_digest, rsa_sign_with_sha256, rsa_verify_with_sha256}
use praft.Config.{Config, get_node}
use praft.Cert.{LogCert, set, get}
use praft.Tree.{TreeNode, make_tree, traverse_tree}
use praft.Server.{Server, get_cert_or_new, update_cert}
use praft.Server.Duplicate.{no_confirm, collect_reply, duplicate_reply}

pub record TreeBroadcastMsg : Type 0 where
  pub tree : List TreeNode
  pub seq : ℕ
  pub digest : Slice
  pub node_id : ℕ
  pub duplicator_node_id : ℕ
  pub tx_num : ℕ

pub record TreeBroadcastArgs : Type 0 where
  pub tree_bc_msgs : TreeBroadcastMsg
  pub req_args : RequestArgs
  pub digest : Slice
  pub sign : Slice

-- What `TreeDuplicateRpc` leaves: the state, the reply, and the nodes to which it relays.
pub record Relayed : Type 0 where
  pub server : Server
  pub reply : DuplicateConfirmArgs
  pub next_nodes : List ℕ

-- Lines 208 to 213: the confirmation, with the digest of the broadcast message.
abbrev pub tree_confirm_msg : Primitives → ℕ → TreeBroadcastArgs → Server → DuplicateConfirmMsg
tree_confirm_msg p root_id args s = record {
  seq = args.tree_bc_msgs.seq;
  digest = sha256_digest p args.tree_bc_msgs;
  node_id = s.node.id;
  duplicator_node_id = root_id;
  log_index = 0;
}

module _ (p : Primitives) (k : Config) where
  -- `treeDuplicate`: the arguments, and the nodes to which they go. `ids` is the order in which Go runs
  -- over `id2srvCli`.
  unfoldable pub tree_duplicate : List ℕ → ℕ → Server → Result (Server × TreeBroadcastArgs × List ℕ)
  unfolding get_cert_or_new get
  tree_duplicate ids seq s = do
    let (certs, cert) = get_cert_or_new seq s.seq2cert
    let found = get cert
    tree ← make_tree ids 2 s.node.id
    req ← or_panic found.req nil_dereference
    let msg : TreeBroadcastMsg = record {
      tree = tree;
      seq = seq;
      digest = found.digest;
      node_id = s.node.id;
      duplicator_node_id = found.duplicator;
      tx_num = req.tx_num;
    }
    let digest = sha256_digest p msg
    sign ← rsa_sign_with_sha256 p digest s.node.pri_key
    id_array ← traverse_tree tree s.node.id
    ok (
      record s { seq2cert = certs },
      record { tree_bc_msgs = msg; req_args = req; digest = digest; sign = sign },
      id_array,
    )

  -- The goroutine of `treeDuplicate` after its call has returned, up to the call of `makeReq`. It takes
  -- the number from the reply's message, and panics where there is none.
  unfoldable pub tree_reply : ℕ → DuplicateConfirmArgs → Server → Result (Server × Bool)
  unfolding collect_reply
  tree_reply now args s =
      or_panic args.msg nil_dereference >>= λ msg. collect_reply p k now msg.seq args s

  -- From line 206 on, with a signature that holds. What is stored as the request's digest is the digest
  -- of the confirmation.
  unfoldable pub relay_verified : TreeBroadcastArgs → Server → Result Relayed
  unfolding update_cert set
  relay_verified args s = do
    next_nodes ← traverse_tree args.tree_bc_msgs.tree s.node.id
    root ← or_panic (get_elem? args.tree_bc_msgs.tree 0) nil_dereference
    let msg = tree_confirm_msg p root.id args s
    let digest = sha256_digest p msg
    sign ← rsa_sign_with_sha256 p digest s.node.pri_key
    let certs =
        update_cert args.tree_bc_msgs.seq
          (λ cert. set cert (some args.req_args) digest 0 args.tree_bc_msgs.duplicator_node_id)
          s.seq2cert
    ok (record {
      server = record s { seq2cert = certs };
      reply = record { msg = some msg; sign = sign };
      next_nodes = next_nodes;
    })

  -- `TreeDuplicateRpc`
  unfoldable pub tree_duplicate_rpc : TreeBroadcastArgs → Server → Result Relayed
  unfolding relay_verified
  tree_duplicate_rpc args s = get_node k args.tree_bc_msgs.node_id >>= λ node.
      (if rsa_verify_with_sha256 p (sha256_digest p args.tree_bc_msgs) args.sign node.pub_key
        then relay_verified args s
        else ok (record { server = s; reply = no_confirm; next_nodes = [] }))

  -- Lines 251 to 265: what the relaying goroutine sends to the next node, unless that is this node.
  unfoldable pub relay_args : ℕ → TreeBroadcastArgs → Server → Result (Option TreeBroadcastArgs)
  relay_args next_node args s = do
    let msg = record args.tree_bc_msgs { node_id = s.node.id }
    let digest = sha256_digest p msg
    sign ← rsa_sign_with_sha256 p digest s.node.pri_key
    ok (
        if next_node == s.node.id
        then none
        else some
            (record { tree_bc_msgs = msg; req_args = args.req_args; digest = digest; sign = sign }))

  -- `PrimaryReceiveBackRpc`: each confirmation with the time and the transactions that a new request
  -- would take.
  unfoldable pub receive_back : List (DuplicateConfirmArgs × ℕ × List ℕ) → Server → Result Server
  unfolding duplicate_reply
  receive_back [] s = ok s
  receive_back ((args, now, tx_set) ∷ rest) s = or_panic args.msg nil_dereference >>= λ msg.
      (duplicate_reply p k now tx_set msg.seq args s >>= receive_back rest)

-- Lines 278 to 282: a returned confirmation joins `duplicateConfirmArgs2`; the flag says that the
-- goroutine which sends them to the root is woken.
unfoldable pub gather :
    ℕ → List DuplicateConfirmArgs → DuplicateConfirmArgs → List DuplicateConfirmArgs × Bool
gather next_num gathered args = let all = gathered ++ args ∷ [] in (all, length all == next_num)
