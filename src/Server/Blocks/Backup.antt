-- ===== src/Server/Blocks/Backup.antt =====
-- `Receiving` as a whole: its outcome on every branch.
use praft.Prelude.{
  ◌≡◌, refl, true, false, List, [], ◌∷◌, none, some, ok, panic, logged_error, lookup, arith, inl,
  inr, Option-cases, Bool-cases, Result,
}
use praft.Util.Slices.{Slice}
use praft.Messages.{SendingMsg, SendingArgs, SendingReturnMsg, SendingReturnArgs}
use praft.Crypto.{Primitives, sha256_digest, rsa_sign_with_sha256, rsa_verify_with_sha256}
use praft.Config.{Config, Node, get_node}
use praft.Server.{Server}
use praft.Server.Blocks.{
  note_prepared, note_committed, report, receive_verified, receiving, no_reply,
}

-- What an accepted message does to the state.
unfoldable pub deliver : SendingMsg → Server → Server
unfolding note_prepared note_committed report
deliver msg s = (report msg (note_committed msg.commit_block_index (note_prepared msg s))).0

-- Messages accepted one after the other.
unfoldable pub deliver_all : List SendingMsg → Server → Server
deliver_all [] s = s
deliver_all (m ∷ ms) s = deliver_all ms (deliver m s)

-- The parts of the state that the blocks do not touch.
pub deliver_frame :
    (msg : SendingMsg) (s : Server)
    → ((deliver msg s).node ≡ s.node)
      × ((deliver msg s).local_duplicated_reqs ≡ [])
      × ((note_committed msg.commit_block_index (note_prepared msg s)).local_duplicated_reqs
          ≡ s.local_duplicated_reqs)
      × ((note_committed msg.commit_block_index (note_prepared msg s)).node ≡ s.node)
unfolding deliver
deliver_frame msg s = (ground arith, ground arith, ground arith, ground arith)

-- The reply of `Receiving` to a message, as the server stands before it.
abbrev pub reply_to : SendingMsg → Server → SendingReturnMsg
reply_to msg s = record {
  prepare_block_index = msg.block.block_index;
  committed_block_index = msg.commit_block_index;
  new_duplicated_reqs = s.local_duplicated_reqs;
  node_id = s.node.id;
}

receive_verified_lem :
    (p : Primitives) (msg : SendingMsg) (s : Server) (sign : Slice)
    → rsa_sign_with_sha256 p (sha256_digest p (reply_to msg s)) s.node.pri_key ≡ ok sign
    → receive_verified p msg s
      ≡ ok (
        deliver msg s,
        record {
          msg = some (reply_to msg s);
          digest = sha256_digest p (reply_to msg s);
          sign = sign;
        },
      )
unfolding receive_verified deliver
receive_verified_lem p msg s sign signed = ground arith

-- The outcomes of `Receiving`.
pub data ReceiveOutcome (p : Primitives) (k : Config) (args : SendingArgs) (s : Server)
    (r : Result (Server × SendingReturnArgs)) : Type 0 where
  unknown_node :
      lookup args.msg.primary_node_id k.id2node ≡ none
      → r ≡ panic logged_error
      → ReceiveOutcome p k args s r
  refused :
      (n : Node)
      → lookup args.msg.primary_node_id k.id2node ≡ some n
      → rsa_verify_with_sha256 p (sha256_digest p args.msg) args.sign n.pub_key ≡ false
      → r ≡ ok (s, no_reply)
      → ReceiveOutcome p k args s r
  accepted :
      (n : Node) (sign : Slice)
      → lookup args.msg.primary_node_id k.id2node ≡ some n
      → rsa_verify_with_sha256 p (sha256_digest p args.msg) args.sign n.pub_key ≡ true
      → rsa_sign_with_sha256 p (sha256_digest p (reply_to args.msg s)) s.node.pri_key ≡ ok sign
      → r
        ≡ ok (
          deliver args.msg s,
          record {
            msg = some (reply_to args.msg s);
            digest = sha256_digest p (reply_to args.msg s);
            sign = sign;
          },
        )
      → ReceiveOutcome p k args s r

-- Where the server can sign its replies, `Receiving` has one of three outcomes. A message from a node
-- that is not configured panics. A message from a configured node whose signature fails leaves the
-- state as it was and the reply empty. Any other is delivered, and the reply names both heights of
-- the message, carries all requests that were waiting here, and is signed with
-- this server's key.
pub receiving-cases :
    (p : Primitives) (k : Config) (args : SendingArgs) (s : Server) (sign : Slice)
    → rsa_sign_with_sha256 p (sha256_digest p (reply_to args.msg s)) s.node.pri_key ≡ ok sign
    → ReceiveOutcome p k args s (receiving p k args s)
unfolding receiving get_node
receiving-cases p k args s sign signed =
    elim (Option-cases (lookup args.msg.primary_node_id k.id2node)) [
      | inl e ↦ unknown_node e (rw e refl)
      | inr (n, e) ↦
          elim (Bool-cases
            (rsa_verify_with_sha256 p (sha256_digest p args.msg) args.sign n.pub_key)) [
              | inl good ↦
                  accepted n sign e good signed
                    (rw (e, good) (receive_verified_lem p args.msg s sign signed))
              | inr bad ↦ refused n e bad (rw (e, bad) refl)
            ]
    ]
