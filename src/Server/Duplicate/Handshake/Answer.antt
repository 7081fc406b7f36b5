-- ===== src/Server/Duplicate/Handshake/Answer.antt =====
-- An honest peer's answer to `DuplicateRpc`, and what it is worth to the server that asked.
use praft.Prelude.{ℕ, ◌≡◌, refl, ◌∙◌, true, false, some, ok, lookup, ◌==◌, ==_refl, if-true}
use praft.Util.Slices.{Slice, slice_equal, slice_equal_refl}
use praft.Messages.{RequestArgs, DuplicateArgs, DuplicateConfirmMsg, DuplicateConfirmArgs}
use praft.Crypto.{Primitives, sha256_digest, rsa_verify_with_sha256}
use praft.Crypto.Keys.{IsKeyPair, sign_verify}
use praft.Config.{Config, Node, get_node}
use praft.Cert.{LogCert}
use praft.Server.{Server}
use praft.Server.Certificates.{cert_or_new}
use praft.Server.Duplicate.{duplicate_rpc}
use praft.Server.Duplicate.Ballot.{is_vote}
use praft.Server.Duplicate.Peer.{stored_cert, confirm_msg, store_over}

-- The server is the configured node of its identity, and its keys belong together.
pub record IsMember (p : Primitives) (k : Config) (s : Server) : Type 0 where
  pub known : lookup s.node.id k.id2node ≡ some s.node
  pub keys : IsKeyPair p s.node.pri_key s.node.pub_key

-- The certificate of this number is not committed at the server; it may not be there.
abbrev pub IsPending : ℕ → Server → Type 0
IsPending seq s = (cert_or_new (lookup seq s.seq2cert) seq).committed ≡ false

-- The server holds this request, with this digest, under the number.
pub record Holds (seq : ℕ) (req : RequestArgs) (digest : Slice) (s : Server) : Type 0 where
  pub cert : LogCert
  pub found : lookup seq s.seq2cert ≡ some cert
  pub same_req : cert.req ≡ some req
  pub same_digest : cert.digest ≡ digest

-- A confirmation of this node, which the configuration has, that is a vote for the digest.
pub record IsGood (p : Primitives) (k : Config) (id : ℕ) (digest : Slice)
    (reply : DuplicateConfirmArgs) : Type 0 where
  pub msg : DuplicateConfirmMsg
  pub node : Node
  pub is_there : reply.msg ≡ some msg
  pub of_node : msg.node_id ≡ id
  pub known : lookup id k.id2node ≡ some node
  pub vote : is_vote p k digest id reply ≡ true

-- A duplicate message that a peer accepts: of a known node, which signed it, with its own digest.
pub record IsAccepted (p : Primitives) (k : Config) (args : DuplicateArgs) : Type 0 where
  pub sender : Node
  pub known : lookup args.msg.node_id k.id2node ≡ some sender
  pub verified : rsa_verify_with_sha256 p (sha256_digest p args.msg) args.sign sender.pub_key ≡ true
  pub matches : slice_equal (sha256_digest p args.req_args.req) args.msg.digest ≡ true

module _ (p : Primitives) (k : Config) (args : DuplicateArgs) where
  -- What the peer's answer amounts to.
  abbrev pub Answers : Server → Type 0
  Answers peer =
      (peer' : Server) × (reply : DuplicateConfirmArgs) × (duplicate_rpc p k args peer
        ≡ ok (peer', reply))
      × IsGood p k peer.node.id (sha256_digest p args.req_args.req) reply
      × Holds args.msg.seq args.req_args (sha256_digest p args.req_args.req) peer'
      × (peer'.node ≡ peer.node)

  -- A member of the cluster that has not committed the number stores an accepted request and
  -- confirms it.
  pub answer_lem :
      (peer : Server)
      → IsAccepted p k args
      → IsMember p k peer
      → IsPending args.msg.seq peer
      → Answers peer
  unfolding duplicate_rpc get_node
  answer_lem peer a member pending =
      let old = lookup args.msg.seq peer.seq2cert in
      let (certs, at, stores) = store_over p args k peer old refl pending in
      let msg = confirm_msg p args (cert_or_new old args.msg.seq) peer in
      let (sign, signs, verifies) =
        sign_verify p peer.node.pri_key peer.node.pub_key (sha256_digest p msg) member.keys in
      (
        record peer { seq2cert = certs },
        record { msg = some msg; sign = sign },
        rw (a.known, a.verified, a.matches) (stores ∙ rw signs refl),
        record {
          msg = msg;
          node = peer.node;
          is_there = refl;
          of_node = refl;
          known = member.known;
          vote =
              rw
                (
                  ==_refl peer.node.id,
                  slice_equal_refl (sha256_digest p args.req_args.req),
                  member.known,
                  verifies,
                )
                refl;
        },
        record {
          cert = stored_cert p args (cert_or_new old args.msg.seq);
          found =
              at args.msg.seq ∙ if-true _ _ (args.msg.seq == args.msg.seq) (==_refl args.msg.seq);
          same_req = refl;
          same_digest = refl;
        },
        refl,
      )
