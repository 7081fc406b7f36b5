-- ===== src/Server/Duplicate/Ballot.antt =====
-- Counting the confirmations of a duplicated request (`verifyBallot`, lines 955 to 974).
use praft.Prelude.{
  ℕ, ◌≡◌, refl, ap, ◌∙◌, Bool, true, false, ◌&&◌, ◌||◌, inl, inr, List, [], ◌∷◌, Option, none, some,
  is_some, ok, ◌>>=◌, arith, Map, lookup, insert, keys, Distinct, lookup-insert,
  Distinct-keys-insert, Bool-cases, ◌==◌, if◌then◌else◌,
}
use praft.Util.Slices.{Slice, slice_equal}
use praft.Messages.{DuplicateConfirmArgs, DuplicateConfirmMsg}
use praft.Crypto.{Primitives, sha256_digest, rsa_verify_with_sha256}
use praft.Config.{Config, Node, get_node}
use praft.Cert.{LogCert, duplicate_confirm_voted, duplicate_confirm_vote}
use praft.Server.Duplicate.{count_new, count_confirm, count_confirms}

-- A confirmation with a message, of a node that the configuration has.
pub data IsReadable (k : Config) (args : DuplicateConfirmArgs) : Type 0 where
  readable :
      (msg : DuplicateConfirmMsg) (node : Node)
      → args.msg ≡ some msg
      → lookup msg.node_id k.id2node ≡ some node
      → IsReadable k args

pub data AreReadable (k : Config) : List DuplicateConfirmArgs → Type 0 where
  no_more : AreReadable k []
  one_more :
      {args : DuplicateConfirmArgs} {rest : List DuplicateConfirmArgs}
      → IsReadable k args
      → AreReadable k rest
      → AreReadable k (args ∷ rest)

module _ (p : Primitives) (k : Config) where
  -- The message is signed by the node that it names.
  abbrev pub is_signed : Option Node → DuplicateConfirmMsg → DuplicateConfirmArgs → Bool
  is_signed none msg args = false
  is_signed (some node) msg args =
      rsa_verify_with_sha256 p (sha256_digest p msg) args.sign node.pub_key

  -- A vote of node `n` for the request with this digest.
  abbrev pub is_vote_msg : Option DuplicateConfirmMsg → Slice → ℕ → DuplicateConfirmArgs → Bool
  is_vote_msg none digest n args = false
  is_vote_msg (some msg) digest n args =
      (msg.node_id == n)
      && (slice_equal digest msg.digest && is_signed (lookup msg.node_id k.id2node) msg args)

  abbrev pub is_vote : Slice → ℕ → DuplicateConfirmArgs → Bool
  is_vote digest n args = is_vote_msg args.msg digest n args

  abbrev pub any_vote : Slice → ℕ → List DuplicateConfirmArgs → Bool
  any_vote digest n [] = false
  any_vote digest n (args ∷ rest) = is_vote digest n args || any_vote digest n rest

  -- The votes counted so far are of distinct nodes, and each is a vote for the request.
  pub record AreVotes (digest : Slice) (m : Map DuplicateConfirmArgs) : Type 0 where
    pub distinct : Distinct (keys m)
    pub votes :
        (n : ℕ) (args : DuplicateConfirmArgs)
        → lookup n m ≡ some args
        → is_vote digest n args ≡ true

  -- The votes once a confirmation of node `n` has been looked at.
  unfoldable pub next_votes :
      Slice → ℕ → DuplicateConfirmArgs → Map DuplicateConfirmArgs → Map DuplicateConfirmArgs
  next_votes digest n args m =
      if is_some (lookup n m) then m else (if is_vote digest n args then insert n args m else m)

  pub count_confirm_lem :
      (args : DuplicateConfirmArgs) (cert : LogCert) (msg : DuplicateConfirmMsg) (node : Node)
      → args.msg ≡ some msg
      → lookup msg.node_id k.id2node ≡ some node
      → count_confirm p k args cert
        ≡ ok (record cert {
          duplicate_confirms = next_votes cert.digest msg.node_id args cert.duplicate_confirms;
        })
  unfolding count_confirm count_new duplicate_confirm_voted duplicate_confirm_vote get_node
      next_votes
  count_confirm_lem args cert msg node e known = rw (e, known) (ground arith)

  next_votes-AreVotes :
      (digest : Slice) (n : ℕ) (args : DuplicateConfirmArgs) (m : Map DuplicateConfirmArgs)
      → AreVotes digest m
      → AreVotes digest (next_votes digest n args m)
  unfolding next_votes
  next_votes-AreVotes digest n args m v = elim (Bool-cases (is_some (lookup n m))) [
    | inl voted ↦ rw voted v
    | inr fresh ↦ elim (Bool-cases (is_vote digest n args)) [
      | inr bad ↦ rw (fresh, bad) v
      | inl good ↦
          rw (fresh, good)
            (record {
              distinct = Distinct-keys-insert n args m v.distinct;
              votes = λ j a e. ground (arith, lookup-insert n j args m, v.votes j a);
            })
    ]
  ]

  voters-next_votes :
      (digest : Slice) (args : DuplicateConfirmArgs) (m : Map DuplicateConfirmArgs)
      (msg : DuplicateConfirmMsg)
      → args.msg ≡ some msg
      → (n : ℕ)
      → is_some (lookup n (next_votes digest msg.node_id args m))
        ≡ (is_some (lookup n m) || is_vote digest n args)
  unfolding next_votes
  voters-next_votes digest args m msg e n =
      rw e (ground (arith, lookup-insert msg.node_id n args m))

  -- Where every confirmation that waits has a message of a known node, counting them does not panic.
  -- It changes nothing but the votes. The nodes that have voted afterwards are those that had and
  -- those of which a confirmation that waits has the request's digest and a signature that holds;
  -- each counts once, and every vote is one for the request's digest.
  pub count_confirms_lem :
      (args_q : List DuplicateConfirmArgs) (cert : LogCert)
      → AreReadable k args_q
      → AreVotes cert.digest cert.duplicate_confirms
      → (m : Map DuplicateConfirmArgs) × (count_confirms p k args_q cert
          ≡ ok (record cert { duplicate_confirms = m }))
        × AreVotes cert.digest m
        × ((n : ℕ)
            → is_some (lookup n m)
              ≡ (is_some (lookup n cert.duplicate_confirms) || any_vote cert.digest n args_q))
  unfolding count_confirms
  count_confirms_lem [] cert no_more v = (cert.duplicate_confirms, refl, v, λ n. ground arith)
  count_confirms_lem (args ∷ rest) cert (one_more (readable msg node e known) more) v =
      let m1 = next_votes cert.digest msg.node_id args cert.duplicate_confirms in
      let one = count_confirm_lem args cert msg node e known in
      let (m, run, all, voters) =
        count_confirms_lem rest (record cert { duplicate_confirms = m1 }) more
          (next_votes-AreVotes cert.digest msg.node_id args cert.duplicate_confirms v) in
      (
        m,
        ap (◌>>= count_confirms p k rest) one ∙ run,
        all,
        λ n.
            ground
              (arith, voters n, voters-next_votes cert.digest args cert.duplicate_confirms msg e n),
      )
