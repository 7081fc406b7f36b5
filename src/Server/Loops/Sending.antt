-- ===== src/Server/Loops/Sending.antt =====
-- A round of `workLoop` where a number waits in `seqCh`.
use praft.Prelude.{
  ℕ, zero, suc, ◌<◌, ◌≡◌, refl, sym, ap, ◌∙◌, true, inl, inr, List, [], ◌∷◌, ◌++◌, Option, none,
  some, ok, ◌>>=◌, arith, lookup, length, get_elem?, Distinct, subst, false, not, ◌&&◌, elem,
  ==_refl, if◌then◌else◌, ◌==◌, Bool-cases, Option-cases,
}
use praft.Messages.{DuplicateMsg, DuplicateArgs, RequestArgs}
use praft.Crypto.{Primitives, sha256_digest}
use praft.Crypto.Keys.{IsKeyPair, sign_verify}
use praft.Config.{Config, Node}
use praft.Cert.{LogCert, get}
use praft.Tree.{TreeNode, make_tree, traverse_tree, tree_ip}
use praft.Tree.Sections.{take}
use praft.Tree.Search.{traverse_tree_lem}
use praft.Tree.Shape.{make_tree_lem}
use praft.Tree.Order.{Distinct-order}
use praft.Server.{Server, get_cert_or_new, cert_at}
use praft.Server.Duplicate.{duplicate}
use praft.Server.Broadcast.{TreeBroadcastMsg, TreeBroadcastArgs, tree_duplicate}
use praft.Server.Loops.{Worker, Sent, over_star, over_tree, start_duplicating, work_round}
use praft.Server.Loops.Frames.{has_req}
use praft.Server.Loops.Handlers.{seq_of, start_duplicating-IsFrame}
use praft.Server.Loops.Numbers.{issued_at, get_elem?-issued}
use praft.Server.Loops.Steps.{Works}
use praft.Server.Loops.Working.{Works-IsWorking}

-- The nodes to which a round sends.
abbrev pub receivers : Sent → List ℕ
receivers (over_star args ids) = ids
receivers (over_tree args ids) = ids

get_elem?-found :
    {A : Type 0} (xs : List A) (i : ℕ) → i < length xs → (x : A) × (get_elem? xs i ≡ some x)
get_elem?-found [] i h = absurd (omega (arith, h))
get_elem?-found (x ∷ xs) zero h = (x, refl)
get_elem?-found (x ∷ xs) (suc i) h = get_elem?-found xs i (omega (arith, h))

with_req :
    (found : Option LogCert)
    → has_req found ≡ true
    → (cert : LogCert) × (req : RequestArgs) × (found ≡ some cert) × (cert.req ≡ some req)
with_req none h = cc
with_req (some cert) h = elim (Option-cases cert.req) [
  | inl nil ↦ absurd (ground (arith, nil, h))
  | inr (req, e) ↦ (cert, req, refl, e)
]

module _ (p : Primitives) (k : Config) where
  tree_of :
      (ids : List ℕ) (root : ℕ)
      → Distinct (root ∷ ids)
      → (nodes : List TreeNode) × (make_tree ids 2 root ≡ ok nodes)
        × (traverse_tree nodes root ≡ ok (take 2 (tree_ip ids)))
  tree_of ids root d =
      let (nodes, built, many, at) = make_tree_lem ids 2 root (omega arith) in
      let found =
        traverse_tree_lem ids 2 root 0 root (omega arith) (Distinct-order root ids d) refl in
      (nodes, built, sym (ap (◌>>= λ nodes. traverse_tree nodes root) built) ∙ found)

  module _ (ids : List ℕ) (seq : ℕ) (s : Server) (cert : LogCert) (req : RequestArgs)
      (found : lookup seq s.seq2cert ≡ some cert) (has : cert.req ≡ some req)
      (keys : IsKeyPair p s.node.pri_key s.node.pub_key) where
    duplicate-sends : (r : Server × DuplicateArgs) × (duplicate p k seq s ≡ ok r)
    unfolding duplicate get_cert_or_new cert_at get
    duplicate-sends =
        let msg : DuplicateMsg = record {
          seq = seq;
          digest = cert.digest;
          node_id = s.node.id;
          duplicator_node_id = cert.duplicator;
          tx_num = req.tx_num;
          log_index = 0;
        } in
        let (sign, signed, verified) =
          sign_verify p s.node.pri_key s.node.pub_key (sha256_digest p msg) keys in
        ((s, record { msg = msg; sign = sign; req_args = req }), rw (found, has, signed) refl)

    tree_duplicate-sends :
        Distinct (s.node.id ∷ ids)
        → (r : Server × TreeBroadcastArgs × List ℕ) × (tree_duplicate p k ids seq s ≡ ok r)
          × (r.2 ≡ take 2 (tree_ip ids))
    unfolding tree_duplicate get_cert_or_new cert_at get
    tree_duplicate-sends d =
        let (nodes, built, traversed) = tree_of ids s.node.id d in
        let msg : TreeBroadcastMsg = record {
          tree = nodes;
          seq = seq;
          digest = cert.digest;
          node_id = s.node.id;
          duplicator_node_id = cert.duplicator;
          tx_num = req.tx_num;
        } in
        let digest = sha256_digest p msg in
        let (sign, signed, verified) = sign_verify p s.node.pri_key s.node.pub_key digest keys in
        (
          (
            s,
            record { tree_bc_msgs = msg; req_args = req; digest = digest; sign = sign },
            take 2 (tree_ip ids),
          ),
          rw (found, built, has, signed, traversed) refl,
          refl,
        )

    start_duplicating-sends :
        Distinct (s.node.id ∷ ids)
        → (r : Server × Sent) × (start_duplicating p k ids seq s ≡ ok r)
          × (receivers r.1 ≡ (if k.duplicate_mode == 1 then ids else take 2 (tree_ip ids)))
    unfolding start_duplicating
    start_duplicating-sends d = elim (Bool-cases (k.duplicate_mode == 1)) [
      | inl star ↦
          (let (r, run) = duplicate-sends in
            ((r.0, over_star r.1 ids), rw (star, run) refl, rw star refl))
      | inr tree ↦
          (let (r, run, to) = tree_duplicate-sends d in
            ((r.0, over_tree r.1 r.2), rw (tree, run) refl, rw tree to))
    ]

  -- In any run of the loops and handlers, `PrepareRpc` among them, let a number wait in `seqCh` for
  -- which `PrepareRpc` was not called, the server's keys fit, and Go run over `id2srvCli` in any order,
  -- each peer once. Then the next round of `workLoop` does not panic: it sends the request of the oldest
  -- number that waits, the next in the order of making. In the one mode it sends it to all those in
  -- that order, which are the configured nodes but the server itself, each once; in the other, to the
  -- first two of them in the order of the tree, or as many as there are.
  pub work_round-sends :
      {start : Server} {nodes erased : List ℕ} {w : Worker} (ids : List ℕ)
      → Works p k start nodes erased w
      → w.received < length w.server.seq_ch
      → elem (issued_at start.seq_inc (suc w.received)) erased ≡ false
      → Distinct ids
      → ((id : ℕ) → elem id ids ≡ elem id w.server.peers)
      → IsKeyPair p start.node.pri_key start.node.pub_key
      → (w' : Worker) × (sent : Sent) × (work_round p k ids w ≡ ok w')
        × (w'.received ≡ suc w.received)
        × (w'.sent ≡ w.sent ++ sent ∷ [])
        × (seq_of sent ≡ issued_at start.seq_inc (suc w.received))
        × (receivers sent ≡ (if k.duplicate_mode == 1 then ids else take 2 (tree_ip ids)))
        × ((id : ℕ) → elem id ids ≡ (elem id nodes && not (id == start.node.id)))
  unfolding work_round
  work_round-sends {start} {nodes} {erased} {w} ids works waits kept once same fits =
      let t = Works-IsWorking p k works in
      let (seq, next) = get_elem?-found w.server.seq_ch w.received waits in
      let (below, is_next) =
        get_elem?-issued start.seq_inc t.made w.received seq (rw⁻¹ t.numbers next) in
      let has : has_req (lookup seq w.server.seq2cert) ≡ true =
        rw is_next (t.with_reqs w.received below kept) in
      let (cert, req, found, its_req) = with_req (lookup seq w.server.seq2cert) has in
      let others : (id : ℕ) → elem id ids ≡ (elem id nodes && not (id == start.node.id)) =
        λ id. same id ∙ t.linked id in
      let absent : elem start.node.id ids ≡ false =
        ground (arith, others start.node.id, ==_refl start.node.id) in
      let d : Distinct (w.server.node.id ∷ ids) =
        subst (λ (node : Node). Distinct (node.id ∷ ids)) (sym t.self) (absent, once) in
      let keys : IsKeyPair p w.server.node.pri_key w.server.node.pub_key =
        subst (λ (node : Node). IsKeyPair p node.pri_key node.pub_key) (sym t.self) fits in
      let (r, starts, to) =
        start_duplicating-sends ids seq w.server cert req found its_req keys d in
      let (frame, its_seq) = start_duplicating-IsFrame p k ids seq w.server r starts in
      (
        record w { server = r.0; received = suc w.received; sent = w.sent ++ r.1 ∷ [] },
        r.1,
        rw (next, starts) refl,
        refl,
        refl,
        its_seq ∙ is_next,
        to,
        others,
      )
