-- ===== src/Server/Duplicate/Handshake/Enough.antt =====
-- The calls of all peers: the votes add up until the request is reported.
use praft.Prelude.{
  ℕ, suc, zero, ◌+◌, ◌≡◌, refl, sym, ap, subst, ◌∙◌, Bool, true, false, not, List, [], ◌∷◌, ◌++◌,
  append-nil, some, none, ok, arith, Map, lookup, insert, length, elem, Distinct, leb,
  if◌then◌else◌, Bool-cases, inl, inr, lookup-insert, lookup-insert_self, length-insert,
}
use praft.Util.Slices.{Slice}
use praft.Messages.{RequestArgs, DuplicatedReqUnit, DuplicateArgs, DuplicateConfirmArgs}
use praft.Crypto.{Primitives, sha256_digest, rsa_sign_with_sha256}
use praft.Config.{Config}
use praft.Cert.{LogCert, duplicated_stage, push_duplicate_confirm}
use praft.Server.{Server}
use praft.Server.Duplicate.{is_initial, duplicate_rpc, collect_reply, unit_of_request}
use praft.Server.Duplicate.Report.{counted, reported}
use praft.Server.Duplicate.Handshake.{Exchange, call_peers}
use praft.Server.Duplicate.Handshake.Answer.{IsMember, IsPending, Holds, IsAccepted, answer_lem}
use praft.Server.Duplicate.Handshake.Taken.{taken_young, taken_old}

abbrev pub ids : List Server → List ℕ
ids [] = []
ids (s ∷ servers) = s.node.id ∷ ids servers

-- Every peer is a member of the cluster that has not committed the number.
abbrev pub AreReady : Primitives → Config → ℕ → List Server → Type 0
AreReady p k seq [] = Unit {0}
AreReady p k seq (peer ∷ rest) = IsMember p k peer × IsPending seq peer × AreReady p k seq rest

-- The same peers, which now hold the request.
abbrev pub AllHold : ℕ → RequestArgs → Slice → List Server → List Server → Type 0
AllHold seq req digest [] [] = Unit {0}
AllHold seq req digest [] (peer' ∷ rest') = ⊥
AllHold seq req digest (peer ∷ rest) [] = ⊥
AllHold seq req digest (peer ∷ rest) (peer' ∷ rest') =
    (peer'.node ≡ peer.node) × Holds seq req digest peer' × AllHold seq req digest rest rest'

-- `n` votes are there and `more` come: whether one of these reports the request.
abbrev pub is_enough : ℕ → ℕ → ℕ → Bool
is_enough fault_num n zero = false
is_enough fault_num n (suc more) = leb fault_num (n + suc more)

abbrev pub AllFresh : Map DuplicateConfirmArgs → List Server → Type 0
AllFresh m [] = Unit {0}
AllFresh m (peer ∷ rest) = (lookup peer.node.id m ≡ none) × AllFresh m rest

AllFresh-insert :
    (id : ℕ) (reply : DuplicateConfirmArgs) (m : Map DuplicateConfirmArgs) (peers : List Server)
    → elem id (ids peers) ≡ false
    → AllFresh m peers
    → AllFresh (insert id reply m) peers
AllFresh-insert id reply m [] other fresh = tt
AllFresh-insert id reply m (peer ∷ rest) other fresh = (
  ground (arith, lookup-insert id peer.node.id reply m),
  AllFresh-insert id reply m rest (ground arith) fresh.1,
)

is_enough-step :
    (fault_num n more : ℕ)
    → leb fault_num (suc n) ≡ false
    → is_enough fault_num (suc n) more ≡ is_enough fault_num n (suc more)
is_enough-step fault_num n zero few = ground arith
is_enough-step fault_num n (suc more) few = ground arith

-- What the calls have done to the server `s`, where `enough` tells that they report
-- the request, and `left` that its certificate is out of the first stage at the end.
pub record HasCalled (p : Primitives) (k : Config) (now : ℕ) (args : DuplicateArgs)
    (peers : List Server) (s : Server) (given : DuplicatedReqUnit) (enough left : Bool)
    : Type 0 where
  pub after : Exchange
  pub run : call_peers p k now args peers s ≡ ok after
  pub reports :
      after.maker.local_duplicated_reqs
      ≡ s.local_duplicated_reqs ++ (if enough then given ∷ [] else [])
  pub asks : after.asked ≡ (if enough then 1 else 0)
  pub same_node : after.maker.node ≡ s.node
  pub cert : LogCert
  pub found : lookup args.msg.seq after.maker.seq2cert ≡ some cert
  pub stage : is_initial cert.stage ≡ not left
  pub held :
      AllHold args.msg.seq args.req_args (sha256_digest p args.req_args.req) peers after.peers

module _ (p : Primitives) (k : Config) (now : ℕ) (args : DuplicateArgs) where
  call_next :
      (peer peer' s s1 : Server) (rest : List Server) (reply : DuplicateConfirmArgs) (more : Bool)
      (e : Exchange)
      → duplicate_rpc p k args peer ≡ ok (peer', reply)
      → collect_reply p k now args.msg.seq reply s ≡ ok (s1, more)
      → call_peers p k now args rest s1 ≡ ok e
      → call_peers p k now args (peer ∷ rest) s
        ≡ ok (record {
          maker = e.maker;
          peers = peer' ∷ e.peers;
          asked = if more then suc e.asked else e.asked;
        })
  unfolding call_peers
  call_next peer peer' s s1 rest reply more e called taken others = rw (called, taken, others) refl

  module _ (accepted : IsAccepted p k args) (given : DuplicatedReqUnit) where
    call_old :
        (peers : List Server) (s : Server) (cert : LogCert)
        → AreReady p k args.msg.seq peers
        → lookup args.msg.seq s.seq2cert ≡ some cert
        → is_initial cert.stage ≡ false
        → HasCalled p k now args peers s given false true
    unfolding call_peers
    call_old [] s cert ready e old = record {
      after = record { maker = s; peers = []; asked = 0 };
      run = refl;
      reports = sym (append-nil s.local_duplicated_reqs);
      asks = refl;
      same_node = refl;
      cert = cert;
      found = e;
      stage = old;
      held = tt;
    }
    call_old (peer ∷ rest) s cert ready e old =
        let (peer', reply, called, good, holds, same) =
          answer_lem p k args peer accepted ready.0 ready.1 in
        let queued = push_duplicate_confirm cert reply in
        let others =
          call_old rest (record s { seq2cert = insert args.msg.seq queued s.seq2cert }) queued
            ready.2 (lookup-insert_self args.msg.seq queued s.seq2cert) old in
        record {
          after = record others.after { peers = peer' ∷ others.after.peers };
          run =
              call_next peer peer' s _ rest reply false others.after called
                (taken_old p k now args.msg.seq reply cert s e old) others.run;
          reports = others.reports;
          asks = others.asks;
          same_node = others.same_node;
          cert = others.cert;
          found = others.found;
          stage = others.stage;
          held = (same, holds, others.held);
        }

    module _ (base : LogCert) (sign : Slice) (young : is_initial base.stage ≡ true)
        (has : base.req ≡ some args.req_args)
        (its_digest : base.digest ≡ sha256_digest p args.req_args.req) where
      pub call_young :
          (peers : List Server) (s : Server) (m : Map DuplicateConfirmArgs)
          → AreReady p k args.msg.seq peers
          → Distinct (ids peers)
          → AllFresh m peers
          → lookup args.msg.seq s.seq2cert ≡ some (counted m base)
          → rsa_sign_with_sha256 p base.digest s.node.pri_key ≡ ok sign
          → unit_of_request base args.req_args sign s ≡ given
          → HasCalled p k now args peers s given
              (is_enough k.fault_num (length m) (length peers))
              (is_enough k.fault_num (length m) (length peers))
      unfolding call_peers
      call_young [] s m ready d fresh e signed unit = record {
        after = record { maker = s; peers = []; asked = 0 };
        run = refl;
        reports = sym (append-nil s.local_duplicated_reqs);
        asks = refl;
        same_node = refl;
        cert = counted m base;
        found = e;
        stage = young;
        held = tt;
      }
      call_young (peer ∷ rest) s m ready d fresh e signed unit =
          let (peer', reply, called, good, holds, same) =
            answer_lem p k args peer accepted ready.0 ready.1 in
          let m1 = insert peer.node.id reply m in
          let grown : length m1 ≡ suc (length m) =
            length-insert peer.node.id reply m ∙ rw fresh.0 refl in
          let taken =
            taken_young p k now args.msg.seq base s reply peer.node.id m args.req_args sign e young
              has signed (rw its_digest good) fresh.0 in
          elim (Bool-cases (leb k.fault_num (length m1))) [
            | inl enough ↦
                (let all : true ≡ leb k.fault_num (length m + suc (length rest)) =
                    ground (arith, grown, enough) in
                  let s1 = reported now args.msg.seq args.req_args sign m1 base s in
                  let left = record (counted m1 base) {
                    stage = duplicated_stage;
                    complete_time = now;
                  } in
                  let others =
                    call_old rest s1 left ready.2 (lookup-insert_self args.msg.seq left s.seq2cert)
                      refl in
                  subst (λ b. HasCalled p k now args (peer ∷ rest) s given b b) all
                    (record {
                      after = record others.after {
                        peers = peer' ∷ others.after.peers;
                        asked = suc others.after.asked;
                      };
                      run =
                          call_next peer peer' s s1 rest reply true others.after called
                            (taken ∙ rw enough refl) others.run;
                      reports =
                          others.reports
                          ∙ append-nil (
                              s.local_duplicated_reqs
                              ++ unit_of_request base args.req_args sign s ∷ [])
                          ∙ ap (λ u. s.local_duplicated_reqs ++ u ∷ []) unit;
                      asks = ap suc others.asks;
                      same_node = others.same_node;
                      cert = others.cert;
                      found = others.found;
                      stage = others.stage;
                      held = (same, holds, others.held);
                    }))
            | inr few ↦
                (let s1 = record s {
                  seq2cert = insert args.msg.seq (counted m1 base) s.seq2cert;
                } in
                  let others =
                    call_young rest s1 m1 ready.2 d.1
                      (AllFresh-insert peer.node.id reply m rest d.0 fresh.1)
                      (lookup-insert_self args.msg.seq (counted m1 base) s.seq2cert) signed unit in
                  let same_test : is_enough k.fault_num (length m1) (length rest)
                      ≡ is_enough k.fault_num (length m) (suc (length rest)) =
                    ap (λ n. is_enough k.fault_num n (length rest)) grown
                    ∙ is_enough-step k.fault_num (length m) (length rest) (rw⁻¹ grown few) in
                  subst (λ b. HasCalled p k now args (peer ∷ rest) s given b b) same_test
                    (record {
                      after = record others.after { peers = peer' ∷ others.after.peers };
                      run =
                          call_next peer peer' s s1 rest reply false others.after called
                            (taken ∙ rw few refl) others.run;
                      reports = others.reports;
                      asks = others.asks;
                      same_node = others.same_node;
                      cert = others.cert;
                      found = others.found;
                      stage = others.stage;
                      held = (same, holds, others.held);
                    }))
          ]
