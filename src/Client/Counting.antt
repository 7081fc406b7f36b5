-- ===== src/Client/Counting.antt =====
-- What the client counts: requests with enough replies, and tokens in `coch`.
use praft.Prelude.{
  ℕ, zero, suc, ◌+◌, ◌-◌, ◌≤◌, ◌≡◌, refl, sym, ap, ◌∙◌, subst, Bool, false, not, Bool-cases, inl,
  inr, [], ◌∷◌, Option, none, some, Option-cases, ok, >>=-eq-ok, ok-inj, ok-not-panic, Map, lookup,
  insert, lookup-insert, lookup-insert_self, some-inj, if-true, if-false, length-insert,
  Distinct-keys-insert, keys, Distinct, is_some, length, leb, ltb, ◌==◌, if◌then◌else◌, arith,
}
use praft.Util.Slices.{Slice}
use praft.Messages.{ReplyMsg, ReplyArgs}
use praft.Config.{Node, Config}
use praft.Client.{
  Client, CmdCert, new_cmd_cert, get_cmd_cert, take_token, receive_token, count_reply, reply_rpc,
  send_token, note_sent, new_client,
}

-- 1 for a request with replies of more than `f` nodes.
abbrev weight : ℕ → Option CmdCert → ℕ
weight f none = 0
weight f (some cert) = if leb (suc f) (length cert.replys) then 1 else 0

abbrev pub applied : ℕ → Map CmdCert → ℕ
applied f [] = 0
applied f ((seq, cert) ∷ certs) = weight f (some cert) + applied f certs

applied-insert :
    (f seq : ℕ) (cert : CmdCert) (certs : Map CmdCert)
    → applied f (insert seq cert certs) + weight f (lookup seq certs)
      ≡ applied f certs + weight f (some cert)
unfolding insert lookup
applied-insert f seq cert [] = omega arith
applied-insert f seq cert ((j, old) ∷ certs) = elim (Bool-cases (j == seq)) [
  | inl same ↦ rw same (omega arith)
  | inr different ↦ rw different (omega (arith, applied-insert f seq cert certs))
]

-- After `pushed` values were put into `coch`: the client has counted exactly the requests with enough
-- replies, in each of which no node stands twice; every value is in the channel or was taken for one
-- of them; and no more wait than there is room for.
pub record IsCounted (f pushed : ℕ) (c : Client) : Type 0 where
  pub counts : c.apply_count ≡ applied f c.seq2cert
  pub tokens : c.apply_count + c.coch ≡ pushed
  pub room : c.coch ≤ c.num
  pub voters :
      (seq : ℕ) (cert : CmdCert) → lookup seq c.seq2cert ≡ some cert → Distinct (keys cert.replys)

-- What the client and those that call it do, with the number of values put into `coch` so far.
pub data Runs (k : Config) : ℕ → Client → Type 0 where
  launched : (node : Node) (client_num : ℕ) → Runs k 0 (new_client node client_num)
  sent_token : {n : ℕ} {c c' : Client} → Runs k n c → send_token c ≡ ok c' → Runs k (suc n) c'
  got_number :
      {n : ℕ} {c : Client} (now start seq : ℕ) → Runs k n c → Runs k n (note_sent now start seq c)
  got_reply :
      {n : ℕ} {c c' : Client} (now : ℕ) (args : ReplyArgs) (reply : Bool)
      → Runs k n c
      → reply_rpc k now args c ≡ ok (c', reply)
      → Runs k n c'

-- Writing a certificate.
written-IsCounted :
    (f n seq : ℕ) (cert : CmdCert) (c c' : Client)
    → IsCounted f n c
    → Distinct (keys cert.replys)
    → c'.seq2cert ≡ insert seq cert c.seq2cert
    → c.apply_count + weight f (some cert) ≡ c'.apply_count + weight f (lookup seq c.seq2cert)
    → c'.apply_count + c'.coch ≡ c.apply_count + c.coch
    → c'.coch ≤ c.coch
    → c'.num ≡ c.num
    → IsCounted f n c'
written-IsCounted f n seq cert c c' v d stored step kept fewer same = record {
  counts =
      omega (arith, v.counts, step, applied-insert f seq cert c.seq2cert, ap (applied f) stored);
  tokens = kept ∙ v.tokens;
  room = omega (arith, fewer, v.room, same);
  voters = λ j other e.
      (let e' : lookup j (insert seq cert c.seq2cert) ≡ some other =
          ap (lookup j) (sym stored) ∙ e in
        elim (Bool-cases (seq == j)) [
          | inl there ↦
              (let same : cert ≡ other =
                  some-inj
                    (sym (if-true _ _ _ there) ∙ sym (lookup-insert seq j cert c.seq2cert) ∙ e') in
                subst (λ (t : CmdCert). Distinct (keys t.replys)) same d)
          | inr elsewhere ↦
              v.voters j other (ground (arith, lookup-insert seq j cert c.seq2cert, e', elsewhere))
        ]);
}

-- `getCertOrNew` changes no count.
get_cmd_cert_lem :
    (f n now seq : ℕ) (c : Client)
    → IsCounted f n c
    → IsCounted f n (record c { seq2cert = (get_cmd_cert now seq c.seq2cert).0 })
      × (lookup seq (get_cmd_cert now seq c.seq2cert).0 ≡ some (get_cmd_cert now seq c.seq2cert).1)
unfolding get_cmd_cert
get_cmd_cert_lem f n now seq c v = elim (Option-cases (lookup seq c.seq2cert)) [
  | inl absent ↦ rw absent (
    written-IsCounted f n seq (new_cmd_cert now seq) c _ v tt refl (rw absent (ground arith)) refl
        (omega arith) refl,
    lookup-insert_self seq (new_cmd_cert now seq) c.seq2cert,
  )
  | inr (cert, there) ↦ rw there (v, there)
]

note_sent-IsCounted :
    (f n now start seq : ℕ) (c : Client)
    → IsCounted f n c
    → IsCounted f n (note_sent now start seq c)
unfolding note_sent
note_sent-IsCounted f n now start seq c v =
    let (v', there) = get_cmd_cert_lem f n now seq c v in
    let found = (get_cmd_cert now seq c.seq2cert).1 in
    written-IsCounted f n seq (record found { start = start })
      (record c { seq2cert = (get_cmd_cert now seq c.seq2cert).0 }) _ v' (v'.voters seq found there)
      refl (rw there refl) refl (omega arith) refl

take_token_lem :
    (tokens : ℕ) (c c' : Client)
    → take_token tokens c ≡ ok c'
    → (left : ℕ) × (tokens ≡ suc left) × (record c { coch = left } ≡ c')
unfolding take_token
take_token_lem zero c c' e = absurd (ok-not-panic (sym e))
take_token_lem (suc left) c c' e = (left, refl, ok-inj e)

receive_token_lem :
    (c c' : Client)
    → receive_token c ≡ ok c'
    → (left : ℕ) × (c.coch ≡ suc left) × (record c { coch = left } ≡ c')
unfolding receive_token
receive_token_lem c c' e = take_token_lem c.coch c c' e

count_reply-IsCounted :
    (k : Config) (n now : ℕ) (cert : CmdCert) (msg : ReplyMsg) (sign : Slice) (c c' : Client)
    (reply : Bool)
    → IsCounted k.fault_num n c
    → lookup msg.seq c.seq2cert ≡ some cert
    → is_some (lookup msg.node_id cert.replys) ≡ false
    → count_reply k now cert msg sign c ≡ ok (c', reply)
    → IsCounted k.fault_num n c'
unfolding count_reply receive_token
count_reply-IsCounted k n now cert msg sign c c' reply v there fresh e =
    let replys = insert msg.node_id sign cert.replys in
    let longer : length replys ≡ suc (length cert.replys) =
      ground (arith, length-insert msg.node_id sign cert.replys, fresh) in
    let stored : Client = record c {
      seq2cert = insert msg.seq (record cert { replys = replys }) c.seq2cert;
    } in
    let applied_one : Client = record stored {
      apply_count = c.apply_count + 1;
      sum_latency = c.sum_latency + (now - cert.start);
    } in
    let distinct =
      Distinct-keys-insert msg.node_id sign cert.replys (v.voters msg.seq cert there) in
    elim (Bool-cases (length replys == k.fault_num + 1)) [
      | inl enough ↦
          (let (taken, ran, last) = >>=-eq-ok _ _ (sym (if-true _ _ _ enough) ∙ e) in
            let (left, one, same) = receive_token_lem applied_one taken ran in
            subst (IsCounted k.fault_num n) (same ∙ ap (λ (p : Client × Bool). p.0) (ok-inj last)) (
              written-IsCounted k.fault_num n msg.seq (record cert { replys = replys }) c
                (record applied_one { coch = left }) v distinct refl
                (rw there (ground (arith, longer, enough))) (omega (arith, one))
                (omega (arith, one)) refl))
      | inr wait ↦
          subst (IsCounted k.fault_num n)
            (ap (λ (p : Client × Bool). p.0) (ok-inj (sym (if-false _ _ _ wait) ∙ e)))
            (written-IsCounted k.fault_num n msg.seq (record cert { replys = replys }) c stored v
              distinct refl (rw there (ground (arith, longer, wait))) refl (omega arith) refl)
    ]

reply_rpc-IsCounted :
    (k : Config) (n now : ℕ) (args : ReplyArgs) (c c' : Client) (reply : Bool)
    → IsCounted k.fault_num n c
    → reply_rpc k now args c ≡ ok (c', reply)
    → IsCounted k.fault_num n c'
unfolding reply_rpc
reply_rpc-IsCounted k n now args c c' reply v e =
    let (certs, cert) = get_cmd_cert now args.msg.seq c.seq2cert in
    let found : Client = record c { seq2cert = certs } in
    let (v', there) = get_cmd_cert_lem k.fault_num n now args.msg.seq c v in
    elim (Bool-cases (not (args.msg.client_id == c.node.id))) [
      | inl foreign ↦
          subst (IsCounted k.fault_num n)
            (ap (λ (p : Client × Bool). p.0) (ok-inj (sym (if-true _ _ _ foreign) ∙ e))) v
      | inr ours ↦
          (let e' = sym (if-false _ _ _ ours) ∙ e in
            elim (Bool-cases (is_some (lookup args.msg.node_id cert.replys))) [
              | inl again ↦
                  subst (IsCounted k.fault_num n)
                    (ap (λ (p : Client × Bool). p.0) (ok-inj (sym (if-true _ _ _ again) ∙ e'))) v'
              | inr fresh ↦
                  count_reply-IsCounted k n now cert args.msg args.sign found c' reply v' there
                    fresh (sym (if-false _ _ _ fresh) ∙ e')
            ])
    ]

send_token-IsCounted :
    (f n : ℕ) (c c' : Client) → IsCounted f n c → send_token c ≡ ok c' → IsCounted f (suc n) c'
unfolding send_token
send_token-IsCounted f n c c' v e = elim (Bool-cases (ltb c.coch c.num)) [
  | inl free ↦ subst (IsCounted f (suc n)) (ok-inj (sym (if-true _ _ _ free) ∙ e)) (record {
    counts = v.counts;
    tokens = omega (arith, v.tokens);
    room = ground (arith, free);
    voters = v.voters;
  })
  | inr full ↦ absurd (ok-not-panic (sym e ∙ if-false _ _ _ full))
]

-- After any run of requests and replies from a client's start, in whatever order: `applyCount` is the
-- number of requests to which more than `FaultNum` nodes have replied, no node counted twice for
-- one; every value that was put into `coch` still waits there or was taken when a request was
-- applied; and no more wait there than the client has requests under way at once.
pub Runs-IsCounted : (k : Config) {n : ℕ} {c : Client} → Runs k n c → IsCounted k.fault_num n c
unfolding lookup
Runs-IsCounted k (launched node client_num) = record {
  counts = refl;
  tokens = refl;
  room = omega arith;
  voters = λ seq cert e. cc;
}
Runs-IsCounted k (sent_token run e) =
    send_token-IsCounted k.fault_num _ _ _ (Runs-IsCounted k run) e
Runs-IsCounted k (got_number now start seq run) =
    note_sent-IsCounted k.fault_num _ now start seq _ (Runs-IsCounted k run)
Runs-IsCounted k (got_reply now args reply run e) =
    reply_rpc-IsCounted k _ now args _ _ reply (Runs-IsCounted k run) e
