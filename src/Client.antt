-- ===== src/Client.antt =====
-- zpbft/client.go: the client's table of certificates, `ReplyRpc`, and the steps of `sendReq`. Times are in
-- milliseconds; the line of results is left out. `coch` is the number of values that wait in the
-- channel of this name, which has room for `num`.
pub mod Counting
pub mod Sending
pub mod Connected
use praft.Prelude.{
  ℕ, zero, suc, ◌+◌, ◌-◌, Bool, true, false, not, List, [], ◌∷◌, Option, none, some, Result, ok,
  panic, ◌>>=◌, or_panic, nil_dereference, blocked, Map, lookup, insert, is_some, length, ltb, ◌==◌,
  if◌then◌else◌,
}
use praft.Util.Slices.{Slice}
use praft.Messages.{ReplyMsg, ReplyArgs}
use praft.Config.{Node, Config}

pub record CmdCert : Type 0 where
  pub seq : ℕ
  pub digest : Slice
  pub start : ℕ
  pub replys : Map Slice

pub record Client : Type 0 where
  pub node : Node
  pub apply_count : ℕ
  pub start : ℕ
  pub seq2cert : Map CmdCert
  pub sum_latency : ℕ
  pub coch : ℕ
  pub num : ℕ

abbrev pub new_cmd_cert : ℕ → ℕ → CmdCert
new_cmd_cert now seq = record { seq = seq; digest = none; start = now; replys = [] }

cmd_cert_at : Option CmdCert → ℕ → ℕ → Map CmdCert → Map CmdCert × CmdCert
cmd_cert_at (some cert) now seq certs = (certs, cert)
cmd_cert_at none now seq certs = (insert seq (new_cmd_cert now seq) certs, new_cmd_cert now seq)

-- `getCertOrNew`, on the map `seq2cert`.
unfoldable pub get_cmd_cert : ℕ → ℕ → Map CmdCert → Map CmdCert × CmdCert
unfolding cmd_cert_at
get_cmd_cert now seq certs = cmd_cert_at (lookup seq certs) now seq certs

-- Takes a value from the channel, of so many.
unfoldable pub take_token : ℕ → Client → Result Client
take_token zero c = panic blocked
take_token (suc left) c = ok (record c { coch = left })

-- `<-c.coch`
unfoldable pub receive_token : Client → Result Client
unfolding take_token
receive_token c = take_token c.coch c

-- Lines 69 to 89: the reply of a node that has not replied yet. The certificate is in the table.
unfoldable pub count_reply :
    Config → ℕ → CmdCert → ReplyMsg → Slice → Client → Result (Client × Bool)
unfolding receive_token
count_reply k now cert msg sign c =
    let replys = insert msg.node_id sign cert.replys in
    let counted = record c {
      seq2cert = insert msg.seq (record cert { replys = replys }) c.seq2cert;
    } in
    let received = receive_token (record counted {
      apply_count = c.apply_count + 1;
      sum_latency = c.sum_latency + (now - cert.start);
    }) in
    if length replys == k.fault_num + 1
    then (received >>= λ done. ok (done, true))
    else ok (counted, false)

-- `ReplyRpc`
unfoldable pub reply_rpc : Config → ℕ → ReplyArgs → Client → Result (Client × Bool)
unfolding get_cmd_cert count_reply
reply_rpc k now args c =
    let msg = args.msg in
    let (certs, cert) = get_cmd_cert now msg.seq c.seq2cert in
    let found = record c { seq2cert = certs } in
    if not (msg.client_id == c.node.id)
    then ok (c, false)
    else (if is_some (lookup msg.node_id cert.replys)
        then ok (found, false)
        else count_reply k now cert msg args.sign found)

-- `c.coch <- i`: it waits while the channel is full.
unfoldable pub send_token : Client → Result Client
send_token c = if ltb c.coch c.num then ok (record c { coch = c.coch + 1 }) else panic blocked

-- Lines 158 to 162: the server has given the request this number.
unfoldable pub note_sent : ℕ → ℕ → ℕ → Client → Client
unfolding get_cmd_cert
note_sent now start seq c =
    let (certs, cert) = get_cmd_cert now seq c.seq2cert in
    record c { seq2cert = insert seq (record cert { start = start }) certs }

-- The literal of `RunClient`.
abbrev pub new_client : Node → ℕ → Client
new_client node client_num = record {
  node = node;
  apply_count = 0;
  start = 0;
  seq2cert = [];
  sum_latency = 0;
  coch = 0;
  num = client_num;
}
