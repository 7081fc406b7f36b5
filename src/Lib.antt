-- ===== src/Lib.antt =====
-- A verification library for praft: a replicated service in which every server duplicates its own
-- batches of transactions to its peers, one primary orders the duplicated batches into blocks, and
-- every server runs the blocks in height order.
--
-- The parts and how they interact. `main` reads the settings (`InitConfig`), makes the server
-- (`RunServer`) and connects it to the others. A server polls its transaction pool and makes a request
-- (`makeReq`), stores it in a certificate (`LogCert`) and sends its number to `workLoop`, which
-- duplicates it: each peer stores it and confirms (`DuplicateRpc`), and with enough confirmations
-- (`verifyBallot`) the request is reported in `localDuplicatedReqs`. In the other mode the request goes
-- down a tree of the nodes (`treeDuplicate`, `TreeDuplicateRpc`). The primary puts the reported
-- requests into a block (`Sending`); a backup logs the block (`Receiving`), hands the block that the
-- message says is committed to its executor over `execCh`, and gives its own reported requests back
-- in the reply, which the primary counts in the block's log (`BlockLog.check`) and whose requests it
-- takes over. The executor (`execute`) runs the blocks in order over a database (`ExecTxSet`).
--
-- The files:
--   Prelude      lists, maps, integers, Boolean tests, and Go's panics as values (`Result`)
--   Util         zpbft/util.go: `SliceEqual`, `I2Bytes`, `Bytes2I`, `GetId`, `Addr2Id`
--   Messages     the message types of zpbft/cert.go, `txPoolUnit` of zpbft/server.go
--   Files        the calls of `os` and `ioutil`, and what they are taken to do
--   Crypto       zpbft/crypto.go: digests and signatures, and the key files
--   Config       zpbft/config.go, zpbft/node.go: the settings, `InitConfig`, `GetNode`, `GetIndex`
--   BlockLog     zpbft/blocklog.go
--   Cert         zpbft/cert.go: `LogCert` and its methods
--   Server       zpbft/server.go: the state, `getCertOrNew`, and below it
--     Certificates  what `getCertOrNew` does to the table
--     Blocks     `Sending`, the goroutine that takes a reply, `Receiving`
--     Execute    `execute`
--     Requests   `pushTxToPool`, `assignSeq`, `makeReq`
--     Duplicate  `duplicate`, `DuplicateRpc`, the goroutine that takes a confirmation, `verifyBallot`;
--                in Handshake, a request's way from `makeReq` to its report; in Forged, the votes
--                that a signature of another message makes
--     Broadcast  `treeDuplicate`, `TreeDuplicateRpc`, `PrimaryReceiveBackRpc`
--     Phases     `Prepare`, `PrepareRpc`, `Commit`, `CommitRpc`
--     Service    what Blocks, Requests, Duplicate and Broadcast do with the reported requests
--     Cluster    a primary, its backups, and the replies on their way
--     Start      `delayReset`, `RunServer`, `connect`; `main` of zpbft/main.go
--     Loops      `Start`, `workLoop`, `controlSending`, a round at a time
--     Rotation   `rotateProposers`, `isProposerOrNot`
--   Tree         zpbft/tree.go: `makeTree`, `traverseTree`
--   Ycsb         zpbft/ycsb.go: `GenTxSet`, `ExecTxSet`
--   Replication  a request from `makeReq` into a block, and a backup from the blocks to its database
--   Gencerts     gencerts/gencerts.go: the keys of the nodes
--   Client       zpbft/client.go: `connect`, `getCertOrNew`, `ReplyRpc`, the rounds of `sendReq`
--   View         zpbft/view.go
--   Tests        concrete inputs, tests, and the theorems applied to them
--
-- A handler is a function from the server's state and its message to `Result` of the new state and
-- the reply; a panic (a nil pointer, an index out of range, `zlog.Error`), which takes the process down, is a
-- value, as is waiting for a mutex that the goroutine holds itself, which ends only this goroutine. A handler runs as one step, except in
-- Server/Blocks/Race, which takes `Sending` apart, and in `collect_reply`, which ends where `makeReq`
-- starts to poll. What the program does in several goroutines is a sequence of such steps, in
-- whatever order the theorem's relation allows. A channel is the list of what was sent on it. A
-- pointer that some path leaves nil is an `Option`; the pointers in a request's arguments are taken
-- to be set. Heights, times and counts are natural numbers without a bound; an identity from `GetId`
-- and a sequence number are the bit patterns of their int64, and wrap. Maps are association lists in
-- which a key stands once.
--
-- Recursion is structural, but for the executor's inner loop, which runs on fuel: the number of
-- heights that wait, and one more, which a theorem shows to be enough; and for `traverseTree`, whose
-- fuel is two more than the tree's nodes, each of which enters the queue once.
--
-- SHA-256, PEM and RSA are the fields of `Primitives`, making keys those of `KeyMaker`, files those of
-- `Files`, `strings` and `strconv` those of `Text`, LevelDB those of `Store`; gob, `Sprintf`, the
-- clock and random numbers are arguments. What theorems need of them is among their hypotheses. The
-- executor is over any database; Ycsb/Replicas and Replication put `ExecTxSet` in. Go's order of
-- iteration over a map is an argument: the list of the keys.
--
-- Not modelled: the network and the reading of the settings, logs and flags; the capacity of the
-- channels (10000 values), beyond which a sender waits; `calculateTPS`; what later waits for a mutex that such a goroutine keeps; the rates of the workload and
-- other floating-point results; the closing of the client's connections; consistent/, a copy of another project's
-- library; bandwidth/ and zlog/, which are input and output.
pub mod Prelude
pub mod Util
pub mod Messages
pub mod Crypto
pub mod Config
pub mod BlockLog
pub mod Cert
pub mod Server
pub mod Tree
pub mod Tests
pub mod Ycsb
pub mod Replication
pub mod Files
pub mod Gencerts
pub mod Client
pub mod View
