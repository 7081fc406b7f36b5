-- ===== src/Server/Blocks/Race.antt =====
-- `Sending` clears the waiting requests after it has given up their mutex (line 557), and reads them
-- twice. These are its sections with another goroutine's step in between.
use praft.Prelude.{◌≡◌, refl, [], ◌∷◌, ◌++◌, some, lookup, lookup-insert_self, suc}
use praft.Messages.{DuplicatedReqUnit, SendingMsg}
use praft.BlockLog.{BlockLog}
use praft.Server.{Server}
use praft.Server.Blocks.{build_block, record_block, clear_reqs}
use praft.Server.Blocks.Primary.{sent}

-- `s.localDuplicatedReqs = append(...)` of `verifyBallot` or of another block's reply.
unfoldable pub add_req : DuplicatedReqUnit → Server → Server
add_req u s = record s { local_duplicated_reqs = s.local_duplicated_reqs ++ u ∷ [] }

-- The request arrives between the second section and the clearing.
unfoldable pub sent_clearing : DuplicatedReqUnit → Server → Server × SendingMsg
unfolding build_block record_block clear_reqs add_req
sent_clearing u s =
    let (s', msg) = build_block s in (clear_reqs (add_req u (record_block msg s')), msg)

-- The request arrives between the two sections that hold the mutex.
unfoldable pub sent_recording : DuplicatedReqUnit → Server → Server × SendingMsg
unfolding build_block record_block clear_reqs add_req
sent_recording u s =
    let (s', msg) = build_block s in (clear_reqs (record_block msg (add_req u s')), msg)

-- A request that another goroutine adds just before the clearing is lost: the message and the state
-- afterwards are those of a `Sending` during which no request came. One that it adds between the two
-- locked sections is in the primary's own log of the block, but not in the message that the backups
-- get, and it waits no longer either. Added after the clearing, it waits for the next block.
pub sending_race :
    (u : DuplicatedReqUnit) (s : Server)
    → (sent_clearing u s ≡ (sent s, (build_block s).1))
      × ((sent_recording u s).1 ≡ (build_block s).1)
      × ((sent_recording u s).0.local_duplicated_reqs ≡ [])
      × ((b : BlockLog) × (lookup
              (suc s.current_block_index)
              (sent_recording u s).0.height2block_log
            ≡ some b)
          × (b.duplicated_reqs ≡ s.local_duplicated_reqs ++ u ∷ []))
      × ((add_req u (sent s)).local_duplicated_reqs ≡ u ∷ [])
unfolding sent_clearing sent_recording sent
sending_race u s = (
  refl,
  refl,
  refl,
  (_, lookup-insert_self (suc s.current_block_index) _ s.height2block_log, refl),
  refl,
)
