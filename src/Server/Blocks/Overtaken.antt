-- ===== src/Server/Blocks/Overtaken.antt =====
-- A commit signal that overtakes its block at a backup. `Sending` starts a goroutine for every block
-- and every peer, so nothing orders the two messages.
use praft.Prelude.{ℕ, ◌≡◌, ◌∙◌, ◌≢◌, true, false, List, [], ◌∷◌, none, some, lookup, arith, elem}
use praft.Messages.{SendingMsg}
use praft.BlockLog.{BlockLog, zero_block_log}
use praft.Server.{Server}
use praft.Server.Blocks.Backup.{deliver, deliver_all}
use praft.Server.Blocks.Signals.{IsSignalled, deliver_all-IsSignalled}
use praft.Server.Blocks.Delivery.{log_after, lookup-deliver_there, lookup-deliver_absent}

-- No message carries the commit signal of this height.
abbrev pub NoCommitOf : ℕ → List SendingMsg → Type 0
NoCommitOf h [] = Unit {0}
NoCommitOf h (m ∷ ms) = (m.commit_block_index ≢ h) × NoCommitOf h ms

-- A log that is committed and prepared, empty, and not handed over.
pub record IsStuck (h : ℕ) (s : Server) : Type 0 where
  pub log : BlockLog
  pub there : lookup h s.height2block_log ≡ some log
  pub prepared : log.prepared ≡ true
  pub committed : log.committed ≡ true
  pub requests : log.duplicated_reqs ≡ []
  pub waiting : log.executed ≡ false

deliver-IsStuck :
    (h : ℕ) (m : SendingMsg) (s : Server)
    → m.commit_block_index ≢ h
    → IsStuck h s
    → IsStuck h (deliver m s)
deliver-IsStuck h m s c a = record {
  log = log_after m h a.log;
  there = lookup-deliver_there m s h a.log a.there;
  prepared = ground (arith, a.prepared);
  committed = ground (arith, a.committed);
  requests = ground (arith, a.requests);
  waiting = ground (arith, a.waiting);
}

deliver_all-IsStuck :
    (h : ℕ) (ms : List SendingMsg) (s : Server)
    → NoCommitOf h ms
    → IsStuck h s
    → IsStuck h (deliver_all ms s)
unfolding deliver_all
deliver_all-IsStuck h [] s n a = a
deliver_all-IsStuck h (m ∷ ms) s n a =
    deliver_all-IsStuck h ms (deliver m s) n.1 (deliver-IsStuck h m s n.0 a)

module _ (h : ℕ) (s : Server) (next late : SendingMsg) where
  overtaken-IsStuck :
      lookup h s.height2block_log ≡ none
      → next.commit_block_index ≡ h
      → next.block.block_index ≢ h
      → late.block.block_index ≡ h
      → late.commit_block_index ≢ h
      → IsStuck h (deliver late (deliver next s))
  overtaken-IsStuck absent nc ni li lc =
      let committed_first : BlockLog = record zero_block_log {
        block_index = h;
        prepared = false;
        committed = true;
      } in
      record {
        log = log_after late h committed_first;
        there =
            lookup-deliver_there late (deliver next s) h committed_first
              (lookup-deliver_absent next s h absent nc ni);
        prepared = ground arith;
        committed = ground arith;
        requests = ground arith;
        waiting = ground arith;
      }

  -- If the message that carries the commit signal of height `h` arrives before the message with
  -- block `h`, the backup's log of `h` ends up prepared and committed but without any request, and
  -- the block is never handed to the executor, whatever arrives later without another commit signal
  -- of `h` (and only one message carries it).
  pub overtaken_block_stalls :
      IsSignalled s
      → lookup h s.height2block_log ≡ none
      → next.commit_block_index ≡ h
      → next.block.block_index ≢ h
      → late.block.block_index ≡ h
      → late.commit_block_index ≢ h
      → (ms : List SendingMsg) → NoCommitOf h ms
      → IsStuck h (deliver_all (next ∷ late ∷ ms) s)
        × (elem h (deliver_all (next ∷ late ∷ ms) s).exec_ch ≡ false)
  unfolding deliver_all
  overtaken_block_stalls v absent nc ni li lc ms n =
      let stuck : IsStuck h (deliver_all ms (deliver late (deliver next s))) =
        deliver_all-IsStuck h ms _ n (overtaken-IsStuck absent nc ni li lc) in
      (
        stuck,
        (deliver_all-IsSignalled (next ∷ late ∷ ms) s v).sent h
            ∙ ground (arith, stuck.there, stuck.waiting),
      )
