-- ===== src/Server/Cluster.antt =====
-- A primary and its backups, with the replies that are on their way to the primary. Which blocks a
-- backup receives is left open.
use praft.Prelude.{
  ℕ, zero, suc, ◌+◌, ◌≤◌, ◌≡◌, refl, ap, List, [], ◌∷◌, ◌++◌, Option, none, some, some-inj, subst,
  ok, get_elem?, set, lookup, arith,
}
use praft.Messages.{DuplicatedReqUnit, SendingArgs, SendingReturnMsg, SendingReturnArgs}
use praft.Crypto.{Primitives}
use praft.Config.{Config}
use praft.BlockLog.{BlockLog}
use praft.Server.{Server}
use praft.Server.Blocks.{sending, receiving, sending_reply}
use praft.Server.Duplicate.Tally.{times, reports, times-append}
use praft.Server.Duplicate.Once.{Duplicating}
use praft.Server.Service.{
  given_in, joined, taken_from, Serves, launched, duplicated_step, sent_block, received_block,
  took_reply, Serves-IsBalanced,
}

-- A backup, with the requests in its replies so far.
pub record Backup : Type 0 where
  pub server : Server
  pub given : List DuplicatedReqUnit

-- `blocks` are the requests in the blocks that the primary has sent, `joins` those that it has taken from
-- replies.
pub record Cluster : Type 0 where
  pub primary : Server
  pub blocks : List DuplicatedReqUnit
  pub joins : List DuplicatedReqUnit
  pub backups : List Backup
  pub flying : List SendingReturnArgs

abbrev pub AreFresh : List Backup → Type 0
AreFresh [] = Unit {0}
AreFresh (b ∷ backups) =
    (b.server.seq2cert ≡ [])
    × (b.server.local_duplicated_reqs ≡ [])
    × (b.given ≡ [])
    × AreFresh backups

module _ (p : Primitives) (k : Config) where
  -- What can happen, in any order. A reply is taken once.
  pub data Runs : Cluster → Type 0 where
    booted :
        (primary : Server) (backups : List Backup)
        → primary.seq2cert ≡ []
        → primary.local_duplicated_reqs ≡ []
        → AreFresh backups
        → Runs
            (record { primary = primary; blocks = []; joins = []; backups = backups; flying = [] })
    primary_duplicates :
        {c : Cluster} {s' : Server}
        → Runs c
        → Duplicating p k c.primary s'
        → Runs (record c { primary = s' })
    backup_duplicates :
        {c : Cluster} {s' : Server} (i : ℕ) (b : Backup)
        → Runs c
        → get_elem? c.backups i ≡ some b
        → Duplicating p k b.server s'
        → Runs (record c { backups = set c.backups i (record b { server = s' }) })
    primary_sends :
        {c : Cluster} {s' : Server} (args : SendingArgs)
        → Runs c
        → sending p c.primary ≡ ok (s', args)
        → Runs (record c { primary = s'; blocks = c.blocks ++ args.msg.block.duplicated_reqs })
    backup_receives :
        {c : Cluster} {s' : Server} (i : ℕ) (b : Backup) (args : SendingArgs)
        (reply : SendingReturnArgs)
        → Runs c
        → get_elem? c.backups i ≡ some b
        → receiving p k args b.server ≡ ok (s', reply)
        → Runs (record c {
          backups = set c.backups i (record { server = s'; given = b.given ++ given_in reply.msg });
          flying = reply ∷ c.flying;
        })
    primary_takes :
        {c : Cluster} {s' : Server} (reply : SendingReturnArgs)
        (front back : List SendingReturnArgs)
        → Runs c
        → c.flying ≡ front ++ reply ∷ back
        → sending_reply k reply c.primary ≡ ok s'
        → Runs (record c {
          primary = s';
          joins = c.joins ++ taken_from reply.msg c.primary;
          flying = front ++ back;
        })

-- Sums over the backups and the replies.
abbrev given_times : ℕ → List Backup → ℕ
given_times j [] = 0
given_times j (b ∷ backups) = times j b.given + given_times j backups

abbrev flying_times : ℕ → List SendingReturnArgs → ℕ
flying_times j [] = 0
flying_times j (reply ∷ flying) = times j (given_in reply.msg) + flying_times j flying

-- How many of the backups have reported a request of this number.
abbrev pub backups_reports : ℕ → List Backup → ℕ
backups_reports j [] = 0
backups_reports j (b ∷ backups) = reports (lookup j b.server.seq2cert) + backups_reports j backups

flying_times-append :
    (j : ℕ) (front back : List SendingReturnArgs)
    → flying_times j (front ++ back) ≡ flying_times j front + flying_times j back
flying_times-append j [] back = omega arith
flying_times-append j (reply ∷ front) back = omega (arith, flying_times-append j front back)

given_times-set :
    (j : ℕ) (backups : List Backup) (i : ℕ) (b b' : Backup)
    → get_elem? backups i ≡ some b
    → given_times j (set backups i b') + times j b.given ≡ given_times j backups + times j b'.given
given_times-set j [] i b b' e = cc
given_times-set j (b0 ∷ backups) zero b b' e =
    let same = ap (λ (t : Backup). times j t.given) (some-inj e) in omega (arith, same)
given_times-set j (b0 ∷ backups) (suc i) b b' e = omega (arith, given_times-set j backups i b b' e)

-- The primary takes no more from a reply than it brings.
taken_le :
    (j : ℕ) (msg : Option SendingReturnMsg) (s : Server)
    → times j (taken_from msg s) ≤ times j (given_in msg)
taken_le j none s = omega arith
taken_le j (some msg) s =
    joined_le (lookup msg.prepare_block_index s.height2block_log)
      (lookup msg.committed_block_index s.height2block_log)
  where
    joined_le : (b c : Option BlockLog) → times j (joined b c msg) ≤ times j msg.new_duplicated_reqs
    joined_le none c = omega arith
    joined_le (some b) none = omega arith
    joined_le (some b) (some c) = omega arith

module _ (p : Primitives) (k : Config) where
  abbrev AllServe : List Backup → Type 0
  AllServe [] = Unit {0}
  AllServe (b ∷ backups) = Serves p k b.given [] b.server × AllServe backups

  AllServe-get :
      (backups : List Backup) (i : ℕ) (b : Backup)
      → AllServe backups
      → get_elem? backups i ≡ some b
      → Serves p k b.given [] b.server
  AllServe-get [] i b h e = cc
  AllServe-get (b0 ∷ backups) zero b (first, h) e =
      subst (λ (t : Backup). Serves p k t.given [] t.server) (some-inj e) first
  AllServe-get (b0 ∷ backups) (suc i) b (first, h) e = AllServe-get backups i b h e

  AllServe-set :
      (backups : List Backup) (i : ℕ) (b : Backup)
      → AllServe backups
      → Serves p k b.given [] b.server
      → AllServe (set backups i b)
  AllServe-set [] i b h new = tt
  AllServe-set (b0 ∷ backups) zero b (first, h) new = (new, h)
  AllServe-set (b0 ∷ backups) (suc i) b (first, h) new = (first, AllServe-set backups i b h new)

  fresh-AllServe :
      (backups : List Backup)
      → AreFresh backups
      → AllServe backups × ((j : ℕ) → given_times j backups ≡ 0)
  fresh-AllServe [] h = (tt, λ j. refl)
  fresh-AllServe (b ∷ backups) (nil, none_yet, empty, h) =
      let (serve, zero_given) = fresh-AllServe backups h in
      (
        (rw empty (launched b.server nil none_yet), serve),
        λ j. rw empty (omega (arith, zero_given j)),
      )

  record IsRunning (c : Cluster) : Type 0 where
    primary_serves : Serves p k c.blocks c.joins c.primary
    backups_serve : AllServe c.backups
    conserved : (j : ℕ) → times j c.joins + flying_times j c.flying ≤ given_times j c.backups

  Runs-IsRunning : {c : Cluster} → Runs p k c → IsRunning c
  Runs-IsRunning (booted primary backups nil none_yet fresh) =
      let (serve, zero_given) = fresh-AllServe backups fresh in
      record {
        primary_serves = launched primary nil none_yet;
        backups_serve = serve;
        conserved = λ j. omega arith;
      }
  Runs-IsRunning (primary_duplicates run step) =
      let r = Runs-IsRunning run in
      record {
        primary_serves = duplicated_step r.primary_serves step;
        backups_serve = r.backups_serve;
        conserved = r.conserved;
      }
  Runs-IsRunning (backup_duplicates {c} {s'} i b run at step) =
      let r = Runs-IsRunning run in
      let new = duplicated_step (AllServe-get c.backups i b r.backups_serve at) step in
      record {
        primary_serves = r.primary_serves;
        backups_serve = AllServe-set c.backups i (record b { server = s' }) r.backups_serve new;
        conserved = λ j.
            omega
              (arith, r.conserved j, given_times-set j c.backups i b (record b { server = s' }) at);
      }
  Runs-IsRunning (primary_sends args run e) =
      let r = Runs-IsRunning run in
      record {
        primary_serves = sent_block args r.primary_serves e;
        backups_serve = r.backups_serve;
        conserved = r.conserved;
      }
  Runs-IsRunning (backup_receives {c} {s'} i b args reply run at e) =
      let r = Runs-IsRunning run in
      let b' : Backup = record { server = s'; given = b.given ++ given_in reply.msg } in
      let new = received_block args reply (AllServe-get c.backups i b r.backups_serve at) e in
      record {
        primary_serves = r.primary_serves;
        backups_serve = AllServe-set c.backups i b' r.backups_serve new;
        conserved = λ j. omega (
          arith,
          r.conserved j,
          given_times-set j c.backups i b b' at,
          times-append j b.given (given_in reply.msg),
        );
      }
  Runs-IsRunning (primary_takes {c} {s'} reply front back run split e) =
      let r = Runs-IsRunning run in
      record {
        primary_serves = took_reply reply r.primary_serves e;
        backups_serve = r.backups_serve;
        conserved = λ j. omega (
          arith,
          r.conserved j,
          ap (flying_times j) split,
          flying_times-append j front (reply ∷ back),
          flying_times-append j front back,
          times-append j c.joins (taken_from reply.msg c.primary),
          taken_le j reply.msg c.primary,
        );
      }

  given_le :
      (j : ℕ) (backups : List Backup)
      → AllServe backups
      → given_times j backups ≤ backups_reports j backups
  given_le j [] h = omega arith
  given_le j (b ∷ backups) (first, h) =
      let balance = (Serves-IsBalanced p k first).balanced j in
      omega (
        arith,
        given_le j backups h,
        balance,
        times-append j b.given b.server.local_duplicated_reqs,
      )

  -- However a primary and its backups duplicate requests, send and receive blocks and replies, from a start
  -- without certificates and requests: a number stands in the blocks that the primary has sent at
  -- most as often as there are servers that have reported it. So a request that only one server
  -- reports is in at most one block, and there once.
  pub Runs-blocks_once :
      {c : Cluster} (j : ℕ)
      → Runs p k c
      → times j c.blocks ≤ reports (lookup j c.primary.seq2cert) + backups_reports j c.backups
  Runs-blocks_once {c = c} j run =
      let r = Runs-IsRunning run in
      let balance = (Serves-IsBalanced p k r.primary_serves).balanced j in
      omega (
        arith,
        balance,
        r.conserved j,
        given_le j c.backups r.backups_serve,
        times-append j c.blocks c.primary.local_duplicated_reqs,
      )
