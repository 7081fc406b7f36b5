-- ===== src/Server/Blocks/Delivery.antt =====
-- What the order of delivery does at a backup: in order every block reaches the executor; a commit
-- signal that overtakes its block keeps the block from it.
use praft.Prelude.{
  ℕ, suc, ◌<◌, ◌≡◌, refl, sym, ◌∙◌, ap, ◌≢◌, inl, inr, true, false, List, [], ◌∷◌, ◌++◌, Option,
  none, some, lookup, arith, range, length, lookup-insert, Option-cases, ◌==◌, append_assoc,
  append-nil, if◌then◌else◌,
}
use praft.Messages.{SendingMsg, DuplicatedReqUnit}
use praft.BlockLog.{BlockLog, zero_block_log}
use praft.Server.{Server}
use praft.Server.Blocks.{prepare_at, is_ready, note_prepared, note_committed}
use praft.Server.Blocks.Backup.{deliver, deliver_all}

-- The log of a height after its commit signal, and what the signal sends to the executor.
abbrev pub committed_log : ℕ → Option BlockLog → BlockLog
committed_log h none = record zero_block_log { block_index = h; prepared = false; committed = true }
committed_log h (some b) =
    if is_ready (record b { committed = true })
    then record b { committed = true; executed = true }
    else record b { committed = true }

abbrev pub handed_over : Option BlockLog → List ℕ
handed_over none = []
handed_over (some b) = if is_ready (record b { committed = true }) then b.block_index ∷ [] else []

lookup-note_prepared :
    (m : SendingMsg) (s : Server) (j : ℕ)
    → lookup j (note_prepared m s).height2block_log ≡ (
        if m.block.block_index == j
        then some (prepare_at (lookup m.block.block_index s.height2block_log) m)
        else lookup j s.height2block_log)
unfolding note_prepared
lookup-note_prepared m s j = lookup-insert m.block.block_index j _ s.height2block_log

lookup-note_committed :
    (h : ℕ) (s : Server) (j : ℕ)
    → lookup j (note_committed h s).height2block_log ≡ (
        if h == j
        then some (committed_log h (lookup h s.height2block_log))
        else lookup j s.height2block_log)
unfolding note_committed
lookup-note_committed h s j = elim (Option-cases (lookup h s.height2block_log)) [
  | inl absent ↦ rw absent (lookup-insert h j _ s.height2block_log)
  | inr (b, there) ↦ rw there (
      ground (
        arith,
        lookup-insert h j (record b { committed = true; executed = true }) s.height2block_log,
        lookup-insert h j (record b { committed = true }) s.height2block_log,
      ))
]

exec_ch-note_committed :
    (h : ℕ) (s : Server)
    → (note_committed h s).exec_ch ≡ s.exec_ch ++ handed_over (lookup h s.height2block_log)
unfolding note_committed
exec_ch-note_committed h s = elim (Option-cases (lookup h s.height2block_log)) [
  | inl absent ↦ rw absent (sym (append-nil s.exec_ch))
  | inr (b, there) ↦ rw there (ground (arith, append-nil s.exec_ch))
]

module _ (m : SendingMsg) (s : Server) where
  lookup-deliver :
      (j : ℕ)
      → lookup j (deliver m s).height2block_log ≡ (
          if m.commit_block_index == j
          then some (
              committed_log m.commit_block_index
                (lookup m.commit_block_index (note_prepared m s).height2block_log))
          else lookup j (note_prepared m s).height2block_log)
  unfolding deliver
  lookup-deliver j = lookup-note_committed m.commit_block_index (note_prepared m s) j

  exec_ch-deliver :
      (deliver m s).exec_ch
      ≡ s.exec_ch ++ handed_over (lookup m.commit_block_index (note_prepared m s).height2block_log)
  unfolding deliver
  exec_ch-deliver =
      exec_ch-note_committed m.commit_block_index (note_prepared m s)
      ∙ (unfold note_prepared in refl)

-- The newest block here is that of `height`, whose log is `top`.
pub record IsAt (height : ℕ) (top : BlockLog) (s : Server) : Type 0 where
  pub there : lookup height s.height2block_log ≡ some top
  pub keyed : top.block_index ≡ height
  pub waiting : top.executed ≡ false
  pub above : (h : ℕ) → height < h → lookup h s.height2block_log ≡ none

-- The messages of consecutive blocks, in order: the first brings block `height + 1`.
abbrev pub InOrder : ℕ → List SendingMsg → Type 0
InOrder height [] = Unit {0}
InOrder height (m ∷ ms) =
    (m.block.block_index ≡ suc height) × (m.commit_block_index ≡ height) × InOrder (suc height) ms

module _ (height : ℕ) (top : BlockLog) (m : SendingMsg) (s : Server) (a : IsAt height top s)
    (i : m.block.block_index ≡ suc height) (c : m.commit_block_index ≡ height) where
  deliver_next-IsAt : IsAt (suc height) (prepare_at none m) (deliver m s)
  unfolding prepare_at
  deliver_next-IsAt = record {
    there = ground (
      arith,
      lookup-deliver m s (suc height),
      lookup-note_prepared m s (suc height),
      a.above (suc height),
    );
    keyed = i;
    waiting = refl;
    above = λ h lt. ground (arith, lookup-deliver m s h, lookup-note_prepared m s h, a.above h);
  }

  exec_ch-deliver_next :
      (deliver m s).exec_ch ≡ s.exec_ch ++ (if top.prepared then height ∷ [] else [])
  exec_ch-deliver_next =
      exec_ch-deliver m s
      ∙ ground (arith, lookup-note_prepared m s m.commit_block_index, a.there, a.keyed, a.waiting)

-- What a message makes of a log that is already there.
abbrev pub log_after : SendingMsg → ℕ → BlockLog → BlockLog
log_after m j b =
    let b' = if m.block.block_index == j then record b { prepared = true } else b in
    if m.commit_block_index == j then committed_log j (some b') else b'

pub lookup-deliver_there :
    (m : SendingMsg) (s : Server) (j : ℕ) (b : BlockLog)
    → lookup j s.height2block_log ≡ some b
    → lookup j (deliver m s).height2block_log ≡ some (log_after m j b)
unfolding prepare_at
lookup-deliver_there m s j b e = ground (
  arith,
  lookup-deliver m s j,
  lookup-note_prepared m s j,
  lookup-note_prepared m s m.commit_block_index,
)

-- The log at this height holds these requests and is prepared.
pub record Holds (j : ℕ) (reqs : List DuplicatedReqUnit) (s : Server) : Type 0 where
  pub log : BlockLog
  pub there : lookup j s.height2block_log ≡ some log
  pub requests : log.duplicated_reqs ≡ reqs
  pub prepared : log.prepared ≡ true

deliver-Holds :
    (m : SendingMsg) (s : Server) (j : ℕ) (reqs : List DuplicatedReqUnit)
    → Holds j reqs s
    → Holds j reqs (deliver m s)
deliver-Holds m s j reqs a = record {
  log = log_after m j a.log;
  there = lookup-deliver_there m s j a.log a.there;
  requests = ground (arith, a.requests);
  prepared = ground (arith, a.prepared);
}

-- Once a height has a prepared log, no later message changes that log's requests.
pub deliver_all-Holds :
    (ms : List SendingMsg) (s : Server) (j : ℕ) (reqs : List DuplicatedReqUnit)
    → Holds j reqs s
    → Holds j reqs (deliver_all ms s)
unfolding deliver_all
deliver_all-Holds [] s j reqs a = a
deliver_all-Holds (m ∷ ms) s j reqs a =
    deliver_all-Holds ms (deliver m s) j reqs (deliver-Holds m s j reqs a)

-- Every message's block is held here, with the requests that the message carried.
abbrev pub HoldsAll : List SendingMsg → Server → Type 0
HoldsAll [] s = Unit {0}
HoldsAll (m ∷ ms) s = Holds m.block.block_index m.block.duplicated_reqs s × HoldsAll ms s

held_next :
    (height : ℕ) (m : SendingMsg) (s : Server)
    → IsAt height (prepare_at none m) s
    → m.block.block_index ≡ height
    → Holds m.block.block_index m.block.duplicated_reqs s
unfolding prepare_at
held_next height m s a i = record {
  log = prepare_at none m;
  there = ap (λ j. lookup j s.height2block_log) i ∙ a.there;
  requests = refl;
  prepared = refl;
}

-- From a prepared newest block on, consecutive blocks hand over every block but the last.
deliver_all_prepared :
    (height : ℕ) (top : BlockLog) (ms : List SendingMsg) (s : Server)
    → IsAt height top s
    → top.prepared ≡ true
    → InOrder height ms
    → ((deliver_all ms s).exec_ch ≡ s.exec_ch ++ range height (length ms))
      × HoldsAll ms (deliver_all ms s)
unfolding deliver_all
deliver_all_prepared height top [] s a pr o = (sym (append-nil s.exec_ch), tt)
deliver_all_prepared height top (m ∷ ms) s a pr (i, c, o) =
    let next : IsAt (suc height) (prepare_at none m) (deliver m s) =
      deliver_next-IsAt height top m s a i c in
    let (chan, held) =
      deliver_all_prepared (suc height) _ ms (deliver m s) next (unfold prepare_at in refl) o in
    (
      chan
          ∙ rw (exec_ch-deliver_next height top m s a i c, pr)
              (append_assoc s.exec_ch (height ∷ []) _),
      (
        deliver_all-Holds ms (deliver m s) _ _ (held_next (suc height) m (deliver m s) next i),
        held,
      ),
    )

module _ (s : Server) (zero_log : BlockLog) (a : IsAt 0 zero_log s)
    (fresh : zero_log.prepared ≡ false) where
  -- A backup starts with a log at height 0 that is never prepared. Messages of consecutive blocks
  -- from block 1 on, delivered in order, hand the executor every block but the last, once and in
  -- height order, and every block is held with the requests that its message carried.
  pub deliver_all-InOrder :
      (m : SendingMsg) (ms : List SendingMsg)
      → InOrder 0 (m ∷ ms)
      → ((deliver_all (m ∷ ms) s).exec_ch ≡ s.exec_ch ++ range 1 (length ms))
        × HoldsAll (m ∷ ms) (deliver_all (m ∷ ms) s)
  unfolding deliver_all
  deliver_all-InOrder m ms (i, c, o) =
      let next : IsAt 1 (prepare_at none m) (deliver m s) =
        deliver_next-IsAt 0 zero_log m s a i c in
      let (chan, held) =
        deliver_all_prepared 1 _ ms (deliver m s) next (unfold prepare_at in refl) o in
      (
        chan ∙ rw (exec_ch-deliver_next 0 zero_log m s a i c, fresh) (rw (append-nil s.exec_ch)),
        (deliver_all-Holds ms (deliver m s) _ _ (held_next 1 m (deliver m s) next i), held),
      )

pub lookup-deliver_absent :
    (m : SendingMsg) (s : Server) (h : ℕ)
    → lookup h s.height2block_log ≡ none
    → m.commit_block_index ≡ h
    → m.block.block_index ≢ h
    → lookup h (deliver m s).height2block_log
      ≡ some (record zero_block_log { block_index = h; prepared = false; committed = true })
lookup-deliver_absent m s h e c i =
    ground (arith, lookup-deliver m s h, lookup-note_prepared m s m.commit_block_index)
