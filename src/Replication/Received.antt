-- ===== src/Replication/Received.antt =====
-- The logs of a backup while consecutive blocks come in: what the executor finds in them.
use praft.Prelude.{
  ℕ, zero, suc, Map, ◌+◌, ◌≤◌, ◌<◌, ◌≡◌, refl, sym, ap, ◌∙◌, true, false, ◌&&◌, inl, inr, List, [],
  ◌∷◌, ◌++◌, some, arith, lookup, elem, range, length, ◌==◌, if◌then◌else◌, Bool-cases, subst,
}
use praft.Messages.{SendingMsg, DuplicatedReqUnit}
use praft.BlockLog.{BlockLog}
use praft.Server.{Server}
use praft.Server.Blocks.Backup.{deliver_all}
use praft.Server.Blocks.Signals.{was_executed, IsSignalled, deliver_all-IsSignalled}
use praft.Server.Blocks.Delivery.{IsAt, InOrder, Holds, HoldsAll, deliver_all-InOrder}

-- The requests of the block at this height, among these messages.
abbrev pub block_at : List SendingMsg → ℕ → List DuplicatedReqUnit
block_at [] height = []
block_at (m ∷ ms) height =
    if m.block.block_index == height then m.block.duplicated_reqs else block_at ms height

InOrder-append :
    (height : ℕ) (front back : List SendingMsg)
    → InOrder height (front ++ back)
    → InOrder height front
InOrder-append height [] back o = tt
InOrder-append height (m ∷ front) back (i, c, o) = (i, c, InOrder-append (suc height) front back o)

block_at-append :
    (height h : ℕ) (front back : List SendingMsg)
    → InOrder height (front ++ back)
    → height < h
    → h ≤ height + length front
    → block_at (front ++ back) h ≡ block_at front h
block_at-append height h [] back o above below = absurd (omega arith)
block_at-append height h (m ∷ front) back (i, c, o) above below =
    elim (Bool-cases (m.block.block_index == h)) [
      | inl here ↦ rw here refl
      | inr later ↦
          rw later (block_at-append (suc height) h front back o (ground arith) (omega arith))
    ]

HoldsAll-at :
    (height h : ℕ) (ms : List SendingMsg) (s : Server)
    → InOrder height ms
    → HoldsAll ms s
    → height < h
    → h ≤ height + length ms
    → Holds h (block_at ms h) s
HoldsAll-at height h [] s o all above below = absurd (omega arith)
HoldsAll-at height h (m ∷ ms) s (i, c, o) all above below =
    elim (Bool-cases (m.block.block_index == h)) [
      | inl here ↦
          (let same : m.block.block_index ≡ h = ground (arith, here) in
            rw here (subst (λ j. Holds j m.block.duplicated_reqs s) same all.0))
      | inr later ↦ rw later (HoldsAll-at (suc height) h ms s o all.1 (ground arith) (omega arith))
    ]

elem-range : (h from n : ℕ) → elem h (range from n) ≡ true → (from ≤ h) × (h < from + n)
elem-range h from zero e = cc
elem-range h from (suc n) e = elim (Bool-cases (h == from)) [
  | inl here ↦ ground arith
  | inr later ↦ ground (arith, elem-range h (suc from) n)
]

-- A backup as it starts: a log at height 0 that is never prepared, and nothing handed over.
pub record IsFresh (s : Server) : Type 0 where
  pub zero_log : BlockLog
  pub at_zero : IsAt 0 zero_log s
  pub unprepared : zero_log.prepared ≡ false
  pub none_sent : s.exec_ch ≡ []
  pub signalled : IsSignalled s

-- A log that the executor can run, but for the requests' being here, with these requests.
pub record IsAgreed (h : ℕ) (reqs : List DuplicatedReqUnit) (logs : Map BlockLog) : Type 0 where
  pub log : BlockLog
  pub there : lookup h logs ≡ some log
  pub ready : (log.prepared && log.committed) ≡ true
  pub same_reqs : log.duplicated_reqs ≡ reqs

Holds-IsAgreed :
    (h : ℕ) (reqs : List DuplicatedReqUnit) (s : Server)
    → IsSignalled s
    → elem h s.exec_ch ≡ true
    → Holds h reqs s
    → IsAgreed h reqs s.height2block_log
Holds-IsAgreed h reqs s v sent holds =
    let executed : was_executed (some holds.log) ≡ true =
      ap was_executed (sym holds.there) ∙ sym (v.sent h) ∙ sent in
    let sound = v.sound h holds.log holds.there in
    record {
      log = holds.log;
      there = holds.there;
      ready = ground (arith, sound.agreed_prepared executed, sound.agreed_committed executed);
      same_reqs = holds.requests;
    }

-- While consecutive blocks come in, every height that has been handed over has a log that is prepared
-- and committed and holds the requests of its message.
pub handed-IsAgreed :
    (s : Server) (front back : List SendingMsg) (h : ℕ)
    → IsFresh s
    → InOrder 0 (front ++ back)
    → elem h (deliver_all front s).exec_ch ≡ true
    → IsAgreed h (block_at (front ++ back) h) (deliver_all front s).height2block_log
unfolding deliver_all
handed-IsAgreed s [] back h fresh o sent =
    let none_sent : elem h s.exec_ch ≡ false = rw fresh.none_sent refl in
    absurd (ground (arith, sent, none_sent))
handed-IsAgreed s (m ∷ ms) back h fresh o sent =
    let front_order = InOrder-append 0 (m ∷ ms) back o in
    let (chan, held) =
      deliver_all-InOrder s fresh.zero_log fresh.at_zero fresh.unprepared m ms front_order in
    let in_range : elem h (range 1 (length ms)) ≡ true =
      ap (elem h) (sym (chan ∙ ap (λ hs. hs ++ range 1 (length ms)) fresh.none_sent)) ∙ sent in
    let (above, below) = elem-range h 1 (length ms) in_range in
    let holds =
      HoldsAll-at 0 h (m ∷ ms) (deliver_all (m ∷ ms) s) front_order held (omega arith)
        (omega arith) in
    let same = block_at-append 0 h (m ∷ ms) back o (omega arith) (omega arith) in
    Holds-IsAgreed h (block_at (m ∷ (ms ++ back)) h) (deliver_all (m ∷ ms) s)
      (deliver_all-IsSignalled (m ∷ ms) s fresh.signalled) sent
      (subst (λ reqs. Holds h reqs (deliver_all (m ∷ ms) s)) (sym same) holds)
