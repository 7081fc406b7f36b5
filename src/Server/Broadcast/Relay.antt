-- ===== src/Server/Broadcast/Relay.antt =====
-- What a node that relays a message over the tree reports to the root.
use praft.Prelude.{
  ℕ, ◌+◌, ◌≡◌, refl, ◌∙◌, true, false, ◌&&◌, List, [], ◌∷◌, ◌++◌, length, length-append, arith,
  ◌==◌, ◌≤◌, ◌<◌, ap, append_assoc, not, Bool-cases, inl, inr, if◌then◌else◌,
}
use praft.Messages.{DuplicateConfirmArgs}
use praft.Server.Broadcast.{gather}

-- What the goroutine that reports to the root is woken to send while these replies come in.
unfoldable pub gather_all :
    ℕ → List DuplicateConfirmArgs → List DuplicateConfirmArgs → List (List DuplicateConfirmArgs)
unfolding gather
gather_all next_num gathered [] = []
gather_all next_num gathered (args ∷ rest) =
    let (all, wakes) = gather next_num gathered args in
    let later = gather_all next_num all rest in if wakes then all ∷ later else later

gather_all_early :
    (next_num : ℕ) (gathered replies : List DuplicateConfirmArgs)
    → length gathered + length replies < next_num
    → gather_all next_num gathered replies ≡ []
unfolding gather_all
gather_all_early next_num gathered [] h = refl
gather_all_early next_num gathered (args ∷ rest) h =
    let longer = length-append gathered (args ∷ []) in
    let sleeps : (length (gathered ++ args ∷ []) == next_num) ≡ false = ground (arith, longer) in
    rw sleeps (gather_all_early next_num (gathered ++ args ∷ []) rest (omega (arith, longer, h)))

gather_all_done :
    (next_num : ℕ) (gathered rest : List DuplicateConfirmArgs) (args : DuplicateConfirmArgs)
    → length gathered + length (args ∷ rest) ≡ next_num
    → gather_all next_num gathered (args ∷ rest) ≡ (gathered ++ args ∷ rest) ∷ []
unfolding gather_all
gather_all_done next_num gathered [] args h =
    let longer = length-append gathered (args ∷ []) in
    let wakes : (length (gathered ++ args ∷ []) == next_num) ≡ true = ground (arith, longer, h) in
    rw wakes refl
gather_all_done next_num gathered (next ∷ rest) args h =
    let longer = length-append gathered (args ∷ []) in
    let sleeps : (length (gathered ++ args ∷ []) == next_num) ≡ false = ground (arith, longer, h) in
    rw sleeps (
      gather_all_done next_num (gathered ++ args ∷ []) rest next (omega (arith, longer, h))
      ∙ ap (λ all. all ∷ []) (append_assoc gathered (args ∷ []) (next ∷ rest)))

-- A node that has relayed the message to `next_num` nodes reports to the root once, with all their
-- confirmations, in the order in which they came; and not while a confirmation is missing. A node
-- that relays to none never reports.
pub gather_all_lem :
    (next_num : ℕ) (replies : List DuplicateConfirmArgs)
    → length replies ≤ next_num
    → gather_all next_num [] replies
      ≡ (if length replies == next_num && not (next_num == 0) then replies ∷ [] else [])
gather_all_lem next_num [] h = unfold gather_all in ground arith
gather_all_lem next_num (args ∷ rest) h = elim (Bool-cases (length (args ∷ rest) == next_num)) [
  | inl all ↦
      (let same : 0 + length (args ∷ rest) ≡ next_num = ground arith in
        let some_next : (next_num == 0) ≡ false = ground arith in
        rw (all, some_next) (gather_all_done next_num [] rest args same))
  | inr more ↦
      (let fewer : 0 + length (args ∷ rest) < next_num = ground (arith, h) in
        rw more (gather_all_early next_num [] (args ∷ rest) fewer))
]
