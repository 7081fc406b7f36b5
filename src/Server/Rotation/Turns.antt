-- ===== src/Server/Rotation/Turns.antt =====
-- Whose turn it is: the two functions on the rotation agree.
use praft.Prelude.{
  ℕ, zero, suc, ◌+◌, ◌%◌, ◌<◌, ◌≡◌, refl, ap, ◌∙◌, subst, true, false, Bool-cases, inl, inr, List,
  [], ◌∷◌, ◌++◌, Option, none, some, ok, append_assoc, get_elem?, set, length, length-append, elem,
  ltb, ◌==◌, arith,
}
use native.Mathlib.Nat.{mod-lt}
use praft.Config.{Config}
use praft.Server.{Server}
use praft.Server.Rotation.{rotate_from, rotate_proposers, is_among, is_proposer_or_not}

abbrev at_or_zero : Option ℕ → ℕ
at_or_zero none = 0
at_or_zero (some id) = id

-- The peers at `index + i`, `index + i + 1`, ..., so many of them, counted around.
abbrev pub turns : List ℕ → ℕ → ℕ → ℕ → List ℕ
turns peer_ids index i zero = []
turns peer_ids index i (suc left) =
    at_or_zero (get_elem? peer_ids ((index + i) % length peer_ids))
    ∷ turns peer_ids index (suc i) left

get_elem-lt :
    (xs : List ℕ) (i : ℕ) → i < length xs → get_elem? xs i ≡ some (at_or_zero (get_elem? xs i))
get_elem-lt [] i h = absurd (omega (arith, h))
get_elem-lt (x ∷ xs) zero h = refl
get_elem-lt (x ∷ xs) (suc i) h = get_elem-lt xs i (omega (arith, h))

set-append :
    (front back : List ℕ) (x v : ℕ)
    → set (front ++ x ∷ back) (length front) v ≡ (front ++ v ∷ []) ++ back
set-append [] back x v = refl
set-append (y ∷ front) back x v = ap (y ∷◌) (set-append front back x v)

module _ (peer_ids : List ℕ) (some_peer : 0 < length peer_ids) (index : ℕ) where
  rotate_from_lem :
      (back front : List ℕ)
      → rotate_from peer_ids (length peer_ids) index (length front) (length back) (front ++ back)
        ≡ ok (front ++ turns peer_ids index (length front) (length back))
  unfolding rotate_from
  rotate_from_lem [] front = refl
  rotate_from_lem (x ∷ back) front =
      let place = (index + length front) % length peer_ids in
      let id : ℕ = at_or_zero (get_elem? peer_ids place) in
      let here = get_elem-lt peer_ids place (mod-lt (index + length front) some_peer) in
      let room : ltb (length front) (length (front ++ x ∷ back)) ≡ true =
        ground (arith, length-append front (x ∷ back)) in
      let grown : length (front ++ id ∷ []) ≡ suc (length front) =
        omega (arith, length-append front (id ∷ [])) in
      let later : rotate_from peer_ids (length peer_ids) index (suc (length front)) (length back)
            ((front ++ id ∷ []) ++ back)
          ≡ ok ((front ++ id ∷ []) ++ turns peer_ids index (suc (length front)) (length back)) =
        subst
          (λ n.
            rotate_from peer_ids (length peer_ids) index n (length back)
              ((front ++ id ∷ []) ++ back)
            ≡ ok ((front ++ id ∷ []) ++ turns peer_ids index n (length back)))
          grown (rotate_from_lem back (front ++ id ∷ [])) in
      rw (here, room, set-append front back x id)
        (later
          ∙ ap ok (
              append_assoc front (id ∷ [])
                (turns peer_ids index (suc (length front)) (length back))))

  is_among_lem :
      (node_id left i : ℕ)
      → is_among peer_ids (length peer_ids) index node_id i left
        ≡ ok (elem node_id (turns peer_ids index i left))
  unfolding is_among
  is_among_lem node_id zero i = refl
  is_among_lem node_id (suc left) i =
      let place = (index + i) % length peer_ids in
      let here = get_elem-lt peer_ids place (mod-lt (index + i) some_peer) in
      let id : ℕ = at_or_zero (get_elem? peer_ids place) in
      let later = is_among_lem node_id left (suc i) in
      rw here (elim (Bool-cases (id == node_id)) [
        | inl same ↦ rw same (ap ok (ground (arith, same)))
        | inr different ↦ rw different (later ∙ ap ok (ground (arith, different)))
      ])

-- With one process per computer, so that there are as many addresses as peers, and at least one: for as
-- many proposers as the server has, `rotateProposers` does not panic, and puts the peers from the
-- view's number on in their place, counted around; and where the servers rotate, `isProposerOrNot` of
-- the same view is true of a node exactly if it is one of those.
pub rotate_proposers-is_proposer_or_not :
    (k : Config) (view_num node_id : ℕ) (s : Server)
    → 0 < length k.peer_ids
    → length k.peer_ips ≡ length k.peer_ids
    → s.rotate_or_not ≡ true
    → (s' : Server) × (rotate_proposers k view_num (length s.proposers) s ≡ ok s')
      × (s'.proposers ≡ turns k.peer_ids (view_num % length k.peer_ids) 0 (length s.proposers))
      × (is_proposer_or_not k view_num node_id s ≡ ok (elem node_id s'.proposers))
unfolding rotate_proposers is_proposer_or_not
rotate_proposers-is_proposer_or_not k view_num node_id s some_peer one_each rotates =
    let index = view_num % length k.peer_ids in
    let more : (length k.peer_ids == 0) ≡ false = ground (arith, some_peer) in
    (
      record s { proposers = turns k.peer_ids index 0 (length s.proposers) },
      rw (one_each, more, rotate_from_lem k.peer_ids some_peer index s.proposers []) refl,
      refl,
      rw (rotates, more) (is_among_lem k.peer_ids some_peer index node_id (length s.proposers) 0),
    )
