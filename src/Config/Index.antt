-- ===== src/Config/Index.antt =====
-- `GetIndex` of zpbft/config.go.
use praft.Prelude.{
  ℕ, zero, suc, ◌+◌, ◌≡◌, ◌↔◌, refl, sym, ap, ◌∙◌, subst, true, false, List, [], ◌∷◌, some, ℤ, pos,
  negsuc, get_elem?, elem, Distinct, ◌==◌, if◌then◌else◌, arith, ◌⊎◌, Bool-cases, inl, inr,
}
use praft.Config.{Config}

-- The loop over `PeerIds`, from index `idx` on.
index_from : List ℕ → ℕ → ℕ → ℤ
index_from [] node_id idx = negsuc 0
index_from (id ∷ ids) node_id idx =
    let rest = index_from ids node_id (suc idx) in if node_id == id then pos idx else rest

-- `GetIndex`
unfoldable pub get_index : Config → ℕ → ℤ
unfolding index_from
get_index k node_id = index_from k.peer_ids node_id 0

get_elem-elem : (ids : List ℕ) (i a : ℕ) → get_elem? ids i ≡ some a → elem a ids ≡ true
get_elem-elem [] i a e = absurd (ground arith)
get_elem-elem (id ∷ ids) zero a e = ground arith
get_elem-elem (id ∷ ids) (suc i) a e = ground (arith, get_elem-elem ids i a e)

index_from-get_elem :
    (ids : List ℕ) (node_id i idx : ℕ)
    → Distinct ids
    → get_elem? ids i ≡ some node_id
    → index_from ids node_id idx ≡ pos (idx + i)
unfolding index_from
index_from-get_elem [] node_id i idx d e = absurd (ground arith)
index_from-get_elem (id ∷ ids) node_id zero idx d e = ground arith
index_from-get_elem (id ∷ ids) node_id (suc i) idx (fresh, d) e =
    let later = index_from-get_elem ids node_id i (suc idx) d e in
    let different : (node_id == id) ≡ false =
      ground (arith, get_elem-elem ids i node_id e, fresh) in
    let next : suc idx + i ≡ idx + suc i = omega arith in rw different (later ∙ ap pos next)

-- An index that the loop returns is where the identity stands; there is none exactly if it returns -1.
index_from-cases :
    (ids : List ℕ) (node_id idx : ℕ)
    → ((i : ℕ) × (index_from ids node_id idx ≡ pos (idx + i)) × (get_elem? ids i ≡ some node_id))
      ⊎ ((index_from ids node_id idx ≡ negsuc 0) × (elem node_id ids ≡ false))
unfolding index_from
index_from-cases [] node_id idx = inr (refl, refl)
index_from-cases (id ∷ ids) node_id idx = elim (Bool-cases (node_id == id)) [
  | inl same ↦ inl (0, rw same (ap pos (omega arith)), ground arith)
  | inr different ↦ elim (index_from-cases ids node_id (suc idx)) [
    | inl (i, e, at) ↦
        (let next : suc idx + i ≡ idx + suc i = omega arith in
          inl (suc i, rw different (e ∙ ap pos next), at))
    | inr (e, missing) ↦ inr (rw different e, ground arith)
  ]
]

pos-inj : {m n : ℕ} → pos m ≡ pos n → m ≡ n
pos-inj e = cc

pos-not-negsuc : {m n : ℕ} → pos m ≡ negsuc n → ⊥
pos-not-negsuc e = cc

true-not-false : true ≡ false → ⊥
true-not-false e = cc

-- If no two peers share an identity, `GetIndex` gives index `i` exactly for the peer that stands there,
-- and -1 exactly for an identity that no peer has.
get_index_iff :
    (k : Config) (node_id i : ℕ)
    → Distinct k.peer_ids
    → ((get_index k node_id ≡ pos i) ↔ (get_elem? k.peer_ids i ≡ some node_id))
      × ((get_index k node_id ≡ negsuc 0) ↔ (elem node_id k.peer_ids ≡ false))
unfolding get_index
get_index_iff k node_id i d =
    let plain : (n : ℕ) → 0 + n ≡ n = λ n. omega arith in
    let there = λ (at : get_elem? k.peer_ids i ≡ some node_id).
      index_from-get_elem k.peer_ids node_id i 0 d at ∙ ap pos (plain i) in
    elim (index_from-cases k.peer_ids node_id 0) [
      | inl (j, e, at) ↦ (
        (
          λ same.
              subst (λ n. get_elem? k.peer_ids n ≡ some node_id)
                (sym (plain j) ∙ pos-inj (sym e ∙ same)) at,
          there,
        ),
        (
          λ none_there. absurd (pos-not-negsuc (sym e ∙ none_there)),
          λ missing.
              absurd (true-not-false (sym (get_elem-elem k.peer_ids j node_id at) ∙ missing)),
        ),
      )
      | inr (e, missing) ↦ (
        (λ same. absurd (pos-not-negsuc (sym same ∙ e)), there),
        (λ none_there. missing, λ same. e),
      )
    ]
