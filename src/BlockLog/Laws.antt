-- ===== src/BlockLog/Laws.antt =====
-- What the methods of zpbft/blocklog.go guarantee.
use praft.Prelude.{
  ℕ, ◌≤◌, ◌≡◌, ◌↔◌, ◌⊎◌, Bool, true, List, [], ◌∷◌, ◌++◌, arith, elem, length, Distinct,
  Distinct-concat, elem-append, Bool-cases, inl, inr, if◌then◌else◌, ap, ◌||◌, ◌==◌,
}
use praft.BlockLog.{BlockLog, set, push_prepare_confirm_nodes, push_commit_confirm_nodes, check}

-- A log becomes prepared (committed) exactly when it was so already or has at least `fault_num`
-- prepare (commit) confirmations, and `check` changes neither the confirmations, nor the requests,
-- nor whether the block has been handed to the executor.
pub check_quorum :
    (f : ℕ) (b : BlockLog)
    → ((check f b).prepared ≡ true ↔ ((b.prepared ≡ true) ⊎ (f ≤ length b.prepare_confirm_nodes)))
      × ((check f b).committed ≡ true
          ↔ ((b.committed ≡ true) ⊎ (f ≤ length b.commit_confirm_nodes)))
      × ((check f b).prepare_confirm_nodes ≡ b.prepare_confirm_nodes)
      × ((check f b).commit_confirm_nodes ≡ b.commit_confirm_nodes)
      × ((check f b).duplicated_reqs ≡ b.duplicated_reqs)
      × ((check f b).executed ≡ b.executed)
unfolding check
check_quorum f b = (
  (λ h. ground arith, λ h. ground arith),
  (λ h. ground arith, λ h. ground arith),
  ground arith,
  ground arith,
  ground arith,
  ground arith,
)

-- A caller that asks `set` to mark a log as prepared, or as committed, does not get the flags that it
-- asked for.
set_loses_flags :
    (b : BlockLog) (i : ℕ) (p c : Bool)
    → (p ≡ true) ⊎ (c ≡ true)
    → ¬ (((set b i p c).prepared ≡ p) × ((set b i p c).committed ≡ c))
unfolding set
set_loses_flags b i p c asked met = ground arith

push_lem :
    (ns : List ℕ) (n j : ℕ)
    → elem j (if elem n ns then ns else ns ++ n ∷ []) ≡ (j == n || elem j ns)
push_lem ns n j = elim (Bool-cases (elem n ns)) [
  | inl old ↦ rw old (ground (arith, ap (λ (i : ℕ). elem i ns)))
  | inr new ↦ rw new (ground (arith, elem-append j ns (n ∷ [])))
]

push-Distinct :
    (ns : List ℕ) (n : ℕ) → Distinct ns → Distinct (if elem n ns then ns else ns ++ n ∷ [])
push-Distinct ns n d = elim (Bool-cases (elem n ns)) [
  | inl old ↦ rw old d
  | inr new ↦ rw new (Distinct-concat ns n d new)
]

-- Pushing the confirmations of a node, prepare or commit, onto distinct ones keeps them distinct, and
-- afterwards the nodes that have confirmed are those that had and this one; the other list and the
-- flags stay.
push_confirm_nodes-Distinct :
    (b : BlockLog) (n : ℕ)
    → Distinct b.prepare_confirm_nodes
    → Distinct b.commit_confirm_nodes
    → Distinct (push_prepare_confirm_nodes b n).prepare_confirm_nodes
      × Distinct (push_commit_confirm_nodes b n).commit_confirm_nodes
      × ((j : ℕ)
          → elem j (push_prepare_confirm_nodes b n).prepare_confirm_nodes
            ≡ (j == n || elem j b.prepare_confirm_nodes))
      × ((j : ℕ)
          → elem j (push_commit_confirm_nodes b n).commit_confirm_nodes
            ≡ (j == n || elem j b.commit_confirm_nodes))
      × ((push_prepare_confirm_nodes b n).commit_confirm_nodes ≡ b.commit_confirm_nodes)
      × ((push_commit_confirm_nodes b n).prepare_confirm_nodes ≡ b.prepare_confirm_nodes)
      × ((push_prepare_confirm_nodes b n).prepared ≡ b.prepared)
      × ((push_commit_confirm_nodes b n).committed ≡ b.committed)
unfolding push_prepare_confirm_nodes push_commit_confirm_nodes
push_confirm_nodes-Distinct b n dp dc = (
  ground (arith, push-Distinct b.prepare_confirm_nodes n dp),
  ground (arith, push-Distinct b.commit_confirm_nodes n dc),
  λ j. ground (arith, push_lem b.prepare_confirm_nodes n j),
  λ j. ground (arith, push_lem b.commit_confirm_nodes n j),
  ground arith,
  ground arith,
  ground arith,
  ground arith,
)
