-- ===== src/Tests/Tree.antt =====
-- Tests of the broadcast tree, and the theorem about it at a concrete input.
use praft.Prelude.{◌≡◌, refl, [], ◌∷◌, ok, ◌>>=◌, ◌*◌, arith}
use praft.Tree.Sections.{take, drop}
use praft.Tree.Search.{traverse_tree_lem}
use praft.Tree.{tree_ip, make_tree, traverse_tree}
use praft.Tree.Shape.{HasTree, make_tree_lem}

-- Two children each; the busy node comes last.
binary_tree :
    (make_tree (14_804_501 ∷ 12 ∷ 13 ∷ 14 ∷ []) 2 11 >>= λ nodes. traverse_tree nodes 12)
    ≡ ok (14 ∷ 14_804_501 ∷ [])
unfolding make_tree traverse_tree
binary_tree = refl

make_tree_lem_example : HasTree (14_804_501 ∷ 12 ∷ 13 ∷ 14 ∷ []) 2 11
make_tree_lem_example = make_tree_lem (14_804_501 ∷ 12 ∷ 13 ∷ 14 ∷ []) 2 11 (omega arith)

traverse_tree_lem_example :
    (make_tree (14_804_501 ∷ 12 ∷ 13 ∷ 14 ∷ []) 2 11 >>= λ nodes. traverse_tree nodes 12)
    ≡ ok (take 2 (drop (1 * 2) (tree_ip (14_804_501 ∷ 12 ∷ 13 ∷ 14 ∷ []))))
unfolding tree_ip
traverse_tree_lem_example =
    traverse_tree_lem (14_804_501 ∷ 12 ∷ 13 ∷ 14 ∷ []) 2 11 1 12 (omega arith)
      (refl, (refl, (refl, (refl, (refl, tt))))) refl
