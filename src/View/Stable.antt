-- ===== src/View/Stable.antt =====
-- The height of the table of views.
use praft.Prelude.{
  ℕ, zero, suc, ◌-◌, ◌≡◌, refl, sym, subst, false, inl, inr, [], Option-cases, lookup, insert,
  lookup-insert, length, arith,
}
use praft.View.{
  LocalView, new_view, view_at, get_view, refresh_at, refresh_from,
  refresh_current_stable_view_height,
}

-- The table at the start, and whatever `getView` and `refreshCurrentStableViewHeight` make of it.
pub data Uses : LocalView → Type 0 where
  created : Uses (record { views = []; current_stable_view_height = 0 })
  got : {local : LocalView} (now view_num : ℕ) → Uses local → Uses (get_view now view_num local).0
  refreshed :
      {local : LocalView} (instance_num : ℕ)
      → Uses local
      → Uses (refresh_current_stable_view_height instance_num local).0

pub record IsUnstable (local : LocalView) : Type 0 where
  pub height : local.current_stable_view_height ≡ 0
  pub views : (i : ℕ) → (view_at (lookup i local.views)).committed_or_not ≡ false

refresh_from_unstable :
    (instance_num i left : ℕ) (local : LocalView)
    → IsUnstable local
    → refresh_from instance_num i left local ≡ local
unfolding refresh_from refresh_at
refresh_from_unstable instance_num i zero local v = refl
refresh_from_unstable instance_num i (suc left) local v =
    rw (v.views i) (refresh_from_unstable instance_num (suc i) left local v)

get_view-IsUnstable :
    (now view_num : ℕ) (local : LocalView)
    → IsUnstable local
    → IsUnstable (get_view now view_num local).0
unfolding get_view
get_view-IsUnstable now view_num local v = elim (Option-cases (lookup view_num local.views)) [
  | inl absent ↦
      (let next : IsUnstable
            (record local { views = insert view_num (new_view now view_num) local.views }) =
          record {
            height = v.height;
            views = λ i.
                ground
                  (arith, lookup-insert view_num i (new_view now view_num) local.views, v.views i);
          } in
        rw absent next)
  | inr (view, there) ↦ rw there v
]

refresh-IsUnstable :
    (instance_num : ℕ) (local : LocalView)
    → IsUnstable local
    → IsUnstable (refresh_current_stable_view_height instance_num local).0
unfolding refresh_current_stable_view_height
refresh-IsUnstable instance_num local v =
    let from = local.current_stable_view_height in
    subst IsUnstable
      (sym (refresh_from_unstable instance_num from (length local.views - from) local v)) v

-- However the table is used from its start on, no view is ever committed and the height of stable views
-- stays 0, whatever the numbers of instances that the views are compared with.
pub Uses-IsUnstable : {local : LocalView} → Uses local → IsUnstable local
unfolding lookup
Uses-IsUnstable created = record { height = refl; views = λ i. refl }
Uses-IsUnstable (got now view_num uses) = get_view-IsUnstable now view_num _ (Uses-IsUnstable uses)
Uses-IsUnstable (refreshed instance_num uses) =
    refresh-IsUnstable instance_num _ (Uses-IsUnstable uses)
