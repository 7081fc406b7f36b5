-- ===== src/View.antt =====
-- zpbft/view.go: the table of views. The times are arguments.
pub mod Stable
use praft.Prelude.{
  ℕ, zero, suc, ◌-◌, Bool, true, false, List, [], ◌∷◌, Option, none, some, Map, lookup, insert,
  length, ◌==◌, if◌then◌else◌,
}

pub record View : Type 0 where
  pub committed_instance : Map Bool
  pub committed_or_not : Bool
  pub view_num : ℕ
  pub start_time : ℕ

pub record LocalView : Type 0 where
  pub views : Map View
  pub current_stable_view_height : ℕ

-- `View{}`, which the map gives for a number that it does not have.
abbrev pub zero_view : View
zero_view = record {
  committed_instance = [];
  committed_or_not = false;
  view_num = 0;
  start_time = 0;
}

abbrev pub view_at : Option View → View
view_at none = zero_view
view_at (some view) = view

-- `refreshViewCommittedOrNot`, on the view that the pointer points to.
unfoldable pub refresh_view_committed_or_not : ℕ → View → View
refresh_view_committed_or_not instance_num view =
    if length view.committed_instance == instance_num
    then record view { committed_or_not = true }
    else view

abbrev pub new_view : ℕ → ℕ → View
new_view now view_num = record {
  committed_instance = [];
  committed_or_not = false;
  view_num = view_num;
  start_time = now;
}

view_or_new : Option View → ℕ → ℕ → LocalView → LocalView × View
view_or_new (some view) now view_num local = (local, view)
view_or_new none now view_num local =
    let view = new_view now view_num in
    (record local { views = insert view_num view local.views }, view)

-- `getView`
unfoldable pub get_view : ℕ → ℕ → LocalView → LocalView × View
unfolding view_or_new
get_view now view_num local = view_or_new (lookup view_num local.views) now view_num local

-- One round of the loop: what `refreshViewCommittedOrNot` changes is the variable `view`, a copy.
unfoldable pub refresh_at : ℕ → ℕ → LocalView → LocalView × View
unfolding refresh_view_committed_or_not
refresh_at instance_num i local =
    let view = refresh_view_committed_or_not instance_num (view_at (lookup i local.views)) in
    if (view_at (lookup i local.views)).committed_or_not
    then (record local { current_stable_view_height = suc local.current_stable_view_height }, view)
    else (local, view)

-- The rounds from `i` on.
unfoldable pub refresh_from : ℕ → ℕ → ℕ → LocalView → LocalView
unfolding refresh_at
refresh_from instance_num i zero local = local
refresh_from instance_num i (suc left) local =
    refresh_from instance_num (suc i) left (refresh_at instance_num i local).0

-- `refreshCurrentStableViewHeight`
unfoldable pub refresh_current_stable_view_height : ℕ → LocalView → LocalView × Bool
unfolding refresh_from
refresh_current_stable_view_height instance_num local =
    let from = local.current_stable_view_height in
    (refresh_from instance_num from (length local.views - from) local, true)
