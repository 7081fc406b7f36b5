-- ===== src/Tests/Views.antt =====
-- A test of the views.
use praft.Prelude.{◌≡◌, refl, [], lookup, insert}
use praft.View.{LocalView, get_view, refresh_current_stable_view_height}

-- View 0 has no instances, and is compared with none.
abbrev local_view : LocalView
unfolding get_view refresh_current_stable_view_height
local_view =
    (refresh_current_stable_view_height 0
      (get_view 5 0 (record { views = []; current_stable_view_height = 0 })).0).0

not_advanced : local_view.current_stable_view_height ≡ 0
unfolding local_view get_view refresh_current_stable_view_height lookup insert
not_advanced = refl
