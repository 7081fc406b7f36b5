-- ===== src/Tests/Records.antt =====
-- Tests of slices and block logs.
use praft.Prelude.{◌≡◌, refl, true, false, [], ◌∷◌, some, none}
use praft.Util.Slices.{slice_equal, same_bytes}
use praft.BlockLog.{BlockLog, zero_block_log, check}

-- A nil slice is not an empty one.
nil_not_empty : slice_equal none (some []) ≡ false
unfolding slice_equal same_bytes
nil_not_empty = refl

abbrev confirmed_log : BlockLog
confirmed_log = record zero_block_log { block_index = 3; prepare_confirm_nodes = 12 ∷ 13 ∷ [] }

check_marks_prepared : (check 2 confirmed_log).prepared ≡ true
unfolding check
check_marks_prepared = refl
