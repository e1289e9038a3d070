-- ===== src/Fragment/Chunks.antt =====
-- internal/core/fragment.go: the packets and the records that `sendRecords` makes before it sends.
use enimul.Common.{ℕ, ◌+◌, ◌-◌, ◌/◌, none, some, List, [], Bytes, if◌then◌else◌}
use enimul.Common.Int.{ℤ, pos, negsuc, leb_ℤ, sub_ℕ}
use enimul.Outcome.{Outcome, panic, ◌>>=◌}
use enimul.Fragment.{slice?, slice_from?, find_last_dot_or_mid_pos, split_and_append}

-- `leftSegments := segments / 2`, truncated towards 0, and the rest.
abbrev pub left_half : ℤ → ℤ
left_half (pos n) = pos (n / 2)
left_half (negsuc n) = sub_ℕ 0 ((n + 1) / 2)

abbrev pub right_half : ℤ → ℤ
right_half (pos n) = pos (n - n / 2)
right_half (negsuc n) = sub_ℕ ((n + 1) / 2) (n + 1)

-- The packets of the branch `records == 1`. `make([][]byte, 0, segments)` panics if it is negative.
unfoldable pub make_packets : ℤ → Bytes → ℤ → ℕ → Outcome (List Bytes)
unfolding find_last_dot_or_mid_pos split_and_append
make_packets segments hello offset len =
    if leb_ℤ (pos 0) segments
    then (do
      cut ← find_last_dot_or_mid_pos hello offset len
      left ← slice? hello 0 cut
      packets ← split_and_append left none (left_half segments) []
      right ← slice_from? hello cut
      split_and_append right none (right_half segments) packets)
    else panic

-- The records of the branch `records != 1`.
unfoldable pub make_chunks : ℕ → Bytes → ℤ → ℕ → Outcome (List Bytes)
unfolding find_last_dot_or_mid_pos split_and_append
make_chunks records hello offset len = do
  cut ← find_last_dot_or_mid_pos hello offset len
  header ← slice? hello 0 3
  left ← slice? hello 5 cut
  chunks ← split_and_append left (some header) (pos (records / 2)) []
  right ← slice_from? hello cut
  split_and_append right (some header) (pos (records - records / 2)) chunks
