-- ===== src/Segment/Fixed.antt =====
-- `FixedSegment` (include/chunk/segment.h, src/chunk/segment.cc): entries of one size. Its fields
-- are those of `Segment` and `bytes_per_entry_`.
use forkbase.Base.{
  ℕ, ◌+◌, ◌-◌, ◌*◌, ◌/◌, ◌%◌, ◌≤◌, ◌<◌, ◌≡◌, not, Option, none, some, [], Bytes, take, drop, leb,
  ltb, ◌==◌, if◌then◌else◌, arith,
}

pub record FixedSegment : Type 0 where
  pub data' : Bytes
  pub num_bytes : ℕ
  pub bytes_per_entry : ℕ

unfoldable pub num_entries : FixedSegment → ℕ
num_entries s = s.num_bytes / s.bytes_per_entry

unfoldable pub entry : FixedSegment → ℕ → Option Bytes
unfolding num_entries
entry s idx =
    if not (ltb idx (num_entries s)) then none else some (drop (idx * s.bytes_per_entry) s.data')

-- Several entries may be added at once; the new number of entries comes with the segment.
unfoldable pub prolong : FixedSegment → ℕ → Option (FixedSegment × ℕ)
unfolding num_entries
prolong s entry_num_bytes =
    if not (entry_num_bytes % s.bytes_per_entry == 0)
    then none
    else (let s' : FixedSegment = record s { num_bytes = s.num_bytes + entry_num_bytes } in
        some (s', num_entries s'))

unfoldable pub entry_num_bytes : FixedSegment → ℕ → Option ℕ
unfolding num_entries
entry_num_bytes s idx = if not (ltb idx (num_entries s)) then none else some s.bytes_per_entry

unfoldable pub pos_to_idx : FixedSegment → ℕ → Option ℕ
pos_to_idx s pos = if not (leb pos s.num_bytes) then none else some (pos / s.bytes_per_entry)

unfoldable pub split : FixedSegment → ℕ → Option (FixedSegment × FixedSegment)
unfolding num_entries
split s idx =
    if num_entries s == 0
    then none
    else if not (leb idx (num_entries s))
    then none
    else (let pre_seg_bytes = s.bytes_per_entry * idx in
        let post_data = if ltb idx (num_entries s) then drop pre_seg_bytes s.data' else [] in
        some (
          record s { num_bytes = pre_seg_bytes },
          record s { data' = post_data; num_bytes = s.num_bytes - pre_seg_bytes },
        ))

unfoldable pub bytes_of : FixedSegment → Bytes
bytes_of s = take s.num_bytes s.data'

-- A position inside a segment of whole entries lies in the entry that `PosToIdx` names: the entry
-- exists, and the position is less than one entry behind its beginning.
pub pos_to_idx_entry :
    (s : FixedSegment) (pos : ℕ)
    → 0 < s.bytes_per_entry
    → s.num_bytes % s.bytes_per_entry ≡ 0
    → pos < s.num_bytes
    → (idx : ℕ) × (pos_to_idx s pos ≡ some idx)
      × (idx < num_entries s)
      × (idx * s.bytes_per_entry ≤ pos)
      × (pos < (idx + 1) * s.bytes_per_entry)
unfolding pos_to_idx num_entries
pos_to_idx_entry s pos h whole inside =
    (pos / s.bytes_per_entry, ground arith, grind arith, grind arith, grind arith)
