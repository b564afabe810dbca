-- ===== src/Segment.antt =====
-- `Segment` and `VarSegment` (include/chunk/segment.h, src/chunk/segment.cc): runs
-- of entries in memory. `data` is the memory from the segment's pointer on, which may go on after
-- the segment; the pointer of an entry is the memory from the entry on. `none` is a failed `CHECK`.
pub mod Entries
pub mod Split
pub mod Fixed
use forkbase.Base.{
  ℕ, suc, ◌+◌, ◌-◌, ◌*◌, ◌/◌, ◌%◌, ◌^◌, Bool, true, false, not, Option, none, some, List, [], ◌∷◌,
  ◌++◌, map, Bytes, length, take, drop, get_elem?, leb, ltb, ◌==◌, if◌then◌else◌,
}

pub record VarSegment : Type 0 where
  pub data' : Bytes
  pub num_bytes : ℕ
  pub entry_offsets : List ℕ

-- `AppendForChunk`: the bytes that are copied into a chunk.
unfoldable pub append_for_chunk : VarSegment → Bytes
append_for_chunk s = take s.num_bytes s.data'

abbrev pub num_entries : VarSegment → ℕ
num_entries s = length s.entry_offsets

-- `entry_offsets_[idx]`, read after a bounds check.
abbrev pub offset_at : VarSegment → ℕ → Option ℕ
offset_at s idx = get_elem? s.entry_offsets idx

unfoldable pub entry : VarSegment → ℕ → Option Bytes
entry s idx = elim (offset_at s idx) [ none ↦ none | some offset ↦ some (drop offset s.data') ]

-- The new entry begins where the segment ended.
unfoldable pub prolong : VarSegment → ℕ → VarSegment
prolong s entry_num_bytes = record s {
  num_bytes = s.num_bytes + entry_num_bytes;
  entry_offsets = s.entry_offsets ++ s.num_bytes ∷ [];
}

unfoldable pub entry_num_bytes : VarSegment → ℕ → Option ℕ
entry_num_bytes s idx = elim (offset_at s idx) [
  | none ↦ none
  | some offset ↦ elim (offset_at s (suc idx)) [
    | none ↦ some (s.num_bytes - offset)
    | some next ↦ some (next - offset)
  ]
]

-- The number of elements of a sorted sequence that are at most `pos`.
unfoldable pub upper_bound : List ℕ → ℕ → ℕ
upper_bound [] pos = 0
upper_bound (o ∷ os) pos = let rest = upper_bound os pos in if leb o pos then suc rest else 0

-- One is taken off in 64 bits: no entry at or before the position gives 2 ^ 64 - 1.
unfoldable pub pos_to_idx : VarSegment → ℕ → Option ℕ
pos_to_idx s pos =
    if not (leb pos s.num_bytes)
    then none
    else some ((upper_bound s.entry_offsets pos + (2 ^ 64 - 1)) % 2 ^ 64)

-- `Split`. Behind the last entry the second segment is empty and its data a null pointer.
unfoldable pub split : VarSegment → ℕ → Option (VarSegment × VarSegment)
split s idx =
    if num_entries s == 0
    then none
    else if not (leb idx (num_entries s))
    then none
    else elim (offset_at s 0) [
      | none ↦ none
      | some first ↦ elim (offset_at s idx) [
        | some offset ↦ some (
          record {
            data' = drop first s.data';
            num_bytes = offset;
            entry_offsets = take idx s.entry_offsets;
          },
          record {
            data' = drop offset s.data';
            num_bytes = s.num_bytes - offset;
            entry_offsets = map (λ o. o - offset) (drop idx s.entry_offsets);
          },
        )
        | none ↦ some (
          record {
            data' = drop first s.data';
            num_bytes = s.num_bytes;
            entry_offsets = take idx s.entry_offsets;
          },
          record { data' = []; num_bytes = 0; entry_offsets = [] },
        )
      ]
    ]
