-- ===== src/Tests/Cursors.antt =====
-- A tree of two blobs below one node.
use forkbase.Base.{
  ℕ, true, ◌+◌, ◌⊎◌, All, length, ◌≡◌, refl, ◌≤◌, ◌^◌, read_le, le_value, le_bytes, ◌<◌, ◌∷◌, [],
  Option, none, some, Bytes, List, ◌=?◌, replicate, if◌then◌else◌, arith,
}
use forkbase.Hash.{Hash, null, of, hash_eq}
use forkbase.Types.{ChunkType}
use forkbase.Chunk.{Chunk, new_chunk, data_of, hash_of, type_byte, num_bytes, capacity}
use forkbase.Node.{number, key_lt, key_eq}
use forkbase.Node.MetaEntry.{meta_encode, key_num_bytes, key_encode, by_value, IsKey}
use forkbase.Node.MetaNode.Entries.{Entry, Fits, node_bytes, sum}
use forkbase.Node.MetaMake.{
  meta_make, meta_make-IsNode, segment, segment_of, leaf_sum, last_key, IsAscending,
}
use forkbase.Store.Memory.{last_bytes}
use forkbase.Node.Cursor.{NodeCursor, cursor_by_index, is_leaf, leaf_entries}
use forkbase.Node.Cursor.Child.{IsNode}
use forkbase.Node.Cursor.Descent.{IsTree, leaf, inner, child, none_left, size, leaf_at}
use forkbase.Node.Cursor.Ends.{cursor_by_index-IsTree}
use forkbase.Node.MetaNode.{key_le, get_child_hash_by_key}
use forkbase.Node.Cursor.ByKey.{First, IsComparable, IsBelow, get_child_hash_by_key-First}
use forkbase.Node.IndexRange.{IndexRange, compact, compact-IsCompact, IsCompact, covers}
use forkbase.Node.Cursor.Move
use forkbase.Node.Cursor.Undo.{IsPath, root, below, retreat-advance}
use forkbase.Node.Cursor.Advance.{advance_while, advance_while-Following}
use forkbase.Node.Cursor.Move.{
  Levels, Following, under, at_root, child_at, advance, retreat, up, enter_first,
}
use forkbase.Node.MetaNode.{data', entry_offset, precompute_offset, offsets_from, num_entries}
use forkbase.Node.MetaEntry.{meta_target_hash, meta_num_bytes}
use forkbase.Tests.Data.{ones, twos}

abbrev threes : Bytes
threes = replicate 20 3

abbrev left_blob : Chunk
left_blob = new_chunk ChunkType.blob_chunk (7 ∷ 8 ∷ [])

abbrev right_blob : Chunk
right_blob = new_chunk ChunkType.blob_chunk (9 ∷ [])

abbrev first_entry : Entry
first_entry = record { leaves = 1; elements = 2; digest = ones; key = number 2 }

abbrev second_entry : Entry
second_entry = record { leaves = 1; elements = 1; digest = twos; key = number 3 }

abbrev entries : List Entry
entries = first_entry ∷ (second_entry ∷ [])

abbrev root_chunk : Chunk
root_chunk = new_chunk ChunkType.meta (node_bytes entries)

abbrev load : Hash → Option Chunk
load h =
    if h =? of ones
    then some left_blob
    else if h =? of twos
    then some right_blob
    else if h =? of threes
    then some root_chunk
    else none

left_blob-IsTree : IsTree load 0 (of ones) (left_blob ∷ [])
unfolding is_leaf leaf_entries type_byte capacity num_bytes new_chunk read_le le_value le_bytes
left_blob-IsTree = leaf 0 {c = left_blob} refl refl (omega arith)

right_blob-IsTree : IsTree load 0 (of twos) (right_blob ∷ [])
unfolding is_leaf leaf_entries type_byte capacity num_bytes new_chunk read_le le_value le_bytes
right_blob-IsTree = leaf 0 {c = right_blob} refl refl (omega arith)

entries-Fits : All Fits entries
unfolding data_of new_chunk le_bytes meta_encode key_num_bytes key_encode by_value IsKey
entries-Fits = (
  (record {
    digest_fits = refl;
    key_fits = omega arith;
    leaves_fit = omega arith;
    elements_fit = omega arith;
    size_fits = omega arith;
  }),
  (
    (record {
      digest_fits = refl;
      key_fits = omega arith;
      leaves_fit = omega arith;
      elements_fit = omega arith;
      size_fits = omega arith;
    }),
    tt,
  ),
)

root_chunk-IsNode : IsNode entries (data_of root_chunk)
unfolding data_of new_chunk le_bytes meta_encode key_num_bytes key_encode by_value IsKey
root_chunk-IsNode = record {
  after = [];
  bytes_are = refl;
  fits = entries-Fits;
  length_fits = omega arith;
  sum_fits = omega arith;
}

root_chunk-IsTree : IsTree load 1 (of threes) (left_blob ∷ right_blob ∷ [])
unfolding is_leaf leaf_entries type_byte capacity num_bytes new_chunk read_le le_value le_bytes
root_chunk-IsTree =
    inner {c = root_chunk} refl refl root_chunk-IsNode
      (child left_blob-IsTree refl (child right_blob-IsTree refl none_left))

small : size (left_blob ∷ right_blob ∷ []) < 2 ^ 64
unfolding leaf_entries type_byte capacity num_bytes new_chunk read_le le_value le_bytes
small = omega arith

cursor_by_index-IsTree_example :
    (2 ≤ size (left_blob ∷ right_blob ∷ [])
      → (cursor : NodeCursor) × (cursor_by_index load 1 (of threes) 2 ≡ some (some cursor))
        × (leaf_at 2 (left_blob ∷ right_blob ∷ []) ≡ some (cursor.seq_node, cursor.idx)))
    × (size (left_blob ∷ right_blob ∷ []) < 2 → cursor_by_index load 1 (of threes) 2 ≡ some none)
cursor_by_index-IsTree_example = cursor_by_index-IsTree 1 2 root_chunk-IsTree (omega arith) small

entries-IsComparable : All (IsComparable (number 2)) entries
unfolding key_le key_lt key_eq
entries-IsComparable = ((true, refl), ((true, refl), tt))

get_child_hash_by_key-First_example :
    First (number 2) entries 0 (get_child_hash_by_key (data_of root_chunk) (number 2))
    ⊎ (All (IsBelow (number 2)) entries
        × (get_child_hash_by_key (data_of root_chunk) (number 2) ≡ some (null, 0 + length entries)))
get_child_hash_by_key-First_example =
    get_child_hash_by_key-First (record { leaves = 1; elements = 2; digest = ones; key = number 2 })
      (record { leaves = 1; elements = 1; digest = twos; key = number 3 } ∷ []) (data_of root_chunk)
      (number 2) root_chunk-IsNode entries-IsComparable

abbrev three_ranges : List IndexRange
three_ranges =
    record { start_idx = 0; num_subsequent = 3 }
    ∷ (record { start_idx = 3; num_subsequent = 6 }
        ∷ (record { start_idx = 12; num_subsequent = 1 } ∷ []))

compact-IsCompact_example :
    (result : List IndexRange) × (compact three_ranges ≡ some result)
    × IsCompact result
    × ((i : ℕ) → covers i result ≡ covers i three_ranges)
compact-IsCompact_example = compact-IsCompact three_ranges (
  omega arith,
  omega arith,
  omega arith,
  (omega arith, omega arith, omega arith, (omega arith, omega arith, omega arith, tt)),
)

entries-IsAscending : IsAscending (number 2) (second_entry ∷ [])
unfolding key_le key_lt key_eq
entries-IsAscending = (refl, tt)

meta_make-IsNode_example :
    (chunk : Chunk) × (meta_make last_bytes (segment entries ∷ [])
      ≡ some (
        chunk,
        segment_of (
            meta_encode
              (leaf_sum entries)
              (sum entries)
              (hash_of last_bytes chunk)
              (last_key (number 2) (second_entry ∷ []))),
      ))
    × IsNode entries (data_of chunk)
meta_make-IsNode_example =
    meta_make-IsNode last_bytes first_entry (second_entry ∷ []) entries-Fits entries-IsAscending
      (omega arith) (omega arith) (omega arith)

-- What comes behind the first byte of the first blob.
abbrev behind_first : Levels
behind_first = (left_blob, 1) ∷ (right_blob, 0) ∷ []

behind_first-Following : Following load ((left_blob, 0) ∷ (root_chunk, 0) ∷ []) behind_first
unfolding child_at data' entry_offset precompute_offset offsets_from meta_target_hash meta_num_bytes
    num_entries leaf_entries type_byte data_of capacity num_bytes new_chunk read_le le_value
    le_bytes meta_encode key_num_bytes key_encode by_value
behind_first-Following =
    under (omega arith) (omega arith) (at_root (omega arith) (omega arith))
      (Move.child right_blob refl (omega arith) (omega arith) Move.no_child)

advance_while-Following_example :
    advance_while load 3 ((left_blob, 0) ∷ (root_chunk, 0) ∷ []) ≡ some behind_first
advance_while-Following_example =
    advance_while-Following load 3 behind_first-Following (omega arith)

-- The cursor at the last byte of the first blob, and behind its boundary.
last_byte-IsPath : IsPath load ((left_blob, 1) ∷ (root_chunk, 0) ∷ [])
unfolding child_at data' entry_offset precompute_offset offsets_from meta_target_hash meta_num_bytes
    num_entries leaf_entries type_byte data_of capacity num_bytes new_chunk read_le le_value
    le_bytes meta_encode key_num_bytes key_encode by_value
last_byte-IsPath = below (omega arith) (omega arith) refl (root (omega arith) (omega arith))

advance_last_byte :
    advance load ((left_blob, 1) ∷ (root_chunk, 0) ∷ [])
    ≡ some (true, (right_blob, 0) ∷ (root_chunk, 1) ∷ [])
unfolding advance enter_first up child_at data' entry_offset precompute_offset offsets_from
    meta_target_hash meta_num_bytes num_entries leaf_entries type_byte data_of capacity num_bytes
    new_chunk read_le le_value le_bytes meta_encode key_num_bytes key_encode by_value
advance_last_byte = refl

retreat-advance_example :
    retreat load ((right_blob, 0) ∷ (root_chunk, 1) ∷ [])
    ≡ some (true, (left_blob, 1) ∷ (root_chunk, 0) ∷ [])
retreat-advance_example =
    retreat-advance load ((right_blob, 0) ∷ (root_chunk, 1) ∷ []) last_byte-IsPath advance_last_byte
