-- ===== src/Node/ListNode.antt =====
-- `ListChunker`, `ListNode` (src/node/list_node.cc), `BlobChunker` and `BlobNode`
-- (src/node/blob_node.cc): the leaves of lists and blobs. `none` is a failed check.
pub mod ReadBack
use forkbase.Base.{
  ℕ, zero, suc, ◌+◌, ◌-◌, ◌%◌, ◌^◌, Bool, true, false, not, Option, none, some, List, [], ◌∷◌, ◌++◌,
  Bytes, length, take, drop, get_elem?, le_bytes, read_le, ltb, leb, ◌==◌, if◌then◌else◌,
}
use forkbase.Types.{ChunkType}
use forkbase.Slice.{Slice}
use forkbase.Chunk.{Chunk, new_chunk, hash_of, capacity, data_of}
use forkbase.Segment.{VarSegment, append_for_chunk}
use forkbase.Segment
use forkbase.Segment.Fixed.{FixedSegment}
use forkbase.Node.{number}
use forkbase.Node.MetaEntry.{meta_encode}
use forkbase.Node.Make.{total_entries, total_bytes, has_empty}

-- The chunk of a leaf and the entry that points to it, with a key that no one reads.
abbrev pub with_entry : (Bytes → Bytes) → ℕ → Chunk → Chunk × VarSegment
with_entry digest num_entries chunk =
    let entry = meta_encode 1 num_entries (hash_of digest chunk) (number 0) in
    (chunk, record { data' = entry; num_bytes = length entry; entry_offsets = 0 ∷ [] })

-- `ListChunker::Make`
unfoldable pub list_make : (Bytes → Bytes) → List VarSegment → Option (Chunk × VarSegment)
unfolding has_empty total_entries total_bytes
list_make digest segments =
    if has_empty segments
    then none
    else some (
        with_entry digest (total_entries segments) (
          new_chunk ChunkType.list_chunk
            (le_bytes 4 (total_entries segments) ++ total_bytes segments)))

-- An element in `ListNode::Encode`: its size with the four bytes of the size, and its bytes.
unfoldable pub encode_element : Slice → Bytes
encode_element e = le_bytes 4 (length e + 4) ++ e

unfoldable pub element_bytes : List Slice → Bytes
unfolding encode_element
element_bytes [] = []
element_bytes (e ∷ es) = encode_element e ++ element_bytes es

-- The offsets of the elements, the first at `offset`, and the end of the last.
unfoldable pub element_offsets : ℕ → List Slice → List ℕ
element_offsets offset [] = []
element_offsets offset (e ∷ es) = offset ∷ element_offsets (offset + (4 + length e)) es

unfoldable pub encode : List Slice → VarSegment
unfolding element_bytes element_offsets
encode elements = record {
  data' = element_bytes elements;
  num_bytes = length (element_bytes elements);
  entry_offsets = element_offsets 0 elements;
}

-- `ListNode::Decode`
unfoldable pub decode : Bytes → Slice
decode p = take ((read_le 4 0 p + 2 ^ 64 - 4) % 2 ^ 64) (drop 4 p)

unfoldable pub num_entries : Bytes → ℕ
num_entries p = read_le 4 0 p

-- `PrecomputeOffsets`, with `n` entries left from `byte_offset` on.
unfoldable pub offsets_from : ℕ → ℕ → Bytes → List ℕ
offsets_from zero byte_offset p = []
offsets_from (suc n) byte_offset p =
    byte_offset ∷ offsets_from n (byte_offset + read_le 4 0 (drop byte_offset p)) p

unfoldable pub precompute_offsets : Bytes → List ℕ
precompute_offsets p = offsets_from (num_entries p) 4 p

-- `data`: the memory from the entry on.
unfoldable pub data' : Bytes → ℕ → Option Bytes
data' p idx =
    if not (ltb idx (num_entries p)) then none else elim (get_elem? (precompute_offsets p) idx) [
      | none ↦ none
      | some offset ↦ some (drop offset p)
    ]

-- `len`, in a chunk: the last entry ends with the chunk.
unfoldable pub len : Chunk → ℕ → Option ℕ
len c idx =
    let p = data_of c in
    elim (get_elem? (precompute_offsets p) idx) [
      | none ↦ none
      | some offset ↦
          if idx == num_entries p - 1
          then some (capacity c - offset)
          else elim (get_elem? (precompute_offsets p) (suc idx)) [
            | none ↦ none
            | some next ↦ some (next - offset)
          ]
    ]

-- The loop of `GetSegment`.
unfoldable pub segment_from : ℕ → ℕ → Chunk → List ℕ → ℕ → Option (List ℕ × ℕ)
segment_from zero i c offsets num_bytes = some (offsets, num_bytes)
segment_from (suc n) i c offsets num_bytes = elim (len c i) [
  | none ↦ none
  | some l ↦ segment_from n (suc i) c (offsets ++ num_bytes ∷ []) (num_bytes + l)
]

unfoldable pub get_segment : Chunk → ℕ → ℕ → Option VarSegment
get_segment c start num_elements = elim (data' (data_of c) start) [
  | none ↦ none
  | some begin ↦
      if num_elements == 0
      then some (record { data' = begin; num_bytes = 0; entry_offsets = [] })
      else if not (leb ((start + num_elements) % 2 ^ 64) (num_entries (data_of c)))
      then none
      else elim (segment_from num_elements start c [] 0) [
        | none ↦ none
        | some (offsets, num_bytes) ↦
            some (record { data' = begin; num_bytes = num_bytes; entry_offsets = offsets })
      ]
]
