-- ===== src/Node/MetaNode.antt =====
-- `MetaNode` (include/node/meta_node.h, src/node/meta_node.cc): an inner node of a tree, on the
-- data of its chunk. `none` is a failed check.
pub mod Entries
use forkbase.Base.{
  ℕ, zero, suc, ◌+◌, ◌-◌, ◌%◌, ◌^◌, Bool, true, false, not, ◌&&◌, Option, none, some, List, [], ◌∷◌,
  ◌++◌, Bytes, read_le, get_elem?, drop, ◌==◌, ltb, leb, if◌then◌else◌,
}
use forkbase.Hash.{Hash, null}
use forkbase.Segment.{VarSegment}
use forkbase.Node.{OrderedKey, key_lt, key_eq}
use forkbase.Node.MetaEntry.{
  meta_num_bytes, meta_num_leaves, meta_num_elements, meta_target_hash, meta_ordered_key,
}

-- `OrderedKey::operator<=`
unfoldable pub key_le : OrderedKey → OrderedKey → Option Bool
unfolding key_lt key_eq
key_le a b = elim (key_lt a b) [ none ↦ none | some true ↦ some true | some false ↦ key_eq a b ]

unfoldable pub num_entries : Bytes → ℕ
num_entries p = read_le 4 0 p

-- `PrecomputeOffset`, with `n` entries left from `byte_offset` on.
unfoldable pub offsets_from : ℕ → ℕ → Bytes → List ℕ
unfolding meta_num_bytes
offsets_from zero byte_offset p = []
offsets_from (suc n) byte_offset p =
    byte_offset ∷ offsets_from n (byte_offset + meta_num_bytes (drop byte_offset p)) p

unfoldable pub precompute_offset : Bytes → List ℕ
unfolding offsets_from num_entries
precompute_offset p = offsets_from (num_entries p) 4 p

-- `entryOffset`
unfoldable pub entry_offset : Bytes → ℕ → Option ℕ
unfolding precompute_offset
entry_offset p idx =
    if not (ltb idx (num_entries p)) then none else get_elem? (precompute_offset p) idx

-- `data`: the memory from the entry on.
unfoldable pub data' : Bytes → ℕ → Option Bytes
unfolding entry_offset
data' p idx = elim (entry_offset p idx) [ none ↦ none | some offset ↦ some (drop offset p) ]

unfoldable pub key : Bytes → ℕ → Option OrderedKey
unfolding data' meta_ordered_key
key p idx = elim (data' p idx) [ none ↦ none | some me ↦ some (meta_ordered_key me) ]

unfoldable pub len : Bytes → ℕ → Option ℕ
unfolding data' meta_num_bytes
len p idx = elim (data' p idx) [ none ↦ none | some me ↦ some (meta_num_bytes me) ]

-- The loop of `numLeaves`, over a counter of 32 bits: `n` entries from `idx` on.
unfoldable pub leaves_from : ℕ → ℕ → Bytes → ℕ → Option ℕ
unfolding data' meta_num_leaves
leaves_from zero idx p total = some total
leaves_from (suc n) idx p total = elim (data' p idx) [
  | none ↦ none
  | some me ↦ leaves_from n (suc idx) p ((total + meta_num_leaves me) % 2 ^ 32)
]

unfoldable pub num_leaves : Bytes → Option ℕ
unfolding leaves_from num_entries
num_leaves p = leaves_from (num_entries p) 0 p 0

-- The loop of `numElementsUntilEntry`, over a sum of 64 bits.
unfoldable pub elements_from : ℕ → ℕ → Bytes → ℕ → ℕ
unfolding meta_num_bytes meta_num_elements
elements_from zero byte_offset p total = total
elements_from (suc n) byte_offset p total =
    let entry = drop byte_offset p in
    elements_from n (byte_offset + meta_num_bytes entry) p
      ((total + meta_num_elements entry) % 2 ^ 64)

unfoldable pub num_elements_until_entry : Bytes → ℕ → Option ℕ
unfolding elements_from num_entries
num_elements_until_entry p entry_idx =
    if not (leb entry_idx (num_entries p)) then none else some (elements_from entry_idx 4 p 0)

unfoldable pub num_elements : Bytes → Option ℕ
unfolding num_elements_until_entry num_entries
num_elements p = num_elements_until_entry p (num_entries p)

-- The loop of `GetChildHashByIndex`: the hash that is returned, and `*entry_idx`.
unfoldable pub by_index_from : ℕ → ℕ → ℕ → ℕ → Bytes → ℕ → Hash × ℕ
unfolding meta_num_bytes meta_num_elements meta_target_hash
by_index_from element_idx zero i byte_offset p total = (null, i)
by_index_from element_idx (suc n) i byte_offset p total =
    let entry = drop byte_offset p in
    let total' = (total + meta_num_elements entry) % 2 ^ 64 in
    let rest = by_index_from element_idx n (suc i) (byte_offset + meta_num_bytes entry) p total' in
    if ltb element_idx total' then (meta_target_hash entry, i) else rest

unfoldable pub get_child_hash_by_index : Bytes → ℕ → Option (Hash × ℕ)
unfolding by_index_from num_entries
get_child_hash_by_index p element_idx =
    if num_entries p == 0 then none else some (by_index_from element_idx (num_entries p) 0 4 p 0)

unfoldable pub get_child_hash_by_entry : Bytes → ℕ → Option Hash
unfolding data' meta_target_hash
get_child_hash_by_entry p entry_idx = elim (data' p entry_idx) [
  | none ↦ none
  | some me ↦ some (meta_target_hash me)
]

-- The loop of `GetChildHashByKey`.
unfoldable pub by_key_from : OrderedKey → ℕ → ℕ → ℕ → Bytes → Option (Hash × ℕ)
by_key_from k zero i byte_offset p = some (null, i)
by_key_from k (suc n) i byte_offset p =
    let entry = drop byte_offset p in
    elim (key_le k (meta_ordered_key entry)) [
      | none ↦ none
      | some true ↦ some (meta_target_hash entry, i)
      | some false ↦ by_key_from k n (suc i) (byte_offset + meta_num_bytes entry) p
    ]

unfoldable pub get_child_hash_by_key : Bytes → OrderedKey → Option (Hash × ℕ)
get_child_hash_by_key p k = if num_entries p == 0 then none else by_key_from k (num_entries p) 0 4 p

-- The loop of `GetSegment`: the offsets and the number of bytes.
unfoldable pub segment_from : ℕ → ℕ → Bytes → List ℕ → ℕ → Option (List ℕ × ℕ)
unfolding len
segment_from zero i p offsets num_bytes = some (offsets, num_bytes)
segment_from (suc n) i p offsets num_bytes = elim (len p i) [
  | none ↦ none
  | some l ↦ segment_from n (suc i) p (offsets ++ num_bytes ∷ []) (num_bytes + l)
]

unfoldable pub get_segment : Bytes → ℕ → ℕ → Option VarSegment
unfolding segment_from data'
get_segment p start num_elements' = elim (data' p start) [
  | none ↦ none
  | some begin ↦
      if num_elements' == 0
      then some (record { data' = begin; num_bytes = 0; entry_offsets = [] })
      else if not (leb ((start + num_elements') % 2 ^ 64) (num_entries p))
      then none
      else elim (segment_from num_elements' start p [] 0) [
        | none ↦ none
        | some (offsets, num_bytes) ↦
            some (record { data' = begin; num_bytes = num_bytes; entry_offsets = offsets })
      ]
]
