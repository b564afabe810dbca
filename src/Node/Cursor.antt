-- ===== src/Node/Cursor.antt =====
-- The constructors of `NodeCursor` (include/node/cursor.h, src/node/cursor.cc): the way from a root
-- down to a leaf. `ChunkLoader::Load` is a parameter, `none` for a chunk that is not there. The loop
-- runs on fuel. `none` is a failed check, a missing chunk, or fuel that is used up.
pub mod Walk
pub mod Child
pub mod Descent
pub mod Ends
pub mod Move
pub mod Advance
pub mod Undo
pub mod ByKey
use forkbase.Base.{
  ℕ, zero, suc, ◌+◌, ◌-◌, ◌%◌, ◌^◌, Bool, true, false, not, ◌||◌, Option, none, some, List, [], ◌∷◌,
  Bytes, read_le, ltb, leb, ◌==◌, if◌then◌else◌,
}
use forkbase.Hash.{Hash, is_empty}
use forkbase.Types.{ChunkType, chunk_code}
use forkbase.Types
use forkbase.Chunk.{Chunk, type_byte, capacity, data_of}
use forkbase.Node.{OrderedKey}
use forkbase.Node.MetaNode.{
  num_entries, num_elements, num_elements_until_entry, get_child_hash_by_index,
  get_child_hash_by_key, get_child_hash_by_entry,
}

-- The types that `SeqNode::CreateFromChunk` makes a leaf of.
abbrev pub is_leaf_type : Chunk → Bool
is_leaf_type c =
    type_byte c == chunk_code ChunkType.blob_chunk
    || (type_byte c == chunk_code ChunkType.map_chunk
        || (type_byte c == chunk_code ChunkType.set_chunk
            || type_byte c == chunk_code ChunkType.list_chunk))

-- `CreateFromChunk(chunk)->isLeaf()`; a chunk of another type ends the process.
unfoldable pub is_leaf : Chunk → Option Bool
is_leaf c =
    if type_byte c == chunk_code ChunkType.meta
    then some false
    else if is_leaf_type c
    then some true
    else none

-- `numEntries()` of a leaf: the bytes of a blob, the number in front of the items of the others.
unfoldable pub leaf_entries : Chunk → ℕ
unfolding num_entries
leaf_entries c =
    if type_byte c == chunk_code ChunkType.blob_chunk then capacity c else num_entries (data_of c)

-- `numElements()`
unfoldable pub node_elements : Chunk → Option ℕ
node_elements c = elim (is_leaf c) [
  | none ↦ none
  | some true ↦ some (leaf_entries c)
  | some false ↦ num_elements (data_of c)
]

-- A cursor: its node, its index as the bits of an `int32_t`, and the nodes above it with theirs,
-- the parent first.
pub record NodeCursor : Type 0 where
  pub seq_node : Chunk
  pub idx : ℕ
  pub parents : List (Chunk × ℕ)

-- The child that was found, or the last one.
unfoldable pub or_last_child : Bytes → Hash × ℕ → Option (Hash × ℕ)
or_last_child p (child_hash, entry_idx) =
    if not (is_empty child_hash)
    then some (child_hash, entry_idx)
    else if not (entry_idx == num_entries p)
    then none
    else elim (get_child_hash_by_entry p (num_entries p - 1)) [
      | none ↦ none
      | some last ↦ some (last, num_entries p - 1)
    ]

-- A round of the loop by index: the child, its entry, and the index of the element below it.
unfoldable pub child_by_index : Bytes → ℕ → Option (Hash × (ℕ × ℕ))
child_by_index p element_idx = elim (get_child_hash_by_index p element_idx) [
  | none ↦ none
  | some found ↦ elim (or_last_child p found) [
    | none ↦ none
    | some (child_hash, entry_idx) ↦ elim (num_elements_until_entry p entry_idx) [
      | none ↦ none
      | some before ↦ some (child_hash, (entry_idx, (element_idx + 2 ^ 64 - before) % 2 ^ 64))
    ]
  ]
]

-- The end of the loop by index: behind the last entry of a leaf the cursor stands at its end.
unfoldable pub at_leaf : Chunk → ℕ → List (Chunk × ℕ) → NodeCursor
unfolding leaf_entries
at_leaf c element_idx parents =
    let entry_idx = if ltb (leaf_entries c) element_idx then leaf_entries c else element_idx in
    record { seq_node = c; idx = entry_idx % 2 ^ 32; parents = parents }

module _ (load : Hash → Option Chunk) where
  unfoldable pub descend_by_index : ℕ → Chunk → ℕ → List (Chunk × ℕ) → Option NodeCursor
  descend_by_index zero c element_idx parents = elim (is_leaf c) [
    | some true ↦ some (at_leaf c element_idx parents)
    | _ ↦ none
  ]
  descend_by_index (suc fuel) c element_idx parents = elim (is_leaf c) [
    | none ↦ none
    | some true ↦ some (at_leaf c element_idx parents)
    | some false ↦ elim (child_by_index (data_of c) element_idx) [
      | none ↦ none
      | some (child_hash, (entry_idx, below)) ↦ elim (load child_hash) [
        | none ↦ none
        | some child ↦ descend_by_index fuel child below ((c, entry_idx % 2 ^ 32) ∷ parents)
      ]
    ]
  ]

  -- `NodeCursor(hash, idx, loader)`: an index above the number of elements leaves it empty.
  unfoldable pub cursor_by_index : ℕ → Hash → ℕ → Option (Option NodeCursor)
  cursor_by_index fuel hash idx = elim (load hash) [
    | none ↦ none
    | some c ↦ elim (node_elements c) [
      | none ↦ none
      | some elements ↦
          if not (leb idx elements) then some none else elim (descend_by_index fuel c idx []) [
            | none ↦ none
            | some cursor ↦ some (some cursor)
          ]
    ]
  ]

  -- `FindIndexForKey` of a leaf is a parameter here: `Node/Leaf.antt` has that of maps and sets.
  unfoldable pub descend_by_key :
      (Chunk → OrderedKey → ℕ) → ℕ → Chunk → OrderedKey → List (Chunk × ℕ) → Option NodeCursor
  descend_by_key find zero c k parents = elim (is_leaf c) [
    | some true ↦ some (record { seq_node = c; idx = find c k % 2 ^ 32; parents = parents })
    | _ ↦ none
  ]
  descend_by_key find (suc fuel) c k parents = elim (is_leaf c) [
    | none ↦ none
    | some true ↦ some (record { seq_node = c; idx = find c k % 2 ^ 32; parents = parents })
    | some false ↦ elim (get_child_hash_by_key (data_of c) k) [
      | none ↦ none
      | some found ↦ elim (or_last_child (data_of c) found) [
        | none ↦ none
        | some (child_hash, entry_idx) ↦ elim (load child_hash) [
          | none ↦ none
          | some child ↦ descend_by_key find fuel child k ((c, entry_idx % 2 ^ 32) ∷ parents)
        ]
      ]
    ]
  ]

  -- `NodeCursor(hash, key, loader)`
  unfoldable pub cursor_by_key :
      (Chunk → OrderedKey → ℕ) → ℕ → Hash → OrderedKey → Option NodeCursor
  unfolding descend_by_key
  cursor_by_key find fuel hash k = elim (load hash) [
    | none ↦ none
    | some c ↦ descend_by_key find fuel c k []
  ]
