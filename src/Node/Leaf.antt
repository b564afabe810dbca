-- ===== src/Node/Leaf.antt =====
-- The operations that `MapNode` and `SetNode` (src/node/map_node.cc, set_node.cc) share, once for
-- both. A node is its chunk's data; `none` is a failed `CHECK`.
use forkbase.Base.{
  ◌^◌, ◌%◌, ℕ, zero, suc, ◌+◌, ◌-◌, ◌==◌, ltb, leb, Bool, true, false, not, Option, none, some,
  List, [], ◌∷◌, ◌++◌, Bytes, length, drop, get_elem?, read_le, if◌then◌else◌,
}
use forkbase.Slice.{Slice, lt}
use forkbase.Segment.{VarSegment}
use forkbase.Node.{Codec, OrderedKey, slice, key_eq, key_gt}

-- `preKey < currKey`, when there is a key before.
unfoldable pub follows : Option Slice → Slice → Bool
follows none k = true
follows (some p) k = lt p k

-- `numEntries()`, the number in front of a node.
unfoldable pub num_entries : Bytes → ℕ
num_entries p = read_le 4 0 p

module _ (codec : Codec) where
  -- The first loop of `Encode(items)`: each key is above the one before.
  unfoldable pub is_ordered : Option Slice → List (Codec.Item codec) → Bool
  unfolding follows
  is_ordered pre [] = true
  is_ordered pre (i ∷ is) =
      let rest = is_ordered (some (Codec.item_key codec i)) is in
      if not (follows pre (Codec.item_key codec i)) then false else rest

  -- The second loop: the bytes, the end and the offsets of the items from `offset` on.
  unfoldable pub encode_from : ℕ → List (Codec.Item codec) → Bytes × (ℕ × List ℕ)
  encode_from offset [] = ([], (offset, []))
  encode_from offset (i ∷ is) =
      let (bytes, (end', offsets)) = encode_from (offset + Codec.encode_num_bytes codec i) is in
      (Codec.encode codec i ++ bytes, (end', offset ∷ offsets))

  unfoldable pub encode_items : List (Codec.Item codec) → Option VarSegment
  unfolding is_ordered encode_from
  encode_items is =
      if length is == 0
      then none
      else if not (is_ordered none is)
      then none
      else (let (bytes, (end', offsets)) = encode_from 0 is in
          some (record { data' = bytes; num_bytes = end'; entry_offsets = offsets }))

  -- The loop of `PrecomputeOffsets`, with the items that are left and the key before.
  unfoldable pub offsets_from : ℕ → Option Slice → ℕ → Bytes → Option (List ℕ)
  unfolding follows
  offsets_from zero pre byte_offset p = some []
  offsets_from (suc n) pre byte_offset p =
      let curr_key = Codec.read_key codec (drop byte_offset p) in
      let item_num_bytes = (Codec.read_item codec (drop byte_offset p)).1 in
      let rest = offsets_from n (some curr_key) (byte_offset + item_num_bytes) p in
      if not (follows pre curr_key)
      then none
      else elim rest [ none ↦ none | some offsets ↦ some (byte_offset ∷ offsets) ]

  unfoldable pub precompute_offsets : Bytes → Option (List ℕ)
  unfolding offsets_from num_entries
  precompute_offsets p = offsets_from (num_entries p) none 4 p

  -- The loop of `FindIndexForKey`.
  unfoldable pub find_from : ℕ → List ℕ → Bytes → OrderedKey → Option ℕ
  find_from idx [] p key = some idx
  find_from idx (offset ∷ offsets) p key =
      let curr_key = slice (Codec.read_key codec (drop offset p)) in
      let rest = find_from (suc idx) offsets p key in
      elim (key_eq curr_key key) [
        | none ↦ none
        | some true ↦ some idx
        | some false ↦ elim (key_gt curr_key key) [
          | none ↦ none
          | some true ↦ some idx
          | some false ↦ rest
        ]
      ]

  unfoldable pub find_index_for_key : List ℕ → Bytes → OrderedKey → Option ℕ
  unfolding find_from
  find_index_for_key offsets p key = find_from 0 offsets p key

-- `data(idx)`, with the offsets that were computed.
unfoldable pub data_at : List ℕ → Bytes → ℕ → Option Bytes
unfolding num_entries
data_at offsets p idx =
    if not (ltb idx (num_entries p))
    then none
    else elim (get_elem? offsets idx) [ none ↦ none | some offset ↦ some (drop offset p) ]

-- `len(idx)`: up to the next item, or to the end of the data.
unfoldable pub len_at : List ℕ → ℕ → ℕ → Option ℕ
len_at offsets capacity idx = elim (get_elem? offsets idx) [
  | none ↦ none
  | some offset ↦
      if suc idx == length offsets
      then some (capacity - offset)
      else elim (get_elem? offsets (suc idx)) [ none ↦ none | some next ↦ some (next - offset) ]
]

-- The loop of `GetSegment`: the lengths of so many items from `i` on, as offsets and their sum.
unfoldable pub segment_offsets : List ℕ → ℕ → ℕ → ℕ → ℕ → Option (ℕ × List ℕ)
unfolding len_at
segment_offsets offsets capacity i zero num_bytes = some (num_bytes, [])
segment_offsets offsets capacity i (suc n) num_bytes = elim (len_at offsets capacity i) [
  | none ↦ none
  | some len ↦ elim (segment_offsets offsets capacity (suc i) n (num_bytes + len)) [
    | none ↦ none
    | some (total, rest) ↦ some (total, num_bytes ∷ rest)
  ]
]

unfoldable pub get_segment : List ℕ → ℕ → Bytes → ℕ → ℕ → Option VarSegment
unfolding data_at segment_offsets num_entries
get_segment offsets capacity p start num_elements =
    if not (ltb start (num_entries p)) then none else elim (data_at offsets p start) [
      | none ↦ none
      | some data' ↦
          if num_elements == 0
          then some (record { data' = data'; num_bytes = 0; entry_offsets = [] })
          else if not (leb ((start + num_elements) % 2 ^ 64) (num_entries p))
          then none
          else elim (segment_offsets offsets capacity start num_elements 0) [
            | none ↦ none
            | some (total, entry_offsets) ↦
                some (record { data' = data'; num_bytes = total; entry_offsets = entry_offsets })
          ]
    ]
