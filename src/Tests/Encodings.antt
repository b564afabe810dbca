-- ===== src/Tests/Encodings.antt =====
-- Slices, chunks, cells, segments and nodes.
use forkbase.Base.{
  none, some, [], ◌∷◌, List, All, ℕ, zero, suc, ◌≡◌, ◌≤◌, ◌<◌, ◌+◌, ◌-◌, ◌*◌, ◌^◌, ◌++◌, refl, some,
  [], ◌∷◌, List, map, Bytes, length, drop, get_elem?, replicate, length-replicate, arith, le_bytes,
  read_le, le_value,
}
use forkbase.Hash.{null, of}
use forkbase.Types.{UType, ChunkType, utype_code}
use forkbase.Chunk.{Chunk, new_chunk, data_of, hash_of}
use forkbase.Slice.{Slice, lt, memcmp}
use forkbase.Slice.Order.{lt-eq-lex_lt, lex_lt}
use forkbase.Cell.{new_cell_chunk, data_length, cell_key, cell_type, pre_hash}
use forkbase.Cell.RoundTrip.{Holds, new_cell_chunk-Holds, data_length_extended}
use forkbase.Segment.{VarSegment, append_for_chunk, split}
use forkbase.Segment.Split.{Parts, split-Parts}
use forkbase.Segment.Fixed.{FixedSegment, pos_to_idx, pos_to_idx_entry}
use forkbase.Segment.Fixed
use forkbase.Store.Memory.{last_bytes}
use forkbase.Node.{OrderedKey}
use forkbase.Node.MapNode.{KvItem}
use forkbase.Node.MapNode
use forkbase.Node.Leaf
use forkbase.Node.Leaf.{
  encode_items, precompute_offsets, offsets_from, find_index_for_key, is_ordered, follows,
  encode_from,
}
use forkbase.Hash.Base32.{to_base32, from_base32, from_base32-to_base32}
use forkbase.Node.MetaEntry.{MetaHolds, meta_encode, meta_encode-MetaHolds, IsKey, key_num_bytes}
use forkbase.Node.Make.{make, last_of, make-encode_items}
use forkbase.Node.ReadBack.{leaf_data, leaf_items, leaf_find, lower_bound}
use forkbase.Tests.Data.{hi, note, doc, dev, ones, twos}

lt-eq-lex_lt_example : lt hi note ≡ lex_lt hi note
lt-eq-lex_lt_example = lt-eq-lex_lt hi note

new_cell_chunk-Holds_example :
    (c : Chunk) × (new_cell_chunk UType.string doc hi note (of ones) (of twos) ≡ some c)
    × Holds UType.string doc hi note (of ones) (of twos) (data_of c)
new_cell_chunk-Holds_example =
    new_cell_chunk-Holds UType.string doc hi note ones (of twos) refl refl (omega arith)
      (omega arith) (omega arith)

-- 2 ^ 15 bytes.
abbrev long : ℕ → Bytes
long n = replicate n 7

data_length_extended_example :
    (c : Chunk) × (new_cell_chunk UType.string doc (long 32768) note (of ones) null ≡ some c)
    × (data_length (data_of c) ≡ length (long 32768) + (2 ^ 64 - 2 ^ 16))
    × (cell_key (data_of c) ≡ doc)
    × (cell_type (data_of c) ≡ utype_code UType.string)
    × (pre_hash 0 (data_of c) ≡ of ones)
    × (pre_hash 1 (data_of c) ≡ null)
data_length_extended_example =
    data_length_extended UType.string doc (long 32768) note ones null refl tt (omega arith)
      (omega (arith, length-replicate {A = ℕ} 32768 7))
      (omega (arith, length-replicate {A = ℕ} 32768 7)) (omega arith)

-- Two entries, of two and of one byte.
abbrev two_entries : VarSegment
two_entries = record { data' = 1 ∷ 2 ∷ 3 ∷ []; num_bytes = 3; entry_offsets = 0 ∷ 2 ∷ [] }

two_entries_inside : (idx offset : ℕ) → get_elem? (0 ∷ 2 ∷ []) idx ≡ some offset → offset ≤ 3
two_entries_inside zero offset h = ground arith
two_entries_inside (suc zero) offset h = ground arith
two_entries_inside (suc (suc idx)) offset h = absurd (cc)

two_entries_in_order :
    (i j o next : ℕ)
    → i ≤ j
    → get_elem? (0 ∷ 2 ∷ []) i ≡ some o
    → get_elem? (0 ∷ 2 ∷ []) j ≡ some next
    → o ≤ next
two_entries_in_order zero j o next h e f = ground arith
two_entries_in_order (suc zero) zero o next h e f = absurd (omega arith)
two_entries_in_order (suc zero) (suc zero) o next h e f = ground arith
two_entries_in_order (suc zero) (suc (suc j)) o next h e f = absurd (cc)
two_entries_in_order (suc (suc i)) j o next h e f = absurd (cc)

split-Parts_example :
    (a b : VarSegment) × (split two_entries 1 ≡ some (a, b)) × Parts two_entries a b 1
split-Parts_example =
    split-Parts two_entries 1
      (record { first = refl; inside = two_entries_inside; in_order = two_entries_in_order })
      (omega arith)

abbrev pairs : FixedSegment
pairs = record { data' = 1 ∷ 2 ∷ 3 ∷ 4 ∷ []; num_bytes = 4; bytes_per_entry = 2 }

pos_to_idx_entry_example :
    (idx : ℕ) × (pos_to_idx pairs 3 ≡ some idx)
    × (idx < Fixed.num_entries pairs)
    × (idx * pairs.bytes_per_entry ≤ 3)
    × (3 < (idx + 1) * pairs.bytes_per_entry)
pos_to_idx_entry_example = pos_to_idx_entry pairs 3 (omega arith) refl (omega arith)

abbrev two_items : List KvItem
two_items = record { key = dev; val = hi } ∷ record { key = doc; val = [] } ∷ []

abbrev two_items_segment : VarSegment
two_items_segment = record {
  data' =
      11 ∷ 0 ∷ 0 ∷ 0 ∷ 1 ∷ 0 ∷ 0 ∷ 0 ∷ 100 ∷ 104 ∷ 105 ∷ 9 ∷ 0 ∷ 0 ∷ 0 ∷ 1 ∷ 0 ∷ 0 ∷ 0 ∷ 107 ∷ [];
  num_bytes = 20;
  entry_offsets = 0 ∷ 11 ∷ [];
}

two_items_encoded : encode_items MapNode.codec two_items ≡ some two_items_segment
unfolding encode_items is_ordered follows encode_from MapNode.encode MapNode.encode_num_bytes
    le_bytes lt memcmp
two_items_encoded = refl

first-Fits : MapNode.Fits (record { key = dev; val = hi })
unfolding MapNode.Fits MapNode.encode_num_bytes
first-Fits = omega arith

second-Fits : MapNode.Fits (record { key = doc; val = [] })
unfolding MapNode.Fits MapNode.encode_num_bytes
second-Fits = omega arith

leaf_items_example :
    (offsets : List ℕ) × (precompute_offsets MapNode.codec
        (leaf_data MapNode.codec two_items two_items_segment)
      ≡ some offsets)
    × (length offsets ≡ length two_items)
    × ((idx : ℕ) (i : KvItem)
        → get_elem? two_items idx ≡ some i
        → (o : ℕ) × (get_elem? offsets idx ≡ some o)
          × (MapNode.kvitem (drop o (leaf_data MapNode.codec two_items two_items_segment))
              ≡ (i, MapNode.encode_num_bytes i)))
leaf_items_example =
    leaf_items MapNode.codec two_items two_items_segment (first-Fits, (second-Fits, tt))
      (omega arith) two_items_encoded

two_offsets :
    precompute_offsets MapNode.codec (leaf_data MapNode.codec two_items two_items_segment)
    ≡ some (4 ∷ 15 ∷ [])
unfolding precompute_offsets offsets_from follows Leaf.num_entries append_for_chunk le_bytes read_le
    le_value MapNode.key MapNode.kvitem lt memcmp
two_offsets = refl

leaf_find_example :
    find_index_for_key MapNode.codec
      (4 ∷ 15 ∷ [])
      (leaf_data MapNode.codec two_items two_items_segment)
      (OrderedKey.slice doc)
    ≡ some (lower_bound (map (λ (i : KvItem). i.key) two_items) doc)
leaf_find_example =
    leaf_find MapNode.codec two_items two_items_segment (4 ∷ 15 ∷ []) doc
      (first-Fits, (second-Fits, tt)) (omega arith) two_items_encoded two_offsets

All-replicate : (n x : ℕ) → x < 256 → All (λ y. y < 256) (replicate n x)
All-replicate zero x h = tt
All-replicate (suc n) x h = (h, All-replicate n x h)

ones_are_bytes : All (λ x. x < 256) ones
ones_are_bytes = All-replicate 20 1 (omega arith)

doc-IsKey : IsKey (OrderedKey.slice doc)
unfolding IsKey
doc-IsKey = tt

doc_is_short : 37 + key_num_bytes (OrderedKey.slice doc) < 2 ^ 32
unfolding key_num_bytes
doc_is_short = omega arith

from_base32-to_base32_example :
    (length (to_base32 (of ones)) ≡ 32)
    × (from_base32 (to_base32 (of ones)) ≡ some (some (of ones)))
from_base32-to_base32_example = from_base32-to_base32 ones ones_are_bytes refl

meta_encode-MetaHolds_example :
    MetaHolds 1 2
      (of ones)
      (OrderedKey.slice doc)
      (meta_encode 1 2 (of ones) (OrderedKey.slice doc) ++ hi)
meta_encode-MetaHolds_example =
    meta_encode-MetaHolds 1 2 ones (OrderedKey.slice doc) hi refl doc-IsKey (omega arith)
      (omega arith) doc_is_short

make-encode_items_example :
    (key : Slice) × (last_of MapNode.codec none two_items ≡ some key)
    × (make ChunkType.map_chunk MapNode.key last_bytes
          (OrderedKey.number 0)
          (two_items_segment ∷ [])
        ≡ (let chunk =
              new_chunk ChunkType.map_chunk (leaf_data MapNode.codec two_items two_items_segment) in
            let meta = meta_encode 1 2 (hash_of last_bytes chunk) (OrderedKey.slice key) in
            some (chunk, record { data' = meta; num_bytes = length meta; entry_offsets = 0 ∷ [] })))
make-encode_items_example =
    make-encode_items MapNode.codec ChunkType.map_chunk last_bytes (OrderedKey.number 0) two_items
      two_items_segment (first-Fits, (second-Fits, tt)) two_items_encoded
