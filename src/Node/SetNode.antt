-- ===== src/Node/SetNode.antt =====
-- `SetNode` (include/node/set_node.h, src/node/set_node.cc): items that are keys.
use mathlib.Core.List.{append_assoc}
use forkbase.Base.{
  ℕ, ◌+◌, ◌-◌, ◌^◌, ◌%◌, ◌<◌, ◌≡◌, refl, ap, [], Option, none, some, List, ◌++◌, Bytes, length,
  take, drop, le_bytes, read_le, length-le_bytes, length-append, take-append, read_le-append, arith,
}
use forkbase.Slice.{Slice}
use forkbase.Segment.{VarSegment}
use forkbase.Node.{Codec, OrderedKey, slice}
use forkbase.Node.Leaf.{
  encode_items, precompute_offsets, find_index_for_key, num_entries, data_at, len_at, get_segment,
}

-- `key(entry)`. A `size_t` wraps around.
unfoldable pub key : Bytes → Slice
key entry = take ((read_le 4 0 entry + 2 ^ 64 - 4) % 2 ^ 64) (drop 4 entry)

-- `item(entry)`
unfoldable pub item : Bytes → Slice × ℕ
unfolding key
item entry = (key entry, (4 + (read_le 4 0 entry + 2 ^ 64 - 4) % 2 ^ 64) % 2 ^ 64)

unfoldable pub encode_num_bytes : Slice → ℕ
encode_num_bytes i = 4 + length i

-- `Encode(buffer, item)`
unfoldable pub encode : Slice → Bytes
unfolding encode_num_bytes
encode i = le_bytes 4 (encode_num_bytes i) ++ i

-- Its size fits the size field.
unfoldable pub Fits : Slice → Type 0
unfolding encode_num_bytes
Fits i = encode_num_bytes i < 2 ^ 32

pub length-encode : (i : Slice) → length (encode i) ≡ encode_num_bytes i
unfolding encode encode_num_bytes
length-encode i =
    omega (arith, length-append (le_bytes 4 (4 + length i)) i, length-le_bytes 4 (4 + length i))

encode_parts :
    (i after : Bytes) → encode i ++ after ≡ le_bytes 4 (encode_num_bytes i) ++ (i ++ after)
unfolding encode
encode_parts i after = simp append_assoc

item_size : (i after : Bytes) → Fits i → read_le 4 0 (encode i ++ after) ≡ encode_num_bytes i
unfolding Fits
item_size i after h =
    rw encode_parts (read_le-append 4 0 (encode_num_bytes i) [] (i ++ after) refl h)

key_bytes : (i after : Bytes) → drop 4 (encode i ++ after) ≡ i ++ after
unfolding le_bytes
key_bytes i after = rw encode_parts refl

key_length : (i : Bytes) → Fits i → (encode_num_bytes i + 2 ^ 64 - 4) % 2 ^ 64 ≡ length i
unfolding Fits encode_num_bytes
key_length i h = omega arith

pub read_key-encode : (i after : Bytes) → Fits i → key (encode i ++ after) ≡ i
unfolding key
read_key-encode i after h =
    rw (item_size i after h, key_bytes i after, key_length i h)
      (take-append (length i) i after refl)

pub item-encode : (i after : Bytes) → Fits i → item (encode i ++ after) ≡ (i, encode_num_bytes i)
unfolding item Fits encode_num_bytes
item-encode i after h =
    let n : (4 + length i) % 2 ^ 64 ≡ encode_num_bytes i = omega arith in
    rw (read_key-encode i after h, item_size i after h, key_length i h) (ap (λ m. (i, m)) n)

abbrev pub codec : Codec
codec = record {
  Item = Slice;
  item_key = λ i. i;
  encode = encode;
  encode_num_bytes = encode_num_bytes;
  read_key = key;
  read_item = item;
  Fits = Fits;
  length-encode = length-encode;
  read_key-encode = read_key-encode;
  read_item-encode = item-encode;
}

-- `Encode(items)`, `PrecomputeOffsets` and `FindIndexForKey` of this node.
unfoldable pub set_encode : List Slice → Option VarSegment
set_encode is = encode_items codec is

unfoldable pub set_offsets : Bytes → Option (List ℕ)
set_offsets p = precompute_offsets codec p

unfoldable pub set_find : List ℕ → Bytes → OrderedKey → Option ℕ
set_find offsets p k = find_index_for_key codec offsets p k

-- `numEntries()`, `data(idx)`, `len(idx)` and `GetSegment`, which are those of a map node.
unfoldable pub set_num_entries : Bytes → ℕ
set_num_entries p = num_entries p

unfoldable pub set_data : List ℕ → Bytes → ℕ → Option Bytes
set_data offsets p idx = data_at offsets p idx

unfoldable pub set_len : List ℕ → ℕ → ℕ → Option ℕ
set_len offsets capacity idx = len_at offsets capacity idx

unfoldable pub set_segment : List ℕ → ℕ → Bytes → ℕ → ℕ → Option VarSegment
set_segment offsets capacity p start num_elements =
    get_segment offsets capacity p start num_elements

-- `key(idx)`
unfoldable pub set_key_at : List ℕ → Bytes → ℕ → Option OrderedKey
set_key_at offsets p idx = elim (data_at offsets p idx) [
  | none ↦ none
  | some entry ↦ some (slice (key entry))
]
