-- ===== src/Node/MapNode.antt =====
-- `MapNode` (include/node/map_node.h, src/node/map_node.cc): items of a key and a value.
use mathlib.Core.List.{append_assoc}
use forkbase.Base.{
  ℕ, ◌+◌, ◌-◌, ◌^◌, ◌%◌, ◌<◌, ◌≡◌, refl, sym, ap, [], Option, none, some, List, ◌++◌, Bytes, length,
  take, drop, le_bytes, read_le, length-le_bytes, length-append, take-append, drop-append,
  read_le-append, drop-add, arith,
}
use forkbase.Slice.{Slice}
use forkbase.Segment.{VarSegment}
use forkbase.Node.{Codec, OrderedKey, slice}
use forkbase.Node.Leaf.{encode_items, precompute_offsets, find_index_for_key, data_at}

pub record KvItem : Type 0 where
  pub key : Slice
  pub val : Slice

-- `key(entry)`
unfoldable pub key : Bytes → Slice
key entry = take (read_le 4 4 entry) (drop 8 entry)

-- `value(entry)`. A `size_t` wraps around.
unfoldable pub value : Bytes → Slice
value entry =
    let entry_size = read_le 4 0 entry in
    let value_offset = 8 + read_le 4 4 entry in
    take ((entry_size + 2 ^ 64 - value_offset) % 2 ^ 64) (drop value_offset entry)

-- `kvitem(entry)`
unfoldable pub kvitem : Bytes → KvItem × ℕ
unfolding key value
kvitem entry =
    let value_size = (read_le 4 0 entry + 2 ^ 64 - (8 + read_le 4 4 entry)) % 2 ^ 64 in
    (record { key = key entry; val = value entry }, (8 + read_le 4 4 entry + value_size) % 2 ^ 64)

unfoldable pub encode_num_bytes : KvItem → ℕ
encode_num_bytes i = 8 + length i.key + length i.val

-- `Encode(buffer, kv_item)`
unfoldable pub encode : KvItem → Bytes
unfolding encode_num_bytes
encode i = le_bytes 4 (encode_num_bytes i) ++ (le_bytes 4 (length i.key) ++ (i.key ++ i.val))

-- Its size fits the size field.
unfoldable pub Fits : KvItem → Type 0
unfolding encode_num_bytes
Fits i = encode_num_bytes i < 2 ^ 32

pub length-encode : (i : KvItem) → length (encode i) ≡ encode_num_bytes i
unfolding encode encode_num_bytes
length-encode i = omega (
  arith,
  length-append (le_bytes 4 (8 + length i.key + length i.val))
      (le_bytes 4 (length i.key) ++ (i.key ++ i.val)),
  length-append (le_bytes 4 (length i.key)) (i.key ++ i.val),
  length-append i.key i.val,
  length-le_bytes 4 (8 + length i.key + length i.val),
  length-le_bytes 4 (length i.key),
)

-- An item with what comes behind it, as its four parts.
encode_parts :
    (i : KvItem) (after : Bytes)
    → encode i ++ after
      ≡ le_bytes 4 (encode_num_bytes i)
        ++ (le_bytes 4 (length i.key) ++ (i.key ++ (i.val ++ after)))
unfolding encode
encode_parts i after = simp append_assoc

item_size :
    (i : KvItem) (after : Bytes) → Fits i → read_le 4 0 (encode i ++ after) ≡ encode_num_bytes i
unfolding Fits
item_size i after h = rw encode_parts (
    read_le-append 4 0 (encode_num_bytes i) []
      (le_bytes 4 (length i.key) ++ (i.key ++ (i.val ++ after))) refl h)

key_size : (i : KvItem) (after : Bytes) → Fits i → read_le 4 4 (encode i ++ after) ≡ length i.key
unfolding Fits encode_num_bytes
key_size i after h = rw encode_parts (
    read_le-append 4 4 (length i.key) (le_bytes 4 (encode_num_bytes i)) (i.key ++ (i.val ++ after))
      (length-le_bytes 4 (encode_num_bytes i)) (omega arith))

key_bytes : (i : KvItem) (after : Bytes) → drop 8 (encode i ++ after) ≡ i.key ++ (i.val ++ after)
unfolding le_bytes
key_bytes i after = rw encode_parts refl

pub read_key-encode : (i : KvItem) (after : Bytes) → Fits i → key (encode i ++ after) ≡ i.key
unfolding key
read_key-encode i after h =
    rw (key_size i after h, key_bytes i after)
      (take-append (length i.key) i.key (i.val ++ after) refl)

value-encode : (i : KvItem) (after : Bytes) → Fits i → value (encode i ++ after) ≡ i.val
unfolding value Fits encode_num_bytes
value-encode i after h =
    let e : (encode_num_bytes i + 2 ^ 64 - (8 + length i.key)) % 2 ^ 64 ≡ length i.val =
      omega arith in
    let d : drop (8 + length i.key) (encode i ++ after) ≡ i.val ++ after =
      rw (sym (drop-add 8 (length i.key) (encode i ++ after)), key_bytes i after)
        (drop-append (length i.key) i.key (i.val ++ after) refl) in
    rw (item_size i after h, key_size i after h, e, d) (take-append (length i.val) i.val after refl)

pub kvitem-encode :
    (i : KvItem) (after : Bytes) → Fits i → kvitem (encode i ++ after) ≡ (i, encode_num_bytes i)
unfolding kvitem Fits encode_num_bytes
kvitem-encode i after h =
    let n : (8 + length i.key + (encode_num_bytes i + 2 ^ 64 - (8 + length i.key)) % 2 ^ 64)
          % 2 ^ 64
        ≡ encode_num_bytes i =
      omega arith in
    rw (read_key-encode i after h, value-encode i after h, item_size i after h, key_size i after h)
      (ap (λ m. (i, m)) n)

abbrev pub codec : Codec
codec = record {
  Item = KvItem;
  item_key = λ i. i.key;
  encode = encode;
  encode_num_bytes = encode_num_bytes;
  read_key = key;
  read_item = kvitem;
  Fits = Fits;
  length-encode = length-encode;
  read_key-encode = read_key-encode;
  read_item-encode = kvitem-encode;
}

-- `Encode(items)`, `PrecomputeOffsets` and `FindIndexForKey` of this node.
unfoldable pub map_encode : List KvItem → Option VarSegment
map_encode is = encode_items codec is

unfoldable pub map_offsets : Bytes → Option (List ℕ)
map_offsets p = precompute_offsets codec p

unfoldable pub map_find : List ℕ → Bytes → OrderedKey → Option ℕ
map_find offsets p k = find_index_for_key codec offsets p k

-- `key(idx)`
unfoldable pub map_key_at : List ℕ → Bytes → ℕ → Option OrderedKey
map_key_at offsets p idx = elim (data_at offsets p idx) [
  | none ↦ none
  | some entry ↦ some (slice (key entry))
]
