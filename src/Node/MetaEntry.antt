-- ===== src/Node/MetaEntry.antt =====
-- `MetaEntry` (include/node/node.h, src/node/node.cc): the entry of a meta node, which points to a
-- child by the hash of its chunk, with the largest key below it.
use mathlib.Core.List.{append_assoc}
use forkbase.Base.{
  ℕ, ◌+◌, ◌-◌, ◌^◌, ◌%◌, ◌<◌, ◌≡◌, refl, sym, ap, ◌∙◌, not, ◌∷◌, ◌++◌, ◌==◌, if◌then◌else◌, Bytes,
  length, take, drop, le_bytes, le_value, read_le, length-le_bytes, le_value-le_bytes, take-append,
  drop-append, drop-add, take_self, arith,
}
use forkbase.Hash.{Hash, of, value, byte_length}
use forkbase.Node.{OrderedKey, number, slice}

-- `OrderedKey::numBytes`
unfoldable pub key_num_bytes : OrderedKey → ℕ
key_num_bytes (number v) = 8
key_num_bytes (slice s) = length s

-- `OrderedKey::Encode`
unfoldable pub key_encode : OrderedKey → Bytes
key_encode (number v) = le_bytes 8 v
key_encode (slice s) = s

-- `OrderedKey::byValue`, as the byte of a `bool`.
unfoldable pub by_value : OrderedKey → ℕ
by_value (number v) = 1
by_value (slice s) = 0

-- `kKeyOffset`: two fields of 4 bytes, one of 8, and the hash.
abbrev pub meta_key_offset : ℕ
meta_key_offset = 4 + 4 + 8 + byte_length

-- `MetaEntry::Encode`. The offsets are those of the fields in a row: 0, 4, 8, 16 and 36.
unfoldable pub meta_encode : ℕ → ℕ → Hash → OrderedKey → Bytes
unfolding key_num_bytes key_encode by_value
meta_encode num_leaves num_elements data_hash key =
    le_bytes 4 (meta_key_offset + 1 + key_num_bytes key)
    ++ (le_bytes 4 num_leaves
        ++ (le_bytes 8 num_elements
            ++ (take byte_length (value data_hash) ++ (by_value key ∷ key_encode key))))

unfoldable pub meta_num_bytes : Bytes → ℕ
meta_num_bytes p = read_le 4 0 p

unfoldable pub meta_num_leaves : Bytes → ℕ
meta_num_leaves p = read_le 4 4 p

unfoldable pub meta_num_elements : Bytes → ℕ
meta_num_elements p = read_le 8 8 p

unfoldable pub meta_target_hash : Bytes → Hash
meta_target_hash p = of (take byte_length (drop 16 p))

-- `orderedKey()`: the constructor reads the number again from the bytes.
unfoldable pub meta_ordered_key : Bytes → OrderedKey
unfolding meta_num_bytes
meta_ordered_key p =
    let num_bytes = (meta_num_bytes p + 2 ^ 64 - 37) % 2 ^ 64 in
    if not (read_le 1 36 p == 0)
    then number (read_le 8 37 p)
    else slice (take num_bytes (drop 37 p))

-- A number of 64 bits, or any slice.
unfoldable pub IsKey : OrderedKey → Type 0
IsKey (number v) = v < 2 ^ 64
IsKey (slice s) = Unit

-- What the readers of an entry return.
pub record MetaHolds (num_leaves num_elements : ℕ) (data_hash : Hash) (key : OrderedKey) (p : Bytes)
    : Type 0 where
  pub leaves_are : meta_num_leaves p ≡ num_leaves
  pub elements_are : meta_num_elements p ≡ num_elements
  pub hash_is : meta_target_hash p ≡ data_hash
  pub key_is : meta_ordered_key p ≡ key
  pub size_is : meta_num_bytes p ≡ 37 + key_num_bytes key

-- The fields of an entry, with what comes behind it.
meta_parts :
    (l e : ℕ) (h : Hash) (key : OrderedKey) (after : Bytes)
    → meta_encode l e h key ++ after
      ≡ le_bytes 4 (36 + 1 + key_num_bytes key)
        ++ (le_bytes 4 l
            ++ (le_bytes 8 e
                ++ (take byte_length (value h) ++ (by_value key ∷ (key_encode key ++ after)))))
unfolding meta_encode
meta_parts l e h key after = simp append_assoc

module _ (l e : ℕ) (b : Bytes) (key : OrderedKey) (after : Bytes)
    (digest : length b ≡ byte_length) where
  abbrev entry : Bytes
  entry = meta_encode l e (of b) key ++ after

  read_size : 37 + key_num_bytes key < 2 ^ 32 → meta_num_bytes entry ≡ 37 + key_num_bytes key
  unfolding meta_num_bytes read_le le_bytes
  read_size h =
      rw meta_parts (le_value-le_bytes 4 (36 + 1 + key_num_bytes key) (omega arith) ∙ omega arith)

  read_leaves : l < 2 ^ 32 → meta_num_leaves entry ≡ l
  unfolding meta_num_leaves read_le le_bytes
  read_leaves h = rw meta_parts (le_value-le_bytes 4 l h)

  read_elements : e < 2 ^ 64 → meta_num_elements entry ≡ e
  unfolding meta_num_elements read_le le_bytes
  read_elements h = rw meta_parts (le_value-le_bytes 8 e h)

  read_hash : meta_target_hash entry ≡ of b
  unfolding meta_target_hash le_bytes
  read_hash =
      rw (meta_parts, take_self byte_length b digest)
        (ap of (take-append byte_length b (by_value key ∷ (key_encode key ++ after)) digest))

  drop_sixteen : drop 16 entry ≡ b ++ (by_value key ∷ (key_encode key ++ after))
  unfolding le_bytes
  drop_sixteen = rw (meta_parts, take_self byte_length b digest)

  drop_key : drop 36 entry ≡ by_value key ∷ (key_encode key ++ after)
  drop_key =
      rw (sym (drop-add 16 20 entry), drop_sixteen)
        (drop-append byte_length b (by_value key ∷ (key_encode key ++ after)) digest)

  drop_key_bytes : drop 37 entry ≡ key_encode key ++ after
  drop_key_bytes = rw (sym (drop-add 36 1 entry), drop_key)

  read_flag : read_le 1 36 entry ≡ by_value key
  unfolding read_le le_value
  read_flag = rw drop_key (omega arith)

read_key :
    (l e : ℕ) (b : Bytes) (key : OrderedKey) (after : Bytes)
    → length b ≡ byte_length
    → IsKey key
    → 37 + key_num_bytes key < 2 ^ 32
    → meta_ordered_key (meta_encode l e (of b) key ++ after) ≡ key
unfolding meta_ordered_key IsKey key_num_bytes
read_key l e b (number v) after d k h =
    let flag : read_le 1 36 (meta_encode l e (of b) (number v) ++ after) ≡ 1 =
      unfold by_value in read_flag l e b (number v) after d in
    let value : read_le 8 37 (meta_encode l e (of b) (number v) ++ after) ≡ v =
      unfold key_encode in
      unfold read_le in
      rw (drop_key_bytes l e b (number v) after d)
        (rw (take-append 8 (le_bytes 8 v) after (length-le_bytes 8 v)) (le_value-le_bytes 8 v k)) in
    rw (flag, value)
read_key l e b (slice s) after d k h =
    let flag : read_le 1 36 (meta_encode l e (of b) (slice s) ++ after) ≡ 0 =
      unfold by_value in read_flag l e b (slice s) after d in
    let n : (37 + length s + 2 ^ 64 - 37) % 2 ^ 64 ≡ length s = omega (arith, h) in
    let size : meta_num_bytes (meta_encode l e (of b) (slice s) ++ after) ≡ 37 + length s =
      read_size l e b (slice s) after d h in
    let bytes : drop 37 (meta_encode l e (of b) (slice s) ++ after) ≡ s ++ after =
      unfold key_encode in drop_key_bytes l e b (slice s) after d in
    rw (flag, size, n, bytes) (ap slice (take-append (length s) s after refl))

-- An entry of a digest and a key of 64 bits or of bytes, whose numbers fit their fields, is read
-- back as it was encoded, whatever comes behind it in memory.
pub meta_encode-MetaHolds :
    (l e : ℕ) (b : Bytes) (key : OrderedKey) (after : Bytes)
    → length b ≡ byte_length
    → IsKey key
    → l < 2 ^ 32
    → e < 2 ^ 64
    → 37 + key_num_bytes key < 2 ^ 32
    → MetaHolds l e (of b) key (meta_encode l e (of b) key ++ after)
meta_encode-MetaHolds l e b key after d k hl he h = record {
  leaves_are = read_leaves l e b key after d hl;
  elements_are = read_elements l e b key after d he;
  hash_is = read_hash l e b key after d;
  key_is = read_key l e b key after d k h;
  size_is = read_size l e b key after d h;
}
