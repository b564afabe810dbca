-- ===== src/Chunk.antt =====
-- `Chunk` (include/chunk/chunk.h, src/chunk/chunk.cc): the unit of storage, its total size and
-- type in front of its data. The default chunk, with no bytes, is `none` where a chunk is optional.
use forkbase.Base.{
  ℕ, ◌+◌, ◌-◌, ◌^◌, ◌<◌, ◌≡◌, refl, ◌∷◌, ◌++◌, arith, Bytes, length, take, drop, le_bytes, read_le,
  le_value, take_self,
}
use forkbase.Hash.{Hash, of}
use forkbase.Types.{ChunkType, chunk_code}

abbrev pub Chunk : Type 0
Chunk = Bytes

-- `kMetaLength`
abbrev pub meta_length : ℕ
meta_length = 5

-- `Chunk(type, capacity)`, with what the caller then writes through `m_data()`.
unfoldable pub new_chunk : ChunkType → Bytes → Chunk
new_chunk type content = le_bytes 4 (meta_length + length content) ++ (chunk_code type ∷ content)

-- `numBytes()`, `type()` as its byte, `capacity()`, `data()`.
unfoldable pub num_bytes : Chunk → ℕ
num_bytes c = read_le 4 0 c

unfoldable pub type_byte : Chunk → ℕ
type_byte c = read_le 1 4 c

unfoldable pub capacity : Chunk → ℕ
unfolding num_bytes
capacity c = num_bytes c - meta_length

unfoldable pub data_of : Chunk → Bytes
data_of c = drop meta_length c

-- `hash()`: the digest of the whole chunk.
unfoldable pub hash_of : (Bytes → Bytes) → Chunk → Hash
unfolding num_bytes
hash_of digest c = of (digest (take (num_bytes c) c))

module _ (type : ChunkType) (content : Bytes) where
  pub data_of-new_chunk : data_of (new_chunk type content) ≡ content
  unfolding data_of new_chunk le_bytes
  data_of-new_chunk = refl

  pub type_byte-new_chunk : type_byte (new_chunk type content) ≡ chunk_code type
  unfolding type_byte new_chunk read_le le_bytes le_value
  type_byte-new_chunk = omega arith

  length-new_chunk : length (new_chunk type content) ≡ meta_length + length content
  unfolding new_chunk le_bytes
  length-new_chunk = omega arith

  pub num_bytes-new_chunk :
      length content + 5 < 2 ^ 32
      → num_bytes (new_chunk type content) ≡ length (new_chunk type content)
  unfolding num_bytes new_chunk read_le le_bytes le_value
  num_bytes-new_chunk h = omega arith

  -- A chunk whose size fits its size field reads back the type and the content that it was made
  -- of, its size is that of its bytes, and its hash is the digest of all of them.
  pub new_chunk_fields :
      (digest : Bytes → Bytes)
      → length content + 5 < 2 ^ 32
      → (num_bytes (new_chunk type content) ≡ length (new_chunk type content))
        × (type_byte (new_chunk type content) ≡ chunk_code type)
        × (capacity (new_chunk type content) ≡ length content)
        × (data_of (new_chunk type content) ≡ content)
        × (hash_of digest (new_chunk type content) ≡ of (digest (new_chunk type content)))
  unfolding capacity hash_of
  new_chunk_fields digest h = (
    num_bytes-new_chunk h,
    type_byte-new_chunk,
    omega (arith, num_bytes-new_chunk h, length-new_chunk),
    data_of-new_chunk,
    rw (num_bytes-new_chunk h, take_self _ (new_chunk type content) refl),
  )
