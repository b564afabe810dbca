-- ===== src/Cell.antt =====
-- `CellNode` and `UCell` (include/node/cell_node.h, src/node/cell_node.cc, include/types/ucell.h):
-- the chunk of one version of a key: its type, the versions that it follows, key, data, context.
-- The writes through `m_data()` stand here as the concatenation of the fields, in the order of
-- their offsets. `std::memcpy` of a hash copies its bytes.
pub mod RoundTrip
use forkbase.Base.{
  ℕ, ◌+◌, ◌*◌, ◌-◌, ◌^◌, ◌%◌, ◌∷◌, [], ◌++◌, Bool, true, false, not, ◌&&◌, ◌||◌, Option, none, some,
  Bytes, length, take, drop, le_bytes, read_le, ltb, leb, ◌==◌, if◌then◌else◌,
}
use forkbase.Hash.{Hash, null, of, value, is_empty, byte_length}
use forkbase.Types.{UType, utype_code, cell}
use forkbase.Chunk.{Chunk, new_chunk}
use forkbase.Slice.{Slice}

-- `kFieldMaxLength` and `kPreHashPos`
abbrev pub field_max_length : ℕ
field_max_length = 2 ^ 16

abbrev pub pre_hash_pos : ℕ
pre_hash_pos = 8

-- `ComputePreHashOffset`, and `ComputeKeyOffset`, which calls it
abbrev pub compute_pre_hash_offset : ℕ → ℕ
compute_pre_hash_offset idx = pre_hash_pos + byte_length * idx

-- The header before the first field of variable place.
unfoldable pub cell_header : UType → ℕ → ℕ → ℕ → ℕ → Bytes
cell_header type num_pre_hash key_len data_len ctx_len =
    utype_code type
    ∷ num_pre_hash
    ∷ (le_bytes 2 key_len ++ (le_bytes 2 data_len ++ le_bytes 2 ctx_len))

-- `preHash2.empty() ? 1 : 2`
abbrev pub count_pre_hash : Hash → ℕ
count_pre_hash pre_hash2 = if is_empty pre_hash2 then 1 else 2

unfoldable pub cell_content : UType → Slice → Slice → Slice → Hash → Hash → Bytes
cell_content type key data' ctx pre_hash1 pre_hash2 =
    cell_header type (count_pre_hash pre_hash2) (length key) (length data') (length ctx)
    ++ (value pre_hash1 ++ (value pre_hash2 ++ (key ++ (data' ++ ctx))))

-- `CellNode::NewChunk`; `none` where a `CHECK` aborts the process.
unfoldable pub new_cell_chunk : UType → Slice → Slice → Slice → Hash → Hash → Option Chunk
new_cell_chunk type key data' ctx pre_hash1 pre_hash2 =
    if is_empty pre_hash1
    then none
    else if not (ltb (length key) field_max_length)
    then none
    else if not (ltb (length data') field_max_length)
    then none
    else if not (ltb (length ctx) field_max_length)
    then none
    else some (new_chunk cell (cell_content type key data' ctx pre_hash1 pre_hash2))

-- An `int16_t` converted to `size_t`: the sign is extended to 64 bits.
unfoldable pub size_of_int16 : ℕ → ℕ
size_of_int16 v = if ltb v (2 ^ 15) then v else v + (2 ^ 64 - 2 ^ 16)

-- The readers of a node, over the data of its chunk.
unfoldable pub cell_type : Bytes → ℕ
cell_type d = read_le 1 0 d

unfoldable pub num_pre_hash : Bytes → ℕ
num_pre_hash d = read_le 1 1 d

unfoldable pub key_length : Bytes → ℕ
key_length d = read_le 2 2 d

unfoldable pub data_length : Bytes → ℕ
data_length d = size_of_int16 (read_le 2 4 d)

unfoldable pub ctx_length : Bytes → ℕ
ctx_length d = size_of_int16 (read_le 2 6 d)

unfoldable pub key_offset : Bytes → ℕ
key_offset d = compute_pre_hash_offset (num_pre_hash d)

unfoldable pub data_offset : Bytes → ℕ
data_offset d = (key_offset d + key_length d) % 2 ^ 64

unfoldable pub ctx_offset : Bytes → ℕ
ctx_offset d = (data_offset d + data_length d) % 2 ^ 64

unfoldable pub pre_hash : ℕ → Bytes → Hash
pre_hash idx d =
    if leb (num_pre_hash d) idx
    then null
    else of (take byte_length (drop (compute_pre_hash_offset idx) d))

unfoldable pub cell_key : Bytes → Slice
cell_key d = take (key_length d) (drop (key_offset d) d)

unfoldable pub cell_data : Bytes → Slice
cell_data d = take (data_length d) (drop (data_offset d) d)

unfoldable pub cell_ctx : Bytes → Slice
cell_ctx d = take (ctx_length d) (drop (ctx_offset d) d)
