-- ===== src/Cell/RoundTrip.antt =====
-- Cells that were made by NewChunk, through their readers (include/node/cell_node.h).
use mathlib.Core.List.{append_assoc, append-nil}
use forkbase.Base.{
  ℕ, ◌+◌, ◌*◌, ◌-◌, ◌^◌, ◌≤◌, ◌<◌, ◌≡◌, refl, ap, [], ◌++◌, some, Bytes, length, take, drop,
  le_bytes, le_value, read_le, arith, length-append, take-append, drop-append,
}
use forkbase.Hash.{Hash, null, of, value, byte_length}
use forkbase.Types.{UType, utype_code, cell}
use forkbase.Chunk.{Chunk, new_chunk, data_of, data_of-new_chunk}
use forkbase.Slice.{Slice}
use forkbase.Cell.{
  cell_header, cell_content, new_cell_chunk, count_pre_hash, size_of_int16, cell_type, num_pre_hash,
  key_length, data_length, ctx_length, key_offset, data_offset, ctx_offset, pre_hash, cell_key,
  cell_data, cell_ctx,
}

-- The second predecessor is absent, or a digest.
abbrev pub IsOptionalDigest : Hash → Type 0
IsOptionalDigest null = Unit
IsOptionalDigest (of b) = length b ≡ byte_length

field_at :
    (n m : ℕ) (before field after : Bytes)
    → length before ≡ n
    → length field ≡ m
    → take m (drop n (before ++ (field ++ after))) ≡ field
field_at n m before field after h k =
    rw (drop-append n before (field ++ after) h) (take-append m field after k)

length-optional :
    (h : Hash)
    → IsOptionalDigest h
    → byte_length + length (value h) ≡ byte_length * count_pre_hash h
length-optional null d = refl
length-optional (of b) d = omega arith

size_of_int16_small : (v : ℕ) → v < 2 ^ 15 → size_of_int16 v ≡ v
unfolding size_of_int16
size_of_int16_small v h = ground arith

size_of_int16_large : (v : ℕ) → 2 ^ 15 ≤ v → size_of_int16 v ≡ v + (2 ^ 64 - 2 ^ 16)
unfolding size_of_int16
size_of_int16_large v h = ground arith

length-header : (type : UType) (n k d c : ℕ) → length (cell_header type n k d c) ≡ 8
unfolding cell_header le_bytes
length-header type n k d c = refl

module _ (type : UType) (key data' ctx : Slice) (b1 : Bytes) (pre2 : Hash)
    (d1 : length b1 ≡ byte_length) (d2 : IsOptionalDigest pre2) where
  abbrev content : Bytes
  content = cell_content type key data' ctx (of b1) pre2

  abbrev header : Bytes
  header = cell_header type (count_pre_hash pre2) (length key) (length data') (length ctx)

  module _ (key_fits : length key < 2 ^ 16) (data_fits : length data' < 2 ^ 16)
      (ctx_fits : length ctx < 2 ^ 16) where
    pub header_reads :
        (cell_type content ≡ utype_code type)
        × (num_pre_hash content ≡ count_pre_hash pre2)
        × (key_length content ≡ length key)
        × (data_length content ≡ size_of_int16 (length data'))
        × (ctx_length content ≡ size_of_int16 (length ctx))
    unfolding cell_content cell_header cell_type num_pre_hash key_length data_length ctx_length
        read_le le_bytes le_value
    header_reads = (
      omega arith,
      omega arith,
      omega arith,
      ap size_of_int16 (omega arith),
      ap size_of_int16 (omega arith),
    )

    abbrev before_key : Bytes
    before_key = header ++ (b1 ++ value pre2)

    key_offset-content : key_offset content ≡ 8 + byte_length * count_pre_hash pre2
    unfolding key_offset
    key_offset-content = rw (header_reads.1)

    length-before_key : length before_key ≡ 8 + byte_length * count_pre_hash pre2
    length-before_key =
        rw (length-append, length-append, length-header) (omega (arith, length-optional pre2 d2))

    content_at_key : content ≡ before_key ++ (key ++ (data' ++ ctx))
    unfolding cell_content
    content_at_key = simp append_assoc

    content_at_data : content ≡ (before_key ++ key) ++ (data' ++ ctx)
    unfolding cell_content
    content_at_data = simp append_assoc

    content_at_ctx : content ≡ (before_key ++ key ++ data') ++ (ctx ++ [])
    unfolding cell_content
    content_at_ctx = simp (append_assoc, append-nil)

    pub cell_key-content : cell_key content ≡ key
    unfolding cell_key
    cell_key-content =
        rw (header_reads.2, key_offset-content, content_at_key)
          (field_at _ _ before_key key (data' ++ ctx) length-before_key refl)

    pre_hash_first : pre_hash 0 content ≡ of b1
    unfolding pre_hash cell_content
    pre_hash_first =
        rw (header_reads.1, field_at 8 20 header b1 _ (length-header type _ _ _ _) d1)
          (ground arith)

    module _ (data_small : length data' < 2 ^ 15) (ctx_small : length ctx < 2 ^ 15) where
      data_offset-content : data_offset content ≡ 8 + byte_length * count_pre_hash pre2 + length key
      unfolding data_offset
      data_offset-content = rw (key_offset-content, header_reads.2) (ground arith)

      pub cell_data-content : cell_data content ≡ data'
      unfolding cell_data
      cell_data-content =
          rw
            (
              header_reads.3,
              size_of_int16_small (length data') data_small,
              data_offset-content,
              content_at_data,
            )
            (field_at _ _ (before_key ++ key) data' ctx
              (rw length-append (omega (arith, length-before_key))) refl)

      ctx_offset-content :
          ctx_offset content ≡ 8 + byte_length * count_pre_hash pre2 + length key + length data'
      unfolding ctx_offset
      ctx_offset-content =
          rw (data_offset-content, header_reads.3, size_of_int16_small (length data') data_small)
            (ground arith)

      pub cell_ctx-content : cell_ctx content ≡ ctx
      unfolding cell_ctx
      cell_ctx-content =
          rw
            (
              header_reads.4,
              size_of_int16_small (length ctx) ctx_small,
              ctx_offset-content,
              content_at_ctx,
            )
            (field_at _ _ (before_key ++ key ++ data') ctx []
              (rw (length-append, length-append) (omega (arith, length-before_key))) refl)

pre_hash_second :
    (type : UType) (key data' ctx : Slice) (b1 : Bytes) (pre2 : Hash)
    → length b1 ≡ byte_length
    → IsOptionalDigest pre2
    → length key < 2 ^ 16
    → length data' < 2 ^ 16
    → length ctx < 2 ^ 16
    → pre_hash 1 (cell_content type key data' ctx (of b1) pre2) ≡ pre2
unfolding pre_hash cell_content
pre_hash_second type key data' ctx b1 null d1 d2 k d c =
    rw ((header_reads type key data' ctx b1 null d1 d2 k d c).1)
pre_hash_second type key data' ctx b1 (of b2) d1 d2 k d c =
    let header = cell_header type 2 (length key) (length data') (length ctx) in
    let split : cell_content type key data' ctx (of b1) (of b2)
        ≡ (header ++ b1) ++ (b2 ++ (key ++ (data' ++ ctx))) =
      simp append_assoc in
    rw ((header_reads type key data' ctx b1 (of b2) d1 d2 k d c).1) (
      rw split (
        ap of (
          field_at 28 20 (header ++ b1) b2 _
            (rw length-append
              (omega (arith, length-header type 2 (length key) (length data') (length ctx))))
            d2)))

-- The readers of a cell's data return these parts.
pub record Holds (type : UType) (key data' ctx : Slice) (pre1 pre2 : Hash) (d : Bytes)
    : Type 0 where
  pub type_is : cell_type d ≡ utype_code type
  pub key_is : cell_key d ≡ key
  pub data_is : cell_data d ≡ data'
  pub ctx_is : cell_ctx d ≡ ctx
  pub pre1_is : pre_hash 0 d ≡ pre1
  pub pre2_is : pre_hash 1 d ≡ pre2

module _ (type : UType) (key data' ctx : Slice) (b1 : Bytes) (pre2 : Hash)
    (d1 : length b1 ≡ byte_length) (d2 : IsOptionalDigest pre2)
    (key_fits : length key < 2 ^ 16) where
  pub new_cell_chunk-eq_some :
      length data' < 2 ^ 16
      → length ctx < 2 ^ 16
      → new_cell_chunk type key data' ctx (of b1) pre2
        ≡ some (new_chunk cell (cell_content type key data' ctx (of b1) pre2))
  unfolding new_cell_chunk
  new_cell_chunk-eq_some data_fits ctx_fits = ground arith

  -- A cell whose key is shorter than 2 ^ 16 and whose data and context are shorter than 2 ^ 15
  -- bytes is made without a failed check, and its readers return the type, key, data, context and
  -- both predecessors that it was made of.
  pub new_cell_chunk-Holds :
      length data' < 2 ^ 15
      → length ctx < 2 ^ 15
      → (c : Chunk) × (new_cell_chunk type key data' ctx (of b1) pre2 ≡ some c)
        × Holds type key data' ctx (of b1) pre2 (data_of c)
  new_cell_chunk-Holds ds cs =
      let df : length data' < 2 ^ 16 = omega arith in
      let cf : length ctx < 2 ^ 16 = omega arith in
      (
        new_chunk cell (cell_content type key data' ctx (of b1) pre2),
        new_cell_chunk-eq_some df cf,
        rw data_of-new_chunk (record {
          type_is = (header_reads type key data' ctx b1 pre2 d1 d2 key_fits df cf).0;
          key_is = cell_key-content type key data' ctx b1 pre2 d1 d2 key_fits df cf;
          data_is = cell_data-content type key data' ctx b1 pre2 d1 d2 key_fits df cf ds cs;
          ctx_is = cell_ctx-content type key data' ctx b1 pre2 d1 d2 key_fits df cf ds cs;
          pre1_is = pre_hash_first type key data' ctx b1 pre2 d1 d2 key_fits df cf;
          pre2_is = pre_hash_second type key data' ctx b1 pre2 d1 d2 key_fits df cf;
        }),
      )

  -- Data of 2 ^ 15 up to 2 ^ 16 - 1 bytes passes the checks too, but the length that the node
  -- reads back is then 2 ^ 64 - 2 ^ 16 bytes more than was written, while the key, the type and
  -- the predecessors are still read back.
  pub data_length_extended :
      2 ^ 15 ≤ length data'
      → length data' < 2 ^ 16
      → length ctx < 2 ^ 16
      → (c : Chunk) × (new_cell_chunk type key data' ctx (of b1) pre2 ≡ some c)
        × (data_length (data_of c) ≡ length data' + (2 ^ 64 - 2 ^ 16))
        × (cell_key (data_of c) ≡ key)
        × (cell_type (data_of c) ≡ utype_code type)
        × (pre_hash 0 (data_of c) ≡ of b1)
        × (pre_hash 1 (data_of c) ≡ pre2)
  data_length_extended big df cf = (
    new_chunk cell (cell_content type key data' ctx (of b1) pre2),
    new_cell_chunk-eq_some df cf,
    rw (data_of-new_chunk, (header_reads type key data' ctx b1 pre2 d1 d2 key_fits df cf).3)
        (size_of_int16_large (length data') big),
    rw data_of-new_chunk (cell_key-content type key data' ctx b1 pre2 d1 d2 key_fits df cf),
    rw data_of-new_chunk ((header_reads type key data' ctx b1 pre2 d1 d2 key_fits df cf).0),
    rw data_of-new_chunk (pre_hash_first type key data' ctx b1 pre2 d1 d2 key_fits df cf),
    rw data_of-new_chunk (pre_hash_second type key data' ctx b1 pre2 d1 d2 key_fits df cf),
  )
