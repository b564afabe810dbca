-- ===== src/Node/BlobNode.antt =====
-- `BlobChunker` and `BlobNode` (include/node/blob_node.h, src/node/blob_node.cc): the leaves of
-- blobs, whose entries are bytes. `none` is a failed check.
use forkbase.Base.{
  ℕ, zero, suc, ◌+◌, ◌-◌, ◌%◌, ◌^◌, ◌≤◌, ◌<◌, ◌≡◌, refl, sym, ap, ◌∙◌, true, false, not, Option,
  none, some, List, [], ◌∷◌, ◌++◌, Bytes, length, take, drop, ltb, leb, if◌then◌else◌, arith,
  Bool-cases, inl, inr, length-take, length-drop,
}
use forkbase.Types.{ChunkType}
use forkbase.Chunk.{Chunk, new_chunk, capacity, data_of, new_chunk_fields}
use forkbase.Segment.{VarSegment}
use forkbase.Segment.Fixed.{FixedSegment, bytes_of}
use forkbase.Segment.Fixed
use forkbase.Node.ListNode.{with_entry}

unfoldable pub total_entries : List FixedSegment → ℕ
unfolding Fixed.num_entries
total_entries [] = 0
total_entries (s ∷ ss) = Fixed.num_entries s + total_entries ss

unfoldable pub total_bytes : List FixedSegment → Bytes
unfolding bytes_of
total_bytes [] = []
total_bytes (s ∷ ss) = bytes_of s ++ total_bytes ss

-- `BlobChunker::Make`
unfoldable pub blob_make : (Bytes → Bytes) → List FixedSegment → Chunk × VarSegment
unfolding total_entries total_bytes
blob_make digest segments =
    with_entry digest (total_entries segments)
      (new_chunk ChunkType.blob_chunk (total_bytes segments))

-- `len` of `Copy`, with the sum and the difference of 64 bits.
unfoldable pub copy_len : Chunk → ℕ → ℕ → ℕ
copy_len c start num_bytes =
    if ltb (capacity c) ((start + num_bytes) % 2 ^ 64)
    then (capacity c + 2 ^ 64 - start) % 2 ^ 64
    else num_bytes

-- `Copy`: the number of bytes that is returned and what is copied; `none` is a `memcpy` that reads
-- behind the chunk.
unfoldable pub copy : Chunk → ℕ → ℕ → Option (ℕ × Bytes)
unfolding copy_len
copy c start num_bytes =
    let len = copy_len c start num_bytes in
    if ltb (capacity c) (start + len) then none else some (len, take len (drop start (data_of c)))

-- `GetSegment`
unfoldable pub get_segment : Chunk → ℕ → ℕ → Option FixedSegment
get_segment c start num_elements =
    if not (leb ((start + num_elements) % 2 ^ 64) (capacity c))
    then none
    else some
        (record { data' = drop start (data_of c); num_bytes = num_elements; bytes_per_entry = 1 })

take_all : (n : ℕ) (b : Bytes) → length b ≤ n → take n b ≡ b
take_all zero [] h = refl
take_all zero (x ∷ b) h = absurd (omega arith)
take_all (suc n) [] h = refl
take_all (suc n) (x ∷ b) h = ap (λ t. x ∷ t) (take_all n b (omega arith))

module _ (c : Chunk) (start num_bytes : ℕ) (len : ℕ) (e : copy_len c start num_bytes ≡ len) where
  copy-inside :
      start + len ≤ capacity c
      → copy c start num_bytes ≡ some (len, take len (drop start (data_of c)))
  unfolding copy
  copy-inside h = let t : ltb (capacity c) (start + len) ≡ false = ground arith in rw (e, t) refl

  copy-behind : capacity c < start + len → copy c start num_bytes ≡ none
  unfolding copy
  copy-behind h = let t : ltb (capacity c) (start + len) ≡ true = ground arith in rw (e, t) refl

module _ (content : Bytes) (start num_bytes : ℕ) (small : length content + 5 < 2 ^ 32)
    (le : start ≤ length content) where
  abbrev leaf : Chunk
  leaf = new_chunk ChunkType.blob_chunk content

  capacity-leaf : capacity leaf ≡ length content
  capacity-leaf = (new_chunk_fields ChunkType.blob_chunk content (λ b. b) small).2

  data_of-leaf : data_of leaf ≡ content
  data_of-leaf = (new_chunk_fields ChunkType.blob_chunk content (λ b. b) small).3

  -- The length that is copied is that of what there is.
  copy_len-there :
      start + num_bytes < 2 ^ 64
      → copy_len leaf start num_bytes ≡ length (take num_bytes (drop start content))
  unfolding copy_len
  copy_len-there sum =
      let rest = length-drop start content in
      let there = length-take num_bytes (drop start content) in
      elim (Bool-cases (ltb (length content) ((start + num_bytes) % 2 ^ 64))) [
        | inl t ↦ rw (capacity-leaf, t) (ground (arith, t, rest, there, small, le, sum))
        | inr t ↦ rw (capacity-leaf, t) (ground (arith, t, rest, there, le, sum))
      ]

  copy_len-wraps :
      num_bytes < 2 ^ 64 → 2 ^ 64 ≤ start + num_bytes → copy_len leaf start num_bytes ≡ num_bytes
  unfolding copy_len
  copy_len-wraps word sum =
      let t : ltb (length content) ((start + num_bytes) % 2 ^ 64) ≡ false =
        ground (arith, small, le, word, sum) in
      rw (capacity-leaf, t) refl

  -- As many bytes as there are of those that are asked for.
  take-there :
      take (length (take num_bytes (drop start content))) (drop start content)
      ≡ take num_bytes (drop start content)
  take-there =
      let there = length-take num_bytes (drop start content) in
      elim (Bool-cases (leb num_bytes (length (drop start content)))) [
        | inl t ↦ ap (λ n. take n (drop start content)) (ground (arith, t, there))
        | inr t ↦
            take_all (length (take num_bytes (drop start content))) (drop start content)
              (ground (arith, t, there))
            ∙ sym (take_all num_bytes (drop start content) (ground (arith, t)))
      ]

  -- `Copy` from a place inside a blob's leaf, of a number of bytes that with the place is less than
  -- 2 ^ 64, copies the bytes of the leaf from there on, as many as are asked for and there, and
  -- returns their number. Where that sum is 2 ^ 64 or more, `Copy` reads behind the leaf.
  pub copy_lem :
      num_bytes < 2 ^ 64
      → copy leaf start num_bytes ≡ (
          if ltb (start + num_bytes) (2 ^ 64)
          then some
              (length (take num_bytes (drop start content)), take num_bytes (drop start content))
          else none)
  copy_lem word = elim (Bool-cases (ltb (start + num_bytes) (2 ^ 64))) [
    | inl t ↦
        let sum : start + num_bytes < 2 ^ 64 = ground (arith, t) in
        let there = length-take num_bytes (drop start content) in
        rw t (
          copy-inside leaf start num_bytes _ (copy_len-there sum)
            (omega (arith, capacity-leaf, there, length-drop start content, le))
          ∙ rw data_of-leaf
              (ap (λ b. some (length (take num_bytes (drop start content)), b)) take-there))
    | inr t ↦
        let sum : 2 ^ 64 ≤ start + num_bytes = ground (arith, t) in
        rw t (
          copy-behind leaf start num_bytes num_bytes (copy_len-wraps word sum)
            (omega (arith, capacity-leaf, small, sum)))
  ]
