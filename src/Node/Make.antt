-- ===== src/Node/Make.antt =====
-- `MapChunker::Make` and `SetChunker::Make` (src/node/map_node.cc, set_node.cc): one chunk of
-- segments, with the entry that points to it.
use mathlib.Core.List.{append-nil}
use mathlib.Core.Option.{some-injective}
use forkbase.Base.{
  ℕ, ◌+◌, ◌≡◌, refl, sym, ap, ◌∙◌, Bool, true, false, not, ◌||◌, Option, none, some, List, [], ◌∷◌,
  ◌++◌, Bytes, length, drop, le_bytes, ◌==◌, if◌then◌else◌, arith, All,
}
use forkbase.Types.{ChunkType}
use forkbase.Types
use forkbase.Slice.{Slice}
use forkbase.Chunk.{Chunk, new_chunk, hash_of}
use forkbase.Segment.{VarSegment, append_for_chunk}
use forkbase.Segment
use forkbase.Node.{Codec, OrderedKey, slice}
use forkbase.Node.Leaf.{follows, is_ordered, encode_items}
use forkbase.Node.MetaEntry.{meta_encode}
use forkbase.Node.MapNode
use forkbase.Node.SetNode
use forkbase.Node.ReadBack.{
  I, Lies, Lies-tail, read_key_at, is_ordered_tail, bytes_of, offsets_of, encode_items_value,
  encode_items_lem, refuses_no_items, leaf_data, length-offsets_of,
}

-- `num_entries` and the bytes of all segments.
unfoldable pub total_entries : List VarSegment → ℕ
total_entries [] = 0
total_entries (s ∷ ss) = Segment.num_entries s + total_entries ss

unfoldable pub total_bytes : List VarSegment → Bytes
total_bytes [] = []
total_bytes (s ∷ ss) = append_for_chunk s ++ total_bytes ss

-- `CHECK(!seg->empty())` fails for one of them.
unfoldable pub has_empty : List VarSegment → Bool
has_empty [] = false
has_empty (s ∷ ss) = Segment.num_entries s == 0 || has_empty ss

-- The loop over the entries of a segment: the last key, unless a key is not above the one before.
unfoldable pub last_key_of : (Bytes → Slice) → Option Slice → List ℕ → Bytes → Option (Option Slice)
unfolding follows
last_key_of read_key pre [] p = some pre
last_key_of read_key pre (offset ∷ offsets) p =
    let curr_key = read_key (drop offset p) in
    let rest = last_key_of read_key (some curr_key) offsets p in
    if not (follows pre curr_key) then none else rest

-- The loop over the segments.
unfoldable pub last_key : (Bytes → Slice) → Option Slice → List VarSegment → Option (Option Slice)
unfolding last_key_of
last_key read_key pre [] = some pre
last_key read_key pre (s ∷ ss) = elim (last_key_of read_key pre s.entry_offsets s.data') [
  | none ↦ none
  | some key ↦ last_key read_key key ss
]

-- The key of the entry: for no segments at all, that of the default constructor, whose fields are
-- not initialised and stand here as `unset`.
unfoldable pub entry_key : OrderedKey → Option Slice → OrderedKey
entry_key unset none = unset
entry_key unset (some key) = slice key

-- `Make`: the chunk and the segment of its entry; `none` where a check fails.
unfoldable pub make :
    ChunkType
    → (Bytes → Slice)
    → (Bytes → Bytes)
    → OrderedKey
    → List VarSegment
    → Option (Chunk × VarSegment)
unfolding total_entries total_bytes has_empty last_key entry_key
make type read_key digest unset segments =
    if has_empty segments then none else elim (last_key read_key none segments) [
      | none ↦ none
      | some key ↦
          let chunk =
            new_chunk type (le_bytes 4 (total_entries segments) ++ total_bytes segments) in
          let meta =
            meta_encode 1 (total_entries segments) (hash_of digest chunk) (entry_key unset key) in
          some (chunk, record { data' = meta; num_bytes = length meta; entry_offsets = 0 ∷ [] })
    ]

unfoldable pub map_make :
    (Bytes → Bytes) → OrderedKey → List VarSegment → Option (Chunk × VarSegment)
unfolding make
map_make digest unset segments = make Types.map_chunk MapNode.key digest unset segments

unfoldable pub set_make :
    (Bytes → Bytes) → OrderedKey → List VarSegment → Option (Chunk × VarSegment)
unfolding make
set_make digest unset segments = make Types.set_chunk SetNode.key digest unset segments

module _ (codec : Codec) where
  -- The key of the last item.
  unfoldable pub last_of : Option Slice → List (I codec) → Option Slice
  last_of pre [] = pre
  last_of pre (i ∷ is) = last_of (some (Codec.item_key codec i)) is

  last_key_of_lem :
      (is : List (I codec)) (pre : Option Slice) (offset : ℕ) (p : Bytes)
      → All (Codec.Fits codec) is
      → is_ordered codec pre is ≡ true
      → Lies codec p offset is
      → last_key_of (Codec.read_key codec) pre (offsets_of codec offset is) p
        ≡ some (last_of pre is)
  unfolding last_key_of offsets_of last_of
  last_key_of_lem [] pre offset p f o l = refl
  last_key_of_lem (i ∷ is) pre offset p (fi, f) o l =
      let (h, o') = is_ordered_tail codec pre i is o in
      rw (read_key_at codec p offset i is fi l, h)
        (last_key_of_lem is (some (Codec.item_key codec i))
          (offset + Codec.encode_num_bytes codec i) p f o' (Lies-tail codec p offset i is l))

  last_of-some :
      (k : Slice) (is : List (I codec)) → (key : Slice) × (last_of (some k) is ≡ some key)
  unfolding last_of
  last_of-some k [] = (k, refl)
  last_of-some k (i ∷ is) = last_of-some (Codec.item_key codec i) is

  -- The segment that the encoder returns.
  abbrev segment_of : List (I codec) → VarSegment
  segment_of is = record {
    data' = bytes_of codec is;
    num_bytes = 0 + length (bytes_of codec is);
    entry_offsets = offsets_of codec 0 is;
  }

  encoded-segment_of :
      (is : List (I codec)) (seg : VarSegment)
      → encode_items codec is ≡ some seg
      → segment_of is ≡ seg
  encoded-segment_of [] seg e = let r = refuses_no_items codec in absurd (cc)
  encoded-segment_of (i ∷ is) seg e =
      let n : (length (i ∷ is) == 0) ≡ false = ground arith in
      let o = (encode_items_lem codec (i ∷ is) seg e).0 in
      some-injective _ _ (sym (encode_items_value codec (i ∷ is) n o) ∙ e)

  make_parts :
      (type : ChunkType) (digest : Bytes → Bytes) (unset : OrderedKey) (seg : VarSegment) (n : ℕ)
      (key : Slice)
      → Segment.num_entries seg ≡ n
      → (n == 0) ≡ false
      → last_key_of (Codec.read_key codec) none seg.entry_offsets seg.data' ≡ some (some key)
      → make type (Codec.read_key codec) digest unset (seg ∷ []) ≡ (
          let chunk = new_chunk type (le_bytes 4 n ++ append_for_chunk seg) in
          let meta = meta_encode 1 n (hash_of digest chunk) (slice key) in
          some (chunk, record { data' = meta; num_bytes = length meta; entry_offsets = 0 ∷ [] }))
  unfolding make entry_key has_empty total_entries total_bytes last_key
  make_parts type digest unset seg n key e z k =
      let plus : n + 0 ≡ n = omega arith in
      rw (e, z) (rw (k, make) (rw (e, append-nil (append_for_chunk seg), plus)))

  -- `Make` of the one segment that items were encoded into, where they fit, passes its checks. The
  -- chunk holds the number of the items and then their bytes; its entry says that there is one
  -- leaf with as many elements, the hash of that chunk and the key of the last item.
  pub make-encode_items :
      (type : ChunkType) (digest : Bytes → Bytes) (unset : OrderedKey) (is : List (I codec))
      (seg : VarSegment)
      → All (Codec.Fits codec) is
      → encode_items codec is ≡ some seg
      → (key : Slice) × (last_of none is ≡ some key)
        × (make type (Codec.read_key codec) digest unset (seg ∷ []) ≡ (
            let chunk = new_chunk type (leaf_data codec is seg) in
            let meta = meta_encode 1 (length is) (hash_of digest chunk) (slice key) in
            some (chunk, record { data' = meta; num_bytes = length meta; entry_offsets = 0 ∷ [] })))
  unfolding last_of
  make-encode_items type digest unset [] seg f e = let r = refuses_no_items codec in absurd (cc)
  make-encode_items type digest unset (i ∷ is) seg f e =
      let s = encoded-segment_of (i ∷ is) seg e in
      let (key, at) = last_of-some (Codec.item_key codec i) is in
      let o = (encode_items_lem codec (i ∷ is) seg e).0 in
      let run : last_key_of (Codec.read_key codec) none seg.entry_offsets seg.data'
          ≡ some (some key) =
        rw (sym s) (
          last_key_of_lem (i ∷ is) none 0 (bytes_of codec (i ∷ is)) f o
            ([], sym (append-nil (bytes_of codec (i ∷ is))))
          ∙ ap some at) in
      let n : Segment.num_entries seg ≡ length (i ∷ is) =
        rw (sym s) (length-offsets_of codec (i ∷ is) 0) in
      let z : (length (i ∷ is) == 0) ≡ false = ground arith in
      (key, at, make_parts type digest unset seg (length (i ∷ is)) key n z run)
