-- ===== src/Node/ReadBack.antt =====
-- Leaf nodes that were encoded from items, through their readers (src/node/map_node.cc,
-- set_node.cc).
use mathlib.Core.List.{append_assoc, append-nil}
use mathlib.Core.Option.{some-injective}
use forkbase.Base.{
  ℕ, zero, suc, ◌+◌, ◌^◌, ◌<◌, ◌≡◌, refl, sym, ap, true, false, ◌==◌, Option, none, some, List, [],
  ◌∷◌, ◌++◌, map, Bytes, length, drop, get_elem?, le_bytes, All, if◌then◌else◌, arith, ◌∙◌,
  drop-add, drop-append, take_self, length-append, read_le-append, length-le_bytes, Bool-cases, inl,
  inr,
}
use forkbase.Slice.{Slice, lt}
use forkbase.Slice.Order.{lt_trichotomy}
use forkbase.Segment.{VarSegment, append_for_chunk}
use forkbase.Node.{Codec, slice, key_eq, key_gt}
use forkbase.Node.Leaf.{
  follows, num_entries, is_ordered, encode_from, encode_items, offsets_from, precompute_offsets,
  find_from, find_index_for_key,
}

-- The reference for a search: how many of the first keys are below this one.
unfoldable pub lower_bound : List Slice → Slice → ℕ
lower_bound [] k = 0
lower_bound (x ∷ xs) k = if lt x k then suc (lower_bound xs k) else 0

module _ (codec : Codec) where
  abbrev pub I : Type 0
  I = Codec.Item codec

  -- The bytes of items in a row, and where each of them begins.
  unfoldable pub bytes_of : List I → Bytes
  bytes_of [] = []
  bytes_of (i ∷ is) = Codec.encode codec i ++ bytes_of is

  unfoldable pub offsets_of : ℕ → List I → List ℕ
  offsets_of offset [] = []
  offsets_of offset (i ∷ is) = offset ∷ offsets_of (offset + Codec.encode_num_bytes codec i) is

  pub length-offsets_of : (is : List I) (offset : ℕ) → length (offsets_of offset is) ≡ length is
  unfolding offsets_of
  length-offsets_of [] offset = refl
  length-offsets_of (i ∷ is) offset =
      ap suc (length-offsets_of is (offset + Codec.encode_num_bytes codec i))

  encode_from_lem :
      (is : List I) (offset : ℕ)
      → encode_from codec offset is
        ≡ (bytes_of is, (offset + length (bytes_of is), offsets_of offset is))
  unfolding encode_from bytes_of offsets_of
  encode_from_lem [] offset = ap (λ n. ([], (n, []))) (omega arith)
  encode_from_lem (i ∷ is) offset =
      let k : offset + length (Codec.encode codec i ++ bytes_of is)
          ≡ offset + Codec.encode_num_bytes codec i + length (bytes_of is) =
        omega (
          arith,
          length-append (Codec.encode codec i) (bytes_of is),
          Codec.length-encode codec i,
        ) in
      rw (encode_from_lem is (offset + Codec.encode_num_bytes codec i), k)

  -- The items lie in memory from an offset on.
  abbrev pub Lies : Bytes → ℕ → List I → Type 0
  Lies p offset is = (after : Bytes) × (drop offset p ≡ bytes_of is ++ after)

  Lies-head :
      (p : Bytes) (offset : ℕ) (i : I) (is : List I)
      → Lies p offset (i ∷ is)
      → (after : Bytes) × (drop offset p ≡ Codec.encode codec i ++ after)
  unfolding bytes_of
  Lies-head p offset i is (after, e) = (bytes_of is ++ after, rw append_assoc at e)

  pub Lies-tail :
      (p : Bytes) (offset : ℕ) (i : I) (is : List I)
      → Lies p offset (i ∷ is)
      → Lies p (offset + Codec.encode_num_bytes codec i) is
  unfolding bytes_of
  Lies-tail p offset i is (after, e) = (
    after,
    rw (sym (drop-add offset (Codec.encode_num_bytes codec i) p), e, append_assoc)
        (drop-append (Codec.encode_num_bytes codec i) (Codec.encode codec i) (bytes_of is ++ after)
          (Codec.length-encode codec i)),
  )

  -- The first of them is read.
  pub read_key_at :
      (p : Bytes) (offset : ℕ) (i : I) (is : List I)
      → Codec.Fits codec i
      → Lies p offset (i ∷ is)
      → Codec.read_key codec (drop offset p) ≡ Codec.item_key codec i
  read_key_at p offset i is f l =
      let (after, e) = Lies-head p offset i is l in rw e (Codec.read_key-encode codec i after f)

  read_item_at :
      (p : Bytes) (offset : ℕ) (i : I) (is : List I)
      → Codec.Fits codec i
      → Lies p offset (i ∷ is)
      → Codec.read_item codec (drop offset p) ≡ (i, Codec.encode_num_bytes codec i)
  read_item_at p offset i is f l =
      let (after, e) = Lies-head p offset i is l in rw e (Codec.read_item-encode codec i after f)

  pub is_ordered_tail :
      (pre : Option Slice) (i : I) (is : List I)
      → is_ordered codec pre (i ∷ is) ≡ true
      → (follows pre (Codec.item_key codec i) ≡ true)
        × (is_ordered codec (some (Codec.item_key codec i)) is ≡ true)
  unfolding is_ordered
  is_ordered_tail pre i is o = elim (Bool-cases (follows pre (Codec.item_key codec i))) [
    | inl h ↦ (h, let f = o in rw h at f)
    | inr h ↦ let f = o in let g = rw h at f in cc
  ]

  offsets_from_lem :
      (is : List I) (pre : Option Slice) (offset : ℕ) (p : Bytes)
      → All (Codec.Fits codec) is
      → is_ordered codec pre is ≡ true
      → Lies p offset is
      → offsets_from codec (length is) pre offset p ≡ some (offsets_of offset is)
  unfolding offsets_from offsets_of
  offsets_from_lem [] pre offset p f o l = refl
  offsets_from_lem (i ∷ is) pre offset p (fi, f) o l =
      let (h, o') = is_ordered_tail pre i is o in
      let k =
        offsets_from_lem is (some (Codec.item_key codec i))
          (offset + Codec.encode_num_bytes codec i) p f o' (Lies-tail p offset i is l) in
      rw (read_key_at p offset i is fi l, read_item_at p offset i is fi l, h, k) refl

  find_from_step :
      (offset idx : ℕ) (offsets : List ℕ) (p : Bytes) (k : Slice)
      → find_from codec idx (offset ∷ offsets) p (slice k) ≡ (
          if lt (Codec.read_key codec (drop offset p)) k
          then find_from codec (suc idx) offsets p (slice k)
          else some idx)
  unfolding find_from key_eq key_gt
  find_from_step offset idx offsets p k =
      elim (lt_trichotomy (Codec.read_key codec (drop offset p)) k) [
        | inl (a, b, c) ↦ rw (b, c, a, find_from) refl
        | inr (inl (a, b, c)) ↦ rw (b, a, find_from) refl
        | inr (inr (a, b, c)) ↦ rw (b, c, a, find_from) refl
      ]

  find_from_lem :
      (is : List I) (idx offset : ℕ) (p : Bytes) (k : Slice)
      → All (Codec.Fits codec) is
      → Lies p offset is
      → find_from codec idx (offsets_of offset is) p (slice k)
        ≡ some (idx + lower_bound (map (Codec.item_key codec) is) k)
  unfolding offsets_of lower_bound find_from
  find_from_lem [] idx offset p k f l = ap some (omega arith)
  find_from_lem (i ∷ is) idx offset p k (fi, f) l =
      let h =
        find_from_lem is (suc idx) (offset + Codec.encode_num_bytes codec i) p k f
          (Lies-tail p offset i is l) in
      let st =
        find_from_step offset idx (offsets_of (offset + Codec.encode_num_bytes codec i) is) p k in
      let step = rw (read_key_at p offset i is fi l) at st in
      elim (Bool-cases (lt (Codec.item_key codec i) k)) [
        | inl t ↦ step ∙ rw (h, t) (ap some (omega arith))
        | inr t ↦ step ∙ rw (h, t) (ap some (omega arith))
      ]

  item_at :
      (is : List I) (idx offset : ℕ) (p : Bytes) (i : I)
      → All (Codec.Fits codec) is
      → Lies p offset is
      → get_elem? is idx ≡ some i
      → (o : ℕ) × (get_elem? (offsets_of offset is) idx ≡ some o)
        × (Codec.read_item codec (drop o p) ≡ (i, Codec.encode_num_bytes codec i))
  unfolding offsets_of
  item_at [] idx offset p i f l e = absurd (cc)
  item_at (x ∷ xs) zero offset p i (fx, f) l e =
      (offset, refl, let r = read_item_at p offset x xs fx l in rw (some-injective _ _ e) at r)
  item_at (x ∷ xs) (suc idx) offset p i (fx, f) l e =
      item_at xs idx (offset + Codec.encode_num_bytes codec x) p i f (Lies-tail p offset x xs l) e

  -- The data of the chunk that `Make` builds of one segment: the number of items, and the segment.
  abbrev pub leaf_data : List I → VarSegment → Bytes
  leaf_data is seg = le_bytes 4 (length is) ++ append_for_chunk seg

  pub encode_items_value :
      (is : List I)
      → (length is == 0) ≡ false
      → is_ordered codec none is ≡ true
      → encode_items codec is
        ≡ some (record {
          data' = bytes_of is;
          num_bytes = 0 + length (bytes_of is);
          entry_offsets = offsets_of 0 is;
        })
  unfolding encode_items
  encode_items_value is n o = rw (n, o, encode_from_lem is 0, encode_items) refl

  pub refuses_no_items : encode_items codec [] ≡ none
  unfolding encode_items
  refuses_no_items = refl

  pub refuses_disorder :
      (is : List I)
      → (length is == 0) ≡ false
      → is_ordered codec none is ≡ false
      → encode_items codec is ≡ none
  unfolding encode_items
  refuses_disorder is n o = rw (n, o, encode_items) refl

  -- What the encoder accepts is in order, and the segment is the bytes of the items.
  pub encode_items_lem :
      (is : List I) (seg : VarSegment)
      → encode_items codec is ≡ some seg
      → (is_ordered codec none is ≡ true) × (append_for_chunk seg ≡ bytes_of is)
  unfolding append_for_chunk
  encode_items_lem [] seg e = let r = refuses_no_items in absurd (cc)
  encode_items_lem (i ∷ is) seg e = elim (Bool-cases (is_ordered codec none (i ∷ is))) [
    | inl o ↦
        let n : (length (i ∷ is) == 0) ≡ false = ground arith in
        let s = some-injective _ _ (sym e ∙ encode_items_value (i ∷ is) n o) in
        (o, rw s (take_self (0 + length (bytes_of (i ∷ is))) (bytes_of (i ∷ is)) (omega arith)))
    | inr o ↦
        let n : (length (i ∷ is) == 0) ≡ false = ground arith in
        let r = refuses_disorder (i ∷ is) n o in cc
  ]

  leaf_data-Lies :
      (is : List I) (seg : VarSegment)
      → encode_items codec is ≡ some seg
      → Lies (leaf_data is seg) 4 is
  leaf_data-Lies is seg e =
      let (o, b) = encode_items_lem is seg e in
      (
        [],
        drop-append 4 (le_bytes 4 (length is)) (append_for_chunk seg)
              (length-le_bytes 4 (length is))
            ∙ b
            ∙ sym (append-nil (bytes_of is)),
      )

  num_entries_lem :
      (is : List I) (seg : VarSegment)
      → length is < 2 ^ 32
      → num_entries (leaf_data is seg) ≡ length is
  unfolding num_entries
  num_entries_lem is seg h = read_le-append 4 0 (length is) [] (append_for_chunk seg) refl h

  -- Items that fit and that the encoder accepts are read back from the node: their offsets are
  -- computed, as many as there are items, and at the offset of an index stands the item of that
  -- index, of the size that was foreseen for it.
  pub leaf_items :
      (is : List I) (seg : VarSegment)
      → All (Codec.Fits codec) is
      → length is < 2 ^ 32
      → encode_items codec is ≡ some seg
      → (offsets : List ℕ) × (precompute_offsets codec (leaf_data is seg) ≡ some offsets)
        × (length offsets ≡ length is)
        × ((idx : ℕ) (i : I)
            → get_elem? is idx ≡ some i
            → (o : ℕ) × (get_elem? offsets idx ≡ some o)
              × (Codec.read_item codec (drop o (leaf_data is seg))
                  ≡ (i, Codec.encode_num_bytes codec i)))
  unfolding precompute_offsets
  leaf_items is seg f h e =
      let l = leaf_data-Lies is seg e in
      (
        offsets_of 4 is,
        rw (num_entries_lem is seg h)
            (offsets_from_lem is none 4 (leaf_data is seg) f (encode_items_lem is seg e).0 l),
        length-offsets_of is 4,
        λ idx i k. item_at is idx 4 (leaf_data is seg) i f l k,
      )

  -- In a node of items that fit and that the encoder accepts, a search for a key, over the offsets
  -- that are computed, does not fail and returns how many keys from the first on are below it.
  pub leaf_find :
      (is : List I) (seg : VarSegment) (offsets : List ℕ) (k : Slice)
      → All (Codec.Fits codec) is
      → length is < 2 ^ 32
      → encode_items codec is ≡ some seg
      → precompute_offsets codec (leaf_data is seg) ≡ some offsets
      → find_index_for_key codec offsets (leaf_data is seg) (slice k)
        ≡ some (lower_bound (map (Codec.item_key codec) is) k)
  unfolding precompute_offsets find_index_for_key
  leaf_find is seg offsets k f h e o =
      let l = leaf_data-Lies is seg e in
      let c : precompute_offsets codec (leaf_data is seg) ≡ some (offsets_of 4 is) =
        rw (num_entries_lem is seg h)
          (offsets_from_lem is none 4 (leaf_data is seg) f (encode_items_lem is seg e).0 l) in
      let s : offsets ≡ offsets_of 4 is = some-injective _ _ (sym o ∙ c) in
      rw s (find_from_lem is 0 4 (leaf_data is seg) k f l ∙ ap some (omega arith))
