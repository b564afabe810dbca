-- ===== src/Node/ListNode/ReadBack.antt =====
-- Reading the elements of a list node back (src/node/list_node.cc).
use mathlib.Core.List.{append_assoc, append-nil}
use forkbase.Base.{
  ℕ, zero, suc, ◌+◌, ◌-◌, ◌%◌, ◌^◌, ◌<◌, ◌≡◌, refl, sym, ap, true, some, List, [], ◌∷◌, ◌++◌, Bytes,
  length, drop, get_elem?, le_bytes, read_le, read_le-append, length-append, length-le_bytes,
  take-append, drop-append, drop-add, ltb, All, arith, get_elem?-length',
}
use forkbase.Slice.{Slice}
use forkbase.Segment.{VarSegment}
use forkbase.Segment
use forkbase.Node.ListNode.{
  encode_element, element_bytes, element_offsets, encode, decode, num_entries, offsets_from,
  precompute_offsets, data',
}

-- The size of the element fits its field.
abbrev pub Fits : Slice → Type 0
Fits e = length e + 4 < 2 ^ 32

length-encode_element : (e : Slice) → length (encode_element e) ≡ 4 + length e
unfolding encode_element
length-encode_element e =
    omega (arith, length-append (le_bytes 4 (length e + 4)) e, length-le_bytes 4 (length e + 4))

module _ (e : Slice) (after : Bytes) (f : Fits e) where
  size-encode_element : read_le 4 0 (encode_element e ++ after) ≡ length e + 4
  unfolding encode_element
  size-encode_element = rw append_assoc (read_le-append 4 0 (length e + 4) [] (e ++ after) refl f)

  drop_size : drop 4 (encode_element e ++ after) ≡ e ++ after
  unfolding encode_element
  drop_size =
      rw append_assoc
        (drop-append 4 (le_bytes 4 (length e + 4)) (e ++ after) (length-le_bytes 4 (length e + 4)))

  decode-encode_element : decode (encode_element e ++ after) ≡ e
  unfolding decode
  decode-encode_element =
      let n : (length e + 4 + 2 ^ 64 - 4) % 2 ^ 64 ≡ length e = omega (arith, f) in
      rw (size-encode_element, n, drop_size) (take-append (length e) e after refl)

-- From `offset` on the memory has these elements.
abbrev Lies : List Slice → ℕ → Bytes → Type 0
Lies es offset p = (after : Bytes) × (drop offset p ≡ element_bytes es ++ after)

module _ (e : Slice) (es : List Slice) (offset : ℕ) (p : Bytes) (l : Lies (e ∷ es) offset p) where
  here : drop offset p ≡ encode_element e ++ (element_bytes es ++ l.0)
  unfolding element_bytes
  here = rw l.1 (append_assoc (encode_element e) (element_bytes es) l.0)

  Lies-tail : Lies es (offset + (4 + length e)) p
  Lies-tail = (
    l.0,
    rw (sym (drop-add offset (4 + length e) p), here)
        (drop-append (4 + length e) (encode_element e) (element_bytes es ++ l.0)
          (length-encode_element e)),
  )

-- The offsets that are read are those that were written, from any place on.
offsets_from-element_offsets :
    (es : List Slice) (offset : ℕ) (p : Bytes)
    → All Fits es
    → Lies es offset p
    → offsets_from (length es) offset p ≡ element_offsets offset es
unfolding offsets_from element_offsets
offsets_from-element_offsets [] offset p f l = refl
offsets_from-element_offsets (e ∷ es) offset p (f, fs) l =
    let size : length e + 4 ≡ 4 + length e = omega arith in
    rw (here e es offset p l, size-encode_element e (element_bytes es ++ l.0) f, size)
      (ap (λ os. offset ∷ os)
        (offsets_from-element_offsets es (offset + (4 + length e)) p fs
          (Lies-tail e es offset p l)))

-- What lies at the offset of an element decodes to it.
element_offsets-decode :
    (es : List Slice) (offset i : ℕ) (p : Bytes) (e : Slice)
    → All Fits es
    → Lies es offset p
    → get_elem? es i ≡ some e
    → (o : ℕ) × (get_elem? (element_offsets offset es) i ≡ some o) × (decode (drop o p) ≡ e)
unfolding element_offsets
element_offsets-decode [] offset i p e f l h = cc
element_offsets-decode (x ∷ es) offset zero p e (f, fs) l h =
    let same : x ≡ e = cc in
    (
      offset,
      refl,
      rw (here x es offset p l, ← same) (decode-encode_element x (element_bytes es ++ l.0) f),
    )
element_offsets-decode (x ∷ es) offset (suc i) p e (f, fs) l h =
    element_offsets-decode es (offset + (4 + length x)) i p e fs (Lies-tail x es offset p l) h

module _ (es : List Slice) (i : ℕ) (e : Slice) (f : All Fits es) (h : get_elem? es i ≡ some e) where
  entry-encode : (m : Bytes) × (Segment.entry (encode es) i ≡ some m) × (decode m ≡ e)
  unfolding Segment.entry encode
  entry-encode =
      let l : Lies es 0 (element_bytes es) = ([], sym (append-nil (element_bytes es))) in
      let (o, at, d) = element_offsets-decode es 0 i (element_bytes es) e f l h in
      (drop o (element_bytes es), rw (Segment.entry, at) refl, d)

  data'-element_bytes :
      (after : Bytes)
      → length es < 2 ^ 32
      → (m : Bytes) × (data' (le_bytes 4 (length es) ++ (element_bytes es ++ after)) i ≡ some m)
        × (decode m ≡ e)
  unfolding data' precompute_offsets num_entries
  data'-element_bytes after n =
      let p = le_bytes 4 (length es) ++ (element_bytes es ++ after) in
      let l : Lies es 4 p = (
        after,
        drop-append 4 (le_bytes 4 (length es)) (element_bytes es ++ after)
            (length-le_bytes 4 (length es)),
      ) in
      let count : read_le 4 0 p ≡ length es =
        read_le-append 4 0 (length es) [] (element_bytes es ++ after) refl n in
      let (o, at, d) = element_offsets-decode es 4 i p e f l h in
      let t : ltb i (length es) ≡ true = ground (arith, get_elem?-length' i es e h) in
      (drop o p, rw (data', count, t, offsets_from-element_offsets es 4 p f l, at) refl, d)

-- The entry of each element in the segment that `Encode` makes decodes to the element, if the sizes
-- fit their fields, and so does the data of each entry in a node of these elements.
pub decode-encode :
    (es : List Slice) (after : Bytes) (i : ℕ) (e : Slice)
    → All Fits es
    → length es < 2 ^ 32
    → get_elem? es i ≡ some e
    → ((m : Bytes) × (Segment.entry (encode es) i ≡ some m) × (decode m ≡ e))
      × ((m : Bytes) × (data' (le_bytes 4 (length es) ++ (element_bytes es ++ after)) i ≡ some m)
          × (decode m ≡ e))
decode-encode es after i e f n h = (entry-encode es i e f h, data'-element_bytes es i e f h after n)
