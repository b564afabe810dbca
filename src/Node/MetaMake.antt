-- ===== src/Node/MetaMake.antt =====
-- `MetaChunker::Make` (src/node/meta_node.cc): one node of the entries of segments, with the entry
-- that points to it. `none` is a failed check, or no entry at all, where a null pointer is read.
use mathlib.Core.List.{append-nil}
use forkbase.Base.{
  ℕ, suc, ◌+◌, ◌%◌, ◌^◌, ◌<◌, ◌≡◌, refl, sym, ap, true, Option, none, some, List, [], ◌∷◌, ◌++◌,
  Bytes, length, take, drop, le_bytes, All, arith, take_self,
}
use forkbase.Types.{ChunkType}
use forkbase.Chunk.{Chunk, new_chunk, hash_of, data_of, data_of-new_chunk}
use forkbase.Segment.{VarSegment, append_for_chunk}
use forkbase.Node.{OrderedKey}
use forkbase.Node.MetaEntry.{
  meta_encode, meta_ordered_key, meta_num_leaves, meta_num_elements, key_num_bytes,
}
use forkbase.Node.Make.{total_entries, total_bytes}
use forkbase.Node.MetaNode.{key_le}
use forkbase.Node.MetaNode.Entries.{
  Entry, Fits, entries_bytes, node_bytes, sum, Lies, Lies-Holds, Lies-tail,
}
use forkbase.Node.Cursor.Child.{IsNode}

-- `pre_me`, of which the key alone is read, and the two totals, of 32 and of 64 bits.
pub record Totals : Type 0 where
  pub pre_key : Option OrderedKey
  pub leaves : ℕ
  pub elements : ℕ

-- The totals with one more entry.
unfoldable pub add_entry : Bytes → Totals → Totals
add_entry me t = record {
  pre_key = some (meta_ordered_key me);
  leaves = (t.leaves + meta_num_leaves me) % 2 ^ 32;
  elements = (t.elements + meta_num_elements me) % 2 ^ 64;
}

-- The body of the loops: the key must not be below the one before.
unfoldable pub check_entry : Bytes → Totals → Option Totals
check_entry me t = elim (t.pre_key) [
  | none ↦ some (add_entry me t)
  | some pre ↦ elim (key_le pre (meta_ordered_key me)) [
    | some true ↦ some (add_entry me t)
    | _ ↦ none
  ]
]

-- The loop over the entries of a segment.
unfoldable pub check_entries : List ℕ → Bytes → Totals → Option Totals
check_entries [] p t = some t
check_entries (offset ∷ offsets) p t = elim (check_entry (drop offset p) t) [
  | none ↦ none
  | some t' ↦ check_entries offsets p t'
]

-- The loop over the segments.
unfoldable pub check_segments : List VarSegment → Totals → Option Totals
check_segments [] t = some t
check_segments (s ∷ ss) t = elim (check_entries s.entry_offsets s.data' t) [
  | none ↦ none
  | some t' ↦ check_segments ss t'
]

abbrev pub no_totals : Totals
no_totals = record { pre_key = none; leaves = 0; elements = 0 }

abbrev pub meta_chunk : List VarSegment → Chunk
meta_chunk segments =
    new_chunk ChunkType.meta (le_bytes 4 (total_entries segments) ++ total_bytes segments)

-- One entry as a segment.
abbrev pub segment_of : Bytes → VarSegment
segment_of entry = record { data' = entry; num_bytes = length entry; entry_offsets = 0 ∷ [] }

-- The node and its entry.
abbrev pub with_totals : (Bytes → Bytes) → List VarSegment → Totals → Option (Chunk × VarSegment)
with_totals digest segments t = elim (t.pre_key) [
  | none ↦ none
  | some key ↦
      let entry = meta_encode t.leaves t.elements (hash_of digest (meta_chunk segments)) key in
      some (meta_chunk segments, segment_of entry)
]

unfoldable pub meta_make : (Bytes → Bytes) → List VarSegment → Option (Chunk × VarSegment)
meta_make digest segments = elim (check_segments segments no_totals) [
  | none ↦ none
  | some t ↦ with_totals digest segments t
]

-- The segment of these entries.
abbrev pub offsets : ℕ → List Entry → List ℕ
offsets offset [] = []
offsets offset (e ∷ es) = offset ∷ offsets (offset + (37 + key_num_bytes e.key)) es

abbrev pub segment : List Entry → VarSegment
segment es = record {
  data' = entries_bytes es;
  num_bytes = length (entries_bytes es);
  entry_offsets = offsets 0 es;
}

abbrev pub leaf_sum : List Entry → ℕ
leaf_sum [] = 0
leaf_sum (e ∷ es) = e.leaves + leaf_sum es

-- No key is below the one before it.
abbrev pub IsAscending : OrderedKey → List Entry → Type 0
IsAscending k [] = Unit
IsAscending k (e ∷ es) = (key_le k e.key ≡ some true) × IsAscending e.key es

abbrev pub last_key : OrderedKey → List Entry → OrderedKey
last_key k [] = k
last_key k (e ∷ es) = last_key e.key es

module _ (e : Entry) (es : List Entry) (offset : ℕ) (p : Bytes) (f : Fits e)
    (l : Lies (e ∷ es) offset p) (m n : ℕ) (pre : Option OrderedKey) (hm : m + e.leaves < 2 ^ 32)
    (hn : n + e.elements < 2 ^ 64) where
  add_entry_lem :
      add_entry (drop offset p) (record { pre_key = pre; leaves = m; elements = n })
      ≡ record { pre_key = some e.key; leaves = m + e.leaves; elements = n + e.elements }
  unfolding add_entry
  add_entry_lem =
      let h = Lies-Holds e es offset p f l in
      let a : (m + e.leaves) % 2 ^ 32 ≡ m + e.leaves = omega (arith, hm) in
      let b : (n + e.elements) % 2 ^ 64 ≡ n + e.elements = omega (arith, hn) in
      rw (h.key_is, h.leaves_are, h.elements_are, a, b) refl

  offset-Lies : Lies es (offset + (37 + key_num_bytes e.key)) p
  offset-Lies =
      let t = Lies-tail e es offset p f l in rw (Lies-Holds e es offset p f l).size_is at t

check_entries-offsets :
    (es : List Entry) (offset : ℕ) (p : Bytes) (m n : ℕ) (k : OrderedKey)
    → All Fits es
    → Lies es offset p
    → IsAscending k es
    → m + leaf_sum es < 2 ^ 32
    → n + sum es < 2 ^ 64
    → check_entries (offsets offset es) p (record { pre_key = some k; leaves = m; elements = n })
      ≡ some (record {
        pre_key = some (last_key k es);
        leaves = m + leaf_sum es;
        elements = n + sum es;
      })
unfolding check_entries check_entry
check_entries-offsets [] offset p m n k f l a hm hn =
    let x : m + 0 ≡ m = omega arith in let y : n + 0 ≡ n = omega arith in rw (x, y) refl
check_entries-offsets (e ∷ es) offset p m n k (f, fs) l (le, a) hm hn =
    let key_is = (Lies-Holds e es offset p f l).key_is in
    let x : m + (e.leaves + leaf_sum es) ≡ m + e.leaves + leaf_sum es = omega arith in
    let y : n + (e.elements + sum es) ≡ n + e.elements + sum es = omega arith in
    rw
      (
        check_entries,
        check_entry,
        key_is,
        le,
        add_entry_lem e es offset p f l m n (some k) (omega (arith, hm)) (omega (arith, hn)),
        x,
        y,
      )
      (check_entries-offsets es (offset + (37 + key_num_bytes e.key)) p (m + e.leaves)
        (n + e.elements) e.key fs
        (offset-Lies e es offset p f l m n (some k) (omega (arith, hm)) (omega (arith, hn))) a
        (omega (arith, hm)) (omega (arith, hn)))

module _ (digest : Bytes → Bytes) (e : Entry) (es : List Entry) (f : All Fits (e ∷ es))
    (a : IsAscending e.key es) (hm : leaf_sum (e ∷ es) < 2 ^ 32) (hn : sum (e ∷ es) < 2 ^ 64)
    (count : length (e ∷ es) < 2 ^ 32) where
  totals_are :
      check_segments (segment (e ∷ es) ∷ []) no_totals
      ≡ some (record {
        pre_key = some (last_key e.key es);
        leaves = leaf_sum (e ∷ es);
        elements = sum (e ∷ es);
      })
  unfolding check_segments check_entries check_entry
  totals_are =
      let p = entries_bytes (e ∷ es) in
      let l : Lies (e ∷ es) 0 p = ([], sym (append-nil p)) in
      let x : 0 + e.leaves + leaf_sum es ≡ leaf_sum (e ∷ es) = omega arith in
      let y : 0 + e.elements + sum es ≡ sum (e ∷ es) = omega arith in
      let first : add_entry p no_totals
          ≡ record { pre_key = some e.key; leaves = 0 + e.leaves; elements = 0 + e.elements } =
        add_entry_lem e es 0 p f.0 l 0 0 none (omega (arith, hm)) (omega (arith, hn)) in
      let rest =
        check_entries-offsets es (0 + (37 + key_num_bytes e.key)) p (0 + e.leaves) (0 + e.elements)
          e.key f.1 (offset-Lies e es 0 p f.0 l 0 0 none (omega (arith, hm)) (omega (arith, hn))) a
          (omega (arith, hm)) (omega (arith, hn)) in
      rw (first, rest, x, y) refl

  length-offsets : (o : ℕ) (l : List Entry) → length (offsets o l) ≡ length l
  length-offsets o [] = refl
  length-offsets o (x ∷ l) = ap suc (length-offsets (o + (37 + key_num_bytes x.key)) l)

  meta_chunk-IsNode : IsNode (e ∷ es) (data_of (meta_chunk (segment (e ∷ es) ∷ [])))
  unfolding total_entries total_bytes append_for_chunk
  meta_chunk-IsNode = record {
    after = [];
    bytes_are =
        (let z : length (offsets 0 (e ∷ es)) + 0 ≡ length (e ∷ es) =
            omega (arith, length-offsets 0 (e ∷ es)) in
          let t : take (length (entries_bytes (e ∷ es))) (entries_bytes (e ∷ es))
              ≡ entries_bytes (e ∷ es) =
            take_self _ (entries_bytes (e ∷ es)) refl in
          rw
            (
              data_of-new_chunk ChunkType.meta,
              z,
              t,
              append-nil (entries_bytes (e ∷ es)),
              append-nil (node_bytes (e ∷ es)),
            )
            refl);
    fits = f;
    length_fits = count;
    sum_fits = hn;
  }

  -- `Make` of a segment of entries that fit their fields, whose keys do not descend and whose
  -- totals fit theirs, fails at no check. It makes a node of these entries; the entry that points
  -- to it has the totals and the last key.
  pub meta_make-IsNode :
      (chunk : Chunk) × (meta_make digest (segment (e ∷ es) ∷ [])
        ≡ some (
          chunk,
          segment_of (
              meta_encode
                (leaf_sum (e ∷ es))
                (sum (e ∷ es))
                (hash_of digest chunk)
                (last_key e.key es)),
        ))
      × IsNode (e ∷ es) (data_of chunk)
  unfolding meta_make
  meta_make-IsNode =
      (meta_chunk (segment (e ∷ es) ∷ []), rw (meta_make, totals_are) refl, meta_chunk-IsNode)
