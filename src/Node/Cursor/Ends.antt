-- ===== src/Node/Cursor/Ends.antt =====
-- `NodeCursor(hash, idx, loader)` (src/node/cursor.cc) on the trees of `Node/Cursor/Descent.antt`.
use forkbase.Base.{
  ℕ, zero, suc, ◌+◌, ◌%◌, ◌^◌, ◌≤◌, ◌<◌, ◌≡◌, refl, sym, true, false, Option, none, some, List, [],
  ◌∷◌, ltb, leb, arith,
}
use forkbase.Hash.{Hash}
use forkbase.Chunk.{Chunk, data_of}
use forkbase.Node.Cursor.{
  NodeCursor, is_leaf, leaf_entries, node_elements, at_leaf, descend_by_index, cursor_by_index,
}
use forkbase.Node.Cursor.Child.{IsNode, num_elements-sum, child_by_index-walk}
use forkbase.Node.Cursor.Descent.{
  IsTree, leaf, inner, size, leaf_at, IsTree-load, AreTrees-sum, AreTrees-walk,
}

at_leaf_lem :
    (c : Chunk) (x : ℕ) (ps : List (Chunk × ℕ))
    → x ≤ leaf_entries c
    → leaf_entries c < 2 ^ 31
    → at_leaf c x ps ≡ record { seq_node = c; idx = x; parents = ps }
unfolding at_leaf
at_leaf_lem c x ps le small =
    let t : ltb (leaf_entries c) x ≡ false = ground (arith, le) in
    let m : x % 2 ^ 32 ≡ x = omega (arith, le, small) in rw (t, m) refl

module _ {load : Hash → Option Chunk} where
  descend_by_index-IsTree :
      (fuel : ℕ) {height : ℕ} {h : Hash} {leaves : List Chunk} (c : Chunk) (x : ℕ)
      (ps : List (Chunk × ℕ))
      → IsTree load height h leaves
      → load h ≡ some c
      → height ≤ fuel
      → x ≤ size leaves
      → size leaves < 2 ^ 64
      → (cursor : NodeCursor) × (descend_by_index load fuel c x ps ≡ some cursor)
        × (leaf_at x leaves ≡ some (cursor.seq_node, cursor.idx))
  unfolding descend_by_index
  descend_by_index-IsTree zero c x ps (leaf height {c = b} l k s) at en le small =
      let same : b ≡ c = cc in
      let k' : is_leaf c ≡ some true = rw same at k in
      let s' : leaf_entries c < 2 ^ 31 = rw same at s in
      let le' : x ≤ leaf_entries c + 0 = rw same at le in
      (
        record { seq_node = c; idx = x; parents = ps },
        rw (descend_by_index, k', at_leaf_lem c x ps (omega (arith, le')) s') refl,
        rw same refl,
      )
  descend_by_index-IsTree (suc fuel) c x ps (leaf height {c = b} l k s) at en le small =
      let same : b ≡ c = cc in
      let k' : is_leaf c ≡ some true = rw same at k in
      let s' : leaf_entries c < 2 ^ 31 = rw same at s in
      let le' : x ≤ leaf_entries c + 0 = rw same at le in
      (
        record { seq_node = c; idx = x; parents = ps },
        rw (descend_by_index, k', at_leaf_lem c x ps (omega (arith, le')) s') refl,
        rw same refl,
      )
  descend_by_index-IsTree zero c x ps (inner l k n ts) at en le small = absurd (omega arith)
  descend_by_index-IsTree (suc fuel) c x ps (inner {c = b} {e} {es} l k n ts) at en le small =
      let same : b ≡ c = cc in
      let k' : is_leaf c ≡ some false = rw same at k in
      let n' : IsNode (e ∷ es) (data_of c) = rw same at n in
      let (entry, i, y, w, found) =
        child_by_index-walk e es (data_of c) n' x (omega (arith, le, small)) in
      let (below, t, there, le', smaller) = AreTrees-walk 0 x e es ts w le in
      let (child, loaded) = IsTree-load t in
      let (cursor, runs, stands) =
        descend_by_index-IsTree fuel child y ((c, i % 2 ^ 32) ∷ ps) t loaded (omega (arith, en)) le'
          (omega (arith, small, smaller)) in
      (cursor, rw (descend_by_index, k', descend_by_index, found, loaded) runs, rw there stands)

  node_elements-IsTree :
      {height : ℕ} {h : Hash} {leaves : List Chunk} (c : Chunk)
      → IsTree load height h leaves
      → load h ≡ some c
      → node_elements c ≡ some (size leaves)
  unfolding node_elements
  node_elements-IsTree c (leaf height {c = b} l k s) at =
      let same : b ≡ c = cc in
      let k' : is_leaf c ≡ some true = rw same at k in
      let z : leaf_entries c + 0 ≡ leaf_entries c = omega arith in
      rw (node_elements, k', same, z) refl
  node_elements-IsTree c (inner {c = b} {e} {es} l k n ts) at =
      let same : b ≡ c = cc in
      let k' : is_leaf c ≡ some false = rw same at k in
      rw (node_elements, k', sym (AreTrees-sum ts))
        (num_elements-sum (e ∷ es) (data_of c) (rw same at n))

  -- In a tree of fewer than 2 ^ 64 elements and no higher than the fuel, the loop ends. An index up
  -- to the number of elements leads to its element, that number to the end of the last leaf; a
  -- greater one leaves the cursor empty.
  pub cursor_by_index-IsTree :
      {height : ℕ} {root : Hash} {leaves : List Chunk} (fuel x : ℕ)
      → IsTree load height root leaves
      → height ≤ fuel
      → size leaves < 2 ^ 64
      → (x ≤ size leaves
          → (cursor : NodeCursor) × (cursor_by_index load fuel root x ≡ some (some cursor))
            × (leaf_at x leaves ≡ some (cursor.seq_node, cursor.idx)))
        × (size leaves < x → cursor_by_index load fuel root x ≡ some none)
  unfolding cursor_by_index
  cursor_by_index-IsTree {leaves = leaves} fuel x t en small =
      let (c, l) = IsTree-load t in
      (
        λ le.
            let (cursor, runs, stands) = descend_by_index-IsTree fuel c x [] t l en le small in
            let u : leb x (size leaves) ≡ true = ground (arith, le) in
            (cursor, rw (cursor_by_index, l, node_elements-IsTree c t l, u, runs) refl, stands),
        λ lt.
            let u : leb x (size leaves) ≡ false = ground (arith, lt) in
            rw (cursor_by_index, l, node_elements-IsTree c t l, u) refl,
      )
