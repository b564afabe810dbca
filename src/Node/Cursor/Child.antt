-- ===== src/Node/Cursor/Child.antt =====
-- A round of the loop of `NodeCursor(hash, idx, loader)` (src/node/cursor.cc): the child that
-- `GetChildHashByIndex` (src/node/meta_node.cc) finds, or the last.
use mathlib.Core.List.{append-nil}
use forkbase.Base.{
  ℕ, suc, ◌+◌, ◌-◌, ◌%◌, ◌^◌, ◌≤◌, ◌<◌, ◌≡◌, refl, ap, ◌∙◌, true, false, some, List, [], ◌∷◌, ◌++◌,
  Bytes, length, length-append, ltb, leb, ◌==◌, All, arith, Bool-cases, inl, inr,
}
use forkbase.Hash.{of}
use forkbase.Node.MetaNode.{
  num_entries, precompute_offset, entry_offset, data', num_elements_until_entry,
  get_child_hash_by_index, get_child_hash_by_entry, num_elements,
}
use forkbase.Node.MetaNode.Entries.{
  Entry, Fits, node_bytes, sum, Lies, Lies-Holds, node_bytes-Lies, num_entries-node_bytes,
  elements_from-sum, find_from, by_index_from-find_from, walk,
}
use forkbase.Node.Cursor.{or_last_child, child_by_index}
use forkbase.Node.Cursor.Walk.{
  Walked, Walked-walk, find_from-here, find_from-behind, offsets_from-Lies, All-front, All-back,
  sum-append,
}

-- A node of these entries, in the memory `p`.
pub record IsNode (es : List Entry) (p : Bytes) : Type 0 where
  pub after : Bytes
  pub bytes_are : p ≡ node_bytes es ++ after
  pub fits : All Fits es
  pub length_fits : length es < 2 ^ 32
  pub sum_fits : sum es < 2 ^ 64

pub IsNode-num_entries : {es : List Entry} {p : Bytes} → IsNode es p → num_entries p ≡ length es
IsNode-num_entries {es} n = rw n.bytes_are (num_entries-node_bytes es n.after n.length_fits)

pub IsNode-Lies : {es : List Entry} {p : Bytes} → IsNode es p → Lies es 4 p
IsNode-Lies {es} n = rw n.bytes_are (node_bytes-Lies es n.after)

module _ (before : List Entry) (e : Entry) (rest : List Entry) (p : Bytes)
    (n : IsNode (before ++ e ∷ rest) p) where
  entry_count : length (before ++ e ∷ rest) ≡ length before + suc (length rest)
  entry_count = length-append before (e ∷ rest)

  num_elements_until_entry-sum : num_elements_until_entry p (length before) ≡ some (sum before)
  unfolding num_elements_until_entry
  num_elements_until_entry-sum =
      let t : leb (length before) (length (before ++ e ∷ rest)) ≡ true =
        ground (arith, entry_count) in
      let z : 0 + sum before ≡ sum before = omega arith in
      rw
        (
          IsNode-num_entries n,
          t,
          elements_from-sum before (e ∷ rest) 4 p 0 (All-front before (e ∷ rest) n.fits)
              (IsNode-Lies n) (omega (arith, n.sum_fits, sum-append before (e ∷ rest))),
          z,
        )
        refl

  entry_offset-Lies : (o : ℕ) × (entry_offset p (length before) ≡ some o) × Lies (e ∷ rest) o p
  unfolding entry_offset precompute_offset
  entry_offset-Lies =
      let t : ltb (length before) (length (before ++ e ∷ rest)) ≡ true =
        ground (arith, entry_count) in
      let (o, at, l) =
        offsets_from-Lies before e rest 4 p (All-front before (e ∷ rest) n.fits) (IsNode-Lies n) in
      (o, rw (IsNode-num_entries n, t) at, l)

  get_child_hash_by_entry-digest : get_child_hash_by_entry p (length before) ≡ some (of e.digest)
  unfolding get_child_hash_by_entry data'
  get_child_hash_by_entry-digest =
      let (o, at, l) = entry_offset-Lies in
      let m = Lies-Holds e rest o p (All-back before (e ∷ rest) n.fits).0 l in
      rw (get_child_hash_by_entry, data', at) (ap some m.hash_is)

  get_child_hash_by_index-find_from :
      (x : ℕ) → get_child_hash_by_index p x ≡ some (find_from x 0 0 (before ++ e ∷ rest))
  unfolding get_child_hash_by_index
  get_child_hash_by_index-find_from x =
      let t : (length (before ++ e ∷ rest) == 0) ≡ false = ground (arith, entry_count) in
      rw
        (
          IsNode-num_entries n,
          t,
          by_index_from-find_from x (before ++ e ∷ rest) 0 4 p 0 n.fits (IsNode-Lies n)
              (omega (arith, n.sum_fits)),
        )
        refl

  child_by_index-here :
      (x : ℕ)
      → sum before ≤ x
      → x < sum before + e.elements
      → x < 2 ^ 64
      → child_by_index p x ≡ some (of e.digest, (length before, x - sum before))
  unfolding child_by_index or_last_child
  child_by_index-here x le lt small =
      let below : (x + 2 ^ 64 - sum before) % 2 ^ 64 ≡ x - sum before = omega arith in
      let z : 0 + length before ≡ length before = omega arith in
      rw
        (
          child_by_index,
          get_child_hash_by_index-find_from x,
          find_from-here x e rest before 0 0 (omega (arith, le)) (omega (arith, lt)),
          z,
          or_last_child,
          num_elements_until_entry-sum,
          below,
          z,
        )
        refl

child_by_index-last :
    (before : List Entry) (e : Entry) (p : Bytes)
    → IsNode (before ++ e ∷ []) p
    → (x : ℕ) → sum before + e.elements ≤ x
    → x < 2 ^ 64
    → child_by_index p x ≡ some (of e.digest, (length before, x - sum before))
unfolding child_by_index or_last_child
child_by_index-last before e p n x le small =
    let below : (x + 2 ^ 64 - sum before) % 2 ^ 64 ≡ x - sum before = omega arith in
    let count : num_entries p ≡ length before + 1 =
      IsNode-num_entries n ∙ entry_count before e [] p n in
    let z : 0 + (length before + 1) ≡ length before + 1 = omega arith in
    let same : (length before + 1 == length before + 1) ≡ true = ground arith in
    let last : length before + 1 - 1 ≡ length before = omega arith in
    rw
      (
        child_by_index,
        get_child_hash_by_index-find_from before e [] p n x,
        find_from-behind x e [] before 0 0 (omega (arith, le)),
        z,
        or_last_child,
        count,
        same,
        last,
        get_child_hash_by_entry-digest before e [] p n,
        count,
        last,
        num_elements_until_entry-sum before e [] p n,
        below,
        count,
        last,
      )
      refl

child_by_index-found :
    {es : List Entry} {p : Bytes} (x : ℕ)
    → x < 2 ^ 64
    → (w : Walked 0 x es) → IsNode (w.before ++ w.here ∷ w.rest) p
    → child_by_index p x ≡ some (of w.here.digest, (length w.before, x - sum w.before))
child_by_index-found {es} {p} x small w n =
    elim (Bool-cases (ltb x (sum w.before + w.here.elements))) [
      | inl t ↦
          child_by_index-here w.before w.here w.rest p n x w.not_before (ground (arith, t)) small
      | inr t ↦
          let last : w.rest ≡ [] = elim w.here_or_last [
            | inl a ↦ absurd (ground (arith, a, t))
            | inr b ↦ b
          ] in
          let m : IsNode (w.before ++ w.here ∷ []) p = rw last at n in
          child_by_index-last w.before w.here p m x (ground (arith, t)) small
    ]

-- A round by index goes to the child below which the element lies, or to the last one.
pub child_by_index-walk :
    (e : Entry) (es : List Entry) (p : Bytes)
    → IsNode (e ∷ es) p
    → (x : ℕ) → x < 2 ^ 64
    → (c : Entry) × (k : ℕ) × (below : ℕ) × (walk 0 x (e ∷ es) ≡ some (c, (k, below)))
      × (child_by_index p x ≡ some (of c.digest, (k, below)))
child_by_index-walk e es p n x small =
    let w = Walked-walk 0 x e es in
    let m : IsNode (w.before ++ w.here ∷ w.rest) p = rw w.split at n in
    let z : 0 + length w.before ≡ length w.before = omega arith in
    (
      w.here,
      length w.before,
      x - sum w.before,
      rw (← z) w.walk_is,
      child_by_index-found x small w m,
    )

-- `numElements` is the sum.
pub num_elements-sum : (es : List Entry) (p : Bytes) → IsNode es p → num_elements p ≡ some (sum es)
unfolding num_elements num_elements_until_entry
num_elements-sum es p n =
    let t : leb (length es) (length es) ≡ true = ground arith in
    let z : 0 + sum es ≡ sum es = omega arith in
    let l : Lies (es ++ []) 4 p = rw append-nil (IsNode-Lies n) in
    rw
      (
        IsNode-num_entries n,
        t,
        elements_from-sum es [] 4 p 0 n.fits l (omega (arith, n.sum_fits)),
        z,
      )
      refl
