-- ===== src/Node/Cursor/Descent.antt =====
-- The way from a root to a leaf (`NodeCursor(hash, idx, loader)`, src/node/cursor.cc): in a tree it
-- comes to an end, at the element that is asked for.
use mathlib.Core.List.{append-nil}
use forkbase.Base.{
  ℕ, suc, ◌+◌, ◌-◌, ◌^◌, ◌≤◌, ◌<◌, ◌≡◌, refl, ap, true, false, Option, none, some, List, [], ◌∷◌,
  ◌++◌, ltb, if◌then◌else◌, arith, Bool-cases, inl, inr,
}
use forkbase.Hash.{Hash, of}
use forkbase.Chunk.{Chunk, data_of}
use forkbase.Node.MetaNode.Entries.{Entry, sum, walk}
use forkbase.Node.Cursor.{is_leaf, leaf_entries}
use forkbase.Node.Cursor.Child.{IsNode}

-- The entries of these leaves.
abbrev pub size : List Chunk → ℕ
size [] = 0
size (c ∷ cs) = leaf_entries c + size cs

-- The leaf and the place in it of the element `x`, with the end of the last leaf for their number.
abbrev pub leaf_at : ℕ → List Chunk → Option (Chunk × ℕ)
leaf_at x [] = none
leaf_at x (c ∷ []) = some (c, x)
leaf_at x (c ∷ (d ∷ cs)) =
    let rest = leaf_at (x - leaf_entries c) (d ∷ cs) in
    if ltb x (leaf_entries c) then some (c, x) else rest

module _ (load : Hash → Option Chunk) where
  mutual
    -- The hash leads to a tree of this height at most, with these leaves from left to right.
    pub data IsTree : ℕ → Hash → List Chunk → Type 0 where
      leaf :
          (height : ℕ) {h : Hash} {c : Chunk}
          → load h ≡ some c
          → is_leaf c ≡ some true
          → leaf_entries c < 2 ^ 31
          → IsTree height h (c ∷ [])
      inner :
          {height : ℕ} {h : Hash} {c : Chunk} {e : Entry} {es : List Entry} {leaves : List Chunk}
          → load h ≡ some c
          → is_leaf c ≡ some false
          → IsNode (e ∷ es) (data_of c)
          → AreTrees height (e ∷ es) leaves
          → IsTree (suc height) h leaves

    -- So does each entry of a node, with the number of elements that is there.
    pub data AreTrees : ℕ → List Entry → List Chunk → Type 0 where
      none_left : {height : ℕ} → AreTrees height [] []
      child :
          {height : ℕ} {e : Entry} {es : List Entry} {leaves others : List Chunk}
          → IsTree height (of e.digest) leaves
          → e.elements ≡ size leaves
          → AreTrees height es others
          → AreTrees height (e ∷ es) (leaves ++ others)

size-append : (cs ds : List Chunk) → size (cs ++ ds) ≡ size cs + size ds
size-append [] ds = omega arith
size-append (c ∷ cs) ds = omega (arith, size-append cs ds)

ltb_shift : (x a b : ℕ) → ltb x a ≡ false → ltb (x - a) b ≡ ltb x (a + b)
ltb_shift x a b t = ground (arith, t)

leaf_at-append :
    (x : ℕ) (c : Chunk) (cs : List Chunk) (d : Chunk) (ds : List Chunk)
    → leaf_at x ((c ∷ cs) ++ d ∷ ds)
      ≡ (if ltb x (size (c ∷ cs)) then leaf_at x (c ∷ cs) else leaf_at (x - size (c ∷ cs)) (d ∷ ds))
leaf_at-append x c [] d ds = let e : leaf_entries c + 0 ≡ leaf_entries c = omega arith in rw e refl
leaf_at-append x c (b ∷ bs) d ds = elim (Bool-cases (ltb x (leaf_entries c))) [
  | inl t ↦
      let u : ltb x (leaf_entries c + size (b ∷ bs)) ≡ true = ground (arith, t) in rw (t, u) refl
  | inr t ↦
      let m : x - leaf_entries c - size (b ∷ bs) ≡ x - (leaf_entries c + size (b ∷ bs)) =
        omega arith in
      let u : ltb (x - leaf_entries c) (size (b ∷ bs)) ≡ ltb x (leaf_entries c + size (b ∷ bs)) =
        ltb_shift x (leaf_entries c) (size (b ∷ bs)) t in
      rw (t, leaf_at-append (x - leaf_entries c) b bs d ds, u, m) refl
]

module _ {load : Hash → Option Chunk} where
  pub IsTree-load :
      {height : ℕ} {h : Hash} {leaves : List Chunk}
      → IsTree load height h leaves
      → (c : Chunk) × (load h ≡ some c)
  IsTree-load (leaf height {h} {c} l k s) = (c, l)
  IsTree-load (inner {height} {h} {c} l k n ts) = (c, l)

  IsTree-leaves :
      {height : ℕ} {h : Hash} {leaves : List Chunk}
      → IsTree load height h leaves
      → (c : Chunk) × (cs : List Chunk) × (leaves ≡ c ∷ cs)
  IsTree-leaves (leaf height {h} {c} l k s) = (c, [], refl)
  IsTree-leaves (inner l k n (child {height} {e} {es} {leaves} {others} t s ts)) =
      let (c, cs, e) = IsTree-leaves t in (c, cs ++ others, ap (λ a. a ++ others) e)

  AreTrees-leaves :
      {height : ℕ} {e : Entry} {es : List Entry} {leaves : List Chunk}
      → AreTrees load height (e ∷ es) leaves
      → (c : Chunk) × (cs : List Chunk) × (leaves ≡ c ∷ cs)
  AreTrees-leaves (child {leaves = l} {others = o} t s ts) =
      let (c, cs, e) = IsTree-leaves t in (c, cs ++ o, ap (λ a. a ++ o) e)

  pub AreTrees-sum :
      {height : ℕ} {es : List Entry} {leaves : List Chunk}
      → AreTrees load height es leaves
      → sum es ≡ size leaves
  AreTrees-sum none_left = refl
  AreTrees-sum (child {height} {e} {es} {leaves} {others} t s ts) =
      omega (arith, s, AreTrees-sum ts, size-append leaves others)

  -- What `walk` finds has the element.
  pub AreTrees-walk :
      {height : ℕ} (i x : ℕ) (e : Entry) (es : List Entry) {leaves : List Chunk} {c : Entry}
      {k b : ℕ}
      → AreTrees load height (e ∷ es) leaves
      → walk i x (e ∷ es) ≡ some (c, (k, b))
      → x ≤ size leaves
      → (below : List Chunk) × IsTree load height (of c.digest) below
        × (leaf_at x leaves ≡ leaf_at b below)
        × (b ≤ size below)
        × (size below ≤ size leaves)
  AreTrees-walk i x e [] {c = c} {k} {b} (child {leaves = l} t s none_left) w le =
      let here : e ≡ c = cc in
      let at : x ≡ b = cc in
      (
        l,
        rw (← here) t,
        rw (append-nil, at) refl,
        omega (arith, le, at, size-append l []),
        omega (arith, size-append l []),
      )
  AreTrees-walk i x e (f ∷ es) {c = c} {k} {b} (child {leaves = l} {others = o} t s ts) w le =
      let (c1, cs1, e1) = IsTree-leaves t in
      let (c2, cs2, e2) = AreTrees-leaves ts in
      let both : leaf_at x (l ++ o)
          ≡ (if ltb x e.elements then leaf_at x l else leaf_at (x - e.elements) o) =
        rw (s, e1, e2) (leaf_at-append x c1 cs1 c2 cs2) in
      elim (Bool-cases (ltb x e.elements)) [
        | inl v ↦
            let w' : some (e, (i, x)) ≡ some (c, (k, b)) = rw v at w in
            let here : e ≡ c = cc in
            let at : x ≡ b = cc in
            (
              l,
              rw (← here) t,
              rw (both, v, at) refl,
              ground (arith, v, at, s),
              omega (arith, size-append l o),
            )
        | inr v ↦
            let w' : walk (suc i) (x - e.elements) (f ∷ es) ≡ some (c, (k, b)) = rw v at w in
            let (below, t', at, le', small) =
              AreTrees-walk (suc i) (x - e.elements) f es ts w'
                (omega (arith, le, s, size-append l o)) in
            (below, t', rw (both, v) at, le', omega (arith, small, size-append l o))
      ]
