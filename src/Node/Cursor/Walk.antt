-- ===== src/Node/Cursor/Walk.antt =====
-- The entries of a `MetaNode` (src/node/meta_node.cc) around the one below which an element lies.
use forkbase.Base.{
  ℕ, suc, ◌+◌, ◌-◌, ◌≤◌, ◌<◌, ◌≡◌, refl, ap, ◌⊎◌, true, false, some, List, [], ◌∷◌, ◌++◌, Bytes,
  length, get_elem?, ltb, All, arith, Bool-cases, inl, inr,
}
use forkbase.Hash.{null, of}
use forkbase.Node.MetaNode.{offsets_from}
use forkbase.Node.MetaNode.Entries.{Entry, Fits, sum, Lies, Lies-tail, find_from, walk}

-- The entries around the one that `walk` finds.
pub record Walked (i x : ℕ) (es : List Entry) : Type 0 where
  pub before : List Entry
  pub here : Entry
  pub rest : List Entry
  pub split : es ≡ before ++ here ∷ rest
  pub not_before : sum before ≤ x
  pub here_or_last : (x < sum before + here.elements) ⊎ (rest ≡ [])
  pub walk_is : walk i x es ≡ some (here, (i + length before, x - sum before))

pub Walked-walk : (i x : ℕ) (e : Entry) (es : List Entry) → Walked i x (e ∷ es)
Walked-walk i x e [] = record {
  before = [];
  here = e;
  rest = [];
  split = refl;
  not_before = omega arith;
  here_or_last = inr refl;
  walk_is = let p : i + 0 ≡ i = omega arith in let q : x - 0 ≡ x = omega arith in rw (p, q) refl;
}
Walked-walk i x e (f ∷ es) = elim (Bool-cases (ltb x e.elements)) [
  | inl t ↦ record {
    before = [];
    here = e;
    rest = f ∷ es;
    split = refl;
    not_before = omega arith;
    here_or_last = inl (ground (arith, t));
    walk_is =
        let p : i + 0 ≡ i = omega arith in let q : x - 0 ≡ x = omega arith in rw (t, p, q) refl;
  }
  | inr t ↦
      let w = Walked-walk (suc i) (x - e.elements) f es in
      let le : e.elements ≤ x = ground (arith, t) in
      record {
        before = e ∷ w.before;
        here = w.here;
        rest = w.rest;
        split = ap (λ l. e ∷ l) w.split;
        not_before = omega (arith, w.not_before, le);
        here_or_last = elim w.here_or_last [ inl a ↦ inl (omega (arith, a, le)) | inr b ↦ inr b ];
        walk_is =
            let p : suc i + length w.before ≡ i + suc (length w.before) = omega arith in
            let q : x - e.elements - sum w.before ≡ x - (e.elements + sum w.before) = omega arith in
            rw (t, w.walk_is, p, q) refl;
      }
]

module _ (y : ℕ) (e : Entry) (rest : List Entry) where
  pub find_from-here :
      (before : List Entry) (i total : ℕ)
      → total + sum before ≤ y
      → y < total + sum before + e.elements
      → find_from y i total (before ++ e ∷ rest) ≡ (of e.digest, i + length before)
  find_from-here [] i total le lt =
      let t : ltb y (total + e.elements) ≡ true = ground (arith, lt) in
      let p : i + 0 ≡ i = omega arith in rw (t, p) refl
  find_from-here (b ∷ bs) i total le lt =
      let t : ltb y (total + b.elements) ≡ false = ground (arith, le) in
      let p : suc i + length bs ≡ i + suc (length bs) = omega arith in
      rw (t, ← p)
        (find_from-here bs (suc i) (total + b.elements) (omega (arith, le)) (omega (arith, lt)))

  pub find_from-behind :
      (before : List Entry) (i total : ℕ)
      → total + sum before + e.elements ≤ y
      → find_from y i total (before ++ e ∷ []) ≡ (null, i + (length before + 1))
  find_from-behind [] i total le =
      let t : ltb y (total + e.elements) ≡ false = ground (arith, le) in
      let p : i + 1 ≡ suc i = omega arith in rw (t, p) refl
  find_from-behind (b ∷ bs) i total le =
      let t : ltb y (total + b.elements) ≡ false = ground (arith, le) in
      let p : suc i + (length bs + 1) ≡ i + (suc (length bs) + 1) = omega arith in
      rw (t, ← p) (find_from-behind bs (suc i) (total + b.elements) (omega (arith, le)))

-- The offset of an entry, and what lies there.
pub offsets_from-Lies :
    (before : List Entry) (e : Entry) (rest : List Entry) (offset : ℕ) (p : Bytes)
    → All Fits before
    → Lies (before ++ e ∷ rest) offset p
    → (o : ℕ) × (get_elem? (offsets_from (length (before ++ e ∷ rest)) offset p) (length before)
        ≡ some o)
      × Lies (e ∷ rest) o p
unfolding offsets_from
offsets_from-Lies [] e rest offset p f l = (offset, refl, l)
offsets_from-Lies (b ∷ bs) e rest offset p (f, fs) l =
    offsets_from-Lies bs e rest _ p fs (Lies-tail b (bs ++ e ∷ rest) offset p f l)

pub All-front : (before : List Entry) (es : List Entry) → All Fits (before ++ es) → All Fits before
All-front [] es f = tt
All-front (b ∷ bs) es (f, fs) = (f, All-front bs es fs)

pub All-back : (before : List Entry) (es : List Entry) → All Fits (before ++ es) → All Fits es
All-back [] es f = f
All-back (b ∷ bs) es (f, fs) = All-back bs es fs

pub sum-append : (es fs : List Entry) → sum (es ++ fs) ≡ sum es + sum fs
sum-append [] fs = omega arith
sum-append (e ∷ es) fs = omega (arith, sum-append es fs)
