-- ===== src/Node/Cursor/ByKey.antt =====
-- `MetaNode::GetChildHashByKey` (src/node/meta_node.cc): the child below which a key belongs.
use forkbase.Base.{
  ℕ, suc, ◌+◌, ◌≡◌, refl, ap, ◌⊎◌, Bool, true, false, Option, none, some, List, [], ◌∷◌, ◌++◌,
  Bytes, length, ◌==◌, All, arith, Option-cases, Bool-cases, inl, inr,
}
use forkbase.Hash.{Hash, null, of}
use forkbase.Node.{OrderedKey}
use forkbase.Node.MetaNode.{key_le, by_key_from, get_child_hash_by_key}
use forkbase.Node.MetaNode.Entries.{Entry, Fits, Lies, Lies-Holds, Lies-tail}
use forkbase.Node.Cursor.Child.{IsNode, IsNode-num_entries, IsNode-Lies}

-- The search on the list of entries.
abbrev find_key : OrderedKey → ℕ → List Entry → Option (Hash × ℕ)
find_key k i [] = some (null, i)
find_key k i (e ∷ es) = elim (key_le k e.key) [
  | none ↦ none
  | some true ↦ some (of e.digest, i)
  | some false ↦ find_key k (suc i) es
]

by_key_from-find_key :
    (k : OrderedKey) (es : List Entry) (i offset : ℕ) (p : Bytes)
    → All Fits es
    → Lies es offset p
    → by_key_from k (length es) i offset p ≡ find_key k i es
unfolding by_key_from
by_key_from-find_key k [] i offset p f l = refl
by_key_from-find_key k (e ∷ es) i offset p (f, fs) l =
    let m = Lies-Holds e es offset p f l in
    let rest = by_key_from-find_key k es (suc i) _ p fs (Lies-tail e es offset p f l) in
    rw (by_key_from, m.key_is)
      (elim (Option-cases (key_le k e.key)) [
        | inl x ↦ rw (x, by_key_from, find_key) refl
        | inr (b, x) ↦ elim (Bool-cases b) [
          | inl t ↦ rw (x, t, by_key_from, find_key) (ap (λ h. some (h, i)) m.hash_is)
          | inr t ↦ rw (x, t, by_key_from, find_key) rest
        ]
      ])

-- The key can be compared with that of the entry: both are numbers, or both are slices.
abbrev pub IsComparable : OrderedKey → Entry → Type 0
IsComparable k e = (b : Bool) × (key_le k e.key ≡ some b)

-- The key of the entry is below `k`.
abbrev pub IsBelow : OrderedKey → Entry → Type 0
IsBelow k e = key_le k e.key ≡ some false

-- The first entry whose key is not below `k`.
pub record First (k : OrderedKey) (es : List Entry) (i : ℕ) (found : Option (Hash × ℕ))
    : Type 0 where
  pub before : List Entry
  pub here : Entry
  pub rest : List Entry
  pub split : es ≡ before ++ here ∷ rest
  pub before_below : All (IsBelow k) before
  pub here_not_below : key_le k here.key ≡ some true
  pub found_is : found ≡ some (of here.digest, i + length before)

find_key-First :
    (k : OrderedKey) (i : ℕ) (es : List Entry)
    → All (IsComparable k) es
    → First k es i (find_key k i es)
      ⊎ (All (IsBelow k) es × (find_key k i es ≡ some (null, i + length es)))
find_key-First k i [] c = inr (tt, let z : i + 0 ≡ i = omega arith in rw z refl)
find_key-First k i (e ∷ es) ((true, h), cs) = inl (record {
  before = [];
  here = e;
  rest = es;
  split = refl;
  before_below = tt;
  here_not_below = h;
  found_is = let z : i + 0 ≡ i = omega arith in rw (z, find_key, h) refl;
})
find_key-First k i (e ∷ es) ((false, h), cs) = elim (find_key-First k (suc i) es cs) [
  | inl f ↦ inl (record {
    before = e ∷ f.before;
    here = f.here;
    rest = f.rest;
    split = ap (λ l. e ∷ l) f.split;
    before_below = (h, f.before_below);
    here_not_below = f.here_not_below;
    found_is =
        let z : i + suc (length f.before) ≡ suc i + length f.before = omega arith in
        rw (z, find_key, h) f.found_is;
  })
  | inr (below, e2) ↦ inr (
    (h, below),
    let z : i + suc (length es) ≡ suc i + length es = omega arith in rw (z, find_key, h) e2,
  )
]

get_child_hash_by_key-find_key :
    (e : Entry) (es : List Entry) (p : Bytes) (k : OrderedKey)
    → IsNode (e ∷ es) p
    → get_child_hash_by_key p k ≡ find_key k 0 (e ∷ es)
unfolding get_child_hash_by_key
get_child_hash_by_key-find_key e es p k n =
    let t : (suc (length es) == 0) ≡ false = ground arith in
    rw (IsNode-num_entries n, t) (by_key_from-find_key k (e ∷ es) 0 4 p n.fits (IsNode-Lies n))

-- In a node whose keys can be compared with `k`, `GetChildHashByKey` finds the first entry whose
-- key is not below `k`. If there is none, the hash is empty and the index the number of entries.
pub get_child_hash_by_key-First :
    (e : Entry) (es : List Entry) (p : Bytes) (k : OrderedKey)
    → IsNode (e ∷ es) p
    → All (IsComparable k) (e ∷ es)
    → First k (e ∷ es) 0 (get_child_hash_by_key p k)
      ⊎ (All (IsBelow k) (e ∷ es) × (get_child_hash_by_key p k ≡ some (null, 0 + length (e ∷ es))))
get_child_hash_by_key-First e es p k n c =
    rw (get_child_hash_by_key-find_key e es p k n) (find_key-First k 0 (e ∷ es) c)
