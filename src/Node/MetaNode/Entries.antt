-- ===== src/Node/MetaNode/Entries.antt =====
-- A `MetaNode` (src/node/meta_node.cc) as the list of its entries.
use mathlib.Core.List.{append_assoc}
use forkbase.Base.{
  ℕ, suc, ◌+◌, ◌-◌, ◌%◌, ◌^◌, ◌<◌, ◌≡◌, refl, sym, ◌∙◌, Option, none, some, List, [], ◌∷◌, ◌++◌,
  Bytes, length, drop, le_bytes, read_le-append, length-append, length-le_bytes, drop-append,
  drop-add, take_self, ltb, if◌then◌else◌, All, arith,
}
use forkbase.Hash.{Hash, null, of, byte_length}
use forkbase.Node.{OrderedKey}
use forkbase.Node.MetaEntry.{
  meta_encode, key_num_bytes, key_encode, IsKey, MetaHolds, meta_encode-MetaHolds, meta_num_bytes,
  by_value,
}
use forkbase.Node.MetaNode.{num_entries, elements_from, by_index_from}

pub record Entry : Type 0 where
  pub leaves : ℕ
  pub elements : ℕ
  pub digest : Bytes
  pub key : OrderedKey

-- The fields fit their width.
pub record Fits (e : Entry) : Type 0 where
  pub digest_fits : length e.digest ≡ byte_length
  pub key_fits : IsKey e.key
  pub leaves_fit : e.leaves < 2 ^ 32
  pub elements_fit : e.elements < 2 ^ 64
  pub size_fits : 37 + key_num_bytes e.key < 2 ^ 32

abbrev pub encode_entry : Entry → Bytes
encode_entry e = meta_encode e.leaves e.elements (of e.digest) e.key

abbrev pub entries_bytes : List Entry → Bytes
entries_bytes [] = []
entries_bytes (e ∷ es) = encode_entry e ++ entries_bytes es

-- The data of a node of these entries.
abbrev pub node_bytes : List Entry → Bytes
node_bytes es = le_bytes 4 (length es) ++ entries_bytes es

abbrev pub sum : List Entry → ℕ
sum [] = 0
sum (e ∷ es) = e.elements + sum es

length-key_encode : (k : OrderedKey) → length (key_encode k) ≡ key_num_bytes k
unfolding key_encode key_num_bytes
length-key_encode (OrderedKey.number v) = length-le_bytes 8 v
length-key_encode (OrderedKey.slice s) = refl

length-encode_entry : (e : Entry) → Fits e → length (encode_entry e) ≡ 37 + key_num_bytes e.key
unfolding meta_encode le_bytes
length-encode_entry e f = rw (take_self byte_length e.digest f.digest_fits) (
    omega (
      arith,
      length-append e.digest (by_value e.key ∷ key_encode e.key),
      f.digest_fits,
      length-key_encode e.key,
    ))

-- From `offset` on the memory has these entries.
abbrev pub Lies : List Entry → ℕ → Bytes → Type 0
Lies es offset p = (after : Bytes) × (drop offset p ≡ entries_bytes es ++ after)

module _ (e : Entry) (es : List Entry) (offset : ℕ) (p : Bytes) (f : Fits e)
    (l : Lies (e ∷ es) offset p) where
  pub Lies-Holds : MetaHolds e.leaves e.elements (of e.digest) e.key (drop offset p)
  Lies-Holds =
      rw (l.1, append_assoc (encode_entry e) (entries_bytes es) l.0)
        (meta_encode-MetaHolds e.leaves e.elements e.digest e.key (entries_bytes es ++ l.0)
          f.digest_fits f.key_fits f.leaves_fit f.elements_fit f.size_fits)

  pub Lies-tail : Lies es (offset + meta_num_bytes (drop offset p)) p
  Lies-tail = (
    l.0,
    rw
        (
          Lies-Holds.size_is,
          sym (drop-add offset (37 + key_num_bytes e.key) p),
          l.1,
          append_assoc (encode_entry e) (entries_bytes es) l.0,
        )
        (drop-append (37 + key_num_bytes e.key) (encode_entry e) (entries_bytes es ++ l.0)
          (length-encode_entry e f)),
  )

pub num_entries-node_bytes :
    (es : List Entry) (after : Bytes)
    → length es < 2 ^ 32
    → num_entries (node_bytes es ++ after) ≡ length es
unfolding num_entries
num_entries-node_bytes es after h =
    rw append_assoc (read_le-append 4 0 (length es) [] (entries_bytes es ++ after) refl h)

pub node_bytes-Lies : (es : List Entry) (after : Bytes) → Lies es 4 (node_bytes es ++ after)
node_bytes-Lies es after = (
  after,
  rw append_assoc (
      drop-append 4 (le_bytes 4 (length es)) (entries_bytes es ++ after)
        (length-le_bytes 4 (length es))),
)

-- `numElements` over a counter of 64 bits is the sum, and so is that of a part.
pub elements_from-sum :
    (es rest : List Entry) (offset : ℕ) (p : Bytes) (total : ℕ)
    → All Fits es
    → Lies (es ++ rest) offset p
    → total + sum es < 2 ^ 64
    → elements_from (length es) offset p total ≡ total + sum es
unfolding elements_from
elements_from-sum [] rest offset p total f l h = omega arith
elements_from-sum (e ∷ es) rest offset p total (f, fs) l h =
    let m = Lies-Holds e (es ++ rest) offset p f l in
    let n : (total + e.elements) % 2 ^ 64 ≡ total + e.elements = omega (arith, h) in
    rw (elements_from, m.elements_are, n)
      (elements_from-sum es rest _ p (total + e.elements) fs (Lies-tail e (es ++ rest) offset p f l)
          (omega (arith, h))
        ∙ omega arith)

-- What `GetChildHashByIndex` looks for, on the list of entries.
abbrev pub find_from : ℕ → ℕ → ℕ → List Entry → Hash × ℕ
find_from x i total [] = (null, i)
find_from x i total (e ∷ es) =
    let rest = find_from x (suc i) (total + e.elements) es in
    if ltb x (total + e.elements) then (of e.digest, i) else rest

pub by_index_from-find_from :
    (x : ℕ) (es : List Entry) (i offset : ℕ) (p : Bytes) (total : ℕ)
    → All Fits es
    → Lies es offset p
    → total + sum es < 2 ^ 64
    → by_index_from x (length es) i offset p total ≡ find_from x i total es
unfolding by_index_from
by_index_from-find_from x [] i offset p total f l h = refl
by_index_from-find_from x (e ∷ es) i offset p total (f, fs) l h =
    let m = Lies-Holds e es offset p f l in
    let n : (total + e.elements) % 2 ^ 64 ≡ total + e.elements = omega (arith, h) in
    rw
      (
        m.elements_are,
        n,
        m.hash_is,
        by_index_from-find_from x es (suc i) _ p (total + e.elements) fs
            (Lies-tail e es offset p f l) (omega (arith, h)),
      )
      refl

-- The entry below which the element `x` lies, with its place and the index below it: the last one
-- for an index behind all the elements.
abbrev pub walk : ℕ → ℕ → List Entry → Option (Entry × (ℕ × ℕ))
walk i x [] = none
walk i x (e ∷ []) = some (e, (i, x))
walk i x (e ∷ (f ∷ es)) =
    let rest = walk (suc i) (x - e.elements) (f ∷ es) in
    if ltb x e.elements then some (e, (i, x)) else rest
