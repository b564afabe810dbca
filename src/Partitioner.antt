-- ===== src/Partitioner.antt =====
-- `Partitioner` (include/cluster/partitioner.h, src/cluster/partitioner.cc): which server has a
-- chunk or a key. The host file is the list of its words, and `f_port` a parameter. `none` is a
-- failed check or an access behind the end of the list.
use forkbase.Base.{
  ℕ, suc, ◌%◌, ◌<◌, ◌≡◌, refl, Option, none, some, List, [], ◌∷◌, map, Bytes, length, length-map,
  ◌^◌, leb, ap, false, get_elem?, get_elem?-length, read_le, ◌==◌, ◌=?◌, bytes_eq, if◌then◌else◌,
  arith, Bool-cases, Option-cases, inl, inr,
}
use forkbase.Hash.{Hash, null, of, IsDigest}
use forkbase.Slice.{Slice}

-- `id_`, which is -1 until a word of the file is the own address, as an option.
pub record Partitioner : Type 0 where
  pub id : Option ℕ
  pub dest_list : List Bytes

-- The loop of the constructor over the words: the last one that is the own address counts.
unfoldable pub own_id : Bytes → ℕ → Option ℕ → List Bytes → Option ℕ
own_id self_addr i id [] = id
own_id self_addr i id (a ∷ addrs) =
    own_id self_addr (suc i) (if a =? self_addr then some i else id) addrs

-- The constructor.
unfoldable pub partitioner : List Bytes → Bytes → (Bytes → Bytes) → Option Partitioner
unfolding own_id
partitioner [] self_addr f_port = none
partitioner (a ∷ addrs) self_addr f_port =
    some (record { id = own_id self_addr 0 none (a ∷ addrs); dest_list = map f_port (a ∷ addrs) })

-- `GetDestId(hash)`: the number in the eight bytes from the tenth on, whose remainder is made an
-- `int`, here its 32 bits. `none`: the bytes are read through the null pointer of an empty hash.
-- The constructor leaves no empty list.
unfoldable pub get_dest_id : Partitioner → Hash → Option ℕ
get_dest_id p hash =
    if length p.dest_list == 1
    then some 0
    else elim hash [ null ↦ none | of b ↦ some (read_le 8 9 b % length p.dest_list % 2 ^ 32) ]

-- `GetDestId(key)`, by the hash of the key.
unfoldable pub get_dest_id_of_key : (Bytes → Bytes) → Partitioner → Slice → Option ℕ
unfolding get_dest_id
get_dest_id_of_key digest p key = get_dest_id p (of (digest key))

-- `id2addr`, which checks that the `int` is not negative.
unfoldable pub id2addr : Partitioner → ℕ → Option Bytes
id2addr p id = if leb (2 ^ 31) id then none else get_elem? p.dest_list id

-- `GetDestAddr`
unfoldable pub get_dest_addr : Partitioner → Hash → Option Bytes
unfolding id2addr get_dest_id
get_dest_addr p hash = elim (get_dest_id p hash) [ none ↦ none | some id ↦ id2addr p id ]

-- `addr()`
unfoldable pub addr : Partitioner → Option Bytes
unfolding id2addr
addr p = elim (p.id) [ none ↦ none | some id ↦ id2addr p id ]

-- With as many servers as an `int` counts, a digest has a server of the list.
get_dest_id-bound :
    (p : Partitioner) (b : Bytes)
    → 0 < length p.dest_list
    → length p.dest_list < 2 ^ 31
    → (id : ℕ) × (get_dest_id p (of b) ≡ some id) × (id < length p.dest_list)
unfolding get_dest_id
get_dest_id-bound p b some_server few = elim (Bool-cases (length p.dest_list == 1)) [
  | inl t ↦ (0, rw t refl, some_server)
  | inr t ↦ (
    read_le 8 9 b % length p.dest_list,
    rw t (ap some (omega (arith, some_server, few))),
    omega (arith, some_server),
  )
]

get_elem?-some : {n : ℕ} (ds : List Bytes) → n < length ds → (a : Bytes) × (get_elem? ds n ≡ some a)
get_elem?-some {n} ds h = elim (Option-cases (get_elem? ds n)) [
  | inl e ↦ absurd (let k = get_elem?-length n ds e in omega (arith, k, h))
  | inr found ↦ found
]

id2addr-found :
    (p : Partitioner) (id : ℕ) (a : Bytes)
    → get_elem? p.dest_list id ≡ some a
    → id < 2 ^ 31
    → id2addr p id ≡ some a
unfolding id2addr
id2addr-found p id a found small = let t : leb (2 ^ 31) id ≡ false = ground arith in rw t found

get_dest_addr-found :
    (p : Partitioner) (hash : Hash) (id : ℕ) (a : Bytes)
    → get_dest_id p hash ≡ some id
    → id2addr p id ≡ some a
    → get_dest_addr p hash ≡ some a
unfolding get_dest_addr
get_dest_addr-found p hash id a e f = rw (e, get_dest_addr) f

-- Any two servers that read the same host file, which has from one to 2 ^ 31 - 1 words, send the
-- chunk with a digest to the same address, which is on the list.
pub get_dest_addr_lem :
    (a : Bytes) (addrs : List Bytes) (self other : Bytes) (f_port : Bytes → Bytes) (hash : Hash)
    → length (a ∷ addrs) < 2 ^ 31
    → IsDigest hash
    → (p : Partitioner) × (q : Partitioner) × (id : ℕ) × (dest : Bytes) × (partitioner
          (a ∷ addrs)
          self
          f_port
        ≡ some p)
      × (partitioner (a ∷ addrs) other f_port ≡ some q)
      × (get_dest_id p hash ≡ some id)
      × (id < length (a ∷ addrs))
      × (get_elem? (map f_port (a ∷ addrs)) id ≡ some dest)
      × (get_dest_addr p hash ≡ some dest)
      × (get_dest_addr q hash ≡ some dest)
unfolding partitioner get_dest_addr id2addr get_dest_id
get_dest_addr_lem a addrs self other f_port null few d = absurd (omega (arith, d))
get_dest_addr_lem a addrs self other f_port (of b) few d =
    let p : Partitioner = record {
      id = own_id self 0 none (a ∷ addrs);
      dest_list = map f_port (a ∷ addrs);
    } in
    let q : Partitioner = record {
      id = own_id other 0 none (a ∷ addrs);
      dest_list = map f_port (a ∷ addrs);
    } in
    let count : length (map f_port (a ∷ addrs)) ≡ length (a ∷ addrs) =
      length-map f_port (a ∷ addrs) in
    let (id, got, bound) = get_dest_id-bound p b (omega arith) (omega (arith, few, count)) in
    let (dest, found) = get_elem?-some (map f_port (a ∷ addrs)) bound in
    let addr_of = id2addr-found p id dest found (omega (arith, few, bound, count)) in
    (
      p,
      q,
      id,
      dest,
      refl,
      refl,
      got,
      omega (arith, bound, count),
      found,
      get_dest_addr-found p (of b) id dest got addr_of,
      get_dest_addr-found q (of b) id dest got addr_of,
    )
