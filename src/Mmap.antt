-- ===== src/Mmap.antt =====
-- The memory that a file is mapped into (`mmap` in src/store/lst_store.cc), as the byte at each
-- address, with the copies of bytes that the code makes into it and out of it.
use forkbase.Base.{
  ℕ, zero, suc, ◌+◌, ◌≤◌, ◌<◌, ◌≡◌, refl, ap, ◌⊎◌, inl, inr, [], ◌∷◌, ◌++◌, arith, Bytes, length,
  ◌==◌, if◌then◌else◌, le_value, ◌^◌, le_bytes, length-le_bytes, length-append, le_value-le_bytes,
  drop-append, take-append,
}

abbrev pub Memory : Type 0
Memory = ℕ → ℕ

-- `n` bytes from an address on
unfoldable pub load_bytes : ℕ → Memory → ℕ → Bytes
load_bytes zero m o = []
load_bytes (suc n) m o = m o ∷ load_bytes n m (suc o)

-- `std::copy` of bytes to an address
unfoldable pub store_bytes : Bytes → ℕ → Memory → Memory
store_bytes [] o m i = m i
store_bytes (b ∷ bs) o m i = let rest = store_bytes bs (suc o) m i in if i == o then b else rest

-- `*reinterpret_cast<const uintN_t*>(p)`
unfoldable pub load_integer : ℕ → Memory → ℕ → ℕ
load_integer width m o = le_value (load_bytes width m o)

-- Two memories with the same bytes from `lo` up to before `hi`.
abbrev pub Same : Memory → Memory → ℕ → ℕ → Type 0
Same m w lo hi = (i : ℕ) → lo ≤ i → i < hi → m i ≡ w i

pub length-load_bytes : (n : ℕ) (m : Memory) (o : ℕ) → length (load_bytes n m o) ≡ n
unfolding load_bytes
length-load_bytes zero m o = refl
length-load_bytes (suc n) m o = ap suc (length-load_bytes n m (suc o))

pub load_bytes-Same :
    (n : ℕ) (m w : Memory) (o lo hi : ℕ)
    → Same m w lo hi
    → lo ≤ o
    → o + n ≤ hi
    → load_bytes n m o ≡ load_bytes n w o
unfolding load_bytes
load_bytes-Same zero m w o lo hi s a b = refl
load_bytes-Same (suc n) m w o lo hi s a b =
    rw (s o a (omega arith), load_bytes-Same n m w (suc o) lo hi s (omega arith) (omega arith)) refl

pub load_integer-Same :
    (n : ℕ) (m w : Memory) (o lo hi : ℕ)
    → Same m w lo hi
    → lo ≤ o
    → o + n ≤ hi
    → load_integer n m o ≡ load_integer n w o
unfolding load_integer
load_integer-Same n m w o lo hi s a b = rw (load_bytes-Same n m w o lo hi s a b) refl

store_bytes-away :
    (bs : Bytes) (o : ℕ) (m : Memory) (i : ℕ)
    → (i < o) ⊎ (o + length bs ≤ i)
    → m i ≡ store_bytes bs o m i
unfolding store_bytes
store_bytes-away [] o m i h = refl
store_bytes-away (b ∷ bs) o m i h =
    let out : (i < suc o) ⊎ (suc o + length bs ≤ i) = elim h [
      | inl a ↦ inl (omega (arith, a))
      | inr a ↦ inr (omega (arith, a))
    ] in
    ground (arith, h, store_bytes-away bs (suc o) m i out)

-- A write leaves what lies before and behind it.
pub store_bytes-Same :
    (bs : Bytes) (o : ℕ) (m : Memory) (lo hi : ℕ)
    → (hi ≤ o) ⊎ (o + length bs ≤ lo)
    → Same m (store_bytes bs o m) lo hi
store_bytes-Same bs o m lo hi h i a b =
    store_bytes-away bs o m i
      (elim h [ inl u ↦ inl (omega (arith, u, b)) | inr u ↦ inr (omega (arith, u, a)) ])

pub Same-trans : (m w v : Memory) (lo hi : ℕ) → Same m w lo hi → Same w v lo hi → Same m v lo hi
Same-trans m w v lo hi s t i a b = rw (s i a b, t i a b) refl

pub Same-narrow :
    (m w : Memory) (lo hi lo' hi' : ℕ) → lo ≤ lo' → hi' ≤ hi → Same m w lo hi → Same m w lo' hi'
Same-narrow m w lo hi lo' hi' a b s i c d = s i (omega arith) (omega arith)

store_bytes-first : (b : ℕ) (bs : Bytes) (o : ℕ) (m : Memory) → store_bytes (b ∷ bs) o m o ≡ b
unfolding store_bytes
store_bytes-first b bs o m = ground arith

store_bytes-rest :
    (b : ℕ) (bs : Bytes) (o : ℕ) (m : Memory)
    → Same (store_bytes (b ∷ bs) o m) (store_bytes bs (suc o) m) (suc o) (suc o + length bs)
unfolding store_bytes
store_bytes-rest b bs o m i a c = ground arith

pub load_bytes-store_bytes :
    (bs : Bytes) (o : ℕ) (m : Memory) → load_bytes (length bs) (store_bytes bs o m) o ≡ bs
unfolding load_bytes
load_bytes-store_bytes [] o m = refl
load_bytes-store_bytes (b ∷ bs) o m =
    rw
      (
        load_bytes-Same (length bs) (store_bytes (b ∷ bs) o m) (store_bytes bs (suc o) m) (suc o)
            (suc o) (suc o + length bs) (store_bytes-rest b bs o m) (omega arith) (omega arith),
        load_bytes-store_bytes bs (suc o) m,
        store_bytes-first b bs o m,
      )
      refl

pub load_bytes-add :
    (a b : ℕ) (m : Memory) (o : ℕ)
    → load_bytes (a + b) m o ≡ load_bytes a m o ++ load_bytes b m (o + a)
unfolding load_bytes
load_bytes-add zero b m o =
    let z : zero + b ≡ b = omega arith in let y : o + zero ≡ o = omega arith in rw (z, y) refl
load_bytes-add (suc a) b m o =
    let z : suc a + b ≡ suc (a + b) = omega arith in
    let y : o + suc a ≡ suc o + a = omega arith in
    rw (z, y) (ap (λ t. m o ∷ t) (load_bytes-add a b m (suc o)))

-- The second of two integers that are written side by side, and one that is written alone.
pub load_integer-store_second :
    (width a n o : ℕ) (m : Memory)
    → n < 256 ^ width
    → load_integer width (store_bytes (le_bytes width a ++ le_bytes width n) o m) (o + width) ≡ n
unfolding load_integer
load_integer-store_second width a n o m h =
    let both = load_bytes-store_bytes (le_bytes width a ++ le_bytes width n) o m in
    let w = store_bytes (le_bytes width a ++ le_bytes width n) o m in
    let len : length (le_bytes width a ++ le_bytes width n) ≡ width + width = omega (
      arith,
      length-append (le_bytes width a) (le_bytes width n),
      length-le_bytes width a,
      length-le_bytes width n,
    ) in
    let parts : load_bytes width w o ++ load_bytes width w (o + width)
        ≡ le_bytes width a ++ le_bytes width n =
      let f : load_bytes (width + width) w o ≡ le_bytes width a ++ le_bytes width n =
        rw len at both in
      rw load_bytes-add at f in
    let second : load_bytes width w (o + width) ≡ le_bytes width n =
      rw
        (
          ← (
              drop-append width (load_bytes width w o) (load_bytes width w (o + width))
                (length-load_bytes width w o)),
          parts,
          drop-append width (le_bytes width a) (le_bytes width n) (length-le_bytes width a),
        )
        refl in
    rw (second, le_value-le_bytes width n h) refl

pub load_integer-store_bytes :
    (width n o : ℕ) (m : Memory)
    → n < 256 ^ width
    → load_integer width (store_bytes (le_bytes width n) o m) o ≡ n
unfolding load_integer
load_integer-store_bytes width n o m h =
    let f = load_bytes-store_bytes (le_bytes width n) o m in
    let g : load_bytes width (store_bytes (le_bytes width n) o m) o ≡ le_bytes width n =
      rw (length-le_bytes width n) at f in
    rw (g, le_value-le_bytes width n h) refl

-- Bytes that are read back are read back in parts.
pub load_bytes-split :
    (xs ys : Bytes) (m : Memory) (o : ℕ)
    → load_bytes (length (xs ++ ys)) m o ≡ xs ++ ys
    → (load_bytes (length xs) m o ≡ xs) × (load_bytes (length ys) m (o + length xs) ≡ ys)
load_bytes-split xs ys m o h =
    let parts : load_bytes (length xs) m o ++ load_bytes (length ys) m (o + length xs) ≡ xs ++ ys =
      rw (length-append xs ys, load_bytes-add) at h in
    let len = length-load_bytes (length xs) m o in
    (
      rw
          (
            ← (
                take-append (length xs) (load_bytes (length xs) m o)
                  (load_bytes (length ys) m (o + length xs)) len),
            parts,
          )
          (take-append (length xs) xs ys refl),
      rw
          (
            ← (
                drop-append (length xs) (load_bytes (length xs) m o)
                  (load_bytes (length ys) m (o + length xs)) len),
            parts,
          )
          (drop-append (length xs) xs ys refl),
    )

pub load_integer-bytes :
    (width n o : ℕ) (m : Memory)
    → n < 256 ^ width
    → load_bytes (length (le_bytes width n)) m o ≡ le_bytes width n
    → load_integer width m o ≡ n
unfolding load_integer
load_integer-bytes width n o m h e =
    let f : load_bytes width m o ≡ le_bytes width n = rw (length-le_bytes width n) at e in
    rw (f, le_value-le_bytes width n h) refl
