-- ===== src/LstStore/Chunks.antt =====
-- The chunks that stand behind one another in a segment of the log (src/store/lst_store.cc).
use forkbase.Base.{
  ℕ, ◌+◌, ◌*◌, ◌≤◌, ◌≡◌, refl, sym, ap, ◌∙◌, inl, inr, true, false, ◌&&◌, Option, none, some, List,
  [], ◌∷◌, arith, Bytes, length, ◌=?◌, ◌==◌, if◌then◌else◌, Bool-cases, Option-cases,
}
use forkbase.Hash.{Hash, of, hash_eq, byte_length}
use forkbase.Types.{ChunkType, chunk_code}
use forkbase.Dict
use forkbase.Dict.{Dict, lookup-emplace}
use forkbase.Mmap.{Memory, Same, load_bytes, load_integer-Same, load_bytes-Same}
use forkbase.LstStore.{LstStore, chunk_length_at, chunk_type_at, no_order}
use forkbase.LstStore.Load.{
  is_intact, is_end_chunk, is_chunk_valid, hash_behind, next_chunk, enter_chunk,
}

-- From one address up to another there are chunks at these addresses, one behind the other, each of
-- a type that stands for data and with its own digest behind it.
pub data Chunks (digest : Bytes → Bytes) (m : Memory) : ℕ → List ℕ → ℕ → Type 0 where
  stop : {o : ℕ} → Chunks digest m o [] o
  chunk :
      {o e : ℕ} {l : List ℕ}
      → is_intact digest m o ≡ true
      → is_end_chunk (chunk_type_at m o) ≡ false
      → (chunk_type_at m o == chunk_code ChunkType.invalid) ≡ false
      → Chunks digest m (next_chunk m o) l e
      → Chunks digest m o (o ∷ l) e

-- The first of these addresses with this hash behind its chunk.
abbrev pub first_with : Memory → Hash → List ℕ → Option ℕ
first_with m h [] = none
first_with m h (o ∷ l) =
    let rest = first_with m h l in if hash_behind m o =? h then some o else rest

-- The chunks at these addresses enter the map, one after the other.
unfoldable pub enter_all : List ℕ → LstStore → LstStore
enter_all [] s = s
enter_all (o ∷ l) s = enter_all l (enter_chunk o s)

enter_all-log : (l : List ℕ) (s : LstStore) → (enter_all l s).log ≡ s.log
unfolding enter_all enter_chunk
enter_all-log [] s = refl
enter_all-log (o ∷ l) s = enter_all-log l (enter_chunk o s)

-- What was found is found, and else the first chunk with the hash.
unfoldable pub or_first : Memory → Hash → List ℕ → Option ℕ → Option ℕ
or_first m h l none = first_with m h l
or_first m h l (some o) = some o

pub lookup-enter_all :
    (l : List ℕ) (s : LstStore) (h : Hash)
    → Dict.lookup h (enter_all l s).chunk_map ≡ or_first s.log h l (Dict.lookup h s.chunk_map)
unfolding enter_all enter_chunk or_first
lookup-enter_all [] s h = elim (Option-cases (Dict.lookup h s.chunk_map)) [
  | inl e ↦ rw e refl
  | inr (o, e) ↦ rw e refl
]
lookup-enter_all (o ∷ l) s h =
    lookup-enter_all l (enter_chunk o s) h
    ∙ rw (lookup-emplace no_order (hash_behind s.log o) h o s.chunk_map)
        (elim (Bool-cases (hash_behind s.log o =? h)) [
          | inl x ↦ elim (Option-cases (Dict.lookup h s.chunk_map)) [
            | inl e ↦ let at : first_with s.log h (o ∷ l) ≡ some o = rw x refl in rw (x, e) (sym at)
            | inr (w, e) ↦ rw (x, e) refl
          ]
          | inr x ↦
              let at : first_with s.log h (o ∷ l) ≡ first_with s.log h l = rw x refl in
              elim (Option-cases (Dict.lookup h s.chunk_map)) [
                | inl e ↦ rw (x, e) (sym at)
                | inr (w, e) ↦ rw (x, e) refl
              ]
        ])

-- Chunks are still there if their bytes are.
module _ (m w : Memory) (o hi : ℕ) (k : Same m w o hi) (below : next_chunk m o ≤ hi) where
  pub length-Same : chunk_length_at m o ≡ chunk_length_at w o
  length-Same = load_integer-Same 4 m w o o hi k (omega arith) (omega (arith, below))

  pub type-Same : chunk_type_at m o ≡ chunk_type_at w o
  type-Same = load_integer-Same 1 m w (o + 4) o hi k (omega arith) (omega (arith, below))

  pub hash-Same : hash_behind m o ≡ hash_behind w o
  hash-Same = rw (← length-Same) (
      ap of (
        load_bytes-Same byte_length m w (o + chunk_length_at m o) o hi k (omega arith)
          (omega (arith, below))))

  pub intact-Same : (digest : Bytes → Bytes) → is_intact digest m o ≡ is_intact digest w o
  unfolding is_intact
  intact-Same digest =
      let bytes =
        load_bytes-Same (chunk_length_at m o) m w o o hi k (omega arith) (omega (arith, below)) in
      let both : load_bytes (chunk_length_at m o) m o ≡ load_bytes (chunk_length_at w o) w o =
        bytes ∙ ap (λ n. load_bytes n w o) length-Same in
      ap
        (λ t.
          is_chunk_valid t && hash_behind m o =? of (digest (load_bytes (chunk_length_at m o) m o)))
        type-Same
      ∙ ap
          (λ h.
            is_chunk_valid (chunk_type_at w o)
            && h =? of (digest (load_bytes (chunk_length_at m o) m o)))
          hash-Same
      ∙ ap (λ b. is_chunk_valid (chunk_type_at w o) && hash_behind w o =? of (digest b)) both

module _ {digest : Bytes → Bytes} where
  -- Each chunk takes at least as many bytes as a hash has.
  pub Chunks-length :
      {m : Memory} {o e : ℕ} {l : List ℕ} → Chunks digest m o l e → o + 20 * length l ≤ e
  Chunks-length stop = omega arith
  Chunks-length (chunk i t v c) = omega (arith, Chunks-length c)

  pub Chunks-Same :
      {m : Memory} {o e : ℕ} {l : List ℕ} (w : Memory)
      → Chunks digest m o l e
      → Same m w o e
      → Chunks digest w o l e
  Chunks-Same w stop k = stop
  Chunks-Same {m} {o} {e} w (chunk i t v c) k =
      let below : next_chunk m o ≤ e = omega (arith, Chunks-length c) in
      let next : next_chunk m o ≡ next_chunk w o = rw (length-Same m w o e k below) refl in
      let rest = Chunks-Same w c (λ j a b. k j (omega (arith, a)) b) in
      chunk (sym (intact-Same m w o e k below digest) ∙ i)
        (ap (λ y. is_end_chunk y) (sym (type-Same m w o e k below)) ∙ t)
        (ap (λ y. y == chunk_code ChunkType.invalid) (sym (type-Same m w o e k below)) ∙ v)
        (rw next at rest)

  pub first_with-Same :
      {m : Memory} {o e : ℕ} {l : List ℕ} (w : Memory) (h : Hash)
      → Chunks digest m o l e
      → Same m w o e
      → first_with m h l ≡ first_with w h l
  first_with-Same w h stop k = refl
  first_with-Same {m} {o} {e} w h (chunk {l = l} i t v c) k =
      let below : next_chunk m o ≤ e = omega (arith, Chunks-length c) in
      let rest = first_with-Same w h c (λ j a b. k j (omega (arith, a)) b) in
      ap (λ x. if x =? h then some o else first_with m h l) (hash-Same m w o e k below)
      ∙ ap (λ r. if hash_behind w o =? h then some o else r) rest

  pub or_first-Same :
      {m : Memory} {o e : ℕ} {l : List ℕ} (w : Memory) (h : Hash) (v : Option ℕ)
      → Chunks digest m o l e
      → Same m w o e
      → or_first m h l v ≡ or_first w h l v
  unfolding or_first
  or_first-Same w h none c k = first_with-Same w h c k
  or_first-Same w h (some o) c k = refl
