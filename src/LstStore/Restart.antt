-- ===== src/LstStore/Restart.antt =====
-- What `Put` writes to the current segment, `LoadFromLastSegment` (src/store/lst_store.cc) reads.
use forkbase.Base.{
  ℕ, zero, suc, ◌+◌, ◌-◌, ◌≤◌, ◌<◌, ◌≡◌, refl, sym, ap, ◌∙◌, inl, inr, true, false, ◌&&◌, Option,
  none, some, List, [], ◌∷◌, ◌++◌, arith, Bytes, drop, ◌=?◌, ◌==◌, if◌then◌else◌, read_le, le_value,
  Bool-cases,
}
use forkbase.Hash.{Hash, of, hash_eq, byte_length}
use forkbase.Chunk.{Chunk, num_bytes, type_byte}
use forkbase.Types.{ChunkType, chunk_code}
use forkbase.Dict
use forkbase.Mmap.{Memory, load_bytes, load_integer}
use forkbase.LstStore.{
  LstStore, segment_size, segment_at, chunk_length_at, chunk_type_at, first_chunk_ptr, append_chunk,
}
use forkbase.LstStore.Load.{
  is_intact, is_end_chunk, is_chunk_valid, hash_behind, next_chunk, load_from_last_segment, mapped,
}
use forkbase.LstStore.Valid.{IsValid, take-load_bytes}
use forkbase.LstStore.Append.{
  Fits, HasRoom, place, appended_log, appended_log-Same, key_written, chunk_written, length_written,
  appended_offset,
}
use forkbase.LstStore.Chunks.{
  Chunks, stop, chunk, first_with, or_first, Chunks-Same, first_with-Same,
}
use forkbase.LstStore.Recover.{load_from_last_segment-Chunks}

-- A type that stands for data.
pub record IsData (type : ℕ) : Type 0 where
  pub known : is_chunk_valid type ≡ true
  pub no_end : is_end_chunk type ≡ false
  pub no_removal : (type == chunk_code ChunkType.invalid) ≡ false

-- Bytes that were never written.
abbrev pub Blank : Memory → ℕ → ℕ → Type 0
Blank m lo hi = (i : ℕ) → lo ≤ i → i < hi → m i ≡ 0

drop-load_bytes :
    (k n : ℕ) (m : Memory) (o : ℕ) → drop k (load_bytes (k + n) m o) ≡ load_bytes n m (o + k)
unfolding load_bytes
drop-load_bytes zero n m o =
    let z : zero + n ≡ n = omega arith in let y : o + zero ≡ o = omega arith in rw (z, y) refl
drop-load_bytes (suc k) n m o =
    let z : suc k + n ≡ suc (k + n) = omega arith in
    let y : o + suc k ≡ suc o + k = omega arith in rw (z, y) (drop-load_bytes k n m (suc o))

Chunks-last :
    {digest : Bytes → Bytes} {m : Memory} {o e : ℕ} {l : List ℕ}
    → Chunks digest m o l e
    → is_intact digest m e ≡ true
    → is_end_chunk (chunk_type_at m e) ≡ false
    → (chunk_type_at m e == chunk_code ChunkType.invalid) ≡ false
    → Chunks digest m o (l ++ e ∷ []) (next_chunk m e)
Chunks-last stop i t v = chunk i t v stop
Chunks-last (chunk i' t' v' c) i t v = chunk i' t' v' (Chunks-last c i t v)

abbrev pub or_else : Option ℕ → Option ℕ → Option ℕ
or_else none b = b
or_else (some a) b = some a

first_with-last :
    (m : Memory) (h : Hash) (l : List ℕ) (o : ℕ)
    → first_with m h (l ++ o ∷ [])
      ≡ or_else (first_with m h l) (if hash_behind m o =? h then some o else none)
first_with-last m h [] o = refl
first_with-last m h (p ∷ l) o = elim (Bool-cases (hash_behind m p =? h)) [
  | inl x ↦ rw x refl
  | inr x ↦ rw x (first_with-last m h l o)
]

module _ (digest : Bytes → Bytes) (t : LstStore) (n : ℕ) (key : Bytes) (c : Chunk) (v : IsValid t)
    (f : Fits key c) (r : HasRoom t n (byte_length + num_bytes c)) where
  type_written : chunk_type_at (appended_log t n key c) (place t n key c) ≡ type_byte c
  unfolding load_integer type_byte read_le
  type_written =
      let e : 4 + (num_bytes c - 4) ≡ num_bytes c = omega (arith, f.long, f.sized) in
      let whole = chunk_written t n key c v f r in
      let back : drop 4 c
          ≡ load_bytes (num_bytes c - 4) (appended_log t n key c) (place t n key c + 4) =
        let g = drop-load_bytes 4 (num_bytes c - 4) (appended_log t n key c) (place t n key c) in
        rw (e, whole) at g in
      let one =
        take-load_bytes 1 (num_bytes c - 4) (appended_log t n key c) (place t n key c + 4)
          (omega (arith, f.long, f.sized)) in
      rw (back, one) refl

  behind_written : hash_behind (appended_log t n key c) (place t n key c) ≡ of key
  behind_written =
      ap (λ x. of (load_bytes byte_length (appended_log t n key c) (place t n key c + x)))
        (length_written t n key c v f r)
      ∙ ap of (key_written t n key c v f r)

  intact_written :
      key ≡ digest c
      → is_chunk_valid (type_byte c) ≡ true
      → is_intact digest (appended_log t n key c) (place t n key c) ≡ true
  unfolding is_intact
  intact_written k i =
      let m = appended_log t n key c in
      let o = place t n key c in
      let len = length_written t n key c v f r in
      let behind : hash_behind m o ≡ of (digest c) = behind_written ∙ ap of k in
      let bytes : load_bytes (chunk_length_at m o) m o ≡ c =
        ap (λ x. load_bytes x m o) len ∙ chunk_written t n key c v f r in
      ap
        (λ x.
          is_chunk_valid x && hash_behind m o =? of (digest (load_bytes (chunk_length_at m o) m o)))
        type_written
      ∙ ap (λ x. x && hash_behind m o =? of (digest (load_bytes (chunk_length_at m o) m o))) i
      ∙ (hash_eq.beq_iff _ _).1 (behind ∙ ap (λ x. of (digest x)) (sym bytes))

  appended-Chunks :
      (l : List ℕ)
      → Chunks digest t.log (first_chunk_ptr (segment_at n)) l (place t n key c)
      → key ≡ digest c
      → IsData (type_byte c)
      → Chunks digest
          (appended_log t n key c)
          (first_chunk_ptr (segment_at n))
          (l ++ place t n key c ∷ [])
          (place t n key c + (num_bytes c + byte_length))
  appended-Chunks l w k d =
      let m = appended_log t n key c in
      let o = place t n key c in
      let before = Chunks-Same m w (
        appended_log-Same t n key c v f r (first_chunk_ptr (segment_at n)) o (inl (omega arith))) in
      let next : next_chunk m o ≡ o + (num_bytes c + byte_length) =
        ap (λ x. o + (x + byte_length)) (length_written t n key c v f r) in
      rw (← next) (
        Chunks-last before (intact_written k d.known)
          (ap (λ x. is_end_chunk x) type_written ∙ d.no_end)
          (ap (λ x. x == chunk_code ChunkType.invalid) type_written ∙ d.no_removal))

  end_written :
      (e : ℕ)
      → e ≡ place t n key c + (num_bytes c + byte_length)
      → Blank t.log (place t n key c) (segment_at n + segment_size - byte_length)
      → is_end_chunk (chunk_type_at (appended_log t n key c) e) ≡ true
  unfolding load_integer load_bytes le_value
  end_written e p b =
      let m = appended_log t n key c in
      let kept : t.log (e + 4) ≡ m (e + 4) =
        appended_log-Same t n key c v f r e (e + 5) (inr (omega (arith, p))) (e + 4) (omega arith)
          (omega arith) in
      let blank : t.log (e + 4) ≡ 0 = b (e + 4) (omega (arith, p)) (omega (arith, p, r.room)) in
      let zero_there : m (e + 4) ≡ 0 = sym kept ∙ blank in
      let type : chunk_type_at m e ≡ 0 = omega (arith, zero_there) in ap (λ x. is_end_chunk x) type

  -- A log whose current segment has intact chunks and no byte behind them, in which `Put` writes a
  -- chunk of a type that stands for data under its digest: mapped again, the last segment loads with
  -- the offset that `Put` left, and finds every hash at the chunk where it was or at the new chunk.
  pub load_from_last_segment-append_chunk :
      (l : List ℕ) (max : ℕ)
      → Chunks digest t.log (first_chunk_ptr (segment_at n)) l (place t n key c)
      → Blank t.log (place t n key c) (segment_at n + segment_size - byte_length)
      → key ≡ digest c
      → IsData (type_byte c)
      → (u : LstStore) × (load_from_last_segment digest
            (mapped digest max (append_chunk t (segment_at n) key c).log)
            (segment_at n)
          ≡ some ((append_chunk t (segment_at n) key c).major_segment_offset, u))
        × ((h : Hash)
            → Dict.lookup h u.chunk_map
              ≡ or_else
                  (first_with t.log h l)
                  (if of key =? h then some (place t n key c) else none))
  unfolding append_chunk Dict.lookup or_first
  load_from_last_segment-append_chunk l max w b k d =
      let m = appended_log t n key c in
      let o = place t n key c in
      let behind : hash_behind m o ≡ of key = behind_written in
      let e : ℕ = o + (num_bytes c + byte_length) in
      let ends : is_end_chunk (chunk_type_at m e) ≡ true = end_written e refl b in
      let (u, runs, found, same) =
        load_from_last_segment-Chunks (mapped digest max m) (segment_at n) e (l ++ o ∷ [])
          (appended-Chunks l w k d) (omega (arith, r.room)) (inr ends) in
      (
        u,
        runs ∙ ap (λ (x : ℕ). some (x, u)) (omega (arith, appended_offset t n key c v f r)),
        λ h.
            found h
            ∙ first_with-last m h l o
            ∙ ap (λ x. or_else x (if hash_behind m o =? h then some o else none))
                (sym (
                  first_with-Same m h w (
                    appended_log-Same t n key c v f r (first_chunk_ptr (segment_at n)) o
                      (inl (omega arith)))))
            ∙ ap (λ x. or_else (first_with t.log h l) (if x =? h then some o else none)) behind,
      )
