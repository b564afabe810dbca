-- ===== src/LstStore/Recover.antt =====
-- `LoadFromValidSegment` and `LoadFromLastSegment` (src/store/lst_store.cc) on a segment whose
-- chunks are intact, up to where the segment ends or a write was torn.
use forkbase.Base.{
  ℕ, zero, suc, ◌+◌, ◌-◌, ◌*◌, ◌≤◌, ◌<◌, ◌≡◌, refl, sym, ap, ◌∙◌, ◌⊎◌, inl, inr, Bool, true, false,
  some, List, arith, Bytes, length, replicate, ◌=?◌, ◌==◌, if◌then◌else◌, Bool-cases,
}
use forkbase.Hash.{Hash, of, hash_eq, byte_length}
use forkbase.Chunk.{meta_length}
use forkbase.Dict
use forkbase.Dict.{Dict, lookup-emplace}
use forkbase.Mmap.{
  Memory, Same, Same-trans, load_bytes, store_bytes, load_integer, store_bytes-Same,
}
use forkbase.LstStore.{LstStore, segment_size, chunk_type_at, first_chunk_ptr, validate_hash_ptr}
use forkbase.LstStore.Load.{
  is_intact, is_end_chunk, hash_behind, next_chunk, enter_chunk, load_valid_chunks,
  load_from_valid_segment, load_last_chunks, load_from_last_segment, unlink_next,
}
use forkbase.LstStore.Chunks.{
  Chunks, stop, chunk, or_first, enter_all, lookup-enter_all, Chunks-length, Chunks-Same, type-Same,
  intact-Same, or_first-Same,
}

unlink_next-Same :
    (s : LstStore) (segment hi : ℕ) → Same s.log (unlink_next segment s).log (segment + 16) hi
unlink_next-Same s segment hi = elim (Bool-cases (load_integer 8 s.log (segment + 8) == 0)) [
  | inl x ↦ λ i a b. rw x refl
  | inr x ↦ λ i a b. rw x (
      store_bytes-Same (replicate 8 0) (segment + 8) s.log (segment + 16) hi (inr (omega arith)) i a
        b)
]

erase-Same :
    (b : Bool) (m : Memory) (o lo : ℕ)
    → Same m (if b then m else store_bytes (replicate meta_length 0) o m) lo o
erase-Same true m o lo = λ i a k. refl
erase-Same false m o lo = store_bytes-Same (replicate meta_length 0) o m lo o (inl (omega arith))

module _ {digest : Bytes → Bytes} where
  -- `LoadFromValidSegment` enters every chunk up to an end chunk.
  load_valid_chunks-Chunks :
      (fuel : ℕ) {o e : ℕ} {l : List ℕ} (s : LstStore)
      → Chunks digest s.log o l e
      → is_end_chunk (chunk_type_at s.log e) ≡ true
      → length l < fuel
      → load_valid_chunks fuel o s ≡ some (enter_all l s)
  unfolding load_valid_chunks enter_all enter_chunk
  load_valid_chunks-Chunks zero s c ends f = absurd (omega arith)
  load_valid_chunks-Chunks (suc fuel) s stop ends f = rw (load_valid_chunks, ends) refl
  load_valid_chunks-Chunks (suc fuel) {o} s (chunk {l = l} i t v c) ends f =
      rw (load_valid_chunks, t, v)
        (load_valid_chunks-Chunks fuel (enter_chunk o s) c ends (omega (arith, f)))

  pub load_from_valid_segment-Chunks :
      (s : LstStore) (segment e : ℕ) (l : List ℕ)
      → Chunks digest s.log (first_chunk_ptr segment) l e
      → e ≤ segment + segment_size
      → is_end_chunk (chunk_type_at s.log e) ≡ true
      → hash_behind s.log (first_chunk_ptr segment)
        ≡ of (load_bytes byte_length s.log (validate_hash_ptr segment))
      → load_from_valid_segment s segment ≡ some (enter_all l s)
  unfolding load_from_valid_segment
  load_from_valid_segment-Chunks s segment e l c below ends valid =
      let same : (hash_behind s.log (first_chunk_ptr segment)
            =? of (load_bytes byte_length s.log (validate_hash_ptr segment)))
          ≡ true =
        (hash_eq.beq_iff _ _).1 valid in
      rw (load_from_valid_segment, same)
        (load_valid_chunks-Chunks segment_size s c ends (omega (arith, Chunks-length c, below)))

  -- `LoadFromLastSegment` does so up to an end chunk, or to bytes that are not intact.
  load_last_chunks-Chunks :
      (fuel : ℕ) {o e : ℕ} {l : List ℕ} (s : LstStore)
      → Chunks digest s.log o l e
      → (is_intact digest s.log e ≡ false) ⊎ (is_end_chunk (chunk_type_at s.log e) ≡ true)
      → length l < fuel
      → load_last_chunks digest fuel o s
        ≡ some (
          e,
          record (enter_all l s) {
            log =
                if is_intact digest s.log e
                then s.log
                else store_bytes (replicate meta_length 0) e s.log;
          },
        )
  unfolding load_last_chunks enter_all enter_chunk
  load_last_chunks-Chunks zero s c ends f = absurd (omega arith)
  load_last_chunks-Chunks (suc fuel) {e = e} s stop ends f =
      elim (Bool-cases (is_intact digest s.log e)) [
        | inl i ↦ elim ends [
          | inl n ↦ (let bad : true ≡ false = sym i ∙ n in cc)
          | inr t ↦ rw (load_last_chunks, i, t) refl
        ]
        | inr i ↦ rw (load_last_chunks, i) refl
      ]
  load_last_chunks-Chunks (suc fuel) {o} s (chunk {l = l} i t v c) ends f =
      rw (load_last_chunks, i, t, v)
        (load_last_chunks-Chunks fuel (enter_chunk o s) c ends (omega (arith, f)))

  -- Loading the last segment, whose chunks are intact up to a place where an end chunk stands or
  -- bytes that are not intact, as a torn write leaves them: the offset is that place, a hash is found
  -- where it was before, else at the first of the chunks that it stands behind, and the bytes of the
  -- chunks are as they were.
  pub load_from_last_segment-Chunks :
      (s : LstStore) (segment e : ℕ) (l : List ℕ)
      → Chunks digest s.log (first_chunk_ptr segment) l e
      → e ≤ segment + segment_size
      → (is_intact digest s.log e ≡ false) ⊎ (is_end_chunk (chunk_type_at s.log e) ≡ true)
      → (t : LstStore) × (load_from_last_segment digest s segment ≡ some (e - segment, t))
        × ((h : Hash) → Dict.lookup h t.chunk_map ≡ or_first s.log h l (Dict.lookup h s.chunk_map))
        × Same s.log t.log (first_chunk_ptr segment) e
  unfolding load_from_last_segment
  load_from_last_segment-Chunks s segment e l c below ends =
      let u = unlink_next segment s in
      let from : segment + 16 + 20 * length l ≤ e = Chunks-length c in
      let same = λ (hi : ℕ). unlink_next-Same s segment hi in
      let c' = Chunks-Same u.log c (same e) in
      let here : Same s.log u.log e (next_chunk s.log e) =
        λ i a b. same (next_chunk s.log e) i (omega (arith, a, from)) b in
      let ends' : (is_intact digest u.log e ≡ false)
          ⊎ (is_end_chunk (chunk_type_at u.log e) ≡ true) =
        elim ends [
          | inl n ↦
              inl
                (sym (intact-Same s.log u.log e (next_chunk s.log e) here (omega arith) digest) ∙ n)
          | inr t ↦ inr (
              ap (λ y. is_end_chunk y)
                (sym (type-Same s.log u.log e (next_chunk s.log e) here (omega arith)))
              ∙ t)
        ] in
      let runs = load_last_chunks-Chunks segment_size u c' ends' (omega (arith, from, below)) in
      let log : Memory =
        if is_intact digest u.log e then u.log else store_bytes (replicate meta_length 0) e u.log in
      let t : LstStore = record (enter_all l u) { log = log } in
      (
        t,
        rw (load_from_last_segment, runs) refl,
        λ h.
            lookup-enter_all l u h
            ∙ sym (or_first-Same u.log h (Dict.lookup h s.chunk_map) c (same e)),
        Same-trans s.log u.log log (first_chunk_ptr segment) e (same e)
            (erase-Same (is_intact digest u.log e) u.log e (first_chunk_ptr segment)),
      )
