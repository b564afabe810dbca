-- ===== src/LstStore/Valid.antt =====
-- What the chunk map of an `LSTStore` (src/store/lst_store.cc) leads to in the log.
use forkbase.Base.{
  ℕ, ◌+◌, ◌-◌, ◌≤◌, ◌≡◌, refl, sym, ap, ◌∙◌, some, none, Option-cases, inl, inr, arith, take,
  take-append,
}
use forkbase.Hash.{Hash, of, hash_eq, byte_length}
use forkbase.Chunk.{Chunk}
use forkbase.Dict
use forkbase.Mmap.{
  Memory, Same, load_bytes, load_bytes-Same, load_integer-Same, load_bytes-add, length-load_bytes,
}
use forkbase.LstStore.{LstStore, chunk_length_at, get}
use forkbase.LstStore.Shape.{IsShaped, Covered, Keeps}

-- A chunk at an address, of more bytes than its length and type, with this hash behind it.
pub record Stored (s : LstStore) (h : Hash) (o : ℕ) : Type 0 where
  pub long : 5 ≤ chunk_length_at s.log o
  pub covered : Covered s o (o + (chunk_length_at s.log o + byte_length))
  pub named : of (load_bytes byte_length s.log (o + chunk_length_at s.log o)) ≡ h

pub record IsValid (s : LstStore) : Type 0 where
  pub shaped : IsShaped s
  pub stored : (h : Hash) (o : ℕ) → Dict.lookup h s.chunk_map ≡ some o → Stored s h o

-- The bytes of the chunk at an address.
abbrev pub chunk_at : Memory → ℕ → Chunk
chunk_at m o = load_bytes (chunk_length_at m o) m o

-- A chunk in a part of the log that stays is read as before.
module _ (s t : LstStore) (h : Hash) (o : ℕ) (b : Stored s h o) where
  abbrev len : ℕ
  len = chunk_length_at s.log o

  abbrev Stays : Type 0
  Stays = Same s.log t.log o (o + (len + byte_length))

  pub Same-length : Stays → chunk_length_at s.log o ≡ chunk_length_at t.log o
  Same-length k =
      load_integer-Same 4 s.log t.log o o (o + (len + byte_length)) k (omega arith)
        (omega (arith, b.long))

  pub Same-chunk : Stays → chunk_at t.log o ≡ chunk_at s.log o
  Same-chunk k =
      rw
        (
          ← (Same-length k),
          ← (
              load_bytes-Same len s.log t.log o o (o + (len + byte_length)) k (omega arith)
                (omega arith)),
        )
        refl

  pub Same-Stored : Stays → Covered t o (o + (len + byte_length)) → Stored t h o
  Same-Stored k c =
      let e = Same-length k in
      let kept =
        load_bytes-Same byte_length s.log t.log (o + len) o (o + (len + byte_length)) k
          (omega arith) (omega arith) in
      record { long = rw (← e) b.long; covered = rw (← e) c; named = rw (← e, ← kept) b.named }

pub Keeps-IsValid : (s t : LstStore) → Keeps s t → IsShaped t → IsValid s → IsValid t
Keeps-IsValid s t k shaped v = record {
  shaped = shaped;
  stored = λ h o e.
      let b = v.stored h o (let g = e in rw k.map at g) in
      Same-Stored s t h o b (k.same o (o + (chunk_length_at s.log o + byte_length)) b.covered)
        (k.covered o (o + (chunk_length_at s.log o + byte_length)) b.covered);
}

-- Bytes that are read in full are read in front.
pub take-load_bytes :
    (k n : ℕ) (m : Memory) (o : ℕ) → k ≤ n → take k (load_bytes n m o) ≡ load_bytes k m o
take-load_bytes k n m o h =
    let e : k + (n - k) ≡ n = omega (arith, h) in
    rw (← e, load_bytes-add)
      (take-append k (load_bytes k m o) (load_bytes (n - k) m (o + k)) (length-load_bytes k m o))

pub get_found :
    (s : LstStore) (h : Hash) (o : ℕ)
    → Dict.lookup h s.chunk_map ≡ some o
    → get s h ≡ some (chunk_at s.log o)
unfolding get
get_found s h o e = rw (get, e) refl

pub get_absent : (s : LstStore) (h : Hash) → Dict.lookup h s.chunk_map ≡ none → get s h ≡ none
unfolding get
get_absent s h e = rw (get, e) refl

pub Keeps-get : (s t : LstStore) → Keeps s t → IsValid s → (h : Hash) → get t h ≡ get s h
Keeps-get s t k v h = elim (Option-cases (Dict.lookup h s.chunk_map)) [
  | inl e ↦ get_absent t h (rw k.map e) ∙ sym (get_absent s h e)
  | inr (o, e) ↦
      let b = v.stored h o e in
      get_found t h o (rw k.map e)
      ∙ ap some
          (Same-chunk s t h o b (k.same o (o + (chunk_length_at s.log o + byte_length)) b.covered))
      ∙ sym (get_found s h o e)
]
