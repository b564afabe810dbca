-- ===== src/LstStore/Iterator.antt =====
-- `LSTStoreIterator` (include/store/lst_store.h): the chunks of a log, segment by segment. The policy
-- that checks whether a chunk is still in the map is a test of its hash; the loop that skips the
-- others runs on fuel. `none` is an exception, or fuel that is used up.
use forkbase.Base.{
  ℕ, zero, suc, ◌≤◌, ◌<◌, ◌⊎◌, ◌≡◌, refl, Bool, true, false, ◌||◌, Option, none, some, List, [],
  ◌∷◌, ◌++◌, arith, Bytes, length, ◌==◌, if◌then◌else◌, Bool-cases, inl, inr,
}
use forkbase.Hash.{Hash}
use forkbase.Mmap.{Memory}
use forkbase.LstStore.{chunk_type_at, first_chunk_ptr}
use forkbase.LstStore.Load.{is_end_chunk, hash_behind, next_chunk}
use forkbase.LstStore.Chunks.{Chunks, stop, chunk}

-- `segment_` with the segments after it, and `ptr_` as an address, 0 for a null pointer.
pub record LstStoreIterator : Type 0 where
  pub segments : List ℕ
  pub ptr : ℕ

-- The address after a chunk, or the first one of the next segment.
unfoldable pub after_chunk : Memory → List ℕ → ℕ → LstStoreIterator
after_chunk m [] p = record { segments = []; ptr = p }
after_chunk m (s ∷ []) p = record { segments = s ∷ []; ptr = p }
after_chunk m (s ∷ t ∷ l) p =
    if is_end_chunk (chunk_type_at m p)
    then record { segments = t ∷ l; ptr = first_chunk_ptr t }
    else record { segments = s ∷ t ∷ l; ptr = p }

abbrev pub move : Memory → LstStoreIterator → LstStoreIterator
move m it = after_chunk m it.segments (next_chunk m it.ptr)

module _ (m : Memory) (check : Hash → Bool) where
  unfoldable pub skip : ℕ → LstStoreIterator → Option LstStoreIterator
  skip zero it = none
  skip (suc fuel) it =
      let rest = skip fuel (move m it) in
      if check (hash_behind m (move m it).ptr) || is_end_chunk (chunk_type_at m (move m it).ptr)
      then some (move m it)
      else rest

  -- `operator++`
  unfoldable pub next : ℕ → LstStoreIterator → Option LstStoreIterator
  next fuel it =
      let rest = skip fuel it in
      if it.ptr == 0 || is_end_chunk (chunk_type_at m it.ptr) then none else rest

-- `begin` of the segments of the major list
unfoldable pub begin : List ℕ → LstStoreIterator
begin [] = record { segments = []; ptr = 0 }
begin (s ∷ l) = record { segments = s ∷ l; ptr = first_chunk_ptr s }

-- The segments of a log from an address in the first of them on: the chunks at these addresses, and
-- an end chunk behind those of each segment, of which only the last may have none.
pub data IsLog (digest : Bytes → Bytes) (m : Memory) : List ℕ → ℕ → List ℕ → ℕ → Type 0 where
  last :
      {s o e : ℕ} {l : List ℕ}
      → Chunks digest m o l e
      → is_end_chunk (chunk_type_at m e) ≡ true
      → IsLog digest m (s ∷ []) o l e
  more :
      {s t o p e e' : ℕ} {segments l l' : List ℕ}
      → Chunks digest m o (p ∷ l) e
      → is_end_chunk (chunk_type_at m e) ≡ true
      → IsLog digest m (t ∷ segments) (first_chunk_ptr t) l' e'
      → IsLog digest m (s ∷ t ∷ segments) o ((p ∷ l) ++ l') e'

-- The iterator goes over chunks at these addresses.
data Goes (m : Memory) : LstStoreIterator → List ℕ → ℕ → Type 0 where
  done :
      {it : LstStoreIterator} → is_end_chunk (chunk_type_at m it.ptr) ≡ true → Goes m it [] it.ptr
  over :
      {it : LstStoreIterator} {l : List ℕ} {e : ℕ}
      → is_end_chunk (chunk_type_at m it.ptr) ≡ false
      → Goes m (move m it) l e
      → Goes m it (it.ptr ∷ l) e

module _ {digest : Bytes → Bytes} {m : Memory} where
  -- Within the last segment,
  last-Goes :
      {s o e : ℕ} {l : List ℕ}
      → Chunks digest m o l e
      → is_end_chunk (chunk_type_at m e) ≡ true
      → Goes m (record { segments = s ∷ []; ptr = o }) l e
  unfolding after_chunk
  last-Goes stop t = done t
  last-Goes (chunk i n v c) t = over n (last-Goes c t)

  -- and from one with a next one.
  more-Goes :
      {s t o p e e' : ℕ} {segments l l' : List ℕ}
      → Chunks digest m o (p ∷ l) e
      → is_end_chunk (chunk_type_at m e) ≡ true
      → Goes m (record { segments = t ∷ segments; ptr = first_chunk_ptr t }) l' e'
      → Goes m (record { segments = s ∷ t ∷ segments; ptr = o }) ((p ∷ l) ++ l') e'
  unfolding after_chunk
  more-Goes (chunk i n v stop) t g = over n (rw t g)
  more-Goes (chunk i n v (chunk i' n' v' c)) t g = over n (rw n' (more-Goes (chunk i' n' v' c) t g))

  IsLog-Goes :
      {s o e : ℕ} {segments l : List ℕ}
      → IsLog digest m (s ∷ segments) o l e
      → Goes m (record { segments = s ∷ segments; ptr = o }) l e
  IsLog-Goes (last c t) = last-Goes c t
  IsLog-Goes (more c t g) = more-Goes c t (IsLog-Goes g)

module _ (m : Memory) (check : Hash → Bool) where
  -- The chunks of which the policy says that they are there.
  abbrev pub checked : List ℕ → List ℕ
  checked [] = []
  checked (o ∷ l) = let rest = checked l in if check (hash_behind m o) then o ∷ rest else rest

  -- The chunks that a loop visits from the iterator on, with an increment after each, up to the
  -- address where the last increment leads.
  pub data Visits (fuel : ℕ) : LstStoreIterator → List ℕ → ℕ → Type 0 where
    nothing : {it : LstStoreIterator} → Visits fuel it [] it.ptr
    visit :
        {it u : LstStoreIterator} {l : List ℕ} {e : ℕ}
        → next m check fuel it ≡ some u
        → Visits fuel u l e
        → Visits fuel it (it.ptr ∷ l) e

  after_chunk-positive : (l : List ℕ) (p : ℕ) → 0 < p → 0 < (after_chunk m l p).ptr
  unfolding after_chunk
  after_chunk-positive [] p h = h
  after_chunk-positive (s ∷ []) p h = h
  after_chunk-positive (s ∷ t ∷ l) p h = elim (Bool-cases (is_end_chunk (chunk_type_at m p))) [
    | inl x ↦ rw x (omega arith)
    | inr x ↦ rw x h
  ]

  -- What the skipping loop finds: the first chunk that is there, or the end.
  record Skipped (it : LstStoreIterator) (fuel : ℕ) (l : List ℕ) (e : ℕ) : Type 0 where
    found : LstStoreIterator
    runs : skip m check fuel it ≡ some found
    rest : List ℕ
    goes : Goes m found rest e
    positive : 0 < found.ptr
    same : checked l ≡ checked rest
    shorter : length rest ≤ length l
    there : (rest ≡ []) ⊎ (check (hash_behind m found.ptr) ≡ true)

  skip-Goes :
      (fuel : ℕ) {it : LstStoreIterator} {l : List ℕ} {e : ℕ}
      → Goes m (move m it) l e
      → length l < fuel
      → Skipped it fuel l e
  unfolding skip
  skip-Goes zero g f = absurd (omega arith)
  skip-Goes (suc fuel) {it} (done t) f = record {
    found = move m it;
    runs = elim (Bool-cases (check (hash_behind m (move m it).ptr))) [
      | inl x ↦ rw (skip, x) refl
      | inr x ↦ rw (skip, x, t) refl
    ];
    rest = [];
    goes = done t;
    positive = after_chunk-positive it.segments (next_chunk m it.ptr) (omega arith);
    same = refl;
    shorter = omega arith;
    there = inl refl;
  }
  skip-Goes (suc fuel) {it} (over {l = l} n g) f =
      let u = move m it in
      elim (Bool-cases (check (hash_behind m u.ptr))) [
        | inl x ↦ record {
          found = u;
          runs = rw (skip, x) refl;
          rest = u.ptr ∷ l;
          goes = over n g;
          positive = after_chunk-positive it.segments (next_chunk m it.ptr) (omega arith);
          same = refl;
          shorter = omega arith;
          there = inr x;
        }
        | inr x ↦
            let k = skip-Goes fuel {it = u} g (omega (arith, f)) in
            record {
              found = k.found;
              runs = rw (skip, x, n) k.runs;
              rest = k.rest;
              goes = k.goes;
              positive = k.positive;
              same = rw x k.same;
              shorter = omega (arith, k.shorter);
              there = k.there;
            }
      ]

  next-skip :
      (fuel : ℕ) (it u : LstStoreIterator)
      → 0 < it.ptr
      → is_end_chunk (chunk_type_at m it.ptr) ≡ false
      → skip m check fuel it ≡ some u
      → next m check fuel it ≡ some u
  unfolding next
  next-skip fuel it u p n r = let z : (it.ptr == 0) ≡ false = ground (arith, p) in rw (next, z, n) r

  -- An increment, and then what is visited from there on.
  visit-Goes :
      (fuel : ℕ) (it u : LstStoreIterator) {rest : List ℕ} {e : ℕ}
      → next m check fuel it ≡ some u
      → Goes m u rest e
      → (rest ≡ []) ⊎ (check (hash_behind m u.ptr) ≡ true)
      → ((l : List ℕ)
          → is_end_chunk (chunk_type_at m u.ptr) ≡ false
          → Goes m (move m u) l e
          → suc (length l) ≡ length rest
          → Visits fuel u (u.ptr ∷ checked l) e)
      → Visits fuel it (it.ptr ∷ checked rest) e
  visit-Goes fuel it u r (done t) h go = visit r nothing
  visit-Goes fuel it u r (over {l = l} t g) (inl h) go = cc
  visit-Goes fuel it u r (over {l = l} t g) (inr h) go = rw h (visit r (go l t g refl))

  -- From a chunk that is there.
  Goes-Visits :
      (n fuel : ℕ) (it : LstStoreIterator) {l : List ℕ} {e : ℕ}
      → is_end_chunk (chunk_type_at m it.ptr) ≡ false
      → Goes m (move m it) l e
      → 0 < it.ptr
      → length l < fuel
      → length l < n
      → Visits fuel it (it.ptr ∷ checked l) e
  Goes-Visits zero fuel it t g p f h = absurd (omega arith)
  Goes-Visits (suc n) fuel it {l} {e} t g p f h =
      let k = skip-Goes fuel {it = it} g f in
      let first = next-skip fuel it k.found p t k.runs in
      rw k.same (
        visit-Goes fuel it k.found first k.goes k.there (λ l' t' g' len.
          Goes-Visits n fuel k.found t' g' k.positive (omega (arith, len, k.shorter, f))
            (omega (arith, len, k.shorter, h))))

  Goes-first :
      {it : LstStoreIterator} {o e : ℕ} {l : List ℕ}
      → Goes m it (o ∷ l) e
      → (is_end_chunk (chunk_type_at m it.ptr) ≡ false) × Goes m (move m it) l e
  Goes-first (over t g) = (t, g)

  Goes-end :
      {it : LstStoreIterator} {e : ℕ} {l : List ℕ}
      → Goes m it l e
      → is_end_chunk (chunk_type_at m e) ≡ true
  Goes-end (done t) = t
  Goes-end (over t g) = Goes-end g

  next-end :
      (fuel : ℕ) (it : LstStoreIterator)
      → is_end_chunk (chunk_type_at m it.ptr) ≡ true
      → next m check fuel it ≡ none
  unfolding next
  next-end fuel it t = elim (Bool-cases (it.ptr == 0)) [
    | inl z ↦ rw (next, z) refl
    | inr z ↦ rw (next, z, t) refl
  ]

  -- A loop from `begin` on over a log, with fuel for each of its chunks, visits the first chunk and
  -- then, in the order of the log, those of the others of which the policy says that they are there.
  -- It comes to the end chunk of the last segment, where the next increment throws.
  pub begin-Visits :
      (digest : Bytes → Bytes) (fuel s e : ℕ) (segments l : List ℕ)
      → IsLog digest m (s ∷ segments) (first_chunk_ptr s) (first_chunk_ptr s ∷ l) e
      → length l < fuel
      → Visits fuel (begin (s ∷ segments)) (first_chunk_ptr s ∷ checked l) e
        × ((it : LstStoreIterator) → it.ptr ≡ e → next m check fuel it ≡ none)
  unfolding begin
  begin-Visits digest fuel s e segments l log f =
      let goes = IsLog-Goes log in
      let (t, g) = Goes-first goes in
      (
        Goes-Visits (suc (length l)) fuel (begin (s ∷ segments)) t g (omega arith) f (omega arith),
        λ it at. next-end fuel it (rw at (Goes-end goes)),
      )
