-- ===== src/LstStore/Open.antt =====
-- `Allocate` and `AllocateMajor` (src/store/lst_store.cc): the current segment gets its last bytes,
-- and the first free segment becomes the current one.
use mathlib.Core.Path.{subst}
use forkbase.Base.{
  ℕ, zero, suc, ◌+◌, ◌-◌, ◌≤◌, ◌<◌, ◌^◌, ◌≡◌, refl, none, some, List, [], ◌∷◌, ◌++◌, arith, ◌==◌,
  Bool-cases, inl, inr, true, false, length, le_bytes, length-le_bytes, length-append, ◌⊎◌,
}
use forkbase.Hash.{byte_length}
use forkbase.Mmap.{
  Memory, Same, load_integer, Same-trans, store_bytes, store_bytes-Same, load_integer-Same,
  load_integer-store_bytes, load_integer-store_second, load_bytes, load_bytes-split,
  load_bytes-store_bytes, load_integer-bytes, length-load_bytes,
}
use forkbase.LstStore.{
  LstStore, new_segments, segment_size, segment_at, head_or_null, meta_segment_size, add_size,
  sub_size, seal_segment, link_next, allocate, allocate_major, wait_segments, request_segments,
  first_chunk_ptr, chunk_length_at, validate_hash_ptr,
}
use forkbase.LstStore.Links.{
  segments_from, Linked, next_at, Linked-Same, Linked-tail, segments_from-append,
  segments_from-some,
}
use forkbase.LstStore.Shape.{IsShaped, Keeps, Keeps-trans, last_segment}
use forkbase.LstStore.Request.{IsRoomy, request_segments-Ready}

-- Two ranges of addresses have none in common.
abbrev pub Apart : ℕ → ℕ → ℕ → ℕ → Type 0
Apart lo hi o n = (hi ≤ o) ⊎ (o + n ≤ lo)

seal_segment-Same :
    (current next : ℕ) (m : Memory) (lo hi : ℕ)
    → Apart lo hi (current + segment_size - 20) 20
    → Apart lo hi (current + 8) 8
    → Same m (seal_segment current next m) lo hi
unfolding seal_segment
seal_segment-Same current next m lo hi a b =
    let hash =
      load_bytes byte_length m
        (first_chunk_ptr current + chunk_length_at m (first_chunk_ptr current)) in
    Same-trans m _ _ lo hi
      (store_bytes-Same hash (validate_hash_ptr current) m lo hi (elim a [
        | inl x ↦ inl x
        | inr x ↦ inr (
            omega (
              arith,
              x,
              length-load_bytes 20 m
                  (first_chunk_ptr current + chunk_length_at m (first_chunk_ptr current)),
            ))
      ]))
      (store_bytes-Same (le_bytes 8 next) (current + 8) _ lo hi
        (elim b [ inl x ↦ inl x | inr x ↦ inr (omega (arith, x, length-le_bytes 8 next)) ]))

seal_segment-next :
    (current next : ℕ) (m : Memory)
    → next < 256 ^ 8
    → load_integer 8 (seal_segment current next m) (current + 8) ≡ next
unfolding seal_segment
seal_segment-next current next m h = load_integer-store_bytes 8 next (current + 8) _ h

-- The links of a segment, and the three addresses in front of the log.
length-links : (a b : ℕ) → length (le_bytes 8 a ++ le_bytes 8 b) ≡ 16
length-links a b =
    omega
      (arith, length-append (le_bytes 8 a) (le_bytes 8 b), length-le_bytes 8 a, length-le_bytes 8 b)

abbrev meta_log : ℕ → ℕ → ℕ → Memory → Memory
meta_log free major next = store_bytes (le_bytes 8 free ++ (le_bytes 8 major ++ le_bytes 8 next)) 0

meta_log-Same :
    (free major next : ℕ) (m : Memory) (lo hi : ℕ)
    → 24 ≤ lo
    → Same m (meta_log free major next m) lo hi
meta_log-Same free major next m lo hi h =
    store_bytes-Same (le_bytes 8 free ++ (le_bytes 8 major ++ le_bytes 8 next)) 0 m lo hi (
      inr (
        omega (
          arith,
          h,
          length-append (le_bytes 8 free) (le_bytes 8 major ++ le_bytes 8 next),
          length-links major next,
          length-le_bytes 8 free,
        )))

-- The log after the next segment was taken.
link_next-Same :
    (used next : ℕ) (m : Memory) (lo hi : ℕ)
    → (0 < used → Apart lo hi (segment_at (used - 1) + segment_size - 20) 20)
    → (0 < used → Apart lo hi (segment_at (used - 1) + 8) 8)
    → Apart lo hi next 16
    → Same m (link_next (last_segment used) next m) lo hi
unfolding link_next
link_next-Same zero next m lo hi a b d =
    store_bytes-Same (le_bytes 8 0 ++ le_bytes 8 0) next m lo hi
      (elim d [ inl x ↦ inl x | inr x ↦ inr (omega (arith, x, length-links 0 0)) ])
link_next-Same (suc n) next m lo hi a b d =
    let e : suc n - 1 ≡ n = omega arith in
    let far : Apart lo hi (segment_at n + segment_size - 20) 20 =
      let g = a (omega arith) in rw e at g in
    let near : Apart lo hi (segment_at n + 8) 8 = let g = b (omega arith) in rw e at g in
    Same-trans m _ _ lo hi (seal_segment-Same (segment_at n) next m lo hi far near) (
      store_bytes-Same (le_bytes 8 (segment_at n) ++ le_bytes 8 0) next _ lo hi
        (elim d [ inl x ↦ inl x | inr x ↦ inr (omega (arith, x, length-links (segment_at n) 0)) ]))

link_next-next :
    (used next : ℕ) (m : Memory)
    → load_integer 8 (link_next (last_segment used) next m) (next + 8) ≡ 0
unfolding link_next
link_next-next zero next m = load_integer-store_second 8 0 0 next m (omega arith)
link_next-next (suc n) next m = load_integer-store_second 8 (segment_at n) 0 next _ (omega arith)

link_next-last :
    (used n next : ℕ) (m : Memory)
    → used ≡ suc n
    → next < 256 ^ 8
    → segment_at n + 16 ≤ next
    → load_integer 8 (link_next (last_segment used) next m) (segment_at n + 8) ≡ next
unfolding link_next
link_next-last used n next m e h k =
    let w = seal_segment (segment_at n) next m in
    let kept =
      load_integer-Same 8 w (store_bytes (le_bytes 8 (segment_at n) ++ le_bytes 8 0) next w)
        (segment_at n + 8) 0 (segment_at n + 16)
        (store_bytes-Same (le_bytes 8 (segment_at n) ++ le_bytes 8 0) next w 0 (segment_at n + 16)
          (inl k))
        (omega arith) (omega arith) in
    rw (e, ← kept) (seal_segment-next (segment_at n) next m h)

module _ (t : LstStore) (v : IsShaped t) (f : 0 < t.info.free_segments) where
  abbrev taken_log : Memory
  taken_log = link_next (last_segment t.info.used_segments) (segment_at t.info.used_segments) t.log

  abbrev rest_free : List ℕ
  rest_free = segments_from (t.info.free_segments - 1) (suc t.info.used_segments)

  abbrev opened_log : Memory
  opened_log =
      meta_log (head_or_null rest_free) (segment_at 0) (segment_at t.info.used_segments) taken_log

  abbrev pub opened : LstStore
  opened = record t {
    log = opened_log;
    free_list = rest_free;
    major_list = segments_from (suc t.info.used_segments) 0;
    current_major_segment = some (segment_at t.info.used_segments);
    major_segment_offset = meta_segment_size;
    info = record t.info {
      used_segments = suc t.info.used_segments;
      free_segments = t.info.free_segments - 1;
    };
  }

  used_below : t.info.used_segments < t.info.alloc_segments
  used_below = omega (arith, v.alloc_is, f)

  opened_log-Same :
      (lo hi : ℕ)
      → 24 ≤ lo
      → (0 < t.info.used_segments
          → Apart lo hi (segment_at (t.info.used_segments - 1) + segment_size - 20) 20)
      → (0 < t.info.used_segments → Apart lo hi (segment_at (t.info.used_segments - 1) + 8) 8)
      → Apart lo hi (segment_at t.info.used_segments) 16
      → Same t.log opened_log lo hi
  opened_log-Same lo hi z a b d =
      Same-trans t.log taken_log opened_log lo hi
        (link_next-Same t.info.used_segments (segment_at t.info.used_segments) t.log lo hi a b d)
        (meta_log-Same (head_or_null rest_free) (segment_at 0) (segment_at t.info.used_segments)
          taken_log lo hi z)

  -- The links of a segment that is neither the current one nor the next one.
  opened_log-links :
      (j : ℕ)
      → (suc j < t.info.used_segments) ⊎ (t.info.used_segments < j)
      → Same t.log opened_log (segment_at j + 8) (segment_at j + 16)
  opened_log-links j h =
      opened_log-Same (segment_at j + 8) (segment_at j + 16) (omega arith)
        (λ u. elim h [ inl x ↦ inl (omega (arith, x)) | inr x ↦ inr (omega (arith, x, u)) ])
        (λ u. elim h [ inl x ↦ inl (omega (arith, x)) | inr x ↦ inr (omega (arith, x, u)) ])
        (elim h [ inl x ↦ inl (omega (arith, x)) | inr x ↦ inr (omega (arith, x)) ])

  taken_opened : (o : ℕ) → 24 ≤ o → load_integer 8 taken_log o ≡ load_integer 8 opened_log o
  taken_opened o h =
      load_integer-Same 8 taken_log opened_log o 24 (o + 8)
        (meta_log-Same (head_or_null rest_free) (segment_at 0) (segment_at t.info.used_segments)
          taken_log 24 (o + 8) (omega arith))
        h (omega arith)

  opened_log-next : next_at opened_log t.info.used_segments ≡ 0
  opened_log-next =
      rw (← (taken_opened (segment_at t.info.used_segments + 8) (omega arith)))
        (link_next-next t.info.used_segments (segment_at t.info.used_segments) t.log)

  opened_log-last :
      (n : ℕ) → t.info.used_segments ≡ suc n → next_at opened_log n ≡ segment_at (suc n)
  opened_log-last n e =
      rw (← (taken_opened (segment_at n + 8) (omega arith)), ← e)
        (link_next-last t.info.used_segments n (segment_at t.info.used_segments) t.log e
          (omega (arith, used_below, v.in_max, v.small)) (omega (arith, e)))

  opened_log-Linked : Linked opened_log 0 (suc t.info.used_segments)
  opened_log-Linked j a b = elim (Bool-cases (j == t.info.used_segments)) [
    | inl x ↦
        let here : t.info.used_segments ≡ j = ground (arith, x) in
        let u : (suc j == 0 + suc t.info.used_segments) ≡ true = ground (arith, x) in
        rw u (subst (λ i. next_at opened_log i ≡ 0) here opened_log-next)
    | inr x ↦
        let u : (suc j == 0 + suc t.info.used_segments) ≡ false = ground (arith, x) in
        let lt : j < t.info.used_segments = ground (arith, x, b) in
        elim (Bool-cases (suc j == t.info.used_segments)) [
          | inl y ↦ rw u (opened_log-last j (ground (arith, y)))
          | inr y ↦
              let kept =
                load_integer-Same 8 t.log opened_log (segment_at j + 8) (segment_at j + 8)
                  (segment_at j + 16) (opened_log-links j (inl (ground (arith, y, lt))))
                  (omega arith) (omega arith) in
              let w : (suc j == 0 + t.info.used_segments) ≡ false = ground (arith, y) in
              rw (u, ← kept) (let g = v.major_linked j a (omega (arith, lt)) in rw w at g)
        ]
  ]

  opened_log-rest : Linked opened_log (suc t.info.used_segments) (t.info.free_segments - 1)
  opened_log-rest =
      let e : suc (t.info.free_segments - 1) ≡ t.info.free_segments = omega (arith, f) in
      Linked-Same t.log opened_log (suc t.info.used_segments) (t.info.free_segments - 1)
        (λ j a b. opened_log-links j (inr (omega (arith, a))))
        (Linked-tail t.log t.info.used_segments (t.info.free_segments - 1) (rw e v.free_linked))

  rest_fits : head_or_null rest_free < 256 ^ 8
  rest_fits = elim (Bool-cases (t.info.free_segments - 1 == 0)) [
    | inl z ↦ let e : t.info.free_segments - 1 ≡ 0 = ground (arith, z) in rw e (omega arith)
    | inr z ↦
        rw
          (segments_from-some (t.info.free_segments - 1) (suc t.info.used_segments)
            (ground (arith, z)))
          (omega (arith, used_below, v.in_max, v.small))
  ]

  -- What stands in front of the log.
  heads :
      (load_integer 8 opened_log 0 ≡ head_or_null rest_free)
      × (load_integer 8 opened_log 8 ≡ segment_at 0)
  heads =
      let free = le_bytes 8 (head_or_null rest_free) in
      let major = le_bytes 8 (segment_at 0) in
      let next = le_bytes 8 (segment_at t.info.used_segments) in
      let (first, others) =
        load_bytes-split free (major ++ next) opened_log 0
          (load_bytes-store_bytes (free ++ (major ++ next)) 0 taken_log) in
      let (second, third) = load_bytes-split major next opened_log (0 + length free) others in
      let p : 0 + length free ≡ 8 = omega (arith, length-le_bytes 8 (head_or_null rest_free)) in
      (
        load_integer-bytes 8 (head_or_null rest_free) 0 opened_log rest_fits first,
        load_integer-bytes 8 (segment_at 0) 8 opened_log (omega arith) (rw p at second),
      )

  opened-IsShaped : IsShaped opened
  unfolding new_segments
  opened-IsShaped = record {
    alloc_is = omega (arith, v.alloc_is, f);
    in_max = v.in_max;
    small = v.small;
    free_is = refl;
    major_is = refl;
    current_is = refl;
    last_free_is = λ z. v.last_free_is f;
    offset_above = λ z. omega arith;
    offset_below = λ z. omega arith;
    sync_count = v.sync_count;
    sync_is = v.sync_is;
    sync_linked = λ c n.
        Linked-Same t.log opened_log t.info.alloc_segments (new_segments t.info)
          (λ j a b. opened_log-links j (inr (omega (arith, a, used_below)))) (v.sync_linked c n);
    free_linked = opened_log-rest;
    major_linked = opened_log-Linked;
    free_head = heads.0;
    major_head = heads.1;
  }

  opened-Keeps : Keeps t opened
  opened-Keeps = record {
    map = refl;
    same = λ lo hi c.
        opened_log-Same lo hi (omega (arith, c.above)) (λ u. inl (omega (arith, c.below, c.used)))
          (λ u. elim (Bool-cases (c.number == t.info.used_segments - 1)) [
            | inl x ↦ inr (ground (arith, x, c.above))
            | inr x ↦ inl (ground (arith, x, c.below, c.used))
          ])
          (inl (omega (arith, c.below, c.used)));
    covered = λ lo hi c. record {
      number = c.number;
      used = omega (arith, c.used);
      above = c.above;
      below = c.below;
      before = λ e. absurd (omega (arith, e, c.used));
    };
  }

-- What `AllocateMajor` gives, where a segment is free or may be made.
pub record Opened (s t : LstStore) : Type 0 where
  pub shaped : IsShaped t
  pub keeps : Keeps s t
  pub number : ℕ
  pub current : t.current_major_segment ≡ some (segment_at number)
  pub used : t.info.used_segments ≡ suc number
  pub fresh : t.major_segment_offset ≡ meta_segment_size

allocate_major-opened :
    (s t : LstStore) (v : IsShaped t) (f : 0 < t.info.free_segments)
    → wait_segments (request_segments s) ≡ some t
    → s.current_major_segment ≡ last_segment t.info.used_segments
    → allocate_major s ≡ some (opened t v f)
unfolding allocate_major allocate
allocate_major-opened s t v f runs same =
    let used : add_size t.info.used_segments 1 ≡ suc t.info.used_segments =
      omega (arith, used_below t v f, v.in_max, v.small) in
    let free : sub_size t.info.free_segments 1 ≡ t.info.free_segments - 1 =
      omega (arith, f, v.alloc_is, v.in_max, v.small) in
    let z : 0 + t.info.used_segments ≡ t.info.used_segments = omega arith in
    let e : t.info.used_segments + 1 ≡ suc t.info.used_segments = omega arith in
    let major : segments_from t.info.used_segments 0 ++ segment_at t.info.used_segments ∷ []
        ≡ segments_from (suc t.info.used_segments) 0 =
      let g = segments_from-append t.info.used_segments 1 0 in rw (z, e) at g in
    rw
      (
        allocate_major,
        allocate,
        runs,
        allocate,
        v.free_is,
        segments_from-some t.info.free_segments t.info.used_segments f,
        same,
        v.major_is,
        major,
        used,
        free,
      )
      refl

pub allocate_major-Opened :
    (s : LstStore)
    → IsShaped s
    → IsRoomy s
    → (t : LstStore) × (allocate_major s ≡ some t) × Opened s t
allocate_major-Opened s v r =
    let (t, runs, y) = request_segments-Ready s v in
    let f = y.roomy r in
    (
      opened t y.shaped f,
      allocate_major-opened s t y.shaped f runs (rw y.same_used v.current_is),
      record {
        shaped = opened-IsShaped t y.shaped f;
        keeps = Keeps-trans s t (opened t y.shaped f) y.keeps (opened-Keeps t y.shaped f);
        number = t.info.used_segments;
        current = refl;
        used = refl;
        fresh = refl;
      },
    )

-- With no segment free in a log that has all it may have, the process ends.
pub allocate_major-full :
    (s : LstStore)
    → IsShaped s
    → s.info.free_segments ≡ 0
    → s.info.alloc_segments ≡ s.info.max_segments
    → allocate_major s ≡ none
unfolding allocate_major allocate
allocate_major-full s v z m =
    let (t, runs, y) = request_segments-Ready s v in
    let empty : t.free_list ≡ [] = rw (y.shaped.free_is, y.full z m) refl in
    rw (allocate_major, allocate, runs, allocate, empty) refl
