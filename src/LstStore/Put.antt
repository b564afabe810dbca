-- ===== src/LstStore/Put.antt =====
-- `LSTStore::Put` (src/store/lst_store.cc) against the contract of a chunk store.
use forkbase.Base.{
  ℕ, zero, suc, ◌+◌, ◌-◌, ◌≤◌, ◌≡◌, refl, sym, ◌∙◌, Option, some, none, arith, Bytes, ◌=?◌, ◌⊎◌,
  inl, inr, if◌then◌else◌, true, false, Bool-cases, Option-cases, ltb, ◌⊎◌, ◌==◌, beq_refl,
}
use forkbase.Hash.{Hash, of, byte_length, hash_eq}
use forkbase.Chunk.{Chunk, num_bytes}
use forkbase.Dict
use forkbase.Store.{is_some}
use forkbase.LstStore.{
  LstStore, segment_size, segment_at, append_chunk, get, put, exists, make_room, allocate_major,
  get_free_space_major,
}
use forkbase.LstStore.Shape.{IsShaped, Keeps, Keeps-refl, last_segment}
use forkbase.LstStore.Request.{IsRoomy}
use forkbase.LstStore.Open.{allocate_major-Opened, allocate_major-full}
use forkbase.LstStore.Valid.{IsValid, Keeps-IsValid, Keeps-get, get_absent}
use forkbase.LstStore.Append.{Fits, HasRoom, appended-IsValid, get-appended}

-- `GetFreeSpaceMajor` does not wrap around.
free_space_lem :
    (s : LstStore)
    → s.major_segment_offset + 25 ≤ segment_size
    → get_free_space_major s ≡ segment_size - (s.major_segment_offset + 25)
unfolding get_free_space_major
free_space_lem s h = omega (arith, h)

-- A store with room for so many bytes.
record Roomed (s t : LstStore) (len : ℕ) : Type 0 where
  shaped : IsShaped t
  keeps : Keeps s t
  number : ℕ
  room : HasRoom t number len

opened-Roomed :
    (s : LstStore) (len : ℕ)
    → IsShaped s
    → IsRoomy s
    → len + 41 ≤ segment_size
    → (t : LstStore) × (allocate_major s ≡ some t) × Roomed s t len
opened-Roomed s len v r h =
    let (t, runs, o) = allocate_major-Opened s v r in
    (
      t,
      runs,
      record {
        shaped = o.shaped;
        keeps = o.keeps;
        number = o.number;
        room = record {
          is_current = o.current;
          used = o.used;
          room = rw o.fresh (omega (arith, h));
        };
      },
    )

some_last :
    (used c : ℕ)
    → last_segment used ≡ some c
    → (n : ℕ) × (used ≡ suc n) × (last_segment used ≡ some (segment_at n))
some_last zero c e = cc
some_last (suc n) c e = (n, refl, refl)

-- A current segment with enough free space stays.
stay-Roomed :
    (s : LstStore) (len c : ℕ)
    → IsShaped s
    → s.current_major_segment ≡ some c
    → ltb (get_free_space_major s) len ≡ false
    → Roomed s s len
stay-Roomed s len c v e x =
    let (n, used, last) = some_last s.info.used_segments c (sym v.current_is ∙ e) in
    let below = v.offset_below (omega (arith, used)) in
    record {
      shaped = v;
      keeps = Keeps-refl s;
      number = n;
      room = record {
        is_current = v.current_is ∙ last;
        used = used;
        room = ground (arith, x, free_space_lem s below, below);
      };
    }

-- A choice by the current segment.
on_none :
    (o : Option ℕ) (a : Option LstStore) (b : ℕ → Option LstStore)
    → o ≡ none
    → (elim o [ none ↦ a | some c ↦ b c ]) ≡ a
on_none o a b e = rw e refl

on_some :
    (o : Option ℕ) (a : Option LstStore) (b : ℕ → Option LstStore) (c : ℕ)
    → o ≡ some c
    → (elim o [ none ↦ a | some c ↦ b c ]) ≡ b c
on_some o a b c e = rw e refl

abbrev branch : LstStore → ℕ → Option LstStore
branch s len = if ltb (get_free_space_major s) len then allocate_major s else some s

make_room-Roomed :
    (s : LstStore) (len : ℕ)
    → IsShaped s
    → IsRoomy s
    → len + 41 ≤ segment_size
    → (t : LstStore) × (make_room s len ≡ some t) × Roomed s t len
unfolding make_room
make_room-Roomed s len v r h = elim (Option-cases s.current_major_segment) [
  | inl e ↦
      let (t, runs, o) = opened-Roomed s len v r h in
      (t, on_none s.current_major_segment (allocate_major s) (λ o. branch s len) e ∙ runs, o)
  | inr (c, e) ↦ elim (Bool-cases (ltb (get_free_space_major s) len)) [
    | inl x ↦
        let (t, runs, o) = opened-Roomed s len v r h in
        (t, on_some s.current_major_segment _ (λ o. branch s len) c e ∙ rw x runs, o)
    | inr x ↦ (
      s,
      on_some s.current_major_segment _ (λ o. branch s len) c e ∙ rw x refl,
      stay-Roomed s len c v e x,
    )
  ]
]

-- What `Put` promises of its result.
pub record Puts (s t : LstStore) (h : Hash) (chunk : Chunk) : Type 0 where
  pub valid : IsValid t
  pub answers :
      (j : Hash)
      → get t j
        ≡ (if h =? j then (elim (get s h) [ none ↦ some chunk | some old ↦ some old ]) else get s j)
  pub found : exists t h ≡ true

exists-get : (s : LstStore) (h : Hash) → exists s h ≡ is_some (get s h)
unfolding exists get
exists-get s h = elim (Option-cases (Dict.lookup h s.chunk_map)) [
  | inl e ↦ rw (e, exists, get) refl
  | inr (o, e) ↦ rw (e, exists, get) refl
]

exists-lookup : (s : LstStore) (h : Hash) → exists s h ≡ false → Dict.lookup h s.chunk_map ≡ none
unfolding exists
exists-lookup s h e = elim (Option-cases (Dict.lookup h s.chunk_map)) [
  | inl x ↦ x
  | inr (o, x) ↦
      let present : exists s h ≡ true = rw (exists, x) refl in
      let z : true ≡ false = sym present ∙ e in cc
]

-- What is there stays.
kept_answers :
    (s : LstStore) (h j : Hash) (chunk : Chunk)
    → exists s h ≡ true
    → get s j
      ≡ (if h =? j then (elim (get s h) [ none ↦ some chunk | some old ↦ some old ]) else get s j)
kept_answers s h j chunk e = elim (Bool-cases (h =? j)) [
  | inl x ↦
      let same = (hash_eq.beq_iff h j).0 x in
      elim (Option-cases (get s h)) [
        | inl n ↦
            let g : is_some (get s h) ≡ true = sym (exists-get s h) ∙ e in
            let z : false ≡ true = rw n at g in cc
        | inr (old, n) ↦ let at : get s j ≡ some old = rw same at n in rw (x, n) at
      ]
  | inr x ↦ rw x refl
]

-- What was not there is the new chunk.
new_answers :
    (s t u : LstStore) (h j : Hash) (chunk : Chunk)
    → get s h ≡ none
    → get t j ≡ get s j
    → get u j ≡ (if h =? j then some chunk else get t j)
    → get u j
      ≡ (if h =? j then (elim (get s h) [ none ↦ some chunk | some old ↦ some old ]) else get s j)
new_answers s t u h j chunk n same e = e ∙ rw (n, same) refl

put-absent :
    (s t : LstStore) (n : ℕ) (key : Bytes) (chunk : Chunk)
    → exists s (of key) ≡ false
    → make_room s (byte_length + num_bytes chunk) ≡ some t
    → t.current_major_segment ≡ some (segment_at n)
    → put s (of key) chunk ≡ some (append_chunk t (segment_at n) key chunk)
unfolding put
put-absent s t n key chunk absent runs current =
    rw (put, absent, runs)
      (on_some t.current_major_segment none (λ c. some (append_chunk t c key chunk)) (segment_at n)
        current)

put-present :
    (s : LstStore) (key : Bytes) (chunk : Chunk)
    → exists s (of key) ≡ true
    → put s (of key) chunk ≡ some s
unfolding put
put-present s key chunk present = rw (put, present) refl

-- A new chunk in a segment with room.
put-Roomed :
    (s t : LstStore) (key : Bytes) (chunk : Chunk)
    → IsValid s
    → Fits key chunk
    → exists s (of key) ≡ false
    → make_room s (byte_length + num_bytes chunk) ≡ some t
    → Roomed s t (byte_length + num_bytes chunk)
    → (u : LstStore) × (put s (of key) chunk ≡ some u) × Puts s u (of key) chunk
put-Roomed s t key chunk v f e runs o =
    let w = Keeps-IsValid s t o.keeps o.shaped v in
    let absent : Dict.lookup (of key) t.chunk_map ≡ none =
      rw o.keeps.map (exists-lookup s (of key) e) in
    let u = append_chunk t (segment_at o.number) key chunk in
    let answer = λ (j : Hash). get-appended t o.number key chunk w f o.room j absent in
    (
      u,
      put-absent s t o.number key chunk e runs o.room.is_current,
      record {
        valid = appended-IsValid t o.number key chunk w f o.room absent;
        answers = λ j.
            new_answers s t u (of key) j chunk (get_absent s (of key) (exists-lookup s (of key) e))
              (Keeps-get s t o.keeps v j) (answer j);
        found = exists-get u (of key) ∙ (let g = answer (of key) in rw (g, beq_refl (of key)) refl);
      },
    )

present-Puts :
    (s : LstStore) (key : Bytes) (chunk : Chunk)
    → IsValid s
    → exists s (of key) ≡ true
    → (t : LstStore) × (put s (of key) chunk ≡ some t) × Puts s t (of key) chunk
present-Puts s key chunk v e = (
  s,
  put-present s key chunk e,
  record { valid = v; answers = λ j. kept_answers s (of key) j chunk e; found = e },
)

-- `Put` of a chunk that fits a segment ends, on a valid store with a segment that is free or may
-- still be made. The store is then valid, the key is there, and every `Get` answers as the contract
-- of a chunk store says: the new chunk under its hash, unless there was one already, which stays,
-- and what it was under any other.
pub put-Puts :
    (s : LstStore) (key : Bytes) (chunk : Chunk)
    → IsValid s
    → IsRoomy s
    → Fits key chunk
    → (t : LstStore) × (put s (of key) chunk ≡ some t) × Puts s t (of key) chunk
put-Puts s key chunk v r f = elim (Bool-cases (exists s (of key))) [
  | inl e ↦ present-Puts s key chunk v e
  | inr e ↦
      let (t, runs, o) =
        make_room-Roomed s (byte_length + num_bytes chunk) v.shaped r
          (omega (arith, f.short, f.sized)) in
      put-Roomed s t key chunk v f e runs o
]

-- A full log: the current segment has room, or the process ends.
make_room-full :
    (s : LstStore) (len : ℕ)
    → IsShaped s
    → s.info.free_segments ≡ 0
    → s.info.alloc_segments ≡ s.info.max_segments
    → ((make_room s len ≡ some s) × Roomed s s len) ⊎ (make_room s len ≡ none)
unfolding make_room
make_room-full s len v z m =
    let full = allocate_major-full s v z m in
    elim (Option-cases s.current_major_segment) [
      | inl e ↦
          inr (on_none s.current_major_segment (allocate_major s) (λ o. branch s len) e ∙ full)
      | inr (c, e) ↦ elim (Bool-cases (ltb (get_free_space_major s) len)) [
        | inl x ↦ inr (on_some s.current_major_segment _ (λ o. branch s len) c e ∙ rw x full)
        | inr x ↦ inl (
          on_some s.current_major_segment _ (λ o. branch s len) c e ∙ rw x refl,
          stay-Roomed s len c v e x,
        )
      ]
    ]

put-none :
    (s : LstStore) (key : Bytes) (chunk : Chunk)
    → exists s (of key) ≡ false
    → make_room s (byte_length + num_bytes chunk) ≡ none
    → put s (of key) chunk ≡ none
unfolding put
put-none s key chunk e n = rw (put, e, n) refl

-- On any valid store `Put` of a chunk that fits a segment either ends or ends the process, which it
-- does only if no segment is free and the log has as many as it may. Where it ends, the store is
-- valid, the key is there, and every `Get` answers as the contract of a chunk store says: the new
-- chunk under its hash, unless there was one already, which stays, and what it was under any other.
pub put-ends :
    (s : LstStore) (key : Bytes) (chunk : Chunk)
    → IsValid s
    → Fits key chunk
    → ((t : LstStore) × (put s (of key) chunk ≡ some t) × Puts s t (of key) chunk)
      ⊎ ((put s (of key) chunk ≡ none)
          × (s.info.free_segments ≡ 0)
          × (s.info.alloc_segments ≡ s.info.max_segments))
put-ends s key chunk v f = elim (Bool-cases (s.info.free_segments == 0)) [
  | inr a ↦ inl (put-Puts s key chunk v (inl (ground (arith, a))) f)
  | inl a ↦ elim (Bool-cases (ltb s.info.alloc_segments s.info.max_segments)) [
    | inl b ↦ inl (put-Puts s key chunk v (inr (ground (arith, b))) f)
    | inr b ↦
        let z : s.info.free_segments ≡ 0 = ground (arith, a) in
        let m : s.info.alloc_segments ≡ s.info.max_segments = ground (arith, b, v.shaped.in_max) in
        elim (Bool-cases (exists s (of key))) [
          | inl e ↦ inl (present-Puts s key chunk v e)
          | inr e ↦ elim (make_room-full s (byte_length + num_bytes chunk) v.shaped z m) [
            | inl (runs, o) ↦ inl (put-Roomed s s key chunk v f e runs o)
            | inr n ↦ inr (put-none s key chunk e n, z, m)
          ]
        ]
  ]
]
