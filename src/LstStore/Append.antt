-- ===== src/LstStore/Append.antt =====
-- The writing of a chunk by `LSTStore::Put` (src/store/lst_store.cc).
use mathlib.Core.Path.{subst}
use forkbase.Base.{
  ℕ, suc, ◌+◌, ◌≤◌, ◌≡◌, refl, sym, ap, ◌∙◌, some, none, arith, Bytes, length, take, take_self,
  ◌=?◌, ◌⊎◌, inl, inr, if◌then◌else◌, Bool-cases, Option-cases, leb, read_le,
}
use forkbase.Hash.{Hash, of, byte_length, hash_eq}
use forkbase.Chunk.{Chunk, num_bytes}
use forkbase.Dict
use forkbase.Dict.{lookup-emplace}
use forkbase.Mmap.{
  Memory, Same, Same-trans, load_bytes, load_integer, store_bytes, store_bytes-Same,
  load_bytes-Same, load_integer-Same, load_bytes-store_bytes,
}
use forkbase.LstStore.{
  LstStore, chunk_length_at, segment_size, segment_at, append_chunk, on_new_chunk, new_segments,
  no_order, add_size, get,
}
use forkbase.LstStore.Links.{Linked-Same}
use forkbase.LstStore.Shape.{IsShaped, Covered}
use forkbase.LstStore.Valid.{
  Stored, IsValid, chunk_at, Same-Stored, Same-chunk, take-load_bytes, get_found, get_absent,
}

-- A key and a chunk that fit a segment.
pub record Fits (key : Bytes) (chunk : Chunk) : Type 0 where
  pub is_key : length key ≡ byte_length
  pub sized : num_bytes chunk ≡ length chunk
  pub long : 5 ≤ length chunk
  pub short : length chunk + 61 ≤ segment_size

-- A current segment with room for them.
pub record HasRoom (t : LstStore) (n len : ℕ) : Type 0 where
  pub is_current : t.current_major_segment ≡ some (segment_at n)
  pub used : t.info.used_segments ≡ suc n
  pub room : t.major_segment_offset + len + 25 ≤ segment_size

module _ (t : LstStore) (n : ℕ) (key : Bytes) (chunk : Chunk) where
  abbrev pub place : ℕ
  place = segment_at n + t.major_segment_offset

  abbrev pub appended_log : Memory
  appended_log =
      store_bytes key (place + num_bytes chunk)
        (store_bytes (take (num_bytes chunk) chunk) place t.log)

  abbrev pub appended : LstStore
  appended = append_chunk t (segment_at n) key chunk

  module _ (v : IsValid t) (f : Fits key chunk)
      (r : HasRoom t n (byte_length + num_bytes chunk)) where
    abbrev pub Away : ℕ → ℕ → Type 0
    Away lo hi = (hi ≤ place) ⊎ (place + (num_bytes chunk + byte_length) ≤ lo)

    written : take (num_bytes chunk) chunk ≡ chunk
    written = take_self (num_bytes chunk) chunk (sym f.sized)

    pub appended_log-Same : (lo hi : ℕ) → Away lo hi → Same t.log appended_log lo hi
    appended_log-Same lo hi a =
        let len : length (take (num_bytes chunk) chunk) ≡ num_bytes chunk =
          rw written (sym f.sized) in
        Same-trans t.log (store_bytes (take (num_bytes chunk) chunk) place t.log) appended_log lo hi
          (store_bytes-Same (take (num_bytes chunk) chunk) place t.log lo hi
            (elim a [ inl x ↦ inl x | inr x ↦ inr (omega (arith, x, len)) ]))
          (store_bytes-Same key (place + num_bytes chunk) _ lo hi
            (elim a [ inl x ↦ inl (omega (arith, x)) | inr x ↦ inr (omega (arith, x, f.is_key)) ]))

    pub key_written : load_bytes byte_length appended_log (place + num_bytes chunk) ≡ key
    key_written =
        let g =
          load_bytes-store_bytes key (place + num_bytes chunk)
            (store_bytes (take (num_bytes chunk) chunk) place t.log) in
        rw f.is_key at g

    pub chunk_written : load_bytes (num_bytes chunk) appended_log place ≡ chunk
    chunk_written =
        let w = store_bytes (take (num_bytes chunk) chunk) place t.log in
        let kept =
          load_bytes-Same (num_bytes chunk) w appended_log place place (place + num_bytes chunk)
            (store_bytes-Same key (place + num_bytes chunk) w place (place + num_bytes chunk)
              (inl (omega arith)))
            (omega arith) (omega arith) in
        let g = load_bytes-store_bytes chunk place t.log in
        let h : load_bytes (num_bytes chunk) (store_bytes chunk place t.log) place ≡ chunk =
          rw (← f.sized) at g in
        rw (← kept, written) h

    pub length_written : chunk_length_at appended_log place ≡ num_bytes chunk
    unfolding load_integer num_bytes read_le
    length_written =
        let g =
          take-load_bytes 4 (num_bytes chunk) appended_log place (omega (arith, f.long, f.sized)) in
        let h : take 4 chunk ≡ load_bytes 4 appended_log place = rw chunk_written at g in
        rw (← h) refl

    links_stay : (j : ℕ) → Same t.log appended_log (segment_at j + 8) (segment_at j + 16)
    links_stay j =
        let above = v.shaped.offset_above (omega (arith, r.used)) in
        appended_log-Same (segment_at j + 8) (segment_at j + 16) (elim (Bool-cases (leb j n)) [
          | inl x ↦ inl (ground (arith, x, above))
          | inr x ↦ inr (ground (arith, x, r.room))
        ])

    front_stays : (o : ℕ) → o + 8 ≤ 24 → load_integer 8 t.log o ≡ load_integer 8 appended_log o
    front_stays o h =
        load_integer-Same 8 t.log appended_log o 0 24 (appended_log-Same 0 24 (inl (omega arith)))
          (omega arith) h

    pub appended_offset :
        add_size t.major_segment_offset (byte_length + num_bytes chunk)
        ≡ t.major_segment_offset + (byte_length + num_bytes chunk)
    appended_offset = omega (arith, r.room)

    appended-IsShaped : IsShaped appended
    unfolding append_chunk on_new_chunk new_segments
    appended-IsShaped =
        let s = v.shaped in
        record {
          alloc_is = s.alloc_is;
          in_max = s.in_max;
          small = s.small;
          free_is = s.free_is;
          major_is = s.major_is;
          current_is = s.current_is;
          last_free_is = s.last_free_is;
          offset_above = λ u. omega (arith, appended_offset, s.offset_above u);
          offset_below = λ u. omega (arith, appended_offset, r.room);
          sync_count = s.sync_count;
          sync_is = s.sync_is;
          sync_linked =
              λ c m. Linked-Same t.log appended_log _ _ (λ j a b. links_stay j) (s.sync_linked c m);
          free_linked = Linked-Same t.log appended_log _ _ (λ j a b. links_stay j) s.free_linked;
          major_linked = Linked-Same t.log appended_log _ _ (λ j a b. links_stay j) s.major_linked;
          free_head = rw (← (front_stays 0 (omega arith))) s.free_head;
          major_head = rw (← (front_stays 8 (omega arith))) s.major_head;
        }

    -- What was covered lies before the new chunk, and is covered.
    Covered-before : (lo hi : ℕ) → Covered t lo hi → hi ≤ place
    Covered-before lo hi c = elim (Bool-cases (leb n c.number)) [
      | inl x ↦
          let e : c.number ≡ n = ground (arith, x, c.used, r.used) in
          let g = c.before (omega (arith, e, r.used)) in rw e at g
      | inr x ↦
          let above = v.shaped.offset_above (omega (arith, r.used)) in
          ground (arith, x, c.below, above)
    ]

    appended-Covered : (lo hi : ℕ) → Covered t lo hi → Covered appended lo hi
    unfolding append_chunk on_new_chunk
    appended-Covered lo hi c = record {
      number = c.number;
      used = c.used;
      above = c.above;
      below = c.below;
      before = λ e. omega (arith, appended_offset, c.before e);
    }

    appended-Stored : Stored appended (of key) place
    unfolding append_chunk on_new_chunk
    appended-Stored =
        let above = v.shaped.offset_above (omega (arith, r.used)) in
        record {
          long = omega (arith, length_written, f.long, f.sized);
          covered = record {
            number = n;
            used = omega (arith, r.used);
            above = omega (arith, above);
            below = omega (arith, length_written, r.room);
            before = λ e. omega (arith, length_written, appended_offset);
          };
          named = rw (length_written, key_written) refl;
        }

    lookup-appended :
        (j : Hash)
        → Dict.lookup (of key) t.chunk_map ≡ none
        → Dict.lookup j appended.chunk_map
          ≡ (if of key =? j then some place else Dict.lookup j t.chunk_map)
    unfolding append_chunk
    lookup-appended j absent =
        rw (key_written, lookup-emplace no_order (of key) j place t.chunk_map)
          (elim (Bool-cases (of key =? j)) [
            | inl x ↦
                let e = (hash_eq.beq_iff (of key) j).0 x in
                let gone : Dict.lookup j t.chunk_map ≡ none = rw e at absent in rw (x, gone) refl
            | inr x ↦ rw x refl
          ])

    pub appended-IsValid : Dict.lookup (of key) t.chunk_map ≡ none → IsValid appended
    unfolding append_chunk
    appended-IsValid absent = record {
      shaped = appended-IsShaped;
      stored = λ h o e. elim (Bool-cases (of key =? h)) [
        | inl x ↦
            let same = (hash_eq.beq_iff (of key) h).0 x in
            let found : (if of key =? h then some place else Dict.lookup h t.chunk_map) ≡ some o =
              sym (lookup-appended h absent) ∙ e in
            let g : some place ≡ some o = rw x at found in
            let at : place ≡ o = cc in
            subst (λ k. Stored appended k o) same
              (subst (λ p. Stored appended (of key) p) at appended-Stored)
        | inr x ↦
            let found : (if of key =? h then some place else Dict.lookup h t.chunk_map) ≡ some o =
              sym (lookup-appended h absent) ∙ e in
            let g : Dict.lookup h t.chunk_map ≡ some o = rw x at found in
            let b = v.stored h o g in
            Same-Stored t appended h o b
              (appended_log-Same o (o + (chunk_length_at t.log o + byte_length))
                (inl (Covered-before _ _ b.covered)))
              (appended-Covered _ _ b.covered)
      ];
    }

    pub get-appended :
        (j : Hash)
        → Dict.lookup (of key) t.chunk_map ≡ none
        → get appended j ≡ (if of key =? j then some chunk else get t j)
    unfolding append_chunk
    get-appended j absent = elim (Bool-cases (of key =? j)) [
      | inl x ↦
          let at : Dict.lookup j appended.chunk_map ≡ some place =
            lookup-appended j absent ∙ rw x refl in
          let found : chunk_at appended.log place ≡ chunk = rw length_written chunk_written in
          rw x (get_found appended j place at ∙ ap some found)
      | inr x ↦
          let same : Dict.lookup j appended.chunk_map ≡ Dict.lookup j t.chunk_map =
            lookup-appended j absent ∙ rw x refl in
          elim (Option-cases (Dict.lookup j t.chunk_map)) [
            | inl e ↦ rw x (get_absent appended j (same ∙ e) ∙ sym (get_absent t j e))
            | inr (o, e) ↦
                let b = v.stored j o e in
                let kept = Same-chunk t appended j o b (
                  appended_log-Same o (o + (chunk_length_at t.log o + byte_length))
                    (inl (Covered-before _ _ b.covered))) in
                rw x (get_found appended j o (same ∙ e) ∙ ap some kept ∙ sym (get_found t j o e))
          ]
    ]
