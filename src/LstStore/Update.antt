-- ===== src/LstStore/Update.antt =====
-- `UpdateStore` (src/store/lst_store.cc): the segments that `Enlarge` has made are put behind the
-- free ones.
use mathlib.Core.Path.{subst}
use forkbase.Base.{
  ℕ, suc, ◌+◌, ◌-◌, ◌≤◌, ◌<◌, ◌^◌, ◌≡◌, refl, sym, ap, [], ◌++◌, arith, ltb, ◌==◌, ◌&&◌, Bool-cases,
  inl, inr, true, false, le_bytes, length-le_bytes, ◌⊎◌,
}
use forkbase.Mmap.{
  Memory, Same, load_integer, store_bytes, store_bytes-Same, load_integer-Same,
  load_integer-store_bytes,
}
use forkbase.LstStore.{
  LstStore, completed, unscheduled, segment_at, head_or_null, last_or_null, new_segments, add_size,
  update_store,
}
use forkbase.LstStore.Links.{
  segments_from, Linked, next_at, segments_from-some, Linked-Same, Linked-join,
  segments_from-append, last_or_null-segments_from,
}
use forkbase.LstStore.Shape.{IsShaped, Covered, Keeps, Keeps-where, new_segments-fit}

module _ (s : LstStore) (v : IsShaped s) (c : s.thread_status ≡ completed) where
  -- The store with the new segments, and another log.
  abbrev grown : Memory → LstStore
  grown log = record s {
    log = log;
    free_list = s.free_list ++ s.sync_list;
    last_free_segment = last_or_null s.sync_list;
    info = record s.info {
      free_segments = add_size s.info.free_segments s.sync_segments;
      alloc_segments = add_size s.info.alloc_segments s.sync_segments;
    };
    thread_status = unscheduled;
  }

  module _ (more : 0 < new_segments s.info) where
    no_wrap :
        (add_size s.info.free_segments s.sync_segments ≡ s.info.free_segments + new_segments s.info)
        × (add_size s.info.alloc_segments s.sync_segments
            ≡ s.info.alloc_segments + new_segments s.info)
    no_wrap =
        let (a, b, d) = new_segments-fit s.info v.in_max v.small in
        rw (v.sync_count c)
          (omega (arith, a, v.small, v.alloc_is), omega (arith, a, v.small, v.alloc_is))

    head_sync : head_or_null s.sync_list ≡ segment_at s.info.alloc_segments
    head_sync =
        let e : suc (new_segments s.info - 1) ≡ new_segments s.info = omega (arith, more) in
        rw (v.sync_is c more, ← e) refl

    last_sync :
        last_or_null s.sync_list ≡ segment_at (s.info.alloc_segments + new_segments s.info - 1)
    last_sync =
        let e : suc (new_segments s.info - 1) ≡ new_segments s.info = omega (arith, more) in
        let f = last_or_null-segments_from (new_segments s.info - 1) s.info.alloc_segments in
        let g : s.info.alloc_segments + (new_segments s.info - 1)
            ≡ s.info.alloc_segments + new_segments s.info - 1 =
          omega (arith, more) in
        rw (v.sync_is c more, ← g, ← f)
          (ap (λ n. last_or_null (segments_from n s.info.alloc_segments)) (sym e))

    -- Whatever is written, if it links the new segments to the free ones and touches no other link.
    grown-IsShaped :
        (log : Memory)
        → Linked log s.info.used_segments (s.info.free_segments + new_segments s.info)
        → Linked log 0 s.info.used_segments
        → load_integer 8 log 0 ≡ head_or_null (s.free_list ++ s.sync_list)
        → load_integer 8 log 8 ≡ head_or_null s.major_list
        → IsShaped (grown log)
    grown-IsShaped log linked major free_head major_head =
        let (a, b, d) = new_segments-fit s.info v.in_max v.small in
        let (nf, na) = no_wrap in
        record {
          alloc_is = omega (arith, nf, na, v.alloc_is);
          in_max = omega (arith, na, a);
          small = v.small;
          free_is =
              let joined =
                segments_from-append s.info.free_segments (new_segments s.info)
                  s.info.used_segments in
              let runs : segments_from s.info.free_segments s.info.used_segments
                    ++ segments_from (new_segments s.info) s.info.alloc_segments
                  ≡ segments_from (s.info.free_segments + new_segments s.info)
                      s.info.used_segments =
                rw (← v.alloc_is) at joined in
              rw (v.free_is, v.sync_is c more, nf) runs;
          major_is = v.major_is;
          current_is = v.current_is;
          last_free_is = λ z. rw (na, last_sync) refl;
          offset_above = v.offset_above;
          offset_below = v.offset_below;
          sync_count = λ z. cc;
          sync_is = λ z. cc;
          sync_linked = λ z. cc;
          free_linked = rw nf linked;
          major_linked = major;
          free_head = free_head;
          major_head = major_head;
        }

    -- With no segment free, the log gets them as its free list.
    abbrev first_log : Memory
    first_log = store_bytes (le_bytes 8 (head_or_null s.sync_list)) 0 s.log

    first_log-Same : (lo hi : ℕ) → 8 ≤ lo → Same s.log first_log lo hi
    first_log-Same lo hi h =
        store_bytes-Same (le_bytes 8 (head_or_null s.sync_list)) 0 s.log lo hi
          (inr (omega (arith, h, length-le_bytes 8 (head_or_null s.sync_list))))

    head_fits : head_or_null s.sync_list < 256 ^ 8
    head_fits =
        let (a, b, d) = new_segments-fit s.info v.in_max v.small in
        rw head_sync (omega (arith, a, v.small))

    grown_first-IsShaped : s.info.free_segments ≡ 0 → IsShaped (grown first_log)
    grown_first-IsShaped z =
        let e : s.info.alloc_segments ≡ s.info.used_segments = omega (arith, v.alloc_is, z) in
        let n : s.info.free_segments + new_segments s.info ≡ new_segments s.info =
          omega (arith, z) in
        grown-IsShaped first_log
          (rw n (
            subst (λ i. Linked first_log i (new_segments s.info)) e
              (Linked-Same s.log first_log s.info.alloc_segments (new_segments s.info)
                (λ j x y. first_log-Same (segment_at j + 8) (segment_at j + 16) (omega arith))
                (v.sync_linked c more))))
          (Linked-Same s.log first_log 0 s.info.used_segments
            (λ j x y. first_log-Same (segment_at j + 8) (segment_at j + 16) (omega arith))
            v.major_linked)
          (rw (v.free_is, z)
            (load_integer-store_bytes 8 (head_or_null s.sync_list) 0 s.log head_fits))
          (let kept =
              load_integer-Same 8 s.log first_log 8 8 16 (first_log-Same 8 16 (omega arith))
                (omega arith) (omega arith) in
            rw (← kept) v.major_head)

    -- Else the last free segment gets them as what follows it.
    abbrev next_log : Memory
    next_log = store_bytes (le_bytes 8 (head_or_null s.sync_list)) (s.last_free_segment + 8) s.log

    next_log-Same :
        (lo hi : ℕ)
        → 0 < s.info.free_segments
        → (hi ≤ segment_at (s.info.alloc_segments - 1) + 8)
          ⊎ (segment_at (s.info.alloc_segments - 1) + 16 ≤ lo)
        → Same s.log next_log lo hi
    next_log-Same lo hi f h =
        let len = length-le_bytes 8 (head_or_null s.sync_list) in
        store_bytes-Same (le_bytes 8 (head_or_null s.sync_list)) (s.last_free_segment + 8) s.log lo
          hi
          (elim h [
            | inl x ↦ inl (omega (arith, x, v.last_free_is f))
            | inr x ↦ inr (omega (arith, x, v.last_free_is f, len))
          ])

    grown_next-IsShaped : 0 < s.info.free_segments → IsShaped (grown next_log)
    grown_next-IsShaped f =
        let wrote : next_at next_log (s.info.alloc_segments - 1)
            ≡ segment_at s.info.alloc_segments =
          rw (← (v.last_free_is f), ← head_sync)
            (load_integer-store_bytes 8 (head_or_null s.sync_list) (s.last_free_segment + 8) s.log
              head_fits) in
        let e : s.info.free_segments ≡ suc (s.info.free_segments - 1) = omega (arith, f) in
        grown-IsShaped next_log
          (Linked-join s.log next_log s.info.used_segments s.info.free_segments
            (new_segments s.info) f more v.free_linked
            (λ j x y.
              next_log-Same (segment_at j + 8) (segment_at j + 16) f
                (inl (omega (arith, y, v.alloc_is))))
            (rw (← v.alloc_is) wrote)
            (rw (← v.alloc_is) (
              Linked-Same s.log next_log s.info.alloc_segments (new_segments s.info)
                (λ j x y.
                  next_log-Same (segment_at j + 8) (segment_at j + 16) f
                    (inr (omega (arith, x, v.alloc_is, f))))
                (v.sync_linked c more))))
          (Linked-Same s.log next_log 0 s.info.used_segments
            (λ j x y.
              next_log-Same (segment_at j + 8) (segment_at j + 16) f
                (inl (omega (arith, y, v.alloc_is, f))))
            v.major_linked)
          (let kept =
              load_integer-Same 8 s.log next_log 0 0 8 (next_log-Same 0 8 f (inl (omega arith)))
                (omega arith) (omega arith) in
            let head : load_integer 8 next_log 0 ≡ head_or_null s.free_list =
              rw (← kept) v.free_head in
            rw (v.free_is, e) (let g = head in rw (v.free_is, e) at g))
          (let kept =
              load_integer-Same 8 s.log next_log 8 8 16 (next_log-Same 8 16 f (inl (omega arith)))
                (omega arith) (omega arith) in
            rw (← kept) v.major_head)

-- What `UpdateStore` gives after a finished `Enlarge`. It gets new segments unless the log has all
-- that it may have.
pub record Updated (s t : LstStore) : Type 0 where
  pub shaped : IsShaped t
  pub keeps : Keeps s t
  pub is_unscheduled : t.thread_status ≡ unscheduled
  pub same_max : t.info.max_segments ≡ s.info.max_segments
  pub same_used : t.info.used_segments ≡ s.info.used_segments
  pub more_free : s.info.free_segments ≤ t.info.free_segments
  pub when_full :
      s.info.alloc_segments ≡ s.info.max_segments → t.info.free_segments ≡ s.info.free_segments
  pub when_not : s.info.alloc_segments < s.info.max_segments → 0 < t.info.free_segments

grown-Updated :
    (s : LstStore) (v : IsShaped s) (c : s.thread_status ≡ completed) (log : Memory)
    → 0 < new_segments s.info
    → IsShaped (grown s v c log)
    → ((lo hi : ℕ) → Covered s lo hi → Same s.log log lo hi)
    → Updated s (grown s v c log)
grown-Updated s v c log more shaped same = record {
  shaped = shaped;
  keeps = Keeps-where s (grown s v c log) refl refl refl same;
  is_unscheduled = refl;
  same_max = refl;
  same_used = refl;
  more_free = let (nf, na) = no_wrap s v c more in omega (arith, nf);
  when_full = λ full.
      let (a, b, d) = new_segments-fit s.info v.in_max v.small in
      absurd (omega (arith, a, full, more));
  when_not = λ lt. let (nf, na) = no_wrap s v c more in omega (arith, nf, more);
}

idle-Updated :
    (s : LstStore)
    → IsShaped s
    → s.info.alloc_segments ≡ s.info.max_segments
    → Updated s (record s { thread_status = unscheduled })
idle-Updated s v full = record {
  shaped = record {
    alloc_is = v.alloc_is;
    in_max = v.in_max;
    small = v.small;
    free_is = v.free_is;
    major_is = v.major_is;
    current_is = v.current_is;
    last_free_is = v.last_free_is;
    offset_above = v.offset_above;
    offset_below = v.offset_below;
    sync_count = λ z. cc;
    sync_is = λ z. cc;
    sync_linked = λ z. cc;
    free_linked = v.free_linked;
    major_linked = v.major_linked;
    free_head = v.free_head;
    major_head = v.major_head;
  };
  keeps =
      Keeps-where s (record s { thread_status = unscheduled }) refl refl refl
        (λ lo hi c i a b. refl);
  is_unscheduled = refl;
  same_max = refl;
  same_used = refl;
  more_free = omega arith;
  when_full = λ e. refl;
  when_not = λ lt. absurd (omega (arith, lt, full));
}

pub update_store-Updated :
    (s : LstStore) → IsShaped s → s.thread_status ≡ completed → Updated s (update_store s)
unfolding update_store
update_store-Updated s v c =
    let (a, b, d) = new_segments-fit s.info v.in_max v.small in
    elim (Bool-cases (new_segments s.info == 0)) [
      | inl t ↦
          let z : new_segments s.info ≡ 0 = ground (arith, t) in
          let n : (ltb 0 s.sync_segments && ltb s.sync_segments (2 ^ 31)) ≡ false =
            ground (arith, z, v.sync_count c) in
          rw (n, update_store) (idle-Updated s v (d z))
      | inr t ↦
          let more : 0 < new_segments s.info = ground (arith, t) in
          let n : (ltb 0 s.sync_segments && ltb s.sync_segments (2 ^ 31)) ≡ true =
            ground (arith, more, v.sync_count c, b) in
          elim (Bool-cases (s.info.free_segments == 0)) [
            | inl f ↦
                let none_free : s.info.free_segments ≡ 0 = ground (arith, f) in
                let empty : s.free_list ≡ [] = rw (v.free_is, none_free) refl in
                let e : update_store s ≡ grown s v c (first_log s v c more) =
                  rw (n, empty, update_store) refl in
                rw e (
                  grown-Updated s v c (first_log s v c more) more
                    (grown_first-IsShaped s v c more none_free)
                    (λ lo hi k. first_log-Same s v c more lo hi (omega (arith, k.above))))
            | inr f ↦
                let some_free : 0 < s.info.free_segments = ground (arith, f) in
                let full = segments_from-some s.info.free_segments s.info.used_segments some_free in
                let e : update_store s ≡ grown s v c (next_log s v c more) =
                  rw (n, v.free_is, full, update_store) refl in
                rw e (
                  grown-Updated s v c (next_log s v c more) more
                    (grown_next-IsShaped s v c more some_free)
                    (λ lo hi k.
                      next_log-Same s v c more lo hi some_free
                        (inl (omega (arith, k.below, k.used, v.alloc_is, some_free)))))
          ]
    ]
