-- ===== src/LstStore/Enlarge.antt =====
-- `Enlarge` and `UpdateStore` (src/store/lst_store.cc): new segments are written to the end of the
-- log and linked, and then put behind the free ones.
use forkbase.Base.{
  ℕ, ◌+◌, ◌≤◌, ◌<◌, ◌^◌, ◌%◌, ◌≡◌, refl, sym, some, [], ◌∷◌, arith, ◌==◌, Bool-cases, inl, inr,
  true, false, length,
}
use forkbase.Mmap.{Same, Same-trans, store_bytes-Same, load_integer-Same}
use forkbase.LstStore.{
  LstStore, completed, segment_at, new_segments, enlarge, enlarged_log, init_segments,
}
use forkbase.LstStore.Links.{
  segments_from, Linked, Linked-Same, link_segment_list-Linked, init_segments-Same,
  init_segments-Linked, length-segments_from,
}
use forkbase.LstStore.Shape.{IsShaped, Keeps, Keeps-where, new_segments-fit}

module _ (s : LstStore) (v : IsShaped s) (more : 0 < new_segments s.info) where
  -- The log grows behind its last segment.
  enlarged_log-Same :
      (hi : ℕ)
      → hi ≤ segment_at s.info.alloc_segments
      → Same s.log (enlarged_log s.info s.last_free_segment s.log) 0 hi
  unfolding enlarged_log
  enlarged_log-Same hi h =
      let (a, b, c) = new_segments-fit s.info v.in_max v.small in
      Same-trans s.log _ _ 0 hi
        (init_segments-Same (new_segments s.info) s.info.alloc_segments s.last_free_segment
          (omega (arith, a, v.small)) (new_segments s.info) 0 s.log 0 hi (omega (arith, h)))
        (store_bytes-Same (1 ∷ []) _ _ 0 hi (inl (omega (arith, h, more))))

  enlarged_log-Linked :
      Linked
        (enlarged_log s.info s.last_free_segment s.log)
        s.info.alloc_segments
        (new_segments s.info)
  unfolding enlarged_log
  enlarged_log-Linked =
      let (a, b, c) = new_segments-fit s.info v.in_max v.small in
      let z : 0 + s.info.alloc_segments ≡ s.info.alloc_segments = omega arith in
      let linked : Linked
          (init_segments (new_segments s.info) 0 (new_segments s.info) s.info.alloc_segments
            s.last_free_segment s.log)
          s.info.alloc_segments (new_segments s.info) =
        let f =
          init_segments-Linked (new_segments s.info) s.info.alloc_segments s.last_free_segment
            (omega (arith, a, v.small)) (new_segments s.info) 0 s.log (omega arith) in
        rw z at f in
      Linked-Same _ _ s.info.alloc_segments (new_segments s.info)
        (λ j x y.
          store_bytes-Same (1 ∷ []) _ _ (segment_at j + 8) (segment_at j + 16)
            (inl (omega (arith, y))))
        linked

  abbrev enlarged : LstStore
  enlarged = record s {
    log = enlarged_log s.info s.last_free_segment s.log;
    sync_list = segments_from (new_segments s.info) s.info.alloc_segments;
    sync_segments = new_segments s.info;
    thread_status = completed;
  }

  enlarge-enlarged : enlarge s ≡ some enlarged
  unfolding enlarge
  enlarge-enlarged =
      let (a, b, c) = new_segments-fit s.info v.in_max v.small in
      let z : (new_segments s.info == 0) ≡ false = ground (arith, more) in
      let m : new_segments s.info % 2 ^ 32 ≡ new_segments s.info = omega (arith, b) in
      let linked =
        link_segment_list-Linked (new_segments s.info) (new_segments s.info) s.info.alloc_segments
          (enlarged_log s.info s.last_free_segment s.log) more (omega arith) enlarged_log-Linked in
      let u : (length (segments_from (new_segments s.info) s.info.alloc_segments)
            == new_segments s.info)
          ≡ true =
        ground (arith, length-segments_from (new_segments s.info) s.info.alloc_segments) in
      rw (enlarge, z, linked, u, m) refl

  enlarged-IsShaped : IsShaped enlarged
  enlarged-IsShaped = record {
    alloc_is = v.alloc_is;
    in_max = v.in_max;
    small = v.small;
    free_is = v.free_is;
    major_is = v.major_is;
    current_is = v.current_is;
    last_free_is = v.last_free_is;
    offset_above = v.offset_above;
    offset_below = v.offset_below;
    sync_count = λ c. refl;
    sync_is = λ c n. refl;
    sync_linked = λ c n. enlarged_log-Linked;
    free_linked =
        Linked-Same _ _ s.info.used_segments s.info.free_segments
          (λ j a b i x y.
            enlarged_log-Same (segment_at j + 16) (omega (arith, b, v.alloc_is)) i (omega arith) y)
          v.free_linked;
    major_linked =
        Linked-Same _ _ 0 s.info.used_segments
          (λ j a b i x y.
            enlarged_log-Same (segment_at j + 16) (omega (arith, b, v.alloc_is)) i (omega arith) y)
          v.major_linked;
    free_head =
        let kept =
          load_integer-Same 8 s.log enlarged.log 0 0 8 (enlarged_log-Same 8 (omega arith))
            (omega arith) (omega arith) in
        rw (← kept) v.free_head;
    major_head =
        let kept =
          load_integer-Same 8 s.log enlarged.log 8 0 16 (enlarged_log-Same 16 (omega arith))
            (omega arith) (omega arith) in
        rw (← kept) v.major_head;
  }

  enlarged-Keeps : Keeps s enlarged
  enlarged-Keeps = Keeps-where s enlarged refl refl refl (λ lo hi c i a b.
      enlarged_log-Same hi (omega (arith, c.below, c.used, v.alloc_is)) i (omega arith) b)

-- What `Enlarge` gives where the store has its shape.
pub record Enlarged (s t : LstStore) : Type 0 where
  pub shaped : IsShaped t
  pub keeps : Keeps s t
  pub is_completed : t.thread_status ≡ completed
  pub same_info : t.info ≡ s.info
  pub same_free : t.free_list ≡ s.free_list

pub enlarge-Enlarged :
    (s : LstStore) → IsShaped s → (t : LstStore) × (enlarge s ≡ some t) × Enlarged s t
unfolding enlarge
enlarge-Enlarged s v = elim (Bool-cases (new_segments s.info == 0)) [
  | inl t ↦
      let z : new_segments s.info ≡ 0 = ground (arith, t) in
      (
        record s { sync_segments = 0; thread_status = completed },
        rw (enlarge, t) refl,
        record {
          shaped = record {
            alloc_is = v.alloc_is;
            in_max = v.in_max;
            small = v.small;
            free_is = v.free_is;
            major_is = v.major_is;
            current_is = v.current_is;
            last_free_is = v.last_free_is;
            offset_above = v.offset_above;
            offset_below = v.offset_below;
            sync_count = λ c. sym z;
            sync_is = λ c n. absurd (omega (arith, n, z));
            sync_linked = λ c n. absurd (omega (arith, n, z));
            free_linked = v.free_linked;
            major_linked = v.major_linked;
            free_head = v.free_head;
            major_head = v.major_head;
          };
          keeps = Keeps-where s _ refl refl refl (λ lo hi c i a b. refl);
          is_completed = refl;
          same_info = refl;
          same_free = refl;
        },
      )
  | inr t ↦
      let more : 0 < new_segments s.info = ground (arith, t) in
      (
        enlarged s v more,
        enlarge-enlarged s v more,
        record {
          shaped = enlarged-IsShaped s v more;
          keeps = enlarged-Keeps s v more;
          is_completed = refl;
          same_info = refl;
          same_free = refl;
        },
      )
]
