-- ===== src/LstStore/Shape.antt =====
-- The shape of an `LSTStore` (src/store/lst_store.cc): which segments its lists hold and how the log
-- links them, and which addresses of the log hold chunks for good.
use forkbase.Base.{
  ℕ, zero, suc, ◌+◌, ◌-◌, ◌*◌, ◌≤◌, ◌<◌, ◌^◌, ◌≡◌, refl, Option, none, some, arith, ltb, Bool-cases,
  inl, inr,
}
use forkbase.Mmap.{Same, load_integer, Same-trans}
use forkbase.LstStore.{
  LstStore, StoreInfo, completed, segment_size, segment_at, head_or_null, new_segments, add_size,
  sub_size, segment_increment,
}
use forkbase.LstStore.Links.{segments_from, Linked}

abbrev pub last_segment : ℕ → Option ℕ
last_segment zero = none
last_segment (suc n) = some (segment_at n)

-- The segments that are used come first in the log, then those that are free, then those that a
-- finished `Enlarge` has made and no `UpdateStore` has taken yet.
pub record IsShaped (s : LstStore) : Type 0 where
  pub alloc_is : s.info.alloc_segments ≡ s.info.used_segments + s.info.free_segments
  pub in_max : s.info.alloc_segments ≤ s.info.max_segments
  pub small : s.info.max_segments < 2 ^ 31
  pub free_is : s.free_list ≡ segments_from s.info.free_segments s.info.used_segments
  pub major_is : s.major_list ≡ segments_from s.info.used_segments 0
  pub current_is : s.current_major_segment ≡ last_segment s.info.used_segments
  pub last_free_is :
      0 < s.info.free_segments → s.last_free_segment ≡ segment_at (s.info.alloc_segments - 1)
  pub offset_above : 0 < s.info.used_segments → 16 ≤ s.major_segment_offset
  pub offset_below : 0 < s.info.used_segments → s.major_segment_offset + 25 ≤ segment_size
  pub sync_count : s.thread_status ≡ completed → s.sync_segments ≡ new_segments s.info
  pub sync_is :
      s.thread_status ≡ completed
      → 0 < new_segments s.info
      → s.sync_list ≡ segments_from (new_segments s.info) s.info.alloc_segments
  pub sync_linked :
      s.thread_status ≡ completed
      → 0 < new_segments s.info
      → Linked s.log s.info.alloc_segments (new_segments s.info)
  pub free_linked : Linked s.log s.info.used_segments s.info.free_segments
  pub major_linked : Linked s.log 0 s.info.used_segments
  pub free_head : load_integer 8 s.log 0 ≡ head_or_null s.free_list
  pub major_head : load_integer 8 s.log 8 ≡ head_or_null s.major_list

pub new_segments-fit :
    (info : StoreInfo)
    → info.alloc_segments ≤ info.max_segments
    → info.max_segments < 2 ^ 31
    → (info.alloc_segments + new_segments info ≤ info.max_segments)
      × (new_segments info ≤ 32)
      × (new_segments info ≡ 0 → info.alloc_segments ≡ info.max_segments)
unfolding new_segments
new_segments-fit info a b =
    elim (Bool-cases
      (ltb info.max_segments (add_size info.alloc_segments (segment_increment * 2)))) [
        | inl t ↦
            let lt : info.max_segments < info.alloc_segments + 32 = ground (arith, t, a, b) in
            let e : sub_size info.max_segments info.alloc_segments
                ≡ info.max_segments - info.alloc_segments =
              omega (arith, a, b) in
            rw (t, e) (omega (arith, a), omega (arith, lt), λ z. omega (arith, z, a))
        | inr t ↦
            let le : info.alloc_segments + 32 ≤ info.max_segments = ground (arith, t, a, b) in
            rw t (omega (arith, le), omega arith, λ z. absurd (omega (arith, z)))
      ]

-- Addresses that hold chunks with their hashes: in a used segment behind its links, and before the
-- offset in the current one. The last 25 bytes of a segment are never among them.
pub record Covered (s : LstStore) (lo hi : ℕ) : Type 0 where
  pub number : ℕ
  pub used : number < s.info.used_segments
  pub above : segment_at number + 16 ≤ lo
  pub below : hi + 25 ≤ segment_at number + segment_size
  pub before : suc number ≡ s.info.used_segments → hi ≤ segment_at number + s.major_segment_offset

-- What an operation that writes no chunk leaves as it is.
pub record Keeps (s t : LstStore) : Type 0 where
  pub map : t.chunk_map ≡ s.chunk_map
  pub same : (lo hi : ℕ) → Covered s lo hi → Same s.log t.log lo hi
  pub covered : (lo hi : ℕ) → Covered s lo hi → Covered t lo hi

pub Keeps-trans : (s t u : LstStore) → Keeps s t → Keeps t u → Keeps s u
Keeps-trans s t u k l = record {
  map = rw (l.map, k.map) refl;
  same = λ lo hi c.
      Same-trans s.log t.log u.log lo hi (k.same lo hi c) (l.same lo hi (k.covered lo hi c));
  covered = λ lo hi c. l.covered lo hi (k.covered lo hi c);
}

pub Keeps-refl : (s : LstStore) → Keeps s s
Keeps-refl s = record { map = refl; same = λ lo hi c i a b. refl; covered = λ lo hi c. c }

-- A change that moves neither the used segments nor the offset covers what was covered.
pub Keeps-where :
    (s t : LstStore)
    → t.chunk_map ≡ s.chunk_map
    → t.info.used_segments ≡ s.info.used_segments
    → t.major_segment_offset ≡ s.major_segment_offset
    → ((lo hi : ℕ) → Covered s lo hi → Same s.log t.log lo hi)
    → Keeps s t
Keeps-where s t m u o k = record {
  map = m;
  same = k;
  covered = λ lo hi c. record {
    number = c.number;
    used = rw u c.used;
    above = c.above;
    below = c.below;
    before = rw (u, o) c.before;
  };
}
