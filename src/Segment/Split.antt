-- ===== src/Segment/Split.antt =====
-- The two parts of a split segment (src/chunk/segment.cc).
use forkbase.Base.{
  ℕ, ◌+◌, ◌-◌, ◌≤◌, ◌<◌, ◌≡◌, refl, some, [], ◌++◌, drop, arith, take-take-drop, Option-cases, inl,
  inr, length-take, length-drop, length-map, get_elem?-length, get_elem?-length',
}
use mathlib.Core.List.{append-nil}
use forkbase.Segment.{VarSegment, append_for_chunk, num_entries, split, offset_at}
use forkbase.Segment.Entries.{
  end_at-none, end_at-some, IsSegment, SameEntry, before, behind, SameEntry-before,
  SameEntry-behind, SameEntry-empty,
}

-- What the two parts of a segment that was split at an index are.
pub record Parts (s a b : VarSegment) (idx : ℕ) : Type 0 where
  pub bytes_are : append_for_chunk a ++ append_for_chunk b ≡ append_for_chunk s
  pub first_count : num_entries a ≡ idx
  pub count : num_entries a + num_entries b ≡ num_entries s
  pub first_entries : (k : ℕ) → k < idx → SameEntry a s k k
  pub other_entries : (k : ℕ) → SameEntry b s k (idx + k)

-- A segment with entries is split at every index up to their number: the bytes of the two parts,
-- one after the other, are its bytes, and together they have as many entries, the first of them
-- as many as the index says. The entries of the first part are those before the index, and those
-- of the second the ones from the index on: each begins at the same bytes and has as many of them.
pub split-Parts :
    (s : VarSegment) (idx : ℕ)
    → IsSegment s
    → idx ≤ num_entries s
    → (a b : VarSegment) × (split s idx ≡ some (a, b)) × Parts s a b idx
unfolding split append_for_chunk
split-Parts s idx v h =
    let n = get_elem?-length' 0 s.entry_offsets 0 v.first in
    elim (Option-cases (offset_at s idx)) [
      | inl e ↦
          let k = get_elem?-length idx s.entry_offsets e in
          (
            before s idx s.num_bytes h (end_at-none s idx e),
            record { data' = []; num_bytes = 0; entry_offsets = [] },
            ground (arith, v.first),
            record {
              bytes_are = rw append-nil refl;
              first_count = omega (arith, length-take idx s.entry_offsets);
              count = omega (arith, length-take idx s.entry_offsets);
              first_entries = SameEntry-before s idx s.num_bytes h (end_at-none s idx e);
              other_entries = SameEntry-empty s idx e;
            },
          )
      | inr (offset, e) ↦ (
        before s idx offset h (end_at-some s idx offset e),
        behind s idx offset v e,
        ground (arith, v.first),
        record {
          bytes_are = take-take-drop offset s.num_bytes s.data' (v.inside idx offset e);
          first_count = omega (arith, length-take idx s.entry_offsets);
          count = omega (
            arith,
            length-take idx s.entry_offsets,
            length-map (λ o. o - offset) (drop idx s.entry_offsets),
            length-drop idx s.entry_offsets,
          );
          first_entries = SameEntry-before s idx offset h (end_at-some s idx offset e);
          other_entries = SameEntry-behind s idx offset v e;
        },
      )
    ]
