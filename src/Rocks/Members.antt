-- ===== src/Rocks/Members.antt =====
-- Which versions the scan of `LatestVersionUpdater::Merge` (src/worker/rocks_head_version.cc)
-- keeps.
use forkbase.Base.{
  ◌≡◌, Bool, true, false, not, ◌&&◌, List, [], ◌∷◌, Bytes, ◌=?◌, bytes_eq, All, arith, Bool-cases,
  inl, inr,
}
use forkbase.Rocks.{member}
use forkbase.Rocks.Kept.{kept, IsVersion}

-- No version is there twice.
abbrev pub IsDistinct : List Bytes → Type 0
IsDistinct [] = Unit
IsDistinct (v ∷ vs) = (member v vs ≡ false) × IsDistinct vs

module _ (ver prev1 prev2 : Bytes) where
  pub member-kept :
      (w : Bytes) (found1 found2 : Bool) (vs : List Bytes)
      → IsDistinct vs
      → member w (kept found1 found2 ver prev1 prev2 vs) ≡ (
          not (ver =? w)
          && (not (not found1 && prev1 =? w) && (not (not found2 && prev2 =? w) && member w vs)))
  unfolding member kept
  member-kept w f g [] d = ground arith
  member-kept w f g (v ∷ vs) (d, ds) = elim (Bool-cases (not f && v =? prev1)) [
    | inl e ↦
        rw (e, kept)
          (ground (
            arith,
            e,
            member-kept w true g vs ds,
            bytes_eq.beq_iff v w,
            bytes_eq.beq_iff v prev1,
            bytes_eq.beq_iff prev1 w,
          ))
    | inr e ↦
        rw (e, kept)
          (elim (Bool-cases (not g && v =? prev2)) [
            | inl h ↦
                rw (h, kept)
                  (ground (
                    arith,
                    e,
                    h,
                    member-kept w f true vs ds,
                    bytes_eq.beq_iff v w,
                    bytes_eq.beq_iff v prev2,
                    bytes_eq.beq_iff prev2 w,
                  ))
            | inr h ↦
                rw (h, kept)
                  (ground (
                    arith,
                    e,
                    h,
                    member-kept w f g vs ds,
                    bytes_eq.beq_iff v w,
                    bytes_eq.beq_iff v ver,
                    bytes_eq.beq_iff ver w,
                    bytes_eq.beq_iff v prev1,
                    bytes_eq.beq_iff v prev2,
                    bytes_eq.beq_iff prev1 w,
                    bytes_eq.beq_iff prev2 w,
                  ))
          ])
  ]

  pub All-kept :
      (found1 found2 : Bool) (vs : List Bytes)
      → All IsVersion vs
      → All IsVersion (kept found1 found2 ver prev1 prev2 vs)
  unfolding kept
  All-kept f g [] d = tt
  All-kept f g (v ∷ vs) (d, ds) =
      ground (arith, All-kept true g vs ds, All-kept f true vs ds, All-kept f g vs ds)

  pub Distinct-kept :
      (found1 found2 : Bool) (vs : List Bytes)
      → IsDistinct vs
      → IsDistinct (kept found1 found2 ver prev1 prev2 vs)
  unfolding kept
  Distinct-kept f g [] d = tt
  Distinct-kept f g (v ∷ vs) (d, ds) = ground (
    arith,
    Distinct-kept true g vs ds,
    Distinct-kept f true vs ds,
    Distinct-kept f g vs ds,
    member-kept v f g vs ds,
  )
