-- ===== src/Node/IndexRange.antt =====
-- `IndexRange` (include/node/cursor.h, src/node/cursor.cc): runs of indices, and `Compact`, which
-- joins runs that touch. `none` is a failed check. Sums are of 64 bits.
use forkbase.Base.{
  ℕ, ◌+◌, ◌%◌, ◌^◌, ◌≤◌, ◌<◌, ◌≡◌, refl, Bool, true, false, ◌&&◌, ◌||◌, Option, none, some, List,
  [], ◌∷◌, ltb, leb, ◌==◌, if◌then◌else◌, arith, Bool-cases, inl, inr,
}

pub record IndexRange : Type 0 where
  pub start_idx : ℕ
  pub num_subsequent : ℕ

-- `start_idx + num_subsequent`
abbrev pub upper : IndexRange → ℕ
upper r = (r.start_idx + r.num_subsequent) % 2 ^ 64

-- `curr_cr.num_subsequent += ...`
abbrev pub extend : IndexRange → IndexRange → IndexRange
extend curr r = record curr { num_subsequent = (curr.num_subsequent + r.num_subsequent) % 2 ^ 64 }

-- The loop, with the current range and the upper bound of the range before.
unfoldable pub compact_from : IndexRange → ℕ → List IndexRange → Option (List IndexRange)
compact_from curr pre_upper [] = some (curr ∷ [])
compact_from curr pre_upper (r ∷ rs) =
    let joined = compact_from (extend curr r) (upper r) rs in
    let apart = compact_from r (upper r) rs in
    if r.num_subsequent == 0
    then none
    else if ltb pre_upper r.start_idx
    then elim apart [ none ↦ none | some result ↦ some (curr ∷ result) ]
    else if pre_upper == r.start_idx
    then joined
    else none

unfoldable pub compact : List IndexRange → Option (List IndexRange)
unfolding compact_from
compact [] = some []
compact (r ∷ rs) = compact_from r (upper r) rs

-- The ranges with those that they are mapped to, side by side.
unfoldable pub compact_maps_from :
    IndexRange
    → IndexRange
    → List (IndexRange × IndexRange)
    → Option (List (IndexRange × IndexRange))
compact_maps_from lhs rhs [] = some ((lhs, rhs) ∷ [])
compact_maps_from lhs rhs ((l, r) ∷ ms) =
    let joined = compact_maps_from (extend lhs l) (extend rhs r) ms in
    let apart = compact_maps_from l r ms in
    if ltb (upper lhs) l.start_idx || ltb (upper rhs) r.start_idx
    then elim apart [ none ↦ none | some result ↦ some ((lhs, rhs) ∷ result) ]
    else if (upper lhs == l.start_idx) && (upper rhs == r.start_idx)
    then joined
    else none

unfoldable pub compact_maps :
    List (IndexRange × IndexRange) → Option (List (IndexRange × IndexRange))
unfolding compact_maps_from
compact_maps [] = some []
compact_maps ((l, r) ∷ ms) = compact_maps_from l r ms

-- Ranges in order from `bound` on, none of them empty, below 2 ^ 64.
abbrev pub IsAscending : ℕ → List IndexRange → Type 0
IsAscending bound [] = Unit
IsAscending bound (r ∷ rs) =
    (bound ≤ r.start_idx)
    × (0 < r.num_subsequent)
    × (r.start_idx + r.num_subsequent < 2 ^ 64)
    × IsAscending (r.start_idx + r.num_subsequent) rs

-- Ranges with a gap before each, from `bound` on.
abbrev pub IsApart : ℕ → List IndexRange → Type 0
IsApart bound [] = Unit
IsApart bound (r ∷ rs) = (bound < r.start_idx) × IsApart (r.start_idx + r.num_subsequent) rs

-- No two ranges of the list can be joined.
abbrev pub IsCompact : List IndexRange → Type 0
IsCompact [] = Unit
IsCompact (r ∷ rs) = IsApart (r.start_idx + r.num_subsequent) rs

-- Whether an index lies in one of the ranges.
abbrev pub covers : ℕ → List IndexRange → Bool
covers i [] = false
covers i (r ∷ rs) = (leb r.start_idx i && ltb i (r.start_idx + r.num_subsequent)) || covers i rs

covers-extend :
    (curr r : IndexRange) (rs : List IndexRange) (i : ℕ)
    → curr.start_idx + curr.num_subsequent ≡ r.start_idx
    → (extend curr r).num_subsequent ≡ curr.num_subsequent + r.num_subsequent
    → covers i (extend curr r ∷ rs) ≡ covers i (curr ∷ (r ∷ rs))
covers-extend curr r rs i touch size = rw (size, ← touch) (ground arith)

-- The numbers behind the branches of a round.
record Round (r : IndexRange) : Type 0 where
  upper_is : upper r ≡ r.start_idx + r.num_subsequent
  filled : (r.num_subsequent == 0) ≡ false

round : (r : IndexRange) → 0 < r.num_subsequent → r.start_idx + r.num_subsequent < 2 ^ 64 → Round r
round r pos fits = record { upper_is = omega (arith, fits); filled = ground (arith, pos) }

compact_from-IsCompact :
    (rs : List IndexRange) (curr : IndexRange)
    → curr.start_idx + curr.num_subsequent < 2 ^ 64
    → IsAscending (curr.start_idx + curr.num_subsequent) rs
    → (h : IndexRange) × (t : List IndexRange) × (compact_from curr
          (curr.start_idx + curr.num_subsequent)
          rs
        ≡ some (h ∷ t))
      × (h.start_idx ≡ curr.start_idx)
      × IsCompact (h ∷ t)
      × ((i : ℕ) → covers i (h ∷ t) ≡ covers i (curr ∷ rs))
unfolding compact_from
compact_from-IsCompact [] curr small a = (curr, [], refl, refl, tt, λ i. refl)
compact_from-IsCompact (r ∷ rs) curr small (le, pos, fits, a) =
    let k = round r pos fits in
    elim (Bool-cases (ltb (curr.start_idx + curr.num_subsequent) r.start_idx)) [
      | inl gap ↦
          let (h, t, e, same, c, covered) = compact_from-IsCompact rs r fits a in
          (
            curr,
            h ∷ t,
            rw (k.filled, gap, k.upper_is, e) refl,
            refl,
            (ground (arith, gap, same), c),
            λ i. rw covered refl,
          )
      | inr none_between ↦
          let touch : curr.start_idx + curr.num_subsequent ≡ r.start_idx =
            ground (arith, none_between, le) in
          let eq : (curr.start_idx + curr.num_subsequent == r.start_idx) ≡ true =
            ground (arith, touch) in
          let size : (extend curr r).num_subsequent ≡ curr.num_subsequent + r.num_subsequent =
            omega (arith, touch, fits) in
          let end : curr.start_idx + (extend curr r).num_subsequent
              ≡ r.start_idx + r.num_subsequent =
            omega (arith, touch, size) in
          let (h, t, e, same, c, covered) =
            compact_from-IsCompact rs (extend curr r) (omega (arith, end, fits)) (rw end a) in
          (
            h,
            t,
            rw (k.filled, none_between, eq, k.upper_is) (rw end at e),
            same,
            c,
            λ i. rw (covered i) (covers-extend curr r rs i touch size),
          )
    ]

-- `Compact` of ranges in order, none of them empty and all below 2 ^ 64, fails at no check. The
-- ranges that it returns cover the same indices, with a gap between any two neighbours.
pub compact-IsCompact :
    (ranges : List IndexRange)
    → IsAscending 0 ranges
    → (result : List IndexRange) × (compact ranges ≡ some result)
      × IsCompact result
      × ((i : ℕ) → covers i result ≡ covers i ranges)
unfolding compact
compact-IsCompact [] a = ([], refl, tt, λ i. refl)
compact-IsCompact (r ∷ rs) (le, pos, fits, a) =
    let k = round r pos fits in
    let (h, t, e, same, c, covered) = compact_from-IsCompact rs r fits a in
    (h ∷ t, rw k.upper_is e, c, covered)
