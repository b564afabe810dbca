-- ===== src/Dict/Sorted.antt =====
-- `std::map` keyed by slices: dictionaries with their keys in order.
use forkbase.Base.{
  ◌≡◌, true, false, [], ◌∷◌, ◌=?◌, bytes_eq, bytes_beq-eq, bytes_of_eq, Bool-cases, inl, inr,
}
use mathlib.Core.Path.{subst}
use forkbase.Slice.{Slice, lt}
use forkbase.Slice.Order.{lt_total, lt_trans}
use forkbase.Dict.{Dict, remove, insert}

-- All the keys come after `k`.
abbrev pub After {κ} : {V : Type κ} → Slice → Dict Slice V → Type 0
After k [] = Unit
After k ((j, v) ∷ d) = (lt k j ≡ true) × After k d

abbrev pub IsSorted {κ} : {V : Type κ} → Dict Slice V → Type 0
IsSorted [] = Unit
IsSorted ((k, v) ∷ d) = After k d × IsSorted d

lt_of_after : (j k : Slice) → (j =? k) ≡ false → lt k j ≡ false → lt j k ≡ true
lt_of_after j k p q = elim (Bool-cases (lt j k)) [
  | inl r ↦ r
  | inr r ↦ let f = bytes_of_eq j k (lt_total j k r q) in cc
]

module _ {κ} {V : Type κ} where
  After-trans : (i k : Slice) (d : Dict Slice V) → lt i k ≡ true → After k d → After i d
  After-trans i k [] h a = tt
  After-trans i k ((j, v) ∷ d) h a = (lt_trans i k j h a.0, After-trans i k d h a.1)

  After-remove : (i k : Slice) (d : Dict Slice V) → After i d → After i (remove k d)
  unfolding remove
  After-remove i k [] h = tt
  After-remove i k ((j, v) ∷ d) h = elim (Bool-cases (j =? k)) [
    | inl p ↦ rw p (After-remove i k d h.1)
    | inr p ↦ rw p (h.0, After-remove i k d h.1)
  ]

  After-insert :
      (i k : Slice) (v : V) (d : Dict Slice V)
      → lt i k ≡ true
      → After i d
      → After i (insert lt k v d)
  unfolding insert
  After-insert i k v [] h a = (h, tt)
  After-insert i k v ((j, w) ∷ d) h a = elim (Bool-cases (j =? k)) [
    | inl p ↦ rw p (h, a.1)
    | inr p ↦ elim (Bool-cases (lt k j)) [
      | inl q ↦ rw (p, q) (h, a)
      | inr q ↦ rw (p, q) (a.0, After-insert i k v d h a.1)
    ]
  ]

  pub IsSorted-remove : (k : Slice) (d : Dict Slice V) → IsSorted d → IsSorted (remove k d)
  unfolding remove
  IsSorted-remove k [] h = tt
  IsSorted-remove k ((j, v) ∷ d) h = elim (Bool-cases (j =? k)) [
    | inl p ↦ rw p (IsSorted-remove k d h.1)
    | inr p ↦ rw p (After-remove j k d h.0, IsSorted-remove k d h.1)
  ]

  pub IsSorted-insert :
      (k : Slice) (v : V) (d : Dict Slice V) → IsSorted d → IsSorted (insert lt k v d)
  unfolding insert
  IsSorted-insert k v [] h = (tt, tt)
  IsSorted-insert k v ((j, w) ∷ d) h = elim (Bool-cases (j =? k)) [
    | inl p ↦ rw p (subst (λ i. After i d) (bytes_beq-eq j k p) h.0, h.1)
    | inr p ↦ elim (Bool-cases (lt k j)) [
      | inl q ↦ rw (p, q) ((q, After-trans k j d q h.0), h)
      | inr q ↦
          rw (p, q) (After-insert j k v d (lt_of_after j k p q) h.0, IsSorted-insert k v d h.1)
    ]
  ]
