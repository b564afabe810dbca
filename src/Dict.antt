-- ===== src/Dict.antt =====
-- The standard containers that the tables use, as association lists. `insert` is `operator[] =`:
-- it overwrites the entry under the key or adds one. A sorted dictionary stands for `std::map`
-- (module `Sorted` has its order); an unsorted reading, by `lookup` alone, for `std::unordered_map`.
pub mod Sorted
use forkbase.Base.{
  ℕ, ◌≡◌, refl, Bool, true, false, Option, none, some, List, [], ◌∷◌, map, arith, Eq, ◌=?◌,
  if◌then◌else◌, not, Option-cases, inl, inr,
}

abbrev pub Dict {ℓ κ} : Type ℓ → Type κ → Type (ℓ ⊔ κ)
Dict K V = List (K × V)

module _ {ℓ κ} {K : Type ℓ} {V : Type κ} ⦃e : Eq K⦄ where
  -- `find`, with `end()` as `none`
  unfoldable pub lookup : K → Dict K V → Option V
  lookup k [] = none
  lookup k ((j, v) ∷ d) = if j =? k then some v else lookup k d

  -- `erase(key)`
  unfoldable pub remove : K → Dict K V → Dict K V
  remove k [] = []
  remove k ((j, v) ∷ d) = let rest = remove k d in if j =? k then rest else (j, v) ∷ rest

  -- An entry goes before the first key that comes after it in the order `before`.
  unfoldable pub insert : (K → K → Bool) → K → V → Dict K V → Dict K V
  insert before k v [] = (k, v) ∷ []
  insert before k v ((j, w) ∷ d) =
      let rest = insert before k v d in
      if j =? k then (k, v) ∷ d else if before k j then (k, v) ∷ (j, w) ∷ d else (j, w) ∷ rest

  -- `emplace`: an entry that is there stays
  unfoldable pub emplace : (K → K → Bool) → K → V → Dict K V → Dict K V
  emplace before k v d = elim (lookup k d) [ none ↦ insert before k v d | some _ ↦ d ]

  pub emplace-absent :
      (before : K → K → Bool) (k : K) (v : V) (d : Dict K V)
      → lookup k d ≡ none
      → emplace before k v d ≡ insert before k v d
  unfolding emplace
  emplace-absent before k v d h = rw (h, emplace)

  pub lookup-remove :
      (k j : K) (d : Dict K V) → lookup j (remove k d) ≡ (if k =? j then none else lookup j d)
  unfolding lookup remove
  lookup-remove k j [] = ground arith
  lookup-remove k j ((i, v) ∷ d) =
      ground (arith, lookup-remove k j d, e.beq_iff i k, e.beq_iff i j, e.beq_iff k j)

  pub lookup-insert :
      (before : K → K → Bool) (k j : K) (v : V) (d : Dict K V)
      → lookup j (insert before k v d) ≡ (if k =? j then some v else lookup j d)
  unfolding lookup insert
  lookup-insert before k j v [] = refl
  lookup-insert before k j v ((i, w) ∷ d) =
      ground (arith, lookup-insert before k j v d, e.beq_iff i k, e.beq_iff i j, e.beq_iff k j)

  pub lookup-emplace :
      (before : K → K → Bool) (k j : K) (v : V) (d : Dict K V)
      → lookup j (emplace before k v d)
        ≡ (if k =? j then elim (lookup j d) [ none ↦ some v | some w ↦ some w ] else lookup j d)
  unfolding emplace
  lookup-emplace before k j v d = elim (Option-cases (lookup k d)) [
    | inl p ↦
        rw (emplace-absent before k v d p, lookup-insert) (ground (arith, p, (e.beq_iff k j).0))
    | inr (w, p) ↦ rw (p, emplace) (ground (arith, p, (e.beq_iff k j).0))
  ]
