-- ===== src/Segment/Entries.antt =====
-- The entries of the parts of a segment (src/chunk/segment.cc).
use forkbase.Base.{
  ℕ, suc, ◌+◌, ◌-◌, ◌≤◌, ◌<◌, ◌≡◌, refl, ap, ◌∙◌, sym, none, some, [], map, take, drop, arith,
  drop-add, Option-cases, inl, inr, get_elem?-drop, get_elem?-take, get_elem?-take_end,
  get_elem?-map, get_elem?-length, get_elem?-length', ltb, Bool-cases,
}
use forkbase.Segment.{VarSegment, num_entries, offset_at, entry, entry_num_bytes}

-- The entries of a segment begin at its beginning, lie in it and follow each other.
pub record IsSegment (s : VarSegment) : Type 0 where
  pub first : offset_at s 0 ≡ some 0
  pub inside : (idx offset : ℕ) → offset_at s idx ≡ some offset → offset ≤ s.num_bytes
  pub in_order :
      (i j o next : ℕ) → i ≤ j → offset_at s i ≡ some o → offset_at s j ≡ some next → o ≤ next

-- Where the entry before this index ends.
unfoldable pub end_at : VarSegment → ℕ → ℕ
end_at s idx = elim (offset_at s idx) [ none ↦ s.num_bytes | some o ↦ o ]

pub end_at-none : (s : VarSegment) (k : ℕ) → offset_at s k ≡ none → end_at s k ≡ s.num_bytes
unfolding end_at
end_at-none s k e = rw (e, end_at) refl

pub end_at-some : (s : VarSegment) (k o : ℕ) → offset_at s k ≡ some o → end_at s k ≡ o
unfolding end_at
end_at-some s k o e = rw (e, end_at) refl

entry-at : (s : VarSegment) (k o : ℕ) → offset_at s k ≡ some o → entry s k ≡ some (drop o s.data')
unfolding entry
entry-at s k o e = rw (e, entry) refl

entry-none : (s : VarSegment) (k : ℕ) → offset_at s k ≡ none → entry s k ≡ none
unfolding entry
entry-none s k e = rw (e, entry) refl

size-at :
    (s : VarSegment) (k o : ℕ)
    → offset_at s k ≡ some o
    → entry_num_bytes s k ≡ some (end_at s (suc k) - o)
unfolding entry_num_bytes
size-at s k o e = elim (Option-cases (offset_at s (suc k))) [
  | inl x ↦ rw (e, x, entry_num_bytes, end_at-none s (suc k) x) refl
  | inr (next, x) ↦ rw (e, x, entry_num_bytes, end_at-some s (suc k) next x) refl
]

size-none : (s : VarSegment) (k : ℕ) → offset_at s k ≡ none → entry_num_bytes s k ≡ none
unfolding entry_num_bytes
size-none s k e = rw (e, entry_num_bytes) refl

-- An entry of one segment is one of the other: the same bytes on, and as many of them.
pub record SameEntry (s t : VarSegment) (j k : ℕ) : Type 0 where
  pub same_bytes : entry s j ≡ entry t k
  pub same_size : entry_num_bytes s j ≡ entry_num_bytes t k

-- What comes before an index, with the end of the last entry as its size.
module _ (s : VarSegment) (idx stop : ℕ) (few : idx ≤ num_entries s)
    (ends : end_at s idx ≡ stop) where
  abbrev pub before : VarSegment
  before = record { data' = s.data'; num_bytes = stop; entry_offsets = take idx s.entry_offsets }

  end_at-before : (k : ℕ) → k < idx → end_at before (suc k) ≡ end_at s (suc k)
  end_at-before k h = elim (Bool-cases (ltb (suc k) idx)) [
    | inl t ↦
        let same = get_elem?-take idx (suc k) s.entry_offsets (ground (arith, t)) in
        elim (Option-cases (offset_at s (suc k))) [
          | inl e ↦
              absurd
                (let n = get_elem?-length (suc k) s.entry_offsets e in ground (arith, t, n, few))
          | inr (o, e) ↦ end_at-some before (suc k) o (same ∙ e) ∙ sym (end_at-some s (suc k) o e)
        ]
    | inr t ↦
        let last : suc k ≡ idx = ground (arith, t, h) in
        rw last (end_at-none before idx (get_elem?-take_end idx s.entry_offsets) ∙ sym ends)
  ]

  pub SameEntry-before : (k : ℕ) → k < idx → SameEntry before s k k
  SameEntry-before k h =
      let same = get_elem?-take idx k s.entry_offsets h in
      elim (Option-cases (offset_at s k)) [
        | inl e ↦ record {
          same_bytes = entry-none before k (same ∙ e) ∙ sym (entry-none s k e);
          same_size = size-none before k (same ∙ e) ∙ sym (size-none s k e);
        }
        | inr (o, e) ↦ record {
          same_bytes = entry-at before k o (same ∙ e) ∙ sym (entry-at s k o e);
          same_size =
              size-at before k o (same ∙ e)
              ∙ ap (λ n. some (n - o)) (end_at-before k h)
              ∙ sym (size-at s k o e);
        }
      ]

-- What comes from an index on.
module _ (s : VarSegment) (idx offset : ℕ) (v : IsSegment s)
    (at : offset_at s idx ≡ some offset) where
  abbrev pub behind : VarSegment
  behind = record {
    data' = drop offset s.data';
    num_bytes = s.num_bytes - offset;
    entry_offsets = map (λ o. o - offset) (drop idx s.entry_offsets);
  }

  offset_at-behind :
      (k : ℕ)
      → offset_at behind k
        ≡ elim (offset_at s (idx + k)) [ none ↦ none | some o ↦ some (o - offset) ]
  offset_at-behind k =
      get_elem?-map (λ o. o - offset) k (drop idx s.entry_offsets)
      ∙ rw (get_elem?-drop idx k s.entry_offsets) refl

  end_at-behind : (k : ℕ) → end_at behind k ≡ end_at s (idx + k) - offset
  end_at-behind k = elim (Option-cases (offset_at s (idx + k))) [
    | inl e ↦
        end_at-none behind k (rw (offset_at-behind k, e) refl)
        ∙ ap (λ n. n - offset) (sym (end_at-none s (idx + k) e))
    | inr (o, e) ↦
        end_at-some behind k (o - offset) (rw (offset_at-behind k, e) refl)
        ∙ ap (λ n. n - offset) (sym (end_at-some s (idx + k) o e))
  ]

  pub SameEntry-behind : (k : ℕ) → SameEntry behind s k (idx + k)
  SameEntry-behind k = elim (Option-cases (offset_at s (idx + k))) [
    | inl e ↦
        let e' : offset_at behind k ≡ none = rw (offset_at-behind k, e) refl in
        record {
          same_bytes = entry-none behind k e' ∙ sym (entry-none s (idx + k) e);
          same_size = size-none behind k e' ∙ sym (size-none s (idx + k) e);
        }
    | inr (o, e) ↦
        let e' : offset_at behind k ≡ some (o - offset) = rw (offset_at-behind k, e) refl in
        let le = v.in_order idx (idx + k) offset o (omega arith) at e in
        let next : idx + suc k ≡ suc (idx + k) = omega arith in
        let ends : end_at behind (suc k) - (o - offset)
            ≡ end_at s (suc (idx + k)) - offset - (o - offset) =
          ap (λ n. n - (o - offset)) (end_at-behind (suc k) ∙ ap (λ n. end_at s n - offset) next) in
        record {
          same_bytes =
              entry-at behind k (o - offset) e'
              ∙ ap some (drop-add offset (o - offset) s.data')
              ∙ ap (λ n. some (drop n s.data')) (omega (arith, le))
              ∙ sym (entry-at s (idx + k) o e);
          same_size =
              size-at behind k (o - offset) e'
              ∙ ap some (ends ∙ omega (arith, le))
              ∙ sym (size-at s (idx + k) o e);
        }
  ]

-- Behind the last entry there is none, as in an empty segment.
pub SameEntry-empty :
    (s : VarSegment) (idx : ℕ)
    → offset_at s idx ≡ none
    → (k : ℕ) → SameEntry (record { data' = []; num_bytes = 0; entry_offsets = [] }) s k (idx + k)
SameEntry-empty s idx e k =
    let empty : VarSegment = record { data' = []; num_bytes = 0; entry_offsets = [] } in
    let none_there : offset_at s (idx + k) ≡ none = elim (Option-cases (offset_at s (idx + k))) [
      | inl x ↦ x
      | inr (o, x) ↦ absurd (
          let m = get_elem?-length idx s.entry_offsets e in
          let n = get_elem?-length' (idx + k) s.entry_offsets o x in omega (arith, m, n))
    ] in
    record {
      same_bytes = entry-none empty k refl ∙ sym (entry-none s (idx + k) none_there);
      same_size = size-none empty k refl ∙ sym (size-none s (idx + k) none_there);
    }
