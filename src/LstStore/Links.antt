-- ===== src/LstStore/Links.antt =====
-- The lists of segments that the log of an `LSTStore` links (src/store/lst_store.cc): segments that
-- follow one another in the log, each with the address of the next one.
use forkbase.Base.{
  ℕ, zero, suc, ◌+◌, ◌-◌, ◌≤◌, ◌<◌, ◌^◌, ◌≡◌, refl, ap, inl, inr, some, List, [], ◌∷◌, ◌++◌, arith,
  length, le_bytes, ltb, ◌==◌, Bool-cases, if◌then◌else◌, true, false,
}
use forkbase.Mmap.{
  Memory, Same, store_bytes, load_integer, load_integer-Same, store_bytes-Same, Same-trans,
  load_integer-store_second,
}
use forkbase.LstStore.{segment_at, last_or_null, link_segment_list, init_segments}

abbrev pub segments_from : ℕ → ℕ → List ℕ
segments_from zero i = []
segments_from (suc n) i = segment_at i ∷ segments_from n (suc i)

abbrev pub next_at : Memory → ℕ → ℕ
next_at m i = load_integer 8 m (segment_at i + 8)

-- Segment `i` and the `n - 1` after it are linked.
abbrev pub Linked : Memory → ℕ → ℕ → Type 0
Linked m i n =
    (j : ℕ) → i ≤ j → j < i + n → next_at m j ≡ (if suc j == i + n then 0 else segment_at (suc j))

pub length-segments_from : (n i : ℕ) → length (segments_from n i) ≡ n
length-segments_from zero i = refl
length-segments_from (suc n) i = ap suc (length-segments_from n (suc i))

pub segments_from-append :
    (a b i : ℕ) → segments_from a i ++ segments_from b (i + a) ≡ segments_from (a + b) i
segments_from-append zero b i =
    let z : i + 0 ≡ i = omega arith in let y : 0 + b ≡ b = omega arith in rw (z, y) refl
segments_from-append (suc a) b i =
    let z : i + suc a ≡ suc i + a = omega arith in
    let y : suc a + b ≡ suc (a + b) = omega arith in
    rw (z, y) (ap (λ t. segment_at i ∷ t) (segments_from-append a b (suc i)))

pub last_or_null-segments_from :
    (n i : ℕ) → last_or_null (segments_from (suc n) i) ≡ segment_at (i + n)
last_or_null-segments_from zero i = let z : i + 0 ≡ i = omega arith in rw z refl
last_or_null-segments_from (suc n) i =
    let z : i + suc n ≡ suc i + n = omega arith in rw z (last_or_null-segments_from n (suc i))

pub link_segment_list-nothing : (fuel : ℕ) (m : Memory) → link_segment_list fuel m 0 ≡ some []
unfolding link_segment_list
link_segment_list-nothing zero m = refl
link_segment_list-nothing (suc fuel) m = refl

link_segment_list-suc :
    (n fuel i : ℕ) (m : Memory)
    → suc n ≤ fuel
    → Linked m i (suc n)
    → link_segment_list fuel m (segment_at i) ≡ some (segments_from (suc n) i)
unfolding link_segment_list
link_segment_list-suc n zero i m h l = absurd (omega arith)
link_segment_list-suc zero (suc fuel) i m h l =
    let z : (segment_at i == 0) ≡ false = ground arith in
    let e : (suc i == i + 1) ≡ true = ground arith in
    let x : next_at m i ≡ 0 = let f = l i (omega arith) (omega arith) in rw e at f in
    rw (z, x, link_segment_list-nothing fuel m) refl
link_segment_list-suc (suc n) (suc fuel) i m h l =
    let z : (segment_at i == 0) ≡ false = ground arith in
    let e : (suc i == i + suc (suc n)) ≡ false = ground arith in
    let x : next_at m i ≡ segment_at (suc i) =
      let f = l i (omega arith) (omega arith) in rw e at f in
    let d : suc i + suc n ≡ i + suc (suc n) = omega arith in
    let rest : Linked m (suc i) (suc n) = rw d (λ j a b. l j (omega arith) b) in
    rw (z, x, link_segment_list-suc n fuel (suc i) m (omega arith) rest) refl

-- The links lead through the segments, if there is fuel for each.
pub link_segment_list-Linked :
    (n fuel i : ℕ) (m : Memory)
    → 0 < n
    → n ≤ fuel
    → Linked m i n
    → link_segment_list fuel m (segment_at i) ≡ some (segments_from n i)
link_segment_list-Linked zero fuel i m z h l = absurd (omega arith)
link_segment_list-Linked (suc n) fuel i m z h l = link_segment_list-suc n fuel i m h l

pub Linked-Same :
    (m w : Memory) (i n : ℕ)
    → ((j : ℕ) → i ≤ j → j < i + n → Same m w (segment_at j + 8) (segment_at j + 16))
    → Linked m i n
    → Linked w i n
Linked-Same m w i n s l j a b =
    let kept =
      load_integer-Same 8 m w (segment_at j + 8) (segment_at j + 8) (segment_at j + 16) (s j a b)
        (omega arith) (omega arith) in
    rw (← kept) (l j a b)

module _ (new alloc last : ℕ) (small : segment_at (alloc + new) < 2 ^ 64) where
  pub init_segments-Same :
      (rest i : ℕ) (m : Memory) (lo hi : ℕ)
      → hi ≤ segment_at (i + alloc)
      → Same m (init_segments rest i new alloc last m) lo hi
  unfolding init_segments
  init_segments-Same zero i m lo hi h = λ k a b. refl
  init_segments-Same (suc rest) i m lo hi h =
      Same-trans _ _ _ _ _ (store_bytes-Same _ (segment_at (i + alloc)) m lo hi (inl h))
        (init_segments-Same rest (i + 1) _ lo hi (omega arith))

  link_of : ℕ → ℕ
  link_of i = if ltb i (new - 1) then segment_at (i + alloc + 1) else 0

  link_of-next :
      (i : ℕ)
      → suc i ≤ new
      → (link_of i < 256 ^ 8)
        × ((rest j : ℕ)
            → i + suc rest ≡ new
            → j ≡ i + alloc
            → link_of i ≡ (if suc j == i + alloc + suc rest then 0 else segment_at (suc j)))
  unfolding link_of
  link_of-next i h = elim (Bool-cases (ltb i (new - 1))) [
    | inl t ↦ (
      rw t (omega (arith, small)),
      λ rest j r e.
          let u : (suc j == i + alloc + suc rest) ≡ false = ground (arith, t, r, e) in
          rw (t, u) (omega (arith, e)),
    )
    | inr t ↦ (
      rw t (omega arith),
      λ rest j r e.
          let u : (suc j == i + alloc + suc rest) ≡ true = ground (arith, t, r, e) in
          rw (t, u) refl,
    )
  ]

  pub init_segments-Linked :
      (rest i : ℕ) (m : Memory)
      → i + rest ≡ new
      → Linked (init_segments rest i new alloc last m) (i + alloc) rest
  unfolding init_segments link_of
  init_segments-Linked zero i m h j a b = absurd (omega arith)
  init_segments-Linked (suc rest) i m h j a b =
      let prev = if ltb 0 i then segment_at (i + alloc - 1) else last in
      let w = store_bytes (le_bytes 8 prev ++ le_bytes 8 (link_of i)) (segment_at (i + alloc)) m in
      elim (Bool-cases (j == i + alloc)) [
        | inl t ↦
            let here : j ≡ i + alloc = ground (arith, t) in
            let (fits, next) = link_of-next i (omega (arith, h)) in
            let kept =
              load_integer-Same 8 w (init_segments rest (i + 1) new alloc last w) (segment_at j + 8)
                0 (segment_at j + 16)
                (init_segments-Same rest (i + 1) w 0 (segment_at j + 16) (omega (arith, here)))
                (omega arith) (omega arith) in
            let wrote : load_integer 8 w (segment_at j + 8) ≡ link_of i =
              rw here
                (load_integer-store_second 8 prev (link_of i) (segment_at (i + alloc)) m fits) in
            rw (← kept, wrote) (next rest j h here)
        | inr t ↦
            let e : i + 1 + alloc + rest ≡ i + alloc + suc rest = omega arith in
            let f : next_at (init_segments rest (i + 1) new alloc last w) j
                ≡ (if suc j == i + 1 + alloc + rest then 0 else segment_at (suc j)) =
              init_segments-Linked rest (i + 1) w (omega (arith, h)) j (ground (arith, t, a))
                (omega (arith, b)) in
            rw e at f
      ]

-- Two runs of segments, where the last of the first gets the first of the second as its next.
pub Linked-join :
    (m w : Memory) (i f n : ℕ)
    → 0 < f
    → 0 < n
    → Linked m i f
    → ((j : ℕ) → i ≤ j → suc j < i + f → Same m w (segment_at j + 8) (segment_at j + 16))
    → next_at w (i + f - 1) ≡ segment_at (i + f)
    → Linked w (i + f) n
    → Linked w i (f + n)
Linked-join m w i f n x y l s e r j a b = elim (Bool-cases (ltb (suc j) (i + f))) [
  | inl t ↦
      let kept =
        load_integer-Same 8 m w (segment_at j + 8) (segment_at j + 8) (segment_at j + 16)
          (s j a (ground (arith, t))) (omega arith) (omega arith) in
      let u : (suc j == i + f) ≡ false = ground (arith, t) in
      let v : (suc j == i + (f + n)) ≡ false = ground (arith, t) in
      rw (v, ← kept) (let g = l j a (ground (arith, t)) in rw u at g)
  | inr t ↦ elim (Bool-cases (suc j == i + f)) [
    | inl u ↦
        let here : j ≡ i + f - 1 = ground (arith, u) in
        let next : i + f ≡ suc j = ground (arith, u) in
        let v : (suc j == i + (f + n)) ≡ false = ground (arith, u, y) in
        rw (v, here, e) (ap segment_at (omega (arith, here, next)))
    | inr u ↦
        let d : i + f + n ≡ i + (f + n) = omega arith in
        let g = r j (ground (arith, t, u)) (omega (arith, b)) in rw d at g
  ]
]

pub Linked-tail : (m : Memory) (i n : ℕ) → Linked m i (suc n) → Linked m (suc i) n
Linked-tail m i n l j a b =
    let d : i + suc n ≡ suc i + n = omega arith in
    let g = l j (omega (arith, a)) (omega (arith, b)) in rw d at g

pub segments_from-some :
    (n i : ℕ) → 0 < n → segments_from n i ≡ segment_at i ∷ segments_from (n - 1) (suc i)
segments_from-some zero i h = absurd (omega arith)
segments_from-some (suc n) i h = let e : suc n - 1 ≡ n = omega arith in rw e refl
