-- ===== src/Base/Lists.antt =====
-- Lists measured and indexed by native numbers, under the library's names.
use Prim.Native.Nat.{ℕ, zero, suc, ◌+◌, ◌-◌, ◌≤◌, ◌<◌, min}
use mathlib.Core.Path.{◌≡◌, refl, ap}
use mathlib.Core.List.{List, [], ◌∷◌, ◌++◌, append-nil, map}
use mathlib.Core.Option.{Option, none, some}
use native.Mathlib.Omega.{arith}

module _ {ℓ} {A : Type ℓ} where
  abbrev pub length : List A → ℕ
  length [] = 0
  length (x ∷ xs) = suc (length xs)

  abbrev pub get_elem? : List A → ℕ → Option A
  get_elem? [] i = none
  get_elem? (x ∷ xs) zero = some x
  get_elem? (x ∷ xs) (suc i) = get_elem? xs i

  abbrev pub take : ℕ → List A → List A
  take zero xs = []
  take (suc n) [] = []
  take (suc n) (x ∷ xs) = x ∷ take n xs

  abbrev pub drop : ℕ → List A → List A
  drop zero xs = xs
  drop (suc n) [] = []
  drop (suc n) (x ∷ xs) = drop n xs

  abbrev pub replicate : ℕ → A → List A
  replicate zero a = []
  replicate (suc n) a = a ∷ replicate n a

  pub length-append : (xs ys : List A) → length (xs ++ ys) ≡ length xs + length ys
  length-append [] ys = omega arith
  length-append (x ∷ xs) ys = omega (arith, length-append xs ys)

  pub take-append-length : (xs ys : List A) → take (length xs) (xs ++ ys) ≡ xs
  take-append-length [] ys = refl
  take-append-length (x ∷ xs) ys = ap (λ t. x ∷ t) (take-append-length xs ys)

  pub drop-append-length : (xs ys : List A) → drop (length xs) (xs ++ ys) ≡ ys
  drop-append-length [] ys = refl
  drop-append-length (x ∷ xs) ys = drop-append-length xs ys

  -- The forms that proofs about a known length use.
  pub take-append : (n : ℕ) (xs ys : List A) → length xs ≡ n → take n (xs ++ ys) ≡ xs
  take-append n xs ys h = let f = take-append-length xs ys in rw h at f

  pub drop-append : (n : ℕ) (xs ys : List A) → length xs ≡ n → drop n (xs ++ ys) ≡ ys
  drop-append n xs ys h = let f = drop-append-length xs ys in rw h at f

  pub take_self : (n : ℕ) (xs : List A) → length xs ≡ n → take n xs ≡ xs
  take_self n xs h = let f = take-append n xs [] h in rw append-nil at f

  take_nil : (n : ℕ) → take n [] ≡ []
  take_nil zero = refl
  take_nil (suc n) = refl

  drop-nil : (n : ℕ) → drop n [] ≡ []
  drop-nil zero = refl
  drop-nil (suc n) = refl

  pub drop-add : (a b : ℕ) (xs : List A) → drop b (drop a xs) ≡ drop (a + b) xs
  drop-add zero b xs = ground arith
  drop-add (suc a) b [] = ground (arith, drop-nil b, drop-nil (suc a + b))
  drop-add (suc a) b (x ∷ xs) =
      let e : suc a + b ≡ suc (a + b) = omega arith in rw e (drop-add a b xs)

  -- A prefix, and what a longer prefix has behind it.
  pub take-take-drop :
      (a n : ℕ) (xs : List A) → a ≤ n → take a xs ++ take (n - a) (drop a xs) ≡ take n xs
  take-take-drop zero n xs h = ground arith
  take-take-drop (suc a) zero xs h = absurd (omega arith)
  take-take-drop (suc a) (suc n) [] h = take_nil (suc n - suc a)
  take-take-drop (suc a) (suc n) (x ∷ xs) h =
      let e : suc n - suc a ≡ n - a = omega arith in
      rw e (ap (λ t. x ∷ t) (take-take-drop a n xs (omega arith)))

  pub get_elem?-length : (i : ℕ) (xs : List A) → get_elem? xs i ≡ none → length xs ≤ i
  get_elem?-length i [] h = omega arith
  get_elem?-length zero (x ∷ xs) h = cc
  get_elem?-length (suc i) (x ∷ xs) h = omega (arith, get_elem?-length i xs h)

  pub get_elem?-length' : (i : ℕ) (xs : List A) (x : A) → get_elem? xs i ≡ some x → i < length xs
  get_elem?-length' i [] x h = cc
  get_elem?-length' zero (y ∷ ys) x h = omega arith
  get_elem?-length' (suc i) (y ∷ ys) x h = omega (arith, get_elem?-length' i ys x h)

  pub get_elem?-drop : (n i : ℕ) (xs : List A) → get_elem? (drop n xs) i ≡ get_elem? xs (n + i)
  get_elem?-drop zero i xs = ap (λ n. get_elem? xs n) (omega arith)
  get_elem?-drop (suc n) i [] = refl
  get_elem?-drop (suc n) i (x ∷ xs) =
      let e : suc n + i ≡ suc (n + i) = omega arith in rw e (get_elem?-drop n i xs)

  pub get_elem?-take : (n i : ℕ) (xs : List A) → i < n → get_elem? (take n xs) i ≡ get_elem? xs i
  get_elem?-take zero i xs h = absurd (omega arith)
  get_elem?-take (suc n) i [] h = refl
  get_elem?-take (suc n) zero (x ∷ xs) h = refl
  get_elem?-take (suc n) (suc i) (x ∷ xs) h = get_elem?-take n i xs (omega arith)

  pub get_elem?-take_end : (n : ℕ) (xs : List A) → get_elem? (take n xs) n ≡ none
  get_elem?-take_end zero xs = refl
  get_elem?-take_end (suc n) [] = refl
  get_elem?-take_end (suc n) (x ∷ xs) = get_elem?-take_end n xs

  pub length-drop : (n : ℕ) (xs : List A) → length (drop n xs) ≡ length xs - n
  length-drop zero xs = omega arith
  length-drop (suc n) [] = omega arith
  length-drop (suc n) (x ∷ xs) = omega (arith, length-drop n xs)

  pub length-take : (n : ℕ) (xs : List A) → length (take n xs) ≡ min n (length xs)
  length-take zero xs = omega arith
  length-take (suc n) [] = omega arith
  length-take (suc n) (x ∷ xs) = omega (arith, length-take n xs)

  pub length-replicate : (n : ℕ) (a : A) → length (replicate n a) ≡ n
  length-replicate zero a = refl
  length-replicate (suc n) a = ap suc (length-replicate n a)

pub length-map {ℓ κ} :
    {A : Type ℓ} {B : Type κ} (f : A → B) (xs : List A) → length (map f xs) ≡ length xs
length-map f [] = refl
length-map f (x ∷ xs) = ap suc (length-map f xs)

pub get_elem?-map {ℓ κ} :
    {A : Type ℓ} {B : Type κ} (f : A → B) (i : ℕ) (xs : List A)
    → get_elem? (map f xs) i ≡ elim (get_elem? xs i) [ none ↦ none | some x ↦ some (f x) ]
get_elem?-map f i [] = refl
get_elem?-map f zero (x ∷ xs) = refl
get_elem?-map f (suc i) (x ∷ xs) = get_elem?-map f i xs

abbrev pub All {ℓ κ} : {A : Type ℓ} → (A → Type κ) → List A → Type κ
All P [] = Unit
All P (x ∷ xs) = P x × All P xs
