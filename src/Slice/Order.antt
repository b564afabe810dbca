-- ===== src/Slice/Order.antt =====
-- The comparisons of slices (include/spec/slice.h) as an order, with a reference for it.
use Prim.Native.Nat.{compare, Ordering, min}
use forkbase.Base.{
  ℕ, suc, ◌≡◌, ◌↔◌, ◌⊎◌, inl, inr, refl, sym, ap, Bool, true, false, [], ◌∷◌, Bytes, length, arith,
  Bool-cases,
}
use forkbase.Slice.{Slice, memcmp, lt, gt, eq}

-- The reference: a proper prefix comes first, else the first difference decides.
unfoldable pub lex_lt : Bytes → Bytes → Bool
lex_lt [] [] = false
lex_lt [] (y ∷ ys) = true
lex_lt (x ∷ xs) [] = false
lex_lt (x ∷ xs) (y ∷ ys) = elim (compare x y) [
  | Ordering.eq ↦ lex_lt xs ys
  | Ordering.lt ↦ true
  | Ordering.gt ↦ false
]

min-suc : (a b : ℕ) → min (suc a) (suc b) ≡ suc (min a b)
min-suc a b = omega arith

-- `operator<` is the lexicographic order of bytes.
pub lt-eq-lex_lt : (a b : Slice) → lt a b ≡ lex_lt a b
unfolding lt lex_lt memcmp
lt-eq-lex_lt [] [] = ground arith
lt-eq-lex_lt [] (y ∷ ys) = ground arith
lt-eq-lex_lt (x ∷ xs) [] = ground arith
lt-eq-lex_lt (x ∷ xs) (y ∷ ys) =
    rw (min-suc (length xs) (length ys), lt) (ground (arith, lt-eq-lex_lt xs ys))

gt-eq-lex_lt : (a b : Slice) → gt a b ≡ lex_lt b a
unfolding gt lex_lt memcmp
gt-eq-lex_lt [] [] = ground arith
gt-eq-lex_lt [] (y ∷ ys) = ground arith
gt-eq-lex_lt (x ∷ xs) [] = ground arith
gt-eq-lex_lt (x ∷ xs) (y ∷ ys) =
    rw (min-suc (length xs) (length ys), gt) (ground (arith, gt-eq-lex_lt xs ys))

eq-of-eq : (a b : Slice) → eq a b ≡ true → a ≡ b
unfolding eq memcmp
eq-of-eq [] [] h = refl
eq-of-eq [] (y ∷ ys) h = absurd (ground arith)
eq-of-eq (x ∷ xs) [] h = absurd (ground arith)
eq-of-eq (x ∷ xs) (y ∷ ys) h = ground (arith, eq-of-eq xs ys)

eq_self : (a : Slice) → eq a a ≡ true
unfolding eq memcmp
eq_self [] = ground arith
eq_self (x ∷ xs) = ground (arith, eq_self xs)

pub eq_iff : (a b : Slice) → (eq a b ≡ true) ↔ (a ≡ b)
eq_iff a b = (eq-of-eq a b, λ e. rw e (eq_self b))

lex_lt_irrefl : (a : Bytes) → lex_lt a a ≡ false
unfolding lex_lt
lex_lt_irrefl [] = refl
lex_lt_irrefl (x ∷ xs) = ground (arith, lex_lt_irrefl xs)

lex_lt_trans : (a b c : Bytes) → lex_lt a b ≡ true → lex_lt b c ≡ true → lex_lt a c ≡ true
unfolding lex_lt
lex_lt_trans [] [] [] h k = h
lex_lt_trans [] (y ∷ ys) [] h k = cc
lex_lt_trans [] b (z ∷ zs) h k = refl
lex_lt_trans (x ∷ xs) [] c h k = cc
lex_lt_trans (x ∷ xs) (y ∷ ys) [] h k = cc
lex_lt_trans (x ∷ xs) (y ∷ ys) (z ∷ zs) h k = ground (arith, lex_lt_trans xs ys zs)

lex_lt_total : (a b : Bytes) → lex_lt a b ≡ false → lex_lt b a ≡ false → a ≡ b
unfolding lex_lt
lex_lt_total [] [] h k = refl
lex_lt_total [] (y ∷ ys) h k = cc
lex_lt_total (x ∷ xs) [] h k = cc
lex_lt_total (x ∷ xs) (y ∷ ys) h k = ground (arith, lex_lt_total xs ys)

pub lt_irrefl : (a : Slice) → lt a a ≡ false
lt_irrefl a = rw lt-eq-lex_lt (lex_lt_irrefl a)

-- `operator<` is transitive.
pub lt_trans : (a b c : Slice) → lt a b ≡ true → lt b c ≡ true → lt a c ≡ true
lt_trans a b c h k =
    rw lt-eq-lex_lt
      (lex_lt_trans a b c (let f = h in rw lt-eq-lex_lt at f) (let f = k in rw lt-eq-lex_lt at f))

pub lt_asymm : (a b : Slice) → lt a b ≡ true → lt b a ≡ false
lt_asymm a b h = elim (Bool-cases (lt b a)) [
  | inl k ↦ let e = lt_trans a b a h k in cc (lt_irrefl a)
  | inr k ↦ k
]

pub lt_total : (a b : Slice) → lt a b ≡ false → lt b a ≡ false → a ≡ b
lt_total a b h k =
    lex_lt_total a b (let f = h in rw lt-eq-lex_lt at f) (let f = k in rw lt-eq-lex_lt at f)

pub gt-eq-lt : (a b : Slice) → gt a b ≡ lt b a
gt-eq-lt a b = rw (gt-eq-lex_lt, lt-eq-lex_lt)

eq_symm_false : (a b : Slice) → eq b a ≡ false → eq a b ≡ false
eq_symm_false a b h = elim (Bool-cases (eq a b)) [
  | inl k ↦ let e = (eq_iff b a).1 (sym ((eq_iff a b).0 k)) in cc
  | inr k ↦ k
]

pub lt_ne : (a b : Slice) → lt a b ≡ true → eq a b ≡ false
lt_ne a b h = elim (Bool-cases (eq a b)) [
  | inl k ↦ let e = (eq_iff a b).0 k in cc (lt_irrefl b, ap (λ x. lt x b) e)
  | inr k ↦ k
]

-- For two slices exactly one of `operator<`, `operator==` and `operator>` returns true.
pub lt_trichotomy :
    (a b : Slice)
    → ((lt a b ≡ true) × (eq a b ≡ false) × (gt a b ≡ false))
      ⊎ ((lt a b ≡ false) × (eq a b ≡ true) × (gt a b ≡ false))
      ⊎ ((lt a b ≡ false) × (eq a b ≡ false) × (gt a b ≡ true))
lt_trichotomy a b = elim (Bool-cases (lt a b)) [
  | inl h ↦ inl (h, lt_ne a b h, rw gt-eq-lt (lt_asymm a b h))
  | inr h ↦ elim (Bool-cases (lt b a)) [
    | inl k ↦ inr (inr (h, eq_symm_false a b (lt_ne b a k), rw gt-eq-lt k))
    | inr k ↦ inr (inl (h, (eq_iff a b).1 (lt_total a b h k), rw gt-eq-lt k))
  ]
]
