-- ===== src/Hash/Base32.antt =====
-- The base32 form of a hash (src/hash/hash.cc): eight letters for every five bytes.
use native.Mathlib.Nat.{
  pow-suc, div-lt_iff_lt-mul, le-mul_of_pos_right, div-add-mod', mod-eq_of_lt, mod-lt,
}
use forkbase.Base.{
  ℕ, zero, suc, ◌+◌, ◌-◌, ◌*◌, ◌/◌, ◌%◌, ◌^◌, ◌<◌, ◌≡◌, refl, ap, ◌∙◌, not, Option, none, some, [],
  ◌∷◌, ◌++◌, Bytes, length, length-append, ◌==◌, if◌then◌else◌, arith, All, ltb, leb, ◌&&◌,
}
use forkbase.Hash.{Hash, null, of, byte_length}

-- `base32alphabet`, as the codes of its letters: `A` to `Z`, then `2` to `7`.
unfoldable pub base32alphabet : ℕ → ℕ
base32alphabet d = if ltb d 26 then 65 + d else 50 + (d - 26)

-- `base32dict.at`, which throws for any other character.
unfoldable pub base32dict_at : ℕ → Option ℕ
base32dict_at c =
    if leb 65 c && leb c 90
    then some (c - 65)
    else if leb 50 c && leb c 55
    then some (c - 50 + 26)
    else none

-- The letters of `tmp`, the first of `n + 1` being its bits above `5 * n`.
unfoldable pub letters : ℕ → ℕ → Bytes
unfolding base32alphabet
letters zero tmp = []
letters (suc n) tmp = base32alphabet (tmp / 32 ^ n % 256) ∷ letters n (tmp % 32 ^ n)

-- `(tmp << 8) + value_[i + j]` over bytes, from `tmp` on.
unfoldable pub read_bytes : ℕ → Bytes → ℕ
read_bytes tmp [] = tmp
read_bytes tmp (b ∷ bs) = read_bytes ((tmp * 256 + b) % 2 ^ 64) bs

-- The loop of `ToBase32`.
unfoldable pub to_letters : Bytes → Bytes
unfolding letters read_bytes
to_letters (a ∷ b ∷ c ∷ d ∷ e ∷ rest) =
    letters 8 (read_bytes 0 (a ∷ b ∷ c ∷ d ∷ e ∷ [])) ++ to_letters rest
to_letters _ = []

-- `ToBase32`: nothing for the empty hash.
unfoldable pub to_base32 : Hash → Bytes
unfolding to_letters
to_base32 null = []
to_base32 (of b) = to_letters b

-- `tmp <<= 5; tmp += base32dict.at(...)` over letters; `none` is the exception.
unfoldable pub read_letters : ℕ → Bytes → Option ℕ
unfolding base32dict_at
read_letters tmp [] = some tmp
read_letters tmp (c ∷ cs) = elim (base32dict_at c) [
  | none ↦ none
  | some d ↦ read_letters ((tmp * 32 + d) % 2 ^ 64) cs
]

-- Five bytes, the last one written first.
unfoldable pub five_bytes : ℕ → Bytes
five_bytes tmp =
    tmp / 256 ^ 4 % 256
    ∷ tmp / 256 ^ 3 % 256
    ∷ tmp / 256 ^ 2 % 256
    ∷ tmp / 256 % 256
    ∷ tmp % 256
    ∷ []

-- The loop of `FromBase32`.
unfoldable pub from_letters : Bytes → Option Bytes
unfolding read_letters five_bytes
from_letters (c0 ∷ c1 ∷ c2 ∷ c3 ∷ c4 ∷ c5 ∷ c6 ∷ c7 ∷ rest) =
    let others = from_letters rest in
    elim (read_letters 0 (c0 ∷ c1 ∷ c2 ∷ c3 ∷ c4 ∷ c5 ∷ c6 ∷ c7 ∷ [])) [
      | none ↦ none
      | some tmp ↦ elim others [ none ↦ none | some bytes ↦ some (five_bytes tmp ++ bytes) ]
    ]
from_letters _ = some []

-- `FromBase32`: `none` where the check of the length aborts, `some none` where it throws.
unfoldable pub from_base32 : Bytes → Option (Option Hash)
unfolding from_letters
from_base32 base32 =
    if not (length base32 == 32)
    then none
    else some (elim (from_letters base32) [ none ↦ none | some bytes ↦ some (of bytes) ])

dict_of_letter : (d : ℕ) → d < 32 → base32dict_at (base32alphabet d) ≡ some d
unfolding base32alphabet base32dict_at
dict_of_letter d h = ground arith

power_pos : (n : ℕ) → 0 < 32 ^ n
power_pos zero = omega arith
power_pos (suc n) = omega (arith, power_pos n, pow-suc 32 n)

read_letters_step :
    (acc c d : ℕ) (cs : Bytes)
    → base32dict_at c ≡ some d
    → read_letters acc (c ∷ cs) ≡ read_letters ((acc * 32 + d) % 2 ^ 64) cs
unfolding read_letters
read_letters_step acc c d cs e = rw (e, read_letters)

-- One letter more, as arithmetic over the weight `p` of the letter.
letter_sum : (acc q r p : ℕ) → (acc * 32 + q) * p + r ≡ acc * (p * 32) + (q * p + r)
letter_sum acc q r p = grind arith

letter_small : (x p r m : ℕ) → 0 < p → x * p + r < m → x < m
letter_small x p r m h k = omega (arith, le-mul_of_pos_right x h)

read_letters-letters :
    (n tmp acc : ℕ)
    → tmp < 32 ^ n
    → acc * 32 ^ n + tmp < 2 ^ 64
    → read_letters acc (letters n tmp) ≡ some (acc * 32 ^ n + tmp)
unfolding read_letters letters
read_letters-letters zero tmp acc h k = ap some (omega arith)
read_letters-letters (suc n) tmp acc h k =
    let p = power_pos n in
    let w = pow-suc 32 n in
    let d : tmp / 32 ^ n < 32 = (div-lt_iff_lt-mul p).1 (omega (arith, w)) in
    let parts : tmp / 32 ^ n * 32 ^ n + tmp % 32 ^ n ≡ tmp = div-add-mod' tmp (32 ^ n) in
    let same : (acc * 32 + tmp / 32 ^ n) * 32 ^ n + tmp % 32 ^ n ≡ acc * 32 ^ suc n + tmp = rw w (
      letter_sum acc (tmp / 32 ^ n) (tmp % 32 ^ n) (32 ^ n)
      ∙ ap (λ t. acc * (32 ^ n * 32) + t) parts) in
    let small : (acc * 32 + tmp / 32 ^ n) % 2 ^ 64 ≡ acc * 32 + tmp / 32 ^ n = mod-eq_of_lt (
      letter_small (acc * 32 + tmp / 32 ^ n) (32 ^ n) (tmp % 32 ^ n) (2 ^ 64) p
        (omega (arith, same))) in
    let low : tmp % 32 ^ n < 32 ^ n = mod-lt tmp p in
    let digit : base32dict_at (base32alphabet (tmp / 32 ^ n % 256)) ≡ some (tmp / 32 ^ n) =
      rw (mod-eq_of_lt {n = tmp / 32 ^ n} {m = 256} (omega (arith, d)))
        (dict_of_letter (tmp / 32 ^ n) d) in
    read_letters_step acc (base32alphabet (tmp / 32 ^ n % 256)) (tmp / 32 ^ n)
      (letters n (tmp % 32 ^ n)) digit
    ∙ rw small (
        read_letters-letters n (tmp % 32 ^ n) (acc * 32 + tmp / 32 ^ n) low (omega (arith, same))
        ∙ ap some same)

read_five :
    (a b c d e : ℕ)
    → read_bytes 0 (a ∷ b ∷ c ∷ d ∷ e ∷ [])
      ≡ ((((((((0 * 256 + a) % 2 ^ 64) * 256 + b) % 2 ^ 64) * 256 + c) % 2 ^ 64) * 256 + d)
            % 2 ^ 64
            * 256
          + e)
        % 2 ^ 64
unfolding read_bytes
read_five a b c d e = refl

read_five_value :
    (a b c d e : ℕ)
    → a < 256
    → b < 256
    → c < 256
    → d < 256
    → e < 256
    → read_bytes 0 (a ∷ b ∷ c ∷ d ∷ e ∷ []) ≡ (((a * 256 + b) * 256 + c) * 256 + d) * 256 + e
read_five_value a b c d e ha hb hc hd he = rw read_five (omega arith)

five_bytes_value :
    (a b c d e : ℕ)
    → a < 256
    → b < 256
    → c < 256
    → d < 256
    → e < 256
    → five_bytes ((((a * 256 + b) * 256 + c) * 256 + d) * 256 + e) ≡ a ∷ b ∷ c ∷ d ∷ e ∷ []
unfolding five_bytes
five_bytes_value a b c d e ha hb hc hd he =
    let v = (((a * 256 + b) * 256 + c) * 256 + d) * 256 + e in
    let e4 : v / 256 ^ 4 % 256 ≡ a = omega arith in
    let e3 : v / 256 ^ 3 % 256 ≡ b = omega arith in
    let e2 : v / 256 ^ 2 % 256 ≡ c = omega arith in
    let e1 : v / 256 % 256 ≡ d = omega arith in
    let e0 : v % 256 ≡ e = omega arith in rw (e4, e3, e2, e1, e0)

-- Five bytes as letters, and back.
from_letters-five :
    (a b c d e : ℕ) (rest bytes : Bytes)
    → a < 256
    → b < 256
    → c < 256
    → d < 256
    → e < 256
    → from_letters rest ≡ some bytes
    → from_letters (letters 8 (read_bytes 0 (a ∷ b ∷ c ∷ d ∷ e ∷ [])) ++ rest)
      ≡ some (a ∷ b ∷ c ∷ d ∷ e ∷ bytes)
unfolding from_letters letters
from_letters-five a b c d e rest bytes ha hb hc hd he h =
    let v = read_five_value a b c d e ha hb hc hd he in
    let n = (((a * 256 + b) * 256 + c) * 256 + d) * 256 + e in
    let r : read_letters 0 (letters 8 n) ≡ some n =
      read_letters-letters 8 n 0 (omega arith) (omega arith) ∙ ap some (omega arith) in
    rw v (
      rw (r, from_letters)
        (rw h (ap (λ t. some (t ++ bytes)) (five_bytes_value a b c d e ha hb hc hd he))))

from-to_letters :
    (b : Bytes) → All (λ x. x < 256) b → length b % 5 ≡ 0 → from_letters (to_letters b) ≡ some b
unfolding to_letters from_letters
from-to_letters [] h k = refl
from-to_letters (a ∷ []) h k = absurd (omega arith)
from-to_letters (a ∷ b ∷ []) h k = absurd (omega arith)
from-to_letters (a ∷ b ∷ c ∷ []) h k = absurd (omega arith)
from-to_letters (a ∷ b ∷ c ∷ d ∷ []) h k = absurd (omega arith)
from-to_letters (a ∷ b ∷ c ∷ d ∷ e ∷ rest) (ha, (hb, (hc, (hd, (he, h))))) k =
    from_letters-five a b c d e (to_letters rest) rest ha hb hc hd he
      (from-to_letters rest h (omega arith))

length-letters : (n tmp : ℕ) → length (letters n tmp) ≡ n
unfolding letters
length-letters zero tmp = refl
length-letters (suc n) tmp = ap suc (length-letters n (tmp % 32 ^ n))

-- Eight letters for every five bytes.
length-to_letters : (b : Bytes) → length b % 5 ≡ 0 → length (to_letters b) ≡ 8 * (length b / 5)
unfolding to_letters
length-to_letters [] k = refl
length-to_letters (a ∷ []) k = absurd (omega arith)
length-to_letters (a ∷ b ∷ []) k = absurd (omega arith)
length-to_letters (a ∷ b ∷ c ∷ []) k = absurd (omega arith)
length-to_letters (a ∷ b ∷ c ∷ d ∷ []) k = absurd (omega arith)
length-to_letters (a ∷ b ∷ c ∷ d ∷ e ∷ rest) k = omega (
  arith,
  length-append (letters 8 (read_bytes 0 (a ∷ b ∷ c ∷ d ∷ e ∷ []))) (to_letters rest),
  length-letters 8 (read_bytes 0 (a ∷ b ∷ c ∷ d ∷ e ∷ [])),
  length-to_letters rest (omega arith),
)

-- The base32 form of a digest has 32 letters, and reading it neither aborts nor throws but gives
-- back the digest.
pub from_base32-to_base32 :
    (b : Bytes)
    → All (λ x. x < 256) b
    → length b ≡ byte_length
    → (length (to_base32 (of b)) ≡ 32) × (from_base32 (to_base32 (of b)) ≡ some (some (of b)))
unfolding from_base32 to_base32
from_base32-to_base32 b bytes h =
    let five : length b % 5 ≡ 0 = omega arith in
    let n : length (to_letters b) ≡ 32 = omega (arith, length-to_letters b five) in
    (n, rw (n, from-to_letters b bytes five, from_base32) refl)
