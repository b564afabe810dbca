-- ===== src/Base/LittleEndian.antt =====
-- Little-endian integers in byte arrays, as the code's casts of byte pointers read and write them,
-- and byte sequences with the equality of `std::memcmp`.
use Prim.Native.Nat.{ℕ, zero, suc, ◌+◌, ◌*◌, ◌/◌, ◌%◌, ◌^◌, ◌<◌}
use mathlib.Core.Path.{◌≡◌, refl, ap}
use mathlib.Core.Bool.{Bool, true, false, ◌&&◌}
use mathlib.Core.List.{List, [], ◌∷◌, ◌++◌}
use native.Mathlib.Nat.{pow-suc}
use native.Mathlib.Omega.{arith}
use forkbase.Base.Tests.{◌==◌, Eq}
use forkbase.Base.Lists.{length, take, drop, take-append, drop-append}

abbrev pub Bytes : Type 0
Bytes = List ℕ

abbrev pub bytes_beq : Bytes → Bytes → Bool
bytes_beq [] [] = true
bytes_beq [] (y ∷ ys) = false
bytes_beq (x ∷ xs) [] = false
bytes_beq (x ∷ xs) (y ∷ ys) = x == y && bytes_beq xs ys

pub bytes_beq-eq : (a b : Bytes) → bytes_beq a b ≡ true → a ≡ b
bytes_beq-eq [] [] h = refl
bytes_beq-eq [] (y ∷ ys) h = cc
bytes_beq-eq (x ∷ xs) [] h = cc
bytes_beq-eq (x ∷ xs) (y ∷ ys) h = ground (arith, bytes_beq-eq xs ys)

pub bytes_beq_self : (a : Bytes) → bytes_beq a a ≡ true
bytes_beq_self [] = refl
bytes_beq_self (x ∷ xs) = ground (arith, bytes_beq_self xs)

pub bytes_of_eq : (a b : Bytes) → a ≡ b → bytes_beq a b ≡ true
bytes_of_eq a b e = rw e (bytes_beq_self b)

instance abbrev pub bytes_eq : Eq Bytes
bytes_eq = record { beq = bytes_beq; beq_iff = λ a b. (bytes_beq-eq a b, bytes_of_eq a b) }

-- `memcpy(buffer, &n, width)` for an unsigned integer of that width.
unfoldable pub le_bytes : ℕ → ℕ → Bytes
le_bytes zero n = []
le_bytes (suc width) n = n % 256 ∷ le_bytes width (n / 256)

-- The value of an unsigned integer that stands in these bytes.
unfoldable pub le_value : Bytes → ℕ
le_value [] = 0
le_value (b ∷ bs) = b + 256 * le_value bs

-- `*reinterpret_cast<const uintN_t*>(p + offset)`.
unfoldable pub read_le : ℕ → ℕ → Bytes → ℕ
read_le width offset p = le_value (take width (drop offset p))

pub length-le_bytes : (width n : ℕ) → length (le_bytes width n) ≡ width
unfolding le_bytes
length-le_bytes zero n = refl
length-le_bytes (suc width) n = ap suc (length-le_bytes width (n / 256))

pub le_value-le_bytes : (width n : ℕ) → n < 256 ^ width → le_value (le_bytes width n) ≡ n
unfolding le_bytes le_value
le_value-le_bytes zero n h = omega arith
le_value-le_bytes (suc width) n h =
    let small : n / 256 < 256 ^ width = omega (arith, pow-suc 256 width) in
    omega (arith, le_value-le_bytes width (n / 256) small)

pub read_le-append :
    (width offset n : ℕ) (before after : Bytes)
    → length before ≡ offset
    → n < 256 ^ width
    → read_le width offset (before ++ (le_bytes width n ++ after)) ≡ n
unfolding read_le
read_le-append width offset n before after h k =
    rw
      (
        drop-append offset before (le_bytes width n ++ after) h,
        take-append width (le_bytes width n) after (length-le_bytes width n),
      )
      (le_value-le_bytes width n k)
