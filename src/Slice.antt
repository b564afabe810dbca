-- ===== src/Slice.antt =====
-- `Slice` (include/spec/slice.h): a byte string with the comparisons that order keys.
-- A slice is its bytes; `len_` is their number. The pointer is not modelled: the code never
-- compares pointers of slices.
pub mod Order
use Prim.Native.Nat.{compare, Ordering, min}
use forkbase.Base.{
  ℕ, zero, suc, ◌==◌, ltb, Bool, true, false, not, [], ◌∷◌, Bytes, bytes_beq, length, take,
  if◌then◌else◌,
}

abbrev pub Slice : Type 0
Slice = Bytes

-- `std::memcmp` over the first `n` bytes: the order of the first two bytes that differ.
unfoldable pub memcmp : ℕ → Bytes → Bytes → Ordering
memcmp (suc n) (x ∷ xs) (y ∷ ys) = elim (compare x y) [
  | Ordering.eq ↦ memcmp n xs ys
  | Ordering.lt ↦ Ordering.lt
  | Ordering.gt ↦ Ordering.gt
]
memcmp _ _ _ = Ordering.eq

-- `operator<`
unfoldable pub lt : Slice → Slice → Bool
lt a b =
    let min_len = min (length a) (length b) in
    elim (memcmp min_len a b) [
      | Ordering.lt ↦ true
      | Ordering.gt ↦ false
      | Ordering.eq ↦ ltb (length a) (length b)
    ]

-- `operator>`
unfoldable pub gt : Slice → Slice → Bool
gt a b =
    let min_len = min (length a) (length b) in
    elim (memcmp min_len a b) [
      | Ordering.lt ↦ false
      | Ordering.gt ↦ true
      | Ordering.eq ↦ ltb (length b) (length a)
    ]

-- `operator==`: the lengths, then `memcmp` over all the bytes.
unfoldable pub eq : Slice → Slice → Bool
eq a b =
    if not (length a == length b)
    then false
    else elim (memcmp (length a) a b) [ Ordering.eq ↦ true | _ ↦ false ]
