-- ===== src/Hash.antt =====
-- `Hash` (include/hash/hash.h, src/hash/hash.cc): the 20-byte identifiers of chunks and versions.
-- A hash either points nowhere (`null`, for which `empty()` holds) or to its bytes. The digest
-- function comes from a vendored header or from Crypto++ and is a parameter of what uses it.
pub mod Base32
use forkbase.Base.{
  ℕ, ◌≡◌, refl, ap, Bool, true, false, Bytes, bytes_beq, bytes_beq-eq, bytes_of_eq, Eq, replicate,
  length, ◌↔◌,
}

pub data Hash : Type 0 where
  null : Hash
  of : Bytes → Hash

-- `kByteLength`
abbrev pub byte_length : ℕ
byte_length = 20

-- `kNull`: twenty zero bytes, which is not the empty hash.
abbrev pub k_null : Hash
k_null = of (replicate byte_length 0)

-- `value()`
abbrev pub value : Hash → Bytes
value null = replicate 0 0
value (of b) = b

-- `empty()`
abbrev pub is_empty : Hash → Bool
is_empty null = true
is_empty (of b) = false

-- `operator==`: pointers if one of the two is null, else `memcmp` over the bytes.
abbrev pub hash_beq : Hash → Hash → Bool
hash_beq null null = true
hash_beq null (of b) = false
hash_beq (of a) null = false
hash_beq (of a) (of b) = bytes_beq a b

hash_beq-eq : (a b : Hash) → hash_beq a b ≡ true → a ≡ b
hash_beq-eq null null h = refl
hash_beq-eq null (of b) h = cc
hash_beq-eq (of a) null h = cc
hash_beq-eq (of a) (of b) h = ap of (bytes_beq-eq a b h)

hash_beq_self : (a : Hash) → hash_beq a a ≡ true
hash_beq_self null = refl
hash_beq_self (of a) = bytes_of_eq a a refl

pub hash_beq_iff : (a b : Hash) → (hash_beq a b ≡ true) ↔ (a ≡ b)
hash_beq_iff a b = (hash_beq-eq a b, λ e. rw e (hash_beq_self b))

instance abbrev pub hash_eq : Eq Hash
hash_eq = record { beq = hash_beq; beq_iff = hash_beq_iff }

-- A hash that points to as many bytes as every digest has.
abbrev pub IsDigest : Hash → Type 0
IsDigest h = length (value h) ≡ byte_length
