-- ===== src/Node.antt =====
-- The nodes of the trees (include/node, src/node): `OrderedKey`, and what the code that is common
-- to the leaf nodes of maps and sets asks of the encoding of an item.
pub mod Leaf
pub mod MapNode
pub mod SetNode
pub mod ReadBack
pub mod MetaEntry
pub mod MetaNode
pub mod IndexRange
pub mod ListNode
pub mod BlobNode
pub mod Cursor
pub mod MetaMake
pub mod Make
use forkbase.Base.{ℕ, ◌≡◌, ◌==◌, ltb, ◌++◌, Bool, Option, none, some, Bytes, length}
use forkbase.Slice.{Slice, lt, gt, eq}

-- `OrderedKey`: a number, or a slice.
pub data OrderedKey : Type 0 where
  number : ℕ → OrderedKey
  slice : Slice → OrderedKey

-- The comparisons: `none` where the two keys are of different sorts and the check fails.
unfoldable pub key_gt : OrderedKey → OrderedKey → Option Bool
key_gt (number a) (number b) = some (ltb b a)
key_gt (slice a) (slice b) = some (gt a b)
key_gt (number a) (slice b) = none
key_gt (slice a) (number b) = none

unfoldable pub key_lt : OrderedKey → OrderedKey → Option Bool
key_lt (number a) (number b) = some (ltb a b)
key_lt (slice a) (slice b) = some (lt a b)
key_lt (number a) (slice b) = none
key_lt (slice a) (number b) = none

unfoldable pub key_eq : OrderedKey → OrderedKey → Option Bool
key_eq (number a) (number b) = some (a == b)
key_eq (slice a) (slice b) = some (eq a b)
key_eq (number a) (slice b) = none
key_eq (slice a) (number b) = none

-- An item of a leaf node as bytes: `Encode`, `EncodeNumBytes`, `orderedKey` and the reader of one
-- item, which also says how many bytes it has. An item that `Fits` is read back from its bytes,
-- whatever comes behind them.
pub record Codec : Type 1 where
  pub Item : Type 0
  pub item_key : Item → Slice
  pub encode : Item → Bytes
  pub encode_num_bytes : Item → ℕ
  pub read_key : Bytes → Slice
  pub read_item : Bytes → Item × ℕ
  pub Fits : Item → Type 0
  pub length-encode : (i : Item) → length (encode i) ≡ encode_num_bytes i
  pub read_key-encode :
      (i : Item) (after : Bytes) → Fits i → read_key (encode i ++ after) ≡ item_key i
  pub read_item-encode :
      (i : Item) (after : Bytes) → Fits i → read_item (encode i ++ after) ≡ (i, encode_num_bytes i)
