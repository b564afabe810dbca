-- ===== src/Rocks.antt =====
-- `RocksHeadVersion` (include/worker/rocks_head_version.h, src/worker/rocks_head_version.cc), the
-- table of heads over two databases, and the calls of `RocksDB` (include/utils/rocksdb.h,
-- src/utils/rocksdb.cc). RocksDB itself is a parameter. Caches, options and logging are left out,
-- and so are the assertions of debug builds.
pub mod Updater
pub mod Kept
pub mod BranchDb
pub mod Members
pub mod Table
pub mod Heads
pub mod Versions
pub mod Refines
pub mod Answers
pub mod Memory
pub mod Order
pub mod Keys
pub mod Merged
use forkbase.Base.{
  ◌≡◌, Bool, true, false, ◌||◌, Option, none, some, List, [], ◌∷◌, Bytes, ◌=?◌, bytes_eq,
  if◌then◌else◌,
}
use forkbase.Store.{is_some}

unfoldable pub member : Bytes → List Bytes → Bool
member w [] = false
member w (v ∷ vs) = v =? w || member w vs

-- An entry of a `WriteBatch`.
pub data Update : Type 0 where
  put_entry : Bytes → Bytes → Update
  delete_entry : Bytes → Update

-- What the value of a key is after a batch.
abbrev pub after_batch : List Update → Bytes → Option Bytes → Option Bytes
after_batch [] j v = v
after_batch (put_entry k w ∷ us) j v = after_batch us j (if k =? j then some w else v)
after_batch (delete_entry k ∷ us) j v = after_batch us j (if k =? j then none else v)

-- A `MergeOperator`: the existing value, if there is one, and the operand.
abbrev pub MergeOperator : Type 0
MergeOperator = Option Bytes → Bytes → Bytes

-- RocksDB's API as `RocksDB::DBGet`, `DBPut`, `DBDelete`, `DBMerge` and `DBWrite` use it. A call
-- returns whether its status is ok; `get` is `none` where it is not. `keys` is the order in which
-- an iterator goes through the database, which is that of the keys that are there. The laws say what
-- a call whose status is ok has done. Of a merge they say that its key is there afterwards and that
-- the other keys are as they were, and not which value the key has: RocksDB may merge operands with
-- each other before their base value, whatever the operator makes of it.
pub record KeyValueDb : Type 1 where
  pub S : Type 0
  pub get : S → Bytes → Option Bytes
  pub put : S → Bytes → Bytes → Bool × S
  pub delete : S → Bytes → Bool × S
  pub merge : MergeOperator → S → Bytes → Bytes → Bool × S
  pub write : S → List Update → Bool × S
  pub keys : S → List Bytes
  pub get-put :
      (s : S) (k v j : Bytes)
      → (put s k v).0 ≡ true
      → get (put s k v).1 j ≡ (if k =? j then some v else get s j)
  pub get-delete :
      (s : S) (k j : Bytes)
      → (delete s k).0 ≡ true
      → get (delete s k).1 j ≡ (if k =? j then none else get s j)
  pub has-merge :
      (op : MergeOperator) (s : S) (k v : Bytes)
      → (merge op s k v).0 ≡ true
      → is_some (get (merge op s k v).1 k) ≡ true
  pub get-merge :
      (op : MergeOperator) (s : S) (k v j : Bytes)
      → (merge op s k v).0 ≡ true
      → (k =? j) ≡ false
      → get (merge op s k v).1 j ≡ get s j
  pub get-write :
      (s : S) (us : List Update) (j : Bytes)
      → (write s us).0 ≡ true
      → get (write s us).1 j ≡ after_batch us j (get s j)
  pub member-keys : (s : S) (k : Bytes) → member k (keys s) ≡ is_some (get s k)

-- The database takes every write.
pub record Accepts (db : KeyValueDb) : Type 0 where
  pub put_ok : (s : KeyValueDb.S db) (k v : Bytes) → (KeyValueDb.put db s k v).0 ≡ true
  pub delete_ok : (s : KeyValueDb.S db) (k : Bytes) → (KeyValueDb.delete db s k).0 ≡ true
  pub merge_ok :
      (op : MergeOperator) (s : KeyValueDb.S db) (k v : Bytes)
      → (KeyValueDb.merge db op s k v).0 ≡ true
  pub write_ok : (s : KeyValueDb.S db) (us : List Update) → (KeyValueDb.write db s us).0 ≡ true
