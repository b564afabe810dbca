-- ===== src/Rocks/Refines.antt =====
-- The table over RocksDB (src/worker/rocks_head_version.cc) against the one in memory
-- (src/worker/simple_head_version.cc).
use forkbase.Base.{
  ◌≡◌, ◌^◌, ◌<◌, refl, none, some, Bytes, length, bytes_eq, arith, inl, inr, Bool-cases,
}
use forkbase.Slice.{Slice}
use forkbase.Hash.{Hash, null, of, value, hash_eq}
use forkbase.Dict
use forkbase.Dict.{lookup-insert}
use forkbase.Head
use forkbase.Head.{HeadVersion, or_empty, find_branch, contains, follow}
use forkbase.Rocks.{KeyValueDb, Accepts}
use forkbase.Rocks.BranchDb.{db_key, get_head, read_head}
use forkbase.Rocks.BranchDb
use forkbase.Rocks.Table.{RocksHeadVersion, operand}
use forkbase.Rocks.Table
use forkbase.Rocks.Heads.{
  Heads, after_rename, Heads-put_branch, Heads-delete, Heads-absent, Heads-move,
}
use forkbase.Rocks.Versions.{Keys, Keys-put_latest}

module _ {db : KeyValueDb} where
  pub record Refines (h : HeadVersion) (r : RocksHeadVersion db) : Type 0 where
    pub heads : Heads db h r.branch_db
    pub latest : Keys db h r.latest_db

  -- The calls on a table in memory and on one over the database, side by side, from two empty
  -- tables on: where a branch is meant, the key has less than 2 ^ 16 bytes; a head is 20 bytes; and
  -- as `Worker::Rename` checks, a branch that is renamed is there and its new name is free.
  pub data Together : HeadVersion → RocksHeadVersion db → Type 0 where
    start :
        {r : RocksHeadVersion db}
        → ((k : Bytes) → KeyValueDb.get db r.branch_db k ≡ none)
        → ((k : Bytes) → KeyValueDb.get db r.latest_db k ≡ none)
        → Together Head.empty_head r
    put_branch :
        {h : HeadVersion} {r : RocksHeadVersion db}
        → Together h r
        → (key branch : Slice) (ver : Hash) → length key < 2 ^ 16
        → length (value ver) ≡ 20
        → Together (Head.put_branch h key branch ver) (Table.put_branch r key branch ver)
    put_latest :
        {h : HeadVersion} {r : RocksHeadVersion db}
        → Together h r
        → (key : Slice) (prev1 prev2 ver : Hash)
        → Together (Head.put_latest h key prev1 prev2 ver) (Table.put_latest r key prev1 prev2 ver)
    remove_branch :
        {h : HeadVersion} {r : RocksHeadVersion db}
        → Together h r
        → (key branch : Slice) → length key < 2 ^ 16
        → Together (Head.remove_branch h key branch) (Table.remove_branch r key branch)
    rename_branch :
        {h h' : HeadVersion} {r : RocksHeadVersion db}
        → Together h r
        → (key old_branch new_branch : Slice) (ver : Hash) → length key < 2 ^ 16
        → find_branch h key old_branch ≡ some ver
        → find_branch h key new_branch ≡ none
        → Head.rename_branch h key old_branch new_branch ≡ some h'
        → Together h' (Table.rename_branch r key old_branch new_branch)

remove_branch-latest_ver :
    (h : HeadVersion) (key branch : Slice)
    → (Head.remove_branch h key branch).latest_ver ≡ h.latest_ver
unfolding Head.remove_branch Head.with_branches
remove_branch-latest_ver h key branch = elim (Bool-cases (Head.exists_branch h key branch)) [
  | inl e ↦ rw e refl
  | inr e ↦ rw e refl
]

module _ {db : KeyValueDb} (accepts : Accepts db) {h : HeadVersion} {r : RocksHeadVersion db}
    (f : Refines h r) where
  Refines-put_branch :
      (key branch : Slice) (ver : Hash)
      → length key < 2 ^ 16
      → length (value ver) ≡ 20
      → Refines (Head.put_branch h key branch ver) (Table.put_branch r key branch ver)
  unfolding Table.put_branch Head.put_branch Head.with_branches
  Refines-put_branch key branch null k d = absurd (omega arith)
  Refines-put_branch key branch (of v) k d = record {
    heads = Heads-put_branch accepts h r.branch_db f.heads key k branch v d;
    latest = f.latest;
  }

  Refines-put_latest :
      (key : Slice) (prev1 prev2 ver : Hash)
      → Refines (Head.put_latest h key prev1 prev2 ver) (Table.put_latest r key prev1 prev2 ver)
  unfolding Table.put_latest Head.put_latest find_branch
  Refines-put_latest key prev1 prev2 ver = record {
    heads = f.heads;
    latest = Keys-put_latest accepts h r.latest_db key prev1 prev2 ver f.latest;
  }

  Refines-remove_branch :
      (key branch : Slice)
      → length key < 2 ^ 16
      → Refines (Head.remove_branch h key branch) (Table.remove_branch r key branch)
  unfolding Table.remove_branch Table.exists_branch
  Refines-remove_branch key branch k =
      elim (Bool-cases (BranchDb.exists db r.branch_db key branch)) [
        | inl e ↦ rw e (record {
          heads = Heads-delete accepts h r.branch_db f.heads key k branch;
          latest = λ key'. rw remove_branch-latest_ver (f.latest key');
        })
        | inr e ↦ rw e (record {
          heads = Heads-absent accepts h r.branch_db f.heads key k branch e;
          latest = λ key'. rw remove_branch-latest_ver (f.latest key');
        })
      ]

  Refines-rename_branch :
      (key old_branch new_branch : Slice) (ver : Hash) (h' : HeadVersion)
      → length key < 2 ^ 16
      → find_branch h key old_branch ≡ some ver
      → find_branch h key new_branch ≡ none
      → Head.rename_branch h key old_branch new_branch ≡ some h'
      → Refines h' (Table.rename_branch r key old_branch new_branch)
  unfolding Table.rename_branch
  Refines-rename_branch key old_branch new_branch ver h' k o n e = record {
    heads = Heads-move accepts h r.branch_db f.heads key k old_branch new_branch ver h' o n e;
    latest = λ key'. rw (after_rename h key old_branch new_branch ver h' o n e).1 (f.latest key');
  }

module _ {db : KeyValueDb} (accepts : Accepts db) where
  pub Together-Refines : {h : HeadVersion} {r : RocksHeadVersion db} → Together h r → Refines h r
  unfolding find_branch Dict.lookup get_head
  Together-Refines (start b l) = record {
    heads = λ key branch k. rw (b (db_key key branch)) refl;
    latest = λ key. rw (l key) refl;
  }
  Together-Refines (put_branch t key branch ver k d) =
      Refines-put_branch accepts (Together-Refines t) key branch ver k d
  Together-Refines (put_latest t key prev1 prev2 ver) =
      Refines-put_latest accepts (Together-Refines t) key prev1 prev2 ver
  Together-Refines (remove_branch t key branch k) =
      Refines-remove_branch accepts (Together-Refines t) key branch k
  Together-Refines (rename_branch {h} {h'} {r} t key old_branch new_branch ver k o n e) =
      Refines-rename_branch accepts (Together-Refines t) key old_branch new_branch ver h' k o n e
