-- ===== src/Rocks/Answers.antt =====
-- The readers of both tables of heads (include/worker/rocks_head_version.h,
-- include/worker/simple_head_version.h).
use forkbase.Base.{
  ◌≡◌, ◌^◌, ◌<◌, refl, sym, ◌∙◌, Option, none, some, Bytes, length, take, bytes_eq, Option-cases,
  inl, inr,
}
use forkbase.Slice.{Slice}
use forkbase.Hash.{Hash, of, hash_eq}
use forkbase.Head
use forkbase.Head.{HeadVersion, find_branch, contains, or_empty}
use forkbase.Rocks.{KeyValueDb, Accepts, member}
use forkbase.Rocks.Memory.{member-keys}
use forkbase.Rocks.BranchDb.{get_head, read_head, db_key}
use forkbase.Rocks.BranchDb
use forkbase.Rocks.Table.{RocksHeadVersion, exists_from, exists_in}
use forkbase.Rocks.Table
use forkbase.Rocks.Versions.{exists_key-lookup}
use forkbase.Rocks.Refines.{Refines, Together, Together-Refines}

-- The readers of a key, a branch and a version that are a matter of heads and keys.
pub record SameAnswers {db : KeyValueDb} (h : HeadVersion) (r : RocksHeadVersion db)
    (key branch : Slice) (ver : Hash) : Type 0 where
  pub get_branch_same : Table.get_branch r key branch ≡ Head.get_branch h key branch
  pub exists_branch_same : Table.exists_branch r key branch ≡ Head.exists_branch h key branch
  pub is_branch_head_same :
      Table.is_branch_head r key branch ver ≡ Head.is_branch_head h key branch ver
  pub exists_key_same : Table.exists_key r key ≡ Head.exists_key h key
  pub list_key_same : member key (Table.list_key r) ≡ member key (Head.list_key h)

module _ {db : KeyValueDb} {h : HeadVersion} {r : RocksHeadVersion db} (f : Refines h r)
    (key branch : Slice) where
  answers_exists_key : Table.exists_key r key ≡ Head.exists_key h key
  unfolding Table.exists_key Table.latest_exists
  answers_exists_key = rw exists_key-lookup (f.latest key)

  answers_list_key : member key (Table.list_key r) ≡ member key (Head.list_key h)
  unfolding Table.list_key Head.list_key
  answers_list_key =
      KeyValueDb.member-keys db r.latest_db key ∙ f.latest key ∙ sym (member-keys key h.latest_ver)

  module _ (k : length key < 2 ^ 16) where
    found :
        (o : Option Hash) → find_branch h key branch ≡ o → get_head db r.branch_db key branch ≡ o
    found o e = f.heads key branch k ∙ e

    answers_exists_branch : Table.exists_branch r key branch ≡ Head.exists_branch h key branch
    unfolding Table.exists_branch BranchDb.exists Head.exists_branch get_head
    answers_exists_branch =
        elim (Option-cases (KeyValueDb.get db r.branch_db (db_key key branch))) [
          | inl g ↦
              let e : none ≡ find_branch h key branch = rw g at (f.heads key branch k) in
              rw (← e, Head.exists_branch, g) refl
          | inr (b, g) ↦
              let e : some (of (take 20 b)) ≡ find_branch h key branch =
                rw g at (f.heads key branch k) in
              rw (← e, Head.exists_branch, g) refl
        ]

    answers_get_branch : Table.get_branch r key branch ≡ Head.get_branch h key branch
    unfolding Table.get_branch BranchDb.get Head.get_branch
    answers_get_branch = elim (Option-cases (find_branch h key branch)) [
      | inl e ↦ rw (found none e, BranchDb.get, e, Head.get_branch) refl
      | inr (b, e) ↦ rw (found (some b) e, BranchDb.get, e, Head.get_branch) refl
    ]

    answers_is_branch_head :
        (ver : Hash) → Table.is_branch_head r key branch ver ≡ Head.is_branch_head h key branch ver
    unfolding Table.is_branch_head Head.is_branch_head Head.get_branch
    answers_is_branch_head ver = elim (Option-cases (find_branch h key branch)) [
      | inl e ↦ rw (answers_get_branch, e, Head.is_branch_head, Head.get_branch) refl
      | inr (b, e) ↦ rw (answers_get_branch, e, Head.is_branch_head, Head.get_branch) refl
    ]

-- After calls of `PutBranch`, `PutLatest`, `RemoveBranch` and `RenameBranch` on both tables, made
-- side by side from empty tables on and on a database that takes every write, `GetBranch`,
-- `Exists(key, branch)`, `IsBranchHead` and `Exists(key)` answer alike, and `ListKey` lists the same
-- keys. Keys have less than 2 ^ 16 bytes, a head that is put is 20 bytes, and a branch that is
-- renamed is there and its new name is free, as `Worker::Rename` checks. Of the latest versions it is
-- only said which keys have any.
pub Together-SameAnswers :
    {db : KeyValueDb} {h : HeadVersion} {r : RocksHeadVersion db} (accepts : Accepts db)
    → Together h r
    → (key branch : Slice) (w : Bytes) → length key < 2 ^ 16
    → SameAnswers h r key branch (of w)
Together-SameAnswers accepts t key branch w k =
    let f = Together-Refines accepts t in
    record {
      get_branch_same = answers_get_branch f key branch k;
      exists_branch_same = answers_exists_branch f key branch k;
      is_branch_head_same = answers_is_branch_head f key branch k (of w);
      exists_key_same = answers_exists_key f key branch;
      list_key_same = answers_list_key f key branch;
    }
