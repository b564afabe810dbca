-- ===== src/Rocks/Table.antt =====
-- `RocksLatestVersionDB` and `RocksHeadVersion` (include/worker/rocks_head_version.h,
-- src/worker/rocks_head_version.cc). A write that fails is only logged.
use forkbase.Base.{
  ℕ, zero, suc, Bool, false, ◌||◌, Option, none, some, List, [], ◌∷◌, ◌++◌, map, Bytes, take, drop,
  ◌=?◌, bytes_eq, if◌then◌else◌,
}
use forkbase.Slice.{Slice}
use forkbase.Hash.{Hash, of, k_null, value, is_empty, hash_eq}
use forkbase.Store.{is_some}
use forkbase.Rocks.{KeyValueDb}
use forkbase.Rocks.Updater.{version_size, rounds, merge}
use forkbase.Rocks.BranchDb

-- The loop of `Get`, with `n` rounds left.
unfoldable pub versions_from : ℕ → Bytes → List Bytes
versions_from zero versions = []
versions_from (suc n) versions =
    take version_size versions ∷ versions_from n (drop version_size versions)

-- The loop of `Exists(key, ver)`.
unfoldable pub exists_from : ℕ → Bytes → Bytes → Bool
exists_from zero ver versions = false
exists_from (suc n) ver versions =
    take version_size versions =? ver || exists_from n ver (drop version_size versions)

-- `Exists(key, ver)` on what `DBGet` returns.
unfoldable pub exists_in : Bytes → Option Bytes → Bool
unfolding exists_from
exists_in ver none = false
exists_in ver (some versions) = exists_from (rounds versions) ver versions

-- `ver_update` as `Merge` hands it to the database.
unfoldable pub operand : Hash → Hash → Hash → Bytes
operand prev_ver1 prev_ver2 ver =
    if prev_ver1 =? k_null
    then value ver
    else if is_empty prev_ver2 || prev_ver2 =? k_null
    then value ver ++ value prev_ver1
    else value ver ++ (value prev_ver1 ++ value prev_ver2)

module _ (db : KeyValueDb) where
  unfoldable pub latest_get : KeyValueDb.S db → Slice → List Hash
  unfolding versions_from
  latest_get s key = elim (KeyValueDb.get db s key) [
    | none ↦ []
    | some versions ↦ map of (versions_from (rounds versions) versions)
  ]

  unfoldable pub latest_exists : KeyValueDb.S db → Slice → Bool
  latest_exists s key = is_some (KeyValueDb.get db s key)

  unfoldable pub latest_exists_version : KeyValueDb.S db → Slice → Hash → Bool
  unfolding exists_in
  latest_exists_version s key ver = exists_in (value ver) (KeyValueDb.get db s key)

  unfoldable pub latest_merge :
      KeyValueDb.S db → Slice → Hash → Hash → Hash → Bool × KeyValueDb.S db
  unfolding operand merge
  latest_merge s key prev_ver1 prev_ver2 ver =
      KeyValueDb.merge db merge s key (operand prev_ver1 prev_ver2 ver)

module _ (db : KeyValueDb) where
  pub record RocksHeadVersion : Type 0 where
    pub branch_db : KeyValueDb.S db
    pub latest_db : KeyValueDb.S db

module _ {db : KeyValueDb} where
  unfoldable pub get_branch : RocksHeadVersion db → Slice → Slice → Bool × Hash
  unfolding BranchDb.get
  get_branch r key branch = BranchDb.get db r.branch_db key branch

  unfoldable pub get_latest : RocksHeadVersion db → Slice → List Hash
  unfolding latest_get
  get_latest r key = latest_get db r.latest_db key

  unfoldable pub put_branch : RocksHeadVersion db → Slice → Slice → Hash → RocksHeadVersion db
  unfolding BranchDb.put
  put_branch r key branch ver = record r {
    branch_db = (BranchDb.put db r.branch_db key branch (value ver)).1;
  }

  unfoldable pub put_latest : RocksHeadVersion db → Slice → Hash → Hash → Hash → RocksHeadVersion db
  unfolding latest_merge
  put_latest r key prev_ver1 prev_ver2 ver = record r {
    latest_db = (latest_merge db r.latest_db key prev_ver1 prev_ver2 ver).1;
  }

  unfoldable pub exists_key : RocksHeadVersion db → Slice → Bool
  unfolding latest_exists
  exists_key r key = latest_exists db r.latest_db key

  unfoldable pub exists_branch : RocksHeadVersion db → Slice → Slice → Bool
  unfolding BranchDb.exists
  exists_branch r key branch = BranchDb.exists db r.branch_db key branch

  unfoldable pub remove_branch : RocksHeadVersion db → Slice → Slice → RocksHeadVersion db
  unfolding exists_branch BranchDb.delete
  remove_branch r key branch =
      if exists_branch r key branch
      then record r { branch_db = (BranchDb.delete db r.branch_db key branch).1 }
      else r

  unfoldable pub rename_branch : RocksHeadVersion db → Slice → Slice → Slice → RocksHeadVersion db
  unfolding BranchDb.move
  rename_branch r key old_branch new_branch = record r {
    branch_db = (BranchDb.move db r.branch_db key old_branch new_branch).1;
  }

  unfoldable pub is_latest : RocksHeadVersion db → Slice → Hash → Bool
  unfolding latest_exists_version
  is_latest r key ver = latest_exists_version db r.latest_db key ver

  unfoldable pub is_branch_head : RocksHeadVersion db → Slice → Slice → Hash → Bool
  unfolding get_branch
  is_branch_head r key branch ver =
      let got = get_branch r key branch in if got.0 then got.1 =? ver else false

  unfoldable pub list_key : RocksHeadVersion db → List Slice
  list_key r = KeyValueDb.keys db r.latest_db

  unfoldable pub list_branch : RocksHeadVersion db → Slice → List Slice
  unfolding BranchDb.get_branches
  list_branch r key = BranchDb.get_branches db r.branch_db key
