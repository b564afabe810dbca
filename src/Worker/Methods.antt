-- ===== src/Worker/Methods.antt =====
-- The public methods of `Worker`. Overloads are told apart by what they take: a branch or a version.
use forkbase.Base.{Bool, not, ◌&&◌, ◌||◌, none, some, List, Bytes, ◌=?◌, if◌then◌else◌}
use forkbase.Hash.{Hash, null, k_null, hash_eq}
use forkbase.Types.{ErrorCode}
use forkbase.Chunk.{Chunk}
use forkbase.Cell.{cell_key}
use forkbase.Slice.{Slice}
use forkbase.Slice
use forkbase.Head
use forkbase.Store.{Env, ChunkStore}
use forkbase.Worker.{Worker, Run, Value, ok, err, as_ucell, pure, ◌>>=◌}
use forkbase.Worker.Write.{write_ucell, is_nil}

module _ {env : Env} where
  -- `Exists(ver)`
  unfoldable pub exists_version : Worker env → Hash → Bool
  exists_version w ver = ChunkStore.exists env.chunks w.store ver

  -- `Exists(key)` and `Exists(key, branch)`
  unfoldable pub exists_key : Worker env → Slice → Bool
  exists_key w key = Head.exists_key w.head key

  unfoldable pub exists_branch : Worker env → Slice → Slice → Bool
  exists_branch w key branch = Head.exists_branch w.head key branch

  -- The result of `head_ver_.GetBranch`, or an error if there is no such branch.
  unfoldable pub branch_or : ErrorCode → Slice → Slice → Run env Hash
  branch_or e key branch w =
      let (found, ver) = Head.get_branch w.head key branch in
      if found then some (ok ver, w) else some (err e, w)

  unfoldable pub get_branch_head : Slice → Slice → Run env Hash
  get_branch_head key branch = branch_or ErrorCode.branch_not_exists key branch

  -- `Get(key, ver, ucell)`; the result is the data of the cell's chunk.
  unfoldable pub get_version : Slice → Hash → Run env Bytes
  get_version key ver w = elim (as_ucell (ChunkStore.get env.chunks w.store ver)) [
    | none ↦ none
    | some none ↦ some (err ErrorCode.ucell_not_exists, w)
    | some (some cell) ↦
        if not (Slice.eq (cell_key cell) key)
        then some (err ErrorCode.inconsistent_key, w)
        else some (ok cell, w)
  ]

  -- `Get(key, branch, ucell)`
  unfoldable pub get : Slice → Slice → Run env Bytes
  get key branch w =
      let (found, ver) = Head.get_branch w.head key branch in
      if found
      then get_version key ver w
      else if exists_key w key
      then some (err ErrorCode.branch_not_exists, w)
      else some (err ErrorCode.key_not_exists, w)

  -- A head that is written once the version is made.
  unfoldable pub set_head : Slice → Slice → Hash → Run env Hash
  set_head key branch ver w =
      some (ok ver, record w { head = Head.put_branch w.head key branch ver })

  -- `Put(key, val, prev_ver, ver)`
  unfoldable pub put_version : Slice → Value → Hash → Run env Hash
  put_version key val prev_ver w =
      if prev_ver =? k_null || exists_version w prev_ver
      then write_ucell key val prev_ver null w
      else some (err ErrorCode.referring_version_not_exist, w)

  -- The private `Put(key, val, branch, prev_ver, ver)`: the head moves if the branch has a name.
  unfoldable pub put_after : Slice → Value → Slice → Hash → Run env Hash
  put_after key val branch prev_ver = put_version key val prev_ver >>= λ ver.
      if not (is_nil branch) then set_head key branch ver else pure ver

  -- `Put(key, val, branch, ver)`: after the branch's head, or `kNull` if there is none.
  unfoldable pub put : Slice → Value → Slice → Run env Hash
  put key val branch w =
      let (found, head) = Head.get_branch w.head key branch in put_after key val branch head w

  -- `Merge(key, val, ref_ver1, ref_ver2, ver)`
  unfoldable pub merge_versions : Slice → Value → Hash → Hash → Run env Hash
  merge_versions key val ref_ver1 ref_ver2 w =
      if exists_version w ref_ver1 && exists_version w ref_ver2
      then write_ucell key val ref_ver1 ref_ver2 w
      else some (err ErrorCode.referring_version_not_exist, w)

  -- `Merge(key, val, tgt_branch, ref_ver, ver)`
  unfoldable pub merge_version : Slice → Value → Slice → Hash → Run env Hash
  merge_version key val tgt_branch ref_ver =
      branch_or ErrorCode.branch_not_exists key tgt_branch >>= λ tgt_ver.
      merge_versions key val tgt_ver ref_ver >>= λ ver. set_head key tgt_branch ver

  -- `Merge(key, val, tgt_branch, ref_branch, ver)`
  unfoldable pub merge : Slice → Value → Slice → Slice → Run env Hash
  merge key val tgt_branch ref_branch =
      branch_or ErrorCode.branch_not_exists key ref_branch >>= λ ref_ver.
      merge_version key val tgt_branch ref_ver

  -- `Branch(key, ver, new_branch)`
  unfoldable pub branch_version : Slice → Hash → Slice → Run env (Unit {0})
  branch_version key ver new_branch w =
      if exists_branch w key new_branch
      then some (err ErrorCode.branch_exists, w)
      else if exists_version w ver
      then some (ok tt, record w { head = Head.put_branch w.head key new_branch ver })
      else some (err ErrorCode.referring_version_not_exist, w)

  -- `Branch(key, old_branch, new_branch)`
  unfoldable pub branch : Slice → Slice → Slice → Run env (Unit {0})
  branch key old_branch new_branch = branch_or ErrorCode.branch_not_exists key old_branch >>= λ ver.
      branch_version key ver new_branch

  -- `Rename`; `none` where `RenameBranch` throws.
  unfoldable pub rename : Slice → Slice → Slice → Run env (Unit {0})
  rename key old_branch new_branch w =
      if not (exists_branch w key old_branch)
      then some (err ErrorCode.branch_not_exists, w)
      else if exists_branch w key new_branch
      then some (err ErrorCode.branch_exists, w)
      else elim (Head.rename_branch w.head key old_branch new_branch) [
        | none ↦ none
        | some head' ↦ some (ok tt, record w { head = head' })
      ]

  -- `Delete`
  unfoldable pub delete : Slice → Slice → Run env (Unit {0})
  delete key branch w =
      if not (exists_branch w key branch)
      then some (err ErrorCode.branch_not_exists, w)
      else some (ok tt, record w { head = Head.remove_branch w.head key branch })

  unfoldable pub get_chunk : Hash → Run env Chunk
  get_chunk ver w = elim (ChunkStore.get env.chunks w.store ver) [
    | none ↦ some (err ErrorCode.chunk_not_exists, w)
    | some chunk ↦ some (ok chunk, w)
  ]

  unfoldable pub list_keys : Worker env → List Slice
  list_keys w = Head.list_key w.head

  unfoldable pub list_branches : Worker env → Slice → List Slice
  list_branches w key = Head.list_branch w.head key

  unfoldable pub is_branch_head : Worker env → Slice → Slice → Hash → Bool
  is_branch_head w key branch ver = Head.is_branch_head w.head key branch ver

  unfoldable pub get_latest_versions : Worker env → Slice → List Hash
  get_latest_versions w key = Head.get_latest w.head key

  unfoldable pub is_latest_version : Worker env → Slice → Hash → Bool
  is_latest_version w key ver = Head.is_latest w.head key ver
