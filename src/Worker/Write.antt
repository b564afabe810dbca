-- ===== src/Worker/Write.antt =====
-- Writing values: `CheckString`, `WriteBlob`, `WriteList`, `WriteMap`, `WriteSet`, `PutUnkeyed`,
-- `CreateUCell` and `WriteUCell`.
use forkbase.Base.{
  ℕ, Bool, true, false, not, ◌&&◌, ◌||◌, none, some, List, [], ◌∷◌, length, ltb, ◌==◌, ◌=?◌,
  if◌then◌else◌,
}
use forkbase.Hash.{Hash, is_empty, value, k_null, hash_eq}
use forkbase.Types.{UType, ErrorCode}
use forkbase.Chunk.{hash_of}
use forkbase.Cell.{new_cell_chunk, cell_key, pre_hash}
use forkbase.Slice.{Slice}
use forkbase.Head.{put_latest}
use forkbase.Store.{
  Env, Edit, ChunkStore, create_blob, splice_blob, create_list, splice_list, create_map,
  set_map_all, set_map, remove_map, create_set, set_set, remove_set,
}
use forkbase.Worker.{Run, Value, Result, ok, err, as_ucell, pure, fail, ◌>>=◌}

abbrev pub is_nil {ℓ} : {A : Type ℓ} → List A → Bool
is_nil [] = true
is_nil (x ∷ xs) = false

-- `!val.dels && val.vals.empty()`
abbrev pub no_change : ℕ → List Slice → Bool
no_change dels items = dels == 0 && is_nil items

-- `CheckString`, whose every path but one is `kInvalidValue`.
unfoldable pub check_string : Value → Result (Unit {0})
check_string val =
    if is_empty val.base
    then if not (length val.vals == 1) then err ErrorCode.invalid_value else ok tt
    else if no_change val.dels val.vals
    then err ErrorCode.invalid_value
    else err ErrorCode.invalid_value

abbrev pub front : List Slice → Slice
front [] = []
front (x ∷ xs) = x

module _ {env : Env} where
  -- A call of a chunkable type on the worker's store; the root that it returns.
  unfoldable pub call : Edit → Run env Hash
  call e w = elim (env.run e w.store) [
    | none ↦ none
    | some (root, store') ↦ some (ok root, record w { store = store' })
  ]

  -- The object that a constructor made is `empty()`, or its hash is the result.
  abbrev pub created : ErrorCode → Hash → Run env Hash
  created e root = if is_empty root then fail e else pure root

  -- An update that returns `Hash::kNull` failed.
  abbrev pub modified : ErrorCode → Hash → Run env Hash
  modified e root = if root =? k_null then fail e else pure root

  unfoldable pub write_blob : Value → Run env Hash
  write_blob val =
      if is_empty val.base
      then (if not (length val.vals == 1)
          then fail ErrorCode.invalid_value
          else call (create_blob (front val.vals)) >>= created ErrorCode.failed_create_sblob)
      else if no_change val.dels val.vals
      then pure val.base
      else if ltb 1 (length val.vals)
      then fail ErrorCode.invalid_value
      else call (splice_blob val.base val.pos val.dels (front val.vals))
        >>= modified ErrorCode.failed_modify_sblob

  unfoldable pub write_list : Value → Run env Hash
  write_list val =
      if is_empty val.base
      then call (create_list val.vals) >>= created ErrorCode.failed_create_slist
      else if no_change val.dels val.vals
      then pure val.base
      else call (splice_list val.base val.pos val.dels val.vals)
        >>= modified ErrorCode.failed_modify_slist

  unfoldable pub write_map : Value → Run env Hash
  write_map val =
      if is_empty val.base
      then (if not (length val.keys == length val.vals)
          then fail ErrorCode.invalid_value
          else call (create_map val.keys val.vals) >>= created ErrorCode.failed_create_smap)
      else if no_change val.dels val.vals
      then pure val.base
      else if ltb 1 (length val.keys)
      then (if not (length val.keys == length val.vals) || not (val.dels == 0)
          then fail ErrorCode.invalid_value
          else call (set_map_all val.base val.keys val.vals)
            >>= modified ErrorCode.failed_modify_smap)
      else if not (length val.keys == 1) || ltb (length val.keys) (length val.vals)
      then fail ErrorCode.invalid_value
      else (if not (val.dels == 0)
          then call (remove_map val.base (front val.keys))
          else call (set_map val.base (front val.keys) (front val.vals)))
        >>= modified ErrorCode.failed_modify_smap

  unfoldable pub write_set : Value → Run env Hash
  write_set val =
      if is_empty val.base
      then call (create_set val.keys) >>= created ErrorCode.failed_create_sset
      else if no_change val.dels val.keys
      then pure val.base
      else if not (length val.keys == 1)
      then fail ErrorCode.invalid_value
      else (if not (val.dels == 0)
          then call (remove_set val.base (front val.keys))
          else call (set_set val.base (front val.keys)))
        >>= modified ErrorCode.failed_modify_sset

  -- The `switch` of `PutUnkeyed`.
  unfoldable pub write_by_type : UType → Value → Run env Hash
  write_by_type UType.blob val = write_blob val
  write_by_type UType.list val = write_list val
  write_by_type UType.map val = write_map val
  write_by_type UType.set val = write_set val
  write_by_type _ val = fail ErrorCode.type_unsupported

  unfoldable pub put_unkeyed : Value → Run env Hash
  put_unkeyed val = write_by_type val.type val

  -- `UCell::Create`, then `UpdateLatestVersion` with what the new cell's readers return.
  unfoldable pub create_ucell : Slice → UType → Slice → Slice → Hash → Hash → Run env Hash
  create_ucell key utype utype_data ctx prev_ver1 prev_ver2 w =
      elim (new_cell_chunk utype key utype_data ctx prev_ver1 prev_ver2) [
        | none ↦ none
        | some chunk ↦
            let ver = hash_of env.digest chunk in
            let store' = ChunkStore.put env.chunks w.store ver chunk in
            elim (as_ucell (some chunk)) [
              | none ↦ none
              | some none ↦ some (err ErrorCode.failed_create_ucell, record w { store = store' })
              | some (some cell) ↦ some (
                ok ver,
                record {
                  head = put_latest w.head (cell_key cell) (pre_hash 0 cell) (pre_hash 1 cell) ver;
                  store = store';
                },
              )
            ]
      ]

  -- `WriteUCell`: strings stand in the cell, the chunkable types by their root hash.
  unfoldable pub write_ucell_by_type : UType → Slice → Value → Hash → Hash → Run env Hash
  write_ucell_by_type UType.string key val prev_ver1 prev_ver2 =
      (λ w. some (check_string val, w)) >>= λ _.
      create_ucell key val.type (front val.vals) val.ctx prev_ver1 prev_ver2
  write_ucell_by_type _ key val prev_ver1 prev_ver2 =
      put_unkeyed val >>= λ root. create_ucell key val.type (value root) val.ctx prev_ver1 prev_ver2

  unfoldable pub write_ucell : Slice → Value → Hash → Hash → Run env Hash
  write_ucell key val prev_ver1 prev_ver2 = write_ucell_by_type val.type key val prev_ver1 prev_ver2
