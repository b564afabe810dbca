-- ===== src/Rocks/BranchDb.antt =====
-- `RocksBranchVersionDB` (src/worker/rocks_head_version.cc): the heads of branches, each under the
-- length of its key in two bytes, the key and the branch.
use forkbase.Base.{
  ℕ, ◌+◌, Bool, true, false, Option, none, some, List, [], ◌∷◌, ◌++◌, map, Bytes, length, take,
  drop, le_bytes, read_le, ◌=?◌, bytes_eq, if◌then◌else◌,
}
use forkbase.Slice.{Slice, lt}
use forkbase.Hash.{Hash, of, k_null, byte_length}
use forkbase.Store.{is_some}
use forkbase.Rocks.{KeyValueDb, put_entry, delete_entry}

-- `kKeySizeBytes`
abbrev pub key_size : ℕ
key_size = 2

-- `DBKey`: the cast to `key_size_t` keeps the two low bytes of the length.
unfoldable pub db_key : Slice → Slice → Bytes
db_key key branch = le_bytes key_size (length key) ++ (key ++ branch)

-- `ExtractBranch`
unfoldable pub extract_branch : Bytes → Slice
extract_branch k = drop (key_size + read_le key_size 0 k) k

-- `BranchPrefixTransform::Transform`
unfoldable pub prefix_of : Bytes → Bytes
prefix_of k = take (key_size + read_le key_size 0 k) k

-- `Seek` of an iterator: the first key that is not before this one, and those after it.
unfoldable pub seek : Bytes → List Bytes → List Bytes
seek k [] = []
seek k (j ∷ js) = let rest = seek k js in if lt j k then rest else j ∷ js

-- `prefix_same_as_start`: the iterator ends before the first key of another prefix.
unfoldable pub while_prefix : Bytes → List Bytes → List Bytes
unfolding prefix_of
while_prefix p [] = []
while_prefix p (j ∷ js) = let rest = while_prefix p js in if prefix_of j =? p then j ∷ rest else []

-- The hash is cloned from the first 20 bytes.
abbrev pub read_head : Option Bytes → Option Hash
read_head none = none
read_head (some version) = some (of (take byte_length version))

module _ (db : KeyValueDb) where
  -- `Get`, with `none` for `false`.
  unfoldable pub get_head : KeyValueDb.S db → Slice → Slice → Option Hash
  get_head s key branch = read_head (KeyValueDb.get db s (db_key key branch))

  -- `Get` as it is called: the result and what is written to `*ver`.
  unfoldable pub get : KeyValueDb.S db → Slice → Slice → Bool × Hash
  unfolding get_head
  get s key branch = elim (get_head s key branch) [
    | none ↦ (false, k_null)
    | some ver ↦ (true, ver)
  ]

  unfoldable pub exists : KeyValueDb.S db → Slice → Slice → Bool
  exists s key branch = is_some (KeyValueDb.get db s (db_key key branch))

  unfoldable pub put : KeyValueDb.S db → Slice → Slice → Bytes → Bool × KeyValueDb.S db
  put s key branch ver = KeyValueDb.put db s (db_key key branch) ver

  unfoldable pub delete : KeyValueDb.S db → Slice → Slice → Bool × KeyValueDb.S db
  delete s key branch = KeyValueDb.delete db s (db_key key branch)

  unfoldable pub move : KeyValueDb.S db → Slice → Slice → Slice → Bool × KeyValueDb.S db
  move s key old_branch new_branch = elim (KeyValueDb.get db s (db_key key old_branch)) [
    | none ↦ (false, s)
    | some head ↦
        KeyValueDb.write db s
          (put_entry (db_key key new_branch) head ∷ delete_entry (db_key key old_branch) ∷ [])
  ]

  -- `GetBranches`: the scan begins at the branch "*".
  unfoldable pub get_branches : KeyValueDb.S db → Slice → List Slice
  unfolding seek while_prefix extract_branch
  get_branches s key =
      let seek_key = db_key key (42 ∷ []) in
      map extract_branch (while_prefix (prefix_of seek_key) (seek seek_key (KeyValueDb.keys db s)))
