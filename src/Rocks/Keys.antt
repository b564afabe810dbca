-- ===== src/Rocks/Keys.antt =====
-- The keys of the database of branch heads (`DBKey` and `ExtractBranch`,
-- src/worker/rocks_head_version.cc).
use forkbase.Base.{
  ◌≡◌, ◌^◌, ◌<◌, refl, ap, ◌∙◌, sym, [], ◌++◌, length, take, drop, le_bytes, read_le,
  length-le_bytes, read_le-append, take-append, drop-append, drop-add, ◌=?◌, bytes_eq, arith,
}
use forkbase.Slice.{Slice}
use forkbase.Head.Laws.{same}
use forkbase.Rocks.BranchDb.{db_key, extract_branch}

module _ (key branch : Slice) where
  db_key-length : length key < 2 ^ 16 → read_le 2 0 (db_key key branch) ≡ length key
  unfolding db_key
  db_key-length h = read_le-append 2 0 (length key) [] (key ++ branch) refl h

  db_key_tail : drop 2 (db_key key branch) ≡ key ++ branch
  unfolding db_key
  db_key_tail =
      drop-append 2 (le_bytes 2 (length key)) (key ++ branch) (length-le_bytes 2 (length key))

  -- The branch is read back from the key of the database, if the key has less than 2 ^ 16 bytes.
  extract_branch-db_key : length key < 2 ^ 16 → extract_branch (db_key key branch) ≡ branch
  unfolding extract_branch
  extract_branch-db_key h =
      rw (db_key-length h, sym (drop-add 2 (length key) (db_key key branch)), db_key_tail)
        (drop-append (length key) key branch refl)

db_key_iff :
    (key branch key' branch' : Slice)
    → length key < 2 ^ 16
    → length key' < 2 ^ 16
    → db_key key branch ≡ db_key key' branch'
    → (key ≡ key') × (branch ≡ branch')
db_key_iff key branch key' branch' h h' e =
    let n : length key ≡ length key' =
      sym (db_key-length key branch h) ∙ ap (read_le 2 0) e ∙ db_key-length key' branch' h' in
    let t : key ++ branch ≡ key' ++ branch' =
      sym (db_key_tail key branch) ∙ ap (drop 2) e ∙ db_key_tail key' branch' in
    let k : key ≡ key' =
      sym (take-append (length key) key branch refl)
      ∙ ap (take (length key)) t
      ∙ take-append (length key) key' branch' (sym n) in
    let b : branch ≡ branch' =
      sym (drop-append (length key) key branch refl)
      ∙ ap (drop (length key)) t
      ∙ drop-append (length key) key' branch' (sym n) in
    (k, b)

-- Two branches have one key in the database exactly if their keys and names are the same, for keys
-- of less than 2 ^ 16 bytes.
pub db_key-same :
    (key branch key' branch' : Slice)
    → length key < 2 ^ 16
    → length key' < 2 ^ 16
    → (db_key key branch =? db_key key' branch') ≡ same key branch key' branch'
db_key-same key branch key' branch' h h' = ground (
  arith,
  db_key_iff key branch key' branch' h h',
  bytes_eq.beq_iff (db_key key branch) (db_key key' branch'),
  bytes_eq.beq_iff key key',
  bytes_eq.beq_iff branch branch',
)
