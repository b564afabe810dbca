-- ===== src/Worker/Effects.antt =====
-- What a successful call of a worker does (src/worker/worker.cc).
use forkbase.Base.{
  ℕ, ◌≡◌, refl, ◌∙◌, ◌<◌, ◌^◌, true, false, not, ◌&&◌, ◌||◌, none, some, List, [], ◌∷◌, ◌=?◌,
  if◌then◌else◌, arith, Option-cases, inl, inr, bytes_eq, Bytes, length, replicate, beq_refl,
}
use forkbase.Hash.{Hash, null, of, k_null, hash_eq, byte_length}
use forkbase.Types.{UType, ErrorCode}
use forkbase.Chunk.{Chunk, hash_of, data_of}
use forkbase.Cell.{cell_key}
use forkbase.Cell.RoundTrip.{Holds, new_cell_chunk-Holds, IsOptionalDigest}
use forkbase.Slice.{Slice}
use forkbase.Slice.Order.{eq_iff}
use forkbase.Head
use forkbase.Head.{find_branch, or_empty, put_branch, put_latest, is_latest}
use forkbase.Head.Laws.{same, find_branch-put_branch, find_branch-rename_branch}
use forkbase.Head.Latest.{is_latest-put_latest}
use forkbase.Head.WellFormed.{IsWellFormed, IsDigest-find_branch}
use forkbase.Store.{Env, ChunkStore}
use forkbase.Store.Contract.{get-put_self}
use forkbase.Worker.{Worker, Value, Result, ok, err, ◌>>=◌, as_ucell}
use forkbase.Worker.Write.{is_nil, check_string, write_ucell, write_ucell_by_type}
use forkbase.Worker.Methods.{
  exists_version, set_head, put_version, put_after, put, get, get_version, rename, merge_versions,
}
use forkbase.Worker.Versions.{with_cell, create_ucell-with_cell, as_ucell-cell}
use forkbase.Worker.Sound.{IsSound}
use forkbase.Worker.Ends.{exists_none, exists_some, rename-ok}

-- A string that is written for the first time; the other fields of the value do not matter.
abbrev pub new_string : Slice → Slice → ℕ → ℕ → List Slice → Value
new_string text ctx pos dels keys = record {
  type = UType.string;
  base = null;
  pos = pos;
  dels = dels;
  vals = text ∷ [];
  keys = keys;
  ctx = ctx;
}

module _ {env : Env} where
  -- What `Put` on a branch follows: its head, which is in the store, or `kNull`.
  prev_head :
      (w : Worker env) (key branch : Slice)
      → IsSound w
      → IsWellFormed w.head
      → (b : Bytes) × ((Head.get_branch w.head key branch).1 ≡ of b)
        × (length b ≡ byte_length)
        × ((of b =? k_null || exists_version w (of b)) ≡ true)
  unfolding Head.get_branch
  prev_head w key branch s f = elim (Option-cases (find_branch w.head key branch)) [
    | inl x ↦ (replicate byte_length 0, rw (x, Head.get_branch), refl, ground arith)
    | inr (ver, x) ↦ known ver x
  ]
    where
      known :
          (ver : Hash)
          → find_branch w.head key branch ≡ some ver
          → (b : Bytes) × ((Head.get_branch w.head key branch).1 ≡ of b)
            × (length b ≡ byte_length)
            × ((of b =? k_null || exists_version w (of b)) ≡ true)
      known null x = absurd (omega (arith, IsDigest-find_branch w.head key branch null f x))
      known (of b) x = (
        b,
        rw (x, Head.get_branch),
        IsDigest-find_branch w.head key branch (of b) f x,
        (let k = s.stored key branch (of b) x in rw k (ground arith)),
      )

  pub put_version-known :
      (key : Slice) (val : Value) (ver : Hash) (w : Worker env)
      → (ver =? k_null || exists_version w ver) ≡ true
      → put_version key val ver w ≡ write_ucell key val ver null w
  unfolding put_version
  put_version-known key val ver w h = rw h

  put-written :
      (key : Slice) (val : Value) (branch : Slice) (ver new : Hash) (w w1 : Worker env)
      → (Head.get_branch w.head key branch).1 ≡ ver
      → is_nil branch ≡ false
      → put_version key val ver w ≡ some (ok new, w1)
      → put key val branch w ≡ some (ok new, record w1 { head = put_branch w1.head key branch new })
  unfolding put put_after set_head
  put-written key val branch ver new w w1 e named h = rw (e, h, ◌>>=◌) (rw named)

  get-found :
      (key branch : Slice) (ver : Hash) (c : Chunk) (w : Worker env)
      → find_branch w.head key branch ≡ some ver
      → ChunkStore.get env.chunks w.store ver ≡ some c
      → as_ucell (some c) ≡ some (some (data_of c))
      → cell_key (data_of c) ≡ key
      → get key branch w ≡ some (ok (data_of c), w)
  unfolding get Head.get_branch get_version
  get-found key branch ver c w at stored loaded same_key =
      rw (at, get, Head.get_branch)
        (rw (stored, get_version)
          (rw (loaded, get_version) (rw (same_key, (eq_iff key key).1 refl))))

module _ {env : Env} (text ctx : Slice) (pos dels : ℕ) (keys : List Slice) where
  module _ (key : Slice) (key_fits : length key < 2 ^ 16) (text_fits : length text < 2 ^ 15)
      (ctx_fits : length ctx < 2 ^ 15) where
    pub write_string :
        (b1 : Bytes) (pre2 : Hash) (w : Worker env)
        → length b1 ≡ byte_length
        → IsOptionalDigest pre2
        → (c : Chunk) × (write_ucell key (new_string text ctx pos dels keys) (of b1) pre2 w
            ≡ some (ok (hash_of env.digest c), with_cell w c))
          × Holds UType.string key text ctx (of b1) pre2 (data_of c)
          × (as_ucell (some c) ≡ some (some (data_of c)))
    unfolding write_ucell write_ucell_by_type check_string
    write_string b1 pre2 w d1 d2 =
        let t =
          new_cell_chunk-Holds UType.string key text ctx b1 pre2 d1 d2 key_fits text_fits
            ctx_fits in
        (
          t.0,
          create_ucell-with_cell key UType.string text ctx (of b1) pre2 w t.0 t.1,
          t.2,
          as_ucell-cell UType.string key text ctx (of b1) pre2 t.0 t.1,
        )

    -- Putting a new string on a named branch succeeds. The branch's head is then the version that
    -- was returned, a cell with the key, the text and the context that follows the old head
    -- (`kNull` if there was none); every other branch is as it was. If no other chunk of the store
    -- has the same hash, `Get` of the branch returns that cell. It is assumed that the heads are
    -- digests of stored versions, and that key, text and context fit a cell.
    pub put-get_string :
        (branch : Slice) (w : Worker env)
        → is_nil branch ≡ false
        → IsSound w
        → IsWellFormed w.head
        → (c : Chunk) × (w' : Worker env) × (put key (new_string text ctx pos dels keys) branch w
            ≡ some (ok (hash_of env.digest c), w'))
          × Holds UType.string key text ctx (Head.get_branch w.head key branch).1 null (data_of c)
          × ((key' branch' : Slice)
              → find_branch w'.head key' branch' ≡ (
                  if same key branch key' branch'
                  then some (hash_of env.digest c)
                  else find_branch w.head key' branch'))
          × (((d : Chunk)
                → ChunkStore.get env.chunks w.store (hash_of env.digest c) ≡ some d
                → d ≡ c)
              → get key branch w' ≡ some (ok (data_of c), w'))
    unfolding with_cell put_latest find_branch
    put-get_string branch w named s f =
        let p = prev_head w key branch s f in
        let t = write_string p.0 null w p.2 tt in
        let val = new_string text ctx pos dels keys in
        let c = t.0 in
        let ver = hash_of env.digest c in
        let w1 : Worker env = with_cell w c in
        let law = find_branch-put_branch w1.head key branch in
        (
          c,
          record w1 { head = put_branch w1.head key branch ver },
          put-written key val branch (of p.0) ver w w1 p.1 named
              (put_version-known key val (of p.0) w p.3 ∙ t.1),
          rw p.1 t.2,
          λ key' branch'. law key' branch' ver,
          λ alone.
              get-found key branch ver c _
                (law key branch ver ∙ (rw (beq_refl key, beq_refl branch)))
                (get-put_self env.chunks w.store ver c alone) t.3 t.2.key_is,
        )

    -- Merging two stored versions into a new string succeeds. The version that is returned is a
    -- cell with the key, the text and the context that follows both; it is a latest version of the
    -- key and the two are no longer, unless one of them is that very version; the latest versions
    -- are otherwise as they were, and no branch moves.
    pub merge_versions_string :
        (b1 b2 : Bytes) (w : Worker env)
        → length b1 ≡ byte_length
        → length b2 ≡ byte_length
        → exists_version w (of b1) ≡ true
        → exists_version w (of b2) ≡ true
        → (c : Chunk) × (w' : Worker env) × (merge_versions key
              (new_string text ctx pos dels keys)
              (of b1)
              (of b2)
              w
            ≡ some (ok (hash_of env.digest c), w'))
          × Holds UType.string key text ctx (of b1) (of b2) (data_of c)
          × ((key' : Slice) (v : Hash)
              → is_latest w'.head key' v ≡ (
                  if key =? key'
                  then hash_of env.digest c =? v
                    || (not (of b1 =? v) && (not (of b2 =? v) && is_latest w.head key' v))
                  else is_latest w.head key' v))
          × (w'.head.branch_ver ≡ w.head.branch_ver)
    unfolding with_cell merge_versions
    merge_versions_string b1 b2 w d1 d2 e1 e2 =
        let t = write_string b1 (of b2) w d1 d2 in
        let c = t.0 in
        let ver = hash_of env.digest c in
        let law = is_latest-put_latest w.head key (of b1) (of b2) ver in
        (
          c,
          with_cell w c,
          rw (e1, e2) t.1,
          t.2,
          λ key' v. rw (t.2.key_is, t.2.pre1_is, t.2.pre2_is) (law key' v),
          unfold put_latest in refl,
        )

module _ {env : Env} where
  -- How `Rename` of `old` to `new` ends.
  pub data Renames (w w' : Worker env) (key old new : Slice) (r : Result (Unit {0})) : Type 0 where
    no_branch :
        find_branch w.head key old ≡ none
        → r ≡ err ErrorCode.branch_not_exists
        → w' ≡ w
        → Renames w w' key old new r
    taken :
        (v u : Hash)
        → find_branch w.head key old ≡ some v
        → find_branch w.head key new ≡ some u
        → r ≡ err ErrorCode.branch_exists
        → w' ≡ w
        → Renames w w' key old new r
    renamed :
        (v : Hash)
        → find_branch w.head key old ≡ some v
        → find_branch w.head key new ≡ none
        → r ≡ ok tt
        → ((key' branch' : Slice)
            → find_branch w'.head key' branch' ≡ (
                if same key new key' branch'
                then some v
                else if same key old key' branch'
                then none
                else find_branch w.head key' branch'))
        → w'.store ≡ w.store
        → w'.head.latest_ver ≡ w.head.latest_ver
        → Renames w w' key old new r

  -- `Rename` always ends without an exception: with `kBranchNotExists` if there is no old branch,
  -- else `kBranchExists` if there is a new one, both leaving the worker as it was; else the new
  -- branch has the head of the old one, which is gone, and nothing else has changed.
  pub rename-Renames :
      (w : Worker env) (key old new : Slice)
      → (r : Result (Unit {0})) × (w' : Worker env) × (rename key old new w ≡ some (r, w'))
        × Renames w w' key old new r
  unfolding rename
  rename-Renames w key old new = elim (Option-cases (find_branch w.head key old)) [
    | inl x ↦
        (err ErrorCode.branch_not_exists, w, rw (exists_none w key old x), no_branch x refl refl)
    | inr (v, x) ↦ elim (Option-cases (find_branch w.head key new)) [
      | inr (u, y) ↦ (
        err ErrorCode.branch_exists,
        w,
        rw (exists_some w key old v x, exists_some w key new u y),
        taken v u x y refl refl,
      )
      | inl y ↦
          let t = find_branch-rename_branch w.head key old new v x y in
          (
            ok tt,
            record w { head = t.0 },
            rename-ok w key old new v t.0 x y t.1,
            renamed v x y refl t.2 refl t.3,
          )
    ]
  ]
