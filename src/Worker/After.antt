-- ===== src/Worker/After.antt =====
-- `Put` after a version (src/worker/worker.cc), on every path.
use forkbase.Base.{
  ℕ, ◌≡◌, refl, ◌∙◌, ◌<◌, ◌^◌, true, false, not, ◌&&◌, ◌||◌, some, List, ◌=?◌, if◌then◌else◌, arith,
  Bool-cases, inl, inr, bytes_eq, Bytes, length,
}
use forkbase.Hash.{Hash, null, of, k_null, hash_eq, byte_length}
use forkbase.Types.{UType, ErrorCode}
use forkbase.Chunk.{Chunk, hash_of, data_of}
use forkbase.Cell.RoundTrip.{Holds}
use forkbase.Slice.{Slice}
use forkbase.Head.{is_latest, put_latest}
use forkbase.Head.Latest.{is_latest-put_latest}
use forkbase.Store.{Env}
use forkbase.Store.Contract.{exists-put}
use forkbase.Worker.{Worker, Value, Result, ok, err}
use forkbase.Worker.Methods.{exists_version, put_version}
use forkbase.Worker.Versions.{with_cell}
use forkbase.Worker.Effects.{new_string, put_version-known, write_string}

-- How `Put` of a string after a version ends.
pub data PutsAfter {env : Env} (w w' : Worker env) (key text ctx : Slice) (prev_ver : Hash)
    (r : Result Hash) : Type 0 where
  unknown :
      (prev_ver =? k_null) ≡ false
      → exists_version w prev_ver ≡ false
      → r ≡ err ErrorCode.referring_version_not_exist
      → w' ≡ w
      → PutsAfter w w' key text ctx prev_ver r
  made :
      (c : Chunk)
      → (prev_ver =? k_null || exists_version w prev_ver) ≡ true
      → r ≡ ok (hash_of env.digest c)
      → Holds UType.string key text ctx prev_ver null (data_of c)
      → exists_version w' (hash_of env.digest c) ≡ true
      → ((key' : Slice) (v : Hash)
          → is_latest w'.head key' v ≡ (
              if key =? key'
              then hash_of env.digest c =? v || (not (prev_ver =? v) && is_latest w.head key' v)
              else is_latest w.head key' v))
      → w'.head.branch_ver ≡ w.head.branch_ver
      → PutsAfter w w' key text ctx prev_ver r

module _ {env : Env} where
  put_version-unknown :
      (key : Slice) (val : Value) (ver : Hash) (w : Worker env)
      → (ver =? k_null || exists_version w ver) ≡ false
      → put_version key val ver w ≡ some (err ErrorCode.referring_version_not_exist, w)
  unfolding put_version
  put_version-unknown key val ver w h = rw h refl

  exists-with_cell :
      (w : Worker env) (c : Chunk) → exists_version (with_cell w c) (hash_of env.digest c) ≡ true
  unfolding exists_version with_cell
  exists-with_cell w c = exists-put env.chunks w.store (hash_of env.digest c) c

  -- What is among the latest versions once a cell was made that follows one version.
  latest-with_cell :
      (w : Worker env) (c : Chunk) (key : Slice) (b : Bytes) {type : UType} {text ctx : Slice}
      → Holds type key text ctx (of b) null (data_of c)
      → (key' : Slice) (v : Hash)
      → is_latest (with_cell w c).head key' v ≡ (
          if key =? key'
          then hash_of env.digest c =? v || (not (of b =? v) && is_latest w.head key' v)
          else is_latest w.head key' v)
  unfolding with_cell
  latest-with_cell w c key b t key' v =
      rw (t.key_is, t.pre1_is, t.pre2_is)
        (is_latest-put_latest w.head key (of b) null (hash_of env.digest c) key' v)

  -- `Put` of a new string after a version always ends, if key, text and context fit a cell. If the
  -- version is neither `kNull` nor in the store, it fails with `kReferringVersionNotExist` and the
  -- worker is as it was. Else the version that it returns is stored and is a cell with the key, the
  -- text and the context that follows the version alone; it is a latest version of the key and the
  -- one it follows is no longer, unless it is that very version; the latest versions are otherwise
  -- as they were, and no branch moves.
  pub put_version-PutsAfter :
      (text ctx : Slice) (pos dels : ℕ) (keys : List Slice) (key : Slice) (b : Bytes)
      (w : Worker env)
      → length key < 2 ^ 16
      → length text < 2 ^ 15
      → length ctx < 2 ^ 15
      → length b ≡ byte_length
      → (r : Result Hash) × (w' : Worker env) × (put_version key
            (new_string text ctx pos dels keys)
            (of b)
            w
          ≡ some (r, w'))
        × PutsAfter w w' key text ctx (of b) r
  put_version-PutsAfter text ctx pos dels keys key b w key_fits text_fits ctx_fits d =
      let val = new_string text ctx pos dels keys in
      elim (Bool-cases (of b =? k_null || exists_version w (of b))) [
        | inr h ↦ (
          err ErrorCode.referring_version_not_exist,
          w,
          put_version-unknown key val (of b) w h,
          unknown (ground (arith, h)) (ground (arith, h)) refl refl,
        )
        | inl h ↦
            let t =
              write_string text ctx pos dels keys key key_fits text_fits ctx_fits b null w d tt in
            let c = t.0 in
            (
              ok (hash_of env.digest c),
              with_cell w c,
              put_version-known key val (of b) w h ∙ t.1,
              made c h refl t.2 (exists-with_cell w c) (latest-with_cell w c key b t.2)
                  (unfold with_cell in unfold put_latest in refl),
            )
      ]
