-- ===== src/Worker/Versions.antt =====
-- Making a version: WriteUCell, Put after a version and Merge of versions (src/worker/worker.cc).
use mathlib.Core.Path.{subst, subst₂}
use forkbase.Base.{
  ◌≡◌, refl, ◌∙◌, true, ◌&&◌, ◌||◌, Option, none, some, ◌=?◌, arith, Bool-cases, Option-cases, inl,
  inr, ap,
}
use forkbase.Hash.{Hash, null, k_null, hash_eq, value}
use forkbase.Types.{UType, ErrorCode, chunk_code, cell}
use forkbase.Chunk.{Chunk, type_byte, type_byte-new_chunk, data_of, hash_of}
use forkbase.Cell.{new_cell_chunk, cell_content, cell_key, pre_hash}
use forkbase.Slice.{Slice}
use forkbase.Head.{put_latest}
use forkbase.Store.{Env, ChunkStore}
use forkbase.Store.Contract.{put_keeps, exists-put}
use forkbase.Worker.{Worker, Run, Value, Result, ok, err, ◌>>=◌, as_ucell}
use forkbase.Worker.Write.{
  check_string, front, put_unkeyed, create_ucell, write_ucell_by_type, write_ucell,
}
use forkbase.Worker.Methods.{exists_version, put_version, merge_versions}
use forkbase.Worker.Frame.{Keeps, Quiet, Quiet-ends, Quiet-put_unkeyed, bind-cases}

type_of_cell :
    (type : UType) (key data' ctx : Slice) (pre1 pre2 : Hash) (c : Chunk)
    → new_cell_chunk type key data' ctx pre1 pre2 ≡ some c
    → type_byte c ≡ chunk_code cell
unfolding new_cell_chunk
type_of_cell type key data' ctx pre1 pre2 c h =
    ground (arith, h, type_byte-new_chunk cell (cell_content type key data' ctx pre1 pre2))

pub as_ucell-cell :
    (type : UType) (key data' ctx : Slice) (pre1 pre2 : Hash) (c : Chunk)
    → new_cell_chunk type key data' ctx pre1 pre2 ≡ some c
    → as_ucell (some c) ≡ some (some (data_of c))
unfolding as_ucell
as_ucell-cell type key data' ctx pre1 pre2 c h =
    ground (arith, type_of_cell type key data' ctx pre1 pre2 c h)

-- How a step ends that may make a version.
pub record Writes {env : Env} (w w' : Worker env) (r : Result Hash) : Type 0 where
  pub keeps : Keeps w w'
  pub branches : w'.head.branch_ver ≡ w.head.branch_ver
  pub failed : (e : ErrorCode) → r ≡ err e → w'.head ≡ w.head
  pub made : (ver : Hash) → r ≡ ok ver → exists_version w' ver ≡ true

module _ {env : Env} where
  Writes-fail : (w : Worker env) (e : ErrorCode) → Writes w w (err e)
  Writes-fail w e = record {
    keeps = λ h c x. x;
    branches = refl;
    failed = λ e' x. refl;
    made = λ ver x. cc;
  }

  Writes-error :
      (w w' : Worker env) (r : Result Hash) (e : ErrorCode)
      → ◌≡◌ {A = Option (Result Hash × Worker env)} (some (err e, w)) (some (r, w'))
      → Writes w w' r
  Writes-error w w' r e h =
      let sr : err e ≡ r = ground arith in
      let sw : w ≡ w' = ground arith in subst₂ (λ r w'. Writes w w' r) sr sw (Writes-fail w e)

  -- The worker after a cell was made.
  unfoldable pub with_cell : Worker env → Chunk → Worker env
  with_cell w c = record {
    head =
        put_latest w.head (cell_key (data_of c)) (pre_hash 0 (data_of c)) (pre_hash 1 (data_of c))
          (hash_of env.digest c);
    store = ChunkStore.put env.chunks w.store (hash_of env.digest c) c;
  }

  pub create_ucell-with_cell :
      (key : Slice) (type : UType) (data' ctx : Slice) (pre1 pre2 : Hash) (w : Worker env)
      (c : Chunk)
      → new_cell_chunk type key data' ctx pre1 pre2 ≡ some c
      → create_ucell key type data' ctx pre1 pre2 w
        ≡ some (ok (hash_of env.digest c), with_cell w c)
  unfolding create_ucell with_cell
  create_ucell-with_cell key type data' ctx pre1 pre2 w c h =
      rw (h, create_ucell) (rw (as_ucell-cell type key data' ctx pre1 pre2 c h, create_ucell))

  Writes-with_cell :
      (w : Worker env) (c : Chunk) → Writes w (with_cell w c) (ok (hash_of env.digest c))
  unfolding with_cell put_latest exists_version
  Writes-with_cell w c = record {
    keeps = λ h d x. put_keeps env.chunks w.store (hash_of env.digest c) c h d x;
    branches = refl;
    failed = λ e x. cc;
    made = λ ver x.
        (let same : hash_of env.digest c ≡ ver = ground arith in
          subst
            (λ v.
              ChunkStore.exists env.chunks
                (ChunkStore.put env.chunks w.store (hash_of env.digest c) c) v
              ≡ true)
            same (exists-put env.chunks w.store (hash_of env.digest c) c));
  }

  create_ucell-none :
      (key : Slice) (type : UType) (data' ctx : Slice) (pre1 pre2 : Hash) (w : Worker env)
      → new_cell_chunk type key data' ctx pre1 pre2 ≡ none
      → create_ucell key type data' ctx pre1 pre2 w ≡ none
  unfolding create_ucell
  create_ucell-none key type data' ctx pre1 pre2 w h = rw (h, create_ucell)

  Writes-create_ucell :
      (key : Slice) (type : UType) (data' ctx : Slice) (pre1 pre2 : Hash) (w w' : Worker env)
      (r : Result Hash)
      → create_ucell key type data' ctx pre1 pre2 w ≡ some (r, w')
      → Writes w w' r
  Writes-create_ucell key type data' ctx pre1 pre2 w w' r h =
      elim (Option-cases (new_cell_chunk type key data' ctx pre1 pre2)) [
        | inl x ↦ absurd (let f = create_ucell-none key type data' ctx pre1 pre2 w x in cc (f, h))
        | inr (c, x) ↦
            let f = create_ucell-with_cell key type data' ctx pre1 pre2 w c x in
            let sr : ok (hash_of env.digest c) ≡ r = ground (arith, f, h) in
            let sw : with_cell w c ≡ w' = ground (arith, f, h) in
            subst₂ (λ r w'. Writes w w' r) sr sw (Writes-with_cell w c)
      ]

  -- A step that leaves the tables alone, before one that may make a version.
  Writes-after :
      {A : Type 0} (m : Run env A) (f : A → Run env Hash)
      → Quiet m
      → ((a : A) (w w' : Worker env) (r : Result Hash) → f a w ≡ some (r, w') → Writes w w' r)
      → (w w' : Worker env) (r : Result Hash) → (m >>= f) w ≡ some (r, w')
      → Writes w w' r
  Writes-after m f q wf w w' r h = elim (bind-cases m f w w' r h) [
    | inl (e, x, y) ↦ record {
      keeps = q.keeps w w' (err e) x;
      branches = ap (λ t. t.branch_ver) (q.heads w w' (err e) x);
      failed = λ e' z. q.heads w w' (err e) x;
      made = λ ver z. cc;
    }
    | inr (a, w1, x, y) ↦
        let t = wf a w1 w' r y in
        record {
          keeps = λ j c g. t.keeps j c (q.keeps w w1 (ok a) x j c g);
          branches = t.branches ∙ ap (λ u. u.branch_ver) (q.heads w w1 (ok a) x);
          failed = λ e z. t.failed e z ∙ q.heads w w1 (ok a) x;
          made = t.made;
        }
  ]

  Writes-chunkable :
      (key : Slice) (val : Value) (pre1 pre2 : Hash) (w w' : Worker env) (r : Result Hash)
      → (put_unkeyed val >>= λ root. create_ucell key val.type (value root) val.ctx pre1 pre2) w
        ≡ some (r, w')
      → Writes w w' r
  Writes-chunkable key val pre1 pre2 w w' r h =
      Writes-after (put_unkeyed val) _ (Quiet-put_unkeyed val)
        (λ root v v' s g. Writes-create_ucell key val.type (value root) val.ctx pre1 pre2 v v' s g)
        w w' r h

  Writes-by_type :
      (type : UType) (key : Slice) (val : Value) (pre1 pre2 : Hash) (w w' : Worker env)
      (r : Result Hash)
      → write_ucell_by_type type key val pre1 pre2 w ≡ some (r, w')
      → Writes w w' r
  unfolding write_ucell_by_type
  Writes-by_type UType.string key val pre1 pre2 w w' r h =
      Writes-after (λ w. some (check_string val, w)) _
        (Quiet-ends _ (λ w. check_string val) (λ w. refl))
        (λ u v v' s g. Writes-create_ucell key val.type (front val.vals) val.ctx pre1 pre2 v v' s g)
        w w' r h
  Writes-by_type _ key val pre1 pre2 w w' r h = Writes-chunkable key val pre1 pre2 w w' r h

  Writes-write_ucell :
      (key : Slice) (val : Value) (pre1 pre2 : Hash) (w w' : Worker env) (r : Result Hash)
      → write_ucell key val pre1 pre2 w ≡ some (r, w')
      → Writes w w' r
  unfolding write_ucell
  Writes-write_ucell key val pre1 pre2 w w' r h = Writes-by_type val.type key val pre1 pre2 w w' r h

  -- `Put` after a version: every chunk is kept, no branch moves; an error leaves the latest
  -- versions as they were too; the version that it returns is in the store.
  pub put_version-Writes :
      (key : Slice) (val : Value) (prev_ver : Hash) (w w' : Worker env) (r : Result Hash)
      → put_version key val prev_ver w ≡ some (r, w')
      → Writes w w' r
  unfolding put_version
  put_version-Writes key val prev_ver w w' r h =
      elim (Bool-cases (prev_ver =? k_null || exists_version w prev_ver)) [
        | inl x ↦ Writes-write_ucell key val prev_ver null w w' r (rw x at h)
        | inr x ↦ Writes-error w w' r ErrorCode.referring_version_not_exist (rw x at h)
      ]

  -- `Merge` of two versions: as for `Put`.
  pub merge_versions-Writes :
      (key : Slice) (val : Value) (ref_ver1 ref_ver2 : Hash) (w w' : Worker env) (r : Result Hash)
      → merge_versions key val ref_ver1 ref_ver2 w ≡ some (r, w')
      → Writes w w' r
  unfolding merge_versions
  merge_versions-Writes key val ref_ver1 ref_ver2 w w' r h =
      elim (Bool-cases (exists_version w ref_ver1 && exists_version w ref_ver2)) [
        | inl x ↦ Writes-write_ucell key val ref_ver1 ref_ver2 w w' r (rw x at h)
        | inr x ↦ Writes-error w w' r ErrorCode.referring_version_not_exist (rw x at h)
      ]
