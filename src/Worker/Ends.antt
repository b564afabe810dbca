-- ===== src/Worker/Ends.antt =====
-- How each method of a worker ends (src/worker/worker.cc).
use mathlib.Core.Path.{subst₂}
use forkbase.Base.{
  ◌≡◌, true, false, not, none, some, arith, Bool-cases, Option-cases, inl, inr, bytes_eq,
}
use forkbase.Hash.{Hash, hash_eq}
use forkbase.Types.{ErrorCode}
use forkbase.Slice.{Slice}
use forkbase.Head
use forkbase.Head.{HeadVersion, find_branch, empty_head}
use forkbase.Head.Laws.{find_branch-rename_branch}
use forkbase.Store.{Env}
use forkbase.Worker.{Worker, Value, Result, ok, err}
use forkbase.Worker.Write.{is_nil}
use forkbase.Worker.Methods.{
  exists_version, exists_branch, set_head, put_version, put_after, put, merge_versions,
  merge_version, merge, branch_version, branch, rename, delete,
}
use forkbase.Worker.Frame.{bind-cases}
use forkbase.Worker.Versions.{put_version-Writes, merge_versions-Writes}
use forkbase.Worker.Sound.{
  Ends, Ends-Writes, Ends-unchanged, IsSound-put_branch, IsSound-remove_branch, IsSound-renamed,
  Ends-branch_or, Ends-set_head,
}

module _ {env : Env} where
  pub Ends-put_after :
      (key : Slice) (val : Value) (branch : Slice) (prev_ver : Hash) (w w' : Worker env)
      (r : Result Hash)
      → put_after key val branch prev_ver w ≡ some (r, w')
      → Ends w w' r
  unfolding put_after
  Ends-put_after key val branch prev_ver w w' r h =
      elim (bind-cases (put_version key val prev_ver) _ w w' r h) [
        | inl (e, x, y) ↦
            Ends-Writes w w' r (rw y (put_version-Writes key val prev_ver w w' (err e) x))
        | inr (ver, w1, x, y) ↦
            let t = put_version-Writes key val prev_ver w w1 (ok ver) x in
            elim (Bool-cases (not (is_nil branch))) [
              | inl b ↦ Ends-set_head key branch ver w w1 w' r t (rw b at y)
              | inr b ↦
                  let g = rw b at y in
                  let sr : ok ver ≡ r = ground arith in
                  let sw : w1 ≡ w' = ground arith in
                  subst₂ (λ r w'. Ends w w' r) sr sw (Ends-Writes w w1 (ok ver) t)
            ]
      ]

  pub Ends-put :
      (key : Slice) (val : Value) (branch : Slice) (w w' : Worker env) (r : Result Hash)
      → put key val branch w ≡ some (r, w')
      → Ends w w' r
  unfolding put
  Ends-put key val branch w w' r h =
      let (found, head) = Head.get_branch w.head key branch in
      Ends-put_after key val branch head w w' r h

  pub Ends-merge_version :
      (key : Slice) (val : Value) (tgt : Slice) (ref_ver : Hash) (w w' : Worker env)
      (r : Result Hash)
      → merge_version key val tgt ref_ver w ≡ some (r, w')
      → Ends w w' r
  unfolding merge_version
  Ends-merge_version key val tgt ref_ver w w' r h =
      Ends-branch_or ErrorCode.branch_not_exists key tgt _ w w' r
        (λ tgt_ver g.
          elim (bind-cases (merge_versions key val tgt_ver ref_ver) (set_head key tgt) w w' r g) [
            | inl (e, x, y) ↦
                Ends-Writes w w' r
                  (rw y (merge_versions-Writes key val tgt_ver ref_ver w w' (err e) x))
            | inr (ver, w1, x, y) ↦
                Ends-set_head key tgt ver w w1 w' r
                  (merge_versions-Writes key val tgt_ver ref_ver w w1 (ok ver) x) y
          ])
        h

  pub Ends-merge :
      (key : Slice) (val : Value) (tgt ref : Slice) (w w' : Worker env) (r : Result Hash)
      → merge key val tgt ref w ≡ some (r, w')
      → Ends w w' r
  unfolding merge
  Ends-merge key val tgt ref w w' r h =
      Ends-branch_or ErrorCode.branch_not_exists key ref _ w w' r
        (λ ref_ver g. Ends-merge_version key val tgt ref_ver w w' r g) h

  pub Ends-branch_version :
      (key : Slice) (ver : Hash) (new : Slice) (w w' : Worker env) (r : Result (Unit {0}))
      → branch_version key ver new w ≡ some (r, w')
      → Ends w w' r
  unfolding branch_version
  Ends-branch_version key ver new w w' r h = elim (Bool-cases (exists_branch w key new)) [
    | inl x ↦ Ends-unchanged w w' r _ (rw x at h)
    | inr x ↦ elim (Bool-cases (exists_version w ver)) [
      | inl y ↦
          let w2 : Worker env = record w { head = Head.put_branch w.head key new ver } in
          let g = rw (x, y) at h in
          let sr : ok tt ≡ r = ground arith in
          let sw : w2 ≡ w' = ground arith in
          subst₂ (λ r w'. Ends w w' r) sr sw
            (record {
              keeps = λ j c z. z;
              failed = λ e z. cc;
              sound = IsSound-put_branch w key new ver y;
            })
      | inr y ↦ Ends-unchanged w w' r _ (rw (x, y) at h)
    ]
  ]

  pub Ends-branch :
      (key old new : Slice) (w w' : Worker env) (r : Result (Unit {0}))
      → branch key old new w ≡ some (r, w')
      → Ends w w' r
  unfolding branch
  Ends-branch key old new w w' r h =
      Ends-branch_or ErrorCode.branch_not_exists key old _ w w' r
        (λ ver g. Ends-branch_version key ver new w w' r g) h

  pub exists_none :
      (w : Worker env) (key b : Slice)
      → find_branch w.head key b ≡ none
      → exists_branch w key b ≡ false
  unfolding exists_branch Head.exists_branch
  exists_none w key b x = ground arith

  pub exists_some :
      (w : Worker env) (key b : Slice) (v : Hash)
      → find_branch w.head key b ≡ some v
      → exists_branch w key b ≡ true
  unfolding exists_branch Head.exists_branch
  exists_some w key b v x = ground arith

  pub rename-ok :
      (w : Worker env) (key old new : Slice) (ver : Hash) (head' : HeadVersion)
      → find_branch w.head key old ≡ some ver
      → find_branch w.head key new ≡ none
      → Head.rename_branch w.head key old new ≡ some head'
      → rename key old new w ≡ some (ok tt, record w { head = head' })
  unfolding rename
  rename-ok w key old new ver head' x y run =
      rw (exists_some w key old ver x, exists_none w key new y) (rw (run, rename))

  pub Ends-rename :
      (key old new : Slice) (w w' : Worker env) (r : Result (Unit {0}))
      → rename key old new w ≡ some (r, w')
      → Ends w w' r
  unfolding rename
  Ends-rename key old new w w' r h = elim (Option-cases (find_branch w.head key old)) [
    | inl x ↦
        Ends-unchanged w w' r (err ErrorCode.branch_not_exists)
          (let f = exists_none w key old x in rw f at h)
    | inr (ver, x) ↦ elim (Option-cases (find_branch w.head key new)) [
      | inr (taken, y) ↦ Ends-unchanged w w' r (err ErrorCode.branch_exists) (
          let f = exists_some w key old ver x in
          let g = exists_some w key new taken y in rw (f, g) at h)
      | inl y ↦
          let t = find_branch-rename_branch w.head key old new ver x y in
          let head' = t.0 in
          let run = t.1 in
          let law = t.2 in
          let w2 : Worker env = record w { head = head' } in
          let g = rename-ok w key old new ver head' x y run in
          let sr : ok tt ≡ r = ground (arith, g, h) in
          let sw : w2 ≡ w' = ground (arith, g, h) in
          subst₂ (λ r w'. Ends w w' r) sr sw
            (record {
              keeps = λ j c z. z;
              failed = λ e z. cc;
              sound = IsSound-renamed w key old new ver head' x law;
            })
    ]
  ]

  pub Ends-delete :
      (key branch : Slice) (w w' : Worker env) (r : Result (Unit {0}))
      → delete key branch w ≡ some (r, w')
      → Ends w w' r
  unfolding delete
  Ends-delete key branch w w' r h = elim (Bool-cases (exists_branch w key branch)) [
    | inl x ↦
        let w2 : Worker env = record w { head = Head.remove_branch w.head key branch } in
        let g = rw x at h in
        let sr : ok tt ≡ r = ground arith in
        let sw : w2 ≡ w' = ground arith in
        subst₂ (λ r w'. Ends w w' r) sr sw
          (record {
            keeps = λ j c z. z;
            failed = λ e z. cc;
            sound = IsSound-remove_branch w key branch;
          })
    | inr x ↦ Ends-unchanged w w' r _ (rw x at h)
  ]
