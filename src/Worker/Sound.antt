-- ===== src/Worker/Sound.antt =====
-- The state of a worker in which every head is in the store, how a method may end, and the steps
-- that the methods share.
use mathlib.Core.Path.{subst, subst₂}
use forkbase.Base.{
  ◌≡◌, refl, ◌⊎◌, true, Option, none, some, if◌then◌else◌, arith, Bool-cases, Option-cases, inl,
  inr, bytes_eq,
}
use forkbase.Hash.{Hash, hash_eq}
use forkbase.Types.{ErrorCode}
use forkbase.Slice.{Slice}
use forkbase.Head
use forkbase.Head.{HeadVersion, find_branch, empty_head}
use forkbase.Head.Laws.{same, find_branch-put_branch, find_branch-remove_branch}
use forkbase.Store.{Env, ChunkStore}
use forkbase.Worker.{Worker, Run, Result, ok, err, ◌>>=◌}
use forkbase.Worker.Methods.{exists_version, branch_or, set_head, branch}
use forkbase.Worker.Frame.{Quiet, Keeps}
use forkbase.Worker.Versions.{Writes}

-- The head of every branch is in the store.
pub record IsSound {env : Env} (w : Worker env) : Type 0 where
  pub stored :
      (key branch : Slice) (ver : Hash)
      → find_branch w.head key branch ≡ some ver
      → exists_version w ver ≡ true

-- How a method ends.
pub record Ends {env : Env} {A : Type 0} (w w' : Worker env) (r : Result A) : Type 0 where
  pub keeps : Keeps w w'
  pub failed : (e : ErrorCode) → r ≡ err e → w'.head ≡ w.head
  pub sound : IsSound w → IsSound w'

module _ {env : Env} where
  exists_kept :
      (w w' : Worker env) (ver : Hash)
      → Keeps w w'
      → exists_version w ver ≡ true
      → exists_version w' ver ≡ true
  unfolding exists_version
  exists_kept w w' ver k h = elim (Option-cases (ChunkStore.get env.chunks w.store ver)) [
    | inl x ↦ absurd (let f = rw (env.chunks.exists-get, x) at h in cc)
    | inr (c, x) ↦ rw (env.chunks.exists-get, k ver c x)
  ]

  pub Ends-Writes : (w w' : Worker env) (r : Result Hash) → Writes w w' r → Ends w w' r
  Ends-Writes w w' r t = record {
    keeps = t.keeps;
    failed = t.failed;
    sound = λ s. record {
      stored = λ key branch ver x.
          exists_kept w w' ver t.keeps
            (s.stored key branch ver (unfold find_branch in rw t.branches at x));
    };
  }

  -- A step that moves no head.
  pub Ends-Quiet :
      {A : Type 0} (m : Run env A)
      → Quiet m
      → (w w' : Worker env) (r : Result A) → m w ≡ some (r, w')
      → Ends w w' r
  Ends-Quiet m q w w' r h = record {
    keeps = q.keeps w w' r h;
    failed = λ e x. q.heads w w' r h;
    sound = λ s. record {
      stored = λ key branch ver x.
          exists_kept w w' ver (q.keeps w w' r h)
            (s.stored key branch ver (rw (q.heads w w' r h) at x));
    };
  }

  pub Ends-unchanged :
      {A : Type 0} (w w' : Worker env) (r s : Result A)
      → ◌≡◌ {A = Option (Result A × Worker env)} (some (s, w)) (some (r, w'))
      → Ends w w' r
  Ends-unchanged w w' r s h =
      subst (λ v. Ends w v r) (let e : w ≡ w' = ground arith in e)
        (record { keeps = λ j c x. x; failed = λ e x. refl; sound = λ t. t })

  -- The head of one branch is set to a version of the store.
  pub IsSound-put_branch :
      (w : Worker env) (key branch : Slice) (ver : Hash)
      → exists_version w ver ≡ true
      → IsSound w
      → IsSound (record w { head = Head.put_branch w.head key branch ver })
  unfolding exists_version
  IsSound-put_branch w key branch ver here s = record {
    stored = λ key' branch' v x.
        (let f = rw (find_branch-put_branch w.head key branch key' branch' ver) at x in
          elim (Bool-cases (same key branch key' branch')) [
            | inl e ↦
                (let g : ver ≡ v = (let h = rw e at f in ground arith) in
                  subst (λ u. exists_version w u ≡ true) g here)
            | inr e ↦ s.stored key' branch' v (rw e at f)
          ]);
  }

  pub IsSound-remove_branch :
      (w : Worker env) (key branch : Slice)
      → IsSound w
      → IsSound (record w { head = Head.remove_branch w.head key branch })
  unfolding exists_version
  IsSound-remove_branch w key branch s = record {
    stored = λ key' branch' v x.
        (let f = rw (find_branch-remove_branch w.head key branch key' branch') at x in
          elim (Bool-cases (same key branch key' branch')) [
            | inl e ↦ absurd (let g = rw e at f in cc)
            | inr e ↦ s.stored key' branch' v (rw e at f)
          ]);
  }

  pub IsSound-renamed :
      (w : Worker env) (key old new : Slice) (ver : Hash) (head' : HeadVersion)
      → find_branch w.head key old ≡ some ver
      → ((key' branch' : Slice)
          → find_branch head' key' branch' ≡ (
              if same key new key' branch'
              then some ver
              else if same key old key' branch'
              then none
              else find_branch w.head key' branch'))
      → IsSound w
      → IsSound (record w { head = head' })
  unfolding exists_version
  IsSound-renamed w key old new ver head' at law s = record {
    stored = λ key' branch' v x.
        (let f = rw (law key' branch') at x in
          elim (Bool-cases (same key new key' branch')) [
            | inl e ↦
                (let g : ver ≡ v = (let i = rw e at f in ground arith) in
                  subst (λ u. exists_version w u ≡ true) g (s.stored key old ver at))
            | inr e ↦ elim (Bool-cases (same key old key' branch')) [
              | inl d ↦ absurd (let g = rw (e, d) at f in cc)
              | inr d ↦ s.stored key' branch' v (rw (e, d) at f)
            ]
          ]);
  }

  pub branch_or-none :
      (e : ErrorCode) (key old : Slice) (w : Worker env)
      → find_branch w.head key old ≡ none
      → branch_or e key old w ≡ some (err e, w)
  unfolding branch_or Head.get_branch
  branch_or-none e key old w x = ground arith

  pub branch_or-some :
      (e : ErrorCode) (key old : Slice) (w : Worker env) (ver : Hash)
      → find_branch w.head key old ≡ some ver
      → branch_or e key old w ≡ some (ok ver, w)
  unfolding branch_or Head.get_branch
  branch_or-some e key old w ver x = ground arith

  exists_branch-or :
      {A : Type 0} (e : ErrorCode) (key old : Slice) (f : Hash → Run env A) (w w' : Worker env)
      (r : Result A)
      → (branch_or e key old >>= f) w ≡ some (r, w')
      → ((r ≡ err e) × (w ≡ w'))
        ⊎ ((ver : Hash) × (find_branch w.head key old ≡ some ver) × (f ver w ≡ some (r, w')))
  exists_branch-or e key old f w w' r h = elim (Option-cases (find_branch w.head key old)) [
    | inl x ↦
        inl (let g = rw (branch_or-none e key old w x, ◌>>=◌) at h in (ground arith, ground arith))
    | inr (ver, x) ↦ inr (ver, x, (rw (branch_or-some e key old w ver x, ◌>>=◌) at h))
  ]

  pub Ends-branch_or :
      {A : Type 0} (e : ErrorCode) (key old : Slice) (f : Hash → Run env A) (w w' : Worker env)
      (r : Result A)
      → ((ver : Hash) → f ver w ≡ some (r, w') → Ends w w' r)
      → (branch_or e key old >>= f) w ≡ some (r, w')
      → Ends w w' r
  Ends-branch_or e key old f w w' r k h = elim (exists_branch-or e key old f w w' r h) [
    | inl (x, y) ↦ Ends-unchanged w w' r r (rw y)
    | inr (ver, x, y) ↦ k ver y
  ]

  -- A version was made, and then set as a head.
  pub Ends-set_head :
      (key branch : Slice) (ver : Hash) (w w1 w' : Worker env) (r : Result Hash)
      → Writes w w1 (ok ver)
      → set_head key branch ver w1 ≡ some (r, w')
      → Ends w w' r
  unfolding set_head
  Ends-set_head key branch ver w w1 w' r t h =
      let w2 : Worker env = record w1 { head = Head.put_branch w1.head key branch ver } in
      let sr : ok ver ≡ r = ground arith in
      let sw : w2 ≡ w' = ground arith in
      subst₂ (λ r w'. Ends w w' r) sr sw
        (record {
          keeps = t.keeps;
          failed = λ e x. cc;
          sound = λ s.
              IsSound-put_branch w1 key branch ver (t.made ver refl)
                ((Ends-Writes w w1 (ok ver) t).sound s);
        })
