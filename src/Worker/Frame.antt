-- ===== src/Worker/Frame.antt =====
-- Steps that write the chunks of a value (WriteBlob, WriteList, WriteMap, WriteSet), and chains of
-- steps.
use mathlib.Core.Path.{subst}
use forkbase.Base.{
  ◌≡◌, refl, ◌∙◌, ◌⊎◌, Bool, true, false, some, ◌=?◌, if◌then◌else◌, arith, Option-cases, inl, inr,
}
use forkbase.Hash.{Hash, k_null, hash_eq, is_empty}
use forkbase.Types.{UType, ErrorCode}
use forkbase.Chunk.{Chunk}
use forkbase.Store.{Env, Edit, ChunkStore}
use forkbase.Worker.{Worker, Run, Value, Result, ok, err, pure, fail, ◌>>=◌}
use forkbase.Worker.Write.{
  call, created, modified, write_blob, write_list, write_map, write_set, write_by_type, put_unkeyed,
}

-- From `w` to `w'` no chunk was lost or changed.
abbrev pub Keeps : {env : Env} → Worker env → Worker env → Type 0
Keeps {env} w w' =
    (h : Hash) (c : Chunk)
    → ChunkStore.get env.chunks w.store h ≡ some c
    → ChunkStore.get env.chunks w'.store h ≡ some c

-- How a step ends that writes chunks of a value alone: with the tables as they were.
pub record Quiet {env : Env} {A : Type 0} (m : Run env A) : Type 0 where
  pub heads : (w w' : Worker env) (r : Result A) → m w ≡ some (r, w') → w'.head ≡ w.head
  pub keeps : (w w' : Worker env) (r : Result A) → m w ≡ some (r, w') → Keeps w w'

module _ {env : Env} {A : Type 0} where
  pub Quiet-ends :
      (m : Run env A) (r : Worker env → Result A)
      → ((w : Worker env) → m w ≡ some (r w, w))
      → Quiet m
  Quiet-ends m r h = record {
    heads = λ w w' s e. ground (arith, e, h w);
    keeps = λ w w' s e j c x.
        (let same : w ≡ w' = ground (arith, e, h w) in
          subst (λ (v : Worker env). ChunkStore.get env.chunks v.store j ≡ some c) same x);
  }

  pub Quiet-pure : (a : A) → Quiet {env = env} (pure a)
  Quiet-pure a = Quiet-ends (pure a) (λ w. ok a) (λ w. refl)

  pub Quiet-fail : (e : ErrorCode) → Quiet {env = env} {A = A} (fail e)
  Quiet-fail e = Quiet-ends (fail e) (λ w. err e) (λ w. refl)

  pub Quiet-if : (b : Bool) (m n : Run env A) → Quiet m → Quiet n → Quiet (if b then m else n)
  Quiet-if true m n km kn = km
  Quiet-if false m n km kn = kn

module _ {env : Env} {A B : Type 0} where
  -- How a chain ends: at an error of its first step, or as its second step does.
  pub bind-cases :
      (m : Run env A) (f : A → Run env B) (w w' : Worker env) (r : Result B)
      → (m >>= f) w ≡ some (r, w')
      → ((e : ErrorCode) × (m w ≡ some (err e, w')) × (r ≡ err e))
        ⊎ ((a : A) × (w1 : Worker env) × (m w ≡ some (ok a, w1)) × (f a w1 ≡ some (r, w')))
  bind-cases m f w w' r h = elim (Option-cases (m w)) [
    | inl x ↦ absurd (ground arith)
    | inr ((ok a, w1), x) ↦ inr (a, w1, x, rw (x, ◌>>=◌) at h)
    | inr ((err e, w1), x) ↦ inl (e, ground arith, ground arith)
  ]

  pub Quiet-bind :
      (m : Run env A) (f : A → Run env B) → Quiet m → ((a : A) → Quiet (f a)) → Quiet (m >>= f)
  Quiet-bind m f qm qf = record {
    heads = λ w w' r h. elim (bind-cases m f w w' r h) [
      | inl (e, x, y) ↦ qm.heads w w' (err e) x
      | inr (a, w1, x, y) ↦ (qf a).heads w1 w' r y ∙ qm.heads w w1 (ok a) x
    ];
    keeps = λ w w' r h j c g. elim (bind-cases m f w w' r h) [
      | inl (e, x, y) ↦ qm.keeps w w' (err e) x j c g
      | inr (a, w1, x, y) ↦ (qf a).keeps w1 w' r y j c (qm.keeps w w1 (ok a) x j c g)
    ];
  }

module _ {env : Env} where
  Quiet-call : (e : Edit) → Quiet {env = env} (call e)
  unfolding call
  Quiet-call e = record {
    heads = λ w w' r h. ground arith;
    keeps = λ w w' r h. elim (Option-cases (env.run e w.store)) [
      | inl x ↦ absurd (ground arith)
      | inr ((root, store'), x) ↦ λ j c g.
          (let same : store' ≡ w'.store = ground arith in
            subst (λ s. ChunkStore.get env.chunks s j ≡ some c) same
              (env.run_keeps e w.store root store' x j c g))
    ];
  }

  Quiet-created : (e : ErrorCode) (root : Hash) → Quiet {env = env} (created e root)
  Quiet-created e root =
      Quiet-if (is_empty root) (fail e) (pure root) (Quiet-fail e) (Quiet-pure root)

  Quiet-modified : (e : ErrorCode) (root : Hash) → Quiet {env = env} (modified e root)
  Quiet-modified e root =
      Quiet-if (root =? k_null) (fail e) (pure root) (Quiet-fail e) (Quiet-pure root)

ruleset quiet_rules =
    (Quiet-pure, Quiet-fail, Quiet-if, Quiet-bind, Quiet-call, Quiet-created, Quiet-modified)

module _ {env : Env} (val : Value) where
  Quiet-write_blob : Quiet {env = env} (write_blob val)
  unfolding write_blob
  Quiet-write_blob = search quiet_rules

  Quiet-write_list : Quiet {env = env} (write_list val)
  unfolding write_list
  Quiet-write_list = search quiet_rules

  Quiet-write_map : Quiet {env = env} (write_map val)
  unfolding write_map
  Quiet-write_map = search quiet_rules depth 10

  Quiet-write_set : Quiet {env = env} (write_set val)
  unfolding write_set
  Quiet-write_set = search quiet_rules depth 10

  Quiet-by_type : (type : UType) → Quiet {env = env} (write_by_type type val)
  unfolding write_by_type
  Quiet-by_type UType.blob = Quiet-write_blob
  Quiet-by_type UType.list = Quiet-write_list
  Quiet-by_type UType.map = Quiet-write_map
  Quiet-by_type UType.set = Quiet-write_set
  Quiet-by_type _ = Quiet-fail ErrorCode.type_unsupported

  -- Writing the value of an object, whatever it returns, loses no chunk and leaves both tables of
  -- heads as they were.
  pub Quiet-put_unkeyed : Quiet {env = env} (put_unkeyed val)
  unfolding put_unkeyed
  Quiet-put_unkeyed = Quiet-by_type val.type
