-- ===== src/Store/Contract.antt =====
-- What follows from the contract of a chunk store.
use forkbase.Base.{◌≡◌, true, some, ◌=?◌, Bool-cases, Option-cases, inl, inr, beq_refl}
use forkbase.Hash.{Hash, hash_eq, hash_beq_iff}
use forkbase.Chunk.{Chunk}
use forkbase.Store.{ChunkStore}

module _ (cs : ChunkStore) (s : ChunkStore.S cs) (h : Hash) (c : Chunk) where
  pub put_keeps :
      (j : Hash) (d : Chunk)
      → ChunkStore.get cs s j ≡ some d
      → ChunkStore.get cs (ChunkStore.put cs s h c) j ≡ some d
  put_keeps j d x = elim (Bool-cases (h =? j)) [
    | inl e ↦ rw (cs.get-put, e) (let f = (hash_beq_iff h j).0 e in rw (f, x))
    | inr e ↦ rw (cs.get-put, e) x
  ]

  pub exists-put : ChunkStore.exists cs (ChunkStore.put cs s h c) h ≡ true
  exists-put =
      rw (cs.exists-get, cs.get-put, beq_refl h)
        (elim (Option-cases (ChunkStore.get cs s h)) [ inl e ↦ rw e | inr (d, e) ↦ rw e ])

  -- A chunk that no other one shares its hash with is found under its hash.
  pub get-put_self :
      ((d : Chunk) → ChunkStore.get cs s h ≡ some d → d ≡ c)
      → ChunkStore.get cs (ChunkStore.put cs s h c) h ≡ some c
  get-put_self alone =
      rw (cs.get-put, beq_refl h)
        (elim (Option-cases (ChunkStore.get cs s h)) [
          | inl e ↦ rw e
          | inr (d, e) ↦ rw (e, alone d e)
        ])
