-- ===== src/Store.antt =====
-- What a worker uses: the chunk store (include/store/chunk_store.h) behind its contract, the
-- digest function, and the chunkable types (include/types/server), each as an interface.
pub mod Memory
pub mod Contract
use forkbase.Base.{
  ℕ, ◌≡◌, Bool, true, false, Option, none, some, List, ◌=?◌, Bytes, if◌then◌else◌, length,
}
use forkbase.Hash.{Hash, null, k_null, hash_eq, byte_length}
use forkbase.Chunk.{Chunk}
use forkbase.Slice.{Slice}

abbrev pub is_some {ℓ} : {A : Type ℓ} → Option A → Bool
is_some none = false
is_some (some a) = true

-- `ChunkStore::Get`, `Put` and `Exists`, with what `LSTStore` and its peers promise: a chunk that
-- is put is found under its hash, unless there was one already, which then stays.
pub record ChunkStore : Type 1 where
  pub S : Type 0
  pub get : S → Hash → Option Chunk
  pub put : S → Hash → Chunk → S
  pub exists : S → Hash → Bool
  pub exists-get : (s : S) (h : Hash) → exists s h ≡ is_some (get s h)
  pub get-put :
      (s : S) (h : Hash) (c : Chunk) (j : Hash)
      → get (put s h c) j
        ≡ (if h =? j then (elim (get s h) [ none ↦ some c | some old ↦ some old ]) else get s j)

-- The calls that a worker makes of `SBlob`, `SList`, `SMap` and `SSet`: constructors from values,
-- and the methods of an object that was loaded by its root hash.
pub data Edit : Type 0 where
  create_blob : Slice → Edit
  splice_blob : Hash → ℕ → ℕ → Slice → Edit
  create_list : List Slice → Edit
  splice_list : Hash → ℕ → ℕ → List Slice → Edit
  create_map : List Slice → List Slice → Edit
  set_map_all : Hash → List Slice → List Slice → Edit
  set_map : Hash → Slice → Slice → Edit
  remove_map : Hash → Slice → Edit
  create_set : List Slice → Edit
  set_set : Hash → Slice → Edit
  remove_set : Hash → Slice → Edit

-- `run` is such a call: `none` where it aborts; else the root hash (`null` for an object that is
-- `empty()`) and the store with the chunks that were written. It overwrites no chunk.
pub record Env : Type 1 where
  pub chunks : ChunkStore
  pub digest : Bytes → Bytes
  pub run : Edit → ChunkStore.S chunks → Option (Hash × ChunkStore.S chunks)
  pub length-digest : (b : Bytes) → length (digest b) ≡ byte_length
  pub run_keeps :
      (e : Edit) (s : ChunkStore.S chunks) (root : Hash) (s' : ChunkStore.S chunks)
      → run e s ≡ some (root, s')
      → (h : Hash) (c : Chunk) → ChunkStore.get chunks s h ≡ some c
      → ChunkStore.get chunks s' h ≡ some c
