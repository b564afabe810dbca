-- ===== src/Worker.antt =====
-- `Worker` (include/worker/worker.h, src/worker/worker.cc): the table of heads over a chunk store.
-- A method returns `none` where the process aborts or an exception escapes, else its error code or
-- its result (the value of its out-parameter), with the worker that it leaves. Logging and the
-- assertions of debug builds are left out. `head_ver_` is a `SimpleHeadVersion`, the default.
pub mod Write
pub mod Methods
pub mod Frame
pub mod Versions
pub mod Sound
pub mod Ends
pub mod Calls
pub mod Effects
pub mod After
use forkbase.Base.{ℕ, ◌≡◌, Option, none, some, List, ◌==◌, if◌then◌else◌, Bytes}
use forkbase.Hash.{Hash}
use forkbase.Types.{UType, ErrorCode, chunk_code, cell}
use forkbase.Chunk.{Chunk, type_byte, data_of}
use forkbase.Slice.{Slice}
use forkbase.Head.{HeadVersion}
use forkbase.Store.{Env, ChunkStore}

-- `Value` (include/spec/value.h)
pub record Value : Type 0 where
  pub type : UType
  pub base : Hash
  pub pos : ℕ
  pub dels : ℕ
  pub vals : List Slice
  pub keys : List Slice
  pub ctx : Slice

pub data Result {ℓ} (A : Type ℓ) : Type ℓ where
  ok : A → Result A
  err : ErrorCode → Result A

-- `UCell(Chunk&&)`: no cell for an empty chunk, the cell's data for a chunk of type `kCell`, and
-- `none`, an abort, for any other.
unfoldable pub as_ucell : Option Chunk → Option (Option Bytes)
as_ucell none = some none
as_ucell (some c) = if type_byte c == chunk_code cell then some (some (data_of c)) else none

module _ (env : Env) where
  pub record Worker : Type 0 where
    pub head : HeadVersion
    pub store : ChunkStore.S env.chunks

  abbrev pub Run {ℓ} : Type ℓ → Type ℓ
  Run A = Worker → Option (Result A × Worker)

module _ {env : Env} where
  abbrev pub pure {ℓ} : {A : Type ℓ} → A → Run env A
  pure a w = some (ok a, w)

  abbrev pub fail {ℓ} : {A : Type ℓ} → ErrorCode → Run env A
  fail e w = some (err e, w)

  abbrev pub continue {ℓ κ} :
      {A : Type ℓ} {B : Type κ}
      → Result A
      → (A → Run env B)
      → Worker env
      → Option (Result B × Worker env)
  continue (ok a) f w = f a w
  continue (err e) f w = some (err e, w)

  -- `USTORE_GUARD`: an error ends the method.
  infixl 5 ◌>>=◌
  abbrev pub ◌>>=◌ {ℓ κ} : {A : Type ℓ} {B : Type κ} → Run env A → (A → Run env B) → Run env B
  ◌>>=◌ m f w = elim (m w) [ none ↦ none | some (r, w') ↦ continue r f w' ]
