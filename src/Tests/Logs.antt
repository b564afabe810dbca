-- ===== src/Tests/Logs.antt =====
-- A log of at most 64 segments, and a chunk in it.
use forkbase.Base.{◌<◌, ◌^◌, ◌≡◌, refl, none, some, arith, ◌∷◌, [], le_bytes, ◌⊎◌}
use forkbase.Hash.{Hash, of}
use forkbase.Types.{ChunkType}
use forkbase.Chunk.{Chunk, new_chunk, num_bytes-new_chunk}
use forkbase.Store.Memory.{last_bytes}
use forkbase.LstStore.{LstStore, get, put}
use forkbase.LstStore.Load.{mmap_ustore_log_file, new_file}
use forkbase.LstStore.Append.{Fits}
use forkbase.LstStore.Request.{IsRoomy}
use forkbase.LstStore.Valid.{IsValid}
use forkbase.LstStore.Put.{Puts, put-Puts, put-ends}
use forkbase.LstStore.Calls.{
  Extends, here, next, put_chunk, Reach-Extends, mmap_ustore_log_file-new_file,
}
use forkbase.Tests.Data.{ones}

few : 64 < 2 ^ 31
few = omega arith

mmap_ustore_log_file-new_file_example :
    (s : LstStore) × (mmap_ustore_log_file last_bytes 64 new_file ≡ some s)
    × IsValid s
    × ((k : Hash) → get s k ≡ none)
    × (0 < 64 → IsRoomy s)
mmap_ustore_log_file-new_file_example = mmap_ustore_log_file-new_file last_bytes 64 few

abbrev first : LstStore
first = (mmap_ustore_log_file-new_file last_bytes 64 few).0

first-IsValid : IsValid first
first-IsValid =
    let (s, runs, v, none_there, roomy) = mmap_ustore_log_file-new_file last_bytes 64 few in v

first-IsRoomy : IsRoomy first
first-IsRoomy =
    let (s, runs, v, none_there, roomy) = mmap_ustore_log_file-new_file last_bytes 64 few in
    roomy (omega arith)

abbrev tiny : Chunk
tiny = new_chunk ChunkType.blob_chunk (7 ∷ 8 ∷ [])

tiny-Fits : Fits ones tiny
unfolding new_chunk le_bytes
tiny-Fits = record {
  is_key = refl;
  sized = num_bytes-new_chunk ChunkType.blob_chunk (7 ∷ 8 ∷ []) (omega arith);
  long = omega arith;
  short = omega arith;
}

put-ends_example :
    ((t : LstStore) × (put first (of ones) tiny ≡ some t) × Puts first t (of ones) tiny)
    ⊎ ((put first (of ones) tiny ≡ none)
        × (first.info.free_segments ≡ 0)
        × (first.info.alloc_segments ≡ first.info.max_segments))
put-ends_example = put-ends first ones tiny first-IsValid tiny-Fits

abbrev second : LstStore
second = (put-Puts first ones tiny first-IsValid first-IsRoomy tiny-Fits).0

Reach-Extends_example : Extends first second
Reach-Extends_example = Reach-Extends first second first-IsValid (
    next here (
      put_chunk ones tiny tiny-Fits (
        let (t, runs, p) = put-Puts first ones tiny first-IsValid first-IsRoomy tiny-Fits in runs)))
