-- ===== src/Tests/Iterators.antt =====
-- A log of two segments with a chunk in each.
use forkbase.Base.{◌≡◌, refl, none, true, Bool, arith, ◌∷◌, [], le_bytes, le_value}
use forkbase.Hash.{Hash}
use forkbase.Types.{ChunkType}
use forkbase.Chunk.{Chunk, new_chunk}
use forkbase.Store.Memory.{last_bytes}
use forkbase.Mmap.{Memory, store_bytes, load_integer, load_bytes}
use forkbase.LstStore.Load.{is_intact, is_chunk_valid}
use forkbase.LstStore.Chunks.{stop, chunk}
use forkbase.LstStore.Iterator.{
  LstStoreIterator, IsLog, last, more, Visits, begin, next, checked, begin-Visits,
}

abbrev one : Chunk
one = new_chunk ChunkType.blob_chunk (7 ∷ 8 ∷ [])

abbrev other : Chunk
other = new_chunk ChunkType.blob_chunk (9 ∷ [])

abbrev two_segments : Memory
two_segments = store_bytes (last_bytes one) 4119 (
    store_bytes one 4112
      (store_bytes (last_bytes other) 4198422 (store_bytes other 4198416 (λ i. 0))))

two_segments-IsLog :
    IsLog last_bytes two_segments (4096 ∷ 4198400 ∷ []) 4112 (4112 ∷ 4198416 ∷ []) 4198442
unfolding new_chunk le_bytes is_intact is_chunk_valid load_integer le_value load_bytes store_bytes
two_segments-IsLog =
    more {e = 4139} (chunk refl refl refl stop) refl (last (chunk refl refl refl stop) refl)

abbrev always : Hash → Bool
always h = true

begin-Visits_example :
    Visits two_segments always 2
      (begin (4096 ∷ 4198400 ∷ []))
      (4112 ∷ checked two_segments always (4198416 ∷ []))
      4198442
    × ((it : LstStoreIterator) → it.ptr ≡ 4198442 → next two_segments always 2 it ≡ none)
begin-Visits_example =
    begin-Visits two_segments always last_bytes 2 4096 4198442 (4198400 ∷ []) (4198416 ∷ [])
      two_segments-IsLog (omega arith)
