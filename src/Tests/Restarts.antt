-- ===== src/Tests/Restarts.antt =====
-- A log of one segment, with and without a chunk.
use mathlib.Core.Path.{subst}
use forkbase.Base.{
  ◌+◌, ◌-◌, ◌≡◌, refl, sym, suc, ◌==◌, ◌^◌, none, some, false, arith, ◌∷◌, [], inl, inr, ◌=?◌,
  if◌then◌else◌, le_bytes, le_value, read_le, length-le_bytes,
}
use forkbase.Hash.{Hash, of, hash_eq}
use forkbase.Types.{ChunkType}
use forkbase.Dict
use forkbase.Chunk.{Chunk, new_chunk, num_bytes, num_bytes-new_chunk, type_byte}
use forkbase.Store.Memory.{last_bytes, length-last_bytes}
use forkbase.Mmap.{Memory, Same, store_bytes, store_bytes-Same, load_integer, load_bytes}
use forkbase.LstStore.{LstStore, unscheduled, init_store_info, append_chunk, segment_at}
use forkbase.LstStore.Load.{mapped, load_from_last_segment, is_intact, is_chunk_valid}
use forkbase.LstStore.Links.{Linked, next_at}
use forkbase.LstStore.Shape.{IsShaped}
use forkbase.LstStore.Valid.{IsValid}
use forkbase.LstStore.Append.{Fits, HasRoom}
use forkbase.LstStore.Chunks.{Chunks, stop, chunk, first_with, or_first}
use forkbase.LstStore.Recover.{load_from_last_segment-Chunks}
use forkbase.LstStore.Restart.{IsData, Blank, or_else, load_from_last_segment-append_chunk}

abbrev tiny : Chunk
tiny = new_chunk ChunkType.blob_chunk (7 ∷ 8 ∷ [])

abbrev zeros : Memory
zeros i = 0

-- A chunk with its hash, and behind them a byte of a write that was torn.
abbrev torn : Memory
torn = store_bytes (9 ∷ []) 4143 (store_bytes (last_bytes tiny) 4119 (store_bytes tiny 4112 zeros))

torn-Chunks : Chunks last_bytes torn 4112 (4112 ∷ []) 4139
unfolding new_chunk le_bytes is_intact is_chunk_valid load_integer le_value load_bytes store_bytes
torn-Chunks = chunk refl refl refl stop

torn_end : is_intact last_bytes torn 4139 ≡ false
unfolding new_chunk le_bytes is_intact is_chunk_valid load_integer le_value load_bytes store_bytes
torn_end = refl

load_from_last_segment-Chunks_example :
    (t : LstStore) × (load_from_last_segment last_bytes (mapped last_bytes 64 torn) 4096
      ≡ some (4139 - 4096, t))
    × ((h : Hash)
        → Dict.lookup h t.chunk_map
          ≡ or_first torn h (4112 ∷ []) (Dict.lookup h (mapped last_bytes 64 torn).chunk_map))
    × Same torn t.log 4112 4139
load_from_last_segment-Chunks_example =
    load_from_last_segment-Chunks (mapped last_bytes 64 torn) 4096 4139 (4112 ∷ []) torn-Chunks
      (omega arith) (inl torn_end)

abbrev one_log : Memory
one_log = store_bytes (le_bytes 8 4096) 8 zeros

-- The first segment is the current one, and empty.
abbrev one_segment : LstStore
one_segment = record {
  log = one_log;
  chunk_map = [];
  free_list = [];
  major_list = 4096 ∷ [];
  current_major_segment = some 4096;
  last_free_segment = 0;
  major_segment_offset = 16;
  info = record (init_store_info 1) { alloc_segments = 1; used_segments = 1 };
  sync_list = [];
  sync_segments = 0;
  thread_status = unscheduled;
}

one_next : next_at one_log 0 ≡ 0
unfolding le_bytes load_integer le_value load_bytes store_bytes
one_next = refl

one_log-Linked : Linked one_log 0 1
one_log-Linked j a b =
    let e : 0 ≡ j = omega (arith, b) in
    subst (λ i. next_at one_log i ≡ (if suc i == 0 + 1 then 0 else segment_at (suc i))) e one_next

one_segment-IsShaped : IsShaped one_segment
unfolding le_bytes load_integer le_value load_bytes store_bytes
one_segment-IsShaped = record {
  alloc_is = refl;
  in_max = omega arith;
  small = omega arith;
  free_is = refl;
  major_is = refl;
  current_is = refl;
  last_free_is = λ z. absurd (omega (arith, z));
  offset_above = λ z. omega arith;
  offset_below = λ z. omega arith;
  sync_count = λ z. cc;
  sync_is = λ z. cc;
  sync_linked = λ z. cc;
  free_linked = λ j a b. absurd (omega (arith, a, b));
  major_linked = one_log-Linked;
  free_head = refl;
  major_head = refl;
}

one_segment-IsValid : IsValid one_segment
unfolding Dict.lookup
one_segment-IsValid = record { shaped = one_segment-IsShaped; stored = λ h o e. cc }

tiny-Fits : Fits (last_bytes tiny) tiny
unfolding new_chunk le_bytes
tiny-Fits = record {
  is_key = length-last_bytes tiny;
  sized = num_bytes-new_chunk ChunkType.blob_chunk (7 ∷ 8 ∷ []) (omega arith);
  long = omega arith;
  short = omega arith;
}

tiny_size : num_bytes tiny ≡ 7
unfolding num_bytes new_chunk read_le le_bytes le_value
tiny_size = omega arith

one_segment-HasRoom : HasRoom one_segment 0 (20 + num_bytes tiny)
one_segment-HasRoom = record { is_current = refl; used = refl; room = omega (arith, tiny_size) }

tiny-IsData : IsData (type_byte tiny)
unfolding type_byte new_chunk read_le le_bytes le_value is_chunk_valid
tiny-IsData = record { known = refl; no_end = refl; no_removal = refl }

one_segment-Blank : Blank one_log 4112 (4096 + 2 ^ 22 - 20)
one_segment-Blank i a b = sym (
    store_bytes-Same (le_bytes 8 4096) 8 zeros 4112 (4096 + 2 ^ 22 - 20)
      (inr (omega (arith, length-le_bytes 8 4096))) i a b)

load_from_last_segment-append_chunk_example :
    (u : LstStore) × (load_from_last_segment last_bytes
        (mapped last_bytes 1 (append_chunk one_segment 4096 (last_bytes tiny) tiny).log)
        4096
      ≡ some ((append_chunk one_segment 4096 (last_bytes tiny) tiny).major_segment_offset, u))
    × ((h : Hash)
        → Dict.lookup h u.chunk_map
          ≡ or_else
              (first_with one_log h [])
              (if of (last_bytes tiny) =? h then some 4112 else none))
load_from_last_segment-append_chunk_example =
    load_from_last_segment-append_chunk last_bytes one_segment 0 (last_bytes tiny) tiny
      one_segment-IsValid tiny-Fits one_segment-HasRoom [] 1 stop one_segment-Blank refl tiny-IsData
