-- ===== src/LstStore/Load.antt =====
-- The loading of a log by `LSTStore` (src/store/lst_store.cc): `LoadFromValidSegment`,
-- `LoadFromLastSegment`, `Load` and `MmapUstoreLogFile`. The loops over the chunks of a segment run
-- on fuel, one round for a chunk. `none` is also an exception, or fuel that is used up.
use forkbase.Base.{
  ℕ, zero, suc, ◌+◌, ◌-◌, Bool, true, false, Option, none, some, List, [], ◌∷◌, Bytes, length,
  replicate, ltb, ◌==◌, ◌=?◌, ◌||◌, ◌&&◌, bytes_eq, if◌then◌else◌,
}
use forkbase.Hash.{Hash, of, hash_eq, byte_length}
use forkbase.Chunk.{meta_length}
use forkbase.Types.{ChunkType, chunk_code}
use forkbase.Dict
use forkbase.Mmap.{Memory, load_bytes, store_bytes, load_integer}
use forkbase.LstStore.{
  LstStore, unscheduled, scheduled, meta_log_size, segment_size, segment_increment, add_size,
  sub_size, on_new_chunk, on_remove_chunk, init_store_info, last_or_null, link_segment_list,
  chunk_length_at, chunk_type_at, first_chunk_ptr, validate_hash_ptr, update_store, enlarge,
  no_order,
}

-- `IsChunkValid`, `IsEndChunk`
unfoldable pub is_chunk_valid : ℕ → Bool
is_chunk_valid type =
    type == chunk_code ChunkType.null_chunk
    || (type == chunk_code ChunkType.cell
        || (type == chunk_code ChunkType.meta
            || (type == chunk_code ChunkType.blob_chunk
                || (type == chunk_code ChunkType.map_chunk
                    || (type == chunk_code ChunkType.set_chunk
                        || (type == chunk_code ChunkType.list_chunk
                            || type == chunk_code ChunkType.invalid))))))

abbrev pub is_end_chunk : ℕ → Bool
is_end_chunk type = type == chunk_code ChunkType.null_chunk

-- The hash behind the chunk at an address, and the address of the next chunk.
abbrev pub hash_behind : Memory → ℕ → Hash
hash_behind m o = of (load_bytes byte_length m (o + chunk_length_at m o))

abbrev pub next_chunk : Memory → ℕ → ℕ
next_chunk m o = o + (chunk_length_at m o + byte_length)

-- A chunk of the log enters the map,
unfoldable pub enter_chunk : ℕ → LstStore → LstStore
enter_chunk o s = record s {
  chunk_map = Dict.emplace no_order (hash_behind s.log o) o s.chunk_map;
  info = on_new_chunk s.info (chunk_type_at s.log o) (chunk_length_at s.log o);
}

-- or says that the chunk with this hash is no longer there.
unfoldable pub leave_chunk : ℕ → LstStore → LstStore
leave_chunk o s = record s {
  chunk_map = Dict.remove (hash_behind s.log o) s.chunk_map;
  info = on_remove_chunk s.info (chunk_type_at s.log o) (chunk_length_at s.log o);
}

-- `LoadFromValidSegment`: its loop, and the whole
unfoldable pub load_valid_chunks : ℕ → ℕ → LstStore → Option LstStore
load_valid_chunks zero o s = none
load_valid_chunks (suc fuel) o s = elim (is_end_chunk (chunk_type_at s.log o)) [
  | true ↦ some s
  | false ↦ load_valid_chunks fuel (next_chunk s.log o) (
      if chunk_type_at s.log o == chunk_code ChunkType.invalid
      then leave_chunk o s
      else enter_chunk o s)
]

unfoldable pub load_from_valid_segment : LstStore → ℕ → Option LstStore
load_from_valid_segment s segment =
    let first_hash = hash_behind s.log (first_chunk_ptr segment) in
    let validate_hash = of (load_bytes byte_length s.log (validate_hash_ptr segment)) in
    if first_hash =? validate_hash
    then load_valid_chunks segment_size (first_chunk_ptr segment) s
    else none

-- A last segment has no next one.
abbrev pub unlink_next : ℕ → LstStore → LstStore
unlink_next segment s = record s {
  log =
      if load_integer 8 s.log (segment + 8) == 0
      then s.log
      else store_bytes (replicate 8 0) (segment + 8) s.log;
}

module _ (digest : Bytes → Bytes) where
  -- Whether the chunk at an address is one of this program's, with its own hash behind it.
  unfoldable pub is_intact : Memory → ℕ → Bool
  is_intact m o =
      is_chunk_valid (chunk_type_at m o)
      && hash_behind m o =? of (digest (load_bytes (chunk_length_at m o) m o))

  -- `LoadFromLastSegment`: its loop, with the address at which it ends. The entry of a removed
  -- chunk is erased and then asked for with `at`, which throws.
  unfoldable pub load_last_chunks : ℕ → ℕ → LstStore → Option (ℕ × LstStore)
  load_last_chunks zero o s = none
  load_last_chunks (suc fuel) o s = elim (is_intact s.log o) [
    | false ↦ some (o, record s { log = store_bytes (replicate meta_length 0) o s.log })
    | true ↦ elim (is_end_chunk (chunk_type_at s.log o)) [
      | true ↦ some (o, s)
      | false ↦ elim (chunk_type_at s.log o == chunk_code ChunkType.invalid) [
        | true ↦ none
        | false ↦ load_last_chunks fuel (next_chunk s.log o) (enter_chunk o s)
      ]
    ]
  ]

  -- and the whole, with the offset in the segment
  unfoldable pub load_from_last_segment : LstStore → ℕ → Option (ℕ × LstStore)
  load_from_last_segment s segment =
      elim (load_last_chunks segment_size (first_chunk_ptr segment) (unlink_next segment s)) [
        | none ↦ none
        | some (o, t) ↦ some (o - segment, t)
      ]

  -- `Load`: the major list from its first segment to its last,
  unfoldable pub load_segments : List ℕ → LstStore → Option LstStore
  load_segments [] s = some s
  load_segments (o ∷ []) s = elim (load_from_last_segment s o) [
    | none ↦ none
    | some (offset, t) ↦
        some (record t { current_major_segment = some o; major_segment_offset = offset })
  ]
  load_segments (o ∷ p ∷ l) s = elim (load_from_valid_segment s o) [
    | none ↦ none
    | some t ↦ load_segments (p ∷ l) t
  ]

  -- the lists that are linked in the log,
  abbrev link_lists : List ℕ → List ℕ → LstStore → LstStore
  link_lists free major s = record s {
    free_list = free;
    major_list = major;
    last_free_segment = last_or_null free;
    info = record s.info {
      alloc_segments = add_size (add_size s.info.alloc_segments (length free)) (length major);
    };
  }

  abbrev count_segments : LstStore → LstStore
  count_segments s = record s {
    info = record s.info {
      used_segments = length s.major_list;
      free_segments = sub_size s.info.alloc_segments (length s.major_list);
    };
  }

  -- and the whole.
  unfoldable pub load : LstStore → Option LstStore
  load s = elim (link_segment_list s.info.max_segments s.log (load_integer 8 s.log 0)) [
    | none ↦ none
    | some free ↦ elim (link_segment_list s.info.max_segments s.log (load_integer 8 s.log 8)) [
      | none ↦ none
      | some major ↦ elim (load_segments major (link_lists free major s)) [
        | none ↦ none
        | some t ↦ some (count_segments t)
      ]
    ]
  ]

  -- `MmapUstoreLogFile` of a file with these bytes, where `max` segments are configured.
  abbrev pub mapped : ℕ → Memory → LstStore
  mapped max file = record {
    log = file;
    chunk_map = [];
    free_list = [];
    major_list = [];
    current_major_segment = none;
    last_free_segment = 0;
    major_segment_offset = 0;
    info = init_store_info max;
    sync_list = [];
    sync_segments = 0;
    thread_status = unscheduled;
  }

  abbrev enlarge_now : LstStore → Option LstStore
  enlarge_now s = elim (enlarge (record s { thread_status = scheduled })) [
    | none ↦ none
    | some t ↦ some (update_store t)
  ]

  unfoldable pub mmap_ustore_log_file : ℕ → Memory → Option LstStore
  mmap_ustore_log_file max file = elim (load (mapped max file)) [
    | none ↦ none
    | some s ↦
        let enlarged = enlarge_now s in
        if ltb s.info.free_segments segment_increment then enlarged else some s
  ]

-- What is written for a file that is not there yet: a log of no segments.
abbrev pub new_file : Memory
new_file i = if i == meta_log_size - 1 then 97 else 0
