-- ===== src/LstStore.antt =====
-- `LSTStore` (include/store/lst_store.h, src/store/lst_store.cc): the chunk store that writes
-- chunks behind one another into the segments of a log, a file that is mapped into memory.
-- An address in the log is the offset from its base; 0 stands for a null pointer to a segment.
-- `none` is a failed check, a fatal error, or a key or chunk without bytes.
pub mod Links
pub mod Shape
pub mod Enlarge
pub mod Update
pub mod Request
pub mod Open
pub mod Valid
pub mod Append
pub mod Put
pub mod Calls
pub mod Chunks
pub mod Recover
pub mod Restart
pub mod Iterator
pub mod Load
use forkbase.Base.{
  ℕ, zero, suc, ◌+◌, ◌-◌, ◌*◌, ◌/◌, ◌%◌, ◌^◌, Bool, true, false, ◌&&◌, ◌||◌, Option, none, some,
  List, [], ◌∷◌, ◌++◌, Bytes, length, take, le_bytes, ltb, leb, ◌==◌, ◌=?◌, if◌then◌else◌,
}
use forkbase.Hash.{Hash, null, of, hash_eq, byte_length}
use forkbase.Chunk.{Chunk, meta_length, num_bytes, type_byte}
use forkbase.Dict
use forkbase.Dict.{Dict}
use forkbase.Store.{is_some}
use forkbase.Mmap.{Memory, load_bytes, store_bytes, load_integer}

-- `kMetaLogSize`, `kSegmentSize`, `kMetaSegmentSize`
abbrev pub meta_log_size : ℕ
meta_log_size = 4096

abbrev pub segment_size : ℕ
segment_size = 2 ^ 22

abbrev pub meta_segment_size : ℕ
meta_segment_size = 16

-- `segment_increment_`
abbrev pub segment_increment : ℕ
segment_increment = 16

-- `size_t` arithmetic
abbrev pub add_size : ℕ → ℕ → ℕ
add_size a b = (a + b) % 2 ^ 64

abbrev pub sub_size : ℕ → ℕ → ℕ
sub_size a b = (a + 2 ^ 64 - b) % 2 ^ 64

-- `StoreInfo`; the counts of each type are by the byte of the type
pub record StoreInfo : Type 0 where
  pub chunks : ℕ
  pub chunk_bytes : ℕ
  pub valid_chunks : ℕ
  pub valid_chunk_bytes : ℕ
  pub max_segments : ℕ
  pub alloc_segments : ℕ
  pub free_segments : ℕ
  pub used_segments : ℕ
  pub chunks_per_type : ℕ → ℕ
  pub bytes_per_type : ℕ → ℕ

abbrev add_at : ℕ → ℕ → (ℕ → ℕ) → ℕ → ℕ
add_at k n f i = if i == k then add_size (f i) n else f i

abbrev sub_at : ℕ → ℕ → (ℕ → ℕ) → ℕ → ℕ
sub_at k n f i = if i == k then sub_size (f i) n else f i

unfoldable pub on_new_chunk : StoreInfo → ℕ → ℕ → StoreInfo
on_new_chunk info type len = record info {
  chunks = add_size info.chunks 1;
  chunk_bytes = add_size info.chunk_bytes len;
  valid_chunks = add_size info.valid_chunks 1;
  valid_chunk_bytes = add_size info.valid_chunk_bytes len;
  chunks_per_type = add_at type 1 info.chunks_per_type;
  bytes_per_type = add_at type len info.bytes_per_type;
}

unfoldable pub on_remove_chunk : StoreInfo → ℕ → ℕ → StoreInfo
on_remove_chunk info type len = record info {
  valid_chunks = sub_size info.valid_chunks 1;
  valid_chunk_bytes = sub_size info.valid_chunk_bytes len;
  chunks_per_type = sub_at type 1 info.chunks_per_type;
  bytes_per_type = sub_at type len info.bytes_per_type;
}

-- `initStoreInfo`, and then `maxSegments`
abbrev pub init_store_info : ℕ → StoreInfo
init_store_info max = record {
  chunks = 0;
  chunk_bytes = 0;
  valid_chunks = 0;
  valid_chunk_bytes = 0;
  max_segments = max;
  alloc_segments = 0;
  free_segments = 0;
  used_segments = 0;
  chunks_per_type = λ i. 0;
  bytes_per_type = λ i. 0;
}

pub data ThreadStatus : Type 0 where
  unscheduled scheduled completed : ThreadStatus

-- The lists hold the segments in the order of `next_`; the last of `major_list` is the current one.
pub record LstStore : Type 0 where
  pub log : Memory
  pub chunk_map : Dict Hash ℕ
  pub free_list : List ℕ
  pub major_list : List ℕ
  pub current_major_segment : Option ℕ
  pub last_free_segment : ℕ
  pub major_segment_offset : ℕ
  pub info : StoreInfo
  -- `sync_block_`: the list from `head_` to `last_`, and `segments_` as the bits of an `int`
  pub sync_list : List ℕ
  pub sync_segments : ℕ
  pub thread_status : ThreadStatus

-- `SegmentPtrToOffset` of the first of a list
abbrev pub head_or_null : List ℕ → ℕ
head_or_null [] = 0
head_or_null (s ∷ l) = s

abbrev pub last_or_null : List ℕ → ℕ
last_or_null [] = 0
last_or_null (s ∷ []) = s
last_or_null (s ∷ t ∷ l) = last_or_null (t ∷ l)

-- The offset of the segment with this number.
abbrev pub segment_at : ℕ → ℕ
segment_at i = i * segment_size + meta_log_size

-- `LinkSegmentList`, with as many rounds as there is fuel: the segments that it goes through.
unfoldable pub link_segment_list : ℕ → Memory → ℕ → Option (List ℕ)
link_segment_list zero m o = if o == 0 then some [] else none
link_segment_list (suc n) m o =
    let rest = link_segment_list n m (load_integer 8 m (o + 8)) in
    if o == 0 then some [] else elim rest [ none ↦ none | some l ↦ some (o ∷ l) ]

-- `UpdateStore`
abbrev is_positive_int : ℕ → Bool
is_positive_int n = ltb 0 n && ltb n (2 ^ 31)

abbrev add_sync_block : LstStore → LstStore
add_sync_block s = elim s.free_list [
  | [] ↦ record s {
    free_list = s.sync_list;
    log = store_bytes (le_bytes 8 (head_or_null s.sync_list)) 0 s.log;
  }
  | o ∷ l ↦ record s {
    free_list = s.free_list ++ s.sync_list;
    log = store_bytes (le_bytes 8 (head_or_null s.sync_list)) (s.last_free_segment + 8) s.log;
  }
]

abbrev count_sync_block : LstStore → LstStore
count_sync_block s = record s {
  last_free_segment = last_or_null s.sync_list;
  info = record s.info {
    free_segments = add_size s.info.free_segments s.sync_segments;
    alloc_segments = add_size s.info.alloc_segments s.sync_segments;
  };
}

unfoldable pub update_store : LstStore → LstStore
update_store s =
    let updated =
      if is_positive_int s.sync_segments then count_sync_block (add_sync_block s) else s in
    record updated { thread_status = unscheduled }

-- `Enlarge`, from the time that it is scheduled: the number of new segments,
unfoldable pub new_segments : StoreInfo → ℕ
new_segments info =
    if ltb info.max_segments (add_size info.alloc_segments (segment_increment * 2))
    then sub_size info.max_segments info.alloc_segments
    else segment_increment * 2

-- the loop that writes the links of new segment number `i` and of those after it,
unfoldable pub init_segments : ℕ → ℕ → ℕ → ℕ → ℕ → Memory → Memory
init_segments zero i new alloc last m = m
init_segments (suc rest) i new alloc last m =
    let chunk_id = i + alloc in
    let prev = if ltb 0 i then segment_at (chunk_id - 1) else last in
    let next = if ltb i (new - 1) then segment_at (chunk_id + 1) else 0 in
    init_segments rest (i + 1) new alloc last
      (store_bytes (le_bytes 8 prev ++ le_bytes 8 next) (segment_at chunk_id) m)

-- what is written to the file, a byte in its new last place at the end,
unfoldable pub enlarged_log : StoreInfo → ℕ → Memory → Memory
enlarged_log info last m =
    let new = new_segments info in
    store_bytes (1 ∷ []) (segment_at (info.alloc_segments + new) - 1)
      (init_segments new 0 new info.alloc_segments last m)

-- and the whole. No new segment means that the log is full.
unfoldable pub enlarge : LstStore → Option LstStore
enlarge s =
    let new = new_segments s.info in
    let log = enlarged_log s.info s.last_free_segment s.log in
    let linked = link_segment_list new log (segment_at s.info.alloc_segments) in
    if new == 0
    then some (record s { sync_segments = 0; thread_status = completed })
    else elim linked [
      | none ↦ none
      | some l ↦
          if length l == new
          then some (record s {
            log = log;
            sync_list = l;
            sync_segments = new % 2 ^ 32;
            thread_status = completed;
          })
          else none
    ]

-- `Allocate`: the request for more segments when few are free,
unfoldable pub request_segments : LstStore → LstStore
request_segments s =
    if ltb s.info.free_segments segment_increment
    then elim s.thread_status [
      | unscheduled ↦ record s { thread_status = scheduled }
      | completed ↦ update_store s
      | scheduled ↦ s
    ]
    else s

-- the wait for them when none is,
abbrev pub take_completed : LstStore → LstStore
take_completed s = elim s.thread_status [ completed ↦ update_store s | _ ↦ s ]

abbrev pub wait_enlarged : LstStore → Option LstStore
wait_enlarged s = elim s.thread_status [ scheduled ↦ enlarge s | _ ↦ some s ]

unfoldable pub wait_segments : LstStore → Option LstStore
wait_segments s = elim s.free_list [
  | o ∷ l ↦ some s
  | [] ↦ elim (wait_enlarged s) [ none ↦ none | some t ↦ some (take_completed t) ]
]

-- `PtrToChunkLength`, `PtrToChunkType`
abbrev pub chunk_length_at : Memory → ℕ → ℕ
chunk_length_at m o = load_integer 4 m o

abbrev pub chunk_type_at : Memory → ℕ → ℕ
chunk_type_at m o = load_integer 1 m (o + 4)

-- `GetFirstChunkPtr`, `GetValidateHashPtr`
abbrev pub first_chunk_ptr : ℕ → ℕ
first_chunk_ptr segment = segment + meta_segment_size

abbrev pub validate_hash_ptr : ℕ → ℕ
validate_hash_ptr segment = segment + segment_size - byte_length

-- the end of the current segment, whose next one is `next`,
unfoldable pub seal_segment : ℕ → ℕ → Memory → Memory
seal_segment current next m =
    let first_chunk = first_chunk_ptr current in
    let first_hash = first_chunk + chunk_length_at m first_chunk in
    store_bytes (le_bytes 8 next) (current + 8)
      (store_bytes (load_bytes byte_length m first_hash) (validate_hash_ptr current) m)

abbrev pub offset_or_null : Option ℕ → ℕ
offset_or_null none = 0
offset_or_null (some o) = o

unfoldable pub link_next : Option ℕ → ℕ → Memory → Memory
link_next current next m =
    let sealed : Memory = elim current [ none ↦ m | some o ↦ seal_segment o next m ] in
    store_bytes (le_bytes 8 (offset_or_null current) ++ le_bytes 8 0) next sealed

-- and the whole, with the segment that was taken from the free list.
unfoldable pub allocate : Option ℕ → LstStore → Option (ℕ × LstStore)
allocate current s = elim (wait_segments (request_segments s)) [
  | none ↦ none
  | some t ↦ elim t.free_list [
    | [] ↦ none
    | next ∷ l ↦ some (
      next,
      record t {
        log = link_next current next t.log;
        free_list = l;
        info = record t.info {
          used_segments = add_size t.info.used_segments 1;
          free_segments = sub_size t.info.free_segments 1;
        };
      },
    )
  ]
]

-- `AllocateMajor`
unfoldable pub allocate_major : LstStore → Option LstStore
allocate_major s = elim (allocate s.current_major_segment s) [
  | none ↦ none
  | some (next, t) ↦
      let major = t.major_list ++ next ∷ [] in
      some (record t {
        log =
            store_bytes
              (le_bytes 8 (head_or_null t.free_list)
                ++ (le_bytes 8 (head_or_null major) ++ le_bytes 8 next))
              0 t.log;
        major_list = major;
        current_major_segment = some next;
        major_segment_offset = meta_segment_size;
      })
]

-- `GetFreeSpaceMajor`
unfoldable pub get_free_space_major : LstStore → ℕ
get_free_space_major s =
    sub_size (sub_size (sub_size segment_size s.major_segment_offset) byte_length) meta_length

-- `Exists`, `Get`; the default chunk is `none`
unfoldable pub exists : LstStore → Hash → Bool
exists s key = is_some (Dict.lookup key s.chunk_map)

unfoldable pub get : LstStore → Hash → Option Chunk
get s key = elim (Dict.lookup key s.chunk_map) [
  | none ↦ none
  | some o ↦ some (load_bytes (chunk_length_at s.log o) s.log o)
]

-- `unordered_map` has no order
abbrev pub no_order : Hash → Hash → Bool
no_order a b = false

-- `Put`: the bytes of chunk and key at the end of the current segment,
unfoldable pub append_chunk : LstStore → ℕ → Bytes → Chunk → LstStore
append_chunk s current key chunk =
    let o = current + s.major_segment_offset in
    let log =
      store_bytes key (o + num_bytes chunk) (store_bytes (take (num_bytes chunk) chunk) o s.log) in
    record s {
      log = log;
      chunk_map =
          Dict.emplace no_order (of (load_bytes byte_length log (o + num_bytes chunk))) o
            s.chunk_map;
      major_segment_offset = add_size s.major_segment_offset (byte_length + num_bytes chunk);
      info = on_new_chunk s.info (type_byte chunk) (num_bytes chunk);
    }

-- a new segment if there is none or it has too little space,
unfoldable pub make_room : LstStore → ℕ → Option LstStore
make_room s len = elim s.current_major_segment [
  | none ↦ allocate_major s
  | some o ↦ if ltb (get_free_space_major s) len then allocate_major s else some s
]

-- and the whole. The timers and `SyncToDisk`, which does nothing, are left out.
unfoldable pub put : LstStore → Hash → Chunk → Option LstStore
put s null chunk = none
put s (of key) chunk =
    if exists s (of key) then some s else elim (make_room s (byte_length + num_bytes chunk)) [
      | none ↦ none
      | some t ↦ elim t.current_major_segment [
        | none ↦ none
        | some current ↦ some (append_chunk t current key chunk)
      ]
    ]
