-- ===== src/Store/Memory.antt =====
-- A store in memory, which keeps the promises of `ChunkStore`, and values for the parameters of a
-- worker over it: a digest that is the last bytes of a chunk, and objects that are one blob.
use mathlib.Core.Path.{subst}
use forkbase.Base.{
  ◌+◌, ◌≡◌, refl, Bool, false, Option, none, some, [], ◌∷◌, ◌=?◌, Bytes, if◌then◌else◌, length,
  take, replicate, length-take, arith, Bool-cases, inl, inr,
}
use forkbase.Hash.{Hash, null, hash_eq, byte_length}
use forkbase.Chunk.{Chunk, new_chunk, hash_of}
use forkbase.Types.{ChunkType}
use forkbase.Dict
use forkbase.Dict.{Dict, lookup-emplace}
use forkbase.Store.{ChunkStore, Env, Edit, create_blob, is_some}
use forkbase.Store.Contract.{put_keeps}

abbrev pub no_order : Hash → Hash → Bool
no_order a b = false

pub lookup-put :
    (s : Dict Hash Chunk) (h : Hash) (c : Chunk) (j : Hash)
    → Dict.lookup j (Dict.emplace no_order h c s) ≡ (
        if h =? j
        then (elim (Dict.lookup h s) [ none ↦ some c | some old ↦ some old ])
        else Dict.lookup j s)
lookup-put s h c j =
    rw lookup-emplace
      (elim (Bool-cases (h =? j)) [ inl e ↦ rw (e, (hash_eq.beq_iff h j).0 e) | inr e ↦ rw e ])

abbrev pub memory : ChunkStore
memory = record {
  S = Dict Hash Chunk;
  get = λ s h. Dict.lookup h s;
  put = λ s h c. Dict.emplace no_order h c s;
  exists = λ s h. is_some (Dict.lookup h s);
  exists-get = λ s h. refl;
  get-put = lookup-put;
}

-- The bytes in reverse, before others.
abbrev pub reverse_onto : Bytes → Bytes → Bytes
reverse_onto [] acc = acc
reverse_onto (x ∷ xs) acc = reverse_onto xs (x ∷ acc)

length-reverse_onto : (xs acc : Bytes) → length (reverse_onto xs acc) ≡ length xs + length acc
length-reverse_onto [] acc = omega arith
length-reverse_onto (x ∷ xs) acc = omega (arith, length-reverse_onto xs (x ∷ acc))

abbrev pub last_bytes : Bytes → Bytes
last_bytes b = take byte_length (reverse_onto b (replicate byte_length 0))

pub length-last_bytes : (b : Bytes) → length (last_bytes b) ≡ byte_length
length-last_bytes b = omega (
  arith,
  length-take byte_length (reverse_onto b (replicate byte_length 0)),
  length-reverse_onto b (replicate byte_length 0),
)

-- An object is one blob, made of the value that it is created from.
abbrev pub run : Edit → Dict Hash Chunk → Option (Hash × Dict Hash Chunk)
run (create_blob text) s =
    let c = new_chunk ChunkType.blob_chunk text in
    some (hash_of last_bytes c, Dict.emplace no_order (hash_of last_bytes c) c s)
run _ s = some (null, s)

pub run_keeps :
    (e : Edit) (s : Dict Hash Chunk) (root : Hash) (s' : Dict Hash Chunk)
    → run e s ≡ some (root, s')
    → (h : Hash) (c : Chunk) → Dict.lookup h s ≡ some c
    → Dict.lookup h s' ≡ some c
run_keeps (create_blob text) s root s' x h c y =
    let b = new_chunk ChunkType.blob_chunk text in
    let same : Dict.emplace no_order (hash_of last_bytes b) b s ≡ s' = ground arith in
    subst (λ t. Dict.lookup h t ≡ some c) same (put_keeps memory s (hash_of last_bytes b) b h c y)
run_keeps _ s root s' x h c y =
    let same : s ≡ s' = ground arith in subst (λ t. Dict.lookup h t ≡ some c) same y

abbrev pub memory_env : Env
memory_env = record {
  chunks = memory;
  digest = last_bytes;
  run = run;
  length-digest = length-last_bytes;
  run_keeps = run_keeps;
}
