-- ===== src/Tests/Leaves.antt =====
-- Leaves of lists and blobs, and the servers of a cluster.
use forkbase.Base.{
  ℕ, ◌≡◌, ◌<◌, map, get_elem?, refl, ◌∷◌, [], ◌++◌, some, Bytes, List, take, drop, length, le_bytes,
  arith,
}
use forkbase.Hash.{of}
use forkbase.Types.{ChunkType}
use forkbase.Chunk.{new_chunk}
use forkbase.Slice.{Slice}
use forkbase.Segment
use forkbase.Node.ListNode.{element_bytes, encode, decode, data'}
use forkbase.Node.ListNode.ReadBack.{decode-encode}
use forkbase.Node.BlobNode.{copy, copy_lem}
use forkbase.Partitioner.{Partitioner, partitioner, get_dest_id, get_dest_addr, get_dest_addr_lem}
use forkbase.Tests.Data.{hi, note, ones, doc, dev}

abbrev two_elements : List Slice
two_elements = hi ∷ (note ∷ [])

decode-encode_example :
    ((m : Bytes) × (Segment.entry (encode two_elements) 1 ≡ some m) × (decode m ≡ note))
    × ((m : Bytes) × (data' (le_bytes 4 2 ++ (element_bytes two_elements ++ [])) 1 ≡ some m)
        × (decode m ≡ note))
decode-encode_example =
    decode-encode two_elements [] 1 note (omega arith, (omega arith, tt)) (omega arith) refl

copy_lem_example :
    copy (new_chunk ChunkType.blob_chunk hi) 1 5
    ≡ some (length (take 5 (drop 1 hi)), take 5 (drop 1 hi))
copy_lem_example = copy_lem hi 1 5 (omega arith) (omega arith) (omega arith)

get_dest_addr_lem_example :
    (p : Partitioner) × (q : Partitioner) × (id : ℕ) × (dest : Bytes) × (partitioner
        (doc ∷ (dev ∷ []))
        doc
        (λ a. a)
      ≡ some p)
    × (partitioner (doc ∷ (dev ∷ [])) dev (λ a. a) ≡ some q)
    × (get_dest_id p (of ones) ≡ some id)
    × (id < length (doc ∷ (dev ∷ [])))
    × (get_elem? (map (λ a. a) (doc ∷ (dev ∷ []))) id ≡ some dest)
    × (get_dest_addr p (of ones) ≡ some dest)
    × (get_dest_addr q (of ones) ≡ some dest)
get_dest_addr_lem_example =
    get_dest_addr_lem doc (dev ∷ []) doc dev (λ a. a) (of ones) (omega arith) refl
