-- ===== src/Lib.antt =====
-- ForkBase (UStore): versioned, branchable storage of values over content-addressed chunks.
--
-- A value is stored as a cell: a chunk with the type, the key, the value (or the root hash of an
-- object), a context and the hashes of the versions that it follows. The hash of its chunk is the
-- version. A worker keeps the head version of every branch of every key and the latest versions of
-- every key; its methods read and write cells through a chunk store and move the heads.
--
-- Files and the code that they model (paths from the repository's root):
--   Base            shared helpers: Boolean tests, lists over native numbers, little-endian numbers
--   Slice           include/spec/slice.h: byte strings and their comparisons
--   Dict            std::map and std::unordered_map as association lists
--   Hash            include/hash/hash.h, src/hash/hash.cc: identifiers, kNull, equality; Hash/Base32
--                   has ToBase32 and FromBase32
--   Types           include/types/type.h: the enumerations and their codes
--   Chunk           include/chunk/chunk.h, src/chunk/chunk.cc: a chunk as its bytes
--   Cell            include/node/cell_node.h, src/node/cell_node.cc: CellNode::NewChunk and readers
--   Segment         include/chunk/segment.h, src/chunk/segment.cc: VarSegment, FixedSegment (Fixed)
--   Node            src/node/orderedkey.cc; Node/Leaf has the code that src/node/map_node.cc and
--                   src/node/set_node.cc share, over the codec of an item; Node/MapNode and
--                   Node/SetNode have the codecs; Node/Make has their chunkers' Make;
--                   Node/MetaEntry has the entries of src/node/node.cc, Node/MetaNode the nodes of
--                   src/node/meta_node.cc, Node/MetaMake its Make, Node/Cursor the constructors
--                   of src/node/cursor.cc, its child Move the cursor's Advance and Retreat, its
--                   children Advance and Undo what these do in the order of the tree, and
--                   Node/IndexRange IndexRange::Compact;
--                   Node/ListNode and Node/BlobNode have src/node/list_node.cc, src/node/blob_node.cc
--   Partitioner     include/cluster/partitioner.h, src/cluster/partitioner.cc
--   Head            include/worker/simple_head_version.h, src/worker/simple_head_version.cc:
--                   SimpleHeadVersion; Head/Persist has Dump and Load, and Head/Branches
--                   says what the table means
--   Rocks           include/worker/rocks_head_version.h, src/worker/rocks_head_version.cc,
--                   src/utils/rocksdb.cc: RocksHeadVersion. Rocks/Updater has the merge operator of the
--                   latest versions, Rocks/BranchDb and Rocks/Table the two databases and the table;
--                   Rocks/Memory is one database
--   Store           include/store/chunk_store.h: ChunkStore with its contract, and the calls that a
--                   worker makes of the objects in include/types/server; Store/Memory is one store
--   Mmap            the memory that a file is mapped into, with copies of bytes
--   LstStore        include/store/lst_store.h, src/store/lst_store.cc: LSTStore, a chunk store over
--                   a log. LstStore/Load has the mapping and the loading of the log; Links, Shape and
--                   Valid say how the log is laid out; Enlarge, Update, Request, Open, Append and Put
--                   are about the operations, Calls about runs of them; Chunks, Recover and Restart
--                   are about what is loaded, and Iterator has LSTStoreIterator
--   Worker          include/worker/worker.h, src/worker/worker.cc: Worker/Write has WriteUCell and
--                   what it calls, Worker/Methods the public methods; Versions, After,
--                   Effects, Ends and Calls are about what they do
--   Tests           examples
--
-- A method of the worker is a function from a worker to nothing (the process aborts or an exception
-- escapes) or an error code or result with the worker afterwards. C++ overloads have a name each:
-- Put after a version is put_version, on a branch put; Merge is merge (two branches), merge_version
-- (a branch and a version) and merge_versions; Branch is branch and branch_version.
--
-- Numbers are natural numbers; a field of fixed width is written as its low bytes and read back, and
-- a size_t that may wrap around is taken modulo 2 ^ 64. Every loop is a structural recursion but
-- three, which have fuel: that of a cursor going down a tree, for which the tree's height is enough,
-- and those over the segments and the chunks of a log, as many as there may be segments in the log
-- and bytes in a segment. The log is the byte at each address of the mapped memory. The task
-- that Enlarge is runs as one step at any time after it was scheduled, and at the latest when
-- Allocate waits for it.
-- The digest of a chunk is a parameter of 20 bytes of output. The code of blobs, lists, maps and
-- sets is a parameter of the worker that may abort and overwrites no chunk. RocksDB is a parameter of
-- the table of heads over it, with what its documentation says of a call that is ok.
--
-- Not modelled: logging, timers, failures of the file system, and threads but for Enlarge; the
-- checks of debug builds; the worker's construction, which reads files; building, comparing and
-- merging trees; the stores over third-party databases; the services, the network, the HTTP server,
-- the command line and the applications over the database facade.
pub mod Base
pub mod Cell
pub mod Chunk
pub mod Dict
pub mod Hash
pub mod Head
pub mod LstStore
pub mod Mmap
pub mod Node
pub mod Partitioner
pub mod Rocks
pub mod Segment
pub mod Slice
pub mod Store
pub mod Tests
pub mod Types
pub mod Worker
