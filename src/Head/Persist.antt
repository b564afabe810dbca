-- ===== src/Head/Persist.antt =====
-- `Dump` and `Load` (src/worker/simple_head_version.cc): the branch table as the repeated fields
-- of the protobuf message `KeyVersions`. Writing the message to a file and parsing it back is the
-- protobuf library's; only what goes into the message and comes out of it is modelled.
-- The latest versions are not dumped.
use mathlib.Core.Path.{subst}
use mathlib.Core.Option.{or_else}
use forkbase.Base.{
  none, some, List, [], ◌∷◌, ◌=?◌, if◌then◌else◌, bytes_eq, ◌≡◌, arith, refl, bytes_beq-eq,
  bytes_beq_self, Bool-cases, inl, inr, Bytes, take, take_self,
}
use forkbase.Slice.{Slice, lt}
use forkbase.Hash.{Hash, null, of, IsDigest, value, byte_length}
use forkbase.Dict
use forkbase.Dict.{Dict, lookup-insert, lookup-remove, lookup-emplace}
use forkbase.Head.{HeadVersion, or_empty, unordered, find_branch, empty_head}
use forkbase.Head.Laws.{find_branch_lem}
use forkbase.Head.WellFormed.{IsWellFormed, IsUnique, AreDigests, AreBranchMaps}

-- `BranchVersion` and `KeyVersion`: a branch and the bytes of its version; a key and its branches.
abbrev pub BranchVersion : Type 0
BranchVersion = Bytes × Bytes

abbrev pub KeyVersion : Type 0
KeyVersion = Bytes × List BranchVersion

unfoldable pub dump_branches : Dict Slice Hash → List BranchVersion
dump_branches [] = []
dump_branches ((branch, version) ∷ d) = (branch, take byte_length (value version)) ∷ dump_branches d

unfoldable pub dump_keys : Dict Slice (Dict Slice Hash) → List KeyVersion
dump_keys [] = []
dump_keys ((key, branches) ∷ d) = (key, dump_branches branches) ∷ dump_keys d

-- `Dump`
unfoldable pub dump : HeadVersion → List KeyVersion
dump h = dump_keys h.branch_ver

unfoldable pub load_branches : List BranchVersion → Dict Slice Hash → Dict Slice Hash
load_branches [] branch_map = branch_map
load_branches ((branch, version) ∷ rest) branch_map =
    load_branches rest (Dict.emplace lt branch (of (take byte_length version)) branch_map)

-- The key's entry is created if it is not there; the reference to its map is then filled.
unfoldable pub load_key : KeyVersion → Dict Slice (Dict Slice Hash) → Dict Slice (Dict Slice Hash)
load_key (key, branches) table =
    let emplaced = Dict.emplace unordered key [] table in
    Dict.insert unordered key (load_branches branches (or_empty (Dict.lookup key emplaced)))
      emplaced

unfoldable pub load_keys :
    List KeyVersion → Dict Slice (Dict Slice Hash) → Dict Slice (Dict Slice Hash)
load_keys [] table = table
load_keys (entry ∷ rest) table = load_keys rest (load_key entry table)

-- `Load`
unfoldable pub load : List KeyVersion → HeadVersion → HeadVersion
load key_versions h = record h { branch_ver = load_keys key_versions h.branch_ver }

-- A digest survives the two copies of its bytes.
take_digest : (v : Hash) → IsDigest v → of (take byte_length (take byte_length (value v))) ≡ v
take_digest null d = absurd (omega arith)
take_digest (of b) d = rw (take_self byte_length b d, take_self byte_length b d)

lookup-cons :
    (b c : Slice) (v : Hash) (m : Dict Slice Hash)
    → Dict.lookup b ((c, v) ∷ m) ≡ (if c =? b then some v else Dict.lookup b m)
unfolding Dict.lookup
lookup-cons b c v m = refl

lookup-load_branches :
    (b : Slice) (m acc : Dict Slice Hash)
    → AreDigests m
    → Dict.lookup b (load_branches (dump_branches m) acc)
      ≡ or_else (Dict.lookup b acc) (Dict.lookup b m)
unfolding load_branches dump_branches or_else
lookup-load_branches b [] acc h = unfold Dict.lookup in ground arith
lookup-load_branches b ((c, v) ∷ m) acc h =
    let copied = of (take byte_length (take byte_length (value v))) in
    rw
      (
        lookup-load_branches b m (Dict.emplace lt c copied acc) h.1,
        lookup-emplace lt c b copied acc,
        lookup-cons b c v m,
        ← take_digest v h.0,
      )
      (ground arith)

lookup-head :
    (key k : Slice) (n : Dict Slice Hash) (d : Dict Slice (Dict Slice Hash))
    → Dict.lookup key ((k, n) ∷ d) ≡ (if k =? key then some n else Dict.lookup key d)
unfolding Dict.lookup
lookup-head key k n d = refl

module _ (key branch : Slice) where
  lookup-load_key :
      (k : Slice) (bs : List BranchVersion) (acc : Dict Slice (Dict Slice Hash))
      → or_empty (Dict.lookup key (load_key (k, bs) acc)) ≡ (
          if k =? key
          then load_branches bs (or_empty (Dict.lookup key acc))
          else or_empty (Dict.lookup key acc))
  unfolding load_key
  lookup-load_key k bs acc =
      rw (lookup-insert, lookup-emplace, lookup-emplace)
        (elim (Bool-cases (k =? key)) [
          | inl e ↦ rw (e, bytes_beq-eq k key e) (ground (arith, bytes_beq_self key))
          | inr e ↦ rw e
        ])

  lookup-load_keys :
      (d acc : Dict Slice (Dict Slice Hash))
      → IsUnique d
      → AreBranchMaps d
      → Dict.lookup branch (or_empty (Dict.lookup key (load_keys (dump_keys d) acc)))
        ≡ or_else
            (Dict.lookup branch (or_empty (Dict.lookup key acc)))
            (Dict.lookup branch (or_empty (Dict.lookup key d)))
  unfolding load_keys dump_keys or_else
  lookup-load_keys [] acc u m = unfold Dict.lookup in ground arith
  lookup-load_keys ((k, n) ∷ d) acc u m =
      rw (lookup-load_keys d _ u.1 m.1, lookup-load_key)
        (elim (Bool-cases (k =? key)) [
          | inl e ↦
              let absent = subst (λ x. Dict.lookup x d ≡ none) (bytes_beq-eq k key e) u.0 in
              rw (e, lookup-load_branches branch n _ m.0.1, absent)
                (rw (lookup-head key k n d, e) (unfold Dict.lookup in ground arith))
          | inr e ↦ rw (e, lookup-head key k n d) (rw e)
        ])

-- Loading what a well-formed table was dumped to, into an empty table, restores the head of every
-- branch of every key.
pub find_branch-load-dump :
    {h : HeadVersion} (key branch : Slice)
    → IsWellFormed h
    → find_branch (load (dump h) empty_head) key branch ≡ find_branch h key branch
unfolding load dump Dict.lookup or_else
find_branch-load-dump {h} key branch w =
    rw (find_branch_lem, find_branch_lem)
      (lookup-load_keys key branch h.branch_ver [] w.unique w.maps)
