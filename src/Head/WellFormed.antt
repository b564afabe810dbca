-- ===== src/Head/WellFormed.antt =====
-- The invariant of the branch table (src/worker/simple_head_version.cc): a key has one map, the map is
-- in the strict order of its branches, and every head is a digest.
use forkbase.Base.{
  false, none, some, [], ◌∷◌, ◌=?◌, bytes_eq, ◌≡◌, arith, refl, bytes_beq-eq, Option-cases,
  Bool-cases, inl, inr,
}
use mathlib.Core.Path.{subst}
use forkbase.Slice.{Slice, lt}
use forkbase.Hash.{Hash, IsDigest}
use forkbase.Dict
use forkbase.Dict.{Dict, lookup-insert, lookup-remove}
use forkbase.Dict.Sorted.{IsSorted, IsSorted-insert, IsSorted-remove}
use forkbase.Head.Laws.{find_branch_lem}
use forkbase.Head.{
  HeadVersion, find_branch, or_empty, unordered, with_branches, put_branch, put_latest,
  remove_branch, rename_branch, exists_branch, empty_head,
}

abbrev pub IsUnique {κ} : {V : Type κ} → Dict Slice V → Type κ
IsUnique {V} [] = Unit
IsUnique {V} ((k, v) ∷ d) = (Dict.lookup k d ≡ none) × IsUnique d

-- The heads of one key.
abbrev pub AreDigests : Dict Slice Hash → Type 0
AreDigests [] = Unit
AreDigests ((b, h) ∷ d) = IsDigest h × AreDigests d

abbrev pub IsBranchMap : Dict Slice Hash → Type 0
IsBranchMap m = IsSorted m × AreDigests m

abbrev pub AreBranchMaps : Dict Slice (Dict Slice Hash) → Type 0
AreBranchMaps [] = Unit
AreBranchMaps ((k, m) ∷ d) = IsBranchMap m × AreBranchMaps d

pub record IsWellFormed (h : HeadVersion) : Type 0 where
  pub unique : IsUnique h.branch_ver
  pub maps : AreBranchMaps h.branch_ver

AreDigests-insert :
    (b : Slice) (v : Hash) (d : Dict Slice Hash)
    → IsDigest v
    → AreDigests d
    → AreDigests (Dict.insert lt b v d)
unfolding Dict.insert
AreDigests-insert b v [] hv hd = (hv, tt)
AreDigests-insert b v ((j, w) ∷ d) hv hd = elim (Bool-cases (j =? b)) [
  | inl p ↦ rw p (hv, hd.1)
  | inr p ↦ elim (Bool-cases (lt b j)) [
    | inl q ↦ rw (p, q) (hv, hd)
    | inr q ↦ rw (p, q) (hd.0, AreDigests-insert b v d hv hd.1)
  ]
]

AreDigests-remove : (b : Slice) (d : Dict Slice Hash) → AreDigests d → AreDigests (Dict.remove b d)
unfolding Dict.remove
AreDigests-remove b [] hd = tt
AreDigests-remove b ((j, w) ∷ d) hd = elim (Bool-cases (j =? b)) [
  | inl p ↦ rw p (AreDigests-remove b d hd.1)
  | inr p ↦ rw p (hd.0, AreDigests-remove b d hd.1)
]

IsBranchMap-insert :
    (b : Slice) (v : Hash) (m : Dict Slice Hash)
    → IsDigest v
    → IsBranchMap m
    → IsBranchMap (Dict.insert lt b v m)
IsBranchMap-insert b v m hv h = (IsSorted-insert b v m h.0, AreDigests-insert b v m hv h.1)

IsBranchMap-remove :
    (b : Slice) (m : Dict Slice Hash) → IsBranchMap m → IsBranchMap (Dict.remove b m)
IsBranchMap-remove b m h = (IsSorted-remove b m h.0, AreDigests-remove b m h.1)

IsBranchMap-emplace :
    (b : Slice) (v : Hash) (m : Dict Slice Hash)
    → IsDigest v
    → IsBranchMap m
    → IsBranchMap (Dict.emplace lt b v m)
unfolding Dict.emplace
IsBranchMap-emplace b v m hv h = elim (Option-cases (Dict.lookup b m)) [
  | inl e ↦ rw (e, Dict.emplace) (IsBranchMap-insert b v m hv h)
  | inr (w, e) ↦ rw (e, Dict.emplace) h
]

-- The map of a key, empty where there is none, and the head of a branch in it.
IsBranchMap-lookup :
    (k : Slice) (d : Dict Slice (Dict Slice Hash))
    → AreBranchMaps d
    → IsBranchMap (or_empty (Dict.lookup k d))
unfolding Dict.lookup
IsBranchMap-lookup k [] h = (tt, tt)
IsBranchMap-lookup k ((j, m) ∷ d) h = elim (Bool-cases (j =? k)) [
  | inl p ↦ rw p h.0
  | inr p ↦ rw p (IsBranchMap-lookup k d h.1)
]

pub IsDigest-lookup :
    (b : Slice) (m : Dict Slice Hash) (v : Hash)
    → AreDigests m
    → Dict.lookup b m ≡ some v
    → IsDigest v
unfolding Dict.lookup
IsDigest-lookup b [] v h e = cc
IsDigest-lookup b ((j, w) ∷ m) v h e = ground (arith, IsDigest-lookup b m v)

AreBranchMaps-insert :
    (k : Slice) (m : Dict Slice Hash) (d : Dict Slice (Dict Slice Hash))
    → IsBranchMap m
    → AreBranchMaps d
    → AreBranchMaps (Dict.insert unordered k m d)
unfolding Dict.insert
AreBranchMaps-insert k m [] hm h = (hm, tt)
AreBranchMaps-insert k m ((j, n) ∷ d) hm h = elim (Bool-cases (j =? k)) [
  | inl p ↦ rw p (hm, h.1)
  | inr p ↦ rw p (h.0, AreBranchMaps-insert k m d hm h.1)
]

lookup-insert_absent :
    (k j : Slice) (m : Dict Slice Hash) (d : Dict Slice (Dict Slice Hash))
    → (j =? k) ≡ false
    → Dict.lookup j d ≡ none
    → Dict.lookup j (Dict.insert unordered k m d) ≡ none
lookup-insert_absent k j m d p e =
    rw lookup-insert (ground (arith, e, p, (bytes_eq.beq_iff k j).0, (bytes_eq.beq_iff j k).1))

IsUnique-insert :
    (k : Slice) (m : Dict Slice Hash) (d : Dict Slice (Dict Slice Hash))
    → IsUnique d
    → IsUnique (Dict.insert unordered k m d)
unfolding Dict.insert Dict.lookup
IsUnique-insert k m [] h = (refl, tt)
IsUnique-insert k m ((j, n) ∷ d) h = elim (Bool-cases (j =? k)) [
  | inl p ↦ rw (p, ← bytes_beq-eq j k p) h
  | inr p ↦ rw p (lookup-insert_absent k j m d p h.0, IsUnique-insert k m d h.1)
]

module _ {h : HeadVersion} (w : IsWellFormed h) where
  with_branches-IsWellFormed :
      (key : Slice) (m : Dict Slice Hash) → IsBranchMap m → IsWellFormed (with_branches h key m)
  unfolding with_branches
  with_branches-IsWellFormed key m hm = record {
    unique = IsUnique-insert key m h.branch_ver w.unique;
    maps = AreBranchMaps-insert key m h.branch_ver hm w.maps;
  }

  inner : (key : Slice) → IsBranchMap (or_empty (Dict.lookup key h.branch_ver))
  inner key = IsBranchMap-lookup key h.branch_ver w.maps

  put_branch-IsWellFormed :
      (key branch : Slice) (ver : Hash) → IsDigest ver → IsWellFormed (put_branch h key branch ver)
  unfolding put_branch
  put_branch-IsWellFormed key branch ver d =
      with_branches-IsWellFormed key _ (IsBranchMap-insert branch ver _ d (inner key))

  remove_branch-IsWellFormed : (key branch : Slice) → IsWellFormed (remove_branch h key branch)
  unfolding remove_branch
  remove_branch-IsWellFormed key branch = elim (Bool-cases (exists_branch h key branch)) [
    | inl e ↦ rw e (with_branches-IsWellFormed key _ (IsBranchMap-remove branch _ (inner key)))
    | inr e ↦ rw e w
  ]

  rename_branch-IsWellFormed :
      (key old_branch new_branch : Slice) (h' : HeadVersion)
      → rename_branch h key old_branch new_branch ≡ some h'
      → IsWellFormed h'
  unfolding rename_branch
  rename_branch-IsWellFormed key old_branch new_branch h' e =
      elim (Option-cases (Dict.lookup key h.branch_ver)) [
        | inl x ↦ absurd (ground arith)
        | inr (m, x) ↦ elim (Option-cases (Dict.lookup old_branch m)) [
          | inl y ↦ absurd (ground arith)
          | inr (ver, y) ↦
              let m' = Dict.remove old_branch (Dict.emplace lt new_branch ver m) in
              let branches : IsBranchMap m = (let f = inner key in rw x at f) in
              let digest = IsDigest-lookup old_branch m ver branches.1 y in
              let step : with_branches h key m' ≡ h' = ground (arith, e, x, y) in
              subst IsWellFormed step (
                with_branches-IsWellFormed key m' (
                  IsBranchMap-remove old_branch _
                    (IsBranchMap-emplace new_branch ver m digest branches)))
        ]
      ]

  put_latest-IsWellFormed :
      (key : Slice) (prev1 prev2 ver : Hash) → IsWellFormed (put_latest h key prev1 prev2 ver)
  unfolding put_latest
  put_latest-IsWellFormed key prev1 prev2 ver = record { unique = w.unique; maps = w.maps }

-- A table to which the operations that change it were applied, from the empty one, with digests.
pub data Reachable : HeadVersion → Type 0 where
  start : Reachable empty_head
  put :
      {h : HeadVersion} (key branch : Slice) (ver : Hash)
      → IsDigest ver
      → Reachable h
      → Reachable (put_branch h key branch ver)
  latest :
      {h : HeadVersion} (key : Slice) (prev1 prev2 ver : Hash)
      → Reachable h
      → Reachable (put_latest h key prev1 prev2 ver)
  removed :
      {h : HeadVersion} (key branch : Slice) → Reachable h → Reachable (remove_branch h key branch)
  renamed :
      {h h' : HeadVersion} (key old_branch new_branch : Slice)
      → rename_branch h key old_branch new_branch ≡ some h'
      → Reachable h
      → Reachable h'

-- Every table that the operations reach from the empty one, where the versions put are digests,
-- has one map for each key, with the branches in strictly increasing order and digests as heads.
pub Reachable-IsWellFormed : {h : HeadVersion} → Reachable h → IsWellFormed h
Reachable-IsWellFormed start = record { unique = tt; maps = tt }
Reachable-IsWellFormed (put key branch ver d r) =
    put_branch-IsWellFormed (Reachable-IsWellFormed r) key branch ver d
Reachable-IsWellFormed (latest key prev1 prev2 ver r) =
    put_latest-IsWellFormed (Reachable-IsWellFormed r) key prev1 prev2 ver
Reachable-IsWellFormed (removed key branch r) =
    remove_branch-IsWellFormed (Reachable-IsWellFormed r) key branch
Reachable-IsWellFormed (renamed key old_branch new_branch e r) =
    rename_branch-IsWellFormed (Reachable-IsWellFormed r) key old_branch new_branch _ e

pub IsDigest-find_branch :
    (h : HeadVersion) (key branch : Slice) (v : Hash)
    → IsWellFormed h
    → find_branch h key branch ≡ some v
    → IsDigest v
IsDigest-find_branch h key branch v w e =
    IsDigest-lookup branch (or_empty (Dict.lookup key h.branch_ver)) v (inner w key).1
      (rw (find_branch_lem h key branch) at e)
