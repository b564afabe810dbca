-- ===== src/Head.antt =====
-- `SimpleHeadVersion` (include/worker/simple_head_version.h, src/worker/simple_head_version.cc):
-- for each key its branches with their head versions, and the set of its latest versions.
-- `branch_ver_` is an `unordered_map` of `map`s; the inner ones are kept in the order of slices.
-- The outer maps and the sets are unordered in the source; here they keep the order of insertion.
-- `LogBranchUpdate` does nothing. The files of `Load` and `Dump` are in `Head/Persist.antt`.
pub mod Latest
pub mod Laws
pub mod Branches
pub mod WellFormed
pub mod Persist
use forkbase.Base.{
  Bool, true, false, not, ◌||◌, Option, none, some, List, [], ◌∷◌, ◌++◌, map, Eq, ◌=?◌,
  if◌then◌else◌, bytes_eq,
}
use forkbase.Slice.{Slice, lt}
use forkbase.Hash.{Hash, k_null, is_empty, hash_eq}
use forkbase.Dict
use forkbase.Dict.{Dict}

-- `std::unordered_set<Hash>`
unfoldable pub contains : Hash → List Hash → Bool
contains h [] = false
contains h (x ∷ s) = x =? h || contains h s

unfoldable pub erase : Hash → List Hash → List Hash
erase h [] = []
erase h (x ∷ s) = let rest = erase h s in if x =? h then rest else x ∷ rest

unfoldable pub set_insert : Hash → List Hash → List Hash
set_insert h s = if contains h s then s else s ++ h ∷ []

pub record HeadVersion : Type 0 where
  pub branch_ver : Dict Slice (Dict Slice Hash)
  pub latest_ver : Dict Slice (List Hash)

abbrev pub empty_head : HeadVersion
empty_head = record { branch_ver = []; latest_ver = [] }

abbrev pub or_empty {ℓ} : {A : Type ℓ} → Option (List A) → List A
or_empty none = []
or_empty (some l) = l

-- An entry of an unordered map is added at the end.
abbrev pub unordered : Slice → Slice → Bool
unordered a b = false

-- The two look-ups that `Exists(key, branch)`, `GetBranch` and `IsBranchHead` make.
unfoldable pub find_branch : HeadVersion → Slice → Slice → Option Hash
find_branch h key branch = elim (Dict.lookup key h.branch_ver) [
  | none ↦ none
  | some bv_key ↦ Dict.lookup branch bv_key
]

unfoldable pub exists_key : HeadVersion → Slice → Bool
exists_key h key = elim (Dict.lookup key h.latest_ver) [ none ↦ false | some _ ↦ true ]

unfoldable pub exists_branch : HeadVersion → Slice → Slice → Bool
exists_branch h key branch = elim (find_branch h key branch) [ none ↦ false | some _ ↦ true ]

-- The result and what is written to `*ver`.
unfoldable pub get_branch : HeadVersion → Slice → Slice → Bool × Hash
get_branch h key branch = elim (find_branch h key branch) [
  | none ↦ (false, k_null)
  | some ver ↦ (true, ver)
]

unfoldable pub get_latest : HeadVersion → Slice → List Hash
get_latest h key = or_empty (Dict.lookup key h.latest_ver)

-- A change of `branch_ver_.at(key)`, through a reference into the map.
unfoldable pub with_branches : HeadVersion → Slice → Dict Slice Hash → HeadVersion
with_branches h key bv_key = record h { branch_ver = Dict.insert unordered key bv_key h.branch_ver }

-- A missing key and a missing branch are created before the assignment.
unfoldable pub put_branch : HeadVersion → Slice → Slice → Hash → HeadVersion
put_branch h key branch ver =
    with_branches h key (Dict.insert lt branch ver (or_empty (Dict.lookup key h.branch_ver)))

-- The two `erase` calls and the `insert` on the set of one key.
unfoldable pub follow : Hash → Hash → Hash → List Hash → List Hash
follow prev_ver1 prev_ver2 ver lv_key =
    let without1 = erase prev_ver1 lv_key in
    set_insert ver (if not (is_empty prev_ver2) then erase prev_ver2 without1 else without1)

-- A missing key is created before the set is changed.
unfoldable pub put_latest : HeadVersion → Slice → Hash → Hash → Hash → HeadVersion
put_latest h key prev_ver1 prev_ver2 ver =
    let lv_key = or_empty (Dict.lookup key h.latest_ver) in
    record h {
      latest_ver = Dict.insert unordered key (follow prev_ver1 prev_ver2 ver lv_key) h.latest_ver;
    }

unfoldable pub remove_branch : HeadVersion → Slice → Slice → HeadVersion
remove_branch h key branch =
    if exists_branch h key branch
    then with_branches h key (Dict.remove branch (or_empty (Dict.lookup key h.branch_ver)))
    else h

-- `emplace` adds the new branch unless there is one of that name; then the old one is erased.
-- `none`: an `at` throws, since the key or the old branch is missing (the two assertions above it
-- are compiled in debug builds alone).
unfoldable pub rename_branch : HeadVersion → Slice → Slice → Slice → Option HeadVersion
rename_branch h key old_branch new_branch = elim (Dict.lookup key h.branch_ver) [
  | none ↦ none
  | some bv_key ↦ elim (Dict.lookup old_branch bv_key) [
    | none ↦ none
    | some ver ↦
        some (with_branches h key (Dict.remove old_branch (Dict.emplace lt new_branch ver bv_key)))
  ]
]

unfoldable pub is_latest : HeadVersion → Slice → Hash → Bool
is_latest h key ver = elim (Dict.lookup key h.latest_ver) [
  | none ↦ false
  | some lv_key ↦ contains ver lv_key
]

unfoldable pub is_branch_head : HeadVersion → Slice → Slice → Hash → Bool
is_branch_head h key branch ver = elim (find_branch h key branch) [
  | none ↦ false
  | some head ↦ head =? ver
]

abbrev pub keys {ℓ κ} : {K : Type ℓ} {V : Type κ} → Dict K V → List K
keys [] = []
keys ((k, v) ∷ d) = k ∷ keys d

unfoldable pub list_key : HeadVersion → List Slice
list_key h = keys h.latest_ver

unfoldable pub list_branch : HeadVersion → Slice → List Slice
list_branch h key = keys (or_empty (Dict.lookup key h.branch_ver))
