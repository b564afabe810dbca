-- ===== src/Head/Branches.antt =====
-- The branch table (src/worker/simple_head_version.cc) as a map from keys and branches to heads.
use forkbase.Base.{Option, none, some, List, [], ◌∷◌, if◌then◌else◌, bytes_eq, ◌≡◌}
use forkbase.Slice.{Slice}
use forkbase.Hash.{Hash}
use forkbase.Dict
use forkbase.Dict.{Dict, lookup-insert}
use forkbase.Head.{HeadVersion, find_branch, put_branch, put_latest, remove_branch, rename_branch}
use forkbase.Head.Laws.{same}

-- The calls that change the table.
pub data Update : Type 0 where
  put : Slice → Slice → Hash → Update
  latest : Slice → Hash → Hash → Hash → Update
  remove : Slice → Slice → Update
  rename : Slice → Slice → Slice → Update

abbrev pub apply : Update → HeadVersion → Option HeadVersion
apply (put key branch ver) h = some (put_branch h key branch ver)
apply (latest key prev1 prev2 ver) h = some (put_latest h key prev1 prev2 ver)
apply (remove key branch) h = some (remove_branch h key branch)
apply (rename key old_branch new_branch) h = rename_branch h key old_branch new_branch

abbrev pub Branches : Type 0
Branches = Slice → Slice → Option Hash

-- A head that is there, or another.
abbrev pub or_else : Option Hash → Option Hash → Option Hash
or_else none v = v
or_else (some u) v = some u

-- A branch with this head is erased and put under the new name, unless that is taken.
abbrev pub move : Slice → Slice → Slice → Option Hash → Branches → Option Branches
move key old_branch new_branch none f = none
move key old_branch new_branch (some ver) f = some λ key' branch'.
    if same key old_branch key' branch'
    then none
    else if same key new_branch key' branch'
    then or_else (f key new_branch) (some ver)
    else f key' branch'

-- What the calls mean.
abbrev pub apply_abstract : Update → Branches → Option Branches
apply_abstract (put key branch ver) f =
    some λ key' branch'. if same key branch key' branch' then some ver else f key' branch'
apply_abstract (latest key prev1 prev2 ver) f = some f
apply_abstract (remove key branch) f =
    some λ key' branch'. if same key branch key' branch' then none else f key' branch'
apply_abstract (rename key old_branch new_branch) f =
    move key old_branch new_branch (f key old_branch) f

abbrev pub run {ℓ κ} : {U : Type ℓ} {S : Type κ} → (U → S → Option S) → List U → S → Option S
run step [] s = some s
run step (u ∷ us) s = elim (step u s) [ none ↦ none | some t ↦ run step us t ]

abbrev pub AreBranches : HeadVersion → Branches → Type 0
AreBranches h f = (key branch : Slice) → find_branch h key branch ≡ f key branch

-- Both end, or neither.
pub data Agree : Option HeadVersion → Option Branches → Type 0 where
  throws : Agree none none
  ends : {h : HeadVersion} {f : Branches} → AreBranches h f → Agree (some h) (some f)
