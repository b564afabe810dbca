-- ===== src/Head/Laws.antt =====
-- Every branch after each update of the branch table (src/worker/simple_head_version.cc).
use forkbase.Base.{
  Bool, true, ◌&&◌, Option, none, some, ◌=?◌, if◌then◌else◌, bytes_eq, ◌≡◌, arith, refl,
  bytes_beq-eq, Option-cases, Bool-cases, sym, inl, inr,
}
use forkbase.Slice.{Slice, lt}
use forkbase.Hash.{Hash, hash_eq}
use forkbase.Dict
use forkbase.Dict.{Dict, emplace-absent, lookup-insert, lookup-remove}
use forkbase.Head.{
  HeadVersion, or_empty, unordered, find_branch, exists_branch, with_branches, put_branch,
  remove_branch, rename_branch,
}

pub find_branch_lem :
    (h : HeadVersion) (key branch : Slice)
    → find_branch h key branch ≡ Dict.lookup branch (or_empty (Dict.lookup key h.branch_ver))
unfolding find_branch Dict.lookup
find_branch_lem h key branch = elim (Option-cases (Dict.lookup key h.branch_ver)) [
  | inl e ↦ rw (e, find_branch)
  | inr (m, e) ↦ rw (e, find_branch)
]

pub find_branch-with_branches :
    (h : HeadVersion) (key : Slice) (bv_key : Dict Slice Hash) (key' branch' : Slice)
    → find_branch (with_branches h key bv_key) key' branch'
      ≡ (if key =? key' then Dict.lookup branch' bv_key else find_branch h key' branch')
unfolding with_branches
find_branch-with_branches h key bv_key key' branch' =
    rw (find_branch_lem, lookup-insert unordered key key' bv_key h.branch_ver)
      (elim (Bool-cases (key =? key')) [ inl e ↦ rw e | inr e ↦ rw (e, find_branch_lem) ])

-- What the key's own map holds is what the table holds under the key.
pub find_branch_same :
    (h : HeadVersion) (key key' branch' : Slice)
    → (key =? key') ≡ true
    → Dict.lookup branch' (or_empty (Dict.lookup key h.branch_ver)) ≡ find_branch h key' branch'
find_branch_same h key key' branch' e =
    rw (bytes_beq-eq key key' e) (sym (find_branch_lem h key' branch'))

-- Whether two (key, branch) pairs are the same.
abbrev pub same : Slice → Slice → Slice → Slice → Bool
same key branch key' branch' = (key =? key') && (branch =? branch')

module _ (h : HeadVersion) (key branch key' branch' : Slice) where
  find_branch-of_same :
      {v : Option Hash}
      → find_branch h key branch ≡ v
      → same key branch key' branch' ≡ true
      → find_branch h key' branch' ≡ v
  find_branch-of_same e p =
      ground (arith, e, p, (bytes_eq.beq_iff key key').0, (bytes_eq.beq_iff branch branch').0)

  -- After `PutBranch(key, branch, ver)` the branch has this head, and every other branch of every
  -- key is as it was.
  pub find_branch-put_branch :
      (ver : Hash)
      → find_branch (put_branch h key branch ver) key' branch'
        ≡ (if same key branch key' branch' then some ver else find_branch h key' branch')
  unfolding put_branch
  find_branch-put_branch ver = rw find_branch-with_branches (elim (Bool-cases (key =? key')) [
    | inl e ↦ rw (e, lookup-insert, find_branch_same h key key' branch' e)
    | inr e ↦ rw e
  ])

  -- `RemoveBranch` of a branch, there or not, leaves it absent and every other as it was.
  pub find_branch-remove_branch :
      find_branch (remove_branch h key branch) key' branch'
      ≡ (if same key branch key' branch' then none else find_branch h key' branch')
  unfolding remove_branch exists_branch
  find_branch-remove_branch = elim (Option-cases (find_branch h key branch)) [
    | inl e ↦
        rw (e, exists_branch)
          (elim (Bool-cases (same key branch key' branch')) [
            | inl p ↦ rw p (find_branch-of_same e p)
            | inr p ↦ rw p
          ])
    | inr (ver, e) ↦
        rw (e, exists_branch, find_branch-with_branches)
          (elim (Bool-cases (key =? key')) [
            | inl p ↦ rw (p, lookup-remove, find_branch_same h key key' branch' p)
            | inr p ↦ rw p
          ])
  ]

-- One key's map after a rename, branch by branch.
lookup-renamed :
    (old_branch new_branch branch' : Slice) (ver : Hash) (m : Dict Slice Hash)
    → Dict.lookup old_branch m ≡ some ver
    → Dict.lookup new_branch m ≡ none
    → Dict.lookup branch' (Dict.remove old_branch (Dict.emplace lt new_branch ver m)) ≡ (
        if new_branch =? branch'
        then some ver
        else if old_branch =? branch'
        then none
        else Dict.lookup branch' m)
lookup-renamed old_branch new_branch branch' ver m old new =
    rw (emplace-absent lt new_branch ver m new, lookup-remove, lookup-insert)
      (ground (
        arith,
        old,
        new,
        (bytes_eq.beq_iff new_branch branch').0,
        (bytes_eq.beq_iff old_branch branch').0,
      ))

module _ (h : HeadVersion) (key old_branch new_branch : Slice) where
  renamed :
      (ver : Hash) (m : Dict Slice Hash)
      → Dict.lookup key h.branch_ver ≡ some m
      → Dict.lookup old_branch m ≡ some ver
      → Dict.lookup new_branch m ≡ none
      → (key' branch' : Slice)
      → find_branch
          (with_branches h key (Dict.remove old_branch (Dict.emplace lt new_branch ver m)))
          key'
          branch'
        ≡ (if same key new_branch key' branch'
            then some ver
            else if same key old_branch key' branch'
            then none
            else find_branch h key' branch')
  renamed ver m at old new key' branch' =
      rw find_branch-with_branches (elim (Bool-cases (key =? key')) [
        | inl e ↦
            let f = find_branch_same h key key' branch' e in
            rw (e, lookup-renamed old_branch new_branch branch' ver m old new, ← f, at)
        | inr e ↦ rw e
      ])

  -- `RenameBranch` of a branch that is there, to a name that is not: no exception; the new branch
  -- has the head of the old one, which is gone; every other branch of every key is as it was.
  pub find_branch-rename_branch :
      (ver : Hash)
      → find_branch h key old_branch ≡ some ver
      → find_branch h key new_branch ≡ none
      → (h' : HeadVersion) × (rename_branch h key old_branch new_branch ≡ some h')
        × ((key' branch' : Slice)
            → find_branch h' key' branch' ≡ (
                if same key new_branch key' branch'
                then some ver
                else if same key old_branch key' branch'
                then none
                else find_branch h key' branch'))
        × (h'.latest_ver ≡ h.latest_ver)
  unfolding rename_branch find_branch
  find_branch-rename_branch ver old new = elim (Option-cases (Dict.lookup key h.branch_ver)) [
    | inl e ↦ absurd (ground arith)
    | inr (m, e) ↦
        let was : Dict.lookup old_branch m ≡ some ver = ground arith in
        let free : Dict.lookup new_branch m ≡ none = ground arith in
        (
          with_branches h key (Dict.remove old_branch (Dict.emplace lt new_branch ver m)),
          rw (e, rename_branch) (rw (was, rename_branch)),
          renamed ver m e was free,
          unfold with_branches in refl,
        )
  ]
