-- ===== src/Tests/Heads.antt =====
-- Tables of heads.
use forkbase.Base.{◌≡◌, refl, if◌then◌else◌, List, not, ◌&&◌, ◌||◌, ◌=?◌, [], ◌∷◌, bytes_eq}
use forkbase.Hash.{null, of, hash_eq, is_empty}
use forkbase.Dict
use forkbase.Head.{HeadVersion, find_branch, is_latest, put_latest, empty_head}
use forkbase.Head.Latest.{is_latest-put_latest}
use forkbase.Head.WellFormed.{IsWellFormed}
use forkbase.Head.Branches.{Update}
use forkbase.Head.Persist.{load, dump, find_branch-load-dump}
use forkbase.Tests.Data.{doc, master, dev, note, ones, twos}

-- One branch at `ones`, which `twos` followed.
abbrev one_branch : HeadVersion
one_branch = record {
  branch_ver = (doc, (master, of ones) ∷ []) ∷ [];
  latest_ver = (doc, of ones ∷ []) ∷ [];
}

one_branch-IsWellFormed : IsWellFormed one_branch
unfolding Dict.lookup
one_branch-IsWellFormed = record { unique = (refl, tt); maps = (((tt, tt), (refl, tt)), tt) }

is_latest-put_latest_example :
    is_latest (put_latest one_branch doc (of ones) null (of twos)) doc (of ones) ≡ (
      if doc =? doc
      then of twos =? of ones
        || (not (of ones =? of ones)
            && (not (not (is_empty null) && null =? of ones) && is_latest one_branch doc (of ones)))
      else is_latest one_branch doc (of ones))
is_latest-put_latest_example =
    is_latest-put_latest one_branch doc (of ones) null (of twos) doc (of ones)

-- A rename to a name that is taken, and one that throws.
abbrev updates : List Update
updates =
    Update.put doc master (of ones)
    ∷ Update.put doc dev (of twos)
    ∷ Update.rename doc master dev
    ∷ Update.rename doc master note
    ∷ []

find_branch-load-dump_example :
    find_branch (load (dump one_branch) empty_head) doc master ≡ find_branch one_branch doc master
find_branch-load-dump_example = find_branch-load-dump doc master one_branch-IsWellFormed
