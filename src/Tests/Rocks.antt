-- ===== src/Tests/Rocks.antt =====
-- Tables of heads over a database.
use forkbase.Base.{
  ◌≡◌, refl, some, ◌∷◌, [], ◌++◌, Bytes, ltb, length, take, drop, ◌=?◌, bytes_eq, replicate, arith,
  inl,
}
use forkbase.Hash.{null, of, k_null, hash_eq}
use forkbase.Dict
use forkbase.Head
use forkbase.Head.{contains, follow}
use forkbase.Head.Laws.{same}
use forkbase.Rocks.{member}
use forkbase.Rocks.Merged.{Latest}
use forkbase.Rocks.Versions.{merge-Latest}
use forkbase.Rocks.Table.{RocksHeadVersion, operand, exists_in}
use forkbase.Rocks.Table
use forkbase.Rocks.Memory.{memory_db, memory_db-Accepts}
use forkbase.Rocks.Refines.{Together, start, put_branch, put_latest}
use forkbase.Rocks.Answers.{SameAnswers, Together-SameAnswers}
use forkbase.Rocks.Updater.{merge, merge_versions}
use forkbase.Rocks.Kept.{kept, concat, merge_versions-kept}
use forkbase.Rocks.BranchDb.{db_key}
use forkbase.Rocks.Keys.{db_key-same}
use forkbase.Rocks.Order.{merge_versions-associativity}
use forkbase.Tests.Data.{doc, master, dev, ones, twos}

abbrev empty_tables : RocksHeadVersion memory_db
empty_tables = record { branch_db = []; latest_db = [] }

abbrev after_one : RocksHeadVersion memory_db
after_one =
    Table.put_latest (Table.put_branch empty_tables doc master (of ones)) doc k_null null (of ones)

two_calls :
    Together
      (Head.put_latest
        (Head.put_branch Head.empty_head doc master (of ones))
        doc
        k_null
        null
        (of ones))
      after_one
unfolding Dict.lookup
two_calls =
    put_latest (put_branch (start (λ k. refl) (λ k. refl)) doc master (of ones) (omega arith) refl)
      doc k_null null (of ones)

Together-SameAnswers_example :
    SameAnswers
      (Head.put_latest
        (Head.put_branch Head.empty_head doc master (of ones))
        doc
        k_null
        null
        (of ones))
      after_one
      doc
      master
      (of ones)
Together-SameAnswers_example =
    Together-SameAnswers memory_db-Accepts two_calls doc master ones (omega arith)

merge_versions-kept_example :
    merge_versions (concat (ones ∷ [])) (twos ++ ones)
    ≡ twos
      ++ concat (
          kept
            (ltb (length ones) 20)
            (ltb (length ones) 40)
            twos
            (take 20 ones)
            (take 20 (drop 20 ones))
            (ones ∷ []))
merge_versions-kept_example = merge_versions-kept (ones ∷ []) twos ones (refl, tt) refl

db_key-same_example : (db_key doc master =? db_key doc dev) ≡ same doc master doc dev
db_key-same_example = db_key-same doc master doc dev (omega arith) (omega arith)

abbrev threes : Bytes
threes = replicate 20 3

merge_versions-associativity_example :
    (merge_versions (merge_versions ones (twos ++ ones)) (threes ++ ones) ≡ threes ++ twos)
    × (merge_versions ones (merge_versions (twos ++ ones) (threes ++ ones)) ≡ threes ++ ones)
merge_versions-associativity_example =
    merge_versions-associativity ones twos threes refl refl refl refl refl refl

-- One version, as it is stored and in memory.
ones-Latest : Latest (of ones ∷ []) ones
unfolding member contains
ones-Latest = record {
  versions = ones ∷ [];
  bytes_are = refl;
  sizes_are = (refl, tt);
  distinct = (refl, tt);
  no_null = refl;
  same_versions = λ w. refl;
}

merge-Latest_example :
    Latest
      (follow (of ones) null (of twos) (of ones ∷ []))
      (merge (some ones) (operand (of ones) null (of twos)))
    × ((w : Bytes)
        → exists_in w (some (merge (some ones) (operand (of ones) null (of twos))))
          ≡ contains (of w) (follow (of ones) null (of twos) (of ones ∷ [])))
merge-Latest_example =
    merge-Latest (of ones) null twos (some (of ones ∷ [])) (some ones) refl refl ones-Latest
      (record { first = refl; absent = λ e. cc; second = inl refl; alone = λ e. cc })
