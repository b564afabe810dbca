-- ===== src/Rocks/Memory.antt =====
-- A database in memory, for the parameter of `RocksHeadVersion`
-- (include/worker/rocks_head_version.h).
use forkbase.Base.{
  ◌≡◌, refl, true, List, [], ◌∷◌, Bytes, bytes_eq, ◌=?◌, beq_refl, Bool-cases, inl, inr,
}
use forkbase.Slice.{lt}
use forkbase.Dict
use forkbase.Dict.{Dict, lookup-insert, lookup-remove}
use forkbase.Head.{keys}
use forkbase.Store.{is_some}
use forkbase.Rocks.{member, KeyValueDb, Accepts, Update, put_entry, delete_entry, after_batch}

abbrev pub write_all : List Update → Dict Bytes Bytes → Dict Bytes Bytes
write_all [] s = s
write_all (put_entry k v ∷ us) s = write_all us (Dict.insert lt k v s)
write_all (delete_entry k ∷ us) s = write_all us (Dict.remove k s)

pub lookup-write_all :
    (us : List Update) (j : Bytes) (s : Dict Bytes Bytes)
    → Dict.lookup j (write_all us s) ≡ after_batch us j (Dict.lookup j s)
lookup-write_all [] j s = refl
lookup-write_all (put_entry k v ∷ us) j s =
    rw (lookup-write_all us j (Dict.insert lt k v s), lookup-insert lt k j v s) refl
lookup-write_all (delete_entry k ∷ us) j s =
    rw (lookup-write_all us j (Dict.remove k s), lookup-remove k j s) refl

pub member-keys :
    {V : Type 0} (k : Bytes) (d : Dict Bytes V) → member k (keys d) ≡ is_some (Dict.lookup k d)
unfolding member Dict.lookup
member-keys k [] = refl
member-keys k ((j, v) ∷ d) = elim (Bool-cases (j =? k)) [
  | inl e ↦ rw e refl
  | inr e ↦ rw e (member-keys k d)
]

pub has_inserted :
    (k v : Bytes) (s : Dict Bytes Bytes) → is_some (Dict.lookup k (Dict.insert lt k v s)) ≡ true
has_inserted k v s = rw (lookup-insert lt k k v s, beq_refl k) refl

abbrev pub memory_db : KeyValueDb
memory_db = record {
  S = Dict Bytes Bytes;
  get = λ s k. Dict.lookup k s;
  put = λ s k v. (true, Dict.insert lt k v s);
  delete = λ s k. (true, Dict.remove k s);
  merge = λ op s k v. (true, Dict.insert lt k (op (Dict.lookup k s) v) s);
  write = λ s us. (true, write_all us s);
  keys = keys;
  get-put = λ s k v j h. lookup-insert lt k j v s;
  get-delete = λ s k j h. lookup-remove k j s;
  has-merge = λ op s k v h. has_inserted k (op (Dict.lookup k s) v) s;
  get-merge = λ op s k v j h e. rw (lookup-insert lt k j (op (Dict.lookup k s) v) s, e) refl;
  get-write = λ s us j h. lookup-write_all us j s;
  member-keys = λ s k. member-keys k s;
}

pub memory_db-Accepts : Accepts memory_db
memory_db-Accepts = record {
  put_ok = λ s k v. refl;
  delete_ok = λ s k. refl;
  merge_ok = λ op s k v. refl;
  write_ok = λ s us. refl;
}
