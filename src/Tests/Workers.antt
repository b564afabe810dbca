-- ===== src/Tests/Workers.antt =====
-- A worker in memory.
use forkbase.Base.{
  ◌≡◌, refl, if◌then◌else◌, true, not, ◌&&◌, ◌||◌, none, some, ◌=?◌, [], ◌∷◌, bytes_eq, arith,
}
use forkbase.Hash.{Hash, null, of, hash_eq}
use forkbase.Types.{UType, ErrorCode}
use forkbase.Chunk.{Chunk, hash_of, data_of}
use forkbase.Slice.{Slice}
use forkbase.Dict
use forkbase.Head
use forkbase.Head.{find_branch, is_latest, put_branch}
use forkbase.Head.Laws.{same}
use forkbase.Cell.RoundTrip.{Holds}
use forkbase.Store.{ChunkStore}
use forkbase.Store.Memory.{memory_env, last_bytes}
use forkbase.Worker.{Worker, Result, ok, err}
use forkbase.Worker.Methods.{
  put, get, rename, merge_versions, exists_version, exists_branch, put_version,
}
use forkbase.Worker.After.{PutsAfter, put_version-PutsAfter}
use forkbase.Worker.Sound.{IsSound}
use forkbase.Worker.Calls.{Call, Reaches, failure_moves_no_head, Reaches-IsSound}
use forkbase.Worker.Effects.{
  new_string, put-get_string, merge_versions_string, Renames, rename-Renames,
}
use forkbase.Tests.Data.{
  hi, note, doc, master, dev, ones, twos, nothing, nothing-IsSound, nothing-IsWellFormed,
}

put-get_string_example :
    (c : Chunk) × (w' : Worker memory_env) × (put doc (new_string hi note 0 0 []) master nothing
      ≡ some (ok (hash_of last_bytes c), w'))
    × Holds UType.string doc hi note (Head.get_branch nothing.head doc master).1 null (data_of c)
    × ((key' branch' : Slice)
        → find_branch w'.head key' branch' ≡ (
            if same doc master key' branch'
            then some (hash_of last_bytes c)
            else find_branch nothing.head key' branch'))
    × (((d : Chunk)
          → ChunkStore.get memory_env.chunks nothing.store (hash_of last_bytes c) ≡ some d
          → d ≡ c)
        → get doc master w' ≡ some (ok (data_of c), w'))
put-get_string_example =
    put-get_string hi note 0 0 [] doc (omega arith) (omega arith) (omega arith) master nothing refl
      nothing-IsSound nothing-IsWellFormed

-- The worker after the same call.
put_string :
    (v : Hash) × (w' : Worker memory_env) × (put doc (new_string hi note 0 0 []) master nothing
      ≡ some (ok v, w'))
put_string =
    let t =
      put-get_string hi note 0 0 [] doc (omega arith) (omega arith) (omega arith) master nothing
        refl nothing-IsSound nothing-IsWellFormed in
    (hash_of last_bytes t.0, t.1, t.2)

abbrev written : Worker memory_env
written = put_string.1

run_to_written : Reaches nothing written
run_to_written =
    Reaches.after none Reaches.here
      (Call.by_put doc (new_string hi note 0 0 []) master (ok put_string.0) put_string.2 refl)

Reaches-IsSound_example : IsSound written
Reaches-IsSound_example = Reaches-IsSound nothing written run_to_written nothing-IsSound

rename_missing : rename doc master dev nothing ≡ some (err ErrorCode.branch_not_exists, nothing)
unfolding rename exists_branch Head.exists_branch find_branch Dict.lookup
rename_missing = refl

failure_moves_no_head_example : nothing.head ≡ nothing.head
failure_moves_no_head_example =
    failure_moves_no_head nothing nothing ErrorCode.branch_not_exists
      (Call.by_rename doc master dev (err ErrorCode.branch_not_exists) rename_missing refl)

rename-Renames_example :
    (r : Result (Unit {0})) × (w' : Worker memory_env) × (rename doc master dev written
      ≡ some (r, w'))
    × Renames written w' doc master dev r
rename-Renames_example = rename-Renames written doc master dev

-- A store with two versions.
abbrev two_versions : Worker memory_env
two_versions = record nothing { store = ((of ones, hi) ∷ (of twos, note) ∷ []) }

put_version-PutsAfter_example :
    (r : Result Hash) × (w' : Worker memory_env) × (put_version doc
        (new_string hi note 0 0 [])
        (of ones)
        two_versions
      ≡ some (r, w'))
    × PutsAfter two_versions w' doc hi note (of ones) r
put_version-PutsAfter_example =
    put_version-PutsAfter hi note 0 0 [] doc ones two_versions (omega arith) (omega arith)
      (omega arith) refl

ones_stored : exists_version two_versions (of ones) ≡ true
unfolding exists_version Dict.lookup
ones_stored = refl

twos_stored : exists_version two_versions (of twos) ≡ true
unfolding exists_version Dict.lookup
twos_stored = refl

merge_versions_string_example :
    (c : Chunk) × (w' : Worker memory_env) × (merge_versions doc
        (new_string hi note 0 0 [])
        (of ones)
        (of twos)
        two_versions
      ≡ some (ok (hash_of last_bytes c), w'))
    × Holds UType.string doc hi note (of ones) (of twos) (data_of c)
    × ((key' : Slice) (v : Hash)
        → is_latest w'.head key' v ≡ (
            if doc =? key'
            then hash_of last_bytes c =? v
              || (not (of ones =? v) && (not (of twos =? v) && is_latest two_versions.head key' v))
            else is_latest two_versions.head key' v))
    × (w'.head.branch_ver ≡ two_versions.head.branch_ver)
merge_versions_string_example =
    merge_versions_string hi note 0 0 [] doc (omega arith) (omega arith) (omega arith) ones twos
      two_versions refl refl ones_stored twos_stored
