-- ===== src/Rocks/Versions.antt =====
-- The latest versions in the database (`RocksLatestVersionDB`, src/worker/rocks_head_version.cc)
-- and in memory (src/worker/simple_head_version.cc).
use forkbase.Base.{
  ◌≡◌, refl, sym, Bool, true, false, not, ◌&&◌, ◌||◌, Option, none, some, List, [], ◌∷◌, Bytes,
  length, ◌=?◌, bytes_eq, bytes_beq-eq, ◌∙◌, All, take-append, drop-append, arith, inl, inr,
  Bool-cases,
}
use mathlib.Core.List.{append-nil}
use forkbase.Slice.{Slice}
use forkbase.Hash.{Hash, of, k_null, hash_eq}
use forkbase.Dict
use forkbase.Dict.{lookup-insert}
use forkbase.Head
use forkbase.Head.{HeadVersion, or_empty, find_branch, contains, follow}
use forkbase.Head.Latest.{contains-follow}
use forkbase.Rocks.{KeyValueDb, Accepts, member}
use forkbase.Rocks.Updater.{merge}
use forkbase.Rocks.Kept.{concat, IsVersion, rounds-concat}
use forkbase.Store.{is_some}
use forkbase.Rocks.Table.{RocksHeadVersion, operand, exists_from, exists_in}
use forkbase.Rocks.Table
use forkbase.Rocks.Merged.{Latest, Follows, Latest-merge, zeros}

-- A set of latest versions, and the string that stands for it.
abbrev pub Agree : Option (List Hash) → Option Bytes → Type 0
Agree none none = Unit
Agree (some lv) (some b) = Latest lv b
Agree none (some b) = true ≡ false
Agree (some lv) none = true ≡ false

-- The database has the keys of the table in memory.
abbrev pub Keys : (db : KeyValueDb) → HeadVersion → KeyValueDb.S db → Type 0
Keys db h s =
    (key : Slice) → is_some (KeyValueDb.get db s key) ≡ is_some (Dict.lookup key h.latest_ver)

or_last : (a b c : Bool) → (a || (not b && (not c && false))) ≡ (a || false)
or_last a b c = ground arith

pub exists_key-lookup :
    (h : HeadVersion) (key : Slice) → Head.exists_key h key ≡ is_some (Dict.lookup key h.latest_ver)
unfolding Head.exists_key
exists_key-lookup h key = ground arith

module _ (prev1 prev2 : Hash) (v : Bytes) (d : length v ≡ 20) (n : (v =? zeros) ≡ false) where
  -- The first version of a key follows none.
  first_version :
      prev1 ≡ k_null → Latest (follow prev1 prev2 (of v) []) (operand prev1 prev2 (of v))
  unfolding operand
  first_version e = rw e (record {
    versions = v ∷ [];
    bytes_are = sym (append-nil v);
    sizes_are = (d, tt);
    distinct = (unfold member in refl, tt);
    no_null = unfold member in rw n refl;
    same_versions = λ w.
        unfold member in
        unfold contains in rw (contains-follow (of w) k_null prev2 (of v) [], or_last) refl;
  })

  Agree-merge :
      (o : Option (List Hash)) (g : Option Bytes)
      → Agree o g
      → Follows (is_some o) prev1 prev2
      → Latest (follow prev1 prev2 (of v) (or_empty o)) (merge g (operand prev1 prev2 (of v)))
  unfolding merge
  Agree-merge none none a f = first_version (f.absent refl)
  Agree-merge (some lv) (some b) a f = Latest-merge v a d n prev1 prev2 f
  Agree-merge none (some b) a f = cc
  Agree-merge (some lv) none a f = cc

exists_from-member :
    (w : Bytes) (vs : List Bytes)
    → All IsVersion vs
    → exists_from (length vs) w (concat vs) ≡ member w vs
unfolding exists_from member
exists_from-member w [] d = refl
exists_from-member w (v ∷ vs) (d, ds) =
    rw (take-append 20 v (concat vs) d, drop-append 20 v (concat vs) d, exists_from-member w vs ds)
      refl

exists_in-Latest :
    {lv : List Hash} {b : Bytes} (w : Bytes)
    → Latest lv b
    → exists_in w (some b) ≡ contains (of w) lv
unfolding exists_in
exists_in-Latest w l =
    rw (l.bytes_are, rounds-concat l.versions l.sizes_are)
      (exists_from-member w l.versions l.sizes_are ∙ sym (l.same_versions w))

-- One merge of `LatestVersionUpdater`, onto the value of a key or where the key is absent, does to
-- the string of versions what `PutLatest` does to the set in memory: if the string has the versions
-- of the set, each once, it does so afterwards too, so the loop of `Exists(key, ver)` finds the
-- same versions. The new version is not `kNull`; it follows none or one version, or two, or, where
-- the key is absent, none.
pub merge-Latest :
    (prev1 prev2 : Hash) (v : Bytes) (o : Option (List Hash)) (g : Option Bytes)
    → length v ≡ 20
    → (v =? zeros) ≡ false
    → Agree o g
    → Follows (is_some o) prev1 prev2
    → Latest (follow prev1 prev2 (of v) (or_empty o)) (merge g (operand prev1 prev2 (of v)))
      × ((w : Bytes)
          → exists_in w (some (merge g (operand prev1 prev2 (of v))))
            ≡ contains (of w) (follow prev1 prev2 (of v) (or_empty o)))
merge-Latest prev1 prev2 v o g d n a f =
    let l = Agree-merge prev1 prev2 v d n o g a f in (l, λ w. exists_in-Latest w l)

pub Keys-put_latest :
    {db : KeyValueDb} (accepts : Accepts db) (h : HeadVersion) (s : KeyValueDb.S db) (key : Slice)
    (prev1 prev2 ver : Hash)
    → Keys db h s
    → Keys db
        (Head.put_latest h key prev1 prev2 ver)
        (Table.latest_merge db s key prev1 prev2 ver).1
unfolding Head.put_latest Table.latest_merge
Keys-put_latest {db} accepts h s key prev1 prev2 ver a key' =
    let took = accepts.merge_ok merge s key (operand prev1 prev2 ver) in
    elim (Bool-cases (key =? key')) [
      | inl e ↦
          rw (lookup-insert, e, ← bytes_beq-eq key key' e)
            (KeyValueDb.has-merge db merge s key (operand prev1 prev2 ver) took)
      | inr e ↦
          rw (lookup-insert, e)
            (rw (KeyValueDb.get-merge db merge s key (operand prev1 prev2 ver) key' took e)
              (a key'))
    ]
