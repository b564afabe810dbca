-- ===== src/Head/Latest.antt =====
-- The latest versions of a key (src/worker/simple_head_version.cc).
use forkbase.Base.{
  not, ◌&&◌, ◌||◌, List, [], ◌∷◌, ◌++◌, ◌=?◌, if◌then◌else◌, bytes_eq, ◌≡◌, arith, bytes_beq-eq,
  Bool-cases, inl, inr,
}
use forkbase.Slice.{Slice}
use forkbase.Hash.{Hash, null, of, is_empty, hash_eq, hash_beq_iff}
use forkbase.Dict.{lookup-insert}
use forkbase.Head.{
  HeadVersion, contains, erase, set_insert, follow, put_latest, is_latest, get_latest,
}

contains-append : (h x : Hash) (s : List Hash) → contains h (s ++ x ∷ []) ≡ (x =? h || contains h s)
unfolding contains
contains-append h x [] = ground arith
contains-append h x (y ∷ s) = ground (arith, contains-append h x s)

contains-erase :
    (h x : Hash) (s : List Hash) → contains h (erase x s) ≡ (not (x =? h) && contains h s)
unfolding contains erase
contains-erase h x [] = ground arith
contains-erase h x (y ∷ s) =
    ground (arith, contains-erase h x s, hash_beq_iff y x, hash_beq_iff x h, hash_beq_iff y h)

contains-set_insert :
    (h x : Hash) (s : List Hash) → contains h (set_insert x s) ≡ (x =? h || contains h s)
unfolding set_insert
contains-set_insert h x s = elim (Bool-cases (contains x s)) [
  | inl e ↦ rw (e, set_insert) (ground (arith, e, (hash_beq_iff x h).0))
  | inr e ↦ rw (e, set_insert) (contains-append h x s)
]

pub is_latest_lem :
    (h : HeadVersion) (key : Slice) (w : Hash) → is_latest h key w ≡ contains w (get_latest h key)
unfolding is_latest get_latest contains
is_latest_lem h key w = ground arith

pub contains-follow :
    (w prev1 prev2 ver : Hash) (s : List Hash)
    → contains w (follow prev1 prev2 ver s) ≡ (
        ver =? w
        || (not (prev1 =? w) && (not (not (is_empty prev2) && prev2 =? w) && contains w s)))
unfolding follow
contains-follow w prev1 null ver s = rw (contains-set_insert, contains-erase) (ground arith)
contains-follow w prev1 (of b) ver s =
    rw (contains-set_insert, contains-erase, contains-erase) (ground arith)

get_latest-put_latest :
    (h : HeadVersion) (key : Slice) (prev1 prev2 ver : Hash) (key' : Slice)
    → get_latest (put_latest h key prev1 prev2 ver) key'
      ≡ (if key =? key' then follow prev1 prev2 ver (get_latest h key') else get_latest h key')
unfolding get_latest put_latest
get_latest-put_latest h key prev1 prev2 ver key' =
    rw lookup-insert
      (elim (Bool-cases (key =? key')) [ inl e ↦ rw (e, bytes_beq-eq key key' e) | inr e ↦ rw e ])

-- After `PutLatest(key, prev_ver1, prev_ver2, ver)` the latest versions of the key are `ver` and
-- those before it except the two that it follows (one, if `prev_ver2` is empty); the latest
-- versions of other keys are as they were.
pub is_latest-put_latest :
    (h : HeadVersion) (key : Slice) (prev1 prev2 ver : Hash) (key' : Slice) (w : Hash)
    → is_latest (put_latest h key prev1 prev2 ver) key' w ≡ (
        if key =? key'
        then ver =? w
          || (not (prev1 =? w) && (not (not (is_empty prev2) && prev2 =? w) && is_latest h key' w))
        else is_latest h key' w)
is_latest-put_latest h key prev1 prev2 ver key' w =
    rw (is_latest_lem, get_latest-put_latest)
      (elim (Bool-cases (key =? key')) [
        | inl e ↦ rw (e, is_latest_lem) (contains-follow w prev1 prev2 ver (get_latest h key'))
        | inr e ↦ rw (e, is_latest_lem)
      ])
