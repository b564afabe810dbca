-- ===== src/Rocks/Merged.antt =====
-- What a merge (`RocksLatestVersionDB::Merge`, src/worker/rocks_head_version.cc) makes of the
-- string of latest versions, against the set of `SimpleHeadVersion`.
use mathlib.Core.List.{append-nil}
use forkbase.Base.{
  ◌≡◌, refl, Bool, true, false, not, ◌&&◌, ◌||◌, List, [], ◌∷◌, ◌++◌, Bytes, length, take, drop,
  replicate, ltb, ◌=?◌, bytes_eq, All, arith, take-append, drop-append, take_self, ◌⊎◌, inl, inr,
  bytes_beq_self, length-append, Bool-cases,
}
use forkbase.Hash.{Hash, value, null, of, k_null, is_empty, hash_eq}
use forkbase.Head.{contains, follow}
use forkbase.Head.Latest.{contains-follow}
use forkbase.Rocks.Updater.{merge_versions}
use forkbase.Rocks.Table.{operand}
use forkbase.Rocks.Kept.{kept, concat, IsVersion, merge_versions-kept}
use forkbase.Rocks.{member}
use forkbase.Rocks.Members.{IsDistinct, member-kept, All-kept, Distinct-kept}

abbrev pub zeros : Bytes
zeros = replicate 20 0

-- The bytes are distinct versions, none of them `kNull`, and the same as in the set.
pub record Latest (lv : List Hash) (b : Bytes) : Type 0 where
  pub versions : List Bytes
  pub bytes_are : b ≡ concat versions
  pub sizes_are : All IsVersion versions
  pub distinct : IsDistinct versions
  pub no_null : member zeros versions ≡ false
  pub same_versions : (w : Bytes) → contains (of w) lv ≡ member w versions

and_last_false : (a b c : Bool) → (a && (b && (c && false))) ≡ false
and_last_false a b c = ground arith

or_and : (a b : Bool) → (a || b) ≡ (a || (not a && b))
or_and a b = ground arith

absent_stays :
    (x w : Bytes) (vs : List Bytes)
    → member x vs ≡ false
    → (not (x =? w) && member w vs) ≡ member w vs
absent_stays x w vs h = ground (arith, h, bytes_eq.beq_iff x w)

-- A second predecessor that is empty or `kNull` is not among the versions.
no_second :
    (prev2 : Hash) (w : Bytes) (vs : List Bytes)
    → (is_empty prev2 || prev2 =? k_null) ≡ true
    → member zeros vs ≡ false
    → (not (not (is_empty prev2) && prev2 =? of w) && member w vs) ≡ member w vs
no_second null w vs h z = refl
no_second (of c) w vs h z = rw ((bytes_eq.beq_iff c zeros).0 h) (absent_stays zeros w vs z)

module _ {lv : List Hash} {b : Bytes} (v : Bytes) (l : Latest lv b) (d : IsVersion v)
    (n : (v =? zeros) ≡ false) where
  -- A merge whose operand names `prev`, and after which the set has these versions.
  merged :
      (prev : Bytes) {after : List Hash}
      → ((w : Bytes)
          → contains (of w) after ≡ (
              v =? w
              || (not (not (ltb (length prev) 20) && take 20 prev =? w)
                  && (not (not (ltb (length prev) 40) && take 20 (drop 20 prev) =? w)
                      && member w l.versions))))
      → Latest after (merge_versions b (v ++ prev))
  unfolding member
  merged prev h =
      let f = ltb (length prev) 20 in
      let g = ltb (length prev) 40 in
      let p = take 20 prev in
      let q = take 20 (drop 20 prev) in
      record {
        versions = v ∷ kept f g v p q l.versions;
        bytes_are = rw l.bytes_are (merge_versions-kept l.versions v prev l.sizes_are d);
        sizes_are = (d, All-kept v p q f g l.versions l.sizes_are);
        distinct = (
          rw (member-kept v p q v f g l.versions l.distinct, bytes_beq_self v) refl,
          Distinct-kept v p q f g l.versions l.distinct,
        );
        no_null =
            rw (n, member-kept v p q zeros f g l.versions l.distinct, l.no_null)
              (and_last_false (not (v =? zeros)) (not (not f && p =? zeros))
                (not (not g && q =? zeros)));
        same_versions =
            λ w. rw (h w, member-kept v p q w f g l.versions l.distinct) (or_and (v =? w) _);
      }

-- What may be put after: of a key that is not there, nothing; nothing without a first predecessor.
pub record Follows (is_there : Bool) (prev1 prev2 : Hash) : Type 0 where
  pub first : length (value prev1) ≡ 20
  pub absent : is_there ≡ false → prev1 ≡ k_null
  pub second : (is_empty prev2 ≡ true) ⊎ (length (value prev2) ≡ 20)
  pub alone : (prev1 =? k_null) ≡ true → (is_empty prev2 || prev2 =? k_null) ≡ true

module _ {lv : List Hash} {b : Bytes} (v : Bytes) (l : Latest lv b) (d : IsVersion v)
    (n : (v =? zeros) ≡ false) where
  follows_none :
      (prev2 : Hash)
      → (is_empty prev2 || prev2 =? k_null) ≡ true
      → Latest (follow k_null prev2 (of v) lv) (merge_versions b v)
  follows_none prev2 h =
      let m : Latest (follow k_null prev2 (of v) lv) (merge_versions b (v ++ [])) =
        merged v l d n [] λ w.
          rw
            (
              contains-follow (of w) k_null prev2 (of v) lv,
              l.same_versions w,
              no_second prev2 w l.versions h l.no_null,
              absent_stays zeros w l.versions l.no_null,
            )
            refl in
      rw append-nil at m

  follows_one :
      (p : Bytes) (prev2 : Hash)
      → length p ≡ 20
      → (is_empty prev2 || prev2 =? k_null) ≡ true
      → Latest (follow (of p) prev2 (of v) lv) (merge_versions b (v ++ p))
  follows_one p prev2 e h = merged v l d n p λ w.
      rw
        (
          e,
          take_self 20 p e,
          contains-follow (of w) (of p) prev2 (of v) lv,
          l.same_versions w,
          no_second prev2 w l.versions h l.no_null,
        )
        refl

  follows_two :
      (p q : Bytes)
      → length p ≡ 20
      → length q ≡ 20
      → Latest (follow (of p) (of q) (of v) lv) (merge_versions b (v ++ (p ++ q)))
  follows_two p q e f =
      let size : length (p ++ q) ≡ 40 = omega (arith, length-append p q) in
      merged v l d n (p ++ q) λ w.
        rw
          (
            size,
            take-append 20 p q e,
            drop-append 20 p q e,
            take_self 20 q f,
            contains-follow (of w) (of p) (of q) (of v) lv,
            l.same_versions w,
          )
          refl

  both :
      (p : Bytes) (prev2 : Hash)
      → length p ≡ 20
      → (is_empty prev2 || prev2 =? k_null) ≡ false
      → (is_empty prev2 ≡ true) ⊎ (length (value prev2) ≡ 20)
      → Latest (follow (of p) prev2 (of v) lv) (merge_versions b (v ++ (p ++ value prev2)))
  both p null e g h = cc
  both p (of q) e g (inl h) = cc
  both p (of q) e g (inr h) = follows_two p q e h

  -- A merge into versions that are there.
  pub Latest-merge :
      (prev1 prev2 : Hash)
      → Follows true prev1 prev2
      → Latest (follow prev1 prev2 (of v) lv) (merge_versions b (operand prev1 prev2 (of v)))
  unfolding operand
  Latest-merge null prev2 f = absurd (omega (arith, f.first))
  Latest-merge (of p) prev2 f = elim (Bool-cases (p =? zeros)) [
    | inl e ↦ rw (e, (bytes_eq.beq_iff p zeros).0 e) (follows_none prev2 (f.alone e))
    | inr e ↦
        rw (e, operand)
          (elim (Bool-cases (is_empty prev2 || prev2 =? k_null)) [
            | inl g ↦ rw (g, operand) (follows_one p prev2 f.first g)
            | inr g ↦ rw (g, operand) (both p prev2 f.first g f.second)
          ])
  ]
