-- ===== src/Rocks/Order.antt =====
-- The order in which operands are merged (`LatestVersionUpdater`,
-- src/worker/rocks_head_version.cc). An `AssociativeMergeOperator` also merges two operands before
-- they meet the value of the key.
use mathlib.Core.List.{append-nil}
use forkbase.Base.{
  ◌≡◌, true, false, List, All, take, drop, arith, Bytes, [], ◌∷◌, ◌++◌, ◌=?◌, bytes_eq, take_self,
  bytes_beq_self,
}
use forkbase.Rocks.Updater.{merge_versions}
use forkbase.Rocks.Kept.{kept, concat, IsVersion, merge_versions-kept}

module _ (v p : Bytes) (dv : IsVersion v) (dp : IsVersion p) where
  -- A merge of a version that follows one.
  merge_one :
      (vs : List Bytes)
      → All IsVersion vs
      → merge_versions (concat vs) (v ++ p)
        ≡ v ++ concat (kept false true v p (take 20 (drop 20 p)) vs)
  merge_one vs ds = let m = merge_versions-kept vs v p ds dv in rw (dp, take_self 20 p dp) at m

  -- The one version that is there is followed.
  merge_followed : merge_versions p (v ++ p) ≡ v
  unfolding kept
  merge_followed =
      let m = merge_one (p ∷ []) (dp, tt) in
      rw (kept, bytes_beq_self p, append-nil p, append-nil v) at m

  -- It is another.
  merge_beside :
      (a : Bytes)
      → IsVersion a
      → (a =? p) ≡ false
      → (a =? v) ≡ false
      → merge_versions a (v ++ p) ≡ v ++ a
  unfolding kept
  merge_beside a da o w = let m = merge_one (a ∷ []) (da, tt) in rw (kept, o, w, append-nil) at m

  -- The second of two is followed.
  merge_second :
      (a : Bytes)
      → IsVersion a
      → (a =? p) ≡ false
      → (a =? v) ≡ false
      → merge_versions (a ++ p) (v ++ p) ≡ v ++ a
  unfolding kept
  merge_second a da o w =
      let m = merge_one (a ∷ (p ∷ [])) (da, (dp, tt)) in
      rw (kept, o, w, kept, bytes_beq_self p, append-nil p, append-nil a) at m

beq_false : (a b : Bytes) → (a =? b) ≡ false → (b =? a) ≡ false
beq_false a b e = ground (arith, e, bytes_eq.beq_iff a b, bytes_eq.beq_iff b a)

-- Two versions that follow one, merged one after the other onto it, are both among the latest. If
-- their operands are merged first, the version that they follow is kept and the first of the two is
-- not there.
pub merge_versions-associativity :
    (a b c : Bytes)
    → IsVersion a
    → IsVersion b
    → IsVersion c
    → (a =? b) ≡ false
    → (a =? c) ≡ false
    → (b =? c) ≡ false
    → (merge_versions (merge_versions a (b ++ a)) (c ++ a) ≡ c ++ b)
      × (merge_versions a (merge_versions (b ++ a) (c ++ a)) ≡ c ++ a)
merge_versions-associativity a b c da db dc ab ac bc =
    let ba = beq_false a b ab in
    (
      rw (merge_followed b a db da) (merge_beside c a dc da b db ba bc),
      rw (merge_second c a dc da b db ba bc) (merge_beside c b dc db a da ab ac),
    )
