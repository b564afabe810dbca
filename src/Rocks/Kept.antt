-- ===== src/Rocks/Kept.antt =====
-- The scan of `LatestVersionUpdater::Merge` (src/worker/rocks_head_version.cc) as a filter on the
-- list of versions.
use mathlib.Core.List.{append_assoc, append-nil}
use forkbase.Base.{
  ℕ, ◌+◌, ◌-◌, ◌*◌, ◌≡◌, refl, sym, ap, ◌∙◌, Bool, true, false, not, ◌&&◌, List, [], ◌∷◌, ◌++◌,
  Bytes, length, take, drop, ltb, ◌=?◌, bytes_eq, All, arith, take-append, drop-append,
  length-append, take_self, drop-add, Bool-cases, inl, inr,
}
use forkbase.Rocks.Updater.{
  version_size, Scan, f_cpy, leave_out, scan_step, scan, rounds, resize, merge_versions,
}

abbrev pub concat : List Bytes → Bytes
concat [] = []
concat (v ∷ vs) = v ++ concat vs

abbrev pub IsVersion : Bytes → Type 0
IsVersion v = length v ≡ version_size

-- The first `prev1` and the first `prev2` go, unless they are marked as found, and every `ver`.
unfoldable pub kept : Bool → Bool → Bytes → Bytes → Bytes → List Bytes → List Bytes
kept found1 found2 ver prev1 prev2 [] = []
kept found1 found2 ver prev1 prev2 (v ∷ vs) = elim (not found1 && v =? prev1) [
  | true ↦ kept true found2 ver prev1 prev2 vs
  | false ↦ elim (not found2 && v =? prev2) [
    | true ↦ kept found1 true ver prev1 prev2 vs
    | false ↦ elim (v =? ver) [
      | true ↦ kept found1 found2 ver prev1 prev2 vs
      | false ↦ v ∷ kept found1 found2 ver prev1 prev2 vs
    ]
  ]
]

-- Where the scan stands: `out` is copied, `mid` lies between `cpy_from` and `i`.
record At (old pre out mid : Bytes) (rest : List Bytes) (i : ℕ) (s : Scan) : Type 0 where
  old_is : old ≡ pre ++ (mid ++ concat rest)
  from_is : length pre ≡ s.cpy_from
  here_is : length pre + length mid ≡ i
  out_is : s.copied ≡ out
  len_is : s.new_len ≡ 20 + (length out + (length mid + 20 * length rest))

-- What the scan leaves: its bytes and their number.
record Ends (old result : Bytes) (s : Scan) : Type 0 where
  bytes_are : s.copied ++ drop s.cpy_from old ≡ result
  size_is : s.new_len ≡ 20 + length result

module _ {old pre out mid v : Bytes} {vs : List Bytes} {i : ℕ} {s : Scan} where
  At-version : At old pre out mid (v ∷ vs) i s → IsVersion v → take 20 (drop i old) ≡ v
  At-version a d =
      let e : length (pre ++ mid) ≡ i = length-append pre mid ∙ a.here_is in
      rw (a.old_is, sym (append_assoc pre mid (v ++ concat vs)))
        (rw (drop-append i (pre ++ mid) (v ++ concat vs) e) (take-append 20 v (concat vs) d))

  between : At old pre out mid (v ∷ vs) i s → take (i - s.cpy_from) (drop s.cpy_from old) ≡ mid
  between a =
      let e : length mid ≡ i - s.cpy_from = omega (arith, a.from_is, a.here_is) in
      rw (a.old_is, drop-append s.cpy_from pre (mid ++ (v ++ concat vs)) a.from_is)
        (take-append (i - s.cpy_from) mid (v ++ concat vs) e)

  At-skip : At old pre out mid (v ∷ vs) i s → IsVersion v → At old pre out (mid ++ v) vs (i + 20) s
  At-skip a d = record {
    old_is = a.old_is ∙ ap (λ t. pre ++ t) (sym (append_assoc mid v (concat vs)));
    from_is = a.from_is;
    here_is = omega (arith, a.here_is, length-append mid v, d);
    out_is = a.out_is;
    len_is = omega (arith, a.len_is, length-append mid v, d);
  }

  At-leave_out :
      At old pre out mid (v ∷ vs) i s
      → IsVersion v
      → At old (pre ++ (mid ++ v)) (out ++ mid) [] vs (i + 20) (leave_out old i s)
  unfolding leave_out f_cpy
  At-leave_out a d = record {
    old_is = a.old_is ∙ simp append_assoc;
    from_is = omega (arith, a.here_is, length-append pre (mid ++ v), length-append mid v, d);
    here_is = omega (arith, a.here_is, length-append pre (mid ++ v), length-append mid v, d);
    out_is = rw (between a, a.out_is) refl;
    len_is = omega (arith, a.len_is, length-append out mid);
  }

  At-flags :
      {f g : Bool}
      → At old pre out mid (v ∷ vs) i s
      → IsVersion v
      → At old
          (pre ++ (mid ++ v))
          (out ++ mid)
          []
          vs
          (i + 20)
          (record (leave_out old i s) { found_prev_ver1 = f; found_prev_ver2 = g })
  At-flags a d =
      let b = At-leave_out a d in
      record {
        old_is = b.old_is;
        from_is = b.from_is;
        here_is = b.here_is;
        out_is = b.out_is;
        len_is = b.len_is;
      }

Ends-done :
    {old pre out mid : Bytes} {i : ℕ} {s : Scan}
    → At old pre out mid [] i s
    → Ends old (out ++ (mid ++ [])) s
Ends-done {old} {pre} {out} {mid} a = record {
  bytes_are = rw (a.out_is, a.old_is, drop-append _ pre (mid ++ []) a.from_is) refl;
  size_is = rw (append-nil mid) (omega (arith, a.len_is, length-append out mid));
}

module _ (old ver prev1 prev2 : Bytes) where
  scan-Ends :
      (vs : List Bytes) {pre out mid : Bytes} {i : ℕ} {s : Scan}
      → At old pre out mid vs i s
      → All IsVersion vs
      → Ends old
          (out ++ (mid ++ concat (kept s.found_prev_ver1 s.found_prev_ver2 ver prev1 prev2 vs)))
          (scan old ver prev1 prev2 (length vs) i s)
  unfolding scan scan_step kept
  scan-Ends [] a d = Ends-done a
  scan-Ends (v ∷ vs) {pre} {out} {mid} {i} {s} a (d, ds) =
      let skipped : (K : List Bytes) → out ++ (mid ++ concat K) ≡ (out ++ mid) ++ concat K =
        λ K. sym (append_assoc out mid (concat K)) in
      rw (scan, scan_step, At-version a d)
        (elim (Bool-cases (not s.found_prev_ver1 && v =? prev1)) [
          | inl e ↦ rw (e, kept, skipped) (scan-Ends vs (At-flags a d) ds)
          | inr e ↦
              rw (e, kept, scan_step, At-version a d)
                (elim (Bool-cases (not s.found_prev_ver2 && v =? prev2)) [
                  | inl f ↦ rw (f, kept, skipped) (scan-Ends vs (At-flags a d) ds)
                  | inr f ↦
                      rw (f, kept, scan_step, At-version a d)
                        (elim (Bool-cases (v =? ver)) [
                          | inl g ↦ rw (g, kept, skipped) (scan-Ends vs (At-leave_out a d) ds)
                          | inr g ↦
                              rw (g, kept, ← append_assoc mid v) (scan-Ends vs (At-skip a d) ds)
                        ])
                ])
        ])

length-concat : (vs : List Bytes) → All IsVersion vs → length (concat vs) ≡ 20 * length vs
length-concat [] d = refl
length-concat (v ∷ vs) (d, ds) = omega (arith, length-append v (concat vs), length-concat vs ds, d)

pub rounds-concat : (vs : List Bytes) → All IsVersion vs → rounds (concat vs) ≡ length vs
rounds-concat vs ds = omega (arith, length-concat vs ds)

resize_self : (n : ℕ) (b : Bytes) → n ≡ length b → resize n b ≡ b
resize_self n b e =
    let zero_left : n - length b ≡ 0 = omega arith in
    rw (zero_left, append-nil) (take_self n b (sym e))

begin :
    {f g : Bool} (vs : List Bytes)
    → All IsVersion vs
    → At (concat vs) [] [] [] vs 0 (record {
      found_prev_ver1 = f;
      found_prev_ver2 = g;
      cpy_from = 0;
      copied = [];
      new_len = length (concat vs) + version_size;
    })
begin vs ds = record {
  old_is = refl;
  from_is = refl;
  here_is = refl;
  out_is = refl;
  len_is = omega (arith, length-concat vs ds);
}

-- The updater, on a string of versions and an operand of a version and of 40 more bytes at most,
-- leaves the new version, and behind it what the filter keeps.
pub merge_versions-kept :
    (vs : List Bytes) (ver prev : Bytes)
    → All IsVersion vs
    → IsVersion ver
    → merge_versions (concat vs) (ver ++ prev)
      ≡ ver
        ++ concat (
            kept
              (ltb (length prev) 20)
              (ltb (length prev) 40)
              ver
              (take 20 prev)
              (take 20 (drop 20 prev))
              vs)
unfolding merge_versions
merge_versions-kept vs ver prev ds d =
    let n : length (ver ++ prev) ≡ 20 + length prev = omega (arith, length-append ver prev, d) in
    let second : drop (2 * 20) (ver ++ prev) ≡ drop 20 prev =
      sym (drop-add 20 20 (ver ++ prev)) ∙ ap (drop 20) (drop-append 20 ver prev d) in
    let two : ltb (length (ver ++ prev)) (2 * 20) ≡ ltb (length prev) 20 = ground (arith, n) in
    let three : ltb (length (ver ++ prev)) (3 * 20) ≡ ltb (length prev) 40 = ground (arith, n) in
    rw
      (
        take-append 20 ver prev d,
        drop-append 20 ver prev d,
        second,
        two,
        three,
        rounds-concat vs ds,
      )
      (finish _
        (scan-Ends (concat vs) ver (take 20 prev) (take 20 (drop 20 prev)) vs (begin vs ds) ds))
  where
    finish :
        (t : Scan) {result : Bytes}
        → Ends (concat vs) result t
        → resize t.new_len (ver ++ (t.copied ++ drop t.cpy_from (concat vs))) ≡ ver ++ result
    finish t {result} e = rw e.bytes_are (
        resize_self t.new_len (ver ++ result)
          (omega (arith, e.size_is, length-append ver result, d)))
