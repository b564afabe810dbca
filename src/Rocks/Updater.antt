-- ===== src/Rocks/Updater.antt =====
-- `LatestVersionUpdater::Merge` (src/worker/rocks_head_version.cc): the latest versions of a key
-- are one string of versions of 20 bytes. A version with those that it follows replaces them.
use forkbase.Base.{
  ℕ, zero, suc, ◌+◌, ◌-◌, ◌*◌, ◌/◌, Bool, true, false, not, ◌&&◌, Option, none, some, ◌++◌, Bytes,
  length, take, drop, replicate, ltb, ◌=?◌, bytes_eq, [],
}

-- `kVersionSizeBytes`
abbrev pub version_size : ℕ
version_size = 20

-- The state of the scan: the flags, `cpy_from`, what is copied behind the new version (up to
-- `cpy_to`), and `new_versions_len`.
pub record Scan : Type 0 where
  pub found_prev_ver1 : Bool
  pub found_prev_ver2 : Bool
  pub cpy_from : ℕ
  pub copied : Bytes
  pub new_len : ℕ

-- `f_cpy(i)`
unfoldable pub f_cpy : Bytes → ℕ → Scan → Scan
f_cpy old i s = record s {
  cpy_from = i + version_size;
  copied = s.copied ++ take (i - s.cpy_from) (drop s.cpy_from old);
}

-- `f_cpy(i)` and the version less.
unfoldable pub leave_out : Bytes → ℕ → Scan → Scan
unfolding f_cpy
leave_out old i s = let t = f_cpy old i s in record t { new_len = t.new_len - version_size }

-- The body of the loop, for the version at `i`.
unfoldable pub scan_step : Bytes → Bytes → Bytes → Bytes → ℕ → Scan → Scan
unfolding leave_out
scan_step old ver prev1 prev2 i s =
    let lv = take version_size (drop i old) in
    elim (not s.found_prev_ver1 && lv =? prev1) [
      | true ↦ record (leave_out old i s) { found_prev_ver1 = true }
      | false ↦ elim (not s.found_prev_ver2 && lv =? prev2) [
        | true ↦ record (leave_out old i s) { found_prev_ver2 = true }
        | false ↦ elim (lv =? ver) [ true ↦ leave_out old i s | false ↦ s ]
      ]
    ]

-- The loop with `n` rounds left.
unfoldable pub scan : Bytes → Bytes → Bytes → Bytes → ℕ → ℕ → Scan → Scan
unfolding scan_step
scan old ver prev1 prev2 zero i s = s
scan old ver prev1 prev2 (suc n) i s =
    scan old ver prev1 prev2 n (i + version_size) (scan_step old ver prev1 prev2 i s)

-- The rounds of `for (i = 0; i < len; i += kVersionSizeBytes)`.
abbrev pub rounds : Bytes → ℕ
rounds old = (length old + version_size - 1) / version_size

-- `std::string::resize`
abbrev pub resize : ℕ → Bytes → Bytes
resize n b = take n b ++ replicate (n - length b) 0

unfoldable pub merge_versions : Bytes → Bytes → Bytes
unfolding scan
merge_versions old value =
    let ver = take version_size value in
    let start : Scan = record {
      found_prev_ver1 = ltb (length value) (2 * version_size);
      found_prev_ver2 = ltb (length value) (3 * version_size);
      cpy_from = 0;
      copied = [];
      new_len = length old + version_size;
    } in
    let prev1 = take version_size (drop version_size value) in
    let prev2 = take version_size (drop (2 * version_size) value) in
    let end = scan old ver prev1 prev2 (rounds old) 0 start in
    resize end.new_len (ver ++ (end.copied ++ drop end.cpy_from old))

-- `Merge`: with no existing value the whole operand is stored.
unfoldable pub merge : Option Bytes → Bytes → Bytes
merge none value = value
merge (some old) value = merge_versions old value
