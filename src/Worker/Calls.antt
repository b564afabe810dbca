-- ===== src/Worker/Calls.antt =====
-- Runs of calls on a worker, in any order, with any results.
use forkbase.Base.{◌≡◌, ◌∙◌, Option, none, some, refl, arith}
use forkbase.Hash.{Hash}
use forkbase.Types.{ErrorCode}
use forkbase.Slice.{Slice}
use forkbase.Store.{Env}
use forkbase.Worker.{Worker, Value, Result, ok, err}
use forkbase.Worker.Frame.{Keeps, Quiet-put_unkeyed}
use forkbase.Worker.Write.{put_unkeyed}
use forkbase.Worker.Versions.{put_version-Writes, merge_versions-Writes}
use forkbase.Worker.Methods.{
  put_version, put, merge_versions, merge_version, merge, branch_version, branch, rename, delete,
}
use forkbase.Worker.Sound.{IsSound, Ends, Ends-Writes, Ends-Quiet}
use forkbase.Worker.Ends.{
  Ends-put, Ends-merge_version, Ends-merge, Ends-branch_version, Ends-branch, Ends-rename,
  Ends-delete,
}

-- The error code that a method returns, `none` for `kOK`.
abbrev pub code_of : {A : Type 0} → Result A → Option ErrorCode
code_of (ok a) = none
code_of (err e) = some e

err-of_code : {A : Type 0} (r : Result A) (e : ErrorCode) → code_of r ≡ some e → r ≡ err e
err-of_code (ok a) e x = cc
err-of_code (err d) e x = ground arith

-- A call of a method that changes the worker, from `w` to `w'`, that ends and returns this code.
pub data Call {env : Env} (w w' : Worker env) (code : Option ErrorCode) : Type 0 where
  by_put :
      (k : Slice) (v : Value) (b : Slice) (r : Result Hash)
      → put k v b w ≡ some (r, w')
      → code_of r ≡ code
      → Call w w' code
  by_put_version :
      (k : Slice) (v : Value) (h : Hash) (r : Result Hash)
      → put_version k v h w ≡ some (r, w')
      → code_of r ≡ code
      → Call w w' code
  by_merge :
      (k : Slice) (v : Value) (t b : Slice) (r : Result Hash)
      → merge k v t b w ≡ some (r, w')
      → code_of r ≡ code
      → Call w w' code
  by_merge_version :
      (k : Slice) (v : Value) (t : Slice) (h : Hash) (r : Result Hash)
      → merge_version k v t h w ≡ some (r, w')
      → code_of r ≡ code
      → Call w w' code
  by_merge_versions :
      (k : Slice) (v : Value) (g h : Hash) (r : Result Hash)
      → merge_versions k v g h w ≡ some (r, w')
      → code_of r ≡ code
      → Call w w' code
  by_branch :
      (k o n : Slice) (r : Result (Unit {0}))
      → branch k o n w ≡ some (r, w')
      → code_of r ≡ code
      → Call w w' code
  by_branch_version :
      (k : Slice) (h : Hash) (n : Slice) (r : Result (Unit {0}))
      → branch_version k h n w ≡ some (r, w')
      → code_of r ≡ code
      → Call w w' code
  by_rename :
      (k o n : Slice) (r : Result (Unit {0}))
      → rename k o n w ≡ some (r, w')
      → code_of r ≡ code
      → Call w w' code
  by_delete :
      (k b : Slice) (r : Result (Unit {0}))
      → delete k b w ≡ some (r, w')
      → code_of r ≡ code
      → Call w w' code
  by_put_unkeyed :
      (v : Value) (r : Result Hash)
      → put_unkeyed v w ≡ some (r, w')
      → code_of r ≡ code
      → Call w w' code

-- A run of calls, one after the other.
pub data Reaches {env : Env} (w : Worker env) : Worker env → Type 0 where
  here : Reaches w w
  after : {v u : Worker env} (code : Option ErrorCode) → Reaches w v → Call v u code → Reaches w u

module _ {env : Env} where
  -- What `Ends` says of a call, without its result.
  record Ended (w w' : Worker env) (code : Option ErrorCode) : Type 0 where
    keeps : Keeps w w'
    failed : (e : ErrorCode) → code ≡ some e → w'.head ≡ w.head
    sound : IsSound w → IsSound w'

  ended :
      {A : Type 0} (w w' : Worker env) (r : Result A) (code : Option ErrorCode)
      → Ends w w' r
      → code_of r ≡ code
      → Ended w w' code
  ended w w' r code t c = record {
    keeps = t.keeps;
    failed = λ e x. t.failed e (err-of_code r e (c ∙ x));
    sound = t.sound;
  }

  Call-Ended : (w w' : Worker env) (code : Option ErrorCode) → Call w w' code → Ended w w' code
  Call-Ended w w' code (by_put k v b r h c) = ended w w' r code (Ends-put k v b w w' r h) c
  Call-Ended w w' code (by_put_version k v p r h c) =
      ended w w' r code (Ends-Writes w w' r (put_version-Writes k v p w w' r h)) c
  Call-Ended w w' code (by_merge k v t b r h c) = ended w w' r code (Ends-merge k v t b w w' r h) c
  Call-Ended w w' code (by_merge_version k v t p r h c) =
      ended w w' r code (Ends-merge_version k v t p w w' r h) c
  Call-Ended w w' code (by_merge_versions k v p q r h c) =
      ended w w' r code (Ends-Writes w w' r (merge_versions-Writes k v p q w w' r h)) c
  Call-Ended w w' code (by_branch k o n r h c) = ended w w' r code (Ends-branch k o n w w' r h) c
  Call-Ended w w' code (by_branch_version k p n r h c) =
      ended w w' r code (Ends-branch_version k p n w w' r h) c
  Call-Ended w w' code (by_rename k o n r h c) = ended w w' r code (Ends-rename k o n w w' r h) c
  Call-Ended w w' code (by_delete k b r h c) = ended w w' r code (Ends-delete k b w w' r h) c
  Call-Ended w w' code (by_put_unkeyed v r h c) =
      ended w w' r code (Ends-Quiet (put_unkeyed v) (Quiet-put_unkeyed v) w w' r h) c

  -- A call of `Put`, `Merge`, `Branch`, `Rename`, `Delete` or `PutUnkeyed`, in any overload, that returns an
  -- error leaves the branch heads and the latest versions of every key as they were.
  pub failure_moves_no_head :
      (w w' : Worker env) (e : ErrorCode) → Call w w' (some e) → w'.head ≡ w.head
  failure_moves_no_head w w' e c = (Call-Ended w w' (some e) c).failed e refl

  -- Whatever calls are made and whatever they return, if the head of every branch was a version in
  -- the store, it is one afterwards.
  pub Reaches-IsSound : (w w' : Worker env) → Reaches w w' → IsSound w → IsSound w'
  Reaches-IsSound w w' here s = s
  Reaches-IsSound w w' (after {v = v} code r c) s =
      (Call-Ended v w' code c).sound (Reaches-IsSound w v r s)
