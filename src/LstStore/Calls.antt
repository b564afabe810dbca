-- ===== src/LstStore/Calls.antt =====
-- Calls of `LSTStore::Put` and the background task `Enlarge` (src/store/lst_store.cc) in any order,
-- from a new log on.
use mathlib.Core.Path.{subst}
use forkbase.Base.{
  ℕ, ◌<◌, ◌^◌, ◌≡◌, refl, sym, ◌∙◌, Option, some, none, le_value, arith, Bytes, inl, inr,
  Bool-cases, ◌=?◌,
}
use forkbase.Hash.{Hash, of, hash_eq}
use forkbase.Chunk.{Chunk}
use forkbase.Mmap.{load_integer, load_bytes}
use forkbase.LstStore.{LstStore, scheduled, get, put, enlarge, update_store}
use forkbase.LstStore.Shape.{IsShaped, Keeps-trans}
use forkbase.LstStore.Links.{link_segment_list-nothing}
use forkbase.LstStore.Request.{IsRoomy}
use forkbase.Dict
use forkbase.LstStore.Enlarge.{enlarge-Enlarged}
use forkbase.LstStore.Update.{update_store-Updated}
use forkbase.LstStore.Valid.{IsValid, Keeps-IsValid, Keeps-get, get_absent}
use forkbase.LstStore.Append.{Fits}
use forkbase.LstStore.Put.{put-ends}
use forkbase.LstStore.Load.{mmap_ustore_log_file, mapped, new_file, load, load_segments}

-- The task runs at any time after it was scheduled.
pub data Step (s t : LstStore) : Type 0 where
  enlarged : s.thread_status ≡ scheduled → enlarge s ≡ some t → Step s t
  put_chunk :
      (key : Bytes) (chunk : Chunk) → Fits key chunk → put s (of key) chunk ≡ some t → Step s t

pub data Reach (s : LstStore) : LstStore → Type 0 where
  here : Reach s s
  next : {t u : LstStore} → Reach s t → Step t u → Reach s u

-- A store that is valid, and has the chunks of another.
pub record Extends (s t : LstStore) : Type 0 where
  pub valid : IsValid t
  pub keeps : (h : Hash) (c : Chunk) → get s h ≡ some c → get t h ≡ some c

put-Extends :
    (s t : LstStore) (key : Bytes) (chunk : Chunk)
    → IsValid s
    → Fits key chunk
    → put s (of key) chunk ≡ some t
    → Extends s t
put-Extends s t key chunk v f e = elim (put-ends s key chunk v f) [
  | inr (n, z, m) ↦ let bad : none ≡ some t = sym n ∙ e in cc
  | inl (u, runs, p) ↦
      let same : u ≡ t = let g : some u ≡ some t = sym runs ∙ e in cc in
      subst (Extends s) same (record {
        valid = p.valid;
        keeps = λ h c x. p.answers h ∙ elim (Bool-cases (of key =? h)) [
          | inl y ↦
              let at = (hash_eq.beq_iff (of key) h).0 y in
              let old : get s (of key) ≡ some c = rw at x in rw (y, old) refl
          | inr y ↦ rw (y, x) refl
        ];
      })
]

Step-Extends : (s t : LstStore) → IsValid s → Step s t → Extends s t
Step-Extends s t v (enlarged c e) =
    let (u, runs, en) = enlarge-Enlarged s v.shaped in
    let same : u ≡ t = let g : some u ≡ some t = sym runs ∙ e in cc in
    subst (Extends s) same (record {
      valid = Keeps-IsValid s u en.keeps en.shaped v;
      keeps = λ h c x. Keeps-get s u en.keeps v h ∙ x;
    })
Step-Extends s t v (put_chunk key chunk f e) = put-Extends s t key chunk v f e

-- Whatever chunks that fit a segment are put, and whenever the background task runs, a store that
-- was valid is valid, and every chunk that was there is still found, with the same bytes.
pub Reach-Extends : (s t : LstStore) → IsValid s → Reach s t → Extends s t
Reach-Extends s t v here = record { valid = v; keeps = λ h c x. x }
Reach-Extends s t v (next {t = m} r st) =
    let e = Reach-Extends s m v r in
    let f = Step-Extends m t e.valid st in
    record { valid = f.valid; keeps = λ h c x. f.keeps h c (e.keeps h c x) }

new_head : (load_integer 8 new_file 0 ≡ 0) × (load_integer 8 new_file 8 ≡ 0)
unfolding load_integer le_value load_bytes
new_head = (refl, refl)

on_enlarged :
    (o : Option LstStore) (t : LstStore)
    → o ≡ some t
    → (elim o [ none ↦ none | some t ↦ some (update_store t) ]) ≡ some (update_store t)
on_enlarged o t e = rw e refl

module _ (digest : Bytes → Bytes) (max : ℕ) (h : max < 2 ^ 31) where
  -- A new log has no segment.
  abbrev start : LstStore
  start = record (mapped digest max new_file) { thread_status = scheduled }

  start-IsShaped : IsShaped start
  start-IsShaped = record {
    alloc_is = refl;
    in_max = omega arith;
    small = h;
    free_is = refl;
    major_is = refl;
    current_is = refl;
    last_free_is = λ z. absurd (omega (arith, z));
    offset_above = λ z. absurd (omega (arith, z));
    offset_below = λ z. absurd (omega (arith, z));
    sync_count = λ z. cc;
    sync_is = λ z. cc;
    sync_linked = λ z. cc;
    free_linked = λ j a b. absurd (omega (arith, b));
    major_linked = λ j a b. absurd (omega (arith, b));
    free_head = new_head.0;
    major_head = new_head.1;
  }

  start-IsValid : IsValid start
  unfolding Dict.lookup
  start-IsValid = record { shaped = start-IsShaped; stored = λ k o e. cc }

  load-new_file : load digest (mapped digest max new_file) ≡ some (mapped digest max new_file)
  unfolding load load_segments
  load-new_file =
      let (free, major) = new_head in
      rw
        (
          load,
          free,
          link_segment_list-nothing max new_file,
          major,
          link_segment_list-nothing max new_file,
        )
        refl

  -- Mapping a file that was not there gives a valid store, without a failed check, in which no
  -- chunk is found. It has a free segment if the configuration allows any.
  pub mmap_ustore_log_file-new_file :
      (s : LstStore) × (mmap_ustore_log_file digest max new_file ≡ some s)
      × IsValid s
      × ((k : Hash) → get s k ≡ none)
      × (0 < max → IsRoomy s)
  unfolding mmap_ustore_log_file Dict.lookup
  mmap_ustore_log_file-new_file =
      let (e, runs, en) = enlarge-Enlarged start start-IsShaped in
      let up = update_store-Updated e en.shaped en.is_completed in
      let grown = Keeps-trans start e (update_store e) en.keeps up.keeps in
      (
        update_store e,
        rw (mmap_ustore_log_file, load-new_file) (on_enlarged (enlarge start) e runs),
        Keeps-IsValid start (update_store e) grown up.shaped start-IsValid,
        λ k. Keeps-get start (update_store e) grown start-IsValid k ∙ get_absent start k refl,
        λ p. inl (up.when_not (rw en.same_info p)),
      )
