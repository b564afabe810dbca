-- ===== src/LstStore/Request.antt =====
-- The first part of `Allocate` (src/store/lst_store.cc): the request for more segments when few are
-- free, and the wait for them when none is.
use mathlib.Core.Path.{subst}
use forkbase.Base.{
  ℕ, ◌<◌, ◌≡◌, refl, sym, ap, ◌∙◌, Option, none, some, List, [], ◌∷◌, arith, ltb, ◌==◌, Bool-cases,
  inl, inr, ◌⊎◌,
}
use forkbase.LstStore.{
  LstStore, ThreadStatus, completed, scheduled, unscheduled, enlarge, update_store,
  request_segments, wait_segments, wait_enlarged, take_completed, segment_increment,
}
use forkbase.LstStore.Links.{segments_from-some}
use forkbase.LstStore.Shape.{IsShaped, Keeps, Keeps-where, Keeps-trans, Keeps-refl}
use forkbase.LstStore.Enlarge.{enlarge-Enlarged}
use forkbase.LstStore.Update.{update_store-Updated}

-- A segment is free or may still be made.
abbrev pub IsRoomy : LstStore → Type 0
IsRoomy s = (0 < s.info.free_segments) ⊎ (s.info.alloc_segments < s.info.max_segments)

-- What the wait ends with.
pub record Ready (s t : LstStore) : Type 0 where
  pub shaped : IsShaped t
  pub keeps : Keeps s t
  pub same_max : t.info.max_segments ≡ s.info.max_segments
  pub same_used : t.info.used_segments ≡ s.info.used_segments
  pub roomy : IsRoomy s → 0 < t.info.free_segments
  pub full :
      s.info.free_segments ≡ 0
      → s.info.alloc_segments ≡ s.info.max_segments
      → t.info.free_segments ≡ 0

-- A choice whose case is known.
module _ {ℓ} {A : Type ℓ} where
  on_some_segment :
      (l : List ℕ) (a b : A)
      → (o : ℕ) (r : List ℕ) → l ≡ o ∷ r
      → (elim l [ o ∷ l ↦ a | [] ↦ b ]) ≡ a
  on_some_segment l a b o r e = rw e refl

  on_no_segment : (l : List ℕ) (a b : A) → l ≡ [] → (elim l [ o ∷ l ↦ a | [] ↦ b ]) ≡ b
  on_no_segment l a b e = rw e refl

  on_scheduled :
      (c : ThreadStatus) (a b : A) → c ≡ scheduled → (elim c [ scheduled ↦ a | _ ↦ b ]) ≡ a
  on_scheduled c a b e = rw e refl

  off_scheduled :
      (c : ThreadStatus) (a b : A) → c ≡ unscheduled → (elim c [ scheduled ↦ a | _ ↦ b ]) ≡ b
  off_scheduled c a b e = rw e refl

  off_completed :
      (c : ThreadStatus) (a b : A) → c ≡ unscheduled → (elim c [ completed ↦ a | _ ↦ b ]) ≡ b
  off_completed c a b e = rw e refl

  on_completed :
      (c : ThreadStatus) (a b : A) → c ≡ completed → (elim c [ completed ↦ a | _ ↦ b ]) ≡ a
  on_completed c a b e = rw e refl

wait_segments-free :
    (s : LstStore) → IsShaped s → 0 < s.info.free_segments → wait_segments s ≡ some s
unfolding wait_segments
wait_segments-free s v f =
    on_some_segment s.free_list (some s) _ _ _
      (v.free_is ∙ segments_from-some s.info.free_segments s.info.used_segments f)

take_completed-completed :
    (s : LstStore) → s.thread_status ≡ completed → take_completed s ≡ update_store s
take_completed-completed s c = on_completed s.thread_status (update_store s) s c

wait_enlarged-scheduled :
    (s t : LstStore) → s.thread_status ≡ scheduled → enlarge s ≡ some t → wait_enlarged s ≡ some t
wait_enlarged-scheduled s t c e = on_scheduled s.thread_status (enlarge s) (some s) c ∙ e

wait_segments-none :
    (s t : LstStore)
    → s.free_list ≡ []
    → wait_enlarged s ≡ some t
    → wait_segments s ≡ some (take_completed t)
unfolding wait_segments
wait_segments-none s t n e =
    on_no_segment s.free_list (some s) _ n ∙ elim_some (wait_enlarged s) t e
  where
    elim_some :
        (o : Option LstStore) (t : LstStore)
        → o ≡ some t
        → (elim o [ none ↦ none | some t ↦ some (take_completed t) ]) ≡ some (take_completed t)
    elim_some o t e = rw e refl

stay-Ready : (s : LstStore) → IsShaped s → 0 < s.info.free_segments → Ready s s
stay-Ready s v f = record {
  shaped = v;
  keeps = Keeps-refl s;
  same_max = refl;
  same_used = refl;
  roomy = λ r. f;
  full = λ z m. z;
}

-- With none free, a scheduled `Enlarge` is waited for.
wait_segments-scheduled :
    (s : LstStore)
    → IsShaped s
    → s.thread_status ≡ scheduled
    → (t : LstStore) × (wait_segments s ≡ some t) × Ready s t
unfolding wait_segments
wait_segments-scheduled s v c = elim (Bool-cases (s.info.free_segments == 0)) [
  | inl z ↦
      let none_free : s.info.free_segments ≡ 0 = ground (arith, z) in
      let empty : s.free_list ≡ [] = rw (v.free_is, none_free) refl in
      let (e, runs, en) = enlarge-Enlarged s v in
      let up = update_store-Updated e en.shaped en.is_completed in
      (
        update_store e,
        wait_segments-none s e empty (wait_enlarged-scheduled s e c runs)
            ∙ ap some (take_completed-completed e en.is_completed),
        record {
          shaped = up.shaped;
          keeps = Keeps-trans s e (update_store e) en.keeps up.keeps;
          same_max = rw up.same_max (rw en.same_info refl);
          same_used = rw up.same_used (rw en.same_info refl);
          roomy = λ r. up.when_not (
              rw en.same_info
                (elim r [ inl h ↦ absurd (omega (arith, h, none_free)) | inr h ↦ h ]));
          full = λ n m. rw (up.when_full (rw en.same_info m)) (rw en.same_info n);
        },
      )
  | inr z ↦
      let f : 0 < s.info.free_segments = ground (arith, z) in
      (s, wait_segments-free s v f, stay-Ready s v f)
]

schedule-IsShaped : (s : LstStore) → IsShaped s → IsShaped (record s { thread_status = scheduled })
schedule-IsShaped s v = record {
  alloc_is = v.alloc_is;
  in_max = v.in_max;
  small = v.small;
  free_is = v.free_is;
  major_is = v.major_is;
  current_is = v.current_is;
  last_free_is = v.last_free_is;
  offset_above = v.offset_above;
  offset_below = v.offset_below;
  sync_count = λ z. cc;
  sync_is = λ z. cc;
  sync_linked = λ z. cc;
  free_linked = v.free_linked;
  major_linked = v.major_linked;
  free_head = v.free_head;
  major_head = v.major_head;
}

-- The status, by its cases.
ThreadStatus-cases : (c : ThreadStatus) → (c ≡ unscheduled) ⊎ ((c ≡ scheduled) ⊎ (c ≡ completed))
ThreadStatus-cases unscheduled = inl refl
ThreadStatus-cases scheduled = inr (inl refl)
ThreadStatus-cases completed = inr (inr refl)

-- The request with few segments free.
abbrev request_few : LstStore → LstStore
request_few s = elim s.thread_status [
  | unscheduled ↦ record s { thread_status = scheduled }
  | completed ↦ update_store s
  | scheduled ↦ s
]

request_few-status :
    (c : ThreadStatus) (a b d : LstStore)
    → (c ≡ unscheduled → (elim c [ unscheduled ↦ a | completed ↦ b | scheduled ↦ d ]) ≡ a)
      × (c ≡ scheduled → (elim c [ unscheduled ↦ a | completed ↦ b | scheduled ↦ d ]) ≡ d)
      × (c ≡ completed → (elim c [ unscheduled ↦ a | completed ↦ b | scheduled ↦ d ]) ≡ b)
request_few-status c a b d = (λ e. rw e refl, λ e. rw e refl, λ e. rw e refl)

abbrev IsReadied : LstStore → LstStore → Type 0
IsReadied s r = (t : LstStore) × (wait_segments r ≡ some t) × Ready s t

schedule-IsReadied :
    (s : LstStore) → IsShaped s → IsReadied s (record s { thread_status = scheduled })
schedule-IsReadied s v =
    let r : LstStore = record s { thread_status = scheduled } in
    let (t, runs, y) = wait_segments-scheduled r (schedule-IsShaped s v) refl in
    (
      t,
      runs,
      record {
        shaped = y.shaped;
        keeps = Keeps-trans s r t (Keeps-where s r refl refl refl (λ lo hi k i a b. refl)) y.keeps;
        same_max = y.same_max;
        same_used = y.same_used;
        roomy = y.roomy;
        full = y.full;
      },
    )

-- The wait after `UpdateStore`, which may find nothing free only in a full log.
update_store-IsReadied :
    (s : LstStore) → IsShaped s → s.thread_status ≡ completed → IsReadied s (update_store s)
update_store-IsReadied s v c =
    let up = update_store-Updated s v c in
    elim (Bool-cases ((update_store s).info.free_segments == 0)) [
      | inl z ↦
          let empty : (update_store s).info.free_segments ≡ 0 = ground (arith, z) in
          let idle : (update_store s).free_list ≡ [] = rw (up.shaped.free_is, empty) refl in
          (
            update_store s,
            wait_segments-none (update_store s) (update_store s) idle (
                  off_scheduled (update_store s).thread_status _ (some (update_store s))
                    up.is_unscheduled)
                ∙ ap some (
                    off_completed (update_store s).thread_status _ (update_store s)
                      up.is_unscheduled),
            record {
              shaped = up.shaped;
              keeps = up.keeps;
              same_max = up.same_max;
              same_used = up.same_used;
              roomy =
                  λ r. elim r [ inl f ↦ omega (arith, up.more_free, f) | inr f ↦ up.when_not f ];
              full = λ n m. empty;
            },
          )
      | inr z ↦
          let f : 0 < (update_store s).info.free_segments = ground (arith, z) in
          (
            update_store s,
            wait_segments-free (update_store s) up.shaped f,
            record {
              shaped = up.shaped;
              keeps = up.keeps;
              same_max = up.same_max;
              same_used = up.same_used;
              roomy = λ r. f;
              full = λ n m. omega (arith, up.when_full m, n);
            },
          )
    ]

request_few-IsReadied : (s : LstStore) → IsShaped s → IsReadied s (request_few s)
request_few-IsReadied s v =
    let (un, sch, done) =
      request_few-status s.thread_status (record s { thread_status = scheduled }) (update_store s)
        s in
    elim (ThreadStatus-cases s.thread_status) [
      | inl c ↦ subst (IsReadied s) (sym (un c)) (schedule-IsReadied s v)
      | inr (inl c) ↦ subst (IsReadied s) (sym (sch c)) (wait_segments-scheduled s v c)
      | inr (inr c) ↦ subst (IsReadied s) (sym (done c)) (update_store-IsReadied s v c)
    ]

pub request_segments-Ready :
    (s : LstStore)
    → IsShaped s
    → (t : LstStore) × (wait_segments (request_segments s) ≡ some t) × Ready s t
unfolding request_segments
request_segments-Ready s v = elim (Bool-cases (ltb s.info.free_segments segment_increment)) [
  | inl t ↦ rw (t, request_segments) (request_few-IsReadied s v)
  | inr t ↦
      let f : 0 < s.info.free_segments = ground (arith, t) in
      (s, rw (t, request_segments) (wait_segments-free s v f), stay-Ready s v f)
]
