-- ===== src/Rocks/Heads.antt =====
-- The heads of branches in the database (`RocksBranchVersionDB`, src/worker/rocks_head_version.cc)
-- and in memory (src/worker/simple_head_version.cc).
use forkbase.Base.{
  ◌≡◌, ◌^◌, ◌<◌, refl, sym, ◌∙◌, true, false, Option, none, some, Bytes, length, take, bytes_eq,
  if◌then◌else◌, arith, take_self, inl, inr, Bool-cases, Option-cases,
}
use forkbase.Slice.{Slice}
use forkbase.Hash.{Hash, of, hash_eq}
use forkbase.Head
use forkbase.Head.{HeadVersion, or_empty, find_branch, contains, follow}
use forkbase.Head.Laws.{
  same, find_branch-put_branch, find_branch-remove_branch, find_branch-rename_branch,
}
use forkbase.Rocks.{KeyValueDb, Accepts}
use forkbase.Store.{is_some}
use forkbase.Rocks.BranchDb.{db_key, get_head, read_head}
use forkbase.Rocks.BranchDb
use forkbase.Rocks.Keys.{db_key-same}

pub is_none {ℓ} : {A : Type ℓ} (o : Option A) → is_some o ≡ false → o ≡ none
is_none none e = refl
is_none (some a) e = cc

-- The heads below 2 ^ 16 bytes of key, and the latest versions.
abbrev pub Heads : (db : KeyValueDb) → HeadVersion → KeyValueDb.S db → Type 0
Heads db h s =
    (key branch : Slice) → length key < 2 ^ 16 → get_head db s key branch ≡ find_branch h key branch

two_names :
    (h : HeadVersion) (key old_branch new_branch key' branch' : Slice) (ver : Hash)
    → find_branch h key old_branch ≡ some ver
    → find_branch h key new_branch ≡ none
    → same key old_branch key' branch' ≡ true
    → same key new_branch key' branch' ≡ false
two_names h key old_branch new_branch key' branch' ver o n p =
    elim (Bool-cases (same key new_branch key' branch')) [
      | inl q ↦
          let one : old_branch ≡ new_branch = ground (
            arith,
            p,
            q,
            bytes_eq.beq_iff old_branch branch',
            bytes_eq.beq_iff new_branch branch',
          ) in
          cc
      | inr q ↦ q
    ]

pub after_rename :
    (h : HeadVersion) (key old_branch new_branch : Slice) (ver : Hash) (h' : HeadVersion)
    → find_branch h key old_branch ≡ some ver
    → find_branch h key new_branch ≡ none
    → Head.rename_branch h key old_branch new_branch ≡ some h'
    → ((key' branch' : Slice)
        → find_branch h' key' branch' ≡ (
            if same key new_branch key' branch'
            then some ver
            else if same key old_branch key' branch'
            then none
            else find_branch h key' branch'))
      × (h'.latest_ver ≡ h.latest_ver)
after_rename h key old_branch new_branch ver h' o n e =
    let (h2, e2, all, kept) = find_branch-rename_branch h key old_branch new_branch ver o n in
    let one : h2 ≡ h' = cc in rw (← one) (all, kept)

module _ {db : KeyValueDb} (accepts : Accepts db) (h : HeadVersion) (s : KeyValueDb.S db)
    (f : Heads db h s) (key : Slice) (k : length key < 2 ^ 16) where
  pub Heads-put_branch :
      (branch v : Bytes)
      → length v ≡ 20
      → Heads db (Head.put_branch h key branch (of v)) (BranchDb.put db s key branch v).1
  unfolding BranchDb.put get_head
  Heads-put_branch branch v d key' branch' k' =
      rw
        (
          find_branch-put_branch,
          sym (f key' branch' k'),
          KeyValueDb.get-put db s (db_key key branch) v (db_key key' branch')
              (accepts.put_ok s (db_key key branch) v),
          db_key-same key branch key' branch' k k',
        )
        (elim (Bool-cases (same key branch key' branch')) [
          | inl e ↦ rw (e, take_self 20 v d) refl
          | inr e ↦ rw e refl
        ])

  pub Heads-delete :
      (branch : Slice)
      → Heads db (Head.remove_branch h key branch) (BranchDb.delete db s key branch).1
  unfolding BranchDb.delete get_head
  Heads-delete branch key' branch' k' =
      rw
        (
          find_branch-remove_branch,
          sym (f key' branch' k'),
          KeyValueDb.get-delete db s (db_key key branch) (db_key key' branch')
              (accepts.delete_ok s (db_key key branch)),
          db_key-same key branch key' branch' k k',
        )
        (elim (Bool-cases (same key branch key' branch')) [ inl e ↦ rw e refl | inr e ↦ rw e refl ])

  pub Heads-absent :
      (branch : Slice)
      → BranchDb.exists db s key branch ≡ false
      → Heads db (Head.remove_branch h key branch) s
  unfolding BranchDb.exists get_head
  Heads-absent branch e key' branch' k' =
      rw (find_branch-remove_branch, sym (f key' branch' k'))
        (elim (Bool-cases (same key branch key' branch')) [
          | inl g ↦
              let here : db_key key branch ≡ db_key key' branch' =
                (bytes_eq.beq_iff _ _).0 (db_key-same key branch key' branch' k k' ∙ g) in
              let gone : KeyValueDb.get db s (db_key key branch) ≡ none = is_none _ e in
              rw (g, ← here, gone) refl
          | inr g ↦ rw g refl
        ])

  pub Heads-move :
      (old_branch new_branch : Slice) (ver : Hash) (h' : HeadVersion)
      → find_branch h key old_branch ≡ some ver
      → find_branch h key new_branch ≡ none
      → Head.rename_branch h key old_branch new_branch ≡ some h'
      → Heads db h' (BranchDb.move db s key old_branch new_branch).1
  unfolding BranchDb.move get_head
  Heads-move old_branch new_branch ver h' o n e key' branch' k' =
      let was : read_head (KeyValueDb.get db s (db_key key old_branch)) ≡ some ver =
        f key old_branch k ∙ o in
      elim (Option-cases (KeyValueDb.get db s (db_key key old_branch))) [
        | inl g ↦ absurd (ground (arith, g, was))
        | inr (b, g) ↦
            let head : some (of (take 20 b)) ≡ some ver = rw g at was in
            rw
              (
                g,
                BranchDb.move,
                KeyValueDb.get-write db s _ (db_key key' branch') (accepts.write_ok s _),
                db_key-same key old_branch key' branch' k k',
                db_key-same key new_branch key' branch' k k',
                (after_rename h key old_branch new_branch ver h' o n e).0 key' branch',
                sym (f key' branch' k'),
              )
              (elim (Bool-cases (same key old_branch key' branch')) [
                | inl p ↦ rw (p, two_names h key old_branch new_branch key' branch' ver o n p) refl
                | inr p ↦ elim (Bool-cases (same key new_branch key' branch')) [
                  | inl q ↦ rw (p, q) head
                  | inr q ↦ rw (p, q) refl
                ]
              ])
      ]
