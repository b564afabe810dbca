-- ===== src/Node/Cursor/Undo.antt =====
-- `NodeCursor::Retreat` (src/node/cursor.cc) after `Advance`.
use mathlib.Core.Path.{subst}
use forkbase.Base.{
  ℕ, ◌+◌, ◌-◌, ◌%◌, ◌^◌, ◌<◌, ◌≡◌, refl, sym, ap, ◌∙◌, Bool, true, false, Option, none, some, [],
  ◌∷◌, arith, ltb, Bool-cases, Option-cases, inl, inr,
}
use forkbase.Hash.{Hash}
use forkbase.Chunk.{Chunk}
use forkbase.Node.Cursor.{leaf_entries}
use forkbase.Node.Cursor.Move.{
  Levels, int_lt, up, down, child_at, enter_first, enter_last, advance, retreat,
}
use forkbase.Node.Cursor.Advance.{advance_parent, advance_inside, advance_last}

abbrev Moved : Type 0
Moved = Option (Bool × Levels)

moved_eq : (a b : Levels) → ◌≡◌ {A = Moved} (some (true, a)) (some (true, b)) → a ≡ b
moved_eq a b h = cc

not_false : (a b : Levels) → ◌≡◌ {A = Moved} (some (false, a)) (some (true, b)) → ⊥
not_false a b h = cc

not_none : (a : Bool × Levels) → none ≡ some a → ⊥
not_none a h = cc

module _ (load : Hash → Option Chunk) where
  -- The node of each level is the child at the index above it, and each index is inside its node.
  pub data IsPath : Levels → Type 0 where
    root : {c : Chunk} {i : ℕ} → i < leaf_entries c → leaf_entries c < 2 ^ 31 → IsPath ((c, i) ∷ [])
    below :
        {c : Chunk} {i : ℕ} {p : Chunk × ℕ} {ps : Levels}
        → i < leaf_entries c
        → leaf_entries c < 2 ^ 31
        → child_at load p ≡ some c
        → IsPath (p ∷ ps)
        → IsPath ((c, i) ∷ p ∷ ps)

  down_suc : (i : ℕ) → i < 2 ^ 31 - 1 → (down (i + 1) ≡ i) × (int_lt (down (i + 1)) 0 ≡ false)
  unfolding down
  down_suc i a = (ground (arith, a), ground (arith, a))

  down_zero : int_lt (down 0) 0 ≡ true
  unfolding down
  down_zero = refl

  retreat_inside :
      (c : Chunk) (i : ℕ) (ps : Levels)
      → i < 2 ^ 31 - 1
      → retreat load ((c, i + 1) ∷ ps) ≡ some (true, (c, i) ∷ ps)
  unfolding retreat
  retreat_inside c i [] a = let (e, t) = down_suc i a in rw (retreat, t, e) refl
  retreat_inside c i (p ∷ ps) a = let (e, t) = down_suc i a in rw (retreat, t, e) refl

  retreat_first :
      (c d : Chunk) (i : ℕ) (q p : Chunk × ℕ) (qs ps : Levels)
      → retreat load (q ∷ qs) ≡ some (true, p ∷ ps)
      → child_at load p ≡ some c
      → retreat load ((d, 0) ∷ q ∷ qs)
        ≡ some (true, (c, (leaf_entries c + (2 ^ 64 - 1)) % 2 ^ 32) ∷ p ∷ ps)
  unfolding retreat enter_last
  retreat_first c d i q p qs ps r e = rw (retreat, down_zero, r, enter_last, e) refl

  -- What `enter_first` leaves is the parent's levels below the first element of a node.
  enter_first-levels :
      (qs rs : Levels)
      → enter_first load qs ≡ some (true, rs)
      → (d : Chunk) × (q : Chunk × ℕ) × (ps : Levels) × (qs ≡ q ∷ ps) × (rs ≡ (d, 0) ∷ q ∷ ps)
  unfolding enter_first
  enter_first-levels [] rs e = cc
  enter_first-levels (q ∷ ps) rs e = elim (Option-cases (child_at load q)) [
    | inl x ↦ absurd (not_none _ (rw (enter_first, x) at e))
    | inr (d, x) ↦
        let same : some (true, (d, 0) ∷ q ∷ ps) ≡ some (true, rs) = rw (enter_first, x) at e in
        (d, q, ps, refl, sym (moved_eq _ _ same))
  ]

  -- The step inside a node.
  undo_inside :
      (c : Chunk) (i : ℕ) (ps qs : Levels)
      → i + 1 < leaf_entries c
      → leaf_entries c < 2 ^ 31
      → advance load ((c, i) ∷ ps) ≡ some (true, qs)
      → retreat load qs ≡ some (true, (c, i) ∷ ps)
  undo_inside c i ps qs a b e =
      let same = moved_eq _ _ (sym (advance_inside load c i ps a b) ∙ e) in
      subst (λ l. retreat load l ≡ some (true, (c, i) ∷ ps)) same
        (retreat_inside c i ps (omega (arith, a, b)))

  -- The last entry of the root has no next one.
  root_end :
      (c : Chunk) (i : ℕ)
      → int_lt (up c i) (leaf_entries c % 2 ^ 32) ≡ false
      → advance load ((c, i) ∷ []) ≡ some (false, (c, up c i) ∷ [])
  unfolding advance
  root_end c i t = rw (advance, t) refl

  no_parent :
      (c : Chunk) (i : ℕ) (p : Chunk × ℕ) (ps : Levels)
      → int_lt (up c i) (leaf_entries c % 2 ^ 32) ≡ false
      → advance load (p ∷ ps) ≡ none
      → advance load ((c, i) ∷ p ∷ ps) ≡ none
  unfolding advance
  no_parent c i p ps t e = rw (advance, t, e) refl

  -- A step into the next node, given that of the parent.
  undo_across :
      (c : Chunk) (i : ℕ) (p : Chunk × ℕ) (ps qs rs : Levels)
      → i + 1 ≡ leaf_entries c
      → leaf_entries c < 2 ^ 31
      → child_at load p ≡ some c
      → enter_first load rs ≡ some (true, qs)
      → retreat load rs ≡ some (true, p ∷ ps)
      → retreat load qs ≡ some (true, (c, i) ∷ p ∷ ps)
  undo_across c i p ps qs rs l b k e r =
      let (d, q, ts, rs_are, qs_are) = enter_first-levels rs qs e in
      let before : retreat load (q ∷ ts) ≡ some (true, p ∷ ps) =
        ap (λ x. retreat load x) (sym rs_are) ∙ r in
      let n : (leaf_entries c + (2 ^ 64 - 1)) % 2 ^ 32 ≡ i = omega (arith, l, b) in
      ap (λ x. retreat load x) qs_are
      ∙ retreat_first c d i q p ts ps before k
      ∙ ap (λ x. some (true, (c, x) ∷ p ∷ ps)) n

  -- Where `Advance(true)` returns true, `Retreat(true)` then returns true and puts every level back
  -- to where it was, across the boundaries of nodes too.
  pub retreat-advance :
      {c : Chunk} {i : ℕ} {ps : Levels} (qs : Levels)
      → IsPath ((c, i) ∷ ps)
      → advance load ((c, i) ∷ ps) ≡ some (true, qs)
      → retreat load qs ≡ some (true, (c, i) ∷ ps)
  retreat-advance {c} {i} qs (root a b) e = elim (Bool-cases (ltb (i + 1) (leaf_entries c))) [
    | inl x ↦ undo_inside c i [] qs (ground (arith, x)) b e
    | inr x ↦
        let (l, t) = advance_last load c i (ground (arith, x, a)) b in
        absurd (not_false _ _ (sym (root_end c i t) ∙ e))
  ]
  retreat-advance {c} {i} qs (below {p = p} {ps} a b k path) e =
      elim (Bool-cases (ltb (i + 1) (leaf_entries c))) [
        | inl x ↦ undo_inside c i (p ∷ ps) qs (ground (arith, x)) b e
        | inr x ↦
            let (l, t) = advance_last load c i (ground (arith, x, a)) b in
            elim (Option-cases (advance load (p ∷ ps))) [
              | inl n ↦ absurd (not_none _ (sym (no_parent c i p ps t n) ∙ e))
              | inr ((true, rs), n) ↦
                  undo_across c i p ps qs rs (ground (arith, x, a)) b k
                    (sym (advance_parent load c i p ps true rs t n) ∙ e) (retreat-advance rs path n)
              | inr ((false, rs), n) ↦
                  absurd (not_false _ _ (sym (advance_parent load c i p ps false rs t n) ∙ e))
            ]
      ]
