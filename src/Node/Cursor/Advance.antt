-- ===== src/Node/Cursor/Advance.antt =====
-- `NodeCursor::Advance` (src/node/cursor.cc) in the order of the tree.
use mathlib.Core.Path.{subst}
use forkbase.Base.{
  ℕ, zero, suc, ◌+◌, ◌-◌, ◌%◌, ◌^◌, ◌≤◌, ◌<◌, ◌≡◌, refl, sym, ap, ◌∙◌, Bool, true, false, Option,
  none, some, [], ◌∷◌, ◌++◌, arith, ltb, length, if◌then◌else◌, Bool-cases, inl, inr,
}
use forkbase.Hash.{Hash}
use forkbase.Chunk.{Chunk}
use forkbase.Node.Cursor.{leaf_entries}
use forkbase.Node.Cursor.Move.{
  Levels, int_lt, up, down, retreat_here, child_at, enter_first, advance, positions, after,
  Children, no_child, child, Following, at_root, under, up_inside, up_test,
}

down_inside : (n : ℕ) → 0 < n → n < 2 ^ 31 → down n ≡ n - 1
unfolding down
down_inside n a b = ground (arith, a, b)

after-some : (c : Chunk) (i : ℕ) → i + 1 < leaf_entries c → after c i ≡ (c, i + 1) ∷ after c (i + 1)
after-some c i h =
    let e : leaf_entries c - (i + 1) ≡ suc (leaf_entries c - (i + 1 + 1)) = omega (arith, h) in
    rw e refl

after-none : (c : Chunk) (i : ℕ) → leaf_entries c ≤ i + 1 → after c i ≡ []
after-none c i h = let e : leaf_entries c - (i + 1) ≡ 0 = omega (arith, h) in rw e refl

positions-after :
    (c : Chunk) → 0 < leaf_entries c → positions (leaf_entries c) 0 c ≡ (c, 0) ∷ after c 0
positions-after c h =
    let e : leaf_entries c ≡ suc (leaf_entries c - (0 + 1)) = omega (arith, h) in
    subst (λ n. positions n 0 c ≡ (c, 0) ∷ after c 0) (sym e) refl

module _ (load : Hash → Option Chunk) where
  -- With nothing behind it, an index is the last of its node.
  Following-last :
      {c : Chunk} {i : ℕ} {ps fs : Levels}
      → Following load ((c, i) ∷ ps) fs
      → fs ≡ []
      → (i + 1 ≡ leaf_entries c) × (leaf_entries c < 2 ^ 31)
  Following-last {c} {i} (at_root a b) e = elim (Bool-cases (ltb (i + 1) (leaf_entries c))) [
    | inl x ↦
        let f = after-some c i (ground (arith, x)) in
        let bad : (c, i + 1) ∷ after c (i + 1) ≡ [] = sym f ∙ e in cc
    | inr x ↦ (ground (arith, x, a), b)
  ]
  Following-last {c} {i} (under {cs = cs} a b f g) e =
      elim (Bool-cases (ltb (i + 1) (leaf_entries c))) [
        | inl x ↦
            let f = after-some c i (ground (arith, x)) in
            let bad : (c, i + 1) ∷ (after c (i + 1) ++ cs) ≡ [] = ap (λ l. l ++ cs) (sym f) ∙ e in
            cc
        | inr x ↦ (ground (arith, x, a), b)
      ]

  -- What `Advance(true)` gives where this comes behind the cursor.
  pub data Advanced (c : Chunk) (ps : Levels) (r : Option (Bool × Levels)) : Levels → Type 0 where
    at_end : r ≡ some (false, (c, leaf_entries c) ∷ ps) → Advanced c ps r []
    moved :
        {d : Chunk} {j : ℕ} {qs rest : Levels}
        → r ≡ some (true, (d, j) ∷ qs)
        → Following load ((d, j) ∷ qs) rest
        → Advanced c ps r ((d, j) ∷ rest)

  pub advance_parent :
      (c : Chunk) (i : ℕ) (p : Chunk × ℕ) (ps : Levels) (b : Bool) (qs : Levels)
      → int_lt (up c i) (leaf_entries c % 2 ^ 32) ≡ false
      → advance load (p ∷ ps) ≡ some (b, qs)
      → advance load ((c, i) ∷ p ∷ ps)
        ≡ (if b then enter_first load qs else some (false, (c, up c i) ∷ retreat_here qs))
  unfolding advance
  advance_parent c i p ps true qs x e = rw (advance, x, e) refl
  advance_parent c i p ps false qs x e = rw (advance, x, e) refl

  pub advance_inside :
      (c : Chunk) (i : ℕ) (ps : Levels)
      → i + 1 < leaf_entries c
      → leaf_entries c < 2 ^ 31
      → advance load ((c, i) ∷ ps) ≡ some (true, (c, i + 1) ∷ ps)
  unfolding advance
  advance_inside c i [] a b =
      let e = up_inside c i (omega (arith, a)) b in
      let t : int_lt (up c i) (leaf_entries c % 2 ^ 32) ≡ true =
        up_test c i (omega (arith, a)) b ∙ ground (arith, a) in
      rw (advance, t, e) refl
  advance_inside c i (p ∷ ps) a b =
      let e = up_inside c i (omega (arith, a)) b in
      let t : int_lt (up c i) (leaf_entries c % 2 ^ 32) ≡ true =
        up_test c i (omega (arith, a)) b ∙ ground (arith, a) in
      rw (advance, t, e) refl

  pub advance_last :
      (c : Chunk) (i : ℕ)
      → i + 1 ≡ leaf_entries c
      → leaf_entries c < 2 ^ 31
      → (up c i ≡ leaf_entries c) × (int_lt (up c i) (leaf_entries c % 2 ^ 32) ≡ false)
  advance_last c i a b =
      (up_inside c i (omega (arith, a)) b ∙ a, up_test c i (omega (arith, a)) b ∙ ground (arith, a))

  enter_child :
      (p : Chunk × ℕ) (qs : Levels) (d : Chunk)
      → child_at load p ≡ some d
      → enter_first load (p ∷ qs) ≡ some (true, (d, 0) ∷ p ∷ qs)
  unfolding enter_first
  enter_child p qs d e = rw (enter_first, e) refl

  -- The last index of a node, by what the parent does.
  after_parent :
      (c : Chunk) (i : ℕ) (p : Chunk × ℕ) (ps : Levels) {fs cs : Levels}
      → i + 1 ≡ leaf_entries c
      → leaf_entries c < 2 ^ 31
      → Following load (p ∷ ps) fs
      → Children load fs cs
      → Advanced p.0 ps (advance load (p ∷ ps)) fs
      → Advanced c (p ∷ ps) (advance load ((c, i) ∷ p ∷ ps)) cs
  after_parent c i p ps a b f no_child (at_end r) =
      let (e, t) = advance_last c i a b in
      let (l, small) = Following-last f refl in
      let back : down (leaf_entries p.0) ≡ p.1 =
        down_inside (leaf_entries p.0) (omega (arith, l)) small ∙ omega (arith, l) in
      at_end (advance_parent c i p ps false ((p.0, leaf_entries p.0) ∷ ps) t r ∙ rw (e, back) refl)
  after_parent c i p ps a b f (child d at pos small g) (moved {qs = qs} r f') =
      let (e, t) = advance_last c i a b in
      rw (positions-after d pos)
        (moved (advance_parent c i p ps true _ t r ∙ enter_child _ qs d at) (under pos small f' g))

  -- `Advance(true)` leads to the first position behind the cursor, and what was behind that is behind
  -- the cursor then. If there is none, the cursor stands behind its last entry, with its parents
  -- where they were.
  pub advance-Advanced :
      {c : Chunk} {i : ℕ} {ps fs : Levels}
      → Following load ((c, i) ∷ ps) fs
      → Advanced c ps (advance load ((c, i) ∷ ps)) fs
  unfolding advance
  advance-Advanced {c} {i} (at_root a b) = elim (Bool-cases (ltb (i + 1) (leaf_entries c))) [
    | inl x ↦
        let lt : i + 1 < leaf_entries c = ground (arith, x) in
        rw (after-some c i lt) (moved (advance_inside c i [] lt b) (at_root lt b))
    | inr x ↦
        let (e, t) = advance_last c i (ground (arith, x, a)) b in
        rw (after-none c i (ground (arith, x))) (at_end (rw (advance, t, e) refl))
  ]
  advance-Advanced {c} {i} (under {p = p} {ps} {fs} {cs} a b f g) =
      elim (Bool-cases (ltb (i + 1) (leaf_entries c))) [
        | inl x ↦
            let lt : i + 1 < leaf_entries c = ground (arith, x) in
            rw (after-some c i lt) (moved (advance_inside c i (p ∷ ps) lt b) (under lt b f g))
        | inr x ↦
            rw (after-none c i (ground (arith, x)))
              (after_parent c i p ps (ground (arith, x, a)) b f g (advance-Advanced f))
      ]

-- A loop of `Advance(true)` until it returns false, with the position after each.
module _ (load : Hash → Option Chunk) where
  unfoldable pub advance_while : ℕ → Levels → Option Levels
  advance_while zero ls = none
  advance_while (suc n) ls = elim (advance load ls) [
    | none ↦ none
    | some (false, qs) ↦ some []
    | some (true, []) ↦ none
    | some (true, q ∷ qs) ↦ elim (advance_while n (q ∷ qs)) [ none ↦ none | some l ↦ some (q ∷ l) ]
  ]

  while_end :
      (n : ℕ) (ls qs : Levels)
      → advance load ls ≡ some (false, qs)
      → advance_while (suc n) ls ≡ some []
  unfolding advance_while
  while_end n ls qs e = rw (advance_while, e) refl

  while_moved :
      (n : ℕ) (ls : Levels) (q : Chunk × ℕ) (qs l : Levels)
      → advance load ls ≡ some (true, q ∷ qs)
      → advance_while n (q ∷ qs) ≡ some l
      → advance_while (suc n) ls ≡ some (q ∷ l)
  unfolding advance_while
  while_moved n ls q qs l e r = rw (advance_while, e, r) refl

  after_step :
      (n : ℕ) (c : Chunk) (i : ℕ) (ps : Levels) {fs : Levels}
      → Advanced load c ps (advance load ((c, i) ∷ ps)) fs
      → ((d : Chunk) (j : ℕ) (qs rest : Levels)
          → Following load ((d, j) ∷ qs) rest
          → suc (length rest) ≡ length fs
          → advance_while n ((d, j) ∷ qs) ≡ some rest)
      → advance_while (suc n) ((c, i) ∷ ps) ≡ some fs
  after_step n c i ps (at_end r) go = while_end n ((c, i) ∷ ps) _ r
  after_step n c i ps (moved {d} {j} {qs} {rest} r f) go =
      while_moved n ((c, i) ∷ ps) (d, j) qs rest r (go d j qs rest f refl)

  -- A loop of `Advance(true)` from a cursor on, with a round for each position behind it and one
  -- more, ends without a missing chunk. It visits exactly the positions that come behind the cursor
  -- in the order of the tree.
  pub advance_while-Following :
      (n : ℕ) {c : Chunk} {i : ℕ} {ps fs : Levels}
      → Following load ((c, i) ∷ ps) fs
      → length fs < n
      → advance_while n ((c, i) ∷ ps) ≡ some fs
  advance_while-Following zero f h = absurd (omega arith)
  advance_while-Following (suc n) {c} {i} {ps} {fs} f h =
      after_step n c i ps (advance-Advanced load f)
        (λ d j qs rest g len. advance_while-Following n g (omega (arith, h, len)))
