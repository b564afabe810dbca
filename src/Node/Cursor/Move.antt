-- ===== src/Node/Cursor/Move.antt =====
-- `NodeCursor::Advance` and `Retreat` (src/node/cursor.cc): the levels of a cursor, its own node
-- first, each a node with an index as the bits of an `int32_t`. `none` is a missing chunk.
use forkbase.Base.{
  ℕ, zero, suc, ◌+◌, ◌-◌, ◌%◌, ◌^◌, ◌<◌, ◌≡◌, Bool, true, false, not, ◌||◌, Option, none, some,
  List, [], ◌∷◌, ◌++◌, arith, ltb, ◌==◌, if◌then◌else◌,
}
use forkbase.Hash.{Hash}
use forkbase.Chunk.{Chunk, data_of}
use forkbase.Node.Cursor.{leaf_entries}
use forkbase.Node.MetaNode.{data'}
use forkbase.Node.MetaEntry.{meta_target_hash}

abbrev pub Levels : Type 0
Levels = List (Chunk × ℕ)

-- `<` of two `int32_t`
abbrev pub int_lt : ℕ → ℕ → Bool
int_lt a b = ltb ((a + 2 ^ 31) % 2 ^ 32) ((b + 2 ^ 31) % 2 ^ 32)

-- The index after `++idx_` and `--idx_`, where they are reached.
unfoldable pub up : Chunk → ℕ → ℕ
up c i = if i == 2 ^ 32 - 1 || int_lt i (leaf_entries c % 2 ^ 32) then (i + 1) % 2 ^ 32 else i

unfoldable pub down : ℕ → ℕ
down i = if not (int_lt i 0) then (i + (2 ^ 32 - 1)) % 2 ^ 32 else i

-- `Advance(false)` and `Retreat(false)` of the first level
abbrev pub advance_here : Levels → Levels
advance_here [] = []
advance_here ((c, i) ∷ ps) = (c, up c i) ∷ ps

abbrev pub retreat_here : Levels → Levels
retreat_here [] = []
retreat_here ((c, i) ∷ ps) = (c, down i) ∷ ps

module _ (load : Hash → Option Chunk) where
  -- `Load` of the child that the entry under a meta cursor refers to.
  unfoldable pub child_at : Chunk × ℕ → Option Chunk
  child_at (c, i) = elim (data' (data_of c) i) [
    | none ↦ none
    | some me ↦ load (meta_target_hash me)
  ]

  -- The first element of the next node, once the parent stands on its entry.
  unfoldable pub enter_first : Levels → Option (Bool × Levels)
  enter_first [] = none
  enter_first (p ∷ ps) = elim (child_at p) [ none ↦ none | some d ↦ some (true, (d, 0) ∷ p ∷ ps) ]

  -- The last element of the node before.
  unfoldable pub enter_last : Levels → Option (Bool × Levels)
  enter_last [] = none
  enter_last (p ∷ ps) = elim (child_at p) [
    | none ↦ none
    | some d ↦ some (true, (d, (leaf_entries d + (2 ^ 64 - 1)) % 2 ^ 32) ∷ p ∷ ps)
  ]

  -- `Advance(true)`. Without a next node the parent steps back to its last entry.
  unfoldable pub advance : Levels → Option (Bool × Levels)
  advance [] = some (false, [])
  advance ((c, i) ∷ []) = some (int_lt (up c i) (leaf_entries c % 2 ^ 32), (c, up c i) ∷ [])
  advance ((c, i) ∷ p ∷ ps) =
      let parent = advance (p ∷ ps) in
      if int_lt (up c i) (leaf_entries c % 2 ^ 32)
      then some (true, (c, up c i) ∷ p ∷ ps)
      else elim parent [
        | none ↦ none
        | some (true, qs) ↦ enter_first qs
        | some (false, qs) ↦ some (false, (c, up c i) ∷ retreat_here qs)
      ]

  -- `Retreat(true)`
  unfoldable pub retreat : Levels → Option (Bool × Levels)
  retreat [] = some (false, [])
  retreat ((c, i) ∷ []) = some (not (int_lt (down i) 0), (c, down i) ∷ [])
  retreat ((c, i) ∷ p ∷ ps) =
      let parent = retreat (p ∷ ps) in
      if not (int_lt (down i) 0) then some (true, (c, down i) ∷ p ∷ ps) else elim parent [
        | none ↦ none
        | some (true, qs) ↦ enter_last qs
        | some (false, qs) ↦ some (false, (c, down i) ∷ advance_here qs)
      ]

-- The positions in a node from an index on.
abbrev pub positions : ℕ → ℕ → Chunk → Levels
positions zero i c = []
positions (suc n) i c = (c, i) ∷ positions n (i + 1) c

abbrev pub after : Chunk → ℕ → Levels
after c i = positions (leaf_entries c - (i + 1)) (i + 1) c

module _ (load : Hash → Option Chunk) where
  -- The positions in the children of these, none of them missing or empty.
  pub data Children : Levels → Levels → Type 0 where
    no_child : Children [] []
    child :
        {p : Chunk × ℕ} {fs cs : Levels} (d : Chunk)
        → child_at load p ≡ some d
        → 0 < leaf_entries d
        → leaf_entries d < 2 ^ 31
        → Children fs cs
        → Children (p ∷ fs) (positions (leaf_entries d) 0 d ++ cs)

  -- What comes behind a cursor on its level, in the order of the tree: the rest of its node, and
  -- then the children of what comes behind its parent.
  pub data Following : Levels → Levels → Type 0 where
    at_root :
        {c : Chunk} {i : ℕ}
        → i < leaf_entries c
        → leaf_entries c < 2 ^ 31
        → Following ((c, i) ∷ []) (after c i)
    under :
        {c : Chunk} {i : ℕ} {p : Chunk × ℕ} {ps fs cs : Levels}
        → i < leaf_entries c
        → leaf_entries c < 2 ^ 31
        → Following (p ∷ ps) fs
        → Children fs cs
        → Following ((c, i) ∷ p ∷ ps) (after c i ++ cs)

-- An index inside a node moves up by one.
pub up_inside : (c : Chunk) (i : ℕ) → i < leaf_entries c → leaf_entries c < 2 ^ 31 → up c i ≡ i + 1
unfolding up
up_inside c i a b = ground (arith, a, b)

pub up_test :
    (c : Chunk) (i : ℕ)
    → i < leaf_entries c
    → leaf_entries c < 2 ^ 31
    → int_lt (up c i) (leaf_entries c % 2 ^ 32) ≡ ltb (i + 1) (leaf_entries c)
up_test c i a b = rw (up_inside c i a b) (ground (arith, a, b))
