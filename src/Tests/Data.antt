-- ===== src/Tests/Data.antt =====
-- Inputs of the examples.
use forkbase.Base.{◌∷◌, [], ◌≡◌, refl, Bytes, none, replicate}
use forkbase.Dict
use forkbase.Slice.{Slice}
use forkbase.Head.{empty_head, find_branch}
use forkbase.Head.WellFormed.{IsWellFormed, Reachable-IsWellFormed, start}
use forkbase.Store.Memory.{memory_env}
use forkbase.Worker.{Worker}
use forkbase.Worker.Sound.{IsSound}

abbrev pub hi : Slice
hi = 104 ∷ 105 ∷ []

abbrev pub note : Slice
note = 99 ∷ []

abbrev pub doc : Slice
doc = 107 ∷ []

abbrev pub master : Slice
master = 109 ∷ []

abbrev pub dev : Slice
dev = 100 ∷ []

-- A digest.
abbrev pub ones : Bytes
ones = replicate 20 1

abbrev pub twos : Bytes
twos = replicate 20 2

abbrev pub nothing : Worker memory_env
nothing = record { head = empty_head; store = [] }

no_branch : (key branch : Slice) → find_branch empty_head key branch ≡ none
unfolding find_branch Dict.lookup
no_branch key branch = refl

pub nothing-IsSound : IsSound nothing
nothing-IsSound = record { stored = λ key branch ver h. (let f = no_branch key branch in cc) }

pub nothing-IsWellFormed : IsWellFormed empty_head
nothing-IsWellFormed = Reachable-IsWellFormed start
