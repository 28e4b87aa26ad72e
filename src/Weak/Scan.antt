-- ===== src/Weak/Scan.antt =====
-- The loop of `ScanWeakPtrs` over a list of weak pointers.
use smlnj.Prelude.{ℕ, ◌+◌, ◌-◌, ◌≡◌, ◌≢◌, Bool, false, List, [], ◌∷◌, ◌==◌, ◌||◌}
use smlnj.Tags.{unmark_ptr, ml_unit}
use smlnj.Bibop.{Bibop}
use smlnj.MlState.{Mem}
use smlnj.Weak.{Referent, moved, dead, no_case, big, desc_weak, desc_null_weak, look}

-- the word is one of the weak pointers' two
abbrev pub cell : List ℕ → ℕ → Bool
cell [] a = false
cell (x ∷ ps) a = (x == a) || (x + 8 == a) || cell ps a

abbrev pub referent : Mem → ℕ → ℕ
referent mem x = unmark_ptr (mem (x + 8))

-- the list from `p` on: the weak pointers do not overlap, no referent's header or first word is one
-- of their words, and none is a big object
abbrev pub Pending : Bibop → Mem → ℕ → List ℕ → Type 0
Pending b mem p [] = p ≡ 0
Pending b mem p (x ∷ ps) =
    (p ≡ x)
    × (x ≢ 0)
    × (cell ps x ≡ false)
    × (cell ps (x + 8) ≡ false)
    × (look b mem (referent mem x) ≢ big)
    × Pending b mem (unmark_ptr (mem x)) ps

-- no referent of the list is at the words
abbrev pub Clear : Mem → List ℕ → (ℕ → Bool) → Type 0
Clear mem [] hit = Unit
Clear mem (x ∷ ps) hit =
    (hit (referent mem x) ≡ false) × (hit (referent mem x - 8) ≡ false) × Clear mem ps hit

-- the words of a weak pointer for what has become of its referent: the new address, or unit under
-- the descriptor of a nulled one; where the switch has no case they are the old words
abbrev pub HasWords : Mem → Mem → ℕ → Referent → Type 0
HasWords mem mem' x (moved q) = (mem' x ≡ desc_weak) × (mem' (x + 8) ≡ q)
HasWords mem mem' x dead = (mem' x ≡ desc_null_weak) × (mem' (x + 8) ≡ ml_unit)
HasWords mem mem' x no_case = (mem' x ≡ mem x) × (mem' (x + 8) ≡ mem (x + 8))
HasWords mem mem' x big = ⊥

-- each weak pointer has the words for what has become of its referent in the memory `mem`
abbrev pub Settled : Bibop → Mem → Mem → List ℕ → Type 0
Settled b mem mem' [] = Unit
Settled b mem mem' (x ∷ ps) =
    HasWords mem mem' x (look b mem (referent mem x)) × Settled b mem mem' ps

-- the memories agree off the words of `x`
abbrev OffCell : ℕ → Mem → Mem → Type 0
OffCell x mem mem' = (a : ℕ) → (x == a) || (x + 8 == a) ≡ false → mem' a ≡ mem a

-- the memories agree on the weak pointers and on what has become of their referents
abbrev Agree : Bibop → Mem → Mem → List ℕ → Type 0
Agree b mem mem' [] = Unit
Agree b mem mem' (y ∷ ps) =
    (mem' y ≡ mem y)
    × (mem' (y + 8) ≡ mem (y + 8))
    × (look b mem' (referent mem' y) ≡ look b mem (referent mem y))
    × Agree b mem mem' ps

abbrev at_cell : ℕ → ℕ → Bool
at_cell x a = (x == a) || (x + 8 == a)
