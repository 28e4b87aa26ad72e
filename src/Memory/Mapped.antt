-- ===== src/Memory/Mapped.antt =====
-- Which addresses the recorded calls leave mapped.
use smlnj.Prelude.{
  ℕ, ◌+◌, ◌^◌, ◌≤◌, ◌≡◌, Bool, true, false, Option, some, List, [], ◌∷◌, ◌&&◌, leb, ltb,
  if◌then◌else◌,
}
use smlnj.Memory.{Call, mapping, unmapping}

-- the address is one of the `len` from `base` on
abbrev pub covers : ℕ → ℕ → ℕ → Bool
covers base len a = leb base a && ltb a (base + len)

abbrev pub is_mapped : List Call → ℕ → Bool
is_mapped [] a = false
is_mapped (mapping base len ∷ cs) a = if covers base len a then true else is_mapped cs a
is_mapped (unmapping base len ∷ cs) a = if covers base len a then false else is_mapped cs a

-- what the manuals say of `mmap` on 64-bit Linux: a region that it gives lies in the user's part of
-- the address space, below 2 ^ 47, and was not mapped
abbrev pub GivesFresh : (List Call → ℕ → Option ℕ) → Type 0
GivesFresh mmap =
    (cs : List Call) (len addr : ℕ)
    → mmap cs len ≡ some addr
    → (addr + len ≤ 2 ^ 47) × ((a : ℕ) → covers addr len a ≡ true → is_mapped cs a ≡ false)
