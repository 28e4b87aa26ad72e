-- ===== src/Sizes/Round.antt =====
-- `ROUNDUP` as the least multiple.
use smlnj.Prelude.{ℕ, ◌+◌, ◌*◌, ◌/◌, ◌%◌, ◌^◌, ◌≤◌, ◌<◌, ◌≡◌, arith}
use smlnj.Prelude.Bits.{bit_and-field}
use smlnj.Tags.{word_mod}
use smlnj.Sizes.{roundup, rnd_memobj_sz_b}

-- a multiple of 2 ^ k, not below the number and by less than 2 ^ k above it
abbrev pub RoundedUp : ℕ → ℕ → ℕ → Type 0
RoundedUp i unit r = (q : ℕ) × (r ≡ q * unit) × (i ≤ r) × (r < i + unit)

pub roundup-8 : (i : ℕ) → i + 8 ≤ word_mod → RoundedUp i 8 (roundup i 3)
unfolding roundup
roundup-8 i h =
    let field = bit_and-field 3 61 (i + 7) in
    let whole' : (i + 7) % word_mod ≡ i + 7 = omega arith in
    (
      (i + 7) / 8,
      rw (whole', field) (omega arith),
      rw (whole', field) (omega arith),
      rw (whole', field) (omega arith),
    )

pub rnd_memobj_sz_b-RoundedUp :
    (i : ℕ) → i + 2 ^ 18 ≤ word_mod → RoundedUp i (2 ^ 18) (rnd_memobj_sz_b i)
unfolding rnd_memobj_sz_b
rnd_memobj_sz_b-RoundedUp i h =
    let field = bit_and-field 18 46 (i + 262143) in
    let whole' : (i + 262143) % word_mod ≡ i + 262143 = omega arith in
    (
      (i + 262143) / 2 ^ 18,
      rw (whole', field) (omega arith),
      rw (whole', field) (omega arith),
      rw (whole', field) (omega arith),
    )
