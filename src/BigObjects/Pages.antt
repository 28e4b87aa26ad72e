-- ===== src/BigObjects/Pages.antt =====
-- Sizes and addresses in big-object pages.
use smlnj.Prelude.{ℕ, ◌+◌, ◌*◌, ◌/◌, ◌%◌, ◌^◌, ◌<◌, ◌≤◌, ◌≡◌, refl, ◌∙◌, arith}
use smlnj.Prelude.Bits.{bit_and-field}
use smlnj.Tags.{word_mod}
use smlnj.Sizes.{roundup}
use smlnj.Sizes.Round.{RoundedUp}
use smlnj.BigObjects.{Region, Desc, addr_to_bopage, bo_num_bopages, bo_rounded_sz_b}

pub roundup-pages : (szb : ℕ) → roundup szb 10 ≡ (szb + 1023) % word_mod / 2 ^ 10 * 2 ^ 10
unfolding roundup
roundup-pages szb = bit_and-field 10 54 ((szb + 1023) % word_mod) ∙ omega arith

-- the pages that a size takes
pub pages-RoundedUp : (szb : ℕ) → szb + 2 ^ 10 ≤ word_mod → RoundedUp szb (2 ^ 10) (roundup szb 10)
pages-RoundedUp szb h =
    let e = roundup-pages szb in
    ((szb + 1023) % word_mod / 2 ^ 10, e, omega (arith, e), omega (arith, e))

pub num_bopages-exact :
    (d : Desc) (k : ℕ) → d.size_b ≡ k * 2 ^ 10 → k < 2 ^ 30 → bo_num_bopages d ≡ k
unfolding bo_num_bopages bo_rounded_sz_b
num_bopages-exact d k e small = omega (arith, e, roundup-pages d.size_b)

pub bopage-exact :
    (r : Region) (addr s : ℕ)
    → addr ≡ r.first_page + s * 2 ^ 10
    → s < 2 ^ 30
    → r.first_page ≤ 2 ^ 47
    → addr_to_bopage r addr ≡ s
unfolding addr_to_bopage
bopage-exact r addr s e small low = omega (arith, e)

pub num_bopages-eq : (d : Desc) → bo_num_bopages d ≡ roundup d.size_b 10 / 2 ^ 10
unfolding bo_num_bopages bo_rounded_sz_b
num_bopages-eq d = refl
