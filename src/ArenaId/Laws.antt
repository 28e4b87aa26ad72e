-- ===== src/ArenaId/Laws.antt =====
-- The fields of arena identifiers and the tests on them (arena-id.h).
use smlnj.Prelude.{ℕ, ◌+◌, ◌*◌, ◌/◌, ◌^◌, ◌<◌, ◌≤◌, ◌≡◌, ◌↔◌, true, false, arith}
use smlnj.Prelude.Bits.{bit_or-shifted, bit_and-mask}
use smlnj.ArenaId.{
  make_aid, make_max_aid, extract_hblk, extract_objc, extract_gen, is_from_space, aid_unmapped,
  max_num_gens, aid_bigobj, aid_bigobj_hdr, bo_is_hdr, is_bigobj_aid,
}

pub make_aid-eq : (g o b : ℕ) → g < 16 → o < 16 → b < 256 → make_aid g o b ≡ g * 4096 + o * 256 + b
unfolding make_aid
make_aid-eq g o b hg ho hb =
    let classes = bit_or-shifted 12 g (o * 2 ^ 8) (omega arith) in
    let shape : g * 2 ^ 12 + o * 2 ^ 8 ≡ (g * 16 + o) * 2 ^ 8 = omega arith in
    let all = bit_or-shifted 8 (g * 16 + o) b (omega arith) in
    rw (classes, shape, all) (omega arith)

-- The three fields of an identifier are the generation, class and block that it was made of, for
-- values that fit their 4, 4 and 8 bits.
pub make_aid-fields :
    (g o b : ℕ)
    → g < 16
    → o < 16
    → b < 256
    → (extract_gen (make_aid g o b) ≡ g)
      × (extract_objc (make_aid g o b) ≡ o)
      × (extract_hblk (make_aid g o b) ≡ b)
unfolding extract_gen extract_objc extract_hblk
make_aid-fields g o b hg ho hb =
    let e = make_aid-eq g o b hg ho hb in
    let c = bit_and-mask 4 (make_aid g o b / 2 ^ 8) in
    let l = bit_and-mask 8 (make_aid g o b) in (omega arith, omega arith, omega arith)

-- A page is from-space for a collection of the generations up to `m` exactly when its generation
-- is at most `m`; an unmapped page never is.
pub from_space_iff :
    (g o b m : ℕ)
    → g < 16
    → o < 16
    → b < 256
    → m ≤ max_num_gens
    → ((is_from_space (make_aid g o b) (make_max_aid m) ≡ true) ↔ (g ≤ m))
      × (is_from_space aid_unmapped (make_max_aid m) ≡ false)
unfolding is_from_space make_max_aid
from_space_iff g o b m hg ho hb hm =
    let e = make_aid-eq g o b hg ho hb in
    let top = make_aid-eq m 15 255 (omega arith) (omega arith) (omega arith) in
    (ground arith, ground arith)

-- The two identifiers of big-object pages carry the generation, are told apart by the header test
-- and are both recognised as big objects.
pub bigobj_aids :
    (g : ℕ)
    → g < 16
    → ((is_bigobj_aid (aid_bigobj g) ≡ true) × (is_bigobj_aid (aid_bigobj_hdr g) ≡ true))
      × ((bo_is_hdr (aid_bigobj g) ≡ false) × (bo_is_hdr (aid_bigobj_hdr g) ≡ true))
      × ((extract_gen (aid_bigobj g) ≡ g) × (extract_gen (aid_bigobj_hdr g) ≡ g))
unfolding is_bigobj_aid bo_is_hdr aid_bigobj aid_bigobj_hdr extract_objc extract_hblk
bigobj_aids g h =
    let page = make_aid-fields g 8 0 h (omega arith) (omega arith) in
    let head = make_aid-fields g 8 1 h (omega arith) (omega arith) in
    ((ground arith, ground arith), (ground arith, ground arith), (page.0, head.0))
