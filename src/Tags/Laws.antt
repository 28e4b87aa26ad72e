-- ===== src/Tags/Laws.antt =====
-- The fields of descriptors, pointer marks, and tagged integers (tags.h, ml-values.h).
use smlnj.Prelude.{
  ℕ, ◌+◌, ◌-◌, ◌*◌, ◌/◌, ◌%◌, ◌^◌, ◌<◌, ◌≤◌, bit_and, bit_or, ◌≡◌, ◌⊎◌, true, false, arith, ap, ◌∙◌,
}
use smlnj.Prelude.Bits.{bit_or-shifted, bit_and-mask, bit_and-field}
use smlnj.Tags.{
  word_mod, mark_ptr, unmark_ptr, make_tag, make_desc, make_mixed_desc, is_boxed, is_unboxed,
  is_desc, get_len, get_tag, mixed_get_len, mixed_get_ptr_len, int_to_ml, int_from_ml, major_mask,
}
use smlnj.Tags.Dtag.{mixed}

-- what the masks read
pub major_bits : (w : ℕ) → bit_and w major_mask ≡ w % 4
major_bits w = bit_and-mask 2 w

pub low_bit : (w : ℕ) → bit_and w 1 ≡ w % 2
low_bit w = bit_and-mask 1 w

pub get_tag-eq : (d : ℕ) → get_tag d ≡ d / 4 % 32
unfolding get_tag
get_tag-eq d = omega (arith, bit_and-field 2 5 d)

pub make_tag-eq : (t : ℕ) → make_tag t ≡ t * 4 + 2
unfolding make_tag
make_tag-eq t = bit_or-shifted 2 t 2 (omega arith)

pub make_desc-eq : (l t : ℕ) → l < 2 ^ 57 → t < 32 → make_desc l t ≡ l * 128 + (t * 4 + 2)
unfolding make_desc
make_desc-eq l t hl ht =
    let fits : l * 2 ^ 7 % word_mod ≡ l * 2 ^ 7 = omega arith in
    let tag = make_tag-eq t in
    let low : bit_or (t * 2 ^ 2) 2 < 2 ^ 7 = omega arith in
    rw fits (omega (arith, bit_or-shifted 7 l _ low))

-- A descriptor gives back its length and its tag, and reads as a descriptor, for every length
-- below 2 ^ 57 and every five-bit tag.
pub make_desc-fields :
    (l t : ℕ)
    → l < 2 ^ 57
    → t < 32
    → (get_len (make_desc l t) ≡ l)
      × (get_tag (make_desc l t) ≡ t)
      × (is_desc (make_desc l t) ≡ true)
      × (make_desc l t < word_mod)
unfolding get_len is_desc
make_desc-fields l t hl ht =
    let e = make_desc-eq l t hl ht in
    let g = get_tag-eq (make_desc l t) in
    let m = major_bits (make_desc l t) in (omega arith, omega arith, ground arith, omega arith)

pub make_mixed_desc-eq :
    (p r : ℕ) → p + r < 2 ^ 25 → make_mixed_desc p r ≡ p * 2 ^ 32 + (p + r) * 128 + 22
unfolding make_mixed_desc
make_mixed_desc-eq p r h =
    let left : p * 2 ^ 32 % word_mod ≡ p * 2 ^ 32 = omega arith in
    let right : (p + r) * 2 ^ 7 % word_mod ≡ (p + r) * 2 ^ 7 = omega arith in
    let lens = bit_or-shifted 32 p ((p + r) * 2 ^ 7) (omega arith) in
    let split : p * 2 ^ 32 + (p + r) * 2 ^ 7 ≡ (p * 2 ^ 25 + (p + r)) * 2 ^ 7 = omega arith in
    let tag = make_tag-eq mixed in
    let all = bit_or-shifted 7 (p * 2 ^ 25 + (p + r)) (bit_or (mixed * 2 ^ 2) 2) (omega arith) in
    rw (left, right, lens, split, all) (omega arith)

-- A mixed record's descriptor gives back the total length, the pointer length and the tag, when
-- the total length is below 2 ^ 25.
pub make_mixed_desc-fields :
    (p r : ℕ)
    → p + r < 2 ^ 25
    → (mixed_get_len (make_mixed_desc p r) ≡ p + r)
      × (mixed_get_ptr_len (make_mixed_desc p r) ≡ p)
      × (get_tag (make_mixed_desc p r) ≡ mixed)
      × (is_desc (make_mixed_desc p r) ≡ true)
unfolding mixed_get_len mixed_get_ptr_len is_desc
make_mixed_desc-fields p r h =
    let e = make_mixed_desc-eq p r h in
    let g = get_tag-eq (make_mixed_desc p r) in
    let m = major_bits (make_mixed_desc p r) in
    (omega arith, omega arith, omega arith, ground arith)

-- Every word is exactly one of boxed, unboxed and descriptor.
pub word_class :
    (w : ℕ)
    → ((is_boxed w ≡ true) × (is_unboxed w ≡ false) × (is_desc w ≡ false))
      ⊎ (((is_boxed w ≡ false) × (is_unboxed w ≡ true) × (is_desc w ≡ false))
          ⊎ ((is_boxed w ≡ false) × (is_unboxed w ≡ false) × (is_desc w ≡ true)))
unfolding is_boxed is_unboxed is_desc
word_class w = ground (arith, major_bits w, low_bit w)

-- Marking a boxed word makes it look unboxed, and unmarking gives the pointer back.
pub unmark-mark :
    (p : ℕ)
    → p < word_mod
    → is_boxed p ≡ true
    → (is_unboxed (mark_ptr p) ≡ true) × (unmark_ptr (mark_ptr p) ≡ p)
unfolding is_boxed is_unboxed mark_ptr unmark_ptr
unmark-mark p h b =
    let even : p % 4 ≡ 0 = ground (arith, major_bits p) in
    let shape : p ≡ p / 2 * 2 ^ 1 = omega arith in
    let marked : bit_or p 1 ≡ p + 1 =
      ap (λ (x : ℕ). bit_or x 1) shape ∙ bit_or-shifted 1 (p / 2) 1 (omega arith) ∙ omega arith in
    let low = low_bit (bit_or p 1) in
    let clear = bit_and-field 1 63 (bit_or p 1) in (ground arith, omega arith)

-- `INT_MLtoC` undoes `INT_CtoML` on the integers of 63 bits, and a tagged integer is unboxed.
pub int_from_ml-int_to_ml :
    (n : ℕ)
    → n < word_mod
    → (n < 2 ^ 62) ⊎ (word_mod - 2 ^ 62 ≤ n)
    → (int_from_ml (int_to_ml n) ≡ n) × (is_unboxed (int_to_ml n) ≡ true)
unfolding int_from_ml int_to_ml is_unboxed
int_from_ml-int_to_ml n h range =
    let low = low_bit ((2 * n + 1) % word_mod) in (ground arith, ground arith)
