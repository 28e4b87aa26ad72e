-- ===== src/Tags.antt =====
-- runtime/include/tags.h and runtime/include/ml-values.h: tagged words and object descriptors, for
-- 64-bit words. A word is its bit pattern, below 2 ^ 64; a cast to `Word_t` is `% word_mod`.
pub mod Dtag
pub mod Laws
use smlnj.Prelude.{ℕ, ◌+◌, ◌-◌, ◌*◌, ◌/◌, ◌%◌, ◌^◌, bit_and, bit_or, Bool, ◌==◌, leb, if◌then◌else◌}
use smlnj.Tags.Dtag.{mixed}

abbrev pub word_mod : ℕ
word_mod = 2 ^ 64

-- the major tags
abbrev pub tag_boxed : ℕ
tag_boxed = 0

abbrev pub tag_desc : ℕ
tag_desc = 2

abbrev pub tag_unboxed_b0 : ℕ
tag_unboxed_b0 = 1

abbrev pub major_mask : ℕ
major_mask = 3

-- `MARK_PTR` and `UNMARK_PTR`; `~1` is the word with bit 0 clear
unfoldable pub mark_ptr : ℕ → ℕ
mark_ptr p = bit_or p 1

unfoldable pub unmark_ptr : ℕ → ℕ
unmark_ptr p = bit_and p (word_mod - 2)

-- `DTAG_MASK`
abbrev pub dtag_mask : ℕ
dtag_mask = (2 ^ 5 - 1) * 2 ^ 2

unfoldable pub make_tag : ℕ → ℕ
make_tag t = bit_or (t * 2 ^ 2) tag_desc

unfoldable pub make_desc : ℕ → ℕ → ℕ
unfolding make_tag
make_desc l t = bit_or (l * 2 ^ 7 % word_mod) (make_tag t)

unfoldable pub make_mixed_desc : ℕ → ℕ → ℕ
unfolding make_tag
make_mixed_desc ptr_len raw_len =
    bit_or (bit_or (ptr_len * 2 ^ 32 % word_mod) ((ptr_len + raw_len) * 2 ^ 7 % word_mod))
      (make_tag mixed)

-- `isBOXED`, `isUNBOXED`, `isDESC`
unfoldable pub is_boxed : ℕ → Bool
is_boxed w = bit_and w major_mask == tag_boxed

unfoldable pub is_unboxed : ℕ → Bool
is_unboxed w = bit_and w 1 == tag_unboxed_b0

unfoldable pub is_desc : ℕ → Bool
is_desc w = bit_and w major_mask == tag_desc

unfoldable pub get_len : ℕ → ℕ
get_len d = d / 2 ^ 7

unfoldable pub get_tag : ℕ → ℕ
get_tag d = bit_and d dtag_mask / 2 ^ 2

-- the fields of a mixed record's descriptor; the cast to `Unsigned32_t` drops the pointer length
unfoldable pub mixed_get_len : ℕ → ℕ
mixed_get_len d = d % 2 ^ 32 / 2 ^ 7

unfoldable pub mixed_get_ptr_len : ℕ → ℕ
mixed_get_ptr_len d = d / 2 ^ 32

-- `INT_CtoML`, on the bit pattern of an `Int_t`
unfoldable pub int_to_ml : ℕ → ℕ
int_to_ml n = (2 * n + 1) % word_mod

-- `INT_MLtoC`: `>> 1` of a signed word keeps the sign bit
unfoldable pub int_from_ml : ℕ → ℕ
int_from_ml w = w / 2 + (if leb (2 ^ 63) w then 2 ^ 63 else 0)

-- `ML_unit`
abbrev pub ml_unit : ℕ
ml_unit = 1
