-- ===== src/ArenaId.antt =====
-- runtime/gc/arena-id.h: the 16-bit identifier of a heap page, made of a generation, an object
-- class and a heap-block number.
pub mod Laws
use smlnj.Prelude.{ℕ, ◌+◌, ◌-◌, ◌*◌, ◌/◌, ◌%◌, ◌^◌, bit_and, bit_or, Bool, ◌==◌, leb}

-- the arena and object-class numbers
abbrev pub record_indx : ℕ
record_indx = 0

abbrev pub pair_indx : ℕ
pair_indx = 1

abbrev pub mixed_indx : ℕ
mixed_indx = 2

abbrev pub string_indx : ℕ
string_indx = 3

abbrev pub array_indx : ℕ
array_indx = 4

abbrev pub code_indx : ℕ
code_indx = 0

abbrev pub hblk_bigobj : ℕ
hblk_bigobj = 0

abbrev pub hblk_bigobjhdr : ℕ
hblk_bigobjhdr = 1

-- `MAKE_OBJC`, `MAKE_BIGOBJC`
abbrev pub make_objc : ℕ → ℕ
make_objc indx = indx + 1

unfoldable pub make_bigobjc : ℕ → ℕ
make_bigobjc indx = bit_or 8 (indx * 2)

abbrev pub objc_new : ℕ
objc_new = 0

abbrev pub objc_bigobj : ℕ
objc_bigobj = make_bigobjc code_indx

abbrev pub objc_max : ℕ
objc_max = 0xf

abbrev pub max_hblk : ℕ
max_hblk = 0xff

abbrev pub max_num_gens : ℕ
max_num_gens = 2 ^ 4 - 2

unfoldable pub make_aid : ℕ → ℕ → ℕ → ℕ
make_aid gen objc blk = bit_or (bit_or (gen * 2 ^ 12) (objc * 2 ^ 8)) blk % 2 ^ 16

unfoldable pub make_max_aid : ℕ → ℕ
unfolding make_aid
make_max_aid gen = make_aid gen objc_max max_hblk

unfoldable pub extract_hblk : ℕ → ℕ
extract_hblk aid = bit_and aid (2 ^ 8 - 1)

unfoldable pub extract_objc : ℕ → ℕ
extract_objc aid = bit_and (aid / 2 ^ 8) (2 ^ 4 - 1)

unfoldable pub extract_gen : ℕ → ℕ
extract_gen aid = aid / 2 ^ 12

unfoldable pub is_from_space : ℕ → ℕ → Bool
is_from_space aid max_aid = leb aid max_aid

abbrev pub aid_unmapped : ℕ
aid_unmapped = 0xffff

unfoldable pub aid_new : ℕ
unfolding make_aid
aid_new = make_aid 0 objc_new 0

-- `AID_BIGOBJ`, `AID_BIGOBJ_HDR`
unfoldable pub aid_bigobj : ℕ → ℕ
unfolding make_aid make_bigobjc
aid_bigobj gen = make_aid gen (make_bigobjc code_indx) hblk_bigobj

unfoldable pub aid_bigobj_hdr : ℕ → ℕ
unfolding make_aid make_bigobjc
aid_bigobj_hdr gen = make_aid gen (make_bigobjc code_indx) hblk_bigobjhdr

-- `BO_IS_HDR`, `IS_BIGOBJ_AID`
unfoldable pub bo_is_hdr : ℕ → Bool
unfolding extract_hblk
bo_is_hdr aid = extract_hblk aid == hblk_bigobjhdr

unfoldable pub is_bigobj_aid : ℕ → Bool
unfolding extract_objc make_bigobjc
is_bigobj_aid aid = extract_objc aid == make_bigobjc code_indx
