-- ===== src/Tags/Dtag.antt =====
-- The descriptor tags of runtime/include/tags.h.
use smlnj.Prelude.{ℕ}

abbrev pub record' : ℕ
record' = 0

abbrev pub vec_hdr : ℕ
vec_hdr = 1

abbrev pub arr_hdr : ℕ
arr_hdr = 2

abbrev pub arr_data : ℕ
arr_data = 3

abbrev pub raw : ℕ
raw = 4

abbrev pub mixed : ℕ
mixed = 5

abbrev pub special : ℕ
special = 6

abbrev pub extern : ℕ
extern = 0x10

abbrev pub forward : ℕ
forward = 0x1f
