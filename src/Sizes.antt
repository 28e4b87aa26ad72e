-- ===== src/Sizes.antt =====
-- `ROUNDUP` and the page size of memory objects of runtime/include/ml-base.h, for 64-bit words.
pub mod Round
use smlnj.Prelude.{ℕ, ◌+◌, ◌-◌, ◌%◌, ◌^◌, bit_and}
use smlnj.Tags.{word_mod}

-- `ROUNDUP (i, n)` on an `Addr_t`, where `n` is 2 ^ k
unfoldable pub roundup : ℕ → ℕ → ℕ
roundup i k = bit_and ((i + (2 ^ k - 1)) % word_mod) (word_mod - 2 ^ k)

-- `RND_MEMOBJ_SZB`
unfoldable pub rnd_memobj_sz_b : ℕ → ℕ
unfolding roundup
rnd_memobj_sz_b sz = roundup sz 18
