-- ===== src/Heap.antt =====
-- runtime/gc/heap.h: generations and their arenas. The null pointer is 0; an object at an address
-- is its number. What serves the big objects and the statistics is left out.
use smlnj.Prelude.{ℕ, ◌+◌, ◌-◌, ◌%◌, Bool, Option, List, ltb}
use smlnj.Tags.{word_mod}
use smlnj.Memory.{MemObj}
use smlnj.CardMap.{CardMap}

-- arithmetic of `Addr_t`
abbrev pub add64 : ℕ → ℕ → ℕ
add64 a b = (a + b) % word_mod

abbrev pub sub64 : ℕ → ℕ → ℕ
sub64 a b = (a + word_mod - b % word_mod) % word_mod

-- `struct arena`
pub record Arena : Type 0 where
  pub id : ℕ
  pub nextw : ℕ
  pub tosp_base : ℕ
  pub tosp_size_b : ℕ
  pub tosp_top : ℕ
  pub sweep_nextw : ℕ
  pub repair_list : ℕ
  pub frsp_base : ℕ
  pub frsp_size_b : ℕ
  pub frsp_top : ℕ
  pub old_top : ℕ
  pub next_gen : ℕ
  pub needs_repair : Bool
  pub req_size_b : ℕ
  pub max_size_b : ℕ

-- `struct generation`
pub record Gen : Type 0 where
  pub gen_num : ℕ
  pub num_gcs : ℕ
  pub last_prev_gc : ℕ
  pub ratio : ℕ
  pub arenas : List Arena
  pub to_obj : Option MemObj
  pub from_obj : Option MemObj
  pub cache_obj : Option MemObj
  pub dirty : Option CardMap

-- `struct heap`
pub record Heap : Type 0 where
  pub alloc_base : ℕ
  pub alloc_sz_b : ℕ
  pub cache_gen : ℕ
  pub num_minor_gcs : ℕ
  pub gens : List Gen

-- `FLIP_ARENA`
unfoldable pub flip_arena : Arena → Arena
flip_arena ap = record ap {
  frsp_base = ap.tosp_base;
  frsp_size_b = ap.tosp_size_b;
  frsp_top = ap.nextw;
}

-- `isACTIVE`, `NEEDS_SWEEPING`, `AVAIL_SPACE`, `USED_SPACE`, `isOLDER`
abbrev pub is_active : Arena → Bool
is_active ap = ltb 0 ap.tosp_size_b

unfoldable pub needs_sweeping : Arena → Bool
needs_sweeping ap = ltb ap.sweep_nextw ap.nextw

unfoldable pub arena_avail : Arena → ℕ
arena_avail ap = sub64 ap.tosp_top ap.nextw

unfoldable pub used_space : Arena → ℕ
used_space ap = sub64 ap.nextw ap.tosp_base

unfoldable pub is_older : Arena → ℕ → Bool
is_older ap addr = ltb addr ap.old_top
