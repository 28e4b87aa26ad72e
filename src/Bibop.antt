-- ===== src/Bibop.antt =====
-- runtime/include/bibop.h, `InitBibop` of runtime/gc/init-gc.c and `MarkRegion` of
-- runtime/gc/gc-util.c, for 64-bit words: the two-level map from memory pages to page identifiers.
-- An array is a function of its index.
pub mod Rows
pub mod Region
use smlnj.Prelude.{
  ℕ, zero, suc, ◌+◌, ◌-◌, ◌*◌, ◌/◌, ◌%◌, ◌^◌, bit_and, Option, none, some, ◌==◌, leb, ltb,
  if◌then◌else◌,
}
use smlnj.ArenaId.{aid_unmapped}

abbrev pub bibop_l2_bits : ℕ
bibop_l2_bits = 14

abbrev pub bibop_page_bits : ℕ
bibop_page_bits = 18

abbrev pub bibop_l2_sz : ℕ
bibop_l2_sz = 2 ^ 14

abbrev pub bibop_l1_sz : ℕ
bibop_l1_sz = 2 ^ 16

-- `BIBOP_ADDR_TO_INDEX`, and the macros that split a flat index
unfoldable pub addr_to_index : ℕ → ℕ
addr_to_index a = a / 2 ^ 18

unfoldable pub index_to_l1_index : ℕ → ℕ
index_to_l1_index ix = ix / 2 ^ 14

unfoldable pub index_to_l2_index : ℕ → ℕ
index_to_l2_index ix = bit_and ix (2 ^ 14 - 1)

unfoldable pub addr_to_l1_index : ℕ → ℕ
addr_to_l1_index a = a / 2 ^ 32

unfoldable pub addr_to_l2_index : ℕ → ℕ
unfolding addr_to_index
addr_to_l2_index a = bit_and (addr_to_index a) (2 ^ 14 - 1)

unfoldable pub index_to_addr : ℕ → ℕ
index_to_addr i = i * 2 ^ 18

-- `l2_bibop_t`
pub record L2 : Type 0 where
  pub tbl : ℕ → ℕ
  pub num_mapped : ℕ

-- The first level holds pointers: `none` is the pointer to the shared table `UnmappedL2`, whose
-- contents are the other field.
pub record Bibop : Type 0 where
  pub l1 : ℕ → Option L2
  pub unmapped_l2 : L2

unfoldable pub l2_at : Bibop → ℕ → L2
l2_at b i = elim (b.l1 i) [ none ↦ b.unmapped_l2 | some t ↦ t ]

-- `ADDR_TO_PAGEID`, `INDEX_TO_PAGEID`
unfoldable pub addr_to_pageid : Bibop → ℕ → ℕ
unfolding l2_at addr_to_l1_index addr_to_l2_index
addr_to_pageid b a = (l2_at b (addr_to_l1_index a)).tbl (addr_to_l2_index a)

unfoldable pub index_to_pageid : Bibop → ℕ → ℕ
unfolding l2_at index_to_l1_index index_to_l2_index
index_to_pageid b ix = (l2_at b (index_to_l1_index ix)).tbl (index_to_l2_index ix)

-- `for (jx = lo;  jx < lo + n;  jx++) tbl[jx] = v`
unfoldable pub fill : (ℕ → ℕ) → ℕ → ℕ → ℕ → ℕ → ℕ
fill f lo zero v = f
fill f lo (suc n) v = fill (λ j. if lo == j then v else f j) (lo + 1) n v

-- `InitBibop`; the arrays start with what `malloc` and the loader leave
unfoldable pub init_bibop : (ℕ → ℕ) → Bibop
init_bibop garbage = record {
  l1 = λ i. none;
  unmapped_l2 = record { tbl = fill garbage 0 bibop_l2_sz aid_unmapped; num_mapped = 0 };
}

-- arithmetic of `Unsigned32_t`
abbrev pub add32 : ℕ → ℕ → ℕ
add32 a b = (a + b) % 2 ^ 32

abbrev pub sub32 : ℕ → ℕ → ℕ
sub32 a b = (a + 2 ^ 32 - b % 2 ^ 32) % 2 ^ 32

-- the part of the row `ix` that lies in the region from `start` up to `end`, as the code computes it
unfoldable pub l2_start : ℕ → ℕ → ℕ
unfolding index_to_l1_index index_to_l2_index
l2_start start ix =
    if ltb (index_to_l1_index start % 2 ^ 32) ix then 0 else index_to_l2_index start % 2 ^ 32

unfoldable pub l2_end : ℕ → ℕ → ℕ
unfolding index_to_l1_index index_to_l2_index
l2_end end ix =
    if ltb ix (index_to_l1_index end % 2 ^ 32) then bibop_l2_sz else index_to_l2_index end % 2 ^ 32

-- One round of the outer loop of `MarkRegion` for the first-level index `ix`, where the region has
-- the flat indices from `start` up to `end`. `garbage` is what a new table holds.
module _ (garbage : ℕ → ℕ) (start end aid : ℕ) where
  -- what the branches write into a table: the columns from `lo` up to `hi`
  unfoldable pub unmap_table : ℕ → ℕ → L2 → L2
  unmap_table lo hi t = record t {
    tbl = fill t.tbl lo (hi - lo) aid;
    num_mapped = sub32 t.num_mapped (sub32 hi lo);
  }

  unfoldable pub map_table : ℕ → ℕ → L2 → L2
  map_table lo hi t = record t {
    tbl = fill t.tbl lo (hi - lo) aid;
    num_mapped = add32 t.num_mapped (sub32 hi lo);
  }

  unfoldable pub new_table : ℕ → ℕ → L2
  new_table lo hi =
      let clear = fill (fill garbage 0 lo aid_unmapped) hi (bibop_l2_sz - hi) aid_unmapped in
      record { tbl = fill clear lo (hi - lo) aid; num_mapped = sub32 hi lo }

  -- the branch for `AID_UNMAPPED`, which writes through the pointer, the shared table too
  unfoldable pub unmap_row : Bibop → ℕ → Bibop
  unfolding unmap_table
  unmap_row b ix = elim (b.l1 ix) [
    | none ↦ record b {
      unmapped_l2 = unmap_table (l2_start start ix) (l2_end end ix) b.unmapped_l2;
    }
    | some t ↦ record b {
      l1 =
          λ i. if i == ix then some (unmap_table (l2_start start ix) (l2_end end ix) t) else b.l1 i;
    }
  ]

  -- the branch for any other identifier, which replaces the shared table by a new one
  unfoldable pub map_row : Bibop → ℕ → Bibop
  unfolding map_table new_table
  map_row b ix =
      let t' : L2 = elim (b.l1 ix) [
        | none ↦ new_table (l2_start start ix) (l2_end end ix)
        | some t ↦ map_table (l2_start start ix) (l2_end end ix) t
      ] in
      record b { l1 = λ i. if i == ix then some t' else b.l1 i }

  unfoldable pub mark_rows : ℕ → ℕ → Bibop → Bibop
  unfolding unmap_row map_row
  mark_rows zero ix b = b
  mark_rows (suc n) ix b =
      mark_rows n (ix + 1) (if aid == aid_unmapped then unmap_row b ix else map_row b ix)

-- `MarkRegion`
unfoldable pub mark_region : (ℕ → ℕ) → Bibop → ℕ → ℕ → ℕ → Bibop
unfolding mark_rows addr_to_index index_to_l1_index
mark_region garbage b base_addr sz_b aid =
    let start = addr_to_index base_addr in
    let end = start + addr_to_index sz_b in
    let top_start = index_to_l1_index start % 2 ^ 32 in
    let top_end = index_to_l1_index end % 2 ^ 32 in
    mark_rows garbage start end aid (top_end + 1 - top_start) top_start b
