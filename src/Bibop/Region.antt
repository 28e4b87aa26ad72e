-- ===== src/Bibop/Region.antt =====
-- `MarkRegion` of gc-util.c: the pages of a region.
use smlnj.Prelude.{
  ℕ, zero, suc, ◌+◌, ◌-◌, ◌*◌, ◌/◌, ◌%◌, ◌^◌, ◌<◌, ◌≤◌, ◌≡◌, Bool, true, false, arith, ◌==◌, ltb,
  leb, ◌&&◌, if◌then◌else◌, ap, ◌∙◌, sym, Bool-cases, ==_iff, inl, inr,
}
use smlnj.Prelude.Bits.{bit_and-mask}
use smlnj.ArenaId.{aid_unmapped}
use smlnj.Bibop.{
  Bibop, bibop_l2_sz, l2_at, addr_to_index, addr_to_pageid, index_to_pageid, index_to_l1_index,
  unmap_row, map_row, mark_rows, mark_region,
}
use smlnj.Bibop.Rows.{IsValid, touches, columns, RowMarked, row-RowMarked}

-- The macros on an address and on its flat index read the same entry.
pub addr_to_pageid-index :
    (b : Bibop) (a : ℕ) → addr_to_pageid b a ≡ index_to_pageid b (addr_to_index a)
unfolding addr_to_pageid index_to_pageid addr_to_index
addr_to_pageid-index b a =
    let e : a / 2 ^ 32 ≡ a / 2 ^ 18 / 2 ^ 14 = omega arith in rw (addr_to_pageid, e)

pageid-eq : (b : Bibop) (ix : ℕ) → index_to_pageid b ix ≡ (l2_at b (ix / 2 ^ 14)).tbl (ix % 2 ^ 14)
unfolding index_to_pageid
pageid-eq b ix = ap (l2_at b (ix / 2 ^ 14)).tbl (bit_and-mask 14 ix)

module _ (garbage : ℕ → ℕ) (start end aid : ℕ) (h : start ≤ end) (small : end < 2 ^ 30) where
  -- the pages of the rows from `r` on, `n` of them
  abbrev pub in_rows : ℕ → ℕ → ℕ → Bool
  in_rows r n ix = leb r (ix / 2 ^ 14) && ltb (ix / 2 ^ 14) (r + n)

  row-lookup :
      (b b' : Bibop) (r ix : ℕ)
      → start / 2 ^ 14 ≤ r
      → r ≤ end / 2 ^ 14
      → RowMarked garbage start end aid r b b'
      → index_to_pageid b' ix
        ≡ (if (ix / 2 ^ 14 == r) && touches start end ix then aid else index_to_pageid b ix)
  row-lookup b b' r ix lo hi m =
      let j = ix % 2 ^ 14 in
      let hj : j < bibop_l2_sz = omega arith in
      elim (Bool-cases (ix / 2 ^ 14 == r)) [
        | inl same ↦
            let e : ix / 2 ^ 14 ≡ r = (==_iff (ix / 2 ^ 14) r).0 same in
            let at : r * 2 ^ 14 + j ≡ ix = omega arith in
            let cols = columns start end r j lo hi small h hj in
            rw (same, pageid-eq b' ix, pageid-eq b ix, e, m.here j hj, cols, at)
        | inr other ↦
            let ne = λ (e : ix / 2 ^ 14 ≡ r). absurd {A = ⊥} (ground arith) in
            rw (other, pageid-eq b' ix, pageid-eq b ix, m.there (ix / 2 ^ 14) j ne hj)
      ]

  rows-suc :
      (r n q x : ℕ) (t : Bool)
      → (if leb (r + 1) q && ltb q (r + 1 + n) && t
          then aid
          else (if (q == r) && t then aid else x))
        ≡ (if leb r q && ltb q (r + suc n) && t then aid else x)
  rows-suc r n q x true = ground arith
  rows-suc r n q x false = ground arith

  mark_rows-lookup :
      (n r : ℕ) (b : Bibop)
      → IsValid b
      → start / 2 ^ 14 ≤ r
      → r + n ≤ end / 2 ^ 14 + 1
      → IsValid (mark_rows garbage start end aid n r b)
        × ((ix : ℕ)
            → index_to_pageid (mark_rows garbage start end aid n r b) ix
              ≡ (if in_rows r n ix && touches start end ix then aid else index_to_pageid b ix))
  unfolding mark_rows
  mark_rows-lookup zero r b v lo hi = (v, λ ix. ground arith)
  mark_rows-lookup (suc n) r b v lo hi =
      let b' : Bibop =
        if aid == aid_unmapped
        then unmap_row garbage start end aid b r
        else map_row garbage start end aid b r in
      let m : RowMarked garbage start end aid r b b' = row-RowMarked garbage start end aid r b v in
      let (v', rest) = mark_rows-lookup n (r + 1) b' m.valid (omega arith) (omega arith) in
      (
        v',
        λ ix.
            rest ix
            ∙ ap (λ (x : ℕ). if in_rows (r + 1) n ix && touches start end ix then aid else x)
                (row-lookup b b' r ix lo (omega arith) m)
            ∙ rows-suc r n (ix / 2 ^ 14) (index_to_pageid b ix) (touches start end ix),
      )

  in_region :
      (ix x : ℕ)
      → (if in_rows (start / 2 ^ 14) (end / 2 ^ 14 + 1 - start / 2 ^ 14) ix && touches start end ix
          then aid
          else x)
        ≡ (if touches start end ix then aid else x)
  in_region ix x = ground arith

l1-small : (ix : ℕ) → ix < 2 ^ 30 → index_to_l1_index ix % 2 ^ 32 ≡ ix / 2 ^ 14
unfolding index_to_l1_index
l1-small ix h = omega arith

-- On a valid map `MarkRegion` gives every page of the region the identifier, leaves every other
-- page's identifier as it was, and keeps the map valid, for a region that ends below 2 ^ 48 and
-- whatever a newly allocated table holds.
pub mark_region-lookup :
    (garbage : ℕ → ℕ) (b : Bibop) (base_addr sz_b aid : ℕ)
    → IsValid b
    → addr_to_index base_addr + addr_to_index sz_b < 2 ^ 30
    → IsValid (mark_region garbage b base_addr sz_b aid)
      × ((a : ℕ)
          → addr_to_pageid (mark_region garbage b base_addr sz_b aid) a ≡ (
              if touches
                (addr_to_index base_addr)
                (addr_to_index base_addr + addr_to_index sz_b)
                (addr_to_index a)
              then aid
              else addr_to_pageid b a))
unfolding mark_region
mark_region-lookup garbage b base_addr sz_b aid v small =
    let start = addr_to_index base_addr in
    let end = start + addr_to_index sz_b in
    let h : start ≤ end = omega arith in
    let top_start : index_to_l1_index start % 2 ^ 32 ≡ start / 2 ^ 14 =
      l1-small start (omega arith) in
    let top_end : index_to_l1_index end % 2 ^ 32 ≡ end / 2 ^ 14 = l1-small end small in
    let (v', reads) =
      mark_rows-lookup garbage start end aid h small (end / 2 ^ 14 + 1 - start / 2 ^ 14)
        (start / 2 ^ 14) b v (omega arith) (omega arith) in
    rw (top_start, top_end)
      (
        v',
        λ a.
            addr_to_pageid-index _ a
            ∙ reads (addr_to_index a)
            ∙ in_region garbage start end aid h small (addr_to_index a) _
            ∙ ap (λ (x : ℕ). if touches start end (addr_to_index a) then aid else x)
                (sym (addr_to_pageid-index b a)),
      )
