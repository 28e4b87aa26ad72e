-- ===== src/Bibop/Rows.antt =====
-- One row of the map: what the inner loops of `MarkRegion` leave.
use smlnj.Prelude.{
  ℕ, zero, suc, ◌+◌, ◌-◌, ◌*◌, ◌/◌, ◌%◌, ◌^◌, ◌<◌, ◌≤◌, ◌≡◌, ◌≢◌, Bool, none, some, arith, ◌==◌,
  ltb, leb, ◌&&◌, if◌then◌else◌, Option-cases, ==_refl, ==_ne, ==_iff, Bool-cases, ◌∙◌, sym, inl,
  inr,
}
use smlnj.Prelude.Bits.{bit_and-mask}
use smlnj.ArenaId.{aid_unmapped}
use smlnj.Bibop.{
  L2, Bibop, bibop_l2_sz, l2_at, index_to_pageid, index_to_l2_index, fill, init_bibop, l2_start,
  l2_end, unmap_row, map_row, unmap_table, map_table, new_table,
}

pub fill-eq :
    (f : ℕ → ℕ) (lo n v j : ℕ) → fill f lo n v j ≡ (if leb lo j && ltb j (lo + n) then v else f j)
unfolding fill
fill-eq f lo zero v j = ground arith
fill-eq f lo (suc n) v j = ground (arith, fill-eq (λ i. if lo == i then v else f i) (lo + 1) n v j)

pub l2_index-eq : (ix : ℕ) → index_to_l2_index ix ≡ ix % 2 ^ 14
unfolding index_to_l2_index
l2_index-eq ix = bit_and-mask 14 ix

-- the shared table says unmapped everywhere
abbrev pub IsValid : Bibop → Type 0
IsValid b = (j : ℕ) → j < bibop_l2_sz → b.unmapped_l2.tbl j ≡ aid_unmapped

-- A new map is valid, and every page of it is unmapped.
pub init_bibop-unmapped :
    (garbage : ℕ → ℕ)
    → IsValid (init_bibop garbage)
      × ((ix : ℕ) → index_to_pageid (init_bibop garbage) ix ≡ aid_unmapped)
unfolding init_bibop index_to_pageid
init_bibop-unmapped garbage = (
  λ j h. rw (fill-eq garbage 0 bibop_l2_sz aid_unmapped j) (ground arith),
  λ ix.
      rw (fill-eq garbage 0 bibop_l2_sz aid_unmapped (index_to_l2_index ix))
        (ground (arith, bit_and-mask 14 ix)),
)

-- the region meets the row in the columns that the code computes
abbrev pub touches : ℕ → ℕ → ℕ → Bool
touches start end ix = leb start ix && ltb ix end

pub columns :
    (start end r j : ℕ)
    → start / 2 ^ 14 ≤ r
    → r ≤ end / 2 ^ 14
    → end < 2 ^ 30
    → start ≤ end
    → j < bibop_l2_sz
    → (leb (l2_start start r) j && ltb j (l2_end end r)) ≡ touches start end (r * 2 ^ 14 + j)
unfolding l2_start l2_end
columns start end r j hs he small h hj = ground (arith, bit_and-mask 14 start, bit_and-mask 14 end)

l2_end-le : (end r : ℕ) → l2_end end r ≤ bibop_l2_sz
unfolding l2_end
l2_end-le end r = ground (arith, bit_and-mask 14 end)

module _ (garbage : ℕ → ℕ) (start end aid : ℕ) where
  -- the columns from `lo` up to `hi` of a table
  abbrev pub Filled : ℕ → ℕ → (ℕ → ℕ) → L2 → Type 0
  Filled lo hi old t =
      (j : ℕ) → j < bibop_l2_sz → t.tbl j ≡ (if leb lo j && ltb j hi then aid else old j)

  unmap_table-Filled :
      (lo hi : ℕ) (t : L2) → Filled lo hi t.tbl (unmap_table garbage start end aid lo hi t)
  unfolding unmap_table
  unmap_table-Filled lo hi t j h = rw (fill-eq t.tbl lo (hi - lo) aid j) (ground arith)

  map_table-Filled :
      (lo hi : ℕ) (t : L2) → Filled lo hi t.tbl (map_table garbage start end aid lo hi t)
  unfolding map_table
  map_table-Filled lo hi t j h = rw (fill-eq t.tbl lo (hi - lo) aid j) (ground arith)

  cleared :
      (lo hi sz clear j : ℕ)
      → j < sz
      → hi ≤ sz
      → fill (fill (fill garbage 0 lo clear) hi (sz - hi) clear) lo (hi - lo) aid j
        ≡ (if leb lo j && ltb j hi then aid else clear)
  cleared lo hi sz clear j hj h =
      rw
        (
          fill-eq (fill (fill garbage 0 lo clear) hi (sz - hi) clear) lo (hi - lo) aid j,
          fill-eq (fill garbage 0 lo clear) hi (sz - hi) clear j,
          fill-eq garbage 0 lo clear j,
        )
        (ground arith)

  new_table-Filled :
      (lo hi : ℕ)
      → hi ≤ bibop_l2_sz
      → Filled lo hi (λ j. aid_unmapped) (new_table garbage start end aid lo hi)
  unfolding new_table
  new_table-Filled lo hi h j hj = cleared lo hi bibop_l2_sz aid_unmapped j hj h

if_same {ℓ} : {A : Type ℓ} (b : Bool) {x y z : A} → x ≡ z → y ≡ z → (if b then x else y) ≡ z
if_same Bool.true p q = p
if_same Bool.false p q = q

module _ (garbage : ℕ → ℕ) (start end aid r : ℕ) where
  -- one row, on its columns
  abbrev pub marked : Bibop → ℕ → ℕ
  marked b j = if leb (l2_start start r) j && ltb j (l2_end end r) then aid else (l2_at b r).tbl j

  -- what a row's round does to the map: the row is marked, the other rows read as before
  pub record RowMarked (b b' : Bibop) : Type 0 where
    pub valid : IsValid b'
    pub here : (j : ℕ) → j < bibop_l2_sz → (l2_at b' r).tbl j ≡ marked b j
    pub there : (i j : ℕ) → i ≢ r → j < bibop_l2_sz → (l2_at b' i).tbl j ≡ (l2_at b i).tbl j

  -- a round that gives the row a table of its own
  own_row :
      (b : Bibop) (t : L2)
      → IsValid b
      → Filled garbage start end aid (l2_start start r) (l2_end end r) (l2_at b r).tbl t
      → RowMarked b (record b { l1 = λ i. if i == r then some t else b.l1 i })
  unfolding l2_at
  own_row b t v f = record {
    valid = v;
    here = λ j hj. rw (l2_at, ==_refl r) (f j hj);
    there = λ i j ne hj. rw (l2_at, ==_ne i r ne);
  }

  map_row-RowMarked : (b : Bibop) → IsValid b → RowMarked b (map_row garbage start end aid b r)
  unfolding map_row l2_at
  map_row-RowMarked b v = own_row b _ v (elim (Option-cases (b.l1 r)) [
    | inl shared ↦ λ j hj.
        rw (shared, l2_at, v j hj)
          (new_table-Filled garbage start end aid (l2_start start r) (l2_end end r)
            (l2_end-le end r) j hj)
    | inr (t, own) ↦ λ j hj.
        rw (own, l2_at)
          (map_table-Filled garbage start end aid (l2_start start r) (l2_end end r) t j hj)
  ])

  -- a round that writes to the shared table
  shared_row :
      (b : Bibop) (t : L2)
      → aid ≡ aid_unmapped
      → IsValid b
      → b.l1 r ≡ none
      → Filled garbage start end aid (l2_start start r) (l2_end end r) b.unmapped_l2.tbl t
      → RowMarked b (record b { unmapped_l2 = t })
  unfolding l2_at
  shared_row b t gone v shared f =
      let clear = λ (j : ℕ) (hj : j < bibop_l2_sz). f j hj ∙ if_same _ gone (v j hj) in
      record {
        valid = clear;
        here = λ j hj. rw (l2_at, shared) (f j hj);
        there = λ i j ne hj. elim (Option-cases (b.l1 i)) [
          | inl e ↦ rw (l2_at, e) (clear j hj ∙ sym (v j hj))
          | inr (own, e) ↦ rw (l2_at, e)
        ];
      }

  unmap_row-RowMarked :
      (b : Bibop)
      → aid ≡ aid_unmapped
      → IsValid b
      → RowMarked b (unmap_row garbage start end aid b r)
  unfolding unmap_row l2_at
  unmap_row-RowMarked b gone v =
      let lo = l2_start start r in
      let hi = l2_end end r in
      elim (Option-cases (b.l1 r)) [
        | inl shared ↦
            rw (shared, unmap_row)
              (shared_row b _ gone v shared
                (unmap_table-Filled garbage start end aid lo hi b.unmapped_l2))
        | inr (t, own) ↦
            rw (own, unmap_row)
              (own_row b _ v
                (λ j hj. rw (own, l2_at) (unmap_table-Filled garbage start end aid lo hi t j hj)))
      ]

  -- either branch, as the loop takes it
  pub row-RowMarked :
      (b : Bibop)
      → IsValid b
      → RowMarked b (
          if aid == aid_unmapped
          then unmap_row garbage start end aid b r
          else map_row garbage start end aid b r)
  row-RowMarked b v = elim (Bool-cases (aid == aid_unmapped)) [
    | inl gone ↦ rw gone (unmap_row-RowMarked b ((==_iff aid aid_unmapped).0 gone) v)
    | inr mapped ↦ rw mapped (map_row-RowMarked b v)
  ]
