-- ===== src/BigObjects/Marks.antt =====
-- The identifiers of a region's pages: what `BO_Alloc` writes into the page map.
use smlnj.Prelude.{
  ℕ, ◌+◌, ◌/◌, ◌^◌, ◌<◌, ◌≤◌, ◌≡◌, ◌≢◌, refl, sym, ap, ◌∙◌, inl, inr, Bool, true, false, some,
  arith, ◌==◌, ◌&&◌, ltb, if◌then◌else◌, Bool-cases, Option-cases, ==_iff,
}
use smlnj.Prelude.Bits.{bit_and-mask}
use smlnj.ArenaId.{
  aid_unmapped, aid_bigobj, aid_bigobj_hdr, make_bigobjc, is_bigobj_aid, extract_objc,
}
use smlnj.ArenaId.Laws.{bigobj_aids}
use smlnj.Memory.{MemObj}
use smlnj.Memory.Mapped.{covers}
use smlnj.Bibop.{
  L2, Bibop, l2_at, addr_to_pageid, addr_to_l1_index, addr_to_l2_index, addr_to_index, mark_region,
}
use smlnj.Bibop.Rows.{IsValid}
use smlnj.Generation.Layout.{Pages, mark_region-covers}
use smlnj.BigObjects.{BoHeap, Region, update}
use smlnj.BigObjects.Alloc.{set_pageid, mark_gen}
use smlnj.BigObjects.Ring.{update-same}

-- the page of the address
abbrev pub page : ℕ → ℕ
page a = a / 2 ^ 18

same_entry :
    (a x : ℕ)
    → (addr_to_l1_index a == addr_to_l1_index x) && (addr_to_l2_index a == addr_to_l2_index x)
      ≡ (page a == page x)
unfolding addr_to_l1_index addr_to_l2_index addr_to_index
same_entry a x =
    let ea = bit_and-mask 14 (a / 2 ^ 18) in let ex = bit_and-mask 14 (x / 2 ^ 18) in ground arith

l2-small : (a : ℕ) → addr_to_l2_index a < 2 ^ 14
unfolding addr_to_l2_index
l2-small a = omega (arith, bit_and-mask 14 (addr_to_index a))

-- the map with the table `t` of the address written
abbrev written : Bibop → ℕ → ℕ → L2 → Bibop
written b a v t = record b {
  l1 =
      update b.l1 (addr_to_l1_index a)
        (some (record t { tbl = update t.tbl (addr_to_l2_index a) v }));
}

set-eq :
    (b : Bibop) (a v : ℕ) (t : L2)
    → b.l1 (addr_to_l1_index a) ≡ some t
    → set_pageid b a v ≡ written b a v t
unfolding set_pageid
set-eq b a v t own = rw (own, set_pageid) refl

-- the entry of a row with a table of its own
own_row :
    (b : Bibop) (x : ℕ) (t : L2)
    → b.l1 (addr_to_l1_index x) ≡ some t
    → addr_to_pageid b x ≡ t.tbl (addr_to_l2_index x)
unfolding addr_to_pageid l2_at
own_row b x t own = rw (own, addr_to_pageid, l2_at) refl

other_row :
    (b : Bibop) (a v x : ℕ) (t : L2)
    → (addr_to_l1_index a == addr_to_l1_index x) ≡ false
    → addr_to_pageid (written b a v t) x ≡ addr_to_pageid b x
unfolding addr_to_pageid l2_at
other_row b a v x t other = rw (other, addr_to_pageid, l2_at) refl

own_entry :
    (b : Bibop) (a v x : ℕ) (t : L2)
    → b.l1 (addr_to_l1_index a) ≡ some t
    → addr_to_pageid (set_pageid b a v) x ≡ (
        if (addr_to_l1_index a == addr_to_l1_index x) && (addr_to_l2_index a == addr_to_l2_index x)
        then v
        else addr_to_pageid b x)
own_entry b a v x t own =
    ap (λ (y : Bibop). addr_to_pageid y x) (set-eq b a v t own)
    ∙ elim (Bool-cases (addr_to_l1_index a == addr_to_l1_index x)) [
      | inr other ↦ rw other (other_row b a v x t other)
      | inl row ↦
          let e = (==_iff (addr_to_l1_index a) (addr_to_l1_index x)).0 row in
          rw row (
            own_row (written b a v t) x _ (ap (written b a v t).l1 (sym e) ∙ update-same b.l1 _ _)
            ∙ ap (λ (y : ℕ). if addr_to_l2_index a == addr_to_l2_index x then v else y)
                (sym (own_row b x t (ap b.l1 (sym e) ∙ own))))
    ]

-- A write of a page's identifier, where the page is not unmapped, is read at the page only.
set_pageid-lookup :
    (b : Bibop) (a v : ℕ)
    → IsValid b
    → addr_to_pageid b a ≢ aid_unmapped
    → (x : ℕ)
    → addr_to_pageid (set_pageid b a v) x ≡ (if page a == page x then v else addr_to_pageid b x)
unfolding addr_to_pageid l2_at
set_pageid-lookup b a v ok mapped x =
    let i = addr_to_l1_index a in
    let j = addr_to_l2_index a in
    elim (Option-cases (b.l1 i)) [
      | inl shared ↦
          let read : addr_to_pageid b a ≡ b.unmapped_l2.tbl j =
            rw (shared, addr_to_pageid, l2_at) refl in
          absurd (mapped (read ∙ ok j (l2-small a)))
      | inr (t, own) ↦
          own_entry b a v x t own
          ∙ ap (λ (c : Bool). if c then v else addr_to_pageid b x) (same_entry a x)
    ]

-- the pages of the memory object have the generation's identifiers, the first the header's
abbrev pub Marked : Bibop → MemObj → ℕ → Type 0
Marked b obj gen =
    (a : ℕ)
    → covers obj.base obj.size_b a ≡ true
    → addr_to_pageid b a ≡ (if page obj.base == page a then aid_bigobj_hdr gen else aid_bigobj gen)

bigobj-ne_unmapped : (gen : ℕ) → gen < 16 → aid_bigobj gen ≢ aid_unmapped
unfolding is_bigobj_aid extract_objc make_bigobjc
bigobj-ne_unmapped gen small e =
    let is = (bigobj_aids gen small).0.0 in ground (arith, ap is_bigobj_aid (sym e) ∙ is)

-- When `BO_Alloc` serves an object of a younger generation than the region's, it gives all the
-- pages of the region's memory the identifiers of that generation, the first page the header's.
pub mark_gen-Marked :
    (garbage : ℕ → ℕ) (h : BoHeap) (r gen : ℕ)
    → IsValid h.bibop
    → Pages (h.regions r).mem_obj.base
    → Pages (h.regions r).mem_obj.size_b
    → 0 < (h.regions r).mem_obj.size_b
    → (h.regions r).mem_obj.base + (h.regions r).mem_obj.size_b ≤ 2 ^ 47
    → gen < 16
    → gen < (h.regions r).min_gen
    → Marked (mark_gen garbage h r gen).bibop (h.regions r).mem_obj gen
      × (((mark_gen garbage h r gen).regions r).min_gen ≡ gen)
unfolding mark_gen
mark_gen-Marked garbage h r gen ok pb ps pos fits small younger =
    let obj = (h.regions r).mem_obj in
    let yes_mark : ltb gen (h.regions r).min_gen ≡ true = ground (arith, younger) in
    let b = mark_region garbage h.bibop obj.base obj.size_b (aid_bigobj gen) in
    let (ok', reads) =
      mark_region-covers garbage h.bibop obj.base obj.size_b (aid_bigobj gen) ok pb ps
        (omega (arith, fits)) in
    let here : addr_to_pageid b obj.base ≡ aid_bigobj gen =
      reads obj.base
      ∙ ap (λ (c : Bool). if c then aid_bigobj gen else addr_to_pageid h.bibop obj.base) {y = true}
          (ground (arith, pos)) in
    let mapped = λ (e : addr_to_pageid b obj.base ≡ aid_unmapped).
      bigobj-ne_unmapped gen small (sym here ∙ e) in
    rw yes_mark (
      λ a c.
          set_pageid-lookup b obj.base (aid_bigobj_hdr gen) ok' mapped a
          ∙ ap (λ (x : ℕ). if page obj.base == page a then aid_bigobj_hdr gen else x)
              (reads a ∙ rw c refl),
      ap (λ (x : Region). x.min_gen) (update-same h.regions r _),
    )
