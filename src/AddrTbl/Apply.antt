-- ===== src/AddrTbl/Apply.antt =====
-- `AddrTblApply` and `FreeAddrTbl`: which items they visit.
use smlnj.Prelude.{
  true, false, none, some, inl, inr, ◌≤◌, Bool-cases, Option-cases, ℕ, zero, suc, ◌+◌, ◌≡◌, refl,
  sym, ◌∙◌, ◌≢◌, Bool, List, [], ◌∷◌, arith, ◌==◌, ◌&&◌, if◌then◌else◌, length, get_or,
}
use mathlib.Core.Option.{none-ne-some}
use smlnj.AddrTbl.{
  Item, AddrTbl, addr_hash, apply_bucket, apply_buckets, addr_tbl_apply, Freed, object, item,
  bucket_array, table, find_item, free_bucket, free_buckets, free_addr_tbl,
}
use smlnj.AddrTbl.Chains.{
  to_nat, holds, count, count-eq-zero, find_item-eq-none, count_both, count_both-le,
  count_both-find_item,
}
use smlnj.AddrTbl.Valid.{total, view, IsValid}

-- counts the calls at one item
abbrev pub tick : ℕ → ℕ → Item → ℕ → ℕ
tick a obj p n = n + to_nat ((p.addr == a) && (p.obj == obj))

unfoldable pub sum_over : (List Item → ℕ) → List (List Item) → ℕ
sum_over f [] = 0
sum_over f (b ∷ bs) = f b + sum_over f bs

module _ (f : List Item → ℕ) (empty : f [] ≡ 0) where
  -- where no bucket counts
  sum_nowhere : (bs : List (List Item)) → ((i : ℕ) → f (get_or bs i []) ≡ 0) → sum_over f bs ≡ 0
  unfolding sum_over
  sum_nowhere [] h = refl
  sum_nowhere (b ∷ bs) h = omega (arith, h 0, sum_nowhere bs (λ i. h (suc i)))

  -- where one bucket counts at most
  sum_only :
      (bs : List (List Item)) (j : ℕ)
      → ((i : ℕ) → i ≢ j → f (get_or bs i []) ≡ 0)
      → sum_over f bs ≡ f (get_or bs j [])
  unfolding sum_over
  sum_only [] j h = sym empty
  sum_only (b ∷ bs) zero h = omega (arith, sum_nowhere bs (λ i. h (suc i) (omega arith)))
  sum_only (b ∷ bs) (suc j) h =
      omega (arith, h 0 (omega arith), sum_only bs j (λ i n. h (suc i) (omega arith)))

module _ (a obj : ℕ) where
  apply_bucket-count :
      (b : List Item) (n : ℕ) → apply_bucket (tick a obj) b n ≡ n + count_both a obj b
  unfolding apply_bucket count_both
  apply_bucket-count [] n = omega arith
  apply_bucket-count (p ∷ next) n = omega (arith, apply_bucket-count next (tick a obj p n))

  apply_buckets-sum :
      (bs : List (List Item)) (n : ℕ)
      → apply_buckets (tick a obj) bs n ≡ n + sum_over (count_both a obj) bs
  unfolding apply_buckets sum_over
  apply_buckets-sum [] n = omega arith
  apply_buckets-sum (b ∷ bs) n =
      omega (arith, apply_buckets-sum bs (apply_bucket (tick a obj) b n), apply_bucket-count b n)

  -- On a valid table `AddrTblApply` calls the function exactly once on each address that is
  -- mapped, with its object, and never on any other pair.
  pub apply_once :
      (t : AddrTbl) → IsValid t → addr_tbl_apply (tick a obj) t 0 ≡ to_nat (holds (view t a) obj)
  unfolding addr_tbl_apply view count_both
  apply_once t v =
      let h = addr_hash t a in
      let nothing : count_both a obj [] ≡ 0 = refl in
      let only =
        sum_only (count_both a obj) nothing t.buckets h
          (λ i ne. ground (arith, v.placed a i, count_both-le a obj (get_or t.buckets i []))) in
      let here =
        count_both-find_item a obj (get_or t.buckets h []) (ground (arith, v.placed a h)) in
      apply_buckets-sum t.buckets 0 ∙ omega arith

-- the frees of items, of objects, and of the table itself
abbrev pub items_in : List Freed → ℕ
items_in [] = 0
items_in (item a ∷ log) = suc (items_in log)
items_in (_ ∷ log) = items_in log

abbrev pub objects_in : List Freed → ℕ
objects_in [] = 0
objects_in (object a ∷ log) = suc (objects_in log)
objects_in (_ ∷ log) = objects_in log

-- the frees of the item at an address, of an object, of the bucket array and of the table
abbrev pub freed_item : ℕ → List Freed → ℕ
freed_item a [] = 0
freed_item a (item b ∷ log) = to_nat (b == a) + freed_item a log
freed_item a (_ ∷ log) = freed_item a log

abbrev pub freed_object : ℕ → List Freed → ℕ
freed_object o [] = 0
freed_object o (object p ∷ log) = to_nat (p == o) + freed_object o log
freed_object o (_ ∷ log) = freed_object o log

abbrev pub freed_array : List Freed → ℕ
freed_array [] = 0
freed_array (bucket_array ∷ log) = suc (freed_array log)
freed_array (_ ∷ log) = freed_array log

abbrev pub freed_table : List Freed → ℕ
freed_table [] = 0
freed_table (table ∷ log) = suc (freed_table log)
freed_table (_ ∷ log) = freed_table log

-- counts the calls on items with the object
abbrev pub tick_object : ℕ → Item → ℕ → ℕ
tick_object o p n = n + to_nat (p.obj == o)

-- the items with the object
unfoldable pub with_object : ℕ → List Item → ℕ
with_object o [] = 0
with_object o (p ∷ next) = to_nat (p.obj == o) + with_object o next

apply_bucket-with_object :
    (o : ℕ) (b : List Item) (n : ℕ) → apply_bucket (tick_object o) b n ≡ n + with_object o b
unfolding apply_bucket with_object
apply_bucket-with_object o [] n = omega arith
apply_bucket-with_object o (p ∷ next) n =
    omega (arith, apply_bucket-with_object o next (tick_object o p n))

apply_buckets-with_object :
    (o : ℕ) (bs : List (List Item)) (n : ℕ)
    → apply_buckets (tick_object o) bs n ≡ n + sum_over (with_object o) bs
unfolding apply_buckets sum_over
apply_buckets-with_object o [] n = omega arith
apply_buckets-with_object o (b ∷ bs) n = omega (
  arith,
  apply_buckets-with_object o bs (apply_bucket (tick_object o) b n),
  apply_bucket-with_object o b n,
)

free_bucket-counts :
    (free_objs : Bool) (b : List Item) (log : List Freed) (a o : ℕ)
    → (freed_item a (free_bucket free_objs b log) ≡ count a b + freed_item a log)
      × (freed_object o (free_bucket free_objs b log)
          ≡ (if free_objs then with_object o b else 0) + freed_object o log)
      × (freed_array (free_bucket free_objs b log) ≡ freed_array log)
      × (freed_table (free_bucket free_objs b log) ≡ freed_table log)
unfolding free_bucket count with_object
free_bucket-counts free_objs [] log a o = (omega arith, ground arith, refl, refl)
free_bucket-counts true (p ∷ next) log a o =
    let (i, k, r, t) = free_bucket-counts true next log a o in
    (omega (arith, i), omega (arith, k), r, t)
free_bucket-counts false (p ∷ next) log a o =
    let (i, k, r, t) = free_bucket-counts false next log a o in
    (omega (arith, i), omega (arith, k), r, t)

free_bucket-numbers :
    (free_objs : Bool) (b : List Item) (log : List Freed)
    → (items_in (free_bucket free_objs b log) ≡ length b + items_in log)
      × (objects_in (free_bucket free_objs b log)
          ≡ (if free_objs then length b else 0) + objects_in log)
unfolding free_bucket
free_bucket-numbers free_objs [] log = (omega arith, ground arith)
free_bucket-numbers free_objs (p ∷ next) log =
    let (i, k) = free_bucket-numbers free_objs next log in (ground arith, ground arith)

free_buckets-numbers :
    (free_objs : Bool) (bs : List (List Item))
    → (items_in (free_buckets free_objs bs) ≡ total bs)
      × (objects_in (free_buckets free_objs bs) ≡ (if free_objs then total bs else 0))
unfolding free_buckets total
free_buckets-numbers free_objs [] = (refl, ground arith)
free_buckets-numbers free_objs (b ∷ bs) =
    let (i, k) = free_buckets-numbers free_objs bs in
    let (i', k') = free_bucket-numbers free_objs b (free_buckets free_objs bs) in
    (omega arith, ground arith)

free_buckets-counts :
    (free_objs : Bool) (bs : List (List Item)) (a o : ℕ)
    → (freed_item a (free_buckets free_objs bs) ≡ sum_over (count a) bs)
      × (freed_object o (free_buckets free_objs bs)
          ≡ (if free_objs then sum_over (with_object o) bs else 0))
      × (freed_array (free_buckets free_objs bs) ≡ 1)
      × (freed_table (free_buckets free_objs bs) ≡ 1)
unfolding free_buckets sum_over
free_buckets-counts free_objs [] a o = (refl, ground arith, refl, refl)
free_buckets-counts free_objs (b ∷ bs) a o =
    let (i, k, r, t) = free_buckets-counts free_objs bs a o in
    let (i', k', r', t') = free_bucket-counts free_objs b (free_buckets free_objs bs) a o in
    (omega (arith, i, i'), ground (arith, k, k'), r' ∙ r, t' ∙ t)

-- in a bucket with one item of the address at most, the address is mapped just if it has one
count-mapped :
    (a : ℕ) (b : List Item)
    → count a b ≤ 1
    → count a b ≡ (elim (find_item a b) [ none ↦ 0 | some _ ↦ 1 ])
count-mapped a b le = elim (Option-cases (find_item a b)) [
  | inl absent ↦ rw absent (count-eq-zero a b absent)
  | inr (o, e) ↦ elim (Bool-cases (count a b == 0)) [
    | inl nothing ↦
        let absent = find_item-eq-none a b (ground (arith, nothing)) in
        absurd (none-ne-some o (sym absent ∙ e))
    | inr one ↦ rw e (ground (arith, one, le))
  ]
]

-- `FreeAddrTbl` on a valid table frees the item of each mapped address once, and no other item, as
-- many as the table counts; it frees each object as often as `AddrTblApply` meets it if it is told
-- to free the objects, and no object otherwise; and it frees the array of buckets and the table
-- once.
pub free_addr_tbl-counts :
    (t : AddrTbl) (free_objs : Bool)
    → IsValid t
    → (items_in (free_addr_tbl t free_objs) ≡ t.num_items)
      × (objects_in (free_addr_tbl t free_objs) ≡ (if free_objs then t.num_items else 0))
      × ((a : ℕ)
          → freed_item a (free_addr_tbl t free_objs) ≡ (elim (view t a) [ none ↦ 0 | some _ ↦ 1 ]))
      × ((o : ℕ)
          → freed_object o (free_addr_tbl t free_objs)
            ≡ (if free_objs then addr_tbl_apply (tick_object o) t 0 else 0))
      × (freed_array (free_addr_tbl t free_objs) ≡ 1)
      × (freed_table (free_addr_tbl t free_objs) ≡ 1)
unfolding free_addr_tbl addr_tbl_apply view count
free_addr_tbl-counts t free_objs v =
    let (i, k) = free_buckets-numbers free_objs t.buckets in
    let (_, _, r, s) = free_buckets-counts free_objs t.buckets 0 0 in
    (
      i ∙ sym v.counted,
      rw v.counted k,
      λ a.
          let h = addr_hash t a in
          let nothing : count a [] ≡ 0 = refl in
          (free_buckets-counts free_objs t.buckets a 0).0
          ∙ sum_only (count a) nothing t.buckets h (λ j ne. ground (arith, v.placed a j))
          ∙ count-mapped a (get_or t.buckets h []) (ground (arith, v.placed a h)),
      λ o.
          let visits = apply_buckets-with_object o t.buckets 0 in
          (free_buckets-counts free_objs t.buckets 0 o).1 ∙ ground (arith, visits),
      r,
      s,
    )
