-- ===== src/AddrTbl/Insert.antt =====
-- `AddrTblInsert` against the abstract map.
use smlnj.Prelude.{
  ℕ, zero, suc, ◌+◌, ◌^◌, ◌<◌, ◌≤◌, refl, Bool, true, false, leb, ◌≡◌, ◌∙◌, ◌≢◌, ◌⊎◌, inl, inr,
  none, some, List, [], ◌∷◌, arith, ◌==◌, if◌then◌else◌, length, get_or, set, length-set,
  get_or-set, Bool-cases, Option-cases,
}
use smlnj.AddrTbl.{
  Item, AddrTbl, ok, die, null_write, overflow, addr_hash, find_item, addr_tbl_insert,
  addr_tbl_lookup,
}
use smlnj.AddrTbl.Chains.{count, count-eq-zero}
use smlnj.AddrTbl.Valid.{total, view, IsValid, addr_hash-lt, lookup-view}

total-set :
    (bs : List (List Item)) (i : ℕ) (p : Item)
    → i < length bs
    → total (set bs i (p ∷ get_or bs i [])) ≡ total bs + 1
unfolding total
total-set [] i p h = absurd (omega arith)
total-set (b ∷ bs) zero p h = omega arith
total-set (b ∷ bs) (suc i) p h = omega (arith, total-set bs i p (omega arith))

-- what a successful insertion leaves
pub record Inserted (t : AddrTbl) (a obj : ℕ) (t' : AddrTbl) : Type 0 where
  pub valid : IsValid t'
  pub reads : (b : ℕ) → view t' b ≡ (if a == b then some obj else view t b)
  pub items : t'.num_items ≡ t.num_items + (elim (view t a) [ none ↦ 1 | some _ ↦ 0 ])

module _ (works : Bool) {t : AddrTbl} (v : IsValid t) (a obj : ℕ) where
  home : addr_hash t a < length t.buckets
  home = omega (arith, addr_hash-lt v a, v.sized)

  insert-new :
      view t a ≡ none
      → works ≡ true
      → t.num_items + 1 < 2 ^ 31
      → (t' : AddrTbl) × (addr_tbl_insert works t a obj ≡ ok t') × Inserted t a obj t'
  unfolding addr_tbl_insert view count find_item
  insert-new absent block few =
      let int : leb (2 ^ 31) (t.num_items + 1) ≡ false = ground arith in
      let bucket = get_or t.buckets (addr_hash t a) [] in
      (
        record t {
          num_items = t.num_items + 1;
          buckets =
              set t.buckets (addr_hash t a)
                ((record { addr = a; obj = obj }) ∷ get_or t.buckets (addr_hash t a) []);
        },
        rw (absent, block, int, addr_tbl_insert) refl,
        record {
          valid = record {
            log = v.log;
            power = v.power;
            masked = v.masked;
            sized = length-set t.buckets _ _ ∙ v.sized;
            placed = λ b i.
                rw (get_or-set t.buckets (addr_hash t a) i _ [] home)
                  (ground (arith, v.placed b i, v.placed a i, count-eq-zero a bucket absent));
            counted =
                omega
                  (arith, total-set t.buckets _ (record { addr = a; obj = obj }) home, v.counted);
          };
          reads = λ b.
              rw (get_or-set t.buckets (addr_hash t a) (addr_hash t b) _ [] home, view)
                (ground arith);
          items = rw absent;
        },
      )

  insert-same : view t a ≡ some obj → addr_tbl_insert works t a obj ≡ ok t
  unfolding addr_tbl_insert view
  insert-same same = rw (same, addr_tbl_insert) (ground arith)

  insert-other : (old : ℕ) → view t a ≡ some old → old ≢ obj → addr_tbl_insert works t a obj ≡ die
  unfolding addr_tbl_insert view
  insert-other old e ne = rw (e, addr_tbl_insert) (ground arith)

  insert-null : view t a ≡ none → works ≡ false → addr_tbl_insert works t a obj ≡ null_write
  unfolding addr_tbl_insert view
  insert-null absent none_left = rw (absent, none_left, addr_tbl_insert) refl

  insert-overflow :
      view t a ≡ none
      → works ≡ true
      → 2 ^ 31 ≤ t.num_items + 1
      → addr_tbl_insert works t a obj ≡ overflow
  unfolding addr_tbl_insert view
  insert-overflow absent block many =
      let int : leb (2 ^ 31) (t.num_items + 1) ≡ true = ground arith in
      rw (absent, block, int, addr_tbl_insert) refl

  pub insert-cases :
      ((t' : AddrTbl) × (addr_tbl_insert works t a obj ≡ ok t') × Inserted t a obj t')
      ⊎ ((old : ℕ) × (view t a ≡ some old) × (old ≢ obj) × (addr_tbl_insert works t a obj ≡ die))
      ⊎ ((view t a ≡ none) × (works ≡ false) × (addr_tbl_insert works t a obj ≡ null_write))
      ⊎ ((view t a ≡ none)
          × (works ≡ true)
          × (2 ^ 31 ≤ t.num_items + 1)
          × (addr_tbl_insert works t a obj ≡ overflow))
  insert-cases = elim (Option-cases (view t a)) [
    | inl absent ↦ elim (Bool-cases works) [
      | inr none_left ↦ inr (inr (inl (absent, none_left, insert-null absent none_left)))
      | inl block ↦ elim (Bool-cases (leb (2 ^ 31) (t.num_items + 1))) [
        | inl many ↦
            let many' : 2 ^ 31 ≤ t.num_items + 1 = ground (arith, many) in
            inr (inr (inr (absent, block, many', insert-overflow absent block many')))
        | inr few ↦ inl (insert-new absent block (ground (arith, few)))
      ]
    ]
    | inr (old, e) ↦ elim (Bool-cases (old == obj)) [
      | inl same ↦
          let e' : view t a ≡ some obj = ground arith in
          inl (
            t,
            insert-same e',
            record { valid = v; reads = λ b. ground arith; items = rw e' (omega arith) },
          )
      | inr other ↦
          let ne : old ≢ obj = ground arith in inr (inl (old, e, ne, insert-other old e ne))
    ]
  ]

  -- After a successful insertion a lookup of the address gives the object, and a lookup of any
  -- other address gives what it gave before.
  pub lookup-insert :
      (t' : AddrTbl)
      → addr_tbl_insert works t a obj ≡ ok t'
      → (b : ℕ) → addr_tbl_lookup t' b ≡ (if a == b then obj else addr_tbl_lookup t b)
  lookup-insert t' run b = elim insert-cases [
    | inl (t'', run', w) ↦
        let same : t' ≡ t'' = ground arith in
        rw (same, lookup-view t'' b, lookup-view t b, w.reads b) (ground arith)
    | inr (inl (old, e, ne, stop)) ↦ absurd (ground arith)
    | inr (inr (inl (absent, none_left, stop))) ↦ absurd (ground arith)
    | inr (inr (inr (absent, block, many, stop))) ↦ absurd (ground arith)
  ]
