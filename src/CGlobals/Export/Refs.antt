-- ===== src/CGlobals/Export/Refs.antt =====
-- What the walk through a bucket of references finds, and the map from indices to items.
use smlnj.Prelude.{
  ℕ, zero, suc, ◌+◌, ◌-◌, ◌*◌, ◌<◌, ◌≤◌, ◌≡◌, ◌≢◌, refl, sym, ap, ◌∙◌, ◌⊎◌, inl, inr, ◌++◌, Option,
  none, some, List, [], ◌∷◌, arith, ◌==◌, leb, if◌then◌else◌, length, get_or, replicate, Bool-cases,
  length-append, length-replicate,
}
use smlnj.CGlobals.Buckets.{In}
use smlnj.CGlobals.Export.{ItemRef, ExportTable, find_ref, map_size, grow_map}
use smlnj.CGlobals.{Item}

pub find_ref-cases :
    (addr : ℕ) (b : List ItemRef)
    → ((find_ref addr b ≡ none) × ((y : ItemRef) → In y b → y.item.addr ≢ addr))
      ⊎ ((x : ItemRef) × (find_ref addr b ≡ some x) × In x b × (x.item.addr ≡ addr))
unfolding find_ref
find_ref-cases addr [] = inl (refl, λ y i e. i)
find_ref-cases addr (p ∷ next) = elim (Bool-cases (p.item.addr == addr)) [
  | inl e ↦ inr (p, rw e refl, inl refl, ground arith)
  | inr e ↦ elim (find_ref-cases addr next) [
    | inl (stop, out) ↦ inl (
      rw (e, stop) refl,
      λ y i h. elim i [
        | inl here ↦
            let k : p.item.addr ≡ addr = ap (λ (z : ItemRef). z.item.addr) (sym here) ∙ h in
            ground arith
        | inr there ↦ out y there h
      ],
    )
    | inr (x, run, i, h) ↦ inr (x, rw (e, run) refl, inr i, h)
  ]
]

pub get_or-append_left :
    {A : Type 0} (xs ys : List A) (i : ℕ) (d : A)
    → i < length xs
    → get_or (xs ++ ys) i d ≡ get_or xs i d
get_or-append_left [] ys i d h = absurd (omega arith)
get_or-append_left (x ∷ xs) ys zero d h = refl
get_or-append_left (x ∷ xs) ys (suc i) d h = get_or-append_left xs ys i d (omega arith)

-- the map has room for the next item, and its written entries are where they were
pub record MapGrown (tbl : ExportTable) : Type 0 where
  pub sized : length (grow_map tbl) ≡ map_size tbl
  pub room : tbl.num_items < map_size tbl
  pub kept : (i : ℕ) → i < tbl.num_items → get_or (grow_map tbl) i none ≡ get_or tbl.item_map i none

pub grow_map-MapGrown :
    (tbl : ExportTable)
    → length tbl.item_map ≡ tbl.item_map_size
    → tbl.num_items ≤ tbl.item_map_size
    → MapGrown tbl
unfolding grow_map map_size
grow_map-MapGrown tbl sized room =
    let size = tbl.item_map_size in
    let new_sz = if size == 0 then 64 else 2 * size in
    let fresh : List (Option Item) = replicate (new_sz - size) none in
    elim (Bool-cases (leb size tbl.num_items)) [
      | inl full ↦
          let more : size < new_sz = ground arith in
          let same : tbl.num_items ≡ size = ground arith in
          record {
            sized = rw full (
                length-append tbl.item_map fresh
                ∙ ap (λ (n : ℕ). length tbl.item_map + n) (length-replicate (new_sz - size) none)
                ∙ omega (arith, sized, more));
            room = rw full (omega (arith, more, same));
            kept = λ i h.
                rw full (get_or-append_left tbl.item_map fresh i none (omega (arith, sized, same)));
          }
      | inr enough ↦ record {
        sized = rw enough sized;
        room = rw enough (ground arith);
        kept = λ i h. rw enough refl;
      }
    ]
