-- ===== src/CGlobals/Export/Grow.antt =====
-- `GrowTable` and the new reference of `ExportCSymbol`.
use smlnj.Prelude.{
  Bool, false, ◌^◌, ◌≤◌, ℕ, ◌+◌, ◌*◌, ◌<◌, ◌≡◌, ◌≢◌, refl, sym, ap, ◌∙◌, ◌⊎◌, inl, inr, Option,
  none, some, List, arith, ◌==◌, leb, if◌then◌else◌, get_or, set, Bool-cases, length-set,
  get_or-set_self, get_or-set_ne,
}
use mathlib.Core.Path.{subst}
use mathlib.Core.Option.{some-injective}
use native.Mathlib.Nat.{pow-suc, one-le-pow}
use smlnj.CGlobals.{Item, Tables}
use smlnj.CGlobals.Rehash.{InSome}
use smlnj.CGlobals.Valid.{
  PowerOfTwo, addrhash_index-lt, rehash-Placed, rehash-keeps, put-Placed, put-keeps, Registered,
}
use smlnj.CGlobals.Export.{
  room_ref, no_block, too_big, ItemRef, ExportTable, grow_table, make_room_ref, grow_map, add_ref,
}
use smlnj.CGlobals.Export.Refs.{MapGrown, grow_map-MapGrown}
use smlnj.CGlobals.Export.Valid.{ref_index, Exports, IsExport}

-- after the test for room the table has buckets, and exports what it did
pub record Roomy (t : Tables) (tbl tbl' : ExportTable) : Type 0 where
  pub valid : IsExport t tbl'
  pub power : PowerOfTwo tbl'.table_size
  pub same_items : tbl'.num_items ≡ tbl.num_items
  pub same_map : tbl'.item_map ≡ tbl.item_map
  pub same_size : tbl'.item_map_size ≡ tbl.item_map_size

pub grow_table-Roomy :
    (t : Tables) (tbl : ExportTable) → IsExport t tbl → Roomy t tbl (grow_table tbl)
unfolding grow_table
grow_table-Roomy t tbl v =
    let sz = if tbl.table_size == 0 then 32 else 2 * tbl.table_size in
    let power : PowerOfTwo sz = elim v.power [
      | inl e ↦ (5, rw e refl)
      | inr (log, e) ↦
          let some_bucket = one-le-pow log 2 (omega arith) in
          let twice = pow-suc 2 log in (log + 1, ground arith)
    ] in
    let lt = λ (p : ItemRef). addrhash_index-lt p.item.addr sz power in
    let keeps = rehash-keeps (ref_index sz) sz lt tbl.table in
    record {
      valid = record {
        power = inr power;
        refs = rehash-Placed (ref_index sz) sz lt tbl.table;
        sized = v.sized;
        room = v.room;
        written = v.written;
        to_refs = λ i q e. (keeps (record { item = q; index = i })).1 (v.to_refs i q e);
        to_map = λ p w. v.to_map p ((keeps p).0 w);
        known = λ p w. v.known p ((keeps p).0 w);
        once = λ p p' w w'. v.once p p' ((keeps p).0 w) ((keeps p').0 w');
      };
      power = power;
      same_items = refl;
      same_map = refl;
      same_size = refl;
    }

pub make_room_ref-Roomy :
    (block : Bool) (t : Tables) (tbl : ExportTable)
    → IsExport t tbl
    → ((tbl' : ExportTable) × (make_room_ref block tbl ≡ room_ref tbl') × Roomy t tbl tbl')
      ⊎ ((make_room_ref block tbl ≡ no_block) × (tbl.table_size ≤ tbl.num_items) × (block ≡ false))
      ⊎ ((make_room_ref block tbl ≡ too_big) × (2 ^ 30 ≤ tbl.num_items))
unfolding make_room_ref
make_room_ref-Roomy block t tbl v = elim (Bool-cases (leb tbl.table_size tbl.num_items)) [
  | inl full ↦
      let le : tbl.table_size ≤ tbl.num_items = ground (arith, full) in
      elim (Bool-cases (leb (2 ^ 30) tbl.table_size)) [
        | inl big ↦ inr (inr (rw (full, big) refl, ground (arith, big, le)))
        | inr small ↦ elim (Bool-cases block) [
          | inl got ↦ inl (grow_table tbl, rw (full, small, got) refl, grow_table-Roomy t tbl v)
          | inr stop ↦ inr (inl (rw (full, small, stop) refl, le, stop))
        ]
      ]
  | inr has_room ↦ inl (
    tbl,
    rw has_room refl,
    record {
      valid = v;
      power = elim v.power [ inl empty ↦ absurd (ground arith) | inr p ↦ p ];
      same_items = refl;
      same_map = refl;
      same_size = refl;
    },
  )
]

-- the table has one more item, under the next index
pub record Added (t : Tables) (tbl : ExportTable) (q : Item) (tbl' : ExportTable) : Type 0 where
  pub valid : IsExport t tbl'
  pub next : tbl'.num_items ≡ tbl.num_items + 1
  pub at : Exports tbl' tbl.num_items q
  pub kept : (i : ℕ) (x : Item) → Exports tbl i x → Exports tbl' i x

module _ {t : Tables} {tbl : ExportTable} (v : IsExport t tbl) (power : PowerOfTwo tbl.table_size)
    (q : Item) (reg : Registered t q)
    (fresh : (p : ItemRef) → InSome p tbl.table → p.item.addr ≢ q.addr) where
  abbrev new_ref : ItemRef
  new_ref = record { item = q; index = tbl.num_items }

  abbrev grown : MapGrown tbl
  grown = grow_map-MapGrown tbl v.sized v.room

  abbrev new_map : List (Option Item)
  new_map = set (grow_map tbl) tbl.num_items (some q)

  map_at : get_or new_map tbl.num_items none ≡ some q
  map_at =
      get_or-set_self (grow_map tbl) tbl.num_items (some q) none
        (omega (arith, grown.sized, grown.room))

  map_kept : (i : ℕ) → i < tbl.num_items → get_or new_map i none ≡ get_or tbl.item_map i none
  map_kept i h =
      get_or-set_ne (grow_map tbl) tbl.num_items i (some q) none (λ e. omega (arith, h, e))
      ∙ grown.kept i h

  -- an export of the new table is an old one or the new one
  pub Exports-cases :
      (i : ℕ) (x : Item)
      → i < tbl.num_items + 1
      → get_or new_map i none ≡ some x
      → Exports tbl i x ⊎ ((i ≡ tbl.num_items) × (x ≡ q))
  Exports-cases i x h e = elim (Bool-cases (i == tbl.num_items)) [
    | inl last ↦
        let k : i ≡ tbl.num_items = ground arith in
        inr (k, some-injective x q (sym e ∙ ap (λ (j : ℕ). get_or new_map j none) k ∙ map_at))
    | inr old ↦ let lt : i < tbl.num_items = ground arith in inl (lt, sym (map_kept i lt) ∙ e)
  ]

  pub add_ref-Added : Added t tbl q (add_ref tbl q)
  unfolding add_ref
  add_ref-Added =
      let lt = addrhash_index-lt q.addr tbl.table_size power in
      let keeps = λ (p : ItemRef). put-keeps v.refs new_ref p lt in
      let exports = λ (p : ItemRef).
        (p.index < tbl.num_items + 1) × (get_or new_map p.index none ≡ some p.item) in
      record {
        valid = record {
          power = inr power;
          refs = put-Placed v.refs new_ref lt;
          sized = length-set (grow_map tbl) tbl.num_items (some q) ∙ grown.sized;
          room = omega (arith, grown.room);
          written = λ i h. elim (Bool-cases (i == tbl.num_items)) [
            | inl last ↦
                let k : i ≡ tbl.num_items = ground arith in
                (q, (h, ap (λ (j : ℕ). get_or new_map j none) k ∙ map_at))
            | inr old ↦
                let lt' : i < tbl.num_items = ground arith in
                let (x, (_, e)) = v.written i lt' in (x, (h, map_kept i lt' ∙ e))
          ];
          to_refs = λ i x (h, e). elim (Exports-cases i x h e) [
            | inl old ↦ (keeps (record { item = x; index = i })).1 (inl (v.to_refs i x old))
            | inr (k, same) ↦ (keeps (record { item = x; index = i })).1 (
                inr (
                  ap (λ (y : Item). record { item = y; index = i }) same
                  ∙ ap (λ (j : ℕ). record { item = q; index = j }) k))
          ];
          to_map = λ p w. elim ((keeps p).0 w) [
            | inl old ↦ let (h, e) = v.to_map p old in (omega (arith, h), map_kept p.index h ∙ e)
            | inr new ↦ subst exports (sym new) (omega arith, map_at)
          ];
          known = λ p w. elim ((keeps p).0 w) [
            | inl old ↦ v.known p old
            | inr new ↦ subst (λ (x : ItemRef). Registered t x.item) (sym new) reg
          ];
          once = λ p p' w w' e. elim ((keeps p).0 w) [
            | inl old ↦ elim ((keeps p').0 w') [
              | inl old' ↦ v.once p p' old old' e
              | inr new' ↦ absurd (fresh p old (e ∙ ap (λ (x : ItemRef). x.item.addr) new'))
            ]
            | inr new ↦ elim ((keeps p').0 w') [
              | inl old' ↦ absurd (fresh p' old' (sym e ∙ ap (λ (x : ItemRef). x.item.addr) new))
              | inr new' ↦ new ∙ sym new'
            ]
          ];
        };
        next = refl;
        at = (omega arith, map_at);
        kept = λ i x (h, e). (omega (arith, h), map_kept i h ∙ e);
      }
