-- ===== src/CGlobals/Record.antt =====
-- `RecordCSymbol` and the lookups against the set of registered symbols.
use smlnj.Prelude.{
  ◌^◌, ◌≤◌, leb, ℕ, ◌+◌, ◌≡◌, ◌≢◌, refl, sym, ap, ◌∙◌, ◌⊎◌, inl, inr, false, ◌&&◌, List, [], ◌∷◌,
  arith, ◌==◌, get_or, set, Bool-cases,
}
use mathlib.Core.Path.{subst}
use smlnj.CGlobals.{
  Item, Tables, hash_string, same_name, strhash_index, addrhash_index, recorded, die, overflow,
  enter_item,
}
use smlnj.CGlobals.Buckets.{In, same_name-eq, find_symbol-cases, find_addr-cases}
use smlnj.CGlobals.Rehash.{get_or-InSome}
use smlnj.CGlobals.Valid.{
  PowerOfTwo, strhash_index-lt, addrhash_index-lt, Registered, IsValid, Placed-In, put-Placed,
  put-keeps,
}

item-eq : (x y : Item) → x.addr ≡ y.addr → x.name ≡ y.name → x.string_hash ≡ y.string_hash → x ≡ y
item-eq x y a n h =
    ap (λ (z : ℕ). record { addr = z; name = x.name; string_hash = x.string_hash }) a
    ∙ ap (λ (z : List ℕ). record { addr = y.addr; name = z; string_hash = x.string_hash }) n
    ∙ ap (λ (z : ℕ). record { addr = y.addr; name = y.name; string_hash = z }) h

-- the tables after the symbol is in them
pub record Entered (t : Tables) (item : Item) (t' : Tables) : Type 0 where
  pub valid : IsValid t'
  pub power : PowerOfTwo t'.table_size
  pub has : Registered t' item
  pub keeps : (x : Item) → Registered t x → Registered t' x
  pub only : (x : Item) → Registered t' x → Registered t x ⊎ (x ≡ item)

-- another symbol has the name or the address
pub record Conflict (t : Tables) (item : Item) : Type 0 where
  pub other : Item
  pub registered : Registered t other
  pub clash : (other.name ≡ item.name) ⊎ (other.addr ≡ item.addr)
  pub different : (other.name ≢ item.name) ⊎ (other.addr ≢ item.addr)

module _ {t : Tables} (v : IsValid t) (power : PowerOfTwo t.table_size) (item : Item)
    (h : item.string_hash ≡ hash_string item.name) where
  abbrev n : ℕ
  n = strhash_index item.string_hash t.table_size

  abbrev m : ℕ
  m = addrhash_index item.addr t.table_size

  -- a registered symbol of the name stands in the bucket of the name, one of the address in its
  name_bucket-In :
      (x : Item) → Registered t x → x.name ≡ item.name → In x (get_or t.symbol_table n [])
  name_bucket-In x w e =
      let same : x.string_hash ≡ item.string_hash = v.hashed x w ∙ ap hash_string e ∙ sym h in
      subst (λ (k : ℕ). In x (get_or t.symbol_table (strhash_index k t.table_size) [])) same
        (Placed-In v.symbols x w)

  addr_bucket-In :
      (x : Item) → Registered t x → x.addr ≡ item.addr → In x (get_or t.addr_table m [])
  addr_bucket-In x w e =
      subst (λ (a : ℕ). In x (get_or t.addr_table (addrhash_index a t.table_size) [])) e
        (Placed-In v.addrs x (v.to_addrs x w))

  abbrev entered : Tables
  entered = record t {
    symbol_table = set t.symbol_table n (item ∷ get_or t.symbol_table n []);
    addr_table = set t.addr_table m (item ∷ get_or t.addr_table m []);
    num_symbols = t.num_symbols + 1;
  }

  entered-Entered :
      ((x : Item) → Registered t x → x.name ≢ item.name)
      → ((x : Item) → Registered t x → x.addr ≢ item.addr)
      → Entered t item entered
  entered-Entered new_name new_addr =
      let lt_n = strhash_index-lt item.string_hash t.table_size power in
      let lt_m = addrhash_index-lt item.addr t.table_size power in
      let sym_keeps = λ (x : Item). put-keeps v.symbols item x lt_n in
      let addr_keeps = λ (x : Item). put-keeps v.addrs item x lt_m in
      record {
        valid = record {
          power = inr power;
          started = λ e. absurd (omega (arith, lt_n));
          symbols = put-Placed v.symbols item lt_n;
          addrs = put-Placed v.addrs item lt_m;
          to_addrs = λ x w. elim ((sym_keeps x).0 w) [
            | inl old ↦ (addr_keeps x).1 (inl (v.to_addrs x old))
            | inr e ↦ (addr_keeps x).1 (inr e)
          ];
          to_symbols = λ x w. elim ((addr_keeps x).0 w) [
            | inl old ↦ (sym_keeps x).1 (inl (v.to_symbols x old))
            | inr e ↦ (sym_keeps x).1 (inr e)
          ];
          hashed = λ x w. elim ((sym_keeps x).0 w) [
            | inl old ↦ v.hashed x old
            | inr e ↦
                ap (λ (z : Item). z.string_hash) e
                ∙ h
                ∙ ap (λ (z : Item). hash_string z.name) (sym e)
          ];
          by_name = λ x y wx wy e. elim ((sym_keeps x).0 wx) [
            | inl ox ↦ elim ((sym_keeps y).0 wy) [
              | inl oy ↦ v.by_name x y ox oy e
              | inr ey ↦ absurd (new_name x ox (e ∙ ap (λ (z : Item). z.name) ey))
            ]
            | inr ex ↦ elim ((sym_keeps y).0 wy) [
              | inl oy ↦ absurd (new_name y oy (sym e ∙ ap (λ (z : Item). z.name) ex))
              | inr ey ↦ ex ∙ sym ey
            ]
          ];
          by_addr = λ x y wx wy e. elim ((sym_keeps x).0 wx) [
            | inl ox ↦ elim ((sym_keeps y).0 wy) [
              | inl oy ↦ v.by_addr x y ox oy e
              | inr ey ↦ absurd (new_addr x ox (e ∙ ap (λ (z : Item). z.addr) ey))
            ]
            | inr ex ↦ elim ((sym_keeps y).0 wy) [
              | inl oy ↦ absurd (new_addr y oy (sym e ∙ ap (λ (z : Item). z.addr) ex))
              | inr ey ↦ ex ∙ sym ey
            ]
          ];
        };
        power = power;
        has = (sym_keeps item).1 (inr refl);
        keeps = λ x w. (sym_keeps x).1 (inl w);
        only = λ x w. (sym_keeps x).0 w;
      }

  -- The insertion enters the item, meets another symbol of the name or the address, or overflows
  -- the count.
  pub enter_item-cases :
      ((t' : Tables) × (enter_item t item ≡ recorded t') × Entered t item t')
      ⊎ (Conflict t item × (enter_item t item ≡ die))
      ⊎ ((2 ^ 31 ≤ t.num_symbols + 1) × (enter_item t item ≡ overflow))
  unfolding enter_item
  enter_item-cases =
      elim (find_symbol-cases item.string_hash item.name (get_or t.symbol_table n [])) [
        | inr (x, run, i, hx, nx) ↦
            let w : Registered t x = get_or-InSome t.symbol_table x n i in
            elim (Bool-cases (x.addr == item.addr)) [
              | inl same ↦
                  let e : x ≡ item = item-eq x item (ground arith) nx hx in
                  inl (
                    t,
                    rw (run, enter_item, same) refl,
                    record {
                      valid = v;
                      power = power;
                      has = subst (λ (z : Item). Registered t z) e w;
                      keeps = λ y wy. wy;
                      only = λ y wy. inl wy;
                    },
                  )
              | inr other ↦ inr (
                  inl (
                    record {
                      other = x;
                      registered = w;
                      clash = inl nx;
                      different = inr (λ e. ground arith);
                    },
                    rw (run, enter_item, other) refl,
                  ))
            ]
        | inl (stop, out) ↦
            let new_name : (x : Item) → Registered t x → x.name ≢ item.name =
              λ x w e. out x (name_bucket-In x w e) (v.hashed x w ∙ ap hash_string e ∙ sym h) e in
            elim (find_addr-cases item.addr (get_or t.addr_table m [])) [
              | inr (x, run, i, ax) ↦
                  let w : Registered t x = v.to_symbols x (get_or-InSome t.addr_table x m i) in
                  let not_same : ((x.string_hash == item.string_hash) && same_name item.name x.name)
                      ≡ false =
                    elim (Bool-cases
                      ((x.string_hash == item.string_hash) && same_name item.name x.name)) [
                        | inr other ↦ other
                        | inl same ↦
                            absurd
                              (new_name x w (sym (same_name-eq item.name x.name (ground arith))))
                      ] in
                  inr (
                    inl (
                      record {
                        other = x;
                        registered = w;
                        clash = inr ax;
                        different = inl (new_name x w);
                      },
                      rw (stop, run, enter_item, not_same) refl,
                    ))
              | inl (stop', out') ↦ elim (Bool-cases (leb (2 ^ 31) (t.num_symbols + 1))) [
                | inl many ↦
                    inr (inr (ground (arith, many), rw (stop, stop', many, enter_item) refl))
                | inr few ↦ inl (
                  entered,
                  rw (stop, stop', few, enter_item) refl,
                  entered-Entered new_name (λ x w e. out' x (addr_bucket-In x w e) e),
                )
              ]
            ]
      ]
