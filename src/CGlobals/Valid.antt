-- ===== src/CGlobals/Valid.antt =====
-- The invariant of the two tables of c-globals-tbl.c, and their growth.
use smlnj.Prelude.{
  ℕ, ◌+◌, ◌*◌, ◌/◌, ◌^◌, ◌<◌, ◌≡◌, refl, sym, ap, ◌∙◌, ◌⊎◌, inl, inr, List, [], ◌∷◌, arith, ◌==◌,
  if◌then◌else◌, length, get_or, set, replicate, length-replicate, get_or-replicate, length-set,
}
use smlnj.Prelude.Bits.{bit_and-mask}
use mathlib.Core.Path.{subst}
use native.Mathlib.Nat.{pow-suc, one-le-pow}
use smlnj.CGlobals.{Item, Tables, hash_string, strhash_index, addrhash_index, rehash, double}
use smlnj.CGlobals.Buckets.{In}
use smlnj.CGlobals.Rehash.{InSome, get_or-InSome, InSome-get_or, rehash-length, rehash-In, put-In}

-- the size is a power of two, so every hash has its bucket
abbrev pub PowerOfTwo : ℕ → Type 0
PowerOfTwo sz = (log : ℕ) × (sz ≡ 2 ^ log)

pub strhash_index-lt : (h sz : ℕ) → PowerOfTwo sz → strhash_index h sz < sz
unfolding strhash_index
strhash_index-lt h sz (log, e) =
    let some_bucket = one-le-pow log 2 (omega arith) in
    let index = bit_and-mask log h in rw e (omega arith)

pub addrhash_index-lt : (a sz : ℕ) → PowerOfTwo sz → addrhash_index a sz < sz
unfolding addrhash_index
addrhash_index-lt a sz (log, e) =
    let some_bucket = one-le-pow log 2 (omega arith) in
    let index = bit_and-mask log (a / 8) in rw e (omega arith)

-- every item of the table stands in the bucket of its index
pub record Placed {A : Type 0} (index : A → ℕ) (sz : ℕ) (t : List (List A)) : Type 0 where
  pub sized : length t ≡ sz
  pub placed : (x : A) (i : ℕ) → In x (get_or t i []) → index x ≡ i

-- an item of the symbol table
abbrev pub Registered : Tables → Item → Type 0
Registered t x = InSome x t.symbol_table

pub record IsValid (t : Tables) : Type 0 where
  pub power : (t.table_size ≡ 0) ⊎ PowerOfTwo t.table_size
  pub started : t.table_size ≡ 0 → t.num_symbols ≡ 0
  pub symbols : Placed (λ x. strhash_index x.string_hash t.table_size) t.table_size t.symbol_table
  pub addrs : Placed (λ x. addrhash_index x.addr t.table_size) t.table_size t.addr_table
  pub to_addrs : (x : Item) → Registered t x → InSome x t.addr_table
  pub to_symbols : (x : Item) → InSome x t.addr_table → Registered t x
  pub hashed : (x : Item) → Registered t x → x.string_hash ≡ hash_string x.name
  pub by_name : (x y : Item) → Registered t x → Registered t y → x.name ≡ y.name → x ≡ y
  pub by_addr : (x y : Item) → Registered t x → Registered t y → x.addr ≡ y.addr → x ≡ y

module _ {A : Type 0} (index : A → ℕ) (sz : ℕ) (small : (x : A) → index x < sz)
    (old : List (List A)) where
  -- a rehash into new buckets places the items, and keeps exactly them
  pub rehash-Placed : Placed index sz (rehash index old (replicate sz []))
  rehash-Placed =
      let len = length-replicate {A = List A} sz [] in
      record {
        sized = rehash-length index old (replicate sz []) ∙ len;
        placed = λ x i w. elim ((rehash-In index sz small old (replicate sz []) x i len).0 w) [
          | inl new ↦ absurd (subst (λ b. In x b) (get_or-replicate sz i []) new)
          | inr (_, k) ↦ k
        ];
      }

  pub rehash-keeps :
      (x : A)
      → (InSome x (rehash index old (replicate sz [])) → InSome x old)
        × (InSome x old → InSome x (rehash index old (replicate sz [])))
  rehash-keeps x =
      let len = length-replicate {A = List A} sz [] in
      (
        λ w.
            let (i, w') = InSome-get_or (rehash index old (replicate sz [])) x w in
            elim ((rehash-In index sz small old (replicate sz []) x i len).0 w') [
              | inl new ↦ absurd (subst (λ b. In x b) (get_or-replicate sz i []) new)
              | inr (w'', _) ↦ w''
            ],
        λ w.
            get_or-InSome (rehash index old (replicate sz [])) x (index x)
              ((rehash-In index sz small old (replicate sz []) x (index x) len).1 (inr (w, refl))),
      )

module _ {A : Type 0} {index : A → ℕ} {sz : ℕ} {t : List (List A)} (p : Placed index sz t) where
  -- an item of the table stands in the bucket where it is looked for
  pub Placed-In : (x : A) → InSome x t → In x (get_or t (index x) [])
  Placed-In x w =
      let (i, w') = InSome-get_or t x w in
      subst (λ (j : ℕ). In x (get_or t j [])) (sym (p.placed x i w')) w'

  -- putting an item in front of its bucket
  pub put-Placed :
      (x : A) → index x < sz → Placed index sz (set t (index x) (x ∷ get_or t (index x) []))
  put-Placed x h = record {
    sized = length-set t (index x) (x ∷ get_or t (index x) []) ∙ p.sized;
    placed = λ y i w. elim ((put-In index t x y i (omega (arith, p.sized))).0 w) [
      | inl old ↦ p.placed y i old
      | inr (q, k) ↦ ap index q ∙ k
    ];
  }

  pub put-keeps :
      (x y : A)
      → index x < sz
      → (InSome y (set t (index x) (x ∷ get_or t (index x) [])) → InSome y t ⊎ (y ≡ x))
        × (InSome y t ⊎ (y ≡ x) → InSome y (set t (index x) (x ∷ get_or t (index x) [])))
  put-keeps x y h =
      let t' = set t (index x) (x ∷ get_or t (index x) []) in
      let small : index x < length t = omega (arith, p.sized) in
      (
        λ w.
            let (i, w') = InSome-get_or t' y w in
            elim ((put-In index t x y i small).0 w') [
              | inl old ↦ inl (get_or-InSome t y i old)
              | inr (q, _) ↦ inr q
            ],
        λ w. elim w [
          | inl old ↦
              get_or-InSome t' y (index y)
                ((put-In index t x y (index y) small).1 (inl (Placed-In y old)))
          | inr q ↦
              get_or-InSome t' y (index x) ((put-In index t x y (index x) small).1 (inr (q, refl)))
        ],
      )

pub doubled : (sz : ℕ) → (sz ≡ 0) ⊎ PowerOfTwo sz → PowerOfTwo (if sz == 0 then 64 else 2 * sz)
doubled sz (inl e) = (6, rw e refl)
doubled sz (inr (log, e)) =
    let some_bucket = one-le-pow log 2 (omega arith) in
    let twice = pow-suc 2 log in (log + 1, ground arith)

-- growing keeps the invariant and the items, and leaves room
pub double-IsValid :
    (t : Tables)
    → IsValid t
    → IsValid (double t)
      × PowerOfTwo (double t).table_size
      × ((x : Item)
          → (Registered (double t) x → Registered t x) × (Registered t x → Registered (double t) x))
unfolding double
double-IsValid t v =
    let sz = if t.table_size == 0 then 64 else 2 * t.table_size in
    let power = doubled t.table_size v.power in
    let by_hash = λ (x : Item). strhash_index x.string_hash sz in
    let by_address = λ (x : Item). addrhash_index x.addr sz in
    let lt_hash = λ (x : Item). strhash_index-lt x.string_hash sz power in
    let lt_address = λ (x : Item). addrhash_index-lt x.addr sz power in
    let keeps = λ (x : Item). rehash-keeps by_hash sz lt_hash t.symbol_table x in
    let keeps' = λ (x : Item). rehash-keeps by_address sz lt_address t.addr_table x in
    (
      record {
        power = inr power;
        started = λ e.
            let some_bucket = one-le-pow power.0 2 (omega arith) in absurd (omega (arith, power.1));
        symbols = rehash-Placed by_hash sz lt_hash t.symbol_table;
        addrs = rehash-Placed by_address sz lt_address t.addr_table;
        to_addrs = λ x w. (keeps' x).1 (v.to_addrs x ((keeps x).0 w));
        to_symbols = λ x w. (keeps x).1 (v.to_symbols x ((keeps' x).0 w));
        hashed = λ x w. v.hashed x ((keeps x).0 w);
        by_name = λ x y wx wy. v.by_name x y ((keeps x).0 wx) ((keeps y).0 wy);
        by_addr = λ x y wx wy. v.by_addr x y ((keeps x).0 wx) ((keeps y).0 wy);
      },
      power,
      keeps,
    )
