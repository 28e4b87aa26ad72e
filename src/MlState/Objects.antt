-- ===== src/MlState/Objects.antt =====
-- What the allocators of ml-objects.h leave in memory.
use smlnj.Prelude.{
  ℕ, zero, suc, ◌+◌, ◌*◌, ◌%◌, ◌<◌, ◌≤◌, ◌≡◌, refl, ◌≢◌, ap, ◌∙◌, List, [], ◌∷◌, arith, length,
  get_or,
}
use smlnj.Tags.{word_mod, make_desc, int_to_ml, ml_unit}
use smlnj.Tags.Dtag.{record', arr_data, raw}
use smlnj.MlState.{
  Mem, MlState, ref_alloc, alloc1, alloc2, alloc3, alloc4, alloc5, alloc6, alloc_seq_hdr,
  alloc_word, alloc_real64, alloc_int64, alloc_word64, alloc_nanoseconds, word64_from_ml,
  record_update, alloc_write, alloc,
}

-- consecutive words
abbrev pub Words : Mem → ℕ → List ℕ → Type 0
Words m a [] = Unit
Words m a (x ∷ xs) = (m a ≡ x) × Words m (a + 8) xs

pub Words-get :
    (m : Mem) (a : ℕ) (xs : List ℕ) (i : ℕ)
    → Words m a xs
    → i < length xs
    → m (a + 8 * i) ≡ get_or xs i 0
Words-get m a [] i w h = absurd (omega arith)
Words-get m a (x ∷ xs) zero w h = ap m (omega arith) ∙ w.0
Words-get m a (x ∷ xs) (suc i) w h = ap m (omega arith) ∙ Words-get m (a + 8) xs i w.1 (omega arith)

pub Words-frame :
    (m m' : Mem) (a : ℕ) (xs : List ℕ)
    → ((b : ℕ) → a ≤ b → b < a + 8 * length xs → m' b ≡ m b)
    → Words m a xs
    → Words m' a xs
Words-frame m m' a [] same w = tt
Words-frame m m' a (x ∷ xs) same w = (
  same a (omega arith) (omega arith) ∙ w.0,
  Words-frame m m' (a + 8) xs (λ b lo hi. same b (omega arith) (omega arith)) w.1,
)

-- the object `v`: its descriptor stands before its fields, the allocation pointer has moved over
-- it, and the memory below and above it and the registers are as before
pub record Allocated (msp : MlState) (desc : ℕ) (fields : List ℕ) (r : ℕ × MlState) : Type 0 where
  pub address : r.0 ≡ msp.alloc_ptr + 8
  pub described : r.1.mem msp.alloc_ptr ≡ desc
  pub filled : Words r.1.mem (msp.alloc_ptr + 8) fields
  pub advanced : r.1.alloc_ptr ≡ msp.alloc_ptr + 8 * (length fields + 1)
  pub below : (b : ℕ) → b < msp.alloc_ptr → r.1.mem b ≡ msp.mem b
  pub above : (b : ℕ) → msp.alloc_ptr + 8 * (length fields + 1) ≤ b → r.1.mem b ≡ msp.mem b
  pub registers : r.1 ≡ record msp { mem = r.1.mem; alloc_ptr = r.1.alloc_ptr }

-- the writes of an allocator, one after the other
unfoldable pub write_from : MlState → ℕ → List ℕ → MlState
unfolding alloc_write
write_from msp i [] = msp
write_from msp i (x ∷ xs) = write_from (alloc_write msp i x) (i + 1) xs

unfoldable pub alloc_fields : MlState → ℕ → List ℕ → ℕ × MlState
unfolding alloc_write alloc write_from
alloc_fields msp desc fields = alloc (write_from (alloc_write msp 0 desc) 1 fields) (length fields)

-- the writes from offset `i` on fill the words there, and touch nothing below or above
pub record Written (msp : MlState) (i : ℕ) (xs : List ℕ) (r : MlState) : Type 0 where
  pub filled : Words r.mem (msp.alloc_ptr + 8 * i) xs
  pub before : (b : ℕ) → b < msp.alloc_ptr + 8 * i → r.mem b ≡ msp.mem b
  pub after : (b : ℕ) → msp.alloc_ptr + 8 * (i + length xs) ≤ b → r.mem b ≡ msp.mem b
  pub same : r ≡ record msp { mem = r.mem }

pub write_from-Written :
    (msp : MlState) (i : ℕ) (xs : List ℕ) → Written msp i xs (write_from msp i xs)
unfolding write_from
write_from-Written msp i [] = record {
  filled = tt;
  before = λ b h. refl;
  after = λ b h. refl;
  same = refl;
}
write_from-Written msp i (x ∷ xs) =
    let rest = write_from-Written (alloc_write msp i x) (i + 1) xs in
    let next : msp.alloc_ptr + 8 * (i + 1) ≡ msp.alloc_ptr + 8 * i + 8 = omega arith in
    record {
      filled = (ground (arith, rest.before (msp.alloc_ptr + 8 * i)), rw next at rest.filled);
      before = λ b h. ground (arith, rest.before b);
      after = λ b h. ground (arith, rest.after b);
      same = rest.same;
    }

-- every allocator is the writes of its descriptor and fields, then the move of the pointer
pub alloc_fields-Allocated :
    (msp : MlState) (desc : ℕ) (fields : List ℕ)
    → Allocated msp desc fields (alloc_fields msp desc fields)
unfolding alloc_fields
alloc_fields-Allocated msp desc fields =
    let w = write_from-Written (alloc_write msp 0 desc) 1 fields in
    let x = write_from (alloc_write msp 0 desc) 1 fields in
    let here : x.alloc_ptr ≡ msp.alloc_ptr = ap (λ (q : MlState). q.alloc_ptr) w.same in
    record {
      address = omega arith;
      described = ground (arith, w.before msp.alloc_ptr);
      filled = w.filled;
      advanced = omega arith;
      below = λ b h. ground (arith, w.before b);
      above = λ b h. ground (arith, w.after b);
      registers =
          ap (λ (q : MlState). record q { alloc_ptr = x.alloc_ptr + 8 * (length fields + 1) })
            w.same;
    }

alloc_real64-Allocated :
    (msp : MlState) (a : ℕ) → Allocated msp (make_desc 1 raw) (a ∷ []) (alloc_real64 msp a)
unfolding alloc_real64
alloc_real64-Allocated msp a = record {
  address = omega arith;
  described = ground arith;
  filled = (ground arith, tt);
  advanced = omega arith;
  below = λ b h. ground arith;
  above = λ b h. ground arith;
  registers = refl;
}

-- Each inline allocator of objects returns the address of a new object that has the right
-- descriptor and fields, moves the allocation pointer over exactly that object, and changes
-- neither the rest of memory nor any other register.
pub allocators-Allocated :
    (msp : MlState) (a b c d e f : ℕ)
    → Allocated msp (make_desc 1 arr_data) (a ∷ []) (ref_alloc msp a)
      × Allocated msp (make_desc 1 record') (a ∷ []) (alloc1 msp a)
      × Allocated msp (make_desc 2 record') (a ∷ b ∷ []) (alloc2 msp a b)
      × Allocated msp (make_desc 3 record') (a ∷ b ∷ c ∷ []) (alloc3 msp a b c)
      × Allocated msp (make_desc 4 record') (a ∷ b ∷ c ∷ d ∷ []) (alloc4 msp a b c d)
      × Allocated msp (make_desc 5 record') (a ∷ b ∷ c ∷ d ∷ e ∷ []) (alloc5 msp a b c d e)
      × Allocated msp (make_desc 6 record') (a ∷ b ∷ c ∷ d ∷ e ∷ f ∷ []) (alloc6 msp a b c d e f)
      × Allocated msp a (b ∷ int_to_ml c ∷ []) (alloc_seq_hdr msp a b c)
      × Allocated msp (make_desc 1 raw) (a ∷ []) (alloc_word msp a)
      × Allocated msp (make_desc 1 raw) (a ∷ []) (alloc_real64 msp a)
      × Allocated msp (make_desc 1 raw) (a ∷ []) (alloc_int64 msp a)
      × Allocated msp (make_desc 1 raw) (a ∷ []) (alloc_word64 msp a)
      × Allocated msp
          (make_desc 1 raw)
          (((1000000000 * a + 1000 * b) % word_mod) ∷ [])
          (alloc_nanoseconds msp a b)
unfolding alloc_fields ref_alloc alloc1 alloc2 alloc3 alloc4 alloc5 alloc6 alloc_seq_hdr alloc_word
    alloc_int64 alloc_word64 alloc_nanoseconds
allocators-Allocated msp a b c d e f = (
  alloc_fields-Allocated msp _ (a ∷ []),
  alloc_fields-Allocated msp _ (a ∷ []),
  alloc_fields-Allocated msp _ (a ∷ b ∷ []),
  alloc_fields-Allocated msp _ (a ∷ b ∷ c ∷ []),
  alloc_fields-Allocated msp _ (a ∷ b ∷ c ∷ d ∷ []),
  alloc_fields-Allocated msp _ (a ∷ b ∷ c ∷ d ∷ e ∷ []),
  alloc_fields-Allocated msp _ (a ∷ b ∷ c ∷ d ∷ e ∷ f ∷ []),
  alloc_fields-Allocated msp _ (b ∷ int_to_ml c ∷ []),
  alloc_fields-Allocated msp _ (a ∷ []),
  alloc_real64-Allocated msp a,
  alloc_fields-Allocated msp _ (a ∷ []),
  alloc_fields-Allocated msp _ (a ∷ []),
  alloc_fields-Allocated msp _ (((1000000000 * a + 1000 * b) % word_mod) ∷ []),
)

-- Every 64-bit number comes back from its box: the bits that `ML_AllocInt64`, `ML_AllocWord64`
-- or `ML_AllocReal64` stores are what a read of the new object gives.
pub word64_from_ml-alloc :
    (msp : MlState) (w : ℕ)
    → (word64_from_ml (alloc_int64 msp w).1 (alloc_int64 msp w).0 ≡ w)
      × (word64_from_ml (alloc_word64 msp w).1 (alloc_word64 msp w).0 ≡ w)
      × (word64_from_ml (alloc_real64 msp w).1 (alloc_real64 msp w).0 ≡ w)
unfolding word64_from_ml alloc_int64 alloc_word64 alloc_real64
word64_from_ml-alloc msp w = (ground arith, ground arith, ground arith)

-- the store list from a pointer: the addresses of the updated cells, the last update first; its
-- cells lie below `top`
pub data StoreList (m : Mem) (top : ℕ) : ℕ → List ℕ → Type 0 where
  nil : StoreList m top ml_unit []
  cons :
      {p next a : ℕ} {rest : List ℕ}
      → m p ≡ a
      → m (p + 8) ≡ next
      → p ≢ ml_unit
      → p + 16 ≤ top
      → StoreList m top next rest
      → StoreList m top p (a ∷ rest)

StoreList-frame :
    {m m' : Mem} {top top' p : ℕ} {xs : List ℕ}
    → ((b : ℕ) → b < top → m' b ≡ m b)
    → top ≤ top'
    → StoreList m top p xs
    → StoreList m' top' p xs
StoreList-frame same h nil = nil
StoreList-frame same h (cons {p} hd tl ne fits rest) =
    cons (same p (omega arith) ∙ hd) (same (p + 8) (omega arith) ∙ tl) ne (omega arith)
      (StoreList-frame same h rest)

-- `ML_RecordUpdate` puts the updated cell's address in front of the store list, if the list lies
-- below the allocation pointer and that pointer is not the value that ends a list.
pub record_update-cons :
    (msp : MlState) (a : ℕ) {xs : List ℕ}
    → msp.alloc_ptr ≢ ml_unit
    → StoreList msp.mem msp.alloc_ptr msp.store_ptr xs
    → StoreList
        (record_update msp a).mem
        (record_update msp a).alloc_ptr
        (record_update msp a).store_ptr
        (a ∷ xs)
unfolding record_update
record_update-cons msp a ne list =
    cons (ground arith) (ground arith) ne (omega arith)
      (StoreList-frame (λ b h. ground arith) (omega arith) list)
