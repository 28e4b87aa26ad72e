-- ===== src/RecordOps/Concat.antt =====
-- `RecordConcat` as the allocation of one record.
use smlnj.Prelude.{
  ℕ, ◌+◌, ◌-◌, ◌*◌, ◌%◌, ◌^◌, ◌<◌, ◌≤◌, ◌≡◌, refl, sym, ap, ◌∙◌, ◌⊎◌, inl, inr, true, false, Option,
  none, some, List, [], ◌∷◌, ◌++◌, ◌&&◌, arith, ltb, length, length-append,
}
use mathlib.Core.Path.{subst}
use mathlib.Core.Option.{none-ne-some, some-injective}
use smlnj.Tags.{is_boxed, make_desc, ml_unit}
use smlnj.Tags.Dtag.{record'}
use smlnj.Tags.Laws.{make_desc-fields}
use smlnj.ArenaId.{objc_new, extract_objc}
use smlnj.Bibop.{Bibop, addr_to_pageid}
use smlnj.MlState.{Mem, MlState, alloc_write, alloc}
use smlnj.MlState.Objects.{
  Words, Words-frame, Allocated, write_from, alloc_fields, alloc_fields-Allocated,
}
use smlnj.RecordOps.{desc_len, get_rec_len, copy_from, concat_words, concat_lens, record_concat}

-- `n` words from `p` on and `m` words from `q` on do not meet
abbrev pub Apart : ℕ → ℕ → ℕ → ℕ → Type 0
Apart p n q m = (p + 8 * n ≤ q) ⊎ (q + 8 * m ≤ p)

alloc_write-apart :
    (msp : MlState) (i x b : ℕ)
    → (b < msp.alloc_ptr + 8 * i) ⊎ (msp.alloc_ptr + 8 * i < b)
    → (alloc_write msp i x).mem b ≡ msp.mem b
unfolding alloc_write
alloc_write-apart msp i x b (inl h) = ground arith
alloc_write-apart msp i x b (inr h) = ground arith

-- a copy of words that the writes do not meet is the writes of these words
copy_from-write_from :
    (xs : List ℕ) (msp : MlState) (j p : ℕ)
    → Words msp.mem p xs
    → Apart p (length xs) (msp.alloc_ptr + 8 * j) (length xs)
    → copy_from (length xs) msp j p ≡ write_from msp j xs
unfolding copy_from write_from alloc_write
copy_from-write_from [] msp j p w h = refl
copy_from-write_from (x ∷ xs) msp j p w h =
    let next = alloc_write msp j x in
    let same : (b : ℕ) → p + 8 ≤ b → b < p + 8 + 8 * length xs → next.mem b ≡ msp.mem b = λ b lo hi.
      alloc_write-apart msp j x b
        (elim h [ inl before ↦ inl (omega arith) | inr after ↦ inr (omega arith) ]) in
    ap (λ (y : ℕ). copy_from (length xs) (alloc_write msp j y) (j + 1) (p + 8)) w.0
    ∙ copy_from-write_from xs next (j + 1) (p + 8)
        (Words-frame msp.mem next.mem (p + 8) xs same w.1)
        (elim h [ inl before ↦ inl (omega arith) | inr after ↦ inr (omega arith) ])

write_from-append :
    (xs ys : List ℕ) (msp : MlState) (i : ℕ)
    → write_from (write_from msp i xs) (i + length xs) ys ≡ write_from msp i (xs ++ ys)
unfolding write_from
write_from-append [] ys msp i = ap (λ (k : ℕ). write_from msp k ys) (omega arith)
write_from-append (x ∷ xs) ys msp i =
    ap (λ (k : ℕ). write_from (write_from (alloc_write msp i x) (i + 1) xs) k ys) (omega arith)
    ∙ write_from-append xs ys (alloc_write msp i x) (i + 1)

-- the writes change nothing outside
write_from-apart :
    (xs : List ℕ) (msp : MlState) (i b : ℕ)
    → (b < msp.alloc_ptr + 8 * i) ⊎ (msp.alloc_ptr + 8 * (i + length xs) ≤ b)
    → (write_from msp i xs).mem b ≡ msp.mem b
unfolding write_from alloc_write
write_from-apart [] msp i b h = refl
write_from-apart (x ∷ xs) msp i b h =
    write_from-apart xs (alloc_write msp i x) (i + 1) b
      (elim h [ inl before ↦ inl (omega arith) | inr after ↦ inr (omega arith) ])
    ∙ alloc_write-apart msp i x b
        (elim h [ inl before ↦ inl (omega arith) | inr after ↦ inr (omega arith) ])

write_from-alloc_ptr :
    (xs : List ℕ) (msp : MlState) (i : ℕ) → (write_from msp i xs).alloc_ptr ≡ msp.alloc_ptr
unfolding write_from alloc_write
write_from-alloc_ptr [] msp i = refl
write_from-alloc_ptr (x ∷ xs) msp i = write_from-alloc_ptr xs (alloc_write msp i x) (i + 1)

-- a record that `GetLen` accepts, with its fields, apart from `n` words of the allocation area
pub record IsRecord (b : Bibop) (msp : MlState) (r : ℕ) (fields : List ℕ) (n : ℕ) : Type 0 where
  pub len : get_rec_len b msp.mem r ≡ some (length fields)
  pub words : Words msp.mem r fields
  pub apart : Apart r (length fields) msp.alloc_ptr n

module _ (msp : MlState) (r1 r2 : ℕ) (xs ys : List ℕ) where
  abbrev total : ℕ
  total = length xs + length ys

  abbrev desc : ℕ
  desc = make_desc total record'

  concat_words-alloc_fields :
      Words msp.mem r1 xs
      → Words msp.mem r2 ys
      → Apart r1 (length xs) msp.alloc_ptr (total + 1)
      → Apart r2 (length ys) msp.alloc_ptr (total + 1)
      → concat_words msp r1 (length xs) r2 (length ys) ≡ alloc_fields msp desc (xs ++ ys)
  unfolding concat_words alloc_fields
  concat_words-alloc_fields w1 w2 a1 a2 =
      let msp0 = alloc_write msp 0 desc in
      let msp1 = write_from msp0 1 xs in
      let ptr1 : msp1.alloc_ptr ≡ msp.alloc_ptr = write_from-alloc_ptr xs msp0 1 in
      let header : (r b : ℕ) (n : ℕ)
          → Apart r n msp.alloc_ptr (total + 1)
          → r ≤ b
          → b < r + 8 * n
          → msp0.mem b ≡ msp.mem b =
        λ r b n apart lo hi.
          alloc_write-apart msp 0 desc b
            (elim apart [ inl before ↦ inl (omega arith) | inr after ↦ inr (omega arith) ]) in
      let first : copy_from (length xs) msp0 1 r1 ≡ msp1 =
        copy_from-write_from xs msp0 1 r1
          (Words-frame msp.mem msp0.mem r1 xs (λ b. header r1 b (length xs) a1) w1)
          (elim a1 [ inl before ↦ inl (omega arith) | inr after ↦ inr (omega arith) ]) in
      let kept : (b : ℕ) → r2 ≤ b → b < r2 + 8 * length ys → msp1.mem b ≡ msp.mem b = λ b lo hi.
        write_from-apart xs msp0 1 b
          (elim a2 [ inl before ↦ inl (omega arith) | inr after ↦ inr (omega arith) ])
        ∙ header r2 b (length ys) a2 lo hi in
      let second : copy_from (length ys) msp1 (1 + length xs) r2
          ≡ write_from msp1 (1 + length xs) ys =
        copy_from-write_from ys msp1 (1 + length xs) r2 (Words-frame msp.mem msp1.mem r2 ys kept w2)
          (elim a2 [
            | inl before ↦ inl (omega (arith, ptr1, before))
            | inr after ↦ inr (omega (arith, ptr1, after))
          ]) in
      ap (λ (m : MlState). alloc (copy_from (length ys) m (1 + length xs) r2) total) first
      ∙ ap (λ (m : MlState). alloc m total) (second ∙ write_from-append xs ys msp0 1)
      ∙ ap (λ (n : ℕ). alloc (write_from msp0 1 (xs ++ ys)) n) (sym (length-append xs ys))

get_rec_len-new :
    (b : Bibop) (mem : Mem) (r n : ℕ)
    → is_boxed r ≡ true
    → extract_objc (addr_to_pageid b r) ≡ objc_new
    → mem (r - 8) ≡ make_desc n record'
    → n < 2 ^ 31
    → get_rec_len b mem r ≡ some n
unfolding get_rec_len desc_len
get_rec_len-new b mem r n boxed new here small =
    let (len, tag, _, _) = make_desc-fields n record' (omega arith) (omega arith) in
    let int : n % 2 ^ 32 ≡ n = omega arith in
    let positive : ltb n (2 ^ 31) ≡ true = ground arith in
    rw (boxed, new, here, len, tag, int, positive) refl

record_concat-by :
    (b : Bibop) (msp : MlState) (r1 r2 : ℕ) (l1 l2 : Option ℕ)
    → get_rec_len b msp.mem r1 ≡ l1
    → get_rec_len b msp.mem r2 ≡ l2
    → record_concat b msp r1 r2 ≡ concat_lens msp r1 l1 r2 l2
unfolding record_concat
record_concat-by b msp r1 r2 l1 l2 e1 e2 =
    ap (λ (l : Option ℕ). concat_lens msp r1 l r2 (get_rec_len b msp.mem r2)) e1
    ∙ ap (λ (l : Option ℕ). concat_lens msp r1 l1 r2 l) e2

-- not the length of a record with fields
abbrev pub Empty : Option ℕ → Type 0
Empty l = (l ≡ none) ⊎ (l ≡ some 0)

concat_lens-Empty :
    (msp : MlState) (r1 r2 : ℕ) (l1 l2 : Option ℕ)
    → Empty l1 ⊎ Empty l2
    → concat_lens msp r1 l1 r2 l2 ≡ (ml_unit, msp)
unfolding concat_lens
concat_lens-Empty msp r1 r2 none l2 h = refl
concat_lens-Empty msp r1 r2 (some n) none h = refl
concat_lens-Empty msp r1 r2 (some n) (some m) (inl (inl e)) = absurd (none-ne-some n (sym e))
concat_lens-Empty msp r1 r2 (some n) (some m) (inl (inr e)) =
    let none_there : n ≡ 0 = some-injective n 0 e in
    let empty : (ltb 0 n && ltb 0 m) ≡ false = ground arith in rw empty refl
concat_lens-Empty msp r1 r2 (some n) (some m) (inr (inl e)) = absurd (none-ne-some m (sym e))
concat_lens-Empty msp r1 r2 (some n) (some m) (inr (inr e)) =
    let none_there : m ≡ 0 = some-injective m 0 e in
    let empty : (ltb 0 n && ltb 0 m) ≡ false = ground arith in rw empty refl

records-Allocated :
    (b : Bibop) (msp : MlState) (r1 r2 : ℕ) (xs ys : List ℕ)
    → 0 < length xs
    → 0 < length ys
    → IsRecord b msp r1 xs (length xs + length ys + 1)
    → IsRecord b msp r2 ys (length xs + length ys + 1)
    → Allocated msp
        (make_desc (length xs + length ys) record')
        (xs ++ ys)
        (record_concat b msp r1 r2)
unfolding concat_lens
records-Allocated b msp r1 r2 xs ys some1 some2 rec1 rec2 =
    let full : (ltb 0 (length xs) && ltb 0 (length ys)) ≡ true = ground (arith, some1, some2) in
    let one : concat_lens msp r1 (some (length xs)) r2 (some (length ys))
        ≡ concat_words msp r1 (length xs) r2 (length ys) =
      rw full refl in
    subst
      (λ (r : ℕ × MlState). Allocated msp (make_desc (length xs + length ys) record') (xs ++ ys) r)
      (sym (
        record_concat-by b msp r1 r2 _ _ rec1.len rec2.len
        ∙ one
        ∙ concat_words-alloc_fields msp r1 r2 xs ys rec1.words rec2.words rec1.apart rec2.apart))
      (alloc_fields-Allocated msp (make_desc (length xs + length ys) record') (xs ++ ys))

-- `RecordConcat` of two records with fields, apart from the words that it allocates, gives a new
-- record that holds the fields of the first and then those of the second, and changes nothing but
-- the allocation area. On a page of the allocation area, `GetLen` of it is the sum of the lengths,
-- where that fits an `int`.
pub record_concat-Allocated :
    (b : Bibop) (msp : MlState) (r1 r2 : ℕ) (xs ys : List ℕ)
    → 0 < length xs
    → 0 < length ys
    → IsRecord b msp r1 xs (length xs + length ys + 1)
    → IsRecord b msp r2 ys (length xs + length ys + 1)
    → is_boxed (msp.alloc_ptr + 8) ≡ true
    → extract_objc (addr_to_pageid b (msp.alloc_ptr + 8)) ≡ objc_new
    → length xs + length ys < 2 ^ 31
    → Allocated msp
        (make_desc (length xs + length ys) record')
        (xs ++ ys)
        (record_concat b msp r1 r2)
      × (get_rec_len b (record_concat b msp r1 r2).1.mem (record_concat b msp r1 r2).0
          ≡ some (length xs + length ys))
record_concat-Allocated b msp r1 r2 xs ys some1 some2 rec1 rec2 boxed new small =
    let all = records-Allocated b msp r1 r2 xs ys some1 some2 rec1 rec2 in
    (
      all,
      ap (λ (r : ℕ). get_rec_len b (record_concat b msp r1 r2).1.mem r) all.address
          ∙ get_rec_len-new b (record_concat b msp r1 r2).1.mem (msp.alloc_ptr + 8)
              (length xs + length ys) boxed new
              (ap (record_concat b msp r1 r2).1.mem (omega arith) ∙ all.described) small,
    )

-- If an argument is no record or has no fields, the result is unit and nothing changes.
pub record_concat-Empty :
    (b : Bibop) (msp : MlState) (r1 r2 : ℕ)
    → Empty (get_rec_len b msp.mem r1) ⊎ Empty (get_rec_len b msp.mem r2)
    → record_concat b msp r1 r2 ≡ (ml_unit, msp)
record_concat-Empty b msp r1 r2 h =
    record_concat-by b msp r1 r2 (get_rec_len b msp.mem r1) (get_rec_len b msp.mem r2) refl refl
    ∙ concat_lens-Empty msp r1 r2 (get_rec_len b msp.mem r1) (get_rec_len b msp.mem r2) h
