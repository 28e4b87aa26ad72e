-- ===== src/Literals/Ints.antt =====
-- The integer instructions against the encoder in compiler/CPS/main/literal-bytecode.sml.
use smlnj.Prelude.{
  ℕ, zero, suc, ◌+◌, ◌-◌, ◌*◌, ◌/◌, ◌%◌, ◌^◌, ◌<◌, ◌≤◌, ◌≡◌, refl, ap, ◌∙◌, Bool, List, [], ◌∷◌,
  arith, ltb, leb, if◌then◌else◌, length, ◌||◌, Bool-cases, inl, inr, true,
}
use smlnj.Tags.{word_mod, int_to_ml}
use smlnj.Literals.{
  State, Outcome, ok, vk_tagint, vk_rawint, push, big_endian, get_signed, push_tagged_int,
  push_raw_int64,
}
use smlnj.Literals.Step.{Runtime, more, go_on, step, step_ints}

-- the bytes of the code from an offset on
abbrev pub CodeAt : (ℕ → ℕ) → ℕ → List ℕ → Type 0
CodeAt code pc [] = Unit
CodeAt code pc (b ∷ bs) = (code pc ≡ b) × CodeAt code (pc + 1) bs

-- `largeIntToBytes`, on a number as a 64-bit word: the low `k` bytes, the first the most significant
abbrev pub int_bytes : ℕ → ℕ → List ℕ
int_bytes zero n = []
int_bytes (suc k) n = ((n / 256 ^ k) % 256) ∷ int_bytes k n

-- the number lies between `- 2 ^ (w - 1)` and `2 ^ (w - 1) - 1`, for `w = 8 * k`
abbrev pub fits : ℕ → ℕ → Bool
fits k n = ltb n (256 ^ k / 2) || leb (word_mod - 256 ^ k / 2) n

-- the common form of `encINT63` and `encINT64`: the opcodes of 0, of -1 plus one, and of the four
-- sizes
abbrev pub enc_int : ℕ → ℕ → ℕ → ℕ → List ℕ
enc_int zero_op neg_op sized_op n =
    if ltb n 32
    then (n + zero_op) ∷ []
    else if leb (word_mod - 32) n
    then (n + neg_op - word_mod) ∷ []
    else if fits 1 n
    then sized_op ∷ int_bytes 1 n
    else if fits 2 n
    then (sized_op + 1) ∷ int_bytes 2 n
    else if fits 4 n
    then (sized_op + 2) ∷ int_bytes 4 n
    else (sized_op + 3) ∷ int_bytes 8 n

-- `encINT63`
unfoldable pub enc_int63 : ℕ → List ℕ
enc_int63 n = enc_int 0 64 128 n

-- `encINT64`
unfoldable pub enc_int64 : ℕ → List ℕ
enc_int64 n = enc_int 64 128 156 n

bytes-1 :
    (code : ℕ → ℕ) (pc n : ℕ) → CodeAt code pc (int_bytes 1 n) → big_endian code pc 1 ≡ n % 256
unfolding big_endian
bytes-1 code pc n h = omega (arith, h.0)

bytes-2 :
    (code : ℕ → ℕ) (pc n : ℕ) → CodeAt code pc (int_bytes 2 n) → big_endian code pc 2 ≡ n % 256 ^ 2
unfolding big_endian
bytes-2 code pc n h = omega (arith, h.0, h.1.0)

bytes-4 :
    (code : ℕ → ℕ) (pc n : ℕ) → CodeAt code pc (int_bytes 4 n) → big_endian code pc 4 ≡ n % 256 ^ 4
unfolding big_endian
bytes-4 code pc n h = omega (arith, h.0, h.1.0, h.1.1.0, h.1.1.1.0)

bytes-8 :
    (code : ℕ → ℕ) (pc n : ℕ)
    → n < word_mod
    → CodeAt code pc (int_bytes 8 n)
    → big_endian code pc 8 ≡ n
unfolding big_endian
bytes-8 code pc n small h = omega (
  arith, h.0, h.1.0, h.1.1.0, h.1.1.1.0, h.1.1.1.1.0, h.1.1.1.1.1.0, h.1.1.1.1.1.1.0,
  h.1.1.1.1.1.1.1.0,
)

module _ (rt : Runtime) (st : State) where
  -- the instruction with the code `bs` is executed as a push of a number
  abbrev pub Pushes : (State → ℕ → Outcome State) → List ℕ → ℕ → Type 0
  Pushes push_int bs n =
      CodeAt st.code st.pc bs
      → step rt st ≡ go_on (push_int (record st { pc = st.pc + length bs }) n)

  tag_short : (op n : ℕ) → op < 32 → n ≡ op → Pushes push_tagged_int (op ∷ []) n
  unfolding step step_ints
  tag_short op n lo e h = rw (h.0, step) (ground arith)

  tag_neg :
      (op n : ℕ) → 32 ≤ op → op < 64 → n ≡ op + word_mod - 64 → Pushes push_tagged_int (op ∷ []) n
  unfolding step step_ints
  tag_neg op n lo hi e h = rw (h.0, step, step_ints, e) (ground arith)

  same_push :
      (push_int : State → ℕ → Outcome State) {p p' v v' : ℕ}
      → p ≡ p'
      → v ≡ v'
      → go_on (push_int (record st { pc = p }) v) ≡ go_on (push_int (record st { pc = p' }) v')
  same_push push_int {p' = p'} {v = v} e f =
      ap (λ (p : ℕ). go_on (push_int (record st { pc = p }) v)) e
      ∙ ap (λ (v : ℕ). go_on (push_int (record st { pc = p' }) v)) f

  tag_1 : (n : ℕ) → n < word_mod → fits 1 n ≡ true → Pushes push_tagged_int (128 ∷ int_bytes 1 n) n
  unfolding step get_signed push_tagged_int
  tag_1 n small f h =
      rw (h.0, step, bytes-1 st.code (st.pc + 1) n h.1)
        (same_push push_tagged_int (omega arith) (ground arith))

  tag_2 : (n : ℕ) → n < word_mod → fits 2 n ≡ true → Pushes push_tagged_int (129 ∷ int_bytes 2 n) n
  unfolding step get_signed push_tagged_int
  tag_2 n small f h =
      rw (h.0, step, bytes-2 st.code (st.pc + 1) n h.1)
        (same_push push_tagged_int (omega arith) (ground arith))

  tag_4 : (n : ℕ) → n < word_mod → fits 4 n ≡ true → Pushes push_tagged_int (130 ∷ int_bytes 4 n) n
  unfolding step get_signed push_tagged_int
  tag_4 n small f h =
      rw (h.0, step, bytes-4 st.code (st.pc + 1) n h.1)
        (same_push push_tagged_int (omega arith) (ground arith))

  tag_8 : (n : ℕ) → n < word_mod → Pushes push_tagged_int (131 ∷ int_bytes 8 n) n
  unfolding step get_signed push_tagged_int
  tag_8 n small h =
      rw (h.0, step, bytes-8 st.code (st.pc + 1) n small h.1)
        (same_push push_tagged_int (omega arith) (ground arith))

  raw_short : (op n : ℕ) → 64 ≤ op → op < 96 → n ≡ op - 64 → Pushes push_raw_int64 (op ∷ []) n
  unfolding step step_ints
  raw_short op n lo hi e h = rw (h.0, step, step_ints, e) (ground arith)

  raw_neg :
      (op n : ℕ) → 96 ≤ op → op < 128 → n ≡ op + word_mod - 128 → Pushes push_raw_int64 (op ∷ []) n
  unfolding step step_ints
  raw_neg op n lo hi e h = rw (h.0, step, step_ints, e) (ground arith)

  raw_1 : (n : ℕ) → n < word_mod → fits 1 n ≡ true → Pushes push_raw_int64 (156 ∷ int_bytes 1 n) n
  unfolding step get_signed push_raw_int64
  raw_1 n small f h =
      rw (h.0, step, bytes-1 st.code (st.pc + 1) n h.1)
        (same_push push_raw_int64 (omega arith) (ground arith))

  raw_2 : (n : ℕ) → n < word_mod → fits 2 n ≡ true → Pushes push_raw_int64 (157 ∷ int_bytes 2 n) n
  unfolding step get_signed push_raw_int64
  raw_2 n small f h =
      rw (h.0, step, bytes-2 st.code (st.pc + 1) n h.1)
        (same_push push_raw_int64 (omega arith) (ground arith))

  raw_4 : (n : ℕ) → n < word_mod → fits 4 n ≡ true → Pushes push_raw_int64 (158 ∷ int_bytes 4 n) n
  unfolding step get_signed push_raw_int64
  raw_4 n small f h =
      rw (h.0, step, bytes-4 st.code (st.pc + 1) n h.1)
        (same_push push_raw_int64 (omega arith) (ground arith))

  raw_8 : (n : ℕ) → n < word_mod → Pushes push_raw_int64 (159 ∷ int_bytes 8 n) n
  unfolding step get_signed push_raw_int64
  raw_8 n small h =
      rw (h.0, step, bytes-8 st.code (st.pc + 1) n small h.1)
        (same_push push_raw_int64 (omega arith) (ground arith))

  tag_all : (n : ℕ) → n < word_mod → Pushes push_tagged_int (enc_int63 n) n
  unfolding enc_int63
  tag_all n small = elim (Bool-cases (ltb n 32)) [
    | inl e ↦ rw (e, enc_int63) (tag_short (n + 0) n (ground arith) (omega arith))
    | inr e ↦ elim (Bool-cases (leb (word_mod - 32) n)) [
      | inl g ↦
          rw (e, g, enc_int63)
            (tag_neg (n + 64 - word_mod) n (ground arith) (ground arith) (ground arith))
      | inr g ↦ elim (Bool-cases (fits 1 n)) [
        | inl a ↦ rw (e, g, a, enc_int63) (tag_1 n small a)
        | inr a ↦ elim (Bool-cases (fits 2 n)) [
          | inl b ↦ rw (e, g, a, b, enc_int63) (tag_2 n small b)
          | inr b ↦ elim (Bool-cases (fits 4 n)) [
            | inl c ↦ rw (e, g, a, b, c, enc_int63) (tag_4 n small c)
            | inr c ↦ rw (e, g, a, b, c, enc_int63) (tag_8 n small)
          ]
        ]
      ]
    ]
  ]

  raw_all : (n : ℕ) → n < word_mod → Pushes push_raw_int64 (enc_int64 n) n
  unfolding enc_int64
  raw_all n small = elim (Bool-cases (ltb n 32)) [
    | inl e ↦ rw (e, enc_int64) (raw_short (n + 64) n (omega arith) (ground arith) (omega arith))
    | inr e ↦ elim (Bool-cases (leb (word_mod - 32) n)) [
      | inl g ↦
          rw (e, g, enc_int64)
            (raw_neg (n + 128 - word_mod) n (ground arith) (ground arith) (ground arith))
      | inr g ↦ elim (Bool-cases (fits 1 n)) [
        | inl a ↦ rw (e, g, a, enc_int64) (raw_1 n small a)
        | inr a ↦ elim (Bool-cases (fits 2 n)) [
          | inl b ↦ rw (e, g, a, b, enc_int64) (raw_2 n small b)
          | inr b ↦ elim (Bool-cases (fits 4 n)) [
            | inl c ↦ rw (e, g, a, b, c, enc_int64) (raw_4 n small c)
            | inr c ↦ rw (e, g, a, b, c, enc_int64) (raw_8 n small)
          ]
        ]
      ]
    ]
  ]

  -- Where the code at the program counter is the encoder's form of an integer and the stack has
  -- room, a round of the loop puts twice the integer plus one, as a word, on the stack as a tagged
  -- integer, moves the program counter over exactly the encoding, and changes nothing else.
  pub enc_int63-step :
      (n : ℕ)
      → n < word_mod
      → CodeAt st.code st.pc (enc_int63 n)
      → length st.stk < st.max_depth
      → step rt st
        ≡ ok (
            more (record st {
              pc = st.pc + length (enc_int63 n);
              stk = (record { val = (2 * n + 1) % word_mod; kind = vk_tagint }) ∷ st.stk;
            }))
  unfolding push_tagged_int push int_to_ml
  enc_int63-step n small code room =
      let fits' : ltb (length st.stk) st.max_depth ≡ true = ground arith in
      tag_all n small code ∙ rw fits' refl

  -- Where the code at the program counter is the encoder's form of an integer and the stack has
  -- room, a round of the loop puts that integer on the stack as a raw one, moves the program
  -- counter over exactly the encoding, and changes nothing else.
  pub enc_int64-step :
      (n : ℕ)
      → n < word_mod
      → CodeAt st.code st.pc (enc_int64 n)
      → length st.stk < st.max_depth
      → step rt st
        ≡ ok (
            more (record st {
              pc = st.pc + length (enc_int64 n);
              stk = (record { val = n; kind = vk_rawint }) ∷ st.stk;
            }))
  unfolding push_raw_int64 push
  enc_int64-step n small code room =
      let fits' : ltb (length st.stk) st.max_depth ≡ true = ground arith in
      raw_all n small code ∙ rw fits' refl
