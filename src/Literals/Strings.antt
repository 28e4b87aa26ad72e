-- ===== src/Literals/Strings.antt =====
-- `PushString` of build-literals-v3.c in the nursery: the bytes of the data object.
use smlnj.Prelude.{
  ℕ, zero, suc, ◌+◌, ◌-◌, ◌*◌, ◌/◌, ◌%◌, ◌^◌, ◌<◌, ◌≤◌, ◌≡◌, refl, sym, ap, ◌∙◌, false, List, [],
  ◌∷◌, arith, ltb, leb, lt→ltb, if◌then◌else◌, length, get_or,
}
use mathlib.Core.Path.{subst}
use native.Mathlib.Nat.{zero-div, pow-succ', div-div-eq-div-mul}
use smlnj.Tags.{make_desc, int_to_ml, word_mod}
use smlnj.Tags.Dtag.{raw, vec_hdr}
use smlnj.MlState.{MlState, alloc_seq_hdr}
use smlnj.MlState.Objects.{
  Words, Words-get, Words-frame, Allocated, alloc_fields, alloc_fields-Allocated,
}
use smlnj.Literals.{State, ok, vk_obj, Collector, check_gc, push_ml_value}
use smlnj.Literals.Push.{
  little_endian, string_words, seq_word8, small_obj_szw, push_string, push_small_string,
  push_seq_hdr,
}

little_endian-byte :
    (code : ℕ → ℕ) (pc n k : ℕ)
    → ((i : ℕ) → code i < 256)
    → little_endian code pc n / 256 ^ k % 256 ≡ (if ltb k n then code (pc + k) else 0)
unfolding little_endian
little_endian-byte code pc zero k small = rw (zero-div (256 ^ k)) (ground arith)
little_endian-byte code pc (suc n) zero small =
    let b = small pc in let e : code (pc + 0) ≡ code pc = ap code (omega arith) in ground arith
little_endian-byte code pc (suc n) (suc k) small =
    let r = little_endian-byte code (pc + 1) n k small in
    let e : code (pc + 1 + k) ≡ code (pc + suc k) = ap code (omega arith) in
    let b = small pc in
    let rest = little_endian code (pc + 1) n in
    let shift : (code pc + 256 * rest) / 256 ^ suc k ≡ rest / 256 ^ k =
      ap (λ (d : ℕ). (code pc + 256 * rest) / d) (pow-succ' 256 k)
      ∙ sym (div-div-eq-div-mul (code pc + 256 * rest) 256 (256 ^ k))
      ∙ ap (λ (q : ℕ). q / 256 ^ k) (omega arith) in
    rw shift (ground arith)

string_words-byte :
    (code : ℕ → ℕ) (pc len szw k j : ℕ)
    → ((i : ℕ) → code i < 256)
    → k < szw
    → j < 8
    → get_or (string_words code pc len szw) k 0 / 256 ^ j % 256
      ≡ (if ltb (8 * k + j) len then code (pc + (8 * k + j)) else 0)
unfolding string_words
string_words-byte code pc len zero k j small h hj = absurd (omega arith)
string_words-byte code pc len (suc szw) zero j small h hj =
    let r = little_endian-byte code pc (if ltb len 8 then len else 8) j small in
    let e : code (pc + (8 * 0 + j)) ≡ code (pc + j) = ap code (omega arith) in ground arith
string_words-byte code pc len (suc szw) (suc k) j small h hj =
    let r = string_words-byte code (pc + 8) (len - 8) szw k j small (omega arith) hj in
    let e : code (pc + 8 + (8 * k + j)) ≡ code (pc + (8 * suc k + j)) = ap code (omega arith) in
    ground arith

length-string_words : (code : ℕ → ℕ) (pc len szw : ℕ) → length (string_words code pc len szw) ≡ szw
unfolding string_words
length-string_words code pc len zero = refl
length-string_words code pc len (suc szw) =
    omega (arith, length-string_words code (pc + 8) (len - 8) szw)

-- how many words a string's data takes
abbrev pub words_for : ℕ → ℕ
words_for len = (len + 1 + 7) / 8

-- a string object of the bytes of the code, pushed
pub record StringPushed (stp : State) (len : ℕ) (st' : State) : Type 0 where
  pub header : ℕ
  pub data' : ℕ
  pub pushed : st'.stk ≡ (record { val = header; kind = vk_obj }) ∷ stp.stk
  pub consumed : st'.pc ≡ stp.pc + len
  pub header_desc : st'.msp.mem (header - 8) ≡ make_desc seq_word8 vec_hdr
  pub header_words : Words st'.msp.mem header (data' ∷ (int_to_ml len ∷ []))
  pub data_desc : st'.msp.mem (data' - 8) ≡ make_desc (words_for len) raw
  pub bytes :
      (i : ℕ)
      → i < 8 * words_for len
      → st'.msp.mem (data' + 8 * (i / 8)) / 256 ^ (i % 8) % 256
        ≡ (if ltb i len then stp.code (stp.pc + i) else 0)
  pub below : (b : ℕ) → b < stp.msp.alloc_ptr → st'.msp.mem b ≡ stp.msp.mem b

not_less : (a b : ℕ) → b ≤ a → ltb a b ≡ false
not_less a b h = ground arith

not_at_most : (a b : ℕ) → b < a → leb a b ≡ false
not_at_most a b h = ground arith

-- a header allocated after its data leaves the data in place
module _ {msp : MlState} {desc hdesc : ℕ} {words fields : List ℕ} {r r' : ℕ × MlState}
    (d : Allocated msp desc words r) (hd : Allocated r.1 hdesc fields r') where
  header-desc : r'.1.mem (r'.0 - 8) ≡ hdesc
  header-desc = ap r'.1.mem (omega (arith, hd.address)) ∙ hd.described

  header-Words : Words r'.1.mem r'.0 fields
  header-Words = subst (λ (a : ℕ). Words r'.1.mem a fields) (sym hd.address) hd.filled

  data-desc : r'.1.mem (r.0 - 8) ≡ desc
  data-desc =
      ap r'.1.mem (omega (arith, d.address))
      ∙ hd.below msp.alloc_ptr (omega (arith, d.advanced))
      ∙ d.described

  data-Words : Words r'.1.mem r.0 words
  data-Words =
      subst (λ (a : ℕ). Words r'.1.mem a words) (sym d.address)
        (Words-frame r.1.mem r'.1.mem (msp.alloc_ptr + 8) words
          (λ b lo hi. hd.below b (omega (arith, d.advanced))) d.filled)

  both-below : (b : ℕ) → b < msp.alloc_ptr → r'.1.mem b ≡ msp.mem b
  both-below b h = hd.below b (omega (arith, d.advanced)) ∙ d.below b h

push_string-runs :
    (collect : Collector) (stp : State) (len : ℕ)
    → words_for len ≤ small_obj_szw
    → length stp.stk < stp.max_depth
    → 8 * (words_for len + 1 + 3) ≤ (stp.msp.limit_ptr + word_mod - stp.msp.alloc_ptr) % word_mod
    → (let words = string_words stp.code stp.pc len (words_for len) in
        let (data', msp) = alloc_fields stp.msp (make_desc (words_for len) raw) words in
        let (header, msp') =
          alloc_fields msp (make_desc seq_word8 vec_hdr) (data' ∷ (int_to_ml len ∷ [])) in
        push_string collect stp len
        ≡ ok (record stp {
          msp = msp';
          pc = stp.pc + len;
          stk = (record { val = header; kind = vk_obj }) ∷ stp.stk;
        }))
unfolding push_string push_small_string push_seq_hdr push_ml_value check_gc alloc_seq_hdr
    alloc_fields
push_string-runs collect stp len short room space =
    rw
      (
        not_at_most (2 ^ 31) len (omega arith),
        not_less small_obj_szw (words_for len) short,
        not_less _ (8 * (words_for len + 1 + 3)) space,
        lt→ltb (length stp.stk) stp.max_depth room,
        push_string,
        push_small_string,
        check_gc,
      )
      refl

-- With room in the nursery and on the stack, a string of up to 512 words is pushed as a header
-- that points to its data and has its length; the data's bytes are the code's, and every byte after
-- them in the data's words is zero. The program counter moves over the bytes, and memory below the
-- allocation pointer is unchanged.
pub push_string-StringPushed :
    (collect : Collector) (stp : State) (len : ℕ)
    → ((i : ℕ) → stp.code i < 256)
    → words_for len ≤ small_obj_szw
    → length stp.stk < stp.max_depth
    → 8 * (words_for len + 1 + 3) ≤ (stp.msp.limit_ptr + word_mod - stp.msp.alloc_ptr) % word_mod
    → (st' : State) × (push_string collect stp len ≡ ok st') × StringPushed stp len st'
push_string-StringPushed collect stp len small short room space =
    let szw = words_for len in
    let words = string_words stp.code stp.pc len szw in
    let n = length-string_words stp.code stp.pc len szw in
    let d = alloc_fields-Allocated stp.msp (make_desc szw raw) words in
    let r = alloc_fields stp.msp (make_desc szw raw) words in
    let fields = r.0 ∷ (int_to_ml len ∷ []) in
    let hd = alloc_fields-Allocated r.1 (make_desc seq_word8 vec_hdr) fields in
    let r' = alloc_fields r.1 (make_desc seq_word8 vec_hdr) fields in
    let st' : State = record stp {
      msp = r'.1;
      pc = stp.pc + len;
      stk = (record { val = r'.0; kind = vk_obj }) ∷ stp.stk;
    } in
    (
      st',
      push_string-runs collect stp len short room space,
      record {
        header = r'.0;
        data' = r.0;
        pushed = refl;
        consumed = refl;
        header_desc = header-desc d hd;
        header_words = header-Words d hd;
        data_desc = data-desc d hd;
        bytes = λ i h.
            let word = Words-get r'.1.mem r.0 words (i / 8) (data-Words d hd) (omega arith) in
            let byte =
              string_words-byte stp.code stp.pc len szw (i / 8) (i % 8) small (omega arith)
                (omega arith) in
            let here : 8 * (i / 8) + i % 8 ≡ i = omega arith in
            ap (λ (w : ℕ). w / 256 ^ (i % 8) % 256) word
            ∙ byte
            ∙ ap (λ (j : ℕ). if ltb j len then stp.code (stp.pc + j) else 0) here;
        below = both-below d hd;
      },
    )
