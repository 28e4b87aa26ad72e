-- ===== src/Literals.antt =====
-- runtime/gc/build-literals-v3.c: the interpreter that builds a module's literals from bytecode, on
-- a little-endian machine. The stack is a list, its top first; each slot's union is a word.
pub mod Push
pub mod Step
pub mod Build
pub mod Ints
pub mod Roots
pub mod Objects
pub mod Slots
pub mod Progress
pub mod Ends
pub mod Loop
pub mod Strings
use smlnj.Prelude.{
  ℕ, zero, suc, ◌+◌, ◌-◌, ◌*◌, ◌/◌, ◌%◌, ◌^◌, Bool, List, [], ◌∷◌, ◌==◌, ltb, leb, if◌then◌else◌,
  length, get_or, set,
}
use smlnj.Tags.{make_desc, int_to_ml, ml_unit, word_mod}
use smlnj.Tags.Dtag.{record'}
use smlnj.MlState.{Mem, MlState, alloc_write, alloc}
use smlnj.MlState.Objects.{write_from}

-- `VK_TAGINT` and so on
pub data Kind : Type 0 where
  vk_tagint : Kind
  vk_rawint : Kind
  vk_real32 : Kind
  vk_real64 : Kind
  vk_obj : Kind

-- `StkItem_t`
pub record StkItem : Type 0 where
  pub val : ℕ
  pub kind : Kind

-- the first generation's string arena, as far as the interpreter uses it
pub record Arena : Type 0 where
  pub nextw : ℕ
  pub tosp_top : ℕ
  pub tosp_size_b : ℕ
  pub req_size_b : ℕ

-- `State_t`, with the string arena; `tos` is the stack's length less one
pub record State : Type 0 where
  pub msp : MlState
  pub strings : Arena
  pub code : ℕ → ℕ
  pub code_sz : ℕ
  pub pc : ℕ
  pub stk : List StkItem
  pub saved : List ℕ
  pub max_depth : ℕ
  pub max_saved : ℕ

-- how a piece of the run ends: with a value, in `Die`, with an access outside the stack or the saved
-- array, or without fuel
pub data Outcome (A : Type 0) : Type 0 where
  ok : A → Outcome A
  die : Outcome A
  undefined : Outcome A
  out_of_fuel : Outcome A

-- `InvokeGCWithRoots` at a level, with the root object and the registers and arena it moves
abbrev pub Collector : Type 0
Collector = MlState → Arena → ℕ → ℕ → MlState × (Arena × ℕ)

-- what `GC` stores for a stack slot
abbrev pub root_word : Kind → ℕ → ℕ
root_word vk_obj v = v
root_word _ v = ml_unit

abbrev pub root_of : StkItem → ℕ
root_of x = root_word x.kind x.val

-- the stack's slots from the bottom up
unfoldable pub bottom_up : List StkItem → List ℕ → List ℕ
bottom_up [] acc = acc
bottom_up (x ∷ stk) acc = bottom_up stk (root_of x ∷ acc)

-- the first loop of the restoration: `n` saved values from address `p` on
unfoldable pub restore_saved : Mem → ℕ → List ℕ → List ℕ
restore_saved m p [] = []
restore_saved m p (_ ∷ saved) = m p ∷ restore_saved m (p + 8) saved

abbrev pub restored_word : Kind → ℕ → ℕ → ℕ
restored_word vk_obj old v = v
restored_word _ old v = old

abbrev pub restored : StkItem → ℕ → StkItem
restored x v = record x { val = restored_word x.kind x.val v }

-- the second loop: slot `i` from the bottom is word `i`, so the top is the last
unfoldable pub restore_stack : Mem → ℕ → List StkItem → List StkItem
restore_stack m p [] = []
restore_stack m p (x ∷ stk) = restored x (m (p + 8 * length stk)) ∷ restore_stack m p stk

-- the root object that `GC` builds
unfoldable pub gc_root : State → ℕ × MlState
unfolding write_from alloc_write alloc make_desc bottom_up
gc_root stp =
    let n_roots = stp.max_saved + length stp.stk in
    let m = write_from (alloc_write stp.msp 0 (make_desc n_roots record')) 1 stp.saved in
    alloc (write_from m (stp.max_saved + 1) (bottom_up stp.stk [])) n_roots

-- `GC`
unfoldable pub gc : Collector → State → ℕ → State
unfolding gc_root restore_saved restore_stack
gc collect stp gc_level =
    let (root_obj, msp) = gc_root stp in
    let (msp', (strings', root_obj')) = collect msp stp.strings gc_level root_obj in
    record stp {
      msp = msp';
      strings = strings';
      saved = restore_saved msp'.mem root_obj' stp.saved;
      stk = restore_stack msp'.mem (root_obj' + 8 * stp.max_saved) stp.stk;
    }

-- `CheckGC`
unfoldable pub check_gc : Collector → State → ℕ → State
unfolding gc
check_gc collect stp req_space =
    let avail_space = (stp.msp.limit_ptr + word_mod - stp.msp.alloc_ptr) % word_mod in
    if ltb avail_space req_space then gc collect stp 0 else stp

-- the number that `n` bytes of the instruction stream stand for, the first the most significant
unfoldable pub big_endian : (ℕ → ℕ) → ℕ → ℕ → ℕ
big_endian code pc zero = 0
big_endian code pc (suc n) = code pc * 256 ^ n + big_endian code (pc + 1) n

-- `GetBytes` into a union of `n` bytes, and the unsigned argument fetches
unfoldable pub get_bytes : State → ℕ → ℕ × State
unfolding big_endian
get_bytes stp n = (big_endian stp.code stp.pc n, record stp { pc = stp.pc + n })

-- a signed argument of `n` bytes, sign extended to a word
abbrev pub sign_extend : ℕ → ℕ → ℕ
sign_extend n x = if ltb x (256 ^ n / 2) then x else x + word_mod - 256 ^ n

unfoldable pub get_signed : State → ℕ → ℕ × State
unfolding get_bytes
get_signed stp n = (sign_extend n (big_endian stp.code stp.pc n), (get_bytes stp n).1)

-- the body of the push functions
unfoldable pub push : Kind → State → ℕ → Outcome State
push kind stp v =
    if ltb (length stp.stk) stp.max_depth
    then ok (record stp { stk = (record { val = v; kind = kind }) ∷ stp.stk })
    else undefined

unfoldable pub push_tagged_int : State → ℕ → Outcome State
unfolding push int_to_ml
push_tagged_int stp n = push vk_tagint stp (int_to_ml n)

unfoldable pub push_raw_int64 : State → ℕ → Outcome State
unfolding push
push_raw_int64 stp n = push vk_rawint stp n

-- `PushReal32` and `PushReal64`, on bits: the first widens its float to a double
unfoldable pub push_real32 : (ℕ → ℕ) → State → ℕ → Outcome State
unfolding push
push_real32 widen stp f = push vk_real32 stp (widen f)

unfoldable pub push_real64 : State → ℕ → Outcome State
unfolding push
push_real64 stp d = push vk_real64 stp d

unfoldable pub push_ml_value : State → ℕ → Outcome State
unfolding push
push_ml_value stp v = push vk_obj stp v
