-- ===== src/Literals/Build.antt =====
-- runtime/gc/build-literals-v3.c: `BuildLiterals` from its header on.
use smlnj.Prelude.{ℕ, ◌^◌, [], ◌==◌, ltb, leb, if◌then◌else◌, replicate, ◌||◌, not}
use smlnj.Tags.{ml_unit}
use smlnj.MlState.{MlState}
use smlnj.Literals.{Arena, State, Outcome, ok, die, undefined, out_of_fuel, big_endian}
use smlnj.Literals.Step.{Runtime, run}

abbrev pub v1_magic : ℕ
v1_magic = 429396002

abbrev pub v2_magic : ℕ
v2_magic = 538511649

abbrev pub v3_magic : ℕ
v3_magic = 539363602

-- the state before the first instruction of a version 3 literal
unfoldable pub start : MlState → Arena → (ℕ → ℕ) → ℕ → State
unfolding big_endian
start msp strings code len = record {
  msp = msp;
  strings = strings;
  code = code;
  code_sz = len;
  pc = 16;
  stk = [];
  saved = replicate (big_endian code 12 4) ml_unit;
  max_depth = big_endian code 4 4;
  max_saved = big_endian code 12 4;
}

-- the result of the run, with the ML state it leaves
abbrev pub finish : Outcome (ℕ × State) → Outcome (ℕ × MlState)
finish (ok (v, stp)) = ok (v, stp.msp)
finish die = die
finish undefined = undefined
finish out_of_fuel = out_of_fuel

-- `BuildLiterals`, with the interpreters of the older versions as parameters; it reads the four
-- words of the header in turn, and a size of the stack or of the saved array that is no positive
-- `int` is left out
unfoldable pub build_literals :
    Runtime
    → (ℕ → Outcome (ℕ × MlState))
    → (ℕ → ℕ → Outcome (ℕ × MlState))
    → ℕ
    → MlState
    → Arena
    → (ℕ → ℕ)
    → ℕ
    → Outcome (ℕ × MlState)
unfolding big_endian start run
build_literals rt v1 v2 fuel msp strings code len =
    let magic = big_endian code 0 4 in
    if ltb len 17
    then ok (ml_unit, msp)
    else if magic == v1_magic
    then v1 8
    else if magic == v2_magic
    then v2 (big_endian code 4 4) 8
    else if not (magic == v3_magic)
    then die
    else if not (big_endian code 8 4 == 64)
    then die
    else if leb (2 ^ 31) (big_endian code 12 4) || leb (2 ^ 31) (big_endian code 4 4)
    then undefined
    else finish (run rt fuel (start msp strings code len))
