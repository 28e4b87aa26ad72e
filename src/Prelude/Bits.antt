-- ===== src/Prelude/Bits.antt =====
-- C's `|` on disjoint fields and `&` with a low mask, as arithmetic, at every width.
use Prim.Native.Nat.{ℕ, zero, suc, ◌+◌, ◌-◌, ◌*◌, ◌/◌, ◌%◌, ◌^◌, ◌≤◌, ◌<◌, min, max}
use Prim.Native.Nat.{bit_and, bit_or, digits, bit_and-bitwise, bit_or-bitwise}
use mathlib.Core.Path.{◌≡◌, refl, ap, ◌∙◌}
use native.Mathlib.Nat.{
  pow-suc, one-le-pow, div-add-mod, mul-add-mod_self_left, mod-eq_of_lt, div-div-eq-div-mul,
}
use native.Mathlib.Omega.{arith}

abbrev and_upto : ℕ → ℕ → ℕ → ℕ
and_upto n a b = digits (λ b. zero) min n a b

abbrev or_upto : ℕ → ℕ → ℕ → ℕ
or_upto n a b = digits (λ b. b) max n a b

and_upto_enough : (n m a b : ℕ) → a ≤ n → a ≤ m → and_upto n a b ≡ and_upto m a b
and_upto_enough zero zero a b p q = refl
and_upto_enough zero (suc m) zero b p q = refl
and_upto_enough zero (suc m) (suc a) b p q = absurd (omega arith)
and_upto_enough (suc n) zero zero b p q = refl
and_upto_enough (suc n) zero (suc a) b p q = absurd (omega arith)
and_upto_enough (suc n) (suc m) zero b p q = refl
and_upto_enough (suc n) (suc m) (suc a) b p q =
    omega (arith, and_upto_enough n m (suc a / 2) (b / 2) (omega arith) (omega arith))

or_upto_enough : (n m a b : ℕ) → a ≤ n → a ≤ m → or_upto n a b ≡ or_upto m a b
or_upto_enough zero zero a b p q = refl
or_upto_enough zero (suc m) zero b p q = refl
or_upto_enough zero (suc m) (suc a) b p q = absurd (omega arith)
or_upto_enough (suc n) zero zero b p q = refl
or_upto_enough (suc n) zero (suc a) b p q = absurd (omega arith)
or_upto_enough (suc n) (suc m) zero b p q = refl
or_upto_enough (suc n) (suc m) (suc a) b p q =
    omega (arith, or_upto_enough n m (suc a / 2) (b / 2) (omega arith) (omega arith))

pub zero-bit_and : (b : ℕ) → bit_and 0 b ≡ 0
zero-bit_and b = bit_and-bitwise 0 b

pub zero-bit_or : (b : ℕ) → bit_or 0 b ≡ b
zero-bit_or b = bit_or-bitwise 0 b

and_step : (a b : ℕ) → bit_and a b ≡ bit_and (a / 2) (b / 2) * 2 + min (a % 2) (b % 2)
and_step zero b = omega (arith, zero-bit_and b, zero-bit_and (b / 2))
and_step (suc a) b =
    let more = bit_and-bitwise (suc a) b in
    let less = bit_and-bitwise (suc a / 2) (b / 2) in
    let same = and_upto_enough a (suc a / 2) (suc a / 2) (b / 2) (omega arith) (omega arith) in
    omega arith

or_step : (a b : ℕ) → bit_or a b ≡ bit_or (a / 2) (b / 2) * 2 + max (a % 2) (b % 2)
or_step zero b = omega (arith, zero-bit_or b, zero-bit_or (b / 2))
or_step (suc a) b =
    let more = bit_or-bitwise (suc a) b in
    let less = bit_or-bitwise (suc a / 2) (b / 2) in
    let same = or_upto_enough a (suc a / 2) (suc a / 2) (b / 2) (omega arith) (omega arith) in
    omega arith

-- by induction on a bound of the number
and-zero_upto : (n a : ℕ) → a ≤ n → bit_and a 0 ≡ 0
and-zero_upto n zero h = refl
and-zero_upto zero (suc a) h = absurd (omega arith)
and-zero_upto (suc n) (suc a) h =
    omega (arith, and_step (suc a) 0, and-zero_upto n (suc a / 2) (omega arith))

or-zero_upto : (n a : ℕ) → a ≤ n → bit_or a 0 ≡ a
or-zero_upto n zero h = refl
or-zero_upto zero (suc a) h = absurd (omega arith)
or-zero_upto (suc n) (suc a) h =
    omega (arith, or_step (suc a) 0, or-zero_upto n (suc a / 2) (omega arith))

pub bit_or-zero : (a : ℕ) → bit_or a 0 ≡ a
bit_or-zero a = or-zero_upto a a (omega arith)

pub bit_and-zero : (a : ℕ) → bit_and a 0 ≡ 0
bit_and-zero a = and-zero_upto a a (omega arith)

double_lem : (q k : ℕ) → q * 2 ^ suc k ≡ 2 * (q * 2 ^ k)
double_lem q k = omega (arith, ap (λ (t : ℕ). q * t) (pow-suc 2 k))

-- A field of `k` bits below a shifted number.
pub bit_or-shifted : (k q r : ℕ) → r < 2 ^ k → bit_or (q * 2 ^ k) r ≡ q * 2 ^ k + r
bit_or-shifted zero q r h =
    let e : r ≡ 0 = omega arith in rw e (omega (arith, bit_or-zero (q * 2 ^ 0)))
bit_or-shifted (suc k) q r h =
    let halves = pow-suc 2 k in
    let rest = bit_or-shifted k q (r / 2) (omega arith) in
    let here = or_step (q * 2 ^ suc k) r in
    let twice = double_lem q k in
    let half : (q * 2 ^ suc k) / 2 ≡ q * 2 ^ k = omega arith in
    let meets : bit_or (q * 2 ^ suc k / 2) (r / 2) ≡ q * 2 ^ k + r / 2 = rw half rest in omega arith

mod_halves : (a m : ℕ) → 0 < m → a % (2 * m) ≡ a / 2 % m * 2 + a % 2
mod_halves a m h =
    let q = a / 2 / m in
    let r = a / 2 % m in
    let low : r < m = omega arith in
    let parts : a / 2 ≡ m * q + r = omega (arith, div-add-mod (a / 2) m) in
    let whole' : a ≡ 2 * m * q + (r * 2 + a % 2) = omega arith in
    ap (λ (t : ℕ). t % (2 * m)) whole'
    ∙ mul-add-mod_self_left (2 * m) q (r * 2 + a % 2)
    ∙ mod-eq_of_lt (omega arith)

-- A mask of `k` low bits.
pub bit_and-mask : (k a : ℕ) → bit_and a (2 ^ k - 1) ≡ a % 2 ^ k
bit_and-mask zero a = omega (arith, bit_and-zero a)
bit_and-mask (suc k) a =
    let halves = pow-suc 2 k in
    let positive = one-le-pow k 2 (omega arith) in
    let here = and_step a (2 ^ suc k - 1) in
    let shorter : (2 ^ suc k - 1) / 2 ≡ 2 ^ k - 1 = omega arith in
    let rest : bit_and (a / 2) ((2 ^ suc k - 1) / 2) ≡ a / 2 % 2 ^ k =
      rw shorter (bit_and-mask k (a / 2)) in
    let split = mod_halves a (2 ^ k) positive in
    let whole : a % 2 ^ suc k ≡ a % (2 * 2 ^ k) = ap (λ (t : ℕ). a % t) (omega arith) in omega arith

-- A mask of `w` bits that starts at bit `s`.
pub bit_and-field : (s w a : ℕ) → bit_and a ((2 ^ w - 1) * 2 ^ s) ≡ a / 2 ^ s % 2 ^ w * 2 ^ s
bit_and-field zero w a =
    let mask : (2 ^ w - 1) * 2 ^ 0 ≡ 2 ^ w - 1 = omega arith in
    let same : a / 2 ^ 0 ≡ a = omega arith in rw (mask, same, bit_and-mask w a) (omega arith)
bit_and-field (suc s) w a =
    let here = and_step a ((2 ^ w - 1) * 2 ^ suc s) in
    let twice = double_lem (2 ^ w - 1) s in
    let half : (2 ^ w - 1) * 2 ^ suc s / 2 ≡ (2 ^ w - 1) * 2 ^ s = omega arith in
    let rest : bit_and (a / 2) ((2 ^ w - 1) * 2 ^ suc s / 2) ≡ a / 2 / 2 ^ s % 2 ^ w * 2 ^ s =
      rw half (bit_and-field s w (a / 2)) in
    let power : 2 * 2 ^ s ≡ 2 ^ suc s = omega (arith, pow-suc 2 s) in
    let quotient : a / 2 / 2 ^ s ≡ a / 2 ^ suc s =
      div-div-eq-div-mul a 2 (2 ^ s) ∙ ap (λ (t : ℕ). a / t) power in
    let rest' : bit_and (a / 2) ((2 ^ w - 1) * 2 ^ suc s / 2) ≡ a / 2 ^ suc s % 2 ^ w * 2 ^ s =
      rw (← quotient) rest in
    let twice' = double_lem (a / 2 ^ suc s % 2 ^ w) s in omega arith
