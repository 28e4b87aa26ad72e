-- ===== src/AddrTbl/Size.antt =====
-- The number of buckets that `MakeAddrTbl` chooses.
use native.Mathlib.Nat.{pow-suc, one-le-pow}
use smlnj.Prelude.{
  ℕ, zero, suc, ◌*◌, ◌%◌, ◌^◌, ◌<◌, ◌≤◌, ◌≡◌, refl, ◌⊎◌, inl, inr, false, some, arith, ap, ltb,
  Bool-cases,
}
use smlnj.AddrTbl.{grow_buckets}

-- the outcome: a power of two, at least the size, and minimal above 16
pub record Fits (size n : ℕ) : Type 0 where
  pub log : ℕ
  pub power : n ≡ 2 ^ log
  pub covers : size ≤ n
  pub floor : 16 ≤ n
  pub small : n ≤ 2 ^ 31
  pub least : (n ≡ 16) ⊎ (n < 2 * size)

-- `e` doublings are left before 2 ^ 31
grow_buckets-Fits :
    (fuel e n size : ℕ)
    → n * 2 ^ e ≡ 2 ^ 31
    → e < fuel
    → size ≤ 2 ^ 31
    → 16 ≤ n
    → (log : ℕ) → n ≡ 2 ^ log
    → (n ≡ 16) ⊎ (n < 2 * size)
    → (m : ℕ) × (grow_buckets fuel n size ≡ some m) × Fits size m
unfolding grow_buckets
grow_buckets-Fits zero e n size p h hs h16 log pw least = absurd (omega arith)
grow_buckets-Fits (suc fuel) zero n size p h hs h16 log pw least =
    let top : ltb n size ≡ false = ground arith in
    (
      n,
      rw top,
      record {
        log = log;
        power = pw;
        covers = omega arith;
        floor = h16;
        small = omega arith;
        least = least;
      },
    )
grow_buckets-Fits (suc fuel) (suc e) n size p h hs h16 log pw least =
    let rest : n * 2 * 2 ^ e ≡ 2 ^ 31 = omega (arith, ap (λ (t : ℕ). n * t) (pow-suc 2 e)) in
    let positive = one-le-pow e 2 (omega arith) in
    let room : n * 2 ≤ 2 ^ 31 = grind arith in
    elim (Bool-cases (ltb n size)) [
      | inl more ↦
          let below : n * 2 % 2 ^ 32 ≡ n * 2 = omega arith in
          rw (more, below)
            (grow_buckets-Fits fuel e (n * 2) size rest (omega arith) hs (omega arith) (suc log)
              (omega (arith, pow-suc 2 log)) (inr (ground arith)))
      | inr done ↦ (
        n,
        rw done,
        record {
          log = log;
          power = pw;
          covers = ground arith;
          floor = h16;
          small = omega arith;
          least = least;
        },
      )
    ]

pub grow_buckets-Fits_start :
    (size : ℕ) → size ≤ 2 ^ 31 → (m : ℕ) × (grow_buckets 32 16 size ≡ some m) × Fits size m
grow_buckets-Fits_start size h =
    grow_buckets-Fits 32 27 16 size refl (omega arith) h (omega arith) 4 refl (inl refl)
