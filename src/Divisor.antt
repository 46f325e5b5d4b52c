-- ===== src/Divisor.antt =====
-- Division by an invariant integer: `DivisorMR` and `DivisorLKK` of include/utils.h, on words of
-- `w` bits. `uint64_t` divides by the first, the narrower words by the second.
-- The builds with SHD_PACK_SIZE or DISABLE_SOFT_DIVIDE, which are off by default, are left out.
pub mod Bounds
pub mod Mr
pub mod Lkk
use fast_chd.Base.{
  ℕ, zero, suc, ◌+◌, ◌-◌, ◌*◌, ◌/◌, ◌%◌, ◌^◌, Bool, false, ltb, leb, ◌==◌, if◌then◌else◌,
}

-- Modified Robison: a reciprocal `fac` of one word, a shift, and how to round.
pub record DivisorMr : Type 0 where
  pub val : ℕ
  pub fac : ℕ
  pub sft : ℕ
  pub ab : Bool

-- `for (; m > n; m >>= 1U) { m_sft--; }`, by recursion on `m_sft`; returns `m` and `m_sft`.
-- At 0 the power `m` is 1 and cannot exceed a positive `n`.
pub shift_down : ℕ → ℕ → ℕ → ℕ × ℕ
shift_down zero m n = (m, zero)
shift_down (suc s) m n = let rest = shift_down s (m / 2) n in if ltb n m then rest else (m, suc s)

-- The rest of `_init`, once the power of two and its exponent are known.
pub mr_fit : ℕ → ℕ → ℕ × ℕ → DivisorMr
mr_fit w n (m, sft) =
    if m == n
    then record { val = n; fac = 2 ^ w - 1; sft = sft; ab = false }
    else let fac = m * 2 ^ w / n % 2 ^ w in
      let r = (fac * n % 2 ^ w + n) % 2 ^ w in
      record { val = n; fac = fac; sft = sft; ab = leb r m }

unfoldable pub mr_init : ℕ → ℕ → DivisorMr
unfolding shift_down mr_fit
mr_init w n =
    if n == 0
    then record { val = n; fac = 0; sft = 0; ab = false }
    else mr_fit w n (shift_down (w - 1) (2 ^ (w - 1)) n)

unfoldable pub mr_div : ℕ → DivisorMr → ℕ → ℕ
mr_div w d x =
    let t = if d.ab then x else d.fac in (d.fac * x + t) % 2 ^ (2 * w) / 2 ^ (w + d.sft) % 2 ^ w

unfoldable pub mr_mod : ℕ → DivisorMr → ℕ → ℕ
unfolding mr_div
mr_mod w d x = (x + 2 ^ w - d.val * mr_div w d x % 2 ^ w) % 2 ^ w

-- Lemire, Kaser and Kurz: a reciprocal of two words.
pub record DivisorLkk : Type 0 where
  pub val : ℕ
  pub fac : ℕ

unfoldable pub lkk_init : ℕ → ℕ → DivisorLkk
lkk_init w n = record {
  val = n;
  fac = if n == 0 then 0 else ((2 ^ (2 * w) - 1) / n + 1) % 2 ^ (2 * w);
}

unfoldable pub lkk_div : ℕ → DivisorLkk → ℕ → ℕ
lkk_div w d x = let q = x * d.fac % 2 ^ (4 * w) / 2 ^ (2 * w) % 2 ^ w in if d.fac == 0 then x else q

unfoldable pub lkk_mod : ℕ → DivisorLkk → ℕ → ℕ
lkk_mod w d x = d.val * (x * d.fac % 2 ^ (2 * w)) % 2 ^ (4 * w) / 2 ^ (2 * w) % 2 ^ w
