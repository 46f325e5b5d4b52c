-- ===== src/Divisor/Bounds.antt =====
-- Arithmetic behind both dividers: a scaled reciprocal that is slightly too large, or too small.
use fast_chd.Base.{ℕ, zero, suc, ◌+◌, ◌*◌, ◌/◌, ◌^◌, ◌≤◌, ◌<◌, ◌≡◌, arith, ap}
use native.Mathlib.Nat.{
  div-eq_of_lt-le, pow-zero, pow-suc, mul-le-mul_right, mul-le-mul_left, mul-lt-mul_of_pos_right,
}
use native.Mathlib.Nat.{le_of_mul-le-mul_left, lt_of_mul-lt-mul_left, add-zero}

pub pow-add : (b m n : ℕ) → b ^ (m + n) ≡ b ^ m * b ^ n
pow-add b m zero = rw add-zero (omega (arith, ap (λ (t : ℕ). b ^ m * t) (pow-zero b)))
pow-add b m (suc n) =
    let e : m + suc n ≡ suc (m + n) = omega arith in
    rw e (
      omega (
        arith,
        pow-suc b (m + n),
        ap (λ (t : ℕ). b ^ m * t) (pow-suc b n),
        ap (λ (t : ℕ). t * b) (pow-add b m n),
      ))

pub mul-lt-mul : {a b c d : ℕ} → a < c → b ≤ d → 0 < d → a * b < c * d
mul-lt-mul {a} h k p = omega (arith, mul-le-mul_left a k, mul-lt-mul_of_pos_right h p)

-- `F / K` is at most `1 / n` too large.
module _ (n F K d x q r : ℕ) (split : x ≡ n * q + r) (small : r < n) (over : F * n ≡ K + d)
    (fits : x * d < K) where
  scaled_up : n * (F * x) ≡ n * (q * K) + r * K + x * d
  scaled_up = omega (arith, ap (λ (t : ℕ). t * x) over, ap (λ (t : ℕ). t * K) split)

  rest_up : r * K + K ≤ n * K
  rest_up = omega (arith, mul-le-mul_right K small)

  pub reciprocal_up : F * x / K ≡ q
  reciprocal_up =
      div-eq_of_lt-le K (le_of_mul-le-mul_left {k = n} (omega (arith, scaled_up)) (omega arith))
        (lt_of_mul-lt-mul_left n (omega (arith, scaled_up, rest_up)))

  -- What the reciprocal leaves below `K`, times `n`, gives the remainder.
  pub reciprocal_rest : (low : ℕ) → F * x ≡ q * K + low → n * low / K ≡ r
  reciprocal_rest low e =
      div-eq_of_lt-le K (omega (arith, scaled_up, ap (λ (t : ℕ). n * t) e))
        (omega (arith, scaled_up, ap (λ (t : ℕ). n * t) e))

-- `F / K` is at most `1 / n` too small, and `x + 1` stands in for `x`.
module _ (n F K e x q r : ℕ) (split : x ≡ n * q + r) (small : r < n) (under : F * n + e ≡ K)
    (some_gap : 0 < e) (fits : e * (x + 1) ≤ K) where
  scaled_down : n * (F * x + F) + e * (x + 1) ≡ n * (q * K) + r * K + K
  scaled_down = omega (arith, ap (λ (t : ℕ). t * (x + 1)) under, ap (λ (t : ℕ). t * K) split)

  rest_down : r * K + K ≤ n * K
  rest_down = omega (arith, mul-le-mul_right K small)

  gap_pos : 0 < e * (x + 1)
  gap_pos = grind arith

  pub reciprocal_down : (F * x + F) / K ≡ q
  reciprocal_down =
      div-eq_of_lt-le K (le_of_mul-le-mul_left {k = n} (omega (arith, scaled_down)) (omega arith))
        (lt_of_mul-lt-mul_left n (omega (arith, scaled_down, rest_down, gap_pos)))

pub double_word : (w : ℕ) → 2 ^ (2 * w) ≡ 2 ^ w * 2 ^ w
double_word w = let e : 2 * w ≡ w + w = omega arith in rw e (pow-add 2 w w)

pub quad_word : (w : ℕ) → 2 ^ (4 * w) ≡ 2 ^ w * 2 ^ w * (2 ^ w * 2 ^ w)
quad_word w =
    let e : 4 * w ≡ 2 * w + 2 * w = omega arith in rw (e, pow-add 2 (2 * w) (2 * w), double_word w)
