-- ===== src/Base/Masks.antt =====
-- Digits under a remainder, a complement and a single-bit mask.
use Prim.Native.Nat.{
  bit_or-bitwise, bit_or, ℕ, zero, suc, ◌+◌, ◌-◌, ◌*◌, ◌/◌, ◌%◌, ◌^◌, ◌<◌, bit_and,
}
use mathlib.Core.Path.{◌≡◌, ap, ◌∙◌}
use native.Mathlib.Nat.{pow-suc, pow-zero, div-add-mod, mod-lt, one-le-pow}
use native.Mathlib.Omega.{arith}
use fast_chd.Base.Digits.{bit, bit_or_step, bit_and_step, bit_and_mask, mod_unique}

pub mod_step : (n a : ℕ) → a % 2 ^ suc n ≡ a / 2 % 2 ^ n * 2 + a % 2
mod_step n a =
    let p = pow-suc 2 n in
    let pos = one-le-pow n 2 in
    mod_unique a (2 ^ suc n) (a / 2 / 2 ^ n) _
      (omega (arith, div-add-mod (a / 2) (2 ^ n), ap (λ (t : ℕ). t * (a / 2 / 2 ^ n)) p))
      (ground (arith, mod-lt (a / 2) {m = 2 ^ n}))

pub bit-mod : (n a k : ℕ) → k < n → bit (a % 2 ^ n) k ≡ bit a k
unfolding bit
bit-mod zero a k h = absurd (omega arith)
bit-mod (suc n) a zero h = omega (arith, mod_step n a)
bit-mod (suc n) a (suc k) h =
    let e : a % 2 ^ suc n / 2 ≡ a / 2 % 2 ^ n = omega (arith, mod_step n a) in
    rw e (bit-mod n (a / 2) k (omega arith))

pub bit-complement : (n a k : ℕ) → a < 2 ^ n → k < n → bit (2 ^ n - 1 - a) k ≡ 1 - bit a k
unfolding bit
bit-complement zero a k l h = absurd (omega arith)
bit-complement (suc n) a zero l h = omega (arith, pow-suc 2 n)
bit-complement (suc n) a (suc k) l h =
    let e : (2 ^ suc n - 1 - a) / 2 ≡ 2 ^ n - 1 - a / 2 = omega (arith, pow-suc 2 n) in
    rw e (bit-complement n (a / 2) k (omega (arith, pow-suc 2 n)) (omega arith))

-- `b & (1 << i)`
pub bit_and-pow : (b i : ℕ) → bit_and b (2 ^ i) ≡ bit b i * 2 ^ i
unfolding bit
bit_and-pow b zero =
    bit_and_mask 1 b ∙ omega (arith, pow-zero 2, ap (λ (t : ℕ). b % 2 * t) (pow-zero 2))
bit_and-pow b (suc i) =
    let p = pow-suc 2 i in
    let half : 2 ^ suc i / 2 ≡ 2 ^ i = omega (arith, p) in
    bit_and_step b (2 ^ suc i)
    ∙ rw (half, bit_and-pow (b / 2) i) (omega (arith, p, ap (λ (t : ℕ). bit (b / 2) i * t) p))

-- `r | (q << k)` is a sum when `r` fits `k` bits.
pub bit_or_fields : (k q r : ℕ) → r < 2 ^ k → bit_or r (q * 2 ^ k) ≡ q * 2 ^ k + r
bit_or_fields zero q r fits =
    let e : r ≡ 0 = omega (arith, pow-zero 2) in
    let one : q * 2 ^ 0 ≡ q = omega (arith, ap (λ (t : ℕ). q * t) (pow-zero 2)) in
    rw (one, e, bit_or-bitwise) (omega arith)
bit_or_fields (suc k) q r fits =
    let p = pow-suc 2 k in
    let e : q * 2 ^ suc k ≡ q * 2 ^ k * 2 = omega (arith, ap (λ (t : ℕ). q * t) p) in
    let half : q * 2 ^ k * 2 / 2 ≡ q * 2 ^ k = omega arith in
    rw e (
      bit_or_step r (q * 2 ^ k * 2)
      ∙ rw (half, bit_or_fields k q (r / 2) (omega arith)) (omega arith))
