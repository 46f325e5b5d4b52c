-- ===== src/Base/Digits.antt =====
-- The binary digits of a number, and how `|`, `&` and `^` act on them.
use Prim.Native.Nat.{
  ℕ, zero, suc, ◌+◌, ◌-◌, ◌*◌, ◌/◌, ◌%◌, ◌^◌, ◌≤◌, ◌<◌, min, max, bit_and, bit_or, bit_xor,
}
use Prim.Native.Nat.{differ, digits, bitwise, bit_and-bitwise, bit_or-bitwise, bit_xor-bitwise}
use mathlib.Core.Path.{◌≡◌, refl, ap, sym, ◌∙◌}
use native.Mathlib.Nat.{le_refl, pow-suc, pow-zero, div-add-mod, mod-eq_of_lt, mod-lt}
use native.Mathlib.Nat.{mul-add-mod_self_left, one-le-pow}
use native.Mathlib.Omega.{arith}

-- The native operations take their first operand as fuel; one round more than needed changes nothing.
module _ (z : ℕ → ℕ) (f : ℕ → ℕ → ℕ) where
  one_more : (fuel x y : ℕ) → x ≤ fuel → digits z f (suc fuel) x y ≡ digits z f fuel x y
  one_more zero zero y le = refl
  one_more zero (suc x) y le = absurd (omega arith)
  one_more (suc fuel) zero y le = refl
  one_more (suc fuel) (suc x) y le = rw (one_more fuel (suc x / 2) (y / 2) (omega arith))

  spare :
      (d fuel all x y : ℕ) → all ≡ d + fuel → x ≤ fuel → digits z f all x y ≡ digits z f fuel x y
  spare zero fuel all x y e le = let e' : all ≡ fuel = omega arith in rw e'
  spare (suc d) fuel all x y e le =
      let e' : all ≡ suc (d + fuel) = omega arith in
      rw e' (one_more (d + fuel) x y (omega arith) ∙ spare d fuel (d + fuel) x y refl le)

  lowest_first :
      (x y : ℕ)
      → bitwise z f (suc x) y ≡ bitwise z f (suc x / 2) (y / 2) * 2 + f (suc x % 2) (y % 2)
  lowest_first x y =
      let half = suc x / 2 in
      omega (arith, spare (x - half) half x half (y / 2) (omega arith) (le_refl half))

-- Exclusive or of two digits.
abbrev pub xor_digit : ℕ → ℕ → ℕ
xor_digit a b = (a + b) % 2

differ_lem : (a b : ℕ) → a < 2 → b < 2 → differ a b ≡ xor_digit a b
differ_lem zero b p q = omega arith
differ_lem (suc zero) zero p q = refl
differ_lem (suc zero) (suc zero) p q = refl
differ_lem (suc zero) (suc (suc b)) p q = absurd (omega arith)
differ_lem (suc (suc a)) b p q = absurd (omega arith)

zero-bit_and : (y : ℕ) → bit_and 0 y ≡ 0
zero-bit_and y = bit_and-bitwise 0 y

-- The lowest digit of a union, and of an intersection.
pub bit_or_step : (x y : ℕ) → bit_or x y ≡ bit_or (x / 2) (y / 2) * 2 + max (x % 2) (y % 2)
bit_or_step zero y = simp bit_or-bitwise (omega arith)
bit_or_step (suc x) y = simp bit_or-bitwise (lowest_first (λ t. t) max x y)

pub bit_and_step : (x y : ℕ) → bit_and x y ≡ bit_and (x / 2) (y / 2) * 2 + min (x % 2) (y % 2)
bit_and_step zero y = simp bit_and-bitwise (omega arith)
bit_and_step (suc x) y = simp bit_and-bitwise (lowest_first (λ t. 0) min x y)

pub bit_xor_step : (a b : ℕ) → bit_xor a b ≡ bit_xor (a / 2) (b / 2) * 2 + xor_digit (a % 2) (b % 2)
bit_xor_step zero b = simp bit_xor-bitwise (omega arith)
bit_xor_step (suc a) b = simp bit_xor-bitwise (
    lowest_first (λ y. y) differ a b
    ∙ ap (λ (t : ℕ). bitwise (λ y. y) differ (suc a / 2) (b / 2) * 2 + t)
        (differ_lem (suc a % 2) (b % 2) (omega arith) (omega arith)))

-- Digit `k` of `a`, 0 or 1.
unfoldable pub bit : ℕ → ℕ → ℕ
bit a zero = a % 2
bit a (suc k) = bit (a / 2) k

pub bit-lt : (a k : ℕ) → bit a k < 2
unfolding bit
bit-lt a zero = omega arith
bit-lt a (suc k) = bit-lt (a / 2) k

pub bit-or : (a b k : ℕ) → bit (bit_or a b) k ≡ max (bit a k) (bit b k)
unfolding bit
bit-or a b zero = omega (arith, bit_or_step a b)
bit-or a b (suc k) =
    let e : bit_or a b / 2 ≡ bit_or (a / 2) (b / 2) = omega (arith, bit_or_step a b) in
    rw e (bit-or (a / 2) (b / 2) k)

pub bit-and : (a b k : ℕ) → bit (bit_and a b) k ≡ min (bit a k) (bit b k)
unfolding bit
bit-and a b zero = omega (arith, bit_and_step a b)
bit-and a b (suc k) =
    let e : bit_and a b / 2 ≡ bit_and (a / 2) (b / 2) = omega (arith, bit_and_step a b) in
    rw e (bit-and (a / 2) (b / 2) k)

pub bit-xor : (a b k : ℕ) → bit (bit_xor a b) k ≡ xor_digit (bit a k) (bit b k)
unfolding bit
bit-xor a b zero = omega (arith, bit_xor_step a b)
bit-xor a b (suc k) =
    let e : bit_xor a b / 2 ≡ bit_xor (a / 2) (b / 2) = omega (arith, bit_xor_step a b) in
    rw e (bit-xor (a / 2) (b / 2) k)

pub bit-zero : (k : ℕ) → bit 0 k ≡ 0
unfolding bit
bit-zero zero = refl
bit-zero (suc k) = bit-zero k

half_pow : (i : ℕ) → 2 ^ suc i / 2 ≡ 2 ^ i
half_pow i = omega (arith, pow-suc 2 i)

-- `1 << i` has digit `i` alone.
pub bit-pow_self : (i : ℕ) → bit (2 ^ i) i ≡ 1
unfolding bit
bit-pow_self zero = refl
bit-pow_self (suc i) = rw (half_pow i) (bit-pow_self i)

pub bit-pow_ne : (i k : ℕ) → (i ≡ k → ⊥) → bit (2 ^ i) k ≡ 0
unfolding bit
bit-pow_ne zero zero h = absurd (h refl)
bit-pow_ne zero (suc k) h = bit-zero k
bit-pow_ne (suc i) zero h = omega (arith, pow-suc 2 i)
bit-pow_ne (suc i) (suc k) h = rw (half_pow i) (bit-pow_ne i k (λ e. h (ap suc e)))

-- Numbers below `2 ^ n` with the same digits below `n` are equal.
pub bit_ext : (n a b : ℕ) → a < 2 ^ n → b < 2 ^ n → ((k : ℕ) → k < n → bit a k ≡ bit b k) → a ≡ b
unfolding bit
bit_ext zero a b ha hb h = omega arith
bit_ext (suc n) a b ha hb h =
    let low : a % 2 ≡ b % 2 = h 0 (omega arith) in
    let p = pow-suc 2 n in
    let high =
      bit_ext n (a / 2) (b / 2) (omega arith) (omega arith) (λ k l. h (suc k) (omega arith)) in
    omega arith

-- Operations on `n`-bit words stay `n`-bit words.
pub bit_or-lt : (n a b : ℕ) → a < 2 ^ n → b < 2 ^ n → bit_or a b < 2 ^ n
bit_or-lt zero a b p q =
    let e : a ≡ 0 = omega arith in rw e (let f : b ≡ 0 = omega arith in rw f (omega arith))
bit_or-lt (suc n) a b p q =
    let e = pow-suc 2 n in
    omega (arith, bit_or_step a b, bit_or-lt n (a / 2) (b / 2) (omega arith) (omega arith))

pub bit_and-le : (n a b : ℕ) → a < 2 ^ n → bit_and a b ≤ a
bit_and-le zero a b p =
    let e : a ≡ 0 = omega arith in rw e (omega (arith, bit_and_step 0 b, zero-bit_and b))
bit_and-le (suc n) a b p =
    let e = pow-suc 2 n in
    omega (arith, bit_and_step a b, bit_and-le n (a / 2) (b / 2) (omega arith))

pub bit_xor-lt : (n a b : ℕ) → a < 2 ^ n → b < 2 ^ n → bit_xor a b < 2 ^ n
bit_xor-lt zero a b p q =
    let e : a ≡ 0 = omega arith in rw e (let f : b ≡ 0 = omega arith in rw f (omega arith))
bit_xor-lt (suc n) a b p q =
    let e = pow-suc 2 n in
    omega (arith, bit_xor_step a b, bit_xor-lt n (a / 2) (b / 2) (omega arith) (omega arith))

-- A word below `2 ^ n` has no digit at or above `n`.
pub bit-eq-zero : (n a k : ℕ) → a < 2 ^ n → n ≤ k → bit a k ≡ 0
unfolding bit
bit-eq-zero zero a k p h = let e : a ≡ 0 = omega arith in rw e (bit-zero k)
bit-eq-zero (suc n) a zero p h = absurd (omega arith)
bit-eq-zero (suc n) a (suc k) p h =
    let e = pow-suc 2 n in bit-eq-zero n (a / 2) k (omega arith) (omega arith)

-- A remainder, from the division that it belongs to.
pub mod_unique : (a P q t : ℕ) → a ≡ P * q + t → t < P → a % P ≡ t
mod_unique a P q t e h = rw e (mul-add-mod_self_left P q t ∙ mod-eq_of_lt h)

bit_and-zero : (n a : ℕ) → a ≤ n → bit_and a 0 ≡ 0
bit_and-zero n zero h = zero-bit_and 0
bit_and-zero zero (suc a) h = absurd (omega arith)
bit_and-zero (suc n) (suc a) h =
    omega (arith, bit_and_step (suc a) 0, bit_and-zero n (suc a / 2) (omega arith))

pub bit_or-zero : (n a : ℕ) → a ≤ n → bit_or a 0 ≡ a
bit_or-zero n zero h = omega (arith, bit_or_step 0 0)
bit_or-zero zero (suc a) h = absurd (omega arith)
bit_or-zero (suc n) (suc a) h =
    omega (arith, bit_or_step (suc a) 0, bit_or-zero n (suc a / 2) (omega arith))

-- A mask of `k` ones keeps the remainder by `2 ^ k`.
pub bit_and_mask : (k a : ℕ) → bit_and a (2 ^ k - 1) ≡ a % 2 ^ k
bit_and_mask zero a =
    let e : 2 ^ 0 ≡ 1 = pow-zero 2 in rw e (omega (arith, bit_and-zero a a (le_refl a)))
bit_and_mask (suc k) a =
    let p = pow-suc 2 k in
    let pos = one-le-pow k 2 in
    let half : (2 ^ suc k - 1) / 2 ≡ 2 ^ k - 1 = ground arith in
    let split : a ≡ 2 ^ suc k * (a / 2 / 2 ^ k) + (a / 2 % 2 ^ k * 2 + a % 2) =
      omega (arith, div-add-mod (a / 2) (2 ^ k), ap (λ (t : ℕ). t * (a / 2 / 2 ^ k)) p) in
    let small : a / 2 % 2 ^ k * 2 + a % 2 < 2 ^ suc k =
      ground (arith, mod-lt (a / 2) {m = 2 ^ k}) in
    let step : bit_and a (2 ^ suc k - 1) ≡ a / 2 % 2 ^ k * 2 + a % 2 =
      ground (arith, bit_and_step a (2 ^ suc k - 1), bit_and_mask k (a / 2), half) in
    rw step (sym (mod_unique a (2 ^ suc k) (a / 2 / 2 ^ k) _ split small))

pub bit_or_comm : (n a b : ℕ) → a < 2 ^ n → b < 2 ^ n → bit_or a b ≡ bit_or b a
bit_or_comm n a b p q =
    bit_ext n _ _ (bit_or-lt n a b p q) (bit_or-lt n b a q p)
      (λ k _. bit-or a b k ∙ omega arith ∙ sym (bit-or b a k))

pub bit_and-le_right : (n a b : ℕ) → b < 2 ^ n → bit_and a b ≤ b
bit_and-le_right zero a b p =
    let e : b ≡ 2 ^ 0 - 1 = omega arith in
    rw (e, bit_and_mask 0 a) (omega (arith, mod-lt a {m = 1}))
bit_and-le_right (suc n) a b p =
    let e = pow-suc 2 n in
    omega (arith, bit_and_step a b, bit_and-le_right n (a / 2) (b / 2) (omega arith))
