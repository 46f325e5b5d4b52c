-- ===== src/Hash/Word.antt =====
-- 64-bit words: addition, rotation, and how to undo them.
use fast_chd.Base.{
  ℕ, ◌+◌, ◌-◌, ◌*◌, ◌/◌, ◌%◌, ◌^◌, ◌≤◌, ◌<◌, ◌≡◌, ◌∙◌, sym, ap, arith, bit_or, bit_xor,
}
use fast_chd.Base.Digits.{bit-lt, bit-xor, bit_ext, bit_xor-lt, bit_or_comm, mod_unique}
use fast_chd.Base.Masks.{bit_or_fields}
use fast_chd.Divisor.Bounds.{pow-add}
use native.Mathlib.Nat.{
  div-add-mod, mod-lt, one-le-pow, div-lt_iff_lt-mul, mul_comm, div-eq_of_lt-le, div-le_self,
  mul-lt-mul_of_pos_right, mul-le-mul_right,
}

unfoldable pub add64 : ℕ → ℕ → ℕ
add64 a b = (a + b) % 2 ^ 64

unfoldable pub sub64 : ℕ → ℕ → ℕ
sub64 a b = (a + 2 ^ 64 - b) % 2 ^ 64

unfoldable pub rot64 : ℕ → ℕ → ℕ
rot64 x k = bit_or (x * 2 ^ k % 2 ^ 64) (x / 2 ^ (64 - k))

pub add64-lt : (a b : ℕ) → add64 a b < 2 ^ 64
unfolding add64
add64-lt a b = omega arith

pub sub64-add64 : (a b : ℕ) → a < 2 ^ 64 → b < 2 ^ 64 → sub64 (add64 a b) b ≡ a
unfolding add64 sub64
sub64-add64 a b p q = omega arith

pub xor_twice : (a b : ℕ) → a < 2 ^ 64 → b < 2 ^ 64 → bit_xor (bit_xor a b) b ≡ a
xor_twice a b p q =
    bit_ext 64 _ a (bit_xor-lt 64 (bit_xor a b) b (bit_xor-lt 64 a b p q) q) p
      λ k _. bit-xor (bit_xor a b) b k ∙ omega (arith, bit-xor a b k, bit-lt a k, bit-lt b k)

one_le_two : (n : ℕ) → 0 < 2 ^ n
one_le_two n = one-le-pow n 2 (omega arith)

-- A rotation moves the low part up and the high part down.
module _ (k : ℕ) (small : k ≤ 64) where
  abbrev low_weight : ℕ
  low_weight = 2 ^ (64 - k)

  weights : low_weight * 2 ^ k ≡ 2 ^ 64
  weights =
      let e : 64 - k + k ≡ 64 = omega arith in sym (pow-add 2 (64 - k) k) ∙ ap (λ (t : ℕ). 2 ^ t) e

  rot64_parts : (x : ℕ) → x < 2 ^ 64 → rot64 x k ≡ x % low_weight * 2 ^ k + x / low_weight
  unfolding rot64
  rot64_parts x h =
      let P = low_weight in
      let d = div-add-mod x P in
      let top : x / P < 2 ^ k =
        (div-lt_iff_lt-mul (one_le_two (64 - k))).1 (omega (arith, weights, mul_comm P (2 ^ k))) in
      let room : x % P * 2 ^ k < 2 ^ 64 =
        omega (
          arith,
          weights,
          mul-lt-mul_of_pos_right (mod-lt x (one_le_two (64 - k))) (one_le_two k),
        ) in
      let cut : x * 2 ^ k % 2 ^ 64 ≡ x % P * 2 ^ k =
        mod_unique (x * 2 ^ k) (2 ^ 64) (x / P) (x % P * 2 ^ k)
          (omega (arith, ap (λ (t : ℕ). t * 2 ^ k) d, ap (λ (t : ℕ). t * (x / P)) weights)) room in
      rw cut (
        bit_or_comm 64 (x % P * 2 ^ k) (x / P) room (omega (arith, div-le_self x P))
        ∙ bit_or_fields k (x % P) (x / P) top)

  top_part : (x : ℕ) → x < 2 ^ 64 → x / low_weight < 2 ^ k
  top_part x h =
      (div-lt_iff_lt-mul (one_le_two (64 - k))).1
        (omega (arith, weights, mul_comm low_weight (2 ^ k)))

  pub rot64-lt : (x : ℕ) → x < 2 ^ 64 → rot64 x k < 2 ^ 64
  rot64-lt x h = rw (rot64_parts x h) (
      omega
        (arith, top_part x h, weights, mul-le-mul_right (2 ^ k) (mod-lt x (one_le_two (64 - k)))))

-- Rotating on by what is left of the word gives the word back.
pub rot64_back : (k x : ℕ) → k ≤ 64 → x < 2 ^ 64 → rot64 (rot64 x k) (64 - k) ≡ x
rot64_back k x small h =
    let P = 2 ^ (64 - k) in
    let e : 64 - (64 - k) ≡ k = omega arith in
    let parts = rot64_parts k small x h in
    let again : rot64 (rot64 x k) (64 - k)
        ≡ rot64 x k % 2 ^ (64 - (64 - k)) * P + rot64 x k / 2 ^ (64 - (64 - k)) =
      rot64_parts (64 - k) (omega arith) (rot64 x k) (rot64-lt k small x h) in
    let low : rot64 x k % 2 ^ k ≡ x / P =
      mod_unique (rot64 x k) (2 ^ k) (x % P) (x / P) (omega arith) (top_part k small x h) in
    let high : rot64 x k / 2 ^ k ≡ x % P =
      div-eq_of_lt-le (2 ^ k) (omega arith) (omega (arith, top_part k small x h)) in
    again ∙ rw (e, low, high) (omega (arith, div-add-mod x P))
