-- ===== src/Format/Skew.antt =====
-- The range of the skew map, for the divisor that the builder and the reader make from `L1Band`.
use fast_chd.Base.{ℕ, ◌+◌, ◌-◌, ◌*◌, ◌/◌, ◌%◌, ◌^◌, ◌≤◌, ◌<◌, ◌≡◌, ◌↔◌, arith, ap, refl}
use fast_chd.Base.Digits.{bit_and_mask}
use fast_chd.Divisor.{mr_init}
use fast_chd.Divisor.Mr.{mr_div_lem}
use fast_chd.Format.{l1h_max, l1tip, l1_top, l1_size, l1_band, skew_map}
use fast_chd.Format.Sizes.{l1_size_lem}
use native.Mathlib.Nat.{div-add-mod, mod-lt, mul-le-mul}
use fast_chd.Divisor.Bounds.{mul-lt-mul}
use native.Mathlib.Decide.{dec_lt}
use native.Mathlib.Nat.{
  zero-mul, div-le_of_le-mul, div-eq_of_eq-mul_right, mul-mod_left, mul-le-mul_left,
  div-mul-le_self, le_of_mul-le-mul_left, lt_of_mul-lt-mul_left, mod-eq_of_lt,
}
use native.Mathlib.Nat.{lt_of_mul-lt-mul_right}

-- The number that is scaled down: `x * (x + L1TIP)`, with `x` the low 31 bits of the code.
abbrev pub low31 : ℕ → ℕ
low31 code = code % 2 ^ 31

unfoldable pub skewed : ℕ → ℕ
skewed code = low31 code * (low31 code + l1tip)

skewed-le : (code : ℕ) → skewed code ≤ l1_top
unfolding skewed
skewed-le code =
    let h : low31 code ≤ l1h_max = omega arith in omega (arith, mul-le-mul h (le_add h))
  where
    le_add : low31 code ≤ l1h_max → low31 code + l1tip ≤ l1h_max + l1tip
    le_add h = omega arith

skewed_def : (code : ℕ) → skewed code ≡ low31 code * (low31 code + l1tip)
unfolding skewed
skewed_def code = refl

module _ (item : ℕ) (pos : 0 < item) (fits : item < 2 ^ 32) where
  abbrev l1sz : ℕ
  l1sz = l1_size item

  l1sz_bounds : (0 < l1sz) × (l1sz < 2 ^ 31)
  l1sz_bounds = omega (arith, l1_size_lem item fits)

  -- `L1Band` is the quotient rounded up.
  l1_band_lem : (l1_top ≤ l1_band item * l1sz) × (l1_band item * l1sz < l1_top + l1sz)
  unfolding l1_band
  l1_band_lem =
      let e : (l1_top + (l1sz + 2 ^ 32 - 1) % 2 ^ 32) % 2 ^ 64 ≡ l1_top + (l1sz - 1) =
        omega (arith, l1sz_bounds) in
      rw e (
        omega (
          arith,
          l1sz_bounds,
          div-add-mod (l1_top + (l1sz - 1)) l1sz,
          mod-lt (l1_top + (l1sz - 1)) (l1sz_bounds.0),
        ))

  l1_band_bounds : (0 < l1_band item) × (l1_band item < 2 ^ 64)
  l1_band_bounds =
      let grow = mul-le-mul_left (l1_band item) (l1sz_bounds.0) in
      (
        lt_of_mul-lt-mul_right l1sz (omega (arith, l1_band_lem, zero-mul l1sz)),
        omega (arith, grow, l1_band_lem, l1sz_bounds),
      )

  skew_map_lem :
      (code : ℕ) → skew_map code (mr_init 64 (l1_band item)) ≡ skewed code / l1_band item % 2 ^ 32
  unfolding skew_map skewed
  skew_map_lem code =
      let m = bit_and_mask 31 code in
      let s : (code % 2 ^ 31 + l1tip) % 2 ^ 64 ≡ code % 2 ^ 31 + l1tip = omega arith in
      let e : skewed code % 2 ^ 64 ≡ skewed code = omega (arith, skewed-le code) in
      rw (m, s, e)
        (rw (
          mr_div_lem 64 (l1_band item) (skewed code) (l1_band_bounds.0) (l1_band_bounds.1)
            (omega (arith, skewed-le code))))

  quotient-le : (code : ℕ) → skewed code / l1_band item ≤ l1sz
  quotient-le code = div-le_of_le-mul (l1_band item) (omega (arith, skewed-le code, l1_band_lem))

  -- For `0 < item < 2 ^ 32`, `SkewMap` with the divisor of `L1Band` returns at most `L1Size`.
  skew_map-le : (code : ℕ) → skew_map code (mr_init 64 (l1_band item)) ≤ l1_size item
  skew_map-le code = rw (skew_map_lem code) (omega (arith, quotient-le code))

  skewed_top : (code : ℕ) → l1_top ≤ skewed code → low31 code ≡ l1h_max
  unfolding skewed
  skewed_top code h = elim (dec_lt (low31 code) l1h_max) [
    | yes lt ↦ absurd (omega (arith, mul-lt-mul lt (le_add lt) some_tip))
    | no ge ↦ omega arith
  ]
    where
      le_add : low31 code < l1h_max → low31 code + l1tip ≤ l1h_max + l1tip
      le_add lt = omega arith

      some_tip : 0 < l1h_max + l1tip
      some_tip = omega arith

  -- For `0 < item < 2 ^ 32`, `SkewMap` with the divisor of `L1Band` returns `L1Size` itself, one past
  -- the last bucket, exactly when the low 31 bits of the code are all ones and `L1Size` divides
  -- `L1H_MAX * (L1H_MAX + L1TIP)`.
  pub skew_map_overflow :
      (code : ℕ)
      → (skew_map code (mr_init 64 (l1_band item)) ≡ l1_size item)
        ↔ ((low31 code ≡ l1h_max) × (l1_top % l1_size item ≡ 0))
  skew_map_overflow code = (there, back)
    where
      there :
          skew_map code (mr_init 64 (l1_band item)) ≡ l1sz
          → (low31 code ≡ l1h_max) × (l1_top % l1sz ≡ 0)
      there e =
          let q : skewed code / l1_band item ≡ l1sz =
            omega (arith, skew_map_lem code, quotient-le code, l1sz_bounds) in
          let reach : l1_band item * l1sz ≤ skewed code = omega (
            arith,
            div-mul-le_self (skewed code) (l1_band item),
            ap (λ (t : ℕ). t * l1_band item) q,
          ) in
          let exact : l1_top ≡ l1_band item * l1sz = omega (arith, skewed-le code, l1_band_lem) in
          (skewed_top code (omega arith), rw exact (mul-mod_left (l1_band item) l1sz))

      back :
          (low31 code ≡ l1h_max) × (l1_top % l1sz ≡ 0)
          → skew_map code (mr_init 64 (l1_band item)) ≡ l1sz
      back (x, d) =
          let top : skewed code ≡ l1_top = rw x at (skewed_def code) in
          let c = l1_top / l1sz in
          let whole : l1_top ≡ l1sz * c = omega (arith, div-add-mod l1_top l1sz) in
          let le : c ≤ l1_band item =
            le_of_mul-le-mul_left {k = l1sz} (omega (arith, l1_band_lem)) (l1sz_bounds.0) in
          let lt : l1_band item < c + 1 = lt_of_mul-lt-mul_left l1sz (omega (arith, l1_band_lem)) in
          let band : l1_band item ≡ c = omega arith in
          let q : l1_top / l1_band item ≡ l1sz =
            div-eq_of_eq-mul_right (l1_band_bounds.0)
              (omega (arith, ap (λ (t : ℕ). t * l1sz) band)) in
          rw (skew_map_lem code, top, q) (mod-eq_of_lt (omega (arith, l1sz_bounds)))
