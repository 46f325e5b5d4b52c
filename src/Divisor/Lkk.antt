-- ===== src/Divisor/Lkk.antt =====
-- `DivisorLKK` divides exactly.
use fast_chd.Base.{
  ℕ, ◌+◌, ◌-◌, ◌*◌, ◌/◌, ◌%◌, ◌^◌, ◌≤◌, ◌<◌, ◌≡◌, ◌≢◌, arith, ap, refl, sym, ==_iff,
}
use fast_chd.Base.{◌==◌, Bool-cases, inl, inr}
use fast_chd.Divisor.{lkk_init, lkk_div, lkk_mod}
use fast_chd.Divisor.Bounds.{reciprocal_up, reciprocal_rest, mul-lt-mul, double_word, quad_word}
use native.Mathlib.Nat.{
  div-add-mod, mod-lt, mod-eq_of_lt, mul-le-mul_right, lt_of_mul-lt-mul_left, div-le_self, mul_comm,
  div-one, mod_self, mod-one, mul-zero, zero-mod, zero-div,
}

abbrev square : ℕ → ℕ
square P = P * P

abbrev reciprocal : ℕ → ℕ → ℕ
reciprocal P n = (P * P - 1) / n + 1

module _ (P n x : ℕ) (pos : 0 < n) (n_fits : n < P) (x_fits : x < P) where
  abbrev D : ℕ
  D = square P

  abbrev F : ℕ
  F = reciprocal P n

  D_large : n * P < D
  D_large = grind arith

  F_over : F * n ≡ D + (n - 1 - (D - 1) % n)
  F_over = omega (arith, div-add-mod (D - 1) n, mod-lt (D - 1) pos, D_large)

  small_product : (d : ℕ) → d < n → x * d < D
  small_product d h = grind arith

  quotient : F * x / D ≡ x / n
  quotient =
      reciprocal_up n F D (n - 1 - (D - 1) % n) x (x / n) (x % n) (sym (div-add-mod x n))
        (mod-lt x pos) F_over (small_product _ (omega arith))

  rest : n * (F * x % D) / D ≡ x % n
  rest =
      reciprocal_rest n F D (n - 1 - (D - 1) % n) x (x / n) (x % n) (sym (div-add-mod x n))
        (mod-lt x pos) F_over (small_product _ (omega arith)) (F * x % D)
        (omega (arith, div-add-mod (F * x) D, ap (λ (t : ℕ). D * t) quotient))

  n-le-D : n ≤ D
  n-le-D = grind arith

  F-lt : n ≢ 1 → F < D
  F-lt h =
      let two : 2 ≤ n = omega arith in
      lt_of_mul-lt-mul_left n (omega (arith, F_over, n-le-D, mul-le-mul_right D two))

  P-le-D : P ≤ D
  P-le-D = grind arith

  product_fits : F ≤ D → x * F < D * D
  product_fits h = mul-lt-mul (omega (arith, P-le-D)) h (omega (arith, P-le-D))

  scaled_fits : n * (x * F % D) < D * D
  scaled_fits =
      let pos' : 0 < D = omega (arith, P-le-D) in
      mul-lt-mul (omega (arith, P-le-D)) (omega (arith, mod-lt (x * F) pos')) pos'

  x_quotient : x * F / D ≡ x / n
  x_quotient = rw (mul_comm x F) quotient

  x_rest : n * (x * F % D) / D ≡ x % n
  x_rest = rw (mul_comm x F) rest

  quotient_fits : x / n < P
  quotient_fits = omega (arith, div-le_self x n)

  remainder_fits : x % n < P
  remainder_fits = omega (arith, mod-lt x pos)

module _ (w n x : ℕ) (pos : 0 < n) (n_fits : n < 2 ^ w) (x_fits : x < 2 ^ w) where
  abbrev P : ℕ
  P = 2 ^ w

  fac_lem : n ≢ 1 → (lkk_init w n).fac ≡ reciprocal P n
  unfolding lkk_init
  fac_lem h = simp double_word (ground (arith, mod-eq_of_lt (F-lt P n x pos n_fits x_fits h)))

  -- At 1 the reciprocal is one too large for two words, and wraps to 0.
  fac_one : n ≡ 1 → (lkk_init w n).fac ≡ 0
  unfolding lkk_init
  fac_one e = rw e (simp (double_word, div-one) (ground (arith, mod_self (square P), wrap)))
    where
      wrap : square P - 1 + 1 ≡ square P
      wrap = omega (arith, P-le-D P n x pos n_fits x_fits)

  -- For `0 < n < 2 ^ w` and `x < 2 ^ w`, `div` of `x` by a divisor made from `n` is `x / n`.
  pub lkk_div_lem : lkk_div w (lkk_init w n) x ≡ x / n
  unfolding lkk_div
  lkk_div_lem = elim (Bool-cases (n == 1)) [
    | inl one ↦ let e = (==_iff n 1).0 one in rw (fac_one e) (rw e (sym (div-one x)))
    | inr many ↦
        let f = fac_lem (ground arith) in
        let h : reciprocal P n < square P = F-lt P n x pos n_fits x_fits (ground arith) in
        rw
          (
            f,
            double_word,
            quad_word,
            mod-eq_of_lt (product_fits P n x pos n_fits x_fits (omega arith)),
          )
          (rw (x_quotient P n x pos n_fits x_fits)
            (ground (arith, mod-eq_of_lt (quotient_fits P n x pos n_fits x_fits))))
  ]

  val_lem : (lkk_init w n).val ≡ n
  unfolding lkk_init
  val_lem = refl

  -- For `0 < n < 2 ^ w` and `x < 2 ^ w`, `mod` of `x` by a divisor made from `n` is `x % n`.
  lkk_mod_lem : lkk_mod w (lkk_init w n) x ≡ x % n
  unfolding lkk_mod
  lkk_mod_lem = elim (Bool-cases (n == 1)) [
    | inl one ↦
        let e = (==_iff n 1).0 one in
        rw (fac_one e) (rw e (simp (mul-zero, zero-mod, zero-div, mod-one)))
    | inr many ↦
        let f = fac_lem (ground arith) in
        rw (f, val_lem, double_word, quad_word, mod-eq_of_lt (scaled_fits P n x pos n_fits x_fits))
          (rw (x_rest P n x pos n_fits x_fits)
            (mod-eq_of_lt (remainder_fits P n x pos n_fits x_fits)))
  ]
