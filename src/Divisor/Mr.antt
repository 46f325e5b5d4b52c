-- ===== src/Divisor/Mr.antt =====
-- `DivisorMR` divides exactly.
use fast_chd.Base.{
  ℕ, zero, suc, ◌+◌, ◌-◌, ◌*◌, ◌/◌, ◌%◌, ◌^◌, ◌≤◌, ◌<◌, ◌≡◌, ◌≢◌, arith, ap, refl, sym, ◌∙◌, ◌⊎◌,
}
use fast_chd.Base.{
  if◌then◌else◌, ◌==◌, true, false, Bool-cases, inl, inr, ==_iff, leb, leb→le, Bool,
}
use fast_chd.Divisor.{shift_down, mr_fit, mr_init, mr_div, mr_mod}
use fast_chd.Divisor.Bounds.{pow-add, reciprocal_up, reciprocal_down, double_word, mul-lt-mul}
use native.Mathlib.Nat.{div-add-mod, mod-lt, mod-eq_of_lt, pow-suc, pow-zero, div-le_self}
use fast_chd.Base.Digits.{mod_unique}
use native.Mathlib.Decide.{dec_le}
use native.Mathlib.Nat.{
  le_refl, mul-suc, mul-zero, zero-mul, mul-le-mul, lt_of_mul-lt-mul_left, mul-lt-mul_of_pos_left,
}
use native.Mathlib.Nat.{pow-le-pow_right, mul_comm, div-div-eq-div-mul, div-eq_of_lt-le}

-- The loop stops at the power of two just below `n`.
pub shift_down_lem :
    (s n : ℕ)
    → 0 < n
    → n < 2 * 2 ^ s
    → let (m, k) = shift_down s (2 ^ s) n in (m ≡ 2 ^ k) × (m ≤ n) × (n < 2 * m) × (k ≤ s)
unfolding shift_down
shift_down_lem zero n pos h = (refl, pos, h, omega arith)
shift_down_lem (suc s) n pos h =
    let e : 2 ^ suc s / 2 ≡ 2 ^ s = omega (arith, pow-suc 2 s) in
    let p = pow-suc 2 s in rw e (ground (arith, shift_down_lem s n pos))

mul_grows : (n f : ℕ) → suc n ≤ suc n * suc f
mul_grows n f = omega (arith, mul-suc (suc n) f)

parity : (n : ℕ) → ((a : ℕ) × (n ≡ 2 * a)) ⊎ ((a : ℕ) × (n ≡ 2 * a + 1))
parity n = elim (Bool-cases (n % 2 == 0)) [
  | inl e ↦ inl (n / 2, ground arith)
  | inr e ↦ inr (n / 2, ground arith)
]

pos_of_lt : {a b : ℕ} → a < b → 0 < b
pos_of_lt h = omega arith

shift_down_pair :
    (s n : ℕ)
    → 0 < n
    → n < 2 * 2 ^ s
    → (k : ℕ) × (shift_down s (2 ^ s) n ≡ (2 ^ k, k)) × (2 ^ k ≤ n) × (n < 2 * 2 ^ k)
shift_down_pair s n pos h =
    let r = shift_down s (2 ^ s) n in
    let (m, lo, hi, _) = shift_down_lem s n pos h in
    (r.1, ap (λ (t : ℕ). (t, r.1)) m, rw (← m) lo, rw (← m) hi)

top_power : (w n : ℕ) → 0 < n → n < 2 ^ w → n < 2 * 2 ^ (w - 1)
top_power zero n pos h = absurd (omega (arith, pow-zero 2))
top_power (suc w) n pos h = let e : suc w - 1 ≡ w = omega arith in rw e (omega (arith, pow-suc 2 w))

-- A factor of a power of two is one.
pow_two_factor : (j n f : ℕ) → n * f ≡ 2 ^ j → (i : ℕ) × (n ≡ 2 ^ i)
pow_two_factor zero n f e = (0, eq_one_of_mul n f e)
  where
    eq_one_of_mul : (n f : ℕ) → n * f ≡ 1 → n ≡ 1
    eq_one_of_mul zero f e = absurd (omega (arith, zero-mul f))
    eq_one_of_mul (suc n) zero e = absurd (omega (arith, mul-zero (suc n)))
    eq_one_of_mul (suc n) (suc f) e = omega (arith, mul_grows n f)
pow_two_factor (suc j) n f e = elim (parity n) [
  | inl (a, even) ↦
      let (i, p) = pow_two_factor j a f (omega (arith, pow-suc 2 j, ap (λ (t : ℕ). t * f) even)) in
      (suc i, omega (arith, pow-suc 2 i))
  | inr (a, odd) ↦ elim (parity f) [
    | inl (b, even) ↦ pow_two_factor j n b (omega (arith, pow-suc 2 j, ap (λ (t : ℕ). n * t) even))
    | inr (b, odd') ↦
        absurd
          (omega (arith, pow-suc 2 j, ap (λ (t : ℕ). t * f) odd, ap (λ (t : ℕ). 2 * a * t) odd'))
  ]
]

-- Hence a number strictly between two powers of two divides no power of two.
between_powers : (j k n f : ℕ) → 2 ^ k < n → n < 2 * 2 ^ k → n * f ≢ 2 ^ j
between_powers j k n f lo hi e =
    let (i, p) = pow_two_factor j n f e in
    elim (dec_le i k) [
      | yes h ↦ absurd (omega (arith, pow-le-pow_right {n = 2} (omega arith) h))
      | no h ↦
          let le : suc k ≤ i = omega arith in
          absurd (omega (arith, pow-suc 2 k, pow-le-pow_right {n = 2} (omega arith) le))
    ]

-- The reciprocal of `n` scaled by `P * S`, with `S` the power of two below `n` and `P` the word.
module _ (P S n x : ℕ) (below : S < n) (above : n < 2 * S) (n_fits : n < P) (x_fits : x < P) where
  abbrev K : ℕ
  K = P * S

  abbrev fac : ℕ
  fac = S * P / n

  abbrev gap : ℕ
  gap = S * P % n

  gap_lem : fac * n + gap ≡ K
  gap_lem = omega (arith, div-add-mod (S * P) n, mul_comm S P)

  gap-lt : gap < n
  gap-lt = omega (arith, mod-lt (S * P) {m = n} (omega arith))

  fac-lt : fac < P
  fac-lt =
      let P_pos : 0 < P = omega arith in
      lt_of_mul-lt-mul_left n (omega (arith, gap_lem, mul-lt-mul_of_pos_left below P_pos))

  -- `r`, the word that `_init` compares with the power of two
  excess : 0 < gap → (fac * n % P + n) % P ≡ n - gap
  excess some_gap =
      let low : fac * n % P ≡ P - gap =
        mod_unique (fac * n) P (S - 1) (P - gap) (omega (arith, gap_lem, gap-lt, P-split))
          (omega (arith, gap-lt)) in
      rw low
        (mod_unique (P - gap + n) P 1 (n - gap) (omega (arith, gap-lt)) (omega (arith, gap-lt)))
    where
      P-split : P * (S - 1) + P ≡ P * S
      P-split = let e : S ≡ suc (S - 1) = omega arith in omega (arith, ap (λ (t : ℕ). P * t) e)

  -- `r <= m`: rounding up errs by at most `S / n`.
  round_up : n - gap ≤ S → (fac * x + x) / K ≡ x / n
  round_up h =
      let F : (suc fac) * x ≡ fac * x + x = omega arith in
      rw (← F) (
        reciprocal_up n (suc fac) K (n - gap) x (x / n) (x % n) (sym (div-add-mod x n))
          (mod-lt x (omega arith)) (omega (arith, gap_lem, gap-lt))
          (mul-lt-mul x_fits h (omega arith)))

  round_down : 0 < gap → gap ≤ S → (fac * x + fac) / K ≡ x / n
  round_down some_gap h =
      reciprocal_down n fac K gap x (x / n) (x % n) (sym (div-add-mod x n)) (mod-lt x (omega arith))
        gap_lem some_gap (omega (arith, mul-le-mul h x_fits, mul_comm S P))

  up_fits : fac * x + x < P * P
  up_fits =
      let F : (suc fac) * x ≡ fac * x + x = omega arith in
      let x_fits' = x_fits in
      omega
        (arith, F, mul-le-mul fac-lt (le_refl x), mul-lt-mul_of_pos_left x_fits (pos_of_lt x_fits))

  down_fits : fac * x + fac < P * P
  down_fits =
      let F : fac * suc x ≡ fac * x + fac = omega arith in
      omega (arith, F, mul-lt-mul {a = fac} {b = suc x} fac-lt x_fits (pos_of_lt x_fits))

-- For a power of two the reciprocal is all ones, and rounding down is exact.
module _ (P S x : ℕ) (S_pos : 0 < S) (x_fits : x < P) where
  ones_lem : ((P - 1) * x + (P - 1)) / (P * S) ≡ x / S
  ones_lem = rw (← div-div-eq-div-mul, whole)
    where
      whole : ((P - 1) * x + (P - 1)) / P ≡ x
      whole =
          let e : P ≡ suc (P - 1) = omega arith in
          div-eq_of_lt-le P (omega (arith, ap (λ (t : ℕ). x * t) e))
            (omega (arith, ap (λ (t : ℕ). x * t) e))

  ones_fit : (P - 1) * x + (P - 1) < P * P
  ones_fit =
      let F : (P - 1) * suc x ≡ (P - 1) * x + (P - 1) = omega arith in
      omega (
        arith,
        F,
        mul-lt-mul {a = P - 1} {b = suc x} {c = P} (omega arith) x_fits (pos_of_lt x_fits),
      )

module _ (w n x : ℕ) (pos : 0 < n) (n_fits : n < 2 ^ w) (x_fits : x < 2 ^ w) where
  quotient_fits : x / n < 2 ^ w
  quotient_fits = omega (arith, div-le_self x n)

  -- `div` on given fields, where neither the product nor the quotient overflows.
  div_value :
      (f k t : ℕ) (b : Bool)
      → (if b then x else f) ≡ t
      → f * x + t < 2 ^ w * 2 ^ w
      → (f * x + t) / (2 ^ w * 2 ^ k) ≡ x / n
      → mr_div w (record { val = n; fac = f; sft = k; ab = b }) x ≡ x / n
  unfolding mr_div
  div_value f k t b e fits q =
      rw (e, double_word, pow-add, mod-eq_of_lt fits, q) (mod-eq_of_lt quotient_fits)

  module _ (k : ℕ) (lo : 2 ^ k < n) (hi : n < 2 * 2 ^ k) where
    abbrev f : ℕ
    f = 2 ^ k * 2 ^ w / n

    abbrev left : ℕ
    left = 2 ^ k * 2 ^ w % n

    left_pos : 0 < left
    left_pos = ground (
      arith,
      gap_lem (2 ^ w) (2 ^ k) n x lo hi n_fits x_fits,
      pow-add 2 w k,
      between_powers (w + k) k n f lo hi,
      mul_comm n f,
    )

    fit_value :
        mr_fit w n (2 ^ k, k) ≡ record { val = n; fac = f; sft = k; ab = leb (n - left) (2 ^ k) }
    unfolding mr_fit
    fit_value =
        let ne : (2 ^ k == n) ≡ false = ground arith in
        rw (
          ne,
          mod-eq_of_lt (fac-lt (2 ^ w) (2 ^ k) n x lo hi n_fits x_fits),
          excess (2 ^ w) (2 ^ k) n x lo hi n_fits x_fits left_pos,
        )

    fit-div : mr_div w (mr_fit w n (2 ^ k, k)) x ≡ x / n
    fit-div = rw fit_value (elim (Bool-cases (leb (n - left) (2 ^ k))) [
      | inl up ↦
          div_value f k x _ (rw up) (up_fits (2 ^ w) (2 ^ k) n x lo hi n_fits x_fits)
            (round_up (2 ^ w) (2 ^ k) n x lo hi n_fits x_fits (leb→le _ _ up))
      | inr down ↦
          div_value f k f _ (rw down) (down_fits (2 ^ w) (2 ^ k) n x lo hi n_fits x_fits)
            (round_down (2 ^ w) (2 ^ k) n x lo hi n_fits x_fits left_pos (ground arith))
    ])

  mr_fit-div : (k : ℕ) → 2 ^ k ≤ n → n < 2 * 2 ^ k → mr_div w (mr_fit w n (2 ^ k, k)) x ≡ x / n
  mr_fit-div k lo hi = elim (Bool-cases (2 ^ k == n)) [
    | inl e ↦
        let same = (==_iff (2 ^ k) n).0 e in
        rw (fit_power k e) (
          div_value (2 ^ w - 1) k (2 ^ w - 1) false refl
            (ones_fit (2 ^ w) (2 ^ k) x (omega arith) x_fits)
            (ones_lem (2 ^ w) (2 ^ k) x (omega arith) x_fits ∙ ap (λ (t : ℕ). x / t) same))
    | inr ne ↦ fit-div k (ground arith) hi
  ]
    where
      fit_power :
          (k : ℕ)
          → (2 ^ k == n) ≡ true
          → mr_fit w n (2 ^ k, k) ≡ record { val = n; fac = 2 ^ w - 1; sft = k; ab = false }
      fit_power k e = unfold mr_fit in rw e

  -- For `0 < n < 2 ^ w` and `x < 2 ^ w`, `div` of `x` by a divisor made from `n` is `x / n`.
  pub mr_div_lem : mr_div w (mr_init w n) x ≡ x / n
  unfolding mr_init
  mr_div_lem =
      let ne : (n == 0) ≡ false = ground arith in
      let (k, found, lo, hi) = shift_down_pair (w - 1) n pos (top_power w n pos n_fits) in
      rw (ne, found) (mr_fit-div k lo hi)

  val_lem : (mr_init w n).val ≡ n
  unfolding mr_init mr_fit
  val_lem =
      let (k, found, lo, hi) = shift_down_pair (w - 1) n pos (top_power w n pos n_fits) in
      rw found (ground arith)

  -- For `0 < n < 2 ^ w` and `x < 2 ^ w`, `mod` of `x` by a divisor made from `n` is `x % n`.
  pub mr_mod_lem : mr_mod w (mr_init w n) x ≡ x % n
  unfolding mr_mod
  mr_mod_lem =
      let below : n * (x / n) ≤ x = omega (arith, div-add-mod x n) in
      let e : n * (x / n) % 2 ^ w ≡ n * (x / n) = mod-eq_of_lt (omega arith) in
      rw (val_lem, mr_div_lem, e)
        (mod_unique (x + 2 ^ w - n * (x / n)) (2 ^ w) 1 (x % n) (omega (arith, div-add-mod x n))
          (omega (arith, div-add-mod x n)))
