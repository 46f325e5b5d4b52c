-- ===== src/Bitmap/Laws.antt =====
-- A bitmap as the set of its positions: what each operation does to every position.
use fast_chd.Base.{
  ℕ, ◌-◌, ◌*◌, ◌/◌, ◌%◌, ◌^◌, ◌≤◌, ◌<◌, ◌≡◌, ◌≢◌, ◌∙◌, refl, sym, ap, min, arith, bit_and, bit_or,
}
use fast_chd.Base.{true, false, not, ◌&&◌, ◌||◌, ◌==◌, ==_iff, if◌then◌else◌, Bool-cases, inl, inr}
use fast_chd.Base.{store, store_self, store_ne}
use fast_chd.Base.Digits.{bit, bit-lt, bit-or, bit-and, bit-pow_self, bit-pow_ne}
use fast_chd.Base.Masks.{bit-mod, bit-complement, bit_and-pow}
use fast_chd.Bitmap.{Bytes, test_and_set_bit, test_bit, set_bit, clear_bit}
use native.Mathlib.Nat.{one-le-pow, mod-eq_of_lt, pow-le-pow_right}

-- The digit that a position names.
abbrev digit : Bytes → ℕ → ℕ
digit bitmap pos = bit (bitmap (pos / 2 ^ 3)) (pos % 8)

mask_test : (b i : ℕ) → (bit_and b (2 ^ i) == 0) ≡ (bit b i == 0)
mask_test b i =
    rw bit_and-pow (ground (arith, bit-lt b i, one-le-pow i 2, ap (λ (t : ℕ). t * 2 ^ i)))

pub test_bit-digit : (bitmap : Bytes) (pos : ℕ) → test_bit bitmap pos ≡ not (digit bitmap pos == 0)
unfolding test_bit
test_bit-digit bitmap pos = ap not (mask_test (bitmap (pos / 2 ^ 3)) (pos % 8))

mask-lt : (pos : ℕ) → 2 ^ (pos % 8) < 2 ^ 8
mask-lt pos =
    let h : pos % 8 ≤ 7 = omega arith in omega (arith, pow-le-pow_right {n = 2} (omega arith) h)

-- Two positions in one byte have different digits in it.
same_byte : (p q : ℕ) → p / 8 ≡ q / 8 → p ≢ q → p % 8 ≢ q % 8
same_byte p q e ne h = ne (omega arith)

module _ (bitmap : Bytes) (p q : ℕ) where
  -- What a write to the byte of `p` does to the digit of `q`.
  written : (v : ℕ) → p / 8 ≡ q / 8 → digit (store bitmap (p / 2 ^ 3) v) q ≡ bit v (q % 8)
  written v e = ap (λ (t : ℕ). bit t (q % 8)) (store_self bitmap (p / 8) v (q / 8) (sym e))

  elsewhere : (v : ℕ) → p / 8 ≢ q / 8 → digit (store bitmap (p / 2 ^ 3) v) q ≡ digit bitmap q
  elsewhere v ne =
      ap (λ (t : ℕ). bit t (q % 8)) (store_ne bitmap (p / 8) v (q / 8) (λ e. ne (sym e)))

  or_mask : ℕ
  or_mask = bit_or (bitmap (p / 8)) (2 ^ (p % 8))

  or_digit : p / 8 ≡ q / 8 → bit or_mask (q % 8) ≡ (if p == q then 1 else digit bitmap q)
  unfolding or_mask
  or_digit e = bit-or (bitmap (p / 8)) (2 ^ (p % 8)) (q % 8) ∙ elim (Bool-cases (p == q)) [
    | inl s ↦
        let s' = (==_iff p q).0 s in
        rw (s, s', bit-pow_self) (omega (arith, bit-lt (bitmap (q / 8)) (q % 8)))
    | inr n ↦
        rw (n, bit-pow_ne (p % 8) (q % 8) (same_byte p q e (λ h. ground arith)), e) (omega arith)
  ]

  digit-set_bit : digit (set_bit bitmap p) q ≡ (if p == q then 1 else digit bitmap q)
  unfolding set_bit
  digit-set_bit = elim (Bool-cases (p / 8 == q / 8)) [
    | inl e ↦
        let e' = (==_iff (p / 8) (q / 8)).0 e in
        written _ e' ∙ bit-mod 8 _ (q % 8) (omega arith) ∙ unfold or_mask in or_digit e'
    | inr n ↦ elsewhere _ (λ h. ground arith) ∙ ground arith
  ]

  clear_digit :
      p / 8 ≡ q / 8
      → bit (bit_and (bitmap (p / 8)) (2 ^ 32 - 1 - 2 ^ (p % 8))) (q % 8)
        ≡ (if p == q then 0 else digit bitmap q)
  clear_digit e =
      bit-and (bitmap (p / 8)) (2 ^ 32 - 1 - 2 ^ (p % 8)) (q % 8)
      ∙ ap (λ (t : ℕ). min (bit (bitmap (p / 8)) (q % 8)) t)
          (bit-complement 32 (2 ^ (p % 8)) (q % 8) (omega (arith, mask-lt p)) (omega arith))
      ∙ elim (Bool-cases (p == q)) [
        | inl s ↦ let s' = (==_iff p q).0 s in rw (s, s', bit-pow_self) (omega arith)
        | inr n ↦
            rw (n, bit-pow_ne (p % 8) (q % 8) (same_byte p q e (λ h. ground arith)), e)
              (omega (arith, bit-lt (bitmap (q / 8)) (q % 8)))
      ]

  digit-clear_bit : digit (clear_bit bitmap p) q ≡ (if p == q then 0 else digit bitmap q)
  unfolding clear_bit
  digit-clear_bit = elim (Bool-cases (p / 8 == q / 8)) [
    | inl e ↦
        let e' = (==_iff (p / 8) (q / 8)).0 e in
        written _ e' ∙ bit-mod 8 _ (q % 8) (omega arith) ∙ clear_digit e'
    | inr n ↦ elsewhere _ (λ h. ground arith) ∙ ground arith
  ]

-- Setting a bit makes its position a member, and no other.
pub test_bit-set_bit :
    (bitmap : Bytes) (p q : ℕ) → test_bit (set_bit bitmap p) q ≡ (p == q) || test_bit bitmap q
test_bit-set_bit bitmap p q = rw (test_bit-digit, test_bit-digit, digit-set_bit) (ground arith)

-- After `ClearBit` of a position, `TestBit` is false there and as before at every other position.
pub test_bit-clear_bit :
    (bitmap : Bytes) (p q : ℕ) → test_bit (clear_bit bitmap p) q ≡ not (p == q) && test_bit bitmap q
test_bit-clear_bit bitmap p q = rw (test_bit-digit, test_bit-digit, digit-clear_bit) (ground arith)

pub test_and_set_bit_eq :
    (bitmap : Bytes) (p : ℕ)
    → test_and_set_bit bitmap p
      ≡ (if test_bit bitmap p then (false, bitmap) else (true, set_bit bitmap p))
unfolding test_and_set_bit test_bit set_bit
test_and_set_bit_eq bitmap p = rw (mod-eq_of_lt (mask-lt p)) (ground arith)

test_bit_congr : (bitmap : Bytes) (p q : ℕ) → p ≡ q → test_bit bitmap p ≡ test_bit bitmap q
test_bit_congr bitmap p q e = ap (test_bit bitmap) e

-- `TestAndSetBit` returns true exactly when `TestBit` was false, and afterwards `TestBit` is true at
-- the position and as before at every other.
pub test_and_set_bit_lem :
    (bitmap : Bytes) (p q : ℕ)
    → ((test_and_set_bit bitmap p).0 ≡ not (test_bit bitmap p))
      × (test_bit (test_and_set_bit bitmap p).1 q ≡ (p == q) || test_bit bitmap q)
test_and_set_bit_lem bitmap p q = rw test_and_set_bit_eq (elim (Bool-cases (test_bit bitmap p)) [
  | inl old ↦ rw old (refl, ground (arith, test_bit_congr bitmap p q))
  | inr fresh ↦ rw fresh (refl, test_bit-set_bit bitmap p q)
])
