-- ===== src/Piece/Total.antt =====
-- Counting the ones of a bitmap that holds given positions, each once.
use fast_chd.Base.{
  ℕ, zero, suc, ◌+◌, ◌/◌, ◌%◌, ◌≤◌, ◌<◌, ◌≡◌, ◌∙◌, refl, sym, arith, Bool, true, not, ◌&&◌, ltb,
  ◌==◌, ==_iff,
}
use fast_chd.Base.{List, [], ◌∷◌, length, Bool-cases, inl, inr}
use fast_chd.Base.Digits.{bit, bit-lt, bit-zero}
use fast_chd.Bitmap.{Bytes}
use fast_chd.Bitmap.Laws.{test_bit-digit}
use fast_chd.Mapping.Held.{digit_of, held, count, Filled}
use fast_chd.Piece.{zeros}
use fast_chd.Table.Rank.{ones}

digit_of-not_zero : (b : ℕ) → b < 2 → digit_of (not (b == 0)) ≡ b
digit_of-not_zero b h = ground arith

-- The positions that are below `n`.
abbrev below : ℕ → List ℕ → ℕ
below n [] = 0
below n (p ∷ ps) = digit_of (ltb p n) + below n ps

below-zero : (ps : List ℕ) → below 0 ps ≡ 0
below-zero [] = refl
below-zero (p ∷ ps) = ground (arith, below-zero ps)

below-suc : (n : ℕ) (ps : List ℕ) → below (suc n) ps ≡ below n ps + count n ps
below-suc n [] = omega arith
below-suc n (p ∷ ps) = ground (arith, below-suc n ps)

abbrev pub all_below : ℕ → List ℕ → Bool
all_below n [] = true
all_below n (p ∷ ps) = ltb p n && all_below n ps

below-all : (n : ℕ) (ps : List ℕ) → all_below n ps ≡ true → below n ps ≡ length ps
below-all n [] h = refl
below-all n (p ∷ ps) h = ground (arith, below-all n ps (ground arith))

held-bit : (bits : Bytes) (q : ℕ) → held bits q ≡ bit (bits (q / 8)) (q % 8)
unfolding held
held-bit bits q =
    rw test_bit-digit
      (digit_of-not_zero (bit (bits (q / 8)) (q % 8)) (bit-lt (bits (q / 8)) (q % 8)))

module _ (bits : Bytes) where
  ones-held : (n : ℕ) → ones bits 0 (suc n) ≡ ones bits 0 n + held bits n
  unfolding ones
  ones-held n = let e : 0 + n / 8 ≡ n / 8 = omega arith in rw e (omega (arith, held-bit bits n))

  pub ones_le : (n m : ℕ) → n ≤ m → ones bits 0 n ≤ ones bits 0 m
  unfolding ones
  ones_le n zero h = let e : n ≡ 0 = omega arith in rw e (omega arith)
  ones_le n (suc m) h = elim (Bool-cases (n == suc m)) [
    | inl e ↦ rw ((==_iff n (suc m)).0 e) (omega arith)
    | inr ne ↦ omega (arith, ones_le n m (ground arith))
  ]

  -- A position that is held is counted after it.
  pub ones_less : (p q : ℕ) → held bits p ≡ 1 → p < q → ones bits 0 p < ones bits 0 q
  ones_less p q h l = omega (arith, ones-held p, ones_le (suc p) q (omega arith))

  module _ (ps : List ℕ) (fill : Filled zeros ps bits) where
    zeros-held : (q : ℕ) → held zeros q ≡ 0
    zeros-held q = held-bit zeros q ∙ bit-zero (q % 8)

    pub held-count : (q : ℕ) → held bits q ≡ count q ps
    held-count q = omega (arith, fill q, zeros-held q)

    ones-below : (n : ℕ) → ones bits 0 n ≡ below n ps
    unfolding ones
    ones-below zero = sym (below-zero ps)
    ones-below (suc n) = omega (arith, ones-held n, ones-below n, held-count n, below-suc n ps)

    -- As many ones as positions.
    pub ones-all : (n : ℕ) → all_below n ps ≡ true → ones bits 0 n ≡ length ps
    ones-all n h = ones-below n ∙ below-all n ps h
