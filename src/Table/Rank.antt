-- ===== src/Table/Rank.antt =====
-- `CalcPos` is a rank: the ones of the bitmap before a position, and those counted before its section.
use fast_chd.Base.{
  ℕ, zero, suc, ◌+◌, ◌-◌, ◌*◌, ◌/◌, ◌%◌, ◌^◌, ◌≤◌, ◌<◌, ◌≡◌, ◌∙◌, refl, sym, ap, arith, bit_and,
  each,
}
use fast_chd.Base.{Bool-cases, inl, inr, ltb}
use fast_chd.Base.Digits.{bit, bit-lt, bit_and_mask, bit-eq-zero}
use native.Mathlib.Nat.{mod-lt, one-le-pow}
use fast_chd.Base.Masks.{bit-mod}
use fast_chd.Base.Memory.{Memory, read_le}
use fast_chd.Table.{Step2, pop_count, calc_pos}

-- The ones among the first `n` positions of the bitmap at `at`, as `TestBit` numbers them.
unfoldable pub ones : Memory → ℕ → ℕ → ℕ
ones mem at zero = 0
ones mem at (suc n) = ones mem at n + bit (mem (at + n / 8)) (n % 8)

-- Digit `k + 8` belongs to what is left when a byte is gone.
bit_next : (a k : ℕ) → 8 ≤ k → bit a k ≡ bit (a / 256) (k - 8)
bit_next a k h =
    let e : k ≡ suc (suc (suc (suc (suc (suc (suc (suc (k - 8)))))))) = omega arith in
    ap (bit a) e ∙ eight a (k - 8) ∙ ap (λ (t : ℕ). bit t (k - 8)) (omega arith)
  where
    eight :
        (b j : ℕ)
        → bit b (suc (suc (suc (suc (suc (suc (suc (suc j))))))))
          ≡ bit (b / 2 / 2 / 2 / 2 / 2 / 2 / 2 / 2) j
    eight b j = unfold bit in refl

-- A digit of a word in memory is a digit of one of its bytes.
pub bit-read_le :
    (n : ℕ) (mem : Memory) (a k : ℕ)
    → k < 8 * n
    → bit (read_le n mem a) k ≡ bit (mem (a + k / 8)) (k % 8)
unfolding read_le
bit-read_le zero mem a k l = absurd (omega arith)
bit-read_le (suc n) mem a k l = elim (Bool-cases (ltb k 8)) [
  | inl low ↦
      let low' : k < 8 = ground arith in
      let here : a + k / 8 ≡ a = omega arith in
      let small : k % 8 ≡ k = omega arith in
      rw (here, small)
        (sym (bit-mod 8 _ k low')
          ∙ ap (λ (t : ℕ). bit t k) (omega arith)
          ∙ bit-mod 8 (mem a) k low')
  | inr high ↦
      let high' : 8 ≤ k = ground arith in
      let at : a + 1 + (k - 8) / 8 ≡ a + k / 8 = omega arith in
      let digit : (k - 8) % 8 ≡ k % 8 = omega arith in
      bit_next _ k high'
      ∙ ap (λ (t : ℕ). bit t (k - 8)) (omega arith)
      ∙ bit-read_le n mem (a + 1) (k - 8) (omega arith)
      ∙ rw (at, digit) refl
]

pop_low : (n r x : ℕ) → n ≤ r → pop_count n (x % 2 ^ r) ≡ pop_count n x
unfolding pop_count
pop_low zero r x h = refl
pop_low (suc n) r x h = omega (arith, pop_low n r x (omega arith), bit-mod r x n (omega arith))

-- A word cut to its low `r` digits has the ones of those.
pop_cut : (n r x : ℕ) → r ≤ n → pop_count n (x % 2 ^ r) ≡ pop_count r x
unfolding pop_count
pop_cut zero r x h = let e : r ≡ 0 = omega arith in rw e refl
pop_cut (suc n) r x h = elim (Bool-cases (ltb n r)) [
  | inl l ↦
      let e : suc n ≡ r = ground arith in
      pop_low (suc n) r x (omega arith) ∙ ap (λ (t : ℕ). pop_count t x) e
  | inr g ↦
      let g' : r ≤ n = ground arith in
      omega (
        arith,
        pop_cut n r x g',
        bit-eq-zero r (x % 2 ^ r) n (mod-lt x (one-le-pow r 2 (omega arith))) g',
      )
]

module _ (mem : Memory) (at : ℕ) where
  pub ones-le : (n : ℕ) → ones mem at n ≤ n
  unfolding ones
  ones-le zero = omega arith
  ones-le (suc n) = omega (arith, ones-le n, bit-lt (mem (at + n / 8)) (n % 8))

  pub ones_next : (m : ℕ) → ones mem at (suc m) ≡ ones mem at m + bit (mem (at + m / 8)) (m % 8)
  unfolding ones
  ones_next m = refl

  -- Counting on from a whole number of words.
  pop_count-word :
      (q n t : ℕ)
      → t ≡ 64 * q + n
      → n ≤ 64
      → ones mem at (64 * q) + pop_count n (read_le 8 mem (at + 8 * q)) ≡ ones mem at t
  unfolding pop_count
  pop_count-word q zero t e h = let e' : t ≡ 64 * q = omega arith in rw e' (omega arith)
  pop_count-word q (suc n) t e h =
      let e' : t ≡ suc (64 * q + n) = omega arith in
      let byte : at + 8 * q + n / 8 ≡ at + (64 * q + n) / 8 = omega arith in
      let digit : n % 8 ≡ (64 * q + n) % 8 = omega arith in
      let same : bit (read_le 8 mem (at + 8 * q)) n
          ≡ bit (mem (at + (64 * q + n) / 8)) ((64 * q + n) % 8) =
        rw (sym byte, sym digit) (bit-read_le 8 mem (at + 8 * q) n (omega arith)) in
      rw (e', ones_next) (omega (arith, pop_count-word q n (64 * q + n) refl (omega arith), same))

  module _ (step : ℕ) where
    abbrev add_word : ℕ → ℕ → ℕ
    add_word k c = (c + pop_count 64 (read_le 8 mem (at + 8 * k))) % 2 ^ 32

    whole_words :
        (q : ℕ) → step + 64 * q < 2 ^ 32 → each q add_word step ≡ step + ones mem at (64 * q)
    unfolding each ones
    whole_words zero h = omega arith
    whole_words (suc q) h = rw (whole_words q (omega arith)) (
        omega (
          arith,
          pop_count-word q 64 (64 * suc q) (omega arith) (omega arith),
          ones-le (64 * suc q),
        ))

-- The position of a key is the offset of its segment, the count that its section carries, and the ones
-- of the section before the key's bit, when that bit lies in the section and the sums fit their words.
pub calc_pos_lem :
    (mem : Memory) (s : Step2)
    → s.bit_off < 224
    → read_le 4 mem (s.seg.sections + 32 * s.section + 28) + 224 < 2 ^ 32
    → s.seg.offset + 2 ^ 32 < 2 ^ 64
    → calc_pos mem s
      ≡ s.seg.offset
        + (read_le 4 mem (s.seg.sections + 32 * s.section + 28)
            + ones mem (s.seg.sections + 32 * s.section) s.bit_off)
unfolding calc_pos
calc_pos_lem mem s small room fits =
    let at = s.seg.sections + 32 * s.section in
    let step = read_le 4 mem (at + 28) in
    let q = s.bit_off / 64 in
    let r : bit_and s.bit_off 63 ≡ s.bit_off % 64 = bit_and_mask 6 s.bit_off in
    let words : each q (add_word mem at step) step ≡ step + ones mem at (64 * q) =
      whole_words mem at step q (omega arith) in
    let last = pop_cut 64 (s.bit_off % 64) (read_le 8 mem (at + 8 * q)) (omega arith) in
    let sum = pop_count-word mem at q (s.bit_off % 64) s.bit_off (omega arith) (omega arith) in
    rw (words, r, bit_and_mask, last) (omega (arith, sum, ones-le mem at s.bit_off))
