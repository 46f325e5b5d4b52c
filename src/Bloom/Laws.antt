-- ===== src/Bloom/Laws.antt =====
-- One key in the filter: what a test says after insertions.
use fast_chd.Base.{ℕ, ◌+◌, ◌%◌, ◌^◌, ◌≤◌, ◌<◌, ◌≡◌, refl, ap, arith, bit_and, bit_or}
use fast_chd.Base.{true, not, ◌==◌, ==_iff, if◌then◌else◌, Bool-cases, inl, inr}
use fast_chd.Base.{store, store_self, store_ne}
use fast_chd.Base.Memory.{Memory}
use fast_chd.Base.Digits.{bit, bit-or, bit-and, bit_ext, bit_and-le_right, bit_or-lt}
use fast_chd.Bloom.{Step, BloomFilter, calc, covered, test, set}
use fast_chd.Divisor.{mr_init}
use fast_chd.Divisor.Mr.{mr_mod_lem}
use fast_chd.Hash.{hash_to_128, end_words, Words}
use fast_chd.Hash.Word.{add64-lt}
use native.Mathlib.Nat.{pow-le-pow_right, mod-lt}

-- A word covers a mask when it has the mask's digits.
module _ (m : ℕ) (fits : m < 2 ^ 64) where
  and-lt : (x : ℕ) → bit_and x m < 2 ^ 64
  and-lt x = omega (arith, bit_and-le_right 64 x m fits)

  covers_or : (x : ℕ) → bit_and (bit_or x m) m ≡ m
  covers_or x = bit_ext 64 _ m (and-lt (bit_or x m)) fits λ k _. rw (bit-and, bit-or) (omega arith)

  covers_more : (x y : ℕ) → bit_and x m ≡ m → bit_and (bit_or x y) m ≡ m
  covers_more x y h =
      bit_ext 64 _ m (and-lt (bit_or x y)) fits
        λ k _. rw (bit-and, bit-or) (omega (arith, bit-and x m k, ap (λ (t : ℕ). bit t k) h))

digit_bound : (x : ℕ) → 2 ^ bit_and x 63 < 2 ^ 64
digit_bound x =
    let h : bit_and x 63 ≤ 63 = bit_and-le_right 6 x 63 (omega arith) in
    omega (arith, pow-le-pow_right {n = 2} (omega arith) h)

module _ (f : BloomFilter) (mem : Memory) where
  abbrev step : ℕ → ℕ → Step
  step key len = calc f.block mem key len

  pub mask-lt : (key len : ℕ) → (step key len).mask < 2 ^ 64
  unfolding calc
  mask-lt key len =
      let D = digit_bound in
      bit_or-lt 64 _ _
        (bit_or-lt 64 _ _ (bit_or-lt 64 _ _ (D _) (D _)) (bit_or-lt 64 _ _ (D _) (D _))) (D _)

-- What one insertion of a mask does to the test of another.
pub covered-store :
    (space : ℕ → ℕ) (s t : Step)
    → t.mask < 2 ^ 64
    → covered space t ≡ true
    → covered (store space s.blk (bit_or (space s.blk) s.mask)) t ≡ true
unfolding covered
covered-store space s t fits old =
    let old' = (==_iff _ _).0 old in
    elim (Bool-cases (t.blk == s.blk)) [
      | inl e ↦
          let e' = (==_iff _ _).0 e in
          rw (store_self space s.blk (bit_or (space s.blk) s.mask) t.blk e')
            ((==_iff _ _).1 (covers_more t.mask fits (space s.blk) s.mask (rw e' at old')))
      | inr n ↦
          rw (store_ne space s.blk (bit_or (space s.blk) s.mask) t.blk (λ e. ground arith)) old
    ]

pub covered_own :
    (space : ℕ → ℕ) (s : Step)
    → s.mask < 2 ^ 64
    → covered (store space s.blk (bit_or (space s.blk) s.mask)) s ≡ true
unfolding covered
covered_own space s fits =
    rw (store_self space s.blk (bit_or (space s.blk) s.mask) s.blk refl)
      ((==_iff _ _).1 (covers_or s.mask fits (space s.blk)))

test-calc :
    (f : BloomFilter) (mem : Memory) (key len : ℕ)
    → test f mem key len ≡ covered f.space (calc f.block mem key len)
unfolding test
test-calc f mem key len = refl

-- `set` returns true exactly where `test` said false, and then the counter goes up by one, as a 64-bit
-- word; otherwise the filter stays as it was.
pub set_result :
    (f : BloomFilter) (mem : Memory) (key len : ℕ)
    → ((set f mem key len).0 ≡ not (test f mem key len))
      × ((set f mem key len).1.item
          ≡ (if test f mem key len then f.item else (f.item + 1) % 2 ^ 64))
      × (test f mem key len ≡ true → (set f mem key len).1 ≡ f)
unfolding set test
set_result f mem key len = elim (Bool-cases (covered f.space (calc f.block mem key len))) [
  | inl old ↦ rw old (refl, refl, λ h. refl)
  | inr fresh ↦ rw fresh (refl, refl, λ h. absurd (ground arith))
]

-- No false negative: after `set` of a key, `test` of it is true, whatever the filter was before.
pub test-set :
    (f : BloomFilter) (mem : Memory) (key len : ℕ) → test (set f mem key len).1 mem key len ≡ true
unfolding set test
test-set f mem key len = elim (Bool-cases (covered f.space (calc f.block mem key len))) [
  | inl old ↦ rw old old
  | inr fresh ↦ rw fresh (covered_own f.space (calc f.block mem key len) (mask-lt f mem key len))
]

-- A key that tests true still does after `set` of any other key, from any memory.
pub test-set_mono :
    (f : BloomFilter) (mem mem' : Memory) (key len key' len' : ℕ)
    → test f mem key len ≡ true
    → test (set f mem' key' len').1 mem key len ≡ true
unfolding set test
test-set_mono f mem mem' key len key' len' h =
    elim (Bool-cases (covered f.space (calc f.block mem' key' len'))) [
      | inl old ↦ rw old h
      | inr fresh ↦ rw fresh (
          covered-store f.space (calc f.block mem' key' len') (calc f.block mem key len)
            (mask-lt f mem key len) h)
    ]

end_h-lt : (w : Words) → (end_words w).h1 < 2 ^ 64
unfolding end_words
end_h-lt w = add64-lt _ _

hash_h-lt : (mem : Memory) (key len seed : ℕ) → (hash_to_128 mem key len seed).h < 2 ^ 64
unfolding hash_to_128
hash_h-lt mem key len seed = end_h-lt _

-- With a divisor made from a positive number of blocks below 2 ^ 64, the block of every key is below it.
pub calc-blk_lt :
    (blocks : ℕ) (mem : Memory) (key len : ℕ)
    → 0 < blocks
    → blocks < 2 ^ 64
    → (calc (mr_init 64 blocks) mem key len).blk < blocks
unfolding calc
calc-blk_lt blocks mem key len pos fits =
    rw (mr_mod_lem 64 blocks (hash_to_128 mem key len 0).h pos fits (hash_h-lt mem key len 0))
      (mod-lt _ pos)
