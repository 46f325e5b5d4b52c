-- ===== src/Format/Sizes.antt =====
-- The size functions give what their names say for every 32-bit item count.
use fast_chd.Base.{ℕ, ◌+◌, ◌*◌, ◌/◌, ◌%◌, ◌^◌, ◌≤◌, ◌<◌, ◌≡◌, ◌∙◌, bit_or, arith}
use fast_chd.Base.Digits.{bit_or_step, bit_or-zero}
use fast_chd.Format.{l1_size, l2_size, section_size, bitmap_size}
use native.Mathlib.Nat.{le_refl}

-- `L1Size` is the number of buckets of five that hold `item` items.
pub l1_size_lem :
    (item : ℕ) → item < 2 ^ 32 → (item ≤ 5 * l1_size item) × (5 * l1_size item < item + 5)
unfolding l1_size
l1_size_lem item h = omega arith

or_one : (a : ℕ) → bit_or (a * 2) 1 ≡ a * 2 + 1
or_one a =
    let half : a * 2 / 2 ≡ a = omega arith in
    bit_or_step (a * 2) 1 ∙ rw (half, bit_or-zero a a (le_refl a)) (omega arith)

-- `L2Size` is odd, twice the item count and one.
pub l2_size_lem : (item : ℕ) → item < 2 ^ 32 → l2_size item ≡ 2 * item + 1
unfolding l2_size
l2_size_lem item h =
    let fits : item * 2 % 2 ^ 64 ≡ item * 2 = omega arith in rw (fits, or_one) (omega arith)

-- For fewer than 2 ^ 32 items `BitmapSize` is the bytes of a whole number of sections, and there are
-- just enough sections for the `L2Size` positions.
pub bitmap_size_lem :
    (item : ℕ)
    → item < 2 ^ 32
    → (l2_size item ≤ 224 * section_size item)
      × (224 * section_size item < l2_size item + 224)
      × (8 * bitmap_size item ≡ 224 * section_size item)
unfolding bitmap_size
bitmap_size_lem item h = rw (l2_size_lem item h) (omega arith)
