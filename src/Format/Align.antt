-- ===== src/Format/Align.antt =====
-- Where the alignment of the sections is right, and where its 32-bit mask cuts the offset.
use fast_chd.Base.{ℕ, ◌+◌, ◌*◌, ◌/◌, ◌%◌, ◌^◌, ◌≤◌, ◌<◌, ◌≡◌, ◌∙◌, bit_and, arith, ap}
use fast_chd.Base.Digits.{bit_and_step, bit_and_mask}
use fast_chd.Format.{align32}

-- A mask whose lowest digit is 0 drops the lowest digit.
drop_digit : (a m : ℕ) → bit_and a (m * 2) ≡ bit_and (a / 2) m * 2
drop_digit a m =
    let half : m * 2 / 2 ≡ m = omega arith in bit_and_step a (m * 2) ∙ rw half (omega arith)

clear_five : (a : ℕ) → bit_and a 0xffffffe0 ≡ a / 32 % 2 ^ 27 * 32
clear_five a =
    drop_digit a 0x7ffffff0
    ∙ ap (λ (t : ℕ). t * 2) (drop_digit (a / 2) 0x3ffffff8)
    ∙ ap (λ (t : ℕ). t * 2 * 2) (drop_digit (a / 2 / 2) 0x1ffffffc)
    ∙ ap (λ (t : ℕ). t * 2 * 2 * 2) (drop_digit (a / 2 / 2 / 2) 0x0ffffffe)
    ∙ ap (λ (t : ℕ). t * 2 * 2 * 2 * 2) (drop_digit (a / 2 / 2 / 2 / 2) 0x07ffffff)
    ∙ ap (λ (t : ℕ). t * 2 * 2 * 2 * 2 * 2) (bit_and_mask 27 (a / 2 / 2 / 2 / 2 / 2))
    ∙ omega arith

pub align32_lem : (off : ℕ) → off + 31 < 2 ^ 64 → align32 off ≡ (off + 31) / 32 % 2 ^ 27 * 32
unfolding align32
align32_lem off h =
    let e : (off + 31) % 2 ^ 64 ≡ off + 31 = omega arith in rw e (clear_five (off + 31))

-- An offset below 2 ^ 32 - 31 is rounded up to the next multiple of 32.
pub align32_small :
    (off : ℕ)
    → off + 31 < 2 ^ 32
    → (off ≤ align32 off) × (align32 off < off + 32) × (align32 off % 32 ≡ 0)
align32_small off h = rw (align32_lem off (omega arith)) (omega arith)

-- For an offset from 2 ^ 32 - 31 on, and below 2 ^ 64 - 31, the aligned offset lies before the offset.
pub align32_large : (off : ℕ) → 2 ^ 32 ≤ off + 31 → off + 31 < 2 ^ 64 → align32 off < off
align32_large off lo hi = rw (align32_lem off hi) (omega arith)
