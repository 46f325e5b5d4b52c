-- ===== src/Format.antt =====
-- Sizes and constants of the packed file (src/pack_format.h), the skew map of src/internal.h, and
-- the alignment of the sections that src/shd.cc and src/build.cc both compute.
-- A `uint32_t` or `uint64_t` is a number below 2 ^ 32 or 2 ^ 64.
pub mod Sizes
pub mod Skew
pub mod Align
use fast_chd.Base.{ℕ, ◌+◌, ◌-◌, ◌*◌, ◌/◌, ◌%◌, ◌^◌, bit_and, bit_or}
use fast_chd.Divisor.{DivisorMr, mr_div}

abbrev pub l1h_max : ℕ
l1h_max = 0x7fffffff

abbrev pub l1cell : ℕ
l1cell = 5

abbrev pub l1tip : ℕ
l1tip = l1h_max / l1cell

-- `L1H_MAX * (L1H_MAX + L1TIP)`, the largest product that the skew map divides
abbrev pub l1_top : ℕ
l1_top = l1h_max * (l1h_max + l1tip)

abbrev pub bitmap_section_size : ℕ
bitmap_section_size = 28 * 8

abbrev pub shd_magic : ℕ
shd_magic = 0x4448537f

unfoldable pub l1_size : ℕ → ℕ
l1_size item = (item + (l1cell - 1)) % 2 ^ 64 / l1cell % 2 ^ 32

-- `l1sz - 1U` is computed in 32 bits.
unfoldable pub l1_band : ℕ → ℕ
unfolding l1_size
l1_band item = let l1sz = l1_size item in (l1_top + (l1sz + 2 ^ 32 - 1) % 2 ^ 32) % 2 ^ 64 / l1sz

unfoldable pub l2_size : ℕ → ℕ
l2_size item = bit_or (item * 2 % 2 ^ 64) 1

unfoldable pub section_size : ℕ → ℕ
unfolding l2_size
section_size item =
    (l2_size item + (bitmap_section_size - 1)) % 2 ^ 64 / bitmap_section_size % 2 ^ 32

unfoldable pub bitmap_size : ℕ → ℕ
unfolding section_size
bitmap_size item = section_size item * (bitmap_section_size / 8) % 2 ^ 32

-- The low 31 bits of the code are squared, with a linear part, and scaled down to a bucket.
unfoldable pub skew_map : ℕ → DivisorMr → ℕ
skew_map code band =
    let x = bit_and code l1h_max in mr_div 64 band (x * ((x + l1tip) % 2 ^ 64) % 2 ^ 64) % 2 ^ 32

-- `(off + 31U) & (~31U)`: the mask has 32 bits, and is widened with zeros.
unfoldable pub align32 : ℕ → ℕ
align32 off = bit_and ((off + 31) % 2 ^ 64) (2 ^ 32 - 1 - 31)
