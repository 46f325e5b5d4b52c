-- ===== src/Examples/Arithmetic.antt =====
-- Division, sizes, bitmaps and hash states at concrete inputs.
use fast_chd.Base.{◌+◌, ◌-◌, ◌/◌, ◌%◌, ◌^◌, ◌<◌, ◌≡◌, ◌↔◌, refl, arith, ◌||◌, ◌==◌}
use fast_chd.Divisor.{mr_init, mr_div, mr_mod}
use fast_chd.Divisor.Mr.{mr_div_lem, mr_mod_lem}
use fast_chd.Format.{l1_size, l1_band, skew_map, align32, l1h_max, l1_top}
use fast_chd.Format.Skew.{low31, skew_map_overflow}
use fast_chd.Format.Align.{align32_large}
use fast_chd.Bitmap.{test_bit, set_bit}
use fast_chd.Bitmap.Laws.{test_bit-set_bit}
use fast_chd.Hash.{Words}
use fast_chd.Hash.Mixing.{mix_injective}

-- 2 ^ 64 - 1 by 7, where the multiplier alone is one short.
div_run : mr_div 64 (mr_init 64 7) (2 ^ 64 - 1) ≡ 2635249153387078802
div_run = unfold mr_div mr_init in refl

mr_div_lem_example : mr_div 64 (mr_init 64 7) (2 ^ 64 - 1) ≡ (2 ^ 64 - 1) / 7
mr_div_lem_example = mr_div_lem 64 7 (2 ^ 64 - 1) (omega arith) (omega arith) (omega arith)

mr_mod_lem_example : mr_mod 64 (mr_init 64 7) (2 ^ 64 - 1) ≡ (2 ^ 64 - 1) % 7
mr_mod_lem_example = mr_mod_lem 64 7 (2 ^ 64 - 1) (omega arith) (omega arith) (omega arith)

-- With five items there is one bucket, and a code of ones is mapped to the next one.
overflow_run : skew_map (2 ^ 32 - 1) (mr_init 64 (l1_band 5)) ≡ 1
overflow_run = unfold skew_map l1_band mr_init mr_div in refl

skew_map_overflow_example :
    (skew_map (2 ^ 32 - 1) (mr_init 64 (l1_band 5)) ≡ l1_size 5)
    ↔ ((low31 (2 ^ 32 - 1) ≡ l1h_max) × (l1_top % l1_size 5 ≡ 0))
skew_map_overflow_example = skew_map_overflow 5 (omega arith) (omega arith) (2 ^ 32 - 1)

align32_large_example : align32 (2 ^ 32 + 5) < 2 ^ 32 + 5
align32_large_example = align32_large (2 ^ 32 + 5) (omega arith) (omega arith)

test_bit-set_bit_example : test_bit (set_bit (λ i. 8) 17) 19 ≡ (17 == 19) || test_bit (λ i. 8) 19
test_bit-set_bit_example = test_bit-set_bit (λ i. 8) 17 19

abbrev state : Words
state = record { h0 = 1; h1 = 2; h2 = 3; h3 = 4 }

mix_injective_example : state ≡ state
mix_injective_example =
    mix_injective state state (omega arith, omega arith, omega arith, omega arith)
      (omega arith, omega arith, omega arith, omega arith) refl
