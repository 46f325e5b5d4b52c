-- ===== src/Bitmap.antt =====
-- The bit operations of src/internal.h on a byte array: bit `pos & 7` of byte `pos >> 3`.
pub mod Laws
use fast_chd.Base.{
  ℕ, ◌+◌, ◌-◌, ◌*◌, ◌/◌, ◌%◌, ◌^◌, bit_and, bit_or, Bool, true, false, not, ◌==◌, store,
}
use fast_chd.Base.{if◌then◌else◌}

-- A byte array in memory, by index.
abbrev pub Bytes : Type 0
Bytes = ℕ → ℕ

unfoldable pub test_and_set_bit : Bytes → ℕ → Bool × Bytes
test_and_set_bit bitmap pos =
    let b = bitmap (pos / 2 ^ 3) in
    let m = 2 ^ (pos % 8) % 2 ^ 8 in
    if bit_and b m == 0
    then (true, store bitmap (pos / 2 ^ 3) (bit_or b m % 2 ^ 8))
    else (false, bitmap)

unfoldable pub test_bit : Bytes → ℕ → Bool
test_bit bitmap pos = not (bit_and (bitmap (pos / 2 ^ 3)) (2 ^ (pos % 8)) == 0)

unfoldable pub set_bit : Bytes → ℕ → Bytes
set_bit bitmap pos =
    store bitmap (pos / 2 ^ 3) (bit_or (bitmap (pos / 2 ^ 3)) (2 ^ (pos % 8)) % 2 ^ 8)

-- The complement is taken on 32 bits, and the result cut to the byte.
unfoldable pub clear_bit : Bytes → ℕ → Bytes
clear_bit bitmap pos =
    store bitmap (pos / 2 ^ 3) (bit_and (bitmap (pos / 2 ^ 3)) (2 ^ 32 - 1 - 2 ^ (pos % 8)) % 2 ^ 8)
