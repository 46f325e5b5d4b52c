-- ===== src/Base/Offsets.antt =====
-- Where elements of one length stand, in offsets of 32 bits.
use Prim.Native.Nat.{ℕ, zero, suc, ◌+◌, ◌*◌, ◌%◌, ◌^◌, ◌≤◌, ◌<◌}
use mathlib.Core.Path.{◌≡◌}
use native.Mathlib.Nat.{mod-eq_of_lt, mul-le-mul, le_refl}
use native.Mathlib.Omega.{arith}

-- Element `i` of `n` ends before the end of the last one.
pub element-le : (i n len : ℕ) → i < n → i * len + len ≤ n * len
element-le i n len l =
    let end : suc i * len ≤ n * len = mul-le-mul l (le_refl len) in omega (arith, end)

pub offset_exact : (i n len : ℕ) → i < n → n * len ≤ 2 ^ 32 → i * len % 2 ^ 32 ≡ i * len
offset_exact i zero len l room = omega arith
offset_exact i (suc n) zero l room = ground arith
offset_exact i (suc n) (suc len) l room =
    mod-eq_of_lt (omega (arith, element-le i (suc n) (suc len) l))
