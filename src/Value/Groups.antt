-- ===== src/Value/Groups.antt =====
-- What `WriteVarInt` writes, in plain arithmetic: groups of seven bits, the lowest first.
use fast_chd.Base.{
  ℕ, zero, suc, ◌+◌, ◌-◌, ◌*◌, ◌/◌, ◌%◌, ◌^◌, ◌≤◌, ◌<◌, ◌≡◌, ◌∙◌, refl, sym, ap, arith,
}
use fast_chd.Base.{
  true, false, bit_and, bit_or, ltb, ◌==◌, if◌then◌else◌, Bool-cases, inl, inr, some, length,
}
use fast_chd.Base.{List, [], ◌∷◌}
use fast_chd.Base.Digits.{bit_and_mask, bit_and_step, bit_or_comm}
use fast_chd.Base.Masks.{bit_or_fields}
use fast_chd.Value.{size_loop, var_int_size, write_loop, write_var_int}
use native.Mathlib.Nat.{pow-suc}

-- The groups of `v`, for `v` below 128 ^ (k + 1).
unfoldable pub groups : ℕ → ℕ → List ℕ
groups zero v = v ∷ []
groups (suc k) v =
    let rest = groups k (v / 128) in if ltb v 128 then v ∷ [] else (v % 128 + 128) ∷ rest

pub groups_last : (k v : ℕ) → ltb v 128 ≡ true → groups k v ≡ v ∷ []
unfolding groups
groups_last zero v h = refl
groups_last (suc k) v h = rw h

pub groups_more :
    (k v : ℕ) → ltb v 128 ≡ false → groups (suc k) v ≡ (v % 128 + 128) ∷ groups k (v / 128)
unfolding groups
groups_more k v h = rw h

-- More groups than are needed change nothing.
groups_enough : (k v : ℕ) → v < 128 ^ suc k → groups (suc k) v ≡ groups k v
groups_enough zero v h =
    let small : ltb v 128 ≡ true = ground (arith, pow-suc 128 0) in
    groups_last 1 v small ∙ sym (groups_last 0 v small)
groups_enough (suc k) v h = elim (Bool-cases (ltb v 128)) [
  | inl last ↦ groups_last (suc (suc k)) v last ∙ sym (groups_last (suc k) v last)
  | inr more ↦
      groups_more (suc k) v more
      ∙ ap (◌∷◌ (v % 128 + 128)) (groups_enough k (v / 128) (omega (arith, pow-suc 128 (suc k))))
      ∙ sym (groups_more k v more)
]

pub groups_five : (v : ℕ) → v < 2 ^ 35 → groups 9 v ≡ groups 4 v
groups_five v h =
    groups_enough 8 v (omega arith)
    ∙ groups_enough 7 v (omega arith)
    ∙ groups_enough 6 v (omega arith)
    ∙ groups_enough 5 v (omega arith)
    ∙ groups_enough 4 v (omega arith)

-- Clearing seven digits.
drop_digit : (a m : ℕ) → bit_and a (m * 2) ≡ bit_and (a / 2) m * 2
drop_digit a m =
    let half : m * 2 / 2 ≡ m = omega arith in bit_and_step a (m * 2) ∙ rw half (omega arith)

high_bits : (v : ℕ) → v < 2 ^ 64 → bit_and v (2 ^ 64 - 1 - 0x7f) ≡ v / 128 * 128
high_bits v h =
    drop_digit v (2 ^ 63 - 64)
    ∙ ap (λ (t : ℕ). t * 2) (drop_digit (v / 2) (2 ^ 62 - 32))
    ∙ ap (λ (t : ℕ). t * 2 * 2) (drop_digit (v / 2 / 2) (2 ^ 61 - 16))
    ∙ ap (λ (t : ℕ). t * 2 * 2 * 2) (drop_digit (v / 2 / 2 / 2) (2 ^ 60 - 8))
    ∙ ap (λ (t : ℕ). t * 2 * 2 * 2 * 2) (drop_digit (v / 2 / 2 / 2 / 2) (2 ^ 59 - 4))
    ∙ ap (λ (t : ℕ). t * 2 * 2 * 2 * 2 * 2) (drop_digit (v / 2 / 2 / 2 / 2 / 2) (2 ^ 58 - 2))
    ∙ ap (λ (t : ℕ). t * 2 * 2 * 2 * 2 * 2 * 2)
        (drop_digit (v / 2 / 2 / 2 / 2 / 2 / 2) (2 ^ 57 - 1))
    ∙ ap (λ (t : ℕ). t * 2 * 2 * 2 * 2 * 2 * 2 * 2)
        (bit_and_mask 57 (v / 2 / 2 / 2 / 2 / 2 / 2 / 2))
    ∙ omega arith

test_more : (v : ℕ) → v < 2 ^ 64 → (bit_and v (2 ^ 64 - 1 - 0x7f) == 0) ≡ ltb v 128
test_more v h = rw (high_bits v h) (ground arith)

inner_byte : (v : ℕ) → bit_or 0x80 (bit_and v 0x7f) % 2 ^ 8 ≡ v % 128 + 128
inner_byte v =
    rw (bit_and_mask 7 v, bit_or_comm 8 0x80 (v % 128) (omega arith) (omega arith))
      (rw (bit_or_fields 7 1 (v % 128) (omega arith)) (omega arith))

write_loop-groups :
    (k v : ℕ) → v < 128 ^ suc k → v < 2 ^ 64 → write_loop (suc k) v ≡ some (groups k v)
unfolding write_loop groups
write_loop-groups zero v h w = rw (test_more v w) (ground (arith, pow-suc 128 0))
write_loop-groups (suc k) v h w =
    rw
      (
        test_more v w,
        inner_byte v,
        write_loop-groups k (v / 128) (omega (arith, pow-suc 128 (suc k))) (omega arith),
      )
      (ground arith)

size_loop-groups :
    (k v cnt : ℕ)
    → v < 128 ^ suc k
    → v < 2 ^ 64
    → size_loop (suc k) v (cnt + 1) ≡ some (cnt + length (groups k v))
unfolding size_loop groups
size_loop-groups zero v cnt h w = rw (test_more v w) (ground (arith, pow-suc 128 0))
size_loop-groups (suc k) v cnt h w =
    rw
      (
        test_more v w,
        size_loop-groups k (v / 128) (cnt + 1) (omega (arith, pow-suc 128 (suc k))) (omega arith),
      )
      (ground arith)

pub length-groups : (k v : ℕ) → (1 ≤ length (groups k v)) × (length (groups k v) ≤ k + 1)
unfolding groups
length-groups zero v = omega arith
length-groups (suc k) v = ground (arith, length-groups k (v / 128))

pub write_var_int-groups : (v : ℕ) → v < 2 ^ 64 → write_var_int v ≡ some (groups 9 v)
unfolding write_var_int
write_var_int-groups v h = write_loop-groups 9 v (omega arith) h

-- `VarIntSize` is the number of bytes that `WriteVarInt` writes, 1 to 10, for every `size_t`.
pub var_int_size_lem :
    (n : ℕ)
    → n < 2 ^ 64
    → (bytes : List ℕ) × (write_var_int n ≡ some bytes)
      × (var_int_size n ≡ some (length bytes))
      × (1 ≤ length bytes)
      × (length bytes ≤ 10)
unfolding var_int_size
var_int_size_lem n h = (
  groups 9 n,
  write_var_int-groups n h,
  size_loop-groups 9 n 0 (omega arith) h ∙ ap some (omega arith),
  (length-groups 9 n).0,
  (length-groups 9 n).1,
)
