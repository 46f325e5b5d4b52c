-- ===== src/Value/Decode.antt =====
-- `SeparatedValue` reads back what `WriteVarInt` wrote, and stays inside the file on any bytes.
use fast_chd.Base.{ℕ, zero, suc, ◌+◌, ◌*◌, ◌/◌, ◌%◌, ◌^◌, ◌≤◌, ◌<◌, ◌≡◌, ◌∙◌, refl, ap, arith}
use fast_chd.Base.{bit_and, bit_or, ltb, ◌==◌, Bool-cases, inl, inr, some, length}
use fast_chd.Base.{List, ◌∷◌, ltb→lt}
use fast_chd.Base.Digits.{bit, bit_and_mask}
use fast_chd.Base.Masks.{bit_and-pow, bit_or_fields}
use fast_chd.Base.Memory.{Memory, At}
use fast_chd.Value.{value_loop, separated_value, write_var_int}
use fast_chd.Value.Groups.{groups, groups_last, groups_more, write_var_int-groups, groups_five}
use fast_chd.Divisor.Bounds.{pow-add}
use native.Mathlib.Nat.{pow-suc, div-add-mod, mod-eq_of_lt}

top_bit : (b : ℕ) → b < 256 → (bit_and b 0x80 == 0) ≡ ltb b 128
unfolding bit
top_bit b h = rw (bit_and-pow b 7) (ground arith)

-- `len |= g << sft`, where the group lands above the digits of `len`.
add_group :
    (sft len g : ℕ)
    → len < 2 ^ sft
    → len + g * 2 ^ sft < 2 ^ 64
    → bit_or len (g * 2 ^ sft % 2 ^ 64) ≡ len + g * 2 ^ sft
add_group sft len g h fits =
    rw (mod-eq_of_lt {n = g * 2 ^ sft} {m = 2 ^ 64} (omega arith), bit_or_fields sft g len h)
      (omega arith)

module _ (mem : Memory) (end : ℕ) where
  last_byte :
      (r sft len pt w : ℕ)
      → mem pt ≡ w
      → w < 128
      → len < 2 ^ sft
      → len + w * 2 ^ sft < 2 ^ 64
      → pt + 1 + (len + w * 2 ^ sft) ≤ end
      → value_loop (suc r) mem sft len pt end ≡ some (pt + 1, len + w * 2 ^ sft)
  unfolding value_loop
  last_byte r sft len pt w e small low fits room =
      rw (e, add_group sft len w low fits) (ground (arith, top_bit w))

  inner_byte :
      (r sft len pt g : ℕ)
      → mem pt ≡ g + 128
      → g < 128
      → len < 2 ^ sft
      → len + g * 2 ^ sft < 2 ^ 64
      → pt < end
      → value_loop (suc r) mem sft len pt end
        ≡ value_loop r mem (sft + 7) (len + g * 2 ^ sft) (pt + 1) end
  unfolding value_loop
  inner_byte r sft len pt g e small low fits room =
      let low_bits : bit_and (g + 128) 0x7f ≡ g = bit_and_mask 7 (g + 128) ∙ omega arith in
      rw (e, low_bits, add_group sft len g low fits) (ground (arith, top_bit (g + 128)))

  shift_seven : (s : ℕ) → 2 ^ (s + 7) ≡ 128 * 2 ^ s
  shift_seven s = omega (arith, pow-add 2 s 7)

  -- The low seven bits of a shifted number, and the rest of it, shifted further.
  split_group : (v sft : ℕ) → v * 2 ^ sft ≡ v % 128 * 2 ^ sft + v / 128 * 2 ^ (sft + 7)
  split_group v sft =
      let parts = div-add-mod v 128 in
      let scaled = ap (λ (p : ℕ). p * 2 ^ sft) parts in
      omega (arith, scaled, ap (λ (p : ℕ). v / 128 * p) (shift_seven sft))

  group_fits : (len g s : ℕ) → len < 2 ^ s → g < 128 → len + g * 2 ^ s < 2 ^ (s + 7)
  group_fits len g s h l = rw shift_seven (grind arith)

  value_loop-groups :
      (k r sft len pt w : ℕ)
      → k < r
      → w < 128 ^ suc k
      → len < 2 ^ sft
      → len + w * 2 ^ sft < 2 ^ 64
      → At mem pt (groups k w)
      → pt + length (groups k w) + (len + w * 2 ^ sft) ≤ end
      → value_loop r mem sft len pt end ≡ some (pt + length (groups k w), len + w * 2 ^ sft)
  value_loop-groups k zero sft len pt w lt small low fits here room = absurd (omega arith)
  value_loop-groups zero (suc r) sft len pt w lt small low fits here room =
      let g = groups_last zero w (ground (arith, pow-suc 128 0)) in
      rw g (
        last_byte r sft len pt w (rw g at here).0 (omega (arith, pow-suc 128 0)) low fits
          (rw g at room))
  value_loop-groups (suc k) (suc r) sft len pt w lt small low fits here room =
      elim (Bool-cases (ltb w 128)) [
        | inl last ↦
            let g = groups_last (suc k) w last in
            rw g (
              last_byte r sft len pt w (rw g at here).0 (ltb→lt w 128 last) low fits (rw g at room))
        | inr more ↦
            let g = groups_more k w more in
            let split = split_group w sft in
            let here' : At mem pt ((w % 128 + 128) ∷ groups k (w / 128)) = rw g at here in
            let room' : pt + suc (length (groups k (w / 128))) + (len + w * 2 ^ sft) ≤ end =
              rw g at room in
            let low' = group_fits len (w % 128) sft low (omega arith) in
            let rest =
              value_loop-groups k r (sft + 7) (len + w % 128 * 2 ^ sft) (pt + 1) (w / 128)
                (omega arith) (omega (arith, pow-suc 128 (suc k))) low' (omega arith) here'.1
                (omega arith) in
            rw g (
              inner_byte r sft len pt (w % 128) here'.0 (omega arith) low (omega arith)
                (omega arith)
              ∙ rest
              ∙ ground arith)
      ]

separated_value_loop :
    (mem : Memory) (pt end : ℕ) → separated_value mem pt end ≡ value_loop 5 mem 0 0 pt end
unfolding separated_value
separated_value_loop mem pt end = refl

-- Whatever length below 2 ^ 35 `WriteVarInt` has put in front of a value that lies in the file,
-- `SeparatedValue` returns the address behind the prefix and that length.
pub separated_value-write_var_int :
    (mem : Memory) (pt end v : ℕ) (bytes : List ℕ)
    → v < 2 ^ 35
    → write_var_int v ≡ some bytes
    → At mem pt bytes
    → pt + length bytes + v ≤ end
    → separated_value mem pt end ≡ some (pt + length bytes, v)
separated_value-write_var_int mem pt end v bytes small written here room =
    let whole : write_var_int v ≡ some (groups 9 v) = write_var_int-groups v (omega arith) in
    let nine : bytes ≡ groups 9 v = cc in
    let e : bytes ≡ groups 4 v = nine ∙ groups_five v small in
    rw e (
      separated_value_loop mem pt end
      ∙ value_loop-groups mem end 4 5 0 0 pt v (omega arith) (omega arith) (omega arith)
          (omega arith) (rw e at here) (omega (arith, ap length e))
      ∙ ground arith)

-- The loop keeps the slice inside.
value_loop_inside :
    (r : ℕ) (mem : Memory) (sft len pt end p l : ℕ)
    → value_loop r mem sft len pt end ≡ some (p, l)
    → (pt < p) × (p ≤ pt + r) × (p + l ≤ end)
unfolding value_loop
value_loop_inside zero mem sft len pt end p l e = cc
value_loop_inside (suc r) mem sft len pt end p l e = ground (
  arith,
  value_loop_inside r mem (sft + 7) (bit_or len (bit_and (mem pt) 0x7f * 2 ^ sft % 2 ^ 64)) (pt + 1)
      end p l,
)

-- On any bytes, a slice that `SeparatedValue` returns lies before `end` and starts one to five bytes
-- after `pt`.
pub separated_value_inside :
    (mem : Memory) (pt end p l : ℕ)
    → separated_value mem pt end ≡ some (p, l)
    → (pt < p) × (p ≤ pt + 5) × (p + l ≤ end)
unfolding separated_value
separated_value_inside mem pt end p l e = value_loop_inside 5 mem 0 0 pt end p l e
