-- ===== src/Value.antt =====
-- Values of varied length: the length prefix that src/build.cc writes (`VarIntSize`, `WriteVarInt`)
-- and src/shd.cc reads (`SeparatedValue`), and the six-byte offset field of src/internal.h.
-- A write gives the bytes that go out. A slice is an address and a length; `none` is the empty one.
pub mod Groups
pub mod Offset
pub mod Decode
use fast_chd.Base.{
  ℕ, zero, suc, ◌+◌, ◌-◌, ◌*◌, ◌/◌, ◌%◌, ◌^◌, bit_and, bit_or, Bool, ltb, leb, ◌==◌,
}
use fast_chd.Base.{if◌then◌else◌, Option, none, some, List, [], ◌∷◌}
use fast_chd.Base.Memory.{Memory, read_le, store_le}
use mathlib.Core.Option

abbrev pub max_value_len_bit : ℕ
max_value_len_bit = 35

abbrev pub offset_field_size : ℕ
offset_field_size = 6

abbrev pub max_offset : ℕ
max_offset = 2 ^ (offset_field_size * 8) - 1

-- `(n & ~0x7fULL) != 0` is the loop's test; ten groups of seven bits hold every `size_t`, and `none`
-- would say that the fuel of ten rounds ran out.
pub size_loop : ℕ → ℕ → ℕ → Option ℕ
size_loop zero n cnt = none
size_loop (suc f) n cnt =
    let rest = size_loop f (n / 2 ^ 7) (cnt + 1) in
    if bit_and n (2 ^ 64 - 1 - 0x7f) == 0 then some cnt else rest

unfoldable pub var_int_size : ℕ → Option ℕ
unfolding size_loop
var_int_size n = size_loop 10 n 1

pub write_loop : ℕ → ℕ → Option (List ℕ)
write_loop zero n = none
write_loop (suc f) n =
    let rest =
      Option.map (λ r. bit_or 0x80 (bit_and n 0x7f) % 2 ^ 8 ∷ r) (write_loop f (n / 2 ^ 7)) in
    if bit_and n (2 ^ 64 - 1 - 0x7f) == 0 then some (n % 2 ^ 8 ∷ []) else rest

unfoldable pub write_var_int : ℕ → Option (List ℕ)
unfolding write_loop
write_var_int n = write_loop 10 n

-- The loop of `SeparatedValue`, with the rounds that `sft < MAX_VALUE_LEN_BIT` leaves.
pub value_loop : ℕ → Memory → ℕ → ℕ → ℕ → ℕ → Option (ℕ × ℕ)
value_loop zero mem sft len pt end = none
value_loop (suc r) mem sft len pt end =
    let b = mem pt in
    let rest =
      value_loop r mem (sft + 7) (bit_or len (bit_and b 0x7f * 2 ^ sft % 2 ^ 64)) (pt + 1) end in
    let len' = bit_or len (b * 2 ^ sft % 2 ^ 64) in
    if leb end pt
    then none
    else if bit_and b 0x80 == 0
    then (if ltb end (pt + 1 + len') then none else some (pt + 1, len'))
    else rest

unfoldable pub separated_value : Memory → ℕ → ℕ → Option (ℕ × ℕ)
unfolding value_loop
separated_value mem pt end = value_loop (max_value_len_bit / 7) mem 0 0 pt end

unfoldable pub read_offset_field : Memory → ℕ → ℕ
read_offset_field mem field = bit_or (read_le 2 mem (field + 4) * 2 ^ 32) (read_le 4 mem field)

unfoldable pub write_offset_field : Memory → ℕ → ℕ → Memory
write_offset_field mem field offset =
    store_le 2 (store_le 4 mem field (offset % 2 ^ 32)) (field + 4) (offset / 2 ^ 32 % 2 ^ 16)

-- `SeparatedValueAt`: the field's offset counts from `extend`.
unfoldable pub separated_value_at : Memory → ℕ → ℕ → ℕ → Option (ℕ × ℕ)
unfolding separated_value read_offset_field
separated_value_at mem extend space_end field =
    let offset = read_offset_field mem field in
    if leb (space_end - extend) offset
    then none
    else separated_value mem (extend + offset) space_end
