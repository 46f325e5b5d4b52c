-- ===== src/Value/Offset.antt =====
-- The offset field keeps 48 bits, and its write touches its own six bytes only.
use fast_chd.Base.{ℕ, ◌+◌, ◌*◌, ◌/◌, ◌%◌, ◌^◌, ◌≤◌, ◌<◌, ◌≡◌, ◌⊎◌, inl, ◌∙◌, arith}
use fast_chd.Base.Masks.{bit_or_fields}
use fast_chd.Base.Digits.{bit_or_comm}
use fast_chd.Base.Memory.{
  Memory, read_le, store_le, read_le-store_le, read_le_congr, store_le_frame,
}
use fast_chd.Value.{read_offset_field, write_offset_field, max_offset}

-- An offset up to MAX_OFFSET is read back from its field, and every byte outside the field's six
-- is as before.
pub read_offset_field-write_offset_field :
    (mem : Memory) (field offset : ℕ)
    → offset ≤ max_offset
    → (read_offset_field (write_offset_field mem field offset) field ≡ offset)
      × ((i : ℕ) → (i < field) ⊎ (field + 6 ≤ i) → write_offset_field mem field offset i ≡ mem i)
unfolding read_offset_field write_offset_field
read_offset_field-write_offset_field mem field offset h = (value, frame)
  where
    low : Memory
    low = store_le 4 mem field (offset % 2 ^ 32)

    whole : Memory
    whole = store_le 2 low (field + 4) (offset / 2 ^ 32 % 2 ^ 16)

    high_part : read_le 2 whole (field + 4) ≡ offset / 2 ^ 32
    high_part = read_le-store_le 2 low (field + 4) (offset / 2 ^ 32 % 2 ^ 16) ∙ omega arith

    low_part : read_le 4 whole field ≡ offset % 2 ^ 32
    low_part =
        read_le_congr 4 whole low field (λ i l k.
          store_le_frame 2 low (field + 4) (offset / 2 ^ 32 % 2 ^ 16) i (inl (omega arith)))
        ∙ read_le-store_le 4 mem field (offset % 2 ^ 32)
        ∙ omega arith

    value : read_offset_field whole field ≡ offset
    value =
        rw (high_part, low_part)
          (bit_or_comm 48 (offset / 2 ^ 32 * 2 ^ 32) (offset % 2 ^ 32) (omega arith) (omega arith)
            ∙ bit_or_fields 32 (offset / 2 ^ 32) (offset % 2 ^ 32) (omega arith)
            ∙ omega arith)

    frame : (i : ℕ) → (i < field) ⊎ (field + 6 ≤ i) → whole i ≡ mem i
    frame i o =
        store_le_frame 2 low (field + 4) (offset / 2 ^ 32 % 2 ^ 16) i (ground arith)
        ∙ store_le_frame 4 mem field (offset % 2 ^ 32) i (ground arith)
