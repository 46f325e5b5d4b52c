-- ===== src/Bloom.antt =====
-- The blocked Bloom filter of src/bbf.cc and include/bbf.h: one counter and an array of 64-bit blocks.
-- Keys stand in memory of their own, since the batch calls take them as `__restrict` or read-only.
-- Creating the memory block and reading it from a file are the operating system's.
pub mod Laws
pub mod Batch
use fast_chd.Base.{ℕ, ◌+◌, ◌-◌, ◌*◌, ◌/◌, ◌%◌, ◌^◌, bit_and, bit_or, Bool, true, false, not, ◌||◌}
use fast_chd.Base.{ltb, ◌==◌, if◌then◌else◌, Option, none, some, store}
use fast_chd.Base.Memory.{Memory}
use fast_chd.Divisor.{DivisorMr, mr_init, mr_mod}
use fast_chd.Hash.{V128, hash_to_128}
use fast_chd.Pipeline.Two.{pipeline2}

pub record Step : Type 0 where
  pub blk : ℕ
  pub mask : ℕ

-- `m_mem` as the counter in its first word and the words after it, `size` being its bytes.
pub record BloomFilter : Type 0 where
  pub item : ℕ
  pub space : ℕ → ℕ
  pub size : ℕ
  pub block : DivisorMr

-- Five bits of the mask from five groups of six bits of the low half, the block from the high half.
unfoldable pub calc : DivisorMr → Memory → ℕ → ℕ → Step
calc block mem key len =
    let code = hash_to_128 mem key len 0 in
    let a = 2 ^ bit_and (code.l / 2 ^ 24) 63 in
    let b = 2 ^ bit_and (code.l / 2 ^ 18) 63 in
    let c = 2 ^ bit_and (code.l / 2 ^ 12) 63 in
    let d = 2 ^ bit_and (code.l / 2 ^ 6) 63 in
    let e = 2 ^ bit_and code.l 63 in
    record { blk = mr_mod 64 block code.h; mask = bit_or (bit_or (bit_or a b) (bit_or c d)) e }

-- `(space[s.blk] & s.mask) == s.mask`
unfoldable pub covered : (ℕ → ℕ) → Step → Bool
covered space s = bit_and (space s.blk) s.mask == s.mask

unfoldable pub test : BloomFilter → Memory → ℕ → ℕ → Bool
test f mem key len = covered f.space (calc f.block mem key len)

unfoldable pub set : BloomFilter → Memory → ℕ → ℕ → Bool × BloomFilter
set f mem key len =
    let s = calc f.block mem key len in
    if covered f.space s then (false, f) else (
      true,
      record f {
        space = store f.space s.blk (bit_or (f.space s.blk) s.mask);
        item = (f.item + 1) % 2 ^ 64;
      },
    )

-- `BloomFilter(size_t capacity)` once the memory is there, filled with zeros; `none` where the
-- constructor returns before it has any.
unfoldable pub with_capacity : ℕ → Option BloomFilter
with_capacity capacity =
    let block = mr_init 64 ((capacity + 7) % 2 ^ 64 / 8) in
    if capacity == 0
    then none
    else some
        (record { item = 0; space = λ i. 0; size = (8 + block.val * 8) % 2 ^ 64; block = block })

-- The two other constructors, on the `size` bytes that a file or `load` gave.
unfoldable pub from_memory : ℕ → (ℕ → ℕ) → Option BloomFilter
from_memory size words =
    if ltb size (8 * 2) || not (size % 8 == 0)
    then none
    else some (record {
      item = words 0;
      space = λ i. words (i + 1);
      size = size;
      block = mr_init 64 ((size - 8) / 8);
    })

-- The last stage of `batch_test` on item `i`: the answer goes to `out[i]`, and hits are counted.
pub answer : BloomFilter → Step → ℕ → (ℕ → Bool) × ℕ → (ℕ → Bool) × ℕ
answer f s i (out, hit) =
    let found = covered f.space s in (store out i found, if found then (hit + 1) % 2 ^ 32 else hit)

-- `stack` is what the pipeline's ring holds before.
unfoldable pub batch_test :
    BloomFilter → Memory → ℕ → ℕ → ℕ → (ℕ → Step) → (ℕ → Bool) → (ℕ → Bool) × ℕ
unfolding answer
batch_test f mem batch key_len keys stack out =
    pipeline2 16 (λ i. calc f.block mem (keys + i * key_len % 2 ^ 32) key_len) (answer f) batch
      stack (out, 0)

-- The last stage of `batch_set`.
pub insert_step : Step → ℕ → BloomFilter → BloomFilter
insert_step s i f = record f {
  item = if covered f.space s then f.item else (f.item + 1) % 2 ^ 64;
  space = store f.space s.blk (bit_or (f.space s.blk) s.mask);
}

unfoldable pub batch_set : BloomFilter → Memory → ℕ → ℕ → ℕ → (ℕ → Step) → BloomFilter
unfolding insert_step
batch_set f mem batch key_len keys stack =
    pipeline2 16 (λ i. calc f.block mem (keys + i * key_len % 2 ^ 32) key_len) insert_step batch
      stack f
