-- ===== src/Table.antt =====
-- The views of a loaded file in src/internal.h (`SegmentView`, `PackView`), and the path from a key to
-- its position in src/search.cc. `mem` is the process's memory, with the file in it.
-- A prefetch changes no state and is left out.
pub mod Rank
pub mod Bounds
use fast_chd.Base.{
  ℕ, zero, suc, ◌+◌, ◌-◌, ◌*◌, ◌/◌, ◌%◌, ◌^◌, ltb, ◌==◌, if◌then◌else◌, Option, none, some,
}
use fast_chd.Base.{Bool, true, false, ◌&&◌, bit_and, each}
use fast_chd.Base.Digits.{bit}
use fast_chd.Base.Memory.{Memory, read_le}
use fast_chd.Divisor.{DivisorMr, DivisorLkk, mr_mod, lkk_mod}
use fast_chd.Format.{skew_map, bitmap_section_size}
use fast_chd.Hash.{V96, gen_id, l0_hash, l1_hash, l2_hash}

pub data TableType : Type 0 where
  index_only : TableType
  key_set : TableType
  kv_inline : TableType
  kv_separated : TableType

unfoldable pub type_code : TableType → ℕ
type_code index_only = 0
type_code key_set = 1
type_code kv_inline = 2
type_code kv_separated = 3

-- Two types are the same when their codes are.
unfoldable pub is_type : TableType → TableType → Bool
unfolding type_code
is_type a b = type_code a == type_code b

pub record SegmentView : Type 0 where
  pub cells : ℕ
  pub sections : ℕ
  pub l1bd : DivisorMr
  pub l2sz : DivisorMr
  pub offset : ℕ

pub record PackView : Type 0 where
  pub type : TableType
  pub key_len : ℕ
  pub val_len : ℕ
  pub line_size : ℕ
  pub seed : ℕ
  pub l0sz : DivisorLkk
  pub item : ℕ
  pub content : ℕ
  pub extend : ℕ
  pub space_end : ℕ
  pub segments : ℕ → SegmentView

-- A pointer to a segment is the segment.
pub record Step1 : Type 0 where
  pub seg : SegmentView
  pub id : V96
  pub l1pos : ℕ

pub record Step2 : Type 0 where
  pub seg : SegmentView
  pub section : ℕ
  pub bit_off : ℕ

unfoldable pub calc1 : PackView → Memory → ℕ → ℕ → Step1
calc1 index mem key key_len =
    let id = gen_id index.seed mem key key_len in
    let seg = index.segments (lkk_mod 16 index.l0sz (l0_hash id)) in
    record { seg = seg; id = id; l1pos = skew_map (l1_hash id) seg.l1bd }

unfoldable pub calc2 : Memory → Step1 → Step2
calc2 mem s =
    let bit_pos = mr_mod 64 s.seg.l2sz (l2_hash s.id (mem (s.seg.cells + s.l1pos) % 2 ^ 8)) in
    record {
      seg = s.seg;
      section = bit_pos / bitmap_section_size % 2 ^ 32;
      bit_off = bit_pos % bitmap_section_size % 2 ^ 8;
    }

-- The ones among the low `n` digits of a word.
unfoldable pub pop_count : ℕ → ℕ → ℕ
pop_count zero x = 0
pop_count (suc n) x = pop_count n x + bit x n

-- The switch adds whole words of the section for each label passed, and ends in the masked one.
-- `step` is the last 32-bit word of the section, which is also the high half of its last 64-bit word.
unfoldable pub calc_pos : Memory → Step2 → ℕ
unfolding pop_count
calc_pos mem s =
    let at = s.seg.sections + 32 * s.section in
    let step = read_le 4 mem (at + 28) in
    let mask = 2 ^ bit_and s.bit_off 63 - 1 in
    let full = s.bit_off / 2 ^ 6 in
    let cnt = each full (λ k c. (c + pop_count 64 (read_le 8 mem (at + 8 * k))) % 2 ^ 32) step in
    let cnt' = (cnt + pop_count 64 (bit_and (read_le 8 mem (at + 8 * full)) mask)) % 2 ^ 32 in
    (s.seg.offset + cnt') % 2 ^ 64

-- `CalcPos` of a key, which may stand in other memory.
unfoldable pub key_pos : PackView → Memory → Memory → ℕ → ℕ → ℕ
unfolding calc1 calc2 calc_pos
key_pos index mem kmem key key_len = calc_pos mem (calc2 mem (calc1 index kmem key key_len))
