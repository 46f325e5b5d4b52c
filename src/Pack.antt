-- ===== src/Pack.antt =====
-- `CreatePackView` of src/shd.cc: the checks on the `size` bytes of a file at `addr`, and the view.
-- Its segments are a function of the index; what they are past `seg_cnt` says nothing.
pub mod Rounds
pub mod Inside
use fast_chd.Base.{
  ℕ, zero, suc, ◌+◌, ◌-◌, ◌*◌, ◌/◌, ◌%◌, ◌^◌, ltb, leb, ◌==◌, if◌then◌else◌, Option, none, some,
}
use fast_chd.Base.{Bool, true, false, not, ◌&&◌, ◌||◌, store, bit_or}
use fast_chd.Base.Memory.{Memory, read_le}
use fast_chd.Divisor.{DivisorMr, DivisorLkk, mr_init, lkk_init}
use fast_chd.Format.{shd_magic, l1_size, l1_band, l2_size, section_size, align32}
use fast_chd.Table.{
  TableType, index_only, key_set, kv_inline, kv_separated, is_type, SegmentView, PackView,
}
use fast_chd.Value.{offset_field_size}

pub record Header : Type 0 where
  pub magic : ℕ
  pub type : ℕ
  pub key_len : ℕ
  pub val_len : ℕ
  pub seed : ℕ
  pub item : ℕ
  pub item_high : ℕ
  pub seg_cnt : ℕ

-- The layout of 20 bytes that the source asserts.
unfoldable pub read_header : Memory → ℕ → Header
read_header mem addr = record {
  magic = read_le 4 mem addr;
  type = read_le 1 mem (addr + 4);
  key_len = read_le 1 mem (addr + 5);
  val_len = read_le 2 mem (addr + 6);
  seed = read_le 4 mem (addr + 8);
  item = read_le 4 mem (addr + 12);
  item_high = read_le 2 mem (addr + 16);
  seg_cnt = read_le 2 mem (addr + 18);
}

-- The switch on the type, each label falling through to the next; `none` where the file is refused.
unfoldable pub check_type : Header → Option TableType
check_type h =
    let keyed = λ (t : TableType). if h.key_len == 0 then none else some t in
    let valued = λ (t : TableType). if h.val_len == 0 then none else keyed t in
    if h.type == 3
    then (if not (h.val_len == offset_field_size) then none else valued kv_separated)
    else if h.type == 2
    then valued kv_inline
    else if h.type == 1
    then keyed key_set
    else if h.type == 0
    then some index_only
    else none

-- The variables of the two loops over the segments.
pub record Load : Type 0 where
  pub addr_off : ℕ
  pub total_item : ℕ
  pub segments : ℕ → SegmentView

-- `parts[i]`
unfoldable pub part : Memory → ℕ → ℕ → ℕ
part mem addr i = read_le 4 mem (addr + 20 + 4 * i)

unfoldable pub cell_step : Memory → ℕ → ℕ → ℕ → Load → Option Load
cell_step mem addr size i s =
    let p = part mem addr i in
    let off = (s.addr_off + l1_size p) % 2 ^ 64 in
    if p == 0
    then none
    else if ltb size off
    then none
    else some (record {
      addr_off = off;
      total_item = (s.total_item + p) % 2 ^ 64;
      segments = store s.segments i (record {
        cells = addr + s.addr_off;
        sections = 0;
        l1bd = mr_init 64 (l1_band p);
        l2sz = mr_init 64 (l2_size p);
        offset = s.total_item;
      });
    })

unfoldable pub section_step : Memory → ℕ → ℕ → ℕ → Load → Option Load
section_step mem addr size i s =
    let off = (s.addr_off + section_size (part mem addr i) * 32) % 2 ^ 64 in
    if ltb size off
    then none
    else some (record s {
      addr_off = off;
      segments = store s.segments i (record (s.segments i) { sections = addr + s.addr_off });
    })

-- A loop that may return early.
unfoldable pub try_each : ℕ → (ℕ → Load → Option Load) → Load → Option Load
try_each zero f s = some s
try_each (suc n) f s = elim (try_each n f s) [ none ↦ none | some t ↦ f n t ]

abbrev pub no_segment : SegmentView
no_segment = record {
  cells = 0;
  sections = 0;
  l1bd = record { val = 0; fac = 0; sft = 0; ab = false };
  l2sz = record { val = 0; fac = 0; sft = 0; ab = false };
  offset = 0;
}

-- From the sections on: the content, and the separate values, that the type asks for.
unfoldable pub content_view : Header → TableType → ℕ → ℕ → Load → Option PackView
content_view h type addr size s =
    let line_size = h.key_len + h.val_len in
    let end = (s.addr_off + line_size * s.total_item) % 2 ^ 64 in
    let bare : PackView = record {
      type = type;
      key_len = h.key_len;
      val_len = h.val_len;
      line_size = line_size;
      seed = h.seed;
      l0sz = lkk_init 16 h.seg_cnt;
      item = bit_or (h.item_high * 2 ^ 32) h.item;
      content = 0;
      extend = 0;
      space_end = addr + size;
      segments = s.segments;
    } in
    if is_type type index_only
    then some bare
    else if ltb size end
    then none
    else if not (is_type type kv_separated)
    then some (record bare { content = addr + s.addr_off })
    else if ltb size ((end + s.total_item) % 2 ^ 64)
    then none
    else some (record bare { content = addr + s.addr_off; extend = addr + end })

-- After the first loop.
unfoldable pub section_view : Memory → Header → TableType → ℕ → ℕ → Load → Option PackView
section_view mem h type addr size s =
    let off = align32 s.addr_off in
    if not (s.total_item == bit_or (h.item_high * 2 ^ 32) h.item)
    then none
    else if ltb size off
    then none
    else elim (try_each h.seg_cnt (section_step mem addr size) (record s { addr_off = off })) [
      | none ↦ none
      | some t ↦ content_view h type addr size t
    ]

unfoldable pub segment_view : Memory → Header → TableType → ℕ → ℕ → Option PackView
segment_view mem h type addr size =
    let off = 20 + h.seg_cnt * 4 in
    let start : Load = record { addr_off = off; total_item = 0; segments = λ i. no_segment } in
    if h.seg_cnt == 0 || ltb 256 h.seg_cnt
    then none
    else if ltb size off
    then none
    else elim (try_each h.seg_cnt (cell_step mem addr size) start) [
      | none ↦ none
      | some s ↦ section_view mem h type addr size s
    ]

unfoldable pub create_pack_view : Memory → ℕ → ℕ → Option PackView
create_pack_view mem addr size =
    let h = read_header mem addr in
    if ltb size 20
    then none
    else if not (h.magic == shd_magic)
    then none
    else elim (check_type h) [ none ↦ none | some type ↦ segment_view mem h type addr size ]
