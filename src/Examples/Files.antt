-- ===== src/Examples/Files.antt =====
-- Hashes, values of varied length, and a whole file at concrete inputs.
use fast_chd.Base.{
  ℕ, ◌+◌, ◌-◌, ◌*◌, ◌^◌, ◌≤◌, ◌<◌, ◌≡◌, ◌⊎◌, refl, arith, Option, none, some, List, [], ◌∷◌, length,
  get_or, store,
}
use fast_chd.Base.Memory.{Memory, read_le}
use fast_chd.Divisor.{mr_init, lkk_init}
use fast_chd.Format.{l1_size, l1_band, l2_size, section_size, align32}
use fast_chd.Hash.{hash_to_128}
use fast_chd.Hash.Locality.{hash_to_128_move}
use fast_chd.Examples.Tables.{rings, relays}
use fast_chd.Members.{Hashtable, open_table, table_batch_search}
use fast_chd.Members.Law.{result, AsSearched, table_batch_search_lem}
use fast_chd.Value.{
  var_int_size, write_var_int, separated_value, read_offset_field, write_offset_field,
}
use fast_chd.Value.Groups.{var_int_size_lem}
use fast_chd.Value.Decode.{separated_value-write_var_int, separated_value_inside}
use fast_chd.Value.Offset.{read_offset_field-write_offset_field}
use fast_chd.Table.{PackView, SegmentView, kv_inline, key_set, is_type}
use fast_chd.Pack.{
  read_header, check_type, segment_view, try_each, cell_step, part, section_view, section_step,
  content_view, create_pack_view, no_segment,
}
use fast_chd.Pack.Inside.{InFile, create_pack_view_inside}

-- The same byte at each address, up to a shift by 10.
abbrev low : Memory
low i = i

abbrev high : Memory
high i = i - 10

hash_to_128_move_example : hash_to_128 low 5 50 0 ≡ hash_to_128 high 15 50 0
hash_to_128_move_example = hash_to_128_move low 5 high 15 50 (λ i l. omega arith) 0

var_int_size_lem_example :
    (bytes : List ℕ) × (write_var_int 300 ≡ some bytes)
    × (var_int_size 300 ≡ some (length bytes))
    × (1 ≤ length bytes)
    × (length bytes ≤ 10)
var_int_size_lem_example = var_int_size_lem 300 (omega arith)

abbrev bytes_300 : List ℕ
bytes_300 = 172 ∷ 2 ∷ []

abbrev prefix : Memory
prefix i = get_or bytes_300 i 0

written_300 : write_var_int 300 ≡ some bytes_300
written_300 = unfold write_var_int in refl

separated_value-write_var_int_example :
    separated_value prefix 0 400 ≡ some (0 + length bytes_300, 300)
separated_value-write_var_int_example =
    separated_value-write_var_int prefix 0 400 300 bytes_300 (omega arith) written_300
      (refl, (refl, tt)) (omega arith)

read_300 : separated_value prefix 0 400 ≡ some (2, 300)
read_300 = unfold separated_value in refl

separated_value_inside_example : (0 < 2) × (2 ≤ 0 + 5) × (2 + 300 ≤ 400)
separated_value_inside_example = separated_value_inside prefix 0 400 2 300 read_300

-- A set with one key of four bytes: 20 bytes of header, one part, one cell, a section at 32, a line.
abbrev file : Memory
file i =
    get_or
      (0x7f ∷ 0x53 ∷ 0x48 ∷ 0x44 ∷ 1 ∷ 4 ∷ 0 ∷ 0 ∷ 9 ∷ 0 ∷ 0 ∷ 0 ∷ 1 ∷ 0 ∷ 0 ∷ 0 ∷ 0 ∷ 0 ∷ 1 ∷ 0 ∷ 1
        ∷ 0 ∷ 0 ∷ 0 ∷ [])
      i 0

abbrev view : PackView
view = record {
  type = key_set;
  key_len = 4;
  val_len = 0;
  line_size = 4;
  seed = 9;
  l0sz = lkk_init 16 1;
  item = 1;
  content = 64;
  extend = 0;
  space_end = 68;
  segments = store (store (λ i. no_segment) 0 placed) 0 (record placed { sections = 32 });
}
  where
    placed : SegmentView
    placed = record {
      cells = 24;
      sections = 0;
      l1bd = mr_init 64 (l1_band 1);
      l2sz = mr_init 64 (l2_size 1);
      offset = 0;
    }

loaded : create_pack_view file 0 68 ≡ some view
loaded =
    unfold create_pack_view read_header read_le check_type segment_view try_each cell_step part
      l1_size section_view align32 section_step section_size content_view is_type store mr_init in
    refl

create_pack_view_inside_example : InFile file 0 68 (read_header file 0).seg_cnt view
create_pack_view_inside_example = create_pack_view_inside file 0 68 view (omega arith) loaded

read_offset_field-write_offset_field_example :
    (read_offset_field (write_offset_field low 3 (2 ^ 40)) 3 ≡ 2 ^ 40)
    × ((i : ℕ) → (i < 3) ⊎ (3 + 6 ≤ i) → write_offset_field low 3 (2 ^ 40) i ≡ low i)
read_offset_field-write_offset_field_example =
    read_offset_field-write_offset_field low 3 (2 ^ 40) (omega arith)

table_batch_search_lem_example :
    ((open_table file (some (0, 68))).kind ≡ none
      → result (open_table file (some (0, 68))) file file 2 (λ i. 4 * i) rings relays (λ i. none)
        ≡ (0, some (λ i. none)))
    × (((open_table file (some (0, 68))).kind ≡ some kv_inline)
          ⊎ ((open_table file (some (0, 68))).kind ≡ some key_set)
        → AsSearched
            (open_table file (some (0, 68)))
            file
            file
            2
            (λ i. 4 * i)
            rings
            relays
            (λ i. none))
    × ((patch : Option Hashtable) (ks : Option (ℕ → ℕ)) (o : Option (ℕ → Option ℕ))
        → (ks ≡ none) ⊎ (o ≡ none)
        → table_batch_search (open_table file (some (0, 68))) patch file file 2 ks rings relays o
          ≡ (0, o))
table_batch_search_lem_example =
    table_batch_search_lem file file (some (0, 68)) 2 (λ i. 4 * i) rings relays (λ i. none)
      (omega arith)
