-- ===== src/Examples/Tables.antt =====
-- A table with one line, key 1 2 3 4 and value 9, searched for that key and another one.
use fast_chd.Base.{
  ℕ, ltb, false, if◌then◌else◌, ◌-◌, ◌+◌, ◌*◌, ◌^◌, ◌≤◌, ◌<◌, ◌≡◌, inl, refl, arith, none, some, [],
  ◌∷◌, get_or, each,
}
use fast_chd.Base.Digits.{bit}
use fast_chd.Base.Memory.{Memory, read_le}
use fast_chd.Divisor.{mr_init, mr_mod, lkk_init, lkk_mod}
use fast_chd.Format.{l1_band, l2_size, section_size, skew_map}
use fast_chd.Hash.{gen_id, hash_to_128, tail, l0_hash, l1_hash, l2_hash}
use fast_chd.Windows.{Window, batch_find_pos, batch_data_mapping}
use fast_chd.Windows.Law.{add_find, batch_find_pos_lem}
use fast_chd.Windows.Filling.{put_line, batch_data_mapping_lem}
use fast_chd.Table.{
  PackView, SegmentView, Step1, Step2, index_only, kv_inline, is_type, type_code, calc1, calc2,
  calc_pos, key_pos,
}
use fast_chd.Table.Rank.{ones, calc_pos_lem}
use fast_chd.Table.Bounds.{calc2-inside, gen_id-IsId}
use fast_chd.Search.{Rings, search, equal, batch_locate, batch_search, batch_fetch}
use fast_chd.Search.Law.{slice_start, count, batch_locate_lem, batch_search_lem}
use fast_chd.Search.Fetch.{Delivered, found, batch_fetch_lem}
use fast_chd.Patch.{RelayRings, pending, batch_search_patch, batch_fetch_patch}
use fast_chd.Patch.Law.{layered, layered_key, batch_search_patch_lem, batch_fetch_patch_lem}

-- The line is at 64; cells and sections are zeros.
abbrev file : Memory
file i = if ltb i 64 then 0 else get_or (1 ∷ 2 ∷ 3 ∷ 4 ∷ 9 ∷ []) (i - 64) 0

-- The keys 1 2 3 4 and 5 6 7 8.
abbrev keys : Memory
keys i = i + 1

abbrev segment : SegmentView
segment = record {
  cells = 24;
  sections = 32;
  l1bd = mr_init 64 (l1_band 1);
  l2sz = mr_init 64 (l2_size 1);
  offset = 0;
}

abbrev table : PackView
table = record {
  type = kv_inline;
  key_len = 4;
  val_len = 1;
  line_size = 5;
  seed = 0;
  l0sz = lkk_init 16 1;
  item = 1;
  content = 64;
  extend = 0;
  space_end = 69;
  segments = λ i. segment;
}

abbrev first_step : Step1
first_step = record { seg = segment; id = gen_id 0 keys 0 4; l1pos = 0 }

abbrev second_step : Step2
second_step = record { seg = segment; section = 0; bit_off = 200 }

abbrev pub rings : Rings
rings = record { ring1 = λ i. first_step; ring2 = λ i. second_step; ring3 = λ i. none }

abbrev pub relays : RelayRings
relays = record {
  ring4 = λ i. pending first_step;
  ring5 = λ i. pending second_step;
  ring6 = λ i. pending none;
}

calc_pos_lem_example :
    calc_pos file second_step
    ≡ 0 + (read_le 4 file (32 + 32 * 0 + 28) + ones file (32 + 32 * 0) 200)
calc_pos_lem_example = calc_pos_lem file second_step (omega arith) step_zero (omega arith)
  where
    step_zero : read_le 4 file (32 + 32 * 0 + 28) + 224 < 2 ^ 32
    step_zero = unfold read_le in omega arith

calc2-inside_example :
    ((calc2 file first_step).section < section_size 1)
    × ((calc2 file first_step).bit_off < 224)
    × (224 * (calc2 file first_step).section + (calc2 file first_step).bit_off < l2_size 1)
calc2-inside_example = calc2-inside file first_step 1 (omega arith) (gen_id-IsId 0 keys 0 4) refl

batch_locate_lem_example :
    batch_locate table file keys 2 0 4 rings (λ i. 7) 1 ≡ key_pos table file keys (0 + 1 * 4) 4
batch_locate_lem_example =
    batch_locate_lem table file keys 2 0 4 rings (λ i. 7) 1 (omega arith) (omega arith)

-- The first key has its value behind the line's key, the second one none.
found_run : (search table file keys 0 ≡ some (68, 1)) × (search table file keys 4 ≡ none)
found_run =
    unfold bit search key_pos calc1 calc2 calc_pos gen_id hash_to_128 tail lkk_init lkk_mod mr_init
      mr_mod l0_hash l1_hash l2_hash skew_map l1_band l2_size read_le each is_type equal in
    (refl, refl)

batch_search_lem_example :
    ((batch_search table file keys 2 (λ i. i * 4) rings (λ i. some 7)).0
      ≡ count (λ i. slice_start (search table file keys (i * 4))) 2)
    × ((i : ℕ)
        → i < 2
        → (batch_search table file keys 2 (λ i. i * 4) rings (λ i. some 7)).1 i
          ≡ slice_start (search table file keys (i * 4)))
    × ((i : ℕ)
        → 2 ≤ i
        → (batch_search table file keys 2 (λ i. i * 4) rings (λ i. some 7)).1 i ≡ some 7)
batch_search_lem_example =
    batch_search_lem table file keys 2 (λ i. i * 4) rings (λ i. some 7) (inl refl) (omega arith)

batch_fetch_lem_example :
    Delivered 1 file 100 none
      (found table file keys 0)
      (λ i. 0)
      (some [])
      2
      (batch_fetch table file keys none 2 0 100 rings (λ i. 0) (some []))
batch_fetch_lem_example =
    batch_fetch_lem table file keys none 2 0 100 rings (λ i. 0) (some []) refl (omega arith)
      (omega arith) (omega arith)

batch_search_patch_lem_example :
    ((batch_search_patch table table file keys 2 (λ i. i * 4) rings relays (λ i. some 7)).0
      ≡ count (λ i. layered table table file keys (i * 4)) 2)
    × ((i : ℕ)
        → i < 2
        → (batch_search_patch table table file keys 2 (λ i. i * 4) rings relays (λ i. some 7)).1 i
          ≡ layered table table file keys (i * 4))
    × ((i : ℕ)
        → 2 ≤ i
        → (batch_search_patch table table file keys 2 (λ i. i * 4) rings relays (λ i. some 7)).1 i
          ≡ some 7)
batch_search_patch_lem_example =
    batch_search_patch_lem table table file keys (inl refl) refl refl refl 2 (λ i. i * 4) rings
      relays (λ i. some 7) (omega arith)

batch_fetch_patch_lem_example :
    Delivered 1 file 100 none
      (layered_key table table file keys 0)
      (λ i. 0)
      (some [])
      2
      (batch_fetch_patch table table file keys none 2 0 100 rings relays (λ i. 0) (some []))
batch_fetch_patch_lem_example =
    batch_fetch_patch_lem table table file keys refl refl refl refl none 2 0 100 rings relays
      (λ i. 0) (some []) (omega arith) (omega arith) (omega arith)

-- Key `k` as the callback gives it.
abbrev callback : ℕ → Memory
callback k i = 4 * k + i + 1

abbrev window : Window
window = record {
  buf = λ i. 0;
  s1 = λ j. first_step;
  s2 = λ j. second_step;
  s3 = λ j. record { pos = 0; line = none };
  out = [];
}

keyed : is_type table.type index_only ≡ false
unfolding is_type type_code
keyed = refl

batch_find_pos_lem_example :
    (batch_find_pos table file callback 40 window).out ≡ each 40 (add_find table file callback) []
batch_find_pos_lem_example = batch_find_pos_lem table file callback 40 window keyed

batch_data_mapping_lem_example :
    (batch_data_mapping table file callback 64 40 window file).1
    ≡ each 40 (put_line table file callback 64) file
batch_data_mapping_lem_example =
    batch_data_mapping_lem table file callback 64 40 window file (omega arith)
