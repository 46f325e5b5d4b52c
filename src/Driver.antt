-- ===== src/Driver.antt =====
-- The way from the readers to the output in src/build.cc: `DetectKeyValueLen`, the merging of the parts'
-- statuses, the retries of `BuildAndDump`, `DumpIndex`, and the entry points.
-- A reader is the list of the records that it gives after `reset`, since its code is the caller's. So
-- is the code of a writer: its answers come in as a list, one for each call of `write`.
pub mod Retries
pub mod Lengths
pub mod Merging
use fast_chd.Base.{
  ℕ, zero, suc, ◌+◌, ◌-◌, ◌*◌, ◌/◌, ◌%◌, ◌^◌, ltb, leb, ◌==◌, if◌then◌else◌, Option, none, some,
}
use fast_chd.Base.{Bool, true, false, not, ◌&&◌, ◌||◌, List, [], ◌∷◌, ◌++◌, map, length}
use fast_chd.Format.{shd_magic}
use fast_chd.Mapping.{BuildStatus, build_ok, bad_input, fail_to_output, out_of_chance, conflict}
use fast_chd.Pack.{Header}
use fast_chd.Piece.{IndexPiece}
use fast_chd.Table.{TableType, index_only, key_set, kv_inline, kv_separated, type_code}
use fast_chd.Value.{offset_field_size}

-- A slice with a null pointer has a length too.
pub record Slice : Type 0 where
  pub valid : Bool
  pub bytes : List ℕ

pub record Record : Type 0 where
  pub key : Slice
  pub val : Slice

abbrev pub Reader : Type 0
Reader = List Record

abbrev pub max_key_len : ℕ
max_key_len = 255

abbrev pub max_inline_value_len : ℕ
max_inline_value_len = 65535

abbrev pub max_segment : ℕ
max_segment = 256

-- `SumInputSize`
unfoldable pub sum_input_size : List Reader → ℕ
sum_input_size [] = 0
sum_input_size (r ∷ rs) = (length r + sum_input_size rs) % 2 ^ 64

unfoldable pub bad_slice : ℕ → Slice → Bool
bad_slice max s = not s.valid || length s.bytes == 0 || ltb max (length s.bytes)

-- The lengths of the key and the value of the first record; `wants` says that `val_len` is not null.
unfoldable pub detect_key_value_len : Bool → List Reader → Option (ℕ × ℕ)
unfolding bad_slice
detect_key_value_len wants [] = none
detect_key_value_len wants ([] ∷ rs) = detect_key_value_len wants rs
detect_key_value_len wants ((r ∷ more) ∷ rs) =
    if bad_slice max_key_len r.key
    then none
    else if not wants
    then some (length r.key.bytes, 0)
    else if bad_slice max_inline_value_len r.val
    then none
    else some (length r.key.bytes, length r.val.bytes)

-- The loop over `part_status`.
unfoldable pub merge : BuildStatus → List BuildStatus → BuildStatus
merge status [] = status
merge status (conflict ∷ parts) = merge conflict parts
merge conflict (out_of_chance ∷ parts) = merge conflict parts
merge _ (out_of_chance ∷ parts) = merge out_of_chance parts
merge status (_ ∷ parts) = merge status parts

pub record Retry : Type 0 where
  pub conflict_left : ℕ
  pub total_left : ℕ

-- Out of the loop with a status and the number of the attempt, or once more.
pub data Verdict : Type 0 where
  leave : BuildStatus → Verdict
  again : Retry → Verdict

-- The counters have eight bits.
unfoldable pub try_total : Retry → BuildStatus → Verdict
try_total retry status =
    if retry.total_left == 0
    then leave status
    else again (record retry { total_left = (retry.total_left + 2 ^ 8 - 1) % 2 ^ 8 })

-- The switch, where `conflict` falls through.
unfoldable pub judge : Retry → BuildStatus → Verdict
unfolding try_total
judge retry conflict =
    if retry.conflict_left == 0
    then leave conflict
    else try_total (record retry { conflict_left = (retry.conflict_left + 2 ^ 8 - 1) % 2 ^ 8 })
        conflict
judge retry out_of_chance = try_total retry out_of_chance
judge retry status = leave status

-- `for (bool done = false; !done; )` from the attempt `i` on, with fuel: `build` is the status of each
-- attempt, whose seed is random.
unfoldable pub retry_loop : ℕ → (ℕ → BuildStatus) → Retry → ℕ → Option (BuildStatus × ℕ)
retry_loop zero build retry i = none
retry_loop (suc fuel) build retry i = elim (judge retry (build i)) [
  | leave status ↦ some (status, i)
  | again r ↦ retry_loop fuel build r (i + 1)
]

pub record BasicInfo : Type 0 where
  pub type : TableType
  pub key_len : ℕ
  pub val_len : ℕ

-- The first lines of the entry points: `none` is the status for bad input.
pub index_info : List Reader → Option BasicInfo
index_info in_ = some (record { type = index_only; key_len = 0; val_len = 0 })

pub set_info : List Reader → Option BasicInfo
unfolding detect_key_value_len
set_info in_ = elim (detect_key_value_len false in_) [
  | none ↦ none
  | some (k, v) ↦ some (record { type = key_set; key_len = k; val_len = 0 })
]

pub dict_info : List Reader → Option BasicInfo
unfolding detect_key_value_len
dict_info in_ = elim (detect_key_value_len true in_) [
  | none ↦ none
  | some (k, v) ↦ some (record { type = kv_inline; key_len = k; val_len = v })
]

pub varied_info : List Reader → Option BasicInfo
unfolding detect_key_value_len
varied_info in_ = elim (detect_key_value_len false in_) [
  | none ↦ none
  | some (k, v) ↦ some (record { type = kv_separated; key_len = k; val_len = offset_field_size })
]

-- The header that `BuildAndDump` fills in.
unfoldable pub make_header : BasicInfo → ℕ → ℕ → ℕ → Header
unfolding type_code
make_header info total seed parts = record {
  magic = shd_magic;
  type = type_code info.type;
  key_len = info.key_len;
  val_len = info.val_len;
  seed = seed;
  item = total % 2 ^ 32;
  item_high = total / 2 ^ 32 % 2 ^ 16;
  seg_cnt = parts % 2 ^ 16;
}
