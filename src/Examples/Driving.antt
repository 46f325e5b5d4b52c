-- ===== src/Examples/Driving.antt =====
-- Retries, statuses, lengths and the output at concrete inputs.
use fast_chd.Base.{
  ℕ, zero, suc, ◌+◌, ◌%◌, ◌^◌, ◌<◌, ◌≡◌, ◌⊎◌, refl, sym, ap, ◌∙◌, arith, true, List, [], ◌∷◌,
  length, get_elem?, get_or, none, some, Option,
}
use fast_chd.Base.Memory.{Memory, At}
use fast_chd.Building.{build_and_dump}
use fast_chd.Building.Law.{Index, build_and_dump_lem}
use fast_chd.Driver.{
  Slice, Reader, Retry, BasicInfo, merge, retry_loop, index_info, set_info, dict_info, varied_info,
  sum_input_size, make_header,
}
use fast_chd.Driver.Lengths.{Taken, info_lem}
use fast_chd.Driver.Merging.{of_severity, worst, merge_lem}
use fast_chd.Driver.Retries.{Course, retry_loop_lem}
use fast_chd.Dump.{
  Sink, dump_index, array_bytes, write, write_each, cell_bytes, section_bytes, item_bytes,
  header_bytes, le_bytes, and_then, write_padding, cells_end,
}
use fast_chd.Dump.Load.{Restored, index_header, dump_load_lem}
use fast_chd.Dump.Round.{Fits}
use fast_chd.Format.{l1_size, section_size, l2_size, align32}
use fast_chd.Mapping.{BuildStatus, build_ok, bad_input, out_of_chance, conflict}
use fast_chd.Pack.{create_pack_view}
use fast_chd.Piece.{IndexPiece}
use mathlib.Core.Path.{subst}
use fast_chd.Table.{index_only, key_set, kv_inline, kv_separated, type_code, PackView}

-- A conflict, a failure, and then success.
abbrev third : ℕ → BuildStatus
third zero = conflict
third (suc zero) = out_of_chance
third (suc (suc n)) = build_ok

abbrev usual : Retry
usual = record { conflict_left = 1; total_left = 4 }

retry_loop_lem_example :
    (n : ℕ) × (retry_loop 5 third usual 0 ≡ some (third (0 + n), 0 + n)) × Course third usual 0 n
retry_loop_lem_example = retry_loop_lem third usual 0 (omega arith) (omega arith)

merge_lem_example :
    merge build_ok (build_ok ∷ conflict ∷ out_of_chance ∷ [])
    ≡ of_severity (worst (build_ok ∷ conflict ∷ out_of_chance ∷ []))
merge_lem_example = merge_lem (build_ok ∷ conflict ∷ out_of_chance ∷ [])

abbrev short : Slice
short = record { valid = true; bytes = 1 ∷ 2 ∷ [] }

abbrev readers : List Reader
readers = [] ∷ (record { key = short; val = short } ∷ []) ∷ []

abbrev pairs : BasicInfo
pairs = record { type = kv_inline; key_len = 2; val_len = 2 }

info_lem_example :
    (index_info readers ≡ some pairs → Taken 1 7 1 index_only pairs)
    × (set_info readers ≡ some pairs → Taken 1 7 1 key_set pairs)
    × (dict_info readers ≡ some pairs → Taken 1 7 1 kv_inline pairs)
    × (varied_info readers ≡ some pairs → Taken 1 7 1 kv_separated pairs)
info_lem_example = info_lem 1 7 1 readers pairs

-- A piece of one item.
abbrev one : IndexPiece
one = record { size = 1; cells = λ i. 9; sections = λ i. i % 256 }

abbrev bare : BasicInfo
bare = record { type = index_only; key_len = 0; val_len = 0 }

abbrev fresh : Sink
fresh = record { calls = 0; bytes = [] }

build_and_dump_lem_example :
    ((s : BuildStatus) × (t : Option Sink) × (build_and_dump
          (λ seed. (build_ok, one ∷ []))
          (λ k. 5)
          (λ n. true)
          none
          readers
          bare
          usual
          fresh
        ≡ some (s, t)))
    × ((length readers ≡ 0) ⊎ ((256 < length readers) ⊎ (sum_input_size readers ≡ 0))
        → build_and_dump
            (λ seed. (build_ok, one ∷ []))
            (λ k. 5)
            (λ n. true)
            none
            readers
            bare
            usual
            fresh
          ≡ some (bad_input, some fresh))
    × ((t : Sink)
        → build_and_dump
            (λ seed. (build_ok, one ∷ []))
            (λ k. 5)
            (λ n. true)
            none
            readers
            bare
            usual
            fresh
          ≡ some (build_ok, some t)
        → Index (λ seed. (build_ok, one ∷ [])) (λ k. 5) (λ n. true) readers bare usual fresh t)
build_and_dump_lem_example =
    build_and_dump_lem (λ seed. (build_ok, one ∷ [])) (λ k. 5) (λ n. true) none readers bare usual
      fresh (omega arith) (omega arith)

one-Fits : Fits (one ∷ [])
one-Fits = record {
  some_part = omega arith;
  few = omega arith;
  filled = one_filled;
  short = unfold cell_bytes array_bytes l1_size in omega arith;
}
  where
    one_filled :
        (i : ℕ) (p : IndexPiece)
        → get_elem? (one ∷ []) i ≡ some p
        → (0 < p.size) × (p.size < 2 ^ 32)
    one_filled zero p e =
        let same : one ≡ p = cc in
        subst (λ (q : IndexPiece). (0 < q.size) × (q.size < 2 ^ 32)) same (omega arith, omega arith)
    one_filled (suc i) p e = absurd cc

-- The header, the size, the cell, seven zeros and one section.
abbrev file : List ℕ
file =
    0x7f ∷ 0x53 ∷ 0x48 ∷ 0x44 ∷ 0 ∷ 0 ∷ 0 ∷ 0 ∷ 5 ∷ 0 ∷ 0 ∷ 0 ∷ 1 ∷ 0 ∷ 0 ∷ 0 ∷ 0 ∷ 0 ∷ 1 ∷ 0 ∷ 1
    ∷ 0 ∷ 0 ∷ 0 ∷ 9 ∷ 0 ∷ 0 ∷ 0 ∷ 0 ∷ 0 ∷ 0 ∷ 0 ∷ 0 ∷ 1 ∷ 2 ∷ 3 ∷ 4 ∷ 5 ∷ 6 ∷ 7 ∷ 8 ∷ 9 ∷ 10 ∷ 11
    ∷ 12 ∷ 13 ∷ 14 ∷ 15 ∷ 16 ∷ 17 ∷ 18 ∷ 19 ∷ 20 ∷ 21 ∷ 22 ∷ 23 ∷ 24 ∷ 25 ∷ 26 ∷ 27 ∷ 28 ∷ 29 ∷ 30
    ∷ 31 ∷ []

abbrev memory : Memory
memory i = get_or file i 0

abbrev written : Sink
written = record { calls = 5; bytes = file }

dumped : dump_index (λ n. true) (index_header 5 (one ∷ [])) (one ∷ []) fresh ≡ some written
dumped =
    unfold dump_index and_then write write_each write_padding header_bytes item_bytes cell_bytes
      section_bytes cells_end le_bytes array_bytes l1_size section_size l2_size align32 make_header
      type_code in
    refl

pub At-get :
    (mem : Memory) (a : ℕ) (xs : List ℕ)
    → ((i : ℕ) → i < length xs → mem (a + i) ≡ get_or xs i 0)
    → At mem a xs
At-get mem a [] h = _
At-get mem a (x ∷ xs) h =
    let here : a + 0 ≡ a = omega arith in
    (
      ap mem (sym here) ∙ h 0 (omega arith),
      At-get mem (a + 1) xs (λ i l. ap mem (omega arith) ∙ h (suc i) (omega arith)),
    )

file_At : At memory 0 file
file_At = At-get memory 0 file (λ i l. let e : 0 + i ≡ i = omega arith in ap memory e)

dump_load_lem_example :
    (view : PackView) × (create_pack_view memory 0 64 ≡ some view)
    × Restored memory 0 (index_header 5 (one ∷ [])) (one ∷ []) view
dump_load_lem_example =
    dump_load_lem (λ n. true) memory 0 64 5 (one ∷ []) written one-Fits (omega arith) dumped file_At
      (omega arith) (omega arith)
