-- ===== src/Piece.antt =====
-- One segment of the index, `Build` of an `IndexPiece` in src/build.cc, from the sorted identities on:
-- the scan over the buckets, and the sections with their counts. `bitmap` and `cells` are byte arrays
-- that start with zeros, as `memset` and `make_unique` leave them.
pub mod Ranks
pub mod Scan
pub mod Cells
pub mod Total
pub mod Occurs
pub mod Lookup
pub mod Perfect
pub mod Law
use mathlib.Core.Option
use fast_chd.Base.{
  ℕ, zero, suc, ◌+◌, ◌-◌, ◌*◌, ◌/◌, ◌%◌, ◌^◌, ◌==◌, ltb, not, if◌then◌else◌, Bool, true, false,
  List, [], ◌∷◌, ◌++◌, Option, none, some, store, each,
}
use fast_chd.Base.Memory.{Memory, read_le, store_le}
use fast_chd.Bitmap.{Bytes}
use fast_chd.Divisor.{DivisorMr, mr_init}
use fast_chd.Format.{skew_map, l1_band, l2_size, section_size}
use fast_chd.Hash.{V96, l1_hash}
use fast_chd.Mapping.{BuildStatus, build_ok, Mapped, mapping}
use fast_chd.Table.{pop_count}

-- `SkewMap(L1Hash(id), l1bd)`
unfoldable pub bucket : DivisorMr → V96 → ℕ
bucket l1bd id = skew_map (l1_hash id) l1bd

pub record Scanned : Type 0 where
  pub status : BuildStatus
  pub cells : Bytes
  pub bits : Bytes

unfoldable pub is_ok : BuildStatus → Bool
is_ok build_ok = true
is_ok _ = false

-- The bucket `last` is done: its status, or what comes next.
pub close : ℕ → Bytes → Mapped → Scanned
close last cells m = record {
  status = m.status;
  cells = if is_ok m.status then store cells last m.sd8 else cells;
  bits = m.bitmap;
}

-- The loop from some `i` on. `run` is `ids[begin..i)`, and the last list is `ids[i..]`.
unfoldable pub scan :
    DivisorMr → DivisorMr → ℕ → List V96 → ℕ → Bytes → Bytes → List V96 → Option Scanned
unfolding close
scan l1bd l2sz last run magic cells bits [] =
    Option.map (close last cells) (mapping l2sz magic bits run)
scan l1bd l2sz last run magic cells bits (x ∷ xs) =
    let longer = scan l1bd l2sz last (run ++ (x ∷ [])) magic cells bits xs in
    let next = λ (s : Scanned).
      scan l1bd l2sz (bucket l1bd x) (x ∷ []) ((magic + 2 ^ 8 - 1) % 2 ^ 8) s.cells s.bits xs in
    if bucket l1bd x == last then longer else elim (mapping l2sz magic bits run) [
      | none ↦ none
      | some m ↦ let s = close last cells m in if is_ok m.status then next s else some s
    ]

-- The loop over the sections. `b32` is at `28 * i`, and `out` is the array of 32-byte sections.
pub record Counting : Type 0 where
  pub step : ℕ
  pub out : Memory

unfoldable pub section_step : Bytes → ℕ → Counting → Counting
unfolding pop_count
section_step bits i s =
    let b = 28 * i in
    let ones = pop_count 32 (read_le 4 bits b) in
    let more =
      (pop_count 64 (read_le 8 bits (b + 4)) + pop_count 64 (read_le 8 bits (b + 12))) % 2 ^ 32
      + pop_count 64 (read_le 8 bits (b + 20)) in
    record {
      step = ((s.step + ones) % 2 ^ 32 + more % 2 ^ 32) % 2 ^ 32;
      out =
          each 7 (λ k m. store_le 4 m (32 * i + 4 * k) (read_le 4 bits (b + 4 * k)))
            (store_le 4 s.out (32 * i + 28) s.step);
    }

abbrev pub zeros : Bytes
zeros i = 0

unfoldable pub sections : Bytes → ℕ → Counting
sections bits n = each n (section_step bits) (record { step = 0; out = zeros })

pub record IndexPiece : Type 0 where
  pub size : ℕ
  pub cells : Bytes
  pub sections : Memory

pub data Built : Type 0 where
  done : IndexPiece → Built
  failed : BuildStatus → Built
  internal : Built

-- After the scan; `internal` is the exception of `Assert`.
unfoldable pub finish : ℕ → Scanned → Built
unfolding sections section_size
finish size s =
    let c = sections s.bits (section_size size) in
    if not (is_ok s.status)
    then failed s.status
    else if c.step == size
    then done (record { size = size; cells = s.cells; sections = c.out })
    else internal

unfoldable pub build_piece : List V96 → ℕ → Option Built
unfolding l1_band l2_size
build_piece [] size = none
build_piece (x ∷ xs) size =
    let l1bd = mr_init 64 (l1_band size) in
    let l2sz = mr_init 64 (l2_size size) in
    Option.map (finish size) (scan l1bd l2sz (bucket l1bd x) (x ∷ []) 0 zeros zeros xs)
