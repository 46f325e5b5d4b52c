-- ===== src/Piece/Lookup.antt =====
-- What a lookup in the loaded arrays of a piece computes.
use fast_chd.Base.{ℕ, zero, suc, ◌+◌, ◌*◌, ◌/◌, ◌%◌, ◌^◌, ◌<◌, ◌≡◌, ◌∙◌, refl, ap, arith}
use fast_chd.Base.Digits.{bit}
use fast_chd.Base.Masks.{bit-mod}
use fast_chd.Base.Memory.{Memory, read_le}
use fast_chd.Bitmap.{Bytes}
use fast_chd.Divisor.{mr_init, mr_mod}
use fast_chd.Divisor.Mr.{mr_mod_lem}
use fast_chd.Format.{l1_size, l1_band, l2_size, section_size}
use fast_chd.Format.Sizes.{l2_size_lem, bitmap_size_lem}
use fast_chd.Hash.{V96, l2_hash}
use fast_chd.Mapping.{position}
use fast_chd.Piece.{bucket, IndexPiece}
use fast_chd.Piece.Cells.{AllBytes}
use fast_chd.Piece.Ranks.{Counted, ones_split}
use fast_chd.Piece.Scan.{spot}
use fast_chd.Table.{SegmentView, Step2, calc2, calc_pos}
use fast_chd.Table.Bounds.{IsId, l2_hash-lt}
use fast_chd.Table.Rank.{ones, ones-le, calc_pos_lem}
use native.Mathlib.Nat.{mod-lt, mod-eq_of_lt}

-- The memory holds the arrays of a piece where the segment says, as `CreateIndexView` has it.
pub record Loaded (mem : Memory) (seg : SegmentView) (piece : IndexPiece) : Type 0 where
  pub band : seg.l1bd ≡ mr_init 64 (l1_band piece.size)
  pub range : seg.l2sz ≡ mr_init 64 (l2_size piece.size)
  pub cell : (b : ℕ) → b < l1_size piece.size → mem (seg.cells + b) ≡ piece.cells b
  pub section :
      (j : ℕ) → j < 32 * section_size piece.size → mem (seg.sections + j) ≡ piece.sections j
  pub room : seg.offset + 2 ^ 32 < 2 ^ 64

-- The position of an identity in a segment.
abbrev pub place : Memory → SegmentView → V96 → ℕ
place mem seg x = calc_pos mem (calc2 mem (record { seg = seg; id = x; l1pos = bucket seg.l1bd x }))

read_le_moved :
    (n : ℕ) (mem out : Memory) (a b : ℕ)
    → ((k : ℕ) → k < n → mem (a + k) ≡ out (b + k))
    → read_le n mem a ≡ read_le n out b
unfolding read_le
read_le_moved zero mem out a b h = refl
read_le_moved (suc n) mem out a b h =
    let here : mem a ≡ out b = ap mem (omega arith) ∙ h 0 (omega arith) ∙ ap out (omega arith) in
    let rest : read_le n mem (a + 1) ≡ read_le n out (b + 1) =
      read_le_moved n mem out (a + 1) (b + 1)
        (λ k l. ap mem (omega arith) ∙ h (suc k) (omega arith) ∙ ap out (omega arith)) in
    rw (here, rest) refl

ones_moved :
    (mem bits : Memory) (a c m : ℕ)
    → ((j : ℕ) → 8 * j < m → mem (a + j) ≡ bits (c + j) % 256)
    → ones mem a m ≡ ones bits c m
unfolding ones
ones_moved mem bits a c zero h = refl
ones_moved mem bits a c (suc m) h =
    let same : bit (mem (a + m / 8)) (m % 8) ≡ bit (bits (c + m / 8)) (m % 8) =
      rw (h (m / 8) (omega arith)) (bit-mod 8 (bits (c + m / 8)) (m % 8) (omega arith)) in
    omega (arith, same, ones_moved mem bits a c m (λ j l. h j (omega arith)))

pub spot-lt :
    (size : ℕ) (cells : Bytes) (x : V96)
    → 2 * size + 224 < 2 ^ 32
    → IsId x
    → spot (mr_init 64 (l1_band size)) (mr_init 64 (l2_size size)) cells x < l2_size size
unfolding spot position
spot-lt size cells x small id =
    let b = bucket (mr_init 64 (l1_band size)) x in
    let l2sz = l2_size_lem size (omega arith) in
    rw
      (mr_mod_lem 64 (l2_size size) (l2_hash x (cells b)) (omega arith) (omega arith)
        (l2_hash-lt x (cells b) id))
      (mod-lt (l2_hash x (cells b)) (omega arith))

module _ (mem : Memory) (seg : SegmentView) (piece : IndexPiece) (bits : Bytes) (x : V96)
    (load : Loaded mem seg piece) (bytes : AllBytes piece.cells)
    (counted : Counted bits (section_size piece.size) piece.sections)
    (small : 2 * piece.size + 224 < 2 ^ 32) (id : IsId x)
    (in_cells : bucket seg.l1bd x < l1_size piece.size) where
  abbrev at : ℕ
  at = spot (mr_init 64 (l1_band piece.size)) (mr_init 64 (l2_size piece.size)) piece.cells x

  abbrev step2 : Step2
  step2 = calc2 mem (record { seg = seg; id = x; l1pos = bucket seg.l1bd x })

  same_spot : mr_mod 64 seg.l2sz (l2_hash x (mem (seg.cells + bucket seg.l1bd x) % 2 ^ 8)) ≡ at
  unfolding spot position
  same_spot =
      rw
        (
          load.cell (bucket seg.l1bd x) in_cells,
          mod-eq_of_lt (bytes (bucket seg.l1bd x)),
          load.band,
          load.range,
        )
        refl

  abbrev found : Step2
  found = record { seg = seg; section = at / 224; bit_off = at % 224 }

  step2-found : step2 ≡ found
  unfolding calc2
  step2-found =
      let size = l2_size_lem piece.size (omega arith) in
      let lt = spot-lt piece.size piece.cells x small id in
      let a : at / 224 % 2 ^ 32 ≡ at / 224 = omega arith in
      let b : at % 224 % 2 ^ 8 ≡ at % 224 = omega arith in rw (same_spot, a, b) refl

  sections-room : 224 * section_size piece.size < 2 ^ 32
  sections-room =
      let size = l2_size_lem piece.size (omega arith) in
      let room = bitmap_size_lem piece.size (omega arith) in omega arith

  section-lt : at / 224 < section_size piece.size
  section-lt =
      let room = bitmap_size_lem piece.size (omega arith) in
      let lt = spot-lt piece.size piece.cells x small id in omega arith

  the_step : read_le 4 mem (seg.sections + 32 * (at / 224) + 28) ≡ ones bits 0 (224 * (at / 224))
  the_step =
      let l = section-lt in
      read_le_moved 4 mem piece.sections (seg.sections + 32 * (at / 224) + 28)
        (32 * (at / 224) + 28)
        (λ k lt. ap mem (omega arith) ∙ load.section (32 * (at / 224) + 28 + k) (omega arith))
      ∙ (counted (at / 224) l).0

  the_ones :
      ones mem (seg.sections + 32 * (at / 224)) (at % 224) ≡ ones bits (28 * (at / 224)) (at % 224)
  the_ones =
      let l = section-lt in
      ones_moved mem bits (seg.sections + 32 * (at / 224)) (28 * (at / 224)) (at % 224) (λ j lt.
        ap mem (omega arith)
        ∙ load.section (32 * (at / 224) + j) (omega arith)
        ∙ (counted (at / 224) l).1 j (omega arith))

  -- The position is the rank of the bit.
  pub place_lem : place mem seg x ≡ seg.offset + ones bits 0 at
  place_lem =
      let room = sections-room in
      let l = section-lt in
      let step = the_step in
      let le = ones-le bits 0 (224 * (at / 224)) in
      let whole =
        ones_split bits 0 at (224 * (at / 224)) (at % 224) (28 * (at / 224)) (omega arith)
          (omega arith) (omega arith) in
      ap (calc_pos mem) step2-found
      ∙ calc_pos_lem mem found (omega arith) (omega arith) load.room
      ∙ omega (arith, the_ones)
