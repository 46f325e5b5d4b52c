-- ===== src/Examples/Whole.antt =====
-- An index of one key, from its bitmap to the position that a lookup gives.
use fast_chd.Base.{
  ℕ, zero, suc, ◌+◌, ◌*◌, ◌^◌, ◌≤◌, ◌<◌, ◌≡◌, ◌∙◌, refl, sym, ap, arith, true, false, List, [], ◌∷◌,
  ◌++◌, length, ltb, if◌then◌else◌, ◌-◌, get_elem?, get_or, some, replicate,
}
use fast_chd.Base.Memory.{Memory, At}
use fast_chd.Bitmap.{Bytes, test_bit, set_bit}
use fast_chd.Divisor.{mr_init, mr_div, mr_mod, lkk_init, lkk_mod}
use fast_chd.Dump.{
  Sink, dump_index, array_bytes, write, write_each, cell_bytes, section_bytes, item_bytes,
  header_bytes, le_bytes, and_then, write_padding, cells_end,
}
use fast_chd.Dump.Load.{index_header}
use fast_chd.Dump.Round.{Fits}
use fast_chd.Dump.Whole.{Pieces, Parted, Whole, index_lem}
use fast_chd.Examples.Driving.{At-get}
use fast_chd.Format.{skew_map, l1_size, l1_band, l2_size, section_size, align32}
use fast_chd.Hash.{V96, l0_hash, l1_hash, l2_hash}
use fast_chd.Mapping.{position}
use fast_chd.Mapping.Held.{Filled, Filled-single}
use fast_chd.Pack.{create_pack_view}
use fast_chd.Piece.{bucket, zeros, sections, IndexPiece}
use fast_chd.Piece.Perfect.{Valid, Perfect, perfect}
use fast_chd.Piece.Ranks.{sections_lem}
use fast_chd.Piece.Scan.{spot}
use fast_chd.Piece.Total.{ones-all}
use fast_chd.Table.{index_only, PackView}
use fast_chd.Table.Bounds.{IsId}
use fast_chd.View.{create_index_view}
use fast_chd.View.Law.{InPlace, Spread, create_index_view_lem}
use mathlib.Core.Path.{subst}

abbrev key : V96
key = record { u0 = 11; u1 = 5; u2 = 2 }

abbrev nines : Bytes
nines i = 9

at_zero : spot (mr_init 64 (l1_band 1)) (mr_init 64 (l2_size 1)) nines key ≡ 0
unfolding spot position bucket skew_map mr_init mr_div mr_mod l1_band l2_size l1_hash l2_hash
at_zero = refl

abbrev bits : Bytes
bits = set_bit zeros 0

abbrev piece : IndexPiece
piece = record { size = 1; cells = nines; sections = (sections bits (section_size 1)).out }

free : test_bit zeros 0 ≡ false
unfolding test_bit
free = refl

filled : Filled zeros (spot (mr_init 64 (l1_band 1)) (mr_init 64 (l2_size 1)) nines key ∷ []) bits
filled = subst (λ (p : ℕ). Filled zeros (p ∷ []) bits) (sym at_zero) (Filled-single zeros 0 free)

one_section : 224 * section_size 1 ≡ 224
unfolding section_size l2_size
one_section = refl

valid : Valid 1 (key ∷ [])
valid zero x e =
    let same : key ≡ x = cc in
    subst (λ (y : V96). IsId y × (bucket (mr_init 64 (l1_band 1)) y < l1_size 1)) same
      ((omega arith, omega arith, omega arith), in_cell)
  where
    in_cell : bucket (mr_init 64 (l1_band 1)) key < l1_size 1
    in_cell = unfold bucket skew_map mr_init mr_div l1_band l1_hash l1_size in omega arith
valid (suc i) x e = absurd cc

key-Perfect : Perfect (key ∷ []) piece
key-Perfect =
    let n = one_section in
    perfect (key ∷ []) piece bits (omega arith) valid (λ q. omega arith)
      (sections_lem bits (section_size 1) (omega arith)).1 filled
      (ones-all bits (spot (mr_init 64 (l1_band 1)) (mr_init 64 (l2_size 1)) nines key ∷ []) filled
        (224 * section_size 1) (rw at_zero (ground arith)))

fits : Fits (piece ∷ [])
fits = record {
  some_part = omega arith;
  few = omega arith;
  filled = sizes;
  short = unfold cell_bytes array_bytes l1_size in omega arith;
}
  where
    sizes :
        (i : ℕ) (p : IndexPiece)
        → get_elem? (piece ∷ []) i ≡ some p
        → (0 < p.size) × (p.size < 2 ^ 32)
    sizes zero p e =
        let same : piece ≡ p = cc in
        subst (λ (q : IndexPiece). (0 < q.size) × (q.size < 2 ^ 32)) same (omega arith, omega arith)
    sizes (suc i) p e = absurd cc

abbrev parts : List ℕ
parts =
    ((((header_bytes (index_header 5 (piece ∷ [])) ++ item_bytes (piece ∷ [])) ++ cell_bytes piece)
        ++ replicate 7 0)
      ++ section_bytes piece)

abbrev written : Sink
written = record { calls = 5; bytes = parts }

dumped :
    dump_index
      (λ n. true)
      (index_header 5 (piece ∷ []))
      (piece ∷ [])
      (record { calls = 0; bytes = [] })
    ≡ some written
dumped =
    unfold dump_index and_then write write_each write_padding header_bytes item_bytes cell_bytes
      section_bytes cells_end le_bytes array_bytes l1_size align32 in
    refl

abbrev memory : Memory
memory i = get_or parts i 0

parts-At : At memory 0 parts
parts-At = At-get memory 0 parts (λ i l. let e : 0 + i ≡ i = omega arith in ap memory e)

parts_short : length parts ≤ 64
parts_short =
    unfold header_bytes item_bytes cell_bytes section_bytes le_bytes array_bytes l1_size
      section_size l2_size in
    omega arith

abbrev ids : ℕ → List V96
ids zero = key ∷ []
ids (suc i) = []

perfect_pieces : Pieces (piece ∷ []) ids
perfect_pieces zero p e = let same : piece ≡ p = cc in subst (Perfect (key ∷ [])) same key-Perfect
perfect_pieces (suc i) p e = absurd cc

one_part : lkk_mod 16 (lkk_init 16 1) (l0_hash key) ≡ 0
one_part = unfold lkk_mod lkk_init l0_hash in refl

parted : Parted (piece ∷ []) ids
parted zero zero x l e =
    let same : key ≡ x = cc in
    subst (λ (y : V96). lkk_mod 16 (lkk_init 16 1) (l0_hash y) ≡ 0) same one_part
parted zero (suc j) x l e = absurd cc
parted (suc i) j x l e = absurd cc

index_lem_example :
    (view : PackView) × (create_pack_view memory 0 64 ≡ some view)
    × Whole (piece ∷ []) ids memory view
index_lem_example =
    index_lem (λ n. true) memory 0 64 5 (piece ∷ []) written ids fits (omega arith) dumped parts-At
      parts_short (omega arith) perfect_pieces parted

-- The cells of the piece are at 0, its sections at 16.
abbrev live : Memory
live i = if ltb i 16 then 9 else piece.sections (i - 16)

low : (b : ℕ) → b < l1_size 1 → live (0 + b) ≡ 9
unfolding l1_size
low b l = ground arith

above : (i : ℕ) → 16 ≤ i → live i ≡ piece.sections (i - 16)
above i l = ground arith

high : (j : ℕ) → live (16 + j) ≡ piece.sections j
high j = above (16 + j) (omega arith) ∙ ap piece.sections (omega arith)

in_place : InPlace (λ i. 0) (λ i. 16) live (piece ∷ [])
in_place = record { cell = cells; section = words }
  where
    cells :
        (i b : ℕ) (p : IndexPiece)
        → get_elem? (piece ∷ []) i ≡ some p
        → b < l1_size p.size
        → live (0 + b) ≡ p.cells b
    cells zero b p e l =
        let same : piece ≡ p = cc in
        subst (λ (q : IndexPiece). live (0 + b) ≡ q.cells b) same
          (low b (subst (λ (q : IndexPiece). b < l1_size q.size) (sym same) l))
    cells (suc i) b p e l = absurd cc

    words :
        (i j : ℕ) (p : IndexPiece)
        → get_elem? (piece ∷ []) i ≡ some p
        → j < 32 * section_size p.size
        → live (16 + j) ≡ p.sections j
    words zero j p e l =
        let same : piece ≡ p = cc in
        subst (λ (q : IndexPiece). live (16 + j) ≡ q.sections j) same (high j)
    words (suc i) j p e l = absurd cc

create_index_view_lem_example :
    (view : PackView) × (create_index_view
        (λ i. 0)
        (λ i. 16)
        (record { type = index_only; key_len = 0; val_len = 0 })
        5
        (piece ∷ [])
      ≡ some view)
    × Spread (λ i. 0) (λ i. 16) live (piece ∷ []) ids view
create_index_view_lem_example =
    create_index_view_lem (λ i. 0) (λ i. 16) live
      (record { type = index_only; key_len = 0; val_len = 0 }) 5 (piece ∷ []) ids (omega arith)
      (omega arith) (omega arith) in_place perfect_pieces parted
