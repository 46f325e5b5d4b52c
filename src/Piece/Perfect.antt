-- ===== src/Piece/Perfect.antt =====
-- A piece that is built is a minimal perfect hash of its identities.
use fast_chd.Base.{ℕ, ◌+◌, ◌*◌, ◌^◌, ◌≤◌, ◌<◌, ◌≡◌, ◌∙◌, sym, ap, arith, Bool, true}
use fast_chd.Base.{List, [], ◌∷◌, map, get_elem?, some}
use fast_chd.Base.Memory.{Memory}
use fast_chd.Bitmap.{Bytes}
use fast_chd.Divisor.{mr_init}
use fast_chd.Format.{l1_size, l1_band, l2_size, section_size}
use fast_chd.Format.Sizes.{bitmap_size_lem}
use fast_chd.Hash.{V96}
use fast_chd.Mapping.Held.{held, held-le, count, Filled}
use fast_chd.Piece.{bucket, zeros, IndexPiece}
use fast_chd.Piece.Cells.{AllBytes}
use fast_chd.Piece.Lookup.{Loaded, place, spot-lt, place_lem}
use fast_chd.Piece.Occurs.{get_elem?-map, count_pos, count_once}
use fast_chd.Piece.Ranks.{Counted}
use fast_chd.Piece.Scan.{spot, contiguous}
use fast_chd.Piece.Total.{held-count, ones_less}
use fast_chd.Table.{SegmentView}
use fast_chd.Table.Bounds.{IsId}
use fast_chd.Table.Rank.{ones}

-- Identities of 32-bit words, in cells that exist.
abbrev pub Valid : ℕ → List V96 → Type 0
Valid size ids =
    (i : ℕ) (x : V96)
    → get_elem? ids i ≡ some x
    → IsId x × (bucket (mr_init 64 (l1_band size)) x < l1_size size)

-- The identities of each bucket stand together.
abbrev pub grouped : ℕ → List V96 → Bool
grouped size [] = true
grouped size (x ∷ xs) =
    contiguous (mr_init 64 (l1_band size)) (mr_init 64 (l2_size size))
      (bucket (mr_init 64 (l1_band size)) x) xs

-- Wherever the piece is loaded, its identities have distinct positions, from the offset of the segment
-- on and below the offset and the size.
pub record Perfect (ids : List V96) (piece : IndexPiece) : Type 0 where
  pub range :
      (mem : Memory) (seg : SegmentView) (i : ℕ) (x : V96)
      → Loaded mem seg piece
      → get_elem? ids i ≡ some x
      → (seg.offset ≤ place mem seg x) × (place mem seg x < seg.offset + piece.size)
  pub distinct :
      (mem : Memory) (seg : SegmentView) (i j : ℕ) (x y : V96)
      → Loaded mem seg piece
      → get_elem? ids i ≡ some x
      → get_elem? ids j ≡ some y
      → place mem seg x ≡ place mem seg y
      → i ≡ j

module _ (ids : List V96) (piece : IndexPiece) (bits : Bytes)
    (small : 2 * piece.size + 224 < 2 ^ 32) (valid : Valid piece.size ids)
    (bytes : AllBytes piece.cells) (counted : Counted bits (section_size piece.size) piece.sections)
    (fill : Filled zeros
      (map
        (spot (mr_init 64 (l1_band piece.size)) (mr_init 64 (l2_size piece.size)) piece.cells)
        ids)
      bits)
    (total : ones bits 0 (224 * section_size piece.size) ≡ piece.size) where
  abbrev at : V96 → ℕ
  at x = spot (mr_init 64 (l1_band piece.size)) (mr_init 64 (l2_size piece.size)) piece.cells x

  module _ (mem : Memory) (seg : SegmentView) (load : Loaded mem seg piece) where
    in_cells : (i : ℕ) (x : V96) → get_elem? ids i ≡ some x → bucket seg.l1bd x < l1_size piece.size
    in_cells i x e = rw (load.band) (valid i x e).1

    rank :
        (i : ℕ) (x : V96)
        → get_elem? ids i ≡ some x
        → place mem seg x ≡ seg.offset + ones bits 0 (at x)
    rank i x e =
        place_lem mem seg piece bits x load bytes counted small (valid i x e).0 (in_cells i x e)

    at-held : (i : ℕ) (x : V96) → get_elem? ids i ≡ some x → held bits (at x) ≡ 1
    at-held i x e =
        let pos = count_pos (map at ids) i (at x) (get_elem?-map at ids i x e) in
        omega (arith, held-count bits (map at ids) fill (at x), held-le bits (at x))

    at-lt : (i : ℕ) (x : V96) → get_elem? ids i ≡ some x → at x < 224 * section_size piece.size
    at-lt i x e =
        let lt = spot-lt piece.size piece.cells x small (valid i x e).0 in
        let room = bitmap_size_lem piece.size (omega arith) in omega arith

    in_range :
        (i : ℕ) (x : V96)
        → get_elem? ids i ≡ some x
        → (seg.offset ≤ place mem seg x) × (place mem seg x < seg.offset + piece.size)
    in_range i x e =
        let less =
          ones_less bits (at x) (224 * section_size piece.size) (at-held i x e) (at-lt i x e) in
        let r = rank i x e in (omega (arith, total), omega (arith, total))

    differ :
        (i j : ℕ) (x y : V96)
        → get_elem? ids i ≡ some x
        → get_elem? ids j ≡ some y
        → place mem seg x ≡ place mem seg y
        → at x ≡ at y
    differ i j x y a b e =
        let same : ones bits 0 (at x) ≡ ones bits 0 (at y) =
          omega (arith, rank i x a, rank j y b) in
        let up = ones_less bits (at x) (at y) (at-held i x a) in
        let down = ones_less bits (at y) (at x) (at-held j y b) in ground (arith, same, up, down)

    one_index :
        (i j : ℕ) (x y : V96)
        → get_elem? ids i ≡ some x
        → get_elem? ids j ≡ some y
        → place mem seg x ≡ place mem seg y
        → i ≡ j
    one_index i j x y a b e =
        let once : count (at x) (map at ids) ≤ 1 =
          omega (arith, held-count bits (map at ids) fill (at x), held-le bits (at x)) in
        count_once (map at ids) i j (at x) once (get_elem?-map at ids i x a)
          (get_elem?-map at ids j y b ∙ ap some (sym (differ i j x y a b e)))

  pub perfect : Perfect ids piece
  perfect = record {
    range = λ mem seg i x load. in_range mem seg load i x;
    distinct = λ mem seg i j x y load. one_index mem seg load i j x y;
  }
