-- ===== src/View/Law.antt =====
-- The view in memory holds every piece where a lookup in that piece expects it.
use fast_chd.Base.{ℕ, zero, suc, ◌+◌, ◌*◌, ◌%◌, ◌^◌, ◌≤◌, ◌<◌, ◌≡◌, ◌∙◌, refl, sym, ap, arith}
use fast_chd.Base.{some, List, [], ◌∷◌, length, get_elem?, store_self, store_ne}
use fast_chd.Base.Memory.{Memory}
use fast_chd.Divisor.{DivisorLkk, mr_init, lkk_init, lkk_mod}
use fast_chd.Driver.{BasicInfo}
use fast_chd.Dump.Whole.{id_pos, Pieces, Parted}
use fast_chd.Hash.{V96, l0_hash}
use fast_chd.Pack.{no_segment}
use fast_chd.Dump.Round.{total_size, get_elem?-some}
use fast_chd.Format.{l1_size, l1_band, l2_size, section_size}
use fast_chd.Piece.{IndexPiece}
use fast_chd.Piece.Lookup.{Loaded, place}
use fast_chd.Table.{SegmentView, PackView}
use fast_chd.View.{Segments, segment_step, segment_loop, create_index_view}
use native.Mathlib.Nat.{mod-eq_of_lt}

-- The items of the pieces before piece `i`.
abbrev pub size_before : ℕ → List IndexPiece → ℕ
size_before zero ps = 0
size_before (suc i) [] = 0
size_before (suc i) (p ∷ ps) = p.size + size_before i ps

module _ (cells_at sections_at : ℕ → ℕ) where
  -- The segment of a piece at `i` that starts at item `off`.
  abbrev pub segment_of : ℕ → IndexPiece → ℕ → SegmentView
  segment_of i p off = record {
    cells = cells_at i;
    sections = sections_at i;
    l1bd = mr_init 64 (l1_band p.size);
    l2sz = mr_init 64 (l2_size p.size);
    offset = off;
  }

  loop_before :
      (ps : List IndexPiece) (i k : ℕ) (s : Segments)
      → k < i
      → (segment_loop cells_at sections_at i ps s).views k ≡ s.views k
  unfolding segment_loop segment_step
  loop_before [] i k s l = refl
  loop_before (p ∷ ps) i k s l =
      loop_before ps (suc i) k (segment_step cells_at sections_at i p s) (omega arith)
      ∙ store_ne s.views i (segment_of i p s.off) k (omega arith)

  segment_at :
      (ps : List IndexPiece) (i j : ℕ) (p : IndexPiece) (s : Segments)
      → s.off + total_size ps < 2 ^ 64
      → get_elem? ps j ≡ some p
      → (segment_loop cells_at sections_at i ps s).views (i + j)
        ≡ segment_of (i + j) p (s.off + size_before j ps)
  unfolding segment_loop segment_step
  segment_at [] i j p s small e = absurd cc
  segment_at (q ∷ ps) i zero p s small e =
      let same : q ≡ p = cc in
      let here = loop_before ps (suc i) i (segment_step cells_at sections_at i q s) (omega arith) in
      let at : i + 0 ≡ i = omega arith in
      let off : s.off + 0 ≡ s.off = omega arith in
      rw (at, off)
        (here
          ∙ store_self s.views i (segment_of i q s.off) i refl
          ∙ ap (λ (t : IndexPiece). segment_of i t s.off) same)
  segment_at (q ∷ ps) i (suc j) p s small e =
      let at : i + suc j ≡ suc i + j = omega arith in
      let low : (s.off + q.size) % 2 ^ 64 ≡ s.off + q.size = mod-eq_of_lt (omega arith) in
      let sum : s.off + (q.size + size_before j ps) ≡ (s.off + q.size) % 2 ^ 64 + size_before j ps =
        omega (arith, low) in
      let less : (s.off + q.size) % 2 ^ 64 + total_size ps < 2 ^ 64 = omega (arith, low, small) in
      rw (at, sum) (segment_at ps (suc i) j p (segment_step cells_at sections_at i q s) less e)

  first_segments :
      (ps : List IndexPiece)
      → total_size ps < 2 ^ 64
      → (i : ℕ) (p : IndexPiece) → get_elem? ps i ≡ some p
      → (segment_loop cells_at sections_at 0 ps (record { off = 0; views = λ k. no_segment })).views
          i
        ≡ segment_of i p (size_before i ps)
  first_segments ps small i p at =
      let start : Segments = record { off = 0; views = λ k. no_segment } in
      let here : 0 + i ≡ i = omega arith in
      let off : 0 + size_before i ps ≡ size_before i ps = omega arith in
      ap (segment_loop cells_at sections_at 0 ps start).views (sym here)
      ∙ segment_at ps 0 i p start (omega arith) at
      ∙ ap (λ (k : ℕ). segment_of k p (0 + size_before i ps)) here
      ∙ ap (segment_of i p) off

  -- The arrays of the pieces are at the addresses that the view gets.
  pub record InPlace (mem : Memory) (ps : List IndexPiece) : Type 0 where
    pub cell :
        (i b : ℕ) (p : IndexPiece)
        → get_elem? ps i ≡ some p
        → b < l1_size p.size
        → mem (cells_at i + b) ≡ p.cells b
    pub section :
        (i j : ℕ) (p : IndexPiece)
        → get_elem? ps i ≡ some p
        → j < 32 * section_size p.size
        → mem (sections_at i + j) ≡ p.sections j

  size_before-le : (ps : List IndexPiece) (i : ℕ) → size_before i ps ≤ total_size ps
  size_before-le ps zero = omega arith
  size_before-le [] (suc i) = omega arith
  size_before-le (p ∷ ps) (suc i) = omega (arith, size_before-le ps i)

  segment-Loaded :
      (mem : Memory) (ps : List IndexPiece) (i : ℕ) (p : IndexPiece)
      → InPlace mem ps
      → total_size ps + 2 ^ 32 < 2 ^ 64
      → get_elem? ps i ≡ some p
      → Loaded mem (segment_of i p (size_before i ps)) p
  segment-Loaded mem ps i p here small e = record {
    band = refl;
    range = refl;
    cell = λ b l. here.cell i b p e l;
    section = λ j l. here.section i j p e l;
    room = omega (arith, size_before-le ps i);
  }

  -- The positions that a view gives to the identities of each piece.
  pub record Spread (mem : Memory) (ps : List IndexPiece) (ids : ℕ → List V96) (view : PackView)
      : Type 0 where
    pub range :
        (i j : ℕ) (p : IndexPiece) (x : V96)
        → get_elem? ps i ≡ some p
        → get_elem? (ids i) j ≡ some x
        → (size_before i ps ≤ id_pos view mem x) × (id_pos view mem x < size_before i ps + p.size)
    pub distinct :
        (i j j' : ℕ) (p : IndexPiece) (x y : V96)
        → get_elem? ps i ≡ some p
        → get_elem? (ids i) j ≡ some x
        → get_elem? (ids i) j' ≡ some y
        → id_pos view mem x ≡ id_pos view mem y
        → j ≡ j'

  module _ (mem : Memory) (ps : List IndexPiece) (ids : ℕ → List V96) (view : PackView)
      (here : InPlace mem ps) (small : total_size ps + 2 ^ 32 < 2 ^ 64) (perfect : Pieces ps ids)
      (parted : Parted ps ids) (parts : view.l0sz ≡ lkk_init 16 (length ps))
      (segments : (i : ℕ) (p : IndexPiece)
        → get_elem? ps i ≡ some p
        → view.segments i ≡ segment_of i p (size_before i ps)) where
    place-segment :
        (i j : ℕ) (p : IndexPiece) (x : V96)
        → get_elem? ps i ≡ some p
        → get_elem? (ids i) j ≡ some x
        → id_pos view mem x ≡ place mem (segment_of i p (size_before i ps)) x
    place-segment i j p x at e =
        ap (λ (d : DivisorLkk). place mem (view.segments (lkk_mod 16 d (l0_hash x))) x) parts
        ∙ ap (λ (k : ℕ). place mem (view.segments k) x) (parted i j x (get_elem?-some ps i p at) e)
        ∙ ap (λ (s : SegmentView). place mem s x) (segments i p at)

    spread : Spread mem ps ids view
    spread = record {
      range = λ i j p x at e.
          let (lo, hi) =
            (perfect i p at).range mem (segment_of i p (size_before i ps)) j x
              (segment-Loaded mem ps i p here small at) e in
          let same = place-segment i j p x at e in (omega arith, omega arith);
      distinct = λ i j j' p x y at a b e.
          (perfect i p at).distinct mem (segment_of i p (size_before i ps)) j j' x y
            (segment-Loaded mem ps i p here small at) a b
            (sym (place-segment i j p x at a) ∙ e ∙ place-segment i j' p y at b);
    }

-- For between 1 and `2 ^ 16 - 1` pieces whose arrays are at the addresses given, with a total size
-- that stays `2 ^ 32` below `2 ^ 64`, each of them a perfect hash of its identities, and with the
-- identities in the piece that the lookup picks by their first word: there is a view, and it gives the
-- identities of each piece distinct positions, from the total size of the pieces before it on and below
-- the total size with it.
pub create_index_view_lem :
    (cells_at sections_at : ℕ → ℕ) (mem : Memory) (info : BasicInfo) (seed : ℕ)
    (ps : List IndexPiece) (ids : ℕ → List V96)
    → 0 < length ps
    → length ps < 2 ^ 16
    → total_size ps + 2 ^ 32 < 2 ^ 64
    → InPlace cells_at sections_at mem ps
    → Pieces ps ids
    → Parted ps ids
    → (view : PackView) × (create_index_view cells_at sections_at info seed ps ≡ some view)
      × Spread cells_at sections_at mem ps ids view
unfolding create_index_view
create_index_view_lem cells_at sections_at mem info seed [] ids some_ few small here perfect
      parted =
    absurd (omega arith)
create_index_view_lem cells_at sections_at mem info seed (q ∷ qs) ids some_ few small here perfect
      parted =
    (
      _,
      refl,
      spread cells_at sections_at mem (q ∷ qs) ids _ here small perfect parted
          (ap (lkk_init 16) (mod-eq_of_lt few))
          (first_segments cells_at sections_at (q ∷ qs) (omega arith)),
    )
