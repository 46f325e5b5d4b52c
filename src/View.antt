-- ===== src/View.antt =====
-- `CreateIndexView` of src/build.cc: the view of an index that is still in memory.
-- `cells_at` and `sections_at` are the addresses that `get()` of the pieces' pointers gives.
pub mod Law
use fast_chd.Base.{ℕ, zero, suc, ◌+◌, ◌%◌, ◌^◌, Option, none, some, List, [], ◌∷◌, length, store}
use fast_chd.Divisor.{mr_init, lkk_init}
use fast_chd.Driver.{BasicInfo}
use fast_chd.Format.{l1_band, l2_size}
use fast_chd.Pack.{no_segment}
use fast_chd.Piece.{IndexPiece}
use fast_chd.Table.{index_only, SegmentView, PackView}

pub record Segments : Type 0 where
  pub off : ℕ
  pub views : ℕ → SegmentView

unfoldable pub segment_step : (ℕ → ℕ) → (ℕ → ℕ) → ℕ → IndexPiece → Segments → Segments
segment_step cells_at sections_at i p s = record {
  off = (s.off + p.size) % 2 ^ 64;
  views = store s.views i (record {
    cells = cells_at i;
    sections = sections_at i;
    l1bd = mr_init 64 (l1_band p.size);
    l2sz = mr_init 64 (l2_size p.size);
    offset = s.off;
  });
}

unfoldable pub segment_loop : (ℕ → ℕ) → (ℕ → ℕ) → ℕ → List IndexPiece → Segments → Segments
unfolding segment_step
segment_loop cells_at sections_at i [] s = s
segment_loop cells_at sections_at i (p ∷ ps) s =
    segment_loop cells_at sections_at (suc i) ps (segment_step cells_at sections_at i p s)

-- `none` is the null pointer. Past the pieces the array of segments ends.
unfoldable pub create_index_view :
    (ℕ → ℕ) → (ℕ → ℕ) → BasicInfo → ℕ → List IndexPiece → Option PackView
unfolding segment_loop
create_index_view cells_at sections_at info seed [] = none
create_index_view cells_at sections_at info seed (p ∷ ps) = some (record {
  type = index_only;
  key_len = info.key_len;
  val_len = info.val_len;
  line_size = (info.key_len + info.val_len) % 2 ^ 32;
  seed = seed;
  l0sz = lkk_init 16 (length (p ∷ ps) % 2 ^ 16);
  item = 0;
  content = 0;
  extend = 0;
  space_end = 0;
  segments =
      (segment_loop cells_at sections_at 0 (p ∷ ps)
        (record { off = 0; views = λ i. no_segment })).views;
})
