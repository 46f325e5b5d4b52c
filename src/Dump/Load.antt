-- ===== src/Dump/Load.antt =====
-- The loader takes a dumped index, and gives back its pieces.
use fast_chd.Base.{
  ℕ, suc, ◌+◌, ◌-◌, ◌*◌, ◌/◌, ◌%◌, ◌^◌, ◌≤◌, ◌<◌, ◌≡◌, ◌∙◌, refl, sym, ap, arith, bit_or, Bool,
  false, ltb, ◌==◌, not, ◌||◌, if◌then◌else◌, Option, none, some,
}
use fast_chd.Base.{List, [], ◌∷◌, ◌++◌, length, length-append, length-replicate, get_elem?}
use fast_chd.Base.Masks.{bit_or_fields}
use fast_chd.Base.Digits.{bit_or_comm}
use fast_chd.Base.Memory.{Memory, At}
use fast_chd.Divisor.{mr_init, lkk_init}
use fast_chd.Driver.{make_header}
use fast_chd.Dump.{header_bytes, item_bytes, cell_bytes, section_bytes, cells_end, Sink, dump_index}
use fast_chd.Dump.Cells.{
  cells_before, items_before, sections_before, whole, First, cells_run, Second, sections_run,
}
use fast_chd.Dump.Head.{Fields, length-header_bytes, read_header_lem, length-item_bytes}
use fast_chd.Dump.Layout.{all_bytes, padding, layout, dump_index_lem}
use fast_chd.Dump.Reading.{sums-le}
use fast_chd.Dump.Round.{
  Fits, total_size, get_elem?-lt, get_elem?-some, cells_end-sum, header-At, part-size, cells-total,
  sections-total, items-total, cell-byte, section-byte,
}
use fast_chd.Format.{shd_magic, l1_band, l2_size, align32}
use fast_chd.Format.Align.{align32_small}
use fast_chd.Mapping.Small.{pick_else}
use fast_chd.Pack.{
  Header, Load, check_type, part, no_segment, cell_step, try_each, content_view, section_view,
  segment_view, create_pack_view,
}
use fast_chd.Piece.{IndexPiece}
use fast_chd.Piece.Lookup.{Loaded}
use fast_chd.Table.{index_only, is_type, type_code, PackView}
use mathlib.Core.Path.{subst}

-- The view has the seed and the items of the header, and every piece where its segment says; the
-- positions of a segment start after the items of those before it.
pub record Restored (mem : Memory) (addr : ℕ) (h : Header) (ps : List IndexPiece) (view : PackView)
    : Type 0 where
  pub seed : view.seed ≡ h.seed
  pub item : view.item ≡ total_size ps
  pub parts : view.l0sz ≡ lkk_init 16 (length ps)
  pub pieces :
      (i : ℕ) (p : IndexPiece)
      → get_elem? ps i ≡ some p
      → Loaded mem (view.segments i) p
        × ((view.segments i).offset ≡ items_before mem addr i)
        × (part mem addr i ≡ p.size)
  pub total : items_before mem addr (length ps) ≡ total_size ps

module _ (mem : Memory) (addr size : ℕ) (h : Header) (ps : List IndexPiece) (fit : Fits ps)
    (at : At mem addr (layout h ps)) (room : length (layout h ps) ≤ size) (fits : size < 2 ^ 63)
    (count : h.seg_cnt ≡ length ps) (sum : bit_or (h.item_high * 2 ^ 32) h.item ≡ total_size ps)
    (all : total_size ps < 2 ^ 62) where
  abbrev start : ℕ
  start = 20 + length ps * 4

  abbrev cells_stop : ℕ
  cells_stop = start + length (all_bytes cell_bytes ps)

  stop-eq : cells_stop ≡ start + cells_before mem addr (length ps)
  stop-eq = omega (arith, cells-total mem addr h ps fit at)

  stop-le : cells_stop ≤ align32 cells_stop
  stop-le = (align32_small cells_stop (omega (arith, fit.short))).0

  layout-length : length (layout h ps) ≡ align32 cells_stop + sections_before mem addr (length ps)
  layout-length =
      let end = cells_end-sum start ps (omega (arith, fit.short)) in
      let same : align32 (cells_end start ps) ≡ align32 cells_stop = ap align32 end in
      let up = stop-le in
      let zeros : length (padding (cells_end start ps))
          ≡ align32 (cells_end start ps) - cells_end start ps =
        length-replicate (align32 (cells_end start ps) - cells_end start ps) 0 in
      let a = length-append (header_bytes h) (
        item_bytes ps
        ++ (all_bytes cell_bytes ps
            ++ (padding (cells_end start ps) ++ all_bytes section_bytes ps))) in
      let b =
        length-append (item_bytes ps) (
          all_bytes cell_bytes ps
          ++ (padding (cells_end start ps) ++ all_bytes section_bytes ps)) in
      let c =
        length-append (all_bytes cell_bytes ps)
          (padding (cells_end start ps) ++ all_bytes section_bytes ps) in
      let d = length-append (padding (cells_end start ps)) (all_bytes section_bytes ps) in
      omega
        (arith, length-header_bytes h, length-item_bytes ps, sections-total mem addr h ps fit at)

  whole-Loaded :
      (i : ℕ) (p : IndexPiece)
      → get_elem? ps i ≡ some p
      → Loaded mem (whole mem addr size start (align32 cells_stop) i) p
  whole-Loaded i p e =
      let n = part-size mem addr h ps fit at i p e in
      let below =
        sums-le (λ k. part mem addr k) i (length ps) (omega (arith, get_elem?-some ps i p e)) in
      record {
        band = ap (λ (t : ℕ). mr_init 64 (l1_band t)) n;
        range = ap (λ (t : ℕ). mr_init 64 (l2_size t)) n;
        cell = λ b l. cell-byte mem addr h ps fit at i p b e l;
        section = λ j l. section-byte mem addr h ps fit at i p j e l;
        room = omega (arith, items-total mem addr h ps fit at);
      }

  content-Restored :
      (s : Load)
      → Second mem addr size start (align32 cells_stop) (length ps) (length ps) s
      → (view : PackView) × (content_view h index_only addr size s ≡ some view)
        × Restored mem addr h ps view
  unfolding content_view is_type type_code
  content-Restored s second = (
    record {
      type = index_only;
      key_len = h.key_len;
      val_len = h.val_len;
      line_size = h.key_len + h.val_len;
      seed = h.seed;
      l0sz = lkk_init 16 h.seg_cnt;
      item = bit_or (h.item_high * 2 ^ 32) h.item;
      content = 0;
      extend = 0;
      space_end = addr + size;
      segments = s.segments;
    },
    refl,
    record {
      seed = refl;
      item = sum;
      parts = ap (lkk_init 16) count;
      pieces = λ i p e.
          subst
            (λ seg.
              Loaded mem seg p
              × (seg.offset ≡ items_before mem addr i)
              × (part mem addr i ≡ p.size))
            (sym (second.done i (get_elem?-some ps i p e)))
            (whole-Loaded i p e, refl, part-size mem addr h ps fit at i p e);
      total = items-total mem addr h ps fit at;
    },
  )

  section-Restored :
      (s : Load)
      → First mem addr size start (length ps) s
      → (view : PackView) × (section_view mem h index_only addr size s ≡ some view)
        × Restored mem addr h ps view
  unfolding section_view
  section-Restored s first =
      let stop = first.off ∙ sym stop-eq in
      let long = layout-length in
      let (t, e, second) =
        sections_run mem addr size start (align32 cells_stop) (length ps) s fits (omega arith)
          first in
      let (view, e2, restored) = content-Restored t second in
      let same : (not (s.total_item == bit_or (h.item_high * 2 ^ 32) h.item)) ≡ false =
        ground (arith, first.total, items-total mem addr h ps fit at) in
      let enough : ltb size (align32 s.addr_off) ≡ false = rw stop (ground (arith, long)) in
      (view, pick_else _ _ same ∙ pick_else _ _ enough ∙ rw (count, stop, e) e2, restored)

  segment-Restored :
      (view : PackView) × (segment_view mem h index_only addr size ≡ some view)
      × Restored mem addr h ps view
  unfolding segment_view
  segment-Restored =
      let long = layout-length in
      let le = stop-le in
      let eq = stop-eq in
      let n = fit.some_part in
      let few = fit.few in
      let off : 20 + h.seg_cnt * 4 ≡ start = omega (arith, count) in
      let s : Load = record {
        addr_off = 20 + h.seg_cnt * 4;
        total_item = 0;
        segments = λ i. no_segment;
      } in
      let (t, e, first) =
        cells_run mem addr size start (length ps) s fits (omega arith)
          (omega (arith, items-total mem addr h ps fit at)) parts_filled off refl in
      let (view, e2, restored) = section-Restored t first in
      let counted : (h.seg_cnt == 0 || ltb 256 h.seg_cnt) ≡ false = ground (arith, count) in
      let enough : ltb size (20 + h.seg_cnt * 4) ≡ false = ground (arith, off) in
      let e' : try_each h.seg_cnt (cell_step mem addr size) s ≡ some t =
        ap (λ (k : ℕ). try_each k (cell_step mem addr size) s) count ∙ e in
      (view, pick_else _ _ counted ∙ pick_else _ _ enough ∙ rw (segment_view, e') e2, restored)
    where
      parts_filled : (i : ℕ) → i < length ps → 0 < part mem addr i
      parts_filled i l =
          let (p, e) = get_elem?-lt ps i l in
          omega (arith, part-size mem addr h ps fit at i p e, (fit.filled i p e).0)

  -- `CreatePackView` once the header is read.
  abbrev after_header : Header → Option PackView
  after_header g =
      if not (g.magic == shd_magic)
      then none
      else elim (check_type g) [ none ↦ none | some type ↦ segment_view mem g type addr size ]

  after_header-eq :
      check_type h ≡ some index_only
      → (not (h.magic == shd_magic)) ≡ false
      → after_header h ≡ segment_view mem h index_only addr size
  after_header-eq type known = pick_else _ _ known ∙ rw type refl

  pub view-Restored :
      Fields h
      → h.magic ≡ shd_magic
      → check_type h ≡ some index_only
      → (view : PackView) × (create_pack_view mem addr size ≡ some view)
        × Restored mem addr h ps view
  unfolding create_pack_view
  view-Restored fields magic type =
      let long = layout-length in
      let le = stop-le in
      let (view, e, restored) = segment-Restored in
      let read = read_header_lem mem addr h fields (header-At mem addr h ps fit at) in
      let enough : ltb size 20 ≡ false = ground (arith, long) in
      let known : (not (h.magic == shd_magic)) ≡ false = ground (arith, magic) in
      (view, pick_else _ _ enough ∙ ap after_header read ∙ after_header-eq type known ∙ e, restored)

total-le :
    (ps : List IndexPiece)
    → ((i : ℕ) (p : IndexPiece) → get_elem? ps i ≡ some p → p.size < 2 ^ 32)
    → total_size ps ≤ length ps * 2 ^ 32
total-le [] h = omega arith
total-le (p ∷ ps) h = omega (arith, h 0 p refl, total-le ps (λ i q e. h (suc i) q e))

abbrev pub index_header : ℕ → List IndexPiece → Header
index_header seed ps =
    make_header (record { type = index_only; key_len = 0; val_len = 0 }) (total_size ps) seed
      (length ps)

-- For 1 to 256 pieces of 1 to 2 ^ 32 - 1 items whose cells end before 2 ^ 32 - 31, any writer and any
-- seed of 32 bits: a file that starts with what `DumpIndex` wrote for an index, below 2 ^ 63 bytes and
-- anywhere in memory, is taken by `CreatePackView`. The view has the seed, the number of items and of
-- segments; its segments have the cells and the sections of the pieces, in their order, and the offset
-- of each is the number of items in those before it.
pub dump_load_lem :
    (accept : ℕ → Bool) (mem : Memory) (addr size seed : ℕ) (ps : List IndexPiece) (t : Sink)
    → Fits ps
    → seed < 2 ^ 32
    → dump_index accept (index_header seed ps) ps (record { calls = 0; bytes = [] }) ≡ some t
    → At mem addr t.bytes
    → length t.bytes ≤ size
    → size < 2 ^ 63
    → (view : PackView) × (create_pack_view mem addr size ≡ some view)
      × Restored mem addr (index_header seed ps) ps view
unfolding make_header type_code check_type
dump_load_lem accept mem addr size seed ps t fit small e at room fits =
    let h = index_header seed ps in
    let written : t.bytes ≡ layout h ps =
      dump_index_lem accept h ps (record { calls = 0; bytes = [] }) t e in
    let all = total-le ps (λ i p k. (fit.filled i p k).1) in
    let few = fit.few in
    let sum : bit_or (total_size ps / 2 ^ 32 % 2 ^ 16 * 2 ^ 32) (total_size ps % 2 ^ 32)
        ≡ total_size ps =
      bit_or_comm 64 _ _ (omega arith) (omega arith)
      ∙ bit_or_fields 32 (total_size ps / 2 ^ 32 % 2 ^ 16) (total_size ps % 2 ^ 32) (omega arith)
      ∙ omega arith in
    view-Restored mem addr size h ps fit (subst (At mem addr) written at)
      (omega (arith, ap (λ (l : List ℕ). length l) written)) fits (omega arith) sum (omega arith)
      (record {
        magic = omega arith;
        type = omega arith;
        key_len = omega arith;
        val_len = omega arith;
        seed = omega arith;
        item = omega arith;
        item_high = omega arith;
        seg_cnt = omega arith;
      })
      refl refl
