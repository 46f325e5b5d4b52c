-- ===== src/Pack/Inside.antt =====
-- A view that `CreatePackView` returns lies in the file: every array that a lookup reads has room.
use fast_chd.Base.{ℕ, ◌+◌, ◌*◌, ◌%◌, ◌^◌, ◌≤◌, ◌<◌, ◌≡◌, ◌∙◌, refl, sym, arith}
use fast_chd.Base.{true, false, not, ◌||◌, ltb, ◌==◌, Bool-cases, Option-cases, inl, inr, some}
use fast_chd.Base.{bit_or}
use mathlib.Core.Path.{subst}
use native.Mathlib.Nat.{mul-le-mul}
use fast_chd.Base.Memory.{Memory, read_le-lt}
use fast_chd.Format.{align32, shd_magic}
use fast_chd.Table.{TableType, index_only, kv_separated, is_type, type_code, PackView}
use fast_chd.Pack.{
  Header, read_header, check_type, Load, cell_step, section_step, try_each, content_view,
  section_view, segment_view, create_pack_view, no_segment,
}
use fast_chd.Pack.Rounds.{
  unguard, some_inj, try_each_inv, CellsIn, SectionsIn, Cells, Cells-round, Sections,
  Sections-round,
}

module _ (mem : Memory) (addr size : ℕ) where
  -- The view lies in the file.
  abbrev pub InFile : ℕ → PackView → Type 0
  InFile n pack =
      ((i : ℕ)
        → i < n
        → CellsIn mem addr size i pack.item (pack.segments i)
          × SectionsIn mem addr size i (pack.segments i))
      × (is_type pack.type index_only ≡ false
          → (addr ≤ pack.content) × (pack.content + pack.line_size * pack.item ≤ addr + size))
      × (is_type pack.type kv_separated ≡ true
          → (pack.extend ≡ pack.content + pack.line_size * pack.item)
            × (pack.extend + pack.item ≤ addr + size))
      × (pack.space_end ≡ addr + size)

  module _ (h : Header) (type : TableType) (s : Load) (pack : PackView) where
    content_inside :
        (n : ℕ)
        → size < 2 ^ 63
        → h.key_len < 2 ^ 8
        → h.val_len < 2 ^ 16
        → s.total_item ≤ 2 ^ 40
        → s.total_item ≡ bit_or (h.item_high * 2 ^ 32) h.item
        → Sections mem addr size n s.total_item n s
        → content_view h type addr size s ≡ some pack
        → InFile n pack
    unfolding content_view
    content_inside n fits k v few all (off, same, cells, sections) e =
        elim (Bool-cases (is_type type index_only)) [
          | inl bare ↦
              subst (InFile n) (some_inj (rw bare at e))
                (segs, λ f. absurd cc, λ f. absurd (let p = bare_only bare in cc), refl)
          | inr keyed ↦
              let (room, e1) = unguard (ltb size end) (rw keyed at e) in
              elim (Bool-cases (not (is_type type kv_separated))) [
                | inl plain ↦ subst (InFile n) (some_inj (rw plain at e1)) (
                  segs,
                  λ f. (omega arith, fit room),
                  λ f. absurd (let p = rw f at plain in cc),
                  refl,
                )
                | inr separated ↦
                    let (room2, e2) =
                      unguard (ltb size ((end + s.total_item) % 2 ^ 64)) (rw separated at e1) in
                    subst (InFile n) (some_inj e2)
                      (segs, λ f. (omega arith, fit room), λ f. beyond room room2, refl)
              ]
        ]
      where
        line_size : ℕ
        line_size = h.key_len + h.val_len

        end : ℕ
        end = (s.addr_off + line_size * s.total_item) % 2 ^ 64

        total : s.total_item ≡ bit_or (h.item_high * 2 ^ 32) h.item
        total = all

        segs :
            (i : ℕ)
            → i < n
            → CellsIn mem addr size i (bit_or (h.item_high * 2 ^ 32) h.item) (s.segments i)
              × SectionsIn mem addr size i (s.segments i)
        segs i l = (
          subst (λ (t : ℕ). CellsIn mem addr size i t (s.segments i)) all (cells i l),
          sections i l,
        )

        product : line_size * s.total_item ≤ 2 ^ 17 * 2 ^ 40
        product = let narrow : h.key_len + h.val_len ≤ 2 ^ 17 = omega arith in mul-le-mul narrow few

        flat : end ≡ s.addr_off + line_size * s.total_item
        flat = omega (arith, product)

        bare_only : is_type type index_only ≡ true → is_type type kv_separated ≡ false
        bare_only bare = unfold is_type type_code in ground (arith, bare)

        beyond :
            ltb size end ≡ false
            → ltb size ((end + s.total_item) % 2 ^ 64) ≡ false
            → (addr + end ≡ addr + s.addr_off + line_size * bit_or (h.item_high * 2 ^ 32) h.item)
              × (addr + end + bit_or (h.item_high * 2 ^ 32) h.item ≤ addr + size)
        beyond room room2 = rw (sym all) (omega (arith, flat), ground (arith, room, room2))

        fit :
            ltb size end ≡ false
            → addr + s.addr_off + line_size * bit_or (h.item_high * 2 ^ 32) h.item ≤ addr + size
        fit room = rw (sym all) (ground (arith, flat))

  module _ (h : Header) (type : TableType) (pack : PackView) (fits : size < 2 ^ 63)
      (k : h.key_len < 2 ^ 8) (v : h.val_len < 2 ^ 16) where
    section_inside :
        (s : Load)
        → h.seg_cnt ≤ 256
        → Cells mem addr size h.seg_cnt s
        → section_view mem h type addr size s ≡ some pack
        → InFile h.seg_cnt pack
    unfolding section_view
    section_inside s few (past, off, total, cells) e =
        let (same, e1) = unguard (not (s.total_item == bit_or (h.item_high * 2 ^ 32) h.item)) e in
        let (room, e2) = unguard (ltb size (align32 s.addr_off)) e1 in
        elim (Option-cases (
          try_each h.seg_cnt (section_step mem addr size)
            (record s { addr_off = align32 s.addr_off }))) [
              | inl stop ↦ absurd (let e' = rw stop at e2 in cc)
              | inr (t, go) ↦
                  let (a, b, c, d) =
                    try_each_inv (Sections mem addr size h.seg_cnt s.total_item) h.seg_cnt
                      (section_step mem addr size) _ t
                      (ground arith, refl, cells, λ i l. absurd (omega arith))
                      (λ r x y l p q.
                        Sections-round mem addr size h.seg_cnt s.total_item r x y (omega arith) p q)
                      go in
                  content_inside h type t pack h.seg_cnt (omega arith) k v (omega arith)
                    (b ∙ ground arith) (a, refl, rw (sym b) at c, d) (rw go at e2)
            ]

    segment_inside : segment_view mem h type addr size ≡ some pack → InFile h.seg_cnt pack
    unfolding segment_view
    segment_inside e =
        let (count, e1) = unguard (h.seg_cnt == 0 || ltb 256 h.seg_cnt) e in
        let (room, e2) = unguard (ltb size (20 + h.seg_cnt * 4)) e1 in
        let few : h.seg_cnt ≤ 256 = ground arith in
        elim (Option-cases (try_each h.seg_cnt (cell_step mem addr size) start)) [
          | inl stop ↦ absurd (let e' = rw stop at e2 in cc)
          | inr (t, go) ↦
              section_inside t few
                (try_each_inv (Cells mem addr size) h.seg_cnt (cell_step mem addr size) start t
                  (omega arith, ground arith, omega arith, λ i l. absurd (omega arith))
                  (λ r x y l p q. Cells-round mem addr size r x y fits (omega arith) p q) go)
                (rw go at e2)
        ]
      where
        start : Load
        start = record { addr_off = 20 + h.seg_cnt * 4; total_item = 0; segments = λ i. no_segment }

-- On any file below 2 ^ 63 bytes that `CreatePackView` takes, every segment has items, its cells start
-- after the file's header and end in the file, its bitmap starts and ends in the file, its divisor is
-- that of its part's `L2Size` and its items are among those of the view; unless the file is an index,
-- all the lines lie in it as well, and separate values start behind the last line, with at least one
-- byte for each item. The end of the space is that of the file.
pub create_pack_view_inside :
    (mem : Memory) (addr size : ℕ) (pack : PackView)
    → size < 2 ^ 63
    → create_pack_view mem addr size ≡ some pack
    → InFile mem addr size (read_header mem addr).seg_cnt pack
unfolding create_pack_view
create_pack_view_inside mem addr size pack fits e =
    let h = read_header mem addr in
    let (room, e1) = unguard (ltb size 20) e in
    let (known, e2) = unguard (not (h.magic == shd_magic)) e1 in
    elim (Option-cases (check_type h)) [
      | inl stop ↦ absurd (let e' = rw stop at e2 in cc)
      | inr (type, go) ↦
          segment_inside mem addr size h type pack fits key_fits val_fits (rw go at e2)
    ]
  where
    key_fits : (read_header mem addr).key_len < 2 ^ 8
    key_fits = unfold read_header in read_le-lt 1 mem (addr + 5)

    val_fits : (read_header mem addr).val_len < 2 ^ 16
    val_fits = unfold read_header in read_le-lt 2 mem (addr + 6)
