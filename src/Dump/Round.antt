-- ===== src/Dump/Round.antt =====
-- An index that is dumped and loaded has the arrays of its pieces.
use fast_chd.Base.{ℕ, zero, suc, ◌+◌, ◌-◌, ◌*◌, ◌%◌, ◌^◌, ◌≤◌, ◌<◌, ◌≡◌, ◌∙◌, refl, ap, arith, some}
use fast_chd.Base.{List, [], ◌∷◌, ◌++◌, length, length-append, length-replicate, get_elem?}
use fast_chd.Base.Memory.{Memory, At}
use fast_chd.Dump.{header_bytes, item_bytes, cell_bytes, section_bytes, cells_end}
use fast_chd.Dump.Cells.{cells_before, items_before, sections_before}
use fast_chd.Dump.Head.{length-header_bytes, length-item_bytes, part_lem}
use fast_chd.Dump.Layout.{all_bytes, padding, layout}
use fast_chd.Dump.Reading.{
  At-append, array_bytes-At, length-array_bytes, sums, sums_front, length-all_bytes, all_bytes-At,
}
use fast_chd.Format.{l1_size, section_size, align32}
use fast_chd.Format.Align.{align32_small}
use fast_chd.Pack.{Header, part}
use fast_chd.Piece.{IndexPiece}
use mathlib.Core.Path.{subst}

abbrev pub total_size : List IndexPiece → ℕ
total_size [] = 0
total_size (p ∷ ps) = p.size + total_size ps

pub get_elem?-lt :
    (ps : List IndexPiece) (i : ℕ) → i < length ps → (p : IndexPiece) × (get_elem? ps i ≡ some p)
get_elem?-lt [] i h = absurd (omega arith)
get_elem?-lt (p ∷ ps) zero h = (p, refl)
get_elem?-lt (p ∷ ps) (suc i) h = get_elem?-lt ps i (omega arith)

pub get_elem?-some :
    (ps : List IndexPiece) (i : ℕ) (p : IndexPiece) → get_elem? ps i ≡ some p → i < length ps
get_elem?-some [] i p e = absurd cc
get_elem?-some (q ∷ ps) zero p e = omega arith
get_elem?-some (q ∷ ps) (suc i) p e = omega (arith, get_elem?-some ps i p e)

total-sums :
    (g : ℕ → ℕ) (ps : List IndexPiece)
    → ((i : ℕ) (p : IndexPiece) → get_elem? ps i ≡ some p → g i ≡ p.size)
    → sums g (length ps) ≡ total_size ps
total-sums g [] m = refl
total-sums g (p ∷ ps) m = omega (
  arith,
  sums_front g (length ps),
  m 0 p refl,
  total-sums (λ k. g (suc k)) ps (λ i q e. m (suc i) q e),
)

pub cells_end-sum :
    (size : ℕ) (ps : List IndexPiece)
    → size + length (all_bytes cell_bytes ps) < 2 ^ 64
    → cells_end size ps ≡ size + length (all_bytes cell_bytes ps)
unfolding cells_end cell_bytes
cells_end-sum size [] h = omega arith
cells_end-sum size (p ∷ ps) h =
    let one = length-append (cell_bytes p) (all_bytes cell_bytes ps) in
    let mine = length-array_bytes (l1_size p.size) p.cells 0 in
    let next : (size + l1_size p.size) % 2 ^ 64 ≡ size + l1_size p.size = omega arith in
    rw next (omega (arith, cells_end-sum (size + l1_size p.size) ps (omega arith)))

-- Sizes that the fields of the format hold. From 2 ^ 32 on the aligned offset would be cut.
pub record Fits (ps : List IndexPiece) : Type 0 where
  pub some_part : 0 < length ps
  pub few : length ps ≤ 256
  pub filled : (i : ℕ) (p : IndexPiece) → get_elem? ps i ≡ some p → (0 < p.size) × (p.size < 2 ^ 32)
  pub short : 20 + length ps * 4 + length (all_bytes cell_bytes ps) + 31 < 2 ^ 32

module _ (mem : Memory) (addr : ℕ) (h : Header) (ps : List IndexPiece) (fit : Fits ps)
    (at : At mem addr (layout h ps)) where
  abbrev pub base : ℕ
  base = 20 + length ps * 4

  abbrev pub aligned : ℕ
  aligned = align32 (base + length (all_bytes cell_bytes ps))

  pub header-At : At mem addr (header_bytes h)
  header-At = (At-append mem addr (header_bytes h) _ at).0

  rest-At : At mem (addr + 20) (
      item_bytes ps
      ++ (all_bytes cell_bytes ps ++ (padding (cells_end base ps) ++ all_bytes section_bytes ps)))
  rest-At =
      subst
        (λ (t : ℕ). At mem (addr + t) (
          item_bytes ps
          ++ (all_bytes cell_bytes ps
              ++ (padding (cells_end base ps) ++ all_bytes section_bytes ps))))
        (length-header_bytes h) (At-append mem addr (header_bytes h) _ at).1

  items-At : At mem (addr + 20) (item_bytes ps)
  items-At = (At-append mem (addr + 20) (item_bytes ps) _ rest-At).0

  arrays-At :
      At mem
        (addr + base)
        (all_bytes cell_bytes ps ++ (padding (cells_end base ps) ++ all_bytes section_bytes ps))
  arrays-At =
      let there : addr + 20 + length (item_bytes ps) ≡ addr + base =
        omega (arith, length-item_bytes ps) in
      subst
        (λ (t : ℕ).
          At mem t (
            all_bytes cell_bytes ps ++ (padding (cells_end base ps) ++ all_bytes section_bytes ps)))
        there (At-append mem (addr + 20) (item_bytes ps) _ rest-At).1

  cells-At : At mem (addr + base) (all_bytes cell_bytes ps)
  cells-At = (At-append mem (addr + base) (all_bytes cell_bytes ps) _ arrays-At).0

  end-At :
      At mem
        (addr + base + length (all_bytes cell_bytes ps))
        (padding (cells_end base ps) ++ all_bytes section_bytes ps)
  end-At = (At-append mem (addr + base) (all_bytes cell_bytes ps) _ arrays-At).1

  sections-At : At mem (addr + aligned) (all_bytes section_bytes ps)
  sections-At =
      let n = base + length (all_bytes cell_bytes ps) in
      let end = cells_end-sum base ps (omega (arith, fit.short)) in
      let up = align32_small n (omega (arith, fit.short)) in
      let zeros : length (padding (cells_end base ps))
          ≡ align32 (cells_end base ps) - cells_end base ps =
        length-replicate (align32 (cells_end base ps) - cells_end base ps) 0 in
      let same : align32 (cells_end base ps) ≡ align32 n = ap align32 end in
      let there : addr
            + base
            + length (all_bytes cell_bytes ps)
            + length (padding (cells_end base ps))
          ≡ addr + aligned =
        omega arith in
      subst (λ (t : ℕ). At mem t (all_bytes section_bytes ps)) there
        (At-append mem (addr + base + length (all_bytes cell_bytes ps))
          (padding (cells_end base ps)) _ end-At).1

  pub part-size : (i : ℕ) (p : IndexPiece) → get_elem? ps i ≡ some p → part mem addr i ≡ p.size
  part-size i p e = part_lem mem addr ps i p items-At e (fit.filled i p e).1

  length-cells :
      (i : ℕ) (p : IndexPiece)
      → get_elem? ps i ≡ some p
      → length (cell_bytes p) ≡ l1_size (part mem addr i)
  unfolding cell_bytes
  length-cells i p e = rw (part-size i p e) (length-array_bytes (l1_size p.size) p.cells 0)

  length-sections :
      (i : ℕ) (p : IndexPiece)
      → get_elem? ps i ≡ some p
      → length (section_bytes p) ≡ 32 * section_size (part mem addr i)
  unfolding section_bytes
  length-sections i p e =
      rw (part-size i p e)
        (omega (arith, length-array_bytes (section_size p.size * 32) p.sections 0))

  pub cells-total : length (all_bytes cell_bytes ps) ≡ cells_before mem addr (length ps)
  cells-total = length-all_bytes (λ k. l1_size (part mem addr k)) cell_bytes ps length-cells

  pub sections-total : length (all_bytes section_bytes ps) ≡ sections_before mem addr (length ps)
  sections-total =
      length-all_bytes (λ k. 32 * section_size (part mem addr k)) section_bytes ps length-sections

  pub items-total : items_before mem addr (length ps) ≡ total_size ps
  items-total = total-sums (λ k. part mem addr k) ps part-size

  pub cell-byte :
      (i : ℕ) (p : IndexPiece) (b : ℕ)
      → get_elem? ps i ≡ some p
      → b < l1_size p.size
      → mem (addr + (base + cells_before mem addr i) + b) ≡ p.cells b
  unfolding cell_bytes
  cell-byte i p b e l =
      ap mem (omega arith)
      ∙ array_bytes-At (l1_size p.size) mem p.cells (addr + base + cells_before mem addr i) 0 b
          (all_bytes-At (λ k. l1_size (part mem addr k)) cell_bytes ps mem (addr + base) i p
            length-cells cells-At e)
          l
      ∙ ap p.cells (omega arith)

  pub section-byte :
      (i : ℕ) (p : IndexPiece) (j : ℕ)
      → get_elem? ps i ≡ some p
      → j < 32 * section_size p.size
      → mem (addr + (aligned + sections_before mem addr i) + j) ≡ p.sections j
  unfolding section_bytes
  section-byte i p j e l =
      ap mem (omega arith)
      ∙ array_bytes-At (section_size p.size * 32) mem p.sections
          (addr + aligned + sections_before mem addr i) 0 j
          (all_bytes-At (λ k. 32 * section_size (part mem addr k)) section_bytes ps mem
            (addr + aligned) i p length-sections sections-At e)
          (omega arith)
      ∙ ap p.sections (omega arith)
