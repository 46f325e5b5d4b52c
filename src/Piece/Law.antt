-- ===== src/Piece/Law.antt =====
-- `Build` of a piece as a whole.
use mathlib.Core.Option
use fast_chd.Base.{ℕ, suc, ◌+◌, ◌*◌, ◌^◌, ◌<◌, ◌≡◌, ◌∙◌, refl, ap, arith, true, false, not, ==_iff}
use fast_chd.Base.{List, [], ◌∷◌, map, length, length-map, ◌⊎◌, inl, inr, some}
use fast_chd.Bitmap.{Bytes}
use fast_chd.Divisor.{mr_init}
use fast_chd.Format.{l1_band, l2_size, section_size}
use fast_chd.Format.Sizes.{l2_size_lem, bitmap_size_lem}
use fast_chd.Hash.{V96}
use fast_chd.Mapping.{build_ok, conflict, out_of_chance}
use fast_chd.Mapping.Held.{Filled}
use fast_chd.Mapping.Small.{pick_then, pick_else}
use fast_chd.Piece.{
  bucket, zeros, Scanned, is_ok, sections, IndexPiece, Built, done, failed, finish, build_piece,
}
use fast_chd.Piece.Cells.{AllBytes, scan_cells}
use fast_chd.Piece.Lookup.{spot-lt}
use fast_chd.Piece.Perfect.{Valid, grouped, Perfect, perfect}
use fast_chd.Piece.Ranks.{sections_lem}
use fast_chd.Piece.Scan.{spot, inside, scan_lem, bad-is_ok}
use fast_chd.Piece.Total.{all_below, ones-all}
use fast_chd.Table.Rank.{ones}

-- A piece whose identities have distinct positions, or the status that makes the caller try again.
abbrev pub Results : List V96 → ℕ → Built → Type 0
Results ids size b =
    ((p : IndexPiece) × (b ≡ done p) × (p.size ≡ size) × Perfect ids p)
    ⊎ ((b ≡ failed conflict) ⊎ (b ≡ failed out_of_chance))

Valid-tail : (size : ℕ) (x : V96) (xs : List V96) → Valid size (x ∷ xs) → Valid size xs
Valid-tail size x xs h i y e = h (suc i) y e

module _ (size : ℕ) (small : 2 * size + 224 < 2 ^ 32) where
  all-below :
      (cells : Bytes) (ids : List V96)
      → Valid size ids
      → all_below
          (224 * section_size size)
          (map (spot (mr_init 64 (l1_band size)) (mr_init 64 (l2_size size)) cells) ids)
        ≡ true
  all-below cells [] h = refl
  all-below cells (x ∷ xs) h =
      let lt = spot-lt size cells x small (h 0 x refl).0 in
      let room = bitmap_size_lem size (omega arith) in
      ground (arith, lt, all-below cells xs (Valid-tail size x xs h))

  finish-done :
      (s : Scanned)
      → s.status ≡ build_ok
      → (sections s.bits (section_size size)).step ≡ size
      → finish size s
        ≡ done (record {
          size = size;
          cells = s.cells;
          sections = (sections s.bits (section_size size)).out;
        })
  unfolding finish is_ok
  finish-done s ok step =
      pick_else _ _ (ap (λ t. not (is_ok t)) ok) ∙ pick_then _ _ ((==_iff _ size).1 step)

  finish-failed : (s : Scanned) → is_ok s.status ≡ false → finish size s ≡ failed s.status
  unfolding finish
  finish-failed s bad = pick_then _ _ (ap not bad)

  finish_bad :
      (ids : List V96) (s : Scanned)
      → (s.status ≡ conflict) ⊎ (s.status ≡ out_of_chance)
      → Results ids size (finish size s)
  finish_bad ids s (inl e) = inr (inl (finish-failed s (bad-is_ok s.status (inl e)) ∙ ap failed e))
  finish_bad ids s (inr e) = inr (inr (finish-failed s (bad-is_ok s.status (inr e)) ∙ ap failed e))

  finish_ok :
      (ids : List V96) (s : Scanned)
      → length ids ≡ size
      → Valid size ids
      → AllBytes s.cells
      → s.status ≡ build_ok
      → Filled zeros
          (map (spot (mr_init 64 (l1_band size)) (mr_init 64 (l2_size size)) s.cells) ids)
          s.bits
      → Results ids size (finish size s)
  finish_ok ids s len valid bytes ok fill =
      let at = spot (mr_init 64 (l1_band size)) (mr_init 64 (l2_size size)) s.cells in
      let room = bitmap_size_lem size (omega arith) in
      let l2sz = l2_size_lem size (omega arith) in
      let (step, counted) = sections_lem s.bits (section_size size) (omega arith) in
      let total : ones s.bits 0 (224 * section_size size) ≡ size =
        ones-all s.bits (map at ids) fill (224 * section_size size) (all-below s.cells ids valid)
        ∙ length-map ids at
        ∙ len in
      let p : IndexPiece = record {
        size = size;
        cells = s.cells;
        sections = (sections s.bits (section_size size)).out;
      } in
      inl (
        p,
        finish-done s ok (step ∙ total),
        refl,
        perfect ids p s.bits small valid bytes counted fill total,
      )

-- For any identities in cells that exist, as many as the size and with those of a bucket together,
-- where the bits of the bitmap can be numbered in 32 bits: `Build` of a piece ends, and its assertion
-- on the count never fails. The status is conflict or out of chance, or the piece is built; then,
-- wherever it is loaded, distinct identities have distinct positions, all of them below the size.
pub build_piece_lem :
    (ids : List V96) (size : ℕ)
    → length ids ≡ size
    → 0 < size
    → 2 * size + 224 < 2 ^ 32
    → Valid size ids
    → grouped size ids ≡ true
    → (b : Built) × (build_piece ids size ≡ some b) × Results ids size b
unfolding build_piece
build_piece_lem [] size len pos small valid group = absurd (omega arith)
build_piece_lem (x ∷ xs) size len pos small valid group =
    let l1bd = mr_init 64 (l1_band size) in
    let l2sz = mr_init 64 (l2_size size) in
    let mine : inside l1bd l2sz (bucket l1bd x) (x ∷ []) ≡ true = ground arith in
    let (s, e, ends) =
      scan_lem l1bd l2sz (bucket l1bd x) (x ∷ []) 0 zeros zeros xs (omega arith) mine group in
    let bytes =
      scan_cells l1bd l2sz (bucket l1bd x) (x ∷ []) 0 zeros zeros xs (omega arith)
        (λ q. omega arith) s e in
    (
      finish size s,
      ap (Option.map (finish size)) e,
      elim ends [
        | inl (ok, placed) ↦ finish_ok size small (x ∷ xs) s len valid bytes ok placed.filled
        | inr bad ↦ finish_bad size small (x ∷ xs) s bad
      ],
    )
