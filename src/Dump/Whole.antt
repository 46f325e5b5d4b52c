-- ===== src/Dump/Whole.antt =====
-- A whole index: its pieces are perfect hashes of their identities, so the index is one of all of them.
use fast_chd.Base.{
  ℕ, suc, ◌^◌, ◌≤◌, ◌<◌, ◌≡◌, ◌∙◌, sym, ap, arith, Bool, ltb, ◌==◌, ==_iff, Bool-cases, inl, inr,
  some, List, [], length, get_elem?,
}
use fast_chd.Base.Memory.{Memory, At}
use fast_chd.Divisor.{DivisorLkk, lkk_init, lkk_mod}
use fast_chd.Dump.{Sink, dump_index}
use fast_chd.Dump.Cells.{items_before}
use fast_chd.Dump.Load.{Restored, index_header, dump_load_lem}
use fast_chd.Dump.Reading.{sums-le}
use fast_chd.Dump.Round.{Fits, get_elem?-lt}
use fast_chd.Hash.{V96, l0_hash}
use fast_chd.Pack.{part, create_pack_view}
use fast_chd.Piece.{IndexPiece}
use fast_chd.Piece.Lookup.{place}
use fast_chd.Piece.Perfect.{Perfect}
use fast_chd.Table.{PackView}

-- The position that the stages of a lookup give to an identity.
abbrev pub id_pos : PackView → Memory → V96 → ℕ
id_pos view mem x = place mem (view.segments (lkk_mod 16 view.l0sz (l0_hash x))) x

-- `ids i` are the identities of piece `i`.
module _ (ps : List IndexPiece) (ids : ℕ → List V96) where
  abbrev pub Pieces : Type 0
  Pieces = (i : ℕ) (p : IndexPiece) → get_elem? ps i ≡ some p → Perfect (ids i) p

  abbrev pub Parted : Type 0
  Parted =
      (i j : ℕ) (x : V96)
      → i < length ps
      → get_elem? (ids i) j ≡ some x
      → lkk_mod 16 (lkk_init 16 (length ps)) (l0_hash x) ≡ i

  -- Positions below the number of items, and different ones for different identities.
  pub record Whole (mem : Memory) (view : PackView) : Type 0 where
    pub range :
        (i j : ℕ) (x : V96)
        → i < length ps
        → get_elem? (ids i) j ≡ some x
        → id_pos view mem x < view.item
    pub distinct :
        (i j : ℕ) (x : V96) (i' j' : ℕ) (y : V96)
        → i < length ps
        → i' < length ps
        → get_elem? (ids i) j ≡ some x
        → get_elem? (ids i') j' ≡ some y
        → id_pos view mem x ≡ id_pos view mem y
        → (i ≡ i') × (j ≡ j')

  module _ (mem : Memory) (addr seed : ℕ) (view : PackView) (parted : Parted) (perfect : Pieces)
      (restored : Restored mem addr (index_header seed ps) ps view) where
    abbrev before : ℕ → ℕ
    before i = items_before mem addr i

    -- The positions of piece `i` start at its offset.
    segment-at :
        (i j : ℕ) (x : V96)
        → i < length ps
        → get_elem? (ids i) j ≡ some x
        → id_pos view mem x ≡ place mem (view.segments i) x
    segment-at i j x l e =
        ap (λ (d : DivisorLkk). place mem (view.segments (lkk_mod 16 d (l0_hash x))) x)
          restored.parts
        ∙ ap (λ (k : ℕ). place mem (view.segments k) x) (parted i j x l e)

    within :
        (i j : ℕ) (x : V96)
        → i < length ps
        → get_elem? (ids i) j ≡ some x
        → (before i ≤ id_pos view mem x) × (id_pos view mem x < before (suc i))
    within i j x l e =
        let (p, at) = get_elem?-lt ps i l in
        let (load, off, size) = restored.pieces i p at in
        let (lo, hi) = (perfect i p at).range mem (view.segments i) j x load e in
        let same = segment-at i j x l e in (omega arith, omega arith)

    -- The positions of an earlier piece are below those of a later one.
    apart :
        (i j : ℕ) (x : V96) (i' j' : ℕ) (y : V96)
        → i < i'
        → i' < length ps
        → get_elem? (ids i) j ≡ some x
        → get_elem? (ids i') j' ≡ some y
        → id_pos view mem x < id_pos view mem y
    apart i j x i' j' y l m a b =
        let (lo, hi) = within i j x (omega arith) a in
        let (lo', hi') = within i' j' y m b in
        omega (arith, sums-le (λ k. part mem addr k) (suc i) i' (omega arith))

    same_piece :
        (i j : ℕ) (x : V96) (j' : ℕ) (y : V96)
        → i < length ps
        → get_elem? (ids i) j ≡ some x
        → get_elem? (ids i) j' ≡ some y
        → id_pos view mem x ≡ id_pos view mem y
        → j ≡ j'
    same_piece i j x j' y l a b e =
        let (p, at) = get_elem?-lt ps i l in
        let (load, off, size) = restored.pieces i p at in
        (perfect i p at).distinct mem (view.segments i) j j' x y load a b
          (sym (segment-at i j x l a) ∙ e ∙ segment-at i j' y l b)

    pub whole : Whole mem view
    whole = record {
      range = λ i j x l e.
          let (lo, hi) = within i j x l e in
          omega (
            arith,
            restored.total,
            restored.item,
            sums-le (λ k. part mem addr k) (suc i) (length ps) (omega arith),
          );
      distinct = λ i j x i' j' y l m a b e. elim (Bool-cases (i == i')) [
        | inl y_eq ↦
            let same = (==_iff i i').0 y_eq in (same, same_piece i j x j' y l a (rw same b) e)
        | inr ne ↦ elim (Bool-cases (ltb i i')) [
          | inl less ↦ absurd (omega (arith, apart i j x i' j' y (ground arith) m a b))
          | inr more ↦ absurd (omega (arith, apart i' j' y i j x (ground arith) l b a))
        ]
      ];
    }

-- For pieces as in the round trip of an index, each of them a perfect hash of its identities, and with
-- the identities in the piece that the lookup picks by their first word: the loaded index gives to each
-- identity a position below the number of items, and different positions to different identities.
pub index_lem :
    (accept : ℕ → Bool) (mem : Memory) (addr size seed : ℕ) (ps : List IndexPiece) (t : Sink)
    (ids : ℕ → List V96)
    → Fits ps
    → seed < 2 ^ 32
    → dump_index accept (index_header seed ps) ps (record { calls = 0; bytes = [] }) ≡ some t
    → At mem addr t.bytes
    → length t.bytes ≤ size
    → size < 2 ^ 63
    → Pieces ps ids
    → Parted ps ids
    → (view : PackView) × (create_pack_view mem addr size ≡ some view) × Whole ps ids mem view
index_lem accept mem addr size seed ps t ids fit small e at room fits perfect parted =
    let (view, loaded, restored) =
      dump_load_lem accept mem addr size seed ps t fit small e at room fits in
    (view, loaded, whole ps ids mem addr seed view parted perfect restored)
