-- ===== src/Dump.antt =====
-- `DumpIndex` of src/build.cc: the index that goes to the writer. Its `write` is the caller's code:
-- `accept` says which of its calls succeed, and the bytes of those that do are kept.
pub mod Layout
pub mod Reading
pub mod Cells
pub mod Head
pub mod Round
pub mod Load
pub mod Whole
use fast_chd.Base.{
  ℕ, zero, suc, ◌+◌, ◌-◌, ◌*◌, ◌/◌, ◌%◌, ◌^◌, ltb, if◌then◌else◌, Option, none, some,
}
use fast_chd.Base.{Bool, true, false, List, [], ◌∷◌, ◌++◌, map, length, replicate}
use fast_chd.Base.Memory.{Memory}
use fast_chd.Format.{l1_size, section_size, align32}
use fast_chd.Pack.{Header}
use fast_chd.Piece.{IndexPiece}

-- The bytes of a word, and of an array.
unfoldable pub le_bytes : ℕ → ℕ → List ℕ
le_bytes zero v = []
le_bytes (suc n) v = v % 256 ∷ le_bytes n (v / 256)

unfoldable pub array_bytes : ℕ → Memory → ℕ → List ℕ
array_bytes zero mem a = []
array_bytes (suc n) mem a = mem a ∷ array_bytes n mem (a + 1)

unfoldable pub header_bytes : Header → List ℕ
unfolding le_bytes
header_bytes h =
    le_bytes 4 h.magic
    ++ (le_bytes 1 h.type
        ++ (le_bytes 1 h.key_len
            ++ (le_bytes 2 h.val_len
                ++ (le_bytes 4 h.seed
                    ++ (le_bytes 4 h.item ++ (le_bytes 2 h.item_high ++ le_bytes 2 h.seg_cnt))))))

-- `items`
unfoldable pub item_bytes : List IndexPiece → List ℕ
unfolding le_bytes
item_bytes [] = []
item_bytes (p ∷ ps) = le_bytes 4 p.size ++ item_bytes ps

pub record Sink : Type 0 where
  pub calls : ℕ
  pub bytes : List ℕ

-- `out.write`; `none` is false.
unfoldable pub write : (ℕ → Bool) → List ℕ → Sink → Option Sink
write accept bytes s =
    if accept s.calls then some (record { calls = s.calls + 1; bytes = s.bytes ++ bytes }) else none

-- One write for each piece.
unfoldable pub write_each :
    (ℕ → Bool) → (IndexPiece → List ℕ) → List IndexPiece → Sink → Option Sink
unfolding write
write_each accept f [] s = some s
write_each accept f (p ∷ ps) s = elim (write accept (f p) s) [
  | none ↦ none
  | some t ↦ write_each accept f ps t
]

unfoldable pub cell_bytes : IndexPiece → List ℕ
unfolding array_bytes
cell_bytes p = array_bytes (l1_size p.size) p.cells 0

unfoldable pub section_bytes : IndexPiece → List ℕ
unfolding array_bytes
section_bytes p = array_bytes (section_size p.size * 32) p.sections 0

-- The variable `size` after the loop over the cells.
unfoldable pub cells_end : ℕ → List IndexPiece → ℕ
cells_end size [] = size
cells_end size (p ∷ ps) = cells_end ((size + l1_size p.size) % 2 ^ 64) ps

-- `size = (size+31U)&(~31U)`, and the zeros up to it.
unfoldable pub write_padding : (ℕ → Bool) → ℕ → Sink → Option Sink
unfolding write
write_padding accept unaligned s =
    if ltb unaligned (align32 unaligned)
    then write accept (replicate (align32 unaligned - unaligned) 0) s
    else some s

unfoldable pub and_then : Option Sink → (Sink → Option Sink) → Option Sink
and_then none f = none
and_then (some s) f = f s

unfoldable pub dump_index : (ℕ → Bool) → Header → List IndexPiece → Sink → Option Sink
unfolding write write_each write_padding header_bytes item_bytes cell_bytes section_bytes cells_end
    and_then
dump_index accept h [] s = none
dump_index accept h (p ∷ ps) s = and_then (write accept (header_bytes h) s) (λ a.
    and_then (write accept (item_bytes (p ∷ ps)) a) (λ b.
      and_then (write_each accept cell_bytes (p ∷ ps) b) (λ c.
        and_then (write_padding accept (cells_end (20 + length (p ∷ ps) * 4) (p ∷ ps)) c)
          (write_each accept section_bytes (p ∷ ps)))))
