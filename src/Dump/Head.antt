-- ===== src/Dump/Head.antt =====
-- The header and the sizes of the parts are read as they were written.
use fast_chd.Base.{ℕ, zero, suc, ◌+◌, ◌*◌, ◌^◌, ◌<◌, ◌≡◌, ◌∙◌, refl, ap, arith, some}
use fast_chd.Base.{List, [], ◌∷◌, ◌++◌, length, get_elem?}
use fast_chd.Base.Memory.{Memory, read_le, At}
use fast_chd.Dump.{le_bytes, header_bytes, item_bytes}
use fast_chd.Dump.Layout.{all_bytes}
use fast_chd.Dump.Reading.{
  read_field, read_le-le_bytes, length-le_bytes, sums, all_bytes-At, length-all_bytes,
}
use fast_chd.Pack.{Header, read_header, part}
use fast_chd.Piece.{IndexPiece}
use mathlib.Core.Path.{subst}

-- Every field fits its bytes.
pub record Fields (h : Header) : Type 0 where
  pub magic : h.magic < 256 ^ 4
  pub type : h.type < 256 ^ 1
  pub key_len : h.key_len < 256 ^ 1
  pub val_len : h.val_len < 256 ^ 2
  pub seed : h.seed < 256 ^ 4
  pub item : h.item < 256 ^ 4
  pub item_high : h.item_high < 256 ^ 2
  pub seg_cnt : h.seg_cnt < 256 ^ 2

pub length-header_bytes : (h : Header) → length (header_bytes h) ≡ 20
unfolding header_bytes le_bytes
length-header_bytes h = refl

field :
    (n : ℕ) (mem : Memory) (a b v : ℕ) (rest : List ℕ)
    → v < 256 ^ n
    → a + n ≡ b
    → At mem a (le_bytes n v ++ rest)
    → (read_le n mem a ≡ v) × At mem b rest
field n mem a b v rest l e h =
    let (x, y) = read_field n mem a v rest l h in (x, subst (λ (t : ℕ). At mem t rest) e y)

pub read_header_lem :
    (mem : Memory) (addr : ℕ) (h : Header)
    → Fields h
    → At mem addr (header_bytes h)
    → read_header mem addr ≡ h
unfolding read_header header_bytes
read_header_lem mem addr h f at =
    let last = le_bytes 2 h.seg_cnt in
    let from7 = le_bytes 2 h.item_high ++ last in
    let from6 = le_bytes 4 h.item ++ from7 in
    let from5 = le_bytes 4 h.seed ++ from6 in
    let from4 = le_bytes 2 h.val_len ++ from5 in
    let from3 = le_bytes 1 h.key_len ++ from4 in
    let from2 = le_bytes 1 h.type ++ from3 in
    let (e1, at1) = field 4 mem addr (addr + 4) h.magic from2 f.magic refl at in
    let (e2, at2) = field 1 mem (addr + 4) (addr + 5) h.type from3 f.type (omega arith) at1 in
    let (e3, at3) = field 1 mem (addr + 5) (addr + 6) h.key_len from4 f.key_len (omega arith) at2 in
    let (e4, at4) = field 2 mem (addr + 6) (addr + 8) h.val_len from5 f.val_len (omega arith) at3 in
    let (e5, at5) = field 4 mem (addr + 8) (addr + 12) h.seed from6 f.seed (omega arith) at4 in
    let (e6, at6) = field 4 mem (addr + 12) (addr + 16) h.item from7 f.item (omega arith) at5 in
    let (e7, at7) =
      field 2 mem (addr + 16) (addr + 18) h.item_high last f.item_high (omega arith) at6 in
    let e8 = read_le-le_bytes 2 mem (addr + 18) h.seg_cnt at7 f.seg_cnt in
    rw (e1, e2, e3, e4, e5, e6, e7, e8) refl

item_bytes-all : (ps : List IndexPiece) → item_bytes ps ≡ all_bytes (λ p. le_bytes 4 p.size) ps
unfolding item_bytes
item_bytes-all [] = refl
item_bytes-all (p ∷ ps) = ap (λ (l : List ℕ). le_bytes 4 p.size ++ l) (item_bytes-all ps)

sums-four : (n : ℕ) → sums (λ k. 4) n ≡ 4 * n
sums-four zero = refl
sums-four (suc n) = omega (arith, sums-four n)

pub length-item_bytes : (ps : List IndexPiece) → length (item_bytes ps) ≡ 4 * length ps
length-item_bytes ps =
    ap length (item_bytes-all ps)
    ∙ length-all_bytes (λ k. 4) (λ p. le_bytes 4 p.size) ps (λ i p e. length-le_bytes 4 p.size)
    ∙ sums-four (length ps)

pub part_lem :
    (mem : Memory) (addr : ℕ) (ps : List IndexPiece) (i : ℕ) (p : IndexPiece)
    → At mem (addr + 20) (item_bytes ps)
    → get_elem? ps i ≡ some p
    → p.size < 2 ^ 32
    → part mem addr i ≡ p.size
unfolding part
part_lem mem addr ps i p at e small =
    let at1 = subst (At mem (addr + 20)) (item_bytes-all ps) at in
    let at2 =
      all_bytes-At (λ k. 4) (λ p. le_bytes 4 p.size) ps mem (addr + 20) i p
        (λ j q _. length-le_bytes 4 q.size) at1 e in
    ap (read_le 4 mem) (omega (arith, sums-four i))
    ∙ read_le-le_bytes 4 mem (addr + 20 + sums (λ k. 4) i) p.size at2 (omega arith)
