-- ===== src/Mapping/Held.antt =====
-- Which positions a bitmap holds, as numbers: 1 for a position that is in it, 0 for one that is not.
use fast_chd.Base.{
  ℕ, ◌+◌, ◌≤◌, ◌≡◌, ◌∙◌, refl, sym, ap, arith, Bool, false, ◌==◌, ==_iff, ltb, if◌then◌else◌,
}
use fast_chd.Base.{List, [], ◌∷◌, ◌++◌, Bool-cases, inl, inr}
use fast_chd.Bitmap.{Bytes, test_bit, set_bit, clear_bit}
use fast_chd.Bitmap.Laws.{test_bit-set_bit, test_bit-clear_bit}
use fast_chd.Mapping.{clear_bits}

abbrev pub digit_of : Bool → ℕ
digit_of b = if b then 1 else 0

unfoldable pub held : Bytes → ℕ → ℕ
held bitmap q = digit_of (test_bit bitmap q)

-- How often a position occurs in a list.
abbrev pub count : ℕ → List ℕ → ℕ
count q [] = 0
count q (p ∷ ps) = digit_of (p == q) + count q ps

pub count-append : (q : ℕ) (ps qs : List ℕ) → count q (ps ++ qs) ≡ count q ps + count q qs
count-append q [] qs = omega arith
count-append q (p ∷ ps) qs = omega (arith, count-append q ps qs)

digit_of-le : (b : Bool) → digit_of b ≤ 1
digit_of-le b = ground arith

pub held-le : (bitmap : Bytes) (q : ℕ) → held bitmap q ≤ 1
unfolding held
held-le bitmap q = digit_of-le (test_bit bitmap q)

-- `now` holds what `old` held and, once each, the positions `ps`. Since a position is held once at
-- most, the positions differ from each other and from those of `old`.
abbrev pub Filled : Bytes → List ℕ → Bytes → Type 0
Filled old ps now = (q : ℕ) → held now q ≡ count q ps + held old q

abbrev pub Same : Bytes → Bytes → Type 0
Same old now = (q : ℕ) → held now q ≡ held old q

pub Filled-append :
    (old mid now : Bytes) (ps qs : List ℕ)
    → Filled old ps mid
    → Filled mid qs now
    → Filled old (ps ++ qs) now
Filled-append old mid now ps qs a b q = omega (arith, a q, b q, count-append q ps qs)

pub Filled-single :
    (bitmap : Bytes) (p : ℕ) → test_bit bitmap p ≡ false → Filled bitmap (p ∷ []) (set_bit bitmap p)
unfolding held
Filled-single bitmap p free q = rw (test_bit-set_bit) (elim (Bool-cases (p == q)) [
  | inl e ↦
      let same = (==_iff p q).0 e in
      let free' : test_bit bitmap q ≡ false = ap (test_bit bitmap) (sym same) ∙ free in
      rw (e, free') refl
  | inr n ↦ rw n (omega arith)
])

held-clear_bit :
    (bitmap : Bytes) (p q : ℕ) → held (clear_bit bitmap p) q ≡ (if p == q then 0 else held bitmap q)
unfolding held
held-clear_bit bitmap p q = rw test_bit-clear_bit (ground arith)

held-clear_bits :
    (ps : List ℕ) (bitmap : Bytes) (q : ℕ)
    → held (clear_bits bitmap ps) q ≡ (if ltb 0 (count q ps) then 0 else held bitmap q)
unfolding clear_bits
held-clear_bits [] bitmap q = refl
held-clear_bits (p ∷ ps) bitmap q =
    held-clear_bits ps (clear_bit bitmap p) q ∙ rw held-clear_bit (ground arith)

-- Clearing what was set gives the bitmap of before.
pub undone :
    (old : Bytes) (ps : List ℕ) (now : Bytes) → Filled old ps now → Same old (clear_bits now ps)
undone old ps now h q = held-clear_bits ps now q ∙ ground (arith, h q, held-le now q, held-le old q)
