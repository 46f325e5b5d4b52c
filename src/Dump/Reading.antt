-- ===== src/Dump/Reading.antt =====
-- Words, arrays and sequences of arrays that are read where they were written.
use fast_chd.Base.{
  ℕ, zero, suc, ◌+◌, ◌/◌, ◌^◌, ◌≤◌, ◌<◌, ◌≡◌, ◌==◌, ==_iff, Bool-cases, inl, inr, ◌∙◌, refl, sym,
  ap, arith, some,
}
use fast_chd.Base.{List, [], ◌∷◌, ◌++◌, length, length-append, get_elem?}
use fast_chd.Base.Memory.{Memory, read_le, At}
use fast_chd.Dump.{le_bytes, array_bytes}
use fast_chd.Dump.Layout.{all_bytes}
use fast_chd.Piece.{IndexPiece}
use native.Mathlib.Nat.{pow-zero, pow-suc}
use mathlib.Core.Path.{subst}

pub At-append :
    (mem : Memory) (a : ℕ) (xs ys : List ℕ)
    → At mem a (xs ++ ys)
    → At mem a xs × At mem (a + length xs) ys
At-append mem a [] ys h = let e : a + 0 ≡ a = omega arith in (_, rw e h)
At-append mem a (x ∷ xs) ys (h, rest) =
    let (l, r) = At-append mem (a + 1) xs ys rest in
    let e : a + 1 + length xs ≡ a + suc (length xs) = omega arith in ((h, l), rw (sym e) r)

pub length-le_bytes : (n v : ℕ) → length (le_bytes n v) ≡ n
unfolding le_bytes
length-le_bytes zero v = refl
length-le_bytes (suc n) v = ap suc (length-le_bytes n (v / 256))

pub length-array_bytes : (n : ℕ) (from : Memory) (b : ℕ) → length (array_bytes n from b) ≡ n
unfolding array_bytes
length-array_bytes zero from b = refl
length-array_bytes (suc n) from b = ap suc (length-array_bytes n from (b + 1))

-- The digits of a word in base 256 give the word back.
pub read_le-le_bytes :
    (n : ℕ) (mem : Memory) (a v : ℕ) → At mem a (le_bytes n v) → v < 256 ^ n → read_le n mem a ≡ v
unfolding le_bytes read_le
read_le-le_bytes zero mem a v h l = omega (arith, pow-zero 256)
read_le-le_bytes (suc n) mem a v (h, rest) l =
    let next : v / 256 < 256 ^ n = omega (arith, pow-suc 256 n) in
    rw (h, read_le-le_bytes n mem (a + 1) (v / 256) rest next) (omega arith)

-- The next field of a record.
pub read_field :
    (n : ℕ) (mem : Memory) (a v : ℕ) (rest : List ℕ)
    → v < 256 ^ n
    → At mem a (le_bytes n v ++ rest)
    → (read_le n mem a ≡ v) × At mem (a + n) rest
read_field n mem a v rest l h =
    let (x, y) = At-append mem a (le_bytes n v) rest h in
    (read_le-le_bytes n mem a v x l, subst (λ (t : ℕ). At mem (a + t) rest) (length-le_bytes n v) y)

pub array_bytes-At :
    (n : ℕ) (mem from : Memory) (a b j : ℕ)
    → At mem a (array_bytes n from b)
    → j < n
    → mem (a + j) ≡ from (b + j)
unfolding array_bytes
array_bytes-At zero mem from a b j h l = absurd (omega arith)
array_bytes-At (suc n) mem from a b zero (h, rest) l =
    ap mem (omega arith) ∙ h ∙ ap from (omega arith)
array_bytes-At (suc n) mem from a b (suc j) (h, rest) l =
    ap mem (omega arith)
    ∙ array_bytes-At n mem from (a + 1) (b + 1) j rest (omega arith)
    ∙ ap from (omega arith)

abbrev pub sums : (ℕ → ℕ) → ℕ → ℕ
sums g zero = 0
sums g (suc n) = sums g n + g n

pub sums_front : (g : ℕ → ℕ) (n : ℕ) → sums g (suc n) ≡ g 0 + sums (λ k. g (suc k)) n
sums_front g zero = omega arith
sums_front g (suc n) = omega (arith, sums_front g n)

pub sums-le : (g : ℕ → ℕ) (i n : ℕ) → i ≤ n → sums g i ≤ sums g n
sums-le g i zero h = let e : i ≡ 0 = omega arith in rw e (omega arith)
sums-le g i (suc n) h = elim (Bool-cases (i == suc n)) [
  | inl e ↦ rw ((==_iff i (suc n)).0 e) (omega arith)
  | inr ne ↦ omega (arith, sums-le g i n (ground arith))
]

-- `g i` is the length of what `f` makes of piece `i`.
abbrev pub Measures : (ℕ → ℕ) → (IndexPiece → List ℕ) → List IndexPiece → Type 0
Measures g f ps = (i : ℕ) (p : IndexPiece) → get_elem? ps i ≡ some p → length (f p) ≡ g i

Measures-tail :
    (g : ℕ → ℕ) (f : IndexPiece → List ℕ) (p : IndexPiece) (ps : List IndexPiece)
    → Measures g f (p ∷ ps)
    → Measures (λ k. g (suc k)) f ps
Measures-tail g f p ps m i q e = m (suc i) q e

pub length-all_bytes :
    (g : ℕ → ℕ) (f : IndexPiece → List ℕ) (ps : List IndexPiece)
    → Measures g f ps
    → length (all_bytes f ps) ≡ sums g (length ps)
length-all_bytes g f [] m = refl
length-all_bytes g f (p ∷ ps) m =
    length-append (f p) (all_bytes f ps)
    ∙ omega (
      arith,
      m 0 p refl,
      length-all_bytes (λ k. g (suc k)) f ps (Measures-tail g f p ps m),
      sums_front g (length ps),
    )

pub all_bytes-At :
    (g : ℕ → ℕ) (f : IndexPiece → List ℕ) (ps : List IndexPiece) (mem : Memory) (a i : ℕ)
    (p : IndexPiece)
    → Measures g f ps
    → At mem a (all_bytes f ps)
    → get_elem? ps i ≡ some p
    → At mem (a + sums g i) (f p)
all_bytes-At g f [] mem a i p m h e = absurd cc
all_bytes-At g f (q ∷ ps) mem a zero p m h e =
    let same : q ≡ p = cc in
    let here : a + 0 ≡ a = omega arith in
    subst (λ (x : IndexPiece). At mem (a + 0) (f x)) same
      (rw here (At-append mem a (f q) (all_bytes f ps) h).0)
all_bytes-At g f (q ∷ ps) mem a (suc i) p m h e =
    let rest = (At-append mem a (f q) (all_bytes f ps) h).1 in
    let there : a + length (f q) + sums (λ k. g (suc k)) i ≡ a + sums g (suc i) =
      omega (arith, m 0 q refl, sums_front g i) in
    subst (λ (t : ℕ). At mem t (f p)) there
      (all_bytes-At (λ k. g (suc k)) f ps mem (a + length (f q)) i p (Measures-tail g f q ps m) rest
        e)
