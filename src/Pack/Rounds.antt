-- ===== src/Pack/Rounds.antt =====
-- The rounds of the two loops of `CreatePackView`: what each adds lies in the file.
use fast_chd.Base.{ℕ, zero, suc, ◌+◌, ◌*◌, ◌%◌, ◌^◌, ◌≤◌, ◌<◌, ◌≡◌, ◌≢◌, refl, sym, ap, arith}
use fast_chd.Base.{
  Bool, true, false, ltb, ◌==◌, ==_iff, Bool-cases, Option-cases, inl, inr, Option, none, some,
  if◌then◌else◌,
}
use fast_chd.Base.{store, store_self, store_ne}
use mathlib.Core.Path.{subst}
use fast_chd.Base.Memory.{Memory, read_le-lt}
use fast_chd.Divisor.{mr_init}
use fast_chd.Format.{l1_size, l2_size, section_size}
use fast_chd.Table.{SegmentView}
use fast_chd.Pack.{Load, part, cell_step, section_step, try_each}

-- What an early return that was not taken leaves.
pub unguard {ℓ} :
    {A : Type ℓ} (b : Bool) {x : Option A} {a : A}
    → (if b then none else x) ≡ some a
    → (b ≡ false) × (x ≡ some a)
unguard true h = absurd cc
unguard false h = (refl, h)

abbrev pub value_or {ℓ} : {A : Type ℓ} → A → Option A → A
value_or a none = a
value_or a (some b) = b

pub some_inj {ℓ} : {A : Type ℓ} {a b : A} → some a ≡ some b → a ≡ b
some_inj {a = a} e = ap (value_or a) e

-- A property of the rounds of a loop that did not return early.
pub try_each_inv {ℓ} :
    (P : ℕ → Load → Type ℓ) (n : ℕ) (f : ℕ → Load → Option Load) (s t : Load)
    → P 0 s
    → ((r : ℕ) (u v : Load) → r < n → P r u → f r u ≡ some v → P (suc r) v)
    → try_each n f s ≡ some t
    → P n t
unfolding try_each
try_each_inv P zero f s t h keep e = subst (P 0) (some_inj e) h
try_each_inv P (suc n) f s t h keep e = elim (Option-cases (try_each n f s)) [
  | inl stop ↦ absurd (let e' = rw stop at e in cc)
  | inr (u, go) ↦
      keep n u t (omega arith) (try_each_inv P n f s u h (λ r a b l. keep r a b (omega arith)) go)
        (rw go at e)
]

stored {ℓ} :
    (P : SegmentView → Type ℓ) (segs : ℕ → SegmentView) (r i : ℕ) (seg : SegmentView)
    → (i ≡ r → P seg)
    → (i ≢ r → P (segs i))
    → P (store segs r seg i)
stored P segs r i seg new old = elim (Bool-cases (i == r)) [
  | inl e ↦ let e' = (==_iff i r).0 e in subst P (sym (store_self segs r seg i e')) (new e')
  | inr n ↦ let n' : i ≢ r = λ e. ground arith in subst P (sym (store_ne segs r seg i n')) (old n')
]

l1_size-lt : (n : ℕ) → l1_size n < 2 ^ 32
l1_size-lt n = unfold l1_size in omega arith

section_size-lt : (n : ℕ) → section_size n < 2 ^ 32
section_size-lt n = unfold section_size in omega arith

part-lt : (mem : Memory) (addr i : ℕ) → part mem addr i < 2 ^ 32
part-lt mem addr i = unfold part in read_le-lt 4 mem (addr + 20 + 4 * i)

module _ (mem : Memory) (addr size : ℕ) where
  -- What the first loop makes of segment `i`, with `total` items so far.
  abbrev pub CellsIn : ℕ → ℕ → SegmentView → Type 0
  CellsIn i total seg =
      (0 < part mem addr i)
      × (addr + 20 ≤ seg.cells)
      × (seg.cells + l1_size (part mem addr i) ≤ addr + size)
      × (seg.l2sz ≡ mr_init 64 (l2_size (part mem addr i)))
      × (seg.offset + part mem addr i ≤ total)

  -- What the second loop adds.
  abbrev pub SectionsIn : ℕ → SegmentView → Type 0
  SectionsIn i seg =
      (addr ≤ seg.sections) × (seg.sections + 32 * section_size (part mem addr i) ≤ addr + size)

  abbrev pub Cells : ℕ → Load → Type 0
  Cells r s =
      (20 ≤ s.addr_off)
      × (s.addr_off ≤ size)
      × (s.total_item ≤ r * 2 ^ 32)
      × ((i : ℕ) → i < r → CellsIn i s.total_item (s.segments i))

  pub Cells-round :
      (r : ℕ) (u v : Load)
      → size < 2 ^ 63
      → r < 256
      → Cells r u
      → cell_step mem addr size r u ≡ some v
      → Cells (suc r) v
  unfolding cell_step
  Cells-round r u v fits few (past, off, total, old) e =
      let (filled, e1) = unguard (part mem addr r == 0) e in
      let (room, e2) = unguard (ltb size ((u.addr_off + l1_size (part mem addr r)) % 2 ^ 64)) e1 in
      let p = part mem addr r in
      let small = part-lt mem addr r in
      let cells = l1_size-lt p in
      let sum : (u.total_item + p) % 2 ^ 64 ≡ u.total_item + p = omega arith in
      let next : (u.addr_off + l1_size p) % 2 ^ 64 ≡ u.addr_off + l1_size p = omega arith in
      let fit : u.addr_off + l1_size p ≤ size = ground (arith, next) in
      let some_items : 0 < p = ground arith in
      subst (Cells (suc r)) (some_inj e2) (
        omega (arith, next),
        omega (arith, next),
        omega (arith, sum),
        λ i l.
            stored (CellsIn i ((u.total_item + p) % 2 ^ 64)) u.segments r i _
              (λ k. rw k (some_items, omega arith, omega arith, refl, omega (arith, sum)))
              (λ k.
                let (a, low, b, c, d) = old i (omega arith) in (a, low, b, c, omega (arith, sum))),
      )

  abbrev pub Sections : ℕ → ℕ → ℕ → Load → Type 0
  Sections n total r s =
      (s.addr_off ≤ size)
      × (s.total_item ≡ total)
      × ((i : ℕ) → i < n → CellsIn i total (s.segments i))
      × ((i : ℕ) → i < r → SectionsIn i (s.segments i))

  pub Sections-round :
      (n total r : ℕ) (u v : Load)
      → size < 2 ^ 63
      → Sections n total r u
      → section_step mem addr size r u ≡ some v
      → Sections n total (suc r) v
  unfolding section_step
  Sections-round n total r u v fits (off, same, cells, old) e =
      let (room, e1) =
        unguard (ltb size ((u.addr_off + section_size (part mem addr r) * 32) % 2 ^ 64)) e in
      let p = part mem addr r in
      let small = section_size-lt p in
      let next : (u.addr_off + section_size p * 32) % 2 ^ 64 ≡ u.addr_off + section_size p * 32 =
        omega arith in
      let fit : u.addr_off + section_size p * 32 ≤ size = ground (arith, next) in
      subst (Sections n total (suc r)) (some_inj e1) (
        omega (arith, next),
        same,
        λ i l.
            stored (CellsIn i total) u.segments r i _ (λ k. rw k (cells r (omega arith)))
              (λ k. cells i l),
        λ i l.
            stored (SectionsIn i) u.segments r i _ (λ k. rw k (omega arith, omega arith))
              (λ k. old i (omega arith)),
      )
