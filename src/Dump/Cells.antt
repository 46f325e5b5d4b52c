-- ===== src/Dump/Cells.antt =====
-- The two loops of `CreatePackView` on a file that is long enough: they do not return early, and give
-- every segment the place of its arrays.
use fast_chd.Base.{
  ℕ, zero, suc, ◌+◌, ◌*◌, ◌%◌, ◌^◌, ◌≤◌, ◌<◌, ◌≡◌, ◌∙◌, refl, arith, ltb, ◌==◌, ==_iff, Bool-cases,
  inl, inr, Option, some,
}
use fast_chd.Base.{store, store_self, store_ne, false}
use fast_chd.Base.Memory.{Memory}
use fast_chd.Divisor.{mr_init}
use fast_chd.Dump.Reading.{sums, sums-le}
use fast_chd.Format.{l1_size, l1_band, l2_size, section_size}
use fast_chd.Mapping.Small.{pick_else}
use fast_chd.Pack.{Load, part, cell_step, section_step, try_each}
use fast_chd.Table.{SegmentView}

-- A loop whose rounds all go through.
try_each_run :
    (P : ℕ → Load → Type 0) (n : ℕ) (f : ℕ → Load → Option Load) (s : Load)
    → P 0 s
    → ((r : ℕ) (u : Load) → r < n → P r u → (v : Load) × (f r u ≡ some v) × P (suc r) v)
    → (t : Load) × (try_each n f s ≡ some t) × P n t
unfolding try_each
try_each_run P zero f s h go = (s, refl, h)
try_each_run P (suc n) f s h go =
    let (u, e, hu) = try_each_run P n f s h (λ r t l. go r t (omega arith)) in
    let (v, e2, hv) = go n u (omega arith) hu in (v, rw (try_each, e) e2, hv)

module _ (mem : Memory) (addr : ℕ) where
  abbrev pub cells_before : ℕ → ℕ
  cells_before i = sums (λ k. l1_size (part mem addr k)) i

  abbrev pub items_before : ℕ → ℕ
  items_before i = sums (λ k. part mem addr k) i

  abbrev pub sections_before : ℕ → ℕ
  sections_before i = sums (λ k. 32 * section_size (part mem addr k)) i

  module _ (size base : ℕ) where
    -- What the loops make of a segment.
    abbrev pub bare : ℕ → SegmentView
    bare i = record {
      cells = addr + (base + cells_before i);
      sections = 0;
      l1bd = mr_init 64 (l1_band (part mem addr i));
      l2sz = mr_init 64 (l2_size (part mem addr i));
      offset = items_before i;
    }

    abbrev pub whole : ℕ → ℕ → SegmentView
    whole aligned i = record (bare i) { sections = addr + (aligned + sections_before i) }

    pub record First (r : ℕ) (s : Load) : Type 0 where
      pub off : s.addr_off ≡ base + cells_before r
      pub total : s.total_item ≡ items_before r
      pub each_one : (i : ℕ) → i < r → s.segments i ≡ bare i

    First-round :
        (n r : ℕ) (u : Load)
        → size < 2 ^ 63
        → base + cells_before n ≤ size
        → items_before n < 2 ^ 63
        → ((i : ℕ) → i < n → 0 < part mem addr i)
        → r < n
        → First r u
        → (v : Load) × (cell_step mem addr size r u ≡ some v) × First (suc r) v
    unfolding cell_step
    First-round n r u fits room few pos lt h =
        let p = part mem addr r in
        let more = sums-le (λ k. l1_size (part mem addr k)) (suc r) n (omega arith) in
        let more_items = sums-le (λ k. part mem addr k) (suc r) n (omega arith) in
        let next : (u.addr_off + l1_size p) % 2 ^ 64 ≡ base + cells_before (suc r) =
          omega (arith, h.off) in
        let sum : (u.total_item + p) % 2 ^ 64 ≡ items_before (suc r) = omega (arith, h.total) in
        let filled : (p == 0) ≡ false = ground (arith, pos r lt) in
        let enough : ltb size ((u.addr_off + l1_size p) % 2 ^ 64) ≡ false = ground (arith, next) in
        (
          record {
            addr_off = (u.addr_off + l1_size p) % 2 ^ 64;
            total_item = (u.total_item + p) % 2 ^ 64;
            segments = store u.segments r (record {
              cells = addr + u.addr_off;
              sections = 0;
              l1bd = mr_init 64 (l1_band p);
              l2sz = mr_init 64 (l2_size p);
              offset = u.total_item;
            });
          },
          pick_else _ _ filled ∙ pick_else _ _ enough,
          record {
            off = next;
            total = sum;
            each_one = λ i l. elim (Bool-cases (i == r)) [
              | inl e ↦
                  let e' = (==_iff i r).0 e in
                  store_self u.segments r _ i e' ∙ rw (e', h.off, h.total) refl
              | inr ne ↦ store_ne u.segments r _ i (λ e. ground arith) ∙ h.each_one i (ground arith)
            ];
          },
        )

    pub cells_run :
        (n : ℕ) (s : Load)
        → size < 2 ^ 63
        → base + cells_before n ≤ size
        → items_before n < 2 ^ 63
        → ((i : ℕ) → i < n → 0 < part mem addr i)
        → s.addr_off ≡ base
        → s.total_item ≡ 0
        → (t : Load) × (try_each n (cell_step mem addr size) s ≡ some t) × First n t
    cells_run n s fits room few pos off total =
        try_each_run First n (cell_step mem addr size) s
          (record { off = omega arith; total = total; each_one = λ i l. absurd (omega arith) })
          (λ r u l h. First-round n r u fits room few pos l h)

    pub record Second (aligned n r : ℕ) (s : Load) : Type 0 where
      pub off : s.addr_off ≡ aligned + sections_before r
      pub total : s.total_item ≡ items_before n
      pub done : (i : ℕ) → i < r → s.segments i ≡ whole aligned i
      pub waiting : (i : ℕ) → r ≤ i → i < n → s.segments i ≡ bare i

    Second-round :
        (aligned n r : ℕ) (u : Load)
        → size < 2 ^ 63
        → aligned + sections_before n ≤ size
        → r < n
        → Second aligned n r u
        → (v : Load) × (section_step mem addr size r u ≡ some v) × Second aligned n (suc r) v
    unfolding section_step
    Second-round aligned n r u fits room lt h =
        let p = part mem addr r in
        let more = sums-le (λ k. 32 * section_size (part mem addr k)) (suc r) n (omega arith) in
        let next : (u.addr_off + section_size p * 32) % 2 ^ 64 ≡ aligned + sections_before (suc r) =
          omega (arith, h.off) in
        let enough : ltb size ((u.addr_off + section_size p * 32) % 2 ^ 64) ≡ false =
          ground (arith, next) in
        (
          record u {
            addr_off = (u.addr_off + section_size p * 32) % 2 ^ 64;
            segments = store u.segments r (record (u.segments r) { sections = addr + u.addr_off });
          },
          pick_else _ _ enough,
          record {
            off = next;
            total = h.total;
            done = λ i l. elim (Bool-cases (i == r)) [
              | inl e ↦
                  let e' = (==_iff i r).0 e in
                  store_self u.segments r _ i e' ∙ rw (e', h.off, h.waiting r (omega arith) lt) refl
              | inr ne ↦ store_ne u.segments r _ i (λ e. ground arith) ∙ h.done i (ground arith)
            ];
            waiting = λ i lo hi.
                store_ne u.segments r _ i (λ e. omega arith) ∙ h.waiting i (omega arith) hi;
          },
        )

    pub sections_run :
        (aligned n : ℕ) (s : Load)
        → size < 2 ^ 63
        → aligned + sections_before n ≤ size
        → First n s
        → (t : Load) × (try_each n (section_step mem addr size) (record s { addr_off = aligned })
            ≡ some t)
          × Second aligned n n t
    sections_run aligned n s fits room h =
        try_each_run (Second aligned n) n (section_step mem addr size)
          (record s { addr_off = aligned })
          (record {
            off = omega arith;
            total = h.total;
            done = λ i l. absurd (omega arith);
            waiting = λ i lo hi. h.each_one i hi;
          })
          (λ r u l k. Second-round aligned n r u fits room l k)
