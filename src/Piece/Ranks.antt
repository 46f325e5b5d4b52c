-- ===== src/Piece/Ranks.antt =====
-- The sections that are written count the ones of the bitmap before them, and hold its bytes.
use fast_chd.Base.{
  ℕ, zero, suc, ◌+◌, ◌-◌, ◌*◌, ◌/◌, ◌%◌, ◌^◌, ◌≤◌, ◌<◌, ◌≡◌, ◌∙◌, refl, sym, ap, arith, Bool-cases,
  ◌⊎◌, inl, inr, ltb, each, each_inv, store, store_self,
}
use fast_chd.Base.Memory.{
  Memory, read_le, store_le, store_le_frame, read_le_congr, read_le-store_le,
}
use fast_chd.Bitmap.{Bytes}
use fast_chd.Piece.{Counting, section_step, sections, zeros}
use fast_chd.Table.{pop_count}
use fast_chd.Table.Rank.{ones, ones-le, ones_next, bit-read_le}

-- Counting the ones of a word counts those of its bytes.
pop_read :
    (n : ℕ) (mem : Memory) (a m : ℕ) → m ≤ 8 * n → pop_count m (read_le n mem a) ≡ ones mem a m
unfolding pop_count ones
pop_read n mem a zero h = refl
pop_read n mem a (suc m) h =
    omega (arith, pop_read n mem a m (omega arith), bit-read_le n mem a m (omega arith))

ones-add :
    (mem : Memory) (a k m : ℕ) → ones mem a (8 * k + m) ≡ ones mem a (8 * k) + ones mem (a + k) m
unfolding ones
ones-add mem a k zero = let e : 8 * k + 0 ≡ 8 * k = omega arith in rw e (omega arith)
ones-add mem a k (suc m) =
    let e : 8 * k + suc m ≡ suc (8 * k + m) = omega arith in
    let byte : a + (8 * k + m) / 8 ≡ a + k + m / 8 = omega arith in
    let digit : (8 * k + m) % 8 ≡ m % 8 = omega arith in
    rw e (rw (ones_next, byte, digit) (omega (arith, ones-add mem a k m)))

pub ones_split :
    (mem : Memory) (a t u m c : ℕ)
    → t ≡ u + m
    → 8 * (c - a) ≡ u
    → a ≤ c
    → ones mem a t ≡ ones mem a u + ones mem c m
ones_split mem a t u m c e f l =
    let c' : a + (c - a) ≡ c = omega arith in
    let t' : 8 * (c - a) + m ≡ t = omega arith in
    ap (ones mem a) (sym t') ∙ ones-add mem a (c - a) m ∙ rw (f, c') refl

-- A word that is copied carries its bytes over.
copied :
    (n : ℕ) (mem from : Memory) (a b j : ℕ)
    → j < n
    → store_le n mem a (read_le n from b) (a + j) ≡ from (b + j) % 256
unfolding read_le store_le
copied zero mem from a b j h = absurd (omega arith)
copied (suc n) mem from a b zero h =
    let v = from b % 256 + 256 * read_le n from (b + 1) in
    let e : a + 0 ≡ a = omega arith in
    let f : b + 0 ≡ b = omega arith in
    rw (e, f)
      (store_le_frame n (store mem a (v % 256)) (a + 1) (v / 256) a (inl (omega arith))
        ∙ store_self mem a (v % 256) a refl
        ∙ omega arith)
copied (suc n) mem from a b (suc j) h =
    let v = from b % 256 + 256 * read_le n from (b + 1) in
    let e : a + suc j ≡ a + 1 + j = omega arith in
    let f : b + suc j ≡ b + 1 + j = omega arith in
    let rest : v / 256 ≡ read_le n from (b + 1) = omega arith in
    rw (e, f, rest) (copied n (store mem a (v % 256)) from (a + 1) (b + 1) j (omega arith))

module _ (bits : Bytes) where
  -- The ones of one section.
  section_ones :
      (i : ℕ)
      → ones bits 0 (224 * suc i)
        ≡ ones bits 0 (224 * i)
          + (pop_count 32 (read_le 4 bits (28 * i))
              + (pop_count 64 (read_le 8 bits (28 * i + 4))
                  + pop_count 64 (read_le 8 bits (28 * i + 12))
                  + pop_count 64 (read_le 8 bits (28 * i + 20))))
  section_ones i =
      let b = 28 * i in
      rw
        (
          pop_read 4 bits b 32 (omega arith),
          pop_read 8 bits (b + 4) 64 (omega arith),
          pop_read 8 bits (b + 12) 64 (omega arith),
          pop_read 8 bits (b + 20) 64 (omega arith),
        )
        (omega (
          arith,
          ones_split bits 0 (224 * suc i) (224 * i) 224 b (omega arith) (omega arith) (omega arith),
          ones_split bits b 224 32 192 (b + 4) (omega arith) (omega arith) (omega arith),
          ones_split bits (b + 4) 192 64 128 (b + 12) (omega arith) (omega arith) (omega arith),
          ones_split bits (b + 12) 128 64 64 (b + 20) (omega arith) (omega arith) (omega arith),
        ))

  Step-next :
      (i : ℕ) (s : Counting)
      → 224 * suc i < 2 ^ 32
      → s.step ≡ ones bits 0 (224 * i)
      → (section_step bits i s).step ≡ ones bits 0 (224 * suc i)
  unfolding section_step
  Step-next i s small h = rw h (omega (arith, section_ones i, ones-le bits 0 (224 * suc i)))

  -- The seven words of a section.
  abbrev words : ℕ → ℕ → Memory → Memory
  words i n mem =
      each n (λ k m. store_le 4 m (32 * i + 4 * k) (read_le 4 bits (28 * i + 4 * k))) mem

  words_frame :
      (i n : ℕ) (mem : Memory) (q : ℕ)
      → (q < 32 * i) ⊎ (32 * i + 4 * n ≤ q)
      → words i n mem q ≡ mem q
  unfolding each
  words_frame i zero mem q h = refl
  words_frame i (suc n) mem q h =
      store_le_frame 4 (words i n mem) (32 * i + 4 * n) (read_le 4 bits (28 * i + 4 * n)) q
        (ground arith)
      ∙ words_frame i n mem q (ground arith)

  words_copy :
      (i n : ℕ) (mem : Memory) (j : ℕ)
      → j < 4 * n
      → words i n mem (32 * i + j) ≡ bits (28 * i + j) % 256
  unfolding each
  words_copy i zero mem j h = absurd (omega arith)
  words_copy i (suc n) mem j h = elim (Bool-cases (ltb j (4 * n))) [
    | inl old ↦
        store_le_frame 4 (words i n mem) (32 * i + 4 * n) (read_le 4 bits (28 * i + 4 * n))
          (32 * i + j) (ground arith)
        ∙ words_copy i n mem j (ground arith)
    | inr new ↦
        let ge : 4 * n ≤ j = ground arith in
        let here : 32 * i + 4 * n + (j - 4 * n) ≡ 32 * i + j = omega arith in
        let there : 28 * i + 4 * n + (j - 4 * n) ≡ 28 * i + j = omega arith in
        ap (λ (t : ℕ). words i (suc n) mem t) (sym here)
        ∙ copied 4 (words i n mem) bits (32 * i + 4 * n) (28 * i + 4 * n) (j - 4 * n) (omega arith)
        ∙ ap (λ (t : ℕ). bits t % 256) there
  ]

  -- What the first `n` sections hold.
  abbrev pub Counted : ℕ → Memory → Type 0
  Counted n out =
      (i : ℕ)
      → i < n
      → (read_le 4 out (32 * i + 28) ≡ ones bits 0 (224 * i))
        × ((j : ℕ) → j < 28 → out (32 * i + j) ≡ bits (28 * i + j) % 256)

  Counted-next :
      (r : ℕ) (s : Counting)
      → 224 * suc r < 2 ^ 32
      → s.step ≡ ones bits 0 (224 * r)
      → Counted r s.out
      → Counted (suc r) (section_step bits r s).out
  unfolding section_step
  Counted-next r s small h old i l = elim (Bool-cases (ltb i r)) [
    | inl less ↦
        let (step, copy) = old i (ground arith) in
        let same : (q : ℕ)
            → q < 32 * r
            → words r 7 (store_le 4 s.out (32 * r + 28) s.step) q ≡ s.out q =
          λ q lt.
            words_frame r 7 (store_le 4 s.out (32 * r + 28) s.step) q (inl lt)
            ∙ store_le_frame 4 s.out (32 * r + 28) s.step q (inl (omega arith)) in
        (
          read_le_congr 4 (words r 7 (store_le 4 s.out (32 * r + 28) s.step)) s.out (32 * i + 28)
                (λ q _ b. same q (ground (arith, b)))
              ∙ step,
          λ j c. same (32 * i + j) (ground (arith, c)) ∙ copy j c,
        )
    | inr eq ↦
        let e : i ≡ r = ground arith in
        rw e (
          read_le_congr 4 (words r 7 (store_le 4 s.out (32 * r + 28) s.step))
                (store_le 4 s.out (32 * r + 28) s.step) (32 * r + 28)
                (λ q a _.
                  words_frame r 7 (store_le 4 s.out (32 * r + 28) s.step) q (inr (omega arith)))
              ∙ read_le-store_le 4 s.out (32 * r + 28) s.step
              ∙ omega (arith, ones-le bits 0 (224 * r), h),
          λ j c. words_copy r 7 (store_le 4 s.out (32 * r + 28) s.step) j c,
        )
  ]

  pub sections_lem :
      (n : ℕ)
      → 224 * n < 2 ^ 32
      → ((sections bits n).step ≡ ones bits 0 (224 * n)) × Counted n (sections bits n).out
  unfolding sections ones
  sections_lem n small =
      each_inv (λ r t. (t.step ≡ ones bits 0 (224 * r)) × Counted r t.out) n (section_step bits)
        (record { step = 0; out = zeros }) (refl, λ i l. absurd (omega arith))
        (λ r t l (a, b). (Step-next r t (omega arith) a, Counted-next r t (omega arith) a b))
