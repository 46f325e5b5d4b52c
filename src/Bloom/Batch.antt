-- ===== src/Bloom/Batch.antt =====
-- The batch calls of the filter do what a loop of single calls does, in the order of the keys.
use fast_chd.Base.{
  ℕ, zero, suc, ◌+◌, ◌*◌, ◌%◌, ◌^◌, ◌≤◌, ◌<◌, ◌≡◌, ◌∙◌, refl, sym, ap, arith, bit_and, bit_or,
}
use fast_chd.Base.{Bool, true, false, ◌==◌, ==_iff, if◌then◌else◌, Bool-cases, inl, inr}
use fast_chd.Base.{store, store_self, store_ne, each, each_inv, each_congr, offset_exact}
use fast_chd.Base.Memory.{Memory}
use fast_chd.Base.Digits.{bit, bit-or, bit-and, bit_ext, bit_or-lt}
use fast_chd.Bloom.{
  Step, BloomFilter, calc, covered, test, set, answer, insert_step, batch_test, batch_set,
}
use fast_chd.Bloom.Laws.{test-set, test-set_mono, mask-lt}
use fast_chd.Divisor.{DivisorMr}
use fast_chd.Pipeline.Two.Law.{pipeline2_lem}
use native.Mathlib.Nat.{pow-suc, mod-eq_of_lt, pow-le-pow_right}

below_power : (x : ℕ) → x < 2 ^ x
below_power zero = omega (arith, pow-suc 2 0)
below_power (suc x) = omega (arith, pow-suc 2 x, below_power x)

le_more : (a b : ℕ) → a ≤ a + b
le_more a b = omega arith

le_more' : (a b : ℕ) → a ≤ b + a
le_more' a b = omega arith

-- A word that has the mask's digits does not change when they are set.
or_covered : (x m : ℕ) → m < 2 ^ 64 → bit_and x m ≡ m → bit_or x m ≡ x
or_covered x m fits h =
    let wide : x < 2 ^ (x + 64) =
      omega (arith, below_power x, pow-le-pow_right {n = 2} (omega arith) (le_more x 64)) in
    let wide' : m < 2 ^ (x + 64) =
      omega (arith, pow-le-pow_right {n = 2} (omega arith) (le_more' 64 x)) in
    bit_ext (x + 64) _ x (bit_or-lt (x + 64) x m wide wide') wide
      λ k _. rw bit-or (omega (arith, bit-and x m k, ap (λ (t : ℕ). bit t k) h))

module _ (mem : Memory) (key_len keys : ℕ) where
  -- The address of key `i`.
  abbrev pub nth_key : ℕ → ℕ
  nth_key i = keys + i * key_len

  -- How many of the first `n` keys test true.
  unfoldable pub hits : BloomFilter → ℕ → ℕ
  hits f zero = 0
  hits f (suc n) = if test f mem (nth_key n) key_len then hits f n + 1 else hits f n

  hits-le : (f : BloomFilter) (n : ℕ) → hits f n ≤ n
  unfolding hits
  hits-le f zero = omega arith
  hits-le f (suc n) = ground (arith, hits-le f n)

  -- One round of the loop that calls `set` on key after key.
  abbrev pub set_key : ℕ → BloomFilter → BloomFilter
  set_key i g = (set g mem (nth_key i) key_len).1

  module _ (f : BloomFilter) (out0 : ℕ → Bool) where
    abbrev Answered : ℕ → (ℕ → Bool) × ℕ → Type 0
    Answered r s =
        r < 2 ^ 32
        → (s.1 ≡ hits f r)
          × ((i : ℕ) → i < r → s.0 i ≡ test f mem (nth_key i) key_len)
          × ((i : ℕ) → r ≤ i → s.0 i ≡ out0 i)

    answer_start : Answered 0 (out0, 0)
    unfolding hits
    answer_start = λ _. (refl, λ i l. absurd (omega arith), λ i l. refl)

    answer_eq :
        (o : ℕ → Bool) (h r : ℕ)
        → answer f (calc f.block mem (nth_key r) key_len) r (o, h) ≡ (
          store o r (test f mem (nth_key r) key_len),
          if test f mem (nth_key r) key_len then (h + 1) % 2 ^ 32 else h,
        )
    unfolding answer test
    answer_eq o h r = refl

    counted :
        (h r : ℕ)
        → h ≡ hits f r
        → suc r < 2 ^ 32
        → (if test f mem (nth_key r) key_len then (h + 1) % 2 ^ 32 else h) ≡ hits f (suc r)
    unfolding hits
    counted h r e lim = elim (Bool-cases (test f mem (nth_key r) key_len)) [
      | inl y ↦ rw (y, e) (mod-eq_of_lt (omega (arith, hits-le f r)))
      | inr y ↦ rw (y, e) refl
    ]

    stored :
        (o : ℕ → Bool) (r i : ℕ)
        → ((j : ℕ) → j < r → o j ≡ test f mem (nth_key j) key_len)
        → i < suc r
        → store o r (test f mem (nth_key r) key_len) i ≡ test f mem (nth_key i) key_len
    stored o r i old k = elim (Bool-cases (i == r)) [
      | inl y ↦
          let y' = (==_iff i r).0 y in
          store_self o r (test f mem (nth_key r) key_len) i y'
          ∙ ap (λ (t : ℕ). test f mem (nth_key t) key_len) (sym y')
      | inr y ↦
          store_ne o r (test f mem (nth_key r) key_len) i (λ e. ground arith) ∙ old i (ground arith)
    ]

    answer_round :
        (r : ℕ) (s : (ℕ → Bool) × ℕ)
        → Answered r s
        → Answered (suc r) (answer f (calc f.block mem (nth_key r) key_len) r s)
    answer_round r (o, h) done = rw (answer_eq o h r) λ lim.
        let (n, old, rest) = done (omega arith) in
        (
          counted h r n lim,
          λ i k. stored o r i old k,
          λ i k.
              store_ne o r (test f mem (nth_key r) key_len) i (λ e. omega arith)
              ∙ rest i (omega arith),
        )

  -- For fewer than 2 ^ 32 keys, of at most 2 ^ 32 bytes in all, `batch_test` returns the number of keys that test true, has the answer
  -- for key `i` in `out[i]`, and leaves the rest of `out` alone.
  pub batch_test_lem :
      (f : BloomFilter) (batch : ℕ) (stack : ℕ → Step) (out : ℕ → Bool)
      → batch < 2 ^ 32
      → batch * key_len ≤ 2 ^ 32
      → ((batch_test f mem batch key_len keys stack out).1 ≡ hits f batch)
        × ((i : ℕ)
            → i < batch
            → (batch_test f mem batch key_len keys stack out).0 i ≡ test f mem (nth_key i) key_len)
        × ((i : ℕ) → batch ≤ i → (batch_test f mem batch key_len keys stack out).0 i ≡ out i)
  unfolding batch_test
  batch_test_lem f batch stack out small room =
      rw
        (pipeline2_lem 16 (λ i. calc f.block mem (keys + i * key_len % 2 ^ 32) key_len) (answer f)
            (omega arith) batch stack (out, 0)
          ∙ each_congr batch _ _ (out, 0)
              λ i s l.
                ap (λ (a : ℕ). answer f (calc f.block mem (keys + a) key_len) i s)
                  (offset_exact i batch key_len l room))
        (each_inv (Answered f out) batch _ (out, 0) (answer_start f out)
          (λ r s _ d. answer_round f out r s d) small)

  -- The last stage of `batch_set` on a key, and `set` of that key.
  insert_old :
      (g : BloomFilter) (s : Step) (r : ℕ)
      → s.mask < 2 ^ 64
      → covered g.space s ≡ true
      → insert_step s r g ≡ g
  unfolding insert_step covered
  insert_old g s r fits old =
      rw old (ap (λ (sp : ℕ → ℕ). record g { space = sp }) (λ i. λ j. same j i))
    where
      same : (j : ℕ) → store g.space s.blk (bit_or (g.space s.blk) s.mask) j ≡ g.space j
      same j = elim (Bool-cases (j == s.blk)) [
        | inl e ↦
            let e' = (==_iff j s.blk).0 e in
            store_self g.space s.blk (bit_or (g.space s.blk) s.mask) j e'
            ∙ or_covered (g.space s.blk) s.mask fits ((==_iff _ _).0 old)
            ∙ ap g.space (sym e')
        | inr n ↦ store_ne g.space s.blk (bit_or (g.space s.blk) s.mask) j (λ e. ground arith)
      ]

  abbrev inserted : BloomFilter → Step → BloomFilter
  inserted g s = record g {
    space = store g.space s.blk (bit_or (g.space s.blk) s.mask);
    item = (g.item + 1) % 2 ^ 64;
  }

  insert_fresh :
      (g : BloomFilter) (s : Step) (r : ℕ)
      → covered g.space s ≡ false
      → insert_step s r g ≡ inserted g s
  unfolding insert_step
  insert_fresh g s r fresh = rw fresh refl

  set_old :
      (g : BloomFilter) (r : ℕ)
      → covered g.space (calc g.block mem (nth_key r) key_len) ≡ true
      → (set g mem (nth_key r) key_len).1 ≡ g
  unfolding set
  set_old g r old = rw old refl

  set_fresh :
      (g : BloomFilter) (r : ℕ)
      → covered g.space (calc g.block mem (nth_key r) key_len) ≡ false
      → (set g mem (nth_key r) key_len).1 ≡ inserted g (calc g.block mem (nth_key r) key_len)
  unfolding set
  set_fresh g r fresh = rw fresh refl

  insert_eq :
      (f g : BloomFilter) (r : ℕ)
      → g.block ≡ f.block
      → insert_step (calc f.block mem (nth_key r) key_len) r g ≡ set_key r g
  insert_eq f g r e =
      ap (λ (d : DivisorMr). insert_step (calc d mem (nth_key r) key_len) r g) (sym e)
      ∙ elim (Bool-cases (covered g.space (calc g.block mem (nth_key r) key_len))) [
        | inl old ↦ insert_old g _ r (mask-lt g mem (nth_key r) key_len) old ∙ sym (set_old g r old)
        | inr fresh ↦ insert_fresh g _ r fresh ∙ sym (set_fresh g r fresh)
      ]

  set-block : (g : BloomFilter) (r : ℕ) → (set_key r g).block ≡ g.block
  set-block g r = elim (Bool-cases (covered g.space (calc g.block mem (nth_key r) key_len))) [
    | inl old ↦ ap (λ (h : BloomFilter). h.block) (set_old g r old)
    | inr fresh ↦ ap (λ (h : BloomFilter). h.block) (set_fresh g r fresh)
  ]

  -- For keys of at most 2 ^ 32 bytes in all, `batch_set` leaves the filter that `set` of key after key leaves, counter included.
  pub batch_set_lem :
      (f : BloomFilter) (batch : ℕ) (stack : ℕ → Step)
      → batch * key_len ≤ 2 ^ 32
      → batch_set f mem batch key_len keys stack ≡ each batch set_key f
  unfolding batch_set each
  batch_set_lem f batch stack room =
      pipeline2_lem 16 (λ i. calc f.block mem (keys + i * key_len % 2 ^ 32) key_len) insert_step
        (omega arith) batch stack f
      ∙ each_congr batch _ _ f (λ i g l.
        ap (λ (a : ℕ). insert_step (calc f.block mem (keys + a) key_len) i g)
          (offset_exact i batch key_len l room))
      ∙ (each_inv Same batch _ f (refl, refl) round).1
    where
      Same : ℕ → BloomFilter → Type 0
      Same r g = (g.block ≡ f.block) × (g ≡ each r set_key f)

      round :
          (r : ℕ) (g : BloomFilter)
          → r < batch
          → Same r g
          → Same (suc r) (insert_step (calc f.block mem (nth_key r) key_len) r g)
      round r g l (b, e) = (
        ap (λ (h : BloomFilter). h.block) (insert_eq f g r b) ∙ set-block g r ∙ b,
        insert_eq f g r b ∙ ap (set_key r) e,
      )

  -- No false negative for a batch whose keys have at most 2 ^ 32 bytes in all: after `batch_set` every
  -- key of the batch tests true.
  pub test-batch_set :
      (f : BloomFilter) (batch : ℕ) (stack : ℕ → Step) (i : ℕ)
      → i < batch
      → batch * key_len ≤ 2 ^ 32
      → test (batch_set f mem batch key_len keys stack) mem (nth_key i) key_len ≡ true
  test-batch_set f batch stack i l room =
      rw (batch_set_lem f batch stack room)
        (each_inv Kept batch _ f (λ j k. absurd (omega arith)) round i l)
    where
      Kept : ℕ → BloomFilter → Type 0
      Kept r g = (j : ℕ) → j < r → test g mem (nth_key j) key_len ≡ true

      round : (r : ℕ) (g : BloomFilter) → r < batch → Kept r g → Kept (suc r) (set_key r g)
      round r g _ old j k = elim (Bool-cases (j == r)) [
        | inl e ↦
            let e' = (==_iff j r).0 e in
            ap (λ (t : ℕ). test (set_key r g) mem (nth_key t) key_len) e'
            ∙ test-set g mem (nth_key r) key_len
        | inr n ↦
            test-set_mono g mem mem (nth_key j) key_len (nth_key r) key_len (old j (ground arith))
      ]
