-- ===== src/Hash/Locality.antt =====
-- The hash of a key depends on its bytes alone, and not on where they stand or what stands around them.
use fast_chd.Base.{
  ℕ, zero, suc, ◌+◌, ◌*◌, ◌/◌, ◌%◌, ◌^◌, ◌≤◌, ◌<◌, ◌≡◌, ◌∙◌, refl, ap, arith, bit_and,
}
use fast_chd.Base.{ltb, leb, Bool-cases, inl, inr, each, each_congr, if◌then◌else◌}
use fast_chd.Base.Digits.{bit, bit_and_mask}
use fast_chd.Base.Masks.{bit_and-pow}
use fast_chd.Base.Memory.{Memory, read_le}
use fast_chd.Hash.{
  Words, block, half_block, fall, tail12, tail8, tail4, tail1, tail, end_words, V128, hash_to_128,
  gen_id, magic,
}
use fast_chd.Hash.Word.{add64}

-- The `n` bytes at `a` and the `n` bytes at `b` are the same.
abbrev pub SameBytes : ℕ → Memory → ℕ → Memory → ℕ → Type 0
SameBytes n mem a mem' b = (i : ℕ) → i < n → mem (a + i) ≡ mem' (b + i)

pub read_le_move :
    (n : ℕ) (mem : Memory) (a : ℕ) (mem' : Memory) (b : ℕ)
    → SameBytes n mem a mem' b
    → read_le n mem a ≡ read_le n mem' b
unfolding read_le
read_le_move zero mem a mem' b h = refl
read_le_move (suc n) mem a mem' b h =
    let first : mem a ≡ mem' b = ap mem (omega arith) ∙ h 0 (omega arith) ∙ ap mem' (omega arith) in
    rw
      (
        first,
        read_le_move n mem (a + 1) mem' (b + 1)
            (λ i l. ap mem (omega arith) ∙ h (suc i) (omega arith) ∙ ap mem' (omega arith)),
      )
      refl

module _ (mem : Memory) (a : ℕ) (mem' : Memory) (b : ℕ) where
  -- The part of the bytes from `k` on.
  part : (n k m : ℕ) → k + m ≤ n → SameBytes n mem a mem' b → SameBytes m mem (a + k) mem' (b + k)
  part n k m room h i l = ap mem (omega arith) ∙ h (k + i) (omega arith) ∙ ap mem' (omega arith)

  word :
      (n k m : ℕ)
      → k + m ≤ n
      → SameBytes n mem a mem' b
      → read_le m mem (a + k) ≡ read_le m mem' (b + k)
  word n k m room h = read_le_move m mem (a + k) mem' (b + k) (part n k m room h)

  first_word : (n m : ℕ) → m ≤ n → SameBytes n mem a mem' b → read_le m mem a ≡ read_le m mem' b
  first_word n m room h = read_le_move m mem a mem' b (λ i l. h i (omega arith))

  block_move : (w : Words) → SameBytes 32 mem a mem' b → block mem a w ≡ block mem' b w
  unfolding block
  block_move w h =
      rw
        (
          first_word 32 8 (omega arith) h,
          word 32 8 8 (omega arith) h,
          word 32 16 8 (omega arith) h,
          word 32 24 8 (omega arith) h,
        )
        refl

  half_block_move :
      (w : Words) → SameBytes 16 mem a mem' b → half_block mem a w ≡ half_block mem' b w
  unfolding half_block
  half_block_move w h = rw (first_word 16 8 (omega arith) h, word 16 8 8 (omega arith) h) refl

  module _ (r : ℕ) (same : SameBytes r mem a mem' b) where
    fall_move :
        (n i : ℕ)
        → i < n
        → (k x : ℕ) → fall (leb n r) mem (a + i) k x ≡ fall (leb n r) mem' (b + i) k x
    unfolding fall
    fall_move n i l k x = elim (Bool-cases (leb n r)) [
      | inl passed ↦ rw (passed, same i (ground arith)) refl
      | inr skipped ↦ rw skipped refl
    ]

    tail_move : (w : Words) → tail mem a r w ≡ tail mem' b r w
    unfolding tail tail12 tail8 tail4 tail1
    tail_move w = elim (Bool-cases (leb 12 r)) [
      | inl x ↦
          rw
            (
              x,
              fall_move 15 14 (omega arith),
              fall_move 14 13 (omega arith),
              fall_move 13 12 (omega arith),
              word r 8 4 (ground arith) same,
              first_word r 8 (ground arith) same,
            )
            refl
      | inr x ↦ elim (Bool-cases (leb 8 r)) [
        | inl y ↦
            rw
              (
                x,
                y,
                fall_move 11 10 (omega arith),
                fall_move 10 9 (omega arith),
                fall_move 9 8 (omega arith),
                first_word r 8 (ground arith) same,
              )
              refl
        | inr y ↦ elim (Bool-cases (leb 4 r)) [
          | inl z ↦
              rw
                (
                  x,
                  y,
                  z,
                  fall_move 7 6 (omega arith),
                  fall_move 6 5 (omega arith),
                  fall_move 5 4 (omega arith),
                  first_word r 4 (ground arith) same,
                )
                refl
          | inr z ↦ elim (Bool-cases (leb 1 r)) [
            | inl v ↦
                let first : mem a ≡ mem' b =
                  ap mem (omega arith) ∙ same 0 (ground arith) ∙ ap mem' (omega arith) in
                rw (x, y, z, v, fall_move 3 2 (omega arith), fall_move 2 1 (omega arith), first)
                  refl
            | inr v ↦ rw (x, y, z, v) refl
          ]
        ]
      ]
    ]

-- The bytes that the tests on the length leave for the half block and the tail.
len_odd : (len : ℕ) → bit_and len 0x10 ≡ len / 16 % 2 * 16
len_odd len = bit_and-pow len 4 ∙ ap (λ (t : ℕ). t * 16) (digit len)
  where
    digit : (n : ℕ) → bit n 4 ≡ n / 16 % 2
    digit n = unfold bit in omega arith

-- What is hashed after the whole blocks, for a state and the places that are reached.
abbrev finish : Memory → ℕ → ℕ → Words → V128
finish mem at len w =
    let w3 = record w { h3 = add64 w.h3 (len * 2 ^ 56 % 2 ^ 64) } in
    let w4 = end_words (tail mem at (bit_and len 0xf) w3) in record { l = w4.h0; h = w4.h1 }

abbrev after_blocks : Memory → ℕ → ℕ → Words → V128
after_blocks mem at len w =
    let odd = ltb 0 (bit_and len 0x10) in
    finish mem (if odd then at + 16 else at) len (if odd then half_block mem at w else w)

module _ (mem : Memory) (msg : ℕ) (mem' : Memory) (msg' len : ℕ)
    (same : SameBytes len mem msg mem' msg') where
  finish_move :
      (k : ℕ) (w : Words)
      → k + len % 16 ≤ len
      → finish mem (msg + k) len w ≡ finish mem' (msg' + k) len w
  finish_move k w room =
      let rest : bit_and len 0xf ≡ len % 16 = bit_and_mask 4 len in
      rw rest (
        ap (λ (v : Words). record { l = (end_words v).h0; h = (end_words v).h1 })
          (tail_move mem (msg + k) mem' (msg' + k) (len % 16)
            (part mem msg mem' msg' len k (len % 16) room same) _))

  after_blocks_move :
      (k : ℕ) (w : Words)
      → k + len % 32 ≤ len
      → after_blocks mem (msg + k) len w ≡ after_blocks mem' (msg' + k) len w
  after_blocks_move k w room = elim (Bool-cases (ltb 0 (bit_and len 0x10))) [
    | inl odd ↦
        let many : k + 16 + len % 16 ≤ len = ground (arith, len_odd len) in
        let at : msg + k + 16 ≡ msg + (k + 16) = omega arith in
        let at' : msg' + k + 16 ≡ msg' + (k + 16) = omega arith in
        rw
          (
            odd,
            half_block_move mem (msg + k) mem' (msg' + k) w
                (part mem msg mem' msg' len k 16 (omega arith) same),
            at,
            at',
          )
          (finish_move (k + 16) _ many)
    | inr even ↦ rw even (finish_move k w (ground (arith, len_odd len)))
  ]

  blocks_move :
      (w : Words)
      → each (len / 32) (λ i. block mem (msg + 32 * i)) w
        ≡ each (len / 32) (λ i. block mem' (msg' + 32 * i)) w
  blocks_move w = each_congr (len / 32) _ _ w λ i t l.
      block_move mem (msg + 32 * i) mem' (msg' + 32 * i) t
        (part mem msg mem' msg' len (32 * i) 32 (omega arith) same)

  -- Keys with the same bytes have the same hash, in any two memories and at any two addresses.
  pub hash_to_128_move : (seed : ℕ) → hash_to_128 mem msg len seed ≡ hash_to_128 mem' msg' len seed
  unfolding hash_to_128
  hash_to_128_move seed =
      rw (blocks_move (record { h0 = seed; h1 = seed; h2 = magic; h3 = magic }))
        (after_blocks_move (32 * (len / 32)) _ (omega arith))

  pub gen_id_move : (seed : ℕ) → gen_id seed mem msg len ≡ gen_id seed mem' msg' len
  unfolding gen_id
  gen_id_move seed =
      ap (λ (v : V128). record { u0 = v.l % 2 ^ 32; u1 = v.l / 2 ^ 32 % 2 ^ 32; u2 = v.h % 2 ^ 32 })
        (hash_to_128_move seed)
