-- ===== src/Hash/Mixing.antt =====
-- `Mix` and `End` lose nothing: each line can be undone, so on 64-bit words both are one to one.
use fast_chd.Base.{ℕ, ◌-◌, ◌^◌, ◌≤◌, ◌<◌, ◌≡◌, ◌∙◌, refl, sym, ap, arith, bit_xor}
use fast_chd.Base.Digits.{bit_xor-lt}
use fast_chd.Hash.{
  Words, mix0, mix1, mix2, mix3, mix_round, mix, end0, end1, end2, end3, end_round, end_words,
}
use fast_chd.Hash.Word.{add64, sub64, rot64, add64-lt, sub64-add64, xor_twice, rot64-lt, rot64_back}

abbrev pub IsWords : Words → Type 0
IsWords w = (w.h0 < 2 ^ 64) × (w.h1 < 2 ^ 64) × (w.h2 < 2 ^ 64) × (w.h3 < 2 ^ 64)

-- `f` keeps words words, and has an inverse on them.
abbrev Undone : (Words → Words) → Type 0
Undone f = (g : Words → Words) × ((w : Words) → IsWords w → IsWords (f w) × (g (f w) ≡ w))

then-Undone : (f g : Words → Words) → Undone f → Undone g → Undone (λ w. g (f w))
then-Undone f g (uf, hf) (ug, hg) =
    (λ w. uf (ug w), λ w h. let (a, b) = hf w h in let (c, d) = hg (f w) a in (c, ap uf d ∙ b))

-- A sum with a rotated word, and the word back from it.
sum_back :
    (k x y : ℕ)
    → k ≤ 64
    → x < 2 ^ 64
    → y < 2 ^ 64
    → rot64 (sub64 (add64 (rot64 x k) y) y) (64 - k) ≡ x
sum_back k x y small hx hy =
    ap (λ (t : ℕ). rot64 t (64 - k)) (sub64-add64 (rot64 x k) y (rot64-lt k small x hx) hy)
    ∙ rot64_back k x small hx

unmix0 : ℕ → Words → Words
unmix0 k w = record w { h0 = rot64 (sub64 w.h0 w.h1) (64 - k); h2 = bit_xor w.h2 w.h0 }

mix0-Undone : (k : ℕ) → k ≤ 64 → Undone (mix0 k)
unfolding mix0 unmix0
mix0-Undone k small = (
  unmix0 k,
  λ w (a0, a1, a2, a3). (
    (
      add64-lt (rot64 w.h0 k) w.h1,
      a1,
      bit_xor-lt 64 w.h2 (add64 (rot64 w.h0 k) w.h1) a2 (add64-lt (rot64 w.h0 k) w.h1),
      a3,
    ),
    rw
        (
          sum_back k w.h0 w.h1 small a0 a1,
          xor_twice w.h2 (add64 (rot64 w.h0 k) w.h1) a2 (add64-lt (rot64 w.h0 k) w.h1),
        )
        refl,
  ),
)

unmix1 : ℕ → Words → Words
unmix1 k w = record w { h1 = rot64 (sub64 w.h1 w.h2) (64 - k); h3 = bit_xor w.h3 w.h1 }

mix1-Undone : (k : ℕ) → k ≤ 64 → Undone (mix1 k)
unfolding mix1 unmix1
mix1-Undone k small = (
  unmix1 k,
  λ w (a0, a1, a2, a3). (
    (
      a0,
      add64-lt (rot64 w.h1 k) w.h2,
      a2,
      bit_xor-lt 64 w.h3 (add64 (rot64 w.h1 k) w.h2) a3 (add64-lt (rot64 w.h1 k) w.h2),
    ),
    rw
        (
          sum_back k w.h1 w.h2 small a1 a2,
          xor_twice w.h3 (add64 (rot64 w.h1 k) w.h2) a3 (add64-lt (rot64 w.h1 k) w.h2),
        )
        refl,
  ),
)

unmix2 : ℕ → Words → Words
unmix2 k w = record w { h2 = rot64 (sub64 w.h2 w.h3) (64 - k); h0 = bit_xor w.h0 w.h2 }

mix2-Undone : (k : ℕ) → k ≤ 64 → Undone (mix2 k)
unfolding mix2 unmix2
mix2-Undone k small = (
  unmix2 k,
  λ w (a0, a1, a2, a3). (
    (
      bit_xor-lt 64 w.h0 (add64 (rot64 w.h2 k) w.h3) a0 (add64-lt (rot64 w.h2 k) w.h3),
      a1,
      add64-lt (rot64 w.h2 k) w.h3,
      a3,
    ),
    rw
        (
          sum_back k w.h2 w.h3 small a2 a3,
          xor_twice w.h0 (add64 (rot64 w.h2 k) w.h3) a0 (add64-lt (rot64 w.h2 k) w.h3),
        )
        refl,
  ),
)

unmix3 : ℕ → Words → Words
unmix3 k w = record w { h3 = rot64 (sub64 w.h3 w.h0) (64 - k); h1 = bit_xor w.h1 w.h3 }

mix3-Undone : (k : ℕ) → k ≤ 64 → Undone (mix3 k)
unfolding mix3 unmix3
mix3-Undone k small = (
  unmix3 k,
  λ w (a0, a1, a2, a3). (
    (
      a0,
      bit_xor-lt 64 w.h1 (add64 (rot64 w.h3 k) w.h0) a1 (add64-lt (rot64 w.h3 k) w.h0),
      a2,
      add64-lt (rot64 w.h3 k) w.h0,
    ),
    rw
        (
          sum_back k w.h3 w.h0 small a3 a0,
          xor_twice w.h1 (add64 (rot64 w.h3 k) w.h0) a1 (add64-lt (rot64 w.h3 k) w.h0),
        )
        refl,
  ),
)

unend0 : ℕ → Words → Words
unend0 k w = record w {
  h0 = bit_xor (sub64 w.h0 w.h3) (rot64 w.h3 (64 - k));
  h3 = rot64 w.h3 (64 - k);
}

end0-Undone : (k : ℕ) → k ≤ 64 → Undone (end0 k)
unfolding end0 unend0
end0-Undone k small = (
  unend0 k,
  λ w (a0, a1, a2, a3). (
    (add64-lt (bit_xor w.h0 w.h3) (rot64 w.h3 k), a1, a2, rot64-lt k small w.h3 a3),
    rw
        (
          sub64-add64 (bit_xor w.h0 w.h3) (rot64 w.h3 k) (bit_xor-lt 64 w.h0 w.h3 a0 a3)
              (rot64-lt k small w.h3 a3),
          rot64_back k w.h3 small a3,
          xor_twice w.h0 w.h3 a0 a3,
        )
        refl,
  ),
)

unend1 : ℕ → Words → Words
unend1 k w = record w {
  h1 = bit_xor (sub64 w.h1 w.h0) (rot64 w.h0 (64 - k));
  h0 = rot64 w.h0 (64 - k);
}

end1-Undone : (k : ℕ) → k ≤ 64 → Undone (end1 k)
unfolding end1 unend1
end1-Undone k small = (
  unend1 k,
  λ w (a0, a1, a2, a3). (
    (rot64-lt k small w.h0 a0, add64-lt (bit_xor w.h1 w.h0) (rot64 w.h0 k), a2, a3),
    rw
        (
          sub64-add64 (bit_xor w.h1 w.h0) (rot64 w.h0 k) (bit_xor-lt 64 w.h1 w.h0 a1 a0)
              (rot64-lt k small w.h0 a0),
          rot64_back k w.h0 small a0,
          xor_twice w.h1 w.h0 a1 a0,
        )
        refl,
  ),
)

unend2 : ℕ → Words → Words
unend2 k w = record w {
  h2 = bit_xor (sub64 w.h2 w.h1) (rot64 w.h1 (64 - k));
  h1 = rot64 w.h1 (64 - k);
}

end2-Undone : (k : ℕ) → k ≤ 64 → Undone (end2 k)
unfolding end2 unend2
end2-Undone k small = (
  unend2 k,
  λ w (a0, a1, a2, a3). (
    (a0, rot64-lt k small w.h1 a1, add64-lt (bit_xor w.h2 w.h1) (rot64 w.h1 k), a3),
    rw
        (
          sub64-add64 (bit_xor w.h2 w.h1) (rot64 w.h1 k) (bit_xor-lt 64 w.h2 w.h1 a2 a1)
              (rot64-lt k small w.h1 a1),
          rot64_back k w.h1 small a1,
          xor_twice w.h2 w.h1 a2 a1,
        )
        refl,
  ),
)

unend3 : ℕ → Words → Words
unend3 k w = record w {
  h3 = bit_xor (sub64 w.h3 w.h2) (rot64 w.h2 (64 - k));
  h2 = rot64 w.h2 (64 - k);
}

end3-Undone : (k : ℕ) → k ≤ 64 → Undone (end3 k)
unfolding end3 unend3
end3-Undone k small = (
  unend3 k,
  λ w (a0, a1, a2, a3). (
    (a0, a1, rot64-lt k small w.h2 a2, add64-lt (bit_xor w.h3 w.h2) (rot64 w.h2 k)),
    rw
        (
          sub64-add64 (bit_xor w.h3 w.h2) (rot64 w.h2 k) (bit_xor-lt 64 w.h3 w.h2 a3 a2)
              (rot64-lt k small w.h2 a2),
          rot64_back k w.h2 small a2,
          xor_twice w.h3 w.h2 a3 a2,
        )
        refl,
  ),
)

mix_round-Undone : (i j k l : ℕ) → i ≤ 64 → j ≤ 64 → k ≤ 64 → l ≤ 64 → Undone (mix_round i j k l)
unfolding mix_round
mix_round-Undone i j k l hi hj hk hl =
    then-Undone (λ w. mix0 k (mix3 j (mix2 i w))) (mix1 l)
      (then-Undone (λ w. mix3 j (mix2 i w)) (mix0 k)
        (then-Undone (mix2 i) (mix3 j) (mix2-Undone i hi) (mix3-Undone j hj)) (mix0-Undone k hk))
      (mix1-Undone l hl)

end_round-Undone : (i j k l : ℕ) → i ≤ 64 → j ≤ 64 → k ≤ 64 → l ≤ 64 → Undone (end_round i j k l)
unfolding end_round
end_round-Undone i j k l hi hj hk hl =
    then-Undone (λ w. end1 k (end0 j (end3 i w))) (end2 l)
      (then-Undone (λ w. end0 j (end3 i w)) (end1 k)
        (then-Undone (end3 i) (end0 j) (end3-Undone i hi) (end0-Undone j hj)) (end1-Undone k hk))
      (end2-Undone l hl)

one_to_one :
    (f : Words → Words) → Undone f → (v w : Words) → IsWords v → IsWords w → f v ≡ f w → v ≡ w
one_to_one f (g, h) v w hv hw e = sym (h v hv).1 ∙ ap g e ∙ (h w hw).1

mix-Undone : Undone mix
unfolding mix
mix-Undone =
    then-Undone (λ w. mix_round 54 48 38 37 (mix_round 50 52 30 41 w)) (mix_round 62 34 5 36)
      (then-Undone (mix_round 50 52 30 41) (mix_round 54 48 38 37)
        (mix_round-Undone 50 52 30 41 (omega arith) (omega arith) (omega arith) (omega arith))
        (mix_round-Undone 54 48 38 37 (omega arith) (omega arith) (omega arith) (omega arith)))
      (mix_round-Undone 62 34 5 36 (omega arith) (omega arith) (omega arith) (omega arith))

end_words-Undone : Undone end_words
unfolding end_words
end_words-Undone =
    then-Undone (λ w. end0 25 (end3 32 (end_round 28 9 47 54 (end_round 15 52 26 51 w)))) (end1 63)
      (then-Undone (λ w. end3 32 (end_round 28 9 47 54 (end_round 15 52 26 51 w))) (end0 25)
        (then-Undone (λ w. end_round 28 9 47 54 (end_round 15 52 26 51 w)) (end3 32)
          (then-Undone (end_round 15 52 26 51) (end_round 28 9 47 54)
            (end_round-Undone 15 52 26 51 (omega arith) (omega arith) (omega arith) (omega arith))
            (end_round-Undone 28 9 47 54 (omega arith) (omega arith) (omega arith) (omega arith)))
          (end3-Undone 32 (omega arith)))
        (end0-Undone 25 (omega arith)))
      (end1-Undone 63 (omega arith))

-- Two states of four 64-bit words that `Mix` takes to one state are the same.
pub mix_injective : (v w : Words) → IsWords v → IsWords w → mix v ≡ mix w → v ≡ w
mix_injective v w hv hw e = one_to_one mix mix-Undone v w hv hw e

-- Two states of four 64-bit words that `End` takes to one state are the same.
pub end_words_injective : (v w : Words) → IsWords v → IsWords w → end_words v ≡ end_words w → v ≡ w
end_words_injective v w hv hw e = one_to_one end_words end_words-Undone v w hv hw e
