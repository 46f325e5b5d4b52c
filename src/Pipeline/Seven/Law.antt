-- ===== src/Pipeline/Seven/Law.antt =====
-- With 7 stages the interleaved loops do what a plain loop over the items does.
use fast_chd.Base.{
  ℕ, ◌+◌, ◌-◌, ◌*◌, ◌<◌, ◌≡◌, refl, sym, ap, ◌∙◌, arith, each, each_congr, store, each-store,
}
use fast_chd.Base.{ltb, Bool-cases, inl, inr}
use mathlib.Core.Path.{subst}
use fast_chd.Pipeline.Seven.{
  State7, small7, fill7_1, fill7_2, fill7_3, fill7_4, fill7_5, fill7_6, main7, drain7_1, drain7_2,
  drain7_3, drain7_4, drain7_5, drain7_6, pipeline7,
}
use fast_chd.Pipeline.Seven.Fill.{
  f1, f2, f3, f4, f5, f6, item7, Fill1-all, Fill2-all, Fill3-all, Fill4-all, Fill5-all, Fill6-all,
}
use fast_chd.Pipeline.Seven.Drain.{
  Main-all, Drain1-all, Drain2-all, Drain3-all, Drain4-all, Drain5-all, Drain6-all,
}

module _ {ℓ} {S1 S2 S3 S4 S5 S6 Out : Type ℓ} (M : ℕ) (p1 : ℕ → S1) (p2 : S1 → ℕ → S2)
    (p3 : S2 → ℕ → S3) (p4 : S3 → ℕ → S4) (p5 : S4 → ℕ → S5) (p6 : S5 → ℕ → S6)
    (p7 : S6 → ℕ → Out → Out) where
  small-each :
      (n : ℕ) (c1 : ℕ → S1) (c2 : ℕ → S2) (c3 : ℕ → S3) (c4 : ℕ → S4) (c5 : ℕ → S5) (c6 : ℕ → S6)
      (out : Out)
      → small7 M p1 p2 p3 p4 p5 p6 p7 n c1 c2 c3 c4 c5 c6 out
        ≡ each n (item7 M p1 p2 p3 p4 p5 p6 p7) out
  unfolding small7
  small-each n c1 c2 c3 c4 c5 c6 out =
      each_congr n _ (item7 M p1 p2 p3 p4 p5 p6 p7) out λ i o l. λ k. p7 (h6 i l k) i o
    where
      d1 : ℕ → S1
      d1 = each n (λ i c. store c i (p1 i)) c1

      h1 : (i : ℕ) → i < n → d1 i ≡ (f1 M p1 p2 p3 p4 p5 p6 p7) i
      h1 i l = each-store n p1 c1 i l

      d2 : ℕ → S2
      d2 = each n (λ i c. store c i (p2 (d1 i) i)) c2

      h2 : (i : ℕ) → i < n → d2 i ≡ (f2 M p1 p2 p3 p4 p5 p6 p7) i
      h2 i l = each-store n (λ x. p2 (d1 x) x) c2 i l ∙ (λ k. p2 (h1 i l k) i)

      d3 : ℕ → S3
      d3 = each n (λ i c. store c i (p3 (d2 i) i)) c3

      h3 : (i : ℕ) → i < n → d3 i ≡ (f3 M p1 p2 p3 p4 p5 p6 p7) i
      h3 i l = each-store n (λ x. p3 (d2 x) x) c3 i l ∙ (λ k. p3 (h2 i l k) i)

      d4 : ℕ → S4
      d4 = each n (λ i c. store c i (p4 (d3 i) i)) c4

      h4 : (i : ℕ) → i < n → d4 i ≡ (f4 M p1 p2 p3 p4 p5 p6 p7) i
      h4 i l = each-store n (λ x. p4 (d3 x) x) c4 i l ∙ (λ k. p4 (h3 i l k) i)

      d5 : ℕ → S5
      d5 = each n (λ i c. store c i (p5 (d4 i) i)) c5

      h5 : (i : ℕ) → i < n → d5 i ≡ (f5 M p1 p2 p3 p4 p5 p6 p7) i
      h5 i l = each-store n (λ x. p5 (d4 x) x) c5 i l ∙ (λ k. p5 (h4 i l k) i)

      d6 : ℕ → S6
      d6 = each n (λ i c. store c i (p6 (d5 i) i)) c6

      h6 : (i : ℕ) → i < n → d6 i ≡ (f6 M p1 p2 p3 p4 p5 p6 p7) i
      h6 i l = each-store n (λ x. p6 (d5 x) x) c6 i l ∙ (λ k. p6 (h5 i l k) i)

  module _ (pos : 0 < M) (out0 : Out) where
    loops :
        (m : ℕ) (s : State7 M p1 p2 p3 p4 p5 p6 p7)
        → (s.6 ≡ 0)
        → (s.7 ≡ out0)
        → ((each M (drain7_6 M p1 p2 p3 p4 p5 p6 p7 (M * 6 + m)) (
            each M (drain7_5 M p1 p2 p3 p4 p5 p6 p7 (M * 6 + m)) (
              each M (drain7_4 M p1 p2 p3 p4 p5 p6 p7 (M * 6 + m)) (
                each M (drain7_3 M p1 p2 p3 p4 p5 p6 p7 (M * 6 + m)) (
                  each M (drain7_2 M p1 p2 p3 p4 p5 p6 p7 (M * 6 + m)) (
                    each M (drain7_1 M p1 p2 p3 p4 p5 p6 p7 (M * 6 + m)) (
                      each m
                        (λ r. main7 M p1 p2 p3 p4 p5 p6 p7 (M * 6 + r))
                        (each M (fill7_6 M p1 p2 p3 p4 p5 p6 p7) (
                          each M (fill7_5 M p1 p2 p3 p4 p5 p6 p7) (
                            each M (fill7_4 M p1 p2 p3 p4 p5 p6 p7) (
                              each M (fill7_3 M p1 p2 p3 p4 p5 p6 p7) (
                                each M
                                  (fill7_2 M p1 p2 p3 p4 p5 p6 p7)
                                  (each M (fill7_1 M p1 p2 p3 p4 p5 p6 p7) s))))))))))))).7)
          ≡ each (M * 6 + m) (item7 M p1 p2 p3 p4 p5 p6 p7) out0
    loops m s k0 o0 =
        let e = Drain6-all M p1 p2 p3 p4 p5 p6 p7 pos out0 m _ (
          Drain5-all M p1 p2 p3 p4 p5 p6 p7 pos out0 m _ (
            Drain4-all M p1 p2 p3 p4 p5 p6 p7 pos out0 m _ (
              Drain3-all M p1 p2 p3 p4 p5 p6 p7 pos out0 m _ (
                Drain2-all M p1 p2 p3 p4 p5 p6 p7 pos out0 m _ (
                  Drain1-all M p1 p2 p3 p4 p5 p6 p7 pos out0 m _ (
                    Main-all M p1 p2 p3 p4 p5 p6 p7 pos out0 m _ (
                      Fill6-all M p1 p2 p3 p4 p5 p6 p7 pos out0 _ (
                        Fill5-all M p1 p2 p3 p4 p5 p6 p7 pos out0 _ (
                          Fill4-all M p1 p2 p3 p4 p5 p6 p7 pos out0 _ (
                            Fill3-all M p1 p2 p3 p4 p5 p6 p7 pos out0 _ (
                              Fill2-all M p1 p2 p3 p4 p5 p6 p7 pos out0 _
                                (Fill1-all M p1 p2 p3 p4 p5 p6 p7 pos out0 s k0 o0)))))))))))) in
        e.2 ∙ ap (λ (y : ℕ). each y (item7 M p1 p2 p3 p4 p5 p6 p7) out0) (omega arith)

    loops_sub :
        (m : ℕ) (s : State7 M p1 p2 p3 p4 p5 p6 p7)
        → (s.6 ≡ 0)
        → (s.7 ≡ out0)
        → ((each M (drain7_6 M p1 p2 p3 p4 p5 p6 p7 (M * 6 + m)) (
            each M (drain7_5 M p1 p2 p3 p4 p5 p6 p7 (M * 6 + m)) (
              each M (drain7_4 M p1 p2 p3 p4 p5 p6 p7 (M * 6 + m)) (
                each M (drain7_3 M p1 p2 p3 p4 p5 p6 p7 (M * 6 + m)) (
                  each M (drain7_2 M p1 p2 p3 p4 p5 p6 p7 (M * 6 + m)) (
                    each M (drain7_1 M p1 p2 p3 p4 p5 p6 p7 (M * 6 + m)) (
                      each
                        (M * 6 + m - M * 6)
                        (λ r. main7 M p1 p2 p3 p4 p5 p6 p7 (M * 6 + r))
                        (each M (fill7_6 M p1 p2 p3 p4 p5 p6 p7) (
                          each M (fill7_5 M p1 p2 p3 p4 p5 p6 p7) (
                            each M (fill7_4 M p1 p2 p3 p4 p5 p6 p7) (
                              each M (fill7_3 M p1 p2 p3 p4 p5 p6 p7) (
                                each M
                                  (fill7_2 M p1 p2 p3 p4 p5 p6 p7)
                                  (each M (fill7_1 M p1 p2 p3 p4 p5 p6 p7) s))))))))))))).7)
          ≡ each (M * 6 + m) (item7 M p1 p2 p3 p4 p5 p6 p7) out0
    loops_sub m s k0 o0 = let e : M * 6 + m - M * 6 ≡ m = omega arith in rw e (loops m s k0 o0)

  -- For every number of items, every positive ring size and whatever the rings held before, the
  -- pipeline of seven stages ends as a plain loop does that takes each item through all the stages.
  pub pipeline7_lem :
      0 < M
      → (n : ℕ) (s1 : ℕ → S1) (s2 : ℕ → S2) (s3 : ℕ → S3) (s4 : ℕ → S4) (s5 : ℕ → S5) (s6 : ℕ → S6)
        (out : Out)
      → pipeline7 M p1 p2 p3 p4 p5 p6 p7 n s1 s2 s3 s4 s5 s6 out
        ≡ each n (item7 M p1 p2 p3 p4 p5 p6 p7) out
  unfolding pipeline7
  pipeline7_lem pos n s1 s2 s3 s4 s5 s6 out = elim (Bool-cases (ltb n (M * 6))) [
    | inl few ↦ rw few (small-each n s1 s2 s3 s4 s5 s6 out)
    | inr many ↦
        let e : n ≡ M * 6 + (n - M * 6) = ground arith in
        rw many (
          subst
            (λ (y : ℕ).
              (each M (drain7_6 M p1 p2 p3 p4 p5 p6 p7 y) (
                each M (drain7_5 M p1 p2 p3 p4 p5 p6 p7 y) (
                  each M (drain7_4 M p1 p2 p3 p4 p5 p6 p7 y) (
                    each M (drain7_3 M p1 p2 p3 p4 p5 p6 p7 y) (
                      each M (drain7_2 M p1 p2 p3 p4 p5 p6 p7 y) (
                        each M (drain7_1 M p1 p2 p3 p4 p5 p6 p7 y) (
                          each (y - M * 6) (λ r. main7 M p1 p2 p3 p4 p5 p6 p7 (M * 6 + r))
                            (each M (fill7_6 M p1 p2 p3 p4 p5 p6 p7) (
                              each M (fill7_5 M p1 p2 p3 p4 p5 p6 p7) (
                                each M (fill7_4 M p1 p2 p3 p4 p5 p6 p7) (
                                  each M (fill7_3 M p1 p2 p3 p4 p5 p6 p7) (
                                    each M (fill7_2 M p1 p2 p3 p4 p5 p6 p7) (
                                      each M (fill7_1 M p1 p2 p3 p4 p5 p6 p7)
                                        (s1, s2, s3, s4, s5, s6, 0, out)))))))))))))).7
              ≡ each y (item7 M p1 p2 p3 p4 p5 p6 p7) out)
            (sym e) (loops_sub pos out (n - M * 6) (s1, s2, s3, s4, s5, s6, 0, out) refl refl))
  ]
