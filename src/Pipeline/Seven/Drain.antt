-- ===== src/Pipeline/Seven/Drain.antt =====
-- The steady state and the draining of the pipeline with 7 stages.
use fast_chd.Base.{ℕ, suc, ◌+◌, ◌-◌, ◌*◌, ◌%◌, ◌<◌, ◌≡◌, refl, ap, ◌∙◌, arith, each, each_inv}
use fast_chd.Pipeline.Ring.{
  Ring, push, read, move, slot_of, slot_two, zero_slot, next-lem, next_at, each_next,
}
use mathlib.Core.Path.{ap₂}
use fast_chd.Pipeline.Seven.{
  State7, main7, drain7_1, drain7_2, drain7_3, drain7_4, drain7_5, drain7_6,
}
use fast_chd.Pipeline.Seven.Fill.{f1, f2, f3, f4, f5, f6, item7, Fill6}

module _ {ℓ} {S1 S2 S3 S4 S5 S6 Out : Type ℓ} (M : ℕ) (p1 : ℕ → S1) (p2 : S1 → ℕ → S2)
    (p3 : S2 → ℕ → S3) (p4 : S3 → ℕ → S4) (p5 : S4 → ℕ → S5) (p6 : S5 → ℕ → S6)
    (p7 : S6 → ℕ → Out → Out) where
  module _ (pos : 0 < M) (out0 : Out) where
    abbrev pub Main : ℕ → State7 M p1 p2 p3 p4 p5 p6 p7 → Type ℓ
    Main r s =
        Ring M s.0 (M * 6 + r) (f1 M p1 p2 p3 p4 p5 p6 p7)
        × Ring M s.1 (M * 5 + r) (f2 M p1 p2 p3 p4 p5 p6 p7)
        × Ring M s.2 (M * 4 + r) (f3 M p1 p2 p3 p4 p5 p6 p7)
        × Ring M s.3 (M * 3 + r) (f4 M p1 p2 p3 p4 p5 p6 p7)
        × Ring M s.4 (M * 2 + r) (f5 M p1 p2 p3 p4 p5 p6 p7)
        × Ring M s.5 (M * 1 + r) (f6 M p1 p2 p3 p4 p5 p6 p7)
        × (s.6 ≡ r % M)
        × (s.7 ≡ each r (item7 M p1 p2 p3 p4 p5 p6 p7) out0)

    main :
        (r : ℕ) (s : State7 M p1 p2 p3 p4 p5 p6 p7)
        → Main r s
        → Main (suc r) (main7 M p1 p2 p3 p4 p5 p6 p7 (M * 6 + r) s)
    unfolding main7 each
    main r (s1, s2, s3, s4, s5, s6, k, out) (h1, h2, h3, h4, h5, h6, hk, ho) = (
      push M pos (hk ∙ slot_of M 6 r) (omega arith) (refl) h1,
      push M pos (hk ∙ slot_of M 5 r) (omega arith)
          (ap₂ p2 (read M h1 (M * 5 + r) k (hk ∙ slot_of M 5 r) (omega arith) (omega arith))
            (omega arith))
          h2,
      push M pos (hk ∙ slot_of M 4 r) (omega arith)
          (ap₂ p3 (read M h2 (M * 4 + r) k (hk ∙ slot_of M 4 r) (omega arith) (omega arith))
            (omega arith))
          h3,
      push M pos (hk ∙ slot_of M 3 r) (omega arith)
          (ap₂ p4 (read M h3 (M * 3 + r) k (hk ∙ slot_of M 3 r) (omega arith) (omega arith))
            (omega arith))
          h4,
      push M pos (hk ∙ slot_of M 2 r) (omega arith)
          (ap₂ p5 (read M h4 (M * 2 + r) k (hk ∙ slot_of M 2 r) (omega arith) (omega arith))
            (omega arith))
          h5,
      push M pos (hk ∙ slot_of M 1 r) (omega arith)
          (ap₂ p6 (read M h5 (M * 1 + r) k (hk ∙ slot_of M 1 r) (omega arith) (omega arith))
            (omega arith))
          h6,
      next-lem M pos k r hk,
      (λ i. p7 (read M h6 r k hk (omega arith) (omega arith) i) (here i) (ho i)),
    )
      where
        here : M * 6 + r - M * 6 ≡ r
        here = omega arith

    pub Main-all :
        (m : ℕ) (s : State7 M p1 p2 p3 p4 p5 p6 p7)
        → Fill6 M p1 p2 p3 p4 p5 p6 p7 pos out0 M s
        → Main m (each m (λ r. main7 M p1 p2 p3 p4 p5 p6 p7 (M * 6 + r)) s)
    unfolding each
    Main-all m s h =
        each_inv Main m _ s
          (
            move M (omega arith) h.0,
            move M (omega arith) h.1,
            move M (omega arith) h.2,
            move M (omega arith) h.3,
            move M (omega arith) h.4,
            move M (omega arith) h.5,
            h.6 ∙ zero_slot M pos,
            h.7,
          )
          (λ r t _ g. main r t g)

    module _ (m : ℕ) where
      abbrev pub Drain1 : ℕ → State7 M p1 p2 p3 p4 p5 p6 p7 → Type ℓ
      Drain1 j s =
          Ring M s.0 (M * 6 + m) (f1 M p1 p2 p3 p4 p5 p6 p7)
          × Ring M s.1 (M * 5 + m + j) (f2 M p1 p2 p3 p4 p5 p6 p7)
          × Ring M s.2 (M * 4 + m + j) (f3 M p1 p2 p3 p4 p5 p6 p7)
          × Ring M s.3 (M * 3 + m + j) (f4 M p1 p2 p3 p4 p5 p6 p7)
          × Ring M s.4 (M * 2 + m + j) (f5 M p1 p2 p3 p4 p5 p6 p7)
          × Ring M s.5 (M * 1 + m + j) (f6 M p1 p2 p3 p4 p5 p6 p7)
          × (s.6 ≡ (M * 0 + m + j) % M)
          × (s.7 ≡ each (M * 0 + m + j) (item7 M p1 p2 p3 p4 p5 p6 p7) out0)

      drain1 :
          (j : ℕ) (s : State7 M p1 p2 p3 p4 p5 p6 p7)
          → j < M
          → Drain1 j s
          → Drain1 (suc j) (drain7_1 M p1 p2 p3 p4 p5 p6 p7 (M * 6 + m) j s)
      unfolding drain7_1
      drain1 j (s1, s2, s3, s4, s5, s6, k, out) l (h1, h2, h3, h4, h5, h6, hk, ho) = (
        h1,
        push M pos (hk ∙ slot_two M 0 5 m j) (omega arith)
            (ap₂ p2
              (read M h1 (M * 5 + m + j) k (hk ∙ slot_two M 0 5 m j) (omega arith) (omega arith))
              (omega arith))
            h2,
        push M pos (hk ∙ slot_two M 0 4 m j) (omega arith)
            (ap₂ p3
              (read M h2 (M * 4 + m + j) k (hk ∙ slot_two M 0 4 m j) (omega arith) (omega arith))
              (omega arith))
            h3,
        push M pos (hk ∙ slot_two M 0 3 m j) (omega arith)
            (ap₂ p4
              (read M h3 (M * 3 + m + j) k (hk ∙ slot_two M 0 3 m j) (omega arith) (omega arith))
              (omega arith))
            h4,
        push M pos (hk ∙ slot_two M 0 2 m j) (omega arith)
            (ap₂ p5
              (read M h4 (M * 2 + m + j) k (hk ∙ slot_two M 0 2 m j) (omega arith) (omega arith))
              (omega arith))
            h5,
        push M pos (hk ∙ slot_two M 0 1 m j) (omega arith)
            (ap₂ p6
              (read M h5 (M * 1 + m + j) k (hk ∙ slot_two M 0 1 m j) (omega arith) (omega arith))
              (omega arith))
            h6,
        next_at M pos k (M * 0 + m + j) hk (omega arith),
        each_next (item7 M p1 p2 p3 p4 p5 p6 p7) out0 (M * 0 + m + j) (omega arith) (λ i.
            p7 (read M h6 (M * 0 + m + j) k hk (omega arith) (omega arith) i) (here i) (ho i)),
      )
        where
          here : M * 6 + m - M * 6 + j ≡ M * 0 + m + j
          here = omega arith

      abbrev pub Drain2 : ℕ → State7 M p1 p2 p3 p4 p5 p6 p7 → Type ℓ
      Drain2 j s =
          Ring M s.1 (M * 6 + m) (f2 M p1 p2 p3 p4 p5 p6 p7)
          × Ring M s.2 (M * 5 + m + j) (f3 M p1 p2 p3 p4 p5 p6 p7)
          × Ring M s.3 (M * 4 + m + j) (f4 M p1 p2 p3 p4 p5 p6 p7)
          × Ring M s.4 (M * 3 + m + j) (f5 M p1 p2 p3 p4 p5 p6 p7)
          × Ring M s.5 (M * 2 + m + j) (f6 M p1 p2 p3 p4 p5 p6 p7)
          × (s.6 ≡ (M * 1 + m + j) % M)
          × (s.7 ≡ each (M * 1 + m + j) (item7 M p1 p2 p3 p4 p5 p6 p7) out0)

      drain2 :
          (j : ℕ) (s : State7 M p1 p2 p3 p4 p5 p6 p7)
          → j < M
          → Drain2 j s
          → Drain2 (suc j) (drain7_2 M p1 p2 p3 p4 p5 p6 p7 (M * 6 + m) j s)
      unfolding drain7_2
      drain2 j (s1, s2, s3, s4, s5, s6, k, out) l (h2, h3, h4, h5, h6, hk, ho) = (
        h2,
        push M pos (hk ∙ slot_two M 1 5 m j) (omega arith)
            (ap₂ p3
              (read M h2 (M * 5 + m + j) k (hk ∙ slot_two M 1 5 m j) (omega arith) (omega arith))
              (omega arith))
            h3,
        push M pos (hk ∙ slot_two M 1 4 m j) (omega arith)
            (ap₂ p4
              (read M h3 (M * 4 + m + j) k (hk ∙ slot_two M 1 4 m j) (omega arith) (omega arith))
              (omega arith))
            h4,
        push M pos (hk ∙ slot_two M 1 3 m j) (omega arith)
            (ap₂ p5
              (read M h4 (M * 3 + m + j) k (hk ∙ slot_two M 1 3 m j) (omega arith) (omega arith))
              (omega arith))
            h5,
        push M pos (hk ∙ slot_two M 1 2 m j) (omega arith)
            (ap₂ p6
              (read M h5 (M * 2 + m + j) k (hk ∙ slot_two M 1 2 m j) (omega arith) (omega arith))
              (omega arith))
            h6,
        next_at M pos k (M * 1 + m + j) hk (omega arith),
        each_next (item7 M p1 p2 p3 p4 p5 p6 p7) out0 (M * 1 + m + j) (omega arith) (λ i.
            p7 (read M h6 (M * 1 + m + j) k hk (omega arith) (omega arith) i) (here i) (ho i)),
      )
        where
          here : M * 6 + m - M * 5 + j ≡ M * 1 + m + j
          here = omega arith

      abbrev pub Drain3 : ℕ → State7 M p1 p2 p3 p4 p5 p6 p7 → Type ℓ
      Drain3 j s =
          Ring M s.2 (M * 6 + m) (f3 M p1 p2 p3 p4 p5 p6 p7)
          × Ring M s.3 (M * 5 + m + j) (f4 M p1 p2 p3 p4 p5 p6 p7)
          × Ring M s.4 (M * 4 + m + j) (f5 M p1 p2 p3 p4 p5 p6 p7)
          × Ring M s.5 (M * 3 + m + j) (f6 M p1 p2 p3 p4 p5 p6 p7)
          × (s.6 ≡ (M * 2 + m + j) % M)
          × (s.7 ≡ each (M * 2 + m + j) (item7 M p1 p2 p3 p4 p5 p6 p7) out0)

      drain3 :
          (j : ℕ) (s : State7 M p1 p2 p3 p4 p5 p6 p7)
          → j < M
          → Drain3 j s
          → Drain3 (suc j) (drain7_3 M p1 p2 p3 p4 p5 p6 p7 (M * 6 + m) j s)
      unfolding drain7_3
      drain3 j (s1, s2, s3, s4, s5, s6, k, out) l (h3, h4, h5, h6, hk, ho) = (
        h3,
        push M pos (hk ∙ slot_two M 2 5 m j) (omega arith)
            (ap₂ p4
              (read M h3 (M * 5 + m + j) k (hk ∙ slot_two M 2 5 m j) (omega arith) (omega arith))
              (omega arith))
            h4,
        push M pos (hk ∙ slot_two M 2 4 m j) (omega arith)
            (ap₂ p5
              (read M h4 (M * 4 + m + j) k (hk ∙ slot_two M 2 4 m j) (omega arith) (omega arith))
              (omega arith))
            h5,
        push M pos (hk ∙ slot_two M 2 3 m j) (omega arith)
            (ap₂ p6
              (read M h5 (M * 3 + m + j) k (hk ∙ slot_two M 2 3 m j) (omega arith) (omega arith))
              (omega arith))
            h6,
        next_at M pos k (M * 2 + m + j) hk (omega arith),
        each_next (item7 M p1 p2 p3 p4 p5 p6 p7) out0 (M * 2 + m + j) (omega arith) (λ i.
            p7 (read M h6 (M * 2 + m + j) k hk (omega arith) (omega arith) i) (here i) (ho i)),
      )
        where
          here : M * 6 + m - M * 4 + j ≡ M * 2 + m + j
          here = omega arith

      abbrev pub Drain4 : ℕ → State7 M p1 p2 p3 p4 p5 p6 p7 → Type ℓ
      Drain4 j s =
          Ring M s.3 (M * 6 + m) (f4 M p1 p2 p3 p4 p5 p6 p7)
          × Ring M s.4 (M * 5 + m + j) (f5 M p1 p2 p3 p4 p5 p6 p7)
          × Ring M s.5 (M * 4 + m + j) (f6 M p1 p2 p3 p4 p5 p6 p7)
          × (s.6 ≡ (M * 3 + m + j) % M)
          × (s.7 ≡ each (M * 3 + m + j) (item7 M p1 p2 p3 p4 p5 p6 p7) out0)

      drain4 :
          (j : ℕ) (s : State7 M p1 p2 p3 p4 p5 p6 p7)
          → j < M
          → Drain4 j s
          → Drain4 (suc j) (drain7_4 M p1 p2 p3 p4 p5 p6 p7 (M * 6 + m) j s)
      unfolding drain7_4
      drain4 j (s1, s2, s3, s4, s5, s6, k, out) l (h4, h5, h6, hk, ho) = (
        h4,
        push M pos (hk ∙ slot_two M 3 5 m j) (omega arith)
            (ap₂ p5
              (read M h4 (M * 5 + m + j) k (hk ∙ slot_two M 3 5 m j) (omega arith) (omega arith))
              (omega arith))
            h5,
        push M pos (hk ∙ slot_two M 3 4 m j) (omega arith)
            (ap₂ p6
              (read M h5 (M * 4 + m + j) k (hk ∙ slot_two M 3 4 m j) (omega arith) (omega arith))
              (omega arith))
            h6,
        next_at M pos k (M * 3 + m + j) hk (omega arith),
        each_next (item7 M p1 p2 p3 p4 p5 p6 p7) out0 (M * 3 + m + j) (omega arith) (λ i.
            p7 (read M h6 (M * 3 + m + j) k hk (omega arith) (omega arith) i) (here i) (ho i)),
      )
        where
          here : M * 6 + m - M * 3 + j ≡ M * 3 + m + j
          here = omega arith

      abbrev pub Drain5 : ℕ → State7 M p1 p2 p3 p4 p5 p6 p7 → Type ℓ
      Drain5 j s =
          Ring M s.4 (M * 6 + m) (f5 M p1 p2 p3 p4 p5 p6 p7)
          × Ring M s.5 (M * 5 + m + j) (f6 M p1 p2 p3 p4 p5 p6 p7)
          × (s.6 ≡ (M * 4 + m + j) % M)
          × (s.7 ≡ each (M * 4 + m + j) (item7 M p1 p2 p3 p4 p5 p6 p7) out0)

      drain5 :
          (j : ℕ) (s : State7 M p1 p2 p3 p4 p5 p6 p7)
          → j < M
          → Drain5 j s
          → Drain5 (suc j) (drain7_5 M p1 p2 p3 p4 p5 p6 p7 (M * 6 + m) j s)
      unfolding drain7_5
      drain5 j (s1, s2, s3, s4, s5, s6, k, out) l (h5, h6, hk, ho) = (
        h5,
        push M pos (hk ∙ slot_two M 4 5 m j) (omega arith)
            (ap₂ p6
              (read M h5 (M * 5 + m + j) k (hk ∙ slot_two M 4 5 m j) (omega arith) (omega arith))
              (omega arith))
            h6,
        next_at M pos k (M * 4 + m + j) hk (omega arith),
        each_next (item7 M p1 p2 p3 p4 p5 p6 p7) out0 (M * 4 + m + j) (omega arith) (λ i.
            p7 (read M h6 (M * 4 + m + j) k hk (omega arith) (omega arith) i) (here i) (ho i)),
      )
        where
          here : M * 6 + m - M * 2 + j ≡ M * 4 + m + j
          here = omega arith

      abbrev pub Drain6 : ℕ → State7 M p1 p2 p3 p4 p5 p6 p7 → Type ℓ
      Drain6 j s =
          Ring M s.5 (M * 6 + m) (f6 M p1 p2 p3 p4 p5 p6 p7)
          × (s.6 ≡ (M * 5 + m + j) % M)
          × (s.7 ≡ each (M * 5 + m + j) (item7 M p1 p2 p3 p4 p5 p6 p7) out0)

      drain6 :
          (j : ℕ) (s : State7 M p1 p2 p3 p4 p5 p6 p7)
          → j < M
          → Drain6 j s
          → Drain6 (suc j) (drain7_6 M p1 p2 p3 p4 p5 p6 p7 (M * 6 + m) j s)
      unfolding drain7_6
      drain6 j (s1, s2, s3, s4, s5, s6, k, out) l (h6, hk, ho) = (
        h6,
        next_at M pos k (M * 5 + m + j) hk (omega arith),
        each_next (item7 M p1 p2 p3 p4 p5 p6 p7) out0 (M * 5 + m + j) (omega arith) (λ i.
            p7 (read M h6 (M * 5 + m + j) k hk (omega arith) (omega arith) i) (here i) (ho i)),
      )
        where
          here : M * 6 + m - M * 1 + j ≡ M * 5 + m + j
          here = omega arith

      pub Drain1-all :
          (s : State7 M p1 p2 p3 p4 p5 p6 p7)
          → Main m s
          → Drain1 M (each M (drain7_1 M p1 p2 p3 p4 p5 p6 p7 (M * 6 + m)) s)
      Drain1-all s h =
          each_inv Drain1 M _ s
            (
              move M (omega arith) h.0,
              move M (omega arith) h.1,
              move M (omega arith) h.2,
              move M (omega arith) h.3,
              move M (omega arith) h.4,
              move M (omega arith) h.5,
              h.6 ∙ ap (λ (y : ℕ). y % M) (omega arith),
              h.7 ∙ ap (λ (y : ℕ). each y (item7 M p1 p2 p3 p4 p5 p6 p7) out0) (omega arith),
            )
            (λ j t l g. drain1 j t l g)

      pub Drain2-all :
          (s : State7 M p1 p2 p3 p4 p5 p6 p7)
          → Drain1 M s
          → Drain2 M (each M (drain7_2 M p1 p2 p3 p4 p5 p6 p7 (M * 6 + m)) s)
      Drain2-all s h =
          each_inv Drain2 M _ s
            (
              move M (omega arith) h.1,
              move M (omega arith) h.2,
              move M (omega arith) h.3,
              move M (omega arith) h.4,
              move M (omega arith) h.5,
              h.6 ∙ ap (λ (y : ℕ). y % M) (omega arith),
              h.7 ∙ ap (λ (y : ℕ). each y (item7 M p1 p2 p3 p4 p5 p6 p7) out0) (omega arith),
            )
            (λ j t l g. drain2 j t l g)

      pub Drain3-all :
          (s : State7 M p1 p2 p3 p4 p5 p6 p7)
          → Drain2 M s
          → Drain3 M (each M (drain7_3 M p1 p2 p3 p4 p5 p6 p7 (M * 6 + m)) s)
      Drain3-all s h =
          each_inv Drain3 M _ s
            (
              move M (omega arith) h.1,
              move M (omega arith) h.2,
              move M (omega arith) h.3,
              move M (omega arith) h.4,
              h.5 ∙ ap (λ (y : ℕ). y % M) (omega arith),
              h.6 ∙ ap (λ (y : ℕ). each y (item7 M p1 p2 p3 p4 p5 p6 p7) out0) (omega arith),
            )
            (λ j t l g. drain3 j t l g)

      pub Drain4-all :
          (s : State7 M p1 p2 p3 p4 p5 p6 p7)
          → Drain3 M s
          → Drain4 M (each M (drain7_4 M p1 p2 p3 p4 p5 p6 p7 (M * 6 + m)) s)
      Drain4-all s h =
          each_inv Drain4 M _ s
            (
              move M (omega arith) h.1,
              move M (omega arith) h.2,
              move M (omega arith) h.3,
              h.4 ∙ ap (λ (y : ℕ). y % M) (omega arith),
              h.5 ∙ ap (λ (y : ℕ). each y (item7 M p1 p2 p3 p4 p5 p6 p7) out0) (omega arith),
            )
            (λ j t l g. drain4 j t l g)

      pub Drain5-all :
          (s : State7 M p1 p2 p3 p4 p5 p6 p7)
          → Drain4 M s
          → Drain5 M (each M (drain7_5 M p1 p2 p3 p4 p5 p6 p7 (M * 6 + m)) s)
      Drain5-all s h =
          each_inv Drain5 M _ s
            (
              move M (omega arith) h.1,
              move M (omega arith) h.2,
              h.3 ∙ ap (λ (y : ℕ). y % M) (omega arith),
              h.4 ∙ ap (λ (y : ℕ). each y (item7 M p1 p2 p3 p4 p5 p6 p7) out0) (omega arith),
            )
            (λ j t l g. drain5 j t l g)

      pub Drain6-all :
          (s : State7 M p1 p2 p3 p4 p5 p6 p7)
          → Drain5 M s
          → Drain6 M (each M (drain7_6 M p1 p2 p3 p4 p5 p6 p7 (M * 6 + m)) s)
      Drain6-all s h =
          each_inv Drain6 M _ s
            (
              move M (omega arith) h.1,
              h.2 ∙ ap (λ (y : ℕ). y % M) (omega arith),
              h.3 ∙ ap (λ (y : ℕ). each y (item7 M p1 p2 p3 p4 p5 p6 p7) out0) (omega arith),
            )
            (λ j t l g. drain6 j t l g)
