-- ===== src/Pipeline/Seven/Fill.antt =====
-- Filling the rings of the pipeline with 7 stages.
use fast_chd.Base.{ℕ, suc, ◌+◌, ◌*◌, ◌<◌, ◌≡◌, refl, arith, each, each_inv}
use fast_chd.Pipeline.Ring.{Ring, push, read, move, slot, empty}
use mathlib.Core.Path.{ap₂}
use fast_chd.Pipeline.Seven.{State7, fill7_1, fill7_2, fill7_3, fill7_4, fill7_5, fill7_6}

module _ {ℓ} {S1 S2 S3 S4 S5 S6 Out : Type ℓ} (M : ℕ) (p1 : ℕ → S1) (p2 : S1 → ℕ → S2)
    (p3 : S2 → ℕ → S3) (p4 : S3 → ℕ → S4) (p5 : S4 → ℕ → S5) (p6 : S5 → ℕ → S6)
    (p7 : S6 → ℕ → Out → Out) where
  -- What each stage makes of item `x`, and what the last one does with it.
  abbrev pub f1 : ℕ → S1
  f1 x = p1 x

  abbrev pub f2 : ℕ → S2
  f2 x = p2 (f1 x) x

  abbrev pub f3 : ℕ → S3
  f3 x = p3 (f2 x) x

  abbrev pub f4 : ℕ → S4
  f4 x = p4 (f3 x) x

  abbrev pub f5 : ℕ → S5
  f5 x = p5 (f4 x) x

  abbrev pub f6 : ℕ → S6
  f6 x = p6 (f5 x) x

  abbrev pub item7 : ℕ → Out → Out
  item7 x = p7 (f6 x) x

  module _ (pos : 0 < M) (out0 : Out) where
    abbrev pub Fill1 : ℕ → State7 M p1 p2 p3 p4 p5 p6 p7 → Type ℓ
    Fill1 j s = Ring M s.0 (M * 0 + j) f1 × (s.6 ≡ 0) × (s.7 ≡ out0)

    fill1 :
        (j : ℕ) (s : State7 M p1 p2 p3 p4 p5 p6 p7)
        → j < M
        → Fill1 j s
        → Fill1 (suc j) (fill7_1 M p1 p2 p3 p4 p5 p6 p7 j s)
    unfolding fill7_1
    fill1 j (s1, s2, s3, s4, s5, s6, k, out) l (h1, hk, ho) =
        (push M pos (slot M 0 j l) (omega arith) (refl) h1, hk, ho)

    abbrev pub Fill2 : ℕ → State7 M p1 p2 p3 p4 p5 p6 p7 → Type ℓ
    Fill2 j s = Ring M s.0 (M * 1 + j) f1 × Ring M s.1 (M * 0 + j) f2 × (s.6 ≡ 0) × (s.7 ≡ out0)

    fill2 :
        (j : ℕ) (s : State7 M p1 p2 p3 p4 p5 p6 p7)
        → j < M
        → Fill2 j s
        → Fill2 (suc j) (fill7_2 M p1 p2 p3 p4 p5 p6 p7 j s)
    unfolding fill7_2
    fill2 j (s1, s2, s3, s4, s5, s6, k, out) l (h1, h2, hk, ho) = (
      push M pos (slot M 1 j l) (omega arith) (refl) h1,
      push M pos (slot M 0 j l) (omega arith)
          (ap₂ p2 (read M h1 (M * 0 + j) j (slot M 0 j l) (omega arith) (omega arith)) refl) h2,
      hk,
      ho,
    )

    abbrev pub Fill3 : ℕ → State7 M p1 p2 p3 p4 p5 p6 p7 → Type ℓ
    Fill3 j s =
        Ring M s.0 (M * 2 + j) f1
        × Ring M s.1 (M * 1 + j) f2
        × Ring M s.2 (M * 0 + j) f3
        × (s.6 ≡ 0)
        × (s.7 ≡ out0)

    fill3 :
        (j : ℕ) (s : State7 M p1 p2 p3 p4 p5 p6 p7)
        → j < M
        → Fill3 j s
        → Fill3 (suc j) (fill7_3 M p1 p2 p3 p4 p5 p6 p7 j s)
    unfolding fill7_3
    fill3 j (s1, s2, s3, s4, s5, s6, k, out) l (h1, h2, h3, hk, ho) = (
      push M pos (slot M 2 j l) (omega arith) (refl) h1,
      push M pos (slot M 1 j l) (omega arith)
          (ap₂ p2 (read M h1 (M * 1 + j) j (slot M 1 j l) (omega arith) (omega arith)) refl) h2,
      push M pos (slot M 0 j l) (omega arith)
          (ap₂ p3 (read M h2 (M * 0 + j) j (slot M 0 j l) (omega arith) (omega arith)) refl) h3,
      hk,
      ho,
    )

    abbrev pub Fill4 : ℕ → State7 M p1 p2 p3 p4 p5 p6 p7 → Type ℓ
    Fill4 j s =
        Ring M s.0 (M * 3 + j) f1
        × Ring M s.1 (M * 2 + j) f2
        × Ring M s.2 (M * 1 + j) f3
        × Ring M s.3 (M * 0 + j) f4
        × (s.6 ≡ 0)
        × (s.7 ≡ out0)

    fill4 :
        (j : ℕ) (s : State7 M p1 p2 p3 p4 p5 p6 p7)
        → j < M
        → Fill4 j s
        → Fill4 (suc j) (fill7_4 M p1 p2 p3 p4 p5 p6 p7 j s)
    unfolding fill7_4
    fill4 j (s1, s2, s3, s4, s5, s6, k, out) l (h1, h2, h3, h4, hk, ho) = (
      push M pos (slot M 3 j l) (omega arith) (refl) h1,
      push M pos (slot M 2 j l) (omega arith)
          (ap₂ p2 (read M h1 (M * 2 + j) j (slot M 2 j l) (omega arith) (omega arith)) refl) h2,
      push M pos (slot M 1 j l) (omega arith)
          (ap₂ p3 (read M h2 (M * 1 + j) j (slot M 1 j l) (omega arith) (omega arith)) refl) h3,
      push M pos (slot M 0 j l) (omega arith)
          (ap₂ p4 (read M h3 (M * 0 + j) j (slot M 0 j l) (omega arith) (omega arith)) refl) h4,
      hk,
      ho,
    )

    abbrev pub Fill5 : ℕ → State7 M p1 p2 p3 p4 p5 p6 p7 → Type ℓ
    Fill5 j s =
        Ring M s.0 (M * 4 + j) f1
        × Ring M s.1 (M * 3 + j) f2
        × Ring M s.2 (M * 2 + j) f3
        × Ring M s.3 (M * 1 + j) f4
        × Ring M s.4 (M * 0 + j) f5
        × (s.6 ≡ 0)
        × (s.7 ≡ out0)

    fill5 :
        (j : ℕ) (s : State7 M p1 p2 p3 p4 p5 p6 p7)
        → j < M
        → Fill5 j s
        → Fill5 (suc j) (fill7_5 M p1 p2 p3 p4 p5 p6 p7 j s)
    unfolding fill7_5
    fill5 j (s1, s2, s3, s4, s5, s6, k, out) l (h1, h2, h3, h4, h5, hk, ho) = (
      push M pos (slot M 4 j l) (omega arith) (refl) h1,
      push M pos (slot M 3 j l) (omega arith)
          (ap₂ p2 (read M h1 (M * 3 + j) j (slot M 3 j l) (omega arith) (omega arith)) refl) h2,
      push M pos (slot M 2 j l) (omega arith)
          (ap₂ p3 (read M h2 (M * 2 + j) j (slot M 2 j l) (omega arith) (omega arith)) refl) h3,
      push M pos (slot M 1 j l) (omega arith)
          (ap₂ p4 (read M h3 (M * 1 + j) j (slot M 1 j l) (omega arith) (omega arith)) refl) h4,
      push M pos (slot M 0 j l) (omega arith)
          (ap₂ p5 (read M h4 (M * 0 + j) j (slot M 0 j l) (omega arith) (omega arith)) refl) h5,
      hk,
      ho,
    )

    abbrev pub Fill6 : ℕ → State7 M p1 p2 p3 p4 p5 p6 p7 → Type ℓ
    Fill6 j s =
        Ring M s.0 (M * 5 + j) f1
        × Ring M s.1 (M * 4 + j) f2
        × Ring M s.2 (M * 3 + j) f3
        × Ring M s.3 (M * 2 + j) f4
        × Ring M s.4 (M * 1 + j) f5
        × Ring M s.5 (M * 0 + j) f6
        × (s.6 ≡ 0)
        × (s.7 ≡ out0)

    fill6 :
        (j : ℕ) (s : State7 M p1 p2 p3 p4 p5 p6 p7)
        → j < M
        → Fill6 j s
        → Fill6 (suc j) (fill7_6 M p1 p2 p3 p4 p5 p6 p7 j s)
    unfolding fill7_6
    fill6 j (s1, s2, s3, s4, s5, s6, k, out) l (h1, h2, h3, h4, h5, h6, hk, ho) = (
      push M pos (slot M 5 j l) (omega arith) (refl) h1,
      push M pos (slot M 4 j l) (omega arith)
          (ap₂ p2 (read M h1 (M * 4 + j) j (slot M 4 j l) (omega arith) (omega arith)) refl) h2,
      push M pos (slot M 3 j l) (omega arith)
          (ap₂ p3 (read M h2 (M * 3 + j) j (slot M 3 j l) (omega arith) (omega arith)) refl) h3,
      push M pos (slot M 2 j l) (omega arith)
          (ap₂ p4 (read M h3 (M * 2 + j) j (slot M 2 j l) (omega arith) (omega arith)) refl) h4,
      push M pos (slot M 1 j l) (omega arith)
          (ap₂ p5 (read M h4 (M * 1 + j) j (slot M 1 j l) (omega arith) (omega arith)) refl) h5,
      push M pos (slot M 0 j l) (omega arith)
          (ap₂ p6 (read M h5 (M * 0 + j) j (slot M 0 j l) (omega arith) (omega arith)) refl) h6,
      hk,
      ho,
    )

    pub Fill1-all :
        (s : State7 M p1 p2 p3 p4 p5 p6 p7)
        → (s.6 ≡ 0)
        → (s.7 ≡ out0)
        → Fill1 M (each M (fill7_1 M p1 p2 p3 p4 p5 p6 p7) s)
    Fill1-all s k0 o0 =
        each_inv Fill1 M _ s (empty M (omega arith), k0, o0) (λ j t l g. fill1 j t l g)

    pub Fill2-all :
        (s : State7 M p1 p2 p3 p4 p5 p6 p7)
        → Fill1 M s
        → Fill2 M (each M (fill7_2 M p1 p2 p3 p4 p5 p6 p7) s)
    Fill2-all s h =
        each_inv Fill2 M _ s (move M (omega arith) h.0, empty M (omega arith), h.1, h.2)
          (λ j t l g. fill2 j t l g)

    pub Fill3-all :
        (s : State7 M p1 p2 p3 p4 p5 p6 p7)
        → Fill2 M s
        → Fill3 M (each M (fill7_3 M p1 p2 p3 p4 p5 p6 p7) s)
    Fill3-all s h =
        each_inv Fill3 M _ s
          (move M (omega arith) h.0, move M (omega arith) h.1, empty M (omega arith), h.2, h.3)
          (λ j t l g. fill3 j t l g)

    pub Fill4-all :
        (s : State7 M p1 p2 p3 p4 p5 p6 p7)
        → Fill3 M s
        → Fill4 M (each M (fill7_4 M p1 p2 p3 p4 p5 p6 p7) s)
    Fill4-all s h =
        each_inv Fill4 M _ s
          (
            move M (omega arith) h.0,
            move M (omega arith) h.1,
            move M (omega arith) h.2,
            empty M (omega arith),
            h.3,
            h.4,
          )
          (λ j t l g. fill4 j t l g)

    pub Fill5-all :
        (s : State7 M p1 p2 p3 p4 p5 p6 p7)
        → Fill4 M s
        → Fill5 M (each M (fill7_5 M p1 p2 p3 p4 p5 p6 p7) s)
    Fill5-all s h =
        each_inv Fill5 M _ s
          (
            move M (omega arith) h.0,
            move M (omega arith) h.1,
            move M (omega arith) h.2,
            move M (omega arith) h.3,
            empty M (omega arith),
            h.4,
            h.5,
          )
          (λ j t l g. fill5 j t l g)

    pub Fill6-all :
        (s : State7 M p1 p2 p3 p4 p5 p6 p7)
        → Fill5 M s
        → Fill6 M (each M (fill7_6 M p1 p2 p3 p4 p5 p6 p7) s)
    Fill6-all s h =
        each_inv Fill6 M _ s
          (
            move M (omega arith) h.0,
            move M (omega arith) h.1,
            move M (omega arith) h.2,
            move M (omega arith) h.3,
            move M (omega arith) h.4,
            empty M (omega arith),
            h.5,
            h.6,
          )
          (λ j t l g. fill6 j t l g)
