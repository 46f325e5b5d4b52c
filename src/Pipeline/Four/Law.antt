-- ===== src/Pipeline/Four/Law.antt =====
-- With 4 stages the interleaved loops do what a plain loop over the items does.
use fast_chd.Base.{
  ℕ, suc, ◌+◌, ◌-◌, ◌*◌, ◌%◌, ◌<◌, ◌≡◌, refl, sym, ap, ◌∙◌, arith, each, each_inv, each_congr,
  store, each-store,
}
use fast_chd.Base.{ltb, Bool-cases, inl, inr}
use fast_chd.Pipeline.Ring.{
  Ring, push, read, move, slot, slot_of, slot_two, zero_slot, empty, next-lem, next_at, each_next,
}
use mathlib.Core.Path.{ap₂, subst}
use fast_chd.Pipeline.Four.{
  State4, small4, fill4_1, fill4_2, fill4_3, main4, drain4_1, drain4_2, drain4_3, pipeline4,
}

module _ {ℓ} {S1 S2 S3 Out : Type ℓ} (M : ℕ) (p1 : ℕ → S1) (p2 : S1 → ℕ → S2) (p3 : S2 → ℕ → S3)
    (p4 : S3 → ℕ → Out → Out) where
  -- What each stage makes of item `x`, and what the last one does with it.
  abbrev f1 : ℕ → S1
  f1 x = p1 x

  abbrev f2 : ℕ → S2
  f2 x = p2 (f1 x) x

  abbrev f3 : ℕ → S3
  f3 x = p3 (f2 x) x

  abbrev pub item4 : ℕ → Out → Out
  item4 x = p4 (f3 x) x

  small-each :
      (n : ℕ) (c1 : ℕ → S1) (c2 : ℕ → S2) (c3 : ℕ → S3) (out : Out)
      → small4 M p1 p2 p3 p4 n c1 c2 c3 out ≡ each n item4 out
  unfolding small4
  small-each n c1 c2 c3 out = each_congr n _ item4 out λ i o l. λ k. p4 (h3 i l k) i o
    where
      d1 : ℕ → S1
      d1 = each n (λ i c. store c i (p1 i)) c1

      h1 : (i : ℕ) → i < n → d1 i ≡ f1 i
      h1 i l = each-store n p1 c1 i l

      d2 : ℕ → S2
      d2 = each n (λ i c. store c i (p2 (d1 i) i)) c2

      h2 : (i : ℕ) → i < n → d2 i ≡ f2 i
      h2 i l = each-store n (λ x. p2 (d1 x) x) c2 i l ∙ (λ k. p2 (h1 i l k) i)

      d3 : ℕ → S3
      d3 = each n (λ i c. store c i (p3 (d2 i) i)) c3

      h3 : (i : ℕ) → i < n → d3 i ≡ f3 i
      h3 i l = each-store n (λ x. p3 (d2 x) x) c3 i l ∙ (λ k. p3 (h2 i l k) i)

  module _ (pos : 0 < M) (out0 : Out) where
    abbrev Fill1 : ℕ → State4 M p1 p2 p3 p4 → Type ℓ
    Fill1 j s = Ring M s.0 (M * 0 + j) f1 × (s.3 ≡ 0) × (s.4 ≡ out0)

    fill1 :
        (j : ℕ) (s : State4 M p1 p2 p3 p4)
        → j < M
        → Fill1 j s
        → Fill1 (suc j) (fill4_1 M p1 p2 p3 p4 j s)
    unfolding fill4_1
    fill1 j (s1, s2, s3, k, out) l (h1, hk, ho) =
        (push M pos (slot M 0 j l) (omega arith) (refl) h1, hk, ho)

    abbrev Fill2 : ℕ → State4 M p1 p2 p3 p4 → Type ℓ
    Fill2 j s = Ring M s.0 (M * 1 + j) f1 × Ring M s.1 (M * 0 + j) f2 × (s.3 ≡ 0) × (s.4 ≡ out0)

    fill2 :
        (j : ℕ) (s : State4 M p1 p2 p3 p4)
        → j < M
        → Fill2 j s
        → Fill2 (suc j) (fill4_2 M p1 p2 p3 p4 j s)
    unfolding fill4_2
    fill2 j (s1, s2, s3, k, out) l (h1, h2, hk, ho) = (
      push M pos (slot M 1 j l) (omega arith) (refl) h1,
      push M pos (slot M 0 j l) (omega arith)
          (ap₂ p2 (read M h1 (M * 0 + j) j (slot M 0 j l) (omega arith) (omega arith)) refl) h2,
      hk,
      ho,
    )

    abbrev Fill3 : ℕ → State4 M p1 p2 p3 p4 → Type ℓ
    Fill3 j s =
        Ring M s.0 (M * 2 + j) f1
        × Ring M s.1 (M * 1 + j) f2
        × Ring M s.2 (M * 0 + j) f3
        × (s.3 ≡ 0)
        × (s.4 ≡ out0)

    fill3 :
        (j : ℕ) (s : State4 M p1 p2 p3 p4)
        → j < M
        → Fill3 j s
        → Fill3 (suc j) (fill4_3 M p1 p2 p3 p4 j s)
    unfolding fill4_3
    fill3 j (s1, s2, s3, k, out) l (h1, h2, h3, hk, ho) = (
      push M pos (slot M 2 j l) (omega arith) (refl) h1,
      push M pos (slot M 1 j l) (omega arith)
          (ap₂ p2 (read M h1 (M * 1 + j) j (slot M 1 j l) (omega arith) (omega arith)) refl) h2,
      push M pos (slot M 0 j l) (omega arith)
          (ap₂ p3 (read M h2 (M * 0 + j) j (slot M 0 j l) (omega arith) (omega arith)) refl) h3,
      hk,
      ho,
    )

    Fill1-all :
        (s : State4 M p1 p2 p3 p4)
        → (s.3 ≡ 0)
        → (s.4 ≡ out0)
        → Fill1 M (each M (fill4_1 M p1 p2 p3 p4) s)
    Fill1-all s k0 o0 =
        each_inv Fill1 M _ s (empty M (omega arith), k0, o0) (λ j t l g. fill1 j t l g)

    Fill2-all : (s : State4 M p1 p2 p3 p4) → Fill1 M s → Fill2 M (each M (fill4_2 M p1 p2 p3 p4) s)
    Fill2-all s h =
        each_inv Fill2 M _ s (move M (omega arith) h.0, empty M (omega arith), h.1, h.2)
          (λ j t l g. fill2 j t l g)

    Fill3-all : (s : State4 M p1 p2 p3 p4) → Fill2 M s → Fill3 M (each M (fill4_3 M p1 p2 p3 p4) s)
    Fill3-all s h =
        each_inv Fill3 M _ s
          (move M (omega arith) h.0, move M (omega arith) h.1, empty M (omega arith), h.2, h.3)
          (λ j t l g. fill3 j t l g)

    abbrev Main : ℕ → State4 M p1 p2 p3 p4 → Type ℓ
    Main r s =
        Ring M s.0 (M * 3 + r) f1
        × Ring M s.1 (M * 2 + r) f2
        × Ring M s.2 (M * 1 + r) f3
        × (s.3 ≡ r % M)
        × (s.4 ≡ each r item4 out0)

    main :
        (r : ℕ) (s : State4 M p1 p2 p3 p4)
        → Main r s
        → Main (suc r) (main4 M p1 p2 p3 p4 (M * 3 + r) s)
    unfolding main4 each
    main r (s1, s2, s3, k, out) (h1, h2, h3, hk, ho) = (
      push M pos (hk ∙ slot_of M 3 r) (omega arith) (refl) h1,
      push M pos (hk ∙ slot_of M 2 r) (omega arith)
          (ap₂ p2 (read M h1 (M * 2 + r) k (hk ∙ slot_of M 2 r) (omega arith) (omega arith))
            (omega arith))
          h2,
      push M pos (hk ∙ slot_of M 1 r) (omega arith)
          (ap₂ p3 (read M h2 (M * 1 + r) k (hk ∙ slot_of M 1 r) (omega arith) (omega arith))
            (omega arith))
          h3,
      next-lem M pos k r hk,
      (λ i. p4 (read M h3 r k hk (omega arith) (omega arith) i) (here i) (ho i)),
    )
      where
        here : M * 3 + r - M * 3 ≡ r
        here = omega arith

    Main-all :
        (m : ℕ) (s : State4 M p1 p2 p3 p4)
        → Fill3 M s
        → Main m (each m (λ r. main4 M p1 p2 p3 p4 (M * 3 + r)) s)
    unfolding each
    Main-all m s h =
        each_inv Main m _ s
          (
            move M (omega arith) h.0,
            move M (omega arith) h.1,
            move M (omega arith) h.2,
            h.3 ∙ zero_slot M pos,
            h.4,
          )
          (λ r t _ g. main r t g)

    module _ (m : ℕ) where
      abbrev Drain1 : ℕ → State4 M p1 p2 p3 p4 → Type ℓ
      Drain1 j s =
          Ring M s.0 (M * 3 + m) f1
          × Ring M s.1 (M * 2 + m + j) f2
          × Ring M s.2 (M * 1 + m + j) f3
          × (s.3 ≡ (M * 0 + m + j) % M)
          × (s.4 ≡ each (M * 0 + m + j) item4 out0)

      drain1 :
          (j : ℕ) (s : State4 M p1 p2 p3 p4)
          → j < M
          → Drain1 j s
          → Drain1 (suc j) (drain4_1 M p1 p2 p3 p4 (M * 3 + m) j s)
      unfolding drain4_1
      drain1 j (s1, s2, s3, k, out) l (h1, h2, h3, hk, ho) = (
        h1,
        push M pos (hk ∙ slot_two M 0 2 m j) (omega arith)
            (ap₂ p2
              (read M h1 (M * 2 + m + j) k (hk ∙ slot_two M 0 2 m j) (omega arith) (omega arith))
              (omega arith))
            h2,
        push M pos (hk ∙ slot_two M 0 1 m j) (omega arith)
            (ap₂ p3
              (read M h2 (M * 1 + m + j) k (hk ∙ slot_two M 0 1 m j) (omega arith) (omega arith))
              (omega arith))
            h3,
        next_at M pos k (M * 0 + m + j) hk (omega arith),
        each_next item4 out0 (M * 0 + m + j) (omega arith) (λ i.
            p4 (read M h3 (M * 0 + m + j) k hk (omega arith) (omega arith) i) (here i) (ho i)),
      )
        where
          here : M * 3 + m - M * 3 + j ≡ M * 0 + m + j
          here = omega arith

      abbrev Drain2 : ℕ → State4 M p1 p2 p3 p4 → Type ℓ
      Drain2 j s =
          Ring M s.1 (M * 3 + m) f2
          × Ring M s.2 (M * 2 + m + j) f3
          × (s.3 ≡ (M * 1 + m + j) % M)
          × (s.4 ≡ each (M * 1 + m + j) item4 out0)

      drain2 :
          (j : ℕ) (s : State4 M p1 p2 p3 p4)
          → j < M
          → Drain2 j s
          → Drain2 (suc j) (drain4_2 M p1 p2 p3 p4 (M * 3 + m) j s)
      unfolding drain4_2
      drain2 j (s1, s2, s3, k, out) l (h2, h3, hk, ho) = (
        h2,
        push M pos (hk ∙ slot_two M 1 2 m j) (omega arith)
            (ap₂ p3
              (read M h2 (M * 2 + m + j) k (hk ∙ slot_two M 1 2 m j) (omega arith) (omega arith))
              (omega arith))
            h3,
        next_at M pos k (M * 1 + m + j) hk (omega arith),
        each_next item4 out0 (M * 1 + m + j) (omega arith) (λ i.
            p4 (read M h3 (M * 1 + m + j) k hk (omega arith) (omega arith) i) (here i) (ho i)),
      )
        where
          here : M * 3 + m - M * 2 + j ≡ M * 1 + m + j
          here = omega arith

      abbrev Drain3 : ℕ → State4 M p1 p2 p3 p4 → Type ℓ
      Drain3 j s =
          Ring M s.2 (M * 3 + m) f3
          × (s.3 ≡ (M * 2 + m + j) % M)
          × (s.4 ≡ each (M * 2 + m + j) item4 out0)

      drain3 :
          (j : ℕ) (s : State4 M p1 p2 p3 p4)
          → j < M
          → Drain3 j s
          → Drain3 (suc j) (drain4_3 M p1 p2 p3 p4 (M * 3 + m) j s)
      unfolding drain4_3
      drain3 j (s1, s2, s3, k, out) l (h3, hk, ho) = (
        h3,
        next_at M pos k (M * 2 + m + j) hk (omega arith),
        each_next item4 out0 (M * 2 + m + j) (omega arith) (λ i.
            p4 (read M h3 (M * 2 + m + j) k hk (omega arith) (omega arith) i) (here i) (ho i)),
      )
        where
          here : M * 3 + m - M * 1 + j ≡ M * 2 + m + j
          here = omega arith

      Drain1-all :
          (s : State4 M p1 p2 p3 p4)
          → Main m s
          → Drain1 M (each M (drain4_1 M p1 p2 p3 p4 (M * 3 + m)) s)
      Drain1-all s h =
          each_inv Drain1 M _ s
            (
              move M (omega arith) h.0,
              move M (omega arith) h.1,
              move M (omega arith) h.2,
              h.3 ∙ ap (λ (y : ℕ). y % M) (omega arith),
              h.4 ∙ ap (λ (y : ℕ). each y item4 out0) (omega arith),
            )
            (λ j t l g. drain1 j t l g)

      Drain2-all :
          (s : State4 M p1 p2 p3 p4)
          → Drain1 M s
          → Drain2 M (each M (drain4_2 M p1 p2 p3 p4 (M * 3 + m)) s)
      Drain2-all s h =
          each_inv Drain2 M _ s
            (
              move M (omega arith) h.1,
              move M (omega arith) h.2,
              h.3 ∙ ap (λ (y : ℕ). y % M) (omega arith),
              h.4 ∙ ap (λ (y : ℕ). each y item4 out0) (omega arith),
            )
            (λ j t l g. drain2 j t l g)

      Drain3-all :
          (s : State4 M p1 p2 p3 p4)
          → Drain2 M s
          → Drain3 M (each M (drain4_3 M p1 p2 p3 p4 (M * 3 + m)) s)
      Drain3-all s h =
          each_inv Drain3 M _ s
            (
              move M (omega arith) h.1,
              h.2 ∙ ap (λ (y : ℕ). y % M) (omega arith),
              h.3 ∙ ap (λ (y : ℕ). each y item4 out0) (omega arith),
            )
            (λ j t l g. drain3 j t l g)

    loops :
        (m : ℕ) (s : State4 M p1 p2 p3 p4)
        → (s.3 ≡ 0)
        → (s.4 ≡ out0)
        → ((each M (drain4_3 M p1 p2 p3 p4 (M * 3 + m)) (
            each M (drain4_2 M p1 p2 p3 p4 (M * 3 + m)) (
              each M (drain4_1 M p1 p2 p3 p4 (M * 3 + m)) (
                each m
                  (λ r. main4 M p1 p2 p3 p4 (M * 3 + r))
                  (each M
                    (fill4_3 M p1 p2 p3 p4)
                    (each M (fill4_2 M p1 p2 p3 p4) (each M (fill4_1 M p1 p2 p3 p4) s))))))).4)
          ≡ each (M * 3 + m) item4 out0
    loops m s k0 o0 =
        let e = Drain3-all m _ (
          Drain2-all m _
            (Drain1-all m _ (Main-all m _ (Fill3-all _ (Fill2-all _ (Fill1-all s k0 o0)))))) in
        e.2 ∙ ap (λ (y : ℕ). each y item4 out0) (omega arith)

    loops_sub :
        (m : ℕ) (s : State4 M p1 p2 p3 p4)
        → (s.3 ≡ 0)
        → (s.4 ≡ out0)
        → ((each M (drain4_3 M p1 p2 p3 p4 (M * 3 + m)) (
            each M (drain4_2 M p1 p2 p3 p4 (M * 3 + m)) (
              each M (drain4_1 M p1 p2 p3 p4 (M * 3 + m)) (
                each
                  (M * 3 + m - M * 3)
                  (λ r. main4 M p1 p2 p3 p4 (M * 3 + r))
                  (each M
                    (fill4_3 M p1 p2 p3 p4)
                    (each M (fill4_2 M p1 p2 p3 p4) (each M (fill4_1 M p1 p2 p3 p4) s))))))).4)
          ≡ each (M * 3 + m) item4 out0
    loops_sub m s k0 o0 = let e : M * 3 + m - M * 3 ≡ m = omega arith in rw e (loops m s k0 o0)

  -- For every number of items, every positive ring size and whatever the rings held before, the
  -- pipeline of four stages ends as a plain loop does that takes each item through all the stages.
  pub pipeline4_lem :
      0 < M
      → (n : ℕ) (s1 : ℕ → S1) (s2 : ℕ → S2) (s3 : ℕ → S3) (out : Out)
      → pipeline4 M p1 p2 p3 p4 n s1 s2 s3 out ≡ each n item4 out
  unfolding pipeline4
  pipeline4_lem pos n s1 s2 s3 out = elim (Bool-cases (ltb n (M * 3))) [
    | inl few ↦ rw few (small-each n s1 s2 s3 out)
    | inr many ↦
        let e : n ≡ M * 3 + (n - M * 3) = ground arith in
        rw many (
          subst
            (λ (y : ℕ).
              (each M (drain4_3 M p1 p2 p3 p4 y) (
                each M (drain4_2 M p1 p2 p3 p4 y) (
                  each M (drain4_1 M p1 p2 p3 p4 y) (
                    each (y - M * 3) (λ r. main4 M p1 p2 p3 p4 (M * 3 + r))
                      (each M (fill4_3 M p1 p2 p3 p4) (
                        each M (fill4_2 M p1 p2 p3 p4)
                          (each M (fill4_1 M p1 p2 p3 p4) (s1, s2, s3, 0, out)))))))).4
              ≡ each y item4 out)
            (sym e) (loops_sub pos out (n - M * 3) (s1, s2, s3, 0, out) refl refl))
  ]
