-- ===== src/Pipeline/Three/Law.antt =====
-- With 3 stages the interleaved loops do what a plain loop over the items does.
use fast_chd.Base.{
  ℕ, suc, ◌+◌, ◌-◌, ◌*◌, ◌%◌, ◌<◌, ◌≡◌, refl, sym, ap, ◌∙◌, arith, each, each_inv, each_congr,
  store, each-store,
}
use fast_chd.Base.{ltb, Bool-cases, inl, inr}
use fast_chd.Pipeline.Ring.{
  Ring, push, read, move, slot, slot_of, slot_two, zero_slot, empty, next-lem, next_at, each_next,
}
use mathlib.Core.Path.{ap₂, subst}
use fast_chd.Pipeline.Three.{State3, small3, fill3_1, fill3_2, main3, drain3_1, drain3_2, pipeline3}

module _ {ℓ} {S1 S2 Out : Type ℓ} (M : ℕ) (p1 : ℕ → S1) (p2 : S1 → ℕ → S2)
    (p3 : S2 → ℕ → Out → Out) where
  -- What each stage makes of item `x`, and what the last one does with it.
  abbrev f1 : ℕ → S1
  f1 x = p1 x

  abbrev f2 : ℕ → S2
  f2 x = p2 (f1 x) x

  abbrev pub item3 : ℕ → Out → Out
  item3 x = p3 (f2 x) x

  small-each :
      (n : ℕ) (c1 : ℕ → S1) (c2 : ℕ → S2) (out : Out)
      → small3 M p1 p2 p3 n c1 c2 out ≡ each n item3 out
  unfolding small3
  small-each n c1 c2 out = each_congr n _ item3 out λ i o l. λ k. p3 (h2 i l k) i o
    where
      d1 : ℕ → S1
      d1 = each n (λ i c. store c i (p1 i)) c1

      h1 : (i : ℕ) → i < n → d1 i ≡ f1 i
      h1 i l = each-store n p1 c1 i l

      d2 : ℕ → S2
      d2 = each n (λ i c. store c i (p2 (d1 i) i)) c2

      h2 : (i : ℕ) → i < n → d2 i ≡ f2 i
      h2 i l = each-store n (λ x. p2 (d1 x) x) c2 i l ∙ (λ k. p2 (h1 i l k) i)

  module _ (pos : 0 < M) (out0 : Out) where
    abbrev Fill1 : ℕ → State3 M p1 p2 p3 → Type ℓ
    Fill1 j s = Ring M s.0 (M * 0 + j) f1 × (s.2 ≡ 0) × (s.3 ≡ out0)

    fill1 :
        (j : ℕ) (s : State3 M p1 p2 p3) → j < M → Fill1 j s → Fill1 (suc j) (fill3_1 M p1 p2 p3 j s)
    unfolding fill3_1
    fill1 j (s1, s2, k, out) l (h1, hk, ho) =
        (push M pos (slot M 0 j l) (omega arith) (refl) h1, hk, ho)

    abbrev Fill2 : ℕ → State3 M p1 p2 p3 → Type ℓ
    Fill2 j s = Ring M s.0 (M * 1 + j) f1 × Ring M s.1 (M * 0 + j) f2 × (s.2 ≡ 0) × (s.3 ≡ out0)

    fill2 :
        (j : ℕ) (s : State3 M p1 p2 p3) → j < M → Fill2 j s → Fill2 (suc j) (fill3_2 M p1 p2 p3 j s)
    unfolding fill3_2
    fill2 j (s1, s2, k, out) l (h1, h2, hk, ho) = (
      push M pos (slot M 1 j l) (omega arith) (refl) h1,
      push M pos (slot M 0 j l) (omega arith)
          (ap₂ p2 (read M h1 (M * 0 + j) j (slot M 0 j l) (omega arith) (omega arith)) refl) h2,
      hk,
      ho,
    )

    Fill1-all :
        (s : State3 M p1 p2 p3) → (s.2 ≡ 0) → (s.3 ≡ out0) → Fill1 M (each M (fill3_1 M p1 p2 p3) s)
    Fill1-all s k0 o0 =
        each_inv Fill1 M _ s (empty M (omega arith), k0, o0) (λ j t l g. fill1 j t l g)

    Fill2-all : (s : State3 M p1 p2 p3) → Fill1 M s → Fill2 M (each M (fill3_2 M p1 p2 p3) s)
    Fill2-all s h =
        each_inv Fill2 M _ s (move M (omega arith) h.0, empty M (omega arith), h.1, h.2)
          (λ j t l g. fill2 j t l g)

    abbrev Main : ℕ → State3 M p1 p2 p3 → Type ℓ
    Main r s =
        Ring M s.0 (M * 2 + r) f1
        × Ring M s.1 (M * 1 + r) f2
        × (s.2 ≡ r % M)
        × (s.3 ≡ each r item3 out0)

    main :
        (r : ℕ) (s : State3 M p1 p2 p3) → Main r s → Main (suc r) (main3 M p1 p2 p3 (M * 2 + r) s)
    unfolding main3 each
    main r (s1, s2, k, out) (h1, h2, hk, ho) = (
      push M pos (hk ∙ slot_of M 2 r) (omega arith) (refl) h1,
      push M pos (hk ∙ slot_of M 1 r) (omega arith)
          (ap₂ p2 (read M h1 (M * 1 + r) k (hk ∙ slot_of M 1 r) (omega arith) (omega arith))
            (omega arith))
          h2,
      next-lem M pos k r hk,
      (λ i. p3 (read M h2 r k hk (omega arith) (omega arith) i) (here i) (ho i)),
    )
      where
        here : M * 2 + r - M * 2 ≡ r
        here = omega arith

    Main-all :
        (m : ℕ) (s : State3 M p1 p2 p3)
        → Fill2 M s
        → Main m (each m (λ r. main3 M p1 p2 p3 (M * 2 + r)) s)
    unfolding each
    Main-all m s h =
        each_inv Main m _ s
          (move M (omega arith) h.0, move M (omega arith) h.1, h.2 ∙ zero_slot M pos, h.3)
          (λ r t _ g. main r t g)

    module _ (m : ℕ) where
      abbrev Drain1 : ℕ → State3 M p1 p2 p3 → Type ℓ
      Drain1 j s =
          Ring M s.0 (M * 2 + m) f1
          × Ring M s.1 (M * 1 + m + j) f2
          × (s.2 ≡ (M * 0 + m + j) % M)
          × (s.3 ≡ each (M * 0 + m + j) item3 out0)

      drain1 :
          (j : ℕ) (s : State3 M p1 p2 p3)
          → j < M
          → Drain1 j s
          → Drain1 (suc j) (drain3_1 M p1 p2 p3 (M * 2 + m) j s)
      unfolding drain3_1
      drain1 j (s1, s2, k, out) l (h1, h2, hk, ho) = (
        h1,
        push M pos (hk ∙ slot_two M 0 1 m j) (omega arith)
            (ap₂ p2
              (read M h1 (M * 1 + m + j) k (hk ∙ slot_two M 0 1 m j) (omega arith) (omega arith))
              (omega arith))
            h2,
        next_at M pos k (M * 0 + m + j) hk (omega arith),
        each_next item3 out0 (M * 0 + m + j) (omega arith) (λ i.
            p3 (read M h2 (M * 0 + m + j) k hk (omega arith) (omega arith) i) (here i) (ho i)),
      )
        where
          here : M * 2 + m - M * 2 + j ≡ M * 0 + m + j
          here = omega arith

      abbrev Drain2 : ℕ → State3 M p1 p2 p3 → Type ℓ
      Drain2 j s =
          Ring M s.1 (M * 2 + m) f2
          × (s.2 ≡ (M * 1 + m + j) % M)
          × (s.3 ≡ each (M * 1 + m + j) item3 out0)

      drain2 :
          (j : ℕ) (s : State3 M p1 p2 p3)
          → j < M
          → Drain2 j s
          → Drain2 (suc j) (drain3_2 M p1 p2 p3 (M * 2 + m) j s)
      unfolding drain3_2
      drain2 j (s1, s2, k, out) l (h2, hk, ho) = (
        h2,
        next_at M pos k (M * 1 + m + j) hk (omega arith),
        each_next item3 out0 (M * 1 + m + j) (omega arith) (λ i.
            p3 (read M h2 (M * 1 + m + j) k hk (omega arith) (omega arith) i) (here i) (ho i)),
      )
        where
          here : M * 2 + m - M * 1 + j ≡ M * 1 + m + j
          here = omega arith

      Drain1-all :
          (s : State3 M p1 p2 p3) → Main m s → Drain1 M (each M (drain3_1 M p1 p2 p3 (M * 2 + m)) s)
      Drain1-all s h =
          each_inv Drain1 M _ s
            (
              move M (omega arith) h.0,
              move M (omega arith) h.1,
              h.2 ∙ ap (λ (y : ℕ). y % M) (omega arith),
              h.3 ∙ ap (λ (y : ℕ). each y item3 out0) (omega arith),
            )
            (λ j t l g. drain1 j t l g)

      Drain2-all :
          (s : State3 M p1 p2 p3)
          → Drain1 M s
          → Drain2 M (each M (drain3_2 M p1 p2 p3 (M * 2 + m)) s)
      Drain2-all s h =
          each_inv Drain2 M _ s
            (
              move M (omega arith) h.1,
              h.2 ∙ ap (λ (y : ℕ). y % M) (omega arith),
              h.3 ∙ ap (λ (y : ℕ). each y item3 out0) (omega arith),
            )
            (λ j t l g. drain2 j t l g)

    loops :
        (m : ℕ) (s : State3 M p1 p2 p3)
        → (s.2 ≡ 0)
        → (s.3 ≡ out0)
        → ((each M (drain3_2 M p1 p2 p3 (M * 2 + m)) (
            each M (drain3_1 M p1 p2 p3 (M * 2 + m)) (
              each m
                (λ r. main3 M p1 p2 p3 (M * 2 + r))
                (each M (fill3_2 M p1 p2 p3) (each M (fill3_1 M p1 p2 p3) s))))).3)
          ≡ each (M * 2 + m) item3 out0
    loops m s k0 o0 =
        let e = Drain2-all m _ (Drain1-all m _ (Main-all m _ (Fill2-all _ (Fill1-all s k0 o0)))) in
        e.2 ∙ ap (λ (y : ℕ). each y item3 out0) (omega arith)

    loops_sub :
        (m : ℕ) (s : State3 M p1 p2 p3)
        → (s.2 ≡ 0)
        → (s.3 ≡ out0)
        → ((each M (drain3_2 M p1 p2 p3 (M * 2 + m)) (
            each M (drain3_1 M p1 p2 p3 (M * 2 + m)) (
              each
                (M * 2 + m - M * 2)
                (λ r. main3 M p1 p2 p3 (M * 2 + r))
                (each M (fill3_2 M p1 p2 p3) (each M (fill3_1 M p1 p2 p3) s))))).3)
          ≡ each (M * 2 + m) item3 out0
    loops_sub m s k0 o0 = let e : M * 2 + m - M * 2 ≡ m = omega arith in rw e (loops m s k0 o0)

  -- For every number of items, every positive ring size and whatever the rings held before, the
  -- pipeline of three stages ends as a plain loop does that takes each item through all the stages.
  pub pipeline3_lem :
      0 < M
      → (n : ℕ) (s1 : ℕ → S1) (s2 : ℕ → S2) (out : Out)
      → pipeline3 M p1 p2 p3 n s1 s2 out ≡ each n item3 out
  unfolding pipeline3
  pipeline3_lem pos n s1 s2 out = elim (Bool-cases (ltb n (M * 2))) [
    | inl few ↦ rw few (small-each n s1 s2 out)
    | inr many ↦
        let e : n ≡ M * 2 + (n - M * 2) = ground arith in
        rw many (
          subst
            (λ (y : ℕ).
              (each M (drain3_2 M p1 p2 p3 y) (
                each M (drain3_1 M p1 p2 p3 y) (
                  each (y - M * 2) (λ r. main3 M p1 p2 p3 (M * 2 + r))
                    (each M (fill3_2 M p1 p2 p3)
                      (each M (fill3_1 M p1 p2 p3) (s1, s2, 0, out)))))).3
              ≡ each y item3 out)
            (sym e) (loops_sub pos out (n - M * 2) (s1, s2, 0, out) refl refl))
  ]
