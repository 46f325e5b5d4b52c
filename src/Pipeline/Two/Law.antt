-- ===== src/Pipeline/Two/Law.antt =====
-- With 2 stages the interleaved loops do what a plain loop over the items does.
use fast_chd.Base.{
  ℕ, suc, ◌+◌, ◌-◌, ◌*◌, ◌%◌, ◌<◌, ◌≡◌, refl, sym, ap, ◌∙◌, arith, each, each_inv, each_congr,
  store, each-store,
}
use fast_chd.Base.{ltb, Bool-cases, inl, inr}
use fast_chd.Pipeline.Ring.{
  Ring, push, read, move, slot, slot_of, zero_slot, empty, next-lem, next_at, each_next,
}
use mathlib.Core.Path.{subst}
use fast_chd.Pipeline.Two.{State2, small2, fill2_1, main2, drain2_1, pipeline2}

module _ {ℓ} {S1 Out : Type ℓ} (M : ℕ) (p1 : ℕ → S1) (p2 : S1 → ℕ → Out → Out) where
  -- What each stage makes of item `x`, and what the last one does with it.
  abbrev f1 : ℕ → S1
  f1 x = p1 x

  abbrev pub item2 : ℕ → Out → Out
  item2 x = p2 (f1 x) x

  small-each : (n : ℕ) (c1 : ℕ → S1) (out : Out) → small2 M p1 p2 n c1 out ≡ each n item2 out
  unfolding small2
  small-each n c1 out = each_congr n _ item2 out λ i o l. λ k. p2 (h1 i l k) i o
    where
      d1 : ℕ → S1
      d1 = each n (λ i c. store c i (p1 i)) c1

      h1 : (i : ℕ) → i < n → d1 i ≡ f1 i
      h1 i l = each-store n p1 c1 i l

  module _ (pos : 0 < M) (out0 : Out) where
    abbrev Fill1 : ℕ → State2 M p1 p2 → Type ℓ
    Fill1 j s = Ring M s.0 (M * 0 + j) f1 × (s.1 ≡ 0) × (s.2 ≡ out0)

    fill1 : (j : ℕ) (s : State2 M p1 p2) → j < M → Fill1 j s → Fill1 (suc j) (fill2_1 M p1 p2 j s)
    unfolding fill2_1
    fill1 j (s1, k, out) l (h1, hk, ho) =
        (push M pos (slot M 0 j l) (omega arith) (refl) h1, hk, ho)

    Fill1-all :
        (s : State2 M p1 p2) → (s.1 ≡ 0) → (s.2 ≡ out0) → Fill1 M (each M (fill2_1 M p1 p2) s)
    Fill1-all s k0 o0 =
        each_inv Fill1 M _ s (empty M (omega arith), k0, o0) (λ j t l g. fill1 j t l g)

    abbrev Main : ℕ → State2 M p1 p2 → Type ℓ
    Main r s = Ring M s.0 (M * 1 + r) f1 × (s.1 ≡ r % M) × (s.2 ≡ each r item2 out0)

    main : (r : ℕ) (s : State2 M p1 p2) → Main r s → Main (suc r) (main2 M p1 p2 (M * 1 + r) s)
    unfolding main2 each
    main r (s1, k, out) (h1, hk, ho) = (
      push M pos (hk ∙ slot_of M 1 r) (omega arith) (refl) h1,
      next-lem M pos k r hk,
      (λ i. p2 (read M h1 r k hk (omega arith) (omega arith) i) (here i) (ho i)),
    )
      where
        here : M * 1 + r - M * 1 ≡ r
        here = omega arith

    Main-all :
        (m : ℕ) (s : State2 M p1 p2)
        → Fill1 M s
        → Main m (each m (λ r. main2 M p1 p2 (M * 1 + r)) s)
    unfolding each
    Main-all m s h =
        each_inv Main m _ s (move M (omega arith) h.0, h.1 ∙ zero_slot M pos, h.2)
          (λ r t _ g. main r t g)

    module _ (m : ℕ) where
      abbrev Drain1 : ℕ → State2 M p1 p2 → Type ℓ
      Drain1 j s =
          Ring M s.0 (M * 1 + m) f1
          × (s.1 ≡ (M * 0 + m + j) % M)
          × (s.2 ≡ each (M * 0 + m + j) item2 out0)

      drain1 :
          (j : ℕ) (s : State2 M p1 p2)
          → j < M
          → Drain1 j s
          → Drain1 (suc j) (drain2_1 M p1 p2 (M * 1 + m) j s)
      unfolding drain2_1
      drain1 j (s1, k, out) l (h1, hk, ho) = (
        h1,
        next_at M pos k (M * 0 + m + j) hk (omega arith),
        each_next item2 out0 (M * 0 + m + j) (omega arith) (λ i.
            p2 (read M h1 (M * 0 + m + j) k hk (omega arith) (omega arith) i) (here i) (ho i)),
      )
        where
          here : M * 1 + m - M * 1 + j ≡ M * 0 + m + j
          here = omega arith

      Drain1-all :
          (s : State2 M p1 p2) → Main m s → Drain1 M (each M (drain2_1 M p1 p2 (M * 1 + m)) s)
      Drain1-all s h =
          each_inv Drain1 M _ s
            (
              move M (omega arith) h.0,
              h.1 ∙ ap (λ (y : ℕ). y % M) (omega arith),
              h.2 ∙ ap (λ (y : ℕ). each y item2 out0) (omega arith),
            )
            (λ j t l g. drain1 j t l g)

    loops :
        (m : ℕ) (s : State2 M p1 p2)
        → (s.1 ≡ 0)
        → (s.2 ≡ out0)
        → ((each M
            (drain2_1 M p1 p2 (M * 1 + m))
            (each m (λ r. main2 M p1 p2 (M * 1 + r)) (each M (fill2_1 M p1 p2) s))).2)
          ≡ each (M * 1 + m) item2 out0
    loops m s k0 o0 =
        let e = Drain1-all m _ (Main-all m _ (Fill1-all s k0 o0)) in
        e.2 ∙ ap (λ (y : ℕ). each y item2 out0) (omega arith)

    loops_sub :
        (m : ℕ) (s : State2 M p1 p2)
        → (s.1 ≡ 0)
        → (s.2 ≡ out0)
        → ((each M (drain2_1 M p1 p2 (M * 1 + m)) (
            each
              (M * 1 + m - M * 1)
              (λ r. main2 M p1 p2 (M * 1 + r))
              (each M (fill2_1 M p1 p2) s))).2)
          ≡ each (M * 1 + m) item2 out0
    loops_sub m s k0 o0 = let e : M * 1 + m - M * 1 ≡ m = omega arith in rw e (loops m s k0 o0)

  -- For every number of items, every positive ring size and whatever the rings held before, the
  -- pipeline of two stages ends as a plain loop does that takes each item through all the stages.
  pub pipeline2_lem :
      0 < M → (n : ℕ) (s1 : ℕ → S1) (out : Out) → pipeline2 M p1 p2 n s1 out ≡ each n item2 out
  unfolding pipeline2
  pipeline2_lem pos n s1 out = elim (Bool-cases (ltb n (M * 1))) [
    | inl few ↦ rw few (small-each n s1 out)
    | inr many ↦
        let e : n ≡ M * 1 + (n - M * 1) = ground arith in
        rw many (
          subst
            (λ (y : ℕ).
              (each M (drain2_1 M p1 p2 y) (
                each (y - M * 1) (λ r. main2 M p1 p2 (M * 1 + r))
                  (each M (fill2_1 M p1 p2) (s1, 0, out)))).2
              ≡ each y item2 out)
            (sym e) (loops_sub pos out (n - M * 1) (s1, 0, out) refl refl))
  ]
