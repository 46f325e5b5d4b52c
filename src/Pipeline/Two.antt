-- ===== src/Pipeline/Two.antt =====
-- The overload of `Pipeline` with 2 stages (src/pipeline.h).
pub mod Law
use fast_chd.Base.{ℕ, zero, suc, ◌+◌, ◌-◌, ◌*◌, ltb, if◌then◌else◌, each, store}
use fast_chd.Pipeline.Ring.{next}

-- 2 stages.
module _ {ℓ} {S1 Out : Type ℓ} (M : ℕ) (p1 : ℕ → S1) (p2 : S1 → ℕ → Out → Out) where
  abbrev pub State2 : Type ℓ
  State2 = (ℕ → S1) × ℕ × Out

  -- `n < M*1`: one stage after the other; `c1` to `c1` overlap in the source's union
  pub small2 : ℕ → (ℕ → S1) → Out → Out
  small2 n c1 out =
      let d1 = each n (λ i c. store c i (p1 i)) c1 in each n (λ i o. p2 (d1 i) i o) out

  pub fill2_1 : ℕ → State2 → State2
  fill2_1 j (s1, k, out) = let s1' = store s1 j (p1 (M * 0 + j)) in (s1', k, out)

  pub main2 : ℕ → State2 → State2
  main2 i (s1, k, out) =
      let out' = p2 (s1 k) (i - M * 1) out in let s1' = store s1 k (p1 i) in (s1', next M k, out')

  pub drain2_1 : ℕ → ℕ → State2 → State2
  drain2_1 n j (s1, k, out) = let out' = p2 (s1 k) (n - M * 1 + j) out in (s1, next M k, out')

  -- `s1` to `s1` come in with whatever the stack holds.
  unfoldable pub pipeline2 : ℕ → (ℕ → S1) → Out → Out
  unfolding small2 fill2_1 main2 drain2_1
  pipeline2 n s1 out =
      let few = small2 n s1 out in
      let a0 = each M fill2_1 (s1, 0, out) in
      let b0 = each (n - M * 1) (λ r. main2 (M * 1 + r)) a0 in
      let b1 = each M (drain2_1 n) b0 in if ltb n (M * 1) then few else b1.2
