-- ===== src/Pipeline/Three.antt =====
-- The overload of `Pipeline` with 3 stages (src/pipeline.h).
pub mod Law
use fast_chd.Base.{ℕ, zero, suc, ◌+◌, ◌-◌, ◌*◌, ltb, if◌then◌else◌, each, store}
use fast_chd.Pipeline.Ring.{next}

-- 3 stages.
module _ {ℓ} {S1 S2 Out : Type ℓ} (M : ℕ) (p1 : ℕ → S1) (p2 : S1 → ℕ → S2)
    (p3 : S2 → ℕ → Out → Out) where
  abbrev pub State3 : Type ℓ
  State3 = (ℕ → S1) × (ℕ → S2) × ℕ × Out

  -- `n < M*2`: one stage after the other; `c1` to `c2` overlap in the source's union
  pub small3 : ℕ → (ℕ → S1) → (ℕ → S2) → Out → Out
  small3 n c1 c2 out =
      let d1 = each n (λ i c. store c i (p1 i)) c1 in
      let d2 = each n (λ i c. store c i (p2 (d1 i) i)) c2 in each n (λ i o. p3 (d2 i) i o) out

  pub fill3_1 : ℕ → State3 → State3
  fill3_1 j (s1, s2, k, out) = let s1' = store s1 j (p1 (M * 0 + j)) in (s1', s2, k, out)

  pub fill3_2 : ℕ → State3 → State3
  fill3_2 j (s1, s2, k, out) =
      let s2' = store s2 j (p2 (s1 j) (M * 0 + j)) in
      let s1' = store s1 j (p1 (M * 1 + j)) in (s1', s2', k, out)

  pub main3 : ℕ → State3 → State3
  main3 i (s1, s2, k, out) =
      let out' = p3 (s2 k) (i - M * 2) out in
      let s2' = store s2 k (p2 (s1 k) (i - M * 1)) in
      let s1' = store s1 k (p1 i) in (s1', s2', next M k, out')

  pub drain3_1 : ℕ → ℕ → State3 → State3
  drain3_1 n j (s1, s2, k, out) =
      let out' = p3 (s2 k) (n - M * 2 + j) out in
      let s2' = store s2 k (p2 (s1 k) (n - M * 1 + j)) in (s1, s2', next M k, out')

  pub drain3_2 : ℕ → ℕ → State3 → State3
  drain3_2 n j (s1, s2, k, out) =
      let out' = p3 (s2 k) (n - M * 1 + j) out in (s1, s2, next M k, out')

  -- `s1` to `s2` come in with whatever the stack holds.
  unfoldable pub pipeline3 : ℕ → (ℕ → S1) → (ℕ → S2) → Out → Out
  unfolding small3 fill3_1 fill3_2 main3 drain3_1 drain3_2
  pipeline3 n s1 s2 out =
      let few = small3 n s1 s2 out in
      let a0 = each M fill3_1 (s1, s2, 0, out) in
      let a1 = each M fill3_2 a0 in
      let b0 = each (n - M * 2) (λ r. main3 (M * 2 + r)) a1 in
      let b1 = each M (drain3_1 n) b0 in
      let b2 = each M (drain3_2 n) b1 in if ltb n (M * 2) then few else b2.3
