-- ===== src/Pipeline/Four.antt =====
-- The overload of `Pipeline` with 4 stages (src/pipeline.h).
pub mod Law
use fast_chd.Base.{ℕ, zero, suc, ◌+◌, ◌-◌, ◌*◌, ltb, if◌then◌else◌, each, store}
use fast_chd.Pipeline.Ring.{next}

-- 4 stages.
module _ {ℓ} {S1 S2 S3 Out : Type ℓ} (M : ℕ) (p1 : ℕ → S1) (p2 : S1 → ℕ → S2) (p3 : S2 → ℕ → S3)
    (p4 : S3 → ℕ → Out → Out) where
  abbrev pub State4 : Type ℓ
  State4 = (ℕ → S1) × (ℕ → S2) × (ℕ → S3) × ℕ × Out

  -- `n < M*3`: one stage after the other; `c1` to `c3` overlap in the source's union
  pub small4 : ℕ → (ℕ → S1) → (ℕ → S2) → (ℕ → S3) → Out → Out
  small4 n c1 c2 c3 out =
      let d1 = each n (λ i c. store c i (p1 i)) c1 in
      let d2 = each n (λ i c. store c i (p2 (d1 i) i)) c2 in
      let d3 = each n (λ i c. store c i (p3 (d2 i) i)) c3 in each n (λ i o. p4 (d3 i) i o) out

  pub fill4_1 : ℕ → State4 → State4
  fill4_1 j (s1, s2, s3, k, out) = let s1' = store s1 j (p1 (M * 0 + j)) in (s1', s2, s3, k, out)

  pub fill4_2 : ℕ → State4 → State4
  fill4_2 j (s1, s2, s3, k, out) =
      let s2' = store s2 j (p2 (s1 j) (M * 0 + j)) in
      let s1' = store s1 j (p1 (M * 1 + j)) in (s1', s2', s3, k, out)

  pub fill4_3 : ℕ → State4 → State4
  fill4_3 j (s1, s2, s3, k, out) =
      let s3' = store s3 j (p3 (s2 j) (M * 0 + j)) in
      let s2' = store s2 j (p2 (s1 j) (M * 1 + j)) in
      let s1' = store s1 j (p1 (M * 2 + j)) in (s1', s2', s3', k, out)

  pub main4 : ℕ → State4 → State4
  main4 i (s1, s2, s3, k, out) =
      let out' = p4 (s3 k) (i - M * 3) out in
      let s3' = store s3 k (p3 (s2 k) (i - M * 2)) in
      let s2' = store s2 k (p2 (s1 k) (i - M * 1)) in
      let s1' = store s1 k (p1 i) in (s1', s2', s3', next M k, out')

  pub drain4_1 : ℕ → ℕ → State4 → State4
  drain4_1 n j (s1, s2, s3, k, out) =
      let out' = p4 (s3 k) (n - M * 3 + j) out in
      let s3' = store s3 k (p3 (s2 k) (n - M * 2 + j)) in
      let s2' = store s2 k (p2 (s1 k) (n - M * 1 + j)) in (s1, s2', s3', next M k, out')

  pub drain4_2 : ℕ → ℕ → State4 → State4
  drain4_2 n j (s1, s2, s3, k, out) =
      let out' = p4 (s3 k) (n - M * 2 + j) out in
      let s3' = store s3 k (p3 (s2 k) (n - M * 1 + j)) in (s1, s2, s3', next M k, out')

  pub drain4_3 : ℕ → ℕ → State4 → State4
  drain4_3 n j (s1, s2, s3, k, out) =
      let out' = p4 (s3 k) (n - M * 1 + j) out in (s1, s2, s3, next M k, out')

  -- `s1` to `s3` come in with whatever the stack holds.
  unfoldable pub pipeline4 : ℕ → (ℕ → S1) → (ℕ → S2) → (ℕ → S3) → Out → Out
  unfolding small4 fill4_1 fill4_2 fill4_3 main4 drain4_1 drain4_2 drain4_3
  pipeline4 n s1 s2 s3 out =
      let few = small4 n s1 s2 s3 out in
      let a0 = each M fill4_1 (s1, s2, s3, 0, out) in
      let a1 = each M fill4_2 a0 in
      let a2 = each M fill4_3 a1 in
      let b0 = each (n - M * 3) (λ r. main4 (M * 3 + r)) a2 in
      let b1 = each M (drain4_1 n) b0 in
      let b2 = each M (drain4_2 n) b1 in
      let b3 = each M (drain4_3 n) b2 in if ltb n (M * 3) then few else b3.4
