-- ===== src/Pipeline/Seven.antt =====
-- The overload of `Pipeline` with 7 stages (src/pipeline.h).
pub mod Fill
pub mod Drain
pub mod Law
use fast_chd.Base.{ℕ, zero, suc, ◌+◌, ◌-◌, ◌*◌, ltb, if◌then◌else◌, each, store}
use fast_chd.Pipeline.Ring.{next}

-- 7 stages.
module _ {ℓ} {S1 S2 S3 S4 S5 S6 Out : Type ℓ} (M : ℕ) (p1 : ℕ → S1) (p2 : S1 → ℕ → S2)
    (p3 : S2 → ℕ → S3) (p4 : S3 → ℕ → S4) (p5 : S4 → ℕ → S5) (p6 : S5 → ℕ → S6)
    (p7 : S6 → ℕ → Out → Out) where
  abbrev pub State7 : Type ℓ
  State7 = (ℕ → S1) × (ℕ → S2) × (ℕ → S3) × (ℕ → S4) × (ℕ → S5) × (ℕ → S6) × ℕ × Out

  -- `n < M*6`: one stage after the other; `c1` to `c6` overlap in the source's union
  pub small7 : ℕ → (ℕ → S1) → (ℕ → S2) → (ℕ → S3) → (ℕ → S4) → (ℕ → S5) → (ℕ → S6) → Out → Out
  small7 n c1 c2 c3 c4 c5 c6 out =
      let d1 = each n (λ i c. store c i (p1 i)) c1 in
      let d2 = each n (λ i c. store c i (p2 (d1 i) i)) c2 in
      let d3 = each n (λ i c. store c i (p3 (d2 i) i)) c3 in
      let d4 = each n (λ i c. store c i (p4 (d3 i) i)) c4 in
      let d5 = each n (λ i c. store c i (p5 (d4 i) i)) c5 in
      let d6 = each n (λ i c. store c i (p6 (d5 i) i)) c6 in each n (λ i o. p7 (d6 i) i o) out

  pub fill7_1 : ℕ → State7 → State7
  fill7_1 j (s1, s2, s3, s4, s5, s6, k, out) =
      let s1' = store s1 j (p1 (M * 0 + j)) in (s1', s2, s3, s4, s5, s6, k, out)

  pub fill7_2 : ℕ → State7 → State7
  fill7_2 j (s1, s2, s3, s4, s5, s6, k, out) =
      let s2' = store s2 j (p2 (s1 j) (M * 0 + j)) in
      let s1' = store s1 j (p1 (M * 1 + j)) in (s1', s2', s3, s4, s5, s6, k, out)

  pub fill7_3 : ℕ → State7 → State7
  fill7_3 j (s1, s2, s3, s4, s5, s6, k, out) =
      let s3' = store s3 j (p3 (s2 j) (M * 0 + j)) in
      let s2' = store s2 j (p2 (s1 j) (M * 1 + j)) in
      let s1' = store s1 j (p1 (M * 2 + j)) in (s1', s2', s3', s4, s5, s6, k, out)

  pub fill7_4 : ℕ → State7 → State7
  fill7_4 j (s1, s2, s3, s4, s5, s6, k, out) =
      let s4' = store s4 j (p4 (s3 j) (M * 0 + j)) in
      let s3' = store s3 j (p3 (s2 j) (M * 1 + j)) in
      let s2' = store s2 j (p2 (s1 j) (M * 2 + j)) in
      let s1' = store s1 j (p1 (M * 3 + j)) in (s1', s2', s3', s4', s5, s6, k, out)

  pub fill7_5 : ℕ → State7 → State7
  fill7_5 j (s1, s2, s3, s4, s5, s6, k, out) =
      let s5' = store s5 j (p5 (s4 j) (M * 0 + j)) in
      let s4' = store s4 j (p4 (s3 j) (M * 1 + j)) in
      let s3' = store s3 j (p3 (s2 j) (M * 2 + j)) in
      let s2' = store s2 j (p2 (s1 j) (M * 3 + j)) in
      let s1' = store s1 j (p1 (M * 4 + j)) in (s1', s2', s3', s4', s5', s6, k, out)

  pub fill7_6 : ℕ → State7 → State7
  fill7_6 j (s1, s2, s3, s4, s5, s6, k, out) =
      let s6' = store s6 j (p6 (s5 j) (M * 0 + j)) in
      let s5' = store s5 j (p5 (s4 j) (M * 1 + j)) in
      let s4' = store s4 j (p4 (s3 j) (M * 2 + j)) in
      let s3' = store s3 j (p3 (s2 j) (M * 3 + j)) in
      let s2' = store s2 j (p2 (s1 j) (M * 4 + j)) in
      let s1' = store s1 j (p1 (M * 5 + j)) in (s1', s2', s3', s4', s5', s6', k, out)

  pub main7 : ℕ → State7 → State7
  main7 i (s1, s2, s3, s4, s5, s6, k, out) =
      let out' = p7 (s6 k) (i - M * 6) out in
      let s6' = store s6 k (p6 (s5 k) (i - M * 5)) in
      let s5' = store s5 k (p5 (s4 k) (i - M * 4)) in
      let s4' = store s4 k (p4 (s3 k) (i - M * 3)) in
      let s3' = store s3 k (p3 (s2 k) (i - M * 2)) in
      let s2' = store s2 k (p2 (s1 k) (i - M * 1)) in
      let s1' = store s1 k (p1 i) in (s1', s2', s3', s4', s5', s6', next M k, out')

  pub drain7_1 : ℕ → ℕ → State7 → State7
  drain7_1 n j (s1, s2, s3, s4, s5, s6, k, out) =
      let out' = p7 (s6 k) (n - M * 6 + j) out in
      let s6' = store s6 k (p6 (s5 k) (n - M * 5 + j)) in
      let s5' = store s5 k (p5 (s4 k) (n - M * 4 + j)) in
      let s4' = store s4 k (p4 (s3 k) (n - M * 3 + j)) in
      let s3' = store s3 k (p3 (s2 k) (n - M * 2 + j)) in
      let s2' = store s2 k (p2 (s1 k) (n - M * 1 + j)) in
      (s1, s2', s3', s4', s5', s6', next M k, out')

  pub drain7_2 : ℕ → ℕ → State7 → State7
  drain7_2 n j (s1, s2, s3, s4, s5, s6, k, out) =
      let out' = p7 (s6 k) (n - M * 5 + j) out in
      let s6' = store s6 k (p6 (s5 k) (n - M * 4 + j)) in
      let s5' = store s5 k (p5 (s4 k) (n - M * 3 + j)) in
      let s4' = store s4 k (p4 (s3 k) (n - M * 2 + j)) in
      let s3' = store s3 k (p3 (s2 k) (n - M * 1 + j)) in
      (s1, s2, s3', s4', s5', s6', next M k, out')

  pub drain7_3 : ℕ → ℕ → State7 → State7
  drain7_3 n j (s1, s2, s3, s4, s5, s6, k, out) =
      let out' = p7 (s6 k) (n - M * 4 + j) out in
      let s6' = store s6 k (p6 (s5 k) (n - M * 3 + j)) in
      let s5' = store s5 k (p5 (s4 k) (n - M * 2 + j)) in
      let s4' = store s4 k (p4 (s3 k) (n - M * 1 + j)) in
      (s1, s2, s3, s4', s5', s6', next M k, out')

  pub drain7_4 : ℕ → ℕ → State7 → State7
  drain7_4 n j (s1, s2, s3, s4, s5, s6, k, out) =
      let out' = p7 (s6 k) (n - M * 3 + j) out in
      let s6' = store s6 k (p6 (s5 k) (n - M * 2 + j)) in
      let s5' = store s5 k (p5 (s4 k) (n - M * 1 + j)) in (s1, s2, s3, s4, s5', s6', next M k, out')

  pub drain7_5 : ℕ → ℕ → State7 → State7
  drain7_5 n j (s1, s2, s3, s4, s5, s6, k, out) =
      let out' = p7 (s6 k) (n - M * 2 + j) out in
      let s6' = store s6 k (p6 (s5 k) (n - M * 1 + j)) in (s1, s2, s3, s4, s5, s6', next M k, out')

  pub drain7_6 : ℕ → ℕ → State7 → State7
  drain7_6 n j (s1, s2, s3, s4, s5, s6, k, out) =
      let out' = p7 (s6 k) (n - M * 1 + j) out in (s1, s2, s3, s4, s5, s6, next M k, out')

  -- `s1` to `s6` come in with whatever the stack holds.
  unfoldable pub pipeline7 :
      ℕ → (ℕ → S1) → (ℕ → S2) → (ℕ → S3) → (ℕ → S4) → (ℕ → S5) → (ℕ → S6) → Out → Out
  unfolding small7 fill7_1 fill7_2 fill7_3 fill7_4 fill7_5 fill7_6 main7 drain7_1 drain7_2 drain7_3
      drain7_4 drain7_5 drain7_6
  pipeline7 n s1 s2 s3 s4 s5 s6 out =
      let few = small7 n s1 s2 s3 s4 s5 s6 out in
      let a0 = each M fill7_1 (s1, s2, s3, s4, s5, s6, 0, out) in
      let a1 = each M fill7_2 a0 in
      let a2 = each M fill7_3 a1 in
      let a3 = each M fill7_4 a2 in
      let a4 = each M fill7_5 a3 in
      let a5 = each M fill7_6 a4 in
      let b0 = each (n - M * 6) (λ r. main7 (M * 6 + r)) a5 in
      let b1 = each M (drain7_1 n) b0 in
      let b2 = each M (drain7_2 n) b1 in
      let b3 = each M (drain7_3 n) b2 in
      let b4 = each M (drain7_4 n) b3 in
      let b5 = each M (drain7_5 n) b4 in
      let b6 = each M (drain7_6 n) b5 in if ltb n (M * 6) then few else b6.7
