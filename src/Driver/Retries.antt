-- ===== src/Driver/Retries.antt =====
-- The retries end, and within their limits.
use fast_chd.Base.{
  ℕ, zero, suc, ◌+◌, ◌≤◌, ◌<◌, ◌≡◌, ◌∙◌, refl, sym, ap, arith, ◌==◌, ==_iff, Bool-cases, ◌⊎◌, inl,
  inr, some,
}
use mathlib.Core.Path.{subst}
use fast_chd.Mapping.{BuildStatus, build_ok, bad_input, fail_to_output, out_of_chance, conflict}
use fast_chd.Driver.{Retry, Verdict, leave, again, try_total, judge, retry_loop}

pub is_conflict : BuildStatus → ℕ
is_conflict conflict = 1
is_conflict _ = 0

-- How many of the `n` attempts from `i` on were conflicts.
unfoldable pub conflicts : (ℕ → BuildStatus) → ℕ → ℕ → ℕ
unfolding is_conflict
conflicts build i zero = 0
conflicts build i (suc n) = is_conflict (build i) + conflicts build (i + 1) n

abbrev pub MayRetry : BuildStatus → Type 0
MayRetry s = (s ≡ conflict) ⊎ (s ≡ out_of_chance)

-- `n` attempts from `i` on are tried again, and the one after them gives the status.
pub record Course (build : ℕ → BuildStatus) (retry : Retry) (i n : ℕ) : Type 0 where
  pub within : n ≤ retry.total_left
  pub few : conflicts build i n ≤ retry.conflict_left
  pub tried : (k : ℕ) → i ≤ k → k < i + n → MayRetry (build k)
  pub last :
      MayRetry (build (i + n))
      → (n ≡ retry.total_left)
        ⊎ ((build (i + n) ≡ conflict) × (conflicts build i n ≡ retry.conflict_left))

-- What one attempt leads to.
abbrev Judged : BuildStatus → Retry → Verdict → Type 0
Judged b retry (leave s) =
    (s ≡ b) × (MayRetry b → (retry.total_left ≡ 0) ⊎ ((b ≡ conflict) × (retry.conflict_left ≡ 0)))
Judged b retry (again r) =
    MayRetry b
    × (r.total_left + 1 ≡ retry.total_left)
    × (r.conflict_left + is_conflict b ≡ retry.conflict_left)

judge-ok :
    (b : BuildStatus) (retry : Retry)
    → retry.total_left < 256
    → retry.conflict_left < 256
    → Judged b retry (judge retry b)
unfolding judge is_conflict try_total
judge-ok build_ok retry h l = (refl, λ m. elim m [ inl e ↦ absurd cc | inr e ↦ absurd cc ])
judge-ok bad_input retry h l = (refl, λ m. elim m [ inl e ↦ absurd cc | inr e ↦ absurd cc ])
judge-ok fail_to_output retry h l = (refl, λ m. elim m [ inl e ↦ absurd cc | inr e ↦ absurd cc ])
judge-ok out_of_chance retry h l = elim (Bool-cases (retry.total_left == 0)) [
  | inl e ↦ rw e (refl, λ m. inl (ground arith))
  | inr n ↦ rw n (inr refl, ground arith, ground arith)
]
judge-ok conflict retry h l = elim (Bool-cases (retry.conflict_left == 0)) [
  | inl e ↦ rw e (refl, λ m. inr (refl, ground arith))
  | inr n ↦ elim (Bool-cases (retry.total_left == 0)) [
    | inl e ↦ rw (n, e) (refl, λ m. inl (ground arith))
    | inr k ↦ rw (n, k) (inl refl, ground arith, ground arith)
  ]
]

module _ (build : ℕ → BuildStatus) where
  -- One attempt more in front of a course.
  longer :
      (retry r : Retry) (i n : ℕ)
      → MayRetry (build i)
      → r.total_left + 1 ≡ retry.total_left
      → r.conflict_left + is_conflict (build i) ≡ retry.conflict_left
      → Course build r (i + 1) n
      → Course build retry i (suc n)
  unfolding conflicts
  longer retry r i n may t c course =
      let shift : i + 1 + n ≡ i + suc n = omega arith in
      record {
        within = omega (arith, course.within);
        few = omega (arith, course.few);
        tried = λ k lo hi. elim (Bool-cases (k == i)) [
          | inl e ↦ subst (λ (x : ℕ). MayRetry (build x)) (sym ((==_iff k i).0 e)) may
          | inr ne ↦ course.tried k (ground arith) (ground arith)
        ];
        last = λ m. elim (course.last (subst (λ (x : ℕ). MayRetry (build x)) (sym shift) m)) [
          | inl e ↦ inl (omega arith)
          | inr (a, b) ↦ inr (ap build (sym shift) ∙ a, omega arith)
        ];
      }

  stopped :
      (retry : Retry) (i : ℕ)
      → (MayRetry (build i)
          → (retry.total_left ≡ 0) ⊎ ((build i ≡ conflict) × (retry.conflict_left ≡ 0)))
      → Course build retry i 0
  unfolding conflicts
  stopped retry i h =
      let here : i + 0 ≡ i = omega arith in
      record {
        within = omega arith;
        few = omega arith;
        tried = λ k lo hi. absurd (omega arith);
        last = λ m. elim (h (subst (λ (x : ℕ). MayRetry (build x)) here m)) [
          | inl e ↦ inl (sym e)
          | inr (a, b) ↦ inr (ap build here ∙ a, sym b)
        ];
      }

  retry_loop-leave :
      (fuel : ℕ) (retry : Retry) (i : ℕ) (s : BuildStatus)
      → judge retry (build i) ≡ leave s
      → retry_loop (suc fuel) build retry i ≡ some (s, i)
  unfolding retry_loop
  retry_loop-leave fuel retry i s e = rw (retry_loop, e) refl

  retry_loop-again :
      (fuel : ℕ) (retry : Retry) (i : ℕ) (r : Retry)
      → judge retry (build i) ≡ again r
      → retry_loop (suc fuel) build retry i ≡ retry_loop fuel build r (i + 1)
  unfolding retry_loop
  retry_loop-again fuel retry i r e = rw (retry_loop, e) refl

  Ended : (fuel : ℕ) (retry : Retry) (i : ℕ) → Type 0
  Ended fuel retry i =
      (n : ℕ) × (retry_loop fuel build retry i ≡ some (build (i + n), i + n))
      × Course build retry i n

  after_verdict :
      (fuel : ℕ) (retry : Retry) (i : ℕ) (v : Verdict)
      → judge retry (build i) ≡ v
      → Judged (build i) retry v
      → ((r : Retry)
          → r.total_left + 1 ≡ retry.total_left
          → r.conflict_left ≤ retry.conflict_left
          → Ended fuel r (i + 1))
      → Ended (suc fuel) retry i
  unfolding Ended
  after_verdict fuel retry i (leave s) e (same, why) next =
      let here : i + 0 ≡ i = omega arith in
      (0, retry_loop-leave fuel retry i s e ∙ rw (here, same) refl, stopped retry i why)
  after_verdict fuel retry i (again r) e (may, t, c) next =
      let (n, e2, course) = next r t (omega arith) in
      let shift : i + 1 + n ≡ i + suc n = omega arith in
      (
        suc n,
        retry_loop-again fuel retry i r e ∙ e2 ∙ rw shift refl,
        longer retry r i n may t c course,
      )

  loop :
      (fuel : ℕ) (retry : Retry) (i : ℕ)
      → retry.total_left < fuel
      → fuel ≤ 256
      → retry.conflict_left < 256
      → Ended fuel retry i
  unfolding Ended
  loop zero retry i t f c = absurd (omega arith)
  loop (suc fuel) retry i t f c =
      after_verdict fuel retry i (judge retry (build i)) refl
        (judge-ok (build i) retry (omega arith) c)
        (λ r a b. loop fuel r (i + 1) (omega arith) (omega arith) (omega arith))

-- For any statuses of the attempts and counters of eight bits: the loop ends, with the status of its
-- last attempt. The attempts before it, at most `total` and at most `conflict` of them conflicts, all
-- ended in a conflict or out of chance, and it ends with one of these two only when a counter is used
-- up: `total`, or on a conflict `conflict`.
pub retry_loop_lem :
    (build : ℕ → BuildStatus) (retry : Retry) (i : ℕ)
    → retry.total_left < 256
    → retry.conflict_left < 256
    → (n : ℕ) × (retry_loop (suc retry.total_left) build retry i ≡ some (build (i + n), i + n))
      × Course build retry i n
unfolding Ended
retry_loop_lem build retry i t c =
    loop build (suc retry.total_left) retry i (omega arith) (omega arith) c
