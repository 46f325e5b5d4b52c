-- ===== src/Pipeline/Ring.antt =====
-- One array of a pipeline as a ring: slot `x % M` holds what its stage made of item `x`, for the last
-- `M` items before `hi`.
use fast_chd.Base.{ℕ, suc, ◌+◌, ◌*◌, ◌/◌, ◌%◌, ◌≤◌, ◌<◌, ◌≡◌, ◌≢◌, sym, ap, ◌∙◌, arith}
use fast_chd.Base.{
  leb, ◌==◌, if◌then◌else◌, each, store, store_self, store_ne, Bool-cases, inl, inr, ==_iff, leb→le,
}
use fast_chd.Base.Digits.{mod_unique}
use native.Mathlib.Nat.{div-add-mod, mod-lt, mul-add-mod_self_left, mod-eq_of_lt, mul-le-mul_left}
use native.Mathlib.Decide.{dec_le}

-- `if (++k >= M) k = 0`
unfoldable pub next : ℕ → ℕ → ℕ
next M k = if leb M (k + 1) then 0 else k + 1

pub record Ring {ℓ} {A : Type ℓ} (M : ℕ) (a : ℕ → A) (hi : ℕ) (f : ℕ → A) : Type ℓ where
  pub at : (x : ℕ) → x < hi → hi ≤ x + M → a (x % M) ≡ f x

module _ (M : ℕ) where
  -- Items less than `M` apart have different slots.
  apart : (x y : ℕ) → x < y → y < x + M → x % M ≢ y % M
  apart x y h k e =
      let dx = div-add-mod x M in
      let dy = div-add-mod y M in
      elim (dec_le (y / M) (x / M)) [
        | yes q ↦ absurd (omega (arith, mul-le-mul_left M q))
        | no q ↦
            let q' : suc (x / M) ≤ y / M = omega arith in
            absurd (omega (arith, mul-le-mul_left M q'))
      ]

  pub slot : (c j : ℕ) → j < M → j ≡ (M * c + j) % M
  slot c j l = sym (mul-add-mod_self_left M c j ∙ mod-eq_of_lt l)

  pub slot_of : (c r : ℕ) → r % M ≡ (M * c + r) % M
  slot_of c r = sym (mul-add-mod_self_left M c r)

  pub slot_two : (b c m j : ℕ) → (M * b + m + j) % M ≡ (M * c + m + j) % M
  slot_two b c m j =
      let e : (y : ℕ) → (M * y + m + j) % M ≡ (m + j) % M =
        λ y. ap (λ (t : ℕ). t % M) (omega arith) ∙ mul-add-mod_self_left M y (m + j) in
      e b ∙ sym (e c)

  pub zero_slot : 0 < M → 0 ≡ 0 % M
  zero_slot pos = omega arith

  pub next-lem : 0 < M → (k r : ℕ) → k ≡ r % M → next M k ≡ suc r % M
  unfolding next
  next-lem pos k r h =
      let d = div-add-mod r M in
      let l = mod-lt r pos in
      elim (Bool-cases (leb M (k + 1))) [
        | inl wrap ↦
            let w = leb→le M (k + 1) wrap in
            rw wrap (sym (mod_unique (suc r) M (r / M + 1) 0 (omega arith) pos))
        | inr go ↦
            let w : k + 1 < M = ground arith in
            rw go (sym (mod_unique (suc r) M (r / M) (k + 1) (omega arith) w))
      ]

  pub next_at : 0 < M → (k r : ℕ) {r' : ℕ} → k ≡ r % M → r' ≡ suc r → next M k ≡ r' % M
  next_at pos k r h e = next-lem pos k r h ∙ ap (λ (t : ℕ). t % M) (sym e)

  module _ {ℓ} {A : Type ℓ} where
    pub empty : {a : ℕ → A} {hi : ℕ} {f : ℕ → A} → hi ≡ 0 → Ring M a hi f
    empty e = record { at = λ x h k. absurd (omega arith) }

    pub move : {a : ℕ → A} {hi hi' : ℕ} {f : ℕ → A} → hi ≡ hi' → Ring M a hi f → Ring M a hi' f
    move e r = record { at = λ x h k. r.at x (omega arith) (omega arith) }

    pub read :
        {a : ℕ → A} {hi : ℕ} {f : ℕ → A}
        → Ring M a hi f
        → (x k : ℕ) → k ≡ x % M
        → x < hi
        → hi ≤ x + M
        → a k ≡ f x
    read {a} r x k e h l = ap a e ∙ r.at x h l

    -- The next item overwrites the oldest.
    pub push :
        0 < M
        → {a : ℕ → A} {hi k hi' : ℕ} {f : ℕ → A} {v : A} → k ≡ hi % M
        → hi' ≡ suc hi
        → v ≡ f hi
        → Ring M a hi f
        → Ring M (store a k v) hi' f
    push pos {a} {hi} {k} {hi'} {f} {v} e e' ev r = record {
      at = λ x h l. elim (Bool-cases (x == hi)) [
        | inl s ↦
            let s' = (==_iff x hi).0 s in
            store_self a k v (x % M) (ap (λ (t : ℕ). t % M) s' ∙ sym e) ∙ ev ∙ ap f (sym s')
        | inr n ↦
            let lt : x < hi = ground arith in
            store_ne a k v (x % M) (λ q. apart x hi lt (omega arith) (q ∙ e))
            ∙ r.at x lt (omega arith)
      ];
    }

-- The loop rule at a count that is known to be one more.
pub each_next {ℓ} :
    {S : Type ℓ} (f : ℕ → S → S) (s : S) (r : ℕ) {r' : ℕ} {t : S}
    → r' ≡ suc r
    → t ≡ f r (each r f s)
    → t ≡ each r' f s
unfolding each
each_next f s r e h = h ∙ ap (λ (y : ℕ). each y f s) (sym e)
