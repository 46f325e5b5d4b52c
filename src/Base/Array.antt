-- ===== src/Base/Array.antt =====
-- Arrays in memory as functions from indices, and loops that fill them.
use Prim.Native.Nat.{ℕ, zero, suc, ◌<◌}
use mathlib.Core.Path.{◌≡◌, sym, ap, ◌∙◌}
use mathlib.Core.Logic.{◌≢◌, inl, inr}
use native.Mathlib.Omega.{arith}
use fast_chd.Base.Each.{each}
use fast_chd.Base.Tests.{◌==◌, ==_iff, if◌then◌else◌, Bool-cases}

-- `a[k] = v`
unfoldable pub store {ℓ} : {A : Type ℓ} → (ℕ → A) → ℕ → A → ℕ → A
store a k v j = if j == k then v else a j

pub store_self {ℓ} : {A : Type ℓ} (a : ℕ → A) (k : ℕ) (v : A) (j : ℕ) → j ≡ k → store a k v j ≡ v
unfolding store
store_self a k v j e = ground arith

pub store_ne {ℓ} : {A : Type ℓ} (a : ℕ → A) (k : ℕ) (v : A) (j : ℕ) → j ≢ k → store a k v j ≡ a j
unfolding store
store_ne a k v j e = ground arith

pub each-store {ℓ} :
    {A : Type ℓ} (n : ℕ) (f : ℕ → A) (a : ℕ → A) (i : ℕ)
    → i < n
    → each n (λ j c. store c j (f j)) a i ≡ f i
unfolding each
each-store zero f a i h = absurd (omega arith)
each-store (suc n) f a i h = elim (Bool-cases (i == n)) [
  | inl e ↦ let e' = (==_iff i n).0 e in store_self _ n (f n) i e' ∙ ap f (sym e')
  | inr ne ↦ store_ne _ n (f n) i (λ e. ground arith) ∙ each-store n f a i (ground arith)
]
