-- ===== src/Base/Each.antt =====
-- Counted loops: `for (i = 0; i < n; i++) s = body(i, s)`, with one rule for invariants.
use Prim.Native.Nat.{ℕ, zero, suc, ◌+◌, ◌<◌}
use mathlib.Core.Path.{◌≡◌, refl, ap, ◌∙◌}
use native.Mathlib.Omega.{arith}

unfoldable pub each {ℓ} : {S : Type ℓ} → ℕ → (ℕ → S → S) → S → S
each zero body s = s
each (suc n) body s = body n (each n body s)

pub each_inv {ℓ κ} :
    {S : Type ℓ} (P : ℕ → S → Type κ) (n : ℕ) (body : ℕ → S → S) (s : S)
    → P 0 s
    → ((r : ℕ) (t : S) → r < n → P r t → P (suc r) (body r t))
    → P n (each n body s)
unfolding each
each_inv P zero body s h keep = h
each_inv P (suc n) body s h keep =
    keep n _ (omega arith) (each_inv P n body s h (λ r t l. keep r t (omega arith)))

pub each_congr {ℓ} :
    {S : Type ℓ} (n : ℕ) (f g : ℕ → S → S) (s : S)
    → ((r : ℕ) (t : S) → r < n → f r t ≡ g r t)
    → each n f s ≡ each n g s
unfolding each
each_congr zero f g s h = refl
each_congr (suc n) f g s h =
    h n (each n f s) (omega arith) ∙ ap (g n) (each_congr n f g s (λ r t l. h r t (omega arith)))

pub each-suc {ℓ} :
    {S : Type ℓ} (n : ℕ) (f : ℕ → S → S) (s : S) → each (suc n) f s ≡ f n (each n f s)
unfolding each
each-suc n f s = refl

-- Two runs, one after the other.
pub each-add {ℓ} :
    {S : Type ℓ} (m n k : ℕ) (f : ℕ → S → S) (s : S)
    → k ≡ m + n
    → each k f s ≡ each n (λ r. f (m + r)) (each m f s)
unfolding each
each-add m zero k f s e = let e' : k ≡ m = omega arith in rw e'
each-add m (suc n) k f s e =
    let e' : k ≡ suc (m + n) = omega arith in rw e' (ap (f (m + n)) (each-add m n (m + n) f s refl))
