-- ===== src/Search/Copy.antt =====
-- What `memcpy` leaves.
use fast_chd.Base.{ℕ, zero, suc, ◌+◌, ◌≤◌, ◌<◌, ◌≡◌, ◌∙◌, refl, arith, each, ◌⊎◌}
use fast_chd.Base.{◌==◌, ==_iff, Bool-cases, inl, inr, store_self, store_ne}
use fast_chd.Base.Memory.{Memory}
use fast_chd.Search.{copy}

pub copy_other :
    (dest src : Memory) (at from n q : ℕ)
    → (q < at) ⊎ (at + n ≤ q)
    → copy dest at src from n q ≡ dest q
unfolding copy each
copy_other dest src at from zero q h = refl
copy_other dest src at from (suc n) q h =
    store_ne (copy dest at src from n) (at + n) (src (from + n)) q (ground (arith, h))
    ∙ copy_other dest src at from n q (ground (arith, h))

pub copy_here :
    (dest src : Memory) (at from n b : ℕ)
    → b < n
    → copy dest at src from n (at + b) ≡ src (from + b)
unfolding copy each
copy_here dest src at from zero b h = absurd (omega arith)
copy_here dest src at from (suc n) b h = elim (Bool-cases (b == n)) [
  | inl e ↦
      let e' = (==_iff b n).0 e in
      rw e' (store_self (copy dest at src from n) (at + n) (src (from + n)) (at + n) refl)
  | inr ne ↦
      store_ne (copy dest at src from n) (at + n) (src (from + n)) (at + b) (λ e. ground (arith, e))
      ∙ copy_here dest src at from n b (ground arith)
]
