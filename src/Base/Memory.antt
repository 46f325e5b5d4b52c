-- ===== src/Base/Memory.antt =====
-- Byte memory: a function from addresses, and little-endian words of `n` bytes in it.
use Prim.Native.Nat.{ℕ, zero, suc, ◌+◌, ◌*◌, ◌/◌, ◌%◌, ◌^◌, ◌≤◌, ◌<◌}
use mathlib.Core.Path.{◌≡◌, refl, sym, ap, ◌∙◌}
use mathlib.Core.Logic.{◌⊎◌, inl}
use mathlib.Core.List.{List, [], ◌∷◌}
use native.Mathlib.Nat.{pow-suc, pow-zero, one-le-pow, div-add-mod, mod-lt}
use native.Mathlib.Omega.{arith}
use fast_chd.Base.Array.{store, store_self, store_ne}
use fast_chd.Base.Digits.{mod_unique}

abbrev pub Memory : Type 0
Memory = ℕ → ℕ

-- `*(uintN_t*)a`, with `8 * n` bits
unfoldable pub read_le : ℕ → Memory → ℕ → ℕ
read_le zero mem a = 0
read_le (suc n) mem a = mem a % 256 + 256 * read_le n mem (a + 1)

-- `*(uintN_t*)a = v`
unfoldable pub store_le : ℕ → Memory → ℕ → ℕ → Memory
store_le zero mem a v = mem
store_le (suc n) mem a v = store_le n (store mem a (v % 256)) (a + 1) (v / 256)

-- The bytes of a list stand at `a` and after.
abbrev pub At : Memory → ℕ → List ℕ → Type 0
At mem a [] = Unit
At mem a (x ∷ xs) = (mem a ≡ x) × At mem (a + 1) xs

pub store_le_frame :
    (n : ℕ) (mem : Memory) (a v i : ℕ) → (i < a) ⊎ (a + n ≤ i) → store_le n mem a v i ≡ mem i
unfolding store_le
store_le_frame zero mem a v i h = refl
store_le_frame (suc n) mem a v i h =
    store_le_frame n (store mem a (v % 256)) (a + 1) (v / 256) i (ground arith)
    ∙ store_ne mem a (v % 256) i (ground arith)

-- A word depends on its own bytes only.
pub read_le_congr :
    (n : ℕ) (mem mem' : Memory) (a : ℕ)
    → ((i : ℕ) → a ≤ i → i < a + n → mem i ≡ mem' i)
    → read_le n mem a ≡ read_le n mem' a
unfolding read_le
read_le_congr zero mem mem' a h = refl
read_le_congr (suc n) mem mem' a h = rw (h a (omega arith) (omega arith)) (
    ap (λ (t : ℕ). mem' a % 256 + 256 * t)
      (read_le_congr n mem mem' (a + 1) (λ i l k. h i (omega arith) (omega arith))))

pub read_le-store_le :
    (n : ℕ) (mem : Memory) (a v : ℕ) → read_le n (store_le n mem a v) a ≡ v % 256 ^ n
unfolding read_le store_le
read_le-store_le zero mem a v = omega (arith, pow-zero 256)
read_le-store_le (suc n) mem a v =
    rw (here, read_le-store_le n (store mem a (v % 256)) (a + 1) (v / 256)) (sym whole)
  where
    here : store_le n (store mem a (v % 256)) (a + 1) (v / 256) a ≡ v % 256
    here =
        store_le_frame n (store mem a (v % 256)) (a + 1) (v / 256) a (inl (omega arith))
        ∙ store_self mem a (v % 256) a refl

    whole : v % 256 ^ suc n ≡ v % 256 % 256 + 256 * (v / 256 % 256 ^ n)
    whole =
        let p = pow-suc 256 n in
        mod_unique v (256 ^ suc n) (v / 256 / 256 ^ n) _
          (omega
            (arith, div-add-mod (v / 256) (256 ^ n), ap (λ (t : ℕ). t * (v / 256 / 256 ^ n)) p))
          (ground (arith, mod-lt (v / 256) {m = 256 ^ n}, one-le-pow n 256))

pub read_le-lt : (n : ℕ) (mem : Memory) (a : ℕ) → read_le n mem a < 256 ^ n
unfolding read_le
read_le-lt zero mem a = omega (arith, pow-zero 256)
read_le-lt (suc n) mem a = omega (arith, pow-suc 256 n, read_le-lt n mem (a + 1))
