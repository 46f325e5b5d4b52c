-- ===== src/Mapping/Seed.antt =====
-- The seed that comes out of `Mapping` is a byte when the one that goes in is.
use mathlib.Core.Option
use mathlib.Core.Path.{subst}
use fast_chd.Base.{
  ℕ, zero, suc, ◌+◌, ◌-◌, ◌/◌, ◌%◌, ◌^◌, ◌<◌, ◌≡◌, refl, arith, Bool, true, false, not, leb, ltb,
  ◌==◌, if◌then◌else◌,
}
use fast_chd.Base.{List, [], ◌∷◌, length, take, drop, Option, none, some}
use fast_chd.Bitmap.{Bytes, test_and_set_bit}
use fast_chd.Divisor.{DivisorMr}
use fast_chd.Hash.{V96}
use fast_chd.Mapping.{
  mini_batch, set_or_undo, large_round, try_to_map_large, Tries, fill_window, try_window,
  small_loop, try_to_map_small, first_free, mini_batch_try, single_loop, has_conflict, Mapped,
  map_large, small_next, small_end, map_small, map_single, mapping,
}

-- `r` is chosen by a test, and both choices have the property.
pub either {ℓ κ} :
    {A : Type ℓ} (P : A → Type κ) (b : Bool) (x y : A) → P x → P y → P (if b then x else y)
either P true x y p q = p
either P false x y p q = q

module _ (range : DivisorMr) where
  large_seed :
      (n sd8 : ℕ) (bitmap : Bytes) (ids : List V96)
      → sd8 < 256
      → (try_to_map_large n range sd8 bitmap ids).1 < 256
  unfolding try_to_map_large
  large_seed zero sd8 bitmap ids h = h
  large_seed (suc n) sd8 bitmap ids h =
      let r = large_round ((length ids - 1) / mini_batch) range sd8 bitmap [] ids in
      either (λ (t : Bool × ℕ × Bytes). t.1 < 256) r.0 (true, sd8, r.1)
        (try_to_map_large n range ((sd8 + 1) % 2 ^ 8) r.1 ids) h
        (large_seed n ((sd8 + 1) % 2 ^ 8) r.1 ids (omega arith))

  first_seed :
      (sd8 : ℕ) (bitmap : Bytes) (ps : List ℕ) → sd8 < 256 → (first_free sd8 bitmap ps).1 < 256
  unfolding first_free
  first_seed sd8 bitmap [] h = h
  first_seed sd8 bitmap (p ∷ ps) h =
      let r = test_and_set_bit bitmap p in
      either (λ (t : Bool × ℕ × Bytes). t.1 < 256) r.0 (true, sd8, r.1)
        (first_free ((sd8 + 1) % 2 ^ 8) r.1 ps) h
        (first_seed ((sd8 + 1) % 2 ^ 8) r.1 ps (omega arith))

  single_seed :
      (k : ℕ) (id : V96) (remain sd8 : ℕ) (bitmap : Bytes)
      → sd8 < 256
      → (single_loop k range id remain sd8 bitmap).1 < 256
  unfolding single_loop mini_batch_try
  single_seed zero id remain sd8 bitmap h = first_seed sd8 bitmap _ h
  single_seed (suc k) id remain sd8 bitmap h =
      let r = mini_batch_try range id mini_batch sd8 bitmap in
      let r' = first_seed sd8 bitmap _ h in
      either (λ (t : Bool × ℕ × Bytes). t.1 < 256) r.0 r
        (single_loop k range id (remain - mini_batch) r.1 r.2) r'
        (single_seed k id (remain - mini_batch) r.1 r.2 r')

  window_seed :
      (left off sd8 : ℕ) (bitmap : Bytes) (cnt : ℕ) (pos : List ℕ)
      → sd8 < 256
      → (try_window left off sd8 bitmap cnt pos).seed < 256
  unfolding try_window
  window_seed zero off sd8 bitmap cnt pos h = h
  window_seed (suc left) off sd8 bitmap cnt pos h =
      let r = set_or_undo bitmap (take cnt pos) [] in
      either (λ (t : Tries). t.seed < 256) (not (leb (off + cnt) mini_batch)) _ _ h
        (either (λ (t : Tries). t.seed < 256) r.0 _ _ h
          (window_seed left (off + cnt) ((sd8 + 1) % 2 ^ 8) r.1 cnt (drop cnt pos) (omega arith)))

  -- The result, if there is one, has a byte for its seed.
  abbrev Ends : Option Tries → Type 0
  Ends o = (t : Tries) → o ≡ some t → t.seed < 256

  Ends-some : (s : Tries) → s.seed < 256 → Ends (some s)
  Ends-some s h t e = let same : s ≡ t = cc in subst (λ (x : Tries). x.seed < 256) same h

  small_seed :
      (fuel : ℕ) (s : Tries) (ids : List V96) → s.seed < 256 → Ends (small_loop fuel range s ids)
  unfolding small_loop
  small_seed zero s ids h = λ t e. absurd cc
  small_seed (suc fuel) s ids h =
      let w =
        try_window s.left 0 s.seed s.bits (length ids) (fill_window s.left range 0 s.seed ids) in
      let w' =
        window_seed s.left 0 s.seed s.bits (length ids) (fill_window s.left range 0 s.seed ids) h in
      either Ends (s.left == 0) _ _ (Ends-some s h)
        (either Ends w.found _ _ (Ends-some w w') (small_seed fuel w ids w'))

  try_seed :
      (n sd8 : ℕ) (bitmap : Bytes) (ids : List V96)
      → sd8 < 256
      → Ends (try_to_map_small n range sd8 bitmap ids)
  unfolding try_to_map_small
  try_seed n sd8 bitmap ids h = small_seed (suc n) _ ids h

  abbrev Settles : Option Mapped → Type 0
  Settles o = (m : Mapped) → o ≡ some m → m.sd8 < 256

  Settles-some : (s : Mapped) → s.sd8 < 256 → Settles (some s)
  Settles-some s h m e = let same : s ≡ m = cc in subst (λ (x : Mapped). x.sd8 < 256) same h

  map_large_seed :
      (sd8 : ℕ) (bitmap : Bytes) (ids : List V96)
      → sd8 < 256
      → (map_large range sd8 bitmap ids).sd8 < 256
  unfolding map_large
  map_large_seed sd8 bitmap ids h =
      let r = try_to_map_large 56 range sd8 bitmap ids in
      let c = has_conflict ids in
      let r2 = try_to_map_large 200 range r.1 r.2 c.1 in
      let a = large_seed 56 sd8 bitmap ids h in
      let b = large_seed 200 r.1 r.2 c.1 a in
      let P = λ (m : Mapped). m.sd8 < 256 in
      either P r.0 _ _ a (either P c.0 _ _ a (either P r2.0 _ _ b b))

  map_last_seed : (o : Option Tries) → Ends o → Settles (Option.map small_end o)
  unfolding small_end
  map_last_seed none f = λ m e. absurd cc
  map_last_seed (some t) f = Settles-some _ (f t refl)

  small_next_seed : (ids : List V96) (t : Tries) → t.seed < 256 → Settles (small_next range ids t)
  unfolding small_next
  small_next_seed ids t h =
      let c = has_conflict ids in
      either Settles t.found _ _ (Settles-some _ h) (
        either Settles c.0 _ _ (Settles-some _ h) (
          map_last_seed (try_to_map_small 160 range t.seed t.bits c.1)
            (try_seed 160 t.seed t.bits c.1 h)))

  first_next_seed :
      (ids : List V96) (o : Option Tries)
      → Ends o
      → Settles (elim o [ none ↦ none | some t ↦ small_next range ids t ])
  first_next_seed ids none f = λ m e. absurd cc
  first_next_seed ids (some t) f = small_next_seed ids t (f t refl)

  -- For every array, bitmap and seed that is a byte, the seed that `Mapping` gives is a byte.
  pub mapping_seed :
      (sd8 : ℕ) (bitmap : Bytes) (ids : List V96) (m : Mapped)
      → sd8 < 256
      → mapping range sd8 bitmap ids ≡ some m
      → m.sd8 < 256
  unfolding mapping map_small map_single
  mapping_seed sd8 bitmap [] m h e = absurd cc
  mapping_seed sd8 bitmap (x ∷ []) m h e =
      Settles-some _ (single_seed ((256 - 1) / mini_batch) x 256 sd8 bitmap h) m e
  mapping_seed sd8 bitmap (x ∷ y ∷ ids) m h e =
      either Settles (ltb mini_batch (length (x ∷ y ∷ ids))) _ _
        (Settles-some _ (map_large_seed sd8 bitmap (x ∷ y ∷ ids) h))
        (first_next_seed (x ∷ y ∷ ids) (try_to_map_small 96 range sd8 bitmap (x ∷ y ∷ ids))
          (try_seed 96 sd8 bitmap (x ∷ y ∷ ids) h))
        m e
