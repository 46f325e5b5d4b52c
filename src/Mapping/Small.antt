-- ===== src/Mapping/Small.antt =====
-- Cells of two keys up to a mini batch (`TryToMapSmall`), and of one key.
use fast_chd.Base.{
  ℕ, zero, suc, ◌+◌, ◌-◌, ◌%◌, ◌^◌, ◌≤◌, ◌<◌, ◌≡◌, ◌∙◌, refl, sym, ap, arith, Bool, true, false,
  leb, ◌==◌, if◌then◌else◌,
}
use fast_chd.Base.{List, [], ◌∷◌, ◌++◌, length, length-map, take, drop, Bool-cases, inl, inr, some}
use fast_chd.Bitmap.{Bytes, test_bit}
use fast_chd.Bitmap.Laws.{test_and_set_bit_eq}
use fast_chd.Divisor.{DivisorMr}
use fast_chd.Hash.{V96}
use fast_chd.Mapping.{
  mini_batch, position, set_or_undo, fill_window, Tries, try_window, small_loop, try_to_map_small,
  first_free, seeds, mini_batch_try, single_loop,
}
use fast_chd.Mapping.Held.{Filled, Same, Filled-single}
use fast_chd.Mapping.Undo.{Outcome, Filled-Same, set_or_undo_lem, places}

take_front {ℓ} : {A : Type ℓ} (n : ℕ) (xs ys : List A) → n ≡ length xs → take n (xs ++ ys) ≡ xs
take_front n [] ys h = let e : n ≡ 0 = omega arith in rw e refl
take_front zero (x ∷ xs) ys h = absurd (omega arith)
take_front (suc n) (x ∷ xs) ys h = ap (λ l. x ∷ l) (take_front n xs ys (omega arith))

drop_front {ℓ} : {A : Type ℓ} (n : ℕ) (xs ys : List A) → n ≡ length xs → drop n (xs ++ ys) ≡ ys
drop_front n [] ys h = let e : n ≡ 0 = omega arith in rw e refl
drop_front zero (x ∷ xs) ys h = absurd (omega arith)
drop_front (suc n) (x ∷ xs) ys h = drop_front n xs ys (omega arith)

pub pick_then {ℓ} : {A : Type ℓ} {b : Bool} (x y : A) → b ≡ true → (if b then x else y) ≡ x
pick_then x y e = rw e refl

pub pick_else {ℓ} : {A : Type ℓ} {b : Bool} (x y : A) → b ≡ false → (if b then x else y) ≡ y
pick_else x y e = rw e refl

module _ (range : DivisorMr) (ids : List V96) where
  -- What a row of tries from `bitmap` comes to.
  abbrev pub Tried : Bytes → Tries → Type 0
  Tried bitmap t =
      (t.found ≡ true → Filled bitmap (places range t.seed ids) t.bits)
      × (t.found ≡ false → Same bitmap t.bits)

  -- One try in the window.
  try_once :
      (bitmap : Bytes) (sd8 : ℕ) (rest : List ℕ)
      → Outcome bitmap
          (places range sd8 ids)
          (set_or_undo bitmap (take (length ids) (places range sd8 ids ++ rest)) [])
  try_once bitmap sd8 rest =
      let n = sym (length-map ids (position range sd8)) in
      rw (take_front (length ids) (places range sd8 ids) rest n)
        (set_or_undo_lem bitmap (places range sd8 ids) [] bitmap (λ q. omega arith))

  fill-next :
      (left off sd8 : ℕ)
      → leb (off + length ids) mini_batch ≡ true
      → fill_window (suc left) range off sd8 ids
        ≡ places range sd8 ids ++ fill_window left range (off + length ids) ((sd8 + 1) % 2 ^ 8) ids
  unfolding fill_window
  fill-next left off sd8 h = rw h refl

  try_window_lem :
      (left off sd8 : ℕ) (bitmap : Bytes)
      → Tried bitmap
          (try_window left off sd8 bitmap (length ids) (fill_window left range off sd8 ids))
        × ((try_window left off sd8 bitmap (length ids) (fill_window left range off sd8 ids)).left
            ≤ left)
  unfolding try_window
  try_window_lem zero off sd8 bitmap = ((λ e. absurd cc, λ e q. refl), omega arith)
  try_window_lem (suc left) off sd8 bitmap = elim (Bool-cases (leb (off + length ids) mini_batch)) [
    | inr full ↦ rw full ((λ e. absurd cc, λ e q. refl), omega arith)
    | inl room ↦
        let rest = fill_window left range (off + length ids) ((sd8 + 1) % 2 ^ 8) ids in
        let gone =
          drop_front (length ids) (places range sd8 ids) rest
            (sym (length-map ids (position range sd8))) in
        let r = set_or_undo bitmap (take (length ids) (places range sd8 ids ++ rest)) [] in
        let (good, bad) = try_once bitmap sd8 rest in
        elim (Bool-cases r.0) [
          | inl ok ↦
              rw (fill-next left off sd8 room, room, ok)
                ((λ e. good ok, λ e. absurd cc), omega arith)
          | inr fail ↦
              let ((a, b), c) = try_window_lem left (off + length ids) ((sd8 + 1) % 2 ^ 8) r.1 in
              rw (fill-next left off sd8 room, room, fail, gone)
                (
                  (λ e. Filled-Same bitmap r.1 _ _ (bad fail) (a e), λ e q. b e q ∙ bad fail q),
                  omega (arith, c),
                )
        ]
  ]

  -- A window for which there is room makes one try at least.
  window_progress :
      (left sd8 : ℕ) (bitmap : Bytes)
      → length ids ≤ mini_batch
      → (try_window
          (suc left)
          0
          sd8
          bitmap
          (length ids)
          (fill_window (suc left) range 0 sd8 ids)).found
        ≡ false
      → (try_window
          (suc left)
          0
          sd8
          bitmap
          (length ids)
          (fill_window (suc left) range 0 sd8 ids)).left
        ≤ left
  unfolding try_window
  window_progress left sd8 bitmap few e =
      let room : leb (0 + length ids) mini_batch ≡ true = ground arith in
      let rest = fill_window left range (0 + length ids) ((sd8 + 1) % 2 ^ 8) ids in
      let gone =
        drop_front (length ids) (places range sd8 ids) rest
          (sym (length-map ids (position range sd8))) in
      let r = set_or_undo bitmap (take (length ids) (places range sd8 ids ++ rest)) [] in
      elim (Bool-cases r.0) [
        | inl ok ↦ absurd (let e' = rw (fill-next left 0 sd8 room, room, ok) at e in cc)
        | inr fail ↦
            rw (fill-next left 0 sd8 room, room, fail, gone)
              (try_window_lem left (0 + length ids) ((sd8 + 1) % 2 ^ 8) r.1).1
      ]

  abbrev window : Tries → Tries
  window s = try_window s.left 0 s.seed s.bits (length ids) (fill_window s.left range 0 s.seed ids)

  window_less :
      (left sd8 : ℕ) (bitmap : Bytes)
      → length ids ≤ mini_batch
      → 0 < left
      → (try_window left 0 sd8 bitmap (length ids) (fill_window left range 0 sd8 ids)).found ≡ false
      → (try_window left 0 sd8 bitmap (length ids) (fill_window left range 0 sd8 ids)).left < left
  window_less zero sd8 bitmap few pos e = absurd (omega arith)
  window_less (suc left) sd8 bitmap few pos e = omega (arith, window_progress left sd8 bitmap few e)

  small_loop-next :
      (fuel : ℕ) (s : Tries)
      → (s.left == 0) ≡ false
      → (window s).found ≡ false
      → small_loop (suc fuel) range s ids ≡ small_loop fuel range (window s) ids
  unfolding small_loop
  small_loop-next fuel s more fail = pick_else _ _ more ∙ pick_else _ _ fail

  small_loop_lem :
      (fuel : ℕ) (s : Tries)
      → length ids ≤ mini_batch
      → s.left < fuel
      → s.found ≡ false
      → (t : Tries) × (small_loop fuel range s ids ≡ some t) × Tried s.bits t
  unfolding small_loop
  small_loop_lem zero s few lt new = absurd (omega arith)
  small_loop_lem (suc fuel) s few lt new = elim (Bool-cases (s.left == 0)) [
    | inl none_left ↦ (s, rw none_left refl, (λ e. absurd cc, λ e q. refl))
    | inr more ↦
        let w = window s in
        let ((good, bad), le) = try_window_lem s.left 0 s.seed s.bits in
        elim (Bool-cases w.found) [
          | inl ok ↦ (w, rw (more, ok) refl, (good, bad))
          | inr fail ↦
              let less : w.left < s.left =
                window_less s.left s.seed s.bits few (ground arith) fail in
              let (t, e, (a, b)) = small_loop_lem fuel w few (omega arith) fail in
              (
                t,
                small_loop-next fuel s more fail ∙ e,
                (
                  λ f. Filled-Same s.bits w.bits t.bits _ (bad fail) (a f),
                  λ f q. b f q ∙ bad fail q,
                ),
              )
        ]
  ]

  -- `TryToMapSmall` ends, for any number of tries of at most a mini batch of keys.
  pub try_to_map_small_lem :
      (n sd8 : ℕ) (bitmap : Bytes)
      → length ids ≤ mini_batch
      → (t : Tries) × (try_to_map_small n range sd8 bitmap ids ≡ some t) × Tried bitmap t
  unfolding try_to_map_small
  try_to_map_small_lem n sd8 bitmap few =
      small_loop_lem (suc n) (record { found = false; left = n; seed = sd8; bits = bitmap }) few
        (omega arith) refl

-- One key.
module _ (range : DivisorMr) (id : V96) where
  abbrev pub Single : Bytes → Bool × ℕ × Bytes → Type 0
  Single bitmap r =
      (r.0 ≡ true → Filled bitmap (position range r.1 id ∷ []) r.2)
      × (r.0 ≡ false → Same bitmap r.2)

  first_free_lem :
      (n sd8 : ℕ) (bitmap : Bytes) → Single bitmap (first_free sd8 bitmap (seeds n range sd8 id))
  unfolding first_free seeds
  first_free_lem zero sd8 bitmap = (λ e. absurd cc, λ e q. refl)
  first_free_lem (suc n) sd8 bitmap = elim (Bool-cases (test_bit bitmap (position range sd8 id))) [
    | inl taken ↦
        rw (test_and_set_bit_eq bitmap (position range sd8 id), taken)
          (first_free_lem n ((sd8 + 1) % 2 ^ 8) bitmap)
    | inr free ↦
        rw (test_and_set_bit_eq bitmap (position range sd8 id), free)
          (λ e. Filled-single bitmap (position range sd8 id) free, λ e. absurd cc)
  ]

  Single-Same :
      (bitmap mid : Bytes) (r : Bool × ℕ × Bytes) → Same bitmap mid → Single mid r → Single bitmap r
  Single-Same bitmap mid r same (a, b) = (
    λ e. Filled-Same bitmap mid r.2 (position range r.1 id ∷ []) same (a e),
    λ e q. b e q ∙ same q,
  )

  pub single_loop_lem :
      (k remain sd8 : ℕ) (bitmap : Bytes) → Single bitmap (single_loop k range id remain sd8 bitmap)
  unfolding single_loop mini_batch_try
  single_loop_lem zero remain sd8 bitmap = first_free_lem remain sd8 bitmap
  single_loop_lem (suc k) remain sd8 bitmap =
      let r = mini_batch_try range id mini_batch sd8 bitmap in
      let s = first_free_lem mini_batch sd8 bitmap in
      elim (Bool-cases r.0) [
        | inl ok ↦ rw ok (λ e. s.0 ok, λ e. absurd cc)
        | inr fail ↦
            rw fail (
              Single-Same bitmap r.2 _ (s.1 fail) (single_loop_lem k (remain - mini_batch) r.1 r.2))
      ]
