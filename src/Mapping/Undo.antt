-- ===== src/Mapping/Undo.antt =====
-- A placement that succeeds adds exactly the positions of its keys, and one that fails leaves no trace.
use fast_chd.Base.{
  ℕ, zero, suc, ◌+◌, ◌-◌, ◌/◌, ◌%◌, ◌^◌, ◌≡◌, ◌∙◌, refl, sym, ap, arith, Bool, true, false,
}
use fast_chd.Base.{
  List, [], ◌∷◌, ◌++◌, map, length, take, drop, take-append-drop, Bool-cases, inl, inr,
}
use fast_chd.Bitmap.{Bytes, test_bit, set_bit}
use fast_chd.Bitmap.Laws.{test_and_set_bit_eq}
use fast_chd.Divisor.{DivisorMr}
use fast_chd.Hash.{V96}
use fast_chd.Mapping.Held.{Filled, Same, Filled-append, Filled-single, undone}
use fast_chd.Mapping.{
  mini_batch, position, clear_bits, set_or_undo, mini_batch_mapping, large_round, try_to_map_large,
}
use mathlib.Core.Path.{subst}
use mathlib.Core.List.{append-nil, append_assoc}

pub Filled-Same :
    (old mid now : Bytes) (ps : List ℕ) → Same old mid → Filled mid ps now → Filled old ps now
Filled-Same old mid now ps same h q = omega (arith, h q, same q)

-- A result that adds `ps` to `old` where it is a success, and leaves `old` where it is not.
abbrev pub Outcome : Bytes → List ℕ → Bool × Bytes → Type 0
Outcome old ps r = (r.0 ≡ true → Filled old ps r.1) × (r.0 ≡ false → Same old r.1)

set_or_undo-taken :
    (bitmap : Bytes) (p : ℕ) (ps done : List ℕ)
    → test_bit bitmap p ≡ true
    → set_or_undo bitmap (p ∷ ps) done ≡ (false, clear_bits bitmap done)
unfolding set_or_undo
set_or_undo-taken bitmap p ps done h = rw (test_and_set_bit_eq bitmap p, h) refl

set_or_undo-free :
    (bitmap : Bytes) (p : ℕ) (ps done : List ℕ)
    → test_bit bitmap p ≡ false
    → set_or_undo bitmap (p ∷ ps) done ≡ set_or_undo (set_bit bitmap p) ps (done ++ (p ∷ []))
unfolding set_or_undo
set_or_undo-free bitmap p ps done h = rw (test_and_set_bit_eq bitmap p, h) refl

pub set_or_undo_lem :
    (old : Bytes) (ps done : List ℕ) (bitmap : Bytes)
    → Filled old done bitmap
    → Outcome old (done ++ ps) (set_or_undo bitmap ps done)
set_or_undo_lem old [] done bitmap h =
    unfold set_or_undo in
    (λ e. subst (λ l. Filled old l bitmap) (sym (append-nil done)) h, λ e. absurd cc)
set_or_undo_lem old (p ∷ ps) done bitmap h = elim (Bool-cases (test_bit bitmap p)) [
  | inl taken ↦
      subst (Outcome old (done ++ (p ∷ ps))) (sym (set_or_undo-taken bitmap p ps done taken))
        (λ e. absurd cc, λ e. undone old done bitmap h)
  | inr free ↦
      subst (Outcome old (done ++ (p ∷ ps))) (sym (set_or_undo-free bitmap p ps done free)) (
        subst (λ l. Outcome old l (set_or_undo (set_bit bitmap p) ps (done ++ (p ∷ []))))
          (append_assoc done (p ∷ []) ps)
          (set_or_undo_lem old ps (done ++ (p ∷ [])) (set_bit bitmap p) (
            Filled-append old bitmap (set_bit bitmap p) done (p ∷ []) h
              (Filled-single bitmap p free))))
]

module _ (range : DivisorMr) where
  abbrev pub places : ℕ → List V96 → List ℕ
  places sd8 ids = map (position range sd8) ids

  pub mini_batch_mapping_lem :
      (sd8 : ℕ) (bitmap : Bytes) (ids : List V96)
      → Outcome bitmap (places sd8 ids) (mini_batch_mapping range sd8 bitmap ids)
  unfolding mini_batch_mapping
  mini_batch_mapping_lem sd8 bitmap ids =
      set_or_undo_lem bitmap (places sd8 ids) [] bitmap (λ q. omega arith)

  map-places : (sd8 : ℕ) (xs ys : List V96) → places sd8 (xs ++ ys) ≡ places sd8 xs ++ places sd8 ys
  map-places sd8 [] ys = refl
  map-places sd8 (x ∷ xs) ys = ap (λ (l : List ℕ). position range sd8 x ∷ l) (map-places sd8 xs ys)

  -- A failed batch after the batches of `before`.
  cleared :
      (sd8 : ℕ) (old bitmap now : Bytes) (before : List V96)
      → Filled old (places sd8 before) bitmap
      → Same bitmap now
      → Same old (clear_bits now (places sd8 before))
  cleared sd8 old bitmap now before h same = undone old (places sd8 before) now (λ q. same q ∙ h q)

  large_round_lem :
      (k sd8 : ℕ) (old bitmap : Bytes) (before tail : List V96)
      → Filled old (places sd8 before) bitmap
      → Outcome old (places sd8 (before ++ tail)) (large_round k range sd8 bitmap before tail)
  unfolding large_round
  large_round_lem zero sd8 old bitmap before tail h =
      let r = mini_batch_mapping range sd8 bitmap tail in
      let (good, bad) = mini_batch_mapping_lem sd8 bitmap tail in
      elim (Bool-cases r.0) [
        | inl ok ↦ rw ok (
          λ e.
              subst (λ l. Filled old l r.1) (sym (map-places sd8 before tail))
                (Filled-append old bitmap r.1 (places sd8 before) (places sd8 tail) h (good ok)),
          λ e. absurd cc,
        )
        | inr fail ↦ rw fail (λ e. absurd cc, λ e. cleared sd8 old bitmap r.1 before h (bad fail))
      ]
  large_round_lem (suc k) sd8 old bitmap before tail h =
      let first = take mini_batch tail in
      let r = mini_batch_mapping range sd8 bitmap first in
      let (good, bad) = mini_batch_mapping_lem sd8 bitmap first in
      elim (Bool-cases r.0) [
        | inl ok ↦ rw ok (
            subst
              (λ l.
                Outcome old (places sd8 l)
                  (large_round k range sd8 r.1 (before ++ first) (drop mini_batch tail)))
              (append_assoc before first (drop mini_batch tail)
                ∙ ap (λ (l : List V96). before ++ l) (take-append-drop mini_batch tail))
              (large_round_lem k sd8 old r.1 (before ++ first) (drop mini_batch tail) (
                subst (λ l. Filled old l r.1) (sym (map-places sd8 before first))
                  (Filled-append old bitmap r.1 (places sd8 before) (places sd8 first) h
                    (good ok)))))
        | inr fail ↦ rw fail (λ e. absurd cc, λ e. cleared sd8 old bitmap r.1 before h (bad fail))
      ]

  -- For any number of tries, seed, bitmap and keys: when `TryToMapLarge` returns true, the bitmap holds
  -- what it held and, once each, the positions of the keys by the seed that comes out; when it returns
  -- false, it holds what it held.
  pub try_to_map_large_lem :
      (n sd8 : ℕ) (bitmap : Bytes) (ids : List V96)
      → ((try_to_map_large n range sd8 bitmap ids).0 ≡ true
          → Filled bitmap
              (places (try_to_map_large n range sd8 bitmap ids).1 ids)
              (try_to_map_large n range sd8 bitmap ids).2)
        × ((try_to_map_large n range sd8 bitmap ids).0 ≡ false
            → Same bitmap (try_to_map_large n range sd8 bitmap ids).2)
  unfolding try_to_map_large
  try_to_map_large_lem zero sd8 bitmap ids = (λ e. absurd cc, λ e q. refl)
  try_to_map_large_lem (suc n) sd8 bitmap ids =
      let r = large_round ((length ids - 1) / mini_batch) range sd8 bitmap [] ids in
      let (good, bad) =
        large_round_lem ((length ids - 1) / mini_batch) sd8 bitmap bitmap [] ids
          (λ q. omega arith) in
      elim (Bool-cases r.0) [
        | inl ok ↦ rw ok (λ e. good ok, λ e. absurd cc)
        | inr fail ↦
            let (a, b) = try_to_map_large_lem n ((sd8 + 1) % 2 ^ 8) r.1 ids in
            rw fail (λ e. Filled-Same bitmap r.1 _ _ (bad fail) (a e), λ e q. b e q ∙ bad fail q)
      ]
