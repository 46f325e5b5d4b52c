-- ===== src/Mapping/Law.antt =====
-- `Mapping` as a whole.
use fast_chd.Base.{ℕ, ◌-◌, ◌/◌, ◌≤◌, ◌<◌, ◌≡◌, ◌∙◌, refl, arith, true, false, ltb}
use fast_chd.Base.{List, [], ◌∷◌, length, Bool-cases, ◌⊎◌, inl, inr, some}
use fast_chd.Bitmap.{Bytes}
use fast_chd.Divisor.{DivisorMr}
use fast_chd.Hash.{V96}
use fast_chd.Mapping.{
  mini_batch, position, Tries, try_to_map_small, try_to_map_large, single_loop, has_conflict, sort,
  build_ok, conflict, out_of_chance, Mapped, map_large, map_small, small_next, small_end,
  map_single, mapping,
}
use fast_chd.Mapping.Held.{Filled, Same}
use fast_chd.Mapping.Undo.{Filled-Same, places, try_to_map_large_lem}
use fast_chd.Mapping.Small.{pick_then, pick_else, Tried, try_to_map_small_lem, single_loop_lem}
use fast_chd.Mapping.Conflict.{count-sort, length-sort}

-- The placement succeeded with the positions of `ids` by the seed that comes out, or it failed and the
-- bitmap holds what it held.
abbrev pub Settled : DivisorMr → List V96 → Bytes → Mapped → Type 0
Settled range ids bitmap m =
    ((m.status ≡ build_ok) × Filled bitmap (places range m.sd8 ids) m.bitmap)
    ⊎ (((m.status ≡ conflict) ⊎ (m.status ≡ out_of_chance)) × Same bitmap m.bitmap)

-- After the conflict check the identities stand in another order.
Filled-sort :
    (range : DivisorMr) (ids : List V96) (old now : Bytes) (sd8 : ℕ)
    → Filled old (places range sd8 (sort ids)) now
    → Filled old (places range sd8 ids) now
Filled-sort range ids old now sd8 h q = h q ∙ omega (arith, count-sort (position range sd8) q ids)

module _ (range : DivisorMr) (ids : List V96) (bitmap : Bytes) where
  map_large_lem : (sd8 : ℕ) → Settled range ids bitmap (map_large range sd8 bitmap ids)
  unfolding map_large has_conflict
  map_large_lem sd8 =
      let r = try_to_map_large 56 range sd8 bitmap ids in
      let (good, bad) = try_to_map_large_lem range 56 sd8 bitmap ids in
      elim (Bool-cases r.0) [
        | inl ok ↦ rw ok (inl (refl, good ok))
        | inr fail ↦ elim (Bool-cases (has_conflict ids).0) [
          | inl twice ↦ rw (fail, twice) (inr (inl refl, bad fail))
          | inr once ↦
              let r2 = try_to_map_large 200 range r.1 r.2 (sort ids) in
              let (good2, bad2) = try_to_map_large_lem range 200 r.1 r.2 (sort ids) in
              elim (Bool-cases r2.0) [
                | inl ok2 ↦
                    rw (fail, once, ok2)
                      (inl (
                        refl,
                        Filled-sort range ids bitmap r2.2 r2.1
                            (Filled-Same bitmap r.2 r2.2 _ (bad fail) (good2 ok2)),
                      ))
                | inr fail2 ↦
                    rw (fail, once, fail2) (inr (inr refl, λ q. bad2 fail2 q ∙ bad fail q))
              ]
        ]
      ]

  small_end_lem :
      (t : Tries)
      → (t.found ≡ true → Filled bitmap (places range t.seed ids) t.bits)
      → (t.found ≡ false → Same bitmap t.bits)
      → Settled range ids bitmap (small_end t)
  unfolding small_end
  small_end_lem t good bad = elim (Bool-cases t.found) [
    | inl ok ↦ rw ok (inl (refl, good ok))
    | inr fail ↦ rw fail (inr (inr refl, bad fail))
  ]

  small_next_lem :
      (t : Tries)
      → length ids ≤ mini_batch
      → Tried range ids bitmap t
      → (m : Mapped) × (small_next range ids t ≡ some m) × Settled range ids bitmap m
  unfolding small_next has_conflict small_end
  small_next_lem t few (good, bad) = elim (Bool-cases t.found) [
    | inl ok ↦ (
      record { sd8 = t.seed; status = build_ok; bitmap = t.bits },
      rw ok refl,
      inl (refl, good ok),
    )
    | inr fail ↦ elim (Bool-cases (has_conflict ids).0) [
      | inl twice ↦ (
        record { sd8 = t.seed; status = conflict; bitmap = t.bits },
        rw (fail, twice) refl,
        inr (inl refl, bad fail),
      )
      | inr once ↦
          let (t2, e2, (good2, bad2)) =
            try_to_map_small_lem range (sort ids) 160 t.seed t.bits
              (omega (arith, length-sort ids)) in
          (
            small_end t2,
            rw (fail, once, e2) refl,
            small_end_lem t2
                (λ ok.
                  Filled-sort range ids bitmap t2.bits t2.seed
                    (Filled-Same bitmap t.bits t2.bits _ (bad fail) (good2 ok)))
                (λ f q. bad2 f q ∙ bad fail q),
          )
    ]
  ]

  map_small-some :
      (sd8 : ℕ) (t : Tries)
      → try_to_map_small 96 range sd8 bitmap ids ≡ some t
      → map_small range sd8 bitmap ids ≡ small_next range ids t
  unfolding map_small
  map_small-some sd8 t e = rw (map_small, e) refl

  map_small_lem :
      (sd8 : ℕ)
      → length ids ≤ mini_batch
      → (m : Mapped) × (map_small range sd8 bitmap ids ≡ some m) × Settled range ids bitmap m
  map_small_lem sd8 few =
      let (t, e, tried) = try_to_map_small_lem range ids 96 sd8 bitmap few in
      let (m, e2, h) = small_next_lem t few tried in (m, map_small-some sd8 t e ∙ e2, h)

map_single_lem :
    (range : DivisorMr) (id : V96) (bitmap : Bytes) (sd8 : ℕ)
    → Settled range (id ∷ []) bitmap (map_single range sd8 bitmap id)
unfolding map_single
map_single_lem range id bitmap sd8 =
    let r = single_loop ((256 - 1) / mini_batch) range id 256 sd8 bitmap in
    let (good, bad) = single_loop_lem range id ((256 - 1) / mini_batch) 256 sd8 bitmap in
    elim (Bool-cases r.0) [
      | inl ok ↦ rw ok (inl (refl, good ok))
      | inr fail ↦ rw fail (inr (inr refl, bad fail))
    ]

-- For every nonempty array of identities, seed and bitmap, `Mapping` ends. Either its status is OK and
-- the bitmap holds what it held and, once each, the positions of the identities by the seed that comes
-- out; or its status is conflict or out of chance and the bitmap holds what it held.
pub mapping_lem :
    (range : DivisorMr) (sd8 : ℕ) (bitmap : Bytes) (ids : List V96)
    → 0 < length ids
    → (m : Mapped) × (mapping range sd8 bitmap ids ≡ some m) × Settled range ids bitmap m
unfolding mapping
mapping_lem range sd8 bitmap [] pos = absurd (omega arith)
mapping_lem range sd8 bitmap (x ∷ []) pos =
    (map_single range sd8 bitmap x, refl, map_single_lem range x bitmap sd8)
mapping_lem range sd8 bitmap (x ∷ y ∷ ids) pos =
    elim (Bool-cases (ltb mini_batch (length (x ∷ y ∷ ids)))) [
      | inl many ↦ (
        map_large range sd8 bitmap (x ∷ y ∷ ids),
        pick_then _ _ many,
        map_large_lem range (x ∷ y ∷ ids) bitmap sd8,
      )
      | inr few ↦
          let (m, e, h) = map_small_lem range (x ∷ y ∷ ids) bitmap sd8 (ground arith) in
          (m, pick_else _ _ few ∙ e, h)
    ]
