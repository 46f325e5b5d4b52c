-- ===== src/Driver/Lengths.antt =====
-- What the entry points write in the header is what the loader takes.
use fast_chd.Base.{
  ℕ, ◌^◌, ◌≤◌, ◌<◌, ◌≡◌, refl, arith, Bool, true, false, not, ◌==◌, Bool-cases, Option-cases, inl,
  inr, some,
}
use fast_chd.Base.{List, [], ◌∷◌}
use fast_chd.Driver.{
  Reader, bad_slice, max_key_len, max_inline_value_len, detect_key_value_len, BasicInfo, index_info,
  set_info, dict_info, varied_info, make_header,
}
use fast_chd.Pack.Rounds.{unguard, some_inj}
use mathlib.Core.Path.{subst}
use fast_chd.Pack.{check_type}
use fast_chd.Value.{offset_field_size}
use fast_chd.Table.{TableType, index_only, key_set, kv_inline, kv_separated, type_code}

-- Lengths that fit their fields; a value has one where it is asked for.
abbrev pub Lengths : Bool → ℕ × ℕ → Type 0
Lengths wants l =
    (0 < l.0) × (l.0 ≤ max_key_len) × (l.1 ≤ max_inline_value_len) × (wants ≡ true → 0 < l.1)

detect_key_value_len_lem :
    (wants : Bool) (in_ : List Reader) (l : ℕ × ℕ)
    → detect_key_value_len wants in_ ≡ some l
    → Lengths wants l
unfolding detect_key_value_len bad_slice
detect_key_value_len_lem wants [] l e = absurd cc
detect_key_value_len_lem wants ([] ∷ rs) l e = detect_key_value_len_lem wants rs l e
detect_key_value_len_lem wants ((r ∷ more) ∷ rs) l e =
    let (key, e1) = unguard (bad_slice max_key_len r.key) e in
    elim (Bool-cases (not wants)) [
      | inl plain ↦
          subst (Lengths wants) (some_inj (rw plain at e1))
            (ground arith, ground arith, omega arith, λ w. absurd cc)
      | inr both ↦
          let (val, e2) = unguard (bad_slice max_inline_value_len r.val) (rw both at e1) in
          subst (Lengths wants) (some_inj e2)
            (ground arith, ground arith, ground arith, λ w. ground arith)
    ]

module _ (total seed parts : ℕ) where
  -- The header is taken as a file of its type, and its lengths fit their fields.
  abbrev pub Taken : TableType → BasicInfo → Type 0
  Taken type info =
      (check_type (make_header info total seed parts) ≡ some type)
      × (info.key_len < 2 ^ 8)
      × (info.val_len < 2 ^ 16)

  key_set-Taken :
      (k : ℕ)
      → 0 < k
      → k ≤ max_key_len
      → Taken key_set (record { type = key_set; key_len = k; val_len = 0 })
  unfolding check_type make_header type_code
  key_set-Taken k lo hi =
      let e : (k == 0) ≡ false = ground arith in rw e (refl, omega arith, omega arith)

  kv_inline-Taken :
      (k v : ℕ)
      → 0 < k
      → k ≤ max_key_len
      → 0 < v
      → v ≤ max_inline_value_len
      → Taken kv_inline (record { type = kv_inline; key_len = k; val_len = v })
  unfolding check_type make_header type_code
  kv_inline-Taken k v lo hi lo2 hi2 =
      let e : (k == 0) ≡ false = ground arith in
      let f : (v == 0) ≡ false = ground arith in rw (e, f) (refl, omega arith, omega arith)

  kv_separated-Taken :
      (k : ℕ)
      → 0 < k
      → k ≤ max_key_len
      → Taken kv_separated
          (record { type = kv_separated; key_len = k; val_len = offset_field_size })
  unfolding check_type make_header type_code
  kv_separated-Taken k lo hi =
      let e : (k == 0) ≡ false = ground arith in rw e (refl, omega arith, omega arith)

  set_info-Taken :
      (in_ : List Reader) (info : BasicInfo) → set_info in_ ≡ some info → Taken key_set info
  unfolding set_info
  set_info-Taken in_ info e = elim (Option-cases (detect_key_value_len false in_)) [
    | inl stop ↦ absurd (let e' = rw (set_info, stop) at e in cc)
    | inr (l, go) ↦
        let (lo, hi, top, unused) = detect_key_value_len_lem false in_ l go in
        subst (Taken key_set) (some_inj (rw (set_info, go) at e)) (key_set-Taken l.0 lo hi)
  ]

  dict_info-Taken :
      (in_ : List Reader) (info : BasicInfo) → dict_info in_ ≡ some info → Taken kv_inline info
  unfolding dict_info
  dict_info-Taken in_ info e = elim (Option-cases (detect_key_value_len true in_)) [
    | inl stop ↦ absurd (let e' = rw (dict_info, stop) at e in cc)
    | inr (l, go) ↦
        let (lo, hi, top, pos) = detect_key_value_len_lem true in_ l go in
        subst (Taken kv_inline) (some_inj (rw (dict_info, go) at e))
          (kv_inline-Taken l.0 l.1 lo hi (pos refl) top)
  ]

  varied_info-Taken :
      (in_ : List Reader) (info : BasicInfo) → varied_info in_ ≡ some info → Taken kv_separated info
  unfolding varied_info
  varied_info-Taken in_ info e = elim (Option-cases (detect_key_value_len false in_)) [
    | inl stop ↦ absurd (let e' = rw (varied_info, stop) at e in cc)
    | inr (l, go) ↦
        let (lo, hi, top, unused) = detect_key_value_len_lem false in_ l go in
        subst (Taken kv_separated) (some_inj (rw (varied_info, go) at e))
          (kv_separated-Taken l.0 lo hi)
  ]

  -- For any readers, item count, seed and number of parts: when an entry point gets past the detection
  -- of the lengths, the loader takes the type field and the lengths of its header for a table of the
  -- entry point's type, and the lengths fit their 8 and 16 bits.
  pub info_lem :
      (in_ : List Reader) (info : BasicInfo)
      → (index_info in_ ≡ some info → Taken index_only info)
        × (set_info in_ ≡ some info → Taken key_set info)
        × (dict_info in_ ≡ some info → Taken kv_inline info)
        × (varied_info in_ ≡ some info → Taken kv_separated info)
  unfolding index_info check_type make_header type_code
  info_lem in_ info = (
    λ e. subst (Taken index_only) (some_inj e) (refl, omega arith, omega arith),
    set_info-Taken in_ info,
    dict_info-Taken in_ info,
    varied_info-Taken in_ info,
  )
