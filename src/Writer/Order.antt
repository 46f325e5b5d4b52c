-- ===== src/Writer/Order.antt =====
-- What a writer has been given comes out in order, and what a moved writer loses.
use fast_chd.Base.{
  ℕ, zero, suc, ◌+◌, ◌-◌, ◌*◌, ◌/◌, ◌<◌, ◌≡◌, ◌∙◌, refl, sym, ap, arith, min, ltb, ◌==◌,
  if◌then◌else◌, Option, none, some,
}
use fast_chd.Base.{
  Bool, true, false, not, List, [], ◌∷◌, ◌++◌, length, take, drop, take-append-drop, Bool-cases,
  ◌⊎◌, inl, inr, length-drop, length-append,
}
use mathlib.Core.Path.{subst}
use mathlib.Core.List.{append-nil, append_assoc}
use fast_chd.Writer.{
  Answer, wrote, interrupted, failed, Device, write_all, block_size, FileWriter, buf_size, conclude,
  write_blocks, write_raw, flush_buffer, flush, keep_rest, write_after, write, move_from, destroy,
}

abbrev value_or {ℓ} : {A : Type ℓ} → A → Option A → A
value_or a none = a
value_or a (some b) = b

some_inj {ℓ} : {A : Type ℓ} {a b : A} → some a ≡ some b → a ≡ b
some_inj {a = a} e = ap (value_or a) e

-- `WriteAll` that returns true has put all the bytes behind those of the file.
pub write_all_lem :
    (answers : List Answer) (file bytes : List ℕ) (d : Device)
    → write_all answers file bytes ≡ some (true, d)
    → d.1 ≡ file ++ bytes
unfolding write_all
write_all_lem answers file [] d e =
    ap (λ (r : Bool × Device). r.1.1) (sym (some_inj e)) ∙ sym (append-nil file)
write_all_lem [] file (x ∷ xs) d e = absurd cc
write_all_lem (wrote zero ∷ answers) file (x ∷ xs) d e = absurd cc
write_all_lem (wrote (suc k) ∷ answers) file (x ∷ xs) d e =
    write_all_lem answers _ _ d e
    ∙ append_assoc file (take n (x ∷ xs)) (drop n (x ∷ xs))
    ∙ ap (λ (l : List ℕ). file ++ l) (take-append-drop n (x ∷ xs))
  where
    n : ℕ
    n = min (suc k) (min (length (x ∷ xs)) block_size)
write_all_lem (interrupted ∷ answers) file (x ∷ xs) d e = write_all_lem answers file (x ∷ xs) d e
write_all_lem (failed ∷ answers) file (x ∷ xs) d e = absurd cc

-- A result of a `_write` that succeeded.
abbrev Wrote : FileWriter → List ℕ → FileWriter → Type 0
Wrote w bytes w' =
    (w'.device.1 ≡ w.device.1 ++ bytes) × (w'.buffered ≡ w.buffered) × (w'.opened ≡ w.opened)

module _ (w w' : FileWriter) where
  concluded :
      (r : Option (Bool × Device))
      → elim r [ none ↦ none | some s ↦ some (conclude w s) ] ≡ some (true, w')
      → (d : Device) × (r ≡ some (true, d)) × (record w { device = d } ≡ w')
  unfolding conclude
  concluded none e = absurd cc
  concluded (some (true, d)) e = (d, refl, ap (λ (s : Bool × FileWriter). s.1) (some_inj e))
  concluded (some (false, d)) e = absurd cc

  went_on :
      (r : Option (Bool × Device)) (rest : Device → Option (Bool × FileWriter))
      → elim r [ none ↦ none | some (ok, d) ↦ if ok then rest d else some (conclude w (false, d)) ]
        ≡ some (true, w')
      → (d : Device) × (r ≡ some (true, d)) × (rest d ≡ some (true, w'))
  unfolding conclude
  went_on none rest e = absurd cc
  went_on (some (true, d)) rest e = (d, refl, e)
  went_on (some (false, d)) rest e = absurd cc

write_blocks_lem :
    (n : ℕ) (w : FileWriter) (bytes : List ℕ) (w' : FileWriter)
    → write_blocks n w bytes ≡ some (true, w')
    → Wrote w bytes w'
unfolding write_blocks
write_blocks_lem zero w bytes w' e =
    let (d, went, same) = concluded w w' (write_all w.device.0 w.device.1 bytes) e in
    subst (Wrote w bytes) same (write_all_lem w.device.0 w.device.1 bytes d went, refl, refl)
write_blocks_lem (suc n) w bytes w' e =
    let (d, went, rest) =
      went_on w w' (write_all w.device.0 w.device.1 (take block_size bytes))
        (λ d. write_blocks n (record w { device = d }) (drop block_size bytes)) e in
    let (a, b, c) = write_blocks_lem n (record w { device = d }) (drop block_size bytes) w' rest in
    (
      a
          ∙ ap (λ (l : List ℕ). l ++ drop block_size bytes)
              (write_all_lem w.device.0 w.device.1 (take block_size bytes) d went)
          ∙ append_assoc w.device.1 (take block_size bytes) (drop block_size bytes)
          ∙ ap (λ (l : List ℕ). w.device.1 ++ l) (take-append-drop block_size bytes),
      b,
      c,
    )

write_raw_lem :
    (w : FileWriter) (bytes : List ℕ) (w' : FileWriter)
    → write_raw w bytes ≡ some (true, w')
    → Wrote w bytes w'
unfolding write_raw
write_raw_lem w bytes w' e = write_blocks_lem ((length bytes - 1) / block_size) w bytes w' e

branch {ℓ} :
    {A : Type ℓ} (b : Bool) {x y z : A}
    → (if b then x else y) ≡ z
    → ((b ≡ true) × (x ≡ z)) ⊎ ((b ≡ false) × (y ≡ z))
branch true e = inl (refl, e)
branch false e = inr (refl, e)

empty_list : (l : List ℕ) → (length l == 0) ≡ true → l ≡ []
empty_list [] h = refl
empty_list (x ∷ xs) h = absurd (ground arith)

-- A flush that returns true has put the buffered bytes behind those of the file, and none is left.
flushed :
    (w w' : FileWriter)
    → flush_buffer w ≡ some (true, w')
    → (w'.device.1 ≡ w.device.1 ++ w.buffered) × (w'.buffered ≡ []) × (w'.opened ≡ w.opened)
unfolding flush_buffer
flushed w w' e = elim (branch (length w.buffered == 0) e) [
  | inl (nothing, same) ↦
      let gone = empty_list w.buffered nothing in
      let s = ap (λ (r : Bool × FileWriter). r.1) (some_inj same) in
      subst
        (λ (v : FileWriter).
          (v.device.1 ≡ w.device.1 ++ w.buffered) × (v.buffered ≡ []) × (v.opened ≡ w.opened))
        s
        (sym (append-nil w.device.1) ∙ ap (λ (l : List ℕ). w.device.1 ++ l) (sym gone), gone, refl)
  | inr (_, sent) ↦ write_raw_lem (record w { buffered = [] }) w.buffered w' sent
]

-- The bytes handed to a writer so far: those of the file, and those that wait in the buffer.
abbrev pub given : FileWriter → List ℕ
given w = w.device.1 ++ w.buffered

-- `flush` that returns true leaves nothing in the buffer, and in the file what has been given before.
pub flush_lem :
    (w w' : FileWriter) → flush w ≡ some (true, w') → (w'.device.1 ≡ given w) × (w'.buffered ≡ [])
unfolding flush
flush_lem w w' e = elim (branch w.opened e) [
  | inl (_, sent) ↦ let (a, b, c) = flushed w w' sent in (a, b)
  | inr (_, shut) ↦ absurd cc
]

module _ (w w' : FileWriter) (bytes : List ℕ) where
  kept :
      (m : ℕ) (r : Option (Bool × FileWriter))
      → elim r [ none ↦ none | some s ↦ some (keep_rest (drop m bytes) s) ] ≡ some (true, w')
      → (v : FileWriter) × (r ≡ some (true, v)) × (record v { buffered = drop m bytes } ≡ w')
  unfolding keep_rest
  kept m none e = absurd cc
  kept m (some (true, v)) e = (v, refl, ap (λ (s : Bool × FileWriter). s.1) (some_inj e))
  kept m (some (false, v)) e = absurd cc

  after :
      (r : Option (Bool × FileWriter))
      → elim r [ none ↦ none | some s ↦ write_after bytes s ] ≡ some (true, w')
      → (v : FileWriter) × (r ≡ some (true, v)) × (write_raw v bytes ≡ some (true, w'))
  unfolding write_after
  after none e = absurd cc
  after (some (true, v)) e = (v, refl, e)
  after (some (false, v)) e = absurd cc

  abbrev Given : FileWriter → Type 0
  Given v = (given v ≡ given w ++ bytes) × (length v.buffered < buf_size)

  -- The buffer is filled up and goes out; the rest waits.
  filled :
      (v : FileWriter)
      → length w.buffered + length bytes < buf_size * 2
      → length w.buffered < buf_size
      → write_raw w (w.buffered ++ take (buf_size - length w.buffered) bytes) ≡ some (true, v)
      → Given (record v { buffered = drop (buf_size - length w.buffered) bytes })
  filled v few room sent =
      let m = buf_size - length w.buffered in
      let (a, b, c) = write_raw_lem w (w.buffered ++ take m bytes) v sent in
      (
        ap (λ (l : List ℕ). l ++ drop m bytes) a
            ∙ ap (λ (l : List ℕ). l ++ drop m bytes)
                (sym (append_assoc w.device.1 w.buffered (take m bytes)))
            ∙ append_assoc (given w) (take m bytes) (drop m bytes)
            ∙ ap (λ (l : List ℕ). given w ++ l) (take-append-drop m bytes),
        omega (arith, length-drop m bytes),
      )

  -- `write` that returns true adds the bytes to what has been given, in order, and leaves fewer bytes
  -- than the buffer's size waiting, as there were before.
  pub write_lem :
      length w.buffered < buf_size
      → write w bytes ≡ some (true, w')
      → (given w' ≡ given w ++ bytes) × (length w'.buffered < buf_size)
  unfolding write
  write_lem room e = elim (branch (not w.opened) e) [
    | inl (_, shut) ↦ absurd cc
    | inr (_, e1) ↦ elim (branch (ltb (length w.buffered + length bytes) buf_size) e1) [
      | inl (small, same) ↦ subst Given (ap (λ (r : Bool × FileWriter). r.1) (some_inj same)) (
        sym (append_assoc w.device.1 w.buffered bytes),
        ground (arith, length-append w.buffered bytes),
      )
      | inr (_, e2) ↦ elim (branch (ltb (length w.buffered + length bytes) (buf_size * 2)) e2) [
        | inl (few, e3) ↦
            let (v, sent, same) = kept (buf_size - length w.buffered) _ e3 in
            subst Given same (filled v (ground arith) room sent)
        | inr (_, e3) ↦
            let (v, sent, last) = after (flush_buffer w) e3 in
            let (a, b, c) = flushed w v sent in
            let (x, y, z) = write_raw_lem v bytes w' last in
            (
              ap (λ (l : List ℕ). l ++ w'.buffered) x
                  ∙ ap (λ (l : List ℕ). (v.device.1 ++ bytes) ++ l) (y ∙ b)
                  ∙ append-nil (v.device.1 ++ bytes)
                  ∙ ap (λ (l : List ℕ). l ++ bytes) a,
              omega (arith, ap length (y ∙ b)),
            )
      ]
    ]
  ]

-- A writer that was moved, and its origin, leave in the file when they are destroyed what was in the
-- file before: the bytes that waited in the buffer are lost.
pub destroy-move_from :
    (w : FileWriter)
    → (destroy (move_from w).0 ≡ some w.device) × (destroy (move_from w).1 ≡ some w.device)
unfolding destroy move_from flush_buffer
destroy-move_from w = elim (Bool-cases w.opened) [
  | inl up ↦ (rw up refl, refl)
  | inr down ↦ (rw down refl, refl)
]
