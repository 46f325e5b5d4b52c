-- ===== src/Dump/Layout.antt =====
-- Where the parts of a dumped index stand.
use fast_chd.Base.{
  ℕ, ◌+◌, ◌-◌, ◌*◌, ◌≡◌, ◌∙◌, refl, sym, ap, arith, Bool, ltb, Bool-cases, Option-cases, inl, inr,
  Option, none, some,
}
use fast_chd.Base.{List, [], ◌∷◌, ◌++◌, length, replicate}
use fast_chd.Dump.{
  header_bytes, item_bytes, Sink, write, write_each, cell_bytes, section_bytes, cells_end,
  write_padding, and_then, dump_index,
}
use fast_chd.Format.{align32}
use fast_chd.Pack.{Header}
use fast_chd.Pack.Rounds.{some_inj}
use fast_chd.Piece.{IndexPiece}
use mathlib.Core.List.{append_assoc, append-nil}

abbrev pub all_bytes : (IndexPiece → List ℕ) → List IndexPiece → List ℕ
all_bytes f [] = []
all_bytes f (p ∷ ps) = f p ++ all_bytes f ps

abbrev pub padding : ℕ → List ℕ
padding n = replicate (align32 n - n) 0

abbrev pub layout : Header → List IndexPiece → List ℕ
layout h ps =
    header_bytes h
    ++ (item_bytes ps
        ++ (all_bytes cell_bytes ps
            ++ (padding (cells_end (20 + length ps * 4) ps) ++ all_bytes section_bytes ps)))

-- `s` became `t` by the bytes given.
abbrev Adds : Option Sink → Sink → List ℕ → Type 0
Adds o s bytes = (t : Sink) → o ≡ some t → t.bytes ≡ s.bytes ++ bytes

module _ (accept : ℕ → Bool) where
  write-Adds : (bytes : List ℕ) (s : Sink) → Adds (write accept bytes s) s bytes
  unfolding write
  write-Adds bytes s t e = elim (Bool-cases (accept s.calls)) [
    | inl ok ↦ sym (ap (λ (x : Sink). x.bytes) (some_inj (rw (write, ok) at e)))
    | inr bad ↦ absurd (let e' = rw (write, bad) at e in cc)
  ]

  then-Adds :
      (o : Option Sink) (f : Sink → Option Sink) (s : Sink) (xs ys : List ℕ)
      → Adds o s xs
      → ((t : Sink) → Adds (f t) t ys)
      → Adds (and_then o f) s (xs ++ ys)
  unfolding and_then
  then-Adds none f s xs ys a b t e = absurd cc
  then-Adds (some u) f s xs ys a b t e =
      b u t e ∙ ap (λ (l : List ℕ). l ++ ys) (a u refl) ∙ append_assoc s.bytes xs ys

  each-Adds :
      (f : IndexPiece → List ℕ) (ps : List IndexPiece) (s : Sink)
      → Adds (write_each accept f ps s) s (all_bytes f ps)
  unfolding write_each
  each-Adds f [] s t e = ap (λ (x : Sink). x.bytes) (sym (some_inj e)) ∙ sym (append-nil s.bytes)
  each-Adds f (p ∷ ps) s t e = elim (Option-cases (write accept (f p) s)) [
    | inl stop ↦ absurd (let e' = rw (write_each, stop) at e in cc)
    | inr (u, go) ↦
        each-Adds f ps u t (rw (write_each, go) at e)
        ∙ ap (λ (l : List ℕ). l ++ all_bytes f ps) (write-Adds (f p) s u go)
        ∙ append_assoc s.bytes (f p) (all_bytes f ps)
  ]

  padding-Adds : (n : ℕ) (s : Sink) → Adds (write_padding accept n s) s (padding n)
  unfolding write_padding
  padding-Adds n s t e = elim (Bool-cases (ltb n (align32 n))) [
    | inl less ↦ write-Adds (padding n) s t (rw (write_padding, less) at e)
    | inr not_less ↦
        let none_left : align32 n - n ≡ 0 = ground arith in
        let same : s ≡ t = some_inj (rw (write_padding, not_less) at e) in
        rw none_left (ap (λ (x : Sink). x.bytes) (sym same) ∙ sym (append-nil s.bytes))
  ]

  -- Whatever the writer accepts: when `DumpIndex` returns true, exactly the layout has been written.
  pub dump_index_lem :
      (h : Header) (ps : List IndexPiece) (s t : Sink)
      → dump_index accept h ps s ≡ some t
      → t.bytes ≡ s.bytes ++ layout h ps
  unfolding dump_index
  dump_index_lem h [] s t e = absurd cc
  dump_index_lem h (p ∷ ps) s t e =
      then-Adds (write accept (header_bytes h) s) _ s (header_bytes h) _
        (write-Adds (header_bytes h) s)
        (λ a.
          then-Adds (write accept (item_bytes (p ∷ ps)) a) _ a (item_bytes (p ∷ ps)) _
            (write-Adds (item_bytes (p ∷ ps)) a)
            (λ b.
              then-Adds (write_each accept cell_bytes (p ∷ ps) b) _ b
                (all_bytes cell_bytes (p ∷ ps)) _ (each-Adds cell_bytes (p ∷ ps) b)
                (λ c.
                  then-Adds (write_padding accept (cells_end (20 + length (p ∷ ps) * 4) (p ∷ ps)) c)
                    _ c (padding (cells_end (20 + length (p ∷ ps) * 4) (p ∷ ps))) _
                    (padding-Adds (cells_end (20 + length (p ∷ ps) * 4) (p ∷ ps)) c)
                    (each-Adds section_bytes (p ∷ ps)))))
        t e
