-- ===== src/Piece/Cells.antt =====
-- Every cell that the scan writes is a byte.
use mathlib.Core.Option
use mathlib.Core.Path.{subst}
use fast_chd.Base.{ℕ, ◌+◌, ◌-◌, ◌%◌, ◌^◌, ◌<◌, ◌≡◌, refl, arith, ◌==◌, ==_iff}
use fast_chd.Base.{
  List, [], ◌∷◌, ◌++◌, Bool-cases, inl, inr, Option, none, some, store, store_self, store_ne,
}
use fast_chd.Bitmap.{Bytes}
use fast_chd.Divisor.{DivisorMr}
use fast_chd.Hash.{V96}
use fast_chd.Mapping.{Mapped, mapping}
use fast_chd.Mapping.Seed.{either, mapping_seed}
use fast_chd.Piece.{bucket, Scanned, is_ok, close, scan}

abbrev pub AllBytes : Bytes → Type 0
AllBytes cells = (q : ℕ) → cells q < 256

store-AllBytes : (cells : Bytes) (k v : ℕ) → AllBytes cells → v < 256 → AllBytes (store cells k v)
store-AllBytes cells k v h l q = elim (Bool-cases (q == k)) [
  | inl e ↦ rw (store_self cells k v q ((==_iff q k).0 e)) l
  | inr n ↦ rw (store_ne cells k v q (λ e. ground arith)) (h q)
]

close-AllBytes :
    (last : ℕ) (cells : Bytes) (m : Mapped)
    → AllBytes cells
    → m.sd8 < 256
    → AllBytes (close last cells m).cells
unfolding close
close-AllBytes last cells m h l =
    either AllBytes (is_ok m.status) _ _ (store-AllBytes cells last m.sd8 h l) h

abbrev Ends : Option Scanned → Type 0
Ends o = (s : Scanned) → o ≡ some s → AllBytes s.cells

Ends-some : (s : Scanned) → AllBytes s.cells → Ends (some s)
Ends-some s h t e = let same : s ≡ t = cc in subst (λ (x : Scanned). AllBytes x.cells) same h

-- What follows a bucket, once its seed is a byte.
Ends-after :
    (o : Option Mapped) (f : Mapped → Option Scanned)
    → ((m : Mapped) → o ≡ some m → m.sd8 < 256)
    → ((m : Mapped) → m.sd8 < 256 → Ends (f m))
    → Ends (elim o [ none ↦ none | some m ↦ f m ])
Ends-after none f h k = λ s e. absurd cc
Ends-after (some m) f h k = k m (h m refl)

Ends-map :
    (o : Option Mapped) (f : Mapped → Scanned)
    → ((m : Mapped) → o ≡ some m → m.sd8 < 256)
    → ((m : Mapped) → m.sd8 < 256 → AllBytes (f m).cells)
    → Ends (Option.map f o)
Ends-map none f h k = λ s e. absurd cc
Ends-map (some m) f h k = Ends-some (f m) (k m (h m refl))

pub scan_cells :
    (l1bd l2sz : DivisorMr) (last : ℕ) (run : List V96) (magic : ℕ) (cells bits : Bytes)
    (rest : List V96)
    → magic < 256
    → AllBytes cells
    → Ends (scan l1bd l2sz last run magic cells bits rest)
unfolding scan
scan_cells l1bd l2sz last run magic cells bits [] h k =
    Ends-map (mapping l2sz magic bits run) (close last cells)
      (λ m. mapping_seed l2sz magic bits run m h) (λ m. close-AllBytes last cells m k)
scan_cells l1bd l2sz last run magic cells bits (x ∷ xs) h k =
    either Ends (bucket l1bd x == last) _ _
      (scan_cells l1bd l2sz last (run ++ (x ∷ [])) magic cells bits xs h k)
      (Ends-after (mapping l2sz magic bits run) _ (λ m. mapping_seed l2sz magic bits run m h)
        (λ m l.
          let s = close last cells m in
          either Ends (is_ok m.status) _ _
            (scan_cells l1bd l2sz (bucket l1bd x) (x ∷ []) ((magic + 2 ^ 8 - 1) % 2 ^ 8) s.cells
              s.bits xs (omega arith) (close-AllBytes last cells m k l))
            (Ends-some s (close-AllBytes last cells m k l))))
