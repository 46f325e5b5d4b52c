-- ===== src/Piece/Scan.antt =====
-- The scan over the buckets places every key once, by the seed in the cell of its bucket.
use fast_chd.Base.{
  ℕ, ◌+◌, ◌-◌, ◌%◌, ◌^◌, ◌<◌, ◌≡◌, ◌≢◌, ◌∙◌, refl, sym, ap, arith, Bool, true, false, not, ◌&&◌,
  ◌==◌, if◌then◌else◌,
}
use fast_chd.Base.{
  List, [], ◌∷◌, ◌++◌, map, length, length-append, Bool-cases, ◌⊎◌, inl, inr, some, store,
  store_self, store_ne,
}
use fast_chd.Bitmap.{Bytes}
use fast_chd.Divisor.{DivisorMr}
use fast_chd.Hash.{V96}
use fast_chd.Mapping.{position, BuildStatus, build_ok, conflict, out_of_chance, Mapped, mapping}
use fast_chd.Mapping.Held.{Filled, Filled-append}
use fast_chd.Mapping.Law.{Settled, mapping_lem}
use fast_chd.Mapping.Small.{pick_then, pick_else}
use fast_chd.Mapping.Undo.{places}
use fast_chd.Piece.{bucket, Scanned, is_ok, close, scan}
use mathlib.Core.Option
use mathlib.Core.Path.{subst}
use mathlib.Core.List.{append_assoc, append-nil}

pub bad-is_ok : (m : BuildStatus) → (m ≡ conflict) ⊎ (m ≡ out_of_chance) → is_ok m ≡ false
unfolding is_ok
bad-is_ok m (inl e) = rw e refl
bad-is_ok m (inr e) = rw e refl

module _ (l1bd l2sz : DivisorMr) where
  -- Every identity is in bucket `b`, or none is.
  abbrev pub inside : ℕ → List V96 → Bool
  inside b [] = true
  inside b (x ∷ xs) = (bucket l1bd x == b) && inside b xs

  abbrev pub outside : ℕ → List V96 → Bool
  outside b [] = true
  outside b (x ∷ xs) = not (bucket l1bd x == b) && outside b xs

  -- The identities of a bucket stand together, from those of `last` on.
  abbrev pub contiguous : ℕ → List V96 → Bool
  contiguous last [] = true
  contiguous last (x ∷ xs) =
      if bucket l1bd x == last
      then contiguous last xs
      else not (bucket l1bd x == last) && outside last xs && contiguous (bucket l1bd x) xs

  -- The position that a lookup computes.
  unfoldable pub spot : Bytes → V96 → ℕ
  spot cells x = position l2sz (cells (bucket l1bd x)) x

  spot-run :
      (b sd8 : ℕ) (cells : Bytes) (run : List V96)
      → inside b run ≡ true
      → cells b ≡ sd8
      → places l2sz sd8 run ≡ map (spot cells) run
  unfolding spot
  spot-run b sd8 cells [] h e = refl
  spot-run b sd8 cells (x ∷ xs) h e =
      let here : bucket l1bd x ≡ b = ground arith in
      let rest = spot-run b sd8 cells xs (ground arith) e in rw (here, e, rest) refl

  inside-snoc :
      (b : ℕ) (run : List V96) (x : V96)
      → inside b run ≡ true
      → bucket l1bd x ≡ b
      → inside b (run ++ (x ∷ [])) ≡ true
  inside-snoc b [] x h e = ground arith
  inside-snoc b (y ∷ ys) x h e = ground (arith, h, inside-snoc b ys x (ground arith) e)

  map-append : (f : V96 → ℕ) (xs ys : List V96) → map f (xs ++ ys) ≡ map f xs ++ map f ys
  map-append f [] ys = refl
  map-append f (x ∷ xs) ys = ap (λ l. f x ∷ l) (map-append f xs ys)

  -- What a scan of `run ++ rest` gives: on success, all the positions by the final cells; the cells of
  -- buckets that do not occur are untouched.
  pub record Placed (last : ℕ) (run rest : List V96) (cells bits : Bytes) (s : Scanned)
      : Type 0 where
    pub kept : (q : ℕ) → q ≢ last → outside q rest ≡ true → s.cells q ≡ cells q
    pub filled : Filled bits (map (spot s.cells) (run ++ rest)) s.bits

  abbrev pub Ends : ℕ → List V96 → List V96 → Bytes → Bytes → Scanned → Type 0
  Ends last run rest cells bits s =
      ((s.status ≡ build_ok) × Placed last run rest cells bits s)
      ⊎ ((s.status ≡ conflict) ⊎ (s.status ≡ out_of_chance))

  -- The seed of a bucket that is closed stays, and places its keys.
  join :
      (last : ℕ) (run : List V96) (x : V96) (xs : List V96) (cells bits : Bytes) (m : Mapped)
      (s : Scanned)
      → inside last run ≡ true
      → bucket l1bd x ≢ last
      → outside last xs ≡ true
      → Filled bits (places l2sz m.sd8 run) m.bitmap
      → Placed (bucket l1bd x) (x ∷ []) xs (store cells last m.sd8) m.bitmap s
      → Placed last run (x ∷ xs) cells bits s
  join last run x xs cells bits m s ins ne out fill p =
      let seed : s.cells last ≡ m.sd8 =
        p.kept last (λ e. ne (sym e)) out ∙ store_self cells last m.sd8 last refl in
      let mine : places l2sz m.sd8 run ≡ map (spot s.cells) run =
        spot-run last m.sd8 s.cells run ins seed in
      record {
        kept = λ q new all.
            p.kept q (apart q x xs all) (ground (arith, all)) ∙ store_ne cells last m.sd8 q new;
        filled =
            subst (λ l. Filled bits l s.bits) (sym (map-append (spot s.cells) run (x ∷ xs)))
              (Filled-append bits m.bitmap s.bits (map (spot s.cells) run)
                (map (spot s.cells) (x ∷ xs)) (subst (λ l. Filled bits l m.bitmap) mine fill)
                p.filled);
      }
    where
      apart : (q : ℕ) (x : V96) (xs : List V96) → outside q (x ∷ xs) ≡ true → q ≢ bucket l1bd x
      apart q x xs all e = ground arith

  close-ok :
      (last : ℕ) (cells : Bytes) (m : Mapped)
      → m.status ≡ build_ok
      → (close last cells m).cells ≡ store cells last m.sd8
  unfolding close is_ok
  close-ok last cells m ok = rw ok refl

  -- The last bucket.
  stop :
      (last : ℕ) (run : List V96) (cells bits : Bytes) (m : Mapped)
      → inside last run ≡ true
      → Settled l2sz run bits m
      → Ends last run [] cells bits (close last cells m)
  unfolding close
  stop last run cells bits m ins (inl (ok, fill)) =
      let seed = store_self cells last m.sd8 last refl in
      let mine = spot-run last m.sd8 (store cells last m.sd8) run ins seed in
      let stored = close-ok last cells m ok in
      inl (
        ok,
        record {
          kept = λ q new all. ap (λ (c : Bytes). c q) stored ∙ store_ne cells last m.sd8 q new;
          filled =
              subst (λ (c : Bytes). Filled bits (map (spot c) (run ++ [])) m.bitmap) (sym stored)
                (subst (λ l. Filled bits (map (spot (store cells last m.sd8)) l) m.bitmap)
                  (sym (append-nil run)) (subst (λ l. Filled bits l m.bitmap) mine fill));
        },
      )
  stop last run cells bits m ins (inr (bad, same)) = inr bad

  module _ (last : ℕ) (run : List V96) (magic : ℕ) (cells bits : Bytes) (x : V96)
      (xs : List V96) where
    scan-same :
        (bucket l1bd x == last) ≡ true
        → scan l1bd l2sz last run magic cells bits (x ∷ xs)
          ≡ scan l1bd l2sz last (run ++ (x ∷ [])) magic cells bits xs
    unfolding scan
    scan-same e = pick_then _ _ e

    scan-other :
        (m : Mapped)
        → (bucket l1bd x == last) ≡ false
        → mapping l2sz magic bits run ≡ some m
        → m.status ≡ build_ok
        → scan l1bd l2sz last run magic cells bits (x ∷ xs)
          ≡ scan l1bd l2sz
              (bucket l1bd x)
              (x ∷ [])
              ((magic + 2 ^ 8 - 1) % 2 ^ 8)
              (store cells last m.sd8)
              m.bitmap
              xs
    unfolding scan is_ok
    scan-other m ne e ok = pick_else _ _ ne ∙ rw e (pick_then _ _ (ap is_ok ok) ∙ close-eq m ok)
      where
        close-eq :
            (m : Mapped)
            → m.status ≡ build_ok
            → scan l1bd l2sz
                (bucket l1bd x)
                (x ∷ [])
                ((magic + 2 ^ 8 - 1) % 2 ^ 8)
                (close last cells m).cells
                m.bitmap
                xs
              ≡ scan l1bd l2sz
                  (bucket l1bd x)
                  (x ∷ [])
                  ((magic + 2 ^ 8 - 1) % 2 ^ 8)
                  (store cells last m.sd8)
                  m.bitmap
                  xs
        close-eq m ok =
            ap
              (λ (c : Bytes).
                scan l1bd l2sz (bucket l1bd x) (x ∷ []) ((magic + 2 ^ 8 - 1) % 2 ^ 8) c m.bitmap xs)
              (close-ok last cells m ok)

    scan-fail :
        (m : Mapped)
        → (bucket l1bd x == last) ≡ false
        → mapping l2sz magic bits run ≡ some m
        → is_ok m.status ≡ false
        → scan l1bd l2sz last run magic cells bits (x ∷ xs) ≡ some (close last cells m)
    unfolding scan
    scan-fail m ne e bad = pick_else _ _ ne ∙ rw (e, bad) refl

  Ends-snoc :
      (last : ℕ) (run : List V96) (x : V96) (xs : List V96) (cells bits : Bytes) (s : Scanned)
      → Ends last (run ++ (x ∷ [])) xs cells bits s
      → Ends last run (x ∷ xs) cells bits s
  Ends-snoc last run x xs cells bits s (inr bad) = inr bad
  Ends-snoc last run x xs cells bits s (inl (ok, p)) = inl (
    ok,
    record {
      kept = λ q new all. p.kept q new (ground (arith, all));
      filled =
          subst (λ l. Filled bits (map (spot s.cells) l) s.bits) (append_assoc run (x ∷ []) xs)
            p.filled;
    },
  )

  Ends-join :
      (last : ℕ) (run : List V96) (x : V96) (xs : List V96) (cells bits : Bytes) (m : Mapped)
      (s : Scanned)
      → inside last run ≡ true
      → bucket l1bd x ≢ last
      → outside last xs ≡ true
      → Filled bits (places l2sz m.sd8 run) m.bitmap
      → Ends (bucket l1bd x) (x ∷ []) xs (store cells last m.sd8) m.bitmap s
      → Ends last run (x ∷ xs) cells bits s
  Ends-join last run x xs cells bits m s ins ne out fill (inr bad) = inr bad
  Ends-join last run x xs cells bits m s ins ne out fill (inl (ok, p)) =
      inl (ok, join last run x xs cells bits m s ins ne out fill p)

  close-status :
      (last : ℕ) (cells : Bytes) (m : Mapped)
      → (m.status ≡ conflict) ⊎ (m.status ≡ out_of_chance)
      → ((close last cells m).status ≡ conflict) ⊎ ((close last cells m).status ≡ out_of_chance)
  unfolding close
  close-status last cells m h = h

  -- The scan ends: with every key placed, or with the status of the bucket that failed.
  pub scan_lem :
      (last : ℕ) (run : List V96) (magic : ℕ) (cells bits : Bytes) (rest : List V96)
      → 0 < length run
      → inside last run ≡ true
      → contiguous last rest ≡ true
      → (s : Scanned) × (scan l1bd l2sz last run magic cells bits rest ≡ some s)
        × Ends last run rest cells bits s
  unfolding scan
  scan_lem last run magic cells bits [] pos ins con =
      let (m, e, h) = mapping_lem l2sz magic bits run pos in
      (close last cells m, ap (Option.map (close last cells)) e, stop last run cells bits m ins h)
  scan_lem last run magic cells bits (x ∷ xs) pos ins con =
      elim (Bool-cases (bucket l1bd x == last)) [
        | inl same ↦
            let (s, e, ends) =
              scan_lem last (run ++ (x ∷ [])) magic cells bits xs
                (omega (arith, length-append run (x ∷ [])))
                (inside-snoc last run x ins (ground arith)) (ground arith) in
            (
              s,
              scan-same last run magic cells bits x xs same ∙ e,
              Ends-snoc last run x xs cells bits s ends,
            )
        | inr other ↦
            let (m, e, h) = mapping_lem l2sz magic bits run pos in
            elim h [
              | inl (ok, fill) ↦
                  let (s, e2, ends) =
                    scan_lem (bucket l1bd x) (x ∷ []) ((magic + 2 ^ 8 - 1) % 2 ^ 8)
                      (store cells last m.sd8) m.bitmap xs (omega arith) (ground arith)
                      (ground arith) in
                  (
                    s,
                    scan-other last run magic cells bits x xs m other e ok ∙ e2,
                    Ends-join last run x xs cells bits m s ins (λ q. ground arith) (ground arith)
                        fill ends,
                  )
              | inr (bad, same) ↦ (
                close last cells m,
                scan-fail last run magic cells bits x xs m other e (bad-is_ok m.status bad),
                inr (close-status last cells m bad),
              )
            ]
      ]
