-- ===== src/Windows/Law.antt =====
-- `BatchFindPos` gives what one lookup for each key gives, in the order of the keys.
use fast_chd.Base.{
  ℕ, suc, ◌+◌, ◌-◌, ◌*◌, ◌/◌, ◌%◌, ◌^◌, ltb, ◌&&◌, if◌then◌else◌, ◌<◌, ◌≡◌, ◌∙◌, refl, sym, ap,
  arith, min, Bool, true, false, Bool-cases, inl, inr, Option, none, some, List, [], ◌∷◌, ◌++◌,
  each, each_inv, each_congr, each-add, each-store,
}
use fast_chd.Base.Memory.{Memory}
use fast_chd.Hash.Locality.{SameBytes}
use fast_chd.Search.{equal, match_line}
use fast_chd.Table.{PackView, Step1, index_only, is_type, calc1, calc2, key_pos}
use fast_chd.Windows.Reading.{read_keys_lem, match_line_move}
use fast_chd.Windows.{
  Found, Window, no_pos, locate_line, report, read_keys, read_cells, find_lines, give_out,
  batch_find_pos,
}
use native.Mathlib.Nat.{le_refl}

module _ (pack : PackView) (mem : Memory) (key : ℕ → Memory) where
  -- The position of key `k`, if it is one and its line holds the key, and else `UINT64_MAX`.
  abbrev pub find : ℕ → ℕ
  find k =
      let pos = key_pos pack mem (key k) 0 pack.key_len in
      let line = pack.content + pos * pack.line_size % 2 ^ 64 in
      if ltb pos pack.item && equal (key k) 0 mem line pack.key_len then pos else 2 ^ 64 - 1

  -- What the loops of a window give for it.
  abbrev looked_up : ℕ → ℕ
  looked_up k =
      report mem (key k) 0 pack.key_len
        (locate_line pack mem (calc2 mem (calc1 pack (key k) 0 pack.key_len)))

  shown :
      (buf : Memory) (pos line : ℕ) (b : Bool)
      → report mem buf 0 pack.key_len (
          if b
          then record { pos = pos; line = some line }
          else record { pos = no_pos; line = none })
        ≡ (if b && equal buf 0 mem line pack.key_len then pos else 2 ^ 64 - 1)
  unfolding report match_line
  shown buf pos line false = refl
  shown buf pos line true = elim (Bool-cases (equal buf 0 mem line pack.key_len)) [
    | inl same ↦ rw (report, match_line, same) refl
    | inr other ↦ rw (report, match_line, other) refl
  ]

  looked_up-find : (k : ℕ) → looked_up k ≡ find k
  unfolding locate_line key_pos
  looked_up-find k =
      let pos = key_pos pack mem (key k) 0 pack.key_len in
      shown (key k) pos (pack.content + pos * pack.line_size % 2 ^ 64) (ltb pos pack.item)

  report_move :
      (buf kmem : Memory) (a b : ℕ) (s : Found)
      → SameBytes pack.key_len buf a kmem b
      → report mem buf a pack.key_len s ≡ report mem kmem b pack.key_len s
  unfolding report
  report_move buf kmem a b s h =
      ap (λ (o : Option ℕ). elim o [ none ↦ no_pos | some line ↦ s.pos ])
        (match_line_move buf kmem mem a b s.line pack.key_len h)

  -- The line of key `j` of the window, once the four loops are through.
  lines :
      (m j : ℕ) (w : Window)
      → j < m
      → (find_lines pack mem key m (read_cells pack mem key m w)).s3 j
        ≡ locate_line pack mem (calc2 mem (w.s1 j))
  unfolding find_lines read_cells
  lines m j w l =
      each-store m (λ k. locate_line pack mem ((read_cells pack mem key m w).s2 k)) w.s3 j l
      ∙ ap (locate_line pack mem) (each-store m (λ k. calc2 mem (w.s1 k)) w.s2 j l)

  abbrev pub add_find : ℕ → List ℕ → List ℕ
  add_find k out = out ++ (find k ∷ [])

  window_lem :
      (i m : ℕ) (w : Window)
      → (give_out pack mem key m (
          find_lines pack mem key m
            (read_cells pack mem key m (read_keys pack mem key pack.key_len i m w)))).out
        ≡ each m (λ j. add_find (i + j)) w.out
  unfolding give_out find_lines read_cells
  window_lem i m w =
      let t = read_keys pack mem key pack.key_len i m w in
      let read = read_keys_lem pack mem key pack.key_len i m w (le_refl pack.key_len) in
      each_congr m _ (λ j. add_find (i + j)) t.out
        (λ j o l.
          ap (λ (x : ℕ). o ++ (x ∷ []))
            (report_move t.buf (key (i + j)) (j * pack.key_len) 0 _ (read.same j l)
              ∙ ap (report mem (key (i + j)) 0 pack.key_len) (
                  lines m j t l
                  ∙ ap (λ (x : Step1). locate_line pack mem (calc2 mem x)) (read.step1 j l))
              ∙ looked_up-find (i + j)))
      ∙ ap (each m (λ j. add_find (i + j))) read.kept

  -- On a table that has keys, whatever the buffers hold before: `BatchFindPos` gives to `output` what
  -- it gave before and, for one key after the other, the position that a lookup of the key gives, if
  -- that is a position of the table and its line holds the key, and else `UINT64_MAX`.
  pub batch_find_pos_lem :
      (batch : ℕ) (w : Window)
      → is_type pack.type index_only ≡ false
      → (batch_find_pos pack mem key batch w).out ≡ each batch add_find w.out
  unfolding batch_find_pos
  batch_find_pos_lem batch w keyed =
      let n = (batch + 31) / 32 in
      let whole : min (32 * n) batch ≡ batch = omega arith in
      rw keyed (
        each_inv (λ k (t : Window). t.out ≡ each (min (32 * k) batch) add_find w.out) n _ w start
          (λ k t l h. more k t l h)
        ∙ ap (λ (x : ℕ). each x add_find w.out) whole)
    where
      start : w.out ≡ each (min (32 * 0) batch) add_find w.out
      start = let e : min (32 * 0) batch ≡ 0 = omega arith in rw e (unfold each in refl)

      more :
          (k : ℕ) (t : Window)
          → k < (batch + 31) / 32
          → t.out ≡ each (min (32 * k) batch) add_find w.out
          → (give_out pack mem key (min 32 (batch - 32 * k)) (
              find_lines pack mem key (min 32 (batch - 32 * k)) (
                read_cells pack mem key
                  (min 32 (batch - 32 * k))
                  (read_keys pack mem key pack.key_len (32 * k) (min 32 (batch - 32 * k)) t)))).out
            ≡ each (min (32 * suc k) batch) add_find w.out
      more k t l h =
          let m = min 32 (batch - 32 * k) in
          let e : min (32 * k) batch ≡ 32 * k = omega arith in
          window_lem (32 * k) m t
          ∙ ap (each m (λ j. add_find (32 * k + j))) (h ∙ ap (λ (x : ℕ). each x add_find w.out) e)
          ∙ sym (each-add (32 * k) m (min (32 * suc k) batch) add_find w.out (omega arith))
