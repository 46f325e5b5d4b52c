-- ===== src/Windows/Filling.antt =====
-- `BatchDataMapping` copies one line after the other to its position.
use fast_chd.Base.{
  ℕ, suc, ◌+◌, ◌-◌, ◌*◌, ◌/◌, ◌%◌, ◌^◌, ◌≤◌, ◌<◌, ◌≡◌, ◌∙◌, refl, sym, ap, arith, min, each,
  each_inv, each_congr, each-add, each-store, store,
}
use fast_chd.Base.Memory.{Memory}
use fast_chd.Hash.Locality.{SameBytes}
use fast_chd.Search.{copy}
use fast_chd.Table.{PackView, Step2, calc2, calc_pos, key_pos}
use fast_chd.Windows.{Window, read_keys, read_cells, place_lines, copy_lines, batch_data_mapping}
use fast_chd.Windows.Reading.{read_keys_lem}

copy_congr :
    (dest src src' : Memory) (at a b n : ℕ)
    → SameBytes n src a src' b
    → copy dest at src a n ≡ copy dest at src' b n
unfolding copy
copy_congr dest src src' at a b n h =
    each_congr n _ _ dest (λ j d l. ap (λ (v : ℕ). store d (at + j) v) (h j l))

module _ (pack : PackView) (mem : Memory) (line : ℕ → Memory) (space : ℕ) where
  -- Line `k` goes to the position of its key.
  abbrev pub put_line : ℕ → Memory → Memory
  put_line k dest =
      copy dest (space + key_pos pack mem (line k) 0 pack.key_len * pack.line_size % 2 ^ 64)
        (line k) 0 pack.line_size

  place-lem :
      (i m j : ℕ) (w : Window)
      → pack.key_len ≤ pack.line_size
      → j < m
      → place_lines pack mem line space m
          (read_cells pack mem line m (read_keys pack mem line pack.line_size i m w))
          j
        ≡ space + key_pos pack mem (line (i + j)) 0 pack.key_len * pack.line_size % 2 ^ 64
  unfolding place_lines read_cells key_pos
  place-lem i m j w le l =
      let t = read_keys pack mem line pack.line_size i m w in
      let read = read_keys_lem pack mem line pack.line_size i m w le in
      each-store m
        (λ k. space + calc_pos mem ((read_cells pack mem line m t).s2 k) * pack.line_size % 2 ^ 64)
        (λ k. 0) j l
      ∙ ap (λ (s : Step2). space + calc_pos mem s * pack.line_size % 2 ^ 64)
          (each-store m (λ k. calc2 mem (t.s1 k)) t.s2 j l ∙ ap (calc2 mem) (read.step1 j l))

  window_lem :
      (i m : ℕ) (w : Window) (dest : Memory)
      → pack.key_len ≤ pack.line_size
      → copy_lines pack mem line m
          (read_cells pack mem line m (read_keys pack mem line pack.line_size i m w))
          (place_lines pack mem line space m
            (read_cells pack mem line m (read_keys pack mem line pack.line_size i m w)))
          dest
        ≡ each m (λ j. put_line (i + j)) dest
  unfolding copy_lines read_cells
  window_lem i m w dest le =
      let t = read_keys pack mem line pack.line_size i m w in
      let read = read_keys_lem pack mem line pack.line_size i m w le in
      each_congr m _ (λ j. put_line (i + j)) dest
        (λ j d l.
          ap (λ (a : ℕ). copy d a t.buf (j * pack.line_size) pack.line_size)
            (place-lem i m j w le l)
          ∙ copy_congr d t.buf (line (i + j)) _ (j * pack.line_size) 0 pack.line_size
              (read.same j l))

  -- On a table whose lines hold a key, whatever the buffers hold before: `BatchDataMapping` leaves
  -- what copying the lines one after the other, each to the position of its key, leaves.
  pub batch_data_mapping_lem :
      (batch : ℕ) (w : Window) (dest : Memory)
      → pack.key_len ≤ pack.line_size
      → (batch_data_mapping pack mem line space batch w dest).1 ≡ each batch put_line dest
  unfolding batch_data_mapping
  batch_data_mapping_lem batch w dest le =
      let n = (batch + 31) / 32 in
      let whole : min (32 * n) batch ≡ batch = omega arith in
      each_inv (λ k (t : Window × Memory). t.1 ≡ each (min (32 * k) batch) put_line dest) n _
        (w, dest) start (λ k t l h. more k t l h)
      ∙ ap (λ (x : ℕ). each x put_line dest) whole
    where
      start : dest ≡ each (min (32 * 0) batch) put_line dest
      start = let e : min (32 * 0) batch ≡ 0 = omega arith in rw e (unfold each in refl)

      more :
          (k : ℕ) (t : Window × Memory)
          → k < (batch + 31) / 32
          → t.1 ≡ each (min (32 * k) batch) put_line dest
          → copy_lines pack mem line
              (min 32 (batch - 32 * k))
              (read_cells pack mem line
                (min 32 (batch - 32 * k))
                (read_keys pack mem line pack.line_size (32 * k) (min 32 (batch - 32 * k)) t.0))
              (place_lines pack mem line space (min 32 (batch - 32 * k)) (
                read_cells pack mem line
                  (min 32 (batch - 32 * k))
                  (read_keys pack mem line pack.line_size (32 * k) (min 32 (batch - 32 * k)) t.0)))
              t.1
            ≡ each (min (32 * suc k) batch) put_line dest
      more k t l h =
          let m = min 32 (batch - 32 * k) in
          let e : min (32 * k) batch ≡ 32 * k = omega arith in
          window_lem (32 * k) m t.0 t.1 le
          ∙ ap (each m (λ j. put_line (32 * k + j))) (h ∙ ap (λ (x : ℕ). each x put_line dest) e)
          ∙ sym (each-add (32 * k) m (min (32 * suc k) batch) put_line dest (omega arith))
