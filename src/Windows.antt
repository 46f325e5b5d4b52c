-- ===== src/Windows.antt =====
-- `BatchFindPos` and `BatchDataMapping` of src/search.cc, which work in windows of 32. The callback
-- `reader` gives the key or line `k` as the bytes of `key k`, and does not throw; what the callback
-- `output` is given is a list. The array `state` is one array for each pass here, since a pass reads of
-- an element only what the pass before has put there.
pub mod Reading
pub mod Law
pub mod Filling
use fast_chd.Base.{
  ℕ, zero, suc, ◌+◌, ◌-◌, ◌*◌, ◌/◌, ◌%◌, ◌^◌, min, ltb, if◌then◌else◌, Option, none, some, List, [],
  ◌∷◌, ◌++◌, Bool, each, store,
}
use fast_chd.Base.Memory.{Memory}
use fast_chd.Search.{copy, match_line}
use fast_chd.Table.{PackView, Step1, Step2, index_only, is_type, calc1, calc2, calc_pos}

abbrev pub window_size : ℕ
window_size = 32

-- `pos` and `line`
pub record Found : Type 0 where
  pub pos : ℕ
  pub line : Option ℕ

pub record Window : Type 0 where
  pub buf : Memory
  pub s1 : ℕ → Step1
  pub s2 : ℕ → Step2
  pub s3 : ℕ → Found
  pub out : List ℕ

abbrev pub no_pos : ℕ
no_pos = 2 ^ 64 - 1

unfoldable pub locate_line : PackView → Memory → Step2 → Found
locate_line pack mem s =
    let pos = calc_pos mem s in
    if ltb pos pack.item
    then record { pos = pos; line = some (pack.content + pos * pack.line_size % 2 ^ 64) }
    else record { pos = no_pos; line = none }

-- `output` with the position or `UINT64_MAX`
unfoldable pub report : Memory → Memory → ℕ → ℕ → Found → ℕ
unfolding match_line
report mem buf key len s = elim (match_line buf mem key s.line len) [
  | none ↦ no_pos
  | some line ↦ s.pos
]

module _ (pack : PackView) (mem : Memory) (key : ℕ → Memory) where
  -- The loops of a window at `i`, of `m` keys or lines of `stride` bytes.
  unfoldable pub read_keys : ℕ → ℕ → ℕ → Window → Window
  unfolding copy calc1
  read_keys stride i m w =
      each m
        (λ j t.
          let at = j * stride in
          let buf = copy t.buf at (key (i + j)) 0 stride in
          record t { buf = buf; s1 = store t.s1 j (calc1 pack buf at pack.key_len) })
        w

  unfoldable pub read_cells : ℕ → Window → Window
  unfolding calc2
  read_cells m w = record w { s2 = each m (λ j s. store s j (calc2 mem (w.s1 j))) w.s2 }

  unfoldable pub find_lines : ℕ → Window → Window
  unfolding locate_line
  find_lines m w = record w { s3 = each m (λ j s. store s j (locate_line pack mem (w.s2 j))) w.s3 }

  unfoldable pub give_out : ℕ → Window → Window
  unfolding report
  give_out m w = record w {
    out =
        each m (λ j o. o ++ (report mem w.buf (j * pack.key_len) pack.key_len (w.s3 j) ∷ [])) w.out;
  }

  -- `for (size_t i = 0; i < batch; i += WINDOW_SIZE)`
  unfoldable pub batch_find_pos : ℕ → Window → Window
  unfolding read_keys read_cells find_lines give_out
  batch_find_pos batch w =
      if is_type pack.type index_only
      then w
      else each ((batch + (window_size - 1)) / window_size)
          (λ k t.
            let i = window_size * k in
            let m = min window_size (batch - i) in
            give_out m (find_lines m (read_cells m (read_keys pack.key_len i m t))))
          w

  -- `space + CalcPos(state[j].s2)*index.line_size`
  unfoldable pub place_lines : ℕ → ℕ → Window → ℕ → ℕ
  unfolding calc_pos
  place_lines space m w =
      each m (λ j s. store s j (space + calc_pos mem (w.s2 j) * pack.line_size % 2 ^ 64)) (λ j. 0)

  unfoldable pub copy_lines : ℕ → Window → (ℕ → ℕ) → Memory → Memory
  unfolding copy
  copy_lines m w lines dest =
      each m (λ j d. copy d (lines j) w.buf (j * pack.line_size) pack.line_size) dest

  -- The state of the loop: the window's arrays, and the memory that holds the lines.
  unfoldable pub batch_data_mapping : ℕ → ℕ → Window → Memory → Window × Memory
  unfolding read_keys read_cells place_lines copy_lines
  batch_data_mapping space batch w dest =
      each ((batch + (window_size - 1)) / window_size)
        (λ k t.
          let i = window_size * k in
          let m = min window_size (batch - i) in
          let read = read_cells m (read_keys pack.line_size i m t.0) in
          (read, copy_lines m read (place_lines space m read) t.1))
        (w, dest)
