-- ===== src/Building.antt =====
-- `BuildAndDump` of src/build.cc: the checks of the input, the retries, the index, and what is filled in
-- after it. `build` is `Build` by the seed, and `seeds` are the numbers of the random device; `fill` is
-- the callback with the view of the pieces.
pub mod Law
use fast_chd.Base.{ℕ, zero, suc, ◌+◌, ◌%◌, ◌^◌, ltb, ◌==◌, if◌then◌else◌, Option, none, some}
use fast_chd.Base.{Bool, true, false, ◌||◌, List, [], ◌∷◌, length}
use fast_chd.Driver.{Reader, Retry, BasicInfo, max_segment, sum_input_size, retry_loop, make_header}
use fast_chd.Dump.{Sink, dump_index}
use fast_chd.Mapping.{BuildStatus, build_ok, bad_input, fail_to_output}
use fast_chd.Piece.{IndexPiece, is_ok}

abbrev pub Fill : Type 0
Fill = List IndexPiece → ℕ → Sink → BuildStatus × Sink

-- After `DumpIndex`; `none` is its failure. What the failing writer was given until then is left open:
-- the sink of the result is `none`.
unfoldable pub fill_after :
    Option Fill → List IndexPiece → ℕ → Option Sink → BuildStatus × Option Sink
fill_after fill pieces seed none = (fail_to_output, none)
fill_after none pieces seed (some t) = (build_ok, some t)
fill_after (some f) pieces seed (some t) = let r = f pieces seed t in (r.0, some r.1)

module _ (build : ℕ → BuildStatus × List IndexPiece) (seeds : ℕ → ℕ) (accept : ℕ → Bool) where
  -- After the loop, which ended at the attempt `k` with `status`.
  unfoldable pub after_loop :
      Option Fill → ℕ → BasicInfo → Sink → BuildStatus × ℕ → BuildStatus × Option Sink
  unfolding fill_after make_header dump_index is_ok
  after_loop fill total info out (status, k) =
      let seed = seeds k % 2 ^ 32 in
      let pieces = (build seed).1 in
      let h = make_header info total seed (length pieces) in
      if is_ok status
      then fill_after fill pieces seed (dump_index accept h pieces out)
      else (status, some out)

  unfoldable pub build_and_dump :
      Option Fill → List Reader → BasicInfo → Retry → Sink → Option (BuildStatus × Option Sink)
  unfolding sum_input_size retry_loop after_loop
  build_and_dump fill in_ info retry out =
      let total = sum_input_size in_ in
      if length in_ == 0 || ltb max_segment (length in_) || total == 0
      then some (bad_input, some out)
      else elim (retry_loop (suc retry.total_left) (λ k. (build (seeds k % 2 ^ 32)).0) retry 0) [
        | none ↦ none
        | some r ↦ some (after_loop fill total info out r)
      ]
