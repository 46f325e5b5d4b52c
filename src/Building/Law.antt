-- ===== src/Building/Law.antt =====
-- `BuildAndDump` ends, and an index it reports as built is one that was built.
use fast_chd.Base.{
  ℕ, suc, ◌+◌, ◌%◌, ◌^◌, ◌≤◌, ◌<◌, ◌≡◌, ◌∙◌, refl, sym, ap, arith, ltb, ◌==◌, Option, none, some,
  Option-cases, Bool-cases, inl, inr,
}
use fast_chd.Base.{Bool, true, false, ◌||◌, ◌⊎◌, List, ◌++◌, length}
use fast_chd.Building.{Fill, fill_after, after_loop, build_and_dump}
use fast_chd.Driver.{Reader, Retry, BasicInfo, max_segment, sum_input_size, retry_loop, make_header}
use fast_chd.Driver.Retries.{retry_loop_lem}
use fast_chd.Dump.{Sink, dump_index}
use fast_chd.Dump.Layout.{layout, dump_index_lem}
use fast_chd.Mapping.{BuildStatus, build_ok, bad_input, fail_to_output, out_of_chance, conflict}
use fast_chd.Mapping.Small.{pick_then, pick_else}
use fast_chd.Pack.Rounds.{some_inj}
use fast_chd.Piece.{IndexPiece, is_ok}

is_ok-ok : (s : BuildStatus) → is_ok s ≡ true → s ≡ build_ok
unfolding is_ok
is_ok-ok build_ok e = refl
is_ok-ok bad_input e = absurd cc
is_ok-ok fail_to_output e = absurd cc
is_ok-ok out_of_chance e = absurd cc
is_ok-ok conflict e = absurd cc

module _ (build : ℕ → BuildStatus × List IndexPiece) (seeds : ℕ → ℕ) (accept : ℕ → Bool) where
  -- What an index that is reported as built is.
  abbrev pub Index : List Reader → BasicInfo → Retry → Sink → Sink → Type 0
  Index in_ info retry out t =
      (k : ℕ) × (k ≤ retry.total_left)
      × ((build (seeds k % 2 ^ 32)).0 ≡ build_ok)
      × (t.bytes
          ≡ out.bytes
            ++ layout
                (make_header info (sum_input_size in_) (seeds k % 2 ^ 32)
                  (length (build (seeds k % 2 ^ 32)).1))
                (build (seeds k % 2 ^ 32)).1)

  after_index :
      (total k : ℕ) (info : BasicInfo) (status : BuildStatus) (out t : Sink)
      → after_loop build seeds accept none total info out (status, k) ≡ (build_ok, some t)
      → (status ≡ build_ok)
        × (t.bytes
            ≡ out.bytes
              ++ layout
                  (make_header info total (seeds k % 2 ^ 32) (length (build (seeds k % 2 ^ 32)).1))
                  (build (seeds k % 2 ^ 32)).1)
  unfolding after_loop fill_after
  after_index total k info status out t e =
      let seed = seeds k % 2 ^ 32 in
      let pieces = (build seed).1 in
      let h = make_header info total seed (length pieces) in
      elim (Bool-cases (is_ok status)) [
        | inr bad ↦ absurd (
            let wrong : status ≡ build_ok =
              ap (λ (r : BuildStatus × Option Sink). r.0) (rw (after_loop, bad) at e) in
            unfold is_ok in cc)
        | inl ok ↦ elim (Option-cases (dump_index accept h pieces out)) [
          | inl stop ↦ absurd (let e' = rw (after_loop, ok, stop) at e in cc)
          | inr (u, go) ↦
              let e' = rw (after_loop, ok, go) at e in
              (
                is_ok-ok status ok,
                ap (λ (s : Sink). s.bytes)
                      (some_inj (ap (λ (r : BuildStatus × Option Sink). r.1) (sym e')))
                    ∙ dump_index_lem accept h pieces out u go,
              )
        ]
      ]

  refused : List Reader → Bool
  refused in_ = length in_ == 0 || ltb max_segment (length in_) || sum_input_size in_ == 0

  run-refused :
      (fill : Option Fill) (in_ : List Reader) (info : BasicInfo) (retry : Retry) (out : Sink)
      → refused in_ ≡ true
      → build_and_dump build seeds accept fill in_ info retry out ≡ some (bad_input, some out)
  unfolding build_and_dump refused
  run-refused fill in_ info retry out e = pick_then _ _ e

  run-taken :
      (fill : Option Fill) (in_ : List Reader) (info : BasicInfo) (retry : Retry) (out : Sink)
      (r : BuildStatus × ℕ)
      → refused in_ ≡ false
      → retry_loop (suc retry.total_left) (λ k. (build (seeds k % 2 ^ 32)).0) retry 0 ≡ some r
      → build_and_dump build seeds accept fill in_ info retry out
        ≡ some (after_loop build seeds accept fill (sum_input_size in_) info out r)
  unfolding build_and_dump refused
  run-taken fill in_ info retry out r e go = pick_else _ _ e ∙ rw (build_and_dump, go) refl

  -- For any build, seeds, writer, callback and readers, and counters of eight bits, `BuildAndDump`
  -- ends. Input without readers, with more than 256 or without items is bad input, and nothing is
  -- written. When the status of an index is OK, one of the attempts, after at most `total` others, was
  -- OK, and the header with its seed and the pieces it gave are what has been written.
  pub build_and_dump_lem :
      (fill : Option Fill) (in_ : List Reader) (info : BasicInfo) (retry : Retry) (out : Sink)
      → retry.total_left < 256
      → retry.conflict_left < 256
      → ((s : BuildStatus) × (t : Option Sink) × (build_and_dump build seeds accept fill in_ info
              retry out
            ≡ some (s, t)))
        × ((length in_ ≡ 0) ⊎ ((256 < length in_) ⊎ (sum_input_size in_ ≡ 0))
            → build_and_dump build seeds accept fill in_ info retry out
              ≡ some (bad_input, some out))
        × ((t : Sink)
            → build_and_dump build seeds accept none in_ info retry out ≡ some (build_ok, some t)
            → Index in_ info retry out t)
  unfolding refused
  build_and_dump_lem fill in_ info retry out a b =
      let (n, e, course) = retry_loop_lem (λ k. (build (seeds k % 2 ^ 32)).0) retry 0 a b in
      elim (Bool-cases (refused in_)) [
        | inl bad ↦ (
          (bad_input, some out, run-refused fill in_ info retry out bad),
          λ h. run-refused fill in_ info retry out bad,
          λ t f. absurd (let g = run-refused none in_ info retry out bad in cc),
        )
        | inr good ↦ (
          (_, _, run-taken fill in_ info retry out _ good e),
          λ h. absurd (ground (arith, h, good)),
          λ t f.
              let (ok, wrote) =
                after_index (sum_input_size in_) (0 + n) info _ out t
                  (some_inj (sym (run-taken none in_ info retry out _ good e) ∙ f)) in
              (0 + n, omega (arith, course.within), ok, wrote),
        )
      ]
