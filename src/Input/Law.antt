-- ===== src/Input/Law.antt =====
-- `ReadAll` reads the file's bytes, all of them or it says so.
use fast_chd.Base.{
  ℕ, zero, suc, ◌+◌, ◌-◌, ◌≤◌, ◌<◌, ◌≡◌, ◌∙◌, refl, sym, ap, arith, min, ltb, if◌then◌else◌, Option,
  none, some, Bool, true, false, List, [], ◌∷◌, Bool-cases, inl, inr,
}
use fast_chd.Base.Memory.{Memory}
use fast_chd.Input.{Reading, got, again, broken, read_all}
use fast_chd.Search.{copy}
use fast_chd.Search.Copy.{copy_here, copy_other}
use fast_chd.Writer.{block_size}
use mathlib.Core.Path.{subst}
use fast_chd.Pack.Rounds.{some_inj}

-- The first `done` bytes are the file's, and those from `size` on are as before.
pub record Loaded (file old : Memory) (done size : ℕ) (buf : Memory) : Type 0 where
  pub read : (i : ℕ) → i < done → buf i ≡ file i
  pub kept : (i : ℕ) → size ≤ i → buf i ≡ old i

Loaded-more :
    (file old buf : Memory) (done size n : ℕ)
    → done + n ≤ size
    → Loaded file old done size buf
    → Loaded file old (done + n) size (copy buf done file done n)
Loaded-more file old buf done size n le h = record {
  read = λ i l. elim (Bool-cases (ltb i done)) [
    | inl less ↦ copy_other buf file done done n i (inl (ground arith)) ∙ h.read i (ground arith)
    | inr more ↦
        let ge : done ≤ i = ground arith in
        let e : done + (i - done) ≡ i = omega arith in
        ap (copy buf done file done n) (sym e)
        ∙ copy_here buf file done done n (i - done) (omega arith)
        ∙ ap file e
  ];
  kept = λ i l. copy_other buf file done done n i (inr (omega arith)) ∙ h.kept i l;
}

-- The result, if it is a success.
abbrev pub Succeeds : Memory → Memory → ℕ → Option (Bool × Memory) → Type 0
Succeeds file old size o = (b : Memory) → o ≡ some (true, b) → Loaded file old size size b

module _ (file old : Memory) (size : ℕ) where
  finished :
      (done : ℕ) (buf : Memory)
      → size ≤ done
      → Loaded file old done size buf
      → Succeeds file old size (some (true, buf))
  finished done buf le h b e =
      let same : buf ≡ b = ap (λ (r : Bool × Memory). r.1) (some_inj e) in
      subst (Loaded file old size size) same
        (record { read = λ i l. h.read i (omega arith); kept = h.kept })

  -- A branch for which the loop goes on, or stops since all has been read.
  branch :
      (done : ℕ) (buf : Memory) (o : Option (Bool × Memory))
      → Loaded file old done size buf
      → (done < size → Succeeds file old size o)
      → Succeeds file old size (if ltb done size then o else some (true, buf))
  branch done buf o h f = elim (Bool-cases (ltb done size)) [
    | inl less ↦ rw less (f (ground arith))
    | inr all ↦ rw all (finished done buf (ground arith) h)
  ]

  read_all-Loaded :
      (answers : List Reading) (done : ℕ) (buf : Memory)
      → Loaded file old done size buf
      → Succeeds file old size (read_all answers file size done buf)
  unfolding read_all
  read_all-Loaded [] done buf h = branch done buf none h (λ l b e. absurd cc)
  read_all-Loaded (got zero ∷ answers) done buf h =
      branch done buf (some (false, buf)) h (λ l b e. absurd cc)
  read_all-Loaded (got (suc k) ∷ answers) done buf h = branch done buf _ h (λ l.
      let n = min (suc k) (min (size - done) block_size) in
      read_all-Loaded answers (done + n) (copy buf done file done n)
        (Loaded-more file old buf done size n (omega arith) h))
  read_all-Loaded (again ∷ answers) done buf h =
      branch done buf _ h (λ l. read_all-Loaded answers done buf h)
  read_all-Loaded (broken ∷ answers) done buf h =
      branch done buf (some (false, buf)) h (λ l b e. absurd cc)

-- Every call reads some bytes or is interrupted.
abbrev pub steady : List Reading → Bool
steady [] = true
steady (got zero ∷ answers) = false
steady (got (suc k) ∷ answers) = steady answers
steady (again ∷ answers) = steady answers
steady (broken ∷ answers) = false

-- The calls that read some bytes.
abbrev pub useful : List Reading → ℕ
useful [] = 0
useful (got k ∷ answers) = suc (useful answers)
useful (_ ∷ answers) = useful answers

Ends : Option (Bool × Memory) → Type 0
Ends o = (b : Memory) × (o ≡ some (true, b))

Ends-branch :
    (done size : ℕ) (buf : Memory) (o : Option (Bool × Memory))
    → (done < size → Ends o)
    → Ends (if ltb done size then o else some (true, buf))
unfolding Ends
Ends-branch done size buf o f = elim (Bool-cases (ltb done size)) [
  | inl less ↦ rw less (f (ground arith))
  | inr all ↦ rw all (buf, refl)
]

read_all-Ends :
    (answers : List Reading) (file : Memory) (size done : ℕ) (buf : Memory)
    → steady answers ≡ true
    → size ≤ done + useful answers
    → Ends (read_all answers file size done buf)
unfolding read_all
read_all-Ends [] file size done buf s h = Ends-branch done size buf none (λ l. absurd (omega arith))
read_all-Ends (got zero ∷ answers) file size done buf s h = absurd cc
read_all-Ends (got (suc k) ∷ answers) file size done buf s h = Ends-branch done size buf _ (λ l.
    let n = min (suc k) (min (size - done) block_size) in
    read_all-Ends answers file size (done + n) (copy buf done file done n) s (omega arith))
read_all-Ends (again ∷ answers) file size done buf s h =
    Ends-branch done size buf _ (λ l. read_all-Ends answers file size done buf s h)
read_all-Ends (broken ∷ answers) file size done buf s h = absurd cc

-- Whatever the kernel answers: when `ReadAll` returns true, the buffer holds the first `size` bytes of
-- the file and is as before from there on. It does return true once as many calls as bytes have read
-- something, if all the others were interrupted.
pub read_all_lem :
    (answers : List Reading) (file : Memory) (size : ℕ) (buf : Memory)
    → ((b : Memory)
        → read_all answers file size 0 buf ≡ some (true, b)
        → Loaded file buf size size b)
      × (steady answers ≡ true
          → size ≤ useful answers
          → (b : Memory) × (read_all answers file size 0 buf ≡ some (true, b)))
unfolding Ends
read_all_lem answers file size buf = (
  read_all-Loaded file buf size answers 0 buf
      (record { read = λ i l. absurd (omega arith); kept = λ i l. refl }),
  λ s h. read_all-Ends answers file size 0 buf s (omega arith),
)
