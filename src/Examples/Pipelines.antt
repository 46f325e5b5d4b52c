-- ===== src/Examples/Pipelines.antt =====
-- The pipelines on a ring of two slots, summing over their items.
use fast_chd.Base.{ℕ, ◌+◌, ◌*◌, ◌≡◌, arith, each}
use fast_chd.Pipeline.Seven.{pipeline7}
use fast_chd.Pipeline.Seven.Law.{pipeline7_lem}

-- A first stage, a stage between, and a last one whose result tells the order of the items.
abbrev begin : ℕ → ℕ
begin i = i + 1

abbrev between : ℕ → ℕ → ℕ
between s i = s * 2 + i

abbrev last : ℕ → ℕ → ℕ → ℕ
last s i out = out * 10 + s + i

abbrev stack : ℕ → ℕ
stack i = 77

pipeline7_lem_example :
    pipeline7 2 begin between between between between between last 20 stack stack stack stack stack
      stack 0
    ≡ each 20 (λ x. last (between (between (between (between (between (begin x) x) x) x) x) x) x) 0
pipeline7_lem_example =
    pipeline7_lem 2 begin between between between between between last (omega arith) 20 stack stack
      stack stack stack stack 0
