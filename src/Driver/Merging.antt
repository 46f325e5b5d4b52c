-- ===== src/Driver/Merging.antt =====
-- The status of several parts is that of the worst one.
use fast_chd.Base.{ℕ, zero, suc, ◌≤◌, ◌≡◌, ◌∙◌, refl, ap, arith, max, List, [], ◌∷◌}
use fast_chd.Mapping.{BuildStatus, build_ok, bad_input, fail_to_output, out_of_chance, conflict}
use fast_chd.Driver.{merge}

-- How bad the status of a part is; the parts have no other statuses than these three.
abbrev pub severity : BuildStatus → ℕ
severity conflict = 2
severity out_of_chance = 1
severity _ = 0

abbrev pub worst : List BuildStatus → ℕ
worst [] = 0
worst (s ∷ parts) = max (severity s) (worst parts)

merge-severity :
    (s : BuildStatus) (parts : List BuildStatus)
    → severity (merge s parts) ≡ max (severity s) (worst parts)
unfolding merge
merge-severity s [] = omega arith
merge-severity s (conflict ∷ parts) = omega (arith, merge-severity conflict parts, top s)
  where
    top : (s : BuildStatus) → severity s ≤ 2
    top build_ok = omega arith
    top bad_input = omega arith
    top fail_to_output = omega arith
    top out_of_chance = omega arith
    top conflict = omega arith
merge-severity build_ok (out_of_chance ∷ parts) = omega (arith, merge-severity out_of_chance parts)
merge-severity bad_input (out_of_chance ∷ parts) = omega (arith, merge-severity out_of_chance parts)
merge-severity fail_to_output (out_of_chance ∷ parts) =
    omega (arith, merge-severity out_of_chance parts)
merge-severity out_of_chance (out_of_chance ∷ parts) =
    omega (arith, merge-severity out_of_chance parts)
merge-severity conflict (out_of_chance ∷ parts) = omega (arith, merge-severity conflict parts)
merge-severity s (build_ok ∷ parts) = omega (arith, merge-severity s parts)
merge-severity s (bad_input ∷ parts) = omega (arith, merge-severity s parts)
merge-severity s (fail_to_output ∷ parts) = omega (arith, merge-severity s parts)

abbrev pub of_severity : ℕ → BuildStatus
of_severity zero = build_ok
of_severity (suc zero) = out_of_chance
of_severity (suc (suc n)) = conflict

abbrev Tame : BuildStatus → Type 0
Tame s = s ≡ of_severity (severity s)

merge-Tame : (s : BuildStatus) (parts : List BuildStatus) → Tame s → Tame (merge s parts)
unfolding merge
merge-Tame s [] t = t
merge-Tame s (conflict ∷ parts) t = merge-Tame conflict parts refl
merge-Tame build_ok (out_of_chance ∷ parts) t = merge-Tame out_of_chance parts refl
merge-Tame bad_input (out_of_chance ∷ parts) t = merge-Tame out_of_chance parts refl
merge-Tame fail_to_output (out_of_chance ∷ parts) t = merge-Tame out_of_chance parts refl
merge-Tame out_of_chance (out_of_chance ∷ parts) t = merge-Tame out_of_chance parts refl
merge-Tame conflict (out_of_chance ∷ parts) t = merge-Tame conflict parts refl
merge-Tame s (build_ok ∷ parts) t = merge-Tame s parts t
merge-Tame s (bad_input ∷ parts) t = merge-Tame s parts t
merge-Tame s (fail_to_output ∷ parts) t = merge-Tame s parts t

-- The status of a build in parts is the worst one among OK, out of chance and conflict that a part has,
-- in any order of the parts.
pub merge_lem : (parts : List BuildStatus) → merge build_ok parts ≡ of_severity (worst parts)
merge_lem parts =
    merge-Tame build_ok parts refl ∙ ap of_severity (omega (arith, merge-severity build_ok parts))
