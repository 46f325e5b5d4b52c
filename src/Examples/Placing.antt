-- ===== src/Examples/Placing.antt =====
-- Placing keys in an empty bitmap.
use fast_chd.Base.{ℕ, zero, suc, ◌≡◌, ◌<◌, ◌≤◌, arith, true, false, List, [], ◌∷◌, length, some}
use fast_chd.Bitmap.{Bytes}
use fast_chd.Divisor.{DivisorMr, mr_init}
use fast_chd.Hash.{V96}
use fast_chd.Mapping.{Mapped, mapping, has_conflict}
use fast_chd.Mapping.Conflict.{times, has_conflict_lem}
use fast_chd.Mapping.Law.{Settled, mapping_lem}

abbrev forty : ℕ → List V96
forty zero = []
forty (suc n) = record { u0 = n; u1 = 7; u2 = 0 } ∷ forty n

abbrev none_set : Bytes
none_set i = 0

abbrev range : DivisorMr
range = mr_init 64 2001

forty_pos : 0 < length (forty 40)
forty_pos = omega arith

mapping_lem_example :
    (m : Mapped) × (mapping range 3 none_set (forty 40) ≡ some m)
    × Settled range (forty 40) none_set m
mapping_lem_example = mapping_lem range 3 none_set (forty 40) forty_pos

has_conflict_lem_example :
    ((has_conflict (forty 40)).0 ≡ false → (w : V96) → times w (forty 40) ≤ 1)
    × ((has_conflict (forty 40)).0 ≡ true → (w : V96) × (1 < times w (forty 40)))
    × ((w : V96) → times w (has_conflict (forty 40)).1 ≡ times w (forty 40))
has_conflict_lem_example = has_conflict_lem (forty 40)
