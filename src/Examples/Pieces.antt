-- ===== src/Examples/Pieces.antt =====
-- Building a piece of three keys, and an index of one piece.
use fast_chd.Base.{zero, suc, ◌<◌, ◌≡◌, refl, arith, true, List, [], ◌∷◌, some}
use fast_chd.Divisor.{mr_init, mr_div}
use fast_chd.Format.{skew_map, l1_size, l1_band}
use fast_chd.Hash.{V96, l1_hash}
use fast_chd.Piece.{bucket, Built, build_piece}
use mathlib.Core.Path.{subst}
use fast_chd.Table.Bounds.{IsId}
use fast_chd.Piece.Law.{Results, build_piece_lem}
use fast_chd.Piece.Perfect.{Valid, grouped}

abbrev key1 : V96
key1 = record { u0 = 11; u1 = 5; u2 = 2 }

abbrev key2 : V96
key2 = record { u0 = 12; u1 = 900; u2 = 3 }

abbrev key3 : V96
key3 = record { u0 = 13; u1 = 77777; u2 = 4 }

abbrev three : List V96
three = key1 ∷ key2 ∷ key3 ∷ []

one_bucket :
    (bucket (mr_init 64 (l1_band 3)) key1 ≡ 0)
    × (bucket (mr_init 64 (l1_band 3)) key2 ≡ 0)
    × (bucket (mr_init 64 (l1_band 3)) key3 ≡ 0)
unfolding bucket skew_map mr_init mr_div l1_band l1_hash
one_bucket = (refl, refl, refl)

abbrev IsValid3 : V96 → Type 0
IsValid3 x = IsId x × (bucket (mr_init 64 (l1_band 3)) x < l1_size 3)

each_IsValid3 : IsValid3 key1 × IsValid3 key2 × IsValid3 key3
unfolding l1_size
each_IsValid3 =
    let (a, b, c) = one_bucket in
    (
      ((omega arith, omega arith, omega arith), omega arith),
      ((omega arith, omega arith, omega arith), omega arith),
      ((omega arith, omega arith, omega arith), omega arith),
    )

three-Valid : Valid 3 three
three-Valid zero x e = let same : key1 ≡ x = cc in subst IsValid3 same each_IsValid3.0
three-Valid (suc zero) x e = let same : key2 ≡ x = cc in subst IsValid3 same each_IsValid3.1
three-Valid (suc (suc zero)) x e = let same : key3 ≡ x = cc in subst IsValid3 same each_IsValid3.2
three-Valid (suc (suc (suc i))) x e = absurd cc

three-grouped : grouped 3 three ≡ true
three-grouped = let (a, b, c) = one_bucket in rw (a, b, c) refl

build_piece_lem_example : (b : Built) × (build_piece three 3 ≡ some b) × Results three 3 b
build_piece_lem_example =
    build_piece_lem three 3 refl (omega arith) (omega arith) three-Valid three-grouped
