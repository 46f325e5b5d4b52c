-- ===== src/Mapping.antt =====
-- Placing the keys of one cell in the bitmap: `Mapping` of src/build.cc and what it calls. The loops
-- over an array of identities are recursions on a list; `std::sort` is an insertion sort, since any
-- order of equal identities is the same.
pub mod Held
pub mod Undo
pub mod Small
pub mod Conflict
pub mod Law
pub mod Seed
use mathlib.Core.Option
use fast_chd.Base.{
  leb, ltb, ◌==◌, not, ◌&&◌, ◌||◌, ◌*◌, Option, none, some, ℕ, zero, suc, ◌+◌, ◌-◌, ◌/◌, ◌%◌, ◌^◌,
  Bool, true, false, if◌then◌else◌, List, [], ◌∷◌, ◌++◌, map, length, take, drop,
}
use fast_chd.Bitmap.{Bytes, test_and_set_bit, clear_bit}
use fast_chd.Divisor.{DivisorMr, mr_mod}
use fast_chd.Hash.{V96, l2_hash}

abbrev pub mini_batch : ℕ
mini_batch = 32

-- `L2Hash(id, sd8) % range`
unfoldable pub position : DivisorMr → ℕ → V96 → ℕ
position range sd8 id = mr_mod 64 range (l2_hash id sd8)

unfoldable pub clear_bits : Bytes → List ℕ → Bytes
clear_bits bitmap [] = bitmap
clear_bits bitmap (p ∷ ps) = clear_bits (clear_bit bitmap p) ps

-- The second loop of `mini_batch_mapping`: `done` are the positions set so far, which are cleared when
-- one is taken already.
unfoldable pub set_or_undo : Bytes → List ℕ → List ℕ → Bool × Bytes
set_or_undo bitmap [] done = (true, bitmap)
set_or_undo bitmap (p ∷ ps) done =
    let r = test_and_set_bit bitmap p in
    let rest = set_or_undo r.1 ps (done ++ (p ∷ [])) in
    if r.0 then rest else (false, clear_bits r.1 done)

unfoldable pub mini_batch_mapping : DivisorMr → ℕ → Bytes → List V96 → Bool × Bytes
mini_batch_mapping range sd8 bitmap ids = set_or_undo bitmap (map (position range sd8) ids) []

-- One round of `TryToMapLarge`, by the number of whole batches before the last one; `before` are the
-- identities up to `tail`, which are cleared at `retry`.
unfoldable pub large_round : ℕ → DivisorMr → ℕ → Bytes → List V96 → List V96 → Bool × Bytes
large_round zero range sd8 bitmap before tail =
    let r = mini_batch_mapping range sd8 bitmap tail in
    if r.0 then r else (false, clear_bits r.1 (map (position range sd8) before))
large_round (suc k) range sd8 bitmap before tail =
    let r = mini_batch_mapping range sd8 bitmap (take mini_batch tail) in
    let rest =
      large_round k range sd8 r.1 (before ++ take mini_batch tail) (drop mini_batch tail) in
    if r.0 then rest else (false, clear_bits r.1 (map (position range sd8) before))

-- `while (n-- != 0)`: whether a round succeeded, the seed after it, and the bitmap.
unfoldable pub try_to_map_large : ℕ → DivisorMr → ℕ → Bytes → List V96 → Bool × ℕ × Bytes
try_to_map_large zero range sd8 bitmap ids = (false, sd8, bitmap)
try_to_map_large (suc n) range sd8 bitmap ids =
    let r = large_round ((length ids - 1) / mini_batch) range sd8 bitmap [] ids in
    let rest = try_to_map_large n range ((sd8 + 1) % 2 ^ 8) r.1 ids in
    if r.0 then (true, sd8, r.1) else rest

-- The first loop of a window of `TryToMapSmall`: positions for as many tries as there is room for.
-- `left` is `n - i`.
unfoldable pub fill_window : ℕ → DivisorMr → ℕ → ℕ → List V96 → List ℕ
fill_window zero range off sd8x ids = []
fill_window (suc left) range off sd8x ids =
    let rest = fill_window left range (off + length ids) ((sd8x + 1) % 2 ^ 8) ids in
    if leb (off + length ids) mini_batch then map (position range sd8x) ids ++ rest else []

pub record Tries : Type 0 where
  pub found : Bool
  pub left : ℕ
  pub seed : ℕ
  pub bits : Bytes

-- The second loop of a window; `pos` is what is left of the array from `off` on, and `left` is `n - m`.
unfoldable pub try_window : ℕ → ℕ → ℕ → Bytes → ℕ → List ℕ → Tries
try_window zero off sd8 bitmap cnt pos = record {
  found = false;
  left = 0;
  seed = sd8;
  bits = bitmap;
}
try_window (suc left) off sd8 bitmap cnt pos =
    let r = set_or_undo bitmap (take cnt pos) [] in
    let rest = try_window left (off + cnt) ((sd8 + 1) % 2 ^ 8) r.1 cnt (drop cnt pos) in
    if not (leb (off + cnt) mini_batch)
    then record { found = false; left = suc left; seed = sd8; bits = bitmap }
    else if r.0
    then record { found = true; left = suc left; seed = sd8; bits = r.1 }
    else rest

-- The loop over the windows, with fuel; `none` says that the fuel ran out.
unfoldable pub small_loop : ℕ → DivisorMr → Tries → List V96 → Option Tries
small_loop zero range t ids = none
small_loop (suc fuel) range t ids =
    let w =
      try_window t.left 0 t.seed t.bits (length ids) (fill_window t.left range 0 t.seed ids) in
    let rest = small_loop fuel range w ids in
    if t.left == 0 then some t else if w.found then some w else rest

unfoldable pub try_to_map_small : ℕ → DivisorMr → ℕ → Bytes → List V96 → Option Tries
try_to_map_small n range sd8 bitmap ids =
    small_loop (suc n) range (record { found = false; left = n; seed = sd8; bits = bitmap }) ids

-- The second loop of `mini_batch_try`: the first free position. `pos` holds one position for each try.
unfoldable pub first_free : ℕ → Bytes → List ℕ → Bool × ℕ × Bytes
first_free sd8 bitmap [] = (false, sd8, bitmap)
first_free sd8 bitmap (p ∷ ps) =
    let r = test_and_set_bit bitmap p in
    let rest = first_free ((sd8 + 1) % 2 ^ 8) r.1 ps in if r.0 then (true, sd8, r.1) else rest

-- The first loop of `mini_batch_try`.
unfoldable pub seeds : ℕ → DivisorMr → ℕ → V96 → List ℕ
seeds zero range sd8x id = []
seeds (suc n) range sd8x id = position range sd8x id ∷ seeds n range ((sd8x + 1) % 2 ^ 8) id

unfoldable pub mini_batch_try : DivisorMr → V96 → ℕ → ℕ → Bytes → Bool × ℕ × Bytes
mini_batch_try range id n sd8 bitmap = first_free sd8 bitmap (seeds n range sd8 id)

-- `for (; remain > MINI_BATCH; remain -= MINI_BATCH)` and the batch after it, by the number of rounds.
unfoldable pub single_loop : ℕ → DivisorMr → V96 → ℕ → ℕ → Bytes → Bool × ℕ × Bytes
single_loop zero range id remain sd8 bitmap = mini_batch_try range id remain sd8 bitmap
single_loop (suc k) range id remain sd8 bitmap =
    let r = mini_batch_try range id mini_batch sd8 bitmap in
    let rest = single_loop k range id (remain - mini_batch) r.1 r.2 in if r.0 then r else rest

-- The order of `HasConflict`: the first two words as one number, then the third.
unfoldable pub before : V96 → V96 → Bool
before a b =
    let x = a.u0 + a.u1 * 2 ^ 32 in
    let y = b.u0 + b.u1 * 2 ^ 32 in
    if ltb x y then true else if ltb y x then false else ltb a.u2 b.u2

-- `operator==` on identities.
unfoldable pub same_id : V96 → V96 → Bool
same_id a b = (a.u0 + a.u1 * 2 ^ 32 == b.u0 + b.u1 * 2 ^ 32) && (a.u2 == b.u2)

unfoldable pub insert : V96 → List V96 → List V96
insert x [] = x ∷ []
insert x (y ∷ ys) = if before y x then y ∷ insert x ys else x ∷ y ∷ ys

unfoldable pub sort : List V96 → List V96
sort [] = []
sort (x ∷ xs) = insert x (sort xs)

-- Whether some identity equals the one before it.
unfoldable pub adjacent : V96 → List V96 → Bool
adjacent x [] = false
adjacent x (y ∷ ys) = same_id y x || adjacent y ys

unfoldable pub repeats : List V96 → Bool
repeats [] = false
repeats (x ∷ xs) = adjacent x xs

-- The answer of `HasConflict`, and the array it leaves sorted.
unfoldable pub has_conflict : List V96 → Bool × List V96
has_conflict ids = (repeats (sort ids), sort ids)

pub data BuildStatus : Type 0 where
  build_ok : BuildStatus
  bad_input : BuildStatus
  fail_to_output : BuildStatus
  out_of_chance : BuildStatus
  conflict : BuildStatus

pub record Mapped : Type 0 where
  pub sd8 : ℕ
  pub status : BuildStatus
  pub bitmap : Bytes

unfoldable pub map_large : DivisorMr → ℕ → Bytes → List V96 → Mapped
map_large range sd8 bitmap ids =
    let r = try_to_map_large 56 range sd8 bitmap ids in
    let c = has_conflict ids in
    let r2 = try_to_map_large 200 range r.1 r.2 c.1 in
    if r.0
    then record { sd8 = r.1; status = build_ok; bitmap = r.2 }
    else if c.0
    then record { sd8 = r.1; status = conflict; bitmap = r.2 }
    else if r2.0
    then record { sd8 = r2.1; status = build_ok; bitmap = r2.2 }
    else record { sd8 = r2.1; status = out_of_chance; bitmap = r2.2 }

-- What the second `TryToMapSmall` leads to.
pub small_end : Tries → Mapped
small_end t = record {
  sd8 = t.seed;
  status = if t.found then build_ok else out_of_chance;
  bitmap = t.bits;
}

-- What the first one leads to.
pub small_next : DivisorMr → List V96 → Tries → Option Mapped
unfolding small_end
small_next range ids t =
    let c = has_conflict ids in
    if t.found
    then some (record { sd8 = t.seed; status = build_ok; bitmap = t.bits })
    else if c.0
    then some (record { sd8 = t.seed; status = conflict; bitmap = t.bits })
    else Option.map small_end (try_to_map_small 160 range t.seed t.bits c.1)

unfoldable pub map_small : DivisorMr → ℕ → Bytes → List V96 → Option Mapped
unfolding small_next
map_small range sd8 bitmap ids = elim (try_to_map_small 96 range sd8 bitmap ids) [
  | none ↦ none
  | some t ↦ small_next range ids t
]

unfoldable pub map_single : DivisorMr → ℕ → Bytes → V96 → Mapped
map_single range sd8 bitmap id =
    let r = single_loop ((256 - 1) / mini_batch) range id 256 sd8 bitmap in
    record { sd8 = r.1; status = if r.0 then build_ok else out_of_chance; bitmap = r.2 }

-- `Mapping`. Its last branch is taken for one identity; the array is never empty there.
unfoldable pub mapping : DivisorMr → ℕ → Bytes → List V96 → Option Mapped
mapping range sd8 bitmap [] = none
mapping range sd8 bitmap (x ∷ []) = some (map_single range sd8 bitmap x)
mapping range sd8 bitmap (x ∷ y ∷ ids) =
    if ltb mini_batch (length (x ∷ y ∷ ids))
    then some (map_large range sd8 bitmap (x ∷ y ∷ ids))
    else map_small range sd8 bitmap (x ∷ y ∷ ids)
