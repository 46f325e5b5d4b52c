-- ===== src/Piece/Occurs.antt =====
-- Positions that a list holds once are at one index.
use fast_chd.Base.{ℕ, zero, suc, ◌≤◌, ◌<◌, ◌≡◌, refl, ap, arith, ==_iff}
use fast_chd.Base.{List, [], ◌∷◌, map, get_elem?, some}
use fast_chd.Mapping.Held.{digit_of, count}
use fast_chd.Hash.{V96}

pub get_elem?-map :
    (f : V96 → ℕ) (xs : List V96) (i : ℕ) (x : V96)
    → get_elem? xs i ≡ some x
    → get_elem? (map f xs) i ≡ some (f x)
get_elem?-map f [] i x e = absurd cc
get_elem?-map f (y ∷ ys) zero x e = let same : y ≡ x = cc in rw same refl
get_elem?-map f (y ∷ ys) (suc i) x e = get_elem?-map f ys i x e

pub count_pos : (ps : List ℕ) (i q : ℕ) → get_elem? ps i ≡ some q → 0 < count q ps
count_pos [] i q e = absurd cc
count_pos (p ∷ ps) zero q e =
    let same : p ≡ q = cc in let yes_it_is = (==_iff p q).1 same in rw yes_it_is (omega arith)
count_pos (p ∷ ps) (suc i) q e = omega (arith, count_pos ps i q e)

-- What the head is, the tail holds not.
alone : (p : ℕ) (ps : List ℕ) (j q : ℕ) → count q (p ∷ ps) ≤ 1 → p ≡ q → get_elem? ps j ≡ some q → ⊥
alone p ps j q h s b =
    let one = ap digit_of ((==_iff p q).1 s) in let more = count_pos ps j q b in omega arith

pub count_once :
    (ps : List ℕ) (i j q : ℕ)
    → count q ps ≤ 1
    → get_elem? ps i ≡ some q
    → get_elem? ps j ≡ some q
    → i ≡ j
count_once [] i j q h a b = absurd cc
count_once (p ∷ ps) zero zero q h a b = refl
count_once (p ∷ ps) zero (suc j) q h a b = absurd (alone p ps j q h (let s : p ≡ q = cc in s) b)
count_once (p ∷ ps) (suc i) zero q h a b = absurd (alone p ps i q h (let s : p ≡ q = cc in s) a)
count_once (p ∷ ps) (suc i) (suc j) q h a b = ap suc (count_once ps i j q (omega arith) a b)
