-- ===== src/Mapping/Conflict.antt =====
-- `HasConflict` answers whether two identities are the same.
use fast_chd.Base.{
  ℕ, suc, ◌+◌, ◌≤◌, ◌<◌, ◌≡◌, ◌∙◌, refl, sym, ap, arith, Bool, true, false, not, ◌&&◌, ◌==◌,
}
use fast_chd.Base.{List, [], ◌∷◌, map, length, Bool-cases, inl, inr}
use fast_chd.Hash.{V96}
use fast_chd.Mapping.{before, same_id, insert, sort, adjacent, repeats, has_conflict}
use fast_chd.Mapping.Held.{digit_of, count}

abbrev total : (V96 → ℕ) → List V96 → ℕ
total g [] = 0
total g (x ∷ xs) = g x + total g xs

module _ (g : V96 → ℕ) where
  total-insert : (x : V96) (ys : List V96) → total g (insert x ys) ≡ g x + total g ys
  unfolding insert
  total-insert x [] = refl
  total-insert x (y ∷ ys) = elim (Bool-cases (before y x)) [
    | inl b ↦ rw b (omega (arith, total-insert x ys))
    | inr n ↦ rw n refl
  ]

  total-sort : (xs : List V96) → total g (sort xs) ≡ total g xs
  unfolding sort
  total-sort [] = refl
  total-sort (x ∷ xs) = omega (arith, total-insert x (sort xs), total-sort xs)

count-total :
    (f : V96 → ℕ) (q : ℕ) (xs : List V96) → count q (map f xs) ≡ total (λ x. digit_of (f x == q)) xs
count-total f q [] = refl
count-total f q (x ∷ xs) = ap (λ t. digit_of (f x == q) + t) (count-total f q xs)

-- Sorting keeps how often each position occurs.
pub count-sort :
    (f : V96 → ℕ) (q : ℕ) (xs : List V96) → count q (map f (sort xs)) ≡ count q (map f xs)
count-sort f q xs =
    count-total f q (sort xs) ∙ total-sort (λ x. digit_of (f x == q)) xs ∙ sym (count-total f q xs)

length-insert : (x : V96) (ys : List V96) → length (insert x ys) ≡ suc (length ys)
unfolding insert
length-insert x [] = refl
length-insert x (y ∷ ys) = elim (Bool-cases (before y x)) [
  | inl b ↦ rw b (ap suc (length-insert x ys))
  | inr n ↦ rw n refl
]

pub length-sort : (xs : List V96) → length (sort xs) ≡ length xs
unfolding sort
length-sort [] = refl
length-sort (x ∷ xs) = length-insert x (sort xs) ∙ ap suc (length-sort xs)

-- `x` is before none of the list: the order is total, so none is before `x`.
abbrev least : V96 → List V96 → Bool
least x [] = true
least x (y ∷ ys) = not (before y x) && least x ys

abbrev ordered : List V96 → Bool
ordered [] = true
ordered (x ∷ xs) = least x xs && ordered xs

before-asym : (x y : V96) → before y x ≡ true → before x y ≡ false
unfolding before
before-asym x y h = ground arith

before_trans : (x y z : V96) → before y x ≡ false → before z y ≡ false → before z x ≡ false
unfolding before
before_trans x y z h k = ground arith

before-skip : (x y z : V96) → before x y ≡ true → before z y ≡ false → before x z ≡ true
unfolding before
before-skip x y z h k = ground arith

before-total : (x y : V96) → before y x ≡ false → same_id y x ≡ false → before x y ≡ true
unfolding before same_id
before-total x y h k = ground arith

before-differ : (w x y : V96) → before x y ≡ true → same_id w x ≡ true → same_id w y ≡ false
unfolding before same_id
before-differ w x y h k = ground arith

same_id_refl : (x y : V96) → same_id y x ≡ true → (same_id x x ≡ true) × (same_id x y ≡ true)
unfolding same_id
same_id_refl x y h = ground arith

least-insert :
    (z x : V96) (ys : List V96)
    → before x z ≡ false
    → least z ys ≡ true
    → least z (insert x ys) ≡ true
unfolding insert
least-insert z x [] low all = rw low refl
least-insert z x (y ∷ ys) low all = elim (Bool-cases (before y x)) [
  | inl b ↦ rw b (ground (arith, all, least-insert z x ys low (ground arith)))
  | inr n ↦ rw n (ground arith)
]

least-le : (z x : V96) (ys : List V96) → before x z ≡ false → least x ys ≡ true → least z ys ≡ true
least-le z x [] low all = refl
least-le z x (y ∷ ys) low all =
    let here = before_trans z x y low (ground arith) in rw here (least-le z x ys low (ground arith))

ordered-insert : (x : V96) (ys : List V96) → ordered ys ≡ true → ordered (insert x ys) ≡ true
unfolding insert
ordered-insert x [] h = refl
ordered-insert x (y ∷ ys) h = elim (Bool-cases (before y x)) [
  | inl b ↦
      let tail = ordered-insert x ys (ground arith) in
      let head = least-insert y x ys (before-asym x y b) (ground arith) in rw (b, head, tail) refl
  | inr n ↦ let head = least-le x y ys n (ground arith) in rw n (ground (arith, h, head))
]

ordered-sort : (xs : List V96) → ordered (sort xs) ≡ true
unfolding sort
ordered-sort [] = refl
ordered-sort (x ∷ xs) = ordered-insert x (sort xs) (ordered-sort xs)

-- How many of a list are the same as an identity.
unfoldable pub times : V96 → List V96 → ℕ
times x ys = total (λ y. digit_of (same_id x y)) ys

module _ (w : V96) where
  beyond :
      (x y : V96) (ys : List V96)
      → same_id w x ≡ true
      → before x y ≡ true
      → least y ys ≡ true
      → times w ys ≡ 0
  unfolding times
  beyond x y [] s b h = refl
  beyond x y (z ∷ zs) s b h =
      let here = before-differ w x z (before-skip x y z b (ground arith)) s in
      rw here (omega (arith, beyond x y zs s b (ground arith)))

  -- What equals the head of an ordered list without equal neighbours is not in its tail.
  absent :
      (x : V96) (ys : List V96)
      → same_id w x ≡ true
      → ordered (x ∷ ys) ≡ true
      → adjacent x ys ≡ false
      → times w ys ≡ 0
  unfolding times adjacent
  absent x [] s h r = refl
  absent x (y ∷ ys) s h r =
      let above = before-total x y (ground arith) (ground arith) in
      let here = before-differ w x y above s in
      rw here (omega (arith, beyond x y ys s above (ground arith)))

  adjacent-tail : (x y : V96) (ys : List V96) → adjacent x (y ∷ ys) ≡ false → adjacent y ys ≡ false
  unfolding adjacent
  adjacent-tail x y ys r = ground arith

  repeats-tail : (x : V96) (ys : List V96) → adjacent x ys ≡ false → repeats ys ≡ false
  unfolding repeats
  repeats-tail x [] r = refl
  repeats-tail x (y ∷ ys) r = adjacent-tail x y ys r

  once : (xs : List V96) → ordered xs ≡ true → repeats xs ≡ false → times w xs ≤ 1
  unfolding times repeats
  once [] h r = omega arith
  once (x ∷ xs) h r = elim (Bool-cases (same_id w x)) [
    | inl s ↦ rw s (omega (arith, absent x xs s h r))
    | inr n ↦ rw n (omega (arith, once xs (ground arith) (repeats-tail x xs r)))
  ]

twice-next : (x : V96) (xs : List V96) → adjacent x xs ≡ true → (w : V96) × (1 < times w (x ∷ xs))
unfolding adjacent times
twice-next x [] h = absurd cc
twice-next x (y ∷ ys) h = elim (Bool-cases (same_id y x)) [
  | inl s ↦ let (a, b) = same_id_refl x y s in (x, rw (a, b) (omega arith))
  | inr n ↦ let (w, more) = twice-next y ys (ground (arith, h, n)) in (w, omega (arith, more))
]

twice : (xs : List V96) → repeats xs ≡ true → (w : V96) × (1 < times w xs)
unfolding repeats
twice [] h = absurd cc
twice (x ∷ xs) h = twice-next x xs h

times-sort : (w : V96) (xs : List V96) → times w (sort xs) ≡ times w xs
unfolding times
times-sort w xs = total-sort (λ y. digit_of (same_id w y)) xs

-- `HasConflict` returns false exactly when every identity occurs once at most in the array, and true
-- only when some identity occurs twice; it keeps how often each occurs.
pub has_conflict_lem :
    (ids : List V96)
    → ((has_conflict ids).0 ≡ false → (w : V96) → times w ids ≤ 1)
      × ((has_conflict ids).0 ≡ true → (w : V96) × (1 < times w ids))
      × ((w : V96) → times w (has_conflict ids).1 ≡ times w ids)
unfolding has_conflict
has_conflict_lem ids = (
  λ h w. omega (arith, times-sort w ids, once w (sort ids) (ordered-sort ids) h),
  λ h. let (w, more) = twice (sort ids) h in (w, omega (arith, times-sort w ids, more)),
  λ w. times-sort w ids,
)
