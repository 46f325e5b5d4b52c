-- ===== src/Search/Law.antt =====
-- The batch calls on one table do what `search` does for key after key.
use fast_chd.Base.{
  ℕ, zero, suc, ◌+◌, ◌*◌, ◌%◌, ◌^◌, ◌≤◌, ◌<◌, ◌≡◌, ◌∙◌, refl, sym, ap, arith, each, each_inv,
  each_congr, each-store,
}
use fast_chd.Base.{
  false, not, ◌&&◌, ◌==◌, ==_iff, ltb, Bool-cases, Option-cases, ◌⊎◌, inl, inr, Option, none, some,
}
use fast_chd.Base.{store, store_self, store_ne}
use fast_chd.Base.Memory.{Memory, read_le}
use fast_chd.Pipeline.Three.Law.{pipeline3_lem}
use fast_chd.Pipeline.Four.Law.{pipeline4_lem}
use fast_chd.Table.{
  PackView, calc1, calc2, calc_pos, key_pos, kv_inline, key_set, index_only, kv_separated, is_type,
}
use native.Mathlib.Nat.{mod-eq_of_lt}
use fast_chd.Search.{
  Rings, equal_bytes, equal, process3, match_line, search, put, value_at, batch_locate,
  batch_search,
}

-- `BatchLocate` leaves in `out[i]` the position of key `i`, for every `i` below `batch` whose key starts
-- less than 2 ^ 32 bytes after the first one.
pub batch_locate_lem :
    (index : PackView) (mem kmem : Memory) (batch keys key_len : ℕ) (rings : Rings) (out : ℕ → ℕ)
    (i : ℕ)
    → i < batch
    → i * key_len < 2 ^ 32
    → batch_locate index mem kmem batch keys key_len rings out i
      ≡ key_pos index mem kmem (keys + i * key_len) key_len
unfolding batch_locate key_pos
batch_locate_lem index mem kmem batch keys key_len rings out i l room =
    ap (λ (o : ℕ → ℕ). o i)
      (pipeline3_lem 9 (λ j. calc1 index kmem (keys + j * key_len % 2 ^ 32) key_len)
        (λ s j. calc2 mem s) (λ s j o. store o j (calc_pos mem s)) (omega arith) batch rings.ring1
        rings.ring2 out)
    ∙ each-store batch
        (λ j. calc_pos mem (calc2 mem (calc1 index kmem (keys + j * key_len % 2 ^ 32) key_len))) out
        i l
    ∙ ap (λ (a : ℕ). key_pos index mem kmem (keys + a) key_len) (mod-eq_of_lt room)

==_sym : (a b : ℕ) → (a == b) ≡ (b == a)
==_sym a b = ground arith

equal_bytes_sym :
    (n : ℕ) (mem : Memory) (a : ℕ) (mem' : Memory) (b : ℕ)
    → equal_bytes n mem a mem' b ≡ equal_bytes n mem' b mem a
unfolding equal_bytes
equal_bytes_sym zero mem a mem' b = refl
equal_bytes_sym (suc n) mem a mem' b =
    rw (==_sym (mem a % 2 ^ 8) (mem' b % 2 ^ 8), equal_bytes_sym n mem (a + 1) mem' (b + 1)) refl

equal_sym :
    (mem : Memory) (a : ℕ) (mem' : Memory) (b len : ℕ)
    → equal mem a mem' b len ≡ equal mem' b mem a len
unfolding equal
equal_sym mem a mem' b len =
    rw
      (
        ==_sym (read_le 8 mem a) (read_le 8 mem' b),
        ==_sym (read_le 4 mem a) (read_le 4 mem' b),
        equal_bytes_sym len mem a mem' b,
      )
      refl

-- Where a table has keys, the value's address from the stages of a batch is that of `search`.
abbrev pub slice_start : Option (ℕ × ℕ) → Option ℕ
slice_start none = none
slice_start (some (p, l)) = some p

module _ (pack : PackView) (mem kmem : Memory) where
  -- What the stages make of the key at `key`.
  abbrev pub lookup : ℕ → Option ℕ
  lookup key =
      match_line kmem mem key (process3 pack mem (calc2 mem (calc1 pack kmem key pack.key_len)))
        pack.key_len

  abbrev line_of : ℕ → ℕ
  line_of key = pack.content + key_pos pack mem kmem key pack.key_len * pack.line_size % 2 ^ 64

  pub lookup-search :
      (key : ℕ)
      → is_type pack.type index_only ≡ false
      → is_type pack.type kv_separated ≡ false
      → value_at pack (lookup key) ≡ slice_start (search pack mem kmem key)
  unfolding search process3 match_line value_at key_pos
  lookup-search key a b =
      elim (Bool-cases (ltb (key_pos pack mem kmem key pack.key_len) pack.item)) [
        | inl x ↦ elim (Bool-cases (equal mem (line_of key) kmem key pack.key_len)) [
          | inl same ↦
              let same' = equal_sym kmem key mem (line_of key) pack.key_len ∙ same in
              rw (a, b, x, same, same') refl
          | inr other ↦
              let other' = equal_sym kmem key mem (line_of key) pack.key_len ∙ other in
              rw (a, b, x, other, other') refl
        ]
        | inr y ↦ rw (a, y) refl
      ]

abbrev pub hit_of : Option ℕ → ℕ
hit_of none = 0
hit_of (some a) = 1

pub hit_of-le : (o : Option ℕ) → hit_of o ≤ 1
hit_of-le none = omega arith
hit_of-le (some a) = omega arith

-- How many of the first `n` lookups have a value.
unfoldable pub count : (ℕ → Option ℕ) → ℕ → ℕ
count v zero = 0
count v (suc n) = count v n + hit_of (v n)

pub count-le : (v : ℕ → Option ℕ) (n : ℕ) → count v n ≤ n
unfolding count
count-le v zero = omega arith
count-le v (suc n) = omega (arith, count-le v n, hit_of-le (v n))

-- The last stages of a batch in a row, on the lookups `v`.
module _ (v : ℕ → Option ℕ) (out0 : ℕ → Option ℕ) where
  abbrev Put : ℕ → ℕ × (ℕ → Option ℕ) → Type 0
  Put r s =
      r < 2 ^ 32
      → (s.0 ≡ count v r) × ((i : ℕ) → i < r → s.1 i ≡ v i) × ((i : ℕ) → r ≤ i → s.1 i ≡ out0 i)

  Put-start : Put 0 (0, out0)
  unfolding count
  Put-start = λ _. (refl, λ i l. absurd (omega arith), λ i l. refl)

  put_hit :
      (h r : ℕ) (o : ℕ → Option ℕ) (w : Option ℕ)
      → h ≤ r
      → suc r < 2 ^ 32
      → (put w r (h, o)).0 ≡ h + hit_of w
  unfolding put
  put_hit h r o none le lim = omega arith
  put_hit h r o (some a) le lim = omega arith

  put-count :
      (h r : ℕ) (o : ℕ → Option ℕ)
      → h ≡ count v r
      → suc r < 2 ^ 32
      → (put (v r) r (h, o)).0 ≡ count v (suc r)
  unfolding count
  put-count h r o e lim =
      put_hit h r o (v r) (omega (arith, e, count-le v r)) lim ∙ ap (λ (t : ℕ). t + hit_of (v r)) e

  put_out : (h r : ℕ) (o : ℕ → Option ℕ) → (put (v r) r (h, o)).1 ≡ store o r (v r)
  unfolding put
  put_out h r o = elim (Option-cases (v r)) [ inl n ↦ rw n refl | inr (a, s) ↦ rw s refl ]

  put_at :
      (r i : ℕ) (o : ℕ → Option ℕ)
      → ((j : ℕ) → j < r → o j ≡ v j)
      → i < suc r
      → store o r (v r) i ≡ v i
  put_at r i o old k = elim (Bool-cases (i == r)) [
    | inl y ↦ let y' = (==_iff i r).0 y in store_self o r (v r) i y' ∙ ap v (sym y')
    | inr y ↦ store_ne o r (v r) i (λ e. ground arith) ∙ old i (ground arith)
  ]

  put_round : (r : ℕ) (s : ℕ × (ℕ → Option ℕ)) → Put r s → Put (suc r) (put (v r) r s)
  put_round r (h, o) done = λ lim.
      let (n, old, rest) = done (omega arith) in
      (
        put-count h r o n lim,
        λ i k. ap (λ (f : ℕ → Option ℕ). f i) (put_out h r o) ∙ put_at r i o old k,
        λ i k.
            ap (λ (f : ℕ → Option ℕ). f i) (put_out h r o)
            ∙ store_ne o r (v r) i (λ e. omega arith)
            ∙ rest i (omega arith),
      )

  pub put_all : (n : ℕ) → Put n (each n (λ i. put (v i) i) (0, out0))
  put_all n = each_inv Put n _ (0, out0) Put-start (λ r s _ d. put_round r s d)

module _ (pack : PackView) (mem kmem : Memory) where
  pub values :
      (pack.type ≡ kv_inline) ⊎ (pack.type ≡ key_set)
      → (key : ℕ)
      → value_at pack (lookup pack mem kmem key) ≡ slice_start (search pack mem kmem key)
  values (inl e) key = lookup-search pack mem kmem key (rw e in_type) (rw e in_type')
    where
      in_type : is_type kv_inline index_only ≡ false
      in_type = unfold is_type in refl

      in_type' : is_type kv_inline kv_separated ≡ false
      in_type' = unfold is_type in refl
  values (inr e) key = lookup-search pack mem kmem key (rw e in_type) (rw e in_type')
    where
      in_type : is_type key_set index_only ≡ false
      in_type = unfold is_type in refl

      in_type' : is_type key_set kv_separated ≡ false
      in_type' = unfold is_type in refl

  pub accepted :
      (pack.type ≡ kv_inline) ⊎ (pack.type ≡ key_set)
      → not (is_type pack.type kv_inline) && not (is_type pack.type key_set) ≡ false
  unfolding is_type
  accepted (inl e) = rw e refl
  accepted (inr e) = rw e refl

  batch_search-each :
      (batch : ℕ) (keys : ℕ → ℕ) (rings : Rings) (out : ℕ → Option ℕ)
      → (pack.type ≡ kv_inline) ⊎ (pack.type ≡ key_set)
      → batch_search pack mem kmem batch keys rings out
        ≡ each batch (λ i. put (slice_start (search pack mem kmem (keys i))) i) (0, out)
  unfolding batch_search
  batch_search-each batch keys rings out kind = rw (accepted kind) (
      pipeline4_lem 8 (λ i. calc1 pack kmem (keys i) pack.key_len) (λ s i. calc2 mem s)
        (λ s i. process3 pack mem s)
        (λ line i. put (value_at pack (match_line kmem mem (keys i) line pack.key_len)) i)
        (omega arith) batch rings.ring1 rings.ring2 rings.ring3 (0, out)
      ∙ each_congr batch _ _ (0, out)
          λ i s _. ap (λ (o : Option ℕ). put o i s) (values kind (keys i)))

  -- `BatchSearch` on a set or a dictionary with inline values, and fewer than 2 ^ 32 keys: `out[i]` is
  -- the address that `search` returns for key `i`, null where that finds nothing, the result is the
  -- number of keys found, and the rest of `out` is left alone.
  pub batch_search_lem :
      (batch : ℕ) (keys : ℕ → ℕ) (rings : Rings) (out : ℕ → Option ℕ)
      → (pack.type ≡ kv_inline) ⊎ (pack.type ≡ key_set)
      → batch < 2 ^ 32
      → ((batch_search pack mem kmem batch keys rings out).0
          ≡ count (λ i. slice_start (search pack mem kmem (keys i))) batch)
        × ((i : ℕ)
            → i < batch
            → (batch_search pack mem kmem batch keys rings out).1 i
              ≡ slice_start (search pack mem kmem (keys i)))
        × ((i : ℕ) → batch ≤ i → (batch_search pack mem kmem batch keys rings out).1 i ≡ out i)
  batch_search_lem batch keys rings out kind small =
      rw (batch_search-each batch keys rings out kind)
        (put_all (λ i. slice_start (search pack mem kmem (keys i))) out batch small)
