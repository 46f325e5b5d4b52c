-- ===== src/Members/Law.antt =====
-- The members of a table that was opened.
use fast_chd.Base.{
  ℕ, ◌^◌, ◌≤◌, ◌<◌, ◌≡◌, ◌∙◌, refl, sym, ap, Option, none, some, Option-cases, ◌⊎◌, inl, inr,
}
use mathlib.Core.Path.{fun_ext}
use fast_chd.Base.Memory.{Memory}
use fast_chd.Members.{Hashtable, empty, post_init, open_table, table_search, table_batch_search}
use fast_chd.Pack.{create_pack_view}
use fast_chd.Pack.Rounds.{some_inj}
use fast_chd.Patch.{RelayRings}
use fast_chd.Search.{Rings, search, batch_search}
use fast_chd.Search.Law.{slice_start, count, batch_search_lem}
use fast_chd.Table.{kv_inline, key_set, PackView}

module _ (t : Hashtable) (mem kmem : Memory) (batch : ℕ) (keys : ℕ → ℕ) (rings : Rings)
    (relays : RelayRings) (out : ℕ → Option ℕ) where
  -- The value's address that `search` gives for key `i`.
  abbrev pub found : ℕ → Option ℕ
  found i = slice_start (table_search t mem kmem (some (keys i)))

  abbrev pub result : ℕ × Option (ℕ → Option ℕ)
  result = table_batch_search t none mem kmem batch (some keys) rings relays (some out)

  table_search-some :
      (v : PackView) (i : ℕ) → t.view ≡ some v → slice_start (search v mem kmem (keys i)) ≡ found i
  unfolding table_search
  table_search-some v i e = rw e refl

  result-some :
      (v : PackView)
      → t.view ≡ some v
      → (result.0 ≡ (batch_search v mem kmem batch keys rings out).0)
        × (result.1 ≡ some (batch_search v mem kmem batch keys rings out).1)
  unfolding table_batch_search
  result-some v e = rw e (refl, refl)

  result-none : t.view ≡ none → result ≡ (0, some out)
  unfolding table_batch_search
  result-none e = rw e refl

  -- What `BatchSearch` promises, by the lookups.
  abbrev pub AsSearched : Type 0
  AsSearched =
      (o : ℕ → Option ℕ) × (result.1 ≡ some o)
      × (result.0 ≡ count found batch)
      × ((i : ℕ) → i < batch → o i ≡ found i)
      × ((i : ℕ) → batch ≤ i → o i ≡ out i)

  searched :
      (v : PackView)
      → t.view ≡ some v
      → (v.type ≡ kv_inline) ⊎ (v.type ≡ key_set)
      → batch < 2 ^ 32
      → AsSearched
  searched v e kind small =
      let same : (λ i. slice_start (search v mem kmem (keys i))) ≡ found =
        fun_ext (λ i. table_search-some v i e) in
      let (hits, array) = result-some v e in
      let (n, old, rest) = batch_search_lem v mem kmem batch keys rings out kind small in
      (
        (batch_search v mem kmem batch keys rings out).1,
        array,
        hits ∙ n ∙ ap (λ (f : ℕ → Option ℕ). count f batch) same,
        λ i l. old i l ∙ table_search-some v i e,
        rest,
      )

-- A null pointer for the keys or the output.
nulls :
    (t : Hashtable) (patch : Option Hashtable) (mem kmem : Memory) (batch : ℕ)
    (keys : Option (ℕ → ℕ)) (rings : Rings) (relays : RelayRings) (out : Option (ℕ → Option ℕ))
    → (keys ≡ none) ⊎ (out ≡ none)
    → table_batch_search t patch mem kmem batch keys rings relays out ≡ (0, out)
unfolding table_batch_search
nulls t patch mem kmem batch none rings relays out h = refl
nulls t patch mem kmem batch (some keys) rings relays none h = refl
nulls t patch mem kmem batch (some keys) rings relays (some out) (inl e) = absurd cc
nulls t patch mem kmem batch (some keys) rings relays (some out) (inr e) = absurd cc

opened :
    (mem : Memory) (region : Option (ℕ × ℕ))
    → (open_table mem region ≡ empty) ⊎ ((v : PackView) × (open_table mem region ≡ post_init v))
unfolding open_table
opened mem none = inl refl
opened mem (some (addr, size)) = elim (Option-cases (create_pack_view mem addr size)) [
  | inl refused ↦ inl (rw (open_table, refused) refl)
  | inr (v, taken) ↦ inr (v, rw (open_table, taken) refl)
]

-- For a file that could be loaded or not, with any bytes, and a batch below 2 ^ 32: by the type that the
-- table reports, `batch_search` without a patch finds nothing and leaves `out` alone when the table
-- could not be opened, and for a set or a dictionary with inline values gives for every key the address
-- that `search` gives, and the number of keys found, and leaves the rest of `out` alone. On any table,
-- with a patch or without, null pointers for the keys or for `out` have the result 0.
pub table_batch_search_lem :
    (mem kmem : Memory) (region : Option (ℕ × ℕ)) (batch : ℕ) (keys : ℕ → ℕ) (rings : Rings)
    (relays : RelayRings) (out : ℕ → Option ℕ)
    → batch < 2 ^ 32
    → ((open_table mem region).kind ≡ none
        → result (open_table mem region) mem kmem batch keys rings relays out ≡ (0, some out))
      × (((open_table mem region).kind ≡ some kv_inline)
            ⊎ ((open_table mem region).kind ≡ some key_set)
          → AsSearched (open_table mem region) mem kmem batch keys rings relays out)
      × ((patch : Option Hashtable) (ks : Option (ℕ → ℕ)) (o : Option (ℕ → Option ℕ))
          → (ks ≡ none) ⊎ (o ≡ none)
          → table_batch_search (open_table mem region) patch mem kmem batch ks rings relays o
            ≡ (0, o))
table_batch_search_lem mem kmem region batch keys rings relays out small =
    elim (opened mem region) [
      | inl e ↦ (
        λ k.
            result-none (open_table mem region) mem kmem batch keys rings relays out
              (ap (λ (t : Hashtable). t.view) e),
        λ k. absurd (no_kind e k),
        λ patch ks o h. nulls (open_table mem region) patch mem kmem batch ks rings relays o h,
      )
      | inr (v, e) ↦ (
        λ k. absurd (let some_kind = kind_of v e in cc),
        λ k.
            searched (open_table mem region) mem kmem batch keys rings relays out v (view_of v e)
              (type_of v e k) small,
        λ patch ks o h. nulls (open_table mem region) patch mem kmem batch ks rings relays o h,
      )
    ]
  where
    no_kind :
        open_table mem region ≡ empty
        → ((open_table mem region).kind ≡ some kv_inline)
          ⊎ ((open_table mem region).kind ≡ some key_set)
        → ⊥
    no_kind e (inl k) =
        let n : (open_table mem region).kind ≡ none = ap (λ (t : Hashtable). t.kind) e in absurd cc
    no_kind e (inr k) =
        let n : (open_table mem region).kind ≡ none = ap (λ (t : Hashtable). t.kind) e in absurd cc

    kind_of :
        (v : PackView)
        → open_table mem region ≡ post_init v
        → (open_table mem region).kind ≡ some v.type
    kind_of v e = ap (λ (t : Hashtable). t.kind) e ∙ unfold post_init in refl

    view_of :
        (v : PackView) → open_table mem region ≡ post_init v → (open_table mem region).view ≡ some v
    view_of v e = ap (λ (t : Hashtable). t.view) e ∙ unfold post_init in refl

    type_of :
        (v : PackView)
        → open_table mem region ≡ post_init v
        → ((open_table mem region).kind ≡ some kv_inline)
          ⊎ ((open_table mem region).kind ≡ some key_set)
        → (v.type ≡ kv_inline) ⊎ (v.type ≡ key_set)
    type_of v e (inl k) = inl (some_inj (sym (kind_of v e) ∙ k))
    type_of v e (inr k) = inr (some_inj (sym (kind_of v e) ∙ k))
