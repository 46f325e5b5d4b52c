-- ===== src/Patch/Law.antt =====
-- The patch answers for the keys it has, the base for the others.
use fast_chd.Base.{
  ℕ, ◌+◌, ◌*◌, ◌%◌, ◌^◌, ◌≤◌, ◌<◌, ◌≡◌, ◌∙◌, refl, sym, ap, arith, each, each_congr, offset_exact,
}
use fast_chd.Base.{true, false, not, ◌&&◌, ◌||◌, ==_iff, ◌⊎◌, inl, inr, Option, none, some, List}
use fast_chd.Base.Memory.{Memory}
use fast_chd.Pipeline.Seven.Law.{pipeline7_lem}
use fast_chd.Table.{PackView, calc1, calc2, kv_inline, key_set, is_type, type_code}
use fast_chd.Search.{Rings, process3, value_at, search, put, deliver}
use fast_chd.Search.Fetch.{Delivered, deliver_all}
use fast_chd.Search.Law.{lookup, slice_start, values, count, put_all, accepted}
use fast_chd.Patch.{
  served, pending, turn_to_base, relay2, relay3, settle, alike, RelayRings, batch_search_patch,
  batch_fetch_patch,
}

-- The first of two answers that is one.
abbrev first : Option ℕ → Option ℕ → Option ℕ
first none b = b
first (some a) b = some a

module _ (base patch : PackView) (mem kmem : Memory) where
  -- The stages on a key, whose address the first one and the fourth one compute each.
  abbrev through : ℕ → ℕ → Option ℕ
  through key key' = settle base mem kmem key (
      relay3 base mem (
        relay2 mem (
          turn_to_base base patch mem kmem key
            (process3 patch mem (calc2 mem (calc1 patch kmem key' patch.key_len))))))

  abbrev stages : ℕ → Option ℕ
  stages key = through key key

  settled :
      (key : ℕ) (o : Option ℕ)
      → settle base mem kmem key (
          relay3 base mem (
            relay2 mem
              (elim o [ none ↦ pending (calc1 base kmem key base.key_len) | some v ↦ served v ])))
        ≡ first o (value_at base (lookup base mem kmem key))
  unfolding relay2 relay3 settle
  settled key none = refl
  settled key (some a) = refl

  stages-first :
      (key : ℕ)
      → stages key
        ≡ first
            (value_at patch (lookup patch mem kmem key))
            (value_at base (lookup base mem kmem key))
  unfolding turn_to_base
  stages-first key = settled key (value_at patch (lookup patch mem kmem key))

  -- The value's address that `search` finds in the patch, else the one that it finds in the base.
  abbrev pub layered : ℕ → Option ℕ
  layered key =
      first (slice_start (search patch mem kmem key)) (slice_start (search base mem kmem key))

  module _ (kind : (base.type ≡ kv_inline) ⊎ (base.type ≡ key_set)) (types : patch.type ≡ base.type)
      (keys_same : base.key_len ≡ patch.key_len) (vals_same : base.val_len ≡ patch.val_len) where
    patch_kind : (patch.type ≡ kv_inline) ⊎ (patch.type ≡ key_set)
    patch_kind = elim kind [ inl e ↦ inl (types ∙ e) | inr e ↦ inr (types ∙ e) ]

    stages-layered : (key : ℕ) → stages key ≡ layered key
    stages-layered key =
        stages-first key
        ∙ ap (λ (o : Option ℕ). first o (value_at base (lookup base mem kmem key)))
            (values patch mem kmem patch_kind key)
        ∙ ap (first (slice_start (search patch mem kmem key))) (values base mem kmem kind key)

    alike_lem : alike base patch ≡ true
    unfolding alike is_type
    alike_lem =
        rw (types, (==_iff _ _).1 keys_same, (==_iff _ _).1 vals_same)
          (rw ((==_iff (type_code base.type) (type_code base.type)).1 refl) refl)

    -- `BatchSearch` with a patch, on two sets or two dictionaries with inline values that have the same
    -- lengths, and fewer than 2 ^ 32 keys: `out[i]` is the address that `search` finds for key `i` in the
    -- patch, else the one in the base, else null; the result counts the keys found in either, and the
    -- rest of `out` is left alone.
    pub batch_search_patch_lem :
        (batch : ℕ) (keys : ℕ → ℕ) (rings : Rings) (relays : RelayRings) (out : ℕ → Option ℕ)
        → batch < 2 ^ 32
        → ((batch_search_patch base patch mem kmem batch keys rings relays out).0
            ≡ count (λ i. layered (keys i)) batch)
          × ((i : ℕ)
              → i < batch
              → (batch_search_patch base patch mem kmem batch keys rings relays out).1 i
                ≡ layered (keys i))
          × ((i : ℕ)
              → batch ≤ i
              → (batch_search_patch base patch mem kmem batch keys rings relays out).1 i ≡ out i)
    batch_search_patch_lem batch keys rings relays out small =
        rw searched (put_all (λ i. layered (keys i)) out batch small)
      where
        go :
            (not (is_type base.type kv_inline) && not (is_type base.type key_set)
              || not (alike base patch))
            ≡ false
        go = rw (accepted base mem kmem kind, alike_lem) refl

        searched :
            batch_search_patch base patch mem kmem batch keys rings relays out
            ≡ each batch (λ i. put (layered (keys i)) i) (0, out)
        searched =
            unfold batch_search_patch in
            rw go (
              pipeline7_lem 5 (λ i. calc1 patch kmem (keys i) patch.key_len) (λ s i. calc2 mem s)
                (λ s i. process3 patch mem s)
                (λ line i. turn_to_base base patch mem kmem (keys i) line) (λ s i. relay2 mem s)
                (λ s i. relay3 base mem s) (λ s i. put (settle base mem kmem (keys i) s) i)
                (omega arith) batch rings.ring1 rings.ring2 rings.ring3 relays.ring4 relays.ring5
                relays.ring6 (0, out)
              ∙ each_congr batch _ _ (0, out)
                  λ i s _. ap (λ (o : Option ℕ). put o i s) (stages-layered (keys i)))

  -- The address of the value for key `i`, in the patch or else in the base.
  abbrev pub layered_key : ℕ → ℕ → Option ℕ
  layered_key keys i = layered (keys + i * base.key_len)

  fetch-each :
      base.type ≡ kv_inline
      → patch.type ≡ base.type
      → base.key_len ≡ patch.key_len
      → base.val_len ≡ patch.val_len
      → (dft_val : Option Memory) (batch keys dest : ℕ) (rings : Rings) (relays : RelayRings)
        (out : Memory) (miss : Option (List ℕ))
      → batch * base.key_len ≤ 2 ^ 32
      → batch_fetch_patch base patch mem kmem dft_val batch keys dest rings relays out miss
        ≡ each batch
            (λ i. deliver base.val_len mem dest dft_val (layered_key keys i) i)
            (record { hit = 0; data_out = out; miss = miss })
  fetch-each kind types keys_same vals_same dft_val batch keys dest rings relays out miss room =
      unfold batch_fetch_patch in
      rw go (
        pipeline7_lem 4 (λ i. calc1 patch kmem (keys + i * patch.key_len % 2 ^ 32) patch.key_len)
          (λ s i. calc2 mem s) (λ s i. process3 patch mem s)
          (λ line i. turn_to_base base patch mem kmem (keys + i * base.key_len % 2 ^ 32) line)
          (λ s i. relay2 mem s) (λ s i. relay3 base mem s)
          (λ s i.
            deliver base.val_len mem dest dft_val
              (settle base mem kmem (keys + i * base.key_len % 2 ^ 32) s) i)
          (omega arith) batch rings.ring1 rings.ring2 rings.ring3 relays.ring4 relays.ring5
          relays.ring6 (record { hit = 0; data_out = out; miss = miss })
        ∙ each_congr batch _ _ (record { hit = 0; data_out = out; miss = miss })
            λ i s l. ap (λ (o : Option ℕ). deliver base.val_len mem dest dft_val o i s) (whole i l))
    where
      inline : not (is_type kv_inline kv_inline) ≡ false
      inline = unfold is_type in refl

      go : (not (is_type base.type kv_inline) || not (alike base patch)) ≡ false
      go = rw (alike_lem (inl kind) types keys_same vals_same, kind, inline) refl

      whole :
          (i : ℕ)
          → i < batch
          → through (keys + i * base.key_len % 2 ^ 32) (keys + i * patch.key_len % 2 ^ 32)
            ≡ layered_key keys i
      whole i l =
          ap (λ (t : ℕ). through (keys + i * base.key_len % 2 ^ 32) (keys + i * t % 2 ^ 32))
            (sym keys_same)
          ∙ ap (λ (a : ℕ). stages (keys + a)) (offset_exact i batch base.key_len l room)
          ∙ stages-layered (inl kind) types keys_same vals_same (keys + i * base.key_len)

  -- `BatchFetch` with a patch, on two dictionaries with inline values that have the same lengths, and
  -- fewer than 2 ^ 32 keys, where the keys have at most 2 ^ 32 bytes in all, and their values too: the
  -- result is the number of keys that `search` finds in the patch or the base. In the place of a key in
  -- the output stands the value found in the patch, else the one found in the base, else the default
  -- value, or else, without one, what stood there before, and then the index of the key is added to the
  -- list of misses, if there is a list, in the order of the keys. The rest of the output is left alone.
  pub batch_fetch_patch_lem :
      base.type ≡ kv_inline
      → patch.type ≡ base.type
      → base.key_len ≡ patch.key_len
      → base.val_len ≡ patch.val_len
      → (dft_val : Option Memory) (batch keys dest : ℕ) (rings : Rings) (relays : RelayRings)
        (out : Memory) (miss : Option (List ℕ))
      → batch < 2 ^ 32
      → batch * base.key_len ≤ 2 ^ 32
      → batch * base.val_len ≤ 2 ^ 32
      → Delivered base.val_len mem dest dft_val
          (layered_key keys)
          out
          miss
          batch
          (batch_fetch_patch base patch mem kmem dft_val batch keys dest rings relays out miss)
  batch_fetch_patch_lem kind types keys_same vals_same dft_val batch keys dest rings relays out miss
        small key_room val_room =
      rw
        (fetch-each kind types keys_same vals_same dft_val batch keys dest rings relays out miss
          key_room)
        (deliver_all base.val_len mem dest dft_val (layered_key keys) out miss batch small val_room)
