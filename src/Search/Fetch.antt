-- ===== src/Search/Fetch.antt =====
-- What a fetch leaves: the hits, the list of misses, and every byte of the output.
use fast_chd.Base.{
  ℕ, zero, suc, ◌+◌, ◌*◌, ◌%◌, ◌^◌, ◌≤◌, ◌<◌, ◌≡◌, ◌∙◌, refl, sym, ap, arith, each, each_inv,
  each_congr, offset_exact, element-le,
}
use fast_chd.Base.{
  false, not, ◌==◌, ==_iff, Bool-cases, ◌⊎◌, inl, inr, Option, none, some, List, [], ◌∷◌, ◌++◌,
}
use fast_chd.Base.Memory.{Memory}
use fast_chd.Pipeline.Four.Law.{pipeline4_lem}
use fast_chd.Search.{
  Rings, Fetched, copy, process3, match_line, search, deliver, note_miss, value_at, batch_fetch,
}
use fast_chd.Search.Copy.{copy_other, copy_here}
use fast_chd.Search.Law.{slice_start, values, hit_of, count, count-le}
use fast_chd.Table.{PackView, calc1, calc2, kv_inline, is_type}
use mathlib.Core.List.{append-nil, append_assoc}

-- The index of a key without a value, as a list.
abbrev pub alone : ℕ → Option ℕ → List ℕ
alone i none = i ∷ []
alone i (some a) = []

-- The keys without a value among the first `n`, in their order.
unfoldable pub absent : (ℕ → Option ℕ) → ℕ → List ℕ
absent v zero = []
absent v (suc n) = absent v n ++ alone n (v n)

-- Misses are put down where there is a list for them and no default value.
abbrev pub noted : Option Memory → Option (List ℕ) → List ℕ → Option (List ℕ)
noted (some d) m l = m
noted none none l = none
noted none (some m) l = some (m ++ l)

-- Byte `j` of a key's value, with its address, the default value, and the byte before the call.
abbrev pub value_byte : Memory → Option ℕ → Option Memory → ℕ → ℕ → ℕ
value_byte mem (some a) dft j old = mem (a + j)
value_byte mem none (some d) j old = d j
value_byte mem none none j old = old

noted-nil : (d : Option Memory) (m : Option (List ℕ)) → noted d m [] ≡ m
noted-nil (some d) m = refl
noted-nil none none = refl
noted-nil none (some m) = ap some (append-nil m)

noted-append :
    (d : Option Memory) (m : Option (List ℕ)) (l l' : List ℕ)
    → noted d (noted d m l) l' ≡ noted d m (l ++ l')
noted-append (some d) m l l' = refl
noted-append none none l l' = refl
noted-append none (some m) l l' = ap some (append_assoc m l l')

module _ (val_len : ℕ) (mem : Memory) (dest : ℕ) where
  deliver-hit :
      (d : Option Memory) (w : Option ℕ) (i : ℕ) (f : Fetched)
      → f.hit ≤ i
      → suc i < 2 ^ 32
      → (deliver val_len mem dest d w i f).hit ≡ f.hit + hit_of w
  unfolding deliver
  deliver-hit d (some a) i f le lim = omega arith
  deliver-hit (some d) none i f le lim = omega arith
  deliver-hit none none i f le lim = omega arith

  deliver-miss :
      (d : Option Memory) (w : Option ℕ) (i : ℕ) (f : Fetched)
      → (deliver val_len mem dest d w i f).miss ≡ noted d f.miss (alone i w)
  unfolding deliver note_miss
  deliver-miss d (some a) i f = sym (noted-nil d f.miss)
  deliver-miss (some d) none i f = refl
  deliver-miss none none i f = note f.miss
    where
      note : (m : Option (List ℕ)) → note_miss i m ≡ noted none m (i ∷ [])
      note none = refl
      note (some m) = refl

  -- The place of key `i`, where its offset has 32 bits.
  module _ (i : ℕ) (exact : i * val_len % 2 ^ 32 ≡ i * val_len) where
    copied :
        (f : Fetched) (src : Memory) (from j : ℕ)
        → j < val_len
        → copy f.data_out (dest + i * val_len % 2 ^ 32) src from val_len (dest + i * val_len + j)
          ≡ src (from + j)
    copied f src from j l =
        ap (copy f.data_out (dest + i * val_len % 2 ^ 32) src from val_len) (omega (arith, exact))
        ∙ copy_here f.data_out src (dest + i * val_len % 2 ^ 32) from val_len j l

    deliver-byte :
        (d : Option Memory) (w : Option ℕ) (f : Fetched) (j : ℕ)
        → j < val_len
        → (deliver val_len mem dest d w i f).data_out (dest + i * val_len + j)
          ≡ value_byte mem w d j (f.data_out (dest + i * val_len + j))
    unfolding deliver
    deliver-byte d (some a) f j l = copied f mem a j l
    deliver-byte (some d) none f j l = copied f d 0 j l ∙ ap d (omega arith)
    deliver-byte none none f j l = refl

    deliver-other :
        (d : Option Memory) (w : Option ℕ) (f : Fetched) (q : ℕ)
        → (q < dest + i * val_len) ⊎ (dest + i * val_len + val_len ≤ q)
        → (deliver val_len mem dest d w i f).data_out q ≡ f.data_out q
    unfolding deliver
    deliver-other d (some a) f q h =
        copy_other f.data_out mem (dest + i * val_len % 2 ^ 32) a val_len q (rw exact h)
    deliver-other (some d) none f q h =
        copy_other f.data_out d (dest + i * val_len % 2 ^ 32) 0 val_len q (rw exact h)
    deliver-other none none f q h = refl

-- After the first `n` keys, whose values are at `v`: the hits, the misses, the bytes of each key's
-- place, and the bytes outside of the places.
pub record Delivered (val_len : ℕ) (mem : Memory) (dest : ℕ) (dft_val : Option Memory)
    (v : ℕ → Option ℕ) (out : Memory) (miss : Option (List ℕ)) (n : ℕ) (f : Fetched) : Type 0 where
  pub hit : f.hit ≡ count v n
  pub missed : f.miss ≡ noted dft_val miss (absent v n)
  pub filled :
      (i j : ℕ)
      → i < n
      → j < val_len
      → f.data_out (dest + i * val_len + j)
        ≡ value_byte mem (v i) dft_val j (out (dest + i * val_len + j))
  pub kept : (q : ℕ) → (q < dest) ⊎ (dest + n * val_len ≤ q) → f.data_out q ≡ out q

module _ (val_len : ℕ) (mem : Memory) (dest : ℕ) (dft_val : Option Memory) (v : ℕ → Option ℕ)
    (out : Memory) (miss : Option (List ℕ)) where
  abbrev Reached : ℕ → Fetched → Type 0
  Reached = Delivered val_len mem dest dft_val v out miss

  deliver_round :
      (r : ℕ) (f : Fetched)
      → suc r < 2 ^ 32
      → r * val_len % 2 ^ 32 ≡ r * val_len
      → Reached r f
      → Reached (suc r) (deliver val_len mem dest dft_val (v r) r f)
  unfolding count absent
  deliver_round r f lim exact done = record {
    hit =
        deliver-hit val_len mem dest dft_val (v r) r f (omega (arith, done.hit, count-le v r)) lim
        ∙ ap (λ (t : ℕ). t + hit_of (v r)) done.hit;
    missed =
        deliver-miss val_len mem dest dft_val (v r) r f
        ∙ ap (λ (m : Option (List ℕ)). noted dft_val m (alone r (v r))) done.missed
        ∙ noted-append dft_val miss (absent v r) (alone r (v r));
    filled = λ i j l m. elim (Bool-cases (i == r)) [
      | inl e ↦
          let same = (==_iff i r).0 e in
          rw same (
            deliver-byte val_len mem dest r exact dft_val (v r) f j m
            ∙ ap (value_byte mem (v r) dft_val j)
                (done.kept (dest + r * val_len + j) (inr (omega arith))))
      | inr ne ↦
          let less : i < r = ground arith in
          deliver-other val_len mem dest r exact dft_val (v r) f (dest + i * val_len + j)
            (inl (omega (arith, element-le i r val_len less)))
          ∙ done.filled i j less m
    ];
    kept = λ q h.
        deliver-other val_len mem dest r exact dft_val (v r) f q (ground (arith, h))
        ∙ done.kept q (ground (arith, h));
  }

  pub deliver_all :
      (n : ℕ)
      → n < 2 ^ 32
      → n * val_len ≤ 2 ^ 32
      → Reached n (
          each n
            (λ i. deliver val_len mem dest dft_val (v i) i)
            (record { hit = 0; data_out = out; miss = miss }))
  unfolding count absent
  deliver_all n small room =
      each_inv Reached n (λ i. deliver val_len mem dest dft_val (v i) i)
        (record { hit = 0; data_out = out; miss = miss })
        (record {
          hit = refl;
          missed = sym (noted-nil dft_val miss);
          filled = λ i j l. absurd (omega arith);
          kept = λ q h. refl;
        })
        (λ r f l done. deliver_round r f (omega arith) (offset_exact r n val_len l room) done)

module _ (pack : PackView) (mem kmem : Memory) where
  -- The address of the value that `search` finds for key `i`.
  abbrev pub found : ℕ → ℕ → Option ℕ
  found keys i = slice_start (search pack mem kmem (keys + i * pack.key_len))

  fetch-each :
      (dft_val : Option Memory) (batch keys dest : ℕ) (rings : Rings) (out : Memory)
      (miss : Option (List ℕ))
      → pack.type ≡ kv_inline
      → batch * pack.key_len ≤ 2 ^ 32
      → batch_fetch pack mem kmem dft_val batch keys dest rings out miss
        ≡ each batch
            (λ i. deliver pack.val_len mem dest dft_val (found keys i) i)
            (record { hit = 0; data_out = out; miss = miss })
  unfolding batch_fetch
  fetch-each dft_val batch keys dest rings out miss kind room =
      let go : not (is_type pack.type kv_inline) ≡ false = rw kind inline in
      rw go (
        pipeline4_lem 7 (λ i. calc1 pack kmem (keys + i * pack.key_len % 2 ^ 32) pack.key_len)
          (λ s i. calc2 mem s) (λ s i. process3 pack mem s)
          (λ line i.
            deliver pack.val_len mem dest dft_val
              (value_at pack
                (match_line kmem mem (keys + i * pack.key_len % 2 ^ 32) line pack.key_len))
              i)
          (omega arith) batch rings.ring1 rings.ring2 rings.ring3
          (record { hit = 0; data_out = out; miss = miss })
        ∙ each_congr batch _ _ (record { hit = 0; data_out = out; miss = miss })
            (λ i s l.
              ap (λ (o : Option ℕ). deliver pack.val_len mem dest dft_val o i s)
                (values pack mem kmem (inl kind) (keys + i * pack.key_len % 2 ^ 32)
                  ∙ ap (λ (a : ℕ). slice_start (search pack mem kmem (keys + a)))
                      (offset_exact i batch pack.key_len l room))))
    where
      inline : not (is_type kv_inline kv_inline) ≡ false
      inline = unfold is_type in refl

  -- `BatchFetch` on a dictionary with inline values and fewer than 2 ^ 32 keys, where the keys have at
  -- most 2 ^ 32 bytes in all, and their values too: the result is the number of keys that `search`
  -- finds. In the place of a key in the output stands the value that `search` finds, or else the
  -- default value, or else, without one, what stood there before, and then the index of the key is
  -- added to the list of misses, if there is a list, in the order of the keys. The rest of the output
  -- is left alone.
  pub batch_fetch_lem :
      (dft_val : Option Memory) (batch keys dest : ℕ) (rings : Rings) (out : Memory)
      (miss : Option (List ℕ))
      → pack.type ≡ kv_inline
      → batch < 2 ^ 32
      → batch * pack.key_len ≤ 2 ^ 32
      → batch * pack.val_len ≤ 2 ^ 32
      → Delivered pack.val_len mem dest dft_val
          (found keys)
          out
          miss
          batch
          (batch_fetch pack mem kmem dft_val batch keys dest rings out miss)
  batch_fetch_lem dft_val batch keys dest rings out miss kind small key_room val_room =
      rw (fetch-each dft_val batch keys dest rings out miss kind key_room)
        (deliver_all pack.val_len mem dest dft_val (found keys) out miss batch small val_room)
