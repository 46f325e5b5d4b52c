-- ===== src/Search.antt =====
-- The batch calls of src/search.cc on one table. The file is in `mem`; the keys, the array of key
-- pointers, the values out, the default value and the list of misses stand in memory of their own,
-- which `__restrict` asks for in `BatchLocate` and `BatchFetch`. `rings` is what the stack holds before.
pub mod Copy
pub mod Law
pub mod Fetch
use fast_chd.Base.{
  ℕ, zero, suc, ◌+◌, ◌-◌, ◌*◌, ◌%◌, ◌^◌, ltb, ◌==◌, if◌then◌else◌, Option, none, some, List, [],
  ◌∷◌, ◌++◌,
}
use fast_chd.Base.{Bool, true, false, not, ◌&&◌, ◌||◌, each, store}
use fast_chd.Base.Memory.{Memory, read_le}
use fast_chd.Pipeline.Three.{pipeline3}
use fast_chd.Pipeline.Four.{pipeline4}
use fast_chd.Value.{separated_value_at}
use fast_chd.Table.{
  PackView, Step1, Step2, index_only, kv_inline, key_set, kv_separated, key_pos, is_type, calc1,
  calc2, calc_pos,
}

-- `memcmp(a, b, len) == 0` on two places of two memories.
unfoldable pub equal_bytes : ℕ → Memory → ℕ → Memory → ℕ → Bool
equal_bytes zero mem a mem' b = true
equal_bytes (suc n) mem a mem' b =
    mem a % 2 ^ 8 == mem' b % 2 ^ 8 && equal_bytes n mem (a + 1) mem' (b + 1)

-- `Equal` reads one word when the length is that of a word.
unfoldable pub equal : Memory → ℕ → Memory → ℕ → ℕ → Bool
unfolding equal_bytes
equal mem a mem' b len =
    if len == 8
    then read_le 8 mem a == read_le 8 mem' b
    else if len == 4
    then read_le 4 mem a == read_le 4 mem' b
    else equal_bytes len mem a mem' b

-- `memcpy(dest + at, src + from, n)`
unfoldable pub copy : Memory → ℕ → Memory → ℕ → ℕ → Memory
copy dest at src from n = each n (λ j d. store d (at + j) (src (from + j))) dest

-- The line of a position, `none` for a null pointer.
unfoldable pub process3 : PackView → Memory → Step2 → Option ℕ
process3 pack mem s =
    let pos = calc_pos mem s in
    if ltb pos pack.item then some (pack.content + pos * pack.line_size % 2 ^ 64) else none

-- `LIKELY(in.line != nullptr) && Equal(key, in.line, len)`: the line, if it holds the key.
unfoldable pub match_line : Memory → Memory → ℕ → Option ℕ → ℕ → Option ℕ
unfolding equal
match_line kmem mem key none len = none
match_line kmem mem key (some line) len = if equal kmem key mem line len then some line else none

-- `PerfectHashtable::search` on a table and a key that are there: the slice of the value.
unfoldable pub search : PackView → Memory → Memory → ℕ → Option (ℕ × ℕ)
search pack mem kmem key =
    let pos = key_pos pack mem kmem key pack.key_len in
    let line = pack.content + pos * pack.line_size % 2 ^ 64 in
    let field = line + pack.key_len in
    if is_type pack.type index_only
    then none
    else if not (ltb pos pack.item) || not (equal mem line kmem key pack.key_len)
    then none
    else if not (is_type pack.type kv_separated)
    then some (field, pack.val_len)
    else separated_value_at mem pack.extend pack.space_end field

-- The rings of the three or four stages.
pub record Rings : Type 0 where
  pub ring1 : ℕ → Step1
  pub ring2 : ℕ → Step2
  pub ring3 : ℕ → Option ℕ

unfoldable pub batch_locate : PackView → Memory → Memory → ℕ → ℕ → ℕ → Rings → (ℕ → ℕ) → ℕ → ℕ
batch_locate index mem kmem batch keys key_len rings out =
    pipeline3 9 (λ i. calc1 index kmem (keys + i * key_len % 2 ^ 32) key_len) (λ s i. calc2 mem s)
      (λ s i o. store o i (calc_pos mem s)) batch rings.ring1 rings.ring2 out

-- `in.line + pack.key_len`
unfoldable pub value_at : PackView → Option ℕ → Option ℕ
value_at pack none = none
value_at pack (some line) = some (line + pack.key_len)

-- What the last stage of `BatchSearch` does with a value's address, or without one.
unfoldable pub put : Option ℕ → ℕ → ℕ × (ℕ → Option ℕ) → ℕ × (ℕ → Option ℕ)
put none i (hit, out) = (hit, store out i none)
put (some value) i (hit, out) = ((hit + 1) % 2 ^ 32, store out i (some value))

unfoldable pub batch_search :
    PackView → Memory → Memory → ℕ → (ℕ → ℕ) → Rings → (ℕ → Option ℕ) → ℕ × (ℕ → Option ℕ)
batch_search pack mem kmem batch keys rings out =
    if not (is_type pack.type kv_inline) && not (is_type pack.type key_set)
    then (0, out)
    else pipeline4 8 (λ i. calc1 pack kmem (keys i) pack.key_len) (λ s i. calc2 mem s)
        (λ s i. process3 pack mem s)
        (λ line i. put (value_at pack (match_line kmem mem (keys i) line pack.key_len)) i) batch
        rings.ring1 rings.ring2 rings.ring3 (0, out)

-- What a fetch leaves: the hits, the values, and the misses put down, `none` when `miss` is null.
pub record Fetched : Type 0 where
  pub hit : ℕ
  pub data_out : Memory
  pub miss : Option (List ℕ)

-- `*miss++ = i`
unfoldable pub note_miss : ℕ → Option (List ℕ) → Option (List ℕ)
note_miss i none = none
note_miss i (some m) = some (m ++ (i ∷ []))

-- What the last stage of `BatchFetch` does with a value's address, or without one.
unfoldable pub deliver : ℕ → Memory → ℕ → Option Memory → Option ℕ → ℕ → Fetched → Fetched
unfolding copy note_miss
deliver val_len mem dest dft_val (some value) i f = record f {
  hit = (f.hit + 1) % 2 ^ 32;
  data_out = copy f.data_out (dest + i * val_len % 2 ^ 32) mem value val_len;
}
deliver val_len mem dest (some dft) none i f = record f {
  data_out = copy f.data_out (dest + i * val_len % 2 ^ 32) dft 0 val_len;
}
deliver val_len mem dest none none i f = record f { miss = note_miss i f.miss }

unfoldable pub batch_fetch :
    PackView
    → Memory
    → Memory
    → Option Memory
    → ℕ
    → ℕ
    → ℕ
    → Rings
    → Memory
    → Option (List ℕ)
    → Fetched
batch_fetch pack mem kmem dft_val batch keys dest rings out miss =
    let start : Fetched = record { hit = 0; data_out = out; miss = miss } in
    if not (is_type pack.type kv_inline)
    then start
    else pipeline4 7 (λ i. calc1 pack kmem (keys + i * pack.key_len % 2 ^ 32) pack.key_len)
        (λ s i. calc2 mem s) (λ s i. process3 pack mem s)
        (λ line i.
          deliver pack.val_len mem dest dft_val
            (value_at pack
              (match_line kmem mem (keys + i * pack.key_len % 2 ^ 32) line pack.key_len))
            i)
        batch rings.ring1 rings.ring2 rings.ring3 start
