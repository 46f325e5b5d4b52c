-- ===== src/Patch.antt =====
-- The batch calls of src/search.cc on a table and a patch, which is looked at first. Memory is as in
-- Search.antt: both files are in `mem`.
pub mod Law
use fast_chd.Base.{ℕ, ◌+◌, ◌*◌, ◌%◌, ◌^◌, ◌==◌, if◌then◌else◌, Option, none, some, List}
use fast_chd.Base.{Bool, true, false, not, ◌&&◌, ◌||◌}
use fast_chd.Base.Memory.{Memory}
use fast_chd.Pipeline.Seven.{pipeline7}
use fast_chd.Table.{PackView, Step1, Step2, kv_inline, key_set, is_type, calc1, calc2}
use fast_chd.Search.{Rings, Fetched, process3, match_line, value_at, put, deliver}

-- `Relay<T>`: with a value's address the rest is a default that no stage reads; with a null pointer
-- the stages go on.
pub data Relay {ℓ} (T : Type ℓ) : Type ℓ where
  served : ℕ → Relay T
  pending : T → Relay T

-- The fourth stage: the patch's answer for the key, or the first step in the base.
unfoldable pub turn_to_base : PackView → PackView → Memory → Memory → ℕ → Option ℕ → Relay Step1
turn_to_base base patch mem kmem key line =
    elim (value_at patch (match_line kmem mem key line patch.key_len)) [
      | none ↦ pending (calc1 base kmem key base.key_len)
      | some v ↦ served v
    ]

unfoldable pub relay2 : Memory → Relay Step1 → Relay Step2
relay2 mem (served v) = served v
relay2 mem (pending s) = pending (calc2 mem s)

unfoldable pub relay3 : PackView → Memory → Relay Step2 → Relay (Option ℕ)
relay3 base mem (served v) = served v
relay3 base mem (pending s) = pending (process3 base mem s)

-- What the last stage knows of the value's address.
unfoldable pub settle : PackView → Memory → Memory → ℕ → Relay (Option ℕ) → Option ℕ
settle base mem kmem key (served v) = some v
settle base mem kmem key (pending line) = value_at base (match_line kmem mem key line base.key_len)

-- The tables have one type and the same lengths.
unfoldable pub alike : PackView → PackView → Bool
alike base patch =
    is_type base.type patch.type
    && (base.key_len == patch.key_len)
    && (base.val_len == patch.val_len)

-- The rings of the last three stages.
pub record RelayRings : Type 0 where
  pub ring4 : ℕ → Relay Step1
  pub ring5 : ℕ → Relay Step2
  pub ring6 : ℕ → Relay (Option ℕ)

unfoldable pub batch_search_patch :
    PackView
    → PackView
    → Memory
    → Memory
    → ℕ
    → (ℕ → ℕ)
    → Rings
    → RelayRings
    → (ℕ → Option ℕ)
    → ℕ × (ℕ → Option ℕ)
batch_search_patch base patch mem kmem batch keys rings relays out =
    if not (is_type base.type kv_inline) && not (is_type base.type key_set)
      || not (alike base patch)
    then (0, out)
    else pipeline7 5 (λ i. calc1 patch kmem (keys i) patch.key_len) (λ s i. calc2 mem s)
        (λ s i. process3 patch mem s) (λ line i. turn_to_base base patch mem kmem (keys i) line)
        (λ s i. relay2 mem s) (λ s i. relay3 base mem s)
        (λ s i. put (settle base mem kmem (keys i) s) i) batch rings.ring1 rings.ring2 rings.ring3
        relays.ring4 relays.ring5 relays.ring6 (0, out)

unfoldable pub batch_fetch_patch :
    PackView
    → PackView
    → Memory
    → Memory
    → Option Memory
    → ℕ
    → ℕ
    → ℕ
    → Rings
    → RelayRings
    → Memory
    → Option (List ℕ)
    → Fetched
batch_fetch_patch base patch mem kmem dft_val batch keys dest rings relays out miss =
    let start : Fetched = record { hit = 0; data_out = out; miss = miss } in
    if not (is_type base.type kv_inline) || not (alike base patch)
    then start
    else pipeline7 4 (λ i. calc1 patch kmem (keys + i * patch.key_len % 2 ^ 32) patch.key_len)
        (λ s i. calc2 mem s) (λ s i. process3 patch mem s)
        (λ line i. turn_to_base base patch mem kmem (keys + i * base.key_len % 2 ^ 32) line)
        (λ s i. relay2 mem s) (λ s i. relay3 base mem s)
        (λ s i.
          deliver base.val_len mem dest dft_val
            (settle base mem kmem (keys + i * base.key_len % 2 ^ 32) s) i)
        batch rings.ring1 rings.ring2 rings.ring3 relays.ring4 relays.ring5 relays.ring6 start
