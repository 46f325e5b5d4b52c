-- ===== src/Members.antt =====
-- `PerfectHashtable` of src/shd.cc: what its constructors leave, and its members with their checks of
-- null pointers. A pointer that may be null is an Option. Tables and their patches are in one memory.
pub mod Law
use fast_chd.Base.{
  ℕ, zero, suc, ◌+◌, ◌*◌, ◌==◌, not, ◌&&◌, ◌||◌, if◌then◌else◌, Bool, true, false, Option, none,
  some, List, [],
}
use fast_chd.Base.Memory.{Memory}
use fast_chd.Pack.{create_pack_view}
use fast_chd.Patch.{RelayRings, batch_search_patch, batch_fetch_patch}
use fast_chd.Search.{Rings, Fetched, search, batch_locate, batch_search, batch_fetch}
use fast_chd.Table.{TableType, index_only, kv_separated, is_type, PackView, key_pos}

-- `m_view`, and the members that `_post_init` sets; `none` is `ILLEGAL_TYPE`.
pub record Hashtable : Type 0 where
  pub view : Option PackView
  pub kind : Option TableType
  pub key_len : ℕ
  pub val_len : ℕ
  pub item : ℕ

abbrev pub empty : Hashtable
empty = record { view = none; kind = none; key_len = 0; val_len = 0; item = 0 }

-- `_post_init`
unfoldable pub post_init : PackView → Hashtable
post_init v = record {
  view = some v;
  kind = some v.type;
  key_len = v.key_len;
  val_len = if is_type v.type kv_separated then 0 else v.val_len;
  item = v.item;
}

-- The constructors, once the file is at `addr` with `size` bytes, or could not be loaded.
unfoldable pub open_table : Memory → Option (ℕ × ℕ) → Hashtable
unfolding post_init create_pack_view
open_table mem none = empty
open_table mem (some (addr, size)) = elim (create_pack_view mem addr size) [
  | none ↦ empty
  | some v ↦ post_init v
]

unfoldable pub table_locate : Hashtable → Memory → Memory → Option ℕ → ℕ → ℕ
table_locate t mem kmem key key_len = elim t.view [
  | none ↦ 0
  | some v ↦ elim key [
    | none ↦ 0
    | some k ↦ if key_len == 0 then 0 else key_pos v mem kmem k key_len
  ]
]

unfoldable pub table_batch_locate :
    Hashtable → Memory → Memory → ℕ → Option ℕ → ℕ → Rings → (ℕ → ℕ) → ℕ → ℕ
table_batch_locate t mem kmem batch keys key_len rings out = elim t.view [
  | none ↦ out
  | some v ↦ elim keys [
    | none ↦ out
    | some k ↦
        if key_len == 0 || (not (is_type v.type index_only) && not (key_len == v.key_len))
        then out
        else batch_locate v mem kmem batch k key_len rings out
  ]
]

-- The check for an index is that of `search`.
unfoldable pub table_search : Hashtable → Memory → Memory → Option ℕ → Option (ℕ × ℕ)
table_search t mem kmem key = elim t.view [
  | none ↦ none
  | some v ↦ elim key [ none ↦ none | some k ↦ search v mem kmem k ]
]

-- What is returned, and the array that `out` points to.
abbrev array_of : ℕ × (ℕ → Option ℕ) → ℕ × Option (ℕ → Option ℕ)
array_of (hit, o) = (hit, some o)

unfoldable pub table_batch_search :
    Hashtable
    → Option Hashtable
    → Memory
    → Memory
    → ℕ
    → Option (ℕ → ℕ)
    → Rings
    → RelayRings
    → Option (ℕ → Option ℕ)
    → ℕ × Option (ℕ → Option ℕ)
table_batch_search t patch mem kmem batch none rings relays out = (0, out)
table_batch_search t patch mem kmem batch (some keys) rings relays none = (0, none)
table_batch_search t patch mem kmem batch (some keys) rings relays (some out) = elim t.view [
  | none ↦ (0, some out)
  | some base ↦ elim patch [
    | none ↦ array_of (batch_search base mem kmem batch keys rings out)
    | some p ↦ elim p.view [
      | none ↦ (0, some out)
      | some delta ↦ array_of (batch_search_patch base delta mem kmem batch keys rings relays out)
    ]
  ]
]

-- `batch_fetch`, where `miss` is `none`, and without a default value `batch_try_fetch`. The values go
-- to `dest`.
unfoldable pub table_batch_fetch :
    Hashtable
    → Option Hashtable
    → Memory
    → Memory
    → Option Memory
    → ℕ
    → Option ℕ
    → Option ℕ
    → Rings
    → RelayRings
    → Memory
    → Option (List ℕ)
    → Fetched
table_batch_fetch t patch mem kmem dft_val batch none dest rings relays out miss = record {
  hit = 0;
  data_out = out;
  miss = miss;
}
table_batch_fetch t patch mem kmem dft_val batch (some keys) none rings relays out miss = record {
  hit = 0;
  data_out = out;
  miss = miss;
}
table_batch_fetch t patch mem kmem dft_val batch (some keys) (some dest) rings relays out miss =
    let start : Fetched = record { hit = 0; data_out = out; miss = miss } in
    elim t.view [
      | none ↦ start
      | some base ↦ elim patch [
        | none ↦ batch_fetch base mem kmem dft_val batch keys dest rings out miss
        | some p ↦ elim p.view [
          | none ↦ start
          | some delta ↦
              batch_fetch_patch base delta mem kmem dft_val batch keys dest rings relays out miss
        ]
      ]
    ]

unfoldable pub table_batch_try_fetch :
    Hashtable
    → Option Hashtable
    → Memory
    → Memory
    → ℕ
    → Option ℕ
    → Option ℕ
    → Rings
    → RelayRings
    → Memory
    → Option (List ℕ)
    → Fetched
unfolding table_batch_fetch
table_batch_try_fetch t patch mem kmem batch keys dest rings relays out miss =
    table_batch_fetch t patch mem kmem none batch keys dest rings relays out miss
