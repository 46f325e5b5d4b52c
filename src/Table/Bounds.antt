-- ===== src/Table/Bounds.antt =====
-- The position of a key: what it depends on, and that its bit lies in the bitmap of its segment.
use fast_chd.Base.{ℕ, ◌+◌, ◌*◌, ◌%◌, ◌^◌, ◌<◌, ◌≡◌, refl, arith}
use fast_chd.Base.Digits.{bit_xor-lt}
use fast_chd.Base.Memory.{Memory}
use fast_chd.Divisor.{mr_init, mr_mod}
use fast_chd.Divisor.Mr.{mr_mod_lem}
use fast_chd.Format.{l2_size, section_size}
use fast_chd.Format.Sizes.{l2_size_lem, bitmap_size_lem}
use fast_chd.Hash.Locality.{SameBytes, gen_id_move}
use fast_chd.Hash.{V96, gen_id, l2_hash}
use fast_chd.Table.{PackView, Step1, calc1, calc2, key_pos}
use native.Mathlib.Nat.{mod-lt}

-- The words of an identity have 32 bits.
abbrev pub IsId : V96 → Type 0
IsId id = (id.u0 < 2 ^ 32) × (id.u1 < 2 ^ 32) × (id.u2 < 2 ^ 32)

pub gen_id-IsId : (seed : ℕ) (mem : Memory) (key len : ℕ) → IsId (gen_id seed mem key len)
unfolding gen_id
gen_id-IsId seed mem key len = (omega arith, omega arith, omega arith)

pub l2_hash-lt : (id : V96) (sd8 : ℕ) → IsId id → l2_hash id sd8 < 2 ^ 64
unfolding l2_hash
l2_hash-lt id sd8 (a, b, c) = bit_xor-lt 64 _ _ (omega arith) (omega arith)

-- For a segment of `item < 2 ^ 32` items whose `l2sz` divides by `L2Size`, and an identity of three
-- 32-bit words, the section is one of the `SectionSize` sections, the bit is one of the 224 of a
-- section, and both together are below `L2Size`, whatever the byte in the cell is.
pub calc2-inside :
    (mem : Memory) (s : Step1) (item : ℕ)
    → item < 2 ^ 32
    → IsId s.id
    → s.seg.l2sz ≡ mr_init 64 (l2_size item)
    → ((calc2 mem s).section < section_size item)
      × ((calc2 mem s).bit_off < 224)
      × (224 * (calc2 mem s).section + (calc2 mem s).bit_off < l2_size item)
unfolding calc2
calc2-inside mem s item small id e =
    let cell = mem (s.seg.cells + s.l1pos) % 2 ^ 8 in
    let size = l2_size_lem item small in
    let hash = l2_hash s.id cell in
    let rest : mr_mod 64 s.seg.l2sz hash ≡ hash % l2_size item =
      rw e
        (mr_mod_lem 64 (l2_size item) hash (omega arith) (omega arith) (l2_hash-lt s.id cell id)) in
    let below : hash % l2_size item < l2_size item = mod-lt hash (omega arith) in
    let room = bitmap_size_lem item small in rw rest (omega arith, omega arith, omega arith)

-- A position depends on the bytes of the key and on the table, not on where the key stands.
pub key_pos_move :
    (index : PackView) (mem kmem : Memory) (key : ℕ) (kmem' : Memory) (key' key_len : ℕ)
    → SameBytes key_len kmem key kmem' key'
    → key_pos index mem kmem key key_len ≡ key_pos index mem kmem' key' key_len
unfolding key_pos calc1
key_pos_move index mem kmem key kmem' key' key_len same =
    rw (gen_id_move kmem key kmem' key' key_len same index.seed) refl
