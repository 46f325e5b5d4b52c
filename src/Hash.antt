-- ===== src/Hash.antt =====
-- The 128-bit hash of src/hash.cc (a short SpookyHash), and the three hashes that src/internal.h
-- takes from it. A key is `len` bytes of memory at `msg`.
pub mod Word
pub mod Mixing
pub mod Locality
use fast_chd.Base.{
  ℕ, ◌+◌, ◌*◌, ◌/◌, ◌%◌, ◌^◌, bit_and, bit_or, bit_xor, Bool, leb, ltb, ◌==◌, if◌then◌else◌, each,
}
use fast_chd.Base.Memory.{Memory, read_le}
use fast_chd.Hash.Word.{add64, rot64}

pub record Words : Type 0 where
  pub h0 : ℕ
  pub h1 : ℕ
  pub h2 : ℕ
  pub h3 : ℕ

-- One line of `Mix` on each register: `x = Rot64(x,k);  x += y;  z ^= x;`
pub mix2 : ℕ → Words → Words
mix2 k w = let x = add64 (rot64 w.h2 k) w.h3 in record w { h2 = x; h0 = bit_xor w.h0 x }

pub mix3 : ℕ → Words → Words
mix3 k w = let x = add64 (rot64 w.h3 k) w.h0 in record w { h3 = x; h1 = bit_xor w.h1 x }

pub mix0 : ℕ → Words → Words
mix0 k w = let x = add64 (rot64 w.h0 k) w.h1 in record w { h0 = x; h2 = bit_xor w.h2 x }

pub mix1 : ℕ → Words → Words
mix1 k w = let x = add64 (rot64 w.h1 k) w.h2 in record w { h1 = x; h3 = bit_xor w.h3 x }

-- Four lines in a row.
pub mix_round : ℕ → ℕ → ℕ → ℕ → Words → Words
mix_round i j k l w = mix1 l (mix0 k (mix3 j (mix2 i w)))

unfoldable pub mix : Words → Words
unfolding mix_round mix0 mix1 mix2 mix3 rot64 add64
mix w = mix_round 62 34 5 36 (mix_round 54 48 38 37 (mix_round 50 52 30 41 w))

-- One line of `End`: `x ^= y;  y = Rot64(y,k);  x += y;`
pub end3 : ℕ → Words → Words
end3 k w = let y = rot64 w.h2 k in record w { h3 = add64 (bit_xor w.h3 w.h2) y; h2 = y }

pub end0 : ℕ → Words → Words
end0 k w = let y = rot64 w.h3 k in record w { h0 = add64 (bit_xor w.h0 w.h3) y; h3 = y }

pub end1 : ℕ → Words → Words
end1 k w = let y = rot64 w.h0 k in record w { h1 = add64 (bit_xor w.h1 w.h0) y; h0 = y }

pub end2 : ℕ → Words → Words
end2 k w = let y = rot64 w.h1 k in record w { h2 = add64 (bit_xor w.h2 w.h1) y; h1 = y }

pub end_round : ℕ → ℕ → ℕ → ℕ → Words → Words
end_round i j k l w = end2 l (end1 k (end0 j (end3 i w)))

unfoldable pub end_words : Words → Words
unfolding end_round end0 end1 end2 end3 rot64 add64
end_words w = end1 63 (end0 25 (end3 32 (end_round 28 9 47 54 (end_round 15 52 26 51 w))))

abbrev pub magic : ℕ
magic = 0xdeadbeefdeadbeef

-- The body of the loop over blocks of 32 bytes.
unfoldable pub block : Memory → ℕ → Words → Words
block mem msg w =
    let w1 = record w {
      h2 = add64 w.h2 (read_le 8 mem msg);
      h3 = add64 w.h3 (read_le 8 mem (msg + 8));
    } in
    let w2 = mix w1 in
    record w2 {
      h0 = add64 w2.h0 (read_le 8 mem (msg + 16));
      h1 = add64 w2.h1 (read_le 8 mem (msg + 24));
    }

-- `if (len & 0x10U)`: half a block more.
unfoldable pub half_block : Memory → ℕ → Words → Words
half_block mem msg w =
    mix
      (record w { h2 = add64 w.h2 (read_le 8 mem msg); h3 = add64 w.h3 (read_le 8 mem (msg + 8)) })

-- A case label that is passed on the way down: `x += msg[i] << k` where the rest is long enough.
unfoldable pub fall : Bool → Memory → ℕ → ℕ → ℕ → ℕ
fall passed mem at k x = if passed then add64 x (mem at % 2 ^ 8 * 2 ^ k) else x

-- The switch over the last 0 to 15 bytes, its labels in four groups that end in a `break`.
unfoldable pub tail12 : Memory → ℕ → ℕ → Words → Words
tail12 mem msg r w =
    let d = fall (leb 15 r) mem (msg + 14) 48 w.h3 in
    let d' = fall (leb 14 r) mem (msg + 13) 40 d in
    let d'' = fall (leb 13 r) mem (msg + 12) 32 d' in
    record w { h3 = add64 d'' (read_le 4 mem (msg + 8)); h2 = add64 w.h2 (read_le 8 mem msg) }

unfoldable pub tail8 : Memory → ℕ → ℕ → Words → Words
tail8 mem msg r w =
    let d = fall (leb 11 r) mem (msg + 10) 16 w.h3 in
    let d' = fall (leb 10 r) mem (msg + 9) 8 d in
    let d'' = fall (leb 9 r) mem (msg + 8) 0 d' in
    record w { h3 = d''; h2 = add64 w.h2 (read_le 8 mem msg) }

unfoldable pub tail4 : Memory → ℕ → ℕ → Words → Words
tail4 mem msg r w =
    let c = fall (leb 7 r) mem (msg + 6) 48 w.h2 in
    let c' = fall (leb 6 r) mem (msg + 5) 40 c in
    let c'' = fall (leb 5 r) mem (msg + 4) 32 c' in record w { h2 = add64 c'' (read_le 4 mem msg) }

unfoldable pub tail1 : Memory → ℕ → ℕ → Words → Words
tail1 mem msg r w =
    let c = fall (leb 3 r) mem (msg + 2) 16 w.h2 in
    let c' = fall (leb 2 r) mem (msg + 1) 8 c in record w { h2 = add64 c' (mem msg % 2 ^ 8) }

unfoldable pub tail : Memory → ℕ → ℕ → Words → Words
unfolding tail12 tail8 tail4 tail1 fall
tail mem msg r w =
    if leb 12 r
    then tail12 mem msg r w
    else if leb 8 r
    then tail8 mem msg r w
    else if leb 4 r
    then tail4 mem msg r w
    else if leb 1 r
    then tail1 mem msg r w
    else record w { h2 = add64 w.h2 magic; h3 = add64 w.h3 magic }

pub record V128 : Type 0 where
  pub l : ℕ
  pub h : ℕ

unfoldable pub hash_to_128 : Memory → ℕ → ℕ → ℕ → V128
unfolding block half_block tail mix end_words add64
hash_to_128 mem msg len seed =
    let w0 : Words = record { h0 = seed; h1 = seed; h2 = magic; h3 = magic } in
    let w1 = each (len / 32) (λ i. block mem (msg + 32 * i)) w0 in
    let at = msg + 32 * (len / 32) in
    let odd = ltb 0 (bit_and len 0x10) in
    let w2 = if odd then half_block mem at w1 else w1 in
    let at' = if odd then at + 16 else at in
    let w3 = record w2 { h3 = add64 w2.h3 (len * 2 ^ 56 % 2 ^ 64) } in
    let w4 = end_words (tail mem at' (bit_and len 0xf) w3) in record { l = w4.h0; h = w4.h1 }

-- The 96 bits of a key's identity, as three words.
pub record V96 : Type 0 where
  pub u0 : ℕ
  pub u1 : ℕ
  pub u2 : ℕ

unfoldable pub gen_id : ℕ → Memory → ℕ → ℕ → V96
unfolding hash_to_128
gen_id seed mem key len =
    let v = hash_to_128 mem key len seed in
    record { u0 = v.l % 2 ^ 32; u1 = v.l / 2 ^ 32 % 2 ^ 32; u2 = v.h % 2 ^ 32 }

unfoldable pub l0_hash : V96 → ℕ
l0_hash id = id.u0 % 2 ^ 16

unfoldable pub l1_hash : V96 → ℕ
l1_hash id = id.u1

-- `{sd8, ~sd8, sd8, ~sd8}` above the last word, and the halves of the 128 bits folded.
unfoldable pub l2_hash : V96 → ℕ → ℕ
l2_hash id sd8 =
    let seed = (sd8 + 1) * 0xff00ff % 2 ^ 32 in
    bit_xor (id.u0 + id.u1 * 2 ^ 32) (id.u2 + seed * 2 ^ 32)
