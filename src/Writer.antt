-- ===== src/Writer.antt =====
-- `FileWriter` of src/utils.cc and include/utils.h, and the loop `WriteAll` below it. The system call
-- `write` is the kernel's: its answers come in as a list, one for each call.
-- Closing the file after a failure is left out beyond `m_fd` being -1, here `opened` being false.
pub mod Order
use fast_chd.Base.{
  ℕ, zero, suc, ◌+◌, ◌-◌, ◌*◌, ◌/◌, ◌^◌, min, ltb, ◌==◌, if◌then◌else◌, Option, none, some,
}
use fast_chd.Base.{Bool, true, false, not, List, [], ◌∷◌, ◌++◌, length, take, drop}

-- What one call answers: the bytes it took, an interruption (EINTR), or another failure.
pub data Answer : Type 0 where
  wrote : ℕ → Answer
  interrupted : Answer
  failed : Answer

abbrev pub block_size : ℕ
block_size = 1024 * 1024 * 16

-- What the kernel still answers, and the bytes of the file.
abbrev pub Device : Type 0
Device = List Answer × List ℕ

-- `WriteAll`; `none` says that the answers given do not suffice to end the loop.
unfoldable pub write_all : List Answer → List ℕ → List ℕ → Option (Bool × Device)
write_all answers file [] = some (true, (answers, file))
write_all [] file (x ∷ xs) = none
write_all (wrote zero ∷ answers) file (x ∷ xs) = some (false, (answers, file))
write_all (wrote (suc k) ∷ answers) file (x ∷ xs) =
    let n = min (suc k) (min (length (x ∷ xs)) block_size) in
    write_all answers (file ++ take n (x ∷ xs)) (drop n (x ∷ xs))
write_all (interrupted ∷ answers) file (x ∷ xs) = write_all answers file (x ∷ xs)
write_all (failed ∷ answers) file (x ∷ xs) = some (false, (answers, file))

-- `m_buf` up to `m_off`, and whether `m_fd` is open.
pub record FileWriter : Type 0 where
  pub buffered : List ℕ
  pub opened : Bool
  pub device : Device

abbrev pub buf_size : ℕ
buf_size = 8192

-- A failed `WriteAll` closes the file.
pub conclude : FileWriter → Bool × Device → Bool × FileWriter
conclude w (true, d) = (true, record w { device = d })
conclude w (false, d) = (false, record w { opened = false; device = d })

-- `_write`, by the number of whole blocks that go out before the rest.
pub write_blocks : ℕ → FileWriter → List ℕ → Option (Bool × FileWriter)
unfolding conclude
write_blocks zero w bytes = elim (write_all w.device.0 w.device.1 bytes) [
  | none ↦ none
  | some r ↦ some (conclude w r)
]
write_blocks (suc n) w bytes = elim (write_all w.device.0 w.device.1 (take block_size bytes)) [
  | none ↦ none
  | some (ok, d) ↦
      let rest = write_blocks n (record w { device = d }) (drop block_size bytes) in
      if ok then rest else some (conclude w (false, d))
]

unfoldable pub write_raw : FileWriter → List ℕ → Option (Bool × FileWriter)
unfolding write_blocks
write_raw w bytes = write_blocks ((length bytes - 1) / block_size) w bytes

-- `_flush`
unfoldable pub flush_buffer : FileWriter → Option (Bool × FileWriter)
flush_buffer w =
    if length w.buffered == 0
    then some (true, w)
    else write_raw (record w { buffered = [] }) w.buffered

unfoldable pub flush : FileWriter → Option (Bool × FileWriter)
flush w = if w.opened then flush_buffer w else some (false, w)

-- After a full buffer has gone out, the rest of the bytes is buffered.
pub keep_rest : List ℕ → Bool × FileWriter → Bool × FileWriter
keep_rest rest (true, w) = (true, record w { buffered = rest })
keep_rest rest (false, w) = (false, w)

-- `_flush() && _write(data, n)`
pub write_after : List ℕ → Bool × FileWriter → Option (Bool × FileWriter)
write_after bytes (true, w) = write_raw w bytes
write_after bytes (false, w) = some (false, w)

unfoldable pub write : FileWriter → List ℕ → Option (Bool × FileWriter)
unfolding keep_rest write_after
write w bytes =
    let off = length w.buffered in
    let n = length bytes in
    let m = buf_size - off in
    if not w.opened
    then some (false, w)
    else if ltb (off + n) buf_size
    then some (true, record w { buffered = w.buffered ++ bytes })
    else if ltb (off + n) (buf_size * 2)
    then elim (write_raw w (w.buffered ++ take m bytes)) [
      | none ↦ none
      | some r ↦ some (keep_rest (drop m bytes) r)
    ]
    else elim (flush_buffer w) [ none ↦ none | some r ↦ write_after bytes r ]

-- The move constructor: the new writer and what is left of the old one. `m_off` is not taken over.
unfoldable pub move_from : FileWriter → FileWriter × FileWriter
move_from other = (record other { buffered = [] }, record other { opened = false })

-- The destructor: what it leaves of the device.
pub close_after : Bool × FileWriter → Device
close_after (ok, w) = w.device

unfoldable pub destroy : FileWriter → Option Device
unfolding close_after
destroy w =
    if w.opened
    then elim (flush_buffer w) [ none ↦ none | some r ↦ some (close_after r) ]
    else some w.device
