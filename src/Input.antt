-- ===== src/Input.antt =====
-- The loop `ReadAll` of src/utils.cc. The system call `pread` is the kernel's: its answers come in as a
-- list, one for each call, and the bytes it gives are those of the file at the offset.
pub mod Law
use fast_chd.Base.{
  ℕ, zero, suc, ◌+◌, ◌-◌, min, ltb, if◌then◌else◌, Option, none, some, Bool, true, false, List, [],
  ◌∷◌,
}
use fast_chd.Base.Memory.{Memory}
use fast_chd.Search.{copy}
use fast_chd.Writer.{block_size}

-- What one call answers: how many bytes there were, an interruption (EINTR), or another failure.
pub data Reading : Type 0 where
  got : ℕ → Reading
  again : Reading
  broken : Reading

-- `none` says that the answers given do not suffice to end the loop. `done` bytes have been read.
unfoldable pub read_all : List Reading → Memory → ℕ → ℕ → Memory → Option (Bool × Memory)
unfolding copy
read_all [] file size done buf = if ltb done size then none else some (true, buf)
read_all (got zero ∷ answers) file size done buf =
    if ltb done size then some (false, buf) else some (true, buf)
read_all (got (suc k) ∷ answers) file size done buf =
    let n = min (suc k) (min (size - done) block_size) in
    let rest = read_all answers file size (done + n) (copy buf done file done n) in
    if ltb done size then rest else some (true, buf)
read_all (again ∷ answers) file size done buf =
    let rest = read_all answers file size done buf in
    if ltb done size then rest else some (true, buf)
read_all (broken ∷ answers) file size done buf =
    if ltb done size then some (false, buf) else some (true, buf)
