-- ===== src/Examples/Output.antt =====
-- A writer at concrete inputs: two bytes wait in the buffer, and the file has one.
use fast_chd.Base.{◌≤◌, ◌<◌, ◌≡◌, refl, arith, true, some, [], ◌∷◌, ◌++◌, length}
use fast_chd.Base.Memory.{Memory}
use fast_chd.Input.{got, again, read_all}
use fast_chd.Input.Law.{Loaded, steady, useful, read_all_lem}
use fast_chd.Writer.{
  wrote, interrupted, FileWriter, buf_size, flush, write, write_all, write_raw, flush_buffer,
  move_from, destroy,
}
use fast_chd.Writer.Order.{given, flush_lem, write_lem, destroy-move_from}

-- The kernel takes one byte, is interrupted, and takes the rest.
abbrev writer : FileWriter
writer = record {
  buffered = 2 ∷ 3 ∷ [];
  opened = true;
  device = (wrote 1 ∷ interrupted ∷ wrote 1 ∷ [], 1 ∷ []);
}

abbrev written : FileWriter
written = record writer { buffered = 2 ∷ 3 ∷ 4 ∷ [] }

abbrev flushed_writer : FileWriter
flushed_writer = record { buffered = []; opened = true; device = ([], 1 ∷ 2 ∷ 3 ∷ []) }

write_run : write writer (4 ∷ []) ≡ some (true, written)
write_run = unfold write in refl

flush_run : flush writer ≡ some (true, flushed_writer)
flush_run = unfold flush flush_buffer write_raw write_all in refl

write_lem_example :
    (given written ≡ given writer ++ (4 ∷ [])) × (length written.buffered < buf_size)
write_lem_example = write_lem writer written (4 ∷ []) (omega arith) write_run

flush_lem_example : (flushed_writer.device.1 ≡ given writer) × (flushed_writer.buffered ≡ [])
flush_lem_example = flush_lem writer flushed_writer flush_run

destroy-move_from_example :
    (destroy (move_from writer).0 ≡ some writer.device)
    × (destroy (move_from writer).1 ≡ some writer.device)
destroy-move_from_example = destroy-move_from writer

-- Three calls for four bytes, one of them interrupted.
read_all_lem_example :
    ((b : Memory)
      → read_all (got 3 ∷ again ∷ got 1 ∷ []) (λ i. i) 4 0 (λ i. 7) ≡ some (true, b)
      → Loaded (λ i. i) (λ i. 7) 4 4 b)
    × (steady (got 3 ∷ again ∷ got 1 ∷ []) ≡ true
        → 4 ≤ useful (got 3 ∷ again ∷ got 1 ∷ [])
        → (b : Memory) × (read_all (got 3 ∷ again ∷ got 1 ∷ []) (λ i. i) 4 0 (λ i. 7)
            ≡ some (true, b)))
read_all_lem_example = read_all_lem (got 3 ∷ again ∷ got 1 ∷ []) (λ i. i) 4 (λ i. 7)
