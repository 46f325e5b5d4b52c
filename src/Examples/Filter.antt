-- ===== src/Examples/Filter.antt =====
-- The Bloom filter at concrete inputs: four blocks, and keys of one byte.
use fast_chd.Base.{ℕ, ◌+◌, ◌*◌, ◌≤◌, ◌<◌, ◌≡◌, arith, true, each}
use fast_chd.Base.Memory.{Memory}
use fast_chd.Divisor.{mr_init}
use fast_chd.Bloom.{BloomFilter, Step, test, set, batch_test, batch_set}
use fast_chd.Bloom.Laws.{test-set, test-set_mono}
use fast_chd.Bloom.Batch.{hits, batch_test_lem, batch_set_lem, test-batch_set}

abbrev empty : BloomFilter
empty = record { item = 0; space = λ i. 0; size = 40; block = mr_init 64 4 }

abbrev keys : Memory
keys i = i

abbrev stack : ℕ → Step
stack i = record { blk = 0; mask = 0 }

test-set_mono_example : test (set (set empty keys 3 1).1 keys 5 2).1 keys 3 1 ≡ true
test-set_mono_example =
    test-set_mono (set empty keys 3 1).1 keys keys 3 1 5 2 (test-set empty keys 3 1)

batch_set_lem_example :
    batch_set empty keys 20 1 0 stack ≡ each 20 (λ i g. (set g keys (0 + i * 1) 1).1) empty
batch_set_lem_example = batch_set_lem keys 1 0 empty 20 stack (omega arith)

test-batch_set_example : test (batch_set empty keys 20 1 0 stack) keys (0 + 19 * 1) 1 ≡ true
test-batch_set_example = test-batch_set keys 1 0 empty 20 stack 19 (omega arith) (omega arith)

batch_test_lem_example :
    ((batch_test empty keys 20 1 0 stack (λ i. true)).1 ≡ hits keys 1 0 empty 20)
    × ((i : ℕ)
        → i < 20
        → (batch_test empty keys 20 1 0 stack (λ i. true)).0 i ≡ test empty keys (0 + i * 1) 1)
    × ((i : ℕ) → 20 ≤ i → (batch_test empty keys 20 1 0 stack (λ i. true)).0 i ≡ true)
batch_test_lem_example =
    batch_test_lem keys 1 0 empty 20 stack (λ i. true) (omega arith) (omega arith)
