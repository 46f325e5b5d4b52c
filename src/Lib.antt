-- ===== src/Lib.antt =====
-- A model of fastCHD, a static hash table on a minimal perfect hash, and of its Bloom filter.
--
-- A table is built once, written to a file, and looked up from the file's bytes. A key is hashed to 96
-- bits (src/hash.cc, src/internal.h); the bits pick a segment, a cell in it by the skew map, and with
-- the cell's byte a bit of the segment's bitmap, whose rank is the key's position. All sizes follow
-- from the item counts in the header (src/pack_format.h), remainders are taken by multiplication
-- (include/utils.h), and the batch calls run their stages interleaved (src/pipeline.h).
--
-- Base: shared names; loops `each`, arrays as functions, memory as a function from addresses to bytes,
--   little-endian words, the binary digits of numbers.
-- Divisor: `DivisorMR` and `DivisorLKK` of include/utils.h, on words of `w` bits.
-- Format: constants and sizes of src/pack_format.h, `SkewMap` of src/internal.h, and the alignment of
--   the sections in src/shd.cc and src/build.cc.
-- Bitmap: the bit operations of src/internal.h.
-- Value: `VarIntSize` and `WriteVarInt` of src/build.cc, `SeparatedValue` of src/shd.cc, the offset
--   field of src/internal.h.
-- Hash: src/hash.cc and the three hashes of src/internal.h.
-- Pipeline: the overloads of src/pipeline.h with 2, 3, 4 and 7 stages. A stage is a function of the item
--   and of what the stage before left; the last stage changes the state of the caller.
-- Bloom: src/bbf.cc and include/bbf.h.
-- Table: `SegmentView` and `PackView` of src/internal.h, `Calc1`, `Calc2` and `CalcPos` of src/search.cc.
-- Search: `Process3`, `BatchLocate`, `BatchSearch` and `BatchFetch` of src/search.cc on one table, and
--   `PerfectHashtable::search` of src/shd.cc.
-- Patch: `BatchSearch` and `BatchFetch` of src/search.cc on a base and a patch.
-- Pack: `CreatePackView` of src/shd.cc.
-- Mapping: `TryToMapLarge`, `TryToMapSmall`, `HasConflict` and `Mapping` of src/build.cc, which place the
--   keys of a cell in the bitmap.
-- Piece: `Build` of an `IndexPiece` in src/build.cc, from the sorted identities on: the scan over the
--   cells by `Mapping`, and the sections with the counts that `CalcPos` of Table adds to.
-- Dump: `DumpIndex` of src/build.cc, and the way back through Pack.
-- View: `CreateIndexView` of src/build.cc.
-- Driver: `DetectKeyValueLen`, the entry points' first lines, the merging of statuses, and the retries of
--   src/build.cc.
-- Building: `BuildAndDump` of src/build.cc, out of Driver and Dump.
-- Writer: `WriteAll` of src/utils.cc and `FileWriter` of src/utils.cc and include/utils.h. The kernel's
--   answers to `write` come in as a list; a run that needs more of them has the result `none`.
-- Windows: `BatchFindPos` and `BatchDataMapping` of src/search.cc.
-- Members: `PerfectHashtable` of src/shd.cc: its constructors from the loaded bytes on, and its members
--   with their checks of null pointers.
-- Input: `ReadAll` of src/utils.cc.
-- Examples: the theorems at concrete inputs.
--
-- State is passed explicitly: an operation that writes returns what it has written. Words wrap as written
-- out, `% 2 ^ w`. A pointer is an address, and a pointer that may be null is an Option. Loops that count
-- are `each`, by recursion on the count. The fuel of `WriteVarInt` and `VarIntSize` is ten rounds, which
-- hold every 64-bit number in groups of seven bits; `shift_down` needs no fuel, since its exponent falls.
-- The windows of `TryToMapSmall` have one round of fuel more than tries, since each window makes a try at
-- least; the retries of `BuildAndDump` one more than the counter `total`, since each retry lowers it.
--
-- Not modelled: system calls, files and memory mapping, prefetches (which change no state), the logger,
-- threads and atomic operations, the CUDA port, tests and benchmarks; `derive` of src/shd.cc, and of
-- src/build.cc the sorting and shuffling of the identities, the threads, the writers of keys and
-- values, and `Rebuild`. Aliasing of the arrays of `BatchSearch`, which a comment in include/shd.h
-- allows, is not modelled: keys and results are two arrays.
pub mod Base
pub mod Divisor
pub mod Format
pub mod Pipeline
pub mod Bitmap
pub mod Value
pub mod Hash
pub mod Bloom
pub mod Table
pub mod Search
pub mod Patch
pub mod Windows
pub mod Input
pub mod Members
pub mod Pack
pub mod Mapping
pub mod Piece
pub mod Dump
pub mod View
pub mod Driver
pub mod Building
pub mod Writer
pub mod Examples
