-- ===== src/Lib.antt =====
-- Verification of QX-mini-MoE: the C runtime under src/ and include/ that runs Qwen3-30B-A3B from
-- a QXF1 container, with an expert cache, a tokenizer and a GGUF importer.
--
-- Cache.antt and Cache/ model src/qx_expert_cache.c: `acquire`, `release`, `snapshot`, `init` and
-- `destroy` are qx_expert_cache_acquire and so on, over a record `Cache` whose list of entries is
-- the doubly linked list from `lru` to `mru`. The callbacks of qx_expert_cache_ops are a parameter
-- over an abstract context; `Allocator` and `Reader` state their contracts. The eviction loop takes
-- fuel, one more than the number of entries; each round takes an entry out.
--
-- Container.antt and Container/ model the part of src/qx_format.c that accepts a QXF1 file:
-- `align_u64` and `align_u64_checked` are qx_align_u64 and qx_align_u64_checked,
-- `validate_dimensions`, `expected_byte_size` and `validate_traits` the checks of a tensor, and
-- `open_directory` the checks that qx_open_file_with_backend makes on the header, the file's size
-- and the tensor directory, in the source's order. Its two calls of `qsort` are parameters. Reading
-- the file, its failures, those of the allocations, and the memory mapping are not modelled.
--
-- Scratch.antt and Scratch/ model the scratch workspace of src/qx_format.c, the functions
-- qx_scratch_reserve_capacity and so on. The C library's allocator and `memset` are a parameter
-- over an abstract context. The doubling loop takes 65 rounds of fuel; 64 doublings of a positive
-- capacity already pass 64 bits. `plan` and `alloc_all` are the calls that a user of the workspace
-- makes for a list of requests.
--
-- Tokenizer.antt and Tokenizer/ model src/qx_tokenizer.c: Utf8 the decoder and the validator, Bytes
-- the GPT-2 byte table, Index the two hash indices, Bpe qx_tok_bpe_chunk, Pretoken
-- qx_tok_pretoken_length, Special the search for special tokens, Encode and Decode the two public
-- functions, Load qx_tokenizer_load on the bytes of the file, and Chat
-- qx_tokenizer_render_qwen3_chat. A text is the list of its bytes, and a place in it the list from
-- there on. The loops over a text take its length as fuel, as each round takes a byte; the merges of a
-- chunk take one more than its bytes, as each round but the last makes one symbol of two; a probe
-- takes as many rounds as the index has slots, and the doubling of the index's size 32. Null
-- arguments, the reads of the file, failed allocations and what an output buffer holds after a failure
-- are not modelled, nor is qx_tokenizer_dump_summary, which prints.
--
-- RowPool.antt and RowPool/ model src/qx_row_pool.h: the ranges of rows that qx_row_pool_entry gives
-- each worker, and, in Jobs, the workers and the coordinator as a step relation. A step is what one
-- thread does while it holds the lock: qx_row_pool_run gives a job or ends its wait, a worker takes a
-- job or leaves it, qx_row_pool_destroy stops the pool. Not modelled: a creation that fails, the join of
-- the threads, the lock and its condition variables, which are Windows'.
--
-- Snapshot.antt and Snapshot/ model the snapshot of the KV cache in src/qx_format.c: Sha256 is
-- qx_kv_sha256_init, _update, _final and _transform, `write_snapshot` is
-- qx_write_accumulated_kv_snapshot and `read_snapshot` qx_read_accumulated_kv_snapshot, on the bytes
-- of the file. The arrays of keys, values and scales are one list of slots. The loop of an update
-- takes the length of its piece as fuel, as each round takes a byte. Sha256/Fips is the standard's own
-- text of SHA-256, apart from the code. Null arguments, the calls that
-- open, write and close the file, their failures, and what the arrays hold after a read that fails are
-- not modelled.
--
-- Gguf.antt and Gguf/ model src/qx_gguf.c on the bytes of the file: Stream the reads and seeks, `inspect`
-- qx_gguf_inspect, `load_tensor_table` qx_gguf_load_tensor_table, with `qsort` as a parameter, and Export
-- qx_gguf_export_tokenizer_tokens, as the bytes that it writes. The loops are recursion on their counts.
-- Opening and closing files, the failures of I/O and of allocations, null arguments, what is left behind
-- after a failure, qx_gguf_value_type_name, and qx_gguf_dump_summary, which prints, are not modelled.
--
-- Spans.antt and Spans/ model what is read of an opened container in src/qx_format.c: `acquire_span`,
-- `find_tensor` and `verify_tensor_checksum` are qx_acquire_span, qx_find_tensor and
-- qx_verify_tensor_checksum, on both backends; the mapped view is the file's bytes. Writer.antt and
-- Writer/ model the layout that qx_write_tensor_copy_from_gguf computes for a table, as `plan_copy`, and
-- `copy_tensor_bytes`. The loops over pieces of 64 KiB take the number of bytes as fuel, as each round
-- takes a byte. Null arguments, failed allocations and seeks, the writes to the file, and the entries
-- that are made from a manifest are not modelled.
--
-- Numbers are natural numbers, with the wrap-around of `uint64_t` and `uint32_t` written out;
-- `size_t` has 64 bits. Error texts are constructors.
pub mod Prelude
pub mod Cache
pub mod Container
pub mod Gguf
pub mod RowPool
pub mod Scratch
pub mod Snapshot
pub mod Spans
pub mod Tokenizer
pub mod Writer
