-- ===== src/Lib.antt =====
-- libmlxforge: a batched LLM inference engine in C++ over Apple MLX. This library models the host
-- logic of the engine: constrained decoding, prefix caching, scheduling and the bookkeeping of the
-- decode batch. What MLX computes (tensors, kernels, sampling) is not code of the repository, and
-- enters as parameters where a definition needs it.
--
-- Common            shared names, tests on numbers, lists over the native numbers
-- Grammar           src/sample/json_grammar.{h,cpp}: the byte automaton of constrained decoding.
--                   `feed`, `accepts`, `advance`, `complete` have the source's names; the members of
--                   the class are the fields of `Grammar`. `feed` returns the state also where the
--                   source returns false, and `fault` where it would read out of range.
--                   Grammar/Text is the specification, the grammar of RFC 8259.
-- Pool              src/cache/block_pool.{h,cpp}: the chained block hash and the pool of sealed KV
--                   blocks. A list's head is its front; an eviction hook's calls are returned in
--                   order; reading past the map's end is `none`. Pool/Recency is the specification,
--                   a list of entries, the most recent first; Pool/Refines relates the two.
-- Prefix            src/cache/prefix_cache.{h,cpp}: `match` (here `match_`) and `harvest`, over Pool.
--                   MLX's slices and array sizes are parameters; the spill level is a function that
--                   answers the same during one call. A hash collision is not excluded: the theorems
--                   speak of keys and of what was stored under them.
-- Serve             src/scheduler/scheduler.{h,cpp}, the `SpscQueue` of src/scheduler/request.h and
--                   src/cache/kv_budget.{h,cpp}, `next_bucket` of src/runtime/batching.cpp: the waiting
--                   queue, the queues to the request threads, the memory gate, the batch sizes. A call
--                   under the mutex is one step, `none` while it blocks; Serve/Waiting and Serve/Stream
--                   are the relations of all orders of calls.
-- Store             src/cache/block_store.cpp: the file format of the spill tier, `serialize_block` and
--                   `deserialize_block`, byte by byte. An array is its dtype, dimensions and bytes.
--                   Store/Index has the index, the queue of writes and the eviction; the directory is
--                   a map, and whether a write succeeds is given. The eviction's loop has as many
--                   rounds as the index has entries, since each round drops one.
-- Token             src/tokenizer/bpe.{h,cpp} and the search of src/tokenizer/unicode_tables.h: `encode`,
--                   `decode`, `from_gguf` and what they call. The tables of Unicode are a parameter.
--                   A hash map is a list of pairs. Token/Cut says where the literals of a text are, and
--                   Token/Segments how it is cut there; the scan of `encode` counts its rounds, and where
--                   a literal is empty it may not end: `encode` returns `none`.
-- Worker            src/runtime/worker.cpp and the `Request` of src/scheduler/request.h: the way of a
--                   request through the decode batch, `register_rows`, `decode_step` and
--                   `evict_finished`, with `consume`, `grammar_mask` and `advance_grammar`. The
--                   row-aligned vectors are one list of rows; the bodies of the two loops over them
--                   are `first_row` and `decode_row`. Worker/Admit has `split_prefix`,
--                   `enqueue_admissions` and one call of `advance_chunked_prefill`, which here returns
--                   the logits of the last chunk; `run_unit` repeats it, as the outer loop does, and
--                   counts the calls. The component uses Grammar and `next_bucket` of Serve.
--                   The forward pass, the sampler, the cache and the lookup that changes the prefix
--                   cache are parameters, and so is what a vector holds that was moved from.
-- Server            src/server/base64.h: `base64_decode`.
-- Cache             src/cache/batch_kv_cache.{h,cpp} and the writer of src/cache/kv_quant.cpp: `filter`,
--                   `merge`, `pad_dummies`, `advance` and `update_kv_components`. Cache/Arrays is the
--                   interface to MLX: an array is its rows of slots, with the laws that MLX documents.
--                   The vectors over layers are one list of layers; positions are int32 words.
-- Text              src/tokenizer/tokenizer.cpp, `utf8_complete_len`, `Tokenizer::decode` and the
--                   `StreamingDetokenizer`, over a backend as src/tokenizer/encoder_backend.h has it;
--                   and `decode` of src/tokenizer/spm.cpp, a backend.
-- Gguf              src/core/gguf.cpp, the container: `read_scalar`, `read_gguf_string`,
--                   `skip_array_elements`, `skip_metadata_value` and `parse_gguf_directory`; and
--                   `half_to_float`, from bits to bits. Gguf/Container is the format, as its writer
--                   sees it, Gguf/Ieee what IEEE 754 says of the bits.
--
-- Recursion is on lists and counts of the data itself. Four loops count their rounds: the store's
-- eviction, the merge loop of the tokenizer, which drops a symbol in each round, its scan for
-- literals, which moves on by a byte at least where none is empty, and the calls of a prefill. A
-- subnormal half is brought to its leading bit in ten rounds at most. The arrays of a GGUF file
-- are followed to a depth of its length, which none can exceed.
--
-- Not modelled: the worker's outer loop (but its spill hook), its monolithic `admit`, its images
-- and its harvest, the single-row KV cache, the store's rescan at start, `from_blob` of the
-- tokenizers and the encode of SentencePiece, the metadata values and tensors of the GGUF reader,
-- the rest of the server and the C interface; the tensor programs of src/model, the sampler and
-- vision are MLX's arithmetic.
pub mod Common
pub mod Grammar
pub mod Pool
pub mod Prefix
pub mod Serve
pub mod Store
pub mod Token
pub mod Worker
pub mod Server
pub mod Cache
pub mod Text
pub mod Gguf
