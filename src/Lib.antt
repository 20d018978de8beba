-- ===== src/Lib.antt =====
-- A model of an LLM inference engine's bookkeeping, and proofs of its invariants.
--
-- The engine serves requests in steps. The scheduler (src/scheduler/scheduler.cpp) decides which
-- tokens of which sequences a step computes; the KV cache manager
-- (src/kv_cache/block_allocator.cpp) hands out the fixed-size blocks that hold the keys and values
-- of tokens, shares full blocks with a common prefix by their hash, and keeps unowned ones for
-- reuse until they are evicted. A request waits in the scheduler's queue, is admitted with the
-- blocks of its prompt, is prefilled in chunks and then decodes one token per step; when the pool
-- is exhausted the youngest resident sequence is preempted, and its tokens are computed again
-- later. The model and the sampler only see the slices of a step.
--
-- Base: lists, tests and checked results that the parts share.
--
-- KvCache (include/engine/kv_cache.h, src/kv_cache/block_allocator.cpp): KvCache/Defs and
-- KvCache/Alloc hold the state and one function per method, under the method's name. The vector of
-- free blocks is a list with its back first; the arrays `ref_count_` and `block_hash_` and the map
-- `hash_to_block_` are functions; `lru_pos_`, an index into `lru_`, is not kept apart. An operation
-- on a block table returns the manager and the table.
--
-- Sequence (include/engine/sequence.h): a sequence is a shared object, so a pointer to it is a
-- number, and the scheduler holds the store `seqs`.
--
-- Scheduler (include/engine/scheduler.h, src/scheduler/scheduler.cpp): Scheduler/Defs holds the
-- state and the operations on single requests, Scheduler/Admit `admit_one`, Scheduler/Step
-- `schedule` and Scheduler/Done `on_step_done`. The callbacks of a sequence are entries of a log.
-- The other files prove: Pool and Sound state the invariant; Evict, Place, Split and Slices treat
-- steps 1 to 3 of `schedule`, Waiting, Enter, Admission and Rejects step 4, and Plan the whole;
-- Touch, Apply and Settle treat `on_step_done`, and Runs any sequence of calls.
--
-- Parallel (include/engine/parallel.h): the worker pool of the CPU backend. Each stretch of code
-- between two waits is a step of one thread, the threads take their steps in any order, and a wait is
-- a step that its predicate allows. Defs
-- holds the state and the steps, Partition the ranges that the threads get; Protocol states the
-- invariant of the pool, and Workers and Returns prove what holds when `parallel_for` returns.
--
-- Tokenizer (include/engine/tokenizer.h, src/tokenizer/tokenizer.cpp): Ranges holds the search in
-- tables of code points, Split one round of `pre_tokenize` per piece and Pieces its proofs; Merge
-- holds `bpe_merge`, and Rounds and Merged its proofs; Utf8 holds the UTF-8 code and
-- `pre_tokenize` on strings, Bits and RoundTrip the proofs on single code points and Texts those on
-- texts. Vocab holds the vocabulary, the byte symbols and `decode`, Encode both families of `encode`
-- and the added tokens, and Chat `apply_chat_template`; Symbols, Spelling and Special prove the round
-- trips, Cuts and Special where added tokens cut a text. What the constructor reads from files is a record, with what it makes sure of as hypotheses.
--
-- Engine (include/engine/engine.h, src/api/engine.cpp): Engine/Defs holds `validate` and `submit`;
-- Engine/Loop the engine's thread, the flags and the gauges, with a turn of the thread as one step, and
-- the join at the end of `stop` and `drain` as a step of its own; a start that would end the program,
-- since the last thread was not joined, is a failed assertion,
-- and Engine/Health `health`. The model's forward pass and the sampler are one function of the step,
-- which may throw; Engine/Sampled shows that the sampler gives it a token for each row of logits. Overlap
-- holds `submit` as the steps of calls that run at once, and Claims and Races what they keep; elsewhere a
-- call of `submit` is one step. Limits and Inbox prove facts of submissions, Pull and Serve that a request enters
-- the scheduler soundly, Turn treats a turn, Life turns and calls of other threads in any order, and
-- Death the end of the loop.
--
-- Server (src/api/server.cpp): Server/Handle holds how a request is answered, by the status and its
-- place in the engine, with what the JSON library reads as an argument; Server/Stream holds the channel
-- and the UTF-8 buffer, Server/Completion the answer at once and the chunks of a stream, where writing
-- a text that the JSON library refuses throws. Replies, Utf8, Boundary and Streaming are their proofs.
--
-- Sampler (include/engine/sampler.h, src/model/sampler.cpp): Sampler/Defs holds `argmax`, `sample` and
-- `sample_step`, on weights whose sums are exact, with the exponential and the random number as
-- arguments. Order and Nucleus prove that the windows agree with a full sort, and Steps what the
-- tokens that are drawn have.
--
-- Safetensors (include/engine/safetensors.h, src/safetensors/safetensors.cpp): Safetensors/Defs holds
-- the checks of a file that is opened, with what the JSON library makes of the header as arguments, and
-- the look-ups; Bounds proves that what is opened lies in the file.
--
-- Tensor (include/engine/tensor.h): Tensor/Half holds the conversions between 16-bit and 32-bit
-- floating-point numbers, as bit patterns, and Exact proves that they round correctly.
--
-- Config (include/engine/config.h, src/config/config.cpp): Config/Defs holds what is read from
-- `config.json`, with signed numbers and fields that can be missing or of another type, and Heads proves what the numbers of heads satisfy.
--
-- Metrics (include/engine/metrics.h, src/api/metrics.cpp): Metrics/Histogram holds the histogram and the
-- counts of its page, and Counts proves what they count.
--
-- Bench (bench/kv_waste.cpp): Bench/Paged holds the loop that drives the scheduler, and Rounds its proof;
-- Bench/Contiguous holds the simulation of an allocator that reserves a region for each sequence, and
-- Regions and Ends prove that it ends with every slot free.
--
-- Conventions. A failed `assert`, and an access that C++ leaves undefined, is the value
-- `assert_failed`. Integers are natural numbers without a bound, but for the hash, which is
-- computed modulo 2^64 on tokens as 32-bit patterns; where the source subtracts, the model states
-- what it does below zero. Each call reads the clock once, and a time is a number of ticks. A
-- negative `watermark_blocks` is `none`.
--
-- Fuel. The loop over decode candidates runs on the number of candidates and resident sequences,
-- plus one: each round moves on or takes a sequence out of the batch. The admission loop runs on
-- the length of the queue, plus one: each round takes a request off it. The commit loop runs on the
-- number of blocks of the table, one per round. Running out of fuel in the first two is
-- `assert_failed`. The loops of the tokenizer run on the length of their input, and every round
-- makes it shorter.
--
-- The loop of `encode` runs on the length of the text; out of fuel it returns `none`. The loop that
-- widens the window runs on the size of the vocabulary, plus one: each round is four times as wide. The
-- simulation of the contiguous allocator runs on the tokens to generate and one round for each request;
-- out of fuel it returns `none`. The loop of `run_paged`, which need not end, is the state after a given
-- number of rounds.
--
-- Not modelled: reading files and the command line, the texts of errors and of answers, the JSON and
-- HTTP libraries, waiting and the clock's units, the notifications of condition variables, the sum on the metrics page, which is printed as a
-- float of six digits, the destructor of the worker pool, the models and
-- their kernels, floating-point arithmetic, quantiles, and the random engine
-- and its seed.
pub mod Base
pub mod KvCache
pub mod Sequence
pub mod Scheduler
pub mod Metrics
pub mod Parallel
pub mod Tokenizer
pub mod Engine
pub mod Server
pub mod Safetensors
pub mod Tensor
pub mod Sampler
pub mod Config
pub mod Bench
