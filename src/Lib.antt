-- ===== src/Lib.antt =====
-- Verification of the C program under bench/src: a benchmark that measures a machine with a set of
-- kernels, makes scores of the rates, and uploads the result document to a hub over HTTP.
--
-- The parts and the files that model them:
--   Prelude       shared names: lists over the native numbers, C strings as lists of bytes, words,
--                 `strtol` and `strtoul`, and the laws of `^` and `&` on words.
--   Sha256        bench/src/sha256.c: `sha256_ctx`, `sha256_block` (compress), `sha256_update`,
--                 `sha256_final`, `sha256_file` (file_digest). Sha256/Standard is FIPS 180-4 itself.
--   Rng, Chase    bench/src/bench.c: `xs64` and `build_chases`.
--   Kernels       bench/src/kernels.c and kernels.h: the contexts and the ten kernels.
--   Http          bench/src/http.c: `url_split` (Url), the header searches (Header), chunked bodies
--                 (Chunks), `connect_deadline`, `dial`, `send_all` (Socket), `read_reply` and
--                 `parse_reply` (Reply), `shell_safe` (Shell), `private_file` (File), and the two ways of
--                 a post (Post).
--   Submit        bench/src/bench.c: `url_encode`, `copy_trimmed`, `print_reply`, `submit_document`.
--   Score         bench/src/bench.c: from a worker's rates to rows, scores and totals.
--   Cpu           bench/src/bench.c: CPU lists, the names of the processors and of the board, and
--                 `detect_cpu_models` (Detect).
--   Clock         bench/src/bench.c: the clocks of the processors and of the memory, the largest cache.
--   Variants      bench/src/bench.c: the build variants and their selection.
--   Args          bench/src/bench.c: the options of `main`, the hub of an upload, the working sets.
--   Timed         bench/src/bench.c: `run_timed`, and `warmup_spin` (Warm).
--   Barrier       bench/src/platform.h: `plat_barrier_t`, as steps of the threads that wait at it.
--   Worker        bench/src/bench.c: `worker` with its phases (Phases, Body), `run_workers` (Team), and
--                 how a suite calls it (Measured).
--   Emit          bench/src/bench.c: the sink `jout` (Buffer), the JSON document (Json), the TSV rows
--                 (Tsv), the JSON half of `run_variant` (Run), the tables for people (Text) and what a
--                 sweep of the selector periods prints (Sweep). Emit/Lexer is how a reader takes a JSON
--                 text apart, Emit/Document is the document as a value.
--   Main          bench/src/bench.c: `run_variant`, the loop of `main` over the variants, the status,
--                 and `main` from the command line to what is to be run, with the sweep (Start).
--   Examples      the theorems at concrete inputs.
--
-- How they interact: `main` (Args) settles the options; `run_workers` (Worker) starts the threads, which
-- meet at the barrier (Barrier) before every repetition and run the kernels, of which the memory latency
-- kernel walks what `build_chases` (Chase, with Rng) has linked; the driver (Timed) times them; Score
-- makes rows of the measured rates; Emit prints the rows as a document, for an upload into a buffer;
-- Submit encodes label and notes and posts through Http.
--
-- Conventions. An operation that changes a struct takes it and returns it; a record field has the
-- name of the struct's. A 32-bit or 64-bit word is a number below its bound, with its wrap-around
-- written out. A C string is the list of its bytes. What the system, the network, the shell or the
-- clock answers is an argument. A `double` is a value of any type with the operations used on it.
--
-- Loops. A loop over bytes has the length of its input, or one more, as fuel; where the fuel is too
-- little the result is `none`. `run_timed` and `warmup_spin` take the number of rounds as an argument,
-- since the clock decides it, and so does `read_reply`, for which MAX_REPLY rounds are enough: each reads
-- a byte or more, and the buffer ends there. The counts that `aggregate` keeps in doubles are numbers.
--
-- Files. A file is the list of its bytes, a directory the list of its names in the order in which
-- `readdir` gives them; `fgets` cuts a file into lines or full buffers. What `%lf` and `strtod` read is
-- given by the C library. The number that `strtoul` reads in base 0 follows the standard of 2011.
--
-- A worker takes from its machine which allocations succeed, the batches that each `run_timed` hands to
-- its kernel, and the clocks; the kernel runs these batches one after the other, and the count of the
-- iterations is their sum in 64 bits. The clock of `run_timed` itself is in Timed. What a document says of a `double` is printed by a parameter, of which the
-- theorems need that it prints a word: some bytes, none of which is a blank, a quote or a punctuation
-- mark of JSON; this is so for `%.6g` and `%g`, also for an infinity, which JSON would not call a number.
-- The doubling of the buffer has 64 rounds, enough for every size below 2^63.
--
-- The steps of the barrier are the parts of `plat_barrier_wait` that hold its mutex; that the mutex
-- excludes and that a waiting thread is woken at last is the platform's.
--
-- Not modelled: pinning, the rest of the platform layer, and the branches for Windows
-- and macOS of the functions that ask the system: they are system calls. The prose on the other stream
-- (`usage`, the legends, the lines in front of a measurement) is fixed text. An error text into which the
-- source prints a system's text or a number is kept without it.
pub mod Prelude
pub mod Sha256
pub mod Rng
pub mod Chase
pub mod Kernels
pub mod Http
pub mod Submit
pub mod Score
pub mod Clock
pub mod Cpu
pub mod Variants
pub mod Args
pub mod Timed
pub mod Barrier
pub mod Worker
pub mod Emit
pub mod Main
pub mod Examples
