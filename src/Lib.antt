-- ===== src/Lib.antt =====
-- A verification library for ChronoDB, a time-series database in Rust.
--
-- The program: `storage/src` holds the storage engine. Samples are written through a write-ahead log
-- into an in-memory store (memstore), whose chunks are encoded by the coders of `compression`; indexes
-- find series by label; `query` parses queries and caches results; `downsample` schedules the tasks
-- that make coarser series; `raft` replicates commands between nodes. `server/src` serves HTTP on top
-- and keeps alerts.
--
-- Prelude        Boolean tests, lists, signed integers, bit operations, `i64` and `u64`, maps
-- Error          storage/src/error.rs: the errors of the modelled code, and Result
-- Compression    storage/src/compression: delta.rs, and dictionary.rs in Dictionary
--   ZigZag       zigzag_encode, zigzag_decode
--   Varint       encode_varint, decode_varint; the encoder recurs on the accessibility of its number,
--                the decoder on the bytes
--   Stream       encode, encode_batch and decode, which the source writes out for each pair of coders
--   Delta        DeltaEncoder, DeltaOfDeltaEncoder and their decoders as two coders of Stream
--   Dictionary   dictionary.rs: Dictionary (`add` is its insert) and DictionaryBuilder
--   Simple8b     encode_simple8b, encode_simple8b_chunk, decode_simple8b
-- Raft           storage/src/raft/mod.rs
--   Node         the messages, the state of a node, RaftNode::new
--   Append       handle_append_entries
--   Handlers     the other handlers, handle_message, and the loop of run as a list of events
-- Model          storage/src/model/mod.rs: labels, samples, series; an `f64` is its bit pattern
-- Index          storage/src/index
--   Inverted     inverted.rs; InvertedIndex::lookup is `find`; sets are ascending lists
--   Bitmap       bitmap.rs: RoaringBitmap, whose and, or and not are intersection, union and complement
--                with the shift of a release build, and BitmapIndex
--   Bloom        bloom.rs: BloomFilter, with the hashes of an item as a parameter
-- ColumnStore    storage/src/columnstore
--   Level        DownsampleLevel of mod.rs, and auto_select_downsample_level of memstore/store.rs
-- Downsample     storage/src/downsample: tasks and their scheduler
--   Task         task.rs: DownsampleTask; a duration is in milliseconds
--   Queue        scheduler.rs: ScheduledTask and its order, and the standard library's heap of them
--   Worker       worker.rs: what is sent to a pool
--   Scheduler    scheduler.rs: DownsampleScheduler, a function for each call and each loop's round
--   Run          sequences of those
-- MemStore       storage/src/memstore
--   Chunk        chunk.rs: Chunk; ChunkEncoder::encode is encode_chunk, ChunkDecoder::decode decode_chunk
--   Entry        head.rs: TimeSeriesEntry
--   Head         head.rs: HeadBlock, with the entries of Entry and the index of Index.Inverted
--   Store        store.rs: MemStore over Head, with the write-ahead log as the interface LogOps
--   Store.Logged what a write leaves in the log
--   Store.Query  store.rs: the queries and apply_downsampling, with the arithmetic on `f64` a parameter
-- Wal            storage/src/wal: mod.rs; the clock is an argument of what reads it
--   Entry        entry.rs: WalEntry, whose constructors are new_write, new_delete and so on
--   Header       entry.rs: WalHeader
--   Reader       reader.rs: WalReader over a directory, a map from segment numbers to files
--   Writer       writer.rs: WalWriter; `put` is what write does before the test for a rotation
--   Recovery     sequences of calls, and recover after them
--   Stored       MemStore over Wal
-- Query          storage/src/query: parser.rs, for queries in ASCII, and cache.rs
--   Function     Function and the names
--   Expr         the expressions and operators; `ExprType` is Expr
--   Outcome      the results of the parser, of which one is a panic
--   Parser       the functions that do not call parse_promql
--   Promql       parse_promql and the functions that call it, which take it as an argument
--   Cache        cache.rs: QueryCache; `remove` is remove_key, and the clock is an argument
-- Alert          server/src/rules/alerting.rs: AlertManager; the calls of notifiers are a list
--
-- An `i64` is the integer that it stands for, and wraps as in a release build; a `u64` is a number.
-- `DeltaDecoder::decode` runs on fuel, a round for each byte of the input, and reads a byte in each
-- round; encode_simple8b takes a value in each round; the loop of read_segment takes 24 bytes or more,
-- and parse_promql calls itself on shorter texts. Running out of fuel is the value `stuck` or `none`.
-- The handlers of the downsampling scheduler share their state under locks; each is a function that
-- runs alone, and any sequence of them is allowed.
-- Not modelled: input and output, the network, timers and locks (the loop of run handles one event at
-- a time), floating-point arithmetic, third-party libraries.
pub mod Prelude
pub mod Error
pub mod Model
pub mod Compression
pub mod Index
pub mod ColumnStore
pub mod MemStore
pub mod Wal
pub mod Query
pub mod Raft
pub mod Alert
pub mod Downsample
