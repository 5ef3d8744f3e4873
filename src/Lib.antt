-- ===== src/Lib.antt =====
-- sluice-go: a write-behind buffer. Writes land in a Redis journal, and bands of it are flushed in
-- batches to a datastore; what cannot be flushed becomes a dead letter.
--
-- Naming: the key names of internal/shield/shield.go and index.go (PayloadKey, DirtyKey, DLQKey,
-- IndexKey, ...) as lists of bytes, and bandFromKey. Band: FNV-32a, BandForKey and the shard of
-- internal/localjournal. Redis: the server as an interface of commands with their documented laws,
-- since its code is not part of the repository; Redis/Memory is an instance held in memory, at
-- which the theorems are applied.
--
-- Shield: internal/shield. Scripts are the Lua scripts of types.go, each one atomic step of the
-- Redis state; Calls are the scripts with the keys and arguments that shield.go passes (Write,
-- WriteDedup, HydrateJournal, CommitFlushed, DeadLetterIfUnchanged, RefreshHotTTL). Traffic is any
-- sequence of such calls by other goroutines and processes, and time that goes by, and the two
-- commands of CommitDLQKeys for a key. To settle a key is to commit it, to dead-letter it or to
-- run one of those two commands for it. World adds failures: each round trip has a turn, with the
-- traffic before it and its fault (no connection, a lost answer, NOSCRIPT); evalShaPipelined runs
-- on it. Flush is DrainBand, CommitFlushed, DeadLetterIfUnchanged, HotKeys and RefreshHotMarkers
-- over such a world.
--
-- Shield/DeadLetters is DrainDLQ, CommitDLQKeys and HasPendingVersion. Dlq: internal/dlq/dlq.go,
-- its handlers and, in Dlq/Run, its loops; the context of a run is cancelled after a number of
-- turns. Shield/Reads is the rest of what the facade calls: ReadJournal, HydrateJournal, the hot
-- markers, CommitKeys, MoveToDeadLetter and the depths; Shield/Batcher is pipelineWrites,
-- flushBatch and the loop of runBatcher.
--
-- Shield/Index: internal/shield/index.go, where what Redis answers is a parameter and the commands
-- that are sent are the result. Shield/Index itself is queueIndexUpdate, and Updates are
-- UpdateIndexes of shield.go and BulkUpdateIndexes of bulk.go; Query is QueryBand and
-- pruneIndexMembers, Prune is PruneExpiredIndexes, Sweep is SweepIndexBand over the pages of SSCAN
-- and ZSCAN, and Register is RegisterExistingIndexes with scanKeys over the pages of SCAN on each
-- master. LocalJournal: internal/localjournal/localjournal.go, the L1 cache of 256 LRU shards.
-- Broadcast: enqueueBroadcast of shield.go and the subscriber of internal/broadcast/subscriber.go,
-- which applies stream entries to that cache; what XREAD answers is a function of the cursor that
-- it is passed, and each entry has the time at which it is applied.
--
-- Facade: sluice.go, with its state and answers in Facade/Types: degradedWrite, Facade/Reads
-- (Read, ReadFresh, HotLoad and the hydration), Facade/Writes (Write with its volume signals) and
-- Facade/Idempotent (WriteIdempotent), validate of the builder in Facade/Builder, ReadOld and
-- IsHot in Facade/Old, ReadBulk and ReadBulkWithTTL of sluice_bulk.go in Facade/Bulk, Query over
-- all bands in Facade/Query, DrainAndClose, as the list of its steps, and ProcessDLQ in
-- Facade/Close, and the rounds of the index sweeper in Facade/Sweeper. A Sluice without an index
-- contract, broadcast and batched journal writes is modelled. What runs in a goroutine of its own
-- is a job that the operation leaves.
--
-- Sink: sink/types.go and sink.go, with IsPermanent and CheckAttribution. Engine: flushBand of
-- internal/engine/engine.go with its helpers; the write contract and the sink are parameters, and
-- any function may stand for them; Engine/Stored is a flush into the PostgreSQL sink. Engine/Loop
-- is runBand, with SignalVolume and startPreEvictionFlusher, over the sequence of cases that its
-- select picks; Engine/Progress is a flush in a world where nothing fails (Shield/World/Calm), and
-- Engine/Size bounds a flush. Sink/Postgres, Sink/Dynamodb and Sink/Docdb are the sinks under
-- sink/, over the database, table or collection of a driver; Sink/Database also has a database
-- that keeps the statements it accepted, and Sink/Postgres/Rows says what such a statement carries
-- of a model. A message of an error stands without its arguments.
--
-- A key is written as what it names (a payload of a band and correlation key, a dirty set of a
-- band), times are natural numbers of milliseconds, and the write sequence is the decimal text
-- that HINCRBY leaves. The eviction loop of the cache has fuel, one turn for each key of the list,
-- so that it ends only when the shard fits, and the chunk loop of QueryBand has one turn for each
-- candidate; the loop of processBand runs until the context is cancelled; the pruner takes at most
-- 20 batches of a band, and every other loop is over a list. Sequences do not wrap: HINCRBY fails
-- at 2^63, which the model leaves out, as it does a MaxEntries of the cache so near to 2^63 that
-- rounding up to the shards overflows. No eviction removes a hash without expiry, as with the
-- volatile policies of Redis.
--
-- Not modelled: the time between ticks and the goroutines themselves (a loop is over the events
-- that it meets, and any sequence may stand for them), metrics and logging, CommitKeys and
-- MoveToDeadLetter as traffic of others, since nothing calls them, the gauge sampler, the calls of
-- UpdateIndexes and BulkUpdateIndexes from the facade, the start of the parts in Build, and the
-- sources, which only call a driver.
pub mod Prelude
pub mod Naming
pub mod Band
pub mod Redis
pub mod Shield
pub mod Sink
pub mod Engine
pub mod LocalJournal
pub mod Dlq
pub mod Facade
pub mod Broadcast
pub mod Tests
