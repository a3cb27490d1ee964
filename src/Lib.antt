-- ===== src/Lib.antt =====
-- existora2pg: the migration of Oracle schemas and data to PostgreSQL.
--
-- The program reads the metadata of an Oracle schema, plans the tasks that copy its tables, creates
-- the target tables, copies each task with retries, and records the state of every task in a job
-- store, from which a failed run is resumed. The parts, each a module here, and their sources:
--
--   Schema      internal/schema/model.go: the metadata, a record for each Go struct; a pointer is
--               an option, a row count a natural number.
--     TypeMap   internal/schema/typemap.go: MapOracleToPG, mapNumber, ApplyTypeMappings.
--   Config      internal/config/config.go: settings, applyDefaults, validate, Load. The file system
--               and the YAML decoder are arguments of load.
--   Chunker     internal/oracle/chunker.go: RowIDChunk, ComputeChunks, ComputePartitionedChunks,
--               BuildChunkWhereClause. The Oracle session (execDBMSChunks) is the argument Session,
--               which answers with chunks or fails.
--   Plan        internal/migration/plan.go: TableTask, MigrationPlan.
--     Count     partitionChunkCount, with the wrap-around of int64.
--     Tasks     the tasks that BuildPlan appends for a table, a partition or its chunks.
--     Merge     mergeChunks.
--     Interleave interleaveTasksByTable.
--     Topo      topoSortTables. The recursion runs on fuel, one more than the number of tables.
--     HighValue extractValue, normalizeValue, compareValues, and parseHighValue of engine.go. The
--               float64 arithmetic is the argument Floats.
--     Prune     resolvePartitions, prunePartitionsByRange, partitionOverlaps.
--     Build     BuildPlan.
--     Resolve   ResolveChunks, ResolvePartitionChunks, ResolveOraHashChunks, and the block of
--               Engine.Run that chooses between them.
--   JobStore    internal/jobstore/store.go and its sql/001_init.sql: one function for each operation
--               of the Store interface, on lists of rows. The clock is an argument.
--     Summary   GetRunSummary.
--   Engine      internal/migration/engine.go: the keys of jobs and tasks, BuildPartitionBounds.
--     Jobs      initJobs, and what Run passes to it.
--     DdlPhase  executeDDL, over the record DdlWriter of the statements that it sends, and the
--               record StoreCalls of how the calls of the job store end.
--     Pipeline  the function that executeDataMigration runs for a task, over the record Target.
--     Data      executeDataMigration: the tasks of the waiting jobs, and the job store beside the
--               worker pool, whose steps write to it.
--     Validation executeValidation: the comparison of row counts, over the record Counts, and the
--               loop over the jobs.
--     Constraints executeConstraints, over the record ConstraintWriter.
--     Resume    the start of Resume and resetFailedChunkedTables.
--     Run       Run and Resume, the phases one after the other. The data phase is an argument, since
--               its workers may take turns in any way; Data has its runs.
--     Wiring    the records of statements that the phases take, filled by the writer.
--   WorkerPool  internal/migration/worker.go: WorkerPool.Run as a relation of steps, each of one
--               worker or of the cancellation; any worker may be next.
--   Ddl         internal/postgres/ddl.go: names and quoting.
--     Statements the generated statements.
--   Transform   internal/transform/transform.go: TransformValue and TransformRow.
--   Writer      internal/postgres/writer.go: the Writer, its names, and how it sends statements. The
--               pool of connections is the record PgPool, calls on the state of the database.
--     Statements one function for each statement of the writer.
--     Names     the names of child tables.
--   Copy        CopyData of internal/postgres/writer.go as a relation of steps: the loop that reads
--               rows, the goroutine that writes batches, the channel between them, cancellation.
--   Reader      internal/oracle/reader.go: queries, and the rows that Read and ReadPaginated send.
--     Pages     pages put together, and the copy of what they send.
--   Api
--     Partitions, Jobs, Summary   pkg/api/handlers.go: stripChunkSuffix, GetJobs,
--               buildRunSummaryWithTiming.
--     Events, Chunks   ProgressEvent of pkg/api/types.go, and the aggregators of chunk events of
--               pkg/api/handlers.go.
--     Broadcast pkg/api/progress.go: the Broadcaster, and the listeners of pkg/api/handlers.go.
--     Mask      maskDSN of pkg/api/types.go.
--   Updater     internal/updater/updater.go: CheckUpdate, isNewer, findAsset.
--   Validator   internal/validate/validator.go: ValidateRowCount.
--   PlSql       internal/plsql/convert.go: splitTopLevel, and the CASE that convertDECODEOnce writes.
--   Prelude     what the modules share: lists, texts as lists of bytes, decimal numbers, maps as
--               association lists, grouping by a key, and signed integers.
--   Examples    the theorems at concrete inputs.
--
-- A plan is built from the sorted tables (Plan.Build), its placeholders are replaced by chunks
-- (Plan.Resolve), and the tasks are interleaved. Engine.Jobs enters a job for each table and task,
-- the phases take the waiting jobs from the store and set their state, and Engine.Resume makes the
-- interrupted ones wait again. Texts are ASCII where the case of letters matters.
--
-- Loops are structural recursion, but for three. The search of Plan.Topo has fuel for one more than
-- the number of tables, since each nested call is at another table. The rounds of Plan.Interleave
-- have fuel for one more than the number of tasks, since each round takes one. The pages of Reader
-- have fuel for their number; more fuel than the table has rows is enough, since each page but the
-- last one has a row.
--
-- The other phases take each call of the job store to end well, as it does but for a broken file or a
-- cancelled context. High values of partitions are texts; Plan.HighValue.Days says which texts Oracle
-- writes for days.
--
-- Not modelled: the lengths of pauses, the progress watchdog, the queries of the extractor, the rest
-- of the PL/SQL conversion, HTTP routing and the other handlers, the command line, the download of the
-- updater, and the web frontend. These are mostly calls of drivers and libraries.
mod Prelude
pub mod Schema
pub mod Config
pub mod Chunker
pub mod Plan
pub mod JobStore
pub mod Engine
pub mod Ddl
pub mod WorkerPool
pub mod Transform
pub mod Writer
pub mod Copy
pub mod Reader
pub mod Api
pub mod Updater
pub mod Validator
pub mod PlSql
pub mod Examples
