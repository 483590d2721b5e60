-- ===== src/Lib.antt =====
-- XLORM, a small ORM for MySQL in Go: the query builder and the table operations of the
-- repository, with the texts and statements that they send, as definitions and theorems.
--
-- Parts. A `Table` (table.go) and a `builder` (builder.go) collect the parts of one query and
-- write its SQL text; they share the condition flags and the WHERE text (Condition), the page
-- offset (Paging), and the checks of identifiers in utils.go (Ident). The operations of a table
-- send the text through database/sql and count what they do in asyncDBMetrics.
--
-- Files. Common holds the shared helpers, Text the Go strings as lists of bytes with what the
-- code uses of the packages strings and strconv, Runes the decoding of a string into runes. Ident
-- is utils.go (escapeSQLIdentifier, isValidFieldName, isValidSafeOrderBy), Extract its
-- extractFromMap and extractFromMapSlice, Placeholders getCachedPlaceholder's text and
-- buildPlaceholders of table.go. Builder is builder.go: Builder.antt the methods, Builder/Build
-- the texts, Builder/Calls chains of calls, and the other children the proofs. Table is table.go:
-- Table.antt the methods that collect, Table/Query the query texts, Table/Find the operations
-- that read, Table/Change those that write, and the other children the proofs. A method keeps its
-- name in snake case, with a verb where the Go name is a reserved word (Where is add_where,
-- OrderBy is set_order_by). Metrics is metrics.go: Metrics/Ring the ring buffer, with the queue
-- it stands for in Ring/Refine, Metrics/Store the counters and the report, and Metrics/Async the
-- recorder with its worker; Async/Account says where each recorded metric is after a schedule,
-- and Async/Stops that a second stop panics. Transaction is transaction.go with Begin and ExecTx
-- of xlorm.go, and Batch is batch.go: Batch.antt the insert, Batch/Update the update,
-- Batch/Answered what the server answered. Cache is cache.go: Cache/Refine compares it with one
-- map (Dict), and Cache/Placeholder is getCachedPlaceholder of utils.go. Handle is the rest of
-- xlorm.go that sends a statement, with its calls of a cache of the caller, and Debug is
-- debug.go. Tags and Mapper are structmapper.go with the conversions of utils.go, Mapper/Columns
-- the order of the columns, Mapper/Kept what ToMap leaves out, and Mapper/Metadata the cached
-- metadata with the primary keys; Mapper/Process is processValue as the source has it, over the
-- metadata and with callbacks, Process/Struct the same for StructToMap, Mapper/Converters the
-- converters, and Mapper/Inserted the insert of a struct. Config is config.go with the checks and
-- defaults of New of xlorm.go, and Config/Levels the log levels. Lifecycle is mysql.go with New
-- and Close, over the recorder, the caches and the statistics: Lifecycle/Closing is Close with
-- what happens before it. TablePool is the pool of table objects, pool.go. Logger is the
-- asynchronous handler of logger.go, with the handlers that share its channel in Logger/Derived,
-- and LogFile its files, with the removal of old ones in LogFile/Cleanup, and Pool the statistics
-- of the pool with SetDBMetricsEnable. Value and Row are the `interface{}` values and the maps
-- from column names.
--
-- Outside code. The tables of the package unicode, and the server behind database/sql with the
-- clock, are parameters: `Unicode` in Runes and `Env` in Effects, as are the LRU cache and the
-- hash in Cache (`Lru`, `sum32`), a cache of the caller in Handle (`UserCache`), and the verbs of
-- fmt in Debug (`Printer`), the parsers of strconv and time in Mapper (`Parsers`),
-- strings.ToLower in Config, what the package sql answers to New in Lifecycle (`Server`,
-- `seconds`), the file system with the date in LogFile (`Answers`), and how large a slice or a
-- channel the runtime can make (`slice_fits` in Effects, `channel_fits` and `ring_fits` in
-- Lifecycle). An answer of `Env` may depend on all events before it. Events are kept in their
-- order; a log entry keeps what it reports and not its text, and entries that are written in
-- debug mode only are left out. A method of a table is read on a table that has a database: on a
-- released table the code would dereference nil.
--
-- A schedule of the recorder is any sequence of calls, rounds of the worker and stops, each as
-- one step: the buffer is changed under its mutex, and the counters by the worker alone, but for
-- the affected rows and the dropped count, which are single atomic additions. The logger is a
-- relation of steps between states (`Step`), as are the statistics of the pool, the table objects
-- of all callers and the calls before Close, since the goroutines and the select choose; a send
-- on the channel of the logger and its count are two steps, as are a receive and the handling of
-- the record; what is proved holds of every state that is reached.
--
-- Not modelled: the text of dbError, the timeouts of the logger, the pings of the goroutine that
-- keeps the connection alive, and the functions that only print or pass a call on.
--
-- Bounds. An int64 is an integer with its wrap-around written out. The loop of buildPlaceholders
-- takes one unit of fuel a round and is given the number of records, which is enough since a
-- round at least adds one filled place; the loops of a batch take the number of records, which is
-- enough since a round takes at least one, as Batch/Rounds shows; processValue and StructToMap
-- over the metadata take fuel above the number of all fields, which is enough without a callback,
-- as Mapper/Process/Plain and Process/Struct show; decimal printing takes the number itself,
-- which is enough since a round divides it by ten.
pub mod Common
pub mod Text
pub mod Runes
pub mod Ident
pub mod Value
pub mod Condition
pub mod Paging
pub mod Builder
pub mod Dict
pub mod Row
pub mod Extract
pub mod Placeholders
pub mod Effects
pub mod Table
pub mod Metrics
pub mod Transaction
pub mod Batch
pub mod TablePool
pub mod Lifecycle
pub mod Tags
pub mod LogFile
pub mod Pool
pub mod Logger
pub mod Config
pub mod Mapper
pub mod Handle
pub mod Cache
pub mod Debug
