-- ===== src/Lib.antt =====
-- A verification library for nntp-history, the history server of an NNTP node: it keeps the hashes
-- of the message-ids that the node has seen, with the token of where an article is stored, and
-- tells whether an article is a duplicate.
--
-- The program's parts, by the files at the repository's root:
--   nntp-history.go    history_Writer is one goroutine that takes history objects from WriterChan
--                      (AddHistory puts them there), asks the index to add the hash and appends a line to
--                      history.dat through a bufio.Writer. IndexQuery asks the index, or the L1 cache where no
--                      hash database is used. hashDB_Index passes a request on to one of 4096
--                      hashDB_Worker goroutines, which reads and writes the hash tables and compares
--                      hashes in history.dat (FseekHistoryMessageHash) where keys agree. BootHistory opens
--                      history.dat and starts all this; CLOSE_HISTORY sends a nil object, which goes from
--                      the writer through the index to every worker, and waits until all locks are free.
--   MYSQL.go, SQLite.go   the hash tables: for the first ten bytes of a hash, three of them the table
--                      and seven the row, a column with the offsets of its lines; and the pools of connections.
--   SQLiteSharding.go  how hashes are shared out over SQLite databases and tables in six modes.
--   L1CACHE.go         hashes in process or just added, one shard for each prefix.
--   L2CACHE.go         the hash that stands at an offset of history.dat.
--   L3CACHE.go         offsets of keys that the hash tables may not know yet.
--   HASHENC.go         offsets as text, padding, the checksum of a line.
--   SOCKET.go, CLIENT.go   history objects sent as text to a server, and the addresses it lets in.
--   STATS.go           counters.
--
-- The library's files, and the code they follow:
--   Prelude, Text      shared helpers: Boolean tests, lists over the native numbers, byte texts, Outcome
--                      (a value, a returned error or a panic) and Go's strings and strconv.
--   Cases              the constants of nntp-history.go, HistoryObject and HistoryIndex.
--   Stats              Sync_upcounter, Sync_upcounterN, GetCounter. A counter is a uint64 that wraps around. Stats.Totals
--                      has the sums that L1Stats, L2Stats and L3Stats take.
--   HashEnc            concatInt64, parseByteToSlice, LeftPad, NullPad, RemoveNullPad, CRC.
--   HisDat             bufio.Writer over a file with room for some bytes, checkBufioWriteBuffer,
--                      writeHistoryLine, writeHistoryHeader and the three Fseek functions.
--   Store              InsertOffset and GetOffsets over a Database, an interface with what a server is relied
--                      on for. Store.Memory fills it, so that every hypothesis about it can hold.
--   Index              hashDB_Worker on one request: its reply and what it changes.
--   Writer             hashDB_Index, IndexQuery, history_Writer and AddHistory, one request at a time. A
--                      History is the appender, what the workers share and the L1 cache; a Round is what one
--                      pass of the loop does next, replies and leaves. Writer.Reach is the relation of the states
--                      that additions and restarts lead to, with the log of what was added. Writer.Routing says which worker a
--                      hash goes to.
--   Boot               BootHistory, gobEncodeHeader, gobDecodeHeader and SET_DEBUG. A Boot goes on to a history or says how the
--                      program ends; Boot.Kept ties it to the log of the writer.
--   Locks              LOCKfunc, UNLOCKfunc and the loop of hashDB_Init that starts the workers.
--   Backend            hashDB_Init, InitSQLite3WithSharding, the Initialize functions, UsingSQLite3, GetShardedDB,
--                      GetSQLite3Pool and GetShardingInfo.
--   Shutdown           history_Writer's last act, hashDB_Index, the workers and CLOSE_HISTORY as a step relation:
--                      Step is one step of one goroutine or client, Reach what any number of them leads to, IsStopped what
--                      CLOSE_HISTORY waits for.
--   RootDbs            generateCombinations, ROOTDBS and charsMap.
--   L1Cache            BootL1Cache, LockL1Cache, Set, Push, Pop, the rounds of pqExpire and pqExtend, and L1Stats.
--   L2Cache            BootL2Cache, SetOffsetHash, GetHashFromOffset, OffsetToChar, Push, Pop, the rounds of pqExpire and
--                      pqExtend, and L2Stats.
--   L3Cache            BootL3Cache, SetOffsets, GetOffsets, Push, Pop, the rounds of pqExpire and pqExtend, and L3Stats.
--   Shard              GetShardConfig, the placing of hashes, the tables that are made, GetDBAndTable.
--   Sharded            SQLite3ShardedDB: NewSQLite3ShardedDB, CreateAllTables, ReturnDB, Close, GetStats, GetMemoryInfo.
--   Pool               GetDB, ReturnDB, CloseDB, the two ClosePool, SetMaxOpen, GetIsOpen and the connections that
--                      NewSQLpool and NewSQLite3Pool make first. Pool.Schema has the rest of the two, with
--                      ShortHashDB_CreateTables, CreateTables and createTablesForDB, Pool.Optimize NewConn and
--                      OptimizeDB. Pool.Lending has the pool as a machine: Step is one call, Reach any number.
--   Socket, Acl        ConvertHistoryObjectToString and back, handleSocketConn line by line, SetupACL,
--                      SetACL, IsAllowed.
--   Server, Client     startServer with the rounds of its listeners, checkACL; BootHistoryClient with its retries,
--                      NewRConn and the rounds of handleRConn.
--   The module Tests of a part runs it on concrete values.
--
-- Conventions. A string is the list of its bytes. Times and offsets of the file are natural numbers; int64 values
-- that may be negative are integers. Messages that are only logged are left out, and so are mutexes: an operation
-- that holds a lock is one step. A receive from a channel on which nothing is ever sent is an answer of its own
-- (silent, blocks, waits_forever, hangs). Loops over input are structural; format_nat has the number as its fuel,
-- which bounds its digits; drain runs over what the channel holds and the connections that come back while the
-- pool closes (`later`). In Shutdown a number stands for a request, and `route` for the worker that hashDB_Index
-- chooses for it; clients may send behind the nil of the writer too. Each request has at least 64 bytes of hash
-- and an offset that is not 0, and IndexChan is there and has a capacity. `worker_runs` of Config says for which
-- places of indexChans a hashDB_Worker runs; a request to another one gets no answer. Workers reach their lock in
-- the order in which they are started.
--
-- Parameters. The SQL servers and utils.Str2int64 are the fields of Store.Database, with laws, for tables and keys
-- of digits and lower-case letters: a write is read back in its row and leaves other rows alone; decimals are
-- read. gob and base64 are Boot.Codec: a text of base64 characters, decoded into what was encoded where no field
-- was 0. What a driver, a database, a clock, the disk, the operating system or the starting of a profile do during
-- a call is an argument of it.
--
-- Not modelled: StartOptimizer, which only calls OptimizeDB, and the DSN texts; the
-- sockets themselves and the reading of a reply's code by net/textproto; WatchDB, PrintMemoryStats
-- and profiling, which only report; BatchTicker, IsPow2, CACHE.go and the clock and random helpers, which nothing of
-- the above uses; the programs under examples.
pub mod Prelude
pub mod Text
pub mod HashEnc
pub mod Stats
pub mod Cases
pub mod HisDat
pub mod Store
pub mod L1Cache
pub mod L2Cache
pub mod L3Cache
pub mod Index
pub mod RootDbs
pub mod Writer
pub mod Shard
pub mod Sharded
pub mod Locks
pub mod Backend
pub mod Boot
pub mod Shutdown
pub mod Pool
pub mod Acl
pub mod Server
pub mod Client
pub mod Socket
