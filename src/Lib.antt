-- ===== src/Lib.antt =====
-- Selfstack's document store: a write-ahead log of records in segment files, the in-memory index
-- that a start rebuilds from them, and the compaction that merges segments.
--
-- How the parts interact. `WALWriter` (internal/scope/db/wal/writer.go) appends records
-- (wal/record.go) to the current segment file and rotates to a new one when it is large; it tells a
-- manifest (wal/manifest.go) of each segment. On a start `openSegment` cuts a corrupt tail off, and
-- `RecoveryManager` (wal/recovery.go) reads all segments with a `SegmentIterator` (wal/reader.go)
-- and fills an index (internal/scope/db/memindex.go). `Compactor` (wal/compactor.go) merges sealed
-- segments into one that keeps the latest record of each document.
--
-- Files:
--   Prelude, with Tests, Lists, Results, Maps and Sorting: the names shared by all, Go's results,
--     maps and sort.Slice.
--   Bytes, with LittleEndian, Slices and Checksum: encoding/binary, slices and hash/crc32.
--   Wal/Record: Record, NewRecord, Encode, DecodeRecord, VerifyChecksums of wal/record.go.
--   Wal/Payload: the payloads of wal/record.go. encoding/json is the parameter `Json`.
--   Wal/Reader: wal/reader.go. A file is a list of bytes, the open file what is left of it.
--   Wal/Tail: findLastValidOffset and the truncation in openSegment of wal/writer.go.
--   Wal/Manifest: InMemoryManifest of wal/manifest.go, and the interface `ManifestStore`.
--     Wal/Manifest/Postgres: PostgresManifest on the two tables of the database.
--   Wal/Roller: wal/roller.go. Names are base names in one directory.
--   Wal/Writer: WALWriter of wal/writer.go. Its state is a record with the directory as a map from
--     segment IDs to contents; the outcomes of the operating system's calls are the input `Io`, and
--     the manifest is any `ManifestStore`. Wal/Writer/Naming: file names of wal/roller.go.
--   Wal/Index and Wal/Recovery: applyRecord and RecoverWithoutManifest of wal/recovery.go, on any
--     `DocumentIndex` that keeps two laws; Db/MemIndex/Laws shows that MemIndex is one.
--     Wal/Recovery/Directory: RecoverWithoutManifest on the files of a directory.
--     Wal/Recovery/ByManifest: Recover of wal/recovery.go, along the segments of a manifest.
--   Wal/Compactor: mergeRecords and the segment that compactSegments writes, of wal/compactor.go.
--     Wal/Compactor/Ran and Run: Compact and compactSegments over the segment directory, the one for
--     temporary files and the tables; a run keeps every state that it goes through.
--   Db/MemIndex: internal/scope/db/memindex.go; its Search in Db/MemIndex/Search.
--   Db/Store: Add, Search and Count of internal/scope/db/store.go. Scores are float32s: their type,
--     the similarity and the comparison are parameters. Db/Store/Disk: Flush and NewStore, with the
--     two files and the lines that bufio.Scanner makes of one.
--   Db/WalStore: internal/scope/db/walstore.go over the writer and the index. Db/WalStore/New:
--     NewWALStore, from the recovery to the writer that goes on. Db/WalStore/Agreement and Rebuild
--     set the index beside the records that calls log, Written and Contents those records beside the
--     bytes in the writer's files, and Recovered closes the circle with a recovery from the files.
--   Search: internal/scope/search/search.go.
--   Wal/Runs, Db/Runs, Db/Reopened, Db/Saved and Search/Runs: concrete inputs.
--
-- Fuel. The loops over a file read at least a header in each round, so they take the file's length
-- plus one as fuel; running out is an error of its own, `out_of_fuel`, which no other code gives.
-- Wal/Reader/Scan relates the fuelled loops to one scan with any larger number of steps. The
-- decimal digits of a number take the number plus one.
--
-- Integers are natural numbers. LSNs and segment IDs are uint64 and wrap where the code adds to
-- them; uint32 sums wrap where the code computes in uint32. A Go string is its bytes, a float32 its
-- 32 bits, a time its distance from the zero time.
--
-- The database carries an SQL statement out as it says, or fails and changes nothing; a transaction
-- changes nothing before its commit, and a commit that reports an error has not been carried out.
--
-- Not modelled: other users of the tables while a compaction runs, the background goroutines'
-- timing, the compactor's place in WALStore, HTTP, configuration, logging. Mutexes: every operation
-- is one critical section, also WALWriter.Close, which gives its mutex up for a moment while it
-- waits for the goroutine, between setting `closed` and the sync. Go visits a map in no fixed order; here the order is that
-- of the association list, and no theorem depends on it.
pub mod Prelude
pub mod Bytes
pub mod Wal
pub mod Db
pub mod Search
