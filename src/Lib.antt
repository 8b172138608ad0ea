-- ===== src/Lib.antt =====
-- torbox-fuse-go: a FUSE file system that shows a TorBox account's media as a tree of files, and
-- streams their bytes from the CDN through a cache of byte ranges.
--
-- The parts of the program, and how they interact: internal/torbox lists the account's files;
-- internal/state keeps them with stable inodes in SQLite; internal/catalog builds the tree from them;
-- internal/fusefs serves the tree and opens files; internal/stream reads a file's bytes, window by
-- window, through internal/cache, and fetches what is missing from the CDN within two limits on
-- concurrency; internal/metrics and internal/dashboard show what happens.
--
-- Modelled:
--
-- Cache (internal/cache/range.go). A RangeCache has 32 shards; each maps a key (file, start) to a
-- block. A shard is an association list from CacheKey to RangeBlock, without a key twice: its order
-- stands for the order in which a loop visits the map, and every theorem holds for every order.
-- Cache/Types has the data and the hash that picks the shard, Cache/Ops CopyTo, CachedPrefixLen and
-- the counters, Cache/Evict putBlock with evict and evictOne, and EvictStale, Cache/Blocks FileBlocks
-- and Cache/Keys AllFileKeys. Cache/History runs any calls one after the other: the interleavings of
-- goroutines inside putBlock, between whose critical sections others may run, are not modelled.
-- Each operation that reads the clock takes the reading as an argument, the
-- atomic fields hold plain values, and the metrics collector, which may be nil, is an Option. `used`
-- and the gauges are integers, offsets and sizes natural numbers (the callers pass no negative
-- offset); int64 overflow would take blocks of 2^63 bytes and is left out.
-- The loop of evict has fuel: one round for each block and one for the test that ends it, and it is
-- proved that they are enough when the budget is not negative.
--
-- Stream/Semaphore (budgetSem in internal/stream/reader.go, and hostSem in internal/stream/cdn.go,
-- which is the same code). The queue and the counts are a record; Stream/Semaphore has acquire and
-- release as the code under the mutex, Stream/Semaphore/Callers the goroutines. sync.Cond splits
-- acquire into steps: up to its first Wait, and from each return of Wait to the next; a goroutine is
-- asleep in Wait until a broadcast. Whether the context is cancelled is an argument of a step, so it
-- may be at any time. A waiter's identity is its goroutine, and its `ready` is part of where the
-- goroutine stands.
--
-- Stream/Window (fetchWindow, streamInto and waitForBytes in internal/stream/reader.go). A pass of the
-- loop of fetchWindow is one function on the window and the cache; what it meets (an answer of
-- CDNClient.FetchRange, the clock, whether the context is cancelled in its pause) is a Round, an
-- argument for each pass, and the answer is a function of the two offsets asked for. A response body
-- is the sequence of its reads and ends. The budget's slot is taken and given back by
-- Stream/Semaphore; maybeReadAhead and the removal of the window from the reader's map act on other
-- state, and the steps of one fetch run without other calls on the cache in between. The loop has as
-- much fuel as it has passes, maxRetries + 1. waitForBytes is given as what it does on each look at
-- the window under its lock. Bytes in the memory of a buffer beyond its length are not modelled: the
-- theorem on waitForBytes is about windows whose readyTo is the length of their buffer.
--
-- Stream/Session and Stream/Reading (ReadAt and the access pattern in internal/stream/reader.go).
-- Stream/Session has what ReadAt notes of a read, and isSequential, computeCachePriority and
-- computeBudgetPriority over it; an int32 counter is kept as its unsigned value, so that it wraps.
-- Stream/Reading has ReadAt's small read and its loop over an interface to readWindow and smallRead,
-- of which the theorem assumes nothing; the fuel of the loop is the length of the buffer and one more
-- round. The check for a seek and the metrics of ReadAt are not modelled here.
--
-- State (internal/state/db.go). The tables inodes, files and hidden_files as maps by their primary key,
-- and each function of DB as a function on them; each SQL statement does what its text says or fails,
-- as an argument of the call decides, and a transaction that does not commit leaves the tables as they
-- were. The column updated_at is left out, inode numbers are natural numbers (uint64 would take 2^64
-- files), and LIKE is an argument. State/Calls runs any calls one after the other, with restarts, in
-- which Open computes the counter again. State/Latest and State/Replace are about ReplaceFiles.
-- ListHiddenFiles and ListHiddenDownloads are not modelled: they only read.
--
-- Paths (Go's packages path and strings). Clean, Dir, Base, Join, Split and HasPrefix on bytes, as
-- internal/catalog uses them; Paths/Length and Paths/Joined have what they do to paths from the root.
--
-- Catalog (internal/catalog). Catalog has types.go and classify.go, Catalog/Tree tree.go,
-- Catalog/FromDb tree_from_db.go and Catalog/Refresh catalog.go, over the functions of State. The map of
-- directories is an association list, whose order is the order of a loop over the map; sort.Slice is
-- an insertion sort, which keeps the order of entries with one name, where Go leaves it open. The
-- regular expressions and the functions of strings and strconv on whole texts are a record of
-- functions (Text). The loop of buildParentDirs has fuel, one round more than the longest path has
-- bytes, and it is proved that this is enough: each round goes to shorter paths. Catalog/Parents,
-- Catalog/Rounds and Catalog/Listed are about that loop, Catalog/Shown and Catalog/Hides about
-- ApplyHides, Catalog/Place, Catalog/Built, Catalog/Sorted and Catalog/Whole about BuildTree, and
-- Catalog/Walk and Catalog/Refreshed about Refresh, whose client is a function from the kind to the
-- downloads or an error. A call of Refresh is taken as a whole, with no other call on the catalog or
-- the database in between.
--
-- Torbox (internal/torbox). Torbox has ListDownloads with its pages, PermalinkURL and RedactToken,
-- Torbox/Api apiGet and Torbox/Delete DeleteDownload with apiPost. net/http, the context and the clock
-- are a record of functions on a state of the world; json.Unmarshal with extractTags is an argument. The
-- API decides how many pages there are, so the loop over them has fuel, and Torbox/Paging proves which
-- is enough against a list that stays the same; Torbox/Redaction is about tokens in addresses. The
-- semaphore lets one request in at a time, and so the calls of apiGet are taken one after the other,
-- with the lookup before it; Torbox/Api/Oldest is about its eviction, Torbox/Api/Attempts and
-- Torbox/Api/Answers about its answers, and Torbox/Api/Retries about attempts that fail before one that
-- does not. The redirects that net/http follows within a Do are not counted.
--
-- Fuse (internal/fusefs/fs.go). The tree of inodes as go-fuse keeps it for the program: the children of
-- a directory are a map from names, on which GetChild, Children and RmChild work. Fuse has
-- removeContentKeys, Fuse/Removal Unlink and Rmdir over the database of State, Fuse/Removed and
-- Fuse/Unlinked what they leave, and Fuse/Keys parseContentKey. A call is taken as a whole, and in a
-- directory that is in the tree; what the kernel is told is collected in the state.
-- Fuse/Filled has OnAdd and populateDir, whose recursion over subdirectories has fuel, one more than the
-- longest path of the catalog has bytes: each level makes the path longer (Fuse/Ends), and
-- Fuse/Faithful and Fuse/Mounted compare the tree with the catalog. The inode numbers of files are
-- assigned in the database and are not kept in the tree.
--
-- Stream/Inflight (the map of windows in internal/stream/reader.go). getOrCreateWindow, the end of a
-- fetch, cleanupWindow, the windows' part of CancelFile, maybeCancelOnSeek and maybeReadAhead, each as
-- one call on the map; a fetch that is begun is listed, and its end is a call of its own. Two calls
-- that overlap in time (in which LoadOrStore finds a window that Load did not) are not modelled.
--
-- Stream/Handles (open handles and closed files in internal/stream/reader.go). TrackReader,
-- UntrackReader, HasReaders, CancelFile with its three sources of the file's size,
-- maybeCleanupSession and cleanupRecentlyClosed, over the maps of sessions, readers and closed files,
-- each as one call.
--
-- Stream/Cdn (URL resolution in internal/stream/cdn.go). ResolveURL with its cache of successes and
-- failures, InvalidateURL and resolveRedirect; client.Do and the resolution of references by net/url are
-- arguments, a function from URLs to responses, so the API gives one answer for each URL within a call.
-- singleflight is taken to run its function once for the call that is looked at. Stream/Cdn/Ranges has
-- FetchRange and doRangeRequest; the CDN answers by a function of the URL and the range, and whether the
-- host's semaphore was acquired is an argument.
--
-- Config (internal/config/config.go). The settings, and Load over any environment; os.Getenv, the parsers
-- of strconv and time and the ids of the process are arguments.
--
-- Not modelled: readWindow, smallRead and the snapshots of internal/stream; getHostSem
-- in internal/stream/cdn.go; extractTags in internal/torbox/client.go; the rest of
-- internal/fusefs, which synchronises the tree and passes reads on to the stream reader;
-- internal/dashboard and the server of internal/metrics; cmd/torbox-media-center, which only wires the
-- parts together.
mod Base
pub mod Cache
pub mod Catalog
pub mod Config
pub mod Paths
pub mod State
pub mod Stream
pub mod Torbox
pub mod Fuse
