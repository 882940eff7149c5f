-- ===== src/Lib.antt =====
-- Satchel keeps a block device on one node and publishes its changes to an object store, so that
-- another node can take it over. A write goes to the local image (internal/replica/device.go), which
-- collects the changed blocks in a generation. A sealed generation is kept in a local journal
-- (internal/replica/journal.go) until it is published as a manifest of segments
-- (internal/replica/remote.go), which name their blocks by extents (internal/replica/extents.go). The
-- head of a volume (internal/replica/head.go) is the one object that decides which writer goes on. A
-- restore reads each block from the newest manifest that has it.
--
-- Base and its children: tests on native numbers, lists, results, bytes and association lists. The
--   rest follows the files of internal/replica.
-- Extents: extents.go, and `intersectExtent` of segment.go. An extent is a record of two uint64,
--   whose sum wraps (`u64`). Sets says which blocks a list covers and what a well-formed list is;
--   Validate, Subtract, Subtract/Order, Union, Contain and Range take one function each. The loops
--   are structural, but for two on fuel: `sort.Search`, with one round for each element, and the
--   loop on `cursor` of `extentsContain`, with two rounds more than there are outer extents. Each
--   round of the first makes its range shorter, and each round of the second but the first passes
--   over an outer extent.
-- Remote and Remote/Plan: the object references, manifests and manifest entries of remote.go, and
--   `restorePlan`, from the manifests that `restoreManifests` found, `applyDeltaToPlan`,
--   `checkpointRefs` and `checkpointReadyRefs`. Sources says where a plan reads a block from; Newest
--   is about `restorePlan`, Incremental about `applyDeltaToPlan`.
-- Device: device.go. The image file is a function from offsets to bytes, the map of active blocks an
--   association list with one entry for each block, and `ReadAt`, `WriteAt`, `Trim`, `sealLocked`, `Release`,
--   `Close` and `Replay` are functions on a record. How many bytes a write of the file stores, and
--   whether a write, a read of a block or the writing of zeros fails, are arguments; a buffer of the pool holds
--   anything (`fresh`). A call that must wait ends with `wait`, and is made again after a release. Sizes and
--   counts stay in their int64, and offsets and lengths are not negative. Whole says what writes and trims do
--   when nothing fails. Capture and Mirror follow a write, Trim a trim, Read a read, Dirty the count of dirty
--   bytes, Replay, Replay/Recovery and Replay/Trace the recovery of an image.
-- Head: head.go's decisions on a listing of head entries, newest first: which is committed, whether
--   a claim wins, whether an owner is still current, which entries are dead or superseded. Exclusion is
--   about claims, Prune about what is removed.
-- Journal: journal.go as a state machine. A step is a critical section under the journal's mutexes;
--   `syncPending` is two steps, before and after the call of `syncFile`, and other steps come between
--   them. What the disk answers is an argument. `stable_seq` is what completed syncs cover, which
--   the source does not keep. Durability, Rewrite and Trace follow what completed syncs cover over all orders
--   of the steps, Retention the records that stay. Recovery is about `ValidateRecovery` and what `Acknowledge` keeps. Journal/Format is the bytes of the file:
--   `encodeJournalRecord`, `writeJournalHeader`, `rewriteLocked`, `readJournal`, `OpenJournal` and `Rebase`,
--   with the checksum and the JSON of the metadata as a `FileCodec`. The loop over the records has one round for
--   each byte of the file and one more, as each record has bytes. Sort, Records, Parts, RoundTrip and Reopen
--   are about files that are written and read again. Base/Binary has big-endian numbers and `io.ReadFull`.
-- ObjectStore: internal/objectstore/memory.go, with store.go's object and errors. An etag is the number
--   that the source prints; Swap is about its compare-and-swap.
-- Segment: `blocksToExtents` and `isZero` of segment.go (Runs), and `mergeGenerations` of syncer.go
--   (Merge). Segment/Encode is `EncodeSegments` and `decodeSegment`, with gzip and the checksum as a `Packer`; Runs,
--   Decode, Contents and RoundTrip are about the runs of blocks, their bytes, and whole segments. The workers of
--   `EncodeSegments` are one loop.
-- Syncer: syncer.go's queue of requests and its goroutine, as a state machine with rounds of two
--   steps, and other steps between them. The calls of a round are events, and what the journal, the lease and the
--   store answer are arguments; `publishWithRetry` has a list of these, and its end is a context that is done. Such
--   a context ends the goroutine at once, as it makes every later call fail. Events and Order
--   are about one round, Steps about one step, Trace about all orders of steps, Success about what callers are told.
-- Volume, History, Loader and Garbage: remote.go's volume state and its manifests. Volume is
--   `validateState`, `validateManifest` and `decodeManifest`, with the checksum and the JSON of
--   the code as a `Codec`; Validate is about what is accepted. History reads manifests that are inline in
--   the state, in bundles that are chained by their parents, or objects of their own: `loadHistory`,
--   `selectHistory` and `restoreManifests`, with one round of fuel more than the source's limit of a
--   million. The loop over bundles has as many rounds as the first generation of the newest bundle and one
--   more, since these go down along a chain (Bundles); Chain and Restore are about histories and
--   restores. Loader finds the segments that a reference names by a manifest. Its walk over the
--   chain of bundles is on fuel that is an argument, with an error at its end: the parents are named by their
--   checksums, so there is a bound, but no number in the source gives it. It fetches again what the source
--   keeps in a cache. Path is about the bundles that `findBundlePath` lists. Garbage is `collectGarbage` on the memory store, with
--   as much fuel for the writing of records as there are candidates.
-- Lease and Head/Conditional: the lease of remote.go and the head as one object that is swapped on its
--   etag. Pending is a commit whose outcome is not known; the closure that applies it is data. Commit
--   has `update`, `Renew`, `Release`, `resolvePending`, `commitState`, `renewLocked` and `commitManifest`.
--   The network may lose a request or a reply (`Fault`) or fail a read (`Net`), by an argument of each
--   call. Calls of one lease follow each other. In the source `update` gives up its mutex while it
--   resolves a pending commit and before its own, so that a heartbeat can renew the lease in between: that
--   is not modelled, and neither is the test that a pending commit was not replaced while it was resolved.
--   Release does not wait for a bundle here. Acquire has
--   `Inspect`, `Acquire` and `Break`, without the archive that `Acquire` starts in the background.
--   Writes is about one commit, Agreement and Fencing about updates, Takeover about `Acquire`.
--   Archive has the building of bundles, their archive in the background as a start and an end, and the
--   uploads of objects; Placement has `publishPrepared`, Publish has `Publish` and `PublishCheckpoint`. The source uploads
--   segments, bundle and manifest at the same time, the model one after the other. A number in a key
--   has twenty digits at most, as many as a uint64 needs. Uploads, Commits and Durable are about `publishPrepared`.
-- The Tests below each part run the definitions and apply the theorems at concrete values.
--
-- Not modelled: two calls of one lease at the same time, the order of uploads that are made at the same
-- time, the writing of decoded segments to an image, the syncer's tickers and the waiting of its callers,
-- the lazy image and its use by the device, the files of the journal besides their bytes, and the
-- append-only head's calls of the object store. The S3 client, NBD, the plugin, seeding, metrics and the
-- commands are glue to the kernel, the network and other programs.
pub mod Base
pub mod Extents
pub mod Device
pub mod Head
pub mod Journal
pub mod Remote
pub mod ObjectStore
pub mod Segment
pub mod Volume
pub mod History
pub mod Loader
pub mod Garbage
pub mod Lease
pub mod Syncer
