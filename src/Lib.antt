-- ===== src/Lib.antt =====
-- A verification library for Corgi, a storage server that keeps uploaded files in the blocks of raw
-- devices and their metadata in Pebble.
--
-- The parts and how they meet: the upload handler (internal/ec/server) collects the chunks of a file,
-- aligns them to blocks and writes them to blocks that the device's allocator (internal/fs) gives out.
-- When the upload completes, one batch (internal/database/pebble) stores the metadata of the file and
-- changes the persisted space bitmap and the counters, both by the merge operator. On an error the
-- blocks go back to the allocator.
--
--   Alloc        internal/fs/allocator_v3.go. Geometry has the constants, masks and ranges; Store the
--                state and the two summary levels (updateL1ForL0Slot, updateL2ForL1Slot); Mark
--                markRangeLocked and rangeFullyAllocatedLocked; Search nextFreeRunFromLocked and the
--                scans of l0; Summary what the summary levels say; Api NewAllocatorV3, Allocate,
--                Release, InitAllocated, InitFree and the counters; Spec is the allocator as a set of
--                free blocks, and Calls and Refines set the methods against it.
--   Space        internal/fs/block_device.go. The persisted bitmap: spaceUpdateValues and its bits,
--                setSpaceBits, the merging of results; Device has Alloc, RollbackAlloc, Release,
--                PersistAllocBatch, loadAllocator, tryInitBlockSpace and writeAtFull.
--   Moss         the merge operator of internal/database/pebble/ms_pebble.go: mossMergeValues,
--                mossBitmapMerge, mossJSONMerge and what they call, and mossValueMerger.
--   FileMeta     internal/ec/server/file_meta_codec.go.
--   WriteBatch   internal/database/pebble/WriteBatch.go. The indexed batch is a record of operations
--                (Batch), its laws a record of hypotheses (Reads.IsIndexed).
--   BatchPebble  internal/database/pebble/batch_pebble.go. Flush has the promise of one batch;
--                Processor the steps of dispatch, runProcessor, drainOnStop and stop in any order.
--                A consumer of a request has the batch and the database and may write to either. One
--                round of the processor is one step.
--   Upload       internal/ec/server/aio_upload_server_handler.go over a record of the operations of the
--                device and of the batch that stores the metadata (Device).
--   Base         shared names: Boolean tests, lists and bytes by native numbers, bits of machine words.
--
-- Conventions: a uint64 is a number below 2^64, an int64 the uint64 of the same bits (is_negative,
-- signed_lt, add64 and sub64 in Alloc.Geometry). A device has at most 2^62 blocks (IsBitmap.small), so
-- that no sum of two positions overflows. Loops are recursion on the rounds left; the two passes of
-- Allocate have as many rounds as blocks are wanted, since each round takes at least one. A method of
-- the allocator holds the mutex throughout, so it is one step on the state.
--
-- Not modelled: opening, closing and syncing the file of a device, the asynchronous channel and its
-- aligned buffers, RSocket and its payloads, the scan of devices, the registry of processors by LUN,
-- configuration, commands and generated messages. The consumer that Complete gives to the batch is the
-- operation `persist` of Device. One flush of an upload runs at a time in the model. Release sets the
-- spaces in the order in which it has staged them, where the code ranges over a map.
pub mod Base
pub mod Alloc
pub mod Moss
pub mod FileMeta
pub mod WriteBatch
pub mod BatchPebble
pub mod Upload
pub mod Space
