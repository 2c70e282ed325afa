-- ===== src/Lib.antt =====
-- A model of the adaptive allocator of my_malloc, of its tcmalloc, of the chunks, thread caches, bins
-- and merging of its ptmalloc, and of the size classes, thread caches and extents of its jemalloc, with
-- their correctness proofs.
--
-- The adaptive allocator has four layers. The facade (src/adaptive_allocator.cpp) takes a plan from the
-- policy of the mode in force (src/adaptive_modes.cpp), turns it into a request, and passes it to the memory
-- services (src/adaptive_services.cpp), which keep size-class pages, spans, direct mappings, thread
-- caches and queues of remote frees. The telemetry (src/adaptive_telemetry.cpp) counts what happens; at
-- the end of a window the selector (src/adaptive_selector.cpp) turns the counters into features, chooses
-- a mode by rules or by a learned model (src/adaptive_model_selector.cpp), and makes the runtime
-- (src/adaptive_runtime.cpp) switch to it. Blocks of the modes before stay valid.
--
-- Files, under Adaptive/:
--   Types            include/my_ptmalloc/adaptive_types.h, adaptive_services.h, adaptive_mode.h
--   Modes            src/adaptive_modes.cpp
--   Runtime          src/adaptive_runtime.cpp; Environment: the parsing of the environment
--   Doubles          `double` as a record of operations and laws of its comparison
--   ModelTable       include/my_ptmalloc/generated_selector_model.h
--   ModelSelector    src/adaptive_model_selector.cpp
--   Telemetry        src/adaptive_telemetry.cpp; Window: the features of a window
--   Selector         src/adaptive_selector.cpp
--   Allocator        src/adaptive_allocator.cpp
--   Services         src/adaptive_services.cpp: Sizes (size classes), PageTable (g_page_table), State
--                    (the globals and the memory), Headers (lookup and debug guards), Caches (thread
--                    caches, remote queues, extent cache), Pages (pool pages), Allocate and Release
-- Prelude holds what the files share: Boolean tests, lists over the native numbers, and 64-bit words.
--
-- The tcmalloc has three layers. The calls (classic/tcmalloc/tcmalloc.cpp) serve small sizes from the
-- cache of the thread (thread_cache.cpp), which takes batches of objects from the central list of the
-- size class (central_freelist.cpp); the spans that these are cut from, and large blocks, come from the page
-- heap (page_heap.cpp), and the page map (page_map.cpp) leads from an address to its span.
-- Files, under Classic/Tcmalloc/:
--   SizeClasses      size_classes.h: the table and the binary search in it
--   PageMap          page_map.h, page_map.cpp
--   Span             span.h, and build_freelist of page_heap.cpp
--   PageHeap         page_heap.h, page_heap.cpp
--   Central          central_freelist.h, central_freelist.cpp
--   ThreadCache      thread_cache.h, thread_cache.cpp
--   Api              tcmalloc.cpp: the state of all layers, tc_free and tc_usable_size; Api.Malloc: the
--                    calls that hand out blocks; Api.OneCache: calls of all threads as a step relation
-- Under Classic/Ptmalloc/, Chunk models classic/ptmalloc/chunk.h with config.h: header words with boundary
-- tags, sizes and bin numbers; Tcache models classic/ptmalloc/tcache.cpp with the part of pt_free
-- (ptmalloc.cpp) that uses it; Links and Bins model bins.h and bins.cpp (Links: the circular lists of chunks;
-- Bins.LargeIndex: the table of sizes; Bins.Split: alloc and alloc_split; Bins.Search: the walks over all
-- bins); and Coalesce models coalesce.cpp with the arena (arena.h, arena.cpp) and SysMemory::trim
-- (sys_memory.cpp). The links of free chunks are words in two maps from addresses, and a bin stands at the
-- address that as_chunk gives it, so that lists are what the words say; Links.Ring says when they are one.
-- Under Classic/Jemalloc/, SizeClasses models classic/jemalloc/size_classes.h (six rounds of the binary search
-- for its 36 entries), Tcache the alloc, free and gc of je_tcache_t in classic/jemalloc/jemalloc.cpp, and Extents
-- its extents and the table of their pages (rtree.h, extent.h).
-- A Span object is a number, 0 is the null pointer, `new` counts up, and a deleted object is marked. The
-- links of the free objects of a span or a cache are the list of their addresses.
--
-- The child modules named for a property (Switching, Balance, Cooldown, Layout, ...) hold its proof.
--
-- A function of the source is a function of the same name; one that changes globals takes the record of
-- the state and returns it. Helpers of the model are named for the part of the body that they are.
-- Numbers are natural numbers with the wrap-around written out; subtractions that cannot go below zero
-- in the source are those of the natural numbers. An enumeration over uint8_t has a constructor for the
-- bytes that it does not name. Memory is typed: headers, page records and user bytes are maps from
-- addresses, and a chain through the links of the headers is the list of its addresses, the bins of the
-- ptmalloc apart.
--
-- Loops are recursion on the list, on the count, or on the rounds that the source allows: 16 probes of
-- the page table, 256 buckets, 64 drained blocks, empty pages less those to keep. Three loops count rounds
-- that the source does not have: the binary search of the size classes (seven for 86 entries, six for 36),
-- remove_range (one for each Span object and one more; the theorem on it has a list no longer than these),
-- and the walk of release_to_os along a list (one for each Span object). Where the rounds of the last two run
-- out the result is `none`. A walk along a bin of the ptmalloc has fuel, and the theorems ask for more than
-- the bin has chunks. The loop over the pages of a run of the jemalloc has 31 rounds at most, as it ends at
-- 32 pages.
--
-- The model keeps the runtime and the counters in the record of the services, and the selector works on
-- them from there (Allocator.maybe_switch).
--
-- Parameters: `mmap`, which answers with a base for a size and the mappings in force, `getenv`, `double`,
-- and whether aligned_alloc gives a thread the memory of its cache. The theorems on the page heap ask for
-- mappings below 2^47 that share no byte with those in force and start at a multiple of 8 KiB, as mmap gives
-- them where the system's pages have 8 KiB or a multiple of it.
--
-- Not modelled: the mutexes and what runs between them, since each function, or each call of the tcmalloc,
-- is one step with the calling thread as an argument; the writes of links into free memory of the other
-- allocators; pt_malloc, the choice of an arena and the heaps of the ptmalloc; the runs and the calls of the
-- jemalloc; the mimalloc; and the C hooks, the strategy loader and the tools.
pub mod Prelude
pub mod Adaptive
pub mod Classic
