-- ===== src/Lib.antt =====
-- Verification of the virtual memory simulator: models of its parts in C and the theorems that make
-- them correct.
--
-- The simulator translates the addresses of several processes. A translation looks in the TLB, then
-- walks a four-level page table; a missing page is loaded into a frame of the physical memory, if need
-- be in place of a victim that a replacement policy chooses, whose page goes to the swap file. A fork
-- shares pages copy-on-write. The parts are separate objects with their own operations, and the
-- virtual memory of src/virtual_memory.c calls them. These are modelled:
--
-- Address: src/address.c, the page number, the offset and the indices of the walk.
-- Process: src/process.c, the process record and the getters of its pid and of its page table.
--   Process/Lifecycle has `process_create`, `process_fork` and `process_destroy` over the store of page
--   tables, Process/Inheritance what a child sees and that parent and child write apart.
-- PageTable: src/page_table.c, `page_table_f` is `f`. PageTable/Objects has the nodes, the entries and
--   the roots in memory and the functions on one object; PageTable itself has the operations on a table,
--   PageTable/Unmap `page_table_unmap`, and PageTable/Queries the functions that only read.
--   PageTable/References counts the pointers to an object, PageTable/Valid says that the reference
--   counts are these numbers, PageTable/Fresh, Retain, Clone, Copies and Roots keep it for new objects,
--   counts, copies of nodes and roots. PageTable/Reach is what a walk meets, and PageTable/Lookup that
--   `page_table_lookup` is this walk, with PageTable/Levels on the number of levels. PageTable/Advanced
--   is what stays when a shared node is replaced by a copy, PageTable/Child and PageTable/Root the two
--   places where that is done, PageTable/Descent the loop of `page_table_map`, PageTable/Leaf its end,
--   PageTable/Mapping and PageTable/Isolation what the whole call changes. PageTable/Sharing is the copy
--   of a table for a fork, PageTable/Empty a new table.
-- PhysicalMemory: src/physical_memory.c, `physical_memory_f` is `f`; PhysicalMemory/Valid has the
--   invariant of the frame table, PhysicalMemory/Bytes what reads give after writes, and
--   PhysicalMemory/Run new memories and sequences of calls.
-- Tlb: src/tlb.c, `tlb_f` is `f`; Tlb/View is what a cache answers as a function of the key, Tlb/Valid
--   the invariant, Tlb/Insert, Tlb/Invalidate and Tlb/Run the calls.
-- Replacement: src/replacement/replacement.c, `replacement_policy_f` is `f`. Replacement/Contract has
--   the table of operations of src/replacement/replacement_internal.h and the laws that a policy keeps.
--   Replacement/Fifo, Lru, Clock and Aging are src/replacement/fifo.c, lru.c, clock.c and aging.c, each
--   with its theorems in the modules below it, and each fills in the laws. Replacement/Dispatch has the
--   laws for the calls through the table, Replacement/Cycle what a client does with them, and
--   Replacement/Create new policies.
-- Cow: src/cow.c, `cow_manager_f` is `f`; Cow/Mappings is about the list of one frame, Cow/Set about the
--   manager as a set of triples, Cow/Collect about the copy for the caller.
-- Swap: src/swap.c, `swap_f` is `f`; Swap/File has the functions of the C library on a file and the laws
--   that are relied on, Swap/Table the invariant of the slots, Swap/Pages writing pages, Swap/Reads
--   reading them, and Swap/Removal new swaps and the removal of a page.
-- Trace: src/trace.c, `trace_reader_next` is `next`, and `trace_f` is `f`; Trace/Reading is about the end
--   of the replay. Trace/Meaning says which entries the lines stand for, and Trace/Entries is about the
--   reader against it; Trace/Bytes is a walk over the bytes of an entry, and Trace/Replay is about the
--   replay of an entry against it.
-- TraceGenerator: src/trace_generator.c, `trace_generator_f` and `trace_f` are `f`; TraceGenerator/Lines
--   is about the lines that are printed, TraceGenerator/Success about when they are.
-- Base: numbers, words, arrays as functions, the counted loops and scans that the parts share.
-- Tests: the theorems at concrete objects.
--
-- Conventions. An array is a function from indices, whose length the owner of the array keeps as it
-- does in C. The tests of a handle (memory, cache, policy, manager) or of an out-parameter against NULL
-- are not represented: an operation takes the object itself and returns the new one beside the return
-- value. A `Process *` is an optional address, and NULL is `none`. The return codes 0, -1 and -2 are the
-- data types Status and Allocation, or an option where success comes with a value. `granted k` is a
-- parameter of a call and says whether its k-th request for memory is met. Counters of type size_t and
-- uint64_t wrap (inc64, dec64, sub64), a cast to uint32_t is to_u32, and an int is only compared.
--
-- The page tables share nodes and entries, so these are in a store, by address: an address that was
-- given out is not given out again, and an object that was freed is left empty at its address. The
-- pointers of a leaf node lead to entries, those of the other nodes to nodes; which is meant is the
-- node's level, as in the code. A function that returns -1 or a pointer returns an option where the
-- callers need the pointer. An operation that frees nodes recursively runs on fuel for the four levels.
--
-- The file of the swap is a type of its own with fseek, fread, fwrite, fputc and fflush as parameters; the
-- laws say where bytes go and which ones stay, and nothing about whether a call succeeds. They take a
-- fseek or a fflush that fails to leave the bytes of the stream as they are, which the C library does
-- not promise of bytes that were still to be written.
--
-- Bounds and fuel. The counts of references of the page tables are size_t and wrap; the theorems
-- assume that the places of all nodes, with the ones a call may add, are fewer than SIZE_MAX. A walk
-- has four levels, so the loops over them run a fixed number of rounds, and four calls deep is enough
-- for the recursion of `page_table_node_release`. The loop over the pages of a trace entry runs at
-- most once a page, and the replay of a trace at most two times a line. A frame table has at most
-- UINT32_MAX frames, since frame numbers are uint32_t and the greatest one stands for no frame. The
-- clocks of the TLB and of LRU are assumed below UINT64_MAX before a tick. The endless loop of
-- `clock_choose_victim` runs on fuel for two turns of the hand, which is enough when a frame is
-- loaded; the code does not enter it otherwise.
--
-- Not modelled: virtual memory, which is a parameter of the replay of traces and of which nothing is
-- assumed there; the arguments of the
-- trace generator; the command line, printing and CSV files; destructors, but for those of page tables
-- and processes.
pub mod Base
pub mod Address
pub mod Process
pub mod PageTable
pub mod PhysicalMemory
pub mod Tlb
pub mod Replacement
pub mod Cow
pub mod Swap
pub mod Trace
pub mod TraceGenerator
pub mod Tests
