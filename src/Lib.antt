-- ===== src/Lib.antt =====
-- The run-time system of Standard ML of New Jersey (runtime/): the core that its collector, its
-- signal handling and its literal interpreter stand on, on a 64-bit little-endian machine.
--
-- Values are words. runtime/include/tags.h and ml-values.h say what a word means, ml-objects.h
-- allocates objects from the allocation pointer of the ML state, and the page map of
-- runtime/include/bibop.h gives each page an identifier made by runtime/gc/arena-id.h.
-- runtime/gc/addr-hash.c is the table that the collector uses for addresses, and
-- runtime/gc/c-globals-tbl.c names the C symbols that heap values refer to.
-- runtime/mach-dep/signal-util.c records signals and builds the continuations that resume ML code.
-- runtime/gc/build-literals-v3.c runs the compiler's bytecode for a module's literals; it
-- allocates through ml-objects.h and calls the collector when the allocation area is full.
-- The heap has generations of five arenas each. A collection calls Flip of runtime/gc/flip.c, which
-- turns the to-spaces of some generations into from-spaces and gives them new ones: NewGeneration
-- divides a memory object of runtime/memory among the arenas and marks its pages, and
-- NewDirtyVector makes the card map of the array arena. FreeGeneration gives the from-space back.
-- Code objects live in regions of their own, which runtime/gc/big-objects.c divides into pages: it
-- keeps a map from pages to descriptors for each region and one doubly linked list of the free ones.
--
-- Files and code:
--   Prelude     shared names, tests on numbers, lists and the bit operations' laws
--   Tags        tags.h and ml-values.h: MAKE_DESC is make_desc, INT_CtoML is int_to_ml, and so on
--   ArenaId     arena-id.h: MAKE_AID is make_aid
--   AddrTbl     addr-hash.c: MakeAddrTbl is make_addr_tbl, AddrTblInsert is addr_tbl_insert
--   Signals     signal-util.c: GCSignal is gc_signal, ChooseSignal is choose_signal
--   MlState     ml-state.h, ml-objects.h, and MakeResumeCont, MakeHandlerArg, LoadResumeState
--   Bibop       bibop.h, InitBibop of init-gc.c and MarkRegion of gc-util.c
--   Literals    build-literals-v3.c: the state and the pushes in Literals and Literals.Push, the
--               opcodes and the loop in Literals.Step, BuildLiterals in Literals.Build
--   CGlobals    c-globals-tbl.c: RecordCSymbol is record_c_symbol, ImportCSymbol import_c_symbol
--               CGlobals.Export: ExportCSymbol is export_c_symbol, AddrOfCSymbol addr_of_c_symbol
--   Sizes       ROUNDUP and RND_MEMOBJ_SZB of ml-base.h
--   Memory      runtime/memory/mem-mmap.c and mem-common.ins: MEM_AllocMemObj is alloc_mem_obj
--   CardMap     runtime/gc/card-map.h: MARK_CARD is mark_card, FOR_DIRTY_CARD dirty_cards
--   Heap        runtime/gc/heap.h: struct arena is Arena, struct generation is Gen
--   Generation  NewGeneration, FreeGeneration and NewDirtyVector of gc-util.c: new_generation,
--               free_generation in Generation.Release, new_dirty_vector in Generation.Dirty
--   Flip        runtime/gc/flip.c: Flip is flip, its loop over the arenas is flip_arenas
--   BigObjects  runtime/gc/big-objects.c and the big objects of heap.h: BO_AllocRegion is
--               bo_alloc_region, BO_Alloc bo_alloc in BigObjects.Alloc, BO_Free bo_free in
--               BigObjects.Free, BO_GetDesc bo_get_desc in BigObjects.Lookup
--   Weak        ScanWeakPtrs of gc-util.c: its loop is scan_weak, its switch look
--   RecordOps   runtime/gc/record-ops.c: RecordConcat is record_concat, GetLen get_rec_len
--   Examples    the theorems at concrete inputs
--
-- Memory is a function from byte addresses to words, and pointers are numbers. Arithmetic on words
-- keeps its wrap-around. Tables of items are lists in the order of the C chains, the interpreter's
-- stack is a list with its top first.
--
-- Failures: in the symbol tables, AddrTblInsert, NewDirtyVector and BO_Alloc, an int that does not
-- fit and a read or write through a null pointer are outcomes of their own (overflow, too_big,
-- null_read, null_write), where the source has them. An argument tells which allocations of one call
-- succeed. MakeAddrTbl, NewExportTbl and MarkRegion are modelled where malloc gives their blocks, and
-- BO_Alloc for requests whose sizes fit.
--
-- Fuel: MakeAddrTbl's loop has 32 rounds, as many as an unsigned int has doublings from 16 and
-- more. ChooseSignal's loop needs as many rounds as the signal map has signals. The interpreter's
-- loop has one unit for each instruction; an instruction has at least one byte. ScanWeakPtrs has one
-- unit for each weak pointer of its list, BO_Alloc's search one for each free object and one more.
--
-- Parameters: mmap, munmap and malloc (what the manual says of mmap is the hypothesis GivesFresh),
-- the numbers of the generated system-signals.h, the collector that the interpreter calls, the
-- widening of a float, the interpreters of the older literal formats, and what freshly allocated
-- memory holds.
--
-- Not modelled: the copying collector itself, heap images, the operating system's
-- side (C libraries, boot) and the assembly stubs. The debug printer of the interpreter and the
-- statistics counters are left out.
pub mod Prelude
pub mod Tags
pub mod ArenaId
pub mod AddrTbl
pub mod Signals
pub mod Sizes
pub mod Memory
pub mod CardMap
pub mod Heap
pub mod MlState
pub mod Bibop
pub mod BigObjects
pub mod Generation
pub mod Flip
pub mod Weak
pub mod Literals
pub mod Examples
pub mod CGlobals
pub mod RecordOps
