-- ===== src/Lib.antt =====
-- HyperEnclave's measurement programs (server/exception and server/edge-calls): what their
-- enclaves do on exceptions, page faults and calls across the enclave's edge, and what their
-- applications report.
--
-- The parts and their files. Paths are from the root of the repository.
-- * The P-Enclave, an enclave that runs in ring 0 of a guest and handles its own exceptions,
--   server/exception/exception_p_enclave/Enclave.
--   - Paging.antt, paging.h: the state `Mmu` is physical memory as the window shows it, the
--     cached root and the flushed addresses; `get_entry`, `mprotect_page` and `mprotect` are the
--     functions of these names. Paging/ has their arithmetic (Index, Entry, Round), the walk
--     (Walk, Agree), the end of the window (Window), `mprotect` (Protect and its children:
--     Protect/Again calls it twice, Protect/Wrap at the end of the address space, Protect/View
--     reads it through the map from addresses to entries), and the dump of the tables (Dump), with
--     its addresses (Dump/Address) and its lines against `get_entry` (Dump/Lines, Dump/Inverse,
--     Dump/Complete).
--   - Signal.antt, signal.h: the interrupt table, its registration and the registered handler;
--     `set_gate`, `lidt`, `init_exception`, `register_handler`, `common_exception_handler`.
--   - Machine.antt and Entry.antt, exception.S: a small machine with registers, `rsp` and the
--     words on the stack, and the stubs and the common entry as its instructions; `enter` runs
--     them for a vector. Entry/ has the frame (Context), the stages of the run (Stages) and the
--     whole run (Frame).
--   - PEnclave.antt and PEnclave/Ecall.antt, Enclave.cpp: `exception_handler` and
--     `ecall_exception`. An exception goes the way that the processor and the code send it:
--     `deliver` runs the entry code, which calls `common_exception_handler`, which calls the
--     handler, which calls `mprotect`. PEnclave/Trace.antt has the loops of the benchmark as steps
--     in any order, with interrupts between them. Trace/InSteps.antt takes a run of
--     `ecall_exception` apart into these steps, Trace/Runs.antt has the runs to which interrupts
--     come anywhere in the loops, and Trace/Interrupted.antt and Trace/Whole.antt are about these.
--     Trace/Progress.antt and Trace/Finishes.antt are about any order of steps. PEnclave/Resumes.antt
--     is about the context in which any exception goes on, PEnclave/Stack.antt about the place of
--     its frame on the interrupted stack.
-- * The GU-Enclave, server/exception/exception_gu_enclave/Enclave, and the SGX enclave,
--   server/exception/exception_sgx/Enclave: Gu.antt and SgxEnclave.antt. The SDK delivers their
--   exceptions. Gu/ has the loops (Gu/Loops), the run that succeeds (Gu/Counts) and the one that
--   is refused (Gu/Refused). Counter.antt is about the readings of the clock in the enclaves.
-- * The application of the exception benchmark,
--   server/exception/exception_gu_enclave/App/App.cpp: App.antt, with the file name of App.h and
--   the error table of Sgx.antt. It creates an enclave, makes the ecall and destroys the enclave.
--   The applications of the other two are the same text, but for `ocall_rdtscp` of the SGX one:
--   App/PEnclaveApp.antt and App/SgxApp.antt. Sgx/Table.antt and EdgeApp/Errors.antt are about the
--   messages of the table's entries. Program.antt and its children join the application with each
--   of the three enclaves.
-- * The edge-call benchmark, server/edge-calls: Timing.antt (Include/common.h), Bench.antt
--   (Include/bench.h), EdgeEnclave.antt (Enclave/Enclave.cpp), EdgeApp.antt (App/App.cpp and
--   Native/main.cpp). The application times calls by `batched_bench`, here or in the enclave, and
--   writes statistics. EdgeApp/Run.antt and EdgeApp/Refused.antt join it with the enclave;
--   Bench/Measured.antt, EdgeApp/Measures.antt, EdgeApp/Native.antt and EdgeApp/Measured.antt are
--   about what the benchmarks measure; Bench/Extremes.antt, Bench/Reordered.antt and
--   Bench/Cells.antt are about the statistics, Timing/Clock.antt and EdgeApp/Clock.antt about the
--   cycles that the timed calls return.
-- * The test that says whether the system runs under the hypervisor, host/test_hypercall.c:
--   Host.antt.
-- * Base.antt, Outcome.antt: shared names, machine words and bits, and the results of calls.
--   Examples.antt and its children: concrete page tables, contexts and worlds.
--
-- Numbers are natural numbers with the wrap-around of their width written out. `int` counters wrap
-- at 2^32 here; C leaves their overflow undefined. A negative `int` is its 32-bit pattern.
--
-- Bounds and fuel. A run of the entry code has fuel for 37 instructions, three of a stub and 34 of
-- the common entry. The loop of `mprotect` has fuel for `len / 4096 + 1` tests of its condition. A
-- store in the P-Enclave's loops is tried a given number of times; two are enough where one fault
-- makes its page writable. The other loops are bounded by their counters.
--
-- The processor's own behaviour, where the code depends on it, is written down from its manuals: the
-- four-level walk (`hw_walk`; it calls an entry with bit 7 large on every level, also on the top
-- one, where the manuals reserve that bit), the vectors with an error code (`has_error_code`), and
-- the words that it pushes (`interrupted`).
--
-- Parameters, for code that is not in the repository: the processor (which stores fault, the
-- registers that a call leaves, `rdtscp`), the linker's addresses, the SGX SDK (status codes,
-- bridges, registration and delivery of exceptions), the hypervisor's hypercalls, the C library
-- (`gettimeofday`, `atoi`, `qsort`, `snprintf`, `fopen`, `chdir`) and `double`. What `printf`
-- prints is kept as its format and its arguments. The static arrays of the edge-call benchmark are
-- taken to hold zeros before each call. What the theorems suppose of these is named: `Obeys`
-- (which stores fault), the bridges `PBridge`, `GuBridge`, `SgxBridge` and `EdgeBridge` (they hand
-- on what the enclave returns and prints), `IsQsort` (the result is sorted and holds the same
-- cells), `Opens` (the files of the samples open; where one does not, the program crashes, which is
-- `crashed` of Timing.antt), `IsCounter`, `IsClock` and `IsEdgeClock` (nothing turns the counter of `rdtscp` back).
-- SIGILL and SIGSEGV have their numbers of Linux. The faults of the GU-Enclave's stores, to pages
-- that it has made read-only, are taken to be handled by the monitor and not to reach the enclave.
--
-- Not modelled: the bridges that the SDK generates; concurrency, as the programs have one thread;
-- scripts, plots, patches and configurations.
pub mod Base
pub mod Outcome
pub mod Sgx
pub mod Counter
pub mod Paging
pub mod Signal
pub mod Machine
pub mod Entry
pub mod PEnclave
pub mod Gu
pub mod SgxEnclave
pub mod App
pub mod Timing
pub mod Bench
pub mod EdgeEnclave
pub mod EdgeApp
pub mod Program
pub mod Host
pub mod Examples
