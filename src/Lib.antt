-- ===== src/Lib.antt =====
-- The verification of the course programs of this repository: the tiny shell (Lab4), the proxy's
-- requests and object cache (Lab6), the allocator and the memory driver (Lab5), the bit puzzles (Lab1),
-- and the cache simulator, the matrix
-- transpose and the tag queue (Lab3).
--
-- Jobs models the job list of Lab4/tsh_helper.c (`job_list`, `nextjid`): a table of 64 entries, with
-- one function for each of `add_job`, `delete_job`, `job_set_state` and the others. An abort or an
-- exit of the process is a value of `Outcome`. Jobs.Valid has the invariant, Jobs.Search the loops
-- that look for a job, Jobs.Add and Jobs.Change the changes on a valid list, and Jobs.Keeps the
-- invariant over every call.
--
-- Parse models `parseline` of Lab4/tsh_helper.c on lists of bytes; a round of its loop is
-- `scan_round`. The fuel is one more than the length of the line, and every round shortens what is
-- left (Parse.Total). Parse.Show writes command lines, and Parse.Roundtrip reads them back.
--
-- Handlers and Shell model Lab4/tsh.c: the signal handlers as steps on a shell state, `eval` in the
-- parent, and the set-up of the child (Shell.Child). They call Parse and Jobs. The kernel is the record
-- `Kernel`; the signals that end a `sigsuspend` are a list, each with the events that `waitpid` then reports,
-- so that every order of arrival is a list. Signals are blocked while `eval` runs, and come in only
-- at `sigsuspend`. Shell.Reap, Shell.Steps and Shell.Batch are about the batches that `sigchld_handler` reaps,
-- Shell.Ends about the wait for the foreground job. `main`, `Fork`'s system call and `cleanup` are left out.
--
-- ProxyCache models the queue of Lab6/proxy.c (`cacheAdd`, `cacheFind`, `evict`, `replace_tail`) on
-- explicit memory cells, as one thread runs it under the lock. A NULL or freed pointer that is read is
-- a fault. The fuel of a walk is more than the number of objects. ProxyCache.Queue has the invariant,
-- and the other children an operation each.
--
-- ProxyRequest models `proxy`, `sendRequest`, `forward` and `clienterror` of Lab6/proxy.c around that cache.
-- What is read from a socket is a list of lines or chunks, with what happens to each write; what is written
-- is a list of texts. The parser is a record of two functions (http_parser.h). Buffers are long enough: a
-- URI is part of a line of at most 8191 bytes. ProxyRequest.Path, .Headers and .Forward have the parts, and
-- ProxyRequest.Serve two requests one after the other. `main` and the threads are left out.
--
-- Malloc models Lab5/mm.c on a memory with a word at every address: words and block headers in Malloc,
-- the segregated free lists in Malloc.Lists, coalescing, extending and splitting in Malloc.Blocks,
-- and `malloc`, `free`, `realloc` and `calloc` in Malloc.Calls. The fuel bounds the walks along a free
-- list; for the walk of `find_fit`, more than the length of the list is enough. `memcpy` and `memset`
-- move bytes and are parameters. `mm_checkheap` is left out. Malloc.Words and Malloc.Requests are about
-- sizes; Malloc.Chains, Malloc.Unlink and Malloc.Pop about the lists of the size classes.
--
-- NaiveMalloc models Lab5/mm-naive.c with the dense heap of Lab5/memlib.c, the bytes of the heap included; whether
-- the system gives the memory is a parameter. NaiveMalloc.Fresh has a payload, NaiveMalloc.Driven makes it an
-- allocator for Driver, and NaiveMalloc.Rounds, NaiveMalloc.Kept and
-- NaiveMalloc.Runs follow `eval_mm_valid` with it, NaiveMalloc.Peaks `eval_mm_util`.
--
-- SplayTree models Lab5/stree.c: a node is a value, and where the source follows parent pointers the model
-- has the path from the root. SplayTree.Entries lists what a tree holds, SplayTree.Order and
-- SplayTree.Sorted are about lists of entries, SplayTree.Search about the searches; SplayTree.Insert,
-- SplayTree.Lookup, SplayTree.Remove and SplayTree.Release have the operations. The loops go down the
-- tree or up the path, so that no fuel is needed.
--
-- RangeSet models the ranges of payloads in Lab5/mdriver.c (`add_range`, `remove_range`): a SplayTree
-- that leads to the ranges, and their linked list in memory. RangeSet.Chain has the list,
-- RangeSet.Clear the payloads that overlap nothing, RangeSet.Add, RangeSet.Checked and RangeSet.Remove the
-- operations, and RangeSet.Ends the ends of the ranges.
--
-- Driver models the evaluation of an allocator on a trace in Lab5/mdriver.c: `eval_mm_util` in Driver, with
-- its high-water mark in Driver.Peak, the random data of the payloads in Driver.Fill, and `eval_mm_valid` in
-- Driver.Valid, which uses RangeSet; Driver.Accepts has its rounds. The allocator and the payload bytes
-- are records of functions, and each operation comes with the memory for its range and its random number.
-- The fuel bounds the walk of `DBG_EXPENSIVE` along the ranges, for which more than their number is enough.
-- A speed is not measured, and traces are not read.
--
-- CacheSim models Lab3/csim.c: `initCache`, `load` and the loops of `main`. CacheSim.Lru compares it
-- with a least-recently-used list, CacheSim.Runs does so for whole traces, CacheSim.Stuck has sets of
-- more lines, and CacheSim.Count the counters. A shift of an `int` by too much is `none`. Reading the trace file and the options is left out.
--
-- Transpose models Lab3/trans.c: matrices are functions, and a loop is `for_from`. Transpose.Regions
-- tells which entries a nest of loops writes, and Transpose.Correct compares with the transpose.
--
-- TagQueue models Lab3/queue.c on memory cells: TagQueue.Fifo has `enq` and `deq`, TagQueue.Free has
-- `queue_free`. `queue_print` is left out.
--
-- BitPuzzles models the integer puzzles of Lab1/bits.c but `howManyBits`, on 64-bit words, with the references
-- of Lab1/tests.c; BitPuzzles.Signs compares them. The float puzzles are stubs and are left out.
--
-- Prelude has what the modules share, and Tests runs the models on concrete inputs.
pub mod Prelude
pub mod Jobs
pub mod Parse
pub mod Handlers
pub mod Shell
pub mod ProxyCache
pub mod ProxyRequest
pub mod CacheSim
pub mod Malloc
pub mod NaiveMalloc
pub mod Transpose
pub mod BitPuzzles
pub mod TagQueue
pub mod SplayTree
pub mod RangeSet
pub mod Driver
pub mod Tests
