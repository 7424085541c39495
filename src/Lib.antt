-- ===== src/Lib.antt =====
-- SyncdSim: a simulator of directory-based cache coherence, with the protocols MSI and MESI, in
-- backend/Simulator of the repository; and the library of task graphs, common/taskLib, with
-- the parts of middle/ that make tasks of a trace wait for each other and that write the files.
--
-- The program reads a task graph and runs its tasks on a number of contexts. A context has a
-- processor, a cache, a directory for the lines whose home it is, and a protocol handler. In each
-- cycle every context serves its cache's messages, then its incoming messages, then runs its
-- processor until a memory operation has to wait. Contexts send each other messages with a latency.
-- The simulator counts the unfinished predecessors of tasks and hands a task to its context when the
-- last one completes.
--
-- A task graph is a file: a version, the position of an index, what is known of basic blocks, the
-- records of the tasks, each compressed by zlib, and the index, a number and a position for each
-- task. The middle layer writes the records as the tasks end, and then sorts the index so that no
-- task comes before its predecessors; the library opens the file and reads tasks by number or in
-- the order of the index.
--
-- The files, and the code that they are about:
--   Base       numbers, tests, lists, maps, bits, and the monad of code that mutates state and may
--              stop (`Exec`), with the rules by which an invariant is carried through it
--   Types      backend/Simulator/message.hpp and common.hpp
--   Cache      cache.hpp and cache.cpp: getLine is `get_line`, readLine `read_line`, updateLine
--              `update_line`, and so on. Geometry, Search, Writes, Rows, Lookup, Eviction and Copies
--              are about these
--   Directory  directory.hpp and directory.cpp: updateEntry is `update_entry`, lookUpEntry
--              `look_up_entry`. Masks, Entries and Updates are about these
--   Context    context.hpp and context.cpp: the state of a context, and the world of all contexts
--   Handler    the methods that MSIHandler.cpp and MESIHandler.cpp have in common; the cases of
--              handleMessage that they share stand in Handler/Cases
--   Msi, Mesi  MSIHandler.cpp and MESIHandler.cpp: handleMemOpRequest, handleMessage (`handle`, whose
--              switch is `switch`), one function for each case
--   Node       Cache::run, Processor (processor.cpp) and Context::run
--   Simulator  simulator.cpp: the constructor, the counts of predecessors, and the loop of run.
--              Assigned is about the accesses to `contexts` by which tasks are assigned
--   Safety     the invariant of the world, carried through every handler to the whole run
--   Protocol   what a home node answers to a miss, and what evictions do, as messages sent and
--              directory left
--   Fuel       the bounds on rounds
--   TaskLib    common/taskLib: Ids and Actions (TaskId.hpp, Action.hpp, Action.cpp), Record, Remove and
--              Views (Task.hpp, Task.cpp), Codec (readContechTaskUnlock, writeContechTask, and
--              ct_file.c), Info (TaskGraphInfo.cpp), Graph (TaskGraph.cpp). RoundTrip, Built, Blocks,
--              InfoTrip and EndOfFile are about these
--   Middle     Writer: backgroundTaskWriter of middle/taskWrite.cpp, and the start of the file that
--              middle/middle.cpp writes. Places, Sorted, Stored, Indexed, Layout and Reopened are about
--              what is found in the file, Edges, Order and Follows about the order of the index,
--              Distinct, Running and Complete about every task being in it, Ends about the loop.
--              Barrier: middle/BarrierWrapper.cpp. Barrier/Search, Calls and Entered are about onEnter,
--              Inside, Changes, Meanwhile and Leaves about a context between onEnter and onExit.
--              Contexts: middle/Context.cpp, with Joins about it
--   Examples   the concrete inputs
--
-- State is passed explicitly: a program on the world is a function from a world to a result and a
-- world, or to a fault. A fault is a failed assert, a call of exit, an access out of bounds, or the
-- model's own lack of fuel. Handlers call checkBlockedQueueAtAddress and are called by it; the
-- handler takes that method as an argument, and the method's loop has fuel: one more than the length
-- of the queue, since every round but the last takes a message off. Processor::run has two rounds
-- more than there are tasks in the queue: every other round takes a task. The loop over incoming
-- messages and the loop over cycles take their bounds as arguments. The loop of ct_read has a round
-- more than there are bytes to read, and one: every round but the last reads a byte. The loop over
-- the index has a round more than the map has entries: every round but the last takes one out.
--
-- The simulator takes the task graph as the record `TaskGraph` of Types, of which it reads the
-- fields; every function of them is allowed. The memory that malloc returns is a parameter of the
-- constructor. `int` counters and message latencies do not wrap; unsigned counts of tasks do. In
-- TaskLib and Middle a file is a list of bytes, of which a read takes what is left, and zlib is a
-- pair of functions, the parameter `Zlib`; `Restores` says that uncompressing gives back what was
-- compressed. A compressed record is cut off at the end of the buffer for it, as compress leaves
-- it, and a read of one that uncompress does not accept counts as an access of stray memory. The
-- counter of the tasks in the index has 32 bits, in the writer where it wraps before it is
-- compared, and in the reader where the model stops with `out_of_fuel` when it would wrap. The
-- bits of an action that are never set are the parameter `junk`. Which of several oldest tasks a
-- priority queue gives is left open by its library; here it is the one that came first.
--
-- Not modelled: printing, the command line, the destructors, counters that are never read, locks and
-- signals between the threads of middle/; the reading of events there (eventQ.cpp, middle.cpp) and
-- the event library, whose states are those of a traced run; the passes and tools of llvm/,
-- llvm-contech/ and pin/, which work inside other programs; and the other backends.
mod Base
pub mod TaskLib
pub mod Middle
pub mod Types
pub mod Cache
pub mod Directory
pub mod Context
pub mod Handler
pub mod Msi
pub mod Mesi
pub mod Node
pub mod Simulator
pub mod Safety
pub mod Protocol
pub mod Fuel
pub mod Examples
