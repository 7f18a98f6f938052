-- ===== src/Lib.antt =====
-- The verification library of cs-lab's C programs: the small database of mini-db and the process
-- and network labs of linux-process-lab.
--
-- mini-db is a stack of layers, each in a directory of its own. A page of 4096 bytes holds records
-- of varying length under slot ids that stay the same while the records move. A heap file is a file
-- of such pages; a record has the id (page, slot). Two earlier programs read and write plain pages.
--
-- - Base and its children: the shared names, Boolean tests and lists measured by native numbers.
-- - Memory: what a pointer points to, as bytes at offsets, with `uint16_t` fields and the functions
--   of string.h. A byte behind an object has an offset too, so that an access out of bounds shows.
-- - Page: the slotted page of mini-db/04-heap-file/page.c, lines 1 to 146, which
--   mini-db/03-slotted-page/page.c repeats. A page is the memory at its start; `page_insert`,
--   `page_get`, `page_delete` and `page_compact` take it and return it. Where the code checks a
--   pointer for NULL, the function named as in the code takes an Option, and one without the check
--   stands above it (insert_record, get_record, ...). The casts to `uint16_t` and the unsigned
--   subtraction are written out.
-- - Posix: open files as POSIX.1 describes them, with a script of the outcomes of the next calls:
--   complete, short or failed. It stands for no code of the repository.
-- - PageFile: page_read, page_write and page_allocate of mini-db/04-heap-file/page.c. Idle has them
--   with calls that succeed, Content, Faults and Reading with calls that fail or end early.
-- - Heap: mini-db/04-heap-file/heap_file.c. Spec has the abstract store and Trace the sequences of
--   operations, Session those on a new file; Survival and Reading are about calls that fail or end
--   early. A local array that the code leaves uninitialised is an argument (`stack`, `fresh`), so
--   the theorems hold for whatever is in it.
-- - DiskManager: mini-db/02-disk-manager/disk_manager.c; Demo and Restored are about its main.c,
--   Equivalence compares its page I/O with PageFile's. FileIo: mini-db/01-file-io/file_io.c.
-- - Net and Net.Counts: the results of the socket calls, `struct pollfd` and the call log that the
--   servers share. A server is a function from the results of its calls to the log of those with an
--   effect (open, close, send), the newest first.
-- - PollServer: linux-process-lab/06-network/05-poll/server.c. The rounds of the main loop are a
--   list; each says what `poll`, `accept` and `recv` return in it. Registration has the search for
--   a slot, Balance and Closings one pass over the clients, Orderly, Rounds and Main whole runs.
-- - NonblockingServer: linux-process-lab/06-network/04-nonblocking/server.c, on the same array.
-- - EpollServer: linux-process-lab/06-network/06-epoll/server.c, and the same file under
--   07-tcp-deep/01-stream. Balance has its states as a step relation, Main its whole runs.
-- - Net.Program: programs that call the system and may `exit`, as a monad over the call log, and
--   when they close what they open. Net.Stream: one direction of a TCP connection, as bytes that a
--   read may find in pieces.
-- - TcpServer, TcpClient: linux-process-lab/06-network/01-tcp-basic. The client is the same file
--   under 02-blocking-server and 03-thread-per-connection. BlockingServer:
--   02-blocking-server/server.c.
-- - ThreadServer: linux-process-lab/06-network/03-thread-per-connection/server.c. Its states are a
--   step relation over the statements of the accept loop and of the workers, in any order, with the
--   heap cells that pass the descriptors. Holders says who has a descriptor or a cell, Moves and
--   Serving what the steps of the workers and of the main thread do to that, Ownership what holds
--   in every state.
-- - StreamClient: 07-tcp-deep/01-stream/client.c of 06-network; Session joins it to the epoll
--   server.
-- - CloseStates: 07-tcp-deep/02-close-states. HalfClose: 07-tcp-deep/03-half-close, both sides as
--   threads on the streams of their connection, whose reads may fail.
-- - Interleaving: systems of threads that run by the choices of a scheduler, and the interface
--   `Ending` that a system fills to have that all its runs end. ProducerConsumer, HalfClose,
--   ThreadCounter and Exec do.
-- - Exec: linux-process-lab/02-exec/exec.c, the parent and the child as interleaved processes that
--   print to a terminal.
-- - ThreadCounter: linux-process-lab/03-thread/thread.c, with `count++` as a load and a store.
-- - ProducerConsumer: linux-process-lab/03-thread/condition-variable/producer_consumer.c, a step
--   per statement. Invariant has what the steps keep, Reach what follows for every state that is
--   reached, Termination the runs under any schedule.
--
-- The result -1 and NULL are `none`. The loops over slots and pages are recursion on the number of
-- rounds left; the loop of `page_compact` gets one more round than there are slots, and
-- `compact_loop_rule` of Page.Compact shows that it ends by its own test. Page numbers are
-- bounded as the theorems say, because the code keeps them in 32 bits. The endless loops of the
-- servers run as long as their input does.
--
-- Not modelled: the Java labs and their build files, the test programs of mini-db, 01-fork and
-- process_memory.c of linux-process-lab, and what is printed where no theorem speaks of it.
pub mod Base
pub mod Memory
pub mod Page
pub mod Posix
pub mod PageFile
pub mod Heap
pub mod DiskManager
pub mod FileIo
pub mod Net
pub mod PollServer
pub mod NonblockingServer
pub mod EpollServer
pub mod ProducerConsumer
pub mod ThreadServer
pub mod Exec
pub mod TcpServer
pub mod TcpClient
pub mod BlockingServer
pub mod Interleaving
pub mod HalfClose
pub mod ThreadCounter
pub mod CloseStates
pub mod StreamClient
