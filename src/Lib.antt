-- ===== src/Lib.antt =====
-- cs_primer: a model of the C programs of this repository on interprocess communication (ipc/src)
-- and on sockets (tcp-ip/socket/src), of its timer heap (ds/timer-heap) and of its loser tree
-- (ds/loser-tree), with theorems about them. The results are listed below, each with its
-- conditions.
--
-- The programs come in two kinds. Threads and processes that share memory are systems of local
-- states over one shared state (Threads, Threads/Machine): a step is one access of one thread to
-- what is shared, a schedule is the list of the threads that are picked in turn, and the theorems
-- are about the state after a schedule. Programs that only talk to the operating system are
-- functions of a kernel (Posix): the kernel answers each call from the log of the calls made so
-- far, it is a parameter, and the result is how the program ends together with its log.
--
-- The files and the code that they model:
-- - Prelude: the names that all modules share, Boolean tests and lists over the native numbers.
-- - Threads: sums of weights over the threads, from which the invariants are made. Threads/Pair:
--   systems of two threads.
-- - Pxsem/ManyToMany: `producer` and `consumer` of ipc/src/pxsem/sem_prodcons4.c. A state is
--   `Shared`, the struct `shared` with its semaphores as numbers, and for each thread the statement
--   that it executes next with the counter that its argument points to.
-- - Pxsem/ManyToOne: the same for ipc/src/pxsem/sem_prodcons3.c.
-- - Pxsem/Buffers: the threads of sem_multibuffer.c, which copy a file through a ring of eight
--   buffers. Pxsem/OneToOne: the threads of sem_prodcons2.c; sem_prodcons1.c has the same.
-- - Pxsem/Main: `main` of sem_prodcons3.c and sem_prodcons4.c. Pxsem/MainOne: `main` of
--   sem_prodcons1.c, sem_prodcons2.c and sem_multibuffer.c.
-- - Counter: the loops of ipc/src/pxshm/client1.c and ipc/src/shm/incr.c, where processes increment
--   a counter under one semaphore; `count++` is a load and a store.
-- - Fifo: the request of ipc/src/fifo/fifo_client.c, and how fifo_server.c reads and answers it.
--   Posix/Loops/While: `while((n = read(...)) > 0)`.
-- - Pipe: ipc/src/pipe/pipe.c and ipc/src/fifo/fifo.c, a parent that asks its child for a file.
--   Pipe/Client and Pipe/Server: what each sends.
-- - MessageLog: the loops of ipc/src/pxshm/client2.c and server2.c, a ring of messages in shared
--   memory with a count of overflows.
-- - Mutex/Spin: the threads of ipc/src/mutex/mutex_prodcons2.c, where the consumer polls under the
--   mutex. Mutex/Cond: those of mutex_prodcons3.c, where it waits with a condition variable.
--   Mutex/Joined: mutex_prodcons1.c, where the consumer starts when all producers have returned.
-- - Posix: the calls, the log and programs; Posix/Text: `atoi` and byte orders; Posix/Calls: the
--   checks that the sources write round their calls; Posix/Loops: `while((n = read(...)) != 0)`;
--   Posix/Typestate: the order in which descriptors may be used; Posix/Reports: programs that
--   report failures; Posix/Taken: what `write` takes; Posix/Sample: a kernel for the examples.
-- - Sockets/Hello: tcp-ip/socket/src/hello_server.c and tcp_server.c. Sockets/Echo: echo_server.c,
--   reuseaddr_eserver.c, and the children of echo_mpserver.c and echo_storeserver.c. Sockets/Files:
--   file_client.c. Sockets/FileServer: file_server.c. Sockets/Calculator: op_server.c and the
--   message of op_client.c. Sockets/Chat: the table of clients of mthread_server.c.
-- - Sockets/Select: tcp-ip/socket/src/echo_selectserver.c. Sockets/Epoll: echo_epollserver.c,
--   echo_EPLTserver.c and echo_EPETserver.c. Sockets/Forking: `main` of echo_mpserver.c and
--   echo_storeserver.c, the accept loop that forks a child for each client, and the process that
--   stores messages. Posix/Echoed: what the servers over select and epoll keep true of the log.
-- - Ipc: the commands of ipc/src/pxsem, pxshm, svsem and svshm; of ipc/src/pxmsg mqcreate.c,
--   mqcreate1.c, mqgetattr.c and mqunlink.c; of ipc/src/svmsg msgcreate.c, msgsnd.c, msgrcv.c and
--   msgrmid.c. Posix/Reports and the theorems over it are about the calls that the sources check:
--   msgrmid.c, for one, does not look at what `msgctl` answers.
-- - TimerHeap: ds/timer-heap/timer_heap.cc, every method of the heap, over an array given as a
--   function; TimerHeap/Time: the words of 64 bits of timestamp.cc and timespan.hpp. `AddTimespan`
--   has no return statement, and is taken to come back once it has stored its value.
-- - LoserTree: ds/loser-tree/loser-tree.hpp, the merging of sorted lists by a tree of losers.
--   LoserTree/Paths and LoserTree/Tree: the tree of winners behind it; LoserTree/Adjust, Reopen,
--   Create and Winner: how `Adjust` settles it; LoserTree/Merge: the merge.
--
-- Bounds and fuel: the counters and indices of the programs are natural numbers, and their overflow
-- is not modelled, but for these: the calculator and the counter of Counter work on words of 32
-- bits and wrap, as compilers do where C leaves the overflow open, the ids and times of the timer
-- heap on words of 64 bits; a theorem whose result depends on the width asks for a bound. In Pipe
-- and Sockets/Select, what a program does once it has written outside a buffer or an `fd_set` is a
-- parameter, `wild`. Where a result says that bytes are sent, written or passed on, they have been
-- handed to the call, whatever it answers; Posix/Taken tells what a call has taken, as many bytes
-- as it answers. A read loop has fuel for the number of its reads, since the kernel may feed it for
-- ever; the theorems that a loop ends ask for more fuel than there are chunks. A message that goes
-- to a stream is given by its format. `getopt` is a parameter: the options and the index that it
-- leaves. A call that stores a number through a pointer answers with that number. The loops of the
-- heap are given a round for each index that they can visit. `mergeKLists` has a round for each
-- value and one for the end. The servers over select and epoll have fuel for the rounds of their
-- loops; their theorems quantify over it.
--
-- Not modelled: the scheduling and the file systems of the kernel; signal handlers; mqsend.c,
-- mqreceive.c and the programs on notification of ipc/src/pxmsg; the message queue servers of
-- ipc/src/svmsg; ipc/src/lock and ipc/src/rwlock; the variants of incr.c in ipc/src/shm; of
-- tcp-ip/socket/src the datagram programs, the clients but file_client.c and the message of
-- op_client.c, and the demonstrations of single calls; and the other C++ parts of the repository
-- (dp).
pub mod Prelude
pub mod Threads
pub mod Posix
pub mod Pxsem
pub mod Counter
pub mod Mutex
pub mod Sockets
pub mod Ipc
pub mod TimerHeap
pub mod MessageLog
pub mod Fifo
pub mod LoserTree
pub mod Pipe
