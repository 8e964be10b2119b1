-- ===== src/Lib.antt =====
-- NetCalc computes with 64-bit and 32-bit words: on equations of a command line (1_SimpleCalc), on
-- files of equations with a pool of threads (4_ThreadCalc), and on files sent over the network
-- (5_NetCalc), on the common code of 0_Common.
--
-- The parts and how they interact. An equation has two operands and an operator byte. A
-- calculation record (0_Common/src/calc_handle.c) takes it over, chooses one of twelve functions
-- (0_Common/src/math_funcs.c) by the operator and runs it. The network handler
-- (5_NetCalc/src/net_handler.c) reads a file header and equations from a socket by safe_read
-- (0_Common/src/file_io.c), evaluates each in a fresh record, and writes each solution by
-- safe_write. The file handler (4_ThreadCalc/src/thread_handle.c) does the same with files, each
-- of which is a job of the thread pool. The thread pool passes its jobs through the circular queue
-- of 4_ThreadCalc/src/queue.c.
--
-- The files. Every file opens with the source that it is about.
--   Prelude       tests, lists, signed integers and binary digits that all parts share
--   Words         the unions of a signed and an unsigned word, at every width; SUCCESS and
--                 ERROR; outcomes with undefined behaviour as a case of its own
--   MathFuncs     0_Common/src/math_funcs.c and 0_Common/src/math_funcs_thirty_two.c: Validate
--                 has the guards, Funcs the functions, named as in the source, Widths the
--                 instances at 64 and 32 bits; Exact, Divide, Bitwise, Rotate and
--                 Digits have the theorems
--   CalcHandle    0_Common/src/calc_handle.c and 0_Common/src/calc_handle_thirty_two.c: Opers
--                 has the operator texts, Defs the record, Widths the instances; Solve and Texts
--                 have the theorems, and Solve the steps that a reader of equations takes (evaluate)
--   Queue         4_ThreadCalc/src/queue.c: Defs has the queue, Fifo the bounded list queue that
--                 it implements, Span the occupied slots of the array; Refine has the relation
--                 between the two queues, Nodes the nodes that are allocated and freed;
--                 Refine, Remove, Contract and Frees have the theorems
--   ThreadPool    4_ThreadCalc/src/threadpool.c: Defs has the steps of the threads
--                 (start_thread) with their condition variable, of threadpool_add_job,
--                 threadpool_shutdown and threadpool_destroy, Create has threadpool_create with
--                 every outcome of its calls, failed_start, and the end of threadpool_destroy;
--                 Count counts threads and jobs; Order and Once are about the order and the
--                 number of the jobs, Executor has a pool without threads, which Represent and
--                 Simulate relate to the pool; Room is about the places of the queue, Feed about
--                 a pool that one caller feeds, Sound and Kept about wake-ups, Shutdown, Measure,
--                 Works, Progress, Leave, Drain and Finish about the end of the work, Created,
--                 Tally and Release about what a creation comes to
--   FileIo        0_Common/src/file_io.c: Stream has the calls read and write, Safe the loops;
--                 Read, Write and Total have the theorems
--   NetHandler    5_NetCalc/src/net_handler.c: Packed has the structures as bytes, Messages the
--                 functions for one message, Stream the exchange (parse_stream, whose loop is
--                 cut into one function for what follows each call), Connection what handles one
--                 connection (read_net_header, handle_new_connection), Listener the loop that
--                 accepts connections (start_listener, accept_connection); Served, Layout, Loop,
--                 Exchange, Answers, Refusals, Session, Sizes and Total have the theorems
--   FileHandler   4_ThreadCalc/src/thread_handle.c: Process has what a thread does with a file
--                 (parse_file, process_equations), Directory the loop over a directory
--                 (directory_parse); Loop, Total, Jobs and Parse have the theorems
--   Signals       4_ThreadCalc/src/signals.c: Defs has the handler and its installation, Stops the
--                 wait of directory_parse for a signal
--   Comparisons   0_Common/src/comparisons.c, with its theorems
--   SimpleCalc    1_SimpleCalc/src/cli_handle.c is in Convert and 1_SimpleCalc/src/simple_main.c
--                 in Main; Numbers, Stores and Solve have the theorems
--   NetMain       5_NetCalc/src/net_main.c and 5_NetCalc/src/net_converts.c are in Options;
--                 Started has its theorem, Server puts the listener, its jobs and the pool together,
--                 and Whole has the theorem on them
--   FileMain      4_ThreadCalc/src/thread_main.c is in Main; Started has its theorem, and Whole puts
--                 the loop over the directory, its jobs and the pool together
--
-- How the code is modelled. A word is its bit pattern, and num reads it as a signed number. A
-- signed expression that its type cannot hold, a division by zero and a shift by the width or more
-- are undefined behaviour, which no theorem takes for a value. A pointer that may be NULL is an
-- Option. An array is a list of the fixed length, and a node of the queue holds its data as a
-- number that stands for the pointer. An allocation succeeds or fails by a Boolean argument where
-- the source handles it (calc_init, queue_new, queue_enqueue, threadpool_create); in the network
-- handler it succeeds.
-- The machine has the lowest byte first. The threads of the pool take turns: a step is what one of
-- them does under the mutex, or one look at the pool without it, and every order of steps is a
-- run.
--
-- The system's calls. What read brings is an argument, the list of pieces and failures that will
-- arrive, and a call takes at most one piece. What write accepts is a list too: so many bytes, or
-- a failure. With the list used up, a call accepts everything. strtol and strtoul are parameters:
-- functions from a text and a base to what they leave; a theorem says of which texts it needs that
-- they are read whole. What opening files and formatting paths bring is an argument of the loop
-- over the directory, and what the sockets bring one of the listener.
--
-- What can go wrong at the edges. The test of the loop of safe_read cuts the length to an int
-- (goes_on), which leaves lengths below 2^31 as they are; the program's are 27 and 32. A job
-- that reads the structure of the listener after its release is a step of the model too: it is
-- recorded as undefined behaviour (misread), which a theorem on the listener excludes by name.
--
-- The bound of 200. The queue of the pool has 200 places (MAX_JOBS), and a job that finds it full
-- is dropped. FileMain/Whole and NetMain/Whole are about at most so many files and connections,
-- which fit whatever the threads do. The fields of a queue are ints in C and natural numbers here:
-- none of its sums of two indices overflows up to a capacity of 2^30.
--
-- Fuel. The loop of safe_read runs at most len + 1 rounds, since each but the last brings at least
-- one byte or ends it, and has len + 2 of fuel. The loop of safe_write has two more than there are
-- entries in the list of calls. The loop of process_equations, which does not count, has one more
-- than there are bytes and calls of read to come, since a round that goes on reads an equation.
-- The theorems on them, and those on the network handler that use them, show that a result is
-- returned. All other loops are structural.
--
-- Not modelled. The release of memory, but for the pieces of the thread pool and the
-- nodes of its queue; what getopt,
-- strtol, the sockets, the file system and pthreads do inside, whose results are arguments;
-- messages to the terminal (0_Common/src/debug.c, and the texts that the programs print beside
-- their results); the client (5_NetCalc/client/client.py) and the test programs.
pub mod Prelude
pub mod Words
pub mod MathFuncs
pub mod CalcHandle
pub mod Queue
pub mod ThreadPool
pub mod FileIo
pub mod NetHandler
pub mod FileHandler
pub mod Signals
pub mod Comparisons
pub mod SimpleCalc
pub mod NetMain
pub mod FileMain
