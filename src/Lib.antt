-- ===== src/Lib.antt =====
-- A model of the vehicle message server and of the libraries beside it, and what is proved of them.
--
-- Parts of the program:
--   * The message server (bazelPro/src/hk/main.cpp) waits for datagrams of robots, and answers each by
--     the messages that the generator (bazelPro/src/hk/msg_gen.cpp) writes into its send buffer. The
--     structures of the messages are in bazelPro/src/hk/msg_type.h, the byte swaps in
--     bazelPro/src/hk/msg_gen.h. Every datagram and almost every answer is dumped by
--     bazelPro/src/utils/dump.cc.
--   * The vehicle ring (class Hk_Shm of bazelPro/src/tmp/tmp.h and tmp.cc) is a structure in shared
--     memory with 15 slots. One process puts the vehicles into the next slot, another gets those of
--     the current slot, or of the slot before it when the checksum does not fit.
--   * test_edge (bazelPro/src/tmp/tmp.cc) watches a level for two falling edges.
--   * Mutexes, threads and signals (bazelPro/src/lib/zmutex.cc, uthread.cc and zsignal.cc) wrap the
--     calls of the system. The signals are led to callbacks by a table and a self-pipe.
--   * bazelPro/src/lib/bufprintf.cc prints into an array of limited room, by a formatter that is safe
--     in signal handlers (snprintf_asyncsignalsafe.cc beside it) or by that of the C library. The
--     error records (zerror.cc, prettyprint_siginfo.cc, prettyprint_ucontext.cc) are printed by it,
--     and the handlers of zsignal.cc write a record of a fatal signal.
--   * The event loops (bazelPro/src/lib/loop.cc and loopthread.cc) run the program
--     (bazelPro/src/libmain/main.cc) and threads of their own; the application of
--     bazelPro/src/libtest/libtest.cc starts two threads.
--   * Two more test programs (bazelPro/src/jw and bazelPro/src/udp) exchange JSON texts.
--   * bazelPro/src/utils/sys.cc asks the system for its load and for processes.
--
-- Files:
--   * Base, with Base/Tests, Base/Lists and Base/Int: the shared names, the Boolean tests, lists over
--     native numbers, and `int` values. Bits: `&`, `|` and `^` as arithmetic. Layout: `sizeof`.
--   * Hk/Wire is msg_gen.h and the copies between buffers and variables, Hk/Types is msg_type.h, and
--     Hk/Gen is msg_gen.cpp, one definition for each function, under its name. Hk/Frame describes
--     the frames apart from the code; Hk/Frame/Generated and Hk/Frame/Parse compare.
--   * Hk/Server is the loop of main.cpp: `step` is one round, `dispatch` the chain of tests on the
--     type, and each `on_...` one branch of it. Hk/Server/Answers describes the protocol apart from
--     the code; Round, Rounds, Echo and Stale beside it hold the theorems.
--   * Shm/Defs is Hk_Shm: `attach` is the constructor, `put` and `get` are Put and Get, `put_writes`
--     lists the writes of Put. Shm/Crc is crc32. The other files of Shm hold the theorems.
--   * Dump is dump.cc; Edge is test_edge; Mutex, Thread and Signal are the three files of lib;
--     Signal/Pipe is the self-pipe of zsignal.cc, between its handler and the loop that reads it,
--     and Signal/Pipe/Turns the loops that run the callbacks. In Thread, each operation is a
--     function; Thread/Shared has the accesses of a new thread, and calls of exit and join by
--     others, to one object as a step relation. Buffer is bufprintf.cc, with its formatter as an
--     argument.
--   * Format is snprintf_asyncsignalsafe.cc: Format/Print is the loop over the format, a state
--     machine whose `Mode` is the inner loop that reads the next character; Format/Convert is the
--     switch on the conversion; Format/Itoa and Format/Ftoa are itoa and ftoa, Format/Arg the
--     arguments. In Format/Contract, `expansion` is the text that a format stands for when there is
--     room. Format/Pieces describes formats of text and strings apart from the code, and
--     Format/Fields compares.
--   * Error is zerror.cc, with Error/Hex for hexdump_formatter, Error/Siginfo for
--     prettyprint_siginfo.cc (strcode in Error/Siginfo/Codes), and Error/Fatal for
--     prettyprint_ucontext.cc and the handlers of zsignal.cc. Error/Prints and Error/Writes are
--     lemmas: what formats stand for, and how code that adds text to a buffer composes. Error/Shown,
--     Error/Stack, Error/Siginfo/Lines and Error/Fatal/Handled describe the records apart from the
--     code, and Error/Siginfo/Table is a table of signals and codes, which Error/Siginfo/Meant
--     compares with it.
--   * Cross is load_point and test_cross_map of bazelPro/src/tmp/tmp.cc, which look for the way between
--     two places in a map of crossings; Cross/Route and Cross/Answer describe the way and the answer.
--   * Jw is the test server bazelPro/src/jw/srv.cc, which answers JSON messages; Jw/Described describes
--     what it sends.
--   * Loop is loop.cc, Loop/Thread is loopthread.cc, over the steps of Thread/Shared, Loop/Trial is
--     libtest.cc, and Loop/Program is main.cc of libmain with that application.
--   * Sys/Stream is `>>` of a file stream, as sys.cc uses it; Sys/Memory, Sys/Disk, Sys/Cpu and Sys/Pid
--     are the functions of sys.cc, each under its name, and the files below them what they do on
--     the texts of the system.
--   * Udp is the client and the server of bazelPro/src/udp.
--   * Each Tests file has concrete runs.
--
-- What is assumed: a little-endian machine with the usual alignment, on which a plain copy of a
-- variable is its bytes from the lowest. Values of unsigned types are native numbers with the
-- wrap-around written out; a negative `int` that is only copied or swapped is its 32-bit pattern. The
-- counters `tick` and `flip` do not wrap. The writes of Put reach the reader in the order of the
-- code. Clock values, results of the pthread calls, of the locks, and of read and evtimer_add for
-- the self-pipe, and whether calloc returns memory are arguments or parameters; the dumps of the
-- server are given memory. An access outside of an array or a buffer, the use of a pointer that was
-- never set, and in Format and Jw the overflow of an `int` counter, is `none`. Loops are structural, on the rounds that are left, so no fuel is
-- needed, but for the division loop of ftoa and the loop over the mounts, which get a number of
-- rounds. The operations on `double`, vsnprintf, isgraph, strsignal and strerror of the C library,
-- and what the code asks rapidjson for, are parameters; a failed assertion of rapidjson is `none`.
-- The texts of files, the output of commands and the results of libevent are arguments. A format is
-- the characters before its null byte, and the numbers of signals and codes are those of Linux.
--
-- Not modelled: sockets and peer addresses (the datagrams are sequences), the mapping of the shared
-- memory, how JSON is parsed and written, the trial programs (bazelPro/src/main.cc and
-- bazelPro/src/test), which only print, what libevent and pthread do inside, and thread_cb of
-- libtest.cc, which prints for ever. The functions of zmutex.cc and the ring are used by one thread at
-- a time but where a theorem says otherwise.
pub mod Base
pub mod Bits
pub mod Layout
pub mod Shm
pub mod Hk
pub mod Dump
pub mod Edge
pub mod Mutex
pub mod Thread
pub mod Signal
pub mod Buffer
pub mod Format
pub mod Error
pub mod Cross
pub mod Jw
pub mod Sys
pub mod Loop
pub mod Udp
