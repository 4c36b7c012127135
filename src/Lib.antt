-- ===== src/Lib.antt =====
-- Verification of TinyNetwork, a reactor network library in C++: one event loop per thread watches
-- file descriptors with epoll and calls the callbacks of their channels; a connection moves bytes
-- between its socket and two buffers; the logger formats lines into fixed arrays and hands them to
-- a thread that writes them.
--
-- The parts, with the code that they follow:
-- * Net.Buffer (include/net/Buffer.h, src/net/Buffer.cpp): a vector of bytes with a read and a
--   write index, `Buffer` here. Each member is a function with its name; sizes are 64-bit and wrap,
--   and `makeSpace` takes an int. Contents, Room, Append, Queue and Descriptor hold the theorems;
--   the specification in Queue is a queue of bytes.
-- * Net.Channel (include/net/Channel.h, src/net/Channel.cpp): the masks, and the calls that
--   `handleEvent` makes. Interest is about the masks, Dispatch about the calls.
-- * Net.Poller (include/net/poller, src/net/poller): `EpollPoller` over the record `Epoll` of
--   Net.Poller.Kernel, which states what epoll_ctl(2) documents; Net.Poller.Table is an instance.
--   Synced says when a channel, the map and the kernel agree; Registration, Members and Changes are
--   about one channel, Sharing about several on one poller, Poll about the events. A member of
--   `Channel` that ends in `update()` is a function here, since it goes through the loop to the
--   poller.
-- * Net.EventLoop (include/net/Eventloop.h, src/net/EventLoop.cpp): the loop, cut into the steps
--   between which other threads can act, over the record `EventFd` of Net.EventLoop.Kernel. Run has
--   the interleavings, Awake the invariant, Wakeup and Drain the theorems. Object is the loop as an
--   object with its poller and its wakeup channel (with src/net/poller/DefaultPoller.cpp), Lifetime
--   about its making and its end; Timers is about `runAt`, `runAfter` and `runEvery`. Dispatch goes
--   from the events of the kernel to the callbacks of the channels.
-- * Net.EventLoopThread (include/net/EventLoopThread.h, src/net/EventLoopThread.cpp): the thread of
--   a loop and the one that starts it, which take their steps in any order. Handshake and Ending
--   hold the theorems.
-- * Net.EventLoopThreadPool (include/net/EventLoopThreadPool.h, src/net/EventLoopThreadPool.cpp):
--   the loops of the threads, and `getNextLoop`. Robin holds the theorems.
-- * Net.TcpConnection (include/net/TcpConnection.h, src/net/TcpConnection.cpp): a connection with
--   its channel and buffers. What it does to the socket, to its loop and to the user is the list
--   `effects`; a callback of the user is one of them. Send, Flush, Calls, Lifecycle, Destruction,
--   Reading and HalfClose hold the theorems on single operations, Invariant and Stream what they
--   are about; Service runs many requests, Creation and Life follow a connection from its
--   constructor to its end, and Posted joins it with the queue of its loop.
-- * Net.InetAddress (include/net/InetAddress.h, src/net/InetAddress.cpp): an address and a port,
--   over `inet_ntop` as a parameter. Port holds the theorems.
-- * Net.Acceptor (include/net/Acceptor.h, src/net/Acceptor.cpp, include/net/Socket.h,
--   src/net/Socket.cpp): the socket that listens, with its channel and the poller, and the members
--   of a socket. Listening holds the theorem.
-- * Net.TcpServer (include/net/TcpServer.h, src/net/TcpServer.cpp): the map of connections by name,
--   over the pool of loops. The map is a function of the name and has no order; the order in which
--   the destructor meets its entries is an argument. What a loop is given to run is in the list
--   `effects`, and what a thread of the pool starts is a parameter. Names, Named, Live, Balance,
--   Shutdown and Ending hold the theorems; Visit joins the acceptor, the server, one connection and
--   the poller of its loop.
-- * Logger.FixedBuffer and Logger.LogStream (include/logger/FixedBuffer.h,
--   include/logger/LogStream.h, src/logger/LogStream.cpp): the array of a line, and formatting into
--   it. Items is about a chain of `<<`, Floating about doubles, whose text by `snprintf` is a
--   parameter.
-- * Logger.Logging (include/logger/Logging.h, src/logger/Logging.cpp): a log statement from the
--   macro to the destructor. `localtime` and `strerror_r` are parameters, and what the array on the
--   stack held before is an argument. Time, Line, Statement, Seconds and Basename hold the
--   theorems.
-- * Logger.AsyncLogging (include/logger/AsyncLogging.h, src/logger/AsyncLogging.cpp): the buffers
--   that lines pass through on the way to the log file, with appends and the thread interleaved.
-- * Logger.LogFile (include/logger/LogFile.h, src/logger/LogFile.cpp, include/logger/FileUtil.h,
--   src/logger/FileUtil.cpp): the open file with its name, and the bytes of those before it.
--   `localtime_r`, and what `fopen` can open, are parameters; a file that is opened is empty. Name
--   is about the names, Writing about `fwrite`, Rolling and Archive about the files, Lifetime about
--   a log file from its constructor on.
-- * Logger.Backend (src/logger/AsyncLogging.cpp with src/logger/LogFile.cpp): both together, from
--   the appended lines to the files, with the log file that `ThreadFunc` makes.
-- * Logger.Pipeline (src/logger/Logging.cpp with src/logger/AsyncLogging.cpp): both together, with
--   `AsyncLogging::append` as the output of the log statements of one thread; Arrival holds the
--   theorem.
-- * Base.Thread (include/base/Thread.h, src/base/Thread.cpp, include/base/CurrentThread.h,
--   src/base/CurrentThread.cpp), Base.Timestamp (include/base/Timestamp.h, src/base/Timestamp.cpp)
--   and Timer (include/timer/Timer.h, src/timer/Timer.cpp): names and flags of threads,
--   microseconds since 1970 and their text, and the restart of a timer. An interval in doubles is a
--   parameter.
-- * Base.ThreadPool (include/base/ThreadPool.h, src/base/ThreadPool.cpp): a queue of tasks, and the
--   places of the threads that run them, which take their steps in any order. Queue, Idle, Stranded
--   and Drain hold the theorems.
-- The text of a number, which the C library formats, is in Prelude.Decimal.
--
-- Conventions. A byte is a number. `none` of an operation is a fault: an access outside an array, a
-- null pointer used, `std::length_error`, LOG_FATAL, or an empty callback that is called. Results
-- of system calls are arguments. Memory does not run out. The only fuel is that of the digit loop
-- of `formatInteger`: 20 digits, enough for every integer below 10 ^ 20, and so for all of 64 bits.
-- The loop of `FileUtil::append` runs on the list of what `fwrite` returns.
--
-- Not modelled: the timer queue, which has no implementation in the source, so that a call of it is
-- only its arguments; what a thread of the standard library does; the lifetime of objects that
-- `shared_from_this` guards; the bytes that a queued `send` of a string finds at its pointer; log
-- statements of two threads at once, which share the result of `localtime`; a change of channels by
-- a callback while the loop is at the active channels; and a function that the thread of a loop
-- queues while it is outside `loop()`. In Net.TcpServer.Visit a call that is handed to a loop runs
-- at once; in what order queued calls run is the matter of Net.EventLoop. `findCRLF` of the buffer,
-- `hasChannel` of the loop and `toFormattedString` of a timestamp return nothing; of the last, the
-- array is modelled.
pub mod Prelude
pub mod Base
pub mod Net
pub mod Logger
pub mod Timer
