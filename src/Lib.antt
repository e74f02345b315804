-- ===== src/Lib.antt =====
-- ckCore: its streams, checksums, paths, files, directories, processes, threads and pools, checked
-- against what their interfaces promise.
--
-- Parts and files. Paths are from the repository's root.
--   Stream: the abstract classes `InStream` and `OutStream` of include/ckcore/stream.hh, as records
--     of operations over a state. Stream/Contract says what a client may rely on: which bytes are
--     still to come, which were written, and what a call that fails leaves behind. Of the streams
--     that take bytes it describes those each of whose writes takes all of them or fails.
--   BufferedStream: src/bufferedstream.cc. `In` and `Out` hold the fields of `BufferedInStream` and
--     `BufferedOutStream` and their operations over any stream. Pending says which states are in
--     order and which bytes a stream holds; Refill and Round treat one round of a loop, Read,
--     Write, Seek and Flush a whole call, Client and Failure what a caller sees, and In/Contract is
--     the contract of an input stream for `BufferedInStream` itself, where no read below it fails.
--   MemoryStream: src/memorystream.cc. `In` and `Out` hold `MemoryInStream` and `MemoryOutStream`;
--     an allocator that may fail is a parameter of the latter. In/Contract is the contract of an
--     input stream for the first, so that the buffered streams can stand over it.
--   Stream/Copy: `copy` without progress of src/stream.cc, between any two streams.
--   Stream/Progress: `Progress` of include/ckcore/progress.hh, `Progresser` of src/progresser.cc
--     and the three copies of src/stream.cc that report progress. The floating-point percentage is
--     a parameter. Forget compares a copy with the one without progress; Filled, Padding and Padded
--     treat the sized one.
--   Stream/Canex: the checked streams and copies of src/canexstream.cc, with Agreement on how its
--     copies compare with those of src/stream.cc; Stream/Null: src/nullstream.cc.
--   Crc: src/crcstream.cc, with the table as the constructor fills it. Bounds treats the accesses
--     to the table, and Incremental writes in parts. Rounds describes checksums bit by bit, by the
--     division of polynomials, with the laws of its rounds; Shifts and Division compare the table
--     and `write` with it, and Copied treats a copy into a checksum.
--   Files: `File` of src/unix/file.cc over the system calls, which are a record of operations on a
--     state of the system. Opening and Position treat `open2` and the seeks, Quiet holds the
--     functions of include/ckcore/file.hh that do not throw, and Naming the names of temporary
--     files, with Plain and Place on where those are; InStream holds `FileInStream` and
--     `FileOutStream` of src/filestream.cc, and InStream/Contract is the contract of an input
--     stream for the first, over what the manual of read(2) says.
--   LineReader: include/ckcore/linereader.hh over any input stream, for characters of one byte.
--     Chars describes the lines of a text, and Lines treats `read_line`.
--   PathName: `Path` of src/path.cc on Unix and its iterator. Str holds the operations of
--     `std::string` that it uses. Components describes the parts of a path; Walk treats the
--     iterator, Equal `operator==`, Cut and Names `dir_name` and `base_name`, Delims and Join
--     `operator+` and `operator+=`.
--   Sync: `WaitCondition` of src/unix/thread.cc, by the results of the calls of pthreads, and
--     `Locker` of include/ckcore/locker.hh over any lockable object. Thread holds `Thread`, with
--     the runs of its operations by any threads.
--   ThreadPool: src/threadpool.cc. Each part of an operation during which the pool's mutex is held
--     is one function; Steps is the relation of the runs. Tally, Counts and CountedTurns count
--     threads; Invariant and Conservation treat the runs, Tasks and Turns the tasks, Faults where a
--     pool loses or miscounts them, and Waiting holds the joining loop of `wait`.
--   Process: `Process` and `ProcessMonitor` of src/unix/process.cc over the system calls.
--     CommandLine treats `parse_cmd_line` and Blocks the splitting of the output. Listening holds
--     the thread of `listen`, which Reports and Ending treat, and Creation `create`, cut where other
--     threads and the handler may come in, and `kill`, which Started and Failure treat. Monitor treats the handler of SIGCHLD.
--   Directory: `Directory` of src/unix/directory.cc and its iterator. Making treats `create`, with
--     the iterator of PathName, and Entries the iterator.
--   System: the sizes of caches of src/system.cc, over cpuid.
--   Text: src/string.cc and src/exception.cc on Unix. Copies treats the copies between buffers.
--   Windows: `File` of src/windows/file.cc over the calls of Windows, with Positions on the places
--     and sizes of files; in Condition and Thread `WaitCondition` and `Thread` of
--     src/windows/thread.cc, in Process `Process` of src/windows/process.cc, with Handles on what
--     `create` leaves open, and in Directory the iterator of src/windows/directory.cc, with Entries
--     on what it shows.
--   Convert: src/convert.cc and include/ckcore/convert.hh. Decimal treats numbers as text, Bytes
--     the order of bytes and DOS times.
--   Base: Boolean tests, byte arrays, 32-bit words, the laws of binary digits in Bits and Digits,
--     and `Outcome`, what a run of code comes to.
--
-- How the code is modelled. A call returns the new state beside its value. `none` is a return of
-- -1. The buffered streams return an unsigned -1 where a call below fails first: `wrapped` for a
-- read, and the number 4294967295 for a write. An access outside an array or a string is the
-- outcome `fault`, and a loop whose fuel is gone is `stuck`, so a theorem that a call returns
-- says that it stays within its arrays and ends. Sums and differences of machine words wrap.
-- Bytes and characters are natural numbers, which only the checksums compute with; the rest moves
-- and compares them. The loops have the fuel that their calls give them: `count + 2` for
-- `BufferedInStream::read` and `BufferedOutStream::write`, where each round but the first takes a
-- byte, `distance + 1` for `seek`, and 33 for the doubling in `MemoryOutStream::write`, which
-- passes every 32-bit size, 20 for the digits of a 64-bit number, and the length of the first
-- name and 2 for `operator==` of paths, whose rounds each pass a character. A copy and
-- `read_line` take their fuel as an argument: one round for each byte of the source, and of the
-- size where there is one, and one more. An exception is a value: `threw`, `thrown`, or false
-- where a call returns nothing else. The thread of `listen` takes the list of what the handler of
-- SIGCHLD does before each of its tests of the state, which bounds its rounds, and the number of
-- calls of select(2) in a round; `wait` of the pool the list of what other threads do in each of
-- its rounds. `create` of a directory has a round for each character of the path and one more;
-- the searches of its iterator and of `cache_size` take their fuel as an argument: one round for
-- each entry or cache, and one more.
--   In the runs of the pool a thread that leaves the condition and takes the mutex again does so in
-- one step, and so does a thread that returns. Its client may call from any thread, but not `wait`.
--
-- Not modelled: the release of memory, the times of files and directories, the child's side of a
-- fork, and on Windows paths, mutexes, times, and the thread of `listen` with the waits of
-- `Process`. Logging, dynamic libraries, the buffers and most functions on strings only pass on
-- calls or hold memory.
pub mod Base
pub mod BufferedStream
pub mod Convert
pub mod Crc
pub mod Directory
pub mod Files
pub mod LineReader
pub mod MemoryStream
pub mod PathName
pub mod Process
pub mod Stream
pub mod Sync
pub mod System
pub mod Text
pub mod ThreadPool
pub mod Windows
