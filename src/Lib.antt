-- ===== src/Lib.antt =====
-- The verification library of Prot, a small cross-platform base library in C++.
--
-- The program's parts, bottom up: base/ (types, bit operations, memory), struct/ (the growing buffer
-- and the string over it), system/time (durations and clocks), system/synchronization (locks,
-- semaphore, event, and the condition variable built of these), system/ (threads, the pool thread
-- over two events, the console), and test/ (the unit test framework, which uses threads, semaphore
-- and event). Semaphore, event and thread compute the deadline of a timed wait from a TimeUnit.
--
-- Which file models which part:
--   Prelude, Prelude/*    shared names: tests, lists, signed integers and their wrap-around
--   Base/Bits, Bitops     base/bitops.hh (Bits::AlignUp is align_up, and so on), and bit laws
--   Base/BlockOr          base/bitops.hh (Bits::Or over memory)
--   Base/Memops, FindT    base/memops.hh (Memory::FillT, Memory::FindT)
--   Base/Allocate         base/allocate.hh (Memory::Alloc, Memory::Reloc), base/memops.hh (writes)
--   Struct/Buffer         struct/buffer.hh (_PtBuf: _Init, Resize, Destroy); Copy is the copy
--                         constructor and the assignment; Ready and Resize are Resize in steps
--   Time/Unit             system/time/timeunit.hh (TimeUnit)
--   Time/Deadline         the deadline in system/synchronization/semaphore.cc, event.cc and
--                         system/thread_posix.cpp
--   Time/Clock            system/time/tickcount.cc and timestamp.cc (NowMilliseconds)
--   Sync/Cond             what the objects use of pthread_cond_wait and of the clocks
--   Sync/Semaphore        system/synchronization/semaphore.cc, the POSIX half; Init is the
--                         constructor and destructor, Count is Post, Waiting is Wait, System the
--                         interleavings of any number of threads; Windows is the Windows half
--   Sync/Event            system/synchronization/event.cc, the POSIX half, in the same way
--   Sync/CondVar          system/synchronization/condvar.cc; System is the interleavings, WakeAll
--                         that it comes back; WakeOneTest is TestWakeOne of condvar_unittest.cpp, with
--                         Counts and Moves what holds in each step, Sound the sum, Ending the end
--   Sync/Lock             system/synchronization/lock.hh: the interface and what its locks promise;
--                         Calls and Spin are lock_posix.cpp and lock_win32.cpp, Implements and
--                         Recursive relate them to the promises, Exclusion is any number of threads,
--                         UnitTests, Cases, Results, Counting and Calculation are lock_unittest.cpp,
--                         Adapters the semaphore and the events as locks
--   Thread                system/thread_posix.cpp; Ids the identifiers, Life the shared data from the
--                         constructor to the free, Waiting is Wait, Sleeping is ThisThread::Sleep;
--                         Windows and WinSleep are system/thread_win32.cpp
--   Pool                  system/pthread.cc (PoolThread): System is the steps of the owner and of the
--                         thread, Invariant and Sound what holds of them, Jobs what the owner relies on,
--                         Deletes the end of the data,
--                         Faults and Failed the orders of steps that go wrong
--   Pool/Calc             system/threads_unittest.cpp (TestPoolParallelCalc): Sums is the arithmetic, Tokens
--                         and Placed where the data of a thread is, Invariant the list against the
--                         semaphore, Result the sum, Ending the end while each
--                         Run gets its thread, Failing a Run that gets none
--   Console               system/console_linux.cpp; Sampling is how late it notices another terminal
--   Struct/String         struct/string.hh over a heap of buffers; Count and Programs are the reference
--                         counts, Text the constructors, Editing Upper, Parts SubStr, Digits FromInt
--   UnitTest              test/unittest.h (the checks) and test/unittest.cpp; Checks is the counters,
--                         Registration is AddTestCase, Runner is SingleThreadTest
--   UnitTest/Parallel     test/unittest.cpp (PtRunTestThreadProc, MultiThreadTest): Starting is the loop that
--                         starts the threads, Conservation the cases on their way, Ending the threads'
--                         ends, Agreement the count against that of SingleThreadTest
--   UnitTest/Texts        test/unittest.h (the checks of strings and of memory)
--   UnitTest/FailMem      test/unittest.cpp (UnitTest::PrintFailmem); Bounds is its buffer
--   UnitTest/RunTest      test/unittest.cpp (UnitTest::RunTest); Summary is its list of failed cases
--   */Tests               tests, and each theorem at a concrete input
--
-- How state and operations correspond: a C++ object is a record, a method a function that takes the
-- record and returns the new one beside its result. A flag word is a record of its bits. Int32 and
-- Int64 are integers cut by to_i32 and to_i64, Size is a number cut by % 2 ^ 64. What a call of the
-- system returns is an argument: an error code (0 is success), a clock reading, and for a wait on a
-- condition variable the list of its returns, each with the object as the other threads have left it.
-- A loop round such a wait recurs on that list, and ends without a result if the list ends first, that
-- is, if the thread still waits; the polling loop of the semaphore recurs on the seconds left. The
-- loop of Sleep on Windows has one unit of fuel for each second, and its theorem shows that it ends
-- with them. malloc and realloc are a record of two functions with what the C standard says of
-- them as hypotheses; a write out of bounds or through a null pointer is a missing result.
--
-- The loop that starts the test threads has one unit of fuel for each, and the loop of PrintFailmem one
-- for each byte and one more; both are shown to end with them.
--
-- Not modelled: the Windows halves of the event and the console, which are single calls of the system;
-- the platform types and the information on the system, which compute nothing; and the unit tests but for
-- those named above.
-- Floating point conversions have no counterpart in the language.
pub mod Prelude
pub mod Base
pub mod Struct
pub mod Time
pub mod Sync
pub mod Thread
pub mod Pool
pub mod Console
pub mod UnitTest
