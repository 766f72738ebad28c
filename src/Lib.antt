-- ===== src/Lib.antt =====
-- Verification of xupeng, a C++ library of fibers, schedulers, timers and buffers.
--
-- Parts and how they interact. A Scheduler (xupeng/scheduler.cc) runs fibers on threads; an
-- IOManager (xupeng/iomanager.cc) is a Scheduler and a TimerManager (xupeng/timer.cc) that waits on
-- epoll until the next timer and schedules the callbacks of the timers that have expired. A ByteArray
-- (xupeng/bytearray.cc) is the buffer of the protocols above the sockets. A Socket (xupeng/socket.cc) makes
-- its calls through the hooks of xupeng/hook.cc, which wait on the IOManager, and takes Addresses
-- (xupeng/address.cc); the variables of Config (xupeng/config.cc) configure the loggers of xupeng/log.cc.
--
-- ByteArray (ByteArray.antt) models xupeng/bytearray.h and bytearray.cc. `ByteArray` has the fields
-- m_baseSize, m_position, m_capacity, m_size, m_endian; the linked list from m_root is the list
-- `nodes` of the blocks' bytes, and m_cur is `cur`, the index of a block or `none` for null. An
-- operation returns an Outcome: `ok`, `throws` (std::out_of_range) or `faults` (a null
-- dereference, or a write behind an array). The loops are structural recursion on the chain.
--   ByteArray/Chain, Invariant, Writing, Reading, RoundTrip: the chain as one flat array.
--   ByteArray/Fixed: writeF*, readF* and xupeng/endian.h. ByteArray/Varint: writeUint32 and the like,
--   with zigzag. `put_loop` runs on the places of `tmp` and `get_loop` on the rounds of the for loop,
--   5 for 32 bits and 10 for 64, which is what the code has. ByteArray/Strings: strings and floats.
--   ByteArray/Buffers: getReadBuffers, getWriteBuffers, readFromFile. ByteArray/Serving: a byte array
--   whose next bytes are known.
-- What is assumed of the machine: sizes stay below 2 ^ 53 (the `double` in addCapacity is exact)
-- and memory does not run out. The machine's byte order is the argument `host`.
--
-- Timer (Timer.antt) models xupeng/timer.h and timer.cc: `Timer` has m_recurring, m_ms, m_next and m_cb,
-- `Manager` has m_timers (the list of the addresses in the set, in its order), m_tickled and
-- m_previouseTime, and the heap that the addresses point into. The clock is an argument; the lock
-- makes each method one step.
--   Timer/Order: Timer::Comparator and the set. Timer/Invariant: addTimer, cancel, refresh, reset.
--   Timer/Expiry: getNextTimer and listExpiredCb.
--
-- IoManager (IoManager.antt) models xupeng/iomanager.h and iomanager.cc: `IoManager` has
-- m_pendingEventCount and m_fdContexts, with the tasks it has scheduled and the calls of epoll_ctl that
-- succeeded. `ctl`, whether epoll_ctl succeeds, is an argument. A failed PENG_ASSERT is `faults`.
-- `add_event`, `del_event`, `cancel_event`, `cancel_all` are the methods; `handle` is a round of the
-- loop of `idle` over what epoll_wait reported.
--   IoManager/Table: the contexts and their count. IoManager/Invariant: the invariant, and below it
--   the changes of a mask (Events), of one registration (Steps), of several (Triggers, Settling),
--   and the methods (Safety, Reports).
-- Descriptors are not negative. The size of the table is converted to an int as in the code
-- (`in_table`). The invariant holds it below 2 ^ 31, where the conversion keeps it and the count of
-- pending events does not wrap; addEvent keeps it there for descriptors below 2 ^ 30, since it grows
-- the table to one and a half times the descriptor.
--
-- FdManager (FdManager.antt) models xupeng/fd_manager.h and fd_manager.cc: `FdCtx` and the table
-- m_datas; what fstat says of a descriptor is an argument. FdManager/Lookup: get and del.
--
-- Fiber (Fiber.antt) models xupeng/fiber.h and fiber.cc for the fibers of one thread: m_state, m_cb,
-- whether there is m_stack, and t_fiber (`current`). `swap_in` goes up to the switch back; how the code
-- of the fiber gives up the thread (`Leave`) is an argument. Fiber/Switches: what a switch changes.
--
-- Scheduler (Scheduler.antt) models the queue of xupeng/scheduler.h and scheduler.cc: m_fibers,
-- m_activeThreadCount, m_autoStop and m_stopping, `schedule`, the search of `run` for a task (`pick`,
-- recursion on the queue) and `stopping`. Scheduler/Picking: which task is taken.
-- Scheduler/Run models the loop of `run` on one thread: `round` is one round, and what the fiber that is
-- switched into schedules, and how it leaves, is the argument `visit`, so that a sequence of rounds
-- stands for any behaviour of the fibers; `fresh` is the address of a new fiber.
--   Scheduler/Run/Fates: the fiber of a task. Sound: the invariant of the loop. Safety, Reuse, Callbacks,
--   Tasks, Rounds: the branches of a round, and the round.
--
-- Log (Log.antt) models xupeng/log.h and log.cc: LogLevel, LogEvent and the subclasses of FormatItem;
-- strftime with localtime_r is the argument `date`. Log/Pattern: LogFormatter::init, whose outer loop
-- runs on fuel, one more than the pattern has bytes, and whose inner loop is structural recursion.
-- Log/Loggers: Logger, the two appenders and LoggerManager on a heap of addresses (`Store`); a new
-- object's address is an argument, and an address not in use reads as a new object. `log` runs on
-- fuel for the loggers that it goes up through; 2 is enough, since only the root is gone up to.
--   Log/Pattern/Scanning, Printing: the parser. Log/Loggers/Wired: the invariant of the heap.
--   Log/Loggers/Delivery: which appenders write. Log/Loggers/Reached: the steps of a manager.
--   Log/Loggers/Inheritance: setFormatter. Log/Loggers/Config: the listener of LogIniter.
--
-- Http (Http.antt) models xupeng/http/http.h and http.cc, which CMakeLists.txt does not build: PARSE_PARAM
-- lacks a semicolon behind its first `break`, and is read as if it stood there. Http/Map: the
-- `std::map` under CaseInsensitiveLess as the list of its entries; Http/Map/Order, Sorting,
-- Alike and Refinement: its operations. Http/Methods: HTTP_METHOD_MAP. Http/Request: HttpRequest; PARSE_PARAM
-- runs on fuel, one more than the string has bytes, since every round takes a byte at least.
-- Http/Request/Parsing, Cookies: the parsing, and what deleting does behind it. Http/Printing:
-- HttpResponse and the two `dump`. UrlDecode, Trim and Time2Str, which the repository lacks, and
-- HttpStatusToString are arguments.
--
-- Address (Address.antt) models xupeng/address.h and address.cc: `Address` has a constructor for each
-- subclass, with the fields of its sockaddr, and `get_addr` lists the bytes that getAddr points to.
-- Address/Masks: CreateMask, CountBytes (on as many rounds as the type has bits) and the addresses made
-- from a prefix; below it Counting, Bytewise, Prefix, Lengths and Prefix6. Address/Order: operator< and
-- operator==; Lexical, Comparing. Address/RoundTrip: Create. Address/Resolve and Interfaces: Lookup and
-- GetInterfaceAddresses, with getaddrinfo and getifaddrs as arguments; Address/Interfaces/Multimap: its
-- std::multimap, a list in the order of the names; Listing: what it holds. Address/Unix: UnixAddress.
-- Address/Printing: insert.
--
-- Config (Config.antt) models ConfigVar of xupeng/config.h; the types of values, by their typeid, are an
-- argument with `==` and the conversions. Config/Listeners: its callbacks. Config/Registry: Config with
-- config.cc, on a heap of variables; the nodes of yaml-cpp are an argument, and ListAllMember runs on fuel,
-- of which more than the depth of the document is enough. Config/Registry/Lookups: what a name gives;
-- Names, Listing: which nodes of a document are listed; Loading: what a document does.
--
-- Socket (Socket.antt) models xupeng/socket.h and socket.cc: `Socket` has m_sock (`none` for -1), the family,
-- m_isConnected and both addresses; an `Os` holds what the system calls answer, and a method gives the
-- list of the calls that it makes. Socket/Descriptors: what is opened and closed. Socket/Lifecycle: the
-- methods as steps. Socket/Transfers: sending, receiving and the options.
--
-- Hook (Hook.antt) models do_io and connect_with_timeout of xupeng/hook.cc, with the contexts of FdManager.
-- What the system calls answer is a list of answers, and what happens in each wait for an event a list of
-- waits; `retry` is structural recursion on the answers. Hook/Waiting: the timers and the result.
-- Hook/Control: the sleeps, close, fcntl and ioctl; Hook/Control/Flags: the flags that a program sees.
--
-- Prelude: tests, lists, slices, bits, words, integers, texts and outcomes.
--
-- Not modelled: toHexString, writeToFile and the destructors; addConditionTimer, which wraps a callback;
-- start, stop and the threads of Scheduler; the wait and the pipe of IOManager::idle; YAML in log.cc, and
-- the line that its listener logs itself; the text of a Socket and its cancel methods; the conversions of
-- containers in config.h; the rest of hook.cc; the locks, and the wrappers of pthread and libc.
pub mod Prelude
pub mod Address
pub mod Config
pub mod Socket
pub mod ByteArray
pub mod Timer
pub mod IoManager
pub mod FdManager
pub mod Fiber
pub mod Scheduler
pub mod Log
pub mod Http
pub mod Hook
