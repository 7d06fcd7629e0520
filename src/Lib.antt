-- ===== src/Lib.antt =====
-- The core of syslog-ng 6.0: how messages are counted, kept and acknowledged on their way from a
-- source to a destination, the filters that choose among them, the timers of the pattern database,
-- and the formats that the program writes and reads.
--
-- A source (lib/logsource.c) may have only so many messages in flight: it takes a place of its window
-- for each message that it queues, and its ack tracker (lib/late_ack_tracker.c,
-- lib/early_ack_tracker.c) gives the places back when the messages are acknowledged. The late tracker
-- keeps a record with a bookmark for each message in flight, in a ring buffer (lib/ringbuffer.c), and
-- saves bookmarks in the order in which the messages came, whatever the order of acknowledgements. A
-- destination keeps its messages in a queue (lib/logqueue-fifo.c), which drops or acknowledges those
-- that it gives up and keeps those that were sent but not acknowledged in a backlog.
--
--   Common.antt        helpers: Boolean tests on native numbers, lists by native index, and
--                      `Outcome`, the result of code that may abort by g_assert or a null pointer
--   RingBuffer.antt    lib/ringbuffer.c: `RingBuffer`, and each ring_buffer_* function under its name.
--                      The fields are 32 bits wide and wrap; an element is named by its slot. Slots
--                      is the list of slots in use, Bounds the invariant, Queue the refinement to
--                      that list, Distinct about slots that differ
--   LogSource.antt     lib/logsource.h and lib/logsource.c: the window, suspension, wakeup and the
--                      measurement of the rate of acknowledgements; the clock is an argument. Of
--                      log_source_queue only the part that takes a place of the window
--   AckTracker.antt    lib/ack_tracker.h, lib/bookmark.h, lib/late_ack_tracker.c,
--                      lib/early_ack_tracker.c. Memory, Release, Released and Acknowledge are
--                      about the acknowledgement, Track about bookmarks and new messages, Flow about the
--                      window, Run about a source at work as a relation of steps
--   LogQueueFifo.antt  lib/logqueue-fifo.c, with log_queue_set_use_backlog of lib/logqueue.h: the three
--                      queues and the backlog as lists, with the lengths and counters that the
--                      code keeps beside them. Event has sequences of calls,
--                      Weights, Conserve, Order and Drops what happens to the messages, Invariant
--                      and States the lengths
--   RefCache.antt      lib/logmsg.c, the counters only: references and expected acknowledgements of a
--                      message in one word, and the variables in which a thread caches its changes
--                      (`MsgRefs`). Fields is about the word, Cached about a thread that caches,
--                      Direct about one that does not, Refine about the two
--   Serialize.antt     lib/serialize.c: archives as the interface `ArchiveOps` with two
--                      implementations, on a string and on a buffer. Contract says what an archive
--                      promises; RoundTrip is about values through any archive that keeps that
--                      promise, Archives about the two, Errors about failures
--   StrFormat.antt     lib/str-format.c: numbers and timestamps, formatted into and scanned from lists
--                      of bytes. Padded and Numbers are about numbers, Fields, Months and
--                      Timestamps about the scans, Trim about str_rtrim
--   Filter.antt        lib/filter.c, lib/filter-in-list.c: `FilterExprNode` has a constructor for each
--                      class, with its `comp` first; filter_expr_eval evaluates, Setup initialises
--                      (with log_pipe_init of lib/logpipe.h), Build makes nodes. Nodes of filter()
--                      are kept in a store, since they refer to one another's rules; the fuel counts
--                      how many of them are entered inside one another. Negation and Order are about
--                      operators and comparisons, Membership about priorities and networks, Loops
--                      about the search for loops, Ready, Resolve and Evaluate about what it leaves
--   KvFormat.antt      modules/kvformat: the scanner of name=value pairs and the loop of the parser.
--                      Audit has the values of Linux audit, Escape the escaping of lib/utf8utils.c and
--                      the template function format-welf. Characters, Quoted and Plain are about
--                      values in the two forms, RoundTrip about the two ways, Progress about the loop,
--                      Hexdump about the decoding
--   ParseNumber.antt   lib/parse-number.c: numbers with the suffix of a unit; Suffixes is about the
--                      suffixes
--   TypeHinting.antt   lib/type-hinting.c: names of types and casts of texts to booleans, integers and
--                      datetimes; Dates is about numbers and datetimes
--   TimerWheel.antt    modules/dbparser/timerwheel.c: timers in four levels of slots and a list of far
--                      ones. The calls of callbacks are kept in a list, `fired`. Held has the weight of
--                      the timers held, Count how it changes, Reach the wheels reached, Round and
--                      Short timers within a turn of the first level
--
-- A function that changes a structure returns the new one. One call is one step: the functions run
-- under a lock, or in one thread, as the sources say. Counters of stats.h and the window are 32 bits
-- wide and wrap, `len` of an input queue has 16 bits, a gsize has 64; a gint whose overflow C leaves
-- undefined is a number, and a gint64 wraps. Loops recurse on the number of their rounds, or on
-- their list; the loops that format a number have the 32 or 64 rounds of their buffer, which is more
-- than a number has digits.
-- Parameters: `ack_func`, the callback of a message, `g_ascii_isspace` of GLib, and `try_alloc`,
-- whether GLib's g_try_malloc and g_try_realloc give a block of a size, `Utf8`, the functions of
-- GLib on UTF-8, `g_inet_aton`, the system's reading of an address, and, of parts of the program that
-- are not modelled, matchers and templates.
--
-- Not modelled: the effect of acknowledgements on reference counts, the memory of nodes, statistics,
-- the mangling of host names, the archive on a stdio file, IPv6 netmasks, callbacks of timers that
-- change the wheel, casts to floating point, the pattern database, the drivers, other parsers,
-- matchers, templates, the configuration and its generated grammars, the main loop, and the Java
-- bindings.
pub mod Common
pub mod RingBuffer
pub mod LogSource
pub mod AckTracker
pub mod LogQueueFifo
pub mod RefCache
pub mod Serialize
pub mod StrFormat
pub mod Filter
pub mod KvFormat
pub mod ParseNumber
pub mod TypeHinting
pub mod TimerWheel
