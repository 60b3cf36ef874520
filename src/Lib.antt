-- ===== src/Lib.antt =====
-- SmartMet Server: the HTTP server of SmartMet, which reads requests from persistent connections, hands
-- them to the plugins of a reactor through three thread pools, and writes the replies.
--
-- The parts and the files that model them:
--   Base, Text      shared names; std::string's searches and slices over lists of bytes
--   World           what the server calls and does not implement, as one record of functions: HTTP
--                   messages and handlers of the SmartMet libraries, sockets, pools, clocks, compressors
--   Utility         source/Utility.cpp: Tokens (hasHeaderToken, negotiateVersion), Hex
--                   (convertToHex), Head (peekRequestHead), Coding (select_content_encoding, compress_response), Files
--                   (makeDateString, dumpRequest, readPassword); Segments, Elements and TokenSpec
--                   read a comma separated value by recursion on its bytes, against Tokens; FirstLine
--                   is about readPassword, and HeadLines, HeadSpec, HeadVersion and HeadExpect are
--                   about Head
--   Limits          source/Server.cpp: getRequestTimeout, getCancelOnDisconnect
--   Server          source/Server.cpp and source/AsyncServer.cpp:
--     Configuration, Construction   the constructors, with the configuration, and what a new connection
--                   copies; PluginLimits and Readiness are about them
--     MemoryStatus, MemoryTimer   the memory log; MemoryFields is about it
--     Allocator     getMallctl, and the lines of the log that depend on it
--     Accept        startAccept, handleAccept, the connection counter, defaultMaxConnections
--     Fleet, FleetSteps   the accept loop together with the connections that it starts
--     Shutdown      the sections of run and shutdown under the executor lock, with shutdownServer, and
--                   the wait for the workers
--     Workers       the worker threads and their count
--   Daemon          main/smartmetd.cpp:
--     EventRate     MaxEventFreq; RateSpec is its specification
--     NewHandler    set_new_handler and the handlers
--     Signals       signal_handler, handle_signal, stop_server and the loop of main; SignalLoss is about it
--     Watchdog      sigint_watchdog
--     Startup       get_server_threads and main up to its loop
--     Masks         block_signals, init_signals, crash_signal_handler
--     Process       the threads, the signals that they take and the loop; Blocking is about the masks
--   Connection      source/AsyncConnection.cpp and source/Connection.cpp:
--     State         the members of include/Connection.h and include/AsyncConnection.h
--     Headers       statusHasNoBody, setServerHeaders, setConnectionHeaders, appendStaleDirectives,
--                   evaluateKeepAlive, stripHopByHopHeaders
--     Reply         finishResponse, sendSimpleReply, sendStockReply, rejectConnection
--     Regular       startRegularReply, writeRegularReply, notifyBackendFinished, finalizeStreamLogging
--     Stream        the streamed replies: getNextChunk, getNextChunkedChunk and the writers
--     Execution     handleCompletedRead, createCancellationToken
--     Request       handleRead, handleParsedRequest, scheduleRequest, handleExpectContinue
--     Timer         handleTimer, start, handleHandshake, the destructors
--     Operations    the operations that a connection starts, and which of them may follow which
--     Session       the events of a connection, and its histories with the operations outstanding
--     Starting, StartingReplies, StartingRequests, Protocol, Sequential   which operations each handler
--                   starts, and the induction over histories with one operation outstanding
--     Negotiation   the version and the persistence that a request leads to
--     Pipelining    what becomes of the bytes of requests that are sent ahead; RefusedRead is about a
--                   read that is refused
--     Awaiting, Quiet, Persistence, Announcement, Framing, Intake, Timeout, HeadReply,
--     Delivery, Chunks, Expectation, Settling, SettlingReplies, SettlingTimer, RequestCount,
--     RequestBound, Pieces, Streaming, ChunkedReply, LengthReply   theorems about these: the last four
--                   run the getters and the writers of a stream against a socket that takes a write in pieces
--     Steady, History   what no event of a connection changes
--     Reports       the texts of reportError and reportInfo
--   LoadTest        loadtest/Tester.cpp: Status and StatusSpec (parseStatus), Requests (readReqFile,
--                   performRequest, handleSignal), Progress (printProgress), Run (the class Tester
--                   over the events of a run, and main); Conservation and Suite are about Run
--   Names           source/Names.cpp
--   Demo, Tests     a small concrete world, and the theorems at concrete inputs
--
-- A handler is a function from the connection's record to the new record. A call to the outside is an
-- effect that the handler puts on the connection's log, newest first, and an answer from the outside
-- (the outcome of a write, a full task queue, the shutdown flag, the progress of a stream) is an
-- arbitrary function of that log. The handlers of other threads are further steps: a handler runs as
-- one step, and the log and the record are all that it sees. The source's asynchronous operations
-- are effects of their own. A history (Session) keeps the list of those that are outstanding: any of
-- them may complete next with an arbitrary outcome, also behind a timeout, and the timer may fire at
-- any time with any stamp.
--
-- Strings are lists of bytes. Sizes are plain numbers where they count bytes in memory, and keep the
-- wrap-around of std::size_t and std::uint64_t where the code subtracts them or lets them run
-- (sub_size, next_generation). A loop over a string runs on rounds, more than the string has bytes.
--
-- The wait of shutdown has its 2000 rounds and the watchdog its 1200, as in the code. The two halves of
-- a round of main's loop, the sections of run and shutdown under the lock, and the entry and exit of a
-- worker are steps of their own, so that signals and threads come between them.
--
-- Signals go by the numbers of signal(7) on Linux where the code has no case for them. What a signal's
-- default action does is a parameter; SIGKILL and SIGSTOP cannot be blocked, whatever a mask says, a thread that blocks a signal does not take it, and a new thread
-- has the mask of the one that starts it.
--
-- Not modelled: what the log lines of a connection say beyond their message and the text around it,
-- exceptions that the libraries throw out of a handler (each handler catches them and logs), the locale
-- and the task group of main/smartmetd.cpp, which are libraries (that handle_finished calls
-- on_task_error's function for a task that failed is an event of the loop; what the group calls back
-- while stop_server waits for the last tasks, which may be shutdownServer once more, is not in the
-- calls), the stack trace library in
-- include/backward.h, and of the load tester the functions that nothing calls (testRequest,
-- dumpRequests) and the layout of a printed result.
pub mod Base
pub mod Text
pub mod World
pub mod Limits
pub mod Names
pub mod Utility
pub mod Connection
pub mod Demo
pub mod LoadTest
pub mod Tests
pub mod Server
pub mod Daemon
