-- ===== src/Lib.antt =====
-- async-ping: a server that pings lists of hosts on request.
--
-- A request for /net/ping comes to the master (src/HttpServer.cpp, src/HttpHandler.cpp), which
-- makes a task of it (src/Task.cpp) and hands it to a worker (src/TaskWorker.cpp) through a queue
-- (src/common/CommonList.h) and a pipe. The worker starts every ping of the task (src/Ping.cpp):
-- it sends an ICMP packet (src/IcmpPacket.h) and sets a timer. An answer or the timer ends a ping;
-- when all are done, the task goes back through the master's queue, and the master answers.
--
-- Prelude and its children hold the shared names: tests, lists, signed integers, byte buffers of a
-- little-endian host. Dictionary is std::map, Fifo is what the queue promises.
--
-- IcmpPacket models src/IcmpPacket.h, IcmpPacket/Checksum is about its checksum, and
-- IcmpPacket/Constructors compares its constructors. Wire models the payload that Ping::start
-- writes and the reads of socketReadHandler, Wire/RoundTrip joins them, Wire/Echo has the whole
-- handler, from the datagram to the task. Ping and Task model src/Ping.h and src/Task.cpp,
-- Task/Construct and Task/Servers are about the constructors.
--
-- TaskWorker models the handlers of src/TaskWorker.cpp and src/Ping.cpp: notifyEventHandler is
-- notify_event, doTask is do_task, Ping::start is start, Ping::handleTimeout is handle_timeout,
-- onReceive is on_receive. Its children hold the invariant (Invariant), how it survives a write
-- and a completion (Moves, Pings), the start of a task (Starting), and the handlers (Handlers,
-- Notify), and a task without pings (Stuck). Local is about which task a handler touches, its
-- child Starts about the start of a ping. Effect has what a handler does to the tasks at work, its
-- child Kept what all handlers keep, Outcomes the tasks that a handler leaves, Alike and Grown
-- what it keeps of them, Told what happened to a ping of which the status is known, and Taking what
-- a wake-up does to the queue. Weight and Falling are about what is left to do and what a handler
-- does to it, Collision about two tasks of one microsecond.
--
-- CommonList models the nodes of src/common/CommonList.h on a heap: CommonList/Stack is List,
-- CommonList/Dequeue is ConcurrentDequeue, with one child for chains of nodes (Links), one for
-- each end (Operations, Pop), one for a lock that is refused (Refused), one for what Fifo says of
-- it (Refinement), one for histories of calls (History), one for the allocated nodes (Extent), and
-- one for what a queue leaves allocated (Leak, with the destructor's walk in Leak/Walk). The spin
-- lock is what its functions return; what runs under it is one command.
-- CommonList/Dequeue/Destructor and CommonList/Stack/Destructor are about the walks that free the
-- nodes, which run on fuel: a round for each node and one more suffice.
--
-- Common models src/common/Common.cpp and the text of src/common/JsonValue.cpp, and Singleton the
-- threads in getInstance of src/common/Singleton.h. Main is the order of what src/Main.cpp does.
-- Prototype models src/PingPrototype.cpp, which stands alone; Prototype/Reply is about an answer
-- to its packet. ThreadWorker models src/common/ThreadWorker.cpp, Logger models src/Log.cpp, and
-- Startup the set-up of worker, server and logger as traces of calls; Run and Order below them
-- hold the proofs. Fifo has an interface of a queue, with its laws. CommonList/Dequeue/Interface
-- implements it, Logger/Shared is the logger over it, and Logger/Concurrent puts the two together.
-- Logger/Text prints the lines, for a localtime that is given; Stamp and Lines below it read them.
--
-- HttpServer models handlePingReq (handle_ping_req) and tryRespEventHandler (try_resp_event), with
-- HttpResponse for src/HttpResponse.cpp; its children hold the invariant of the whole, the two
-- handlers, the answers, the body of a request (Input), the registered paths (Registry), and
-- histories of steps (Run), with what one step does (Steps), what a request waits for (Liveness)
-- and what the server's own handlers do to its tables (Drain), what may be answered to a request
-- (Verdict), what the server promises (Service), histories beside that promise (Table,
-- Refinement), and what happened to the pings of which a response has the results (Reported,
-- Heard). Tests holds runs and instances.
--
-- A task is an address; the tasks at work, those queued and those to be answered share one heap,
-- and a pipe is the number of its unread bytes. A handler is a function from state to state;
-- `none` stands for an access beyond an array. The two threads interleave handler by handler: what
-- a handler shares with the other thread is the two queues, which are locked. There is one worker,
-- as WORKER_NUM says. Time, the network's answers, fresh addresses, bytes of fresh memory and what
-- jsoncpp returns are arguments. Times are plain numbers; the difference that a response shows is
-- an integer of microseconds, where the code prints a thousandth of it as a double. The loop over
-- the servers of a body runs on fuel: a round for each server and one more suffice below 65536
-- servers.
--
-- The stamp of a task is the time at which it is taken, and a key of doingMap. The source does not
-- test that no task at work has it. A history "in which each task that is taken finds a time of its
-- own" (Apart, Unused in HttpServer/Run) is one in which none has, each time that a task is taken;
-- TaskWorker/Collision is about the other case.
--
-- doTask is modelled with one read of totalCount, which nothing changes, where the source reads it
-- again in each round. An answered task stays readable on the heap, where tryRespEventHandler deletes
-- it: reads after that do not show in the model.
--
-- Not modelled: jsoncpp and libevent, what the set-up calls do, the destructors of worker, server
-- and logger, closePipe (which nothing calls), the handlers that do nothing (handleSshReq and its
-- kin, rotateLog), and the template demo.
pub mod Prelude
pub mod IcmpPacket
pub mod Wire
pub mod Fifo
pub mod Dictionary
pub mod Ping
pub mod Task
pub mod TaskWorker
pub mod HttpResponse
pub mod HttpServer
pub mod CommonList
pub mod Logger
pub mod ThreadWorker
pub mod Startup
pub mod Common
pub mod Singleton
pub mod Main
pub mod Prototype
pub mod Tests
