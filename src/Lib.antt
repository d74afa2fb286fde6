-- ===== src/Lib.antt =====
-- A model of the core of MyRPC, a C++ RPC framework, and what holds of it.
--
-- The program: a client's `RpcChannel` (src/RpcChannel.cpp) multiplexes calls over one TCP
-- connection. A request is a value that the `Serializer` (src/Serializer.cpp) writes as bytes,
-- framed by `RpcFramer` (src/RpcFramer.cpp): a 32-byte header (include/Protocol.h) and a body.
-- Received bytes are collected in a `Buffer` (src/Buffer.cpp), out of which the framer cuts
-- messages. On the server a `TcpConnection` (src/TcpConnection.cpp) does the same and hands the
-- messages to `RpcServer` (src/RpcServer.cpp), which routes a request by its method id to a
-- handler, within a limit, and sends the answer back. Servers are found through a registry
-- (src/LocalRegistry.cpp), and a client guards each of them by a circuit breaker
-- (src/CircuitBreaker.cpp) and bounds its retries (include/RetryPolicy.h).
--
-- The files:
--   Base: names, Boolean tests on machine numbers, and lemmas on lists that the models share.
--   Buffer: include/Buffer.h and src/Buffer.cpp, one function for each method, over a byte list
--     and two indices. Buffer/Contents: the buffer as a queue.
--   Protocol: include/Protocol.h; a field is the number in its C type, `encode_header` and
--     `decode_header` work on lists of bytes. Protocol/RoundTrip: the codec.
--   Framer: include/Message.h and src/RpcFramer.cpp; `decode` is the loop, with the messages of
--     its callbacks as a list. Framer/Bytes: `decode` against a grammar of byte strings;
--     Framer/Stream and Framer/Chunks: frames on a stream; Framer/Errors: refused headers.
--   RpcChannel: src/RpcChannel.cpp; the table of calls (`pending_`, `freeSlots_`), with
--     RpcChannel/Connection for the socket and RpcChannel/Events for reads and for runs of events.
--     RpcChannel/Table, Calls, Runs and ExactlyOnce: the ledger of calls; RpcChannel/Reuse: ids that
--     are used again; RpcChannel/Output: the queue of bytes to send.
--   Serializer: include/Serializer.h and src/Serializer.cpp; `Value` is the variant, with `encode`
--     here and the bounds-checked reader and `decode` in Serializer/Reader. Serializer/Varint and
--     RoundTrip: from values to bytes and back; Serializer/Total: `decode` on any bytes.
--   RpcServer: include/Router.h, include/ConcurrencyLimiter.h, include/RpcServer.h and
--     src/RpcServer.cpp; a request is a task, then a handler that runs, then an answer;
--     RpcServer/Events has the runs, RpcServer/Counts the limit and RpcServer/Answers the answers.
--   TcpConnection: include/TcpConnection.h and src/TcpConnection.cpp as built for Linux;
--     TcpConnection/Output: the bytes that are sent.
--   LocalRegistry: include/Registry.h, include/LocalRegistry.h and src/LocalRegistry.cpp;
--     LocalRegistry/Instances: what the operations do to the instances; Events: runs and the table
--     of leases that they stand for; Tracks and Leases: the registry against that table. Base/Maps
--     is `std::map`.
--   CircuitBreaker: include/CircuitBreaker.h and src/CircuitBreaker.cpp; CircuitBreaker/Probes:
--     what an open circuit lets through; CircuitBreaker/Isolation: for how long it is open.
--   RpcClusterChannel: include/RpcClusterChannel.h and src/RpcClusterChannel.cpp, the set of
--     instances; RpcClusterChannel/Attempts: calls, retries and backups; Events: what may happen in
--     any order. Membership: the instances after a lookup; Ledger and Completion: open attempts and
--     callbacks; Credit, Spending and Requests: how many requests a call makes; Hedging: a backup
--     with nowhere to go.
--   Pollers: include/Channel.h and src/Channel.cpp; Pollers/Poll and Pollers/Epoll: the two
--     pollers; Watching, Changes and Agreement: what they watch; Delivery: what `poll` hands out.
--   Scheduler: include/Scheduler.h and src/Scheduler.cpp, a step relation over the threads;
--     Scheduler/Counting, Turns, Handing and Places: where the coroutines are; Scheduler/Races: a
--     sleep that is interrupted before its switch or before the test of `done` behind it.
--   Histogram: include/Histogram.h and src/Histogram.cpp; Histogram/Buckets: what the written
--     counts stand for. Metrics: include/Metrics.h and src/Metrics.cpp; Metrics/Totals: rates and
--     totals.
--   MemoryPool: include/MemoryPool.h; MemoryPool/Sharing: who has an object, and its state.
--   ThreadPool: include/ThreadPool.h and src/ThreadPool.cpp. Acceptor: include/Acceptor.h and
--     src/Acceptor.cpp as built for Linux.
--   TcpServer: include/TcpServer.h and src/TcpServer.cpp; TcpServer/Events: what may happen in any
--     order; Serving, Accepting and Phases: the map, the gauge and the loops; Idle and Dangling: the
--     check for idle connections; Runs: all of this together; Shutdown: `stop`.
--   RegistryServer: src/rpc_registry_server.cpp, include/RegistryProtocol.h and `Value::find`.
--     RegistryClient: include/RegistryClient.h and src/RegistryClient.cpp; RegistryClient/Ports:
--     ports in the registry; RegistryClient/Values and Remote: client and server together, call by
--     call.
--   AiService: include/AIService.h, src/AIService.cpp and src/TaskCoordinator.cpp;
--     AiService/Answers: prompts and their answers.
--   EventLoop: include/EventLoop.h and src/EventLoop.cpp, one round on the loop's thread; a
--     functor is a number and a parameter says what it does. EventLoop/Rounds: queued functors and
--     the poll timeout; EventLoop/Timers: `runTimers` and its iterator; EventLoop/Keeping, Calls and
--     Fates: what it calls and what becomes of the timers.
--   LoadBalancer: include/LoadBalancer.h and src/LoadBalancer.cpp, the balancers by two choices
--     and by weighted rounds; LoadBalancer/Picks: what they pick; LoadBalancer/Ring: the one by
--     consistent hashing.
--   Retry: include/RetryPolicy.h; Retry/Budget: the budget and the backoff.
--
-- Bytes are numbers; fields of the header are bounded by `IsWire`, and where the code wraps to
-- 16, 32 or 64 bits the remainder is written out. `decode` runs on fuel, one more than the bytes
-- in the buffer: each round that goes on takes at least 32 bytes, so it never runs out (this is
-- part of what is shown about it). `Serializer::decode` runs on fuel, twice the number of bytes
-- and two: a nested reader starts behind at least one byte, and each call takes one unit. A
-- varint of 64 bits has at most ten groups, the bound of the reader's own loop. What the kernel
-- answers to `connect`, `read` and `write`, and the clock, are arguments of the operations. A
-- lock is taken around each access to the table, so an operation is one step and a run is a
-- sequence of steps in any order.
--
-- Not modelled: logging, the registration of callbacks with the event loop, the calls of metrics
-- and spans from the other parts (but for the gauge of connections), floating-point averages
-- (the observed times are kept as a list), the blocking wait of `RpcChannel::call`.
pub mod Base
pub mod ThreadPool
pub mod Acceptor
pub mod TcpServer
pub mod Buffer
pub mod Protocol
pub mod Framer
pub mod Serializer
pub mod RpcChannel
pub mod RpcServer
pub mod TcpConnection
pub mod LocalRegistry
pub mod RegistryServer
pub mod RegistryClient
pub mod CircuitBreaker
pub mod Retry
pub mod EventLoop
pub mod LoadBalancer
pub mod RpcClusterChannel
pub mod Scheduler
pub mod Pollers
pub mod Histogram
pub mod Metrics
pub mod AiService
pub mod MemoryPool
