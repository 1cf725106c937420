-- ===== src/Lib.antt =====
-- BACnet event server: a gateway that receives JSON messages from KurrentDB, keeps the objects in a
-- Redis cache and serves them over BACnet with change-of-value (CoV) notifications.
--
-- A message arrives at on_event_received (src/main.c), which finds the instance offset of its
-- subscription, parses it (src/message_handler.c), and lets the handler change the cache
-- (src/redis_cache.c) and the server (src/bacnet_server.c); on success the stream position is
-- stored. The server keeps a list of objects and a list of CoV subscriptions, and notifies
-- subscribers when a value changes by the increment. Logging (src/logging.c) and the health API
-- (src/health_api.c) serve all parts.
--
-- Files:
--   * Base: numbers, lists, C strings and text (Text), text printed in pieces into a buffer
--     (Buffer), `sscanf` of numbers, the interface of cJSON (Json), counters of fixed width and the
--     floating-point operations (Words). Floating point is a parameter: a `double` is its bit
--     pattern. Samples has a concrete JSON library and arithmetic for the tests.
--   * Bacnet, src/bacnet_server.c: Model has the structures, Objects creation, deletion and
--     lookup, Cov updates, notifications, subscriptions and lifetimes; a function takes the server
--     and returns the new one with its result. The calls of the BACnet stack are a log in the
--     server. Invariant has the well-formedness of the server, Refinement a map as the specification
--     of the registry, Task the task thread, and Destroy the end; Registry, Subscriptions,
--     Notifications, Lifetimes, Drift and Mirror have the behaviour of the operations. Allocation is
--     an answer that the caller of an operation gives.
--   * Message, src/message_handler.c: Model has the structures, Timestamp, Types, Fields and Parse
--     the parser, which returns a message or the error code, Process the calls that a message
--     causes, over an interface of the cache and the server (Services). Requirements, WellFormed and
--     Lossless are about the parser.
--   * Redis, src/redis_cache.c: Client has the connection and the commands of hiredis, Keys the
--     keys and the members of the index, Objects, Index and Positions the operations; Frame,
--     Deletion, Roundtrip and Reload are about them. What Redis documents is the record RedisLaws (Laws), with
--     its parts StringLaws and HashLaws, and ErrorLaws (Deletion) for refused commands; Sample is a Redis that meets it (Example has an object for the tests). View sees the cache as a
--     map of objects and a map of positions, Room has the prefixes that leave room for every key,
--     Live the connected cache. Indexed, Listing, Visited, Kept and Steady are about the index and
--     the iteration over it; what Redis documents of sets is the records SetLaws and SetRules.
--   * Kurrent, src/kurrentdb_client.c: Curl is the interface of libcurl, Response the collection
--     of an answer's body, Address the connection string, Client the connection, Subscriptions the
--     persistent subscriptions and acknowledgement, Events the entries of a page, Poll and Catchup
--     the two threads; Login, Identity, Steady and CaughtUp are about them. The client's functions
--     here are those of the C file, not those that its header declares.
--   * Gateway, src/main.c: Events has the subscriptions, the callback and recovery, Startup the
--     actions of main under each answer of its environment, Config the configuration; Loading and
--     Delivery are about them. Unmoved has the positions that a message leaves alone. Threads has the task thread and the loop of main. Cached fills the
--     handler's interface with the functions of the Redis cache, next to a server; Effects says what
--     a message does to a view of the cache, Arrivals has a run of events and its replay, and After,
--     Durable, Replayed and Recovered are about them.
--   * Logging, src/logging.c: Levels, Escape (escaping, stripping, file names), Files (a directory
--     and the rotation of backups), Line (the configuration and the formatted line), Sink (the state
--     and the operations) and Run (sequences of calls); Escaping, Clean, Paths, Rotation, Rotated, Cut,
--     Counted, Writing, Limit and Session are about them. A directory is a function from paths to
--     contents; what the clock, fopen, stat and fwrite answer is the record Env of a call. rename and
--     unlink never fail in the model, while the code ignores their results.
--   * Health, src/health_api.c: Histogram, and Buckets about it; Checks has the health checks and
--     their two answers, Readiness is about them. Metrics has the counters and the text of /metrics,
--     Http the requests, the routes and the replies, Server the start, the thread and the end;
--     Lines, Short, Room and Requests are about them.
--
-- Lists stand for the linked lists and arrays, in their order. Loops are recursion over these lists
-- and over texts; the printing of numbers in Base.Decimal has fuel, one more than the number, and
-- the threads of Kurrent have a number of rounds, which Kurrent.CaughtUp bounds. Counters wrap at
-- their width. One call at a time is modelled: each operation of the server holds its lock for the
-- whole of its changes.
--
-- Not modelled: sockets, threads that run at the same time, the BACnet stack and printing, which are
-- input and output around the modelled core; bacnet_server_load_from_cache, which passes a block to a
-- function that does not take one and converts a union as a number, so that it is no C. The functions
-- that include/bacnet_server.h declares have no implementation with those types in the repository:
-- where src/message_handler.c and src/main.c call them they are parameters.
pub mod Base
pub mod Bacnet
pub mod Message
pub mod Gateway
pub mod Logging
pub mod Health
pub mod Redis
pub mod Kurrent
