-- ===== src/Lib.antt =====
-- zprocess: servers for locks and logs, their clients, and the coordination of processes.
--
-- The lock server (zprocess/zlock/server.py) gives named readers-writer locks to clients, which ask
-- for them over ZeroMQ (zprocess/zlock/__init__.py). A client that waits is told to retry now and
-- then; tasks with a due time (zprocess/tasks.py) tell it so, give up for clients that went silent,
-- and release locks whose timeout has passed. The log server (zprocess/zlog/server.py) writes lines
-- to files for many clients and closes the file of a client that went silent, again by a task; its
-- clients (zprocess/zlog/__init__.py) are logging handlers. Servers and clients of a program's own
-- exchange messages of a fixed kind (zprocess/clientserver.py). In each process a kill lock puts
-- SIGTERM off (zprocess/process_tree.py), queues carry objects between processes and events are
-- broadcast among them (the same file); a process starts others, which inherit its settings and
-- servers and whose output it may redirect (the same file and zprocess/process_class_wrapper.py),
-- and an interruptor (zprocess/utils.py) wakes threads that block in a queue or wait for a reply.
-- The sockets of all of them (zprocess/security.py) keep messages and connections from outside away
-- unless they are encrypted. A remote process server (zprocess/remote/server.py) starts processes
-- for clients on other hosts, and a SOCKS proxy (zprocess/socks) passes connections on, over several
-- hosts if need be.
--
-- Files and code:
--   Base: tests, lists, dicts, byte strings, floats, and the split of a message into route and body, which
--     both servers do (`_mainloop`).
--   Tasks: zprocess/tasks.py, Task and TaskQueue, method by method. Tasks/Bisect and Tasks/Order are
--     about the order of the queue, Tasks/Queued about the tasks it holds.
--   Zlock/Lock: class Lock of zprocess/zlock/server.py. Readers has its dictionary of readers, Valid
--     and Handover the invariant, Access and Release what its methods do, Order how they combine,
--     and Reached what any calls lead to.
--   Zlock/Server: classes LockRequest and ZMQLockServer of zprocess/zlock/server.py; State has the
--     server's state, Handlers the requests' arguments and the main loop; Requests and Retry have
--     theorems on a client's first request and on one that was given the lock while it was away.
--   Zlock/Client: classes ZLockClient and Lock of zprocess/zlock/__init__.py; Protocol has theorems.
--   Zlog/Server: classes FileHandler (Files) and ZMQLogServer of zprocess/zlog/server.py; Steps has
--     the invariant of its tasks, and Safe the main loop's theorem.
--   Zlog/Client: classes ZLogClient and ZMQLoggingHandler of zprocess/zlog/__init__.py; Delivery has
--     theorems on them and the server.
--   Process/KillLock: class KillLock of zprocess/process_tree.py; Deferred has theorems.
--   Process/Heartbeat: class HeartbeatClient of zprocess/process_tree.py, on the kill lock; Deferred has
--     a theorem on both.
--   Process/Interruptor: class Interruptor of zprocess/utils.py; Reach has its invariant.
--   Process/Queues: classes WriteQueue and ReadQueue of zprocess/process_tree.py; Outcomes has theorems.
--   Process/Events: classes EventBroker and Event of zprocess/process_tree.py; Topics has theorems.
--   Process/Tree: class ProcessTree of zprocess/process_tree.py; Launch has the parent's end
--     of a start, `subprocess`, and Connect the child's, `connect_to_parent`; Inherit and Addresses have the
--     theorems on what children get.
--   Process/Startup: class Process of zprocess/process_tree.py and zprocess/process_class_wrapper.py, as
--     moves of a starting thread, its child and threads that interrupt; Sound and Signalled are about all
--     moves, Talks and Dialogue about what the two ends know, Stuck and Progress about how a start ends.
--   Process/Output: classes StreamProxy and OutputInterceptor of zprocess/process_tree.py; Restored has a
--     theorem. Process/Rich: `rich_print` and class RichStreamHandler of the same file.
--   Messages: zprocess/clientserver.py. Data is `_typecheck_or_convert_data`, Server class ZMQServer
--     (Replies has theorems), Sender class _Sender (Calls has theorems).
--   Remote/Server: class RemoteProcessServer of zprocess/remote/server.py, with its timeout; Handler has
--     what clients call. Phases is the view of the server child by child, Polls and Timeout relate the
--     timeout to it, Answers and Requests the handler, and Forgotten is about children that die.
--   Remote/Client: class RemoteChildProxy of zprocess/remote/__init__.py, with its waiting calls (Waiting
--     has a theorem); Calls has its requests and those of RemoteProcessClient, answered by the server's
--     handler, and Calls/Controls a theorem on both.
--   Socks/Codec: zprocess/socks/__init__.py, with the theorems in Read and Packed. Socks/Recv, Rules and
--     Connection: classes RecvAll, AllowRule and SocksProxyConnection of zprocess/socks/server.py;
--     Connection has the side of a client, Connection/Serve that of the proxy, Handshake and Forwarding
--     the theorems. Socks/Text has the functions on texts of zprocess/socks/__init__.py, and Text/Routes
--     their theorem. The functions of binascii are parameters.
--     Lifecycle is class SocksProxyServer of the same file.
--   Security: zprocess/security.py. Socket is class SecureSocket, with the theorems in Received and
--     Connecting, and Authenticator class _ThreadAuthenticator. The record Library has what the code asks
--     the libraries for addresses and names.
--   Examples, under each part: tests, and the theorems at concrete inputs.
--
-- How the code is modelled. A method is a function with the name of the method; a method that
-- changes shared state takes the state and returns it, with a value or an exception (`Outcome`), and
-- what an exception left changed stays changed. Frames of messages, keys and client ids are numbers:
-- a frame is the number whose bijective base-256 digits are its bytes, so that frames can be
-- compared with the source's literals. A float is an integer in a fixed small unit, an infinity or
-- not a number, and rounding is left out. Sets are lists in which only membership counts, and a
-- dictionary is a list of pairs or a function. The clock is read once for each event. `set.pop`,
-- which takes an arbitrary member, `float` on a message, decoding and path functions, the file
-- system's answers, and what a socket's method to send takes are parameters. An XPUB socket is taken
-- to receive a subscription only if nobody is subscribed to its topic yet, and an unsubscription
-- only if nobody is left, as ZeroMQ documents it; a call that waits for one that does not come
-- blocks for good. A function that a task calls is a value of a data type. Polls report an explicit
-- list of events, over which the main loops recurse. The only fuel is that of `Tasks.bisect`: its
-- interval halves in each round, so it is given the length of the queue.
--
-- Not modelled: log files of the servers themselves, opening and closing of sockets and threads
-- (`run`, `run_in_thread`, `stop`), command lines, the deprecated module functions, keys and their
-- files, and the search for modules in a child.
pub mod Base
pub mod Tasks
pub mod Zlock
pub mod Zlog
pub mod Messages
pub mod Process
pub mod Remote
pub mod Socks
pub mod Security
