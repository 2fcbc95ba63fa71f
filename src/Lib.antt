-- ===== src/Lib.antt =====
-- zmqcat: a message bus for processes that talk over one socket. Mailboxes queue jobs for competing
-- takers, topics fan messages out to subscribers, and a small framed protocol carries both.
--
-- The parts and their files. Paths are from the root of the repository.
--
-- Mailbox: internal/mailbox/mailbox.go. The bus, `Bus`, is one record: mailboxes, subscribers, the
--     last-value cache, the deduplication index, leases, the heap of channels and the disk. A method
--     that holds the lock is one function on it, and takes an `Env`: the time, the next value of
--     `newID`, the order in which a range over a map visits the keys, and how the write of the state
--     file ends. Calls that release the lock in between (`Take`, `Reserve`, `TryReserve`) take what
--     the other goroutines do meanwhile as a function. Mailbox/Defs has the data, Index the
--     deduplication index, Persist `persistLocked`, Boxes `boxLocked` and `deliverLocked`, Expiry the
--     leases that run out, Queues `Put`, `Take`, `TryTake`, `cancelWaiter` and `Requeue`, Leases `Hold`,
--     `Ack`, `Nack`, `Reserve` and `TryReserve`, Topics `Pub`, `Sub` and `unsub`, Life `NewWithLimits`,
--     `OpenPersistent`, `Close`, `Inflight` and `Depth`. Mailbox/Moves splits each critical section
--     into small moves, for the invariants. Mailbox/Office has the abstract view of a bus, queues and
--     leases alone, with the calls on it. The other files of Mailbox are named for what they prove.
-- Wire: internal/wire/wire.go. A connection is the bytes that it still takes or gives.
--     Wire/Room and Wire/Cut are about a connection that takes or gives only a part of a frame.
-- Args: cmd/zmqcat/args.go, `parseArgs`. Addr: internal/addr/addr.go; which addresses the net package
--     opens is an argument.
-- Hub: internal/hub/hub.go. A session is a record, and a pointer to one is its number. Hub/Ids has
--     ids, frames and durations, Hub/Leases the leases of a session and its `close`, Hub/Requests the
--     table of requests with `OpReq` and `OpRep`, Hub/Jobs `takeJob` and `reserveJob` from their
--     message on, Hub/Dispatch `handle`, Hub/Serving `New`, `ServeConn`, a round of `run`, a
--     tick of `heartbeat`, `pumpSub` and `Close`, over a `Server`: the hub with the sessions
--     that run. Whether a frame can be written is an argument. Each of these functions runs to
--     its end before another starts; Hub/Running has the runs of a server as sequences of such
--     steps and of critical sections of the bus.
-- Client: client.go. A client keeps the bytes that it has written and those that have come and are not
--     read. What comes while a call waits, how the connection or the deadline ends it, how many
--     bytes a write can leave, and the random bytes are the `Link` of that call, over the functions
--     of Wire. Client has ids and round trips, Client/Calls the calls.
-- Node: node.go. What `Serve`, `Join` and `Close` do to the world is written down as a list of
--     actions; what Tailcat, the sockets and the state file answer is a `World`. A node uses the
--     functions of Addr, Mailbox and Hub. Node/Starting has `newLocal`, `Serve` and `Join`,
--     Node/Accepting the accept loops and `splice`.
-- Command: cmd/zmqcat/main.go. Command has the flags, the ports and what is printed, Command/Clients
--     the commands that use Client, Command/Nodes `serve` and `join`, which use Node, and
--     Command/Program `main`.
-- Posting is about Client, Wire, Hub and Mailbox together: one `Put`, from the client to the bus.
-- Base: lists, texts, maps and tests on numbers that the parts share.
-- Tests: runs at concrete inputs.
--
-- How Go is read. A string or byte slice is the list of its bytes. A map is an association list that
-- holds a key once. Times and durations are nanoseconds, 0 is the zero time, and counters do not
-- overflow: the bus adds 1 to them a message at a time. The counters of ids and of sessions wrap
-- round at 2^64. The length in a frame's header is cut to 32 bits, and a product of durations in
-- the hub is an `int64`, which overflow makes negative. Loops run over lists, but for
-- three that take fuel: the digits of a number, where one more than the number is enough, and the
-- loops of `readSkipPing` and of `sub`, where one more than the bytes that come is enough, since a
-- frame takes eight bytes at least.
--
-- Parameters. `encoding/json` is a pair of functions in Wire. In the state file it is assumed to
-- give a state back as it was, which it does for names and ids that are valid UTF-8; bytes that are
-- no state give an error. A write of the state file can fail at each of its steps. The disk keeps
-- which contents have been synced, and what a crash may leave under the state file's name: contents
-- that were not synced may be lost, and a rename may be undone until the directory has been synced.
-- The flag package is given by its lookup and its parser. Values of `newID` are taken to be unused ids.
--
-- Not modelled: parallel runs of one part, since each critical section of the bus holds its lock; a
-- send to a waiter is taken not to block. The sweeper's timer, the network and the frames that a
-- session still handles while `Hub.Close` runs are left out, and so are the texts of errors and of
-- logs, the `Trace` callback, the bytes that `splice` of node.go passes on, `Client.Close` and
-- `usage`.
pub mod Addr
pub mod Args
pub mod Base
pub mod Client
pub mod Command
pub mod Hub
pub mod Mailbox
pub mod Node
pub mod Posting
pub mod Tests
pub mod Wire
