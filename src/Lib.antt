-- ===== src/Lib.antt =====
-- pskDB, an eventually consistent key-value store in Go: server processes that replicate a store,
-- client processes that put and get, and a master that reads commands and tells both what to do.
-- The processes talk by net/rpc. A server gossips heartbeats, which carry its membership list and its
-- Lamport clock; it sends each write to all members (ProcessRemoteWrite), and on `stabilize` its
-- whole store, in rounds (SendKVData). A client remembers the version that it has seen of each key and
-- sends it along; a server whose entry is older answers ERR_DEP.
--
-- The files and the code:
--   Prelude            integers, tests, lists, case splits, the order of texts and sort.Strings
--   Dict               Go maps, as association lists in the order of a `range`
--   Timestamp          GetLamportTimestampFromSeqnum of server/server.go, the operations on timestamps
--   Common             common/structs.go, the errors of a call, common/logger.go, listening
--   Server.State       server/structs.go and the global variables of server/server.go
--   Server.Clock       the Lamport clock of server/server.go
--   Server.Connect     getRPCConnection, AsyncCallHandler, the loops that send one call to all members
--   Server.Store       PutKVServer, GetKVServer, ProcessRemoteWrite, SendKVData of server/rpc.go
--   Server.Membership  JoinClusterAsServer, NewServerNotification, GetServerInfo,
--                      HeartbeatNotification, KillServerNotification of server/rpc.go
--   Server.Links       CreateConnection, BreakConnection, KillServer of server/rpc.go
--   Server.Heartbeat   a round of startHeartbeats of server/server.go
--   Server.Stabilize   Stabilize of server/rpc.go
--   Server.Step        all that changes a server, as one step function
--   Server.Replica     the specification of a server's store, a register for each key
--   Server.Invariant   the well-formedness of a server
--   Server.Printing    PrintStore and PrintMembershipList of server/rpc.go, as texts
--   Server.Shutdown    KillServer of server/rpc.go and the heartbeat thread, which share a mutex
--   Server.Startup     main of server/server.go
--   Server.Interleaved PutKVServer and a heartbeat round, with other handlers in them
--   Client             client/client.go and client/structs.go
--   Cluster            servers that send one another their stores: the messages, and in
--                      Cluster.Schedule the loops of Stabilize that send them; in Cluster.Writes
--                      a put and its remote writes at the other servers; in Cluster.Joining
--                      the calls of a server that joins at all of them; in Cluster.Network
--                      all that servers do and send, in any order; in Cluster.Mutexes
--                      the mutexes of server/server.go under all handlers at all servers
--   Master             master.go: Nodes, Links and Requests have the commands, Commands the
--                      switch, Script the loop over the lines of the input, Launch the
--                      processes that it starts, against main of server/ and client/
--   Samples            runs at concrete inputs
--
-- A handler is a function from the state before it to the state after it, the reply, and the actions
-- that it takes outside its process: calls, closed handles, the end of the heartbeat thread. It is
-- taken as one step. Most handlers hold their mutexes to the end, which makes them one;
-- BreakConnection frees that of the membership list at once and then writes it, so for it this is an
-- assumption. PutKVServer does so too, and a heartbeat round frees the mutex of the clock before it
-- reads it again: Server.Interleaved has the two with other handlers in between. Stabilize, which
-- frees its mutexes on the way, takes what the others do meanwhile as a parameter. The `dial`, the
-- outcomes of calls, the permutation of rand.Perm and the readings of the local clock are parameters
-- too; one handler reads the local clock once. A panic is `none`.
--
-- Bounds and fuel. A timestamp is a whole number of millionths where Go has a float64, so the fraction
-- of an id of up to six digits is exact, and no sum is rounded. The float64 is rounded, the more the
-- greater it is, and from 2^53 on it has no fraction and adding 1.0 leaves it as it is: what is shown
-- of timestamps is shown of clocks so far below that, that the rounding makes none of them equal. The heartbeat's sequence number wraps at
-- 2^63; durations do not. The loops of main in server/server.go and of joinServer and joinClient in
-- master.go have no bound in the code: they run on fuel, the number of rounds that are looked at.
--
-- Not modelled: the messages that are logged; a read or write of one variable by two goroutines at
-- once (Cluster.Mutexes says where it can happen); the rounding of float64; registration with
-- net/rpc, which is a call of a library, as resolving and listening are, which are parameters;
-- Makefile and Tests. The functions of the package color are a parameter.
pub mod Prelude
pub mod Dict
pub mod Timestamp
pub mod Common
pub mod Server
pub mod Client
pub mod Cluster
pub mod Master
pub mod Samples
