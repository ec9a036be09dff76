-- ===== src/Lib.antt =====
-- A verification library for the game-server framework viphxin/xingo: nodes of a cluster that a
-- master brings together, the connections of their clients, and a timer.
--
-- The parts and how they interact. A node is a TCP server (fserver) whose connections (fnet)
-- carry packets. Nodes talk to each other and to the master by remote calls (cluster), which are
-- packets too: a call waits for its response as an AsyncResult under a key. The master
-- (clusterserver, sys_rpc) keeps the nodes that are online, answers a new node with the parents
-- it has to connect to and tells its children to connect to it. timer_256 and timer start
-- callbacks after a delay.
--
-- Which file models what:
--   Common        Boolean tests, lists, integers and Go maps on native numbers
--   TimingWheel   viphxin/xingo/timer_256/{levelwheel,timingwheel}.go: `NewTimingWheel`, `AddFunc`,
--                 `addJob`, `fireEvents`, `tick` and `Run` under these names in snake case; the
--                 children have its invariants (Counts, Slots, Ticks), histories of calls (History),
--                 the moment a job starts (Placement, OnTime, Late) and the positions (Odometer)
--   Wire          the parts of encoding/binary and io that the packets use
--   Fnet          viphxin/xingo/fnet: `Pack` and `Unpack` (DataPack), `DoFrequencyControl` and
--                 `StartReadThread` (Reader), `Connection` with its calls (Connection), `TcpClient`
--                 with its attempts to connect again (TcpClient), the queues of `MsgHandle`
--                 and its `AddRouter` (MsgHandle); the write threads of a connection are in
--                 Connection.Writing
--   Strings       the parts of strings and strconv that the program uses, on bytes
--   Globals       viphxin/xingo/utils/globalobj.go: the kind of a node, `GetFrequency`, and
--                 `SetFrequencyControl` of fnet/protocol.go
--   Web           viphxin/xingo/web/web.go: the reading goroutine of `Start` (Reading), the parser of
--                 a request (Request), `AddHandles` and `handleRequest` (Answer)
--   Logger        viphxin/xingo/logger/logger.go: the levels (Levels), the rolling files (Rotation,
--                 Slots) and the daily ones (Daily)
--   HashWheel     viphxin/xingo/timer/{hashwheel,safetimer}.go: the older timer
--   Ids           viphxin/xingo/utils/uuidfactory.go and `initSessIdPool` of fserver/server.go
--   Fserver       viphxin/xingo/fserver/server.go and fnet/connectionmgr.go: the accept loop, its
--                 limit and the registry of connections; `CallLater`, `CallLoop` and `CallWhen` with
--                 timer/timer.go (Delays)
--   Udpserv       viphxin/xingo/udpserv/serv.go: the turns of both goroutines and the one buffer
--   Startup       clusterserver/clusterserver.go in viphxin/xingo: `StartConnectDb` (MaxRid),
--                 `NewClusterServer`, `StartTcpServer` and the modules of a node (Modules)
--   Db            viphxin/xingo/db/db.go: commands that are tried again, kept and sent again
--   Cluster       viphxin/xingo/cluster: the configuration (Conf), `ChildMgr` (ChildMgr), the results
--                 that calls wait for (AsyncResult), the packets of calls (RpcReader) and
--                 their handlers (RpcHandle), and calls from end to end, with rpc.go (Call);
--                 clusterserver/master.go with sys_rpc/master_rpc.go (Master, with `Shutdown`);
--                 and the side of a node, clusterserver/clusterserver.go with the other files of
--                 sys_rpc (Node); and the master with its nodes and the messages between them
--                 (Together)
--
-- How the code is modelled. A call under a mutex is one step; a goroutine that runs beside its maker
-- is an event of its own, in any order. A pointer is a number, a Go map an association list, a
-- `uint8`, `uint32` or `int32` a number with its wrap-around written out. A read loop is a recursion
-- on fuel; a turn takes at least one head off the stream, so one more than the length of the
-- stream is enough. A loop over a map has no fixed order in Go; the model goes along the list.
--
-- Parameters: the protobuf library (`marshal`) and gob (`encode`, `decode`), of which one
-- theorem needs that a message is read back as it was written; the network (`dial`), of which
-- some theorems need that it reaches every node; the redis client (`Redis`), whose answers some
-- theorems name; what strings.ToLower gives for texts that are not ASCII; what a socket does
-- with a write is given with the call that writes.
--
-- Not modelled: signals, clocks and the sockets themselves; the web servers, the frames and the
-- shutdown of a node; what reflect says of a router, which is a list of names and handlers here.
-- The copies of redigo, protobuf, snappy and gotags are other programs.
pub mod Common
pub mod TimingWheel
pub mod Strings
pub mod Web
pub mod Logger
pub mod Wire
pub mod Fnet
pub mod Cluster
pub mod Ids
pub mod Fserver
pub mod HashWheel
pub mod Db
pub mod Startup
pub mod Udpserv
pub mod Globals
