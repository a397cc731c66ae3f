-- ===== src/Lib.antt =====
-- Verification of distributedRPC.js, a framework for service providers that call one another over
-- TCP and find their service manager by UDP broadcast.
--
-- The program's parts. A ServiceProvider (src/provider/service-provider.ts) holds named tasks, which
-- are TCP servers and clients (src/network). Requests come in on its API channel and are answered on
-- the response channel of the requester; instructions of the manager come in on its system channel.
-- Its life cycle is a LifeCycleProcedure (src/procedure/life-cycle.ts). A ServiceManager
-- (src/manager/service-manager.ts) is a provider that keeps the registrations and the reports of the
-- others. All of them start their sockets under a RetryScheduler (src/common/retry.ts).
--
-- The files.
--   Common: the library's names passed on; Boolean tests, lists and association lists.
--   Types: src/types/basal-protocol.ts.
--   Retry: RetryScheduler and sleep. The scheduler is generic in the state of its owner, which the
--     task and the callbacks change. `run` takes the list of rounds that the environment gives, so
--     that the list is the fuel; Retry.Bounds says how long a list is enough.
--   Ids: src/common/id-generator.ts. Config: src/common/config.ts.
--   Provider: the messages of a ServiceProvider. Frame and Pool model `ask`, `buildMessage`,
--     `_handleApiResponse` and the header that `response` writes; Answer is the whole of `response`;
--     ApiPath is `_parseRequest`, and ApiPath.Pushed `_handleChannelResponse`; Request is
--     `_handleApiRequest`, `_handleTcpSysRequest`,
--     `_handleRequestError` and `_updateApiCounter`. Delivery, Counting and Answering hold theorems.
--     Provider.Channels is the pool of response channels, getResponseChannel with its release, and
--     its Overlap the calls that overlap;
--     Provider.Identity is ProviderState with `_setConfigManager` and `_initializeOtel`;
--     Provider.Names is the texts of identities.
--   Procedure: src/procedure, but for the life cycle. Report, Register and Discover are the three
--     executions, and Tasks is how they and a provider get their clients and servers.
--   Manager: the registry and the reports of ServiceManager, two maps of maps as association lists;
--     Manager.Listener is its broadcast listener, and Manager.Hooks are its hooks of the life cycle.
--   LifeCycle: the state that LifeCycleProcedure drives; Operations has its operations as functions
--     to a value or a throw, with what was changed before the throw. Instructions is the
--     dispatch of `_doSysInstruction`, and Subclass the hooks of a class. Guards, Keeps, Stuck,
--     Channels, Again and Discovery hold theorems.
--   Network: src/network. Server is TcpServer and Client is TcpClient; their start runs over the
--     scheduler, and the modules Starting compare it with the description of Retry.Quiet, whose record
--     `Attempts` is what a task owes the scheduler. Server.Traffic and Client.Connection are about the
--     connections. Their modules Overlap are the calls of start and stop that overlap: a call has a
--     phase, and sockets, listeners and pauses end by events in any order.
--     Network.Udp is UdpClient and UdpServer, which share Udp.Starting; Udp.Discovery is UdpDiscovery
--     and Udp.Broadcast is BroadcastUdpServer. Network.Addresses is what network-events.ts computes.
--   Telemetry: src/metrics. Tracing is the tracer with its static map of instances and how a provider
--     takes and releases it; Metrics is the instruments and the gauges of the state.
--
-- What the environment does is a parameter: the text codec of Node, JSON.parse, the handlers of the
-- APIs, the hooks of the subclass, the outcome of the discovery and report procedures, and whether a
-- server starts or a task stops. An operation that waits runs to its end before the next one, but
-- for the continuation of an error of the manager's connection, which is an operation of its own, and
-- in the modules Overlap, where everything that ends a wait is an event. There a client or a
-- server has a listener of the event `error`; elsewhere it may have none, and then the emission of an
-- error throws and what waits for it never settles. A hook does not set the state itself.
--
-- Not modelled: calls of a UDP socket that overlap; logging, dependency injection and the entry point,
-- which wire libraries together; the counters, durations and parents of the telemetry;
-- timestamps; the names that chnResp, a plain object, inherits.
pub mod Common
pub mod Types
pub mod Retry
pub mod Ids
pub mod Config
pub mod Procedure
pub mod Telemetry
pub mod Provider
pub mod Manager
pub mod Network
pub mod LifeCycle
