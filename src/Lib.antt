-- ===== src/Lib.antt =====
-- The core of the pipewave server: a Go module that holds websocket sessions in several
-- containers, routes messages to them and calls back the application's backend.
--
-- The parts and how they interact:
--   Wire (core/service/websocket/wire) encodes and decodes the binary envelope. Message
--   (core/service/websocket/0.message_type.go, 6.helper.go) puts requests and responses into it.
--   Domain (core/domain/value-object, export/types) names sessions and their connections.
--   Connections (connection-manager) keeps the live connections, MsgHub (msg-hub) the sessions that
--   are temporarily disconnected with their timers and pending messages, Acks (ack-manager) the messages that wait for
--   an ack, RateLimit (rate-limiter) the limiters; all under core/service/websocket.
--   ClientMessages (client-msg-handler) answers what a client sends: Window is the heartbeat
--   throttle and the deduplicator, Handler the dispatch over Message, Acks, RateLimit and
--   Connections.
--   Gobwas (server/gobwas) is the server on the sockets: Slots counts its connections, Frames handles
--   one frame of a client, Pings is the heartbeat of the transport, Polling the reading side with the
--   poller's descriptor, which each event disarms.
--   Routing (mediator/service/99.helper.go, 1.send_with_ack.go) finds the containers of a message,
--   and Delivery (broadcast-msg-handler) brings it to the sessions of this container.
--   LongPolling (mediator/delivery/3.long_polling.go, 4.long_polling_send.go) is the transport without a
--   socket. AnonInstance and IpLimiter (anon_instance.go, ip_rate_limiter.go beside it) guard the issue of
--   anonymous sessions.
--   Lifecycle (mediator/delivery/0.new.go, conn_metrics.go) is what happens to a session when a connection
--   comes and goes, over Connections, RateLimit, MsgHub and ActiveConns, the table of all containers
--   (core/repository/impl-postgres/active_conn). PendingRows is the table of pending messages
--   (impl-postgres/pending_message), of which MsgHub has the abstract view.
--   Broadcast (core/service/websocket/broadcast) carries messages between containers. Triggers (ws-event-trigger)
--   calls back when connections come and go.
--   Services (mediator/service/1.*.go) composes Routing and Delivery, Shutdown (3.shutdown.go) ends a container.
--   Endpoints (mediator/delivery/1.issue_tmp_token.go, 2.gobwas_endpoint.go, exchange-token) lets clients in
--   by tokens that are used once, and ServerFns (server/fns/fns.go) asks the application about them.
--   AdminApi (server/restapi) is the API of administrators over the services, CallbackPubsub (server/callback/pubsub.go)
--   the broker for callbacks, Labels (pkg/metrics/sanitize.go) bounds the labels of metrics.
--   ServerConfig (server/config/config.go) and EnvConfig (export/types/config.go, config_child.go) are the
--   defaults and the checks of what is configured. WorkerPool is pkg/worker-pool.
--   Webhook (server/webhook): Breaker and SyncCall are sync.go, Async is async.go, Health is
--   health.go with the loop of ping.go.
--   Cache (pkg/cache/cache_interface.go) turns values into the texts of a store and back.
--   Common holds the shared tests, lists, tables and bits, Examples the concrete runs.
--
-- How state and operations correspond: a struct is a record with the source's fields in snake_case,
-- a method is the function of its name that takes the state and returns the new one. A method under
-- a mutex is one step. Go strings and byte slices are lists of numbers; Go maps are association
-- lists in which a key stands once, and their order of iteration is the list's. A Go panic is
-- `none` or a constructor `panic`; an error is a value. Goroutines, timers and callers interleave as
-- lists of events (`step`, `run`) over which the invariants are shown. Times are natural numbers
-- that are passed in. What packages outside the repository or its databases answer (random IDs, the
-- limiter's Allow, sends on a socket, HTTP posts, queries, the application's handler) is an argument,
-- and what the code asks of them is a list of effects.
--
-- Bounds and fuel: the codec has no fuel, since every loop of it is unrolled in the source. The
-- retry loop of `Call` recurses on its rounds, the saving task on the attempts that are left, of which
-- `maxRetryNumber` is the source's own bound. The async queue holds 1024 jobs.
--
-- A connection, in `Lifecycle`, is known to one container with the table that all share; what the others do is
-- a step of theirs, and `Lifecycle/Moves` puts two of them side by side.
--
-- Not modelled: the poller under the socket server, JSON and cookies of the HTTP endpoints, the repository on
-- DynamoDB, the pub/sub, queue and cache adapters, CacheThis, counters of metrics, tracing, and metadata of
-- sessions. Integers that count (failures, attempts, generations) do not wrap; lengths on the wire keep their one
-- and two bytes.
pub mod Common
pub mod Domain
pub mod Wire
pub mod Message
pub mod Connections
pub mod Acks
pub mod Webhook
pub mod MsgHub
pub mod RateLimit
pub mod ClientMessages
pub mod Routing
pub mod Delivery
pub mod Examples
pub mod Gobwas
pub mod ActiveConns
pub mod Lifecycle
pub mod PendingRows
pub mod AnonInstance
pub mod IpLimiter
pub mod WorkerPool
pub mod LongPolling
pub mod Services
pub mod Endpoints
pub mod ServerConfig
pub mod EnvConfig
pub mod ServerFns
pub mod Broadcast
pub mod AdminApi
pub mod CallbackPubsub
pub mod Triggers
pub mod Labels
pub mod Shutdown
pub mod Cache
