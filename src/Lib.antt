-- ===== src/Lib.antt =====
-- open-functions runs functions on one machine: it registers them, builds them, starts instances of
-- them on demand, routes HTTP requests and Pub/Sub deliveries to them, and keeps all this in a store.
-- This library models the crate crates/open-functions-core, and of the crate crates/open-functions the
-- forwarder, the two listeners and the configuration.
--
-- The parts, with the file that models each (paths of the source are below
-- crates/open-functions-core/src, those of forward.rs, server/, config.rs
-- and serve.rs below crates/open-functions/src):
--   Model               model/: functions, revisions, builds, bindings, runtimes
--   Validate            model/validate.rs: the checks of a registration
--   Resolve             resolve/mod.rs: from a request to a function
--   Runtime             runtime/launch.rs, runtime/mod.rs: what an instance runs
--   Pool                pool/instance.rs: the instances of one function. Pool/System is the pool among
--                       its tasks, as steps in any order; Pool/Acquire has the loops
--   Store               registry/store.rs, registry/memory.rs: the in-memory store.
--                       Store/Redb is registry/redb_store.rs, the store on disk
--   PubSub              pubsub/client.rs, pubsub/reconcile.rs: the subscriptions of the triggers.
--                       PubSub/Convert is pubsub/convert.rs: from a push delivery to a CloudEvent
--   Logs                logs/ring.rs: the last log lines of each function
--   Registry            registry/service.rs, registry/restore.rs: registration, activation, pruning,
--                       deletion, restart. It uses all parts above
--   Forward             forward/mod.rs: the headers of forwarded requests and of responses.
--                       Forward/Proxy is forward.rs: a call of an instance
--   Server              server/invoke.rs: the listener for calls and push deliveries. Server/Invoke
--                       answers calls, Server/Push answers deliveries, Server/Handle chooses by the
--                       route. Server/Admin is server/admin.rs, the listener that manages functions.
--                       They use all parts above but Store/Redb
--   Config              config.rs: the configuration and its checks. Config/Startup is what serve.rs
--                       makes of it
--   Prelude             shared types, tests, maps, results and lemmas
--   Examples            the theorems at concrete inputs
--
-- State is passed explicitly; an operation that fails keeps the state that it has reached
-- (Prelude/States), as the source does. A text is its UTF-8 bytes. A number of the source is a natural
-- number: the checks of Validate bound the configuration, and revision numbers are taken not to reach
-- 2^32. Times and durations are milliseconds in the pool, microseconds in the entities; a clock is a
-- function of the state of what lies outside. Maps are association lists; where a HashMap yields its
-- keys in some order, the order is an argument.
--
-- What lies outside is a parameter: the Pub/Sub server with the HTTP and JSON libraries
-- (PubSub.Client.Broker), the builders, drivers, disk, clock and Docker (Registry.Outside), header maps
-- (Forward.HttpHeaders), URIs, bodies and the HTTP client (Forward.Proxy.Http and Client), JSON values,
-- base64, dates and events (PubSub.Convert.Json and Formats), the database redb (Store.Redb.Engine). What
-- a theorem needs of them is a record of laws among its hypotheses, and Examples has an instance of each.
--
-- Not modelled: the drivers and builders, which run processes and containers; the log pipes, and the lines
-- that a follower of a function's log gets as they are logged; the command line and the
-- rest of the start-up; metrics, but for the counters of Server; the SDK.
--
-- The loops of the pool run on fuel, with the answers of each round as an argument
-- (Pool/Acquire, Surroundings); Pool/Acquire/Alone gives the number of rounds that is enough. All
-- other loops recurse on a list or on a number. In Registry one operation runs at a time, to its end,
-- but that a registration may be dropped while its build runs (Registry/Register/Claims); a drop at
-- another await is not modelled there. The interleavings of the pool's tasks are in Pool/System. A call that Server handles sees the changes of
-- other tasks to its pool as arguments (Server, Circumstances), and no others. The stream of a build's
-- log runs on fuel over what each of its rounds finds (Server/Admin/Follow).
pub mod Prelude
pub mod Model
pub mod Validate
pub mod Resolve
pub mod Runtime
pub mod Pool
pub mod Store
pub mod PubSub
pub mod Logs
pub mod Registry
pub mod Examples
pub mod Forward
pub mod Server
pub mod Config
