-- ===== src/Lib.antt =====
-- gocommon, a library of Go packages for services.
--
-- The parts and their files. A definition keeps the name of the code in lower case.
--   Gpool: the pool of goroutines in gpool/. Gpool/Worker, Gpool/WorkerStack and Gpool/LoopQueue
--     are worker.go, work_stack.go and worker_loop_queue.go; Gpool/WorkerArray is the interface
--     through which pool.go uses the two stores; Gpool/Pool is pool.go, cut where the code takes or
--     gives up the lock of the pool. Gpool/Pool/Steps makes a step relation of these parts, for
--     goroutines that interleave.
--   Fsm: the state machine of util/fsm. The tables that NewFSM fills are apart from the state.
--   Mem: util/mem. Mem/Ring is ring/buffer.go, Mem/SyncArray and Mem/ChannelBuf the files of these
--     names, and Mem/Slab is SlabBuffer.go.
--   Registry, Selector, Rcache: the descriptions of services (registry/base.go), the choice of a node
--     (selector/filter.go, strategy.go and Select of default.go), and the cache of services
--     (rcache/rcache.go), which the selector asks and the watcher of the registry updates.
--   Transport: the pool of connections in transport/pool/default.go, and in Transport/Memory the
--     transport within one process (transport/memory.go).
--   Event: the event manager of event/. Event/Fire and Event/Remove are parts of manager.go, and
--     Event/Queues drives the manager through all its calls, with the lemmas of Event/Tidy.
--   Apollo: the configuration of apollo-config. Apollo is cache.go with the events of
--     base/change_event.go, and Apollo/Diff is about the changes that it reports; Apollo/Hosts is the
--     servers of appconfig.go and request.go, and Apollo/Recovery is about the tries over them.
--   Etcd: the services in etcd, registry/etcdv3.go, with the watcher of etcdv3watcher.go.
--     Etcd/Registering is about Register, Etcd/Reading about GetService, Etcd/Watching about Next.
--   Discovery: how a report of the watcher goes through the cache to the choice of a node.
--   FileCache: the items of util/mem/cache (fileitem.go and FileItems.go), with their expiry and files.
--     FileCache/Levels is XCache.go, four such tables, with its options in FileCache/Settings.
--   Client: Call of client/rpc_client.go with its attempts (retry.go, the proxy of util/net/net.go), in
--     Client/Header the header of a call, in Client/Codec the codec (rpc_codec.go), and in Client/Stream
--     the stream (rpc_stream.go). Client/Stream/Calling is the part of rpc_client.go that sends one
--     request over it, with its goroutine, as a step relation.
--   Spinlock: the lock of util/sync/spinlock.go as a step relation, with any number of goroutines.
--   Promise: util/process/progoroutine.go. Promise/Once is about one promise, Promise/Collect about All.
--   Net: HostPort and Listen of util/net/net.go. Net/Ranges is about the ports of a range.
--   Monitor, Web: the heartbeats of monitor/os.go, and the way that web/roundshardtripper.go takes a
--     request to a node. Both work on the descriptions of Registry.
--   Wrapper: Run of service-wrapper/service.go with its goroutine, as a step relation, and in
--     Wrapper/Metadata the metadata of a context (metadata.go). Wrapper/Ended is about what Run has
--     done when it ends.
--   Rabbitmq: the subscribers of rabbitmq/rabbitmq.go. Rabbitmq/Settled is about the acknowledgements of
--     a delivery, Rabbitmq/Backoff about the loop that subscribes again.
--   Log: the buffer of log/newlog/pool.go, and the entries that process of output.go writes to it.
--     Log/Rotation is rollRunOnce of output.go: a directory is its entries by name, and which calls of
--     os fail is an argument. Log/Rolled is about names, Log/Moves about one
--     file, Log/Shift about all of them.
--   Base: tests into Bool, lists and signed integers over the native numbers, association lists.
--   Tests: runs at concrete inputs.
--
-- Conventions. An operation takes the state and returns the new one beside its result. A time is a
-- number of nanoseconds, of milliseconds in Rabbitmq, of seconds in Selector and Apollo/Hosts, and
-- the time at which an operation runs is an argument, as are the choices that Go leaves open: the
-- order of a map is that of the list that stands for it, and a select with two ready cases asks a
-- function. A panic, and a call that never returns, is none. Code of other packages is a
-- parameter: the store of freecache, the files of FileCache, the client of etcd, JSON,
-- strings.Title and the hash of a service, HTTP and the calls over the network, and the functions
-- that callers register. Where it keeps a state of its own, that state is a type W, which the
-- operation takes and returns.
--
-- Fuel. The binary search of the stack takes one more round than there are indices, and the
-- clean-up of the queue one more than it has slots: each round but the last takes away at least one
-- index, or one worker. The loop of LoopQueue.reset takes its fuel as an argument, and so does
-- request_recovery, which needs two more than the servers that are up: besides the last round and one
-- that asks the configured address, each round marks a server as down. The digits of an int are at
-- most nineteen.
--
-- Not modelled: the tasks, panic handlers and loggers that callers hand in; network I/O (broker,
-- the connections of rabbitmq, metrics, trace, transport over HTTP, the streams that client hands out, the
-- servers of web) and the glue that starts services; the queue of log; the code that is a copy of
-- other projects (netlink-client, util/mem/queue.go); and the parts of util that call the
-- operating system.
pub mod Base
pub mod Gpool
pub mod Fsm
pub mod Mem
pub mod Registry
pub mod Net
pub mod Rabbitmq
pub mod Rcache
pub mod Etcd
pub mod Discovery
pub mod Selector
pub mod Spinlock
pub mod Transport
pub mod Event
pub mod Apollo
pub mod FileCache
pub mod Client
pub mod Promise
pub mod Monitor
pub mod Web
pub mod Wrapper
pub mod Log
pub mod Tests
