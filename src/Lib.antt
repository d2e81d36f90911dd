-- ===== src/Lib.antt =====
-- kube-haproxy: a service proxy for Kubernetes that keeps haproxy's configuration in line with a cluster.
--
-- The program and its parts. Informers watch the services and the endpoints (or endpoint slices) of a
-- cluster and call handlers (config/config.go), which pass the events to the proxier
-- (haproxy/proxier.go). Two trackers (controller/service.go, controller/endpoints.go) keep, for each
-- object, the map before the first event and the map after the last one, and drop an event that undoes
-- itself. A sync (syncProxyRules) applies the pending changes to the service map and the endpoints map,
-- and then brings haproxy in line: a backend, a frontend and a bind for each service port
-- (syncService), a server for each endpoint (syncEndpoint), and no other services
-- (cleanLegacyService). It does so through a client of haproxy's data plane API (haproxy/haproxy.go)
-- and through a manager of servers to delete (haproxy/graceful_termination.go). The command
-- (server/app) makes the clients and the proxier, registers it with the informers, and waits.
--
-- Which file models which part. A definition has the name of the function it models, in snake case.
-- + Prelude: Booleans and tests, decidable equality as an interface, Go's maps, strings, lists.
-- + Kube, External: the Kubernetes types, and the library functions and sets that the program calls.
--   They are parameters, with the documented laws of a set as fields.
-- + Api: the keys of api/types.go.
-- + Controller.Changes: what the two trackers share; Tracking, Applying and History relate tracked
--   and applied changes to the objects of the cluster.
-- + Controller.Service: controller/service.go. Controller.Endpoint, Controller.EndpointsTracker,
--   Controller.Stale, Controller.Endpoints: controller/endpoints.go. Controller.Slices, Controller.Checkout: controller/endpointsslice.go.
-- + Haproxy.Types, Haproxy.Dataplane: haproxy/types.go, and the data plane as a parameter: a request and
--   a world give a response and a world.
-- + Haproxy.Handle, Haproxy.Operations: haproxy/haproxy.go. Haproxy.Graceful:
--   haproxy/graceful_termination.go. Haproxy.Sync, Haproxy.Proxier: haproxy/proxier.go.
--   Haproxy.Host: the handle, the settings of NewProxier and what they ask the host.
-- + Haproxy.Sync.Store, Haproxy.Sync.Elsewhere: what the data plane is assumed to do with the requests of
--   a sync: it keeps what it is sent, and leaves the objects of other services alone. Haproxy.Sync.Entries:
--   the same of the deletions.
-- + Config: config/config.go. App.Server: the options, newProxyServer, Run and runLoop of server/app.
--   App.Wiring: the informers' configurations that ProxyServer.Run makes, with the proxier as their
--   handler. App.Loading: the configuration file, and waitForPodCIDR. App.Settings, App.Cleanup,
--   App.Conntrack: the other helpers of server/app, CleanupAndExit, and conntrack.go.
-- + Scenarios: the theorems at concrete inputs, and tests.
--
-- How state and effects are modelled. A struct that changes is a record that a method takes and returns.
-- A Go map is a list of entries, in some order: `range` visits the entries in an order that Go leaves
-- open. A method that sends requests is an action, a function from the world to a result and a world.
-- A panic is `none`. Mutexes make each method atomic, so concurrent calls are sequences of calls, and
-- the theorems on histories speak of any such sequence. A port or another number that Kubernetes keeps
-- non-negative is a natural number; the health check node ports wrap to 16 bits as the code has it.
-- All loops are over lists, so no fuel is needed.
--
-- What the program asks its host (interfaces, processes, API clients, files, the library of
-- configuration schemes) is a parameter, with a failure as one of the answers.
--
-- What is not modelled. The flags as the libraries parse them, the loggers, main, logs, metrics, events
-- and the event recorder; the scheduling of the goroutines, and the rate limit of the sync runner (a sync
-- may come at any moment). The stale services and endpoints that a sync collects are computed by the
-- trackers' models; the proxier uses them for nothing.
pub mod Prelude
pub mod Kube
pub mod External
pub mod Api
pub mod Controller
pub mod Haproxy
pub mod Config
pub mod App
pub mod Scenarios
