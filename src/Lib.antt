-- ===== src/Lib.antt =====
-- A verification library of the Forge control plane (Go), which routes inference requests to a
-- fleet of model servers. The gateway (services/gateway) resolves a model by the catalog
-- (services/catalog), turns the routing snapshot (services/routing) into candidates, ranks them by
-- the scheduler (services/scheduler), admits the request against the in-flight counters, and calls
-- the workers in rank order under circuit breakers and a retry budget (services/gateway/reliability).
--
-- Files and code:
--   Base: Go's integers, strings, maps and floating-point numbers; lists and Boolean tests.
--   Fixed: a concrete instance of the floating-point interface, for the tests.
--   Reliability/Breaker: breaker.go. A `BreakerMap` is a record with its map of entries; `Allow`,
--     `Success`, `Failure` and `State` are `allow`, `success`, `failure` and `state_of`.
--   Reliability/Budget, Reliability/Classify, Reliability/Failover: budget.go, classify.go and
--     failover.go. `Do` is `do_`, with its two loops `order` and `attempt`.
--   Routing/Inflight, Routing/Holder, Routing/Snapshot: services/routing/inflight.go, holder.go (and
--     `PolicyHolder` of policy.go) and snapshot.go. Requests that race for a slot are a list of
--     stages with one counter, and a schedule says whose atomic action is next.
--   Scheduler/Types, Scheduler/Models, Scheduler/Filters, Scheduler/Chain: services/scheduler,
--     interfaces.go, filter_*.go with admission.go, and `Rank` of chain.go.
--   Fleet/Hysteresis: services/fleet/hysteresis.go; `Apply` is `apply`, on the entry of a key
--     `apply_entry`.
--   Scheduler/Snapshot: services/scheduler/from_snapshot.go; the loop of `CandidatesFromSnapshot` is
--     `collect`.
--   Fleet/Policy: services/fleet/policy.go. Fleet/Manager, Fleet/Scale, Fleet/Reconcile: loop.go; the
--     counts, `scaleUp` and `drainOne`, and the rounds with `Activate`.
--   Cache/Blocks, Cache/Index, Cache/Service: services/cacheregistry, blockkey.go, index.go and
--     service.go. Cache/Runes: how Go ranges over a string.
--   Scheduler/Affinity, Scheduler/Scorers, Scheduler/Configured, Scheduler/Latency: affinity.go, the
--     files scorer_*.go, `NewConfiguredChain` of chain.go, and ewma.go with latency_store.go.
--   Routing/Policy: the type of services/routing/policy.go.
--   Catalog: services/catalog/models.go and snapshot.go.
--   Gateway/Translate, Gateway/Select, Gateway/Admission: services/gateway, translate.go,
--     snapshot_select.go with errors.go, and the admission of handler.go.
--   Gateway/Stream, Gateway/Dispatch, Gateway/Keys: the streams of handler.go, `streamFirstToken` of
--     dispatch.go, and apikey.go.
--   Fleet/Lifecycle: lifecycle.go. A wait has fuel for its rounds; as many as the poll interval fits
--     into the timeout, and one more, are enough.
--   Health: services/health, heartbeat.go and deriver.go.
--   Gateway/Collect, Gateway/Handler, Gateway/Replies: dispatch.go (withFailover,
--     collectWithFailover), the handlers chatCompletions and completions of handler.go,
--     and activator.go and errors.go of services/gateway.
--   Routing/Capabilities, Routing/Publisher: capabilities.go and publisher.go of
--     services/routing, with the rows of services/registry/models/worker.go.
--   Planner, Planner/Service: loop.go and models.go, and the stores of objective.go and
--     policy.go, of services/planner. `Start` and `tick` are `start` and `tick`.
--   Gateway/Middleware: middleware.go of services/gateway. `Acquire` is `acquire`, the function of
--     `Middleware` is `serve`.
--   Routing/Subscriber: what a message does in subscriber.go and in the subscriber of policy.go.
--   Provider: registry.go and models.go of services/provider. `Reload` is `reload_providers`.
--
-- Conventions. A method that changes its receiver returns the new value. A Go `int`, `int64` or
-- `time.Duration` is an unbounded integer, but a number of seconds times `time.Second` wraps around; a
-- `uint32` is a number with its wrap-around written out,
-- and a time is a number of nanoseconds since the zero time. `float64` is an interface (`Float`),
-- whose laws are hypotheses of the theorems that need them: no NaN, and one zero. `time.Now()` and
-- the answers of callbacks are arguments. What the package google.golang.org/grpc/status says of an
-- error is the interface `Errors`. Loops run over
-- lists, but for the wait of Fleet/Lifecycle and the chunks of Cache/Blocks, which have fuel. The
-- IDs, times and other fields that all chunks of one answer share are left out.
--
-- Not modelled: HTTP and gRPC transport, Redis and Postgres access, metrics (but for those that a
-- theorem speaks of), tracing, logging, JSON, the command-line binaries and the worker adapters.
pub mod Base
mod Fixed
pub mod Reliability
pub mod Routing
pub mod Scheduler
pub mod Fleet
pub mod Cache
pub mod Catalog
pub mod Gateway
pub mod Health
pub mod Planner
pub mod Provider
