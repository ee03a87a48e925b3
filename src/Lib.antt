-- ===== src/Lib.antt =====
-- The rate limiter: requests are counted against policies, and each is let through or denied.
--
-- A request is decided by the engine. It takes the policies of the request's namespace from the policy
-- cache or the policy store, keeps those that are enabled, valid and in their rollout, lets the matcher
-- keep those whose scope and expression fit and choose the winner, builds the counter's key, and hands
-- both to the algorithm that the policy names. The algorithm works on a counter store.
--
-- Base: what Go provides. Int64 is `int64` with its wrap-around, Time and Calendar are `time` in UTC,
--   ParseDuration is `time.ParseDuration`, Exec is a method that reads and writes state and may return
--   an error, Text, TextOrder and Trim are strings, Maps are maps as functions, Tests and Lists are
--   shared lemmas. Float is `float64`, a record of operations that the code takes as a parameter.
-- Model: the types of pkg/model/model.go.
-- Store: `CounterStore` of internal/store/interfaces.go, as a record of operations over any state.
--   Store/Laws says what its calls do to the counters, Store/World puts a store among other
--   clients, who act before each of its calls.
-- Store/Memory: internal/store/counter/memory/store.go. A call under a shard's lock is one step. Leases,
--   Timestamps and Sweep are its leases, logs and collector, Node makes it a `CounterStore`, and
--   Refinement, Flat, Holders, Timestamps/Rolling and Sweep/Invisible are its theorems.
-- Store/Cache: internal/store/cache/policy_cache.go, with its lookups, its size, its freshness and how
--   long an entry is answered. Load has the steps of GetOrLoad's callers.
-- Store/Breaker: the circuit breaker of internal/store/counter/redis/store.go.
-- Store/Policies: internal/store/policy/file/store.go over a parsed payload; the file itself is a
--   parameter. Lookup and Versions have its theorems, Kept makes it a
--   `PolicyStore` on a file that keeps what is written.
-- Algorithm: internal/algorithm. Common is common/common.go. Budget is the loop of reads and swaps that
--   fixedwindow/fixedwindow.go and quota/quota.go share; FixedWindow and Quota give it their budgets.
--   Concurrency, SlidingLog, SlidingCounter, TokenBucket and LeakyBucket are the packages of those
--   names, Bucket what the last two share.
-- Engine: internal/engine. Matcher is matcher/matcher.go, Evaluator is evaluator/engine.go, and Lease its
--   concurrency lease.
-- Key: internal/key/builder.go.
-- Region: internal/region/allocator.go, the split of a limit and the allocator that follows the regions'
--   health.
-- Provider: pkg/provider, whose workers evaluate a batch in an order that is an argument; Base/Workers has
--   the walk of such workers. Datadog, Kafka, FluentBit, Envoy and Otel are the adapters of those names
--   in internal/adapter, Batches has what all of them rely on.
-- Analytics: internal/analytics. Recorder is recorder.go, Audit is audit.go as steps of its callers and
--   its goroutine.
-- Control: internal/adapter/http/controlplane.go. Routes is the switch on method and path, Policies the
--   handlers, Rules the checks that they call, Leases the paired handlers of leases. A handler is a chain
--   of calls of which each may end it with a response. The calls of hooks are a list beside the response.
-- Broker: internal/controlplane/invalidation/broker.go.
-- Adapter: Middleware is internal/adapter/http/middleware.go, Grpc is internal/adapter/grpc.
-- Auth: internal/server/auth.go.
-- Config: internal/config/config.go. Env is LoadFromEnv, Serving sets up Auth from the settings as
--   cmd/rlaas-server/main.go does.
-- Client: pkg/rlaas/client.go, the engine put together from the modules above.
-- Tests: policies, requests and stores, and the theorems at them.
--
-- Loops. The attempts of an algorithm are a recursion on their number, which is the policy's own bound
-- (5 by default), so no fuel is invented. The parser of durations recurses on one more than the number
-- of characters, each step takes one at least; the decimal printer has fuel for the 20 digits of a
-- 64-bit number.
--
-- Parameters. The operations of `float64`, the hash of the key builder's tags, the clock readings
-- (`Readings` has the time that a policy is evaluated at and the one that a denial reads), in the engine
-- the stores, the matcher and the algorithms, the file of the policy store, `encoding/json`, HMAC and
-- base64, the environment and `strconv.ParseInt`, the random bytes of a lease id, the Redis client of the
-- broker, and the evaluators, hooks and inner loggers that a component calls.
--
-- Not modelled: time zones other than UTC; the order that `sort.Slice` leaves equal elements in; the
-- tickers that start the collectors; HTTP headers, except those of the middleware; the operations of the
-- stores on Redis, PostgreSQL and Oracle, whose work is done outside the program; metrics,
-- TLS and the start of the servers; generated code.
pub mod Base
pub mod Model
pub mod Store
pub mod Algorithm
pub mod Engine
pub mod Key
pub mod Provider
pub mod Region
pub mod Analytics
pub mod Config
pub mod Control
pub mod Broker
pub mod Adapter
pub mod Client
pub mod Auth
pub mod Tests
