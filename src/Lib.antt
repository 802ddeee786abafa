-- ===== src/Lib.antt =====
-- WrapLink, a URL shortener: a verification library for its TypeScript service (src/).
--
-- Short links are created over HTTP (src/app.ts), kept in a store (src/store/), found again by
-- redirects, and counted. A code is chosen by the caller or made from a number that PostgreSQL
-- reserves for the process (src/domain/code-allocator.ts); Redis holds the links and, in
-- write-behind mode, the queues that background workers drain to PostgreSQL, on keys whose hash
-- tags say on which node they live (src/cache/keys.ts). Clicks are gathered in each process and
-- written in batches (src/store/click-buffer.ts). Creating a link is limited and authenticated
-- (src/security/).
--
-- What models what, with the functions of the code in parentheses:
--   Base62: the reference encoder (`encodeBase62Fixed`) and the constants of the code space.
--   Codes: `generateCode` of src/domain/code.ts, with the answers of `randomBytes` as an argument.
--   Scrambler: the keyed Feistel permutation (`CodeScrambler`): `round`, `feistel`,
--     `permuteHalves` with its cycle-walking loop, `permute` and `encode`, on 32-bit patterns.
--   Allocator: `BlockCodeAllocator` in any number of processes; the awaits of `nextCode` and
--     `reserve` cut them into events, which come in any order.
--   Keys: `fnv1a32`, `shardOf`, `shardTag`, the key functions and `shardsForWorker`.
--   Clicks: `ClickBuffer`: `record`, `flush`, `performFlush` on both sides of its await, `close`.
--   App: src/app.ts: what a handler reads and writes (`Exchange`), the hook `onSend`, and the
--     handlers: `POST /api/v1/links` with its loop of five attempts (App/Create), and
--     `GET /:code`, `GET /api/v1/links/:code`, `/health`, `/ready` and `/metrics` (App/Pages);
--     App/Journey joins the two over any store that keeps the contract of Links/Contract.
--   Links: the records of src/domain/link.ts, and the interface `LinkStore` as a record of
--     operations on a state. Links/Contract and Links/Durable say what a client of a store
--     relies on, as records of laws.
--   MemoryStore: `MemoryLinkStore`; MemoryStore/Timed is the store as a `LinkStore`.
--   PostgresStore: `create`, `find`, `recordClick`, `size` and `isHealthy` of
--     src/store/postgres-link-store.ts over a table of rows, with failing queries.
--   CachedStore: `CachedLinkStore` of src/store/cached-link-store.ts over any source, with hashes
--     in Redis and failing calls.
--   PendingLinks: `serializePendingLink` and `parsePendingLink` of
--     src/store/write-behind-link-store.ts.
--   WriteBehind: `WriteBehindLinkStore` of the same file and its script, over the shards of
--     SyncWorker and any synchronous store.
--   PendingBatch, ClickBatch: `insertPendingBatch`, `recordClicks` and `recordClickBatch` of
--     src/store/postgres-link-store.ts over a table of rows.
--   SyncWorker: src/store/link-sync-worker.ts: the scripts of `RedisSyncQueue` on one shard, and
--     `syncShard` (SyncWorker/Run) in any number of runs with failing calls and expiring locks
--     (SyncWorker/History); the lanes of `mapShards`, whose tasks settle in any order
--     (SyncWorker/Lanes); `start`, the timer, `tick` and `close` (SyncWorker/Worker).
--   ApiKeys: `HashedApiKeyAuthenticator`.
--   UrlPolicy: `SafeUrlPolicy` and the tests on addresses (UrlPolicy/Addresses).
--   RateLimiter: `RedisRateLimiter` with its Lua script over the commands INCR, EXPIRE and TTL.
--   Metrics: src/metrics.ts: the snapshots, their sums and the recorder `Metrics`.
--   ClusterMetrics: src/cluster-metrics.ts: `ClusterMetrics` of a worker process,
--     `MetricsAggregator` of the primary with its listener in src/cluster.ts, the checks of the
--     shapes of messages, and the events between them (ClusterMetrics/Events).
--   Config: src/config.ts: the readers of environment variables and `loadConfig`.
--   Prelude: shared helpers, JavaScript's numbers and values, results, and maps that keep their
--     order of insertion.
--
-- How the code is read: a method is a function from the state to the state and its result; a
-- throw is the result `throw`; a promise that is awaited ends one step and its settling begins
-- another. A text is the list of its UTF-16 code units. A number of JavaScript is an integer or
-- another value (a fraction, NaN, an infinity). The messages of errors that contain a value leave
-- the value out.
--
-- Failures: what becomes of a query or of a call of Redis (a reply, an error before its effect,
-- an error after it) is a list in the state, one entry for each call, and an argument of the
-- theorems. Where `process.send` throws in the answer to the primary, nothing catches the error.
-- The durations of requests are counts of nanoseconds; the program adds them as floats of
-- seconds, and here a sum is the term of the additions that made it.
--
-- Bounds and fuel: the walk of `permuteHalves` has as many rounds as there are pairs of halves,
-- which is shown to be enough; the loop of `shardsForWorker` has one more round than there are
-- shards, which is shown to be enough; `generateCode` has a round for each answer that it is
-- given; the loop of `close` runs on fuel, and is shown to return within it when the sink does
-- not fail; the loop of `POST /api/v1/links` has the five rounds of the code.
--
-- Parameters: JSON, whether a sum of floats is finite, ISO dates, decimal texts, the URL parser,
-- `isIP`, the resolver, HMAC-SHA256, SHA-256, `timingSafeEqual`, the clock and the Redis commands
-- are arguments of the definitions that use them, with what is documented of them as hypotheses
-- or as the laws of a record. The handlers take the store, the limiter, the authenticator, the
-- URL policy and the code generator as the services that they are given. The source of id blocks
-- and the sink of clicks are not modelled: their answers are part of the events.
--
-- Not modelled: the text that `renderMetrics` makes and the checks of the types of the fields of
-- messages between processes; the start, the end and the restart of processes (src/cluster.ts),
-- the server's wiring and the jobs; `drain` and the sums of `processShards` and `backlog`; the
-- source of id blocks; Fastify's routing and parsing; the Redis client, the connection pool and
-- the migrations; and the redirect service in C++. They are input and output, another language,
-- or still to come.
pub mod Prelude
pub mod Base62
pub mod Scrambler
pub mod Allocator
pub mod Keys
pub mod Clicks
pub mod Links
pub mod MemoryStore
pub mod ApiKeys
pub mod RateLimiter
pub mod UrlPolicy
pub mod PendingLinks
pub mod SyncWorker
pub mod WriteBehind
pub mod PendingBatch
pub mod ClickBatch
pub mod App
pub mod CachedStore
pub mod PostgresStore
pub mod Metrics
pub mod ClusterMetrics
pub mod Codes
pub mod Config
