-- ===== src/SyncWorker.antt =====
-- src/store/link-sync-worker.ts: `RedisSyncQueue` with its scripts, on one shard, and `syncShard` of
-- `LinkSyncWorker`. A run of `syncShard` is named by its lock's token; its awaits cut it into steps,
-- and the runs of any number of workers come in any order, between pushes of the write-behind store
-- and expiries of the lock. A call of Redis can fail before or after its effect.
pub mod Run
pub mod Effects
pub mod Lossless
pub mod Lanes
pub mod Worker
pub mod History
mod Tests
use wrap_link.Prelude.{
  ℕ, zero, suc, ◌+◌, ◌-◌, ◌*◌, Bool, true, false, not, List, [], ◌∷◌, ◌++◌, Option, none, some,
  Text, codes, length, map, take, drop, Result, ok, throw, ◌>>=◌, ◌>>◌, guard, JsNumber,
  is_positive, nat_value, leb, ltb, ◌==◌, if◌then◌else◌,
}
use wrap_link.Prelude.Maps.{Map, get, set, delete}

-- The hash of a link: the flag `pending`, the other fields, and the milliseconds left.
pub record CacheEntry : Type 0 where
  pub fields : Map Text
  pub pending : Bool
  pub ttl_ms : Option ℕ

-- The keys of one shard; the hashes of the links are named by their codes.
pub record Shard : Type 0 where
  pub queue : List Text
  pub lock : Option ℕ
  pub dead_letters : List Text
  pub cache : Map CacheEntry

pub record SyncCompletion : Type 0 where
  pub consumed : ℕ
  pub persisted : List Text
  pub conflicts : List Text
  pub dead_letters : List Text
  pub cache_ttl_seconds : ℕ

-- `if current == -1 or current > ttlMs then ... end`
shorten : Option ℕ → ℕ → Option ℕ
shorten none ttl_ms = some ttl_ms
shorten (some current) ttl_ms = if ltb ttl_ms current then some ttl_ms else some current

finalize : ℕ → CacheEntry → CacheEntry
unfolding shorten
finalize ttl_ms entry =
    if entry.pending
    then record entry { pending = false; ttl_ms = shorten entry.ttl_ms ttl_ms }
    else entry

finalize_found : Option CacheEntry → Text → ℕ → Map CacheEntry → Map CacheEntry
unfolding finalize
finalize_found none code ttl_ms cache = cache
finalize_found (some entry) code ttl_ms cache = set code (finalize ttl_ms entry) cache

-- The loop over the persisted codes.
unfoldable pub finalize_all : ℕ → List Text → Map CacheEntry → Map CacheEntry
unfolding finalize_found
finalize_all ttl_ms [] cache = cache
finalize_all ttl_ms (code ∷ rest) cache =
    finalize_all ttl_ms rest (finalize_found (get code cache) code ttl_ms cache)

drop_found : Option CacheEntry → Text → Map CacheEntry → Map CacheEntry
drop_found none code cache = cache
drop_found (some entry) code cache = if entry.pending then delete code cache else cache

-- The loop over the conflicts.
unfoldable pub drop_pending : List Text → Map CacheEntry → Map CacheEntry
unfolding drop_found
drop_pending [] cache = cache
drop_pending (code ∷ rest) cache = drop_pending rest (drop_found (get code cache) code cache)

abbrev pub max_dead_letters : ℕ
max_dead_letters = 10000

-- `RPUSH` of every letter, and `LTRIM key -10000 -1` if there is one.
unfoldable pub bury : List Text → List Text → List Text
bury [] dead = dead
bury (letter ∷ letters) dead =
    let all_letters = dead ++ letter ∷ letters in
    drop (length all_letters - max_dead_letters) all_letters

-- `GET` of the lock is the token.
unfoldable pub owns : ℕ → Option ℕ → Bool
owns token none = false
owns token (some holder) = holder == token

-- COMPLETE_SYNC once the lock has been found to be the token's.
finish_batch : SyncCompletion → Shard → Shard
unfolding bury finalize_all drop_pending
finish_batch c s = record {
  queue = drop c.consumed s.queue;
  lock = none;
  dead_letters = bury c.dead_letters s.dead_letters;
  cache = drop_pending c.conflicts (finalize_all (c.cache_ttl_seconds * 1000) c.persisted s.cache);
}

-- COMPLETE_SYNC
unfoldable pub complete : ℕ → SyncCompletion → Shard → Shard × Bool
unfolding owns finish_batch
complete token c s = if owns token s.lock then (finish_batch c s, true) else (s, false)

-- RELEASE_LOCK
unfoldable pub release : ℕ → Shard → Shard
unfolding owns
release token s = if owns token s.lock then record s { lock = none } else s

acquire_if_free : Option ℕ → ℕ → Shard → Shard × Bool
acquire_if_free none token s = (record s { lock = some token }, true)
acquire_if_free (some holder) token s = (s, false)

-- `SET key token NX PX ttl`
unfoldable pub acquire : ℕ → Shard → Shard × Bool
unfolding acquire_if_free
acquire token s = acquire_if_free s.lock token s

unfoldable pub peek : ℕ → Shard → List Text
peek count s = take count s.queue

pub record SyncOptions : Type 0 where
  pub batch_size : ℕ
  pub cache_ttl_seconds : ℕ
  pub max_batches_per_shard : ℕ

abbrev or_ten : Option ℕ → ℕ
or_ten none = 10
or_ten (some n) = n

-- The constructor of `LinkSyncWorker`: its tests, and the default of `maxBatchesPerShard`.
unfoldable pub new_options : JsNumber → JsNumber → JsNumber → Option ℕ → Result SyncOptions
new_options interval_ms batch_size cache_ttl_seconds max_batches_per_shard = do
  guard (is_positive interval_ms) "intervalMs must be a positive integer"
  guard (is_positive batch_size) "batchSize must be a positive integer"
  guard (is_positive cache_ttl_seconds) "cacheTtlSeconds must be a positive integer"
  ok (record {
    batch_size = nat_value batch_size;
    cache_ttl_seconds = nat_value cache_ttl_seconds;
    max_batches_per_shard = or_ten max_batches_per_shard;
  })

pub record SyncResult : Type 0 where
  pub synced : ℕ
  pub conflicts : ℕ
  pub poison : ℕ

abbrev pub empty_result : SyncResult
empty_result = record { synced = 0; conflicts = 0; poison = 0 }

unfoldable pub add_result : SyncResult → SyncResult → SyncResult
add_result target source = record {
  synced = target.synced + source.synced;
  conflicts = target.conflicts + source.conflicts;
  poison = target.poison + source.poison;
}
