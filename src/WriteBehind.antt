-- ===== src/WriteBehind.antt =====
-- src/store/write-behind-link-store.ts: `WriteBehindLinkStore` and its script. The synchronous store
-- is an interface; JSON and ISO dates are parameters. Redis is the shards of SyncWorker, one for
-- every number below 1,024, and a call of it can reject before or after its effect.
pub mod Creation
pub mod Limits
mod Tests
use wrap_link.Prelude.{
  ℕ, ◌+◌, ◌-◌, ◌/◌, Bool, true, false, not, ◌&&◌, List, [], ◌∷◌, ◌++◌, Option, none, some, Text,
  codes, length, Result, ok, throw, ◌>>=◌, ◌>>◌, guard, JsNumber, is_positive, nat_value, max, leb,
  ltb, ◌==◌, if◌then◌else◌,
}
use wrap_link.Prelude.Maps.{Map, get, set}
use wrap_link.Keys.{link_key_shards, shard_of}
use wrap_link.Links.{LinkStore, Link, CreateLinkInput, CodeSource, custom, generated, PendingLink}
use wrap_link.PendingLinks.{Field, serialize_pending_link}
use wrap_link.SyncWorker.{Shard, CacheEntry}

pub data Enqueued : Type 0 where
  accepted exists full : Enqueued

-- The arguments of the script.
pub record EnqueueArguments : Type 0 where
  pub max_pending : ℕ
  pub entry : Text
  pub code : Text
  pub fields : Map Text
  pub ttl_ms : ℕ

-- `PEXPIRE` unless the argument is "0".
abbrev expiry_of : ℕ → Option ℕ
expiry_of ttl_ms = if ttl_ms == 0 then none else some ttl_ms

abbrev entry_of : EnqueueArguments → CacheEntry
entry_of a = record { fields = a.fields; pending = true; ttl_ms = expiry_of a.ttl_ms }

-- `HSET`, `PEXPIRE` and `RPUSH`.
abbrev accept : EnqueueArguments → Shard → Shard
accept a s = record s { queue = s.queue ++ a.entry ∷ []; cache = set a.code (entry_of a) s.cache }

enqueue_absent : Option CacheEntry → EnqueueArguments → Shard → Shard × Enqueued
enqueue_absent (some entry) a s = (s, exists)
enqueue_absent none a s =
    if leb a.max_pending (length s.queue) then (s, full) else (accept a s, accepted)

-- ENQUEUE_LINK
unfoldable pub enqueue_link : EnqueueArguments → Shard → Shard × Enqueued
unfolding enqueue_absent
enqueue_link a s = enqueue_absent (get a.code s.cache) a s

-- The constructor: `Math.max(1, Math.ceil(maxPendingLinks / LINK_KEY_SHARDS))`.
unfoldable pub shard_limit : JsNumber → Result ℕ
shard_limit max_pending_links = do
  guard (is_positive max_pending_links) "maxPendingLinks must be a positive integer"
  ok (max 1 ((nat_value max_pending_links + (link_key_shards - 1)) / link_key_shards))

-- What comes of a call of Redis.
pub data Call : Type 0 where
  replies rejects loses_reply : Call

module _ (synchronous : LinkStore) where
  open synchronous use {State, create_link, find_link, click_link, count_links, is_healthy}

  pub record World : Type 0 where
    pub redis : ℕ → Shard
    pub store : State
    pub counters : List Text

  abbrev count : Text → World → World
  count name w = record w { counters = name ∷ w.counters }

  abbrev put_shard : ℕ → Shard → World → World
  put_shard n s w = record w { redis = λ m. if m == n then s else w.redis m }

  -- `this.synchronous.create(input)`
  unfoldable pub delegate : CreateLinkInput → World → World × Result (Option Link)
  delegate input w =
      let (store, result) = create_link input w.store in (record w { store = store }, result)

  -- `find`, `recordClick`, `size` and `isHealthy`, which only pass the call on.
  on_store : {A : Type 0} → (State → State × Result A) → World → World × Result A
  on_store call w = let (store, result) = call w.store in (record w { store = store }, result)

  unfoldable pub find : Text → World → World × Result (Option Link)
  unfolding on_store
  find code w = on_store (find_link code) w

  unfoldable pub record_click : Text → World → World × Result (Unit {0})
  unfolding on_store
  record_click code w = on_store (click_link code) w

  unfoldable pub size : World → World × Result ℕ
  unfolding on_store
  size w = on_store count_links w

  unfoldable pub check_health : World → World × Result Bool
  unfolding on_store
  check_health w = on_store is_healthy w

  is_pending : Option CacheEntry → Bool
  is_pending none = false
  is_pending (some entry) = entry.pending

  unfoldable pub create_custom :
      Bool → Call → CreateLinkInput → World → World × Result (Option Link)
  unfolding delegate is_pending
  create_custom true replies input w =
      if is_pending (get input.code (w.redis (shard_of input.code)).cache)
      then (w, ok none)
      else delegate input w
  create_custom true rejects input w = delegate input w
  create_custom true loses_reply input w = delegate input w
  create_custom false call input w = delegate input w

  module _ (max_pending_per_shard : ℕ) (json_stringify : Map Field → Text) (to_iso : ℕ → Text) where
    iso_or_empty : Option ℕ → Text
    iso_or_empty none = []
    iso_or_empty (some t) = to_iso t

    -- Relative to the time of creation, and one millisecond at least.
    ttl_of : Option ℕ → ℕ → ℕ
    ttl_of none created_at = 0
    ttl_of (some t) created_at = max 1 (t - created_at)

    abbrev pub pending_of : CreateLinkInput → ℕ → PendingLink
    pending_of input created_at = record {
      code = input.code;
      target_url = input.target_url;
      created_at = created_at;
      expires_at = input.expires_at;
    }

    unfoldable pub arguments_of : CreateLinkInput → ℕ → EnqueueArguments
    unfolding iso_or_empty ttl_of
    arguments_of input created_at = record {
      max_pending = max_pending_per_shard;
      entry = serialize_pending_link to_iso json_stringify (pending_of input created_at);
      code = input.code;
      fields =
          (codes "code", input.code)
          ∷ (codes "targetUrl", input.target_url)
          ∷ (codes "createdAt", to_iso created_at)
          ∷ (codes "expiresAt", iso_or_empty input.expires_at)
          ∷ (codes "clicks", codes "0")
          ∷ [];
      ttl_ms = ttl_of input.expires_at created_at;
    }

    abbrev pub link_of : CreateLinkInput → ℕ → Link
    link_of input created_at = record {
      code = input.code;
      target_url = input.target_url;
      created_at = created_at;
      expires_at = input.expires_at;
      clicks = 0;
    }

    -- What `create` makes of the script's reply.
    answer_outcome : Enqueued → CreateLinkInput → ℕ → World → World × Result (Option Link)
    unfolding delegate
    answer_outcome accepted input now w =
        (count (codes "links_queued") w, ok (some (link_of input now)))
    answer_outcome exists input now w = (w, ok none)
    answer_outcome full input now w = delegate input (count (codes "write_behind_backpressure") w)

    fall_back : CreateLinkInput → World → World × Result (Option Link)
    unfolding delegate
    fall_back input w = delegate input (count (codes "write_behind_fallbacks") w)

    enqueued : CreateLinkInput → ℕ → World → World × Enqueued
    unfolding enqueue_link arguments_of
    enqueued input now w =
        let n = shard_of input.code in
        let (s, outcome) = enqueue_link (arguments_of input now) (w.redis n) in
        (put_shard n s w, outcome)

    unfoldable pub create_generated :
        Bool → Call → CreateLinkInput → ℕ → World → World × Result (Option Link)
    unfolding answer_outcome fall_back enqueued
    create_generated false call input now w = fall_back input w
    create_generated true rejects input now w = fall_back input w
    create_generated true loses_reply input now w = fall_back input (enqueued input now w).0
    create_generated true replies input now w =
        let (w', outcome) = enqueued input now w in answer_outcome outcome input now w'

    create_from :
        CodeSource → Bool → Call → CreateLinkInput → ℕ → World → World × Result (Option Link)
    unfolding create_custom create_generated
    create_from custom ready call input now w = create_custom ready call input w
    create_from generated ready call input now w = create_generated ready call input now w

    unfoldable pub create : Bool → Call → CreateLinkInput → ℕ → World → World × Result (Option Link)
    unfolding create_from
    create ready call input now w = create_from input.code_source ready call input now w
