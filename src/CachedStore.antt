-- ===== src/CachedStore.antt =====
-- src/store/cached-link-store.ts: `CachedLinkStore` over any source. Redis is a hash for each code;
-- `link_key` is injective (Keys/Tags), so a code stands for its key. Each call of Redis meets one of
-- the fates of `Call`; dates and decimal numbers are parameters.
pub mod Coherence
pub mod Reading
pub mod Calls
pub mod History
mod Tests
use wrap_link.Prelude.{
  ℕ, suc, ◌+◌, ◌-◌, ◌/◌, Bool, true, false, ◌&&◌, List, [], ◌∷◌, Option, none, some, Text, text_eq,
  Result, ok, throw, JsNumber, is_safe_integer, at_least, nat_value, min, leb, ◌==◌, if◌then◌else◌,
}
use wrap_link.Links.{LinkStore, Link, CreateLinkInput}
use wrap_link.MemoryStore.{has_expired}
use wrap_link.PendingLinks.{and_then, check}

-- The fields of a hash that the store reads; a field that is missing is none.
pub record Hash : Type 0 where
  pub code : Option Text
  pub target_url : Option Text
  pub created_at : Option Text
  pub expires_at : Option Text
  pub clicks : Option Text

-- A hash and the seconds it was last given to live.
pub record Entry : Type 0 where
  pub fields : Hash
  pub ttl_seconds : ℕ

abbrev pub Cache : Type 0
Cache = Text → Option Entry

unfoldable pub put : Text → Option Entry → Cache → Cache
put code entry cache other = if text_eq code other then entry else cache other

-- What a call of Redis meets: a client that is not ready, a reply, an error without effect, and an
-- error after the effect.
pub data Call : Type 0 where
  offline replies rejects loses_reply : Call

-- `if (!value)` for a field.
truthy : Option Text → Option Text
truthy none = none
truthy (some []) = none
truthy (some (c ∷ value)) = some (c ∷ value)

module _ (parse_date : Text → Option ℕ) (parse_number : Text → JsNumber) where
  -- `expiresAtValue ? new Date(expiresAtValue) : null`, none for an invalid date.
  read_expiry : Option Text → Option (Option ℕ)
  read_expiry none = some none
  read_expiry (some t) = and_then (parse_date t) (λ at. some (some at))

  is_count : JsNumber → Bool
  is_count n = is_safe_integer n && at_least 0 n

  -- All but the count of clicks.
  unfoldable pub read_identity : Hash → Option Link
  unfolding truthy read_expiry
  read_identity h = and_then (truthy h.code) λ code. and_then (truthy h.target_url) λ target_url.
      and_then (truthy h.created_at) λ created_text.
        and_then (parse_date created_text) λ created_at.
          and_then (read_expiry (truthy h.expires_at)) λ expires_at. some (record {
            code = code;
            target_url = target_url;
            created_at = created_at;
            expires_at = expires_at;
            clicks = 0;
          })

  -- The link of a hash; none where `readSafely` deletes the hash as not valid.
  unfoldable pub read_hash : Hash → Option Link
  unfolding is_count
  read_hash h = and_then (read_identity h) λ link. and_then h.clicks λ clicks.
      and_then (check (is_count (parse_number clicks)))
        λ _. some (record link { clicks = nat_value (parse_number clicks) })

module _ (to_iso : ℕ → Text) (to_decimal : ℕ → Text) where
  iso_or_empty : Option ℕ → Text
  iso_or_empty none = []
  iso_or_empty (some t) = to_iso t

  -- The fields that `cache` sets.
  unfoldable pub hash_of : Link → Hash
  unfolding iso_or_empty
  hash_of link = record {
    code = some link.code;
    target_url = some link.target_url;
    created_at = some (to_iso link.created_at);
    expires_at = some (iso_or_empty link.expires_at);
    clicks = some (to_decimal link.clicks);
  }

  keep_until : Option ℕ → ℕ → ℕ → Link → Cache → Cache
  unfolding hash_of
  keep_until none ttl now link cache =
      put link.code (some (record { fields = hash_of link; ttl_seconds = ttl })) cache
  keep_until (some t) ttl now link cache =
      if (t - now) / 1000 == 0
      then put link.code none cache
      else put link.code
          (some (record { fields = hash_of link; ttl_seconds = min ttl ((t - now) / 1000) })) cache

  -- `cache`: of a link with less than a second left the hash is deleted.
  unfoldable pub cache_link : ℕ → ℕ → Link → Cache → Cache
  unfolding keep_until
  cache_link ttl now link cache = keep_until link.expires_at ttl now link cache

-- `HINCRBY` of the field `clicks`; none where Redis refuses a field that is not a number.
set_clicks : Option Text → Entry → Entry
set_clicks none e = e
set_clicks (some n) e = record e { fields = record e.fields { clicks = some n } }

module _ (increment : Option Text → Option Text) where
  count_entry : Option Entry → Option Entry
  unfolding set_clicks
  count_entry none = none
  count_entry (some e) = some (set_clicks (increment e.fields.clicks) e)

  -- INCREMENT_CACHED_CLICK
  unfoldable pub increment_click : Text → Cache → Cache
  unfolding count_entry
  increment_click code cache = put code (count_entry (cache code)) cache

-- Dates and numbers as text, and the click buffer, if there is one.
pub record Formats : Type 0 where
  pub to_iso : ℕ → Text
  pub parse_date : Text → Option ℕ
  pub to_decimal : ℕ → Text
  pub parse_number : Text → JsNumber
  pub increment : Option Text → Option Text

module _ (source : LinkStore) (clock : LinkStore.State source → ℕ) (formats : Formats)
    (ttl_seconds : ℕ)
    (buffer : Option
      (Text → LinkStore.State source → LinkStore.State source × Result (Unit {0}))) where
  -- The source, the hashes, and the fates of the next calls of Redis; after those all reply.
  pub record CachedStore : Type 0 where
    pub state : LinkStore.State source
    pub cache : Cache
    pub calls : List Call

  next_call : List Call → Call
  next_call [] = replies
  next_call (call ∷ calls) = call

  other_calls : List Call → List Call
  other_calls [] = []
  other_calls (call ∷ calls) = calls

  affect : Call → (Cache → Cache) → Cache → Cache
  affect offline change cache = cache
  affect replies change cache = change cache
  affect rejects change cache = cache
  affect loses_reply change cache = change cache

  -- A call that writes; its errors are caught.
  unfoldable pub write_safely : (Cache → Cache) → CachedStore → CachedStore
  unfolding next_call other_calls affect
  write_safely change w = record w {
    cache = affect (next_call w.calls) change w.cache;
    calls = other_calls w.calls;
  }

  -- `cacheSafely`
  unfoldable pub cache_safely : Option Link → CachedStore → CachedStore
  unfolding cache_link
  cache_safely none w = w
  cache_safely (some link) w =
      write_safely (cache_link formats.to_iso formats.to_decimal ttl_seconds (clock w.state) link) w

  -- What `readSafely` makes of a hash that was read as a link, or not.
  judge : Option Link → Text → CachedStore → CachedStore × Option Link
  judge none code w = (write_safely (put code none) w, none)
  judge (some link) code w =
      if has_expired link.expires_at (clock w.state)
      then (write_safely (put code none) w, none)
      else (w, some link)

  read_entry : Option Entry → Text → CachedStore → CachedStore × Option Link
  unfolding judge
  read_entry none code w = (w, none)
  read_entry (some e) code w =
      judge (read_hash formats.parse_date formats.parse_number e.fields) code w

  read_reply : Call → Text → CachedStore → CachedStore × Option Link
  unfolding read_entry
  read_reply offline code w = (w, none)
  read_reply replies code w = read_entry (w.cache code) code w
  read_reply rejects code w = (w, none)
  read_reply loses_reply code w = (w, none)

  -- `readSafely`
  unfoldable pub read_safely : Text → CachedStore → CachedStore × Option Link
  unfolding next_call other_calls read_reply
  read_safely code w =
      read_reply (next_call w.calls) code (record w { calls = other_calls w.calls })

  cached_answer : Result (Option Link) → CachedStore → CachedStore × Result (Option Link)
  cached_answer (throw e) w = (w, throw e)
  cached_answer (ok found) w = (cache_safely found w, ok found)

  unfoldable pub create : CreateLinkInput → CachedStore → CachedStore × Result (Option Link)
  unfolding cached_answer
  create input w =
      let (s, result) = LinkStore.create_link source input w.state in
      cached_answer result (record w { state = s })

  find_missing : Option Link → Text → CachedStore → CachedStore × Result (Option Link)
  unfolding cached_answer
  find_missing (some link) code w = (w, ok (some link))
  find_missing none code w =
      let (s, result) = LinkStore.find_link source code w.state in
      cached_answer result (record w { state = s })

  unfoldable pub find : Text → CachedStore → CachedStore × Result (Option Link)
  unfolding find_missing
  find code w = let (w', cached) = read_safely code w in find_missing cached code w'

  -- `this.clickBuffer.record(code)`, or the source's `recordClick`.
  count_durably :
      Option (Text → LinkStore.State source → LinkStore.State source × Result (Unit {0}))
      → Text
      → LinkStore.State source
      → LinkStore.State source × Result (Unit {0})
  count_durably (some record_buffered) code s = record_buffered code s
  count_durably none code s = LinkStore.click_link source code s

  count_cached : Result (Unit {0}) → Text → CachedStore → CachedStore × Result (Unit {0})
  unfolding increment_click
  count_cached (throw e) code w = (w, throw e)
  count_cached (ok _) code w = (write_safely (increment_click formats.increment code) w, ok tt)

  unfoldable pub record_click : Text → CachedStore → CachedStore × Result (Unit {0})
  unfolding count_durably count_cached
  record_click code w =
      let (s, result) = count_durably buffer code w.state in
      count_cached result code (record w { state = s })

  -- `size` and `isHealthy` are the source's.
  on_source :
      {A : Type 0}
      → (LinkStore.State source → LinkStore.State source × Result A)
      → CachedStore
      → CachedStore × Result A
  on_source call w = let (s, result) = call w.state in (record w { state = s }, result)

  unfoldable pub size : CachedStore → CachedStore × Result ℕ
  unfolding on_source
  size w = on_source (LinkStore.count_links source) w

  unfoldable pub check_health : CachedStore → CachedStore × Result Bool
  unfolding on_source
  check_health w = on_source (LinkStore.is_healthy source) w
