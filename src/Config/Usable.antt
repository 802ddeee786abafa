-- ===== src/Config/Usable.antt =====
-- A configuration that loads is one that the parts built from it accept.
use wrap_link.Config.{
  Env, AppConfig, trim, require_secret, list_of, integer_of, integer_variable, boolean_variable,
  list_variable, required_list, link_write_mode, load_config, is_write_behind,
}
use wrap_link.Prelude.{
  ℕ, ◌≡◌, refl, ap, subst, ◌∙◌, false, List, [], ◌∷◌, Option, none, some, Text, codes, length, All,
  Result, ok, throw, >>=-eq-ok, JsNumber, integer, pos, ◌==◌, arith,
}
use wrap_link.Clicks.{ClickBuffer, new_click_buffer}
use wrap_link.RateLimiter.{RedisRateLimiter, new_rate_limiter}
use wrap_link.SyncWorker.{SyncOptions, new_options}
use wrap_link.WriteBehind.{shard_limit}
use wrap_link.Config.Values.{
  IsCount, count_value, HasSecret, numeral-IsCount, passes, chosen-IsCount,
  require_secret-HasSecret, AreKeys, list_of-All, require_given-AreKeys,
}

abbrev config_value : Result AppConfig → AppConfig → AppConfig
config_value (ok c) other = c
config_value (throw e) other = other

abbrev pub counts_of : AppConfig → List ℕ
counts_of c =
    c.port ∷ c.max_links ∷ c.database_pool_max ∷ c.redis_cache_ttl_seconds ∷ c.create_rate_limit_max
    ∷ c.create_rate_limit_window_seconds ∷ c.click_flush_interval_ms ∷ c.click_buffer_max
    ∷ c.write_behind_max_pending ∷ c.link_sync_interval_ms ∷ c.link_sync_batch_size ∷ []

module _ (to_number : Text → JsNumber) where
  integer_of-IsCount :
      (raw : Option Text) (fallback n : ℕ)
      → IsCount fallback
      → integer_of to_number raw fallback ≡ ok n
      → IsCount n
  unfolding integer_of
  integer_of-IsCount none fallback n f h = subst IsCount (ap (λ r. count_value r n) h) f
  integer_of-IsCount (some raw) fallback n f h =
      chosen-IsCount (length (trim raw) == 0) fallback n (to_number (trim raw)) f h

  module _ (env : Env) where
    variable-IsCount :
        (name : Text) (fallback : ℕ) {n : ℕ}
        → IsCount fallback
        → integer_variable to_number env name fallback ≡ ok n
        → IsCount n
    unfolding integer_variable
    variable-IsCount name fallback f h = integer_of-IsCount (env name) fallback _ f h

    -- What the server builds of a configuration can be built: the counts are positive safe integers,
    -- there is a key and none is blank, write-behind mode has its secret, and no constructor throws.
    pub record IsUsable (c : AppConfig) (prefix : Text) : Type 0 where
      pub counts : All IsCount (counts_of c)
      pub keys : AreKeys c.create_api_keys
      pub secret : HasSecret c.link_write_mode c.code_scramble_secret
      pub limiter :
          (r : RedisRateLimiter) × (new_rate_limiter
              (integer (pos c.create_rate_limit_max))
              (integer (pos c.create_rate_limit_window_seconds))
              prefix
            ≡ ok r)
      pub buffer :
          (b : ClickBuffer) × (new_click_buffer
              (integer (pos c.click_flush_interval_ms))
              (integer (pos c.click_buffer_max))
              (integer (pos 10))
            ≡ ok b)
      pub worker :
          (o : SyncOptions) × (new_options
              (integer (pos c.link_sync_interval_ms))
              (integer (pos c.link_sync_batch_size))
              (integer (pos c.redis_cache_ttl_seconds))
              none
            ≡ ok o)
      pub shards : (n : ℕ) × (shard_limit (integer (pos c.write_behind_max_pending)) ≡ ok n)

    built :
        (c : AppConfig) (prefix : Text)
        → All IsCount (counts_of c)
        → AreKeys c.create_api_keys
        → HasSecret c.link_write_mode c.code_scramble_secret
        → IsUsable c prefix
    unfolding new_rate_limiter new_click_buffer new_options shard_limit
    built c prefix counts keys secret = record {
      counts = counts;
      keys = keys;
      secret = secret;
      limiter = (
        _,
        passes c.create_rate_limit_max _ _ counts.1.1.1.1.0
            ∙ passes c.create_rate_limit_window_seconds _ _ counts.1.1.1.1.1.0,
      );
      buffer = (
        _,
        passes c.click_flush_interval_ms _ _ counts.1.1.1.1.1.1.0
            ∙ passes c.click_buffer_max _ _ counts.1.1.1.1.1.1.1.0
            ∙ passes 10 _ _ (omega arith, omega arith),
      );
      worker = (
        _,
        passes c.link_sync_interval_ms _ _ counts.1.1.1.1.1.1.1.1.1.0
            ∙ passes c.link_sync_batch_size _ _ counts.1.1.1.1.1.1.1.1.1.1.0
            ∙ passes c.redis_cache_ttl_seconds _ _ counts.1.1.1.0,
      );
      shards = (_, passes c.write_behind_max_pending _ _ counts.1.1.1.1.1.1.1.1.0);
    }

    required_list-AreKeys :
        (keys : List Text)
        → required_list to_number env (codes "CREATE_API_KEYS") ≡ ok keys
        → AreKeys keys
    unfolding required_list list_variable
    required_list-AreKeys keys h =
        require_given-AreKeys (list_of (env (codes "CREATE_API_KEYS"))) keys
          (list_of-All (env (codes "CREATE_API_KEYS"))) h

    -- From any environment: a configuration that `loadConfig` returns has for each of its eleven
    -- numbers a positive safe integer, at least one API key and none of them blank, and in write-behind
    -- mode a secret of 32 characters or more; and with its numbers the constructors of the rate limiter,
    -- the click buffer, the sync worker and the write-behind store do not throw.
    pub load_config-IsUsable :
        (c : AppConfig) (prefix : Text) → load_config to_number env ≡ ok c → IsUsable c prefix
    unfolding load_config
    load_config-IsUsable c prefix h =
        let (mode, e_mode, h0) = >>=-eq-ok (link_write_mode to_number env) _ h in
        let (u, e_secret, h1) = >>=-eq-ok (require_secret mode _) _ h0 in
        let (port, e_port, h2) =
          >>=-eq-ok (integer_variable to_number env (codes "PORT") 3000) _ h1 in
        let (proxy, e_proxy, h3) =
          >>=-eq-ok (boolean_variable to_number env (codes "TRUST_PROXY") false) _ h2 in
        let (max_links, e_max_links, h4) =
          >>=-eq-ok (integer_variable to_number env (codes "MAX_LINKS") 100000) _ h3 in
        let (pool, e_pool, h5) =
          >>=-eq-ok (integer_variable to_number env (codes "DATABASE_POOL_MAX") 20) _ h4 in
        let (replicas, e_replicas, h6) =
          >>=-eq-ok (boolean_variable to_number env (codes "REDIS_CLUSTER_USE_REPLICAS") false) _
            h5 in
        let (ttl, e_ttl, h7) =
          >>=-eq-ok (integer_variable to_number env (codes "REDIS_CACHE_TTL_SECONDS") 300) _ h6 in
        let (limit, e_limit, h8) =
          >>=-eq-ok (integer_variable to_number env (codes "CREATE_RATE_LIMIT_MAX") 20) _ h7 in
        let (window, e_window, h9) =
          >>=-eq-ok (integer_variable to_number env (codes "CREATE_RATE_LIMIT_WINDOW_SECONDS") 60) _
            h8 in
        let (keys, e_keys, h10) =
          >>=-eq-ok (required_list to_number env (codes "CREATE_API_KEYS")) _ h9 in
        let (interval, e_interval, h11) =
          >>=-eq-ok (integer_variable to_number env (codes "CLICK_FLUSH_INTERVAL_MS") 1000) _ h10 in
        let (buffer, e_buffer, h12) =
          >>=-eq-ok (integer_variable to_number env (codes "CLICK_BUFFER_MAX") 10000) _ h11 in
        let (pending, e_pending, h13) =
          >>=-eq-ok (integer_variable to_number env (codes "WRITE_BEHIND_MAX_PENDING") 1000000) _
            h12 in
        let (enabled, e_enabled, h14) =
          >>=-eq-ok
            (boolean_variable to_number env (codes "LINK_SYNC_ENABLED") (is_write_behind mode)) _
            h13 in
        let (sync_ms, e_sync_ms, h15) =
          >>=-eq-ok (integer_variable to_number env (codes "LINK_SYNC_INTERVAL_MS") 250) _ h14 in
        let (batch, e_batch, h16) =
          >>=-eq-ok (integer_variable to_number env (codes "LINK_SYNC_BATCH_SIZE") 1000) _ h15 in
        subst (λ r. IsUsable (config_value r c) prefix) h16
          (built _ prefix
            (
              variable-IsCount (codes "PORT") 3000 (numeral-IsCount 3000 refl refl) e_port,
              (
                variable-IsCount (codes "MAX_LINKS") 100000 (numeral-IsCount 100000 refl refl)
                    e_max_links,
                (
                  variable-IsCount (codes "DATABASE_POOL_MAX") 20 (numeral-IsCount 20 refl refl)
                      e_pool,
                  (
                    variable-IsCount (codes "REDIS_CACHE_TTL_SECONDS") 300
                        (numeral-IsCount 300 refl refl) e_ttl,
                    (
                      variable-IsCount (codes "CREATE_RATE_LIMIT_MAX") 20
                          (numeral-IsCount 20 refl refl) e_limit,
                      (
                        variable-IsCount (codes "CREATE_RATE_LIMIT_WINDOW_SECONDS") 60
                            (numeral-IsCount 60 refl refl) e_window,
                        (
                          variable-IsCount (codes "CLICK_FLUSH_INTERVAL_MS") 1000
                              (numeral-IsCount 1000 refl refl) e_interval,
                          (
                            variable-IsCount (codes "CLICK_BUFFER_MAX") 10000
                                (numeral-IsCount 10000 refl refl) e_buffer,
                            (
                              variable-IsCount (codes "WRITE_BEHIND_MAX_PENDING") 1000000
                                  (numeral-IsCount 1000000 refl refl) e_pending,
                              (
                                variable-IsCount (codes "LINK_SYNC_INTERVAL_MS") 250
                                    (numeral-IsCount 250 refl refl) e_sync_ms,
                                (
                                  variable-IsCount (codes "LINK_SYNC_BATCH_SIZE") 1000
                                      (numeral-IsCount 1000 refl refl) e_batch,
                                  tt,
                                ),
                              ),
                            ),
                          ),
                        ),
                      ),
                    ),
                  ),
                ),
              ),
            )
            (required_list-AreKeys keys e_keys) (require_secret-HasSecret mode _ e_secret))
