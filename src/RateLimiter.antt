-- ===== src/RateLimiter.antt =====
-- src/security/rate-limiter.ts: `RedisRateLimiter` and its Lua script. Redis is the server's, and
-- stands here as a record of the three commands that the script calls, with what is documented of
-- them; a script runs at one instant of the server's clock.
pub mod Windows
mod Tests
use wrap_link.Prelude.{
  ℕ, suc, ◌+◌, ◌-◌, ◌^◌, ◌≤◌, ◌≡◌, Bool, true, false, ◌&&◌, List, [], ◌∷◌, ◌++◌, Option, none, some,
  Text, codes, Result, ok, throw, ◌>>=◌, ◌>>◌, guard, String, ℤ, pos, negsuc, JsNumber, integer,
  is_positive, is_safe_integer, nat_value, max, leb, ◌==◌, if◌then◌else◌,
}

pub record Counters : Type 1 where
  pub State : Type 0
  pub exists : Text → State → Bool
  pub incr : Text → State → ℕ × State
  pub expire : Text → ℕ → State → State
  -- the seconds left; -1 with no expiry, -2 with no key
  pub ttl : Text → State → ℤ
  pub exists-incr : (key : Text) (s : State) → exists key (incr key s).1 ≡ true
  pub ttl-expire :
      (key : Text) (seconds : ℕ) (s : State)
      → exists key s ≡ true
      → 1 ≤ seconds
      → ttl key (expire key seconds s) ≡ pos seconds
  pub exists-expire :
      (key : Text) (seconds : ℕ) (s : State)
      → exists key s ≡ true
      → 1 ≤ seconds
      → exists key (expire key seconds s) ≡ true

pub record RateLimitResult : Type 0 where
  pub allowed : Bool
  pub limit : ℕ
  pub remaining : ℕ
  pub retry_after_seconds : ℕ

pub record RedisRateLimiter : Type 0 where
  pub maximum : ℕ
  pub window_seconds : ℕ
  pub prefix : Text

unfoldable pub new_rate_limiter : JsNumber → JsNumber → Text → Result RedisRateLimiter
new_rate_limiter maximum window_seconds prefix = do
  guard (is_positive maximum) "Rate-limit maximum must be a positive integer"
  guard (is_positive window_seconds) "Rate-limit window must be a positive integer"
  ok (record {
    maximum = nat_value maximum;
    window_seconds = nat_value window_seconds;
    prefix = prefix;
  })

-- What `consume` makes of the script's reply.
unfoldable pub read_reply : RedisRateLimiter → List ℤ → Result RateLimitResult
read_reply r (count ∷ ttl ∷ []) = do
  guard (is_safe_integer (integer count) && is_safe_integer (integer ttl))
      "Redis returned invalid rate-limit values"
  ok (record {
    allowed = leb (nat_value (integer count)) r.maximum;
    limit = r.maximum;
    remaining = r.maximum - nat_value (integer count);
    retry_after_seconds = max 1 (nat_value (integer ttl));
  })
read_reply r _ = throw "Redis returned an invalid rate-limit result"

module _ (redis : Counters) where
  open redis use {State, exists, incr, expire, ttl}

  -- `if current == 1 then redis.call("EXPIRE", ...)`
  expire_first : ℕ → Text → ℕ → State → State
  expire_first current key window s = if current == 1 then expire key window s else s

  -- `if ttl < 0 then redis.call("EXPIRE", ...); ttl = ...`, and the reply.
  expire_missing : ℤ → ℕ → Text → ℕ → State → List ℤ × State
  expire_missing (negsuc n) current key window s =
      (pos current ∷ pos window ∷ [], expire key window s)
  expire_missing (pos n) current key window s = (pos current ∷ pos n ∷ [], s)

  -- CONSUME_RATE_LIMIT
  unfoldable pub consume_script : Text → ℕ → State → List ℤ × State
  unfolding expire_first expire_missing
  consume_script key window s =
      let (current, s1) = incr key s in
      let s2 = expire_first current key window s1 in
      expire_missing (ttl key s2) current key window s2

  -- `digest` is the hexadecimal SHA-256 of a text; `is_ready` and `failure` are the client's state
  -- and the error that `eval` rejects with, if it does.
  unfoldable pub consume :
      (Text → Text)
      → Bool
      → Option String
      → RedisRateLimiter
      → Text
      → State
      → Result (RateLimitResult × State)
  consume digest false failure r identity s = throw "Redis is unavailable"
  consume digest true (some e) r identity s = throw e
  consume digest true none r identity s =
      let (reply, s') =
        consume_script (r.prefix ++ codes ":" ++ digest identity) r.window_seconds s in
      do result ← read_reply r reply; ok (result, s')
