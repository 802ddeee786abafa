-- ===== src/RateLimiter/Windows.antt =====
-- Every consumption is counted against a window that ends.
use wrap_link.Prelude.{
  ℕ, ◌-◌, ◌^◌, ◌≤◌, ◌≡◌, refl, ap, ◌∙◌, true, ◌&&◌, [], ◌∷◌, ◌++◌, none, Text, codes, ok, throw,
  ◌>>=◌, ℤ, pos, negsuc, is_safe_integer, nat_value, max, leb, ltb, ◌==◌, if◌then◌else◌, Bool-cases,
  inl, inr,
}
use wrap_link.RateLimiter.{
  Counters, RateLimitResult, RedisRateLimiter, read_reply, expire_first, expire_missing,
  consume_script, consume,
}

module _ (redis : Counters) where
  open redis use {State, exists, incr, expire, ttl, exists-incr, ttl-expire, exists-expire}

  -- After the script the key has an expiry, of `left` seconds, and the reply is the count and these.
  expire_missing_lem :
      (t : ℤ) (current : ℕ) (key : Text) (window : ℕ) (s : State)
      → ttl key s ≡ t
      → exists key s ≡ true
      → 1 ≤ window
      → (left : ℕ) × ((expire_missing redis t current key window s).0 ≡ pos current ∷ pos left ∷ [])
        × (ttl key (expire_missing redis t current key window s).1 ≡ pos left)
        × (exists key (expire_missing redis t current key window s).1 ≡ true)
  unfolding expire_missing
  expire_missing_lem (pos n) current key window s e x w = (n, refl, e, x)
  expire_missing_lem (negsuc n) current key window s e x w =
      (window, refl, ttl-expire key window s x w, exists-expire key window s x w)

  exists-expire_first :
      (current : ℕ) (key : Text) (window : ℕ) (s : State)
      → exists key s ≡ true
      → 1 ≤ window
      → exists key (expire_first redis current key window s) ≡ true
  unfolding expire_first
  exists-expire_first current key window s x w = elim (Bool-cases (current == 1)) [
    | inl first ↦ rw (first, expire_first) (exists-expire key window s x w)
    | inr later ↦ rw (later, expire_first) x
  ]

  -- What `consume` makes of a reply that has this form.
  pair_read :
      (r : RedisRateLimiter) (count left : ℕ) (after : State)
      → ◌>>=◌ {B = RateLimitResult × State}
          (read_reply r (pos count ∷ pos left ∷ []))
          (λ result. ok (result, after))
        ≡ (if ltb count (2 ^ 53) && ltb left (2 ^ 53)
            then ok (
              record {
                allowed = leb count r.maximum;
                limit = r.maximum;
                remaining = r.maximum - count;
                retry_after_seconds = max 1 left;
              },
              after,
            )
            else throw "Redis returned invalid rate-limit values")
  unfolding read_reply is_safe_integer nat_value
  pair_read r count left after = elim (Bool-cases (ltb count (2 ^ 53) && ltb left (2 ^ 53))) [
    | inl safe ↦ rw safe refl
    | inr large ↦ rw large refl
  ]

  -- With a ready client and a window of at least a second, the key has an expiry after `consume`, so
  -- that no count stays for ever, and `consume` returns if the count and the seconds left are safe
  -- integers, and throws otherwise: it allows the call exactly if the new count is at most the
  -- maximum, `remaining` is what is left of the maximum, and the caller is told to wait for as
  -- many seconds as the key has left, and for one at least.
  pub consume_lem :
      (digest : Text → Text) (r : RedisRateLimiter) (identity : Text) (s : State)
      → 1 ≤ r.window_seconds
      → let key = r.prefix ++ codes ":" ++ digest identity in
        let count = (incr key s).0 in
        let after = (consume_script redis key r.window_seconds s).1 in
        (left : ℕ) × (ttl key after ≡ pos left)
        × (consume redis digest true none r identity s ≡ (
            if ltb count (2 ^ 53) && ltb left (2 ^ 53)
            then ok (
              record {
                allowed = leb count r.maximum;
                limit = r.maximum;
                remaining = r.maximum - count;
                retry_after_seconds = max 1 left;
              },
              after,
            )
            else throw "Redis returned invalid rate-limit values"))
  unfolding consume consume_script read_reply is_safe_integer nat_value
  consume_lem digest r identity s w =
      let key = r.prefix ++ codes ":" ++ digest identity in
      let count = (incr key s).0 in
      let s1 = (incr key s).1 in
      let s2 = expire_first redis count key r.window_seconds s1 in
      let (left, reply, expiry, _) =
        expire_missing_lem (ttl key s2) count key r.window_seconds s2 refl
          (exists-expire_first count key r.window_seconds s1 (exists-incr key s) w) w in
      let after = (consume_script redis key r.window_seconds s).1 in
      (
        left,
        expiry,
        ap
              (λ reply'.
                ◌>>=◌ {B = RateLimitResult × State} (read_reply r reply')
                  (λ result. ok (result, after)))
              reply
            ∙ pair_read r count left after,
      )
