-- ===== src/RateLimiter/Tests.antt =====
-- The limiter over a store of one window that is kept by hand, and its theorem on that store.
use wrap_link.Prelude.{
  ℕ, ◌+◌, ◌≡◌, refl, Bool, true, false, none, Text, codes, ok, throw, ℤ, pos, negsuc, integer,
  is_positive, nat_value, arith, ltb, leb, if◌then◌else◌, ◌^◌, ◌-◌, max, ◌&&◌,
}
use wrap_link.RateLimiter.{Counters, RedisRateLimiter, new_rate_limiter, consume_script, consume}
use wrap_link.RateLimiter.Windows.{consume_lem}

-- One counter with its expiry: what the commands do on a single key.
record Cell : Type 0 where
  live : Bool
  count : ℕ
  left : ℤ

cell_ttl : Bool → ℤ → ℤ
cell_ttl true left = left
cell_ttl false left = negsuc 1

abbrev one_cell : Counters
one_cell = record {
  State = Cell;
  exists = λ key s. s.live;
  incr = λ key s. (s.count + 1, record s { live = true; count = s.count + 1 });
  expire = λ key seconds s. record s { left = pos seconds };
  ttl = λ key s. if s.live then s.left else negsuc 1;
  exists-incr = λ key s. refl;
  ttl-expire = λ key seconds s x w. rw x refl;
  exists-expire = λ key seconds s x w. x;
}

abbrev limiter : RedisRateLimiter
limiter = record { maximum = 2; window_seconds = 60; prefix = codes "wraplink:rate" }

-- No key yet.
abbrev fresh : Cell
fresh = record { live = false; count = 0; left = negsuc 0 }

-- A counter that lost its expiry.
abbrev stuck : Cell
stuck = record { live = true; count = 7; left = negsuc 0 }

limiter_new :
    new_rate_limiter (integer (pos 2)) (integer (pos 60)) (codes "wraplink:rate") ≡ ok limiter
unfolding new_rate_limiter is_positive nat_value
limiter_new = refl

abbrev no_digest : Text → Text
no_digest identity = identity

-- The counter stands at 8 of 2 after the call, and ends.
consume_lem_example :
    let after = (consume_script one_cell (codes "wraplink:rate:abcd") 60 stuck).1 in
    (left : ℕ) × (Counters.ttl one_cell (codes "wraplink:rate:abcd") after ≡ pos left)
    × (consume one_cell no_digest true none limiter (codes "abcd") stuck ≡ (
        if ltb 8 (2 ^ 53) && ltb left (2 ^ 53)
        then ok (
          record {
            allowed = leb 8 2;
            limit = 2;
            remaining = 2 - 8;
            retry_after_seconds = max 1 left;
          },
          after,
        )
        else throw "Redis returned invalid rate-limit values"))
consume_lem_example = consume_lem one_cell no_digest limiter (codes "abcd") stuck (omega arith)
