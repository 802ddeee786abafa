-- ===== src/Metrics/Tests.antt =====
-- The collector of one process on a small history.
use wrap_link.Metrics.{empty_snapshot, nanoseconds, request, key_of, observe_duration}
use wrap_link.Metrics.Totals.{bucket, total}
use wrap_link.Prelude.{
  ◌≡◌, refl, codes, integer, pos, is_safe_integer, at_least, nat_value, text_eq,
}
use wrap_link.Keys.{decimal}

second_bucket :
    total
      (bucket (key_of (codes "GET") (codes "/") 200) 1)
      (request (codes "GET") (codes "/") (integer (pos 200)) (nanoseconds 7000000) empty_snapshot)
    ≡ 1
unfolding total request is_safe_integer at_least nat_value text_eq decimal observe_duration
second_bucket = refl
