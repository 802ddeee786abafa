-- ===== src/ClusterMetrics/Tests.antt =====
-- A worker on a small history, and the theorems at inputs that meet their hypotheses.
use wrap_link.ClusterMetrics.{sends, throws, is_metrics_snapshot}
use wrap_link.ClusterMetrics.Events.{
  Event, requested, created_link, flushed, delivered, run, collect_all,
}
use wrap_link.ClusterMetrics.Conservation.{fresh, whole, metrics_conserved}
use wrap_link.Prelude.Maps.{get, set}
use wrap_link.Metrics.{
  FloatSum, MetricsSnapshot, add_counter, is_counter_name, empty_snapshot, nanoseconds, key_of,
  is_request,
}
use wrap_link.ClusterMetrics.Sound.{numbers_fit}
use wrap_link.Metrics.Totals.{bucket, total}
use wrap_link.Prelude.{
  Bool, false, All, text_eq, ◌≡◌, refl, true, List, [], ◌∷◌, Text, codes, integer, pos,
  is_safe_integer, at_least, nat_value, arith,
}

abbrev home : Text
home = key_of (codes "GET") (codes "/") 200

abbrev is_finite : FloatSum → Bool
is_finite sum = true

abbrev events : List Event
events =
    requested (codes "GET") (codes "/") (integer (pos 200)) (nanoseconds 7000000)
    ∷ flushed throws
    ∷ created_link
    ∷ flushed sends
    ∷ delivered
    ∷ []

metrics_conserved_example :
    (whole (bucket home 1) (run is_finite events fresh)
      ≡ total (bucket home 1) (collect_all events empty_snapshot))
    × All (λ s. numbers_fit is_finite s ≡ false) (run is_finite events fresh).refused
metrics_conserved_example =
    metrics_conserved is_finite (bucket home 1) events (omega arith) (omega arith)

-- A counter that is named like an inherited property makes a batch that is refused.
abbrev named : MetricsSnapshot
named = add_counter (codes "constructor") (integer (pos 1)) empty_snapshot

constructor_refused : is_metrics_snapshot is_finite named ≡ false
unfolding add_counter is_metrics_snapshot is_safe_integer at_least nat_value text_eq get set
    is_counter_name
constructor_refused = refl

valid : is_request (codes "GET") (codes "/") (integer (pos 200)) ≡ true
unfolding is_request is_safe_integer at_least nat_value
valid = refl
