-- ===== src/Metrics/Totals.antt =====
-- What a snapshot counts, and that a sum of snapshots counts the sum.
use wrap_link.Metrics.{
  Counter, as_number, HttpSeries, MetricsSnapshot, request_duration_buckets, empty_snapshot,
  add_counter, is_counter_name, add_counters, add_buckets, add_request_duration, merge_all,
  add_metrics_snapshot,
}
use wrap_link.Prelude.{
  ℕ, zero, suc, ◌+◌, ◌<◌, ◌≡◌, length, map, refl, ◌∙◌, inl, inr, ◌&&◌, List, [], ◌∷◌, Text, get_or,
  is_safe_integer, at_least, Bool-cases, JsNumber, arith, JsNumber,
}
use wrap_link.Prelude.Maps.{Map}
use wrap_link.Metrics.Series.{series_total, series_total-merge_all}

-- A number that each snapshot has: of the three counts, or of the series of a key.
pub data Probe : Type 0 where
  created redirects misses : Probe
  requests count : Text → Probe
  bucket : Text → ℕ → Probe

abbrev pub in_bucket : ℕ → HttpSeries → ℕ
in_bucket i s = get_or s.duration.buckets i 0

unfoldable pub total : Probe → MetricsSnapshot → ℕ
unfolding series_total
total created s = s.created
total redirects s = s.redirects
total misses s = s.misses
total (requests key) s = series_total (λ t. t.requests) key s.http_requests
total (count key) s = series_total (λ t. t.duration.count) key s.http_requests
total (bucket key i) s = series_total (in_bucket i) key s.http_requests

-- The counters are no probe, so adding them changes no total.
total-counters :
    (p : Probe) (s : MetricsSnapshot) (counters : Map Counter)
    → total p (record s { counters = counters }) ≡ total p s
unfolding total
total-counters created s counters = refl
total-counters redirects s counters = refl
total-counters misses s counters = refl
total-counters (requests key) s counters = refl
total-counters (count key) s counters = refl
total-counters (bucket key i) s counters = refl

pub total-add_counter :
    (p : Probe) (name : Text) (value : JsNumber) (s : MetricsSnapshot)
    → total p (add_counter name value s) ≡ total p s
unfolding total add_counter
total-add_counter p name value s =
    elim (Bool-cases (is_counter_name name && is_safe_integer value && at_least 1 value)) [
      | inl valid ↦ rw valid (total-counters p s _)
      | inr bad ↦ rw bad refl
    ]

total-add_counters :
    (p : Probe) (counters : Map Counter) (s : MetricsSnapshot)
    → total p (add_counters counters s) ≡ total p s
unfolding add_counters
total-add_counters p [] s = refl
total-add_counters p ((name, value) ∷ counters) s =
    total-add_counters p counters (add_counter name (as_number value) s)
    ∙ total-add_counter p name (as_number value) s

get_or-add_buckets :
    (bounds target source : List ℕ) (i : ℕ)
    → i < length bounds
    → get_or (add_buckets bounds target source) i 0 ≡ get_or target i 0 + get_or source i 0
unfolding add_buckets
get_or-add_buckets [] target source i h = absurd (omega arith)
get_or-add_buckets (b ∷ bounds) [] [] zero h = refl
get_or-add_buckets (b ∷ bounds) [] [] (suc i) h = get_or-add_buckets bounds [] [] i (omega arith)
get_or-add_buckets (b ∷ bounds) [] (m ∷ source) zero h = omega arith
get_or-add_buckets (b ∷ bounds) [] (m ∷ source) (suc i) h =
    get_or-add_buckets bounds [] source i (omega arith)
get_or-add_buckets (b ∷ bounds) (n ∷ target) [] zero h = omega arith
get_or-add_buckets (b ∷ bounds) (n ∷ target) [] (suc i) h =
    get_or-add_buckets bounds target [] i (omega arith)
get_or-add_buckets (b ∷ bounds) (n ∷ target) (m ∷ source) zero h = refl
get_or-add_buckets (b ∷ bounds) (n ∷ target) (m ∷ source) (suc i) h =
    get_or-add_buckets bounds target source i (omega arith)

pub get_or-zeros : (bounds : List ℕ) (i : ℕ) → get_or {A = ℕ} (map (λ _. 0) bounds) i 0 ≡ 0
get_or-zeros [] i = refl
get_or-zeros (b ∷ bounds) zero = refl
get_or-zeros (b ∷ bounds) (suc i) = get_or-zeros bounds i

-- There are eleven buckets.
abbrev pub InRange : Probe → Type 0
InRange (bucket key i) = i < length request_duration_buckets
InRange p = Unit

added :
    (p : Probe) (target source : MetricsSnapshot)
    → InRange p
    → total p (record target {
      created = target.created + source.created;
      redirects = target.redirects + source.redirects;
      misses = target.misses + source.misses;
      http_requests = merge_all source.http_requests target.http_requests;
    })
      ≡ total p target + total p source
unfolding total add_request_duration
added created target source h = refl
added redirects target source h = refl
added misses target source h = refl
added (requests key) target source h =
    series_total-merge_all (λ t. t.requests) (λ s t. refl) (λ m r n. refl) key source.http_requests
      target.http_requests
added (count key) target source h =
    series_total-merge_all (λ t. t.duration.count) (λ s t. refl) (λ m r n. refl) key
      source.http_requests target.http_requests
added (bucket key i) target source h =
    series_total-merge_all (in_bucket i)
      (λ s t. get_or-add_buckets request_duration_buckets t.duration.buckets s.duration.buckets i h)
      (λ m r n. get_or-zeros request_duration_buckets i) key source.http_requests
      target.http_requests

-- Every number of a sum of snapshots is the sum of theirs.
pub total-add_metrics_snapshot :
    (p : Probe) (target source : MetricsSnapshot)
    → InRange p
    → total p (add_metrics_snapshot target source) ≡ total p target + total p source
unfolding add_metrics_snapshot
total-add_metrics_snapshot p target source h =
    total-add_counters p source.counters _ ∙ added p target source h

pub total-empty : (p : Probe) → total p empty_snapshot ≡ 0
unfolding total series_total
total-empty created = refl
total-empty redirects = refl
total-empty misses = refl
total-empty (requests key) = refl
total-empty (count key) = refl
total-empty (bucket key i) = refl
