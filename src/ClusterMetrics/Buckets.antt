-- ===== src/ClusterMetrics/Buckets.antt =====
-- The buckets of a request in a worker are those of the collector of one process, but for a duration
-- of exactly zero.
use wrap_link.ClusterMetrics.{bucket_marks, one_request, request}
use wrap_link.Metrics.{
  HttpSeries, MetricsSnapshot, request_duration_buckets, Seconds, nanoseconds, no_duration,
  empty_snapshot, key_of, series_key, create_http_series, mark_bucket, observe_duration, observe,
  is_request, change_series, add_metrics_snapshot,
}
use wrap_link.Metrics
use wrap_link.Metrics.Totals.{
  Probe, created, redirects, misses, requests, count, bucket, InRange, in_bucket, total,
  get_or-zeros, total-add_metrics_snapshot,
}
use wrap_link.Metrics.Series.{series_total, series_total-change}
use wrap_link.Prelude.{
  ℕ, zero, suc, ◌+◌, ◌<◌, ◌≤◌, ◌≡◌, refl, ap, ◌∙◌, inl, inr, Bool, true, false, List, [], ◌∷◌, Text,
  text_eq, text_eq_refl, length, get_or, JsNumber, nat_value, leb, leb→le, Bool-cases,
  if◌then◌else◌, arith,
}

-- Each bound is above the one before it.
abbrev Increasing : ℕ → List ℕ → Type 0
Increasing previous [] = Unit
Increasing previous (bound ∷ bounds) = (previous < bound) × Increasing bound bounds

-- Above the duration no bucket is marked.
no_marks :
    (previous : ℕ) (bounds : List ℕ) (ns i : ℕ)
    → ns ≤ previous
    → Increasing previous bounds
    → get_or (bucket_marks previous bounds ns) i 0 ≡ 0
unfolding bucket_marks
no_marks previous [] ns i h up = refl
no_marks previous (bound ∷ bounds) ns zero h up = ground arith
no_marks previous (bound ∷ bounds) ns (suc i) h up = no_marks bound bounds ns i (omega arith) up.1

marks-mark_bucket :
    (previous : ℕ) (bounds buckets : List ℕ) (ns i : ℕ)
    → previous < ns
    → Increasing previous bounds
    → get_or (mark_bucket ns bounds buckets) i 0
      ≡ get_or buckets i 0 + get_or (bucket_marks previous bounds ns) i 0
unfolding bucket_marks mark_bucket
marks-mark_bucket previous [] buckets ns i h up = omega arith
marks-mark_bucket previous (bound ∷ bounds) [] ns zero h up = ground arith
marks-mark_bucket previous (bound ∷ bounds) [] ns (suc i) h up = elim (Bool-cases (leb ns bound)) [
  | inl low ↦ rw low (omega (arith, no_marks bound bounds ns i (leb→le ns bound low) up.1))
  | inr high ↦ rw high (marks-mark_bucket bound bounds [] ns i (ground arith) up.1)
]
marks-mark_bucket previous (bound ∷ bounds) (n ∷ buckets) ns zero h up = ground arith
marks-mark_bucket previous (bound ∷ bounds) (n ∷ buckets) ns (suc i) h up =
    elim (Bool-cases (leb ns bound)) [
      | inl low ↦ rw low (omega (arith, no_marks bound bounds ns i (leb→le ns bound low) up.1))
      | inr high ↦ rw high (marks-mark_bucket bound bounds buckets ns i (ground arith) up.1)
    ]

-- The duration is not exactly zero, where the probe is of a bucket.
abbrev pub Fits : Probe → Seconds → Type 0
Fits (bucket key i) (nanoseconds ns) = 0 < ns
Fits p d = Unit

abbrev pub single : Text → Text → ℕ → ℕ → MetricsSnapshot
single method route status ns = record empty_snapshot {
  http_requests = one_request method route status ns ∷ [];
}

bounds_increase : Increasing 0 request_duration_buckets
bounds_increase = omega arith

module _ (method route : Text) (status ns : ℕ) (s : MetricsSnapshot) where
  abbrev key : Text
  key = key_of method route status

  abbrev observed : List HttpSeries
  observed = change_series key (create_http_series method route status) (observe ns) s.http_requests

  abbrev SeriesGrow : (HttpSeries → ℕ) → Text → Type 0
  SeriesGrow f probe =
      series_total f probe observed
      ≡ series_total f probe s.http_requests
        + series_total f probe (one_request method route status ns ∷ [])

  series_grow :
      (f : HttpSeries → ℕ) (probe : Text)
      → ((t : HttpSeries) → f (observe ns t) ≡ f t + f (one_request method route status ns))
      → f (create_http_series method route status) ≡ 0
      → SeriesGrow f probe
  unfolding series_total
  series_grow f probe adds nothing = omega (
    arith,
    series_total-change f key (create_http_series method route status) (observe ns)
        (f (one_request method route status ns)) (record { adds = adds; keeps_key = λ t. refl })
        refl nothing probe s.http_requests,
  )

  observed-total :
      (p : Probe)
      → InRange p
      → Fits p (nanoseconds ns)
      → total p (record s { http_requests = observed })
        ≡ total p s + total p (single method route status ns)
  unfolding total observe_duration
  observed-total created r h = omega arith
  observed-total redirects r h = omega arith
  observed-total misses r h = omega arith
  observed-total (requests probe) r h = series_grow (λ t. t.requests) probe (λ t. refl) refl
  observed-total (count probe) r h = series_grow (λ t. t.duration.count) probe (λ t. refl) refl
  observed-total (bucket probe i) r h =
      series_grow (in_bucket i) probe
        (λ t.
          marks-mark_bucket 0 request_duration_buckets t.duration.buckets ns i h bounds_increase)
        (get_or-zeros request_duration_buckets i)

-- A request adds the same to the snapshot of a worker as to that of one process.
pub request-request :
    (p : Probe) (method route : Text) (status : JsNumber) (d : Seconds) (a b : MetricsSnapshot)
    → InRange p
    → Fits p d
    → total p (Metrics.request method route status d a) + total p b
      ≡ total p a + total p (request method route status d b)
unfolding Metrics.request request
request-request p method route status no_duration a b r h = refl
request-request p method route status (nanoseconds ns) a b r h =
    elim (Bool-cases (is_request method route status)) [
      | inl valid ↦ rw valid (
          omega (
            arith,
            observed-total method route (nat_value status) ns a p r h,
            total-add_metrics_snapshot p b (single method route (nat_value status) ns) r,
          ))
      | inr bad ↦ rw bad refl
    ]

zero_marks :
    (previous : ℕ) (bounds : List ℕ) (i : ℕ) → get_or (bucket_marks previous bounds 0) i 0 ≡ 0
unfolding bucket_marks
zero_marks previous [] i = refl
zero_marks previous (bound ∷ bounds) zero = ground arith
zero_marks previous (bound ∷ bounds) (suc i) = zero_marks bound bounds i

first_bucket :
    (buckets : List ℕ)
    → get_or (mark_bucket 0 request_duration_buckets buckets) 0 0 ≡ get_or buckets 0 0 + 1
unfolding mark_bucket
first_bucket [] = refl
first_bucket (n ∷ buckets) = refl

if_same-zero : (b : Bool) (n : ℕ) → n ≡ 0 → (if b then n else 0) + 0 ≡ 0
if_same-zero true n h = omega (arith, h)
if_same-zero false n h = refl

-- A request that took exactly no time is counted in the first bucket by the collector of one process,
-- and in none of the eleven buckets by the collector of a worker.
pub zero_duration_has_no_bucket :
    (method route : Text) (status : JsNumber) (i : ℕ) (a b : MetricsSnapshot)
    → is_request method route status ≡ true
    → i < length request_duration_buckets
    → (let key = key_of method route (nat_value status) in
        (total (bucket key 0) (Metrics.request method route status (nanoseconds 0) a)
          ≡ total (bucket key 0) a + 1)
        × (total (bucket key i) (request method route status (nanoseconds 0) b)
            ≡ total (bucket key i) b))
unfolding Metrics.request request observe_duration total series_total
zero_duration_has_no_bucket method route status i a b valid r =
    let n : ℕ = nat_value status in
    let key : Text = key_of method route n in
    (
      rw valid (
          series_total-change (in_bucket 0) key (create_http_series method route n) (observe 0) 1
            (record { adds = λ t. first_bucket t.duration.buckets; keeps_key = λ t. refl }) refl
            refl key a.http_requests
          ∙ ap (λ c. series_total (in_bucket 0) key a.http_requests + (if c then 1 else 0))
              (text_eq_refl key)),
      rw valid (
          omega (
            arith,
            total-add_metrics_snapshot (bucket key i) b (single method route n 0) r,
            if_same-zero (text_eq key key) _ (zero_marks 0 request_duration_buckets i),
          )),
    )
