-- ===== src/ClusterMetrics.antt =====
-- src/cluster-metrics.ts: `ClusterMetrics`, the collector of a worker process, and
-- `MetricsAggregator`. A worker's messages go to the primary in order. Of the checks of the messages'
-- shapes, those of the types of fields are not modelled: the fields of a message here have their types.
pub mod Buckets
pub mod Sound
pub mod Events
pub mod Refused
pub mod Conservation
mod Tests
use wrap_link.Prelude.{
  ℕ, suc, ◌+◌, Bool, true, false, not, ◌&&◌, List, [], ◌∷◌, ◌++◌, Option, none, some, Text, codes,
  length, all, Result, ok, throw, ◌^◌, JsNumber, nat_value, leb, ltb, ◌==◌, if◌then◌else◌,
}
use wrap_link.Prelude.Maps.{Map, has}
use wrap_link.Keys.{decimal}
use wrap_link.Metrics.{
  FloatSum, measured, Counter, counted, spelled, RequestDuration, is_counter_name, HttpSeries,
  MetricsSnapshot, request_duration_buckets, Seconds, nanoseconds, no_duration, empty_snapshot,
  add_counter, add_metrics_snapshot, is_request, count_created, count_redirect, count_miss,
}

pub data WorkerMessage : Type 0 where
  batch : MetricsSnapshot → WorkerMessage
  snapshot_request flush_response : Text → WorkerMessage

pub data PrimaryMessage : Type 0 where
  flush_request : Text → PrimaryMessage
  snapshot_response : Text → MetricsSnapshot → PrimaryMessage

-- The checks of the shapes of messages; whether a sum of floats is finite is a parameter.
pub is_non_negative_safe_integer : ℕ → Bool
is_non_negative_safe_integer n = ltb n (2 ^ 53)

is_request_duration : (FloatSum → Bool) → RequestDuration → Bool
unfolding is_non_negative_safe_integer
is_request_duration is_finite d =
    length d.buckets == length request_duration_buckets
    && is_finite d.sum
    && is_non_negative_safe_integer d.count
    && all is_non_negative_safe_integer d.buckets

is_http_series : (FloatSum → Bool) → HttpSeries → Bool
unfolding is_request_duration is_non_negative_safe_integer
is_http_series is_finite s =
    not (length s.method == 0)
    && not (length s.route == 0)
    && leb 100 s.status_code
    && leb s.status_code 599
    && is_non_negative_safe_integer s.requests
    && is_request_duration is_finite s.duration

unfoldable pub is_counter_value : Counter → Bool
unfolding is_non_negative_safe_integer
is_counter_value (counted n) = is_non_negative_safe_integer n
is_counter_value (spelled s) = false

is_counter_record : Map Counter → Bool
unfolding is_counter_value
is_counter_record = all (λ c. is_counter_name c.0 && is_counter_value c.1)

unfoldable pub is_metrics_snapshot : (FloatSum → Bool) → MetricsSnapshot → Bool
unfolding is_counter_record is_http_series is_non_negative_safe_integer
is_metrics_snapshot is_finite s =
    is_counter_record s.counters
    && is_non_negative_safe_integer s.created
    && is_non_negative_safe_integer s.redirects
    && is_non_negative_safe_integer s.misses
    && all (is_http_series is_finite) s.http_requests

unfoldable pub is_worker_message : (FloatSum → Bool) → WorkerMessage → Bool
unfolding is_metrics_snapshot
is_worker_message is_finite (batch snapshot) = is_metrics_snapshot is_finite snapshot
is_worker_message is_finite (snapshot_request id) = not (length id == 0)
is_worker_message is_finite (flush_response id) = not (length id == 0)

pub is_primary_message : (FloatSum → Bool) → PrimaryMessage → Bool
unfolding is_metrics_snapshot
is_primary_message is_finite (flush_request id) = not (length id == 0)
is_primary_message is_finite (snapshot_response id snapshot) =
    not (length id == 0) && is_metrics_snapshot is_finite snapshot

-- `process.send`: missing, or a call that returns or throws.
pub data Channel : Type 0 where
  missing sends throws : Channel

-- What has not been sent, the requests that wait for a snapshot, the promises that have been resolved, the
-- messages sent, and whether the listener of messages is on.
pub record ClusterMetrics : Type 0 where
  pub pending_snapshot : MetricsSnapshot
  pub next_request_id : ℕ
  pub pending : List Text
  pub resolved : List (Text × MetricsSnapshot)
  pub sent : List WorkerMessage
  pub listening : Bool

-- One for the bucket whose bound is the first that is not below the duration: it is above the bound
-- before it, and above zero for the first.
unfoldable pub bucket_marks : ℕ → List ℕ → ℕ → List ℕ
bucket_marks previous [] ns = []
bucket_marks previous (bound ∷ bounds) ns =
    (if leb ns bound && ltb previous ns then 1 else 0) ∷ bucket_marks bound bounds ns

abbrev pub one_request : Text → Text → ℕ → ℕ → HttpSeries
one_request method route status_code ns = record {
  method = method;
  route = route;
  status_code = status_code;
  requests = 1;
  duration = record {
    buckets = bucket_marks 0 request_duration_buckets ns;
    sum = measured ns;
    count = 1;
  };
}

unfoldable pub request : Text → Text → JsNumber → Seconds → MetricsSnapshot → MetricsSnapshot
unfolding bucket_marks
request method route status_code no_duration s = s
request method route status_code (nanoseconds ns) s =
    if is_request method route status_code
    then add_metrics_snapshot s (record empty_snapshot {
      http_requests = one_request method route (nat_value status_code) ns ∷ [];
    })
    else s

is_zero : ℕ → Bool
is_zero n = n == 0

unfoldable pub is_empty_snapshot : MetricsSnapshot → Bool
unfolding is_zero
is_empty_snapshot s =
    is_zero s.created
    && is_zero s.redirects
    && is_zero s.misses
    && is_zero (length s.http_requests)
    && is_zero (length s.counters)

-- The snapshot is taken out, and put back if it cannot be sent.
send_batch : Channel → ClusterMetrics → ClusterMetrics
send_batch missing c = c
send_batch sends c = record c {
  pending_snapshot = empty_snapshot;
  sent = c.sent ++ batch c.pending_snapshot ∷ [];
}
send_batch throws c = record c {
  pending_snapshot = add_metrics_snapshot empty_snapshot c.pending_snapshot;
}

unfoldable pub flush : Channel → ClusterMetrics → ClusterMetrics
unfolding send_batch is_empty_snapshot
flush channel c = if is_empty_snapshot c.pending_snapshot then c else send_batch channel c

-- `pid` is the process's number.
abbrev request_id : Text → ℕ → Text
request_id pid n = pid ++ codes ":" ++ decimal n

-- `requestSnapshot`: with no channel the promise is resolved at once with an empty snapshot; where
-- `send` throws it is rejected, and its entry waits for the timeout.
unfoldable pub request_snapshot : Text → Channel → ClusterMetrics → ClusterMetrics
request_snapshot pid missing c = c
request_snapshot pid sends c =
    let n = c.next_request_id + 1 in
    record c {
      next_request_id = n;
      pending = request_id pid n ∷ c.pending;
      sent = c.sent ++ snapshot_request (request_id pid n) ∷ [];
    }
request_snapshot pid throws c =
    let n = c.next_request_id + 1 in
    record c { next_request_id = n; pending = request_id pid n ∷ c.pending }

remove : Text → List Text → List Text
remove id [] = []
remove id (other ∷ ids) = if has id (other ∷ []) then ids else other ∷ remove id ids

settle : Text → MetricsSnapshot → ClusterMetrics → ClusterMetrics
unfolding remove has
settle id snapshot c =
    if has id c.pending
    then record c { pending = remove id c.pending; resolved = (id, snapshot) ∷ c.resolved }
    else c

-- The timeout of a request.
unfoldable pub time_out : Text → ClusterMetrics → ClusterMetrics
unfolding settle
time_out id c = settle id empty_snapshot c

respond : Channel → Text → ClusterMetrics → ClusterMetrics × Result (Unit {0})
respond missing id c = (c, ok tt)
respond sends id c = (record c { sent = c.sent ++ flush_response id ∷ [] }, ok tt)
respond throws id c = (c, throw "process.send failed")

answer_message : Channel → PrimaryMessage → ClusterMetrics → ClusterMetrics × Result (Unit {0})
unfolding settle flush respond
answer_message channel (flush_request id) c = respond channel id (flush channel c)
answer_message channel (snapshot_response id snapshot) c = (settle id snapshot c, ok tt)

-- `handleMessage`; nothing catches its error.
unfoldable pub handle_message :
    (FloatSum → Bool)
    → Channel
    → PrimaryMessage
    → ClusterMetrics
    → ClusterMetrics × Result (Unit {0})
unfolding answer_message
handle_message is_finite channel message c =
    if c.listening && is_primary_message is_finite message
    then answer_message channel message c
    else (c, ok tt)

-- `close`: the listener is taken off, and the promises that wait are never resolved.
unfoldable pub close : Channel → ClusterMetrics → ClusterMetrics
unfolding flush
close channel c = record (flush channel c) { pending = []; listening = false }
