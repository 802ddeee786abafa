-- ===== src/Metrics.antt =====
-- src/metrics.ts: the snapshots of metrics, their sum, and `Metrics`, the collector of one process. A
-- duration is a number of nanoseconds. The code adds durations as floats of seconds; here a sum is the
-- term of the additions that made it, and its value is not modelled. Counts are exact. No counters
-- stand for the field `counters` that is left out.
pub mod Series
pub mod Formed
pub mod Totals
mod Tests
use wrap_link.Prelude.{
  ℕ, zero, suc, ◌+◌, Bool, true, false, not, ◌&&◌, ◌||◌, List, [], ◌∷◌, ◌++◌, Option, none, some,
  Text, codes, other, text_eq, length, any, all, map, JsNumber, integer, pos, is_safe_integer,
  at_least, nat_value, leb, ltb, ◌==◌, if◌then◌else◌,
}
use wrap_link.Prelude.Maps.{Map, get, set}
use wrap_link.Keys.{decimal}

-- A sum of durations in seconds, as it was added up.
pub data FloatSum : Type 0 where
  zero_sum : FloatSum
  measured : ℕ → FloatSum
  plus : FloatSum → FloatSum → FloatSum

-- The value of a counter: a number, or a text.
pub data Counter : Type 0 where
  counted : ℕ → Counter
  spelled : Text → Counter

pub record RequestDuration : Type 0 where
  pub buckets : List ℕ
  pub sum : FloatSum
  pub count : ℕ

pub record HttpSeries : Type 0 where
  pub method : Text
  pub route : Text
  pub status_code : ℕ
  pub requests : ℕ
  pub duration : RequestDuration

pub record MetricsSnapshot : Type 0 where
  pub created : ℕ
  pub redirects : ℕ
  pub misses : ℕ
  pub http_requests : List HttpSeries
  pub counters : Map Counter

-- `REQUEST_DURATION_BUCKETS`, in nanoseconds.
abbrev pub request_duration_buckets : List ℕ
request_duration_buckets =
    5000000 ∷ 10000000 ∷ 25000000 ∷ 50000000 ∷ 100000000 ∷ 250000000 ∷ 500000000 ∷ 1000000000
    ∷ 2500000000 ∷ 5000000000 ∷ 10000000000 ∷ []

-- A duration that is finite and not negative, or another number.
pub data Seconds : Type 0 where
  nanoseconds : ℕ → Seconds
  no_duration : Seconds

abbrev pub empty_duration : RequestDuration
empty_duration = record {
  buckets = map (λ _. 0) request_duration_buckets;
  sum = zero_sum;
  count = 0;
}

abbrev pub empty_snapshot : MetricsSnapshot
empty_snapshot = record {
  created = 0;
  redirects = 0;
  misses = 0;
  http_requests = [];
  counters = [];
}

-- `[method, route, String(statusCode)].join("\u0000")`
abbrev pub key_of : Text → Text → ℕ → Text
key_of method route status_code = method ++ 0 ∷ (route ++ 0 ∷ decimal status_code)

abbrev pub series_key : HttpSeries → Text
series_key s = key_of s.method s.route s.status_code

abbrev pub create_http_series : Text → Text → ℕ → HttpSeries
create_http_series method route status_code = record {
  method = method;
  route = route;
  status_code = status_code;
  requests = 0;
  duration = empty_duration;
}

is_lower : ℕ → Bool
is_lower c = leb b'a' c && leb c b'z'

is_name_char : ℕ → Bool
is_name_char c = (leb b'a' c && leb c b'z') || (leb b'0' c && leb c b'9') || c == b'_'

-- `COUNTER_NAME_PATTERN`
unfoldable pub is_counter_name : Text → Bool
unfolding is_lower is_name_char
is_counter_name [] = false
is_counter_name (c ∷ name) = is_lower c && leb (length name) 63 && all is_name_char name

-- `counters[name] ?? 0` of a plain object: of the names that the pattern lets through, `constructor`
-- is the one that an object inherits.
current : Text → Option Counter → Counter
current name (some counter) = counter
current name none =
    if text_eq name (codes "constructor")
    then spelled (codes "function Object() { [native code] }")
    else counted 0

-- `+`, which appends to a text.
plus_value : Counter → ℕ → Counter
plus_value (counted n) value = counted (n + value)
plus_value (spelled s) value = spelled (s ++ decimal value)

-- A text is no number.
as_number : Counter → JsNumber
as_number (counted n) = integer (pos n)
as_number (spelled s) = other

unfoldable pub add_counter : Text → JsNumber → MetricsSnapshot → MetricsSnapshot
unfolding current plus_value is_counter_name
add_counter name value s =
    if is_counter_name name && is_safe_integer value && at_least 1 value
    then record s {
      counters =
          set name (plus_value (current name (get name s.counters)) (nat_value value)) s.counters;
    }
    else s

-- The first bucket whose bound is not below the duration.
unfoldable pub mark_bucket : ℕ → List ℕ → List ℕ → List ℕ
mark_bucket ns [] buckets = buckets
mark_bucket ns (bound ∷ bounds) [] =
    let rest = mark_bucket ns bounds [] in if leb ns bound then 1 ∷ [] else 0 ∷ rest
mark_bucket ns (bound ∷ bounds) (n ∷ buckets) =
    let rest = mark_bucket ns bounds buckets in if leb ns bound then (n + 1) ∷ buckets else n ∷ rest

unfoldable pub observe_duration : Seconds → RequestDuration → RequestDuration
unfolding mark_bucket
observe_duration no_duration d = d
observe_duration (nanoseconds ns) d = record {
  buckets = mark_bucket ns request_duration_buckets d.buckets;
  sum = plus d.sum (measured ns);
  count = d.count + 1;
}

-- A bucket that is missing counts as none.
unfoldable pub add_buckets : List ℕ → List ℕ → List ℕ → List ℕ
add_buckets [] target source = target
add_buckets (bound ∷ bounds) [] [] = 0 ∷ add_buckets bounds [] []
add_buckets (bound ∷ bounds) [] (m ∷ source) = m ∷ add_buckets bounds [] source
add_buckets (bound ∷ bounds) (n ∷ target) [] = n ∷ add_buckets bounds target []
add_buckets (bound ∷ bounds) (n ∷ target) (m ∷ source) = (n + m) ∷ add_buckets bounds target source

unfoldable pub add_request_duration : RequestDuration → RequestDuration → RequestDuration
unfolding add_buckets
add_request_duration target source = record {
  buckets = add_buckets request_duration_buckets target.buckets source.buckets;
  sum = plus target.sum source.sum;
  count = target.count + source.count;
}

-- The entry that the map of series has for the key, which is the last one with it, is changed; with
-- none, a fresh one is appended and changed.
unfoldable pub change_series :
    Text → HttpSeries → (HttpSeries → HttpSeries) → List HttpSeries → List HttpSeries
change_series key fresh change [] = change fresh ∷ []
change_series key fresh change (s ∷ series) =
    let rest = change_series key fresh change series in
    if text_eq (series_key s) key && not (any (λ t. text_eq (series_key t) key) series)
    then change s ∷ series
    else s ∷ rest

abbrev pub add_series : HttpSeries → HttpSeries → HttpSeries
add_series source target = record target {
  requests = target.requests + source.requests;
  duration = add_request_duration target.duration source.duration;
}

abbrev pub merge_series : HttpSeries → List HttpSeries → List HttpSeries
merge_series source target =
    change_series (series_key source)
      (create_http_series source.method source.route source.status_code) (add_series source) target

unfoldable pub merge_all : List HttpSeries → List HttpSeries → List HttpSeries
unfolding change_series
merge_all [] target = target
merge_all (source ∷ sources) target = merge_all sources (merge_series source target)

add_counters : Map Counter → MetricsSnapshot → MetricsSnapshot
unfolding add_counter as_number
add_counters [] s = s
add_counters ((name, value) ∷ counters) s =
    add_counters counters (add_counter name (as_number value) s)

unfoldable pub add_metrics_snapshot : MetricsSnapshot → MetricsSnapshot → MetricsSnapshot
unfolding add_counters merge_all
add_metrics_snapshot target source = add_counters source.counters (record target {
  created = target.created + source.created;
  redirects = target.redirects + source.redirects;
  misses = target.misses + source.misses;
  http_requests = merge_all source.http_requests target.http_requests;
})

-- The guard of `request`.
unfoldable pub is_request : Text → Text → JsNumber → Bool
is_request method route status_code =
    not (length method == 0)
    && not (length route == 0)
    && is_safe_integer status_code
    && at_least 100 status_code
    && leb (nat_value status_code) 599

abbrev pub observe : ℕ → HttpSeries → HttpSeries
observe ns s = record s {
  requests = s.requests + 1;
  duration = observe_duration (nanoseconds ns) s.duration;
}

-- `Metrics.request`
unfoldable pub request : Text → Text → JsNumber → Seconds → MetricsSnapshot → MetricsSnapshot
unfolding is_request change_series
request method route status_code no_duration s = s
request method route status_code (nanoseconds ns) s =
    if is_request method route status_code
    then record s {
      http_requests =
          change_series (key_of method route (nat_value status_code))
            (create_http_series method route (nat_value status_code)) (observe ns) s.http_requests;
    }
    else s

abbrev pub count_created : MetricsSnapshot → MetricsSnapshot
count_created s = record s { created = s.created + 1 }

abbrev pub count_redirect : MetricsSnapshot → MetricsSnapshot
count_redirect s = record s { redirects = s.redirects + 1 }

abbrev pub count_miss : MetricsSnapshot → MetricsSnapshot
count_miss s = record s { misses = s.misses + 1 }
