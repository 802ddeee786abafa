-- ===== src/Metrics/Formed.antt =====
-- What the operations on snapshots keep of their form: the names of counters, and the method, the
-- route, the status and the number of buckets of each series.
use wrap_link.Metrics.{
  HttpSeries, MetricsSnapshot, Counter, request_duration_buckets, create_http_series,
  is_counter_name, add_counter, as_number, add_counters, mark_bucket, observe_duration, observe,
  add_buckets, add_request_duration, change_series, series_key, add_series, merge_series, merge_all,
  add_metrics_snapshot, is_request,
}
use wrap_link.Prelude.{
  ℕ, ◌≡◌, refl, Bool, true, false, not, ◌&&◌, List, [], ◌∷◌, Text, integer, other, pos, negsuc,
  text_eq, length, any, all, JsNumber, nat_value, is_safe_integer, at_least, leb, ◌==◌, ==_iff,
  Bool-cases, inl, inr, arith,
}
use wrap_link.Prelude.Maps.{Map, set}

unfoldable pub is_named : Text → Text → ℕ → Bool
is_named method route status =
    not (length method == 0) && not (length route == 0) && leb 100 status && leb status 599

unfoldable pub is_formed : HttpSeries → Bool
is_formed t =
    is_named t.method t.route t.status_code
    && length t.duration.buckets == length request_duration_buckets

abbrev pub Formed : MetricsSnapshot → Type 0
Formed s =
    (all (λ c. is_counter_name c.0) s.counters ≡ true) × (all is_formed s.http_requests ≡ true)

pub and_true : {a b : Bool} → a ≡ true → b ≡ true → (a && b) ≡ true
and_true h k = rw (h, k)

pub and_parts : (a b : Bool) → (a && b) ≡ true → (a ≡ true) × (b ≡ true)
and_parts true b h = (refl, h)
and_parts false b h = absurd (ground arith)

pub formed_parts :
    (t : HttpSeries)
    → is_formed t ≡ true
    → (is_named t.method t.route t.status_code ≡ true)
      × (length t.duration.buckets ≡ length request_duration_buckets)
unfolding is_formed
formed_parts t h =
    let (named, size) =
      and_parts (is_named t.method t.route t.status_code)
        (length t.duration.buckets == length request_duration_buckets) h in
    (named, (==_iff _ _).0 size)

pub formed_of :
    (t : HttpSeries)
    → is_named t.method t.route t.status_code ≡ true
    → length t.duration.buckets ≡ length request_duration_buckets
    → is_formed t ≡ true
unfolding is_formed
formed_of t named size =
    and_true named ((==_iff (length t.duration.buckets) (length request_duration_buckets)).1 size)

length-mark_bucket :
    (ns : ℕ) (bounds buckets : List ℕ)
    → length buckets ≡ length bounds
    → length (mark_bucket ns bounds buckets) ≡ length bounds
unfolding mark_bucket
length-mark_bucket ns [] buckets h = h
length-mark_bucket ns (bound ∷ bounds) [] h = absurd (omega arith)
length-mark_bucket ns (bound ∷ bounds) (n ∷ buckets) h = elim (Bool-cases (leb ns bound)) [
  | inl low ↦ rw low h
  | inr high ↦ rw high (omega (arith, length-mark_bucket ns bounds buckets (omega arith)))
]

length-add_buckets :
    (bounds target source : List ℕ)
    → length target ≡ length bounds
    → length (add_buckets bounds target source) ≡ length bounds
unfolding add_buckets
length-add_buckets [] target source h = h
length-add_buckets (b ∷ bounds) [] source h = absurd (omega arith)
length-add_buckets (b ∷ bounds) (n ∷ target) [] h =
    omega (arith, length-add_buckets bounds target [] (omega arith))
length-add_buckets (b ∷ bounds) (n ∷ target) (m ∷ source) h =
    omega (arith, length-add_buckets bounds target source (omega arith))

pub change_series-formed :
    (key : Text) (fresh : HttpSeries) (change : HttpSeries → HttpSeries) (series : List HttpSeries)
    → is_formed fresh ≡ true
    → ((t : HttpSeries) → is_formed t ≡ true → is_formed (change t) ≡ true)
    → all is_formed series ≡ true
    → all is_formed (change_series key fresh change series) ≡ true
unfolding change_series
change_series-formed key fresh change [] f keeps h = and_true (keeps fresh f) refl
change_series-formed key fresh change (s ∷ series) f keeps h =
    let (first, rest) = and_parts (is_formed s) (all is_formed series) h in
    elim (Bool-cases
      (text_eq (series_key s) key && not (any (λ t. text_eq (series_key t) key) series))) [
        | inl here ↦ rw here (and_true (keeps s first) rest)
        | inr there ↦
            rw there (and_true first (change_series-formed key fresh change series f keeps rest))
      ]

pub created-formed :
    (method route : Text) (status : ℕ)
    → is_named method route status ≡ true
    → is_formed (create_http_series method route status) ≡ true
created-formed method route status h = formed_of (create_http_series method route status) h refl

pub observe-formed :
    (ns : ℕ) (t : HttpSeries) → is_formed t ≡ true → is_formed (observe ns t) ≡ true
unfolding observe_duration
observe-formed ns t h =
    let (named, size) = formed_parts t h in
    formed_of (observe ns t) named
      (length-mark_bucket ns request_duration_buckets t.duration.buckets size)

add_series-formed :
    (source t : HttpSeries) → is_formed t ≡ true → is_formed (add_series source t) ≡ true
unfolding add_request_duration
add_series-formed source t h =
    let (named, size) = formed_parts t h in
    formed_of (add_series source t) named
      (length-add_buckets request_duration_buckets t.duration.buckets source.duration.buckets size)

merge_all-formed :
    (sources target : List HttpSeries)
    → all is_formed sources ≡ true
    → all is_formed target ≡ true
    → all is_formed (merge_all sources target) ≡ true
unfolding merge_all
merge_all-formed [] target h k = k
merge_all-formed (source ∷ sources) target h k =
    let (first, rest) = and_parts (is_formed source) (all is_formed sources) h in
    merge_all-formed sources (merge_series source target) rest (
      change_series-formed (series_key source)
        (create_http_series source.method source.route source.status_code) (add_series source)
        target
        (created-formed source.method source.route source.status_code (formed_parts source first).0)
        (add_series-formed source) k)

all-set :
    (name : Text) (counter : Counter) (m : Map Counter)
    → is_counter_name name ≡ true
    → all (λ c. is_counter_name c.0) m ≡ true
    → all (λ c. is_counter_name c.0) (set name counter m) ≡ true
unfolding set
all-set name counter [] h k = and_true h refl
all-set name counter ((j, v) ∷ m) h k =
    let (first, rest) = and_parts (is_counter_name j) (all (λ c. is_counter_name c.0) m) k in
    elim (Bool-cases (text_eq j name)) [
      | inl same ↦ rw same (and_true first rest)
      | inr differs ↦ rw differs (and_true first (all-set name counter m h rest))
    ]

pub add_counter-Formed :
    (name : Text) (value : JsNumber) (s : MetricsSnapshot)
    → Formed s
    → Formed (add_counter name value s)
unfolding add_counter
add_counter-Formed name value s (names, formed) =
    elim (Bool-cases (is_counter_name name && is_safe_integer value && at_least 1 value)) [
      | inl valid ↦ rw valid (
        all-set name _ s.counters
            (and_parts (is_counter_name name) (is_safe_integer value)
              (and_parts (is_counter_name name && is_safe_integer value) (at_least 1 value)
                valid).0).0
            names,
        formed,
      )
      | inr bad ↦ rw bad (names, formed)
    ]

add_counters-Formed :
    (counters : Map Counter) (s : MetricsSnapshot) → Formed s → Formed (add_counters counters s)
unfolding add_counters
add_counters-Formed [] s h = h
add_counters-Formed ((name, value) ∷ counters) s h =
    add_counters-Formed counters (add_counter name (as_number value) s)
      (add_counter-Formed name (as_number value) s h)

pub add_metrics_snapshot-Formed :
    (target source : MetricsSnapshot)
    → Formed target
    → Formed source
    → Formed (add_metrics_snapshot target source)
unfolding add_metrics_snapshot
add_metrics_snapshot-Formed target source (names, formed) (names', formed') =
    add_counters-Formed source.counters _
      (names, merge_all-formed source.http_requests target.http_requests formed' formed)

-- The guard of a request gives the name of a series.
pub is_request-is_named :
    (method route : Text) (status : JsNumber)
    → is_request method route status ≡ true
    → is_named method route (nat_value status) ≡ true
unfolding is_request is_named is_safe_integer at_least nat_value
is_request-is_named method route (integer (pos n)) h = ground arith
is_request-is_named method route (integer (negsuc n)) h = absurd (ground arith)
is_request-is_named method route other h = absurd (ground arith)
