-- ===== src/ClusterMetrics/Sound.antt =====
-- The snapshots that a worker sends have their shape, so that the primary's check can fail only at a
-- number: one that reaches 2 ^ 53, a sum that is not finite, or a counter that is a text.
use wrap_link.ClusterMetrics.{
  WorkerMessage, batch, snapshot_request, flush_response, PrimaryMessage, flush_request,
  snapshot_response, Channel, missing, sends, throws, ClusterMetrics, is_non_negative_safe_integer,
  is_request_duration, is_http_series, is_counter_value, is_counter_record, is_metrics_snapshot,
  is_primary_message, bucket_marks, one_request, request, is_empty_snapshot, send_batch, flush,
  request_snapshot, settle, time_out, respond, answer_message, handle_message,
}
use wrap_link.Metrics.{
  FloatSum, HttpSeries, MetricsSnapshot, request_duration_buckets, Seconds, nanoseconds,
  no_duration, empty_snapshot, is_counter_name, is_request,
}
use wrap_link.Metrics.Formed.{
  is_named, is_formed, Formed, and_true, and_parts, formed_of, add_metrics_snapshot-Formed,
  is_request-is_named,
}
use wrap_link.Prelude.{
  ℕ, ◌≡◌, refl, Bool, true, ◌&&◌, List, [], ◌∷◌, ◌++◌, Text, length, all, JsNumber, nat_value,
  Bool-cases, inl, inr, arith,
}
use wrap_link.Prelude.Maps.{has}

series_fits : (FloatSum → Bool) → HttpSeries → Bool
series_fits is_finite t =
    is_non_negative_safe_integer t.requests
    && is_finite t.duration.sum
    && is_non_negative_safe_integer t.duration.count
    && all is_non_negative_safe_integer t.duration.buckets

-- All numbers of a snapshot are below 2 ^ 53, its sums finite and its counters numbers.
pub numbers_fit : (FloatSum → Bool) → MetricsSnapshot → Bool
unfolding series_fits
numbers_fit is_finite s =
    all (λ c. is_counter_value c.1) s.counters
    && is_non_negative_safe_integer s.created
    && is_non_negative_safe_integer s.redirects
    && is_non_negative_safe_integer s.misses
    && all (series_fits is_finite) s.http_requests

module _ {A : Type 0} (p q r : A → Bool)
    (both : (x : A) → p x ≡ true → q x ≡ true → r x ≡ true) where
  all-both : (xs : List A) → all p xs ≡ true → all q xs ≡ true → all r xs ≡ true
  all-both [] h k = refl
  all-both (x ∷ xs) h k =
      let (first, rest) = and_parts (p x) (all p xs) h in
      let (first', rest') = and_parts (q x) (all q xs) k in
      and_true (both x first first') (all-both xs rest rest')

formed_fits :
    (is_finite : FloatSum → Bool) (t : HttpSeries)
    → is_formed t ≡ true
    → series_fits is_finite t ≡ true
    → is_http_series is_finite t ≡ true
unfolding is_formed is_named series_fits is_http_series is_request_duration
formed_fits is_finite t h k = ground arith

gathered :
    (a a' b c d e e' : Bool)
    → (a' ≡ true → a ≡ true)
    → (e' ≡ true → e ≡ true)
    → (a' && b && c && d && e') ≡ true
    → (a && b && c && d && e) ≡ true
gathered a a' b c d e e' f g h = ground (arith, f, g)

pub Formed-is_metrics_snapshot :
    (is_finite : FloatSum → Bool) (s : MetricsSnapshot)
    → Formed s
    → numbers_fit is_finite s ≡ true
    → is_metrics_snapshot is_finite s ≡ true
unfolding numbers_fit is_metrics_snapshot is_counter_record
Formed-is_metrics_snapshot is_finite s (names, formed) fits =
    gathered _ (all (λ c. is_counter_value c.1) s.counters) (is_non_negative_safe_integer s.created)
      (is_non_negative_safe_integer s.redirects) (is_non_negative_safe_integer s.misses) _
      (all (series_fits is_finite) s.http_requests)
      (all-both (λ c. is_counter_name c.0) (λ c. is_counter_value c.1)
        (λ c. is_counter_name c.0 && is_counter_value c.1) (λ c h k. and_true h k) s.counters names)
      (all-both is_formed (series_fits is_finite) (is_http_series is_finite) (formed_fits is_finite)
        s.http_requests formed)
      fits

empty-Formed : Formed empty_snapshot
empty-Formed = (refl, refl)

-- Of all batches that are on their way.
abbrev pub AllFormed : List WorkerMessage → Type 0
AllFormed [] = Unit
AllFormed (batch snapshot ∷ sent) = Formed snapshot × AllFormed sent
AllFormed (snapshot_request id ∷ sent) = AllFormed sent
AllFormed (flush_response id ∷ sent) = AllFormed sent

AllFormed-append :
    (sent more : List WorkerMessage) → AllFormed sent → AllFormed more → AllFormed (sent ++ more)
AllFormed-append [] more h k = k
AllFormed-append (batch s ∷ sent) more h k = (h.0, AllFormed-append sent more h.1 k)
AllFormed-append (snapshot_request id ∷ sent) more h k = AllFormed-append sent more h k
AllFormed-append (flush_response id ∷ sent) more h k = AllFormed-append sent more h k

abbrev pub Sound : ClusterMetrics → Type 0
Sound c = Formed c.pending_snapshot × AllFormed c.sent

send_batch-Sound : (channel : Channel) (c : ClusterMetrics) → Sound c → Sound (send_batch channel c)
unfolding send_batch
send_batch-Sound missing c h = h
send_batch-Sound sends c (p, q) =
    (empty-Formed, AllFormed-append c.sent (batch c.pending_snapshot ∷ []) q (p, tt))
send_batch-Sound throws c (p, q) =
    (add_metrics_snapshot-Formed empty_snapshot c.pending_snapshot empty-Formed p, q)

pub flush-Sound : (channel : Channel) (c : ClusterMetrics) → Sound c → Sound (flush channel c)
unfolding flush
flush-Sound channel c h = elim (Bool-cases (is_empty_snapshot c.pending_snapshot)) [
  | inl empty ↦ rw empty h
  | inr full ↦ rw full (send_batch-Sound channel c h)
]

pub request_snapshot-Sound :
    (pid : Text) (channel : Channel) (c : ClusterMetrics)
    → Sound c
    → Sound (request_snapshot pid channel c)
unfolding request_snapshot
request_snapshot-Sound pid missing c h = h
request_snapshot-Sound pid sends c (p, q) =
    (p, AllFormed-append c.sent (snapshot_request _ ∷ []) q tt)
request_snapshot-Sound pid throws c h = h

settle-Sound :
    (id : Text) (s : MetricsSnapshot) (c : ClusterMetrics) → Sound c → Sound (settle id s c)
unfolding settle
settle-Sound id s c h = elim (Bool-cases (has id c.pending)) [
  | inl waits ↦ rw waits h
  | inr gone ↦ rw gone h
]

pub time_out-Sound : (id : Text) (c : ClusterMetrics) → Sound c → Sound (time_out id c)
unfolding time_out
time_out-Sound id c h = settle-Sound id empty_snapshot c h

respond-Sound :
    (channel : Channel) (id : Text) (c : ClusterMetrics) → Sound c → Sound (respond channel id c).0
unfolding respond
respond-Sound missing id c h = h
respond-Sound sends id c (p, q) = (p, AllFormed-append c.sent (flush_response id ∷ []) q tt)
respond-Sound throws id c h = h

answer_message-Sound :
    (channel : Channel) (m : PrimaryMessage) (c : ClusterMetrics)
    → Sound c
    → Sound (answer_message channel m c).0
unfolding answer_message
answer_message-Sound channel (flush_request id) c h =
    respond-Sound channel id (flush channel c) (flush-Sound channel c h)
answer_message-Sound channel (snapshot_response id s) c h = settle-Sound id s c h

pub handle_message-Sound :
    (is_finite : FloatSum → Bool) (channel : Channel) (m : PrimaryMessage) (c : ClusterMetrics)
    → Sound c
    → Sound (handle_message is_finite channel m c).0
unfolding handle_message
handle_message-Sound is_finite channel m c h =
    elim (Bool-cases (c.listening && is_primary_message is_finite m)) [
      | inl fits ↦ rw fits (answer_message-Sound channel m c h)
      | inr bad ↦ rw bad h
    ]

length-bucket_marks :
    (previous : ℕ) (bounds : List ℕ) (ns : ℕ)
    → length (bucket_marks previous bounds ns) ≡ length bounds
unfolding bucket_marks
length-bucket_marks previous [] ns = refl
length-bucket_marks previous (bound ∷ bounds) ns =
    omega (arith, length-bucket_marks bound bounds ns)

pub request-Formed :
    (method route : Text) (status : JsNumber) (d : Seconds) (s : MetricsSnapshot)
    → Formed s
    → Formed (request method route status d s)
unfolding request
request-Formed method route status no_duration s h = h
request-Formed method route status (nanoseconds ns) s h =
    elim (Bool-cases (is_request method route status)) [
      | inl valid ↦ rw valid (
          add_metrics_snapshot-Formed s _ h (
            refl,
            and_true
                (formed_of (one_request method route (nat_value status) ns)
                  (is_request-is_named method route status valid)
                  (length-bucket_marks 0 request_duration_buckets ns))
                refl,
          ))
      | inr bad ↦ rw bad h
    ]
