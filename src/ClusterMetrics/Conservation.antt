-- ===== src/ClusterMetrics/Conservation.antt =====
-- Nothing that a worker counts is lost or counted twice on its way to the primary's aggregate,
-- whichever of its sends fail: the totals are those of one process that had all the calls.
use wrap_link.ClusterMetrics.{
  is_worker_message, is_primary_message, answer_message, WorkerMessage, batch, snapshot_request,
  flush_response, PrimaryMessage, flush_request, snapshot_response, Channel, missing, sends, throws,
  ClusterMetrics, is_empty_snapshot, send_batch, flush, request_snapshot, settle, time_out, respond,
  handle_message, close,
}
use wrap_link.ClusterMetrics.Sound.{numbers_fit}
use wrap_link.ClusterMetrics.Refused.{run-Good}
use wrap_link.ClusterMetrics.Buckets.{Fits, request-request}
use wrap_link.ClusterMetrics.Events.{
  accept_batch, World, Event, requested, created_link, redirected, missed, incremented, flushed,
  asked, timed_out, received, closed, delivered, deliver, step, collect, run, collect_all,
}
use wrap_link.Metrics.{
  FloatSum, MetricsSnapshot, empty_snapshot, count_created, count_redirect, count_miss,
}
use wrap_link.Metrics.Totals.{
  Probe, created, redirects, misses, requests, count, bucket, InRange, total, total-add_counter,
  total-add_metrics_snapshot, total-empty,
}
use wrap_link.Prelude.Maps.{has}
use wrap_link.Prelude.{
  Bool, ◌&&◌, true, false, ℕ, ◌+◌, ◌≡◌, refl, ap, ◌∙◌, inl, inr, List, [], ◌∷◌, ◌++◌, Text, All,
  Bool-cases, arith,
}

-- What the batches on their way count.
unfoldable pub in_flight : Probe → List WorkerMessage → ℕ
in_flight p [] = 0
in_flight p (batch snapshot ∷ rest) = total p snapshot + in_flight p rest
in_flight p (snapshot_request id ∷ rest) = in_flight p rest
in_flight p (flush_response id ∷ rest) = in_flight p rest

-- What a list of snapshots counts.
unfoldable pub all_of : Probe → List MetricsSnapshot → ℕ
all_of p [] = 0
all_of p (snapshot ∷ snapshots) = total p snapshot + all_of p snapshots

-- At the worker, on the way, at the primary, and in the batches that the primary has refused.
abbrev pub whole : Probe → World → ℕ
whole p w =
    total p w.worker.pending_snapshot
    + in_flight p w.worker.sent
    + (total p w.aggregate + all_of p w.refused)

-- A request of exactly no time has no bucket at a worker; an answer to the primary that cannot be
-- sent ends the process.
abbrev pub FitsEvent : Probe → Event → Type 0
FitsEvent p (requested method route status d) = Fits p d
FitsEvent p (received throws (flush_request id)) = ⊥
FitsEvent p e = Unit

count_created-count_created :
    (p : Probe) (a b : MetricsSnapshot)
    → total p (count_created a) + total p b ≡ total p a + total p (count_created b)
unfolding total
count_created-count_created created a b = omega arith
count_created-count_created redirects a b = refl
count_created-count_created misses a b = refl
count_created-count_created (requests key) a b = refl
count_created-count_created (count key) a b = refl
count_created-count_created (bucket key i) a b = refl

count_redirect-count_redirect :
    (p : Probe) (a b : MetricsSnapshot)
    → total p (count_redirect a) + total p b ≡ total p a + total p (count_redirect b)
unfolding total
count_redirect-count_redirect created a b = refl
count_redirect-count_redirect redirects a b = omega arith
count_redirect-count_redirect misses a b = refl
count_redirect-count_redirect (requests key) a b = refl
count_redirect-count_redirect (count key) a b = refl
count_redirect-count_redirect (bucket key i) a b = refl

count_miss-count_miss :
    (p : Probe) (a b : MetricsSnapshot)
    → total p (count_miss a) + total p b ≡ total p a + total p (count_miss b)
unfolding total
count_miss-count_miss created a b = refl
count_miss-count_miss redirects a b = refl
count_miss-count_miss misses a b = omega arith
count_miss-count_miss (requests key) a b = refl
count_miss-count_miss (count key) a b = refl
count_miss-count_miss (bucket key i) a b = refl

in_flight-append :
    (p : Probe) (sent more : List WorkerMessage)
    → in_flight p (sent ++ more) ≡ in_flight p sent + in_flight p more
unfolding in_flight
in_flight-append p [] more = omega arith
in_flight-append p (batch s ∷ sent) more = omega (arith, in_flight-append p sent more)
in_flight-append p (snapshot_request id ∷ sent) more = in_flight-append p sent more
in_flight-append p (flush_response id ∷ sent) more = in_flight-append p sent more

module _ (is_finite : FloatSum → Bool) (p : Probe) (range : InRange p) where
  abbrev held : ClusterMetrics → ℕ
  held c = total p c.pending_snapshot + in_flight p c.sent

  held-send_batch : (channel : Channel) (c : ClusterMetrics) → held (send_batch channel c) ≡ held c
  unfolding send_batch in_flight
  held-send_batch missing c = refl
  held-send_batch sends c =
      omega (arith, total-empty p, in_flight-append p c.sent (batch c.pending_snapshot ∷ []))
  held-send_batch throws c =
      omega
        (arith, total-empty p, total-add_metrics_snapshot p empty_snapshot c.pending_snapshot range)

  held-flush : (channel : Channel) (c : ClusterMetrics) → held (flush channel c) ≡ held c
  unfolding flush
  held-flush channel c = elim (Bool-cases (is_empty_snapshot c.pending_snapshot)) [
    | inl empty ↦ rw empty refl
    | inr full ↦ rw full (held-send_batch channel c)
  ]

  held-request_snapshot :
      (pid : Text) (channel : Channel) (c : ClusterMetrics)
      → held (request_snapshot pid channel c) ≡ held c
  unfolding request_snapshot in_flight
  held-request_snapshot pid missing c = refl
  held-request_snapshot pid sends c =
      omega (arith, in_flight-append p c.sent (snapshot_request _ ∷ []))
  held-request_snapshot pid throws c = refl

  held-settle :
      (id : Text) (s : MetricsSnapshot) (c : ClusterMetrics) → held (settle id s c) ≡ held c
  unfolding settle
  held-settle id s c = elim (Bool-cases (has id c.pending)) [
    | inl waits ↦ rw waits refl
    | inr gone ↦ rw gone refl
  ]

  held-respond :
      (channel : Channel) (id : Text) (c : ClusterMetrics) → held (respond channel id c).0 ≡ held c
  unfolding respond in_flight
  held-respond missing id c = refl
  held-respond sends id c = omega (arith, in_flight-append p c.sent (flush_response id ∷ []))
  held-respond throws id c = refl

  held-answer_message :
      (channel : Channel) (m : PrimaryMessage) (c : ClusterMetrics)
      → held (answer_message channel m c).0 ≡ held c
  unfolding answer_message
  held-answer_message channel (flush_request id) c =
      held-respond channel id (flush channel c) ∙ held-flush channel c
  held-answer_message channel (snapshot_response id s) c = held-settle id s c

  held-handle_message :
      (channel : Channel) (m : PrimaryMessage) (c : ClusterMetrics)
      → held (handle_message is_finite channel m c).0 ≡ held c
  unfolding handle_message
  held-handle_message channel m c =
      elim (Bool-cases (c.listening && is_primary_message is_finite m)) [
        | inl fits ↦ rw fits (held-answer_message channel m c)
        | inr bad ↦ rw bad refl
      ]

  whole-accept_batch :
      (fits : Bool) (s : MetricsSnapshot) (w : World)
      → whole p (accept_batch fits s w) ≡ total p s + whole p w
  unfolding accept_batch all_of
  whole-accept_batch true s w = omega (arith, total-add_metrics_snapshot p w.aggregate s range)
  whole-accept_batch false s w = omega arith

  whole-deliver :
      (sent : List WorkerMessage) (w : World)
      → w.worker.sent ≡ sent
      → whole p (deliver is_finite sent w) ≡ whole p w
  unfolding deliver in_flight
  whole-deliver [] w e = refl
  whole-deliver (batch s ∷ rest) w e =
      whole-accept_batch (is_worker_message is_finite (batch s)) s
        (record w { worker = record w.worker { sent = rest } })
      ∙ omega (arith, ap (in_flight p) e)
  whole-deliver (snapshot_request id ∷ rest) w e = omega (arith, ap (in_flight p) e)
  whole-deliver (flush_response id ∷ rest) w e = omega (arith, ap (in_flight p) e)

  -- What an event adds to the whole, it adds to the collector of one process.
  step-collect :
      (e : Event) (w : World) (s : MetricsSnapshot)
      → FitsEvent p e
      → total p (collect e s) + whole p w ≡ total p s + whole p (step is_finite e w)
  unfolding step collect time_out close
  step-collect (requested method route status d) w s f =
      omega (arith, request-request p method route status d s w.worker.pending_snapshot range f)
  step-collect created_link w s f =
      omega (arith, count_created-count_created p s w.worker.pending_snapshot)
  step-collect redirected w s f =
      omega (arith, count_redirect-count_redirect p s w.worker.pending_snapshot)
  step-collect missed w s f = omega (arith, count_miss-count_miss p s w.worker.pending_snapshot)
  step-collect (incremented name value) w s f = omega (
    arith,
    total-add_counter p name value s,
    total-add_counter p name value w.worker.pending_snapshot,
  )
  step-collect (flushed channel) w s f = omega (arith, held-flush channel w.worker)
  step-collect (asked pid channel) w s f = omega (arith, held-request_snapshot pid channel w.worker)
  step-collect (timed_out id) w s f = omega (arith, held-settle id empty_snapshot w.worker)
  step-collect (received channel m) w s f = omega (arith, held-handle_message channel m w.worker)
  step-collect (closed channel) w s f = omega (arith, held-flush channel w.worker)
  step-collect delivered w s f = omega (arith, whole-deliver w.worker.sent w refl)

  pub run-collect_all :
      (events : List Event) (w : World) (s : MetricsSnapshot)
      → All (FitsEvent p) events
      → total p (collect_all events s) + whole p w ≡ total p s + whole p (run is_finite events w)
  unfolding run collect_all
  run-collect_all [] w s f = refl
  run-collect_all (e ∷ events) w s f =
      omega (
        arith,
        step-collect e w s f.0,
        run-collect_all events (step is_finite e w) (collect e s) f.1,
      )

abbrev pub fresh : World
fresh = record {
  worker = record {
    pending_snapshot = empty_snapshot;
    next_request_id = 0;
    pending = [];
    resolved = [];
    sent = [];
    listening = true;
  };
  aggregate = empty_snapshot;
  refused = [];
}

-- Whatever calls a worker's collector gets, and whenever it flushes, asks for a snapshot, answers the
-- primary or closes, with sends that return, throw or have no channel, as long as no answer to the
-- primary throws, which would end the process: what it holds, the batches on their way, the primary's
-- aggregate and the batches that the primary has refused count together what the collector of one
-- process counts at the same calls; and a batch is refused only if one of its counters is a text, one
-- of its numbers is 2 ^ 53 or more, or one of its sums of durations is not finite.
-- This holds of the links created, the redirects and the misses, and for each method, route and
-- status of the requests, their number, the number of their durations and each of the eleven buckets,
-- of these only if no request took exactly no time.
pub metrics_conserved :
    (is_finite : FloatSum → Bool) (p : Probe) (events : List Event)
    → InRange p
    → All (FitsEvent p) events
    → (whole p (run is_finite events fresh) ≡ total p (collect_all events empty_snapshot))
      × All (λ s. numbers_fit is_finite s ≡ false) (run is_finite events fresh).refused
unfolding in_flight all_of
metrics_conserved is_finite p events range f = (
  omega (arith, total-empty p, run-collect_all is_finite p range events fresh empty_snapshot f),
  (run-Good is_finite events fresh (((refl, refl), tt), tt)).1,
)
