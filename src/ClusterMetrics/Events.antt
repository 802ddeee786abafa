-- ===== src/ClusterMetrics/Events.antt =====
-- The life of a worker's collector and of the primary's aggregate, as a list of events, and the
-- collector of one process at the same calls.
use wrap_link.ClusterMetrics.{
  is_worker_message, WorkerMessage, batch, snapshot_request, flush_response, PrimaryMessage,
  Channel, ClusterMetrics, request, flush, request_snapshot, time_out, handle_message, close,
}
use wrap_link.Metrics.{
  FloatSum, MetricsSnapshot, Seconds, empty_snapshot, add_counter, add_metrics_snapshot,
  count_created, count_redirect, count_miss,
}
use wrap_link.Metrics
use wrap_link.Prelude.{Bool, true, false, List, [], ◌∷◌, Text, JsNumber}

-- A worker, the primary's aggregate of its batches, and the batches that the primary has refused.
pub record World : Type 0 where
  pub worker : ClusterMetrics
  pub aggregate : MetricsSnapshot
  pub refused : List MetricsSnapshot

-- The calls of the collector, the timer's flushes, and the messages of either side.
pub data Event : Type 0 where
  requested : Text → Text → JsNumber → Seconds → Event
  created_link redirected missed : Event
  incremented : Text → JsNumber → Event
  flushed : Channel → Event
  asked : Text → Channel → Event
  timed_out : Text → Event
  received : Channel → PrimaryMessage → Event
  closed : Channel → Event
  delivered : Event

-- The primary's listener: it passes over a message that has not its shape.
unfoldable pub accept_batch : Bool → MetricsSnapshot → World → World
accept_batch true snapshot w = record w { aggregate = add_metrics_snapshot w.aggregate snapshot }
accept_batch false snapshot w = record w { refused = snapshot ∷ w.refused }

-- The primary takes the first message; the flush requests and the answers that it sends for the
-- others are the worker's events.
unfoldable pub deliver : (FloatSum → Bool) → List WorkerMessage → World → World
unfolding accept_batch
deliver is_finite [] w = w
deliver is_finite (batch snapshot ∷ rest) w =
    accept_batch (is_worker_message is_finite (batch snapshot)) snapshot
      (record w { worker = record w.worker { sent = rest } })
deliver is_finite (snapshot_request id ∷ rest) w = record w {
  worker = record w.worker { sent = rest };
}
deliver is_finite (flush_response id ∷ rest) w = record w {
  worker = record w.worker { sent = rest };
}

abbrev pub on_pending : (MetricsSnapshot → MetricsSnapshot) → World → World
on_pending change w = record w {
  worker = record w.worker { pending_snapshot = change w.worker.pending_snapshot };
}

abbrev pub on_worker : (ClusterMetrics → ClusterMetrics) → World → World
on_worker change w = record w { worker = change w.worker }

-- An error of `handleMessage` ends the process; what it held stays in `worker`.
unfoldable pub step : (FloatSum → Bool) → Event → World → World
unfolding deliver
step is_finite (requested method route status d) w = on_pending (request method route status d) w
step is_finite created_link w = on_pending count_created w
step is_finite redirected w = on_pending count_redirect w
step is_finite missed w = on_pending count_miss w
step is_finite (incremented name value) w = on_pending (add_counter name value) w
step is_finite (flushed channel) w = on_worker (flush channel) w
step is_finite (asked pid channel) w = on_worker (request_snapshot pid channel) w
step is_finite (timed_out id) w = on_worker (time_out id) w
step is_finite (received channel message) w =
    on_worker (λ c. (handle_message is_finite channel message c).0) w
step is_finite (closed channel) w = on_worker (close channel) w
step is_finite delivered w = deliver is_finite w.worker.sent w

-- The collector of one process, at the same calls.
unfoldable pub collect : Event → MetricsSnapshot → MetricsSnapshot
collect (requested method route status d) s = Metrics.request method route status d s
collect created_link s = count_created s
collect redirected s = count_redirect s
collect missed s = count_miss s
collect (incremented name value) s = add_counter name value s
collect _ s = s

unfoldable pub run : (FloatSum → Bool) → List Event → World → World
run is_finite [] w = w
run is_finite (e ∷ events) w = run is_finite events (step is_finite e w)

unfoldable pub collect_all : List Event → MetricsSnapshot → MetricsSnapshot
collect_all [] s = s
collect_all (e ∷ events) s = collect_all events (collect e s)
