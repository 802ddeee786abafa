-- ===== src/ClusterMetrics/Refused.antt =====
-- Which batches the primary refuses.
use wrap_link.ClusterMetrics.{
  WorkerMessage, batch, snapshot_request, flush_response, is_metrics_snapshot, is_worker_message,
  close,
}
use wrap_link.ClusterMetrics.Events.{
  World, Event, requested, created_link, redirected, missed, incremented, flushed, asked, timed_out,
  received, closed, delivered, accept_batch, deliver, step, run,
}
use wrap_link.ClusterMetrics.Sound.{
  numbers_fit, Formed-is_metrics_snapshot, AllFormed, Sound, flush-Sound, request_snapshot-Sound,
  time_out-Sound, handle_message-Sound, request-Formed,
}
use wrap_link.Metrics.{FloatSum, MetricsSnapshot}
use wrap_link.Metrics.Formed.{Formed, add_counter-Formed}
use wrap_link.Prelude.{
  ◌≡◌, refl, sym, ◌∙◌, Bool, true, false, List, [], ◌∷◌, All, Bool-cases, inl, inr,
}

module _ (is_finite : FloatSum → Bool) where
  -- The worker keeps the shape of what it sends, and what has been refused has a number that fails.
  abbrev pub Good : World → Type 0
  Good w = Sound w.worker × All (λ s. numbers_fit is_finite s ≡ false) w.refused

  refused_for :
      (s : MetricsSnapshot)
      → Formed s
      → is_metrics_snapshot is_finite s ≡ false
      → numbers_fit is_finite s ≡ false
  refused_for s formed bad = elim (Bool-cases (numbers_fit is_finite s)) [
    | inl fits ↦ cc (sym (Formed-is_metrics_snapshot is_finite s formed fits) ∙ bad)
    | inr e ↦ e
  ]

  accept_batch-Good :
      (fits : Bool) (s : MetricsSnapshot) (w : World)
      → is_metrics_snapshot is_finite s ≡ fits
      → Formed s
      → Good w
      → Good (accept_batch fits s w)
  unfolding accept_batch
  accept_batch-Good true s w e formed h = h
  accept_batch-Good false s w e formed (sound, refused) = (sound, (refused_for s formed e, refused))

  deliver-Good :
      (sent : List WorkerMessage) (w : World)
      → AllFormed sent
      → Good w
      → Good (deliver is_finite sent w)
  unfolding deliver is_worker_message
  deliver-Good [] w k h = h
  deliver-Good (batch s ∷ rest) w k (sound, refused) =
      accept_batch-Good (is_metrics_snapshot is_finite s) s
        (record w { worker = record w.worker { sent = rest } }) refl k.0 ((sound.0, k.1), refused)
  deliver-Good (snapshot_request id ∷ rest) w k (sound, refused) = ((sound.0, k), refused)
  deliver-Good (flush_response id ∷ rest) w k (sound, refused) = ((sound.0, k), refused)

  step-Good : (e : Event) (w : World) → Good w → Good (step is_finite e w)
  unfolding step close
  step-Good (requested method route status d) w (sound, refused) =
      ((request-Formed method route status d w.worker.pending_snapshot sound.0, sound.1), refused)
  step-Good created_link w h = h
  step-Good redirected w h = h
  step-Good missed w h = h
  step-Good (incremented name value) w (sound, refused) =
      ((add_counter-Formed name value w.worker.pending_snapshot sound.0, sound.1), refused)
  step-Good (flushed channel) w (sound, refused) = (flush-Sound channel w.worker sound, refused)
  step-Good (asked pid channel) w (sound, refused) =
      (request_snapshot-Sound pid channel w.worker sound, refused)
  step-Good (timed_out id) w (sound, refused) = (time_out-Sound id w.worker sound, refused)
  step-Good (received channel m) w (sound, refused) =
      (handle_message-Sound is_finite channel m w.worker sound, refused)
  step-Good (closed channel) w (sound, refused) = (flush-Sound channel w.worker sound, refused)
  step-Good delivered w (sound, refused) = deliver-Good w.worker.sent w sound.1 (sound, refused)

  pub run-Good : (events : List Event) (w : World) → Good w → Good (run is_finite events w)
  unfolding run
  run-Good [] w h = h
  run-Good (e ∷ events) w h = run-Good events (step is_finite e w) (step-Good e w h)
