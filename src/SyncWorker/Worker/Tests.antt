-- ===== src/SyncWorker/Worker/Tests.antt =====
-- A worker that is closed while a pass runs.
use wrap_link.Prelude.{◌<◌, ◌≡◌, ◌≢◌, ◌⊎◌, refl, true, false, List, [], ◌∷◌}
use wrap_link.SyncWorker.Worker.{
  Worker, new_worker, start, tick, fire, settle_pass, close, resume_close, ended, WorkerEvent,
  starts, fires, ticks, settles, closes, close_resumes, step_worker, run_worker,
}
use wrap_link.SyncWorker.Worker.Closing.{close_lem}

abbrev busy : Worker
busy = record new_worker { timer = true; running = true; passes = 1 }

begun : run_worker (starts ∷ fires ∷ []) new_worker ≡ busy
unfolding run_worker step_worker start fire tick
begun = refl

abbrev events : List WorkerEvent
events = fires ∷ settles ∷ ticks ∷ close_resumes ∷ closes ∷ settles ∷ []

call_ended : (run_worker events (close busy)).close_call ≡ ended
unfolding run_worker step_worker close fire tick settle_pass resume_close
call_ended = refl

close_lem_example :
    ((run_worker events (close busy)).timer ≡ false)
    × (((run_worker events (close busy)).close_call ≢ ended)
        ⊎ (1 < (run_worker events (close busy)).passes))
close_lem_example = close_lem busy events refl
