-- ===== src/SyncWorker/Worker.antt =====
-- src/store/link-sync-worker.ts: `start`, the timer, `tick` and `close` of `LinkSyncWorker`. A pass over
-- the shards (`processShards`) settles at some later event; the call of `close` waits in between.
pub mod Closing
mod Tests
use wrap_link.Prelude.{ℕ, ◌+◌, Bool, true, false, List, [], ◌∷◌, Result, ok, throw, if◌then◌else◌}

-- What the first call of `close` waits for: the pass that it found, its turn once that has settled,
-- and its last pass.
pub data CloseCall : Type 0 where
  not_called awaits_pass resumes awaits_last ended : CloseCall

-- `timer` and `running` say whether the fields are set; the number of passes that have started.
pub record Worker : Type 0 where
  pub timer : Bool
  pub running : Bool
  pub closed : Bool
  pub close_call : CloseCall
  pub passes : ℕ

abbrev pub new_worker : Worker
new_worker = record {
  timer = false;
  running = false;
  closed = false;
  close_call = not_called;
  passes = 0;
}

unfoldable pub start : Worker → Result Worker
start w = if w.closed then throw "link sync worker is closed" else ok (record w { timer = true })

-- `tick`: a pass that runs is shared.
unfoldable pub tick : Worker → Worker
tick w = if w.running then w else record w { running = true; passes = w.passes + 1 }

-- The timer's callback.
unfoldable pub fire : Worker → Worker
unfolding tick
fire w = if w.timer then (if w.running then w else tick w) else w

after_pass : CloseCall → CloseCall
after_pass not_called = not_called
after_pass awaits_pass = resumes
after_pass resumes = resumes
after_pass awaits_last = ended
after_pass ended = ended

-- The pass settles, with a result or an error.
unfoldable pub settle_pass : Worker → Worker
unfolding after_pass
settle_pass w =
    if w.running then record w { running = false; close_call = after_pass w.close_call } else w

-- `await this.tick()` of `close`.
last_pass : Worker → Worker
unfolding tick
last_pass w = record (tick w) { close_call = awaits_last }

stop : Worker → Worker
stop w = record w { closed = true; timer = false }

unfoldable pub close : Worker → Worker
unfolding stop last_pass
close w =
    if w.closed
    then w
    else if w.running
    then record (stop w) { close_call = awaits_pass }
    else last_pass (stop w)

go_on : CloseCall → Worker → Worker
unfolding last_pass
go_on resumes w = last_pass w
go_on _ w = w

-- The call of `close` goes on after the pass that it found.
unfoldable pub resume_close : Worker → Worker
unfolding go_on
resume_close w = go_on w.close_call w

pub data WorkerEvent : Type 0 where
  starts fires ticks settles closes close_resumes : WorkerEvent

started : Result Worker → Worker → Worker
started (ok w') w = w'
started (throw e) w = w

unfoldable pub step_worker : WorkerEvent → Worker → Worker
unfolding started
step_worker starts w = started (start w) w
step_worker fires w = fire w
step_worker ticks w = tick w
step_worker settles w = settle_pass w
step_worker closes w = close w
step_worker close_resumes w = resume_close w

unfoldable pub run_worker : List WorkerEvent → Worker → Worker
unfolding step_worker
run_worker [] w = w
run_worker (event ∷ events) w = run_worker events (step_worker event w)
