-- ===== src/SyncWorker/Worker/Closing.antt =====
-- What `close` of the worker guarantees.
use wrap_link.Prelude.{
  ℕ, ◌≤◌, ◌<◌, ◌≡◌, ◌≢◌, ◌⊎◌, inl, inr, refl, sym, subst, Bool, true, false, List, [], ◌∷◌, ok,
  throw, if◌then◌else◌, arith,
}
use wrap_link.SyncWorker.Worker.{
  CloseCall, not_called, awaits_pass, resumes, awaits_last, ended, Worker, start, tick, fire,
  after_pass, settle_pass, last_pass, stop, close, go_on, resume_close, WorkerEvent, starts, fires,
  ticks, settles, closes, close_resumes, started, step_worker, run_worker,
}

-- What the call of `close` knows; `found` is the number of passes that had started when it was made.
abbrev CallState : ℕ → CloseCall → Worker → Type 0
CallState found not_called w = ⊥
CallState found awaits_pass w = (found ≤ w.passes) × (w.running ≡ true)
CallState found resumes w = (found ≤ w.passes) × ((w.running ≡ true) → found < w.passes)
CallState found awaits_last w = (found < w.passes) × (w.running ≡ true)
CallState found ended w = found < w.passes

record Closing (found : ℕ) (w : Worker) : Type 0 where
  is_closed : w.closed ≡ true
  no_timer : w.timer ≡ false
  call : CallState found w.close_call w

module _ (found : ℕ) where
  tick-Closing :
      (t r c : Bool) (k : CloseCall) (n : ℕ)
      → Closing found (record { timer = t; running = r; closed = c; close_call = k; passes = n })
      → Closing found
          (tick (record { timer = t; running = r; closed = c; close_call = k; passes = n }))
  unfolding tick
  tick-Closing t true c k n v = v
  tick-Closing t false c not_called n v = absurd v.call
  tick-Closing t false c awaits_pass n v = absurd (ground (arith, v.call.1))
  tick-Closing t false c resumes n v = record {
    is_closed = v.is_closed;
    no_timer = v.no_timer;
    call = (omega (arith, v.call.0), λ e. omega (arith, v.call.0));
  }
  tick-Closing t false c awaits_last n v = absurd (ground (arith, v.call.1))
  tick-Closing t false c ended n v = record {
    is_closed = v.is_closed;
    no_timer = v.no_timer;
    call = omega (arith, v.call);
  }

  settle_pass-Closing :
      (t r c : Bool) (k : CloseCall) (n : ℕ)
      → Closing found (record { timer = t; running = r; closed = c; close_call = k; passes = n })
      → Closing found
          (settle_pass (record { timer = t; running = r; closed = c; close_call = k; passes = n }))
  unfolding settle_pass after_pass
  settle_pass-Closing t false c k n v = v
  settle_pass-Closing t true c not_called n v = absurd v.call
  settle_pass-Closing t true c awaits_pass n v = record {
    is_closed = v.is_closed;
    no_timer = v.no_timer;
    call = (v.call.0, λ e. absurd (ground (arith, e)));
  }
  settle_pass-Closing t true c resumes n v = record {
    is_closed = v.is_closed;
    no_timer = v.no_timer;
    call = (v.call.0, λ e. absurd (ground (arith, e)));
  }
  settle_pass-Closing t true c awaits_last n v = record {
    is_closed = v.is_closed;
    no_timer = v.no_timer;
    call = v.call.0;
  }
  settle_pass-Closing t true c ended n v = record {
    is_closed = v.is_closed;
    no_timer = v.no_timer;
    call = v.call;
  }

  resume_close-Closing :
      (t r c : Bool) (k : CloseCall) (n : ℕ)
      → Closing found (record { timer = t; running = r; closed = c; close_call = k; passes = n })
      → Closing found
          (resume_close (record { timer = t; running = r; closed = c; close_call = k; passes = n }))
  unfolding resume_close go_on last_pass tick
  resume_close-Closing t true c resumes n v = record {
    is_closed = v.is_closed;
    no_timer = v.no_timer;
    call = (v.call.1 refl, refl);
  }
  resume_close-Closing t false c resumes n v = record {
    is_closed = v.is_closed;
    no_timer = v.no_timer;
    call = (omega (arith, v.call.0), refl);
  }
  resume_close-Closing t r c not_called n v = v
  resume_close-Closing t r c awaits_pass n v = v
  resume_close-Closing t r c awaits_last n v = v
  resume_close-Closing t r c ended n v = v

  step_worker-Closing :
      (e : WorkerEvent) (w : Worker) → Closing found w → Closing found (step_worker e w)
  unfolding step_worker started start fire close
  step_worker-Closing starts w v =
      subst
        (λ b. Closing found (
          started (if b then throw "link sync worker is closed" else ok (record w { timer = true }))
            w))
        (sym v.is_closed) v
  step_worker-Closing fires w v =
      subst (λ b. Closing found (if b then (if w.running then w else tick w) else w))
        (sym v.no_timer) v
  step_worker-Closing ticks w v = tick-Closing w.timer w.running w.closed w.close_call w.passes v
  step_worker-Closing settles w v =
      settle_pass-Closing w.timer w.running w.closed w.close_call w.passes v
  step_worker-Closing closes w v =
      subst
        (λ b. Closing found (
          if b
          then w
          else if w.running
          then record (stop w) { close_call = awaits_pass }
          else last_pass (stop w)))
        (sym v.is_closed) v
  step_worker-Closing close_resumes w v =
      resume_close-Closing w.timer w.running w.closed w.close_call w.passes v

  run_worker-Closing :
      (events : List WorkerEvent) (w : Worker)
      → Closing found w
      → Closing found (run_worker events w)
  unfolding run_worker
  run_worker-Closing [] w v = v
  run_worker-Closing (e ∷ events) w v =
      run_worker-Closing events (step_worker e w) (step_worker-Closing e w v)

close-Closing :
    (t r : Bool) (k : CloseCall) (n : ℕ)
    → Closing n
        (close (record { timer = t; running = r; closed = false; close_call = k; passes = n }))
unfolding close stop last_pass tick
close-Closing t true k n = record { is_closed = refl; no_timer = refl; call = (omega arith, refl) }
close-Closing t false k n = record { is_closed = refl; no_timer = refl; call = (omega arith, refl) }

closed_call :
    (found : ℕ) (w : Worker) (k : CloseCall)
    → CallState found k w
    → (k ≢ ended) ⊎ (found < w.passes)
closed_call found w not_called call = absurd call
closed_call found w awaits_pass call = inl (λ e. cc)
closed_call found w resumes call = inl (λ e. cc)
closed_call found w awaits_last call = inr call.0
closed_call found w ended call = inr call

close_open : (w : Worker) → w.closed ≡ false → Closing w.passes (close w)
close_open w e =
    subst (λ b. Closing w.passes (close (record w { closed = b }))) (sym e)
      (close-Closing w.timer w.running w.close_call w.passes)

-- A call of `close` on a worker that is not closed, and whatever calls, ticks of the timer and ends
-- of passes come after it: the timer is off, and either the call has not ended or a pass has started
-- that had not when the call was made.
pub close_lem :
    (w : Worker) (events : List WorkerEvent)
    → w.closed ≡ false
    → ((run_worker events (close w)).timer ≡ false)
      × (((run_worker events (close w)).close_call ≢ ended)
          ⊎ (w.passes < (run_worker events (close w)).passes))
close_lem w events e =
    let v = run_worker-Closing w.passes events (close w) (close_open w e) in
    (
      v.no_timer,
      closed_call w.passes (run_worker events (close w)) (run_worker events (close w)).close_call
          v.call,
    )

-- The call of `close` ends with the second pass that settles after it, at the latest.
close_ends :
    (t r : Bool) (k : CloseCall) (n : ℕ)
    → (run_worker (settles ∷ close_resumes ∷ settles ∷ []) (
        close (record {
          timer = t;
          running = r;
          closed = false;
          close_call = k;
          passes = n;
        }))).close_call
      ≡ ended
unfolding run_worker step_worker close stop last_pass tick settle_pass after_pass resume_close go_on
close_ends t true k n = refl
close_ends t false k n = refl
