-- ===== src/Clicks/Conservation.antt =====
-- No click is lost and none is counted twice, whatever the order of records, flushes and answers.
use wrap_link.Prelude.{
  ℕ, ◌+◌, ◌≡◌, refl, ap, subst, inl, inr, Bool, true, false, not, List, [], ◌∷◌, Option, none, some,
  Text, Result, ok, throw, guard, >>=-eq-ok, leb, if◌then◌else◌, AllDistinct, arith, Bool-cases,
}
use wrap_link.Prelude.Maps.{Map, keys}
use wrap_link.Clicks.{
  ClickBuffer, Flush, no_flush, writing, written, start, begin_flush, flush_unless, flush,
  add_pending, flush_if_full, is_empty, record_click, end_flush, Answer, failed, wrote,
  unmatched_of, sink_answered, forget_matched, answer_flush, clear_promise, clear_flush,
  begin_close,
}
use wrap_link.Clicks.Counts.{
  total, matched, sum_of-matched, Sound, add_pending-Sound, restore-Sound, retry_all-Sound,
}

pub data Event : Type 0 where
  starts flushes clears closes : Event
  clicks : Text → Event
  answers : Answer → Event

-- The buffer, the clicks that `record` accepted, and those that the sink matched to a stored link.
pub record Ledger : Type 0 where
  pub buffer : ClickBuffer
  pub accepted : ℕ
  pub delivered : ℕ

abbrev pub or_same : ClickBuffer → Result ClickBuffer → ClickBuffer
or_same b (ok c) = c
or_same b (throw e) = b

accept : Ledger → Result ClickBuffer → Ledger
accept l (ok b) = record l { buffer = b; accepted = l.accepted + 1 }
accept l (throw e) = l

-- The clicks that an answer delivers.
abbrev delivered_by : Flush → Answer → ℕ
delivered_by (writing batch) (wrote answer) = matched batch (unmatched_of answer)
delivered_by _ _ = 0

pub ledger_step : Ledger → Event → Ledger
unfolding accept
ledger_step l starts = record l { buffer = or_same l.buffer (start l.buffer) }
ledger_step l flushes = record l { buffer = flush l.buffer }
ledger_step l clears = record l { buffer = clear_flush l.buffer }
ledger_step l closes = record l { buffer = begin_close l.buffer }
ledger_step l (clicks code) = accept l (record_click l.buffer code)
ledger_step l (answers a) = record l {
  buffer = answer_flush a l.buffer;
  delivered = l.delivered + delivered_by l.buffer.flush_promise a;
}

pub ledger_run : Ledger → List Event → Ledger
ledger_run l [] = l
ledger_run l (e ∷ es) = ledger_run (ledger_step l e) es

-- The sink returns a set: no code twice.
abbrev pub IsSetAnswer : Event → Type 0
IsSetAnswer (answers (wrote (some codes))) = AllDistinct codes
IsSetAnswer _ = Unit {0}

abbrev pub SetAnswers : List Event → Type 0
SetAnswers [] = Unit
SetAnswers (e ∷ es) = IsSetAnswer e × SetAnswers es

-- The clicks of the batch at the sink.
abbrev pub at_sink : Flush → ℕ
at_sink (writing batch) = total batch
at_sink _ = 0

abbrev pub SinkDistinct : Flush → Type 0
SinkDistinct (writing batch) = AllDistinct (keys batch)
SinkDistinct _ = Unit {0}

-- Every accepted click is pending, at the sink, delivered or dropped, and `pendingTotal` counts the
-- pending ones.
pub record Balanced (l : Ledger) : Type 0 where
  pub balance :
      l.accepted
      ≡ l.delivered + l.buffer.dropped + total l.buffer.pending + at_sink l.buffer.flush_promise
  pub sound : Sound l.buffer
  pub sink : SinkDistinct l.buffer.flush_promise

-- The part of the balance that stays with the buffer.
abbrev held : ClickBuffer → ℕ
held b = b.dropped + total b.pending + at_sink b.flush_promise

record Same (b c : ClickBuffer) : Type 0 where
  weight : held c ≡ held b
  sound : Sound c
  sink : SinkDistinct c.flush_promise

begin_flush-Same :
    (b : ClickBuffer) (m : Map ℕ)
    → b.pending ≡ m
    → b.flush_promise ≡ no_flush
    → Sound b
    → Same b (begin_flush b m)
unfolding begin_flush
begin_flush-Same b [] e f s = record {
  weight = omega (arith, ap at_sink f);
  sound = record { counted = s.counted; distinct = s.distinct };
  sink = tt;
}
begin_flush-Same b (x ∷ m) e f s = record {
  weight = omega (arith, ap at_sink f, ap total e);
  sound = record { counted = refl; distinct = tt };
  sink = subst (λ p. AllDistinct (keys p)) e s.distinct;
}

unchanged : {b : ClickBuffer} → Sound b → SinkDistinct b.flush_promise → Same b b
unchanged s d = record { weight = refl; sound = s; sink = d }

flush_unless-Same :
    (p : Flush) (b : ClickBuffer)
    → b.flush_promise ≡ p
    → Sound b
    → SinkDistinct b.flush_promise
    → Same b (flush_unless p b)
unfolding flush_unless
flush_unless-Same no_flush b f s d = begin_flush-Same b b.pending refl f s
flush_unless-Same _ b f s d = unchanged s d

flush-Same : (b : ClickBuffer) → Sound b → SinkDistinct b.flush_promise → Same b (flush b)
unfolding flush
flush-Same b s d = flush_unless-Same b.flush_promise b refl s d

flush_if_full-Same :
    (b : ClickBuffer) → Sound b → SinkDistinct b.flush_promise → Same b (flush_if_full b)
unfolding flush_if_full
flush_if_full-Same b s d = elim (Bool-cases (leb b.max_pending_clicks b.pending_total)) [
  | inl full ↦ rw (full, flush_if_full) (flush-Same b s d)
  | inr room ↦ rw (room, flush_if_full) (unchanged s d)
]

add_pending-sink :
    (code : Text) (n : ℕ) (b : ClickBuffer)
    → SinkDistinct b.flush_promise
    → SinkDistinct (add_pending code n b).flush_promise
unfolding add_pending
add_pending-sink code n b d = d

add_pending-held :
    (code : Text) (n : ℕ) (b : ClickBuffer)
    → ((add_pending code n b).dropped ≡ b.dropped)
      × (at_sink (add_pending code n b).flush_promise ≡ at_sink b.flush_promise)
unfolding add_pending
add_pending-held code n b = (refl, refl)

-- What an accepted click does.
record_click-Sound :
    (b c : ClickBuffer) (code : Text)
    → Sound b
    → SinkDistinct b.flush_promise
    → record_click b code ≡ ok c
    → (held c ≡ held b + 1) × Sound c × SinkDistinct c.flush_promise
unfolding record_click
record_click-Sound b c code s d e =
    let (_, _, e1) = >>=-eq-ok (guard (not b.closed) _) _ e in
    let (_, _, e2) = >>=-eq-ok (guard (not (is_empty code)) _) _ e1 in
    let same : flush_if_full (add_pending code 1 b) ≡ c = cc in
    let (t, w) = add_pending-Sound code 1 b s in
    let k = flush_if_full-Same (add_pending code 1 b) t (add_pending-sink code 1 b d) in
    rw (← same) (omega (arith, k.weight, w, add_pending-held code 1 b), k.sound, k.sink)

clear-Same :
    (p : Flush) (b : ClickBuffer)
    → b.flush_promise ≡ p
    → Sound b
    → SinkDistinct b.flush_promise
    → Same b (record b { flush_promise = clear_promise p })
unfolding clear_promise
clear-Same no_flush b f s d = record {
  weight = omega (arith, ap at_sink f);
  sound = record { counted = s.counted; distinct = s.distinct };
  sink = tt;
}
clear-Same written b f s d = record {
  weight = omega (arith, ap at_sink f);
  sound = record { counted = s.counted; distinct = s.distinct };
  sink = tt;
}
clear-Same (writing m) b f s d = record {
  weight = omega (arith, ap at_sink f);
  sound = record { counted = s.counted; distinct = s.distinct };
  sink = subst SinkDistinct f d;
}

unmatched-distinct :
    (codes : Option (List Text))
    → IsSetAnswer (answers (wrote codes))
    → AllDistinct (unmatched_of codes)
unmatched-distinct none set = tt
unmatched-distinct (some codes) set = set

-- An answer moves the delivered clicks out of the buffer, and all others stay.
answered :
    (p : Flush) (a : Answer) (b : ClickBuffer)
    → b.flush_promise ≡ p
    → IsSetAnswer (answers a)
    → Sound b
    → SinkDistinct b.flush_promise
    → (held (sink_answered p a b) + delivered_by p a ≡ held b)
      × Sound (sink_answered p a b)
      × SinkDistinct (sink_answered p a b).flush_promise
unfolding sink_answered end_flush
answered (writing batch) failed b f set s d =
    let (t, w, k) = restore-Sound batch b s in
    (omega (arith, ap at_sink f), record { counted = t.counted; distinct = t.distinct }, tt)
answered (writing batch) (wrote codes) b f set s d =
    let u = unmatched_of codes in
    let c : ClickBuffer = record b {
      unmatched_attempts = forget_matched batch u b.unmatched_attempts;
    } in
    let (t, w) =
      retry_all-Sound batch u c (record { counted = s.counted; distinct = s.distinct }) in
    (
      omega (
        arith,
        ap at_sink f,
        w,
        sum_of-matched batch u (subst SinkDistinct f d) (unmatched-distinct codes set),
      ),
      record { counted = t.counted; distinct = t.distinct },
      tt,
    )
answered no_flush a b f set s d = (omega arith, s, d)
answered written a b f set s d = (omega arith, s, d)

started-Same :
    (b : ClickBuffer) (closed : Bool)
    → Sound b
    → SinkDistinct b.flush_promise
    → Same b (
        or_same b
          (if closed then throw "click buffer is closed" else ok (record b { timer = true })))
started-Same b true s d = unchanged s d
started-Same b false s d = record {
  weight = refl;
  sound = record { counted = s.counted; distinct = s.distinct };
  sink = d;
}

start-Same :
    (b : ClickBuffer) → Sound b → SinkDistinct b.flush_promise → Same b (or_same b (start b))
unfolding start
start-Same b s d = started-Same b b.closed s d

Same-Balanced :
    (l : Ledger) (c : ClickBuffer)
    → Balanced l
    → Same l.buffer c
    → Balanced (record l { buffer = c })
Same-Balanced l c v k = record {
  balance = omega (arith, k.weight, v.balance);
  sound = k.sound;
  sink = k.sink;
}

accept-Balanced :
    (l : Ledger) (code : Text) (r : Result ClickBuffer)
    → record_click l.buffer code ≡ r
    → Balanced l
    → Balanced (accept l r)
unfolding accept
accept-Balanced l code (throw e) h v = v
accept-Balanced l code (ok c) h v =
    let (w, s, d) = record_click-Sound l.buffer c code v.sound v.sink h in
    record { balance = omega (arith, w, v.balance); sound = s; sink = d }

ledger_step-Balanced :
    (l : Ledger) (e : Event) → IsSetAnswer e → Balanced l → Balanced (ledger_step l e)
unfolding ledger_step clear_flush begin_close answer_flush
ledger_step-Balanced l starts set v = Same-Balanced l _ v (start-Same l.buffer v.sound v.sink)
ledger_step-Balanced l flushes set v = Same-Balanced l _ v (flush-Same l.buffer v.sound v.sink)
ledger_step-Balanced l clears set v =
    Same-Balanced l _ v (clear-Same l.buffer.flush_promise l.buffer refl v.sound v.sink)
ledger_step-Balanced l closes set v = record {
  balance = v.balance;
  sound = record { counted = v.sound.counted; distinct = v.sound.distinct };
  sink = v.sink;
}
ledger_step-Balanced l (clicks code) set v =
    accept-Balanced l code (record_click l.buffer code) refl v
ledger_step-Balanced l (answers a) set v =
    let (w, s, d) = answered l.buffer.flush_promise a l.buffer refl set v.sound v.sink in
    record { balance = omega (arith, w, v.balance); sound = s; sink = d }

-- From a balanced ledger, whatever starts, clicks, flushes, answers of the sink, failures among
-- them, and closings follow in whatever order: every accepted click is pending, in the batch at the
-- sink, delivered, or dropped, in exactly one of these, and `pendingTotal` is the number of pending
-- clicks. The sink's answers must be sets.
pub ledger_run-Balanced :
    (l : Ledger) (es : List Event) → SetAnswers es → Balanced l → Balanced (ledger_run l es)
unfolding ledger_run
ledger_run-Balanced l [] set v = v
ledger_run-Balanced l (e ∷ es) set v =
    ledger_run-Balanced (ledger_step l e) es set.1 (ledger_step-Balanced l e set.0 v)
